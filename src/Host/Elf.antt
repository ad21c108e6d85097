-- ===== src/Host/Elf.antt =====
-- lib/host/src/elffile.cpp and elffile.h: an ELF file that is opened, mapped and handed to the ELF
-- library, which is the parameter `Libelf`. `E` is its handle and `S` the state of the system.
pub mod Initialized
use keystone_sdk.Base.{ℕ, ◌^◌, Bool, true, false, not, ◌&&◌, List, ltb, ◌==◌, if◌then◌else◌, sub64}
use keystone_sdk.Host.Common.{page_bits, round_up, is_aligned, rt_full, user_full}

-- The functions of the ELF library that are called, on its handle and a program header's number. A
-- segment is the bytes at its offsets.
pub record Libelf (E : Type 0) : Type 0 where
  pub new_file : (ptr size : ℕ) → ℕ × E
  pub memory_bounds : E → ℕ × ℕ
  pub num_program_headers : E → ℕ
  pub header_type : E → ℕ → ℕ
  pub header_file_size : E → ℕ → ℕ
  pub header_memory_size : E → ℕ → ℕ
  pub header_vaddr : E → ℕ → ℕ
  pub entry_point : E → ℕ
  pub program_segment : E → ℕ → ℕ → ℕ

-- `open`, `fstat` with its code and the size, `mmap` of a file, and `close` with `munmap`. An `int` is its 32-bit pattern.
pub record FileSystem (S : Type 0) : Type 0 where
  pub open_file : (path : List ℕ) → S → ℕ × S
  pub fstat : (fd : ℕ) → S → ℕ × ℕ
  pub map_file : (size fd : ℕ) → S → ℕ × S
  pub close_file : (fd ptr size : ℕ) → S → S

pub record ElfFile (E : Type 0) : Type 0 where
  pub filep : ℕ
  pub min_vaddr : ℕ
  pub max_vaddr : ℕ
  pub ptr : ℕ
  pub file_size : ℕ
  pub is_runtime : Bool
  pub elf : E

module _ {S : Type 0} (fs : FileSystem S) where
  unfoldable pub fstat_file_size : (fd : ℕ) → S → ℕ
  fstat_file_size fd os = let (rc, size) = fs.fstat fd os in if rc == 0 then size else 0

  -- The constructor; `unset` is what the fields hold that it does not set.
  unfoldable pub new_elf_file :
      {E : Type 0} → (unset : ElfFile E) (path : List ℕ) → S → ElfFile E × S
  unfolding fstat_file_size
  new_elf_file unset path os =
      let (fd, opened) = fs.open_file path os in
      let size = fstat_file_size fd opened in
      let (ptr, mapped) = fs.map_file size fd opened in
      if ltb fd (2 ^ 31)
      then (record unset { filep = fd; file_size = size; ptr = ptr }, mapped)
      else (record unset { filep = fd; file_size = 0; ptr = 0 }, opened)

  -- The destructor.
  unfoldable pub delete_elf_file : {E : Type 0} → ElfFile E → S → S
  delete_elf_file f os = fs.close_file f.filep f.ptr f.file_size os

module _ {E : Type 0} where
  -- `filep > 0`, of an `int`
  unfoldable pub is_valid_file : ElfFile E → Bool
  is_valid_file f =
      (ltb 0 f.filep && ltb f.filep (2 ^ 31)) && (ltb 0 f.file_size && not (f.ptr == 0))

  unfoldable pub total_memory_size : ElfFile E → ℕ
  total_memory_size f = sub64 f.max_vaddr f.min_vaddr

  unfoldable pub page_mode : ElfFile E → ℕ
  page_mode f = if f.is_runtime then rt_full else user_full

  unfoldable pub initialize : Libelf E → (is_runtime : Bool) → ElfFile E → Bool × ElfFile E
  unfolding is_valid_file
  initialize lib is_runtime f =
      let (code, elf) = lib.new_file f.ptr f.file_size in
      let (low, high) = lib.memory_bounds elf in
      if not (is_valid_file f)
      then (false, f)
      else if not (code == 0)
      then (false, record f { elf = elf })
      else if not (is_aligned low 4096)
      then (false, record f { elf = elf; min_vaddr = low; max_vaddr = high })
      else (
        true,
        record f {
          elf = elf;
          min_vaddr = low;
          max_vaddr = round_up high page_bits;
          is_runtime = is_runtime;
        },
      )

-- The wrappers of the ELF library's functions.
module _ {E : Type 0} (lib : Libelf E) where
  unfoldable pub get_num_program_headers : ElfFile E → ℕ
  get_num_program_headers f = lib.num_program_headers f.elf

  unfoldable pub get_program_header_type : ElfFile E → (ph : ℕ) → ℕ
  get_program_header_type f ph = lib.header_type f.elf ph

  unfoldable pub get_program_header_file_size : ElfFile E → (ph : ℕ) → ℕ
  get_program_header_file_size f ph = lib.header_file_size f.elf ph

  unfoldable pub get_program_header_memory_size : ElfFile E → (ph : ℕ) → ℕ
  get_program_header_memory_size f ph = lib.header_memory_size f.elf ph

  unfoldable pub get_program_header_vaddr : ElfFile E → (ph : ℕ) → ℕ
  get_program_header_vaddr f ph = lib.header_vaddr f.elf ph

  unfoldable pub get_entry_point : ElfFile E → ℕ
  get_entry_point f = lib.entry_point f.elf

  unfoldable pub get_program_segment : ElfFile E → (ph : ℕ) → ℕ → ℕ
  get_program_segment f ph = lib.program_segment f.elf ph
