-- ===== src/Host/Load.antt =====
-- `loadELF` of lib/host/src/keystone.cpp: the segments of an ELF file are copied into pages of the
-- enclave's memory. `walk_fuel` bounds each walk over the page tables, `fuel` each loop over pages.
pub mod Content
pub mod Headers
pub mod Loops
pub mod Rest
pub mod Segment
pub mod Whole
mod Tests
use keystone_sdk.Base.{
  ℕ, zero, suc, ◌+◌, ◌-◌, ◌/◌, ◌%◌, ◌^◌, Bool, true, false, not, ◌&&◌, Option, none, some, ltb, leb,
  ◌==◌, if◌then◌else◌, add64, sub64,
}
use keystone_sdk.Host.Common.{
  page_up, page_down, is_aligned, round_down, page_bits, Status, success, error,
}
use keystone_sdk.Host.Elf.{
  Libelf, ElfFile, total_memory_size, page_mode, get_num_program_headers, get_program_header_type,
  get_program_header_file_size, get_program_header_memory_size, get_program_header_vaddr,
  get_program_segment,
}
use keystone_sdk.Host.Memory.{read_mem}
use keystone_sdk.Host.Page.{epm_alloc_vspace}
use keystone_sdk.Host.Enclave.{Keystone, epm, alloc_page, null_page}

-- `PT_LOAD`
abbrev pub pt_load : ℕ
pt_load = 1

-- `va` and `src`, the latter as an offset into the segment, and the enclave.
pub record Cursor (E S : Type 0) : Type 0 where
  pub va : ℕ
  pub src : ℕ
  pub k : Keystone E S

-- A page of zeros with `length` bytes of `bytes` from `offset` on.
unfoldable pub page_with : (bytes : ℕ → ℕ) → (offset length : ℕ) → ℕ → ℕ
page_with bytes offset length i =
    if leb offset i && ltb i (offset + length) then bytes (i - offset) else 0

-- A step that is taken when the one before it was a success.
unfoldable pub then_step :
    {A : Type 0} → Option (Status × A) → (A → Option (Status × A)) → Option (Status × A)
then_step none step = none
then_step (some (error, c)) step = some (error, c)
then_step (some (success, c)) step = step c

module _ {E S : Type 0} (mmap : (size offset : ℕ) → ℕ) (walk_fuel mode : ℕ) where
  -- `allocPage` at `va`, after which `va` and `src` go on by `step`.
  unfoldable pub put_page :
      (va : ℕ) (content : ℕ → ℕ) (step : ℕ) → Cursor E S → Option (Status × Cursor E S)
  put_page va content step c = elim (alloc_page mmap walk_fuel va epm content mode c.k) [
    | none ↦ none
    | some (error, k) ↦ some (error, record c { k = k })
    | some (success, k) ↦
        some (success, record { va = add64 c.va step; src = add64 c.src step; k = k })
  ]

  -- The first page of a segment that does not start at a page.
  unfoldable pub load_misaligned : (bytes : ℕ → ℕ) → Cursor E S → Option (Status × Cursor E S)
  load_misaligned bytes c =
      let offset = sub64 c.va (page_down c.va) in
      let length = sub64 (page_up c.va) c.va in
      if is_aligned c.va 4096
      then some (success, c)
      else put_page (page_down c.va) (page_with bytes offset length) length c

  -- The loop over the pages that the file fills.
  unfoldable pub load_pages :
      (fuel : ℕ) (bytes : ℕ → ℕ) (file_end : ℕ) → Cursor E S → Option (Status × Cursor E S)
  load_pages zero bytes file_end c = none
  load_pages (suc fuel) bytes file_end c =
      let next =
        then_step (put_page c.va (λ i. bytes (c.src + i)) 4096 c)
          (load_pages fuel bytes file_end) in
      if leb (add64 c.va 4096) file_end then next else some (success, c)

  -- The page that the file fills in part.
  unfoldable pub load_mixed :
      (bytes : ℕ → ℕ) (file_end : ℕ) → Cursor E S → Option (Status × Cursor E S)
  load_mixed bytes file_end c =
      if ltb c.va file_end
      then put_page c.va (page_with (λ i. bytes (c.src + i)) 0 (sub64 file_end c.va)) 4096 c
      else some (success, c)

  -- The loop over the pages of the .bss segment.
  unfoldable pub load_zeros : (fuel memory_end : ℕ) → Cursor E S → Option (Status × Cursor E S)
  load_zeros zero memory_end c = none
  load_zeros (suc fuel) memory_end c =
      let next = then_step (put_page c.va null_page 4096 c) (load_zeros fuel memory_end) in
      if ltb c.va memory_end then next else some (success, c)

  -- The body of the loop over the program headers, for a segment that is loaded.
  unfoldable pub load_segment :
      (fuel : ℕ) (bytes : ℕ → ℕ) (start file_size memory_size : ℕ)
      → Keystone E S
      → Option (Status × Cursor E S)
  load_segment fuel bytes start file_size memory_size k =
      let file_end = add64 start file_size in
      let memory_end = add64 start memory_size in
      then_step
        (then_step
          (then_step (load_misaligned bytes (record { va = start; src = 0; k = k }))
            (load_pages fuel bytes file_end))
          (load_mixed bytes file_end))
        (load_zeros fuel memory_end)

  unfoldable pub enclave_of : Option (Status × Cursor E S) → Option (Status × Keystone E S)
  enclave_of none = none
  enclave_of (some (code, c)) = some (code, c.k)

  -- The loop, with `left` headers to go from header `i` on, an `unsigned int`.
  unfoldable pub load_headers :
      (lib : Libelf E) (f : ElfFile E) (fuel left i : ℕ)
      → Keystone E S
      → Option (Status × Keystone E S)
  load_headers lib f fuel zero i k = some (success, k)
  load_headers lib f fuel (suc left) i k =
      let next = (i + 1) % 2 ^ 32 in
      let skipped = load_headers lib f fuel left next k in
      let loaded =
        then_step
          (enclave_of (
            load_segment fuel (get_program_segment lib f i) (get_program_header_vaddr lib f i)
              (get_program_header_file_size lib f i) (get_program_header_memory_size lib f i) k))
          (load_headers lib f fuel left next) in
      if get_program_header_type lib f i == pt_load then loaded else skipped

unfoldable pub with_start :
    {A : Type 0} → (start : ℕ) → Option (Status × A) → Option (Status × ℕ × A)
with_start start none = none
with_start start (some (code, k)) = some (code, start, k)

-- `loadELF`, which returns `*data_start` too: 0 stands for one that is not set.
unfoldable pub load_elf :
    {E S : Type 0} (mmap : (size offset : ℕ) → ℕ) (lib : Libelf E) (walk_fuel fuel : ℕ)
    → ElfFile E
    → Keystone E S
    → Option (Status × ℕ × Keystone E S)
load_elf mmap lib walk_fuel fuel f k =
    let num_pages = round_down (total_memory_size f) page_bits / 4096 in
    elim (epm_alloc_vspace (λ src. read_mem mmap k.memory src 4096) walk_fuel k.root_page_table
      f.min_vaddr num_pages (record { mem = k.mem; free = k.epm_free_list })) [
        | none ↦ none
        | some (count, s) ↦
            let k' = record k { mem = s.mem; epm_free_list = s.free } in
            if count == num_pages
            then with_start s.free (
                load_headers mmap walk_fuel (page_mode f) lib f fuel (get_num_program_headers lib f)
                  0 k')
            else some (error, 0, k')
      ]
