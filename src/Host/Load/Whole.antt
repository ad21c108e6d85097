-- ===== src/Host/Load/Whole.antt =====
-- `loadELF` of lib/host/src/keystone.cpp as a whole, for a simulated enclave.
use keystone_sdk.Base.{
  ℕ, ◌+◌, ◌^◌, ◌*◌, ◌/◌, ◌%◌, ◌≤◌, ◌<◌, ◌≡◌, refl, arith, Bool, true, false, some, if◌then◌else◌,
  ◌==◌, ◌∙◌, ap,
}
use keystone_sdk.Host.Common.{success, round_down, rt_full, user_full}
use keystone_sdk.Host.Elf.{Libelf, ElfFile, get_num_program_headers, total_memory_size, page_mode}
use keystone_sdk.Host.Memory.{EnclaveMemory, simulated, read_mem}
use keystone_sdk.Host.Page.{Pages, epm_alloc_vspace}
use keystone_sdk.Host.Page.Tables.{direct}
use keystone_sdk.Host.Page.Vspace.{epm_alloc_vspace-IsReserved}
use keystone_sdk.Host.Enclave.{Keystone, mode_flags, mode_writes}
use keystone_sdk.Host.Enclave.Alloc.{space, IsSpace}
use keystone_sdk.Host.Load.{load_headers, load_elf, with_start}
use keystone_sdk.Host.Load.Headers.{
  IsLoadable, start_of, pages_at, all_pages, IsLayout, IsLoadedFile, load_headers-IsLoadedFile,
}
use keystone_sdk.Host.Load.Loops.{IsFree}

page_mode_known :
    {E : Type 0} (file : ElfFile E)
    → (mode_flags (page_mode file) ≡ some (if file.is_runtime then 0x1cf else 0x1df))
      × (mode_writes (page_mode file) ≡ true)
unfolding mode_flags mode_writes page_mode
page_mode_known file = by_kind file.is_runtime
  where
    by_kind :
        (is_runtime : Bool)
        → (mode_flags (if is_runtime then rt_full else user_full)
            ≡ some (if is_runtime then 0x1cf else 0x1df))
          × (mode_writes (if is_runtime then rt_full else user_full) ≡ true)
    by_kind true = (refl, refl)
    by_kind false = (refl, refl)

simulated-direct :
    (mmap : (size offset : ℕ) → ℕ) (memory : EnclaveMemory)
    → memory ≡ simulated
    → (λ src. read_mem mmap memory src 4096) ≡ direct
unfolding read_mem
simulated-direct mmap memory h =
    ap (λ (mm : EnclaveMemory). λ (src : ℕ). read_mem mmap mm src 4096) h

-- The pages for which `loadELF` adds the tables before it loads.
abbrev pub reserved_pages : {E : Type 0} → ElfFile E → ℕ
reserved_pages file = round_down (total_memory_size file) 12 / 4096

module _ {E S : Type 0} (mmap : (size offset : ℕ) → ℕ) (lib : Libelf E) (file : ElfFile E)
    (walk_fuel fuel : ℕ) where
  load_elf-parts :
      (k k' : Keystone E S) (s : Pages)
      → k.memory ≡ simulated
      → epm_alloc_vspace direct walk_fuel k.root_page_table file.min_vaddr
          (reserved_pages file)
          (record { mem = k.mem; free = k.epm_free_list })
        ≡ some (reserved_pages file, s)
      → load_headers mmap walk_fuel
          (page_mode file)
          lib
          file
          fuel
          (get_num_program_headers lib file)
          0
          (record k { mem = s.mem; epm_free_list = s.free })
        ≡ some (success, k')
      → load_elf mmap lib walk_fuel fuel file k ≡ some (success, s.free, k')
  unfolding load_elf with_start
  load_elf-parts k k' s sim run headers =
      let self : (reserved_pages file == reserved_pages file) ≡ true = ground arith in
      rw (load_elf, simulated-direct mmap k.memory sim, run, self, headers) refl

  -- `loadELF` into a simulated enclave whose memory does not start at address 0, and whose page tables form
  -- a tree in it, returns success for a file of fewer than 2^32 program headers of which each segment that
  -- is loaded
  -- - starts at a page, or else has enough bytes in the file to fill the rest of its first page,
  -- - is not shorter in memory than in the file,
  -- - ends at most 8192 below 2^64 and spans, counted from its first page, less than 2^39 - 4096 bytes,
  -- - has its pages behind those of the segments of the headers before it, so that no page is shared, and
  --   within 2^39 bytes of each of their starts,
  -- when none of these pages is mapped and there is room for two pages for each page of the file's range and
  -- three for each page of a segment. Afterwards every address of a segment's pages is mapped to a page of
  -- data that holds its byte, of the file where the segment has one there and zero before and behind it,
  -- the page tables are a tree, and what other addresses held they still hold. 3 is enough fuel for a walk,
  -- and more than the number of pages of each segment for the loops.
  pub load_elf-IsLoadedFile :
      (lo limit : ℕ) (k : Keystone E S) (is : IsSpace lo limit k)
      → 0 < lo
      → 2 < walk_fuel
      → get_num_program_headers lib file < 2 ^ 32
      → IsLayout lib file fuel (get_num_program_headers lib file)
      → k.epm_free_list
          + 8192 * reserved_pages file
          + 12288 * all_pages lib file (get_num_program_headers lib file) 0
        ≤ limit
      → ((h : ℕ)
          → h < get_num_program_headers lib file
          → IsLoadable lib file h
          → IsFree k (start_of lib file h) (pages_at lib file h))
      → (start : ℕ) × (k' : Keystone E S) × (load_elf mmap lib walk_fuel fuel file k
          ≡ some (success, start, k'))
        × IsLoadedFile lib file lo limit k is 0 (get_num_program_headers lib file) k'
  load_elf-IsLoadedFile lo limit k is low f few layout room free =
      let n = get_num_program_headers lib file in
      let (known, writes) = page_mode_known file in
      let (s, run, r) =
        epm_alloc_vspace-IsReserved (reserved_pages file) walk_fuel file.min_vaddr k.mem
          k.root_page_table (space lo limit k) is.shape is.tree low f (omega arith) in
      let k1 : Keystone E S = record k { mem = s.mem; epm_free_list = s.free } in
      let is1 : IsSpace lo limit k1 = record {
        is_simulated = is.is_simulated;
        shape = r.shape';
        tree = r.tree;
      } in
      let (k2, headers, l) =
        load_headers-IsLoadedFile lib file lo limit mmap walk_fuel (page_mode file) _ known writes f
          fuel n few layout n 0 k1 is1 (omega arith) (omega (arith, r.bound))
          (λ h p q loads x a b. r.kept x ∙ free h (omega arith) loads x a b) in
      let whole : 0 + n ≡ n = omega arith in
      (
        s.free,
        k2,
        load_elf-parts k k2 s is.is_simulated run headers,
        record {
          after = l.after;
          kept = λ x b (e, at, t, byte).
              let (t', bytes) = r.pages.page _ t in
              l.kept x b (e, r.kept x ∙ at, t', bytes (x % 4096) (omega arith) ∙ byte);
          holds = λ h p q. l.holds h p (omega arith);
        },
      )
