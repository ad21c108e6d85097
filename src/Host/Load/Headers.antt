-- ===== src/Host/Load/Headers.antt =====
-- The loop of `loadELF` of lib/host/src/keystone.cpp over the program headers, for a simulated enclave.
use keystone_sdk.Base.{
  ℕ, zero, suc, ◌+◌, ◌-◌, ◌*◌, ◌%◌, ◌^◌, ◌≤◌, ◌<◌, ◌≡◌, ◌⊎◌, inl, inr, refl, arith, true, false,
  some, Bool-cases, if◌then◌else◌, IsWord, ◌==◌, ◌∙◌,
}
use keystone_sdk.Host.Common.{success}
use keystone_sdk.Host.Elf.{
  Libelf, ElfFile, get_program_header_type, get_program_header_file_size,
  get_program_header_memory_size, get_program_header_vaddr, get_program_segment,
}
use keystone_sdk.Host.Enclave.{Keystone, mode_flags, mode_writes}
use keystone_sdk.Host.Enclave.Alloc.{IsSpace}
use keystone_sdk.Host.Load.{Cursor, pt_load, load_segment, load_headers, then_step, enclave_of}
use keystone_sdk.Host.Load.Content.{Holds}
use keystone_sdk.Host.Load.Loops.{IsFree}
use keystone_sdk.Host.Load.Rest.{pages_of}
use keystone_sdk.Host.Load.Segment.{segment_byte, load_segment-IsFilled}

module _ {E : Type 0} (lib : Libelf E) (file : ElfFile E) where
  abbrev pub IsLoadable : ℕ → Type 0
  IsLoadable i = (get_program_header_type lib file i == pt_load) ≡ true

  -- The offset at which a segment starts in its first page, and that page.
  abbrev pub offset_of : ℕ → ℕ
  offset_of i = get_program_header_vaddr lib file i % 4096

  abbrev pub start_of : ℕ → ℕ
  start_of i = get_program_header_vaddr lib file i - offset_of i

  -- The pages of a segment, and those of all segments from a header on.
  abbrev pub pages_at : ℕ → ℕ
  pages_at i = pages_of (offset_of i + get_program_header_memory_size lib file i)

  abbrev pub all_pages : (left i : ℕ) → ℕ
  all_pages zero i = 0
  all_pages (suc left) i =
      (if get_program_header_type lib file i == pt_load then pages_at i else 0)
      + all_pages left (i + 1)

  -- The byte of a segment's pages in memory.
  abbrev pub byte_of : (i j : ℕ) → ℕ
  byte_of i j =
      segment_byte (get_program_segment lib file i) (offset_of i)
        (get_program_header_file_size lib file i) j

  -- The first `n` headers lie in order: each segment that is loaded starts at a page or else fills the rest
  -- of its first page from the file, is not shorter in memory than in the file, and its pages lie behind
  -- those of the segments before it, all within 2^39 bytes.
  pub record IsLayout (fuel n : ℕ) : Type 0 where
    pub first :
        (i : ℕ)
        → i < n
        → IsLoadable i
        → (offset_of i ≡ 0) ⊎ (4096 ≤ offset_of i + get_program_header_file_size lib file i)
    pub longer :
        (i : ℕ)
        → i < n
        → IsLoadable i
        → get_program_header_file_size lib file i ≤ get_program_header_memory_size lib file i
    pub word :
        (i : ℕ)
        → i < n
        → IsLoadable i
        → IsWord
            (get_program_header_vaddr lib file i + get_program_header_memory_size lib file i + 8192)
    pub small :
        (i : ℕ)
        → i < n
        → IsLoadable i
        → offset_of i + get_program_header_memory_size lib file i + 4096 < 2 ^ 39
    pub fuelled : (i : ℕ) → i < n → IsLoadable i → pages_at i < fuel
    pub ordered :
        (i j : ℕ)
        → i < j
        → j < n
        → IsLoadable i
        → IsLoadable j
        → (start_of i + 4096 * pages_at i ≤ start_of j)
          × (start_of j + 4096 * pages_at j ≤ start_of i + 2 ^ 39)

  module _ {S : Type 0} (lo limit : ℕ) where
    -- The headers from `i` to `end` are loaded: their addresses hold the bytes of the segments, and what was
    -- held before still is.
    pub record IsLoadedFile (k : Keystone E S) (is : IsSpace lo limit k) (i end : ℕ)
        (k' : Keystone E S) : Type 0 where
      pub after : IsSpace lo limit k'
      pub kept : (x b : ℕ) → Holds lo limit k is x b → Holds lo limit k' after x b
      pub holds :
          (h : ℕ)
          → i ≤ h
          → h < end
          → IsLoadable h
          → (j : ℕ) → j < 4096 * pages_at h
          → Holds lo limit k' after (start_of h + j) (byte_of h j)

    at_header :
        (k : Keystone E S) (is : IsSpace lo limit k) (h i : ℕ)
        → h ≡ i
        → ((j : ℕ) → j < 4096 * pages_at i → Holds lo limit k is (start_of i + j) (byte_of i j))
        → (j : ℕ) → j < 4096 * pages_at h
        → Holds lo limit k is (start_of h + j) (byte_of h j)
    at_header k is h i same all = rw same all

    module _ (mmap : (size offset : ℕ) → ℕ) (walk_fuel mode flags : ℕ)
        (known : mode_flags mode ≡ some flags) (writes : mode_writes mode ≡ true)
        (f : 2 < walk_fuel) (fuel n : ℕ) (few : n < 2 ^ 32) (layout : IsLayout fuel n) where
      load_headers-skip :
          (left i : ℕ) (k : Keystone E S)
          → i + 1 < 2 ^ 32
          → (get_program_header_type lib file i == pt_load) ≡ false
          → load_headers mmap walk_fuel mode lib file fuel (suc left) i k
            ≡ load_headers mmap walk_fuel mode lib file fuel left (i + 1) k
      unfolding load_headers
      load_headers-skip left i k lt other =
          let next : (i + 1) % 2 ^ 32 ≡ i + 1 = omega arith in rw (next, other) refl

      load_headers-load :
          (left i : ℕ) (k : Keystone E S) (c : Cursor E S)
          → i + 1 < 2 ^ 32
          → IsLoadable i
          → load_segment mmap walk_fuel mode fuel
              (get_program_segment lib file i)
              (get_program_header_vaddr lib file i)
              (get_program_header_file_size lib file i)
              (get_program_header_memory_size lib file i)
              k
            ≡ some (success, c)
          → load_headers mmap walk_fuel mode lib file fuel (suc left) i k
            ≡ load_headers mmap walk_fuel mode lib file fuel left (i + 1) c.k
      unfolding load_headers then_step enclave_of
      load_headers-load left i k c lt loads run =
          let next : (i + 1) % 2 ^ 32 ≡ i + 1 = omega arith in rw (next, loads, run) refl

      pub load_headers-IsLoadedFile :
          (left i : ℕ) (k : Keystone E S) (is : IsSpace lo limit k)
          → i + left ≤ n
          → k.epm_free_list + 12288 * all_pages left i ≤ limit
          → ((h : ℕ) → i ≤ h → h < i + left → IsLoadable h → IsFree k (start_of h) (pages_at h))
          → (k' : Keystone E S) × (load_headers mmap walk_fuel mode lib file fuel left i k
              ≡ some (success, k'))
            × IsLoadedFile k is i (i + left) k'
      unfolding load_headers
      load_headers-IsLoadedFile zero i k is le room free =
          (k, refl, record { after = is; kept = λ x b h. h; holds = λ h p q. absurd (omega arith) })
      load_headers-IsLoadedFile (suc left) i k is le room free =
          elim (Bool-cases (get_program_header_type lib file i == pt_load)) [
            | inl loads ↦
                let room' = rw loads at room in
                let (src, k1, run, filled) =
                  load_segment-IsFilled mmap lo limit walk_fuel mode flags known writes f fuel
                    (get_program_segment lib file i) (get_program_header_vaddr lib file i)
                    (get_program_header_file_size lib file i)
                    (get_program_header_memory_size lib file i) k is
                    (layout.first i (omega arith) loads) (layout.longer i (omega arith) loads)
                    (layout.word i (omega arith) loads) (layout.small i (omega arith) loads)
                    (layout.fuelled i (omega arith) loads) (omega arith)
                    (free i (omega arith) (omega arith) loads) in
                let (k2, rest, r) =
                  load_headers-IsLoadedFile left (i + 1) k1 filled.after (omega arith)
                    (omega (arith, filled.bound))
                    (λ h p q l x a b.
                      let o = layout.ordered i h (omega arith) (omega arith) loads l in
                      filled.rest x (omega arith) (omega arith)
                      ∙ free h (omega arith) (omega arith) l x a b) in
                (
                  k2,
                  load_headers-load left i k _ (omega arith) loads run ∙ rest,
                  record {
                    after = r.after;
                    kept = λ x b h. r.kept x b (filled.kept x b h);
                    holds = λ h p q l j lt. elim (first_or_later i h p) [
                      | inl same ↦
                          r.kept (start_of h + j) (byte_of h j)
                            (at_header k1 filled.after h i same filled.holds j lt)
                      | inr later ↦ r.holds h (omega arith) (omega arith) l j lt
                    ];
                  },
                )
            | inr other ↦
                let room' = rw other at room in
                let (k2, rest, r) =
                  load_headers-IsLoadedFile left (i + 1) k is (omega arith) (omega arith)
                    (λ h p q l. free h (omega arith) (omega arith) l) in
                (
                  k2,
                  load_headers-skip left i k (omega arith) other ∙ rest,
                  record {
                    after = r.after;
                    kept = r.kept;
                    holds = λ h p q l j lt. elim (first_or_later i h p) [
                      | inl same ↦ absurd (let l' = rw same at l in cc)
                      | inr later ↦ r.holds h (omega arith) (omega arith) l j lt
                    ];
                  },
                )
          ]
        where
          first_or_later : (i h : ℕ) → i ≤ h → (h ≡ i) ⊎ (i + 1 ≤ h)
          first_or_later i h p = omega arith
