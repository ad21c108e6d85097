-- ===== src/Host/Load/Segment.antt =====
-- A segment that `loadELF` of lib/host/src/keystone.cpp loads into a simulated enclave can be read back
-- through the page tables.
use keystone_sdk.Base.{
  ℕ, ◌+◌, ◌-◌, ◌*◌, ◌%◌, ◌^◌, ◌≤◌, ◌<◌, ◌≡◌, ◌≢◌, ◌⊎◌, inl, inr, refl, arith, true, false, none,
  some, if◌then◌else◌, IsWord, leb, ltb, ◌&&◌, ◌∙◌, add64, sub64, fun_ext,
}
use keystone_sdk.Host.Common.{success, page_up, page_down, round_up, round_down, is_aligned}
use keystone_sdk.Host.Common.Rounding.{is_aligned_iff, round_down-eq, round_up_lem}
use keystone_sdk.Host.Enclave.{Keystone, mode_flags, mode_writes}
use keystone_sdk.Host.Enclave.Alloc.{IsSpace, mapping}
use keystone_sdk.Host.Load.{Cursor, page_with, load_misaligned, then_step, load_segment, put_page}
use keystone_sdk.Host.Load.Loops.{at, IsFree, Fills, put_page-IsFilled}
use keystone_sdk.Host.Load.Content.{IsFilled, IsFilled-trans}
use keystone_sdk.Host.Load.Rest.{pages_of, rest_byte, load_rest, load_rest-Fills}

-- The bytes of a segment's pages, which starts at `offset` in the first: those of the file, and zeros
-- elsewhere.
abbrev pub segment_byte : (bytes : ℕ → ℕ) (offset file_size : ℕ) → ℕ → ℕ
segment_byte bytes offset file_size j =
    if leb offset j && ltb j (offset + file_size) then bytes (j - offset) else 0

first_byte :
    (bytes : ℕ → ℕ) (file_size : ℕ) → rest_byte bytes 0 file_size ≡ segment_byte bytes 0 file_size
first_byte bytes file_size = fun_ext λ j.
    let here : j - 0 ≡ j = omega arith in
    let there : 0 + j ≡ j = omega arith in
    let size : 0 + file_size ≡ file_size = omega arith in rw (here, there, size) (ground arith)

second_byte :
    (bytes : ℕ → ℕ) (o file_size : ℕ)
    → o < 4096
    → 4096 ≤ o + file_size
    → rest_byte bytes (4096 - o) (file_size - (4096 - o))
      ≡ (λ j. segment_byte bytes o file_size (4096 * 1 + j))
second_byte bytes o file_size lt le =
    fun_ext λ j. let here : 4096 * 1 + j - o ≡ 4096 - o + j = omega arith in rw here (ground arith)

start_cases : (x : ℕ) → (x ≡ 0) ⊎ (x ≢ 0)
start_cases x = omega arith

module _ {E S : Type 0} (mmap : (size offset : ℕ) → ℕ) (lo limit walk_fuel mode flags : ℕ)
    (known : mode_flags mode ≡ some flags) (writes : mode_writes mode ≡ true)
    (f : 2 < walk_fuel) where
  load_misaligned-aligned :
      (start : ℕ) (bytes : ℕ → ℕ) (k : Keystone E S)
      → start % 4096 ≡ 0
      → load_misaligned mmap walk_fuel mode bytes (at start 0 k) ≡ some (success, at start 0 k)
  unfolding load_misaligned
  load_misaligned-aligned start bytes k al = rw ((is_aligned_iff start).1 al) refl

  load_segment-rest :
      (fuel : ℕ) (bytes : ℕ → ℕ) (start file_size memory_size : ℕ) (k : Keystone E S)
      (c : Cursor E S)
      → IsWord (start + memory_size)
      → file_size ≤ memory_size
      → load_misaligned mmap walk_fuel mode bytes (at start 0 k) ≡ some (success, c)
      → load_segment mmap walk_fuel mode fuel bytes start file_size memory_size k
        ≡ load_rest mmap lo limit walk_fuel mode flags known writes f fuel bytes
            (start + file_size)
            (start + memory_size)
            c
  unfolding load_segment then_step
  load_segment-rest fuel bytes start file_size memory_size k c word le run =
      let file_end : add64 start file_size ≡ start + file_size = omega arith in
      let memory_end : add64 start memory_size ≡ start + memory_size = omega arith in
      rw (file_end, memory_end, run) refl

  load_misaligned-page :
      (bytes : ℕ → ℕ) (start : ℕ) (k : Keystone E S) (c : Cursor E S)
      → start % 4096 ≢ 0
      → IsWord (start + 8192)
      → put_page mmap walk_fuel mode
          (start - start % 4096)
          (page_with bytes (start % 4096) (4096 - start % 4096))
          (4096 - start % 4096)
          (at start 0 k)
        ≡ some (success, c)
      → load_misaligned mmap walk_fuel mode bytes (at start 0 k) ≡ some (success, c)
  unfolding load_misaligned page_up page_down
  load_misaligned-page bytes start k c mis word run =
      let inside : is_aligned start 4096 ≡ false = ground (arith, is_aligned_iff start) in
      let down : round_down start 12 ≡ start - start % 4096 =
        round_down-eq start (omega arith) ∙ omega arith in
      let up : round_up start 12 ≡ start + (4096 - start % 4096) =
        omega (arith, round_up_lem start (omega arith)) in
      let offset : sub64 start (start - start % 4096) ≡ start % 4096 = omega arith in
      let length : sub64 (start + (4096 - start % 4096)) start ≡ 4096 - start % 4096 =
        omega arith in
      rw (inside, down, up, offset, length) run

  -- The first page of a segment that starts inside it.
  load_misaligned-IsFilled :
      (bytes : ℕ → ℕ) (start file_size : ℕ) (k : Keystone E S) (is : IsSpace lo limit k)
      → start % 4096 ≢ 0
      → 4096 - start % 4096 ≤ file_size
      → IsWord (start + 8192)
      → k.epm_free_list + 12288 ≤ limit
      → mapping k (start - start % 4096) ≡ none
      → let base = start - start % 4096 in
        (k' : Keystone E S) × (load_misaligned mmap walk_fuel mode bytes (at start 0 k)
          ≡ some (success, at (base + 4096) (4096 - start % 4096) k'))
        × IsFilled lo limit k is base 1 (segment_byte bytes (start % 4096) file_size) k'
  load_misaligned-IsFilled bytes start file_size k is mis enough word room free =
      let o = start % 4096 in
      let base = start - o in
      let (k1, run, one) =
        put_page-IsFilled mmap lo limit walk_fuel mode flags known writes f base start (4096 - o) 0
          (page_with bytes o (4096 - o)) (segment_byte bytes o file_size) k is room (omega arith)
          (omega arith) free (λ j h. unfold page_with in ground arith) in
      let next : start + (4096 - o) ≡ base + 4096 = omega arith in
      let src : add64 0 (4096 - o) ≡ 4096 - o = omega arith in
      (k1, load_misaligned-page bytes start k _ mis word (rw (next, src) at run), one)

  segment_aligned :
      (fuel : ℕ) (bytes : ℕ → ℕ) (start file_size memory_size : ℕ) (k : Keystone E S)
      (is : IsSpace lo limit k)
      → start % 4096 ≡ 0
      → IsWord (start + memory_size)
      → file_size ≤ memory_size
      → Fills lo limit k is start (pages_of memory_size) (rest_byte bytes 0 file_size) (
          load_rest mmap lo limit walk_fuel mode flags known writes f fuel bytes
            (start + file_size)
            (start + memory_size)
            (at start 0 k))
      → Fills lo limit k is start
          (pages_of memory_size)
          (segment_byte bytes 0 file_size)
          (load_segment mmap walk_fuel mode fuel bytes start file_size memory_size k)
  segment_aligned fuel bytes start file_size memory_size k is al word le (src, k', run, done) = (
    src,
    k',
    load_segment-rest fuel bytes start file_size memory_size k _ word le
          (load_misaligned-aligned start bytes k al)
        ∙ run,
    rw (first_byte bytes file_size) at done,
  )

  -- The segment, from its first page and the rest.
  segment_joined :
      (fuel : ℕ) (bytes : ℕ → ℕ) (start file_size memory_size : ℕ) (k k1 : Keystone E S)
      (is : IsSpace lo limit k) (base src n n' file_end memory_end : ℕ) (byte more : ℕ → ℕ)
      → IsWord (start + memory_size)
      → file_size ≤ memory_size
      → file_end ≡ start + file_size
      → memory_end ≡ start + memory_size
      → 1 + n ≡ n'
      → more ≡ (λ j. byte (4096 * 1 + j))
      → load_misaligned mmap walk_fuel mode bytes (at start 0 k)
        ≡ some (success, at (base + 4096) src k1)
      → (one : IsFilled lo limit k is base 1 byte k1)
      → Fills lo limit k1 one.after (base + 4096) n more (
          load_rest mmap lo limit walk_fuel mode flags known writes f fuel bytes file_end memory_end
            (at (base + 4096) src k1))
      → Fills lo limit k is base n' byte
          (load_segment mmap walk_fuel mode fuel bytes start file_size memory_size k)
  segment_joined fuel bytes start file_size memory_size k k1 is base src n n' file_end memory_end
        byte more word le fe me pages same r1 one (src2, k2, r2, filled) =
      let end : base + 4096 + 4096 * n ≡ base + 4096 * n' = omega arith in
      (
        src2,
        k2,
        load_segment-rest fuel bytes start file_size memory_size k _ word le r1
            ∙ rw (fe, me, end) at r2,
        rw pages at (IsFilled-trans lo limit k k1 k2 is base 1 n byte one (rw same at filled)),
      )

  segment_misaligned :
      (fuel : ℕ) (bytes : ℕ → ℕ) (start file_size memory_size : ℕ) (k : Keystone E S)
      (is : IsSpace lo limit k)
      → start % 4096 ≢ 0
      → 4096 ≤ start % 4096 + file_size
      → file_size ≤ memory_size
      → IsWord (start + memory_size + 8192)
      → start % 4096 + memory_size + 4096 < 2 ^ 39
      → pages_of (start % 4096 + memory_size) < fuel
      → k.epm_free_list + 12288 * pages_of (start % 4096 + memory_size) ≤ limit
      → IsFree k (start - start % 4096) (pages_of (start % 4096 + memory_size))
      → Fills lo limit k is
          (start - start % 4096)
          (pages_of (start % 4096 + memory_size))
          (segment_byte bytes (start % 4096) file_size)
          (load_segment mmap walk_fuel mode fuel bytes start file_size memory_size k)
  segment_misaligned fuel bytes start file_size memory_size k is mis first le word small fu room
        free =
      let o = start % 4096 in
      let base = start - o in
      let (k1, r1, one) =
        load_misaligned-IsFilled bytes start file_size k is mis (omega arith) (omega arith)
          (omega arith) (free base (omega arith) (omega arith)) in
      segment_joined fuel bytes start file_size memory_size k k1 is base (4096 - o)
        (pages_of (memory_size - (4096 - o))) (pages_of (o + memory_size))
        (base + 4096 + (file_size - (4096 - o))) (base + 4096 + (memory_size - (4096 - o)))
        (segment_byte bytes o file_size) (rest_byte bytes (4096 - o) (file_size - (4096 - o)))
        (omega arith) le (omega arith) (omega arith) (omega arith)
        (second_byte bytes o file_size (omega arith) first) r1 one
        (load_rest-Fills mmap lo limit walk_fuel mode flags known writes f fuel bytes (base + 4096)
          (4096 - o) (file_size - (4096 - o)) (memory_size - (4096 - o)) k1 one.after (omega arith)
          (omega arith) (omega arith) (omega arith) (omega arith) (omega arith)
          (omega (arith, one.bound))
          (λ x l h. one.rest x (omega arith) (omega arith) ∙ free x (omega arith) (omega arith)))

  -- In a simulated enclave, with the mode of a file, a segment is loaded with success that starts at a page
  -- or else fills the rest of its first page from the file, is not shorter in memory than in the file, ends
  -- at most 8192 below 2^64 and spans, from its first page on, less than 2^39 bytes with a page more, when
  -- none of its pages is mapped and there is room for three pages for each; fuel above the number of its
  -- pages, and 3 for the walks, is enough. Afterwards each address of its pages is mapped to a page of data
  -- and holds the byte of the file, or zero before and behind them, and what other mapped addresses held
  -- they still hold.
  pub load_segment-IsFilled :
      (fuel : ℕ) (bytes : ℕ → ℕ) (start file_size memory_size : ℕ) (k : Keystone E S)
      (is : IsSpace lo limit k)
      → (start % 4096 ≡ 0) ⊎ (4096 ≤ start % 4096 + file_size)
      → file_size ≤ memory_size
      → IsWord (start + memory_size + 8192)
      → start % 4096 + memory_size + 4096 < 2 ^ 39
      → pages_of (start % 4096 + memory_size) < fuel
      → k.epm_free_list + 12288 * pages_of (start % 4096 + memory_size) ≤ limit
      → IsFree k (start - start % 4096) (pages_of (start % 4096 + memory_size))
      → Fills lo limit k is
          (start - start % 4096)
          (pages_of (start % 4096 + memory_size))
          (segment_byte bytes (start % 4096) file_size)
          (load_segment mmap walk_fuel mode fuel bytes start file_size memory_size k)
  load_segment-IsFilled fuel bytes start file_size memory_size k is first le word small fu room
        free =
      elim (start_cases (start % 4096)) [
        | inl al ↦
            let base : start - 0 ≡ start = omega arith in
            let size : 0 + memory_size ≡ memory_size = omega arith in
            let fu' : pages_of memory_size < fuel = omega arith in
            rw (al, base, size)
              (segment_aligned fuel bytes start file_size memory_size k is al (omega arith) le (
                load_rest-Fills mmap lo limit walk_fuel mode flags known writes f fuel bytes start 0
                  file_size memory_size k is al (omega arith) le word (omega arith) (omega arith)
                  (omega arith) (λ x l h. free x (omega arith) (omega arith))))
        | inr mis ↦
            segment_misaligned fuel bytes start file_size memory_size k is mis (omega arith) le word
              small fu room free
      ]
