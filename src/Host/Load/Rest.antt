-- ===== src/Host/Load/Rest.antt =====
-- The pages of a segment that `loadELF` of lib/host/src/keystone.cpp adds behind a first page that the
-- segment starts inside, in a simulated enclave.
use keystone_sdk.Base.{
  ℕ, ◌+◌, ◌-◌, ◌*◌, ◌/◌, ◌%◌, ◌^◌, ◌≤◌, ◌<◌, ◌≡◌, refl, arith, true, Option, some, if◌then◌else◌,
  IsWord, ltb, ◌∙◌,
}
use keystone_sdk.Host.Common.{Status, success}
use keystone_sdk.Host.Enclave.{Keystone, mode_flags, mode_writes}
use keystone_sdk.Host.Enclave.Alloc.{IsSpace}
use keystone_sdk.Host.Load.{Cursor, page_with, load_pages, load_mixed, load_zeros, then_step}
use keystone_sdk.Host.Load.Loops.{
  at, IsFree, Fills, load_pages-Fills, load_zeros-Fills, load_mixed-Fills,
}
use keystone_sdk.Host.Load.Content.{IsFilled-trans}

abbrev pub pages_of : (size : ℕ) → ℕ
pages_of size = (size + 4095) / 4096

-- What lies behind the address that the source cursor has reached.
abbrev pub rest_byte : (bytes : ℕ → ℕ) (src file_size : ℕ) → ℕ → ℕ
rest_byte bytes src file_size j = if ltb j file_size then bytes (src + j) else 0

mixed_byte :
    (bytes : ℕ → ℕ) (start src file_size n1 j : ℕ)
    → 4096 * n1 ≤ file_size
    → page_with (λ i. bytes (src + 4096 * n1 + i)) 0 (start + file_size - (start + 4096 * n1)) j
      ≡ rest_byte bytes src file_size (4096 * n1 + j)
unfolding page_with
mixed_byte bytes start src file_size n1 j h =
    let size : start + file_size - (start + 4096 * n1) ≡ file_size - 4096 * n1 = omega arith in
    let here : j - 0 ≡ j = omega arith in
    let there : src + 4096 * n1 + j ≡ src + (4096 * n1 + j) = omega arith in
    rw (size, here, there) (ground arith)

module _ {E S : Type 0} (mmap : (size offset : ℕ) → ℕ) (lo limit walk_fuel mode flags : ℕ)
    (known : mode_flags mode ≡ some flags) (writes : mode_writes mode ≡ true)
    (f : 2 < walk_fuel) where
  -- The part of `load_segment` behind a first page that is filled in part.
  abbrev pub load_rest :
      (fuel : ℕ) (bytes : ℕ → ℕ) (file_end memory_end : ℕ)
      → Cursor E S
      → Option (Status × Cursor E S)
  load_rest fuel bytes file_end memory_end c =
      then_step
        (then_step (load_pages mmap walk_fuel mode fuel bytes file_end c)
          (load_mixed mmap walk_fuel mode bytes file_end))
        (load_zeros mmap walk_fuel mode fuel memory_end)

  load_rest-steps :
      (fuel : ℕ) (bytes : ℕ → ℕ) (file_end memory_end : ℕ) (c c1 c2 c3 : Cursor E S)
      → load_pages mmap walk_fuel mode fuel bytes file_end c ≡ some (success, c1)
      → load_mixed mmap walk_fuel mode bytes file_end c1 ≡ some (success, c2)
      → load_zeros mmap walk_fuel mode fuel memory_end c2 ≡ some (success, c3)
      → load_rest fuel bytes file_end memory_end c ≡ some (success, c3)
  unfolding then_step
  load_rest-steps fuel bytes file_end memory_end c c1 c2 c3 r1 r2 r3 = rw (r1, r2, r3) refl

  -- The parts of the segment from a page on, one after the other.
  rest_parts :
      (fuel : ℕ) (bytes : ℕ → ℕ) (start src file_size memory_size n1 n2 n3 : ℕ) (k : Keystone E S)
      (is : IsSpace lo limit k)
      → start % 4096 ≡ 0
      → src < 4096
      → file_size ≤ memory_size
      → IsWord (start + memory_size + 8192)
      → n1 ≡ file_size / 4096
      → n1 + n2 ≡ pages_of file_size
      → n1 + n2 + n3 ≡ pages_of memory_size
      → memory_size + 4096 < 2 ^ 39
      → pages_of memory_size < fuel
      → k.epm_free_list + 12288 * pages_of memory_size ≤ limit
      → IsFree k start (pages_of memory_size)
      → Fills lo limit k is start
          (n1 + n2 + n3)
          (rest_byte bytes src file_size)
          (load_rest fuel bytes (start + file_size) (start + memory_size) (at start src k))
  rest_parts fuel bytes start src file_size memory_size n1 n2 n3 k is al ls le word e1 e2 e3 small
        fu room free =
      let file_end = start + file_size in
      let (k1, r1, f1) =
        load_pages-Fills mmap lo limit walk_fuel mode flags known writes f n1 fuel start src
          file_end bytes (rest_byte bytes src file_size) k is (omega arith) (omega arith) al
          (omega arith) (omega arith) (omega arith) (omega arith) (omega arith)
          (λ x l h. free x l (omega arith)) (λ j h. ground arith) in
      let (src2, k2, r2, f2) =
        load_mixed-Fills mmap lo limit walk_fuel mode flags known writes f n2 (start + 4096 * n1)
          (src + 4096 * n1) file_end bytes (λ j. rest_byte bytes src file_size (4096 * n1 + j)) k1
          f1.after (omega arith) (omega (arith, f1.bound)) (omega arith) (omega arith) (omega arith)
          (omega arith) (λ x l h. f1.rest x l (omega arith) ∙ free x (omega arith) (omega arith))
          (λ j h. mixed_byte bytes start src file_size n1 j (omega arith)) in
      let f12 =
        IsFilled-trans lo limit k k1 k2 is start n1 n2 (rest_byte bytes src file_size) f1 f2 in
      let (src3, k3, r3, f3) =
        load_zeros-Fills mmap lo limit walk_fuel mode flags known writes f n3 fuel
          (start + 4096 * (n1 + n2)) src2 (start + memory_size)
          (λ j. rest_byte bytes src file_size (4096 * (n1 + n2) + j)) k2 f12.after (omega arith)
          (omega (arith, f12.bound)) (omega arith) (omega arith) (omega arith) (omega arith)
          (omega arith) (λ x l h. f12.rest x l (omega arith) ∙ free x (omega arith) (omega arith))
          (λ j h. ground arith) in
      let va2 : start + 4096 * n1 + 4096 * n2 ≡ start + 4096 * (n1 + n2) = omega arith in
      let va3 : start + 4096 * (n1 + n2) + 4096 * n3 ≡ start + 4096 * (n1 + n2 + n3) =
        omega arith in
      (
        src3,
        k3,
        load_rest-steps fuel bytes file_end (start + memory_size) (at start src k)
            (at (start + 4096 * n1) (src + 4096 * n1) k1) (at (start + 4096 * (n1 + n2)) src2 k2)
            (at (start + 4096 * (n1 + n2 + n3)) src3 k3) r1 (rw va2 at r2) (rw va3 at r3),
        IsFilled-trans lo limit k k2 k3 is start (n1 + n2) n3 (rest_byte bytes src file_size) f12
            f3,
      )

  pub load_rest-Fills :
      (fuel : ℕ) (bytes : ℕ → ℕ) (start src file_size memory_size : ℕ) (k : Keystone E S)
      (is : IsSpace lo limit k)
      → start % 4096 ≡ 0
      → src < 4096
      → file_size ≤ memory_size
      → IsWord (start + memory_size + 8192)
      → memory_size + 4096 < 2 ^ 39
      → pages_of memory_size < fuel
      → k.epm_free_list + 12288 * pages_of memory_size ≤ limit
      → IsFree k start (pages_of memory_size)
      → Fills lo limit k is start
          (pages_of memory_size)
          (rest_byte bytes src file_size)
          (load_rest fuel bytes (start + file_size) (start + memory_size) (at start src k))
  load_rest-Fills fuel bytes start src file_size memory_size k is al ls le word small fu room free =
      let n1 = file_size / 4096 in
      let n2 = pages_of file_size - n1 in
      let n3 = pages_of memory_size - pages_of file_size in
      let all : n1 + n2 + n3 ≡ pages_of memory_size = omega arith in
      rw all at (
        rest_parts fuel bytes start src file_size memory_size n1 n2 n3 k is al ls le word refl
          (omega arith) all small fu room free)
