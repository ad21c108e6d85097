-- ===== src/Host/Load/Loops.antt =====
-- The loops of `loadELF` of lib/host/src/keystone.cpp over the pages of a segment, for a simulated enclave.
use keystone_sdk.Base.{
  ℕ, zero, suc, ◌+◌, ◌-◌, ◌*◌, ◌%◌, ◌^◌, ◌≤◌, ◌<◌, ◌≡◌, refl, arith, true, false, Option, none,
  some, IsWord, ltb, leb, ◌∙◌, sym, add64, sub64,
}
use keystone_sdk.Host.Common.{Status, success}
use keystone_sdk.Host.Enclave.{Keystone, mode_flags, mode_writes, null_page}
use keystone_sdk.Host.Enclave.Alloc.{IsSpace, mapping, mode_flags-lt}
use keystone_sdk.Host.Enclave.Mapped.{alloc_page-IsAllocated}
use keystone_sdk.Host.Load.{
  Cursor, page_with, put_page, load_pages, load_mixed, load_zeros, then_step,
}
use keystone_sdk.Host.Load.Content.{IsFilled, IsFilled-none, IsFilled-trans, alloc-IsFilled}

module _ {E S : Type 0} where
  abbrev pub at : (va src : ℕ) → Keystone E S → Cursor E S
  at va src k = record { va = va; src = src; k = k }

  -- No address of `n` pages from `va` on is mapped.
  abbrev pub IsFree : (k : Keystone E S) (va n : ℕ) → Type 0
  IsFree k va n = (x : ℕ) → va ≤ x → x < va + 4096 * n → mapping k x ≡ none

  -- A run that adds `n` pages at the cursor.
  abbrev pub Fills :
      (lo limit : ℕ) (k : Keystone E S)
      → IsSpace lo limit k
      → (va n : ℕ) (byte : ℕ → ℕ) → Option (Status × Cursor E S)
      → Type 0
  Fills lo limit k is va n byte run =
      (src : ℕ) × (k' : Keystone E S) × (run ≡ some (success, at (va + 4096 * n) src k'))
      × IsFilled lo limit k is va n byte k'

module _ {E S : Type 0} (mmap : (size offset : ℕ) → ℕ) (lo limit walk_fuel mode flags : ℕ)
    (known : mode_flags mode ≡ some flags) (writes : mode_writes mode ≡ true)
    (f : 2 < walk_fuel) where
  -- The page at `va` is added, and the cursor goes on by `step`.
  pub put_page-IsFilled :
      (va cur step src : ℕ) (content byte : ℕ → ℕ) (k : Keystone E S) (is : IsSpace lo limit k)
      → k.epm_free_list + 12288 ≤ limit
      → va % 4096 ≡ 0
      → IsWord (cur + step)
      → mapping k va ≡ none
      → ((j : ℕ) → j < 4096 → content j ≡ byte j)
      → (k' : Keystone E S) × (put_page mmap walk_fuel mode va content step (at cur src k)
          ≡ some (success, at (cur + step) (add64 src step) k'))
        × IsFilled lo limit k is va 1 byte k'
  unfolding put_page
  put_page-IsFilled va cur step src content byte k is room al word free same =
      let (k', run, done) =
        alloc_page-IsAllocated mmap content mode flags known lo limit walk_fuel va k is room f in
      let next : add64 cur step ≡ cur + step = omega arith in
      (
        k',
        rw (put_page, run, next) refl,
        alloc-IsFilled lo limit k k' is va flags content byte (rw writes at done)
            (mode_flags-lt mode flags known) al free same,
      )

  load_pages-step :
      (fuel va src file_end : ℕ) (bytes : ℕ → ℕ) (k k' : Keystone E S)
      → va + 4096 ≤ file_end
      → IsWord file_end
      → IsWord (src + 4096)
      → put_page mmap walk_fuel mode va (λ i. bytes (src + i)) 4096 (at va src k)
        ≡ some (success, at (va + 4096) (add64 src 4096) k')
      → load_pages mmap walk_fuel mode (suc fuel) bytes file_end (at va src k)
        ≡ load_pages mmap walk_fuel mode fuel bytes file_end (at (va + 4096) (src + 4096) k')
  unfolding load_pages then_step
  load_pages-step fuel va src file_end bytes k k' low word src_word run =
      let next : add64 va 4096 ≡ va + 4096 = omega arith in
      let src_next : add64 src 4096 ≡ src + 4096 = omega arith in
      let on : leb (va + 4096) file_end ≡ true = ground arith in rw (next, on, run, src_next) refl

  pub load_pages-Fills :
      (n fuel va src file_end : ℕ) (bytes byte : ℕ → ℕ) (k : Keystone E S) (is : IsSpace lo limit k)
      → n < fuel
      → k.epm_free_list + 12288 * n ≤ limit
      → va % 4096 ≡ 0
      → va + 4096 * n ≤ file_end
      → file_end < va + 4096 * (n + 1)
      → IsWord (file_end + 4096)
      → IsWord (src + 4096 * n)
      → 4096 * n < 2 ^ 39
      → IsFree k va n
      → ((j : ℕ) → j < 4096 * n → bytes (src + j) ≡ byte j)
      → (k' : Keystone E S) × (load_pages mmap walk_fuel mode fuel bytes file_end (at va src k)
          ≡ some (success, at (va + 4096 * n) (src + 4096 * n) k'))
        × IsFilled lo limit k is va n byte k'
  unfolding load_pages then_step
  load_pages-Fills n zero va src file_end bytes byte k is fu room al low high word src_word small
        free same =
      absurd (omega arith)
  load_pages-Fills zero (suc fuel) va src file_end bytes byte k is fu room al low high word src_word
        small free same =
      let next : add64 va 4096 ≡ va + 4096 = omega arith in
      let ends : leb (va + 4096) file_end ≡ false = ground arith in
      let here : va + 0 ≡ va = omega arith in
      let src_here : src + 0 ≡ src = omega arith in
      (k, rw (next, ends, here, src_here) refl, IsFilled-none lo limit k is va byte)
  load_pages-Fills (suc n) (suc fuel) va src file_end bytes byte k is fu room al low high word
        src_word small free same =
      let (k1, run, one) =
        put_page-IsFilled va va 4096 src (λ i. bytes (src + i)) byte k is (omega arith) al
          (omega arith) (free va (omega arith) (omega arith)) (λ j h. same j (omega arith)) in
      let (k2, rest, more) =
        load_pages-Fills n fuel (va + 4096) (src + 4096) file_end bytes (λ j. byte (4096 * 1 + j))
          k1 one.after (omega arith) (omega (arith, one.bound)) (omega arith) (omega arith)
          (omega arith) word (omega arith) (omega arith)
          (λ x l h. one.rest x (omega arith) (omega arith) ∙ free x (omega arith) (omega arith))
          (λ j h.
            let here : src + 4096 + j ≡ src + (4096 * 1 + j) = omega arith in
            rw here (same (4096 * 1 + j) (omega arith))) in
      let va_end : va + 4096 + 4096 * n ≡ va + 4096 * suc n = omega arith in
      let src_end : src + 4096 + 4096 * n ≡ src + 4096 * suc n = omega arith in
      let one_more : 1 + n ≡ suc n = omega arith in
      (
        k2,
        load_pages-step fuel va src file_end bytes k k1 (omega arith) (omega arith) (omega arith)
              run
            ∙ rw (va_end, src_end) at rest,
        rw one_more at (IsFilled-trans lo limit k k1 k2 is va 1 n byte one more),
      )

  load_zeros-step :
      (fuel va src memory_end : ℕ) (k : Keystone E S) (c : Cursor E S)
      → va < memory_end
      → put_page mmap walk_fuel mode va null_page 4096 (at va src k) ≡ some (success, c)
      → load_zeros mmap walk_fuel mode (suc fuel) memory_end (at va src k)
        ≡ load_zeros mmap walk_fuel mode fuel memory_end c
  unfolding load_zeros then_step
  load_zeros-step fuel va src memory_end k c low run =
      let on : ltb va memory_end ≡ true = ground arith in rw (on, run) refl

  pub load_zeros-Fills :
      (n fuel va src memory_end : ℕ) (byte : ℕ → ℕ) (k : Keystone E S) (is : IsSpace lo limit k)
      → n < fuel
      → k.epm_free_list + 12288 * n ≤ limit
      → va % 4096 ≡ 0
      → memory_end ≤ va + 4096 * n
      → va + 4096 * n < memory_end + 4096
      → IsWord (memory_end + 4096)
      → 4096 * n < 2 ^ 39
      → IsFree k va n
      → ((j : ℕ) → j < 4096 * n → byte j ≡ 0)
      → Fills lo limit k is va n byte (load_zeros mmap walk_fuel mode fuel memory_end (at va src k))
  unfolding load_zeros
  load_zeros-Fills n zero va src memory_end byte k is fu room al low high word small free same =
      absurd (omega arith)
  load_zeros-Fills zero (suc fuel) va src memory_end byte k is fu room al low high word small free
        same =
      let ends : ltb va memory_end ≡ false = ground arith in
      let here : va + 0 ≡ va = omega arith in
      (src, k, rw (ends, here) refl, IsFilled-none lo limit k is va byte)
  load_zeros-Fills (suc n) (suc fuel) va src memory_end byte k is fu room al low high word small
        free same =
      let (k1, run, one) =
        put_page-IsFilled va va 4096 src null_page byte k is (omega arith) al (omega arith)
          (free va (omega arith) (omega arith)) (λ j h. sym (same j (omega arith))) in
      let (src', k2, rest, more) =
        load_zeros-Fills n fuel (va + 4096) (add64 src 4096) memory_end (λ j. byte (4096 * 1 + j))
          k1 one.after (omega arith) (omega (arith, one.bound)) (omega arith) (omega arith)
          (omega arith) word (omega arith)
          (λ x l h. one.rest x (omega arith) (omega arith) ∙ free x (omega arith) (omega arith))
          (λ j h. same (4096 * 1 + j) (omega arith)) in
      let va_end : va + 4096 + 4096 * n ≡ va + 4096 * suc n = omega arith in
      let one_more : 1 + n ≡ suc n = omega arith in
      (
        src',
        k2,
        load_zeros-step fuel va src memory_end k _ (omega arith) run ∙ rw va_end at rest,
        rw one_more at (IsFilled-trans lo limit k k1 k2 is va 1 n byte one more),
      )

  pub load_mixed-Fills :
      (n va src file_end : ℕ) (bytes byte : ℕ → ℕ) (k : Keystone E S) (is : IsSpace lo limit k)
      → n < 2
      → k.epm_free_list + 12288 * n ≤ limit
      → va % 4096 ≡ 0
      → file_end ≤ va + 4096 * n
      → va + 4096 * n < file_end + 4096
      → IsWord (file_end + 4096)
      → IsFree k va n
      → ((j : ℕ) → j < 4096 * n → page_with (λ i. bytes (src + i)) 0 (file_end - va) j ≡ byte j)
      → Fills lo limit k is va n byte (load_mixed mmap walk_fuel mode bytes file_end (at va src k))
  unfolding load_mixed
  load_mixed-Fills zero va src file_end bytes byte k is two room al low high word free same =
      let ends : ltb va file_end ≡ false = ground arith in
      let here : va + 0 ≡ va = omega arith in
      (src, k, rw (ends, here) refl, IsFilled-none lo limit k is va byte)
  load_mixed-Fills (suc zero) va src file_end bytes byte k is two room al low high word free same =
      let on : ltb va file_end ≡ true = ground arith in
      let size : sub64 file_end va ≡ file_end - va = omega arith in
      let (k1, run, one) =
        put_page-IsFilled va va 4096 src (page_with (λ i. bytes (src + i)) 0 (file_end - va)) byte k
          is room al (omega arith) (free va (omega arith) (omega arith)) same in
      (add64 src 4096, k1, load_mixed-on va src file_end bytes k _ on size run, one)
    where
      load_mixed-on :
          (va src file_end : ℕ) (bytes : ℕ → ℕ) (k : Keystone E S) (c : Cursor E S)
          → ltb va file_end ≡ true
          → sub64 file_end va ≡ file_end - va
          → put_page mmap walk_fuel mode va
              (page_with (λ i. bytes (src + i)) 0 (file_end - va))
              4096
              (at va src k)
            ≡ some (success, c)
          → load_mixed mmap walk_fuel mode bytes file_end (at va src k) ≡ some (success, c)
      load_mixed-on va src file_end bytes k c on size run = rw (on, size) run
  load_mixed-Fills (suc (suc n)) va src file_end bytes byte k is two room al low high word free
        same =
      absurd (omega arith)
