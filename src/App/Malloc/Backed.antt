-- ===== src/App/Malloc/Backed.antt =====
-- `check_range_and_call_sbrk` of lib/app/src/tiny-malloc.c, which asks the runtime for more memory.
use keystone_sdk.Base.{
  ℕ, ◌+◌, ◌-◌, ◌≤◌, ◌<◌, ◌≡◌, inl, inr, refl, arith, ◌∙◌, Bool-cases, ltb, add64, sub64, word_mod,
}
use keystone_sdk.App.Malloc.{Heap, Env, check_range_and_call_sbrk}

-- `s_brk n` returns the break as it was, and moves it up by `n`; `brk` is the break in a state.
pub record IsBreak {S : Type 0} (s_brk : ℕ → S → ℕ × S) (brk : S → ℕ) : Type 0 where
  pub returned : (n : ℕ) (os : S) → (s_brk n os).0 ≡ brk os
  pub moved : (n : ℕ) (os : S) → brk os + n < word_mod → brk ((s_brk n os).1) ≡ brk os + n

module _ {S : Type 0} (s_brk : ℕ → S → ℕ × S) (env : Env) (brk : S → ℕ)
    (is : IsBreak s_brk brk) where
  -- Where `s_brk` returns the break and moves it up by its argument, and the break and the end of the
  -- range do not wrap: afterwards the break is at least the end of the range; it never moves down, and
  -- it stays where it was high enough; the memory and the heap's end stay.
  pub check_range_and_call_sbrk_lem :
      (addr sz : ℕ) (h : Heap S)
      → addr + sz < word_mod
      → brk h.os < word_mod
      → let h' = check_range_and_call_sbrk s_brk env addr sz h in
        (addr + sz ≤ brk h'.os)
        × (brk h.os ≤ brk h'.os)
        × (addr + sz ≤ brk h.os → brk h'.os ≡ brk h.os)
        × (h'.mem ≡ h.mem)
        × (h'.end ≡ h.end)
  unfolding check_range_and_call_sbrk
  check_range_and_call_sbrk_lem addr sz h fits low =
      let top : add64 addr sz ≡ addr + sz = omega arith in
      let asked : brk ((s_brk 0 h.os).1) ≡ brk h.os = is.moved 0 h.os (omega arith) ∙ omega arith in
      rw (top, is.returned 0 h.os)
        (elim (Bool-cases (ltb (brk h.os) (addr + sz))) [
          | inl short ↦
              let more : sub64 (addr + sz) (brk h.os) ≡ addr + sz - brk h.os = ground arith in
              let after : brk ((s_brk (addr + sz - brk h.os) (s_brk 0 h.os).1).1) ≡ addr + sz =
                is.moved (addr + sz - brk h.os) (s_brk 0 h.os).1 (ground arith) ∙ ground arith in
              rw (short, more) (ground arith, ground arith, λ e. ground arith, refl, refl)
          | inr enough ↦ rw enough (ground arith, ground arith, λ e. asked, refl, refl)
        ])
