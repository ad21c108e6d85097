-- ===== src/App/Str/Copy.antt =====
-- memcpy, memmove and strcpy copy: each equals the simultaneous `copy` of a range.
use keystone_sdk.Base.{
  ℕ, zero, suc, ◌+◌, ◌-◌, ◌≤◌, ◌<◌, ◌≡◌, ◌⊎◌, inl, inr, refl, arith, fun_ext, sym, ◌∙◌, Bool-cases,
  ==_iff, bit_or, IsWord, add64, sub64, some, ltb, leb, order-cases, ap,
}
use keystone_sdk.Base.Bits.{bit_or-multiples_of_8}
use keystone_sdk.Memory.{Mem, IsBytes, store8, load64, store64, copy}
use keystone_sdk.Memory.Laws.{store8-IsBytes, store64-IsBytes, store64-load64}
use keystone_sdk.App.Str.{aligned, copy_bytes, copy_words, memcpy, move_up, move_down, memmove}

-- A copy that goes up does not overwrite what it has still to read.
abbrev pub Forward : (dest src len : ℕ) → Type 0
Forward dest src len = (dest ≤ src) ⊎ (src + len ≤ dest)

pub copy-zero : (m : Mem) (dest src : ℕ) → copy m dest src 0 ≡ m
unfolding copy
copy-zero m dest src = fun_ext λ x. ground arith

-- Copying the first byte and then the rest.
pub copy-first :
    (m : Mem) (d s n : ℕ)
    → IsBytes m
    → Forward d s (suc n)
    → copy (store8 m d (m s)) (d + 1) (s + 1) n ≡ copy m d s (suc n)
unfolding copy store8
copy-first m d s n b f = fun_ext λ x. elim (order-cases x d) [
  | inl below ↦ ground arith
  | inr (inl at) ↦ let e : s + (x - d) ≡ s = omega arith in ground (arith, ap m e, b s)
  | inr (inr above) ↦
      let e : s + 1 + (x - (d + 1)) ≡ s + (x - d) = omega arith in ground (arith, ap m e)
]

-- Copying the last byte first.
copy-last :
    (m : Mem) (d s n : ℕ)
    → IsBytes m
    → s < d
    → copy (store8 m (d + n) (m (s + n))) d s n ≡ copy m d s (suc n)
unfolding copy store8
copy-last m d s n b f = fun_ext λ x. elim (order-cases x (d + n)) [
  | inl below ↦ ground arith
  | inr (inl at) ↦ let e : s + (x - d) ≡ s + n = omega arith in ground (arith, ap m e, b (s + n))
  | inr (inr above) ↦ ground arith
]

-- Copying the first word and then the rest.
copy-word :
    (m : Mem) (d s n : ℕ)
    → IsBytes m
    → (d ≤ s) ⊎ (s + (8 + n) ≤ d)
    → (d ≡ s) ⊎ ((d + 8 ≤ s) ⊎ (s + 8 ≤ d))
    → copy (store64 m d (load64 m s)) (d + 8) (s + 8) n ≡ copy m d s (8 + n)
unfolding copy
copy-word m d s n b f g = fun_ext λ x. elim (Bool-cases (ltb x (d + 8))) [
  | inl below ↦ ground (arith, store64-load64 m m d s x b)
  | inr above ↦
      let e : s + 8 + (x - (d + 8)) ≡ s + (x - d) = ground arith in
      ground (arith, ap m e, store64-load64 m m d s (s + (x - d)) b, store64-load64 m m d s x b)
]

module _ (end : ℕ) where
  copy_bytes-copy :
      (fuel d s n : ℕ) (m : Mem)
      → IsBytes m
      → Forward d s n
      → end ≡ d + n
      → n < fuel
      → copy_bytes fuel d s end m ≡ some (copy m d s n)
  unfolding copy_bytes
  copy_bytes-copy zero d s n m b f e h = absurd (omega arith)
  copy_bytes-copy (suc fuel) d s zero m b f e h = rw copy-zero (ground arith)
  copy_bytes-copy (suc fuel) d s (suc n) m b f e h = ground (
    arith,
    copy_bytes-copy fuel (d + 1) (s + 1) n (store8 m d (m s)) (store8-IsBytes m d (m s) b)
        (omega arith) (omega arith) (omega arith),
    copy-first m d s n b f,
  )

move_up-copy : (n d s : ℕ) (m : Mem) → IsBytes m → Forward d s n → move_up n d s m ≡ copy m d s n
unfolding move_up
move_up-copy zero d s m b f = sym (copy-zero m d s)
move_up-copy (suc n) d s m b f =
    move_up-copy n (d + 1) (s + 1) _ (store8-IsBytes m d (m s) b) (omega arith)
    ∙ copy-first m d s n b f

move_down-copy :
    (n d s : ℕ) (m : Mem) → IsBytes m → s < d → move_down n (d + n) (s + n) m ≡ copy m d s n
unfolding move_down
move_down-copy zero d s m b f = sym (copy-zero m d s)
move_down-copy (suc n) d s m b f =
    let e : d + suc n - 1 ≡ d + n = omega arith in
    let e' : s + suc n - 1 ≡ s + n = omega arith in
    rw (e, e')
      (move_down-copy n d s _ (store8-IsBytes m (d + n) (m (s + n)) b) f ∙ copy-last m d s n b f)

-- For ranges that overlap in any way, `memmove` moves the source's bytes as they were before, and
-- changes no byte outside the destination.
pub memmove-copy :
    (dest src count : ℕ) (m : Mem) → IsBytes m → memmove dest src count m ≡ copy m dest src count
unfolding memmove
memmove-copy dest src count m b = elim (Bool-cases (leb dest src)) [
  | inl up ↦ rw up (move_up-copy count dest src m b (inl (ground arith)))
  | inr down ↦ rw down (move_down-copy count dest src m b (ground arith))
]

copy_words-copy :
    (end limit fuel d s n : ℕ) (m : Mem)
    → IsBytes m
    → Forward d s n
    → (d ≡ s) ⊎ ((d + 8 ≤ s) ⊎ (s + 8 ≤ d))
    → end ≡ d + n
    → limit + 7 ≡ end
    → n < fuel
    → copy_words fuel d s limit end m ≡ some (copy m d s n)
unfolding copy_words
copy_words-copy end limit zero d s n m b f g e l h = absurd (omega arith)
copy_words-copy end limit (suc fuel) d s n m b f g e l h = elim (Bool-cases (ltb d limit)) [
  | inl more ↦
      let k : 8 ≤ n = ground arith in
      let rest =
        copy_words-copy end limit fuel (d + 8) (s + 8) (n - 8) (store64 m d (load64 m s))
          (store64-IsBytes m d (load64 m s) b) (omega arith) (omega arith) (omega arith) l
          (omega arith) in
      let joined = copy-word m d s (n - 8) b (omega arith) g in
      let size : 8 + (n - 8) ≡ n = omega arith in rw (more, rest, joined, size) refl
  | inr last ↦ rw last (copy_bytes-copy end (suc fuel) d s n m b f e h)
]

-- In a memory of bytes, where the ranges do not overlap or the destination lies below the source,
-- the destination's end does not wrap, and the destination is not among the lowest 8 addresses: the loops of
-- `memcpy` end within `len + 1` rounds and copy exactly the `len` bytes, whether the pointers are
-- aligned or not.
pub memcpy-copy :
    (dest src len : ℕ) (m : Mem)
    → IsBytes m
    → Forward dest src len
    → 8 ≤ dest
    → IsWord (dest + len)
    → memcpy (len + 1) dest src len m ≡ some (copy m dest src len)
unfolding memcpy
memcpy-copy dest src len m b f low high = elim (Bool-cases (aligned (bit_or dest src))) [
  | inl words ↦
      let on_8 = bit_or-multiples_of_8 dest src ((==_iff _ 0).0 words) in
      rw words (
        copy_words-copy (add64 dest len) (sub64 (add64 dest len) 7) (len + 1) dest src len m b f
          (ground arith) (omega arith) (omega arith) (omega arith))
  | inr bytes ↦
      rw bytes
        (copy_bytes-copy (add64 dest len) (len + 1) dest src len m b f (omega arith) (omega arith))
]
