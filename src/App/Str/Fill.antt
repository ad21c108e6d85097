-- ===== src/App/Str/Fill.antt =====
-- memset fills a range.
use keystone_sdk.Base.{
  ℕ, zero, suc, ◌+◌, ◌-◌, ◌*◌, ◌%◌, ◌<◌, ◌≡◌, inl, inr, refl, arith, fun_ext, ◌∙◌, Bool-cases, Bool,
  true, ◌&&◌, some, ltb, leb, ◌==◌, ==_iff, if◌then◌else◌, bit_and, bit_or, IsWord, add64,
}
use keystone_sdk.Base.Bits.{bit_or-multiples_of_8, bit_and-low_ones}
use keystone_sdk.Memory.{Mem, store8, store64}
use keystone_sdk.App.Str.{aligned, spread, set_bytes, set_words, memset}

-- Memory after the `len` bytes at `dest` were set to the low byte of `byte`.
unfoldable pub fill : Mem → (dest len byte : ℕ) → Mem
fill m dest len byte x = if leb dest x && ltb x (dest + len) then byte % 256 else m x

fill-zero : (m : Mem) (dest byte : ℕ) → fill m dest 0 byte ≡ m
unfolding fill
fill-zero m dest byte = fun_ext λ x. ground arith

fill-first :
    (m : Mem) (d n byte : ℕ) → fill (store8 m d byte) (d + 1) n byte ≡ fill m d (suc n) byte
unfolding fill store8
fill-first m d n byte = fun_ext λ x. ground arith

-- The byte eight times is its product with eight ones.
abbrev ones : ℕ
ones = 0x0101_0101_0101_0101

all_below : ℕ → (ℕ → Bool) → Bool
all_below zero p = true
all_below (suc n) p = p n && all_below n p

of_all_below : (n x : ℕ) (p : ℕ → Bool) → all_below n p ≡ true → x < n → p x ≡ true
unfolding all_below
of_all_below zero x p h lt = absurd (omega arith)
of_all_below (suc n) x p h lt = ground (arith, of_all_below n x p)

spread_table : all_below 256 (λ b. spread b == b * ones) ≡ true
unfolding all_below spread
spread_table = refl

spread-eq : (byte : ℕ) → spread byte ≡ byte % 256 * ones
spread-eq byte = same ∙ (==_iff _ _).0 (of_all_below 256 (byte % 256) _ spread_table (omega arith))
  where
    same : spread byte ≡ spread (byte % 256)
    same =
        let e : bit_and byte 255 ≡ bit_and (byte % 256) 255 =
          omega (arith, bit_and-low_ones 8 byte, bit_and-low_ones 8 (byte % 256)) in
        unfold spread in rw e

fill-word :
    (m : Mem) (d n byte : ℕ)
    → fill (store64 m d (spread byte)) (d + 8) n byte ≡ fill m d (8 + n) byte
unfolding fill store64
fill-word m d n byte = rw (spread-eq byte) (fun_ext λ x. ground arith)

set_bytes-fill :
    (end fuel d n byte : ℕ) (m : Mem)
    → end ≡ d + n
    → n < fuel
    → set_bytes fuel d end byte m ≡ some (fill m d n byte)
unfolding set_bytes
set_bytes-fill end zero d n byte m e h = absurd (omega arith)
set_bytes-fill end (suc fuel) d zero byte m e h = rw fill-zero (ground arith)
set_bytes-fill end (suc fuel) d (suc n) byte m e h = ground (
  arith,
  set_bytes-fill end fuel (d + 1) n byte (store8 m d byte) (omega arith) (omega arith),
  fill-first m d n byte,
)

set_words-fill :
    (end fuel d n byte : ℕ) (m : Mem)
    → end ≡ d + n
    → n % 8 ≡ 0
    → n < fuel
    → set_words fuel d end (spread byte) m ≡ some (fill m d n byte)
unfolding set_words
set_words-fill end zero d n byte m e k h = absurd (omega arith)
set_words-fill end (suc fuel) d n byte m e k h = elim (Bool-cases (ltb d end)) [
  | inl more ↦
      let rest =
        set_words-fill end fuel (d + 8) (n - 8) byte (store64 m d (spread byte)) (ground arith)
          (ground arith) (ground arith) in
      let size : 8 + (n - 8) ≡ n = ground arith in
      rw (more, rest, fill-word m d (n - 8) byte, size) refl
  | inr last ↦ let none_left : n ≡ 0 = ground arith in rw (last, none_left, fill-zero) refl
]

-- Where the end does not wrap, `memset` ends within `len + 1` rounds, sets each of the `len` bytes
-- at `dest` to the low byte of its argument, and changes no other, on its path over words as on
-- that over bytes.
pub memset-fill :
    (dest byte len : ℕ) (m : Mem)
    → IsWord (dest + len)
    → memset (len + 1) dest byte len m ≡ some (fill m dest len byte)
unfolding memset
memset-fill dest byte len m high = elim (Bool-cases (aligned (bit_or dest len))) [
  | inl words ↦
      let on_8 = bit_or-multiples_of_8 dest len ((==_iff _ 0).0 words) in
      rw words (
        set_words-fill (add64 dest len) (len + 1) dest len byte m (omega arith) (omega arith)
          (omega arith))
  | inr bytes ↦
      rw bytes
        (set_bytes-fill (add64 dest len) (len + 1) dest len byte m (omega arith) (omega arith))
]
