-- ===== src/Base/Bits.antt =====
-- Laws of `&` and `|` that the masks and flags of the code rest on: one binary digit at a time, and
-- from there masks of any number of low ones, and fields that share no digit.
use Prim.Native.Nat.{
  ℕ, zero, suc, ◌+◌, ◌*◌, ◌-◌, ◌/◌, ◌%◌, ◌^◌, ◌≤◌, ◌<◌, min, max, digits, bitwise, bit_and, bit_or,
  bit_and-bitwise, bit_or-bitwise,
}
use mathlib.Core.Path.{◌≡◌, refl, ap, sym, ◌∙◌}
use native.Mathlib.Nat.{pow-suc, one-le-pow, div-div-eq-div-mul}
use native.Mathlib.Omega.{arith}

-- Enough fuel is as good as more.
module _ (at_zero : ℕ → ℕ) (digit : ℕ → ℕ → ℕ) where
  enough :
      (fuel more x y : ℕ)
      → x ≤ fuel
      → fuel ≤ more
      → digits at_zero digit more x y ≡ digits at_zero digit fuel x y
  enough zero zero x y p q = refl
  enough zero (suc more) zero y p q = refl
  enough zero (suc more) (suc x) y p q = absurd (omega arith)
  enough (suc fuel) zero x y p q = absurd (omega arith)
  enough (suc fuel) (suc more) zero y p q = refl
  enough (suc fuel) (suc more) (suc x) y p q =
      rw (enough fuel more (suc x / 2) (y / 2) (omega arith) (omega arith))

  low_digit :
      (x y : ℕ)
      → bitwise at_zero digit (suc x) y
        ≡ bitwise at_zero digit (suc x / 2) (y / 2) * 2 + digit (suc x % 2) (y % 2)
  low_digit x y =
      omega (arith, enough (suc x / 2) x (suc x / 2) (y / 2) (omega arith) (omega arith))

pub bit_and-digit : (x y : ℕ) → bit_and x y ≡ bit_and (x / 2) (y / 2) * 2 + min (x % 2) (y % 2)
bit_and-digit zero y = simp bit_and-bitwise (omega arith)
bit_and-digit (suc x) y = simp bit_and-bitwise (low_digit (λ _. 0) min x y)

pub bit_or-digit : (x y : ℕ) → bit_or x y ≡ bit_or (x / 2) (y / 2) * 2 + max (x % 2) (y % 2)
bit_or-digit zero y = simp bit_or-bitwise (omega arith)
bit_or-digit (suc x) y = simp bit_or-bitwise (low_digit (λ y. y) max x y)

-- Induction on a bound of the halved number.
bit_and-zero_below : (bound x : ℕ) → x ≤ bound → bit_and x 0 ≡ 0
bit_and-zero_below bound zero h = bit_and-bitwise 0 0
bit_and-zero_below zero (suc x) h = absurd (omega arith)
bit_and-zero_below (suc bound) (suc x) h =
    omega (arith, bit_and-digit (suc x) 0, bit_and-zero_below bound (suc x / 2) (omega arith))

bit_or-zero_below : (bound x : ℕ) → x ≤ bound → bit_or x 0 ≡ x
bit_or-zero_below bound zero h = bit_or-bitwise 0 0
bit_or-zero_below zero (suc x) h = absurd (omega arith)
bit_or-zero_below (suc bound) (suc x) h =
    omega (arith, bit_or-digit (suc x) 0, bit_or-zero_below bound (suc x / 2) (omega arith))

pub bit_and-zero : (x : ℕ) → bit_and x 0 ≡ 0
bit_and-zero x = bit_and-zero_below x x (omega arith)

pub bit_or-zero : (x : ℕ) → bit_or x 0 ≡ x
bit_or-zero x = bit_or-zero_below x x (omega arith)

double_pow : (k n : ℕ) → n ≡ 2 ^ suc k → n ≡ 2 * 2 ^ k
double_pow k n e = omega (arith, pow-suc 2 k)

mod_double : (x n : ℕ) → 0 < n → x % (2 * n) ≡ x / 2 % n * 2 + x % 2
mod_double x n h = grind arith

-- `x & (2^k - 1)` is the remainder by `2^k`.
pub bit_and-low_ones : (k x : ℕ) → bit_and x (2 ^ k - 1) ≡ x % 2 ^ k
bit_and-low_ones zero x = omega (arith, bit_and-zero x)
bit_and-low_ones (suc k) x = ground (
  arith,
  bit_and-digit x (2 ^ suc k - 1),
  pow-suc 2 k,
  one-le-pow k 2,
  mod_double x (2 ^ k),
  bit_and-low_ones k (x / 2),
)

-- `|` of a number whose `k` low digits are 0 and one that has only `k` digits is their sum.
pub bit_or-shifted : (k x y : ℕ) → y < 2 ^ k → bit_or (x * 2 ^ k) y ≡ x * 2 ^ k + y
bit_or-shifted zero x y h = ground (arith, bit_or-zero x)
bit_or-shifted (suc k) x y h =
    let e : x * 2 ^ suc k ≡ 2 * (x * 2 ^ k) = omega (arith, ap (λ (t : ℕ). x * t) (pow-suc 2 k)) in
    ground (
      arith,
      e,
      bit_or-digit (x * 2 ^ suc k) y,
      pow-suc 2 k,
      bit_or-shifted k x (y / 2) (omega (arith, pow-suc 2 k)),
    )

-- Two numbers whose `|` has the remainder 0 by 8 are both multiples of 8.
pub bit_or-multiples_of_8 : (x y : ℕ) → bit_and (bit_or x y) 7 ≡ 0 → (x % 8 ≡ 0) × (y % 8 ≡ 0)
bit_or-multiples_of_8 x y h = omega (
  arith,
  bit_and-low_ones 3 (bit_or x y),
  bit_or-digit x y,
  bit_or-digit (x / 2) (y / 2),
  bit_or-digit (x / 2 / 2) (y / 2 / 2),
)

-- `|` of numbers with `k` digits has `k` digits.
pub bit_or-lt : (k x y : ℕ) → x < 2 ^ k → y < 2 ^ k → bit_or x y < 2 ^ k
bit_or-lt zero x y h g =
    let e : x ≡ 0 = omega arith in
    let f : y ≡ 0 = omega arith in rw (e, f) (omega (arith, bit_or-zero 0))
bit_or-lt (suc k) x y h g = omega (
  arith,
  bit_or-digit x y,
  pow-suc 2 k,
  bit_or-lt k (x / 2) (y / 2) (omega (arith, pow-suc 2 k)) (omega (arith, pow-suc 2 k)),
)

-- `|` with a number of `k` digits works on the `k` low digits.
pub bit_or-low :
    (k x a y : ℕ) → a < 2 ^ k → y < 2 ^ k → bit_or (x * 2 ^ k + a) y ≡ x * 2 ^ k + bit_or a y
bit_or-low zero x a y h g =
    let e : a ≡ 0 = omega arith in
    let f : y ≡ 0 = omega arith in
    rw (e, f) (omega (arith, bit_or-zero (x * 2 ^ 0 + 0), bit_or-zero 0))
bit_or-low (suc k) x a y h g =
    let e : x * 2 ^ suc k ≡ 2 * (x * 2 ^ k) = omega (arith, ap (λ (t : ℕ). x * t) (pow-suc 2 k)) in
    let half : (x * 2 ^ suc k + a) / 2 ≡ x * 2 ^ k + a / 2 = omega arith in
    let ih =
      bit_or-low k x (a / 2) (y / 2) (omega (arith, pow-suc 2 k)) (omega (arith, pow-suc 2 k)) in
    let step : bit_or ((x * 2 ^ suc k + a) / 2) (y / 2) ≡ x * 2 ^ k + bit_or (a / 2) (y / 2) =
      rw half ih in
    omega (arith, bit_or-digit (x * 2 ^ suc k + a) y, bit_or-digit a y)

-- `&` with a number whose `k` low digits are 0 works on the digits above.
pub bit_and-shifted : (k x y : ℕ) → bit_and x (y * 2 ^ k) ≡ bit_and (x / 2 ^ k) y * 2 ^ k
bit_and-shifted zero x y = ground arith
bit_and-shifted (suc k) x y =
    let e : y * 2 ^ suc k ≡ 2 * (y * 2 ^ k) = omega (arith, ap (λ (t : ℕ). y * t) (pow-suc 2 k)) in
    let f : bit_and (x / 2 / 2 ^ k) y * 2 ^ suc k ≡ 2 * (bit_and (x / 2 / 2 ^ k) y * 2 ^ k) =
      omega (arith, ap (λ (t : ℕ). bit_and (x / 2 / 2 ^ k) y * t) (pow-suc 2 k)) in
    let half : x / 2 ^ suc k ≡ x / 2 / 2 ^ k =
      ap (λ (t : ℕ). x / t) (double_pow k (2 ^ suc k) refl)
      ∙ sym (div-div-eq-div-mul x 2 (2 ^ k)) in
    rw half (ground (arith, e, f, bit_and-digit x (y * 2 ^ suc k), bit_and-shifted k (x / 2) y))
