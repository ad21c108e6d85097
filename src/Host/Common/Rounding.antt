-- ===== src/Host/Common/Rounding.antt =====
-- Rounding to pages.
use keystone_sdk.Base.{
  ℕ, ◌+◌, ◌-◌, ◌*◌, ◌/◌, ◌%◌, ◌^◌, ◌≤◌, ◌<◌, ◌≡◌, ◌↔◌, true, arith, IsWord, ==_iff,
}
use keystone_sdk.Base.Bits.{bit_and-low_ones, bit_and-shifted}
use keystone_sdk.Host.Common.{round_up, round_down, is_aligned}

pub round_down-eq : (n : ℕ) → IsWord n → round_down n 12 ≡ n / 4096 * 4096
unfolding round_down
round_down-eq n w = omega (arith, bit_and-shifted 12 n (2 ^ 52 - 1), bit_and-low_ones 52 (n / 4096))

-- For a word that is at most 2^64 - 4096, rounding up to pages gives the least multiple of the page size
-- that is not below it, and rounding down the greatest that is not above it.
pub round_up_lem :
    (n : ℕ)
    → n ≤ 2 ^ 64 - 4096
    → (round_up n 12 % 4096 ≡ 0)
      × (n ≤ round_up n 12)
      × (round_up n 12 < n + 4096)
      × (round_down n 12 % 4096 ≡ 0)
      × (round_down n 12 ≤ n)
      × (n < round_down n 12 + 4096)
unfolding round_up
round_up_lem n h = omega (arith, round_down-eq n (omega arith))

pub is_aligned_iff : (n : ℕ) → (is_aligned n 4096 ≡ true) ↔ (n % 4096 ≡ 0)
unfolding is_aligned
is_aligned_iff n = (
  λ h. omega (arith, bit_and-low_ones 12 n, (==_iff _ 0).0 h),
  λ h. (==_iff _ 0).1 (omega (arith, bit_and-low_ones 12 n)),
)
