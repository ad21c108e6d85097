-- ===== src/Base/Words.antt =====
-- The machine words of the target, riscv64: `uintptr_t`, `size_t` and `unsigned long` have 64 bits
-- and wrap, an `int` is its pattern of 32 bits.
use Prim.Native.Nat.{ℕ, ◌+◌, ◌-◌, ◌*◌, ◌%◌, ◌^◌, ◌<◌}
use keystone_sdk.Base.Tests.{ltb, if◌then◌else◌}

abbrev pub word_mod : ℕ
word_mod = 2 ^ 64

-- `UINTPTR_MAX`
abbrev pub uintptr_max : ℕ
uintptr_max = 2 ^ 64 - 1

abbrev pub IsWord : ℕ → Type 0
IsWord n = n < word_mod

-- `+` and `-` on 64-bit words
abbrev pub add64 : ℕ → ℕ → ℕ
add64 a b = (a + b) % word_mod

abbrev pub sub64 : ℕ → ℕ → ℕ
sub64 a b = (a + word_mod - b) % word_mod

abbrev pub mul64 : ℕ → ℕ → ℕ
mul64 a b = a * b % word_mod

-- The pattern of the `int` that the source writes `-1`.
abbrev pub int_minus_one : ℕ
int_minus_one = 2 ^ 32 - 1

-- An `int` is negative when its top bit is set; conversion to `int64_t` keeps the sign.
abbrev pub sign_extend32 : ℕ → ℕ
sign_extend32 w = if ltb w (2 ^ 31) then w else w + (2 ^ 64 - 2 ^ 32)
