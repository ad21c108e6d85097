-- ===== src/Host/Common.antt =====
-- The constants and macros of lib/host/include/common.h and keystone_user.h, and the parameters of
-- params.h.
pub mod Rounding
use keystone_sdk.Base.{
  ℕ, ◌+◌, ◌-◌, ◌*◌, ◌/◌, ◌^◌, Bool, false, ◌==◌, add64, sub64, mul64, bit_and, if◌then◌else◌,
}

-- `PAGE_BITS` and `PAGE_SIZE`
abbrev pub page_bits : ℕ
page_bits = 12

-- `ROUND_UP`, `ROUND_DOWN`, `PAGE_UP`, `PAGE_DOWN` and `IS_ALIGNED`
unfoldable pub round_up : (n b : ℕ) → ℕ
round_up n b = mul64 (add64 (sub64 n 1 / 2 ^ b) 1) (2 ^ b)

unfoldable pub round_down : (n b : ℕ) → ℕ
round_down n b = bit_and n (2 ^ 64 - 2 ^ b)

unfoldable pub page_up : ℕ → ℕ
unfolding round_up
page_up n = round_up n page_bits

unfoldable pub page_down : ℕ → ℕ
unfolding round_down
page_down n = round_down n page_bits

unfoldable pub is_aligned : (x align : ℕ) → Bool
is_aligned x align = bit_and x (sub64 align 1) == 0

-- `keystone_status_t`, without the value that nothing returns.
pub data Status : Type 0 where
  success : Status
  error : Status

-- `KEYSTONE_ENCLAVE_INTERRUPTED` and `KEYSTONE_ENCLAVE_EDGE_CALL_HOST`
abbrev pub enclave_interrupted : ℕ
enclave_interrupted = 2

abbrev pub enclave_edge_call_host : ℕ
enclave_edge_call_host = 11

-- The page modes `RT_NOEXEC`, `USER_NOEXEC`, `RT_FULL`, `USER_FULL` and `UTM_FULL`.
abbrev pub rt_noexec : ℕ
rt_noexec = 0

abbrev pub user_noexec : ℕ
user_noexec = 1

abbrev pub rt_full : ℕ
rt_full = 2

abbrev pub user_full : ℕ
user_full = 3

abbrev pub utm_full : ℕ
utm_full = 4

-- `DEFAULT_STACK_SIZE` and `DEFAULT_STACK_START`
abbrev pub default_stack_size : ℕ
default_stack_size = 0x20000

abbrev pub default_stack_start : ℕ
default_stack_start = 0x400000000

-- `Params`, with the values that its constructor sets.
pub record Params : Type 0 where
  pub simulated : Bool
  pub untrusted : ℕ
  pub untrusted_size : ℕ
  pub freemem_size : ℕ

abbrev pub default_params : Params
default_params = record {
  simulated = false;
  untrusted = 0xffffffff80000000;
  untrusted_size = 8192;
  freemem_size = 1024 * 1024;
}

-- `setUntrustedMem`
unfoldable pub set_untrusted_mem : (ptr size : ℕ) → Params → Params
set_untrusted_mem ptr size p = record p { untrusted = ptr; untrusted_size = size }
