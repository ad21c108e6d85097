-- ===== src/App/Calls.antt =====
-- lib/app/src/syscall.c and syscall.h: the calls of an enclave application to the runtime. `ecall` is the
-- instruction, on the registers a0 to a4, a6 and a7 and the state `S` of the machine.
use keystone_sdk.Base.{ℕ, ◌%◌, ◌^◌}

-- `SYSCALL_OCALL`, `SYSCALL_SHAREDCOPY`, `SYSCALL_ATTEST_ENCLAVE`, `SYSCALL_SBRK` and `SYSCALL_RAND`
abbrev pub syscall_ocall : ℕ
syscall_ocall = 1001

abbrev pub syscall_sharedcopy : ℕ
syscall_sharedcopy = 1002

abbrev pub syscall_attest_enclave : ℕ
syscall_attest_enclave = 1003

abbrev pub syscall_sbrk : ℕ
syscall_sbrk = 2000

abbrev pub syscall_rand : ℕ
syscall_rand = 3000

module _ {S : Type 0} (ecall : (a0 a1 a2 a3 a4 a6 a7 : ℕ) → S → ℕ × S) where
  -- `SYSCALL`
  unfoldable pub syscall : (which arg0 arg1 arg2 arg3 arg4 arg5 : ℕ) → S → ℕ × S
  syscall which arg0 arg1 arg2 arg3 arg4 arg5 s = ecall arg0 arg1 arg2 arg3 arg4 arg5 which s

  -- The result converted to an `int`, as its 32-bit pattern.
  unfoldable pub to_int : ℕ × S → ℕ × S
  to_int (a0, s) = (a0 % 2 ^ 32, s)

  unfoldable pub ocall :
      (call_id data_start data_len return_buffer return_len data_ptr : ℕ) → S → ℕ × S
  ocall call_id data_start data_len return_buffer return_len data_ptr s =
      to_int (syscall syscall_ocall call_id data_start data_len return_buffer return_len data_ptr s)

  -- `touch` is what the machine does for the assignment of the byte at an address to itself, which makes
  -- its page present.
  unfoldable pub copy_from_shared :
      (touch : (addr : ℕ) → S → S) (dst offset data_len : ℕ) → S → ℕ × S
  copy_from_shared touch dst offset data_len s =
      to_int (syscall syscall_sharedcopy dst offset data_len 0 0 0 (touch dst s))

  unfoldable pub attest_enclave : (report data_start size : ℕ) → S → ℕ × S
  attest_enclave report data_start size s =
      to_int (syscall syscall_attest_enclave report data_start size 0 0 0 s)

  unfoldable pub s_brk : (bytes : ℕ) → S → ℕ × S
  s_brk bytes s = syscall syscall_sbrk bytes 0 0 0 0 0 s

  unfoldable pub s_rand : (loc sz : ℕ) → S → ℕ × S
  s_rand loc sz s = syscall syscall_rand loc sz 0 0 0 0 s
