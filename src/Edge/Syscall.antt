-- ===== src/Edge/Syscall.antt =====
-- The host's proxy for system calls, lib/edge/src/edge_syscall.c. The host's kernel is a parameter.
pub mod Serve
use keystone_sdk.Base.{ℕ, ◌+◌, Option, none, some, ◌==◌, if◌then◌else◌, sign_extend32}
use keystone_sdk.Memory.{Mem, load32, load64, store64}
use keystone_sdk.Edge.Shared.{Region, ok, err}
use keystone_sdk.Edge.Call.{args_ptr, data_ptr, setup_ret}
use keystone_sdk.Edge.World.{World, Handler, status_ok, status_syscall_failed, set_status}

-- The kernel's calls, over patterns of bits: an `int` has 32, an `off_t`, a `size_t`, an `ssize_t`
-- and a pointer 64. Each returns its result and the world after it; a call that fills a buffer or
-- reads a path does so in the world's memory.
pub record Kernel (S : Type 0) : Type 0 where
  pub openat : (dirfd path flags mode : ℕ) → World S → ℕ × World S
  pub unlinkat : (dirfd path flags : ℕ) → World S → ℕ × World S
  pub ftruncate : (fd offset : ℕ) → World S → ℕ × World S
  pub fstatat : (dirfd path stats flags : ℕ) → World S → ℕ × World S
  pub write : (fd buf len : ℕ) → World S → ℕ × World S
  pub read : (fd buf len : ℕ) → World S → ℕ × World S
  pub sync : World S → World S
  pub fsync : (fd : ℕ) → World S → ℕ × World S
  pub close : (fd : ℕ) → World S → ℕ × World S
  pub lseek : (fd offset whence : ℕ) → World S → ℕ × World S

-- The numbers of syscall_nums.h that are served.
abbrev pub sys_unlinkat : ℕ
sys_unlinkat = 35

abbrev pub sys_ftruncate : ℕ
sys_ftruncate = 46

abbrev pub sys_openat : ℕ
sys_openat = 56

abbrev pub sys_close : ℕ
sys_close = 57

abbrev pub sys_lseek : ℕ
sys_lseek = 62

abbrev pub sys_read : ℕ
sys_read = 63

abbrev pub sys_write : ℕ
sys_write = 64

abbrev pub sys_fstatat : ℕ
sys_fstatat = 79

abbrev pub sys_sync : ℕ
sys_sync = 81

abbrev pub sys_fsync : ℕ
sys_fsync = 82

-- An `int` result converted to `int64_t`.
abbrev pub int_result : {S : Type 0} → ℕ × World S → ℕ × World S
int_result (ret, w) = (sign_extend32 ret, w)

module _ {S : Type 0} (r : Region) where
  -- The result is written behind the call, and then set up as the call's return range.
  unfoldable pub finish : (call : ℕ) → ℕ × World S → World S
  finish call (ret, w) =
      let (code, m) = setup_ret r call (data_ptr r) 8 (store64 w.mem (data_ptr r) ret) in
      let w' = record w { mem = m } in
      if code == 0 then w' else set_status call status_syscall_failed w'

-- `sizeof_stat` is the size of the kernel's `struct stat`, which lies inside the arguments of
-- `fstatat`.
module _ {S : Type 0} (k : Kernel S) (sizeof_stat : ℕ) where
  -- Each call with the argument structure at `args` that edge_syscall.h declares for it.
  unfoldable pub do_openat : (args : ℕ) → World S → ℕ × World S
  do_openat args w = int_result (
      k.openat (load32 w.mem args) (args + 12) (load32 w.mem (args + 4)) (load32 w.mem (args + 8))
        w)

  unfoldable pub do_unlinkat : (args : ℕ) → World S → ℕ × World S
  do_unlinkat args w =
      int_result (k.unlinkat (load32 w.mem args) (args + 12) (load32 w.mem (args + 4)) w)

  unfoldable pub do_ftruncate : (args : ℕ) → World S → ℕ × World S
  do_ftruncate args w = int_result (k.ftruncate (load32 w.mem args) (load64 w.mem (args + 8)) w)

  unfoldable pub do_fstatat : (args : ℕ) → World S → ℕ × World S
  do_fstatat args w = int_result (
      k.fstatat (load32 w.mem args) (args + 8 + sizeof_stat) (args + 8) (load32 w.mem (args + 4)) w)

  unfoldable pub do_write : (args : ℕ) → World S → ℕ × World S
  do_write args w = k.write (load32 w.mem args) (args + 16) (load64 w.mem (args + 8)) w

  unfoldable pub do_read : (args : ℕ) → World S → ℕ × World S
  do_read args w = k.read (load32 w.mem args) (args + 16) (load64 w.mem (args + 8)) w

  unfoldable pub do_fsync : (args : ℕ) → World S → ℕ × World S
  do_fsync args w = int_result (k.fsync (load32 w.mem args) w)

  unfoldable pub do_close : (args : ℕ) → World S → ℕ × World S
  do_close args w = int_result (k.close (load32 w.mem args) w)

  unfoldable pub do_lseek : (args : ℕ) → World S → ℕ × World S
  do_lseek args w =
      k.lseek (load32 w.mem args) (load64 w.mem (args + 8)) (load32 w.mem (args + 16)) w

  -- The `switch`; `none` is its default case.
  unfoldable pub perform : (num args : ℕ) → World S → Option (ℕ × World S)
  perform num args w =
      if num == sys_openat
      then some (do_openat args w)
      else if num == sys_unlinkat
      then some (do_unlinkat args w)
      else if num == sys_ftruncate
      then some (do_ftruncate args w)
      else if num == sys_fstatat
      then some (do_fstatat args w)
      else if num == sys_write
      then some (do_write args w)
      else if num == sys_read
      then some (do_read args w)
      else if num == sys_sync
      then some (0, k.sync w)
      else if num == sys_fsync
      then some (do_fsync args w)
      else if num == sys_close
      then some (do_close args w)
      else if num == sys_lseek
      then some (do_lseek args w)
      else none

  module _ (r : Region) where
    -- The part behind the check of the arguments, with the `edge_syscall_t` at `info`.
    unfoldable pub serve : (call info : ℕ) → World S → World S
    serve call info w = elim (perform (load64 w.mem info) (info + 8) w) [
      | some result ↦ finish r call result
      | none ↦ set_status call status_syscall_failed w
    ]

    unfoldable pub incoming_syscall : Handler S
    incoming_syscall call w = elim (args_ptr r w.mem call) [
      | ok info ↦ serve call info (set_status call status_ok w)
      | err _ ↦ set_status call status_syscall_failed w
    ]
