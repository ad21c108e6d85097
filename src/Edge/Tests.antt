-- ===== src/Edge/Tests.antt =====
-- Runs of lib/edge at a small region, and its theorems there.
use keystone_sdk.Base.{
  ℕ, ◌+◌, ◌-◌, ◌≤◌, ◌<◌, ◌≡◌, ◌≢◌, ◌↔◌, ◌⊎◌, inl, inr, refl, arith, true, false, none, some,
  int_minus_one, uintptr_max, ◌==◌, if◌then◌else◌, replicate,
}
use keystone_sdk.Memory.{Mem, store64, load64, load32}
use keystone_sdk.Edge.Shared.{
  Region, ok, err, get_ptr_from_offset, check_ptr_valid, get_offset_from_ptr,
}
use keystone_sdk.Edge.Shared.Checks.{
  IsRegion, InRegion, get_ptr_from_offset_iff, check_ptr_valid_iff, check_ptr_valid_codes,
  get_offset_from_ptr-get_ptr_from_offset_iff,
}
use keystone_sdk.Edge.Call.{
  EdgeData, args_ptr, ret_ptr, setup_call, setup_ret, setup_wrapped_ret, call_arg_offset_at,
  call_ret_offset_at, call_id_at, call_status_at,
}
use keystone_sdk.Edge.Call.Setup.{SetsRange, setup_call-args_ptr, setup_ret-ret_ptr}
use keystone_sdk.Edge.Call.Wrapped.{setup_wrapped_ret-ret_ptr, setup_wrapped_ret_overflow}
use keystone_sdk.Edge.World.{
  World, Handler, OnlyStatus, set_status, status_ok, status_syscall_failed,
}
use keystone_sdk.Edge.Dispatch.{
  done, fault, Table, IsTable, incoming_call_dispatch, register_call, max_edge_call,
}
use keystone_sdk.Edge.Dispatch.Table.{
  incoming_call_dispatch-register_call, register_call_outside, incoming_call_dispatch_unknown,
  incoming_call_dispatch_at_max,
}
use keystone_sdk.Edge.Syscall.{Kernel, perform, do_write, incoming_syscall}
use keystone_sdk.Edge.Syscall.Serve.{
  IsFinished, incoming_syscall_served, incoming_syscall_refused, incoming_syscall_unsupported,
}

abbrev region : Region
region = record { start = 0x1000; len = 0x100 }

region-IsRegion : IsRegion region
region-IsRegion = omega arith

abbrev blank : Mem
blank _ = 0

get_ptr_from_offset_iff_example :
    ((get_ptr_from_offset region 0xf0 16 ≡ ok 0x10f0) ↔ (
      (0xf0 + 16 ≤ 0x100)
      × (0x1000 + 0xf0 + 16 ≤ uintptr_max)
      × ◌≡◌ {A = ℕ} 0x10f0 (0x1000 + 0xf0)))
    × ((get_ptr_from_offset region 0xf0 16 ≡ err int_minus_one)
        ↔ ((0x100 < 0xf0 + 16) ⊎ (uintptr_max < 0x1000 + 0xf0 + 16)))
get_ptr_from_offset_iff_example =
    get_ptr_from_offset_iff region 0xf0 16 0x10f0 (omega arith) (omega arith) (omega arith)
      (omega arith)

check_ptr_valid_iff_example : (check_ptr_valid region 0x10f0 16 ≡ 0) ↔ InRegion region 0x10f0 16
check_ptr_valid_iff_example =
    check_ptr_valid_iff region 0x10f0 16 region-IsRegion (omega arith) (omega arith)

check_ptr_valid_codes_example :
    ((check_ptr_valid region 0x10f0 17 ≡ 1) ↔ ((0x10f0 < 0x1000) ⊎ (0x1000 + 0x100 < 0x10f0)))
    × ((check_ptr_valid region 0x10f0 17 ≡ 2)
        ↔ ((0x1000 ≤ 0x10f0) × (0x10f0 ≤ 0x1000 + 0x100) × (uintptr_max < 0x10f0 + 17)))
    × ((check_ptr_valid region 0x10f0 17 ≡ 3) ↔ (
        (0x1000 ≤ 0x10f0)
        × (0x10f0 ≤ 0x1000 + 0x100)
        × (0x1000 + 0x100 < 0x10f0 + 17)
        × (0x10f0 + 17 ≤ uintptr_max)))
check_ptr_valid_codes_example =
    check_ptr_valid_codes region 0x10f0 17 region-IsRegion (omega arith) (omega arith)

get_offset_from_ptr-get_ptr_from_offset_iff_example :
    (get_offset_from_ptr region 0x10f0 16 ≡ ok 0xf0)
    ↔ (get_ptr_from_offset region 0xf0 16 ≡ ok 0x10f0)
get_offset_from_ptr-get_ptr_from_offset_iff_example =
    get_offset_from_ptr-get_ptr_from_offset_iff region 0x10f0 0xf0 16 region-IsRegion (omega arith)
      (omega arith) (omega arith)

setup_call-args_ptr_example :
    SetsRange region 0x1040 8
      (call_arg_offset_at 0x1000)
      blank
      (λ n. args_ptr region n 0x1000)
      (setup_call region 0x1000 0x1040 8 blank)
setup_call-args_ptr_example =
    setup_call-args_ptr region 0x1040 8 region-IsRegion (omega arith) (omega arith) 0x1000 blank

setup_ret-ret_ptr_example :
    SetsRange region 0x1040 8
      (call_ret_offset_at 0x1000)
      blank
      (λ n. ret_ptr region n 0x1000)
      (setup_ret region 0x1000 0x1040 8 blank)
setup_ret-ret_ptr_example =
    setup_ret-ret_ptr region 0x1040 8 region-IsRegion (omega arith) (omega arith) 0x1000 blank

abbrev unset : EdgeData
unset = record { offset = 1; data_va = 2; size = 3 }

-- The source holds the low byte of its address.
abbrev pattern_mem : Mem
pattern_mem x = if x == 0x5001 then 7 else 0

setup_wrapped_ret-ret_ptr_example :
    let (code, n) = setup_wrapped_ret region unset 0x1000 0x5000 4 pattern_mem in
    (code ≡ 0)
    × (ret_ptr region n 0x1000 ≡ ok (0x1000 + 48))
    × (get_ptr_from_offset region (load64 n (0x1000 + 48)) (load64 n (0x1000 + 48 + 16))
        ≡ ok (0x1000 + 72))
    × (load64 n (0x1000 + 48 + 16) ≡ 4)
    × ((i : ℕ) → i < 4 → n (0x1000 + 72 + i) ≡ pattern_mem (0x5000 + i))
setup_wrapped_ret-ret_ptr_example =
    setup_wrapped_ret-ret_ptr region unset 0x1000 0x5000 4 pattern_mem region-IsRegion (omega arith)
      (omega arith) (inl (omega arith)) (inr (omega arith))

setup_wrapped_ret_overflow_example :
    ((setup_wrapped_ret region unset 0x1000 0x5000 0x200 pattern_mem).0 ≡ 0)
    × ((setup_wrapped_ret region unset 0x1000 0x5000 0x200 pattern_mem).1 (0x1000 + 0x100)
        ≡ pattern_mem (0x5000 + (0x100 - 72)))
setup_wrapped_ret_overflow_example =
    setup_wrapped_ret_overflow region unset 0x1000 0x5000 0x200 pattern_mem region-IsRegion
      (omega arith) (omega arith) (omega arith) (inr (omega arith))

-- The world outside counts the calls made.
abbrev count_up : Handler ℕ
count_up buffer w = record w { os = w.os + 1 }

abbrev table : Table ℕ
table = replicate 40 none

-- A call with number 3, with its argument range at offset 48, which holds a write of 3 bytes to
-- file 1.
abbrev write_call : Mem
write_call =
    store64
      (store64 (store64 (store64 (store64 (store64 blank 0x1000 3) 0x1008 48) 0x1010 32) 0x1030 64)
        0x1038 1)
      0x1040 3

abbrev world : World ℕ
world = record { mem = write_call; os = 0 }

incoming_call_dispatch-register_call_example :
    (table' : Table ℕ) × (register_call table 3 (some count_up) ≡ done (0, table'))
    × IsTable table'
    × ((buffer : ℕ) (w : World ℕ)
        → load64 w.mem (call_id_at buffer) ≡ 3
        → incoming_call_dispatch true count_up table' buffer w ≡ done (count_up buffer w))
    × ((buffer : ℕ) (w : World ℕ)
        → load64 w.mem (call_id_at buffer) ≢ 3
        → incoming_call_dispatch true count_up table' buffer w
          ≡ incoming_call_dispatch true count_up table buffer w)
incoming_call_dispatch-register_call_example =
    incoming_call_dispatch-register_call true count_up table refl 3 count_up (omega arith)

register_call_outside_example :
    (max_edge_call < 40 → register_call table 40 none ≡ done (int_minus_one, table))
    × (◌≡◌ {A = ℕ} 40 max_edge_call → register_call table 40 none ≡ fault)
register_call_outside_example = register_call_outside true count_up table refl 40 none

write_call-id : load64 write_call 0x1000 ≡ 3
unfolding load64 store64
write_call-id = refl

incoming_call_dispatch_unknown_example :
    (w' : World ℕ) × (incoming_call_dispatch false count_up table 0x1000 world ≡ done w')
    × OnlyStatus 0x1000 1 world w'
unfolding load64 store64
incoming_call_dispatch_unknown_example =
    incoming_call_dispatch_unknown false count_up table refl 0x1000 world (inl refl) (inr refl)

abbrev at_max : World ℕ
at_max = record { mem = store64 blank 0x1000 40; os = 0 }

incoming_call_dispatch_at_max_example :
    incoming_call_dispatch false count_up table 0x1000 at_max ≡ fault
unfolding load64 store64
incoming_call_dispatch_at_max_example =
    incoming_call_dispatch_at_max false count_up table refl 0x1000 at_max refl

-- A kernel that counts its calls, and whose write takes all bytes.
abbrev counted : ℕ → World ℕ → ℕ × World ℕ
counted ret w = (ret, record w { os = w.os + 1 })

abbrev kernel : Kernel ℕ
kernel = record {
  openat = λ dirfd path flags mode. counted 3;
  unlinkat = λ dirfd path flags. counted 0;
  ftruncate = λ fd offset. counted 0;
  fstatat = λ dirfd path stats flags. counted 0;
  write = λ fd buf len. counted len;
  read = λ fd buf len. counted 0;
  sync = λ w. record w { os = w.os + 1 };
  fsync = λ fd. counted 0;
  close = λ fd. counted 0;
  lseek = λ fd offset whence. counted offset;
}

incoming_syscall_served_example :
    IsFinished region 0x1000
      (0x1000 + 48)
      3
      (record { mem = (set_status 0x1000 status_ok world).mem; os = 1 })
      (incoming_syscall kernel 128 region 0x1000 world)
unfolding load32 load64 store64 args_ptr get_ptr_from_offset perform do_write
incoming_syscall_served_example =
    incoming_syscall_served region 0x1000 region-IsRegion (omega arith) (inl (omega arith)) kernel
      128 0x1030 3 world _ refl refl (omega arith)

-- The argument range is longer than the region.
abbrev long_call : World ℕ
long_call = record { mem = store64 blank 0x1010 0x200; os = 0 }

incoming_syscall_refused_example :
    OnlyStatus 0x1000 5 long_call (incoming_syscall kernel 128 region 0x1000 long_call)
unfolding load64 store64
incoming_syscall_refused_example =
    incoming_syscall_refused kernel 128 region 0x1000 long_call region-IsRegion (omega arith)
      (omega arith) (omega arith)

-- System call 0 is not served.
abbrev odd_call : World ℕ
odd_call = record { mem = store64 blank 0x1008 48; os = 0 }

incoming_syscall_unsupported_example :
    ((incoming_syscall kernel 128 region 0x1000 odd_call).os ≡ 0)
    × (load64 (incoming_syscall kernel 128 region 0x1000 odd_call).mem (call_status_at 0x1000)
        ≡ status_syscall_failed)
    × ((x : ℕ)
        → (x < call_status_at 0x1000) ⊎ (call_status_at 0x1000 + 8 ≤ x)
        → (incoming_syscall kernel 128 region 0x1000 odd_call).mem x ≡ odd_call.mem x)
unfolding load64 store64 args_ptr get_ptr_from_offset
incoming_syscall_unsupported_example =
    incoming_syscall_unsupported kernel 128 region 0x1000 odd_call 0x1030 refl (λ h. omega arith)
