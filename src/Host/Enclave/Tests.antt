-- ===== src/Host/Enclave/Tests.antt =====
-- Pages and a stack for a small simulated enclave.
use keystone_sdk.Base.{ℕ, ◌+◌, ◌*◌, ◌≤◌, ◌<◌, ◌≡◌, refl, arith, false, some}
use keystone_sdk.Host.Common.{success, round_up, rt_full}
use keystone_sdk.Host.Common.Rounding.{round_up_lem}
use keystone_sdk.Host.Enclave.{Keystone, mode_flags, mode_writes, alloc_page, epm, init_stack}
use keystone_sdk.Host.Enclave.Alloc.{IsAllocated}
use keystone_sdk.Host.Enclave.Mapped.{alloc_page-IsAllocated}
use keystone_sdk.Host.Enclave.Stack.{IsGrown, IsBacked, init_stack-maps}
use keystone_sdk.Host.Sample.{sample, sample-IsSpace}

abbrev no_pages : (size offset : ℕ) → ℕ
no_pages size offset = 0

abbrev pattern_bytes : ℕ → ℕ
pattern_bytes i = i

runtime_flags : mode_flags rt_full ≡ some 0x1cf
unfolding mode_flags
runtime_flags = refl

alloc_page-IsAllocated_example :
    (k' : Keystone ℕ ℕ) × (alloc_page no_pages 3 0x80000000 epm pattern_bytes rt_full sample
      ≡ some (success, k'))
    × IsAllocated 0x1000 0x1000000 sample k' sample-IsSpace 0x80000000 0x1cf
        (mode_writes rt_full)
        pattern_bytes
alloc_page-IsAllocated_example =
    alloc_page-IsAllocated no_pages pattern_bytes rt_full 0x1cf runtime_flags 0x1000 0x1000000 3
      0x80000000 sample sample-IsSpace (omega arith) (omega arith)

init_stack-maps_example :
    (k' : Keystone ℕ ℕ) × (init_stack no_pages 3 0x40000000 0x2000 false sample
      ≡ some (success, k'))
    × IsGrown 0x1000 0x1000000 (3 * (0x2000 + 4096)) sample k'
    × ((x : ℕ)
        → round_up 0x40000000 12 ≤ x + 0x2000
        → x < round_up 0x40000000 12
        → IsBacked sample k' 0x1d7 x)
init_stack-maps_example =
    init_stack-maps no_pages 0x1000 0x1000000 3 0x40000000 0x2000 false sample sample-IsSpace
      (omega arith) (let r = round_up_lem 0x40000000 (omega arith) in omega arith) (omega arith)
      (omega arith) (omega arith)
