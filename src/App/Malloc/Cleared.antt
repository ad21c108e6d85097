-- ===== src/App/Malloc/Cleared.antt =====
-- lib/app/src/tiny-malloc.c: `calloc`, an allocation whose payload is cleared.
pub mod Zeroed
use keystone_sdk.Base.{ℕ, ◌+◌, Option, none, some, ◌==◌, if◌then◌else◌, mul64}
use keystone_sdk.Memory.{Mem}
use keystone_sdk.App.Str.{memset}
use keystone_sdk.App.Malloc.{Env, Heap, null, malloc}

-- The pointer with the heap, once its memory is what `memset` left.
unfoldable pub with_memory : {S : Type 0} → (p : ℕ) → Heap S → Option Mem → Option (ℕ × Heap S)
with_memory p h none = none
with_memory p h (some m) = some (p, record h { mem = m })

-- `memset (result, 0, sz)`, where the result is not null.
unfoldable pub clear : {S : Type 0} → (sz : ℕ) → Option (ℕ × Heap S) → Option (ℕ × Heap S)
clear sz none = none
clear sz (some (p, h)) =
    if p == null then some (p, h) else with_memory p h (memset (sz + 1) p 0 sz h.mem)

unfoldable pub calloc :
    {S : Type 0}
    → (s_brk : ℕ → S → ℕ × S) (env : Env) (fuel n elem_size : ℕ) → Heap S
    → Option (ℕ × Heap S)
calloc s_brk env fuel n elem_size h =
    let sz = mul64 n elem_size in clear sz (malloc s_brk env fuel sz h)
