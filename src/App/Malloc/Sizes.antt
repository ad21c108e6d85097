-- ===== src/App/Malloc/Sizes.antt =====
-- The size computations of tiny-malloc.c.
use keystone_sdk.Base.{ℕ, ◌+◌, ◌-◌, ◌%◌, ◌^◌, ◌≤◌, ◌<◌, ◌≡◌, arith, IsWord, true, leb, sub64}
use keystone_sdk.Base.Bits.{bit_and-low_ones}
use keystone_sdk.App.Malloc.{m_align, real_size, can_alloc, Env}

m_align-eq : (x : ℕ) → m_align x 8 ≡ sub64 0 x % 8
unfolding m_align
m_align-eq x = bit_and-low_ones 3 (sub64 0 x)

-- For a request of at most 2^64 - 16 bytes the real size is a multiple of 8, is at least the size
-- of a free list's entry, has room for the header and the payload, and is at most 16 bytes more
-- than the request.
pub real_size_bounds :
    (sz : ℕ)
    → sz ≤ 2 ^ 64 - 16
    → (real_size sz % 8 ≡ 0)
      × (16 ≤ real_size sz)
      × (sz + 8 ≤ real_size sz)
      × (real_size sz ≤ sz + 16)
unfolding real_size
real_size_bounds sz h = ground (arith, m_align-eq sz)

-- For a request of more than 2^64 - 16 bytes the computation of the real size wraps, and gives at
-- most 8.
pub real_size_wraps : (sz : ℕ) → 2 ^ 64 - 16 < sz → IsWord sz → real_size sz ≤ 8
unfolding real_size
real_size_wraps sz h w = ground (arith, m_align-eq sz)

-- With the gap between heap and stack at least 32, the test admits just what leaves the gap.
pub can_alloc_iff :
    (env : Env) (end required : ℕ)
    → end + 32 ≤ env.limit
    → IsWord env.limit
    → can_alloc env end required ≡ leb (end + required + 32) env.limit
unfolding can_alloc
can_alloc_iff env end required h w = ground arith

-- Where the heap's end lies at most 31 bytes below the limit, the subtraction in the test wraps,
-- and the test admits every request below 2^63.
pub can_alloc_wraps :
    (env : Env) (end required : ℕ)
    → env.limit < end + 32
    → end ≤ env.limit
    → IsWord env.limit
    → required < 2 ^ 63
    → can_alloc env end required ≡ true
unfolding can_alloc
can_alloc_wraps env end required h above w r = ground arith
