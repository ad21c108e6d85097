-- ===== src/Memory.antt =====
-- The byte-addressed memory that the C code reads and writes through pointers. Multi-byte values
-- lie in it with the least significant byte first, as on riscv64.
pub mod Laws
use keystone_sdk.Base.{ℕ, ◌+◌, ◌*◌, ◌/◌, ◌%◌, ◌-◌, ◌<◌, ◌&&◌, ltb, leb, ◌==◌, if◌then◌else◌}

-- The byte at each address.
abbrev pub Mem : Type 0
Mem = ℕ → ℕ

abbrev pub IsBytes : Mem → Type 0
IsBytes m = (a : ℕ) → m a < 256

-- `*(char *)a = v`
unfoldable pub store8 : Mem → ℕ → ℕ → Mem
store8 m a v x = if x == a then v % 256 else m x

-- `*(uint32_t *)a`
unfoldable pub load32 : Mem → ℕ → ℕ
load32 m a = m a + 256 * (m (a + 1) + 256 * (m (a + 2) + 256 * m (a + 3)))

-- `*(uint64_t *)a`
unfoldable pub load64 : Mem → ℕ → ℕ
unfolding load32
load64 m a = load32 m a + 4294967296 * load32 m (a + 4)

-- `*(uint64_t *)a = v`
unfoldable pub store64 : Mem → ℕ → ℕ → Mem
store64 m a v x =
    if ltb x a
    then m x
    else if x == a
    then v % 256
    else if x == a + 1
    then v / 256 % 256
    else if x == a + 2
    then v / 65536 % 256
    else if x == a + 3
    then v / 16777216 % 256
    else if x == a + 4
    then v / 4294967296 % 256
    else if x == a + 5
    then v / 1099511627776 % 256
    else if x == a + 6
    then v / 281474976710656 % 256
    else if x == a + 7
    then v / 72057594037927936 % 256
    else m x

-- Memory after `len` bytes at `src` were copied to `dest`, as `memcpy` of the C standard does
-- where the two ranges do not overlap.
unfoldable pub copy : Mem → (dest src len : ℕ) → Mem
copy m dest src len x = if leb dest x && ltb x (dest + len) then m (src + (x - dest)) else m x
