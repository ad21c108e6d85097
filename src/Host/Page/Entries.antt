-- ===== src/Host/Page/Entries.antt =====
-- Entries of page tables: what is put into one is read back, and entries lie apart.
use keystone_sdk.Base.{
  ℕ, ◌+◌, ◌*◌, ◌/◌, ◌%◌, ◌^◌, ◌<◌, ◌≡◌, arith, true, false, mul64, bit_or, IsWord,
}
use keystone_sdk.Base.Bits.{bit_and-low_ones, bit_or-shifted, bit_or-low, bit_or-lt, bit_or-digit}
use keystone_sdk.Host.Page.{pte_create, pte_ppn, ppn, pt_idx, is_valid, pte_page, entry_at}

-- The entry for a page number of at most 54 digits and flags of 10 digits.
pub pte_create-eq :
    (p type : ℕ) → p < 2 ^ 54 → type < 1024 → pte_create p type ≡ p * 1024 + bit_or 1 type
unfolding pte_create
pte_create-eq p type h g =
    let shift : mul64 p 1024 ≡ p * 1024 = omega arith in
    let low : bit_or (p * 1024) 1 ≡ p * 1024 + 1 = bit_or-shifted 10 p 1 (omega arith) in
    rw (shift, low) (bit_or-low 10 p 1 type (omega arith) g)

flags_bounds : (type : ℕ) → type < 1024 → (bit_or 1 type < 1024) × (bit_or 1 type % 2 ≡ 1)
flags_bounds type g = (bit_or-lt 10 1 type (omega arith) g, omega (arith, bit_or-digit 1 type))

pub pte_create-is_valid :
    (p type : ℕ) → p < 2 ^ 54 → type < 1024 → is_valid (pte_create p type) ≡ true
unfolding is_valid
pte_create-is_valid p type h g =
    let odd = (flags_bounds type g).1 in
    let e = pte_create-eq p type h g in ground (arith, bit_and-low_ones 1 (pte_create p type))

pub pte_ppn-pte_create : (p type : ℕ) → p < 2 ^ 54 → type < 1024 → pte_ppn (pte_create p type) ≡ p
unfolding pte_ppn
pte_ppn-pte_create p type h g =
    let low = (flags_bounds type g).0 in omega (arith, pte_create-eq p type h g)

pub pte_create-IsWord : (p type : ℕ) → p < 2 ^ 54 → type < 1024 → IsWord (pte_create p type)
pte_create-IsWord p type h g =
    let low = (flags_bounds type g).0 in omega (arith, pte_create-eq p type h g)

-- An entry for the page at an address leads to that address.
pub pte_page-pte_create :
    (a type : ℕ) → a % 4096 ≡ 0 → IsWord a → type < 1024 → pte_page (pte_create (ppn a) type) ≡ a
unfolding pte_page ppn
pte_page-pte_create a type al w g =
    rw (pte_ppn-pte_create (a / 4096) type (omega arith) g) (omega arith)

pub pte_page-aligned : (pte : ℕ) → pte_page pte % 4096 ≡ 0
unfolding pte_page
pte_page-aligned pte = omega arith

pub pt_idx-lt : (addr level : ℕ) → pt_idx addr level < 512
unfolding pt_idx
pt_idx-lt addr level = omega (arith, bit_and-low_ones 9 (addr / 2 ^ (9 * level + 12)))

-- Entries of a table lie in its page, at multiples of 8.
pub entry_at-eq :
    (addr level t : ℕ) → t % 4096 ≡ 0 → IsWord t → entry_at addr level t ≡ t + 8 * pt_idx addr level
unfolding entry_at
entry_at-eq addr level t al w = omega (arith, pt_idx-lt addr level)

pub ppn-lt : (a : ℕ) → IsWord a → ppn a < 2 ^ 54
unfolding ppn
ppn-lt a w = omega arith

-- The empty entry is not valid.
pub zero-is_valid : is_valid 0 ≡ false
unfolding is_valid
zero-is_valid = ground (arith, bit_and-low_ones 1 0)
