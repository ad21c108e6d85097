-- ===== src/Edge/Shared/Checks.antt =====
-- What the checks of offsets and pointers accept, and that the two translations are inverse.
use keystone_sdk.Base.{
  ℕ, ◌+◌, ◌-◌, ◌≤◌, ◌<◌, ◌≡◌, ◌≢◌, ◌↔◌, ◌⊎◌, inl, inr, ◌&&◌, Bool-cases, leb, arith, uintptr_max,
  IsWord, int_minus_one,
}
use keystone_sdk.Edge.Shared.{
  ok, err, Region, get_ptr_from_offset, check_ptr_valid, get_offset_from_ptr,
}

-- The region ends below the top of the address space, as a mapped buffer does.
pub record IsRegion (r : Region) : Type 0 where
  pub fits : r.start + r.len ≤ uintptr_max

-- The range of `n` bytes at `ptr` lies in the region.
abbrev pub InRegion : Region → ℕ → ℕ → Type 0
InRegion r ptr n = (r.start ≤ ptr) × (ptr + n ≤ r.start + r.len)

-- For words, and for any region, an offset is accepted exactly when `offset + data_len` stays
-- within the region's length and the address of its end does not wrap; the pointer is then the
-- start plus the offset. Every other request gets -1.
pub get_ptr_from_offset_iff :
    (r : Region) (offset data_len p : ℕ)
    → IsWord r.start
    → IsWord offset
    → IsWord data_len
    → IsWord r.len
    → ((get_ptr_from_offset r offset data_len ≡ ok p) ↔ (
        (offset + data_len ≤ r.len)
        × (r.start + offset + data_len ≤ uintptr_max)
        × (p ≡ r.start + offset)))
      × ((get_ptr_from_offset r offset data_len ≡ err int_minus_one)
          ↔ ((r.len < offset + data_len) ⊎ (uintptr_max < r.start + offset + data_len)))
unfolding get_ptr_from_offset
get_ptr_from_offset_iff r offset data_len p hs ho hd hl =
    ((λ e. ground arith, λ h. ground arith), (λ e. ground arith, λ h. ground arith))

-- For words and a region that does not wrap, a pointer passes the check exactly when its range
-- lies in the region.
pub check_ptr_valid_iff :
    (r : Region) (ptr data_len : ℕ)
    → IsRegion r
    → IsWord ptr
    → IsWord data_len
    → (check_ptr_valid r ptr data_len ≡ 0) ↔ InRegion r ptr data_len
unfolding check_ptr_valid
check_ptr_valid_iff r ptr data_len w hp hd = (λ e. ground arith, λ h. ground arith)

-- For words and a region that does not wrap, the code tells why a pointer was refused: 1 when it
-- starts outside the region, 2 when it starts inside and its end wraps, 3 when its end does not
-- wrap and lies behind the region.
pub check_ptr_valid_codes :
    (r : Region) (ptr data_len : ℕ)
    → IsRegion r
    → IsWord ptr
    → IsWord data_len
    → ((check_ptr_valid r ptr data_len ≡ 1) ↔ ((ptr < r.start) ⊎ (r.start + r.len < ptr)))
      × ((check_ptr_valid r ptr data_len ≡ 2)
          ↔ ((r.start ≤ ptr) × (ptr ≤ r.start + r.len) × (uintptr_max < ptr + data_len)))
      × ((check_ptr_valid r ptr data_len ≡ 3) ↔ (
          (r.start ≤ ptr)
          × (ptr ≤ r.start + r.len)
          × (r.start + r.len < ptr + data_len)
          × (ptr + data_len ≤ uintptr_max)))
unfolding check_ptr_valid
check_ptr_valid_codes r ptr data_len w hp hd = (
  (λ e. ground arith, λ h. ground arith),
  (λ e. ground arith, λ h. ground arith),
  (λ e. ground arith, λ h. ground arith),
)

pub get_offset_from_ptr-ok :
    (r : Region) (ptr data_len : ℕ)
    → IsRegion r
    → IsWord ptr
    → IsWord data_len
    → InRegion r ptr data_len
    → get_offset_from_ptr r ptr data_len ≡ ok (ptr - r.start)
unfolding get_offset_from_ptr
get_offset_from_ptr-ok r ptr data_len w hp hd h = ground arith

-- In a region that does not wrap, a pointer translates to an offset exactly when that offset
-- translates back to the pointer, for the same number of bytes.
pub get_offset_from_ptr-get_ptr_from_offset_iff :
    (r : Region) (ptr offset data_len : ℕ)
    → IsRegion r
    → IsWord ptr
    → IsWord offset
    → IsWord data_len
    → (get_offset_from_ptr r ptr data_len ≡ ok offset)
      ↔ (get_ptr_from_offset r offset data_len ≡ ok ptr)
unfolding get_offset_from_ptr get_ptr_from_offset
get_offset_from_ptr-get_ptr_from_offset_iff r ptr offset data_len w hp ho hd =
    (λ e. ground arith, λ e. ground arith)

-- A pointer outside the region gets a code that is not 0.
pub get_offset_from_ptr-err :
    (r : Region) (ptr data_len : ℕ)
    → IsRegion r
    → IsWord ptr
    → IsWord data_len
    → ¬ (InRegion r ptr data_len)
    → (c : ℕ) × (get_offset_from_ptr r ptr data_len ≡ err c) × (c ≢ 0)
unfolding get_offset_from_ptr
get_offset_from_ptr-err r ptr data_len w hp hd h = (
  check_ptr_valid r ptr data_len,
  unfold check_ptr_valid in ground arith,
  unfold check_ptr_valid in ground arith,
)

pub InRegion-cases : (r : Region) (ptr n : ℕ) → InRegion r ptr n ⊎ (¬ (InRegion r ptr n))
InRegion-cases r ptr n = elim (Bool-cases (leb r.start ptr && leb (ptr + n) (r.start + r.len))) [
  | inl e ↦ inl (ground arith)
  | inr e ↦ inr (λ h. ground arith)
]
