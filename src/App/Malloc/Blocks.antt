-- ===== src/App/Malloc/Blocks.antt =====
-- The free list as a list of blocks in memory, and `malloc` and `free` on such lists.
pub mod Alloc
pub mod Release
use keystone_sdk.Base.{
  ℕ, ◌+◌, ◌-◌, ◌%◌, ◌≤◌, ◌<◌, ◌≡◌, ◌⊎◌, ◌&&◌, Bool, true, false, Option, none, some, List, [], ◌∷◌,
  leb, ltb, ◌==◌, if◌then◌else◌,
}
use keystone_sdk.Memory.{Mem, load64}

pub record Block : Type 0 where
  pub addr : ℕ
  pub size : ℕ

abbrev pub block : ℕ → ℕ → Block
block a n = record { addr = a; size = n }

-- From the pointer `p` on the free list leads through the blocks in order, each with its size, and
-- ends in a null.
abbrev pub ChainFrom : Mem → (p : ℕ) → List Block → Type 0
ChainFrom m p [] = p ≡ 0
ChainFrom m p (b ∷ bs) =
    (p ≡ b.addr) × (load64 m b.addr ≡ b.size) × ChainFrom m (load64 m (b.addr + 8)) bs

-- The list whose first pointer is stored at `link`.
abbrev pub Chain : Mem → (link : ℕ) → List Block → Type 0
Chain m link bs = ChainFrom m (load64 m link) bs

-- The blocks lie in order between `lo` and `end`; each has room for an entry, and no two touch.
abbrev pub Layout : (lo end : ℕ) → List Block → Type 0
Layout lo end [] = lo ≤ end + 1
Layout lo end (b ∷ bs) = (lo ≤ b.addr) × (16 ≤ b.size) × Layout (b.addr + b.size + 1) end bs

-- The byte lies in a block, and in one of the blocks.
abbrev pub InBlock : ℕ → Block → Type 0
InBlock x b = (b.addr ≤ x) × (x < b.addr + b.size)

abbrev pub InBlocks : ℕ → List Block → Type 0
InBlocks x [] = ⊥
InBlocks x (b ∷ bs) = InBlock x b ⊎ InBlocks x bs

abbrev pub is_nil : List Block → Bool
is_nil [] = true
is_nil (_ ∷ _) = false

-- A block granted, the free blocks that stay, and the end of the heap.
pub record Grant : Type 0 where
  pub granted : Block
  pub rest : List Block
  pub end : ℕ

abbrev pub keep : Block → Option Grant → Option Grant
keep b none = none
keep b (some g) = some (record g { rest = b ∷ g.rest })

module _ (real limit : ℕ) where
  -- The first block that is large enough, whole or split; else space at the end, as long as 32
  -- bytes below the limit stay free.
  unfoldable pub alloc : (end : ℕ) → List Block → Option Grant
  alloc end [] =
      if leb (end + real + 32) limit
      then some (record { granted = block end real; rest = []; end = end + real })
      else none
  alloc end (b ∷ bs) =
      let later = keep b (alloc end bs) in
      if leb real b.size
      then (if ltb b.size (real + 16)
          then some (record { granted = b; rest = bs; end = end })
          else some (record {
            granted = block b.addr real;
            rest = block (b.addr + real) (b.size - real) ∷ bs;
            end = end;
          }))
      else if is_nil bs && end == b.addr + b.size
      then (if leb (b.addr + real + 32) limit
          then some (record { granted = block b.addr real; rest = []; end = b.addr + real })
          else none)
      else later

-- The block in front, joined with the first of the list if they touch.
unfoldable pub join_next : Block → List Block → List Block
join_next b [] = b ∷ []
join_next b (n ∷ ns) =
    if b.addr + b.size == n.addr then block b.addr (b.size + n.size) ∷ ns else b ∷ n ∷ ns

-- A block given back: joined to the blocks that it touches, or put in its place.
unfoldable pub release : Block → List Block → List Block
unfolding join_next
release b [] = b ∷ []
release b (t ∷ ts) =
    let later = t ∷ release b ts in
    if t.addr + t.size == b.addr
    then join_next (block t.addr (t.size + b.size)) ts
    else if t.addr == b.addr + b.size
    then block b.addr (b.size + t.size) ∷ ts
    else if ltb b.addr t.addr
    then b ∷ t ∷ ts
    else later

-- The block shares no byte with any of the list.
abbrev pub AllApart : Block → List Block → Type 0
AllApart b [] = Unit
AllApart b (t ∷ ts) = ((b.addr + b.size ≤ t.addr) ⊎ (t.addr + t.size ≤ b.addr)) × AllApart b ts
