-- ===== src/App/Malloc/Blocks/Alloc.antt =====
-- What an allocation on a list of blocks grants.
use keystone_sdk.Base.{
  ℕ, ◌+◌, ◌-◌, ◌≤◌, ◌<◌, ◌≡◌, ◌↔◌, ◌⊎◌, inl, inr, refl, arith, ◌&&◌, Option, some, List, [], ◌∷◌,
  leb, ltb, ◌==◌, if◌then◌else◌, true, none, Bool-cases, length,
}
use keystone_sdk.App.Malloc.Blocks.{
  Block, block, Layout, InBlock, InBlocks, is_nil, Grant, keep, alloc,
}

abbrev pub IfSome {ℓ} : {A : Type 0} → (A → Type ℓ) → Option A → Type ℓ
IfSome P none = Unit
IfSome P (some a) = P a

keep-IfSome :
    (P Q : Grant → Type 0) (b : Block) (o : Option Grant)
    → ((g : Grant) → Q g → P (record g { rest = b ∷ g.rest }))
    → IfSome Q o
    → IfSome P (keep b o)
keep-IfSome P Q b none f q = tt
keep-IfSome P Q b (some g) f q = f g q

keep-none : (b : Block) (o : Option Grant) → keep b o ≡ none → o ≡ none
keep-none b none e = refl
keep-none b (some g) e = cc

-- The grant is fit for the request: the block is large enough and lies in the heap, the rest is no
-- longer a list and keeps its layout, the heap grows by at most what the limit allows, and the bytes that were free or are
-- new are those of the block and of the rest, which share none.
pub record IsGrant (real limit lo end : ℕ) (bs : List Block) (g : Grant) : Type 0 where
  pub enough : real ≤ g.granted.size
  pub shorter : length g.rest ≤ length bs
  pub inside : (lo ≤ g.granted.addr) × (g.granted.addr + g.granted.size ≤ g.end)
  pub layout : Layout lo g.end g.rest
  pub grows : end ≤ g.end
  pub gap : g.end + 32 ≤ limit
  pub covers :
      (x : ℕ)
      → (InBlocks x bs ⊎ ((end ≤ x) × (x < g.end))) ↔ (InBlock x g.granted ⊎ InBlocks x g.rest)
  pub apart : (x : ℕ) → InBlock x g.granted → ¬ (InBlocks x g.rest)

pub Layout-le : (lo end : ℕ) (bs : List Block) → Layout lo end bs → lo ≤ end + 1
Layout-le lo end [] l = l
Layout-le lo end (b ∷ bs) (p, q, l) = omega (arith, Layout-le (b.addr + b.size + 1) end bs l)

-- A layout may begin earlier.
pub Layout-mono :
    (lo lo' end : ℕ) (bs : List Block) → lo' ≤ lo → Layout lo end bs → Layout lo' end bs
Layout-mono lo lo' end [] h l = omega arith
Layout-mono lo lo' end (b ∷ bs) h (p, q, l) = (omega arith, q, l)

-- Blocks of a layout lie between its ends.
pub InBlocks-Layout :
    (x lo end : ℕ) (bs : List Block) → Layout lo end bs → InBlocks x bs → (lo ≤ x) × (x < end)
InBlocks-Layout x lo end [] l i = absurd i
InBlocks-Layout x lo end (b ∷ bs) (p, q, l) (inl i) =
    omega (arith, Layout-le (b.addr + b.size + 1) end bs l)
InBlocks-Layout x lo end (b ∷ bs) (p, q, l) (inr i) =
    let r = InBlocks-Layout x (b.addr + b.size + 1) end bs l i in omega arith

module _ (real limit : ℕ) where
  -- The first block is granted, whole or split.
  IsGrant-whole :
      (lo end : ℕ) (b : Block) (bs : List Block)
      → Layout lo end (b ∷ bs)
      → end + 32 ≤ limit
      → real ≤ b.size
      → IsGrant real limit lo end (b ∷ bs) (record { granted = b; rest = bs; end = end })
  IsGrant-whole lo end b bs l gap h = record {
    enough = h;
    shorter = omega arith;
    inside = omega (arith, Layout-le (b.addr + b.size + 1) end bs l.2);
    layout = Layout-mono (b.addr + b.size + 1) lo end bs (omega arith) l.2;
    grows = omega arith;
    gap = gap;
    covers = λ x. (λ i. ground arith, λ i. ground arith);
    apart = λ x i j. omega (arith, InBlocks-Layout x (b.addr + b.size + 1) end bs l.2 j);
  }

  IsGrant-split :
      (lo end : ℕ) (b : Block) (bs : List Block)
      → Layout lo end (b ∷ bs)
      → end + 32 ≤ limit
      → real + 16 ≤ b.size
      → IsGrant real limit lo end (b ∷ bs) (record {
        granted = block b.addr real;
        rest = block (b.addr + real) (b.size - real) ∷ bs;
        end = end;
      })
  IsGrant-split lo end b bs l gap h = record {
    enough = omega arith;
    shorter = omega arith;
    inside = omega (arith, Layout-le (b.addr + b.size + 1) end bs l.2);
    layout = (
      omega arith,
      omega arith,
      Layout-mono (b.addr + b.size + 1) (b.addr + real + (b.size - real) + 1) end bs (omega arith)
          l.2,
    );
    grows = omega arith;
    gap = gap;
    covers = λ x. (λ i. ground arith, λ i. ground arith);
    apart = λ x i j. elim j [
      | inl k ↦ omega arith
      | inr k ↦ omega (arith, InBlocks-Layout x (b.addr + b.size + 1) end bs l.2 k)
    ];
  }

  -- The last block, at the end of the heap, is enlarged.
  IsGrant-enlarge :
      (lo end : ℕ) (b : Block)
      → lo ≤ b.addr
      → b.size < real
      → end ≡ b.addr + b.size
      → b.addr + real + 32 ≤ limit
      → IsGrant real limit lo end
          (b ∷ [])
          (record { granted = block b.addr real; rest = []; end = b.addr + real })
  IsGrant-enlarge lo end b l h at_end gap = record {
    enough = omega arith;
    shorter = omega arith;
    inside = omega arith;
    layout = omega arith;
    grows = omega arith;
    gap = gap;
    covers = λ x. (λ i. ground arith, λ i. ground arith);
    apart = λ x i j. j;
  }

  IsGrant-fresh :
      (lo end : ℕ)
      → lo ≤ end
      → end + real + 32 ≤ limit
      → IsGrant real limit lo end []
          (record { granted = block end real; rest = []; end = end + real })
  IsGrant-fresh lo end l gap = record {
    enough = omega arith;
    shorter = omega arith;
    inside = omega arith;
    layout = omega arith;
    grows = omega arith;
    gap = gap;
    covers = λ x. (λ i. ground arith, λ i. ground arith);
    apart = λ x i j. j;
  }

  -- A block in front stays.
  IsGrant-keep :
      (lo end : ℕ) (b : Block) (bs : List Block) (g : Grant)
      → Layout lo end (b ∷ bs)
      → IsGrant real limit (b.addr + b.size + 1) end bs g
      → IsGrant real limit lo end (b ∷ bs) (record g { rest = b ∷ g.rest })
  IsGrant-keep lo end b bs g l is = record {
    enough = is.enough;
    shorter = omega (arith, is.shorter);
    inside = omega arith;
    layout = (l.0, l.1, is.layout);
    grows = is.grows;
    gap = is.gap;
    covers = λ x. (λ i. ground (arith, is.covers x), λ i. ground (arith, is.covers x));
    apart = λ x i j. ground (arith, is.apart x);
  }

  enlarge-IfSome :
      (lo end : ℕ) (b : Block) (bs : List Block)
      → lo ≤ b.addr
      → b.size < real
      → is_nil bs ≡ true
      → end ≡ b.addr + b.size
      → IfSome (IsGrant real limit lo end (b ∷ bs)) (
          if leb (b.addr + real + 32) limit
          then some (record { granted = block b.addr real; rest = []; end = b.addr + real })
          else none)
  enlarge-IfSome lo end b [] l h nil at_end = elim (Bool-cases (leb (b.addr + real + 32) limit)) [
    | inl fits ↦ rw fits (IsGrant-enlarge lo end b l h at_end (ground arith))
    | inr full ↦ rw full tt
  ]
  enlarge-IfSome lo end b (c ∷ bs) l h nil at_end = cc

  -- Whatever is granted is fit for the request.
  pub alloc-IsGrant :
      (lo end : ℕ) (bs : List Block)
      → Layout lo end bs
      → (is_nil bs ≡ true → lo ≤ end)
      → end + 32 ≤ limit
      → IfSome (IsGrant real limit lo end bs) (alloc real limit end bs)
  unfolding alloc
  alloc-IsGrant lo end [] l room gap = elim (Bool-cases (leb (end + real + 32) limit)) [
    | inl fits ↦ rw fits (IsGrant-fresh lo end (room refl) (ground arith))
    | inr full ↦ rw full tt
  ]
  alloc-IsGrant lo end (b ∷ bs) l room gap = elim (Bool-cases (leb real b.size)) [
    | inl large ↦ rw large (elim (Bool-cases (ltb b.size (real + 16))) [
      | inl whole ↦ rw whole (IsGrant-whole lo end b bs l gap (ground arith))
      | inr split ↦ rw split (IsGrant-split lo end b bs l gap (ground arith))
    ])
    | inr small ↦ rw small (elim (Bool-cases (is_nil bs && end == b.addr + b.size)) [
      | inl last ↦
          rw last (enlarge-IfSome lo end b bs l.0 (ground arith) (ground arith) (ground arith))
      | inr inner ↦ rw inner (
          keep-IfSome (IsGrant real limit lo end (b ∷ bs)) _ b (alloc real limit end bs)
            (λ g. IsGrant-keep lo end b bs g l)
            (alloc-IsGrant (b.addr + b.size + 1) end bs l.2
              (λ nil. ground (arith, Layout-le (b.addr + b.size + 1) end bs l.2)) gap))
    ])
  ]

-- No block is large enough.
abbrev pub AllBelow : ℕ → List Block → Type 0
AllBelow real [] = Unit
AllBelow real (b ∷ bs) = (b.size < real) × AllBelow real bs

-- Nothing is granted only when no block is large enough and the heap's end has no room.
pub alloc-none :
    (real limit lo end : ℕ) (bs : List Block)
    → Layout lo end bs
    → alloc real limit end bs ≡ none
    → AllBelow real bs × (limit < end + real + 32)
unfolding alloc
alloc-none real limit lo end [] l e = ground arith
alloc-none real limit lo end (b ∷ []) l e = ground arith
alloc-none real limit lo end (b ∷ c ∷ bs) l e = ground (
  arith,
  keep-none b (alloc real limit end (c ∷ bs)),
  alloc-none real limit (b.addr + b.size + 1) end (c ∷ bs) l.2,
)

-- A byte outside the blocks lies below or above the first, and outside the others.
pub not-InBlocks-cons :
    (x : ℕ) (b : Block) (bs : List Block)
    → ¬ (InBlocks x (b ∷ bs))
    → ((x < b.addr) ⊎ (b.addr + b.size ≤ x)) × ¬ (InBlocks x bs)
not-InBlocks-cons x b bs h = (
  elim (Bool-cases (ltb x b.addr)) [
    | inl below ↦ inl (ground arith)
    | inr not_below ↦ elim (Bool-cases (ltb x (b.addr + b.size))) [
      | inl inside ↦ absurd (h (inl (ground arith)))
      | inr above ↦ inr (ground arith)
    ]
  ],
  λ i. h (inr i),
)
