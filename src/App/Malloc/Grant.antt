-- ===== src/App/Malloc/Grant.antt =====
-- `malloc` on a heap whose free list stands for a list of blocks does what `alloc` does on that list.
pub mod Loop
pub mod Steps
use keystone_sdk.Base.{
  ℕ, ◌+◌, ◌≤◌, ◌<◌, ◌≡◌, ◌⊎◌, inl, inr, arith, ◌∙◌, Option, none, some, List, [], ◌∷◌, IsWord,
}
use keystone_sdk.Memory.{Mem, load64}
use keystone_sdk.Memory.Laws.{load64-ext}
use keystone_sdk.App.Malloc.{Env, Heap, null}
use keystone_sdk.App.Malloc.Blocks.{Block, ChainFrom, Chain, Layout, InBlocks, Grant}
use keystone_sdk.App.Malloc.Blocks.Alloc.{Layout-le}

-- The variable `__malloc_freelist` lies outside the heap, which starts above address 0.
pub record IsEnv (env : Env) : Type 0 where
  pub start_pos : 0 < env.start
  pub limit_word : IsWord env.limit
  pub freelist_word : IsWord env.freelist
  pub freelist_apart : (env.freelist + 8 ≤ env.start) ⊎ (env.limit ≤ env.freelist)

-- A list stays where no byte of its blocks changes.
pub ChainFrom-frame :
    (m n : Mem) (p lo end : ℕ) (bs : List Block)
    → Layout lo end bs
    → ((x : ℕ) → InBlocks x bs → n x ≡ m x)
    → ChainFrom m p bs
    → ChainFrom n p bs
ChainFrom-frame m n p lo end [] l same c = c
ChainFrom-frame m n p lo end (b ∷ bs) l same (e, sz, c) =
    let next = load64-ext n m (b.addr + 8) λ x q r. same x (inl (omega arith)) in
    (
      e,
      load64-ext n m b.addr (λ x q r. same x (inl (omega arith))) ∙ sz,
      rw next (
          ChainFrom-frame m n (load64 m (b.addr + 8)) (b.addr + b.size + 1) end bs l.2
            (λ x i. same x (inr i)) c),
    )

-- The pointer that leads to a list is a word.
pub ChainFrom-IsWord :
    (m : Mem) (p lo end : ℕ) (bs : List Block)
    → Layout lo end bs
    → IsWord end
    → ChainFrom m p bs
    → IsWord p
ChainFrom-IsWord m p lo end [] l w c = omega arith
ChainFrom-IsWord m p lo end (b ∷ bs) l w c =
    omega (arith, Layout-le (b.addr + b.size + 1) end bs l.2)

-- The pointer, heap and list after a grant: the granted block has its size in its header, the list
-- stands for the rest, and no byte differs outside the link, the blocks that were free and the
-- new space.
pub record IsGranted {S : Type 0} (env : Env) (link : ℕ) (h : Heap S) (bs : List Block) (g : Grant)
    (out : ℕ × Heap S) : Type 0 where
  pub pointer : out.0 ≡ g.granted.addr + 8
  pub end : out.1.end ≡ g.end
  pub gap : g.end + 32 ≤ env.limit
  pub header : load64 out.1.mem g.granted.addr ≡ g.granted.size
  pub chain : Chain out.1.mem link g.rest
  pub frame :
      (x : ℕ)
      → (x < link) ⊎ (link + 8 ≤ x)
      → ¬ (InBlocks x bs)
      → (x < h.end) ⊎ (g.end ≤ x)
      → out.1.mem x ≡ h.mem x

-- A run agrees with the result on blocks: a null pointer and an unchanged heap where nothing is
-- granted.
abbrev pub Agrees :
    {S : Type 0} → Env → ℕ → Heap S → List Block → Option Grant → Option (ℕ × Heap S) → Type 0
Agrees env link h bs none run = run ≡ some (null, h)
Agrees {S} env link h bs (some g) run =
    (out : ℕ × Heap S) × (run ≡ some out) × IsGranted env link h bs g out
