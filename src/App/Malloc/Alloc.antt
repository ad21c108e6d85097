-- ===== src/App/Malloc/Alloc.antt =====
-- What a caller of `malloc` may rely on.
use keystone_sdk.Base.{
  ℕ, ◌+◌, ◌-◌, ◌^◌, ◌≤◌, ◌<◌, ◌≡◌, ◌↔◌, ◌⊎◌, inl, inr, refl, arith, some, none, Option, List,
  length,
}
use keystone_sdk.Memory.{load64}
use keystone_sdk.App.Malloc.{Env, Heap, null, init_end, malloc, real_size}
use keystone_sdk.App.Malloc.Sizes.{real_size_bounds}
use keystone_sdk.App.Malloc.Blocks.{Block, Chain, Layout, InBlock, InBlocks, Grant, alloc}
use keystone_sdk.App.Malloc.Blocks.Alloc.{IsGrant, alloc-IsGrant, AllBelow, alloc-none, IfSome}
use keystone_sdk.App.Malloc.Grant.{IsEnv, Agrees}
use keystone_sdk.App.Malloc.Grant.Loop.{malloc_loop-Agrees}

-- The heap stands for the free blocks `bs`: the list leads through them, they lie in order between
-- the heap's start and end, no two touch, and the gap below the stack is kept.
pub record IsHeap {S : Type 0} (env : Env) (h : Heap S) (bs : List Block) : Type 0 where
  pub begun : env.start ≤ h.end
  pub gap : h.end + 32 ≤ env.limit
  pub layout : Layout env.start h.end bs
  pub chain : Chain h.mem env.freelist bs

-- A pointer handed out for `sz` bytes: the block before it holds its size, which suffices; the heap
-- stands for the blocks that are left, no more than before, which share no byte with it; what was free or is new is in
-- the block or still free; and nothing else in memory differs.
pub record IsAllocated {S : Type 0} (env : Env) (sz : ℕ) (h : Heap S) (bs : List Block) (p : ℕ)
    (h' : Heap S) : Type 0 where
  pub granted : Block
  pub rest : List Block
  pub pointer : p ≡ granted.addr + 8
  pub enough : sz + 8 ≤ granted.size
  pub shorter : length rest ≤ length bs
  pub big : 16 ≤ granted.size
  pub inside : (env.start ≤ granted.addr) × (granted.addr + granted.size ≤ h'.end)
  pub header : load64 h'.mem granted.addr ≡ granted.size
  pub heap : IsHeap env h' rest
  pub covers :
      (x : ℕ)
      → (InBlocks x bs ⊎ ((h.end ≤ x) × (x < h'.end))) ↔ (InBlock x granted ⊎ InBlocks x rest)
  pub apart : (x : ℕ) → InBlock x granted → ¬ (InBlocks x rest)
  pub frame :
      (x : ℕ)
      → (x < env.freelist) ⊎ (env.freelist + 8 ≤ x)
      → ¬ (InBlocks x bs)
      → (x < h.end) ⊎ (h'.end ≤ x)
      → h'.mem x ≡ h.mem x

module _ {S : Type 0} (s_brk : ℕ → S → ℕ × S) (env : Env) (is_env : IsEnv env) where
  malloc-Agrees :
      (fuel sz : ℕ) (h : Heap S) (bs : List Block)
      → length bs < fuel
      → sz ≤ 2 ^ 64 - 32
      → IsHeap env (init_end s_brk env h) bs
      → let h0 = init_end s_brk env h in
        Agrees env env.freelist h0 bs
          (alloc (real_size sz) env.limit h0.end bs)
          (malloc s_brk env fuel sz h)
  unfolding malloc
  malloc-Agrees fuel sz h bs f small is =
      let (on_8, min, enough, most) = real_size_bounds sz (omega arith) in
      malloc_loop-Agrees s_brk env is_env (init_end s_brk env h) is.gap fuel env.freelist env.start
        (real_size sz) bs f is_env.start_pos is_env.freelist_apart (λ _. is.begun) min (omega arith)
        is.layout is.chain

  module _ (sz : ℕ) (h : Heap S) (bs : List Block) where
    -- A null pointer, no free block that is large enough, and no room at the end of the heap.
    abbrev pub Exhausted : Option (ℕ × Heap S) → Type 0
    Exhausted run =
        (run ≡ some (null, h))
        × AllBelow (real_size sz) bs
        × (env.limit < h.end + real_size sz + 32)

    abbrev pub Succeeds : Option (ℕ × Heap S) → Type 0
    Succeeds run = (out : ℕ × Heap S) × (run ≡ some out) × IsAllocated env sz h bs out.0 out.1

    grant-cases :
        (o : Option Grant) (run : Option (ℕ × Heap S))
        → sz + 8 ≤ real_size sz
        → 16 ≤ real_size sz
        → IfSome (IsGrant (real_size sz) env.limit env.start h.end bs) o
        → (o ≡ none → AllBelow (real_size sz) bs × (env.limit < h.end + real_size sz + 32))
        → Agrees env env.freelist h bs o run
        → Exhausted run ⊎ Succeeds run
    grant-cases none run fit min g full a = inl (a, (full refl).0, (full refl).1)
    grant-cases (some g) run fit min is full (out, e, a) =
        let same = a.end in
        inr (
          out,
          e,
          record {
            granted = g.granted;
            rest = g.rest;
            pointer = a.pointer;
            enough = omega (arith, is.enough);
            shorter = is.shorter;
            big = omega (arith, is.enough);
            inside = omega (arith, is.inside);
            header = a.header;
            heap = record {
              begun = omega (arith, is.inside);
              gap = omega (arith, is.gap);
              layout = rw same is.layout;
              chain = a.chain;
            };
            covers = λ x. rw same (is.covers x);
            apart = is.apart;
            frame = λ x p q r. a.frame x p q (rw (← same) r);
          },
        )

  -- For an environment whose list variable lies outside the heap, a heap that stands for free
  -- blocks once its end is initialised, and a request of at most 2^64 - 32 bytes: the loop of
  -- `malloc` ends within one round more than there are free blocks. Either it returns null and
  -- changes nothing but that initialisation, where no free block is large enough and the end of the
  -- heap has no room; or it returns a pointer to the payload of a block with room for the request,
  -- the bytes that were free or are new are those of the block and of the blocks that stay free,
  -- which share none, and nothing else in memory differs but the list's variable.
  pub malloc_lem :
      (fuel sz : ℕ) (h : Heap S) (bs : List Block)
      → length bs < fuel
      → sz ≤ 2 ^ 64 - 32
      → IsHeap env (init_end s_brk env h) bs
      → Exhausted sz (init_end s_brk env h) bs (malloc s_brk env fuel sz h)
        ⊎ Succeeds sz (init_end s_brk env h) bs (malloc s_brk env fuel sz h)
  malloc_lem fuel sz h bs f small is =
      let h0 = init_end s_brk env h in
      let real = real_size sz in
      grant-cases sz h0 bs (alloc real env.limit h0.end bs) (malloc s_brk env fuel sz h)
        (let r = real_size_bounds sz (omega arith) in omega arith)
        (real_size_bounds sz (omega arith)).1
        (alloc-IsGrant real env.limit env.start h0.end bs is.layout (λ _. is.begun) is.gap)
        (alloc-none real env.limit env.start h0.end bs is.layout)
        (malloc-Agrees fuel sz h bs f small is)
