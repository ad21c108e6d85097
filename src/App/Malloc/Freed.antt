-- ===== src/App/Malloc/Freed.antt =====
-- What a caller of `free` may rely on.
use keystone_sdk.Base.{
  ℕ, ◌+◌, ◌≤◌, ◌<◌, ◌≡◌, ◌≢◌, ◌↔◌, ◌⊎◌, inl, inr, refl, arith, some, List, [], ◌∷◌, length, ltb,
  Bool-cases, ◌==◌, sub64, word_mod, ◌-◌, ◌^◌, false, ◌∙◌, ap, subst,
}
use keystone_sdk.Memory.{Mem, load64}
use keystone_sdk.Memory.Laws.{load64-ext}
use keystone_sdk.App.Malloc.{Env, Heap, null, init_end, malloc, free, free_loop}
use keystone_sdk.App.Malloc.Blocks.{Block, Layout, InBlock, InBlocks, release, AllApart}
use keystone_sdk.App.Malloc.Blocks.Release.{InBlocks-release, release-Layout}
use keystone_sdk.App.Malloc.Grant.{IsEnv, ChainFrom-frame}
use keystone_sdk.App.Malloc.Alloc.{IsHeap, IsAllocated, malloc_lem}
use keystone_sdk.App.Malloc.Giving.Loop.{free_loop-IsReleased}

-- The block is in use: it has its size in its header, lies in the heap and is apart from what is
-- free.
pub record IsUsed {S : Type 0} (env : Env) (h : Heap S) (bs : List Block) (b : Block) : Type 0 where
  pub header : load64 h.mem b.addr ≡ b.size
  pub big : 16 ≤ b.size
  pub inside : (env.start ≤ b.addr) × (b.addr + b.size ≤ h.end)
  pub apart : AllApart b bs

-- The heap after `b` was given back.
pub record IsFreed {S : Type 0} (env : Env) (h : Heap S) (bs : List Block) (b : Block) (h' : Heap S)
    : Type 0 where
  pub heap : IsHeap env h' (release b bs)
  pub end : h'.end ≡ h.end
  pub os : h'.os ≡ h.os
  pub covers : (x : ℕ) → InBlocks x (release b bs) ↔ (InBlock x b ⊎ InBlocks x bs)
  pub frame :
      (x : ℕ)
      → (x < env.freelist) ⊎ (env.freelist + 8 ≤ x)
      → ¬ (InBlock x b)
      → ¬ (InBlocks x bs)
      → h'.mem x ≡ h.mem x

module _ {S : Type 0} (s_brk : ℕ → S → ℕ × S) (env : Env) (is_env : IsEnv env) where
  free-pointer :
      (fuel : ℕ) (b : Block) (h : Heap S)
      → b.addr + 8 < word_mod
      → free s_brk env fuel (b.addr + 8) h ≡ free_loop s_brk env fuel env.freelist b.addr h
  unfolding free
  free-pointer fuel b h fits =
      let back : sub64 (b.addr + 8) 8 ≡ b.addr = omega arith in
      let test : (b.addr + 8 == null) ≡ false = ground arith in rw (free, back, test) refl

  -- For an environment whose list variable lies outside the heap, a heap that stands for free
  -- blocks, and the pointer to a block in use apart from them: the loop of `free` ends within one
  -- round more than there are free blocks, and the heap then stands for the list of free blocks
  -- with this one released into it. Those are its bytes and the bytes that were free before; they
  -- lie in order and no two touch; the end of the heap stays, and nothing else in memory differs
  -- but the list's variable.
  pub free_lem :
      (fuel : ℕ) (b : Block) (h : Heap S) (bs : List Block)
      → length bs < fuel
      → IsHeap env h bs
      → IsUsed env h bs b
      → (h' : Heap S) × (free s_brk env fuel (b.addr + 8) h ≡ some h') × IsFreed env h bs b h'
  free_lem fuel b h bs f is used =
      let pos = is_env.start_pos in
      let word = is_env.limit_word in
      let apart = is_env.freelist_apart in
      let gap = is.gap in
      let (low, high) = used.inside in
      let big = used.big in
      let (h', e, r) =
        free_loop-IsReleased s_brk env b h (omega arith) used.big high used.header fuel env.freelist
          env.start bs f pos (omega arith) low used.apart is.layout is.chain in
      let end = r.end in
      rw (free-pointer fuel b h (omega arith)) (
        h',
        e,
        record {
          heap = record {
            begun = rw end is.begun;
            gap = rw end is.gap;
            layout = rw end (release-Layout env.start h.end b bs low big high used.apart is.layout);
            chain = r.chain;
          };
          end = r.end;
          os = r.os;
          covers = λ x. InBlocks-release x b bs;
          frame = r.frame;
        },
      )

-- Blocks that share no byte with a block of some size are apart from it.
pub AllApart-bytes :
    (lo end : ℕ) (b : Block) (ts : List Block)
    → 16 ≤ b.size
    → Layout lo end ts
    → ((x : ℕ) → InBlock x b → ¬ (InBlocks x ts))
    → AllApart b ts
AllApart-bytes lo end b [] big l sep = tt
AllApart-bytes lo end b (t ∷ ts) big l sep = (
  elim (Bool-cases (ltb b.addr t.addr)) [
    | inl below ↦ ground (arith, sep t.addr)
    | inr above ↦ ground (arith, sep b.addr)
  ],
  AllApart-bytes (t.addr + t.size + 1) end b ts big l.2 (λ x i j. sep x i (inr j)),
)

module _ {S : Type 0} (s_brk : ℕ → S → ℕ × S) (env : Env) (is_env : IsEnv env) where
  -- Writing to the payload keeps the heap and the block in use.
  pub written-IsHeap :
      (sz : ℕ) (h : Heap S) (bs : List Block) (p : ℕ) (h' : Heap S) (m : Mem)
      → (is : IsAllocated env sz h bs p h') → ((x : ℕ) → (x < p) ⊎ (p + sz ≤ x) → m x ≡ h'.mem x)
      → IsHeap env (record h' { mem = m }) is.rest
        × IsUsed env (record h' { mem = m }) is.rest is.granted
  written-IsHeap sz h bs p h' m is same =
      let b = is.granted in
      let enough = is.enough in
      let pointer = is.pointer in
      let (low, high) = is.inside in
      let apart = is_env.freelist_apart in
      let gap = is.heap.gap in
      (
        record {
          begun = is.heap.begun;
          gap = is.heap.gap;
          layout = is.heap.layout;
          chain = rw (load64-ext m h'.mem env.freelist λ x q r. same x (omega arith)) (
              ChainFrom-frame h'.mem m (load64 h'.mem env.freelist) env.start h'.end is.rest
                is.heap.layout (λ x i. same x (ground (arith, is.apart x))) is.heap.chain);
        },
        record {
          header = load64-ext m h'.mem b.addr (λ x q r. same x (omega arith)) ∙ is.header;
          big = is.big;
          inside = is.inside;
          apart = AllApart-bytes env.start h'.end b is.rest is.big is.heap.layout is.apart;
        },
      )

  -- The heap, the blocks free in it, and its bytes, after a block is allocated and given back.
  abbrev pub GivenBack :
      (fuel : ℕ) (h : Heap S) (bs : List Block) (p : ℕ) (h' : Heap S) (m : Mem) → Type 0
  GivenBack fuel h bs p h' m =
      (h'' : Heap S) × (after : List Block) × (free s_brk env fuel p (record h' { mem = m })
        ≡ some h'')
      × IsHeap env h'' after
      × (h''.end ≡ h'.end)
      × ((x : ℕ) → InBlocks x after ↔ (InBlocks x bs ⊎ ((h.end ≤ x) × (x < h'.end))))

  free-IsAllocated :
      (fuel sz : ℕ) (h : Heap S) (bs : List Block) (p : ℕ) (h' : Heap S) (m : Mem)
      → length bs < fuel
      → IsAllocated env sz h bs p h'
      → ((x : ℕ) → (x < p) ⊎ (p + sz ≤ x) → m x ≡ h'.mem x)
      → GivenBack fuel h bs p h' m
  free-IsAllocated fuel sz h bs p h' m f is same =
      let (heap, used) = written-IsHeap sz h bs p h' m is same in
      let (h'', e, freed) =
        free_lem s_brk env is_env fuel is.granted (record h' { mem = m }) is.rest
          (omega (arith, is.shorter)) heap used in
      (
        h'',
        release is.granted is.rest,
        rw is.pointer e,
        freed.heap,
        freed.end,
        λ x. (
          λ i. (is.covers x).1 ((freed.covers x).0 i),
          λ i. (freed.covers x).1 ((is.covers x).0 i),
        ),
      )

  -- For an environment whose list variable lies outside the heap, a heap that stands for free
  -- blocks once its end is initialised, and a request of at most 2^64 - 32 bytes, where `malloc`
  -- returns a pointer that is not null: whatever the caller then writes to the bytes requested,
  -- `free` at that pointer ends within one round more than there were free blocks, the end of the
  -- heap stays, and the heap then stands for blocks whose bytes are those that were free before and
  -- those by which it grew.
  pub free-malloc :
      (fuel sz : ℕ) (h : Heap S) (bs : List Block) (p : ℕ) (h' : Heap S) (m : Mem)
      → length bs < fuel
      → sz ≤ 2 ^ 64 - 32
      → IsHeap env (init_end s_brk env h) bs
      → malloc s_brk env fuel sz h ≡ some (p, h')
      → p ≢ null
      → ((x : ℕ) → (x < p) ⊎ (p + sz ≤ x) → m x ≡ h'.mem x)
      → GivenBack fuel (init_end s_brk env h) bs p h' m
  free-malloc fuel sz h bs p h' m f small is run nonnull same =
      let h0 = init_end s_brk env h in
      elim (malloc_lem s_brk env is_env fuel sz h bs f small is) [
        | inl (e, below, full) ↦
            let same_out : ◌≡◌ {A = ℕ × Heap S} (p, h') (null, h0) = cc in
            absurd (nonnull (ap (λ (o : ℕ × Heap S). o.0) same_out))
        | inr (out, e, got) ↦
            let same_out : ◌≡◌ {A = ℕ × Heap S} out (p, h') = cc in
            free-IsAllocated fuel sz h0 bs p h' m f
              (subst (λ (o : ℕ × Heap S). IsAllocated env sz h0 bs o.0 o.1) same_out got) same
      ]
