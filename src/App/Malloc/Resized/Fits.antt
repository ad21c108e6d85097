-- ===== src/App/Malloc/Resized/Fits.antt =====
-- `realloc` of a block that is large enough.
use keystone_sdk.Base.{
  ℕ, ◌+◌, ◌-◌, ◌^◌, ◌≤◌, ◌<◌, ◌≡◌, ◌↔◌, ◌⊎◌, inl, inr, refl, arith, ◌∙◌, Option, some, List, [],
  ◌∷◌, length, false, ltb, leb, ◌==◌, Bool-cases, add64, sub64,
}
use keystone_sdk.Memory.{load64, store64}
use keystone_sdk.Memory.Laws.{load64-ext, load64-store64_self, load64-store64_ne, store64-outside}
use keystone_sdk.App.Malloc.{Env, Heap, null, real_size, next_at, size_of}
use keystone_sdk.App.Malloc.Sizes.{real_size_bounds}
use keystone_sdk.App.Malloc.Blocks.{Block, block, InBlock, InBlocks, release, AllApart}
use keystone_sdk.App.Malloc.Grant.{IsEnv, ChainFrom-frame}
use keystone_sdk.App.Malloc.Alloc.{IsHeap}
use keystone_sdk.App.Malloc.Freed.{IsUsed, IsFreed, free_lem, AllApart-bytes}
use keystone_sdk.App.Malloc.Resized.{returning, give_upper, realloc}

-- A block apart from the list has no byte in it, and its upper part is apart from it too.
AllApart-outside :
    (x : ℕ) (b : Block) (bs : List Block)
    → AllApart b bs
    → InBlocks x bs
    → (x < b.addr) ⊎ (b.addr + b.size ≤ x)
AllApart-outside x b [] a i = absurd i
AllApart-outside x b (t ∷ ts) (p, q) (inl i) = omega arith
AllApart-outside x b (t ∷ ts) (p, q) (inr i) = AllApart-outside x b ts q i

AllApart-upper :
    (k : ℕ) (b : Block) (bs : List Block)
    → k ≤ b.size
    → AllApart b bs
    → AllApart (block (b.addr + k) (b.size - k)) bs
AllApart-upper k b [] le a = tt
AllApart-upper k b (t ∷ ts) le (p, q) = (omega arith, AllApart-upper k b ts le q)

module _ {S : Type 0} (s_brk : ℕ → S → ℕ × S) (env : Env) (is_env : IsEnv env) where
  -- The block keeps its place and its payload, with a size that suffices for `sz` bytes; the bytes
  -- of the block and of the free blocks are those of before.
  abbrev pub Resized :
      (sz : ℕ) (h : Heap S) (bs : List Block) (b : Block) → Option (ℕ × Heap S) → Type 0
  Resized sz h bs b run =
      (h' : Heap S) × (after : List Block) × (size : ℕ) × (run ≡ some (b.addr + 8, h'))
      × IsHeap env h' after
      × IsUsed env h' after (block b.addr size)
      × (sz + 8 ≤ size)
      × ((x : ℕ)
          → (InBlock x (block b.addr size) ⊎ InBlocks x after) ↔ (InBlock x b ⊎ InBlocks x bs))
      × ((x : ℕ) → b.addr + 8 ≤ x → x < b.addr + size → h'.mem x ≡ h.mem x)

  module _ (fuel : ℕ) (b : Block) (h : Heap S) (bs : List Block) (f : length bs < fuel)
      (is : IsHeap env h bs) (used : IsUsed env h bs b) (real : ℕ) (min : 16 ≤ real)
      (rest : real + 16 ≤ b.size) where
    abbrev split : Heap S
    split = record h { mem = store64 (store64 h.mem b.addr real) (b.addr + real) (b.size - real) }

    abbrev upper : Block
    upper = block (b.addr + real) (b.size - real)

    split-outside : (x : ℕ) → (x < b.addr) ⊎ (b.addr + b.size ≤ x) → split.mem x ≡ h.mem x
    split-outside x o =
        store64-outside (store64 h.mem b.addr real) (b.addr + real) (b.size - real) x (omega arith)
        ∙ store64-outside h.mem b.addr real x (omega arith)

    split-IsHeap : IsHeap env split bs × IsUsed env split bs upper
    split-IsHeap =
        let apart = is_env.freelist_apart in
        let gap = is.gap in
        let word = is_env.limit_word in
        let inside = used.inside in
        (
          record {
            begun = is.begun;
            gap = is.gap;
            layout = is.layout;
            chain =
                rw (load64-ext split.mem h.mem env.freelist λ x q r. split-outside x (omega arith))
                  (ChainFrom-frame h.mem split.mem (load64 h.mem env.freelist) env.start h.end bs
                    is.layout (λ x i. split-outside x (AllApart-outside x b bs used.apart i))
                    is.chain);
          },
          record {
            header =
                load64-store64_self (store64 h.mem b.addr real) (b.addr + real) (b.size - real)
                  (omega arith);
            big = omega arith;
            inside = omega arith;
            apart = AllApart-upper real b bs (omega arith) used.apart;
          },
        )

    -- After the upper part was freed.
    split-Resized :
        (sz : ℕ) (h' : Heap S)
        → sz + 8 ≤ real
        → IsFreed env split bs upper h'
        → IsHeap env h' (release upper bs)
          × IsUsed env h' (release upper bs) (block b.addr real)
          × ((x : ℕ)
              → (InBlock x (block b.addr real) ⊎ InBlocks x (release upper bs))
                ↔ (InBlock x b ⊎ InBlocks x bs))
          × ((x : ℕ) → b.addr + 8 ≤ x → x < b.addr + real → h'.mem x ≡ h.mem x)
    split-Resized sz h' enough freed =
        let apart = is_env.freelist_apart in
        let gap = is.gap in
        let word = is_env.limit_word in
        let inside = used.inside in
        let end = freed.end in
        let low = λ (x : ℕ) (p : b.addr ≤ x) (q : x < b.addr + real).
          freed.frame x (omega arith) (λ i. omega arith)
            (λ i. let o = AllApart-outside x b bs used.apart i in omega arith) in
        (
          freed.heap,
          record {
            header =
                load64-ext h'.mem split.mem b.addr (λ x p q. low x p (omega arith))
                ∙ load64-store64_ne (store64 h.mem b.addr real) (b.addr + real) b.addr
                    (b.size - real) (omega arith)
                ∙ load64-store64_self h.mem b.addr real (omega arith);
            big = min;
            inside = omega arith;
            apart =
                AllApart-bytes env.start h'.end (block b.addr real) (release upper bs) min
                  freed.heap.layout
                  (λ x i j. elim ((freed.covers x).0 j) [
                    | inl k ↦ omega arith
                    | inr k ↦ let o = AllApart-outside x b bs used.apart k in omega arith
                  ]);
          },
          λ x. (λ i. ground (arith, freed.covers x), λ i. ground (arith, freed.covers x)),
          λ x p q.
              low x (omega arith) q
              ∙ store64-outside (store64 h.mem b.addr real) (b.addr + real) (b.size - real) x
                  (omega arith)
              ∙ store64-outside h.mem b.addr real x (omega arith),
        )

    give_upper-Resized :
        (sz : ℕ)
        → sz + 8 ≤ real
        → Resized sz h bs b (give_upper s_brk env fuel b.addr (b.addr + 8) real b.size h)
    unfolding give_upper returning
    give_upper-Resized sz enough =
        let gap = is.gap in
        let word = is_env.limit_word in
        let inside = used.inside in
        let at : add64 b.addr real ≡ b.addr + real = omega arith in
        let left : sub64 b.size real ≡ b.size - real = omega arith in
        let next : next_at (b.addr + real) ≡ b.addr + real + 8 = omega arith in
        let (heap, used_upper) = split-IsHeap in
        let (h', e, freed) = free_lem s_brk env is_env fuel upper split bs f heap used_upper in
        let (heap', used', bytes, payload) = split-Resized sz h' enough freed in
        rw (at, left, next, e)
          (h', release upper bs, real, refl, heap', used', enough, bytes, payload)

  -- For an environment whose list variable lies outside the heap, a heap that stands for free blocks,
  -- the pointer to a block in use apart from them, and a request of at most 2^64 - 32 bytes whose real
  -- size is at most the block's: `realloc` ends within the rounds of `free` and returns the same
  -- pointer. The block keeps its payload and has room for the request, what is cut off is free, and the
  -- bytes of the block and of the free blocks together are those of before.
  pub realloc_fits :
      (fuel sz : ℕ) (b : Block) (h : Heap S) (bs : List Block)
      → length bs < fuel
      → IsHeap env h bs
      → IsUsed env h bs b
      → sz ≤ 2 ^ 64 - 32
      → real_size sz ≤ b.size
      → Resized sz h bs b (realloc s_brk env fuel (b.addr + 8) sz h)
  unfolding realloc
  realloc_fits fuel sz b h bs f is used small fits =
      let gap = is.gap in
      let word = is_env.limit_word in
      let inside = used.inside in
      let bounds = real_size_bounds sz (omega arith) in
      let back : sub64 (b.addr + 8) 8 ≡ b.addr = omega arith in
      let nonnull : (b.addr + 8 == null) ≡ false = ground arith in
      let large : ltb b.size (real_size sz) ≡ false = ground arith in
      let left : sub64 b.size (real_size sz) ≡ b.size - real_size sz = omega arith in
      let header : size_of h.mem b.addr ≡ b.size = used.header in
      rw (back, nonnull, header, large, left)
        (elim (Bool-cases (leb 16 (b.size - real_size sz))) [
          | inl splits ↦ rw splits (
              give_upper-Resized fuel b h bs f is used (real_size sz) (omega arith) (ground arith)
                sz (omega arith))
          | inr whole ↦
              rw whole
                (h, bs, b.size, refl, is, used, omega arith, λ x. (λ i. i, λ i. i), λ x p q. refl)
        ])
