-- ===== src/App/Malloc/Grant/Steps.antt =====
-- Each branch of `malloc` on blocks.
use keystone_sdk.Base.{
  ℕ, suc, ◌+◌, ◌-◌, ◌≤◌, ◌<◌, ◌≡◌, ◌≢◌, ◌⊎◌, inl, inr, refl, arith, ◌∙◌, true, false, some, List,
  [], ◌∷◌, IsWord, Bool-cases, leb, ltb, sub64, add64, if◌then◌else◌, none,
}
use keystone_sdk.Memory.{load64, store64}
use keystone_sdk.Memory.Laws.{load64-store64_self, load64-store64_ne, store64-outside}
use keystone_sdk.App.Malloc.{
  Env, Heap, null, next_at, next_of, size_of, check_range_and_call_sbrk, hand_out, done, take_block,
  enlarge, fresh, malloc_loop,
}
use keystone_sdk.App.Malloc.Sizes.{can_alloc_iff}
use keystone_sdk.App.Malloc.Blocks.{Block, block, Chain, Layout, InBlocks, Grant, alloc}
use keystone_sdk.App.Malloc.Blocks.Alloc.{Layout-le, InBlocks-Layout, not-InBlocks-cons}
use keystone_sdk.App.Malloc.Grant.{IsEnv, ChainFrom-frame, ChainFrom-IsWord, IsGranted, Agrees}

module _ {S : Type 0} (s_brk : ℕ → S → ℕ × S) (env : Env) where
  -- Backing a range by the runtime changes neither the memory nor the end of the heap.
  pub check_range-same :
      (addr sz : ℕ) (h : Heap S)
      → ((check_range_and_call_sbrk s_brk env addr sz h).mem ≡ h.mem)
        × ((check_range_and_call_sbrk s_brk env addr sz h).end ≡ h.end)
  unfolding check_range_and_call_sbrk
  check_range-same addr sz h = ground arith

  module _ (fuel link real : ℕ) (h : Heap S) where
    pub malloc_loop-nil :
        load64 h.mem link ≡ 0
        → malloc_loop s_brk env (suc fuel) link real h ≡ some (fresh s_brk env real h)
    unfolding malloc_loop
    malloc_loop-nil e = ground arith

    module _ (a n : ℕ) (e : load64 h.mem link ≡ a) (pos : a ≢ 0) (sz : load64 h.mem a ≡ n) where
      pub malloc_loop-large :
          real ≤ n
          → malloc_loop s_brk env (suc fuel) link real h ≡ some (take_block s_brk env link a real h)
      unfolding malloc_loop
      malloc_loop-large large = ground arith

      pub malloc_loop-last :
          n < real
          → next_of h.mem a ≡ 0
          → h.end ≡ add64 a n
          → malloc_loop s_brk env (suc fuel) link real h ≡ some (enlarge s_brk env link a real h)
      unfolding malloc_loop
      malloc_loop-last small nil last = ground arith

      pub malloc_loop-later :
          n < real
          → (next_of h.mem a ≢ 0) ⊎ (h.end ≢ add64 a n)
          → malloc_loop s_brk env (suc fuel) link real h
            ≡ malloc_loop s_brk env fuel (next_at a) real h
      unfolding malloc_loop
      malloc_loop-later small inner = ground arith

module _ {S : Type 0} (s_brk : ℕ → S → ℕ × S) (env : Env) (is_env : IsEnv env) (link lo : ℕ)
    (h : Heap S) (gap : h.end + 32 ≤ env.limit) (lo_pos : 0 < lo)
    (apart : (link + 8 ≤ lo) ⊎ (env.limit ≤ link)) where
  -- Handing out a block from a heap that is already as it should be.
  hand_out-IsGranted :
      (real : ℕ) (bs : List Block) (g : Grant) (h1 : Heap S)
      → g.granted.addr + 8 ≤ g.end
      → h1.end ≡ g.end
      → g.end + 32 ≤ env.limit
      → load64 h1.mem g.granted.addr ≡ g.granted.size
      → Chain h1.mem link g.rest
      → ((x : ℕ)
          → (x < link) ⊎ (link + 8 ≤ x)
          → ¬ (InBlocks x bs)
          → (x < h.end) ⊎ (g.end ≤ x)
          → h1.mem x ≡ h.mem x)
      → IsGranted env link h bs g (hand_out s_brk env g.granted.addr real h1)
  unfolding hand_out
  hand_out-IsGranted real bs g h1 inside e gap' header chain frame =
      let word = is_env.limit_word in
      let (same_mem, same_end) = check_range-same s_brk env (next_at g.granted.addr) real h1 in
      record {
        pointer = omega arith;
        end = same_end ∙ e;
        gap = gap';
        header = rw same_mem header;
        chain = rw same_mem chain;
        frame = λ x a b c. rw same_mem (frame x a b c);
      }

  -- New space at the end.
  pub fresh-Agrees :
      (real : ℕ)
      → 16 ≤ real
      → lo ≤ h.end
      → load64 h.mem link ≡ 0
      → IsWord real
      → Agrees env link h [] (alloc real env.limit h.end []) (some (fresh s_brk env real h))
  unfolding alloc fresh done
  fresh-Agrees real min room nil word =
      rw (fresh, can_alloc_iff env h.end real gap is_env.limit_word)
        (elim (Bool-cases (leb (h.end + real + 32) env.limit)) [
          | inl fits ↦
              let (w, fit) : IsWord env.limit × (h.end + real + 32 ≤ env.limit) =
                (is_env.limit_word, ground arith) in
              let new_end : add64 h.end real ≡ h.end + real = omega arith in
              rw fits (
                _,
                refl,
                hand_out-IsGranted real [] _ _ (omega arith) (omega arith) (omega arith)
                    (load64-store64_self h.mem h.end real word)
                    (load64-store64_ne h.mem h.end link real (omega arith) ∙ nil)
                    (λ x a b c. store64-outside h.mem h.end real x (omega arith)),
              )
          | inr full ↦ rw full refl
        ])

  -- The last block is enlarged.
  pub enlarge-Agrees :
      (real : ℕ) (b : Block)
      → IsWord real
      → lo ≤ b.addr
      → 16 ≤ b.size
      → b.size < real
      → load64 h.mem b.addr ≡ b.size
      → h.end ≡ b.addr + b.size
      → Agrees env link h
          (b ∷ [])
          (if leb (b.addr + real + 32) env.limit
            then some (record { granted = block b.addr real; rest = []; end = b.addr + real })
            else none)
          (some (enlarge s_brk env link b.addr real h))
  unfolding enlarge done
  enlarge-Agrees real b word low big small sz last =
      let more : sub64 real (size_of h.mem b.addr) ≡ real - b.size = rw sz (omega arith) in
      let room : h.end + (real - b.size) + 32 ≡ b.addr + real + 32 = omega arith in
      rw (enlarge, more, can_alloc_iff env h.end (real - b.size) gap is_env.limit_word, room)
        (elim (Bool-cases (leb (b.addr + real + 32) env.limit)) [
          | inl fits ↦
              let (w, fit) : IsWord env.limit × (b.addr + real + 32 ≤ env.limit) =
                (is_env.limit_word, ground arith) in
              let m = store64 h.mem link null in
              rw fits (
                _,
                refl,
                hand_out-IsGranted real (b ∷ []) _ _ (omega arith) (omega arith) (omega arith)
                    (load64-store64_self m b.addr real word)
                    (load64-store64_ne m b.addr link real (omega arith)
                      ∙ load64-store64_self h.mem link null (omega arith))
                    (λ x a b' c.
                      store64-outside m b.addr real x
                        (let o = not-InBlocks-cons x b [] b' in omega arith)
                      ∙ store64-outside h.mem link null x a),
              )
          | inr full ↦ rw full refl
        ])

  module _ (real : ℕ) (b : Block) (bs : List Block) (min : 16 ≤ real)
      (layout : Layout lo h.end (b ∷ bs)) (chain : Chain h.mem link (b ∷ bs)) where
    -- The whole block is taken.
    pub whole-IsGranted :
        b.size < real + 16
        → real ≤ b.size
        → IsGranted env link h
            (b ∷ bs)
            (record { granted = b; rest = bs; end = h.end })
            (take_block s_brk env link b.addr real h)
    unfolding take_block
    whole-IsGranted exact large =
        let word = is_env.limit_word in
        let bound = Layout-le (b.addr + b.size + 1) h.end bs layout.2 in
        let room : add64 real 16 ≡ real + 16 = omega arith in
        let next : next_at b.addr ≡ b.addr + 8 = omega arith in
        let test : ltb b.size (real + 16) ≡ true = ground arith in
        let m = store64 h.mem link (load64 h.mem (b.addr + 8)) in
        let next_word =
          ChainFrom-IsWord h.mem (load64 h.mem (b.addr + 8)) (b.addr + b.size + 1) h.end bs layout.2
            (omega arith) chain.2 in
        rw (chain.1, room, take_block, test, next)
          (hand_out-IsGranted real (b ∷ bs) (record { granted = b; rest = bs; end = h.end })
            (record h { mem = m }) (omega arith) refl gap
            (load64-store64_ne h.mem link b.addr _ (omega arith) ∙ chain.1)
            (rw (load64-store64_self h.mem link (load64 h.mem (b.addr + 8)) next_word) (
              ChainFrom-frame h.mem m (load64 h.mem (b.addr + 8)) (b.addr + b.size + 1) h.end bs
                layout.2
                (λ x i.
                  let r = InBlocks-Layout x (b.addr + b.size + 1) h.end bs layout.2 i in
                  store64-outside h.mem link _ x (omega arith))
                chain.2))
            (λ x a b' c. store64-outside h.mem link _ x a))

    -- The block is split, and its upper part stays free.
    pub split-IsGranted :
        real + 16 ≤ b.size
        → IsGranted env link h
            (b ∷ bs)
            (record {
              granted = block b.addr real;
              rest = block (b.addr + real) (b.size - real) ∷ bs;
              end = h.end;
            })
            (take_block s_brk env link b.addr real h)
    unfolding take_block done
    split-IsGranted large =
        let word = is_env.limit_word in
        let bound = Layout-le (b.addr + b.size + 1) h.end bs layout.2 in
        let room : add64 real 16 ≡ real + 16 = omega arith in
        let next : next_at b.addr ≡ b.addr + 8 = omega arith in
        let upper : add64 b.addr real ≡ b.addr + real = omega arith in
        let upper_next : next_at (b.addr + real) ≡ b.addr + real + 8 = omega arith in
        let upper_size : sub64 b.size real ≡ b.size - real = omega arith in
        let test : ltb b.size (real + 16) ≡ false = ground arith in
        let tail = load64 h.mem (b.addr + 8) in
        let m1 = store64 h.mem link (b.addr + real) in
        let m2 = store64 m1 (b.addr + real) (b.size - real) in
        let m3 = store64 m2 (b.addr + real + 8) tail in
        let m4 = store64 m3 b.addr real in
        let tail_word =
          ChainFrom-IsWord h.mem tail (b.addr + b.size + 1) h.end bs layout.2 (omega arith)
            chain.2 in
        let head_at : load64 m4 link ≡ b.addr + real =
          load64-store64_ne m3 b.addr link real (omega arith)
          ∙ load64-store64_ne m2 (b.addr + real + 8) link tail (omega arith)
          ∙ load64-store64_ne m1 (b.addr + real) link (b.size - real) (omega arith)
          ∙ load64-store64_self h.mem link (b.addr + real) (omega arith) in
        let size_at : load64 m4 (b.addr + real) ≡ b.size - real =
          load64-store64_ne m3 b.addr (b.addr + real) real (omega arith)
          ∙ load64-store64_ne m2 (b.addr + real + 8) (b.addr + real) tail (omega arith)
          ∙ load64-store64_self m1 (b.addr + real) (b.size - real) (omega arith) in
        let tail_at : load64 m4 (b.addr + real + 8) ≡ tail =
          load64-store64_ne m3 b.addr (b.addr + real + 8) real (omega arith)
          ∙ load64-store64_self m2 (b.addr + real + 8) tail tail_word in
        let far =
          λ (x : ℕ) (o : (x < link) ⊎ (link + 8 ≤ x)) (p : (x < b.addr) ⊎ (b.addr + b.size ≤ x)).
            store64-outside m3 b.addr real x (omega arith)
            ∙ store64-outside m2 (b.addr + real + 8) tail x (omega arith)
            ∙ store64-outside m1 (b.addr + real) (b.size - real) x (omega arith)
            ∙ store64-outside h.mem link (b.addr + real) x o in
        rw (chain.1, room, take_block, test, next, upper, upper_next, upper_size)
          (hand_out-IsGranted real (b ∷ bs) _ (record h { mem = m4 }) (omega arith) refl gap
            (load64-store64_self m3 b.addr real (omega arith))
            (
              head_at,
              size_at,
              rw tail_at (
                  ChainFrom-frame h.mem m4 tail (b.addr + b.size + 1) h.end bs layout.2
                    (λ x i.
                      let r = InBlocks-Layout x (b.addr + b.size + 1) h.end bs layout.2 i in
                      far x (omega arith) (omega arith))
                    chain.2),
            )
            (λ x a b' c. far x a (not-InBlocks-cons x b bs b').0))
