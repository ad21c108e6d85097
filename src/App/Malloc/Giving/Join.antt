-- ===== src/App/Malloc/Giving/Join.antt =====
-- Joining the block that is given back to its neighbours.
use keystone_sdk.Base.{
  ℕ, ◌+◌, ◌≤◌, ◌<◌, ◌≡◌, ◌≢◌, ◌⊎◌, inl, inr, refl, arith, ◌∙◌, List, [], ◌∷◌, word_mod, add64, ◌==◌,
  Bool-cases, not, ◌&&◌, true, false,
}
use keystone_sdk.Memory.{load64, store64}
use keystone_sdk.Memory.Laws.{load64-store64_self, load64-store64_ne, store64-outside}
use keystone_sdk.App.Malloc.{Env, Heap, null, next_at, next_of, size_of, join_before, join_after}
use keystone_sdk.App.Malloc.Blocks.{Block, block, Chain, Layout, join_next}
use keystone_sdk.App.Malloc.Blocks.Alloc.{Layout-le, InBlocks-Layout, not-InBlocks-cons}
use keystone_sdk.App.Malloc.Grant.{ChainFrom-frame, ChainFrom-IsWord}
use keystone_sdk.App.Malloc.Giving.{IsReleased, not-InBlock}

module _ {S : Type 0} (s_brk : ℕ → S → ℕ × S) (env : Env) (link lo : ℕ) (b t : Block)
    (ts : List Block) (h : Heap S) (top : h.end + 32 < word_mod)
    (apart : (link + 8 ≤ lo) ⊎ (h.end ≤ link)) (big : 16 ≤ b.size)
    (header : load64 h.mem b.addr ≡ b.size) (layout : Layout lo h.end (t ∷ ts))
    (chain : Chain h.mem link (t ∷ ts)) where
  -- The block takes the place of the one behind it, and its bytes.
  pub join_after-IsReleased :
      lo ≤ b.addr
      → t.addr ≡ b.addr + b.size
      → IsReleased link h b
          (t ∷ ts)
          (block b.addr (b.size + t.size) ∷ ts)
          (join_after s_brk env link t.addr b.addr h)
  unfolding join_after
  join_after-IsReleased low touch =
      let bound = Layout-le (t.addr + t.size + 1) h.end ts layout.2 in
      let next : next_at b.addr ≡ b.addr + 8 = omega arith in
      let next_t : next_at t.addr ≡ t.addr + 8 = omega arith in
      let sum : add64 b.size t.size ≡ b.size + t.size = omega arith in
      let p = load64 h.mem (t.addr + 8) in
      let p_word =
        ChainFrom-IsWord h.mem p (t.addr + t.size + 1) h.end ts layout.2 (omega arith) chain.2 in
      let m1 = store64 h.mem b.addr (b.size + t.size) in
      let kept : load64 m1 (t.addr + 8) ≡ p =
        load64-store64_ne h.mem b.addr (t.addr + 8) (b.size + t.size) (omega arith) in
      let m2 = store64 m1 (b.addr + 8) p in
      let m3 = store64 m2 link b.addr in
      let next_read : load64 m3 (b.addr + 8) ≡ p =
        load64-store64_ne m2 link (b.addr + 8) b.addr (omega arith)
        ∙ load64-store64_self m1 (b.addr + 8) p p_word in
      let far =
        λ (x : ℕ) (o : (x < link) ⊎ (link + 8 ≤ x)) (q : (x < b.addr) ⊎ (b.addr + b.size ≤ x)).
          store64-outside m2 link b.addr x o
          ∙ store64-outside m1 (b.addr + 8) p x (omega arith)
          ∙ store64-outside h.mem b.addr (b.size + t.size) x (omega arith) in
      rw (header, chain.1, next, next_t, sum, kept, join_after)
        (record {
          end = refl;
          os = refl;
          chain = (
            load64-store64_self m2 link b.addr (omega arith),
            load64-store64_ne m2 link b.addr b.addr (omega arith)
                ∙ load64-store64_ne m1 (b.addr + 8) b.addr p (omega arith)
                ∙ load64-store64_self h.mem b.addr (b.size + t.size) (omega arith),
            rw next_read (
                ChainFrom-frame h.mem m3 p (t.addr + t.size + 1) h.end ts layout.2
                  (λ x i.
                    let r = InBlocks-Layout x (t.addr + t.size + 1) h.end ts layout.2 i in
                    far x (omega arith) (omega arith))
                  chain.2),
          );
          frame = λ x o nb ns. far x o (not-InBlock x b nb);
        })

  -- The block is joined to the one in front of it, where nothing follows at once.
  module _ (touch : t.addr + t.size ≡ b.addr) (high : b.addr + b.size ≤ h.end) where
    abbrev joined : ℕ
    joined = t.size + b.size

    sums : add64 (size_of h.mem t.addr) (size_of h.mem b.addr) ≡ joined
    sums = rw (header, chain.1) (omega arith)

    next_kept : next_of (store64 h.mem t.addr joined) t.addr ≡ load64 h.mem (t.addr + 8)
    next_kept =
        let next_t : next_at t.addr ≡ t.addr + 8 = omega arith in
        rw next_t (load64-store64_ne h.mem t.addr (t.addr + 8) joined (omega arith))

    header_kept : size_of (store64 h.mem t.addr joined) b.addr ≡ b.size
    header_kept = load64-store64_ne h.mem t.addr b.addr joined (omega arith) ∙ header

    -- Only the size of the block in front changes.
    enlarged-IsReleased :
        IsReleased link h b
          (t ∷ ts)
          (block t.addr joined ∷ ts)
          (record h { mem = store64 h.mem t.addr joined })
    enlarged-IsReleased =
        let m = store64 h.mem t.addr joined in
        let bound = Layout-le (t.addr + t.size + 1) h.end ts layout.2 in
        record {
          end = refl;
          os = refl;
          chain = (
            load64-store64_ne h.mem t.addr link joined (omega arith) ∙ chain.0,
            load64-store64_self h.mem t.addr joined (omega arith),
            rw (load64-store64_ne h.mem t.addr (t.addr + 8) joined (inr (omega arith))) (
                ChainFrom-frame h.mem m (load64 h.mem (t.addr + 8)) (t.addr + t.size + 1) h.end ts
                  layout.2
                  (λ x i.
                    let r = InBlocks-Layout x (t.addr + t.size + 1) h.end ts layout.2 i in
                    store64-outside h.mem t.addr joined x (omega arith))
                  chain.2),
          );
          frame = λ x o nb ns.
              let r = not-InBlocks-cons x t ts ns in
              store64-outside h.mem t.addr joined x (omega arith);
        }

    join_before-stop :
        (load64 h.mem (t.addr + 8) ≡ 0) ⊎ (b.addr + b.size ≢ load64 h.mem (t.addr + 8))
        → join_before s_brk env t.addr b.addr h ≡ record h { mem = store64 h.mem t.addr joined }
    unfolding join_before
    join_before-stop stop =
        let sum : add64 b.addr b.size ≡ b.addr + b.size = omega arith in
        let next = load64 h.mem (t.addr + 8) in
        let test : (not (next == null) && b.addr + b.size == next) ≡ false = ground arith in
        rw (sums, next_kept, header_kept, sum, join_before, test) refl

    -- The heap when the block behind, of `n` bytes at `a`, is joined too.
    abbrev joined_heap : (a n : ℕ) → Heap S
    joined_heap a n =
        let m = store64 (store64 h.mem t.addr joined) t.addr (joined + n) in
        record h { mem = store64 m (t.addr + 8) (load64 h.mem (a + 8)) }

    join_before-on :
        (a n : ℕ)
        → load64 h.mem (t.addr + 8) ≡ a
        → load64 h.mem a ≡ n
        → b.addr + b.size ≡ a
        → a + n < h.end + 1
        → 16 ≤ n
        → join_before s_brk env t.addr b.addr h ≡ joined_heap a n
    unfolding join_before
    join_before-on a n at size e fits min =
        let sum : add64 b.addr b.size ≡ b.addr + b.size = omega arith in
        let next_t : next_at t.addr ≡ t.addr + 8 = omega arith in
        let next_a : next_at a ≡ a + 8 = omega arith in
        let test : (not (a == null) && b.addr + b.size == a) ≡ true = ground arith in
        let m = store64 h.mem t.addr joined in
        let this : load64 m t.addr ≡ joined =
          load64-store64_self h.mem t.addr joined (omega arith) in
        let behind : load64 m a ≡ n =
          load64-store64_ne h.mem t.addr a joined (omega arith) ∙ size in
        let all : add64 joined n ≡ joined + n = omega arith in
        let kept : load64 (store64 m t.addr (joined + n)) (a + 8) ≡ load64 h.mem (a + 8) =
          load64-store64_ne m t.addr (a + 8) (joined + n) (omega arith)
          ∙ load64-store64_ne h.mem t.addr (a + 8) joined (omega arith) in
        rw
          (
            sums, next_kept, header_kept, sum, at, join_before, test, next_t, next_a, this, behind,
            all, kept,
          )
          refl

module _ {S : Type 0} (s_brk : ℕ → S → ℕ × S) (env : Env) (link lo : ℕ) (b t : Block) (h : Heap S)
    (top : h.end + 32 < word_mod) (apart : (link + 8 ≤ lo) ⊎ (h.end ≤ link)) (big : 16 ≤ b.size)
    (header : load64 h.mem b.addr ≡ b.size) (touch : t.addr + t.size ≡ b.addr)
    (high : b.addr + b.size ≤ h.end) where
  -- The blocks in front and behind take in the block between them.
  joined_all-IsReleased :
      (n : Block) (ns : List Block)
      → (layout : Layout lo h.end (t ∷ n ∷ ns)) → (chain : Chain h.mem link (t ∷ n ∷ ns))
      → b.addr + b.size ≡ n.addr
      → IsReleased link h b (t ∷ n ∷ ns) (block t.addr (t.size + b.size + n.size) ∷ ns) (
          joined_heap s_brk env link lo b t
            (n ∷ ns)
            h
            top
            apart
            big
            header
            layout
            chain
            touch
            high
            n.addr
            n.size)
  joined_all-IsReleased n ns layout chain meet =
      let bound = Layout-le (n.addr + n.size + 1) h.end ns layout.2.2 in
      let total = t.size + b.size + n.size in
      let p = load64 h.mem (n.addr + 8) in
      let p_word =
        ChainFrom-IsWord h.mem p (n.addr + n.size + 1) h.end ns layout.2.2 (omega arith)
          chain.2.2 in
      let m1 = store64 h.mem t.addr (t.size + b.size) in
      let m2 = store64 m1 t.addr total in
      let m3 = store64 m2 (t.addr + 8) p in
      let far = λ (x : ℕ) (q : (x < t.addr) ⊎ (t.addr + 16 ≤ x)).
        store64-outside m2 (t.addr + 8) p x (omega arith)
        ∙ store64-outside m1 t.addr total x (omega arith)
        ∙ store64-outside h.mem t.addr (t.size + b.size) x (omega arith) in
      record {
        end = refl;
        os = refl;
        chain = (
          load64-store64_ne m2 (t.addr + 8) link p (omega arith)
              ∙ load64-store64_ne m1 t.addr link total (omega arith)
              ∙ load64-store64_ne h.mem t.addr link (t.size + b.size) (omega arith)
              ∙ chain.0,
          load64-store64_ne m2 (t.addr + 8) t.addr p (omega arith)
              ∙ load64-store64_self m1 t.addr total (omega arith),
          rw (load64-store64_self m2 (t.addr + 8) p p_word) (
              ChainFrom-frame h.mem m3 p (n.addr + n.size + 1) h.end ns layout.2.2
                (λ x i.
                  let r = InBlocks-Layout x (n.addr + n.size + 1) h.end ns layout.2.2 i in
                  far x (omega arith))
                chain.2.2),
        );
        frame = λ x o nb ns'. let r = not-InBlocks-cons x t (n ∷ ns) ns' in far x (omega arith);
      }

  -- The block is joined to the one in front of it, and to the next where it touches that too.
  pub join_before-IsReleased :
      (ts : List Block)
      → Layout lo h.end (t ∷ ts)
      → Chain h.mem link (t ∷ ts)
      → IsReleased link h b
          (t ∷ ts)
          (join_next (block t.addr (t.size + b.size)) ts)
          (join_before s_brk env t.addr b.addr h)
  unfolding join_next
  join_before-IsReleased [] layout chain =
      rw
        (join_before-stop s_brk env link lo b t [] h top apart big header layout chain touch high
          (inl chain.2))
        (enlarged-IsReleased s_brk env link lo b t [] h top apart big header layout chain touch
          high)
  join_before-IsReleased (n ∷ ns) layout chain =
      let bound = Layout-le (n.addr + n.size + 1) h.end ns layout.2.2 in
      elim (Bool-cases (t.addr + (t.size + b.size) == n.addr)) [
        | inl meet ↦
            rw
              (
                meet,
                join_before-on s_brk env link lo b t (n ∷ ns) h top apart big header layout chain
                    touch high n.addr n.size chain.2.0 chain.2.1 (ground arith) (omega arith)
                    (omega arith),
              )
              (joined_all-IsReleased n ns layout chain (ground arith))
        | inr gap ↦
            let next = chain.2.0 in
            rw
              (
                gap,
                join_before-stop s_brk env link lo b t (n ∷ ns) h top apart big header layout chain
                    touch high (inr (λ e. ground arith)),
              )
              (enlarged-IsReleased s_brk env link lo b t (n ∷ ns) h top apart big header layout
                chain touch high)
      ]
