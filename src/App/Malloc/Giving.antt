-- ===== src/App/Malloc/Giving.antt =====
-- Each branch of `free` on a heap whose free list stands for a list of blocks.
pub mod Join
pub mod Loop
use keystone_sdk.Base.{
  ℕ, suc, ◌+◌, ◌≤◌, ◌<◌, ◌≡◌, ◌≢◌, ◌⊎◌, inl, inr, refl, arith, ◌∙◌, some, List, [], ◌∷◌, word_mod,
  add64,
}
use keystone_sdk.Memory.{load64, store64}
use keystone_sdk.Memory.Laws.{load64-store64_self, load64-store64_ne, store64-outside}
use keystone_sdk.App.Malloc.{Env, Heap, next_at, insert, join_before, join_after, free_loop}
use keystone_sdk.App.Malloc.Blocks.{Block, Chain, Layout, InBlock, InBlocks}
use keystone_sdk.App.Malloc.Blocks.Alloc.{InBlocks-Layout, not-InBlocks-cons}
use keystone_sdk.App.Malloc.Grant.{ChainFrom-frame, ChainFrom-IsWord}

module _ {S : Type 0} (s_brk : ℕ → S → ℕ × S) (env : Env) (fuel link : ℕ) (b : Block)
    (h : Heap S) where
  pub free_loop-nil :
      load64 h.mem link ≡ 0
      → free_loop s_brk env (suc fuel) link b.addr h ≡ some (insert s_brk env link b.addr h)
  unfolding free_loop
  free_loop-nil e = ground arith

  module _ (a n : ℕ) (e : load64 h.mem link ≡ a) (pos : a ≢ 0) (sz : load64 h.mem a ≡ n)
      (header : load64 h.mem b.addr ≡ b.size) where
    pub free_loop-before :
        add64 a n ≡ b.addr
        → free_loop s_brk env (suc fuel) link b.addr h ≡ some (join_before s_brk env a b.addr h)
    unfolding free_loop
    free_loop-before t = ground arith

    pub free_loop-after :
        add64 a n ≢ b.addr
        → a ≡ add64 b.addr b.size
        → free_loop s_brk env (suc fuel) link b.addr h ≡ some (join_after s_brk env link a b.addr h)
    unfolding free_loop
    free_loop-after t u = ground arith

    pub free_loop-place :
        add64 a n ≢ b.addr
        → a ≢ add64 b.addr b.size
        → b.addr < a
        → free_loop s_brk env (suc fuel) link b.addr h ≡ some (insert s_brk env link b.addr h)
    unfolding free_loop
    free_loop-place t u v = ground arith

    pub free_loop-later :
        add64 a n ≢ b.addr
        → a ≢ add64 b.addr b.size
        → a ≤ b.addr
        → free_loop s_brk env (suc fuel) link b.addr h
          ≡ free_loop s_brk env fuel (next_at a) b.addr h
    unfolding free_loop
    free_loop-later t u v = ground arith

-- The heap after `b` was given back: the list stands for `after`, and no byte differs outside the
-- link, the block and the blocks that were free.
pub record IsReleased {S : Type 0} (link : ℕ) (h : Heap S) (b : Block) (bs after : List Block)
    (h' : Heap S) : Type 0 where
  pub end : h'.end ≡ h.end
  pub os : h'.os ≡ h.os
  pub chain : Chain h'.mem link after
  pub frame :
      (x : ℕ)
      → (x < link) ⊎ (link + 8 ≤ x)
      → ¬ (InBlock x b)
      → ¬ (InBlocks x bs)
      → h'.mem x ≡ h.mem x

pub not-InBlock : (x : ℕ) (b : Block) → ¬ (InBlock x b) → (x < b.addr) ⊎ (b.addr + b.size ≤ x)
not-InBlock x b n = (not-InBlocks-cons x b [] (λ i. elim i [ inl j ↦ n j | inr j ↦ j ])).0

module _ {S : Type 0} (s_brk : ℕ → S → ℕ × S) (env : Env) (link lo : ℕ) (b : Block) (h : Heap S)
    (top : h.end + 32 < word_mod) (apart : (link + 8 ≤ lo) ⊎ (h.end ≤ link)) (low : lo ≤ b.addr)
    (big : 16 ≤ b.size) (high : b.addr + b.size ≤ h.end)
    (header : load64 h.mem b.addr ≡ b.size) where
  -- The block is put in front of blocks that lie behind it.
  pub insert-IsReleased :
      (bs : List Block)
      → Layout (b.addr + b.size) h.end bs
      → Chain h.mem link bs
      → IsReleased link h b bs (b ∷ bs) (insert s_brk env link b.addr h)
  unfolding insert
  insert-IsReleased bs layout chain =
      let next : next_at b.addr ≡ b.addr + 8 = omega arith in
      let p = load64 h.mem link in
      let p_word = ChainFrom-IsWord h.mem p (b.addr + b.size) h.end bs layout (omega arith) chain in
      let m1 = store64 h.mem (b.addr + 8) p in
      let m2 = store64 m1 link b.addr in
      let next_read : load64 m2 (b.addr + 8) ≡ p =
        load64-store64_ne m1 link (b.addr + 8) b.addr (omega arith)
        ∙ load64-store64_self h.mem (b.addr + 8) p p_word in
      rw (next, insert)
        (record {
          end = refl;
          os = refl;
          chain = (
            load64-store64_self m1 link b.addr (omega arith),
            load64-store64_ne m1 link b.addr b.addr (omega arith)
                ∙ load64-store64_ne h.mem (b.addr + 8) b.addr p (omega arith)
                ∙ header,
            rw next_read (
                ChainFrom-frame h.mem m2 p (b.addr + b.size) h.end bs layout
                  (λ x i.
                    let r = InBlocks-Layout x (b.addr + b.size) h.end bs layout i in
                    store64-outside m1 link b.addr x (omega arith)
                    ∙ store64-outside h.mem (b.addr + 8) p x (omega arith))
                  chain),
          );
          frame = λ x o nb ns.
              let far = not-InBlock x b nb in
              store64-outside m1 link b.addr x o
              ∙ store64-outside h.mem (b.addr + 8) p x (omega arith);
        })
