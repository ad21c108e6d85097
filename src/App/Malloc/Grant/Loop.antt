-- ===== src/App/Malloc/Grant/Loop.antt =====
-- The loop of `malloc`, by induction on the list of free blocks.
use keystone_sdk.Base.{
  ℕ, zero, suc, ◌+◌, ◌≤◌, ◌<◌, ◌≡◌, ◌≢◌, ◌⊎◌, inl, inr, refl, arith, ◌∙◌, ◌&&◌, Option, none, some,
  List, [], ◌∷◌, IsWord, Bool-cases, leb, ltb, ◌==◌, add64, true, false, length, ap, if◌then◌else◌,
}
use keystone_sdk.Memory.{load64}
use keystone_sdk.Memory.Laws.{load64-ext}
use keystone_sdk.App.Malloc.{Env, Heap, next_at, next_of, malloc_loop}
use keystone_sdk.App.Malloc.Blocks.{
  Block, block, Chain, Layout, InBlocks, Grant, is_nil, keep, alloc,
}
use keystone_sdk.App.Malloc.Blocks.Alloc.{Layout-le, InBlocks-Layout, not-InBlocks-cons}
use keystone_sdk.App.Malloc.Grant.{IsEnv, IsGranted, Agrees}
use keystone_sdk.App.Malloc.Grant.Steps.{
  malloc_loop-nil, malloc_loop-large, malloc_loop-last, malloc_loop-later, fresh-Agrees,
  enlarge-Agrees, whole-IsGranted, split-IsGranted,
}

module _ {S : Type 0} (s_brk : ℕ → S → ℕ × S) (env : Env) (is_env : IsEnv env) (h : Heap S)
    (gap : h.end + 32 ≤ env.limit) where
  -- A grant further down the list leaves the block in front.
  keep-IsGranted :
      (link lo : ℕ) (b : Block) (bs : List Block) (g : Grant) (out : ℕ × Heap S)
      → (link + 8 ≤ lo) ⊎ (env.limit ≤ link)
      → Layout lo h.end (b ∷ bs)
      → Chain h.mem link (b ∷ bs)
      → IsGranted env (b.addr + 8) h bs g out
      → IsGranted env link h (b ∷ bs) (record g { rest = b ∷ g.rest }) out
  keep-IsGranted link lo b bs g out apart layout chain is =
      let bound = Layout-le (b.addr + b.size + 1) h.end bs layout.2 in
      let outside = λ (x : ℕ) (p : x < b.addr + b.size + 1) (i : InBlocks x bs).
        (InBlocks-Layout x (b.addr + b.size + 1) h.end bs layout.2 i).0 in
      let gap' = is.gap in
      record {
        pointer = is.pointer;
        end = is.end;
        gap = is.gap;
        header = is.header;
        chain = (
          load64-ext out.1.mem h.mem link (λ x p q.
                is.frame x (omega arith)
                  (λ i.
                    let r = InBlocks-Layout x (b.addr + b.size + 1) h.end bs layout.2 i in
                    ground arith)
                  (omega arith))
              ∙ chain.0,
          load64-ext out.1.mem h.mem b.addr (λ x p q.
                is.frame x (omega arith)
                  (λ i.
                    let r = InBlocks-Layout x (b.addr + b.size + 1) h.end bs layout.2 i in
                    ground arith)
                  (omega arith))
              ∙ chain.1,
          is.chain,
        );
        frame =
            λ x p q r. let (o, q') = not-InBlocks-cons x b bs q in is.frame x (omega arith) q' r;
      }

  keep-Agrees :
      (link lo : ℕ) (b : Block) (bs : List Block) (o : Option Grant) (run : Option (ℕ × Heap S))
      → (link + 8 ≤ lo) ⊎ (env.limit ≤ link)
      → Layout lo h.end (b ∷ bs)
      → Chain h.mem link (b ∷ bs)
      → Agrees env (b.addr + 8) h bs o run
      → Agrees env link h (b ∷ bs) (keep b o) run
  keep-Agrees link lo b bs none run apart layout chain is = is
  keep-Agrees link lo b bs (some g) run apart layout chain (out, e, is) =
      (out, e, keep-IsGranted link lo b bs g out apart layout chain is)

  -- The list's last block, where it is too small and ends where the heap does.
  last-Agrees :
      (fuel link lo real : ℕ) (b : Block) (bs : List Block)
      → 0 < lo
      → (link + 8 ≤ lo) ⊎ (env.limit ≤ link)
      → IsWord real
      → Layout lo h.end (b ∷ bs)
      → Chain h.mem link (b ∷ bs)
      → b.size < real
      → is_nil bs ≡ true
      → h.end ≡ b.addr + b.size
      → Agrees env link h
          (b ∷ bs)
          (if leb (b.addr + real + 32) env.limit
            then some (record { granted = block b.addr real; rest = []; end = b.addr + real })
            else none)
          (malloc_loop s_brk env (suc fuel) link real h)
  last-Agrees fuel link lo real b [] pos apart word layout chain small nil at_end =
      let w = is_env.limit_word in
      let next : next_at b.addr ≡ b.addr + 8 = omega arith in
      rw
        (malloc_loop-last s_brk env fuel link real h b.addr b.size chain.0 (λ e. ground arith)
          chain.1 small (rw next chain.2) (omega arith))
        (enlarge-Agrees s_brk env is_env link lo h gap pos apart real b word layout.0 layout.1 small
          chain.1 at_end)
  last-Agrees fuel link lo real b (c ∷ bs) pos apart word layout chain small nil at_end = cc

  -- A block that another follows has a next, and one that ends below the heap's end is seen to.
  not-last :
      (lo link : ℕ) (b : Block) (bs : List Block)
      → (is_nil bs && h.end == b.addr + b.size) ≡ false
      → Layout lo h.end (b ∷ bs)
      → Chain h.mem link (b ∷ bs)
      → (next_of h.mem b.addr ≢ 0) ⊎ (h.end ≢ add64 b.addr b.size)
  not-last lo link b [] inner layout chain = let w = is_env.limit_word in inr (λ e. ground arith)
  not-last lo link b (c ∷ bs) inner layout chain =
      let w = is_env.limit_word in
      let bound = Layout-le (b.addr + b.size + 1) h.end (c ∷ bs) layout.2 in
      let next : next_at b.addr ≡ b.addr + 8 = omega arith in
      inl (λ e. ground (arith, ap (load64 h.mem) next))

  -- For enough fuel, the loop on a list that stands for `bs` does what `alloc` does on `bs`.
  pub malloc_loop-Agrees :
      (fuel link lo real : ℕ) (bs : List Block)
      → length bs < fuel
      → 0 < lo
      → (link + 8 ≤ lo) ⊎ (env.limit ≤ link)
      → (is_nil bs ≡ true → lo ≤ h.end)
      → 16 ≤ real
      → IsWord real
      → Layout lo h.end bs
      → Chain h.mem link bs
      → Agrees env link h bs
          (alloc real env.limit h.end bs)
          (malloc_loop s_brk env fuel link real h)
  unfolding alloc
  malloc_loop-Agrees zero link lo real bs f pos apart room min word layout chain =
      absurd (omega arith)
  malloc_loop-Agrees (suc fuel) link lo real [] f pos apart room min word layout chain =
      rw (malloc_loop-nil s_brk env fuel link real h chain)
        (fresh-Agrees s_brk env is_env link lo h gap pos apart real min (room refl) chain word)
  malloc_loop-Agrees (suc fuel) link lo real (b ∷ bs) f pos apart room min word layout chain =
      elim (Bool-cases (leb real b.size)) [
        | inl large ↦
            rw
              (
                large,
                malloc_loop-large s_brk env fuel link real h b.addr b.size chain.0
                    (λ e. ground arith) chain.1 (ground arith),
              )
              (elim (Bool-cases (ltb b.size (real + 16))) [
                | inl whole ↦ rw whole (
                  _,
                  refl,
                  whole-IsGranted s_brk env is_env link lo h gap pos apart real b bs min layout
                      chain (ground arith) (ground arith),
                )
                | inr split ↦ rw split (
                  _,
                  refl,
                  split-IsGranted s_brk env is_env link lo h gap pos apart real b bs min layout
                      chain (ground arith),
                )
              ])
        | inr small ↦ rw small (elim (Bool-cases (is_nil bs && h.end == b.addr + b.size)) [
          | inl last ↦ rw last (
              last-Agrees fuel link lo real b bs pos apart word layout chain (ground arith)
                (ground arith) (ground arith))
          | inr inner ↦
              let bound = Layout-le (b.addr + b.size + 1) h.end bs layout.2 in
              let w = is_env.limit_word in
              let next : next_at b.addr ≡ b.addr + 8 = omega arith in
              rw
                (
                  inner,
                  malloc_loop-later s_brk env fuel link real h b.addr b.size chain.0
                      (λ e. ground arith) chain.1 (ground arith)
                      (not-last lo link b bs inner layout chain),
                  next,
                )
                (keep-Agrees link lo b bs _ _ apart layout chain (
                  malloc_loop-Agrees fuel (b.addr + 8) (b.addr + b.size + 1) real bs (omega arith)
                    (omega arith) (omega arith) (λ nil. ground arith) min word layout.2 chain.2))
        ])
      ]
