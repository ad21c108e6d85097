-- ===== src/App/Malloc/Giving/Loop.antt =====
-- The loop of `free`, by induction on the list of free blocks.
use keystone_sdk.Base.{
  ℕ, zero, suc, ◌+◌, ◌≤◌, ◌<◌, ◌≡◌, ◌⊎◌, inl, inr, refl, arith, ◌∙◌, Option, some, List, [], ◌∷◌,
  word_mod, Bool-cases, ltb, ◌==◌, add64, length,
}
use keystone_sdk.Memory.{load64}
use keystone_sdk.Memory.Laws.{load64-ext}
use keystone_sdk.App.Malloc.{Env, Heap, next_at, free_loop}
use keystone_sdk.App.Malloc.Blocks.{Block, Chain, Layout, release, AllApart}
use keystone_sdk.App.Malloc.Blocks.Alloc.{Layout-le, InBlocks-Layout, not-InBlocks-cons}
use keystone_sdk.App.Malloc.Giving.{
  free_loop-nil, free_loop-before, free_loop-after, free_loop-place, free_loop-later, IsReleased,
  insert-IsReleased,
}
use keystone_sdk.App.Malloc.Giving.Join.{join_after-IsReleased, join_before-IsReleased}

module _ {S : Type 0} (s_brk : ℕ → S → ℕ × S) (env : Env) (b : Block) (h : Heap S)
    (top : h.end + 32 < word_mod) (big : 16 ≤ b.size) (high : b.addr + b.size ≤ h.end)
    (header : load64 h.mem b.addr ≡ b.size) where
  -- A block given back further down the list leaves the one in front.
  keep-IsReleased :
      (link lo : ℕ) (t : Block) (ts after : List Block) (h' : Heap S)
      → (link + 8 ≤ lo) ⊎ (h.end ≤ link)
      → t.addr + t.size ≤ b.addr
      → Layout lo h.end (t ∷ ts)
      → Chain h.mem link (t ∷ ts)
      → IsReleased (t.addr + 8) h b ts after h'
      → IsReleased link h b (t ∷ ts) (t ∷ after) h'
  keep-IsReleased link lo t ts after h' apart below layout chain is =
      let bound = Layout-le (t.addr + t.size + 1) h.end ts layout.2 in
      record {
        end = is.end;
        os = is.os;
        chain = (
          load64-ext h'.mem h.mem link (λ x p q.
                is.frame x (omega arith) (λ i. omega arith)
                  (λ i.
                    let r = InBlocks-Layout x (t.addr + t.size + 1) h.end ts layout.2 i in
                    ground arith))
              ∙ chain.0,
          load64-ext h'.mem h.mem t.addr (λ x p q.
                is.frame x (omega arith) (λ i. omega arith)
                  (λ i.
                    let r = InBlocks-Layout x (t.addr + t.size + 1) h.end ts layout.2 i in
                    ground arith))
              ∙ chain.1,
          is.chain,
        );
        frame = λ x o nb ns.
            let (q, ns') = not-InBlocks-cons x t ts ns in is.frame x (omega arith) nb ns';
      }

  -- What a run of the loop at a link must be.
  abbrev Releases : (link : ℕ) (bs : List Block) → Option (Heap S) → Type 0
  Releases link bs run = (h' : Heap S) × (run ≡ some h') × IsReleased link h b bs (release b bs) h'

  keep-Releases :
      (link lo : ℕ) (t : Block) (ts : List Block) (run : Option (Heap S))
      → (link + 8 ≤ lo) ⊎ (h.end ≤ link)
      → t.addr + t.size ≤ b.addr
      → Layout lo h.end (t ∷ ts)
      → Chain h.mem link (t ∷ ts)
      → Releases (t.addr + 8) ts run
      → (h' : Heap S) × (run ≡ some h') × IsReleased link h b (t ∷ ts) (t ∷ release b ts) h'
  keep-Releases link lo t ts run apart below layout chain (h', e, is) =
      (h', e, keep-IsReleased link lo t ts (release b ts) h' apart below layout chain is)

  -- For enough fuel, the loop on a list that stands for `bs` leaves one that stands for `release b bs`.
  pub free_loop-IsReleased :
      (fuel link lo : ℕ) (bs : List Block)
      → length bs < fuel
      → 0 < lo
      → (link + 8 ≤ lo) ⊎ (h.end ≤ link)
      → lo ≤ b.addr
      → AllApart b bs
      → Layout lo h.end bs
      → Chain h.mem link bs
      → (h' : Heap S) × (free_loop s_brk env fuel link b.addr h ≡ some h')
        × IsReleased link h b bs (release b bs) h'
  unfolding release
  free_loop-IsReleased zero link lo bs f pos apart low free layout chain = absurd (omega arith)
  free_loop-IsReleased (suc fuel) link lo [] f pos apart low free layout chain =
      rw (free_loop-nil s_brk env fuel link b h chain) (
        _,
        refl,
        insert-IsReleased s_brk env link lo b h top apart low big high header [] (omega arith)
            chain,
      )
  free_loop-IsReleased (suc fuel) link lo (t ∷ ts) f pos apart low free layout chain =
      let bound = Layout-le (t.addr + t.size + 1) h.end ts layout.2 in
      let after : add64 b.addr b.size ≡ b.addr + b.size = omega arith in
      let before : add64 t.addr t.size ≡ t.addr + t.size = omega arith in
      elim (Bool-cases (t.addr + t.size == b.addr)) [
        | inl touch ↦
            rw
              (
                touch,
                free_loop-before s_brk env fuel link b h t.addr t.size chain.0 (λ e. omega arith)
                    chain.1 header (ground arith),
              )
              (
                _,
                refl,
                join_before-IsReleased s_brk env link lo b t h top apart big header (ground arith)
                    high ts layout chain,
              )
        | inr far ↦ rw far (elim (Bool-cases (t.addr == b.addr + b.size)) [
          | inl touch ↦
              rw
                (
                  touch,
                  free_loop-after s_brk env fuel link b h t.addr t.size chain.0 (λ e. omega arith)
                      chain.1 header (λ e. ground arith) (ground arith),
                )
                (
                  _,
                  refl,
                  join_after-IsReleased s_brk env link lo b t ts h top apart big header layout chain
                      low (ground arith),
                )
          | inr gap ↦ rw gap (elim (Bool-cases (ltb b.addr t.addr)) [
            | inl less ↦
                rw
                  (
                    less,
                    free_loop-place s_brk env fuel link b h t.addr t.size chain.0 (λ e. omega arith)
                        chain.1 header (λ e. ground arith) (λ e. ground arith) (ground arith),
                  )
                  (
                    _,
                    refl,
                    insert-IsReleased s_brk env link lo b h top apart low big high header (t ∷ ts)
                        (ground arith, layout.1, layout.2) chain,
                  )
            | inr more ↦
                let next : next_at t.addr ≡ t.addr + 8 = omega arith in
                rw
                  (
                    more,
                    free_loop-later s_brk env fuel link b h t.addr t.size chain.0 (λ e. omega arith)
                        chain.1 header (λ e. ground arith) (λ e. ground arith) (ground arith),
                    next,
                  )
                  (keep-Releases link lo t ts _ apart (ground arith) layout chain (
                    free_loop-IsReleased fuel (t.addr + 8) (t.addr + t.size + 1) ts (omega arith)
                      (omega arith) (omega arith) (ground arith) free.1 layout.2 chain.2))
          ])
        ])
      ]
