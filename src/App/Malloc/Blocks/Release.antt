-- ===== src/App/Malloc/Blocks/Release.antt =====
-- What giving back a block does to a list of blocks.
use keystone_sdk.Base.{
  ℕ, ◌+◌, ◌≤◌, ◌≡◌, ◌↔◌, ◌⊎◌, inl, inr, arith, List, [], ◌∷◌, ltb, ◌==◌, Bool-cases,
}
use keystone_sdk.App.Malloc.Blocks.{
  Block, block, Layout, InBlock, InBlocks, join_next, release, AllApart,
}
use keystone_sdk.App.Malloc.Blocks.Alloc.{Layout-mono}

join_next-Layout :
    (lo end : ℕ) (b : Block) (ns : List Block)
    → lo ≤ b.addr
    → 16 ≤ b.size
    → b.addr + b.size ≤ end
    → Layout (b.addr + b.size) end ns
    → Layout lo end (join_next b ns)
unfolding join_next
join_next-Layout lo end b [] p q r l = omega arith
join_next-Layout lo end b (n ∷ ns) p q r l = elim (Bool-cases (b.addr + b.size == n.addr)) [
  | inl touch ↦
      rw touch (p, omega arith, Layout-mono (n.addr + n.size + 1) _ end ns (ground arith) l.2)
  | inr gap ↦ rw gap (p, q, (ground arith, l.1, l.2))
]

join_next-InBlocks :
    (x : ℕ) (b : Block) (ns : List Block)
    → InBlocks x (join_next b ns) ↔ (InBlock x b ⊎ InBlocks x ns)
unfolding join_next
join_next-InBlocks x b [] = (λ i. i, λ i. i)
join_next-InBlocks x b (n ∷ ns) = (λ i. ground arith, λ i. ground arith)

-- The bytes of the list after a release are those of the block and those of the list before.
pub InBlocks-release :
    (x : ℕ) (b : Block) (bs : List Block)
    → InBlocks x (release b bs) ↔ (InBlock x b ⊎ InBlocks x bs)
unfolding release
InBlocks-release x b [] = (λ i. i, λ i. i)
InBlocks-release x b (t ∷ ts) = (
  λ i.
      ground
        (arith, InBlocks-release x b ts, join_next-InBlocks x (block t.addr (t.size + b.size)) ts),
  λ i.
      ground
        (arith, InBlocks-release x b ts, join_next-InBlocks x (block t.addr (t.size + b.size)) ts),
)

-- Blocks from `lo` on that are apart from one that starts no later begin behind it.
Layout-after :
    (lo end : ℕ) (b : Block) (ts : List Block)
    → b.addr ≤ lo
    → b.addr + b.size ≤ end
    → AllApart b ts
    → Layout lo end ts
    → Layout (b.addr + b.size) end ts
Layout-after lo end b [] p r a l = omega arith
Layout-after lo end b (u ∷ us) p r a l = (omega arith, l.1, l.2)

-- A block apart from the list goes into it, and the layout stays: in order, and none touching.
pub release-Layout :
    (lo end : ℕ) (b : Block) (bs : List Block)
    → lo ≤ b.addr
    → 16 ≤ b.size
    → b.addr + b.size ≤ end
    → AllApart b bs
    → Layout lo end bs
    → Layout lo end (release b bs)
unfolding release
release-Layout lo end b [] p q r a l = omega arith
release-Layout lo end b (t ∷ ts) p q r a l = elim (Bool-cases (t.addr + t.size == b.addr)) [
  | inl before ↦
      let after = Layout-after (t.addr + t.size + 1) end b ts (ground arith) r a.1 l.2 in
      let e : b.addr + b.size ≡ t.addr + (t.size + b.size) = ground arith in
      rw before (
        join_next-Layout lo end (block t.addr (t.size + b.size)) ts l.0 (omega arith) (ground arith)
          (rw e at after))
  | inr not_before ↦ rw not_before (elim (Bool-cases (t.addr == b.addr + b.size)) [
    | inl touch ↦
        rw touch (p, omega arith, Layout-mono (t.addr + t.size + 1) _ end ts (ground arith) l.2)
    | inr not_touch ↦ rw not_touch (elim (Bool-cases (ltb b.addr t.addr)) [
      | inl below ↦ rw below (p, q, (ground arith, l.1, l.2))
      | inr above ↦
          rw above
            (l.0, l.1, release-Layout (t.addr + t.size + 1) end b ts (ground arith) q r a.1 l.2)
    ])
  ])
]
