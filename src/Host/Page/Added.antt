-- ===== src/Host/Page/Added.antt =====
-- A table added at a missing entry keeps the tree, and maps nothing new.
use keystone_sdk.Base.{
  ℕ, zero, suc, ◌+◌, ◌*◌, ◌^◌, ◌≤◌, ◌<◌, ◌≡◌, ◌⊎◌, inl, inr, refl, arith, true, false, none,
  Bool-cases, if◌then◌else◌, IsWord, ◌==◌, ◌∙◌, sym, ap,
}
use keystone_sdk.Memory.{Mem, load64, store64}
use keystone_sdk.Memory.Laws.{load64-store64_self, load64-store64_ne, store64-outside, load64-zeros}
use keystone_sdk.Host.Page.{walk_from, is_valid, pte_page, pt_idx, ptd_create, ppn}
use keystone_sdk.Host.Page.Entries.{
  pt_idx-lt, pte_create-is_valid, pte_page-pte_create, pte_create-IsWord, ppn-lt, zero-is_valid,
}
use keystone_sdk.Host.Page.Tables.{
  Shape, Arena, IsTable, IsTables, direct, leaf_of, translate, entries_apart, entry_at-IsTable,
  KeepsData, store64-KeepsData,
}

-- The new page is a table of the level, owned by the entry.
abbrev pub with_page : Shape → (page level owner : ℕ) → Shape
with_page s page level owner = record {
  level = λ p. if p == page then level else s.level p;
  owner = λ p. if p == page then owner else s.owner p;
}

module _ (m : Mem) (root : ℕ) (a : Arena) (s : Shape) (is : IsTables m root a s) (page i level : ℕ)
    (le : level < 2) (idx : i < 512) (tab : IsTable s a (suc level) page)
    (bad : is_valid (load64 m (page + 8 * i)) ≡ false) (room : a.free + 4096 ≤ a.limit) where
  abbrev pub pte : ℕ
  pte = ptd_create (ppn a.free)

  abbrev pub grown : Arena
  grown = record a { free = a.free + 4096 }

  abbrev pub shape : Shape
  shape = with_page s a.free level (page + 8 * i)

  abbrev pub stored : Mem
  stored = store64 m (page + 8 * i) pte

  pub pte_facts : (is_valid pte ≡ true) × (pte_page pte ≡ a.free) × IsWord pte
  unfolding ptd_create
  pte_facts =
      let word = is.limit_word in
      let al = is.free_aligned in
      let small : ppn a.free < 2 ^ 54 = ppn-lt a.free (omega arith) in
      (
        pte_create-is_valid (ppn a.free) 1 small (omega arith),
        pte_page-pte_create a.free 1 al (omega arith) (omega arith),
        pte_create-IsWord (ppn a.free) 1 small (omega arith),
      )

  -- Other entries of tables stay.
  pub other_entry :
      (q j k : ℕ)
      → IsTable s a k q
      → j < 512
      → ((q ≡ page) × (j ≡ i)) ⊎ (load64 stored (q + 8 * j) ≡ load64 m (q + 8 * j))
  other_entry q j k t hj = elim (entries_apart q page j i t.2 tab.2 hj idx) [
    | inl same ↦ inl same
    | inr apart ↦ inr (load64-store64_ne m (page + 8 * i) (q + 8 * j) pte (omega arith))
  ]

  -- The new table is empty.
  pub fresh_entry : (j : ℕ) → j < 512 → load64 stored (a.free + 8 * j) ≡ 0
  fresh_entry j hj = load64-zeros stored (a.free + 8 * j) λ x p q.
      store64-outside m (page + 8 * i) pte x (omega arith) ∙ is.zeros x (omega arith) (omega arith)

  -- A table of before is not the new page, and keeps its level and owner.
  old_table : (k q : ℕ) → IsTable s a k q → IsTable shape grown k q
  old_table k q t = let other : (q == a.free) ≡ false = ground arith in rw other (omega arith)

  table_cases : (k q : ℕ) → IsTable shape grown k q → ((q ≡ a.free) × (k ≡ level)) ⊎ IsTable s a k q
  table_cases k q t = elim (Bool-cases (q == a.free)) [
    | inl new ↦ inl (ground arith, ground arith)
    | inr old ↦ let al = is.free_aligned in inr (ground arith)
  ]

  pub new_table : IsTable shape grown level a.free
  new_table =
      let self : (a.free == a.free) ≡ true = ground arith in
      let al = is.free_aligned in rw self (omega arith)

  pub add_table-KeepsData : KeepsData m stored s shape a grown
  add_table-KeepsData = record {
    page = λ q t.
        (old_table 3 q t, store64-KeepsData m s a (suc level) page i pte (omega arith) idx tab q t);
  }

  same_below :
      (k q j : ℕ)
      → q ≡ page
      → j ≡ i
      → IsTable s a (suc k) q
      → IsTable shape grown k (pte_page (load64 stored (q + 8 * j)))
        × (shape.owner (pte_page (load64 stored (q + 8 * j))) ≡ q + 8 * j)
  same_below k q j eq ej t =
      let (valid, leads, word) = pte_facts in
      let here : q + 8 * j ≡ page + 8 * i = omega arith in
      let read : load64 stored (page + 8 * i) ≡ pte =
        load64-store64_self m (page + 8 * i) pte word in
      let levels : k ≡ level = omega (arith, tab.3, t.3, ap s.level eq) in
      let self : (a.free == a.free) ≡ true = ground arith in
      rw (here, read, leads, levels) (new_table, rw self refl)

  below :
      (k q j : ℕ)
      → k < 2
      → j < 512
      → IsTable shape grown (suc k) q
      → is_valid (load64 stored (q + 8 * j)) ≡ true
      → IsTable shape grown k (pte_page (load64 stored (q + 8 * j)))
        × (shape.owner (pte_page (load64 stored (q + 8 * j))) ≡ q + 8 * j)
  below k q j lt hj t valid = elim (table_cases (suc k) q t) [
    | inl (new, lev) ↦
        let empty : load64 stored (q + 8 * j) ≡ 0 = rw new (fresh_entry j hj) in
        cc (sym valid ∙ ap is_valid empty ∙ zero-is_valid)
    | inr old ↦ elim (other_entry q j (suc k) old hj) [
      | inl (eq, ej) ↦ same_below k q j eq ej old
      | inr kept ↦
          let (target, owned) = is.below k q j lt hj old (sym (ap is_valid kept) ∙ valid) in
          let other : (pte_page (load64 m (q + 8 * j)) == a.free) ≡ false = ground arith in
          rw kept (old_table k _ target, rw other owned)
    ]
  ]

  -- The tree with the new table.
  pub add_table-IsTables : IsTables stored root grown shape
  add_table-IsTables =
      let al = is.free_aligned in
      record {
        at_root = old_table 2 root is.at_root;
        free_aligned = omega arith;
        in_limit = room;
        limit_word = is.limit_word;
        below = below;
        zeros = λ x p q.
            store64-outside m (page + 8 * i) pte x (omega arith) ∙ is.zeros x (omega arith) q;
      }

  -- A walk in the new table finds nothing.
  fresh_walk : (addr k : ℕ) → k < 2 → leaf_of stored (walk_from direct stored addr k a.free) ≡ none
  unfolding walk_from leaf_of
  fresh_walk addr zero lt =
      let e =
        entry_at-IsTable stored root grown shape add_table-IsTables addr 0 level a.free new_table in
      rw (e, fresh_entry (pt_idx addr 0) (pt_idx-lt addr 0), zero-is_valid) refl
  fresh_walk addr (suc k) lt =
      let e =
        entry_at-IsTable stored root grown shape add_table-IsTables addr (suc k) level a.free
          new_table in
      rw (e, fresh_entry (pt_idx addr (suc k)) (pt_idx-lt addr (suc k)), zero-is_valid) refl

  kept_walk :
      (addr k t : ℕ)
      → k ≤ 2
      → IsTable s a k t
      → leaf_of stored (walk_from direct stored addr k t) ≡ leaf_of m (walk_from direct m addr k t)
  unfolding walk_from leaf_of
  kept_walk addr zero t le' tb =
      let e = entry_at-IsTable m root a s is addr 0 0 t tb in
      elim (other_entry t (pt_idx addr 0) 0 tb (pt_idx-lt addr 0)) [
        | inl (eq, ej) ↦ absurd (omega (arith, tab.3, tb.3, ap s.level eq))
        | inr kept ↦ rw (e, kept) refl
      ]
  kept_walk addr (suc k) t le' tb =
      let e = entry_at-IsTable m root a s is addr (suc k) (suc k) t tb in
      let j = pt_idx addr (suc k) in
      elim (other_entry t j (suc k) tb (pt_idx-lt addr (suc k))) [
        | inl (eq, ej) ↦
            let (valid, leads, word) = pte_facts in
            let here : t + 8 * j ≡ page + 8 * i = omega arith in
            let read : load64 stored (page + 8 * i) ≡ pte =
              load64-store64_self m (page + 8 * i) pte word in
            rw (e, here, read, valid, leads, bad) (fresh_walk addr k (omega arith))
        | inr kept ↦ elim (Bool-cases (is_valid (load64 m (t + 8 * j)))) [
          | inl valid ↦
              rw (e, kept, valid)
                (kept_walk addr k (pte_page (load64 m (t + 8 * j))) (omega arith)
                  (is.below k t j (omega arith) (pt_idx-lt addr (suc k)) tb valid).0)
          | inr not_valid ↦ rw (e, kept, not_valid) refl
        ]
      ]

  -- No address is mapped otherwise than before.
  pub add_table-translate : (addr : ℕ) → translate stored root addr ≡ translate m root addr
  unfolding translate
  add_table-translate addr = kept_walk addr 2 root (omega arith) is.at_root
