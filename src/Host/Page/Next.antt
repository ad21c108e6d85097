-- ===== src/Host/Page/Next.antt =====
-- The walk that misses an entry goes on in the table that is added there.
use keystone_sdk.Base.{
  ℕ, zero, suc, ◌+◌, ◌*◌, ◌≤◌, ◌<◌, ◌≡◌, inl, inr, refl, arith, false, Bool-cases, ◌∙◌, sym, ap,
}
use keystone_sdk.Memory.{Mem, load64}
use keystone_sdk.Memory.Laws.{load64-store64_self}
use keystone_sdk.Host.Page.{
  missing, walk_from, is_valid, pte_page, pt_idx, entry_at, ptd_create, ppn,
}
use keystone_sdk.Host.Page.Entries.{pt_idx-lt, zero-is_valid}
use keystone_sdk.Host.Page.Tables.{Shape, Arena, IsTable, IsTables, direct, entry_at-IsTable}
use keystone_sdk.Host.Page.Added.{
  stored, shape, pte_facts, other_entry, fresh_entry, new_table, add_table-IsTables,
}

missing-injective : {p q : ℕ} → missing p ≡ missing q → p ≡ q
missing-injective e = cc

module _ (m : Mem) (root : ℕ) (a : Arena) (s : Shape) (is : IsTables m root a s)
    (page level addr : ℕ) (le : level < 2) (tab : IsTable s a (suc level) page)
    (bad : is_valid (load64 m (page + 8 * pt_idx addr (suc level))) ≡ false)
    (room : a.free + 4096 ≤ a.limit) where
  abbrev pub added : Mem
  added =
      stored m root a s is page (pt_idx addr (suc level)) level le (pt_idx-lt addr (suc level)) tab
        bad room

  abbrev pub added_shape : Shape
  added_shape =
      shape m root a s is page (pt_idx addr (suc level)) level le (pt_idx-lt addr (suc level)) tab
        bad room

  abbrev pub added_arena : Arena
  added_arena = record a { free = a.free + 4096 }

  -- The walk that missed the entry goes on in the new table.
  pub next_walk :
      (k t : ℕ)
      → k ≤ 2
      → IsTable s a k t
      → walk_from direct m addr k t ≡ missing (page + 8 * pt_idx addr (suc level))
      → walk_from direct added addr k t ≡ walk_from direct added addr level a.free
  unfolding walk_from
  next_walk zero t le' tb e = cc
  next_walk (suc k) t le' tb e =
      let at = entry_at-IsTable m root a s is addr (suc k) (suc k) t tb in
      let i = pt_idx addr (suc level) in
      let j = pt_idx addr (suc k) in
      let (valid, leads, word) =
        pte_facts m root a s is page i level le (pt_idx-lt addr (suc level)) tab bad room in
      let read : load64 added (page + 8 * i) ≡ ptd_create (ppn a.free) =
        load64-store64_self m (page + 8 * i) (ptd_create (ppn a.free)) word in
      elim (Bool-cases (is_valid (load64 m (t + 8 * j)))) [
        | inl good ↦
            elim (other_entry m root a s is page i level le (pt_idx-lt addr (suc level)) tab bad
              room t j (suc k) tb (pt_idx-lt addr (suc k))) [
                | inl (et, ej) ↦
                    let same : t + 8 * j ≡ page + 8 * i = omega arith in
                    cc (sym good ∙ ap (λ (x : ℕ). is_valid (load64 m x)) same ∙ bad)
                | inr kept ↦
                    rw (at, kept, good)
                      (next_walk k (pte_page (load64 m (t + 8 * j))) (omega arith)
                        (is.below k t j (omega arith) (pt_idx-lt addr (suc k)) tb good).0
                        (rw (at, good) at e))
              ]
        | inr not_good ↦
            let same = missing-injective (rw (at, not_good) at e) in
            let bi = pt_idx-lt addr (suc level) in
            let bj = pt_idx-lt addr (suc k) in
            let here : t ≡ page = omega arith in
            let levels : k ≡ level = omega (arith, tab.3, tb.3, ap s.level here) in
            rw (at, same, read, valid, leads, levels) refl
      ]

  -- There it ends, or misses the entry of that table.
  pub added_walk :
      (IsTable added_shape added_arena level a.free)
      × (is_valid (load64 added (a.free + 8 * pt_idx addr level)) ≡ false)
      × (entry_at addr level a.free ≡ a.free + 8 * pt_idx addr level)
  added_walk =
      let i = pt_idx addr (suc level) in
      let bi = pt_idx-lt addr (suc level) in
      let tree = add_table-IsTables m root a s is page i level le bi tab bad room in
      let t = new_table m root a s is page i level le bi tab bad room in
      (
        t,
        ap is_valid (
              fresh_entry m root a s is page i level le bi tab bad room (pt_idx addr level)
                (pt_idx-lt addr level))
            ∙ zero-is_valid,
        entry_at-IsTable added root added_arena added_shape tree addr level level a.free t,
      )
