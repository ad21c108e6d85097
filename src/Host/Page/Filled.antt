-- ===== src/Host/Page/Filled.antt =====
-- A page of data taken behind the tables keeps the tree and all mappings.
use keystone_sdk.Base.{
  ℕ, zero, suc, ◌+◌, ◌*◌, ◌≤◌, ◌<◌, ◌≡◌, ◌⊎◌, inl, inr, refl, arith, true, false, Bool-cases, ◌==◌,
  ◌∙◌,
}
use keystone_sdk.Memory.{Mem, load64}
use keystone_sdk.Memory.Laws.{load64-ext}
use keystone_sdk.Host.Page.{walk_from, is_valid, pte_page, pt_idx}
use keystone_sdk.Host.Page.Entries.{pt_idx-lt}
use keystone_sdk.Host.Page.Tables.{
  Shape, Arena, IsTable, IsTables, direct, leaf_of, translate, entry_at-IsTable, KeepsData,
}
use keystone_sdk.Host.Page.Added.{with_page}

module _ (m n : Mem) (root : ℕ) (a : Arena) (s : Shape) (is : IsTables m root a s)
    (room : a.free + 4096 ≤ a.limit)
    (same : (x : ℕ) → (x < a.free) ⊎ (a.free + 4096 ≤ x) → n x ≡ m x) where
  abbrev pub filled : Arena
  filled = record a { free = a.free + 4096 }

  abbrev pub filled_shape : Shape
  filled_shape = with_page s a.free 3 0

  kept_entry :
      (level page i : ℕ)
      → IsTable s a level page
      → i < 512
      → load64 n (page + 8 * i) ≡ load64 m (page + 8 * i)
  kept_entry level page i t hi = load64-ext n m (page + 8 * i) (λ x p q. same x (omega arith))

  table_cases :
      (level q : ℕ) → level < 3 → IsTable filled_shape filled level q → IsTable s a level q
  table_cases level q le t = elim (Bool-cases (q == a.free)) [
    | inl new ↦ absurd (ground arith)
    | inr old ↦ let al = is.free_aligned in ground arith
  ]

  old_table : (level q : ℕ) → IsTable s a level q → IsTable filled_shape filled level q
  old_table level q t = let other : (q == a.free) ≡ false = ground arith in rw other (omega arith)

  -- The tree stays, with the page as data.
  pub filled-IsTables : IsTables n root filled filled_shape
  filled-IsTables =
      let al = is.free_aligned in
      record {
        at_root = old_table 2 root is.at_root;
        free_aligned = omega arith;
        in_limit = room;
        limit_word = is.limit_word;
        below = λ level q i lt hi t valid.
            let old = table_cases (suc level) q (omega arith) t in
            let kept = kept_entry (suc level) q i old hi in
            let (target, owned) = is.below level q i lt hi old (rw kept at valid) in
            let other : (pte_page (load64 m (q + 8 * i)) == a.free) ≡ false = ground arith in
            rw kept (old_table level _ target, rw other owned);
        zeros = λ x p q. same x (omega arith) ∙ is.zeros x (omega arith) q;
      }

  pub filled-KeepsData : KeepsData m n s filled_shape a filled
  filled-KeepsData = record { page = λ q t. (old_table 3 q t, λ i h. same (q + i) (omega arith)) }

  -- The page is one of data.
  pub filled_page : IsTable filled_shape filled 3 a.free
  filled_page =
      let self : (a.free == a.free) ≡ true = ground arith in
      let al = is.free_aligned in let low = is.at_root in rw self (omega arith)

  kept_walk :
      (x k t : ℕ)
      → k ≤ 2
      → IsTable s a k t
      → leaf_of n (walk_from direct n x k t) ≡ leaf_of m (walk_from direct m x k t)
  unfolding walk_from leaf_of
  kept_walk x zero t le tb =
      let e = entry_at-IsTable m root a s is x 0 0 t tb in
      rw (e, kept_entry 0 t (pt_idx x 0) tb (pt_idx-lt x 0)) refl
  kept_walk x (suc k) t le tb =
      let e = entry_at-IsTable m root a s is x (suc k) (suc k) t tb in
      let j = pt_idx x (suc k) in
      let kept = kept_entry (suc k) t j tb (pt_idx-lt x (suc k)) in
      elim (Bool-cases (is_valid (load64 m (t + 8 * j)))) [
        | inl valid ↦
            rw (e, kept, valid)
              (kept_walk x k (pte_page (load64 m (t + 8 * j))) (omega arith)
                (is.below k t j (omega arith) (pt_idx-lt x (suc k)) tb valid).0)
        | inr not_valid ↦ rw (e, kept, not_valid) refl
      ]

  -- No mapping changes.
  pub filled-translate : (x : ℕ) → translate n root x ≡ translate m root x
  unfolding translate
  filled-translate x = kept_walk x 2 root (omega arith) is.at_root
