-- ===== src/Host/Page/Leaf.antt =====
-- An entry put at the end of a walk maps one page, and changes no other mapping.
use keystone_sdk.Base.{
  ℕ, zero, suc, ◌+◌, ◌*◌, ◌/◌, ◌%◌, ◌^◌, ◌≤◌, ◌<◌, ◌≡◌, ◌≢◌, inl, inr, refl, arith, Bool, true,
  some, Bool-cases, if◌then◌else◌, IsWord, ◌==◌, ◌∙◌, sym, ap,
}
use keystone_sdk.Base.Bits.{bit_and-low_ones}
use keystone_sdk.Memory.{Mem, load64, store64}
use keystone_sdk.Memory.Laws.{load64-store64_self, load64-store64_ne, store64-outside}
use keystone_sdk.Host.Page.{Walked, entry, missing, walk_from, is_valid, pte_page, pt_idx, entry_at}
use keystone_sdk.Host.Page.Entries.{pt_idx-lt}
use keystone_sdk.Host.Page.Tables.{
  Shape, Arena, IsTable, IsTables, direct, leaf_of, translate, EndsIn, entries_apart,
  entry_at-IsTable, walk_from-EndsIn, KeepsData, store64-KeepsData,
}

-- Two addresses of one virtual page, in the 39 digits that are translated.
abbrev pub same_page : ℕ → ℕ → Bool
same_page x y = x / 4096 % 2 ^ 27 == y / 4096 % 2 ^ 27

-- The indices agree at the levels up to `level`.
abbrev SameIndices : (level x y : ℕ) → Type 0
SameIndices zero x y = pt_idx x 0 ≡ pt_idx y 0
SameIndices (suc level) x y = (pt_idx x (suc level) ≡ pt_idx y (suc level)) × SameIndices level x y

pt_idx-eq : (x level : ℕ) → pt_idx x level ≡ x / 2 ^ (9 * level + 12) % 512
unfolding pt_idx
pt_idx-eq x level = bit_and-low_ones 9 (x / 2 ^ (9 * level + 12))

SameIndices-same_page_iff :
    (x y : ℕ)
    → (SameIndices 2 x y → same_page x y ≡ true) × (same_page x y ≡ true → SameIndices 2 x y)
SameIndices-same_page_iff x y =
    let x0 = pt_idx-eq x 0 in
    let x1 = pt_idx-eq x 1 in
    let x2 = pt_idx-eq x 2 in
    let y0 = pt_idx-eq y 0 in
    let y1 = pt_idx-eq y 1 in let y2 = pt_idx-eq y 2 in (λ h. ground arith, λ h. ground arith)

-- Addresses with the same indices are walked alike.
walk_from-SameIndices :
    (m : Mem) (x y level t : ℕ)
    → SameIndices level x y
    → walk_from direct m x level t ≡ walk_from direct m y level t
unfolding walk_from entry_at
walk_from-SameIndices m x y zero t h = rw h refl
walk_from-SameIndices m x y (suc level) t (h, hs) =
    rw (h, walk_from-SameIndices m x y level (pte_page (load64 m (entry_at y (suc level) t))) hs)
      refl

-- A walk that ends at an entry passed through a valid one.
walk_from-passed :
    (m : Mem) (x level t p : ℕ)
    → walk_from direct m x (suc level) t ≡ entry p
    → (is_valid (load64 m (entry_at x (suc level) t)) ≡ true)
      × (walk_from direct m x level (pte_page (load64 m (entry_at x (suc level) t))) ≡ entry p)
unfolding walk_from
walk_from-passed m x level t p h =
    elim (Bool-cases (is_valid (load64 m (entry_at x (suc level) t)))) [
      | inl valid ↦ (valid, rw valid at h)
      | inr not_valid ↦ absurd (let h' = rw not_valid at h in cc)
    ]

entry-injective : {p q : ℕ} → entry p ≡ entry q → p ≡ q
entry-injective e = cc

module _ (m : Mem) (root : ℕ) (a : Arena) (s : Shape) (is : IsTables m root a s) where
  -- In a tree, walks that end at the same entry came the same way.
  walk_from_unique :
      (x y level t u p : ℕ)
      → level ≤ 2
      → IsTable s a level t
      → IsTable s a level u
      → walk_from direct m x level t ≡ entry p
      → walk_from direct m y level u ≡ entry p
      → (t ≡ u) × SameIndices level x y
  unfolding walk_from
  walk_from_unique x y zero t u p le tt' tu ex ey =
      let ax = sym (entry_at-IsTable m root a s is x 0 0 t tt') ∙ entry-injective ex in
      let ay = sym (entry_at-IsTable m root a s is y 0 0 u tu) ∙ entry-injective ey in
      let bx = pt_idx-lt x 0 in let by = pt_idx-lt y 0 in (omega arith, omega arith)
  walk_from_unique x y (suc level) t u p le tt' tu ex ey =
      let ax = entry_at-IsTable m root a s is x (suc level) (suc level) t tt' in
      let ay = entry_at-IsTable m root a s is y (suc level) (suc level) u tu in
      let (vx, wx) = walk_from-passed m x level t p ex in
      let (vy, wy) = walk_from-passed m y level u p ey in
      let (target_x, owner_x) =
        is.below level t (pt_idx x (suc level)) (omega arith) (pt_idx-lt x (suc level)) tt'
          (rw ax at vx) in
      let (target_y, owner_y) =
        is.below level u (pt_idx y (suc level)) (omega arith) (pt_idx-lt y (suc level)) tu
          (rw ay at vy) in
      let (same, below) =
        walk_from_unique x y level _ _ p (omega arith) target_x target_y (rw ax at wx)
          (rw ay at wy) in
      let owners = sym owner_x ∙ ap s.owner same ∙ owner_y in
      let bx = pt_idx-lt x (suc level) in
      let by = pt_idx-lt y (suc level) in (omega arith, (omega arith, below))

  module _ (page i v : ℕ) (idx : i < 512) (tab : IsTable s a 0 page) (word : IsWord v) where
    abbrev stored : Mem
    stored = store64 m (page + 8 * i) v

    -- Entries of the upper tables stay.
    upper_entry :
        (k q j : ℕ)
        → IsTable s a (suc k) q
        → j < 512
        → load64 stored (q + 8 * j) ≡ load64 m (q + 8 * j)
    upper_entry k q j t hj = elim (entries_apart q page j i t.2 tab.2 hj idx) [
      | inl (eq, ej) ↦ absurd (omega (arith, tab.3, t.3, ap s.level eq))
      | inr apart ↦ load64-store64_ne m (page + 8 * i) (q + 8 * j) v (omega arith)
    ]

    pub set_leaf-IsTables : IsTables stored root a s
    set_leaf-IsTables = record {
      at_root = is.at_root;
      free_aligned = is.free_aligned;
      in_limit = is.in_limit;
      limit_word = is.limit_word;
      below = λ k q j lt hj t valid.
          let kept = upper_entry k q j t hj in rw kept (is.below k q j lt hj t (rw kept at valid));
      zeros = λ x p q. store64-outside m (page + 8 * i) v x (omega arith) ∙ is.zeros x p q;
    }

    pub set_leaf-KeepsData : KeepsData m stored s s a a
    set_leaf-KeepsData = record {
      page = λ q t. (t, store64-KeepsData m s a 0 page i v (omega arith) idx tab q t);
    }

    kept_walk :
        (x k t : ℕ)
        → k ≤ 2
        → IsTable s a k t
        → walk_from direct stored x k t ≡ walk_from direct m x k t
    unfolding walk_from
    kept_walk x zero t le tb = refl
    kept_walk x (suc k) t le tb =
        let e = entry_at-IsTable m root a s is x (suc k) (suc k) t tb in
        let j = pt_idx x (suc k) in
        let kept = upper_entry k t j tb (pt_idx-lt x (suc k)) in
        elim (Bool-cases (is_valid (load64 m (t + 8 * j)))) [
          | inl valid ↦
              rw (e, kept, valid)
                (kept_walk x k (pte_page (load64 m (t + 8 * j))) (omega arith)
                  (is.below k t j (omega arith) (pt_idx-lt x (suc k)) tb valid).0)
          | inr not_valid ↦ rw (e, kept, not_valid) refl
        ]

    -- Where a walk does not end at the entry, what it finds stays.
    other_leaf :
        (x : ℕ) (w : Walked)
        → EndsIn m s a x w
        → w ≢ entry (page + 8 * i)
        → leaf_of stored w ≡ leaf_of m w
    unfolding leaf_of
    other_leaf x (missing e) ends ne = refl
    other_leaf x (entry p) (q, t, e) ne =
        elim (entries_apart q page (pt_idx x 0) i t.2 tab.2 (pt_idx-lt x 0) idx) [
          | inl (eq, ej) ↦ absurd (ne (ap entry (omega arith)))
          | inr apart ↦
              let kept = load64-store64_ne m (page + 8 * i) p v (omega arith) in rw kept refl
        ]

    -- The entry maps the page that the walk was for, and the other mappings stay.
    pub set_leaf-translate :
        (addr x : ℕ)
        → is_valid v ≡ true
        → walk_from direct m addr 2 root ≡ entry (page + 8 * i)
        → translate stored root x ≡ (if same_page addr x then some v else translate m root x)
    unfolding translate
    set_leaf-translate addr x valid here =
        let kept = kept_walk x 2 root (omega arith) is.at_root in
        elim (Bool-cases (same_page addr x)) [
          | inl same ↦
              let w =
                walk_from-SameIndices m addr x 2 root ((SameIndices-same_page_iff addr x).1 same) in
              rw (same, kept, ← w, here)
                (unfold leaf_of in rw (load64-store64_self m (page + 8 * i) v word, valid) refl)
          | inr other ↦
              rw (other, kept)
                (other_leaf x (walk_from direct m x 2 root)
                  (walk_from-EndsIn m root a s is x 2 root (omega arith) is.at_root)
                  (λ there.
                    let u =
                      walk_from_unique addr x 2 root root (page + 8 * i) (omega arith) is.at_root
                        is.at_root here there in
                    cc (sym other ∙ (SameIndices-same_page_iff addr x).0 u.1)))
        ]

-- Addresses of one virtual page have the same mapping.
pub translate-same_page :
    (m : Mem) (root x y : ℕ) → same_page x y ≡ true → translate m root x ≡ translate m root y
unfolding translate
translate-same_page m root x y h =
    ap (leaf_of m) (walk_from-SameIndices m x y 2 root ((SameIndices-same_page_iff x y).1 h))
