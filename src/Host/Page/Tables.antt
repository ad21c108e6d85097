-- ===== src/Host/Page/Tables.antt =====
-- Page tables in memory as a tree, and the partial map from virtual pages to entries that they stand
-- for.
use keystone_sdk.Base.{
  ℕ, zero, suc, ◌+◌, ◌*◌, ◌%◌, ◌≤◌, ◌<◌, ◌≡◌, ◌⊎◌, inl, inr, refl, arith, true, false, Option, none,
  some, Bool-cases, if◌then◌else◌, IsWord, ap, ◌∙◌,
}
use keystone_sdk.Memory.{Mem, load64, store64}
use keystone_sdk.Memory.Laws.{store64-outside}
use keystone_sdk.Host.Page.{Walked, entry, missing, walk_from, is_valid, pte_page, pt_idx, entry_at}
use keystone_sdk.Host.Page.Entries.{pt_idx-lt, entry_at-eq}

-- What each page of the enclave's memory is, and which entry leads to it: a table of a level, 2 at the
-- root, or a page of data, 3.
pub record Shape : Type 0 where
  pub level : ℕ → ℕ
  pub owner : ℕ → ℕ

-- The memory that page tables are taken from: the pages from `lo` to `free` are used, and those up to
-- `limit` are not yet.
pub record Arena : Type 0 where
  pub lo : ℕ
  pub free : ℕ
  pub limit : ℕ

abbrev pub IsTable : Shape → Arena → (level page : ℕ) → Type 0
IsTable s a level page =
    (a.lo ≤ page) × (page + 4096 ≤ a.free) × (page % 4096 ≡ 0) × (s.level page ≡ level)

-- The tables are a tree: a valid entry of an upper table leads to a table of the level below, which no
-- other entry leads to. The memory not yet used is zero.
pub record IsTables (m : Mem) (root : ℕ) (a : Arena) (s : Shape) : Type 0 where
  pub at_root : IsTable s a 2 root
  pub free_aligned : a.free % 4096 ≡ 0
  pub in_limit : a.free ≤ a.limit
  pub limit_word : IsWord a.limit
  pub below :
      (level page i : ℕ)
      → level < 2
      → i < 512
      → IsTable s a (suc level) page
      → is_valid (load64 m (page + 8 * i)) ≡ true
      → IsTable s a level (pte_page (load64 m (page + 8 * i)))
        × (s.owner (pte_page (load64 m (page + 8 * i))) ≡ page + 8 * i)
  pub zeros : (x : ℕ) → a.free ≤ x → x < a.limit → m x ≡ 0

-- The pointers of the model are addresses in the memory, as those of simulated memory are.
abbrev pub direct : ℕ → ℕ
direct a = a

-- The valid entry that the walk ends at.
unfoldable pub leaf_of : Mem → Walked → Option ℕ
leaf_of m (entry p) = if is_valid (load64 m p) then some (load64 m p) else none
leaf_of m (missing e) = none

-- The map from addresses to entries for which the tables at `root` stand.
unfoldable pub translate : Mem → (root addr : ℕ) → Option ℕ
translate m root addr = leaf_of m (walk_from direct m addr 2 root)

-- Where a walk in a tree of tables ends.
abbrev pub EndsIn : Mem → Shape → Arena → (addr : ℕ) → Walked → Type 0
EndsIn m s a addr (entry p) = (page : ℕ) × IsTable s a 0 page × (p ≡ page + 8 * pt_idx addr 0)
EndsIn m s a addr (missing e) =
    (page : ℕ) × (level : ℕ) × (level < 2)
    × IsTable s a (suc level) page
    × (e ≡ page + 8 * pt_idx addr (suc level))
    × (is_valid (load64 m e) ≡ false)

-- Entries of table pages are the same or do not overlap.
pub entries_apart :
    (p q i j : ℕ)
    → p % 4096 ≡ 0
    → q % 4096 ≡ 0
    → i < 512
    → j < 512
    → ((p ≡ q) × (i ≡ j)) ⊎ (p + 8 * i + 8 ≤ q + 8 * j) ⊎ (q + 8 * j + 8 ≤ p + 8 * i)
entries_apart p q i j hp hq hi hj = omega arith

-- Pages are the same or do not overlap.
pub pages_apart :
    (p q : ℕ) → p % 4096 ≡ 0 → q % 4096 ≡ 0 → (p ≡ q) ⊎ (p + 4096 ≤ q) ⊎ (q + 4096 ≤ p)
pages_apart p q hp hq = omega arith

-- Pages of data stay, with their bytes.
pub record KeepsData (m m' : Mem) (s s' : Shape) (a a' : Arena) : Type 0 where
  pub page :
      (q : ℕ) → IsTable s a 3 q → IsTable s' a' 3 q × ((i : ℕ) → i < 4096 → m' (q + i) ≡ m (q + i))

pub KeepsData-trans :
    {m m' m'' : Mem} {s s' s'' : Shape} {a a' a'' : Arena}
    → KeepsData m m' s s' a a'
    → KeepsData m' m'' s' s'' a' a''
    → KeepsData m m'' s s'' a a''
KeepsData-trans f g = record {
  page = λ q t.
      let (t', same) = f.page q t in
      let (t'', same') = g.page q t' in (t'', λ i h. same' i h ∙ same i h);
}

-- So they do when an entry of a table is stored.
pub store64-KeepsData :
    (m : Mem) (s : Shape) (a : Arena) (level page i v : ℕ)
    → level < 3
    → i < 512
    → IsTable s a level page
    → (q : ℕ) → IsTable s a 3 q
    → (j : ℕ) → j < 4096
    → store64 m (page + 8 * i) v (q + j) ≡ m (q + j)
store64-KeepsData m s a level page i v le idx tab q t j hj = elim (pages_apart page q tab.2 t.2) [
  | inl same ↦ absurd (omega (arith, tab.3, t.3, ap s.level same))
  | inr apart ↦ store64-outside m (page + 8 * i) v (q + j) (omega arith)
]

module _ (m : Mem) (root : ℕ) (a : Arena) (s : Shape) (is : IsTables m root a s) where
  -- The entry of a table, and where it leads.
  pub entry_at-IsTable :
      (addr level i t : ℕ) → IsTable s a i t → entry_at addr level t ≡ t + 8 * pt_idx addr level
  entry_at-IsTable addr level i t tab =
      let word = is.limit_word in
      let fits = is.in_limit in entry_at-eq addr level t tab.2 (omega arith)

  pub walk_from-EndsIn :
      (addr level t : ℕ)
      → level ≤ 2
      → IsTable s a level t
      → EndsIn m s a addr (walk_from direct m addr level t)
  unfolding walk_from
  walk_from-EndsIn addr zero t le tab = (t, tab, entry_at-IsTable addr 0 0 t tab)
  walk_from-EndsIn addr (suc level) t le tab =
      let e = entry_at-IsTable addr (suc level) (suc level) t tab in
      rw e (elim (Bool-cases (is_valid (load64 m (t + 8 * pt_idx addr (suc level))))) [
        | inl valid ↦ rw valid (
            walk_from-EndsIn addr level _ (omega arith)
              (is.below level t (pt_idx addr (suc level)) (omega arith) (pt_idx-lt addr (suc level))
                tab valid).0)
        | inr not_valid ↦ rw not_valid (t, level, omega arith, tab, refl, not_valid)
      ])
