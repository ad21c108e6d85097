-- ===== src/Host/Page/Create.antt =====
-- The walk that creates missing tables ends, and finds the entry.
use keystone_sdk.Base.{
  ℕ, zero, suc, ◌+◌, ◌*◌, ◌≤◌, ◌<◌, ◌≡◌, ◌⊎◌, refl, arith, false, Option, some, IsWord, ◌∙◌, add64,
}
use keystone_sdk.Memory.{Mem, load64, store64}
use keystone_sdk.Memory.Laws.{store64-outside}
use keystone_sdk.Host.Page.{
  Walked, entry, missing, walk_from, is_valid, pt_idx, entry_at, Pages, add_table, ept_walk_create,
  ptd_create, ppn,
}
use keystone_sdk.Host.Page.Entries.{pt_idx-lt}
use keystone_sdk.Host.Page.Tables.{
  Shape, Arena, IsTable, IsTables, direct, translate, EndsIn, walk_from-EndsIn, KeepsData,
  KeepsData-trans,
}
use keystone_sdk.Host.Page.Next.{added, added_shape, next_walk, added_walk}
use keystone_sdk.Host.Page.Added.{
  add_table-KeepsData, shape, add_table-IsTables, add_table-translate,
}

-- After a walk for `addr` that creates tables: the tables are a tree, the walk for `addr` ends at `p`, at
-- most `n` pages were taken, no mapping changed, and no memory outside the used pages.
pub record IsCreated (m : Mem) (root : ℕ) (a : Arena) (s : Shape) (addr n p : ℕ) (s' : Pages)
    : Type 0 where
  pub shape' : Shape
  pub tree : IsTables s'.mem root (record a { free = s'.free }) shape'
  pub found : walk_from direct s'.mem addr 2 root ≡ entry p
  pub more : a.free ≤ s'.free
  pub most : s'.free ≤ a.free + 4096 * n
  pub kept : (x : ℕ) → translate s'.mem root x ≡ translate m root x
  pub pages : KeepsData m s'.mem s shape' a (record a { free = s'.free })
  pub frame : (x : ℕ) → (x < a.lo) ⊎ (s'.free ≤ x) → s'.mem x ≡ m x

abbrev pub Created : Mem → (root : ℕ) → Arena → Shape → (addr n : ℕ) → Option (ℕ × Pages) → Type 0
Created m root a s addr n run =
    (p : ℕ) × (s' : Pages) × (run ≡ some (p, s')) × IsCreated m root a s addr n p s'

walk_from-zero : (m : Mem) (addr t : ℕ) → walk_from direct m addr 0 t ≡ entry (entry_at addr 0 t)
unfolding walk_from
walk_from-zero m addr t = refl

walk_from-missing :
    (m : Mem) (addr level t e : ℕ)
    → entry_at addr (suc level) t ≡ e
    → is_valid (load64 m e) ≡ false
    → walk_from direct m addr (suc level) t ≡ missing e
unfolding walk_from
walk_from-missing m addr level t e at empty = rw (at, empty) refl

ept_walk_create-entry :
    (fuel root addr p : ℕ) (s : Pages)
    → walk_from direct s.mem addr 2 root ≡ entry p
    → ept_walk_create direct (suc fuel) root addr s ≡ some (p, s)
unfolding ept_walk_create
ept_walk_create-entry fuel root addr p s e = rw (ept_walk_create, e) refl

ept_walk_create-add :
    (fuel root addr e : ℕ) (m : Mem) (free : ℕ)
    → IsWord (free + 4096)
    → walk_from direct m addr 2 root ≡ missing e
    → ept_walk_create direct (suc fuel) root addr (record { mem = m; free = free })
      ≡ ept_walk_create direct fuel root addr
          (record { mem = store64 m e (ptd_create (ppn free)); free = free + 4096 })
unfolding ept_walk_create add_table
ept_walk_create-add fuel root addr e m free word w =
    let sum : add64 free 4096 ≡ free + 4096 = omega arith in rw (ept_walk_create, w, sum) refl

ept_walk_create-missing :
    (level fuel : ℕ) (m : Mem) (root : ℕ) (a : Arena) (s : Shape)
    → IsTables m root a s
    → (page addr : ℕ) → level < 2
    → level + 1 < fuel
    → IsTable s a (suc level) page
    → is_valid (load64 m (page + 8 * pt_idx addr (suc level))) ≡ false
    → a.free + 4096 * (level + 1) ≤ a.limit
    → walk_from direct m addr 2 root ≡ missing (page + 8 * pt_idx addr (suc level))
    → Created m root a s addr
        (level + 1)
        (ept_walk_create direct fuel root addr (record { mem = m; free = a.free }))
ept_walk_create-missing level zero m root a s is page addr le f tab bad room e =
    absurd (omega arith)
ept_walk_create-missing level (suc zero) m root a s is page addr le f tab bad room e =
    absurd (omega arith)
ept_walk_create-missing zero (suc (suc fuel)) m root a s is page addr le f tab bad room e =
    let word = is.limit_word in
    let i = pt_idx addr 1 in
    let bi = pt_idx-lt addr 1 in
    let added0 = store64 m (page + 8 * i) (ptd_create (ppn a.free)) in
    let next =
      next_walk m root a s is page 0 addr le tab bad (omega arith) 2 root (omega arith) is.at_root e
      ∙ walk_from-zero added0 addr a.free in
    rw
      (
        ept_walk_create-add (suc fuel) root addr (page + 8 * i) m a.free (omega arith) e,
        ept_walk_create-entry fuel root addr (entry_at addr 0 a.free)
            (record { mem = added0; free = a.free + 4096 }) next,
      )
      (
        _,
        _,
        refl,
        record {
          shape' = shape m root a s is page i 0 le bi tab bad (omega arith);
          tree = add_table-IsTables m root a s is page i 0 le bi tab bad (omega arith);
          found = next;
          more = omega arith;
          most = omega arith;
          kept = add_table-translate m root a s is page i 0 le bi tab bad (omega arith);
          pages = add_table-KeepsData m root a s is page i 0 le bi tab bad (omega arith);
          frame = λ x o. store64-outside m (page + 8 * i) (ptd_create (ppn a.free)) x (omega arith);
        },
      )
ept_walk_create-missing (suc level) (suc (suc fuel)) m root a s is page addr le f tab bad room e =
    let word = is.limit_word in
    let i = pt_idx addr (suc (suc level)) in
    let bi = pt_idx-lt addr (suc (suc level)) in
    let room' : a.free + 4096 ≤ a.limit = omega arith in
    let added0 = store64 m (page + 8 * i) (ptd_create (ppn a.free)) in
    let (fresh, empty, at) = added_walk m root a s is page (suc level) addr le tab bad room' in
    let next =
      next_walk m root a s is page (suc level) addr le tab bad room' 2 root (omega arith) is.at_root
        e
      ∙ walk_from-missing added0 addr level a.free _ at empty in
    let tree = add_table-IsTables m root a s is page i (suc level) le bi tab bad room' in
    let (p, s', run, c) =
      ept_walk_create-missing level (suc fuel)
        (added m root a s is page (suc level) addr le tab bad room') root
        (record a { free = a.free + 4096 })
        (added_shape m root a s is page (suc level) addr le tab bad room') tree a.free addr
        (omega arith) (omega arith) fresh empty (omega arith) next in
    rw (ept_walk_create-add (suc fuel) root addr (page + 8 * i) m a.free (omega arith) e) (
      p,
      s',
      run,
      record {
        shape' = c.shape';
        tree = c.tree;
        found = c.found;
        more = omega (arith, c.more);
        most = omega (arith, c.most);
        kept = λ x.
            c.kept x ∙ add_table-translate m root a s is page i (suc level) le bi tab bad room' x;
        pages =
            KeepsData-trans
              (add_table-KeepsData m root a s is page i (suc level) le bi tab bad room') c.pages;
        frame = λ x o.
            c.frame x o
            ∙ store64-outside m (page + 8 * i) (ptd_create (ppn a.free)) x (omega (arith, c.more));
      },
    )

-- In a tree of tables with room for two more, the walk that creates tables ends within three rounds.
pub ept_walk_create-Created :
    (fuel : ℕ) (m : Mem) (root : ℕ) (a : Arena) (s : Shape) (addr : ℕ)
    → IsTables m root a s
    → 2 < fuel
    → a.free + 8192 ≤ a.limit
    → Created m root a s addr 2
        (ept_walk_create direct fuel root addr (record { mem = m; free = a.free }))
ept_walk_create-Created zero m root a s addr is f room = absurd (omega arith)
ept_walk_create-Created (suc fuel) m root a s addr is f room =
    go (walk_from direct m addr 2 root) refl
      (walk_from-EndsIn m root a s is addr 2 root (omega arith) is.at_root)
  where
    go :
        (w : Walked)
        → walk_from direct m addr 2 root ≡ w
        → EndsIn m s a addr w
        → Created m root a s addr 2
            (ept_walk_create direct (suc fuel) root addr (record { mem = m; free = a.free }))
    go (entry p) e ends =
        rw (ept_walk_create-entry fuel root addr p (record { mem = m; free = a.free }) e) (
          p,
          _,
          refl,
          record {
            shape' = s;
            tree = is;
            found = e;
            more = omega arith;
            most = omega arith;
            kept = λ x. refl;
            pages = record { page = λ q t. (t, λ j h. refl) };
            frame = λ x o. refl;
          },
        )
    go (missing e') e (page, level, le, tab, at, bad) =
        let (p, s', run, c) =
          ept_walk_create-missing level (suc fuel) m root a s is page addr le (omega arith) tab
            (rw at at bad) (omega arith) (rw at at e) in
        (
          p,
          s',
          run,
          record {
            shape' = c.shape';
            tree = c.tree;
            found = c.found;
            more = c.more;
            most = omega (arith, c.most);
            kept = c.kept;
            pages = c.pages;
            frame = c.frame;
          },
        )
