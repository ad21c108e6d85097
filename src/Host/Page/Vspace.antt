-- ===== src/Host/Page/Vspace.antt =====
-- `epm_alloc_vspace` of lib/host/include/page.h adds the tables for a range of pages, and maps nothing.
use keystone_sdk.Base.{
  ℕ, zero, suc, ◌+◌, ◌*◌, ◌≤◌, ◌<◌, ◌≡◌, refl, arith, false, some, ◌==◌, ◌∙◌, add64,
}
use keystone_sdk.Memory.{Mem}
use keystone_sdk.Host.Page.{Pages, ept_walk_create, alloc_vspace_loop, epm_alloc_vspace}
use keystone_sdk.Host.Page.Tables.{
  Shape, Arena, IsTables, direct, translate, walk_from-EndsIn, KeepsData, KeepsData-trans,
}
use keystone_sdk.Host.Page.Create.{ept_walk_create-Created}

-- Tables were added, in at most `most` bytes: they are a tree, no mapping changed, and pages of data stay.
pub record IsReserved (m : Mem) (root : ℕ) (a : Arena) (s : Shape) (most : ℕ) (s' : Pages)
    : Type 0 where
  pub shape' : Shape
  pub tree : IsTables s'.mem root (record a { free = s'.free }) shape'
  pub more : a.free ≤ s'.free
  pub bound : s'.free ≤ a.free + most
  pub kept : (x : ℕ) → translate s'.mem root x ≡ translate m root x
  pub pages : KeepsData m s'.mem s shape' a (record a { free = s'.free })

alloc_vspace_loop-step :
    (fuel left count root addr p : ℕ) (s s' : Pages)
    → ept_walk_create direct fuel root addr s ≡ some (p, s')
    → (p == 0) ≡ false
    → alloc_vspace_loop direct fuel (suc left) count root addr s
      ≡ alloc_vspace_loop direct fuel left (count + 1) root (add64 addr 4096) s'
unfolding alloc_vspace_loop
alloc_vspace_loop-step fuel left count root addr p s s' run nonzero =
    rw (alloc_vspace_loop, run, nonzero) refl

alloc_vspace_loop-Reserved :
    (left fuel count addr : ℕ) (m : Mem) (root : ℕ) (a : Arena) (s : Shape)
    → IsTables m root a s
    → 0 < a.lo
    → 2 < fuel
    → a.free + 8192 * left ≤ a.limit
    → (s' : Pages) × (alloc_vspace_loop direct fuel left count root addr
          (record { mem = m; free = a.free })
        ≡ some (count + left, s'))
      × IsReserved m root a s (8192 * left) s'
unfolding alloc_vspace_loop
alloc_vspace_loop-Reserved zero fuel count addr m root a s is low f room =
    let done : count + 0 ≡ count = omega arith in
    (
      _,
      rw done refl,
      record {
        shape' = s;
        tree = is;
        more = omega arith;
        bound = omega arith;
        kept = λ x. refl;
        pages = record { page = λ q t. (t, λ i h. refl) };
      },
    )
alloc_vspace_loop-Reserved (suc left) fuel count addr m root a s is low f room =
    let (p, s1, run, c) = ept_walk_create-Created fuel m root a s addr is f (omega arith) in
    let a1 = record a { free = s1.free } in
    let (page, tab, here) =
      rw c.found at (
        walk_from-EndsIn s1.mem root a1 c.shape' c.tree addr 2 root (omega arith) c.tree.at_root) in
    let nonzero : (p == 0) ≡ false = ground arith in
    let (s2, rest, r) =
      alloc_vspace_loop-Reserved left fuel (count + 1) (add64 addr 4096) s1.mem root a1 c.shape'
        c.tree low f (omega (arith, c.most)) in
    let total : count + 1 + left ≡ count + suc left = omega arith in
    (
      s2,
      alloc_vspace_loop-step fuel left count root addr p _ s1 run nonzero ∙ rw total at rest,
      record {
        shape' = r.shape';
        tree = r.tree;
        more = omega (arith, c.more, r.more);
        bound = omega (arith, c.most, r.bound);
        kept = λ x. r.kept x ∙ c.kept x;
        pages = KeepsData-trans c.pages r.pages;
      },
    )

-- In a tree of tables that does not start at address 0, with room for two tables per page, all pages asked
-- for are counted, the tables stay a tree, no mapping changes, and pages of data stay.
pub epm_alloc_vspace-IsReserved :
    (num_pages fuel addr : ℕ) (m : Mem) (root : ℕ) (a : Arena) (s : Shape)
    → IsTables m root a s
    → 0 < a.lo
    → 2 < fuel
    → a.free + 8192 * num_pages ≤ a.limit
    → (s' : Pages) × (epm_alloc_vspace direct fuel root addr num_pages
          (record { mem = m; free = a.free })
        ≡ some (num_pages, s'))
      × IsReserved m root a s (8192 * num_pages) s'
unfolding epm_alloc_vspace
epm_alloc_vspace-IsReserved num_pages fuel addr m root a s is low f room =
    let (s', run, r) = alloc_vspace_loop-Reserved num_pages fuel 0 addr m root a s is low f room in
    let all : 0 + num_pages ≡ num_pages = omega arith in (s', rw all at run, r)
