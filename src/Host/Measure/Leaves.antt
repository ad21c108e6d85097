-- ===== src/Host/Measure/Leaves.antt =====
-- The mappings that a page table holds, and what it means that they rise.
use keystone_sdk.Base.{
  ℕ, zero, suc, ◌+◌, ◌*◌, ◌≤◌, ◌<◌, ◌≡◌, ◌≢◌, ◌⊎◌, arith, Bool, true, List, [], ◌∷◌, ◌++◌, ◌==◌,
  if◌then◌else◌, bit_and,
}
use keystone_sdk.Memory.{Mem, load64}
use keystone_sdk.Host.Measure.{
  HashEnclave, Walk, pte_user, table_entries, phys_addr, virtual_page, page_address, map_in_utm,
  in_runtime, in_user, in_untrusted,
}

-- A mapping that the page table holds: the entry, and the virtual and physical address.
pub record Leaf : Type 0 where
  pub entry : ℕ
  pub va : ℕ
  pub pa : ℕ

-- What the table's entries map, in order, whether it is valid or not.
unfoldable pub entry_leaves :
    (descend : (tb vaddr : ℕ) → List Leaf) → (level i pte vaddr : ℕ) → List Leaf
entry_leaves descend level i pte vaddr =
    let phys = phys_addr pte in
    let vpn = virtual_page level i vaddr in
    if pte == 0
    then []
    else if level == 1
    then record { entry = pte; va = page_address vpn; pa = phys } ∷ []
    else descend phys vpn

module _ (m : Mem) where
  unfoldable pub table_leaves :
      (descend : (tb vaddr : ℕ) → List Leaf) → (level left i tb vaddr : ℕ) → List Leaf
  table_leaves descend level zero i tb vaddr = []
  table_leaves descend level (suc left) i tb vaddr =
      entry_leaves descend level i (load64 m (tb + 8 * i)) vaddr
      ++ table_leaves descend level left (i + 1) tb vaddr

  unfoldable pub leaves : (below tb vaddr : ℕ) → List Leaf
  leaves zero tb vaddr = table_leaves (λ _ _. []) 1 table_entries 0 tb vaddr
  leaves (suc below) tb vaddr = table_leaves (leaves below) (below + 2) table_entries 0 tb vaddr

-- The physical addresses, of those mappings that `P` selects, rise strictly from above `lo` to at
-- most `hi`.
abbrev pub Rises : (P : Leaf → Bool) → (lo : ℕ) → List Leaf → (hi : ℕ) → Type 0
Rises P lo [] hi = lo ≤ hi
Rises P lo (l ∷ ls) hi =
    (mid : ℕ) × (lo ≤ mid) × (P l ≡ true → (lo < l.pa) × (l.pa ≤ mid)) × Rises P mid ls hi

Rises-++ :
    (P : Leaf → Bool) (lo mid hi : ℕ) (xs ys : List Leaf)
    → Rises P lo xs mid
    → Rises P mid ys hi
    → Rises P lo (xs ++ ys) hi
Rises-++ P lo mid hi [] [] q r = omega arith
Rises-++ P lo mid hi [] (y ∷ ys) q (n, le, p, r) = (n, omega arith, λ e. omega (arith, p e), r)
Rises-++ P lo mid hi (x ∷ xs) ys (n, le, p, q) r = (n, le, p, Rises-++ P n mid hi xs ys q r)

-- Every mapping of the list satisfies `Q`.
abbrev pub Every : (Leaf → Type 0) → List Leaf → Type 0
Every Q [] = Unit
Every Q (l ∷ ls) = Q l × Every Q ls

Every-++ : (Q : Leaf → Type 0) (xs ys : List Leaf) → Every Q xs → Every Q ys → Every Q (xs ++ ys)
Every-++ Q [] ys q r = r
Every-++ Q (x ∷ xs) ys (p, q) r = (p, Every-++ Q xs ys q r)

-- Mappings selected by `P` rise: a later one has a larger physical address.
abbrev pub Linear : (Leaf → Bool) → List Leaf → Type 0
Linear P [] = Unit
Linear P (l ∷ ls) = (P l ≡ true → Every (λ k. P k ≡ true → l.pa < k.pa) ls) × Linear P ls

Rises-Every :
    (P : Leaf → Bool) (p lo hi : ℕ) (ls : List Leaf)
    → p ≤ lo
    → Rises P lo ls hi
    → Every (λ k. P k ≡ true → p < k.pa) ls
Rises-Every P p lo hi [] le r = tt
Rises-Every P p lo hi (l ∷ ls) le (mid, up, q, r) =
    (λ e. omega (arith, q e), Rises-Every P p mid hi ls (omega arith) r)

pub Rises-Linear : (P : Leaf → Bool) (lo hi : ℕ) (ls : List Leaf) → Rises P lo ls hi → Linear P ls
Rises-Linear P lo hi [] r = tt
Rises-Linear P lo hi (l ∷ ls) (mid, up, q, r) =
    (λ e. Rises-Every P l.pa mid hi ls (q e).1 r, Rises-Linear P mid hi ls r)

module _ (c : HashEnclave) where
  abbrev pub runtime_leaf : Leaf → Bool
  runtime_leaf l = in_runtime c l.pa

  -- Pages of the application; those below `user_paddr` are the runtime's.
  abbrev pub user_leaf : Leaf → Bool
  user_leaf l = in_user c l.pa

  -- The page is the runtime's, the application's or shared; an application's page is open to
  -- user mode; and untrusted addresses map to shared pages.
  pub record IsValid (l : Leaf) : Type 0 where
    pub placed : (in_runtime c l.pa ≡ true) ⊎ (in_user c l.pa ≡ true) ⊎ (map_in_utm c l.pa ≡ true)
    pub user_bit : in_user c l.pa ≡ true → bit_and l.entry pte_user ≢ 0
    pub shared : in_untrusted c l.va ≡ true → map_in_utm c l.pa ≡ true

  -- What a walk without -1 shows of the mappings it met.
  pub record Accepted {H : Type 0} (w : Walk H) (ls : List Leaf) (w' : Walk H) : Type 0 where
    pub valid : Every IsValid ls
    pub runtime : Rises runtime_leaf w.runtime_max ls w'.runtime_max
    pub user : Rises user_leaf w.user_max ls w'.user_max

  pub Accepted-++ :
      {H : Type 0} (u v w : Walk H) (xs ys : List Leaf)
      → Accepted u xs v
      → Accepted v ys w
      → Accepted u (xs ++ ys) w
  Accepted-++ u v w xs ys p q = record {
    valid = Every-++ IsValid xs ys p.valid q.valid;
    runtime =
        Rises-++ runtime_leaf u.runtime_max v.runtime_max w.runtime_max xs ys p.runtime q.runtime;
    user = Rises-++ user_leaf u.user_max v.user_max w.user_max xs ys p.user q.user;
  }
