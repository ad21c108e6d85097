-- ===== src/Host/Load/Content.antt =====
-- What the mapped memory of a simulated enclave holds, as `allocPage` of lib/host/src/keystone.cpp adds
-- pages to it.
use keystone_sdk.Base.{
  ℕ, ◌+◌, ◌-◌, ◌*◌, ◌%◌, ◌^◌, ◌≤◌, ◌<◌, ◌≡◌, ◌⊎◌, inl, inr, refl, arith, true, false, none, some,
  Bool-cases, ◌∙◌,
}
use keystone_sdk.Host.Page.{pte_create, ppn, pte_page}
use keystone_sdk.Host.Page.Entries.{pte_page-pte_create}
use keystone_sdk.Host.Page.Tables.{IsTable}
use keystone_sdk.Host.Page.Leaf.{same_page, translate-same_page}
use keystone_sdk.Host.Enclave.{Keystone}
use keystone_sdk.Host.Enclave.Alloc.{space, IsSpace, mapping, IsAllocated}

module _ {E S : Type 0} (lo limit : ℕ) where
  -- The address is mapped to a page of data, which holds the byte there.
  abbrev pub Holds : (k : Keystone E S) → IsSpace lo limit k → (x byte : ℕ) → Type 0
  Holds k is x byte =
      (e : ℕ) × (mapping k x ≡ some e)
      × IsTable is.shape (space lo limit k) 3 (pte_page e)
      × (k.mem (pte_page e + x % 4096) ≡ byte)

  -- `n` pages were added from `va` on, and hold these bytes. What was held before still is, and within
  -- the range that one table tree can map no later address is mapped otherwise.
  pub record IsFilled (k : Keystone E S) (is : IsSpace lo limit k) (va n : ℕ) (byte : ℕ → ℕ)
      (k' : Keystone E S) : Type 0 where
    pub after : IsSpace lo limit k'
    pub more : k.epm_free_list ≤ k'.epm_free_list
    pub bound : k'.epm_free_list ≤ k.epm_free_list + 12288 * n
    pub kept : (x b : ℕ) → Holds k is x b → Holds k' after x b
    pub holds : (j : ℕ) → j < 4096 * n → Holds k' after (va + j) (byte j)
    pub rest : (x : ℕ) → va + 4096 * n ≤ x → x < va + 2 ^ 39 → mapping k' x ≡ mapping k x

  pub IsFilled-none :
      (k : Keystone E S) (is : IsSpace lo limit k) (va : ℕ) (byte : ℕ → ℕ)
      → IsFilled k is va 0 byte k
  IsFilled-none k is va byte = record {
    after = is;
    more = omega arith;
    bound = omega arith;
    kept = λ x b h. h;
    holds = λ j h. absurd (omega arith);
    rest = λ x l h. refl;
  }

  pub IsFilled-trans :
      (k k' k'' : Keystone E S) (is : IsSpace lo limit k) (va n n' : ℕ) (byte : ℕ → ℕ)
      (f : IsFilled k is va n byte k')
      → IsFilled k' f.after (va + 4096 * n) n' (λ j. byte (4096 * n + j)) k''
      → IsFilled k is va (n + n') byte k''
  IsFilled-trans k k' k'' is va n n' byte f g = record {
    after = g.after;
    more = omega (arith, f.more, g.more);
    bound = omega (arith, f.bound, g.bound);
    kept = λ x b h. g.kept x b (f.kept x b h);
    holds = λ j h. elim (split j) [
      | inl low ↦ g.kept (va + j) (byte j) (f.holds j low)
      | inr (i, at) ↦
          let there : va + 4096 * n + i ≡ va + j = omega arith in
          rw (there, ← at) at (g.holds i (omega arith))
    ];
    rest = λ x l h. g.rest x (omega arith) (omega arith) ∙ f.rest x (omega arith) h;
  }
    where
      below : (j : ℕ) → (j < 4096 * n) ⊎ (4096 * n ≤ j)
      below j = omega arith

      split : (j : ℕ) → (j < 4096 * n) ⊎ ((i : ℕ) × (j ≡ 4096 * n + i))
      split j = elim (below j) [ inl low ↦ inl low | inr high ↦ inr (j - 4096 * n, omega arith) ]

  module _ (k k' : Keystone E S) (is : IsSpace lo limit k) (va flags : ℕ) (content byte : ℕ → ℕ)
      (done : IsAllocated lo limit k k' is va flags true content) (low : flags < 1024)
      (al : va % 4096 ≡ 0) (free : mapping k va ≡ none)
      (same : (j : ℕ) → j < 4096 → content j ≡ byte j) where
    alloc-kept : (x b : ℕ) → Holds k is x b → Holds k' done.after x b
    alloc-kept x b (e, at, t, is_b) =
        let (t', bytes) = done.pages.page (pte_page e) t in
        let m : mapping k' x ≡ mapping k x = elim done.outcome [
          | inl (old, mapped, kept) ↦ kept x
          | inr (page, none_yet, lw, high, maps, filled) ↦ elim (Bool-cases (same_page va x)) [
            | inl here ↦
                absurd (let u = translate-same_page k.mem k.root_page_table va x here in cc)
            | inr there ↦ rw (maps x, there) refl
          ]
        ] in
        (e, m ∙ at, t', bytes (x % 4096) (omega arith) ∙ is_b)

    alloc-Holds : (j : ℕ) → j < 4096 * 1 → Holds k' done.after (va + j) (byte j)
    alloc-Holds j h = elim done.outcome [
      | inl (old, mapped, kept) ↦ absurd cc
      | inr (page, none_yet, lw, high, maps, filled) ↦
          let here : same_page va (va + j) ≡ true = ground arith in
          let t = done.fresh page free high in
          let word = done.after.tree.limit_word in
          let fits = done.after.tree.in_limit in
          let to : pte_page (pte_create (ppn page) flags) ≡ page =
            pte_page-pte_create page flags t.2 (omega arith) low in
          let off : (va + j) % 4096 ≡ j = omega arith in
          (
            pte_create (ppn page) flags,
            rw (maps (va + j), here) refl,
            rw to t,
            rw (to, off) (filled refl j (omega arith) ∙ same j (omega arith)),
          )
    ]

    pub alloc-IsFilled : IsFilled k is va 1 byte k'
    alloc-IsFilled = record {
      after = done.after;
      more = done.more;
      bound = omega (arith, done.most);
      kept = alloc-kept;
      holds = alloc-Holds;
      rest = λ x l h. elim done.outcome [
        | inl (old, mapped, kept) ↦ kept x
        | inr (page, none_yet, lw, high, maps, filled) ↦
            let there : same_page va x ≡ false = ground arith in rw (maps x, there) refl
      ];
    }
