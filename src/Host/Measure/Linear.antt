-- ===== src/Host/Measure/Linear.antt =====
-- An enclave that the measurement walk accepts maps each of its pages at most once, in order.
use keystone_sdk.Base.{
  ℕ, zero, suc, ◌+◌, ◌*◌, ◌≡◌, ◌≢◌, inl, inr, refl, arith, true, not, ◌&&◌, ◌||◌, List, [], ◌∷◌,
  leb, ◌==◌, Bool-cases, bit_and, int_minus_one, ==_iff,
}
use keystone_sdk.Memory.{Mem, load64}
use keystone_sdk.Host.Measure.{
  HashEnclave, Walk, pte_user, table_entries, phys_addr, virtual_page, page_address, map_in_epm,
  map_in_utm, in_runtime, in_user, in_untrusted, hash_extend, hash_extend_page, check_leaf,
  validate_leaf, validate_entry, validate_entries, validate_and_hash_epm,
}
use keystone_sdk.Host.Measure.Leaves.{
  Leaf, entry_leaves, table_leaves, leaves, Linear, Every, Rises-Linear, runtime_leaf, user_leaf,
  IsValid, Accepted, Accepted-++,
}

module _ {H : Type 0} (sha3_update : List ℕ → H → H) (c : HashEnclave) (m : Mem) where
  abbrev leaf : (pte vpn : ℕ) → Leaf
  leaf pte vpn = record { entry = pte; va = page_address vpn; pa = phys_addr pte }

  runtime_or_user : (phys : ℕ) → in_runtime c phys ≡ true → in_user c phys ≡ true → ⊥
  unfolding in_runtime in_user
  runtime_or_user phys r u = ground arith

  check_leaf-Accepted :
      (pte vpn : ℕ) (w : Walk H)
      → let out = check_leaf sha3_update c m pte vpn w in
        out.0 ≢ int_minus_one → Accepted c w (leaf pte vpn ∷ []) out.1
  unfolding check_leaf hash_extend_page hash_extend
  check_leaf-Accepted pte vpn w =
      let phys = phys_addr pte in
      elim (Bool-cases (in_user c phys && bit_and pte pte_user == 0)) [
        | inl closed ↦ rw closed (λ ne. absurd (ne refl))
        | inr opened ↦
            rw opened
              (elim (Bool-cases (in_untrusted c (page_address vpn) && not (map_in_utm c phys))) [
                | inl private ↦ rw private (λ ne. absurd (ne refl))
                | inr shared ↦ rw shared (elim (Bool-cases (in_runtime c phys)) [
                  | inl runtime ↦ rw runtime (elim (Bool-cases (leb phys w.runtime_max)) [
                    | inl low ↦ rw low (λ ne. absurd (ne refl))
                    | inr high ↦ rw high λ ne. record {
                      valid = (
                        record {
                          placed = inl runtime;
                          user_bit = λ u. ground arith;
                          shared = λ u. ground arith;
                        },
                        tt,
                      );
                      runtime =
                          (phys, ground arith, λ e. (ground arith, ground arith), ground arith);
                      user = (
                        w.user_max,
                        omega arith,
                        λ e. absurd (runtime_or_user phys runtime e),
                        omega arith,
                      );
                    }
                  ])
                  | inr not_runtime ↦ rw not_runtime (elim (Bool-cases (in_user c phys)) [
                    | inl user ↦ rw user (elim (Bool-cases (leb phys w.user_max)) [
                      | inl low ↦ rw low (λ ne. absurd (ne refl))
                      | inr high ↦ rw high λ ne. record {
                        valid = (
                          record {
                            placed = inr (inl user);
                            user_bit = λ u. ground arith;
                            shared = λ u. ground arith;
                          },
                          tt,
                        );
                        runtime = (w.runtime_max, omega arith, λ e. cc, omega arith);
                        user =
                            (phys, ground arith, λ e. (ground arith, ground arith), ground arith);
                      }
                    ])
                    | inr not_user ↦ rw not_user (elim (Bool-cases (map_in_utm c phys)) [
                      | inl utm ↦ rw utm λ ne. record {
                        valid = (
                          record {
                            placed = inr (inr utm);
                            user_bit = λ u. ground arith;
                            shared = λ u. utm;
                          },
                          tt,
                        );
                        runtime = (w.runtime_max, omega arith, λ e. cc, omega arith);
                        user = (w.user_max, omega arith, λ e. cc, omega arith);
                      }
                      | inr nowhere ↦ rw nowhere (λ ne. absurd (ne refl))
                    ])
                  ])
                ])
              ])
      ]

  validate_leaf-Accepted :
      (pte vpn contiguous : ℕ) (w : Walk H)
      → let out = validate_leaf sha3_update c m pte vpn contiguous w in
        out.0 ≢ int_minus_one → Accepted c w (leaf pte vpn ∷ []) out.1
  unfolding validate_leaf hash_extend
  validate_leaf-Accepted pte vpn contiguous w = elim (Bool-cases (contiguous == 0)) [
    | inl first ↦ rw first λ ne.
        let a = check_leaf-Accepted pte vpn (hash_extend sha3_update _ w) ne in
        record { valid = a.valid; runtime = a.runtime; user = a.user }
    | inr later ↦ rw later (check_leaf-Accepted pte vpn w)
  ]

  -- The call for the table below is right about what it walks.
  abbrev IsDescent :
      ((tb vaddr contiguous : ℕ) → Walk H → ℕ × Walk H) → ((tb vaddr : ℕ) → List Leaf) → Type 0
  IsDescent descend below =
      (tb vaddr contiguous : ℕ) (w : Walk H)
      → (descend tb vaddr contiguous w).0 ≢ int_minus_one
      → Accepted c w (below tb vaddr) (descend tb vaddr contiguous w).1

  Accepted-nil : (w : Walk H) → Accepted c w [] w
  Accepted-nil w = record { valid = tt; runtime = omega arith; user = omega arith }

  module _ (descend : (tb vaddr contiguous : ℕ) → Walk H → ℕ × Walk H)
      (below : (tb vaddr : ℕ) → List Leaf) (level : ℕ)
      (right : level ≢ 1 → IsDescent descend below) where
    validate_entry-Accepted :
        (i pte vaddr contiguous : ℕ) (w : Walk H)
        → let out = validate_entry sha3_update c m descend level i pte vaddr contiguous w in
          out.0 ≢ int_minus_one → Accepted c w (entry_leaves below level i pte vaddr) out.1
    unfolding validate_entry entry_leaves
    validate_entry-Accepted i pte vaddr contiguous w =
        let phys = phys_addr pte in
        elim (Bool-cases (pte == 0)) [
          | inl unused ↦ rw unused (λ ne. Accepted-nil w)
          | inr used ↦
              rw used
                (elim (Bool-cases
                  (not (map_in_epm c phys) && (not (map_in_utm c phys) || not (level == 1)))) [
                    | inl outside ↦ rw outside (λ ne. absurd (ne refl))
                    | inr inside ↦ rw inside (elim (Bool-cases (level == 1)) [
                      | inl last ↦
                          rw last
                            (validate_leaf-Accepted pte (virtual_page level i vaddr) contiguous w)
                      | inr upper ↦
                          rw upper (
                            right (λ e. ground arith) phys (virtual_page level i vaddr) contiguous
                              w)
                    ])
                  ])
        ]

    validate_entries-Accepted :
        (left i tb vaddr contiguous : ℕ) (w : Walk H)
        → let out = validate_entries sha3_update c m descend level left i tb vaddr contiguous w in
          out.0 ≢ int_minus_one → Accepted c w (table_leaves m below level left i tb vaddr) out.1
    unfolding validate_entries table_leaves
    validate_entries-Accepted zero i tb vaddr contiguous w = λ ne. Accepted-nil w
    validate_entries-Accepted (suc left) i tb vaddr contiguous w =
        let out =
          validate_entry sha3_update c m descend level i (load64 m (tb + 8 * i)) vaddr contiguous
            w in
        elim (Bool-cases (out.0 == int_minus_one)) [
          | inl bad ↦ rw bad λ ne. absurd (ne ((==_iff _ _).0 bad))
          | inr good ↦ rw good λ ne.
              Accepted-++ c w out.1 _ (entry_leaves below level i (load64 m (tb + 8 * i)) vaddr)
                (table_leaves m below level left (i + 1) tb vaddr)
                (validate_entry-Accepted i (load64 m (tb + 8 * i)) vaddr contiguous w
                  (λ e. ground arith))
                (validate_entries-Accepted left (i + 1) tb vaddr out.0 out.1 ne)
        ]

  validate_and_hash_epm-Accepted :
      (below tb vaddr contiguous : ℕ) (w : Walk H)
      → let out = validate_and_hash_epm sha3_update c m below tb vaddr contiguous w in
        out.0 ≢ int_minus_one → Accepted c w (leaves m below tb vaddr) out.1
  unfolding validate_and_hash_epm leaves
  validate_and_hash_epm-Accepted zero tb vaddr contiguous w =
      validate_entries-Accepted (λ _ _ code w. (code, w)) (λ _ _. []) 1 (λ ne. absurd (ne refl))
        table_entries 0 tb vaddr contiguous w
  validate_and_hash_epm-Accepted (suc below) tb vaddr contiguous w =
      validate_entries-Accepted (validate_and_hash_epm sha3_update c m below) (leaves m below)
        (below + 2) (λ _. validate_and_hash_epm-Accepted below) table_entries 0 tb vaddr contiguous
        w

  -- For every page table, and every state that the walk starts in: where the walk does not return
  -- -1, each page mapped is the runtime's, the application's or shared, each of the application's is
  -- open to user mode, and untrusted addresses map to shared pages only; and in the order of the
  -- walk the runtime's physical pages rise strictly, and so do the application's, so that no page of
  -- theirs is mapped twice.
  pub validate_and_hash_epm-Linear :
      (below tb vaddr contiguous : ℕ) (w : Walk H)
      → (validate_and_hash_epm sha3_update c m below tb vaddr contiguous w).0 ≢ int_minus_one
      → Every (IsValid c) (leaves m below tb vaddr)
        × Linear (runtime_leaf c) (leaves m below tb vaddr)
        × Linear (user_leaf c) (leaves m below tb vaddr)
  validate_and_hash_epm-Linear below tb vaddr contiguous w ne =
      let a = validate_and_hash_epm-Accepted below tb vaddr contiguous w ne in
      (
        a.valid,
        Rises-Linear (runtime_leaf c) _ _ (leaves m below tb vaddr) a.runtime,
        Rises-Linear (user_leaf c) _ _ (leaves m below tb vaddr) a.user,
      )
