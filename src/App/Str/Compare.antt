-- ===== src/App/Str/Compare.antt =====
-- memcmp and strcmp: equality of ranges and of texts, and the first difference.
use keystone_sdk.Base.{
  ℕ, zero, suc, ◌+◌, ◌<◌, ◌^◌, ◌≡◌, ◌≢◌, ◌↔◌, ◌⊎◌, inl, inr, refl, arith, sym, ◌∙◌, ap, some, ◌==◌,
  Bool-cases, ==_iff, lt→ltb, ◌%◌,
}
use keystone_sdk.Memory.{Mem, IsBytes}
use keystone_sdk.App.Str.{memcmp, byte_difference, strcmp_loop, strcmp_lengths, strcmp}
use keystone_sdk.App.Str.Text.{IsText, strlen-IsText}

-- The `n` bytes at `s1` and at `s2` are the same.
abbrev pub SameBytes : Mem → (s1 s2 n : ℕ) → Type 0
SameBytes m s1 s2 n = (i : ℕ) → i < n → m (s1 + i) ≡ m (s2 + i)

SameBytes-suc :
    (m : Mem) (s1 s2 n : ℕ)
    → m s1 ≡ m s2
    → SameBytes m (s1 + 1) (s2 + 1) n
    → SameBytes m s1 s2 (suc n)
SameBytes-suc m s1 s2 n e h zero lt = let (e1, e2) = at_zero in rw (e1, e2) e
  where
    at_zero : (s1 + 0 ≡ s1) × (s2 + 0 ≡ s2)
    at_zero = omega arith
SameBytes-suc m s1 s2 n e h (suc i) lt =
    let e1 : s1 + suc i ≡ s1 + 1 + i = omega arith in
    let e2 : s2 + suc i ≡ s2 + 1 + i = omega arith in rw (e1, e2) (h i (omega arith))

SameBytes-tail :
    (m : Mem) (s1 s2 n : ℕ) → SameBytes m s1 s2 (suc n) → SameBytes m (s1 + 1) (s2 + 1) n
SameBytes-tail m s1 s2 n h i lt =
    let e1 : s1 + 1 + i ≡ s1 + suc i = omega arith in
    let e2 : s2 + 1 + i ≡ s2 + suc i = omega arith in rw (e1, e2) (h (suc i) (omega arith))

SameBytes-head : (m : Mem) (s1 s2 n : ℕ) → SameBytes m s1 s2 (suc n) → m s1 ≡ m s2
SameBytes-head m s1 s2 n h =
    let e1 : s1 ≡ s1 + 0 = omega arith in
    let e2 : s2 ≡ s2 + 0 = omega arith in ap m e1 ∙ h 0 (omega arith) ∙ sym (ap m e2)

memcmp-SameBytes :
    (m : Mem) (b : IsBytes m) (s1 s2 n : ℕ) → SameBytes m s1 s2 n → memcmp s1 s2 n m ≡ 0
unfolding memcmp
memcmp-SameBytes m b s1 s2 zero h = refl
memcmp-SameBytes m b s1 s2 (suc n) h = ground (
  arith,
  SameBytes-head m s1 s2 n h,
  memcmp-SameBytes m b (s1 + 1) (s2 + 1) n (SameBytes-tail m s1 s2 n h),
)

SameBytes-memcmp :
    (m : Mem) (b : IsBytes m) (s1 s2 n : ℕ) → memcmp s1 s2 n m ≡ 0 → SameBytes m s1 s2 n
unfolding memcmp
SameBytes-memcmp m b s1 s2 zero e i lt = absurd (omega arith)
SameBytes-memcmp m b s1 s2 (suc n) e i lt =
    let same : m s1 ≡ m s2 = ground (arith, b s1, b s2) in
    let rest : memcmp (s1 + 1) (s2 + 1) n m ≡ 0 = ground arith in
    SameBytes-suc m s1 s2 n same (SameBytes-memcmp m b (s1 + 1) (s2 + 1) n rest) i lt

memcmp_first :
    (m : Mem) (s1 s2 n i : ℕ)
    → i < n
    → SameBytes m s1 s2 i
    → m (s1 + i) ≢ m (s2 + i)
    → memcmp s1 s2 n m ≡ byte_difference (m (s1 + i)) (m (s2 + i))
unfolding memcmp
memcmp_first m s1 s2 zero i lt h ne = absurd (omega arith)
memcmp_first m s1 s2 (suc n) zero lt h ne =
    let e1 : s1 + 0 ≡ s1 = omega arith in
    let e2 : s2 + 0 ≡ s2 = omega arith in ground (arith, ap m e1, ap m e2)
memcmp_first m s1 s2 (suc n) (suc i) lt h ne =
    let e1 : s1 + 1 + i ≡ s1 + suc i = omega arith in
    let e2 : s2 + 1 + i ≡ s2 + suc i = omega arith in
    ground (
      arith,
      ap m e1,
      ap m e2,
      SameBytes-head m s1 s2 i h,
      memcmp_first m (s1 + 1) (s2 + 1) n i (omega arith) (SameBytes-tail m s1 s2 i h),
    )

-- `memcmp` returns 0 exactly when the `n` bytes agree; where they first differ at index `i`, it
-- returns the difference of the two bytes there, as an `int`.
pub memcmp_iff :
    (s1 s2 n : ℕ) (m : Mem)
    → IsBytes m
    → ((memcmp s1 s2 n m ≡ 0) ↔ SameBytes m s1 s2 n)
      × ((i : ℕ)
          → i < n
          → SameBytes m s1 s2 i
          → m (s1 + i) ≢ m (s2 + i)
          → memcmp s1 s2 n m ≡ byte_difference (m (s1 + i)) (m (s2 + i)))
memcmp_iff s1 s2 n m b =
    ((SameBytes-memcmp m b s1 s2 n, memcmp-SameBytes m b s1 s2 n), memcmp_first m s1 s2 n)

strcmp_loop-bit :
    (left s1 s2 : ℕ) (m : Mem) → (strcmp_loop left s1 s2 m ≡ 0) ⊎ (strcmp_loop left s1 s2 m ≡ 1)
unfolding strcmp_loop
strcmp_loop-bit zero s1 s2 m = inl refl
strcmp_loop-bit (suc left) s1 s2 m = elim (Bool-cases (m s1 == m s2)) [
  | inl e ↦ rw e (strcmp_loop-bit left (s1 + 1) (s2 + 1) m)
  | inr e ↦ rw e (inr refl)
]

SameBytes-strcmp_loop :
    (left s1 s2 : ℕ) (m : Mem) → strcmp_loop left s1 s2 m ≡ 0 → SameBytes m s1 s2 left
unfolding strcmp_loop
SameBytes-strcmp_loop zero s1 s2 m e i lt = absurd (omega arith)
SameBytes-strcmp_loop (suc left) s1 s2 m e i lt =
    let same : m s1 ≡ m s2 = ground arith in
    let rest : strcmp_loop left (s1 + 1) (s2 + 1) m ≡ 0 = ground arith in
    SameBytes-suc m s1 s2 left same (SameBytes-strcmp_loop left (s1 + 1) (s2 + 1) m rest) i lt

strcmp_loop-SameBytes :
    (left s1 s2 : ℕ) (m : Mem) → SameBytes m s1 s2 left → strcmp_loop left s1 s2 m ≡ 0
unfolding strcmp_loop
strcmp_loop-SameBytes zero s1 s2 m h = refl
strcmp_loop-SameBytes (suc left) s1 s2 m h = ground (
  arith,
  SameBytes-head m s1 s2 left h,
  strcmp_loop-SameBytes left (s1 + 1) (s2 + 1) m (SameBytes-tail m s1 s2 left h),
)

strcmp-lengths :
    (fuel s1 s2 n1 n2 : ℕ) (m : Mem)
    → IsText m s1 n1
    → IsText m s2 n2
    → n1 < fuel
    → n2 < fuel
    → strcmp fuel s1 s2 m ≡ some (strcmp_lengths n1 n2 s1 s2 m)
unfolding strcmp
strcmp-lengths fuel s1 s2 n1 n2 m t1 t2 h1 h2 =
    rw (strcmp, strlen-IsText fuel s1 n1 m t1 h1, strlen-IsText fuel s2 n2 m t2 h2) refl

module _ (n1 n2 s1 s2 : ℕ) (m : Mem) (short : n1 < 2 ^ 31) where
  strcmp_lengths-ne : n1 ≢ n2 → strcmp_lengths n1 n2 s1 s2 m ≡ 1
  unfolding strcmp_lengths
  strcmp_lengths-ne ne = ground arith

  strcmp_lengths-eq : n1 ≡ n2 → strcmp_lengths n1 n2 s1 s2 m ≡ strcmp_loop n1 s1 s2 m
  unfolding strcmp_lengths
  strcmp_lengths-eq e =
      let len : n1 % 2 ^ 32 ≡ n1 = omega arith in
      rw (len, lt→ltb n1 (2 ^ 31) short, (==_iff n1 n2).1 e) refl

-- For texts of fewer than 2^31 characters, `strcmp` ends and returns 0 or 1; it returns 0 exactly
-- when the texts have the same length and the same characters.
pub strcmp_iff :
    (fuel s1 s2 n1 n2 : ℕ) (m : Mem)
    → IsText m s1 n1
    → IsText m s2 n2
    → n1 < fuel
    → n2 < fuel
    → n1 < 2 ^ 31
    → (r : ℕ) × (strcmp fuel s1 s2 m ≡ some r)
      × ((r ≡ 0) ↔ ((n1 ≡ n2) × SameBytes m s1 s2 n1))
      × ((r ≡ 0) ⊎ (r ≡ 1))
strcmp_iff fuel s1 s2 n1 n2 m t1 t2 h1 h2 short = (
  strcmp_lengths n1 n2 s1 s2 m,
  strcmp-lengths fuel s1 s2 n1 n2 m t1 t2 h1 h2,
  (
    λ z. elim (Bool-cases (n1 == n2)) [
      | inl e ↦
          let e' = (==_iff n1 n2).0 e in
          (
            e',
            SameBytes-strcmp_loop n1 s1 s2 m (sym (strcmp_lengths-eq n1 n2 s1 s2 m short e') ∙ z),
          )
      | inr ne ↦
          let far : n1 ≢ n2 = λ e. ground arith in
          absurd (omega (arith, strcmp_lengths-ne n1 n2 s1 s2 m short far))
    ],
    λ (e, same). strcmp_lengths-eq n1 n2 s1 s2 m short e ∙ strcmp_loop-SameBytes n1 s1 s2 m same,
  ),
  elim (Bool-cases (n1 == n2)) [
    | inl e ↦
        rw (strcmp_lengths-eq n1 n2 s1 s2 m short ((==_iff n1 n2).0 e)) (strcmp_loop-bit n1 s1 s2 m)
    | inr ne ↦ inr (strcmp_lengths-ne n1 n2 s1 s2 m short (λ e. ground arith))
  ],
)
