-- ===== src/Host/Enclave/Stack.antt =====
-- `initStack` of lib/host/src/keystone.cpp for a simulated enclave: every address of the stack is mapped,
-- and nothing that was mapped is lost.
use keystone_sdk.Base.{
  ℕ, zero, suc, ◌+◌, ◌-◌, ◌*◌, ◌/◌, ◌%◌, ◌^◌, ◌≤◌, ◌<◌, ◌≡◌, ◌⊎◌, inl, inr, refl, arith, Bool, true,
  false, Option, none, some, Bool-cases, if◌then◌else◌, IsWord, ◌∙◌, sym, add64, sub64,
}
use keystone_sdk.Host.Common.{Status, success, round_up, rt_noexec, user_noexec}
use keystone_sdk.Host.Common.Rounding.{round_up_lem, round_down-eq}
use keystone_sdk.Host.Page.{pte_create, ppn}
use keystone_sdk.Host.Page.Leaf.{same_page, translate-same_page}
use keystone_sdk.Host.Enclave.{
  Keystone, mode_flags, mode_writes, null_page, init_stack_loop, init_stack, int_rounds,
}
use keystone_sdk.Host.Enclave.Alloc.{IsSpace, mapping, IsAllocated}
use keystone_sdk.Host.Enclave.Mapped.{alloc_page-IsAllocated}

module _ {E S : Type 0} where
  -- The address is mapped, by the entry of before, or by a new one with these flags to a fresh page.
  abbrev pub IsBacked : (k k' : Keystone E S) (flags x : ℕ) → Type 0
  IsBacked k k' flags x =
      (e : ℕ) × (mapping k' x ≡ some e)
      × ((mapping k x ≡ some e)
          ⊎ ((page : ℕ) × (mapping k x ≡ none)
              × (k.epm_free_list ≤ page)
              × (page + 4096 ≤ k'.epm_free_list)
              × (e ≡ pte_create (ppn page) flags)))

  -- After pages were added: at most `most` bytes were taken, and all mappings of before are kept.
  pub record IsGrown (lo limit most : ℕ) (k k' : Keystone E S) : Type 0 where
    pub after : IsSpace lo limit k'
    pub more : k.epm_free_list ≤ k'.epm_free_list
    pub bound : k'.epm_free_list ≤ k.epm_free_list + most
    pub kept : (x e : ℕ) → mapping k x ≡ some e → mapping k' x ≡ some e

  module _ (lo limit : ℕ) (k k' : Keystone E S) (va flags : ℕ) (writes : Bool) (content : ℕ → ℕ)
      (is : IsSpace lo limit k) (done : IsAllocated lo limit k k' is va flags writes content) where
    alloc-kept : (x e : ℕ) → mapping k x ≡ some e → mapping k' x ≡ some e
    alloc-kept x e h = elim done.outcome [
      | inl (old, at, same) ↦ same x ∙ h
      | inr (page, free, low, high, maps, bytes) ↦ elim (Bool-cases (same_page va x)) [
        | inl here ↦ absurd (let u = translate-same_page k.mem k.root_page_table va x here in cc)
        | inr there ↦ rw (maps x, there) h
      ]
    ]

    pub alloc-IsGrown : IsGrown lo limit 12288 k k'
    alloc-IsGrown = record {
      after = done.after;
      more = done.more;
      bound = done.most;
      kept = alloc-kept;
    }

    -- An address of the page is backed, and the mapping of any other is as before.
    pub alloc-cases :
        (x : ℕ)
        → ((same_page va x ≡ true) × IsBacked k k' flags x)
          ⊎ ((same_page va x ≡ false) × (mapping k' x ≡ mapping k x))
    alloc-cases x = elim (Bool-cases (same_page va x)) [
      | inl here ↦
          let u = translate-same_page k.mem k.root_page_table va x here in
          inl (
            here,
            elim done.outcome [
              | inl (old, at, same) ↦ (old, same x ∙ (sym u ∙ at), inl (sym u ∙ at))
              | inr (page, free, low, high, maps, bytes) ↦
                  (_, rw (maps x, here) refl, inr (page, sym u ∙ free, low, omega arith, refl))
            ],
          )
      | inr there ↦ inr (
        there,
        elim done.outcome [
          | inl (old, at, same) ↦ same x
          | inr (page, free, low, high, maps, bytes) ↦ rw (maps x, there) refl
        ],
      )
    ]

  -- An address that was backed stays so, and one whose mapping had not changed is backed later.
  IsBacked-then :
      (lo limit most flags x : ℕ) (k k' k'' : Keystone E S)
      → IsGrown lo limit most k' k''
      → IsBacked k k' flags x
      → IsBacked k k'' flags x
  IsBacked-then lo limit most flags x k k' k'' g (e, at, inl old) = (e, g.kept x e at, inl old)
  IsBacked-then lo limit most flags x k k' k'' g (e, at, inr (page, free, low, high, is)) =
      (e, g.kept x e at, inr (page, free, low, omega (arith, g.more), is))

  IsBacked-later :
      (lo limit most flags x : ℕ) (k k' k'' : Keystone E S)
      → IsGrown lo limit most k k'
      → mapping k' x ≡ mapping k x
      → IsBacked k' k'' flags x
      → IsBacked k k'' flags x
  IsBacked-later lo limit most flags x k k' k'' g same (e, at, inl old) =
      (e, at, inl (sym same ∙ old))
  IsBacked-later lo limit most flags x k k' k'' g same (e, at, inr (page, free, low, high, is)) =
      (e, at, inr (page, sym same ∙ free, omega (arith, g.more), high, is))

  IsGrown-trans :
      (lo limit p q : ℕ) (k k' k'' : Keystone E S)
      → IsGrown lo limit p k k'
      → IsGrown lo limit q k' k''
      → IsGrown lo limit (p + q) k k''
  IsGrown-trans lo limit p q k k' k'' g h = record {
    after = h.after;
    more = omega (arith, g.more, h.more);
    bound = omega (arith, g.bound, h.bound);
    kept = λ x e at. h.kept x e (g.kept x e at);
  }

  -- What a loop over `left` pages from `va` on does.
  abbrev pub StackResult :
      (lo limit left va flags : ℕ) (k : Keystone E S) → Option (Status × Keystone E S) → Type 0
  StackResult lo limit left va flags k run =
      (k' : Keystone E S) × (run ≡ some (success, k'))
      × IsGrown lo limit (12288 * left) k k'
      × ((x : ℕ) → va ≤ x → x < va + 4096 * left → IsBacked k k' flags x)

  module _ (mmap : (size offset : ℕ) → ℕ) (mode flags : ℕ) (known : mode_flags mode ≡ some flags)
      (lo limit fuel : ℕ) (f : 2 < fuel) where
    init_stack_loop-StackResult :
        (left va : ℕ) (k : Keystone E S)
        → IsSpace lo limit k
        → k.epm_free_list + 12288 * left ≤ limit
        → va % 4096 ≡ 0
        → IsWord (va + 4096 * left)
        → StackResult lo limit left va flags k (init_stack_loop mmap fuel left va mode k)
    unfolding init_stack_loop
    init_stack_loop-StackResult zero va k is room al word = (
      k,
      refl,
      record { after = is; more = omega arith; bound = omega arith; kept = λ x e h. h },
      λ x low high. absurd (omega arith),
    )
    init_stack_loop-StackResult (suc left) va k is room al word =
        let (k1, run, done) =
          alloc_page-IsAllocated mmap null_page mode flags known lo limit fuel va k is (omega arith)
            f in
        let (k2, rest, grown, backed) =
          init_stack_loop-StackResult left (va + 4096) k1 done.after (omega (arith, done.most))
            (omega arith) (omega arith) in
        let first = alloc-IsGrown lo limit k k1 va flags (mode_writes mode) null_page is done in
        let all = IsGrown-trans lo limit 12288 (12288 * left) k k1 k2 first grown in
        let step : add64 va 4096 ≡ va + 4096 = omega arith in
        (
          k2,
          rw (init_stack_loop, run, step) rest,
          record {
            after = all.after;
            more = all.more;
            bound = omega (arith, all.bound);
            kept = all.kept;
          },
          λ x low high.
              elim (alloc-cases lo limit k k1 va flags (mode_writes mode) null_page is done x) [
                | inl (here, b) ↦ IsBacked-then lo limit (12288 * left) flags x k k1 k2 grown b
                | inr (there, same) ↦
                    IsBacked-later lo limit 12288 flags x k k1 k2 first same
                      (backed x (ground arith) (omega arith))
              ],
        )

int_rounds-eq : (n : ℕ) → n < 2 ^ 31 → int_rounds n ≡ n
unfolding int_rounds
int_rounds-eq n h = ground arith

stack_mode :
    (is_rt : Bool)
    → mode_flags (if is_rt then rt_noexec else user_noexec) ≡ some (if is_rt then 0x1c7 else 0x1d7)
unfolding mode_flags
stack_mode true = refl
stack_mode false = refl

-- The lowest page of the stack.
abbrev stack_low : (start size : ℕ) → ℕ
stack_low start size = (round_up start 12 - size) / 4096 * 4096

init_stack-rounds :
    {E S : Type 0} (mmap : (size offset : ℕ) → ℕ) (fuel start size : ℕ) (is_rt : Bool)
    (k : Keystone E S)
    → start ≤ 2 ^ 64 - 4096
    → size ≤ round_up start 12
    → size < 2 ^ 42
    → init_stack mmap fuel start size is_rt k
      ≡ init_stack_loop mmap fuel
          ((round_up start 12 - stack_low start size) / 4096)
          (stack_low start size)
          (if is_rt then rt_noexec else user_noexec)
          k
unfolding init_stack
init_stack-rounds mmap fuel start size is_rt k top fits small =
    let high = round_up start 12 in
    let r = round_up_lem start top in
    let diff : sub64 high size ≡ high - size = omega arith in
    let low = round_down-eq (high - size) (omega arith) in
    let pages : int_rounds (sub64 high (stack_low start size) / 4096)
        ≡ (high - stack_low start size) / 4096 =
      int_rounds-eq (sub64 high (stack_low start size) / 4096) (omega arith) ∙ omega arith in
    rw (diff, low, pages) refl

-- In a simulated enclave with room for three pages per page of the stack, where the stack starts at most
-- a page below 2^64, and its size is below 2^42 and not above its end, `initStack` returns success. The page
-- tables stay a tree, every address of the stack is mapped, by its old entry or as a fresh page without the
-- right to execute, which the user may reach when the stack is not the runtime's, and no mapping is lost.
pub init_stack-maps :
    {E S : Type 0} (mmap : (size offset : ℕ) → ℕ) (lo limit fuel start size : ℕ) (is_rt : Bool)
    (k : Keystone E S)
    → IsSpace lo limit k
    → start ≤ 2 ^ 64 - 4096
    → size ≤ round_up start 12
    → size < 2 ^ 42
    → k.epm_free_list + 3 * (size + 4096) ≤ limit
    → 2 < fuel
    → (k' : Keystone E S) × (init_stack mmap fuel start size is_rt k ≡ some (success, k'))
      × IsGrown lo limit (3 * (size + 4096)) k k'
      × ((x : ℕ)
          → round_up start 12 ≤ x + size
          → x < round_up start 12
          → IsBacked k k' (if is_rt then 0x1c7 else 0x1d7) x)
init_stack-maps mmap lo limit fuel start size is_rt k is top fits small room f =
    let r = round_up_lem start top in
    let (k', run, g, backed) =
      init_stack_loop-StackResult mmap (if is_rt then rt_noexec else user_noexec)
        (if is_rt then 0x1c7 else 0x1d7) (stack_mode is_rt) lo limit fuel f
        ((round_up start 12 - stack_low start size) / 4096) (stack_low start size) k is
        (omega arith) (omega arith) (omega arith) in
    (
      k',
      init_stack-rounds mmap fuel start size is_rt k top fits small ∙ run,
      record { after = g.after; more = g.more; bound = omega (arith, g.bound); kept = g.kept },
      λ x h l. backed x (omega arith) (omega arith),
    )
