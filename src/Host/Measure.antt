-- ===== src/Host/Measure.antt =====
-- The measurement walk of lib/host/include/hash_util.h over the enclave's page table, with the
-- entry bits of lib/host/include/page.h for riscv64. The hash is the parameter `sha3_update`, from
-- the bytes and the context to the next context.
pub mod Leaves
pub mod Linear
use keystone_sdk.Base.{
  ℕ, zero, suc, ◌+◌, ◌-◌, ◌*◌, ◌/◌, ◌%◌, ◌^◌, Bool, not, ◌&&◌, ◌||◌, List, [], ◌∷◌, ltb, leb, ◌==◌,
  if◌then◌else◌, add64, mul64, bit_and, bit_or, int_minus_one,
}
use keystone_sdk.Memory.{Mem, load64}

-- `struct keystone_hash_enclave`, the addresses of the enclave's parts
pub record HashEnclave : Type 0 where
  pub epm_paddr : ℕ
  pub epm_size : ℕ
  pub utm_paddr : ℕ
  pub utm_size : ℕ
  pub runtime_paddr : ℕ
  pub user_paddr : ℕ
  pub free_paddr : ℕ
  pub untrusted_ptr : ℕ
  pub untrusted_size : ℕ

-- The hash context, `*runtime_max_seen` and `*user_max_seen`.
pub record Walk (H : Type 0) : Type 0 where
  pub hash : H
  pub runtime_max : ℕ
  pub user_max : ℕ

-- `PTE_U`, `RISCV_PGSIZE`, `RISCV_PGLEVEL_TOP`, `RISCV_PGLEVEL_MASK` and
-- `RISCV_PGTABLE_HIGHEST_BIT`
abbrev pub pte_user : ℕ
pte_user = 16

abbrev pub page_size : ℕ
page_size = 4096

abbrev pub level_top : ℕ
level_top = 3

abbrev pub level_mask : ℕ
level_mask = 511

abbrev pub highest_bit : ℕ
highest_bit = 256

-- The entries of a table, `RISCV_PGSIZE/sizeof(pte_t)`.
abbrev pub table_entries : ℕ
table_entries = 512

-- The bytes of an `uintptr_t`, and those of a range.
unfoldable pub word_bytes : (count word : ℕ) → List ℕ
word_bytes zero word = []
word_bytes (suc n) word = word % 256 ∷ word_bytes n (word / 256)

unfoldable pub range_bytes : Mem → (count addr : ℕ) → List ℕ
range_bytes m zero addr = []
range_bytes m (suc n) addr = m addr ∷ range_bytes m n (addr + 1)

-- `(pte_val(*walk) >> PTE_PPN_SHIFT) << RISCV_PGSHIFT`
unfoldable pub phys_addr : (pte : ℕ) → ℕ
phys_addr pte = mul64 (pte / 1024) 4096

-- The virtual page number, with the highest bit propagated at the top.
unfoldable pub virtual_page : (level i vaddr : ℕ) → ℕ
virtual_page level i vaddr =
    if level == level_top && not (bit_and i highest_bit == 0)
    then bit_or (2 ^ 64 - 512) (bit_and i level_mask)
    else bit_or (mul64 vaddr 512) (bit_and i level_mask)

-- `vpn << RISCV_PGSHIFT`
unfoldable pub page_address : (vpn : ℕ) → ℕ
page_address vpn = mul64 vpn 4096

module _ (c : HashEnclave) where
  unfoldable pub map_in_epm : (phys : ℕ) → Bool
  map_in_epm phys = leb c.epm_paddr phys && ltb phys (add64 c.epm_paddr c.epm_size)

  unfoldable pub map_in_utm : (phys : ℕ) → Bool
  map_in_utm phys = leb c.utm_paddr phys && ltb phys (add64 c.utm_paddr c.utm_size)

  unfoldable pub in_runtime : (phys : ℕ) → Bool
  in_runtime phys = leb c.runtime_paddr phys && ltb phys c.user_paddr

  unfoldable pub in_user : (phys : ℕ) → Bool
  in_user phys = leb c.user_paddr phys && ltb phys c.free_paddr

  -- The virtual address lies in the untrusted part.
  unfoldable pub in_untrusted : (va : ℕ) → Bool
  in_untrusted va = leb c.untrusted_ptr va && ltb va (add64 c.untrusted_ptr c.untrusted_size)

module _ {H : Type 0} (sha3_update : List ℕ → H → H) where
  unfoldable pub hash_extend : List ℕ → Walk H → Walk H
  hash_extend bytes w = record w { hash = sha3_update bytes w.hash }

  unfoldable pub hash_extend_page : Mem → (phys : ℕ) → Walk H → Walk H
  hash_extend_page m phys w = hash_extend (range_bytes m page_size phys) w

  module _ (c : HashEnclave) (m : Mem) where
    -- The checks of a leaf, in order; the code is `contiguous`, or -1.
    unfoldable pub check_leaf : (pte vpn : ℕ) → Walk H → ℕ × Walk H
    check_leaf pte vpn w =
        let phys = phys_addr pte in
        let va_start = page_address vpn in
        if in_user c phys && bit_and pte pte_user == 0
        then (int_minus_one, w)
        else if in_untrusted c va_start && not (map_in_utm c phys)
        then (int_minus_one, w)
        else if in_runtime c phys
        then (if leb phys w.runtime_max
            then (int_minus_one, w)
            else (1, hash_extend_page m phys (record w { runtime_max = phys })))
        else if in_user c phys
        then (if leb phys w.user_max
            then (int_minus_one, w)
            else (1, hash_extend_page m phys (record w { user_max = phys })))
        else if map_in_utm c phys
        then (1, hash_extend_page m phys w)
        else (int_minus_one, w)

    -- The first address of a contiguous range is hashed, and then the leaf is checked.
    unfoldable pub validate_leaf : (pte vpn contiguous : ℕ) → Walk H → ℕ × Walk H
    validate_leaf pte vpn contiguous w =
        check_leaf pte vpn
          (if contiguous == 0 then hash_extend (word_bytes 8 (page_address vpn)) w else w)

    -- One round of the loop; `descend` is the call for the table below.
    unfoldable pub validate_entry :
        (descend : (tb vaddr contiguous : ℕ) → Walk H → ℕ × Walk H)
        → (level i pte vaddr contiguous : ℕ) → Walk H
        → ℕ × Walk H
    validate_entry descend level i pte vaddr contiguous w =
        let phys = phys_addr pte in
        let vpn = virtual_page level i vaddr in
        if pte == 0
        then (0, w)
        else if not (map_in_epm c phys) && (not (map_in_utm c phys) || not (level == 1))
        then (int_minus_one, w)
        else if level == 1
        then validate_leaf pte vpn contiguous w
        else descend phys vpn contiguous w

    -- The loop, with `left` entries from entry `i` on.
    unfoldable pub validate_entries :
        (descend : (tb vaddr contiguous : ℕ) → Walk H → ℕ × Walk H)
        → (level left i tb vaddr contiguous : ℕ) → Walk H
        → ℕ × Walk H
    validate_entries descend level zero i tb vaddr contiguous w = (contiguous, w)
    validate_entries descend level (suc left) i tb vaddr contiguous w =
        let (code, w') =
          validate_entry descend level i (load64 m (tb + 8 * i)) vaddr contiguous w in
        let rest = validate_entries descend level left (i + 1) tb vaddr code w' in
        if code == int_minus_one then (code, w') else rest

    -- The walk at level `below + 1`. At level 1 no entry descends.
    unfoldable pub validate_and_hash_epm : (below tb vaddr contiguous : ℕ) → Walk H → ℕ × Walk H
    validate_and_hash_epm zero tb vaddr contiguous w =
        validate_entries (λ _ _ code w. (code, w)) 1 table_entries 0 tb vaddr contiguous w
    validate_and_hash_epm (suc below) tb vaddr contiguous w =
        validate_entries (validate_and_hash_epm below) (below + 2) table_entries 0 tb vaddr
          contiguous w
