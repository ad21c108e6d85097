-- ===== src/Host/Page.antt =====
-- lib/host/include/page.h for riscv64 (Sv39): page table entries, the walk over the tables, and its
-- translation. A pointer to an entry is the entry's address in the memory; `read_mem` is
-- `pMemory->ReadMem` for a page.
pub mod Entries
pub mod Added
pub mod Create
pub mod Filled
pub mod Leaf
pub mod Next
pub mod Tables
pub mod Vspace
use keystone_sdk.Base.{
  ℕ, zero, suc, ◌+◌, ◌*◌, ◌/◌, ◌^◌, Bool, not, Option, none, some, ◌==◌, if◌then◌else◌, add64,
  mul64, bit_and, bit_or,
}
use keystone_sdk.Memory.{Mem, load64, store64}

-- `PTE_V`, and `PAGE_SIZE` of common.h
abbrev pub pte_valid : ℕ
pte_valid = 1

abbrev pub page_bytes : ℕ
page_bytes = 4096

unfoldable pub pte_create : (ppn type : ℕ) → ℕ
pte_create ppn type = bit_or (bit_or (mul64 ppn 1024) pte_valid) type

unfoldable pub ptd_create : (ppn : ℕ) → ℕ
unfolding pte_create
ptd_create ppn = pte_create ppn pte_valid

unfoldable pub pte_ppn : (pte : ℕ) → ℕ
pte_ppn pte = pte / 1024

unfoldable pub ppn : (addr : ℕ) → ℕ
ppn addr = addr / 4096

unfoldable pub pt_idx : (addr level : ℕ) → ℕ
pt_idx addr level = bit_and (addr / 2 ^ (9 * level + 12)) 511

-- `pte_val(pte) & PTE_V`
unfoldable pub is_valid : (pte : ℕ) → Bool
is_valid pte = not (bit_and pte pte_valid == 0)

-- The address that an entry leads to.
unfoldable pub pte_page : (pte : ℕ) → ℕ
unfolding pte_ppn
pte_page pte = mul64 (pte_ppn pte) 4096

-- `&t[pt_idx(addr, level)]`
unfoldable pub entry_at : (addr level t : ℕ) → ℕ
entry_at addr level t = add64 t (8 * pt_idx addr level)

-- Where the loop of `__ept_walk_internal` ends: at the entry for the page, or at an entry of an upper
-- table that is not valid.
pub data Walked : Type 0 where
  entry : ℕ → Walked
  missing : ℕ → Walked

-- The memory, and `*pg_list`, the free page list.
pub record Pages : Type 0 where
  pub mem : Mem
  pub free : ℕ

module _ (read_mem : ℕ → ℕ) where
  -- The loop, from level `level` on, at the table `t`.
  unfoldable pub walk_from : Mem → (addr level t : ℕ) → Walked
  walk_from m addr zero t = entry (entry_at addr 0 t)
  walk_from m addr (suc level) t =
      let e = entry_at addr (suc level) t in
      let rest = walk_from m addr level (read_mem (pte_page (load64 m e))) in
      if is_valid (load64 m e) then rest else missing e

  -- `__ept_walk`; 0 is the null pointer.
  unfoldable pub ept_walk : Mem → (root addr : ℕ) → ℕ
  ept_walk m root addr = elim (walk_from m addr 2 root) [ entry p ↦ p | missing _ ↦ 0 ]

  -- The entry that is missing becomes a pointer to the first free page.
  unfoldable pub add_table : (e : ℕ) → Pages → Pages
  add_table e s = record {
    mem = store64 s.mem e (ptd_create (ppn s.free));
    free = add64 s.free page_bytes;
  }

  -- `__ept_walk_create` and `__ept_continue_walk_create`, which call each other.
  unfoldable pub ept_walk_create : (fuel root addr : ℕ) → Pages → Option (ℕ × Pages)
  ept_walk_create zero root addr s = none
  ept_walk_create (suc fuel) root addr s = elim (walk_from s.mem addr 2 root) [
    | entry p ↦ some (p, s)
    | missing e ↦ ept_walk_create fuel root addr (add_table e s)
  ]

  unfoldable pub epm_va_to_pa : Mem → (root addr : ℕ) → ℕ
  epm_va_to_pa m root addr =
      let pte = ept_walk m root addr in if pte == 0 then 0 else pte_page (load64 m pte)

  -- The loop of `epm_alloc_vspace`, with `left` pages to go and `count` done.
  unfoldable pub alloc_vspace_loop : (fuel left count root addr : ℕ) → Pages → Option (ℕ × Pages)
  alloc_vspace_loop fuel zero count root addr s = some (count, s)
  alloc_vspace_loop fuel (suc left) count root addr s = elim (ept_walk_create fuel root addr s) [
    | none ↦ none
    | some (pte, s') ↦
        let rest = alloc_vspace_loop fuel left (count + 1) root (add64 addr page_bytes) s' in
        if pte == 0 then some (count, s') else rest
  ]

  unfoldable pub epm_alloc_vspace : (fuel root addr num_pages : ℕ) → Pages → Option (ℕ × Pages)
  epm_alloc_vspace fuel root addr num_pages s = alloc_vspace_loop fuel num_pages 0 root addr s
