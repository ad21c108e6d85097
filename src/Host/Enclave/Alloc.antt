-- ===== src/Host/Enclave/Alloc.antt =====
-- `allocPage` of lib/host/src/keystone.cpp for a simulated enclave: what a page taken from the
-- enclave's memory does to the mappings that the page tables stand for.
use keystone_sdk.Base.{
  ℕ, ◌+◌, ◌-◌, ◌*◌, ◌≤◌, ◌<◌, ◌≡◌, ◌⊎◌, inl, inr, refl, arith, Bool, true, Option, none, some,
  Bool-cases, if◌then◌else◌, IsWord, ◌∙◌,
}
use keystone_sdk.Memory.{Mem, store64}
use keystone_sdk.Host.Memory.{simulated, write_bytes}
use keystone_sdk.Host.Page.{entry, walk_from, is_valid, pt_idx, pte_create, ppn}
use keystone_sdk.Host.Page.Entries.{pt_idx-lt, pte_create-is_valid, pte_create-IsWord, ppn-lt}
use keystone_sdk.Host.Page.Tables.{
  Shape, Arena, IsTable, IsTables, direct, translate, KeepsData, KeepsData-trans,
}
use keystone_sdk.Host.Page.Leaf.{
  same_page, set_leaf-KeepsData, set_leaf-IsTables, set_leaf-translate,
}
use keystone_sdk.Host.Page.Filled.{
  filled-KeepsData, filled_page, filled-IsTables, filled-translate, filled_shape,
}
use keystone_sdk.Host.Enclave.{Keystone, mode_flags}

module _ {E S : Type 0} where
  -- The enclave's memory: tables and pages from `lo` on, and free pages up to `limit`.
  abbrev pub space : (lo limit : ℕ) → Keystone E S → Arena
  space lo limit k = record { lo = lo; free = k.epm_free_list; limit = limit }

  -- A simulated enclave whose page tables are a tree.
  pub record IsSpace (lo limit : ℕ) (k : Keystone E S) : Type 0 where
    pub is_simulated : k.memory ≡ simulated
    pub shape : Shape
    pub tree : IsTables k.mem k.root_page_table (space lo limit k) shape

  -- The mapping of an enclave's page tables.
  abbrev pub mapping : Keystone E S → ℕ → Option ℕ
  mapping k x = translate k.mem k.root_page_table x

  -- The page of `va` was mapped, and nothing changes; or it is mapped to a fresh page, which is filled
  -- in a mode that writes.
  abbrev pub Outcome :
      (k k' : Keystone E S) (va flags : ℕ) (writes : Bool) (content : ℕ → ℕ) → Type 0
  Outcome k k' va flags writes content =
      ((e : ℕ) × (mapping k va ≡ some e) × ((x : ℕ) → mapping k' x ≡ mapping k x))
      ⊎ ((page : ℕ) × (mapping k va ≡ none)
          × (k.epm_free_list ≤ page)
          × (page + 4096 ≡ k'.epm_free_list)
          × ((x : ℕ)
              → mapping k' x
                ≡ (if same_page va x then some (pte_create (ppn page) flags) else mapping k x))
          × (writes ≡ true → (i : ℕ) → i < 4096 → k'.mem (page + i) ≡ content i))

  -- After `allocPage` from the enclave's memory: pages of data stay, and a fresh page is one of them.
  pub record IsAllocated (lo limit : ℕ) (k k' : Keystone E S) (is : IsSpace lo limit k)
      (va flags : ℕ) (writes : Bool) (content : ℕ → ℕ) : Type 0 where
    pub after : IsSpace lo limit k'
    pub more : k.epm_free_list ≤ k'.epm_free_list
    pub most : k'.epm_free_list ≤ k.epm_free_list + 12288
    pub outcome : Outcome k k' va flags writes content
    pub pages : KeepsData k.mem k'.mem is.shape after.shape (space lo limit k) (space lo limit k')
    pub fresh :
        (page : ℕ)
        → mapping k va ≡ none
        → page + 4096 ≡ k'.epm_free_list
        → IsTable after.shape (space lo limit k') 3 page

pub mode_flags-lt : (mode flags : ℕ) → mode_flags mode ≡ some flags → flags < 1024
unfolding mode_flags
mode_flags-lt mode flags h = ground arith

write_bytes-inside :
    (content : ℕ → ℕ) (dst size : ℕ) (m : Mem) (i : ℕ)
    → i < size
    → write_bytes content dst size m (dst + i) ≡ content i
unfolding write_bytes
write_bytes-inside content dst size m i h =
    let back : dst + i - dst ≡ i = omega arith in ground arith

write_bytes-outside :
    (content : ℕ → ℕ) (dst size : ℕ) (m : Mem) (x : ℕ)
    → (x < dst) ⊎ (dst + size ≤ x)
    → write_bytes content dst size m x ≡ m x
unfolding write_bytes
write_bytes-outside content dst size m x h = ground arith

-- A fresh page is entered at the end of a walk, and filled when `writes` says so.
module _ (m : Mem) (root : ℕ) (a : Arena) (s : Shape) (is : IsTables m root a s) (va page flags : ℕ)
    (tab : IsTable s a 0 page)
    (found : walk_from direct m va 2 root ≡ entry (page + 8 * pt_idx va 0)) (low : flags < 1024)
    (room : a.free + 4096 ≤ a.limit) (writes : Bool) (content : ℕ → ℕ) where
  abbrev pub entered : Mem
  entered = store64 m (page + 8 * pt_idx va 0) (pte_create (ppn a.free) flags)

  abbrev pub placed : Mem
  placed = if writes then write_bytes content a.free 4096 entered else entered

  pte_facts :
      (is_valid (pte_create (ppn a.free) flags) ≡ true) × IsWord (pte_create (ppn a.free) flags)
  pte_facts =
      let word = is.limit_word in
      let small = ppn-lt a.free (omega arith) in
      (
        pte_create-is_valid (ppn a.free) flags small low,
        pte_create-IsWord (ppn a.free) flags small low,
      )

  pub entered-IsTables : IsTables entered root a s
  entered-IsTables =
      set_leaf-IsTables m root a s is page (pt_idx va 0) (pte_create (ppn a.free) flags)
        (pt_idx-lt va 0) tab pte_facts.1

  pub placed-outside : (x : ℕ) → (x < a.free) ⊎ (a.free + 4096 ≤ x) → placed x ≡ entered x
  placed-outside x h = elim (Bool-cases writes) [
    | inl written ↦ rw written (write_bytes-outside content a.free 4096 entered x h)
    | inr kept ↦ rw kept refl
  ]

  abbrev pub placed_shape : Shape
  placed_shape = filled_shape entered placed root a s entered-IsTables room placed-outside

  pub placed-IsTables : IsTables placed root (record a { free = a.free + 4096 }) placed_shape
  placed-IsTables = filled-IsTables entered placed root a s entered-IsTables room placed-outside

  pub placed-KeepsData : KeepsData m placed s placed_shape a (record a { free = a.free + 4096 })
  placed-KeepsData =
      KeepsData-trans
        (set_leaf-KeepsData m root a s is page (pt_idx va 0) (pte_create (ppn a.free) flags)
          (pt_idx-lt va 0) tab pte_facts.1)
        (filled-KeepsData entered placed root a s entered-IsTables room placed-outside)

  pub placed_page : IsTable placed_shape (record a { free = a.free + 4096 }) 3 a.free
  placed_page = filled_page entered placed root a s entered-IsTables room placed-outside

  pub placed-translate :
      (x : ℕ)
      → translate placed root x
        ≡ (if same_page va x then some (pte_create (ppn a.free) flags) else translate m root x)
  placed-translate x =
      filled-translate entered placed root a s entered-IsTables room placed-outside x
      ∙ set_leaf-translate m root a s is page (pt_idx va 0) (pte_create (ppn a.free) flags)
          (pt_idx-lt va 0) tab pte_facts.1 va x pte_facts.0 found

  pub placed-content : writes ≡ true → (i : ℕ) → i < 4096 → placed (a.free + i) ≡ content i
  placed-content written i h = rw written (write_bytes-inside content a.free 4096 entered i h)
