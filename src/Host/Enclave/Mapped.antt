-- ===== src/Host/Enclave/Mapped.antt =====
-- `allocPage` of lib/host/src/keystone.cpp for a simulated enclave keeps the page tables a tree, and maps
-- the page that it is called for.
use keystone_sdk.Base.{
  ℕ, ◌+◌, ◌/◌, ◌%◌, ◌≤◌, ◌<◌, ◌≡◌, inl, inr, refl, arith, true, false, some, Bool-cases,
  if◌then◌else◌, IsWord, ◌∙◌, sym, ap, add64, mul64,
}
use keystone_sdk.Memory.{Mem, load64, store64}
use keystone_sdk.Host.Common.{success}
use keystone_sdk.Host.Memory.{EnclaveMemory, simulated, read_mem, write_mem, write_bytes}
use keystone_sdk.Host.Page.{entry, is_valid, Pages, ept_walk_create, pte_create, ppn}
use keystone_sdk.Host.Page.Tables.{
  direct, leaf_of, translate, EndsIn, walk_from-EndsIn, KeepsData-trans,
}
use keystone_sdk.Host.Page.Create.{IsCreated, ept_walk_create-Created}
use keystone_sdk.Host.Enclave.{
  Keystone, epm, mode_flags, mode_writes, set_page, take_page, alloc_page, free_list, set_free_list,
}
use keystone_sdk.Host.Enclave.Alloc.{
  space, IsSpace, mapping, IsAllocated, mode_flags-lt, placed_shape, placed-KeepsData, placed_page,
  placed-IsTables, placed-translate, placed-content,
}

module _ {E S : Type 0} (mmap : (size offset : ℕ) → ℕ) (content : ℕ → ℕ) (mode flags : ℕ)
    (known : mode_flags mode ≡ some flags) where
  take_page-valid :
      (pte : ℕ) (k : Keystone E S)
      → is_valid (load64 k.mem pte) ≡ true
      → take_page mmap pte epm content mode k ≡ (success, k)
  unfolding take_page
  take_page-valid pte k v = rw v refl

  -- The memory once a page that is free is entered at `pte`, and filled.
  abbrev filled_at : (pte : ℕ) → Keystone E S → Mem
  filled_at pte k =
      let m = store64 k.mem pte (pte_create (ppn k.epm_free_list) flags) in
      if mode_writes mode then write_bytes content k.epm_free_list 4096 m else m

  take_page-fresh :
      (pte : ℕ) (k : Keystone E S)
      → is_valid (load64 k.mem pte) ≡ false
      → k.memory ≡ simulated
      → k.epm_free_list % 4096 ≡ 0
      → IsWord (k.epm_free_list + 4096)
      → take_page mmap pte epm content mode k
        ≡ (success, record k { mem = filled_at pte k; epm_free_list = k.epm_free_list + 4096 })
  unfolding take_page set_page write_mem ppn free_list set_free_list
  take_page-fresh pte k v sim al word =
      let dst : mul64 (k.epm_free_list / 4096) 4096 ≡ k.epm_free_list = omega arith in
      let next : add64 k.epm_free_list 4096 ≡ k.epm_free_list + 4096 = omega arith in
      elim (Bool-cases (mode_writes mode)) [
        | inl written ↦ rw (v, known, written, sim, dst, next) refl
        | inr kept ↦ rw (v, known, kept, next) refl
      ]

module _ {E S : Type 0} (mmap : (size offset : ℕ) → ℕ) (content : ℕ → ℕ) (mode flags : ℕ)
    (known : mode_flags mode ≡ some flags) where
  simulated-direct :
      (k : Keystone E S) → k.memory ≡ simulated → (λ src. read_mem mmap k.memory src 4096) ≡ direct
  unfolding read_mem
  simulated-direct k h = ap (λ (mm : EnclaveMemory). λ (src : ℕ). read_mem mmap mm src 4096) h

  -- The enclave after the walk that `allocPage` starts with.
  abbrev walked : Keystone E S → Pages → Keystone E S
  walked k s = record k { mem = s.mem; epm_free_list = s.free }

  alloc_page-walked :
      (fuel va p : ℕ) (k : Keystone E S) (s : Pages)
      → k.memory ≡ simulated
      → ept_walk_create direct fuel k.root_page_table va
          (record { mem = k.mem; free = k.epm_free_list })
        ≡ some (p, s)
      → alloc_page mmap fuel va epm content mode k
        ≡ some (take_page mmap p epm content mode (walked k s))
  unfolding alloc_page
  alloc_page-walked fuel va p k s sim run = rw (alloc_page, simulated-direct k sim, run) refl

  module _ (lo limit fuel va : ℕ) (k : Keystone E S) (is : IsSpace lo limit k)
      (room : k.epm_free_list + 12288 ≤ limit) (p : ℕ) (s : Pages)
      (c : IsCreated k.mem k.root_page_table (space lo limit k) is.shape va 2 p s)
      (run : ept_walk_create direct fuel k.root_page_table va
          (record { mem = k.mem; free = k.epm_free_list })
        ≡ some (p, s)) where
    -- The entry is in a table, and tells what the page was mapped to.
    walked_entry : EndsIn s.mem c.shape' (space lo limit (walked k s)) va (entry p)
    walked_entry = rw c.found at (
        walk_from-EndsIn s.mem k.root_page_table (space lo limit (walked k s)) c.shape' c.tree va 2
          k.root_page_table (omega arith) c.tree.at_root)

    walked_mapping : mapping k va ≡ leaf_of s.mem (entry p)
    unfolding translate
    walked_mapping = sym (c.kept va) ∙ ap (leaf_of s.mem) c.found

    abbrev Result : Type 0
    Result =
        (k' : Keystone E S) × (alloc_page mmap fuel va epm content mode k ≡ some (success, k'))
        × IsAllocated lo limit k k' is va flags (mode_writes mode) content

    alloc_page-old : is_valid (load64 s.mem p) ≡ true → Result
    unfolding leaf_of
    alloc_page-old v =
        let e = alloc_page-walked fuel va p k s is.is_simulated run in
        let t = take_page-valid mmap content mode flags known p (walked k s) v in
        (
          walked k s,
          e ∙ ap some t,
          record {
            after = record { is_simulated = is.is_simulated; shape = c.shape'; tree = c.tree };
            more = c.more;
            most = omega (arith, c.most);
            outcome = inl (load64 s.mem p, rw v at walked_mapping, c.kept);
            pages = c.pages;
            fresh = λ page free top. absurd (let found = rw v at walked_mapping in cc);
          },
        )

    alloc_page-new : is_valid (load64 s.mem p) ≡ false → Result
    unfolding leaf_of
    alloc_page-new v =
        let (page, tab, at) = walked_entry in
        let e = alloc_page-walked fuel va p k s is.is_simulated run in
        let top = c.tree.limit_word in
        let al = c.tree.free_aligned in
        let room' : s.free + 4096 ≤ limit = omega (arith, c.most) in
        let t =
          take_page-fresh mmap content mode flags known p (walked k s) v is.is_simulated al
            (omega arith) in
        let low = mode_flags-lt mode flags known in
        let found = rw at at c.found in
        let a = space lo limit (walked k s) in
        let w = mode_writes mode in
        (
          _,
          e ∙ ap some t,
          record {
            after = record {
              is_simulated = is.is_simulated;
              shape =
                  placed_shape s.mem k.root_page_table a c.shape' c.tree va page flags tab found low
                    room' w content;
              tree = rw at (
                  placed-IsTables s.mem k.root_page_table a c.shape' c.tree va page flags tab found
                    low room' w content);
            };
            more = omega (arith, c.more);
            most = omega (arith, c.most);
            outcome = inr (
              s.free,
              rw v at walked_mapping,
              c.more,
              refl,
              λ x.
                  rw (at, ← c.kept x)
                    (placed-translate s.mem k.root_page_table a c.shape' c.tree va page flags tab
                      found low room' w content x),
              rw at (
                  placed-content s.mem k.root_page_table a c.shape' c.tree va page flags tab found
                    low room' w content),
            );
            pages = KeepsData-trans c.pages (
                rw at (
                  placed-KeepsData s.mem k.root_page_table a c.shape' c.tree va page flags tab found
                    low room' w content));
            fresh = λ q free top.
                let same : s.free ≡ q = omega arith in
                rw (← same) (
                  placed_page s.mem k.root_page_table a c.shape' c.tree va page flags tab found low
                    room' w content);
          },
        )

  -- In a simulated enclave with room for three pages, `allocPage` from the enclave's memory, in a mode
  -- that it knows, returns success. The page tables stay a tree. Where the page was mapped no mapping
  -- changes; where it was not, it is mapped to a fresh page, with the flags of the mode, no other mapping
  -- changes, and the page holds the source's bytes if the mode writes it.
  pub alloc_page-IsAllocated :
      (lo limit fuel va : ℕ) (k : Keystone E S) (is : IsSpace lo limit k)
      → k.epm_free_list + 12288 ≤ limit
      → 2 < fuel
      → (k' : Keystone E S) × (alloc_page mmap fuel va epm content mode k ≡ some (success, k'))
        × IsAllocated lo limit k k' is va flags (mode_writes mode) content
  alloc_page-IsAllocated lo limit fuel va k is room f =
      let (p, s, run, c) =
        ept_walk_create-Created fuel k.mem k.root_page_table (space lo limit k) is.shape va is.tree
          f (omega arith) in
      elim (Bool-cases (is_valid (load64 s.mem p))) [
        | inl v ↦ alloc_page-old lo limit fuel va k is room p s c run v
        | inr v ↦ alloc_page-new lo limit fuel va k is room p s c run v
      ]
