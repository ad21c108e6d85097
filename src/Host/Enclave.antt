-- ===== src/Host/Enclave.antt =====
-- lib/host/src/keystone.cpp: the state of an enclave under construction, and the pages that are put
-- into it. `E` is the handle of the ELF library, `S` the state of the system.
pub mod Alloc
pub mod Mapped
pub mod Stack
mod Tests
use keystone_sdk.Base.{
  ℕ, zero, suc, ◌+◌, ◌-◌, ◌*◌, ◌/◌, ◌%◌, ◌^◌, Bool, true, false, Option, none, some, List, [], ltb,
  ◌==◌, if◌then◌else◌, add64, sub64, mul64,
}
use keystone_sdk.Edge.World.{Handler}
use keystone_sdk.Memory.{Mem, load64, store64}
use keystone_sdk.Host.Common.{
  page_bits, round_up, round_down, Status, success, error, rt_noexec, user_noexec, rt_full,
  user_full, utm_full, Params, default_params,
}
use keystone_sdk.Host.Elf.{ElfFile}
use keystone_sdk.Host.Memory.{EnclaveMemory, simulated, read_mem, write_mem}
use keystone_sdk.Host.Page.{Pages, is_valid, pte_create, ept_walk_create}

-- The fields of `Keystone`, with the memory and the state of the system. `none` is a null pointer.
pub record Keystone (E S : Type 0) : Type 0 where
  pub params : Params
  pub runtime_file : Option (ElfFile E)
  pub enclave_file : Option (ElfFile E)
  pub memory : EnclaveMemory
  pub hash : List ℕ
  pub untrusted_size : ℕ
  pub untrusted_start : ℕ
  pub epm_free_list : ℕ
  pub root_page_table : ℕ
  pub utm_free_list : ℕ
  pub start_addr : ℕ
  pub eid : ℕ
  pub fd : ℕ
  pub shared_buffer : ℕ
  pub shared_buffer_size : ℕ
  pub ocall_dispatch : Option (Handler S)
  pub mem : Mem
  pub os : S

-- `calculate_required_pages`; the quotients are rounded down before `ceil` sees them.
unfoldable pub calculate_required_pages : (eapp_sz rt_sz : ℕ) → ℕ
calculate_required_pages eapp_sz rt_sz = add64 (add64 (eapp_sz / 4096) (rt_sz / 4096)) 15

-- `&epm_free_list` or `&utm_free_list`
pub data FreeList : Type 0 where
  epm : FreeList
  utm : FreeList

-- The flags of an entry in a mode.
unfoldable pub mode_flags : (mode : ℕ) → Option ℕ
mode_flags mode =
    if mode == user_noexec
    then some 0x1d7
    else if mode == rt_noexec
    then some 0x1c7
    else if mode == rt_full
    then some 0x1cf
    else if mode == user_full
    then some 0x1df
    else if mode == utm_full
    then some 0x1c7
    else none

-- The modes in which the source page is written.
unfoldable pub mode_writes : (mode : ℕ) → Bool
mode_writes mode =
    if mode == rt_full then true else if mode == user_full then true else mode == utm_full

-- `nullpage`
abbrev pub null_page : ℕ → ℕ
null_page i = 0

-- The rounds of a loop in steps of a page from `start`, while it is below `end`.
abbrev pub pages_between : (start end : ℕ) → ℕ
pages_between start end = (end - start + 4095) / 4096

-- The rounds of a loop up to a number that is converted to an `int`.
unfoldable pub int_rounds : (n : ℕ) → ℕ
int_rounds n = let r = n % 2 ^ 32 in if ltb r (2 ^ 31) then r else 0

module _ {E S : Type 0} where
  unfoldable pub free_list : FreeList → Keystone E S → ℕ
  free_list epm k = k.epm_free_list
  free_list utm k = k.utm_free_list

  unfoldable pub set_free_list : FreeList → ℕ → Keystone E S → Keystone E S
  set_free_list epm a k = record k { epm_free_list = a }
  set_free_list utm a k = record k { utm_free_list = a }

  -- `mmap` is the driver's mapping of the enclave's memory.
  module _ (mmap : (size offset : ℕ) → ℕ) where
    -- The page is mapped at the entry, and filled.
    unfoldable pub set_page :
        (pte page_addr : ℕ) (content : ℕ → ℕ) (mode : ℕ)
        → Option ℕ
        → Keystone E S
        → Status × Keystone E S
    set_page pte page_addr content mode none k = (error, k)
    set_page pte page_addr content mode (some flags) k =
        let m = store64 k.mem pte (pte_create page_addr flags) in
        let dst = mul64 page_addr 4096 in
        if mode_writes mode
        then (success, record k { mem = write_mem mmap k.memory content dst 4096 m })
        else (success, record k { mem = m })

    -- The part of `allocPage` once the entry is found.
    unfoldable pub take_page :
        (pte : ℕ) (which : FreeList) (content : ℕ → ℕ) (mode : ℕ)
        → Keystone E S
        → Status × Keystone E S
    take_page pte which content mode k =
        let page_addr = free_list which k / 4096 in
        let k' = set_free_list which (add64 (free_list which k) 4096) k in
        if is_valid (load64 k.mem pte)
        then (success, k)
        else set_page pte page_addr content mode (mode_flags mode) k'

    -- `allocPage`; the source page is given by its content. `fuel` bounds the walk.
    unfoldable pub alloc_page :
        (fuel va : ℕ) (which : FreeList) (content : ℕ → ℕ) (mode : ℕ)
        → Keystone E S
        → Option (Status × Keystone E S)
    alloc_page fuel va which content mode k =
        elim (ept_walk_create (λ src. read_mem mmap k.memory src 4096) fuel k.root_page_table va
          (record { mem = k.mem; free = k.epm_free_list })) [
            | none ↦ none
            | some (pte, s) ↦ some (
                take_page pte which content mode (record k { mem = s.mem; epm_free_list = s.free }))
          ]

    -- The loop of `loadUntrusted`, from `va_start` on; an error is printed, and the loop goes on.
    unfoldable pub load_untrusted_loop :
        (fuel left va_start : ℕ) → Keystone E S → Option (Keystone E S)
    load_untrusted_loop fuel zero va_start k = some k
    load_untrusted_loop fuel (suc left) va_start k =
        elim (alloc_page fuel va_start utm null_page utm_full k) [
          | none ↦ none
          | some (code, k') ↦ load_untrusted_loop fuel left (add64 va_start 4096) k'
        ]

    unfoldable pub load_untrusted : (fuel : ℕ) → Keystone E S → Option (Status × Keystone E S)
    load_untrusted fuel k =
        let va_start = round_down k.untrusted_start page_bits in
        let va_end = round_up (add64 k.untrusted_start k.untrusted_size) page_bits in
        elim (load_untrusted_loop fuel (pages_between va_start va_end) va_start k) [
          | none ↦ none
          | some k' ↦ some (success, k')
        ]

    -- The loop of `initStack`.
    unfoldable pub init_stack_loop :
        (fuel left va mode : ℕ) → Keystone E S → Option (Status × Keystone E S)
    init_stack_loop fuel zero va mode k = some (success, k)
    init_stack_loop fuel (suc left) va mode k = elim (alloc_page fuel va epm null_page mode k) [
      | none ↦ none
      | some (error, k') ↦ some (error, k')
      | some (success, k') ↦ init_stack_loop fuel left (add64 va 4096) mode k'
    ]

    unfoldable pub init_stack :
        (fuel start size : ℕ) (is_rt : Bool) → Keystone E S → Option (Status × Keystone E S)
    init_stack fuel start size is_rt k =
        let high_addr = round_up start page_bits in
        let va = round_down (sub64 high_addr size) page_bits in
        init_stack_loop fuel (int_rounds (sub64 high_addr va / 4096)) va
          (if is_rt then rt_noexec else user_noexec) k
