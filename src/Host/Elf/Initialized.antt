-- ===== src/Host/Elf/Initialized.antt =====
-- What an ELF file that was initialised satisfies.
use keystone_sdk.Base.{◌+◌, ◌%◌, ◌-◌, ◌^◌, ◌≤◌, ◌<◌, ◌≡◌, ◌↔◌, arith, Bool, true}
use keystone_sdk.Host.Common.Rounding.{round_up_lem, is_aligned_iff}
use keystone_sdk.Host.Elf.{Libelf, ElfFile, is_valid_file, initialize, total_memory_size}

-- For bounds in order and at most 2^64 - 4096: a file is initialised exactly when it was opened and
-- mapped, the ELF library accepts it, and its lowest address is a multiple of the page size. Then its size
-- in memory is a multiple of the page size, covers the bounds, and exceeds them by less than a page.
pub initialize_iff :
    {E : Type 0}
    → (lib : Libelf E) (is_runtime : Bool) (f : ElfFile E)
    → let elf = (lib.new_file f.ptr f.file_size).1 in
      let low = (lib.memory_bounds elf).0 in
      let high = (lib.memory_bounds elf).1 in
      let out = initialize lib is_runtime f in
      low ≤ high
      → high ≤ 2 ^ 64 - 4096
      → ((out.0 ≡ true) ↔ (
          (is_valid_file f ≡ true) × ((lib.new_file f.ptr f.file_size).0 ≡ 0) × (low % 4096 ≡ 0)))
        × (out.0 ≡ true
            → (total_memory_size out.1 % 4096 ≡ 0)
              × (high ≤ low + total_memory_size out.1)
              × (low + total_memory_size out.1 < high + 4096)
              × (out.1.is_runtime ≡ is_runtime))
unfolding initialize total_memory_size
initialize_iff lib is_runtime f order bound =
    let elf = (lib.new_file f.ptr f.file_size).1 in
    let low = (lib.memory_bounds elf).0 in
    let high = (lib.memory_bounds elf).1 in
    let rounded = round_up_lem high bound in
    let aligned = is_aligned_iff low in ((λ h. ground arith, λ h. ground arith), λ h. ground arith)
