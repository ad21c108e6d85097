-- ===== src/Host/Tests.antt =====
-- A run of the measurement walk over a small page table.
use keystone_sdk.Base.{ℕ, ◌+◌, ◌≡◌, refl, arith, List}
use keystone_sdk.Memory.{Mem, load64, store64}
use keystone_sdk.Host.Measure.{
  HashEnclave, Walk, phys_addr, virtual_page, page_address, map_in_epm, map_in_utm, in_runtime,
  in_user, in_untrusted, hash_extend, hash_extend_page, check_leaf, validate_leaf, validate_entry,
  validate_entries, validate_and_hash_epm,
}
use keystone_sdk.Host.Measure.Leaves.{Every, IsValid, Linear, leaves, runtime_leaf, user_leaf}
use keystone_sdk.Host.Measure.Linear.{validate_and_hash_epm-Linear}

abbrev parts : HashEnclave
parts = record {
  epm_paddr = 0x1000;
  epm_size = 0x10000;
  utm_paddr = 0x100000;
  utm_size = 0x1000;
  runtime_paddr = 0x4000;
  user_paddr = 0x5000;
  free_paddr = 0x8000;
  untrusted_ptr = 0x80000000;
  untrusted_size = 0x1000;
}

-- The table at 0x2000 leads to that at 0x3000, which maps two pages of the application.
abbrev tables : Mem
tables = store64 (store64 (store64 (λ _. 0) 0x2000 3073) 0x3000 5151) 0x3008 6175

-- A hash that counts its updates.
abbrev count_updates : List ℕ → ℕ → ℕ
count_updates bytes n = n + 1

abbrev begin_walk : Walk ℕ
begin_walk = record { hash = 0; runtime_max = 0; user_max = 0 }

walk_code : (validate_and_hash_epm count_updates parts tables 1 0x2000 0 0 begin_walk).0 ≡ 0
unfolding validate_and_hash_epm validate_entries validate_entry validate_leaf check_leaf hash_extend
    hash_extend_page phys_addr virtual_page page_address map_in_epm map_in_utm in_runtime in_user
    in_untrusted load64 store64
walk_code = refl

validate_and_hash_epm-Linear_example :
    Every (IsValid parts) (leaves tables 1 0x2000 0)
    × Linear (runtime_leaf parts) (leaves tables 1 0x2000 0)
    × Linear (user_leaf parts) (leaves tables 1 0x2000 0)
validate_and_hash_epm-Linear_example =
    validate_and_hash_epm-Linear count_updates parts tables 1 0x2000 0 0 begin_walk
      (λ e. omega (arith, walk_code))
