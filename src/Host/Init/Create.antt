-- ===== src/Host/Init/Create.antt =====
-- `init` of lib/host/src/keystone.cpp, from the two files to an enclave that is ready to run, built
-- without USE_FREEMEM.
use keystone_sdk.Base.{
  ℕ, false, not, Option, none, some, List, ◌==◌, if◌then◌else◌, add64, sub64, mul64,
}
use keystone_sdk.Host.Common.{
  Status, success, error, Params, default_stack_start, default_stack_size,
}
use keystone_sdk.Host.Device.{CreateEnclave, System}
use keystone_sdk.Host.Elf.{ElfFile}
use keystone_sdk.Host.Enclave.{Keystone, init_stack, load_untrusted}
use keystone_sdk.Host.Load.{load_elf, then_step}
use keystone_sdk.Host.Init.{
  destroy, delete_files, init_files, init_device, prepare_enclave, validate_and_hash_enclave,
  map_untrusted,
}
use keystone_sdk.Host.Measure.{HashEnclave}
use keystone_sdk.Host.Memory.{simulated, physical, alloc_mem}

-- `enclp` and `hash_enclave`, with the enclave.
pub record Building (E S : Type 0) : Type 0 where
  pub enclp : CreateEnclave
  pub hash_enclave : HashEnclave
  pub k : Keystone E S

-- The arguments of `init`, and what the variables hold that it does not set.
pub record Request (E : Type 0) : Type 0 where
  pub eapp_path : List ℕ
  pub runtime_path : List ℕ
  pub params : Params
  pub alternate_phys_addr : ℕ
  pub unset_runtime : ElfFile E
  pub unset_enclave : ElfFile E
  pub unset_enclp : CreateEnclave
  pub unset_hash : HashEnclave

unfoldable pub choose_memory : {E S : Type 0} → Params → Keystone E S → Keystone E S
choose_memory p k = record k { params = p; memory = if p.simulated then simulated else physical 0 }

module _ {E S H : Type 0} (sys : System E S H) where
  -- After an error `destroy` is called; otherwise the files are deleted.
  unfoldable pub settle : Option (Status × Keystone E S) → Option (Status × Keystone E S)
  settle none = none
  settle (some (error, k)) = some (error, (destroy sys k).1)
  settle (some (success, k)) = some (success, delete_files sys k)

module _ {E S H : Type 0} (sys : System E S H) (walk_fuel fuel : ℕ) where
  -- `(data_start - start_addr) + enclp.pt_ptr`
  unfoldable pub in_enclave : (addr : ℕ) → Building E S → ℕ
  in_enclave addr b = add64 (sub64 addr b.k.start_addr) b.enclp.pt_ptr

  -- The loading of a file; `record_at` keeps where its data starts and ends.
  unfoldable pub load_file :
      ElfFile E
      → (record_at : (start end : ℕ) → Building E S → Building E S) → Building E S
      → Option (Status × Building E S)
  load_file f record_at b = elim (load_elf sys.driver.map_pages sys.lib walk_fuel fuel f b.k) [
    | none ↦ none
    | some (error, start, k) ↦ some (error, record b { k = k })
    | some (success, start, k) ↦
        some (success, record_at start k.epm_free_list (record b { k = k }))
  ]

  unfoldable pub runtime_at : (start end : ℕ) → Building E S → Building E S
  runtime_at start end b = record b {
    hash_enclave = record b.hash_enclave { runtime_paddr = end };
    enclp = record b.enclp { runtime_paddr = in_enclave start b };
  }

  unfoldable pub user_at : (start end : ℕ) → Building E S → Building E S
  user_at start end b = record b {
    hash_enclave = record b.hash_enclave { user_paddr = end };
    enclp = record b.enclp { user_paddr = in_enclave start b };
  }

  unfoldable pub static_stack : Building E S → Option (Status × Building E S)
  static_stack b =
      elim (init_stack sys.driver.map_pages walk_fuel default_stack_start default_stack_size false
        b.k) [ none ↦ none | some (code, k) ↦ some (code, record b { k = k }) ]

  -- The untrusted memory of a simulated enclave, and of a created one.
  unfoldable pub simulated_utm : Building E S → Building E S
  simulated_utm b =
      let utm =
        alloc_mem sys.driver.map_pages sys.calloc b.k.memory b.enclp.params.untrusted_size b.k.mem
          b.k.os in
      record b {
        k = record b.k { utm_free_list = utm.ptr; mem = utm.mem; os = utm.os };
        hash_enclave = record b.hash_enclave {
          free_paddr = in_enclave b.k.epm_free_list b;
          utm_paddr = utm.ptr;
        };
      }

  unfoldable pub created_utm : Building E S → Option (Status × Building E S)
  created_utm b =
      let answer = sys.driver.utm_init b.k.fd b.enclp b.k.mem b.k.os in
      let k = record b.k { mem = answer.mem; os = answer.os } in
      if answer.ret == 0
      then some (
        success,
        record b {
          enclp = answer.enclp;
          k = record k { utm_free_list = answer.enclp.utm_free_ptr };
        },
      )
      else some (error, record b { enclp = answer.enclp; k = k })

  unfoldable pub open_utm : Building E S → Option (Status × Building E S)
  open_utm b = if b.k.params.simulated then some (success, simulated_utm b) else created_utm b

  -- `loadUntrusted`, whose code is not read, and `enclp.free_paddr`.
  unfoldable pub fill_utm : Building E S → Option (Status × Building E S)
  fill_utm b = elim (load_untrusted sys.driver.map_pages walk_fuel b.k) [
    | none ↦ none
    | some (code, k) ↦ some (
      success,
      record b {
        k = k;
        enclp = record b.enclp { free_paddr = in_enclave k.epm_free_list (record b { k = k }) };
      },
    )
  ]

  unfoldable pub measured : Building E S → HashEnclave
  measured b = record b.hash_enclave {
    utm_size = b.k.params.untrusted_size;
    epm_size = mul64 4096 b.enclp.min_pages;
    epm_paddr = b.k.root_page_table;
    untrusted_ptr = b.enclp.params.untrusted_ptr;
    untrusted_size = b.enclp.params.untrusted_size;
  }

  unfoldable pub finalize_created : Building E S → Status × Keystone E S
  finalize_created b =
      let answer = sys.driver.finalize_enclave b.k.fd b.enclp b.k.mem b.k.os in
      let k = record b.k { mem = answer.mem; os = answer.os } in
      if answer.ret == 0 then map_untrusted sys b.k.params.untrusted_size k else (error, k)

  -- The measurement of a simulated enclave, whose code is not read, or the driver's.
  unfoldable pub finalize : Building E S → Status × Keystone E S
  finalize b =
      if b.k.params.simulated
      then (success, (validate_and_hash_enclave sys b.enclp.params (measured b) b.k).1)
      else finalize_created b

  unfoldable pub load_all : (rt app : ElfFile E) → Building E S → Option (Status × Building E S)
  load_all rt app b =
      then_step
        (then_step
          (then_step (then_step (load_file rt runtime_at b) (load_file app user_at)) static_stack)
          open_utm)
        fill_utm

  unfoldable pub complete : Option (Status × Building E S) → Option (Status × Keystone E S)
  complete none = none
  complete (some (error, b)) = some (error, b.k)
  complete (some (success, b)) = some (finalize b)

  -- The part of `init` between `initFiles` and the end, up to the first error.
  unfoldable pub build :
      Request E → (rt app : ElfFile E) → Keystone E S → Option (Status × Keystone E S)
  build r rt app k =
      let (opened, k1) = init_device sys k in
      let (created, enclp, k2) =
        prepare_enclave sys rt app r.alternate_phys_addr r.unset_enclp k1 in
      if not opened
      then some (error, k1)
      else if not created
      then some (error, k2)
      else complete
          (load_all rt app (record { enclp = enclp; hash_enclave = r.unset_hash; k = k2 }))

  unfoldable pub after_files :
      Request E → Option (ElfFile E × ElfFile E) → Keystone E S → Option (Status × Keystone E S)
  after_files r none k = some (error, k)
  after_files r (some (rt, app)) k = settle sys (build r rt app k)

  unfoldable pub init : Request E → Keystone E S → Option (Status × Keystone E S)
  init r k =
      let (files, k1) =
        init_files sys r.unset_runtime r.unset_enclave r.eapp_path r.runtime_path
          (choose_memory r.params k) in
      after_files r files k1
