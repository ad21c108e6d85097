-- ===== src/Host/Init.antt =====
-- lib/host/src/keystone.cpp: how an enclave is opened, created, loaded, measured and destroyed. A null
-- pointer to an ELF file is `none`; an `int` is its 32-bit pattern.
pub mod Closed
pub mod Create
pub mod Run
mod Tests
use keystone_sdk.Base.{
  ℕ, zero, suc, ◌+◌, ◌-◌, ◌*◌, ◌/◌, ◌%◌, ◌^◌, Bool, true, false, not, ◌&&◌, ◌||◌, Option, none,
  some, List, ◌++◌, ltb, ◌==◌, if◌then◌else◌, add64, sub64, mul64, int_minus_one,
}
use keystone_sdk.Memory.{Mem}
use keystone_sdk.Host.Common.{Status, success, error, Params, page_bits, round_up}
use keystone_sdk.Host.Device.{RuntimeParams, CreateEnclave, System}
use keystone_sdk.Host.Elf.{
  ElfFile, new_elf_file, delete_elf_file, initialize, is_valid_file, total_memory_size,
  get_entry_point,
}
use keystone_sdk.Host.Enclave.{Keystone, calculate_required_pages}
use keystone_sdk.Host.Measure.{HashEnclave, Walk, hash_extend, word_bytes, validate_and_hash_epm}
use keystone_sdk.Host.Memory.{EnclaveMemory, simulated, physical, init_memory, alloc_mem}

-- `fd < 0` and the like
unfoldable pub is_negative : (int : ℕ) → Bool
is_negative int = not (ltb int (2 ^ 31))

unfoldable pub is_some : {A : Type 0} → Option A → Bool
is_some none = false
is_some (some x) = true

-- The fields that the constructor sets.
unfoldable pub new_keystone : {E S : Type 0} → (unset : Keystone E S) → Keystone E S
new_keystone unset = record unset {
  runtime_file = none;
  enclave_file = none;
  untrusted_size = 0;
  untrusted_start = 0;
  epm_free_list = 0;
  root_page_table = 0;
  start_addr = 0;
  eid = int_minus_one;
}

-- The bytes of `struct runtime_params_t`.
unfoldable pub params_bytes : RuntimeParams → List ℕ
params_bytes p =
    word_bytes 8 p.runtime_entry
    ++ word_bytes 8 p.user_entry
    ++ word_bytes 8 p.untrusted_ptr
    ++ word_bytes 8 p.untrusted_size

module _ {E S H : Type 0} (sys : System E S H) where
  unfoldable pub delete_file : Option (ElfFile E) → S → S
  delete_file none os = os
  delete_file (some f) os = delete_elf_file sys.files f os

  -- The end of `destroy`, where the files are deleted.
  unfoldable pub delete_files : Keystone E S → Keystone E S
  delete_files k = record k {
    enclave_file = none;
    runtime_file = none;
    os = delete_file k.runtime_file (delete_file k.enclave_file k.os);
  }

  unfoldable pub destroy : Keystone E S → Status × Keystone E S
  destroy k =
      let answer = sys.driver.destroy_enclave k.fd k.eid k.mem k.os in
      let k' = record k { mem = answer.mem; os = answer.os } in
      if is_negative k.eid
      then (success, delete_files k)
      else if answer.ret == 0
      then (success, delete_files k')
      else (error, k')

  -- The destructor, which deletes the files, and then calls `destroy` with the pointers as they were.
  unfoldable pub delete_keystone : Keystone E S → Status × Keystone E S
  delete_keystone k =
      destroy (record k { os = delete_file k.enclave_file (delete_file k.runtime_file k.os) })

  -- `initFiles`; `some` is true, with what the two pointers lead to. The arguments `unset` are the fields
  -- that the constructor of a file does not set.
  unfoldable pub init_files :
      (unset unset' : ElfFile E) (eapp_path runtime_path : List ℕ)
      → Keystone E S
      → Option (ElfFile E × ElfFile E) × Keystone E S
  init_files unset unset' eapp_path runtime_path k =
      let (rt, os1) = new_elf_file sys.files unset runtime_path k.os in
      let (app, os2) = new_elf_file sys.files unset' eapp_path os1 in
      let (rt_code, rt') = initialize sys.lib true rt in
      let (app_code, app') = initialize sys.lib false app in
      let k1 = record k { runtime_file = some rt'; enclave_file = some app; os = os2 } in
      let k2 = record k { runtime_file = some rt'; enclave_file = some app'; os = os2 } in
      if is_some k.runtime_file || is_some k.enclave_file
      then (none, k)
      else if not rt_code
      then (none, (destroy k1).1)
      else if not app_code || not (is_valid_file rt') || not (is_valid_file app')
      then (none, (destroy k2).1)
      else (some (rt', app'), k2)

  unfoldable pub init_device : Keystone E S → Bool × Keystone E S
  init_device k =
      let (fd, os) = sys.driver.open_device k.os in
      if k.params.simulated
      then (true, k)
      else (not (is_negative fd), record k { fd = fd; os = os })

  -- What `prepareEnclave` asks the driver for.
  unfoldable pub request : (rt app : ElfFile E) → Params → CreateEnclave → CreateEnclave
  request rt app p enclp = record enclp {
    params = record {
      runtime_entry = get_entry_point sys.lib rt;
      user_entry = get_entry_point sys.lib app;
      untrusted_ptr = p.untrusted;
      untrusted_size = p.untrusted_size;
    };
    min_pages =
        add64 (round_up p.freemem_size page_bits / 4096)
          (calculate_required_pages (total_memory_size app) (total_memory_size rt));
    runtime_vaddr = rt.min_vaddr;
    user_vaddr = app.min_vaddr;
  }

  -- The parts of `prepareEnclave` for a simulated enclave, and for a created one.
  unfoldable pub prepare_simulated : CreateEnclave → Keystone E S → Keystone E S
  prepare_simulated enclp k =
      let memory = init_memory k.memory 0 in
      let root =
        alloc_mem sys.driver.map_pages sys.calloc memory (mul64 4096 enclp.min_pages) k.mem k.os in
      record k {
        eid = int_minus_one;
        memory = memory;
        root_page_table = root.ptr;
        start_addr = root.ptr;
        epm_free_list = add64 root.ptr 4096;
        mem = root.mem;
        os = root.os;
      }

  unfoldable pub prepare_created :
      (alternate_phys_addr : ℕ) → CreateEnclave → Keystone E S → Keystone E S
  prepare_created alternate_phys_addr enclp k =
      let start = if alternate_phys_addr == 0 then enclp.pt_ptr else alternate_phys_addr in
      let memory = init_memory k.memory start in
      let root = alloc_mem sys.driver.map_pages sys.calloc memory 4096 k.mem k.os in
      record k {
        memory = memory;
        eid = enclp.eid % 2 ^ 32;
        start_addr = start;
        root_page_table = root.ptr;
        epm_free_list = add64 start 4096;
        mem = root.mem;
        os = root.os;
      }

  -- `prepareEnclave`, with `*enclp`.
  unfoldable pub prepare_enclave :
      (rt app : ElfFile E) (alternate_phys_addr : ℕ)
      → CreateEnclave
      → Keystone E S
      → Bool × CreateEnclave × Keystone E S
  prepare_enclave rt app alternate_phys_addr enclp k =
      let asked = request rt app k.params enclp in
      let k' = record k {
        untrusted_size = k.params.untrusted_size;
        untrusted_start = k.params.untrusted;
      } in
      let answer = sys.driver.create_enclave k.fd asked k.mem k.os in
      let k'' = record k' { mem = answer.mem; os = answer.os } in
      if k.params.simulated
      then (true, asked, prepare_simulated asked k')
      else if answer.ret == 0
      then (true, answer.enclp, prepare_created alternate_phys_addr answer.enclp k'')
      else (false, answer.enclp, k'')

  unfoldable pub validate_and_hash_enclave :
      RuntimeParams → HashEnclave → Keystone E S → Status × Keystone E S
  validate_and_hash_enclave args cargs k =
      let w =
        hash_extend sys.sha3.update (params_bytes args)
          (record { hash = sys.sha3.init 64; runtime_max = 0; user_max = 0 }) in
      let (code, w') =
        validate_and_hash_epm sys.sha3.update cargs k.mem 2 k.root_page_table 0 0 w in
      if code == int_minus_one
      then (error, k)
      else (success, record k { hash = sys.sha3.final w'.hash })

  unfoldable pub map_untrusted : (size : ℕ) → Keystone E S → Status × Keystone E S
  map_untrusted size k =
      let (ptr, os) = sys.driver.map_shared size k.fd k.os in
      if size == 0
      then (success, k)
      else if ptr == 0
      then (error, record k { shared_buffer = ptr; os = os })
      else (success, record k { shared_buffer = ptr; shared_buffer_size = size; os = os })
