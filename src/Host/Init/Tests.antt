-- ===== src/Host/Init/Tests.antt =====
-- A run with one edge call, and an enclave whose device cannot be opened.
use keystone_sdk.Base.{
  ℕ, suc, ◌-◌, ◌<◌, ◌≡◌, ◌↔◌, refl, false, some, List, [], length, int_minus_one,
}
use keystone_sdk.Memory.{Mem}
use keystone_sdk.Host.Common.{success, error, default_params, is_aligned}
use keystone_sdk.Host.Device.{CreateEnclave, Answer, Driver, System}
use keystone_sdk.Host.Elf.{Libelf, FileSystem, ElfFile, initialize, new_elf_file, delete_elf_file}
use keystone_sdk.Host.Enclave.{Keystone}
use keystone_sdk.Host.Init.{
  is_negative, is_some, delete_file, delete_files, destroy, init_files, init_device,
}
use keystone_sdk.Host.Init.Closed.{Settled, init-Settled}
use keystone_sdk.Host.Init.Create.{Request, choose_memory, settle, build, after_files, init}
use keystone_sdk.Host.Init.Run.{run}
use keystone_sdk.Host.Init.Run.Rounds.{Rounds, Returned, run_iff}
use keystone_sdk.Host.Memory.{physical}
use keystone_sdk.Host.Sample.{sample}

-- The state of the system is the number of open files.
abbrev sample_files : FileSystem ℕ
sample_files = record {
  open_file = λ path os. (3, suc os);
  fstat = λ fd os. (0, 100);
  map_file = λ size fd os. (0x5000, os);
  close_file = λ fd ptr size os. os - 1;
}

abbrev sample_lib : Libelf ℕ
sample_lib = record {
  new_file = λ ptr size. (0, 0);
  memory_bounds = λ e. (0x1000, 0x3000);
  num_program_headers = λ e. 0;
  header_type = λ e i. 0;
  header_file_size = λ e i. 0;
  header_memory_size = λ e i. 0;
  header_vaddr = λ e i. 0;
  entry_point = λ e. 0x1000;
  program_segment = λ e i j. 0;
}

abbrev agree : CreateEnclave → Mem → ℕ → Answer ℕ
agree enclp m os = record { ret = 0; enclp = enclp; mem = m; os = os }

-- The device cannot be opened; an enclave that runs makes one edge call.
abbrev sample_driver : Driver ℕ
sample_driver = record {
  open_device = λ os. (int_minus_one, os);
  create_enclave = λ fd enclp m os. agree enclp m os;
  utm_init = λ fd enclp m os. agree enclp m os;
  finalize_enclave = λ fd enclp m os. agree enclp m os;
  destroy_enclave = λ fd eid m os. record { ret = 0; mem = m; os = os };
  run_enclave = λ fd eid m os. record { ret = 11; mem = m; os = os };
  resume_enclave = λ fd eid m os. record { ret = 0; mem = m; os = os };
  map_shared = λ size fd os. (0x9000, os);
  map_pages = λ size offset. 0;
}

abbrev sample_system : System ℕ ℕ ℕ
sample_system = record {
  lib = sample_lib;
  files = sample_files;
  driver = sample_driver;
  sha3 = record { init = λ size. 0; update = λ bytes h. suc h; final = λ h. [] };
  calloc = λ size m os. record { ptr = 0x10000; mem = m; os = os };
}

abbrev created : Keystone ℕ ℕ
created = record sample { params = default_params; eid = 1 }

run_iff_example : (run sample_system 5 created ≡ some (success, created)) ↔ (
    (stops : List ℕ) × (last : ℕ) × (end : Keystone ℕ ℕ) × Rounds sample_system 11 created stops
      last end
    × (length stops < 5)
    × Returned sample_system last end success created)
run_iff_example = run_iff sample_system 5 created success created refl

abbrev unset_file : ElfFile ℕ
unset_file = record {
  filep = 0;
  min_vaddr = 0;
  max_vaddr = 0;
  ptr = 0;
  file_size = 0;
  is_runtime = false;
  elf = 0;
}

abbrev unset_enclp : CreateEnclave
unset_enclp = record {
  eid = 0;
  min_pages = 0;
  runtime_vaddr = 0;
  user_vaddr = 0;
  pt_ptr = 0;
  utm_free_ptr = 0;
  epm_paddr = 0;
  utm_paddr = 0;
  runtime_paddr = 0;
  user_paddr = 0;
  free_paddr = 0;
  epm_size = 0;
  utm_size = 0;
  params = record { runtime_entry = 0; user_entry = 0; untrusted_ptr = 0; untrusted_size = 0 };
}

abbrev sample_request : Request ℕ
sample_request = record {
  eapp_path = [];
  runtime_path = [];
  params = default_params;
  alternate_phys_addr = 0;
  unset_runtime = unset_file;
  unset_enclave = unset_file;
  unset_enclp = unset_enclp;
  unset_hash = record {
    epm_paddr = 0;
    epm_size = 0;
    utm_paddr = 0;
    utm_size = 0;
    runtime_paddr = 0;
    user_paddr = 0;
    free_paddr = 0;
    untrusted_ptr = 0;
    untrusted_size = 0;
  };
}

-- Both files are opened, the device is not, and both are closed again.
abbrev left_over : Keystone ℕ ℕ
left_over = record sample { params = default_params; memory = physical 0; fd = int_minus_one }

init_run : init sample_system 3 3 sample_request sample ≡ some (error, left_over)
unfolding init after_files init_files is_some choose_memory initialize new_elf_file is_aligned
    settle build init_device is_negative destroy delete_files delete_file delete_elf_file
init_run = refl

init-Settled_example : Settled sample_system error left_over
init-Settled_example =
    init-Settled sample_system 3 3 sample_request sample (refl, refl) error left_over init_run
