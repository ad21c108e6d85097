-- ===== src/Host/Device.antt =====
-- The structures of lib/host/include/keystone_user.h, and what keystone.cpp calls: the driver through
-- `ioctl` and `mmap`, the C library and SHA-3. `S` is the state of the system, the running enclaves
-- included, and `H` a hash context. An `int` is its 32-bit pattern.
use keystone_sdk.Base.{ℕ, List}
use keystone_sdk.Memory.{Mem}
use keystone_sdk.Host.Elf.{Libelf, FileSystem}
use keystone_sdk.Host.Memory.{Allocated}

-- `struct runtime_params_t`
pub record RuntimeParams : Type 0 where
  pub runtime_entry : ℕ
  pub user_entry : ℕ
  pub untrusted_ptr : ℕ
  pub untrusted_size : ℕ

-- `struct keystone_ioctl_create_enclave`
pub record CreateEnclave : Type 0 where
  pub eid : ℕ
  pub min_pages : ℕ
  pub runtime_vaddr : ℕ
  pub user_vaddr : ℕ
  pub pt_ptr : ℕ
  pub utm_free_ptr : ℕ
  pub epm_paddr : ℕ
  pub utm_paddr : ℕ
  pub runtime_paddr : ℕ
  pub user_paddr : ℕ
  pub free_paddr : ℕ
  pub epm_size : ℕ
  pub utm_size : ℕ
  pub params : RuntimeParams

-- What an `ioctl` on such a structure returns, and leaves behind.
pub record Answer (S : Type 0) : Type 0 where
  pub ret : ℕ
  pub enclp : CreateEnclave
  pub mem : Mem
  pub os : S

-- The same for those that take the number of an enclave.
pub record Stop (S : Type 0) : Type 0 where
  pub ret : ℕ
  pub mem : Mem
  pub os : S

pub record Driver (S : Type 0) : Type 0 where
  pub open_device : S → ℕ × S
  pub create_enclave : (fd : ℕ) → CreateEnclave → Mem → S → Answer S
  pub utm_init : (fd : ℕ) → CreateEnclave → Mem → S → Answer S
  pub finalize_enclave : (fd : ℕ) → CreateEnclave → Mem → S → Answer S
  pub destroy_enclave : (fd eid : ℕ) → Mem → S → Stop S
  pub run_enclave : (fd eid : ℕ) → Mem → S → Stop S
  pub resume_enclave : (fd eid : ℕ) → Mem → S → Stop S
  pub map_shared : (size fd : ℕ) → S → ℕ × S
  pub map_pages : (size offset : ℕ) → ℕ

-- `sha3_init`, `sha3_update` and `sha3_final`
pub record Sha3 (H : Type 0) : Type 0 where
  pub init : (md_size : ℕ) → H
  pub update : List ℕ → H → H
  pub final : H → List ℕ

pub record System (E S H : Type 0) : Type 0 where
  pub lib : Libelf E
  pub files : FileSystem S
  pub driver : Driver S
  pub sha3 : Sha3 H
  pub calloc : (size : ℕ) → Mem → S → Allocated S
