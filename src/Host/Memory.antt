-- ===== src/Host/Memory.antt =====
-- lib/host/src/memory.cpp: how the host reaches an enclave's memory, that of a simulated enclave in
-- its own heap, and that of a real one through pages that the driver maps. `mmap` is the driver's
-- mapping of a size at an offset into the enclave, and `calloc` the C library's.
use keystone_sdk.Base.{ℕ, ◌+◌, ◌-◌, ◌^◌, ◌&&◌, ltb, leb, if◌then◌else◌, add64, sub64, bit_and}
use keystone_sdk.Memory.{Mem}

-- `SimulatedEnclaveMemory`, and `PhysicalEnclaveMemory` with its `start_phys_addr`.
pub data EnclaveMemory : Type 0 where
  simulated : EnclaveMemory
  physical : (start_phys_addr : ℕ) → EnclaveMemory

-- `init`
unfoldable pub init_memory : EnclaveMemory → (phys_addr : ℕ) → EnclaveMemory
init_memory simulated phys_addr = simulated
init_memory (physical _) phys_addr = physical phys_addr

-- `allocateAligned`, at the memory that `calloc` returned.
unfoldable pub allocate_aligned : (mem alignment : ℕ) → ℕ
allocate_aligned mem alignment =
    let mask = sub64 alignment 1 in bit_and (add64 mem mask) (2 ^ 64 - 1 - mask)

-- Memory after `size` bytes, of which `content` tells the byte at each offset, were copied to `dst`.
unfoldable pub write_bytes : (content : ℕ → ℕ) → (dst size : ℕ) → Mem → Mem
write_bytes content dst size m x =
    if leb dst x && ltb x (dst + size) then content (x - dst) else m x

-- What an allocation returns: the pointer, the memory, which `calloc` has cleared there, and the state
-- of the system.
pub record Allocated (S : Type 0) : Type 0 where
  pub ptr : ℕ
  pub mem : Mem
  pub os : S

module _ (mmap : (size offset : ℕ) → ℕ) where
  unfoldable pub alloc_mem :
      {S : Type 0} (calloc : (size : ℕ) → Mem → S → Allocated S)
      → EnclaveMemory
      → (size : ℕ) → Mem
      → S
      → Allocated S
  alloc_mem calloc simulated size m os =
      let a = calloc (add64 size 4096) m os in record a { ptr = allocate_aligned a.ptr 4096 }
  alloc_mem calloc (physical start) size m os = record { ptr = mmap 4096 0; mem = m; os = os }

  unfoldable pub read_mem : EnclaveMemory → (src size : ℕ) → ℕ
  read_mem simulated src size = src
  read_mem (physical start) src size = mmap size (sub64 src start)

  unfoldable pub write_mem : EnclaveMemory → (content : ℕ → ℕ) → (dst size : ℕ) → Mem → Mem
  unfolding write_bytes
  write_mem simulated content dst size m = write_bytes content dst size m
  write_mem (physical start) content dst size m =
      write_bytes content (mmap size (sub64 dst start)) size m
