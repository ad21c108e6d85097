-- ===== src/Host.antt =====
-- lib/host, which prepares and measures an enclave before it runs.
pub mod Common
pub mod Device
pub mod Elf
pub mod Enclave
pub mod Init
pub mod Load
pub mod Measure
pub mod Memory
pub mod Page
mod Sample
mod Tests
