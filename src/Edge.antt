-- ===== src/Edge.antt =====
-- lib/edge: edge calls between an enclave and its host through a shared region.
pub mod Shared
pub mod Call
pub mod World
pub mod Dispatch
pub mod Syscall
mod Tests
