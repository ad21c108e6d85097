-- ===== src/App.antt =====
-- lib/app: the library that enclave applications link, in place of a C library.
pub mod Calls
pub mod Malloc
pub mod Str
