-- ===== src/Ffi.antt =====
-- src/ffi: the functions that C programs call. An address is a number, 0 the null pointer.
pub mod Memory
pub mod Error
pub mod Lookup
pub mod Keys
pub mod Signing
pub mod Nulls
pub mod Panics
pub mod Comsig
