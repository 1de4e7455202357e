-- ===== src/Hash.antt =====
-- src/hash: the hash of 32 bytes that the library offers.
pub mod Blake2
