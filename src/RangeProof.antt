-- ===== src/RangeProof.antt =====
-- The range proofs: src/errors.rs, src/range_proof.rs, src/rewindable_range_proof.rs and
-- src/ristretto/dalek_range_proof.rs, which wraps the `bulletproofs` package.
pub mod Bulletproofs
pub mod Service
pub mod New
pub mod Rewind
pub mod Traits
