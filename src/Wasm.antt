-- ===== src/Wasm.antt =====
-- src/wasm: the functions that JavaScript programs call. Keys travel as hexadecimal text.
pub mod Hex
pub mod KeyUtils
pub mod ComSigUtils
pub mod ComSigChecks
pub mod KeyRing
pub mod Checks
pub mod RingLaws
pub mod RingSpec
pub mod Commitments
pub mod RangeProofs
