-- ===== src/MuSig.antt =====
-- src/ristretto/musig.rs: the MuSig ceremony. The source fixes the key types to the Ristretto keys;
-- here they are those of any key system.
pub mod States
pub mod Places
pub mod Vacant
pub mod Filling
pub mod Totals
pub mod Rounds
pub mod Machine
pub mod Query
pub mod Invariant
pub mod Early
pub mod Nonces
pub mod Sums
pub mod Signing
pub mod Runs
pub mod Partial
pub mod Seats
pub mod Gather
pub mod Honest
pub mod Append
pub mod Roster
pub mod Single
pub mod Parts
pub mod Shares
pub mod Complete
pub mod Ceremony
pub mod Phases
pub mod Forward
pub mod Swap
pub mod Late
