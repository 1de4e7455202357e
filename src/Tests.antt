-- ===== src/Tests.antt =====
-- Concrete parameters, and the theorems applied to them.
mod Field
mod Externals
mod Inputs
mod Signing
mod Joint
mod Ceremony
mod Calls
mod Proofs
mod Ring
mod Honest
mod Formats
mod Browser
mod Classes
