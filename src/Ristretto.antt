-- ===== src/Ristretto.antt =====
-- src/ristretto: the keys and commitments on the ristretto255 group.
pub mod Dalek
pub mod Keys
pub mod KeyLaws
pub mod Constants
pub mod Pedersen
pub mod PedersenLaws
pub mod Conversions
pub mod Serialize
pub mod Utils
pub mod Classes
