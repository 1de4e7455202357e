-- ===== src/Signatures.antt =====
-- src/signatures: the two kinds of signature, over any key system.
pub mod Schnorr
pub mod CommitmentSignature
