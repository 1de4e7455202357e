-- ===== src/RangeProof/Traits.antt =====
-- The traits of src/range_proof.rs and src/rewindable_range_proof.rs as interfaces, and the service
-- of src/ristretto/dalek_range_proof.rs as their implementation.
use tari_crypto.Base.{ℕ, Bool, Bytes, Result}
use tari_crypto.Commitment.{HomomorphicCommitment}
use tari_crypto.Ristretto.Dalek.{Dalek}
use tari_crypto.Ristretto.Keys.{RistrettoSecretKey, RistrettoPublicKey}
use tari_crypto.RangeProof.Bulletproofs.{Array, Bulletproofs}
use tari_crypto.RangeProof.Service.{
  user_message_length, DalekRangeProofService, RangeProofError, RewindResult, FullRewindResult,
  construct_proof, verify, construct_proof_with_rewind_key, rewind_proof_value_only,
  rewind_proof_commitment_data,
}

pub record RangeProofService (Proof K P : Type 0) : Type 0 where
  pub construct_proof : K → ℕ → Result RangeProofError Proof
  pub verify : Proof → HomomorphicCommitment P → Bool
  pub range : ℕ

pub record RewindableRangeProofService (Proof K P : Type 0) : Type 0 where
  pub construct_proof_with_rewind_key :
      K → ℕ → K → K → Array user_message_length → Result RangeProofError Proof
  pub rewind_proof_value_only :
      Proof → HomomorphicCommitment P → P → P → Result RangeProofError RewindResult
  pub rewind_proof_commitment_data :
      Proof → HomomorphicCommitment P → K → K → Result RangeProofError (FullRewindResult K)

module _ {dk : Dalek} (bp : Bulletproofs dk) where
  unfoldable pub range : DalekRangeProofService bp → ℕ
  range s = s.range

  unfoldable pub range_proof_service :
      DalekRangeProofService bp
      → RangeProofService Bytes (RistrettoSecretKey dk) (RistrettoPublicKey dk)
  unfolding range construct_proof verify
  range_proof_service s = record {
    construct_proof = construct_proof bp s;
    verify = verify bp s;
    range = range s;
  }

  unfoldable pub rewindable_range_proof_service :
      DalekRangeProofService bp
      → RewindableRangeProofService Bytes (RistrettoSecretKey dk) (RistrettoPublicKey dk)
  unfolding construct_proof_with_rewind_key rewind_proof_value_only rewind_proof_commitment_data
  rewindable_range_proof_service s = record {
    construct_proof_with_rewind_key = construct_proof_with_rewind_key bp s;
    rewind_proof_value_only = rewind_proof_value_only bp s;
    rewind_proof_commitment_data = rewind_proof_commitment_data bp s;
  }
