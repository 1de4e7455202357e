-- ===== src/Wasm/RangeProofs.antt =====
-- src/wasm/range_proofs.rs: range proofs in hexadecimal.
use tari_crypto.Base.{
  ℕ, ◌<◌, ◌^◌, ◌≡◌, refl, ap, ◌∙◌, sym, inl, inr, Bool, true, false, Bytes, [], Option, none, some,
  ok, err, Run, done, ◌>>=◌, expect, Option-cases, arith,
}
use tari_crypto.Ristretto.Dalek.{Dalek, DalekLaws}
use tari_crypto.Ristretto.Keys.{RistrettoSecretKey, public_key, as_bytes}
use tari_crypto.Ristretto.KeyLaws.{ristretto_laws, as_bytes-compress}
use tari_crypto.Commitment
use tari_crypto.Ristretto.Pedersen.{PedersenCommitment, PedersenCommitmentFactory, commit_value}
use tari_crypto.Ristretto.Pedersen
use tari_crypto.RangeProof.Bulletproofs.{Bulletproofs, BulletproofsLaws}
use tari_crypto.RangeProof.Service.{DalekRangeProofService, RangeProofError, construct_proof}
use tari_crypto.RangeProof.Service
use tari_crypto.RangeProof.Rewind.{construct_proof-verify}
use tari_crypto.Wasm.Hex.{Text, Hex, read}
use tari_crypto.Wasm.KeyUtils.{secret_from_hex, public_to_hex}

-- The error texts: that of a key, of a proof that could not be made, and of one that is not
-- hexadecimal.
pub data RangeErrorText : Type 0 where
  invalid_private_key proof_not_hex : RangeErrorText
  not_made : RangeProofError → RangeErrorText

-- A default result has the empty text as its proof.
pub record RangeProofResult : Type 0 where
  pub proof : Text
  pub error : Option RangeErrorText

pub record VerificationResult : Type 0 where
  pub valid : Bool
  pub error : Option RangeErrorText

pub record RangeProofFactory {dk : Dalek} (bp : Bulletproofs dk) : Type 0 where
  pub rpf : DalekRangeProofService bp

module _ {dk : Dalek} (laws : DalekLaws dk) (bp : Bulletproofs dk) where
  unfoldable pub new : Run (RangeProofFactory bp)
  new = do
    cf ← Pedersen.default dk
    rpf ← expect (Service.new bp 64 cf)
    done (record { rpf = rpf })

  module _ (hex : Hex) where
    unfoldable pub create_proof : RangeProofFactory bp → Text → ℕ → RangeProofResult
    unfolding public_key construct_proof
    create_proof f key value = elim (secret_from_hex (public_key dk laws) hex key) [
      | none ↦ record { proof = []; error = some invalid_private_key }
      | some k ↦ elim (construct_proof bp f.rpf k value) [
        | ok p ↦ record { proof = hex.to_hex p; error = none }
        | err e ↦ record { proof = []; error = some (not_made e) }
      ]
    ]

    -- The error of a commitment that is not read speaks of a private key.
    unfoldable pub verify : RangeProofFactory bp → Text → Text → VerificationResult
    unfolding public_key read Commitment.from_bytes
    verify f commitment proof =
        elim (read hex (Commitment.from_bytes (public_key dk laws)) commitment) [
          | none ↦ record { valid = false; error = some invalid_private_key }
          | some c ↦ elim (hex.from_hex proof) [
            | none ↦ record { valid = false; error = some proof_not_hex }
            | some v ↦ record { valid = Service.verify bp f.rpf v c; error = none }
          ]
        ]

module _ {dk : Dalek} (laws : DalekLaws dk) (bp : Bulletproofs dk) (bl : BulletproofsLaws bp)
    (hex : Hex) where
  verify-congr :
      (s : DalekRangeProofService bp) (proof : Bytes) (c c' : PedersenCommitment dk)
      → c.point.point ≡ c'.point.point
      → Service.verify bp s proof c ≡ true
      → Service.verify bp s proof c' ≡ true
  unfolding Service.verify
  verify-congr s proof c c' e h = elim (Option-cases (bp.from_bytes proof)) [
    | inl t ↦ absurd (ground (arith, t))
    | inr (rp, t) ↦
        let same : as_bytes c'.point ≡ as_bytes c.point =
          as_bytes-compress laws c'.point
          ∙ (ap dk.compress (sym e) ∙ sym (as_bytes-compress laws c.point)) in
        let h' : bp.verify_single rp s.bp_gens s.pc_gens Service.label (as_bytes c.point) s.range
            ≡ true =
          rw (Service.verify, t) at h in
        rw (Service.verify, t, same) h'
  ]

  -- The service of 64 bits is made for any commitment factory. With it, for a text that is a secret key and a value of 64 bits, a proof is made without an error,
  -- and verifying its text for the text of the commitment to the value with that key answers that
  -- it is valid.
  pub wasm_create_proof-verify :
      (cf : PedersenCommitmentFactory dk) (key : Text) (k : RistrettoSecretKey dk) (v : ℕ)
      → secret_from_hex (public_key dk laws) hex key ≡ some k
      → v < 2 ^ 64
      → (s : DalekRangeProofService bp) × (text : Text) × (Service.new bp 64 cf ≡ ok s)
        × (create_proof laws bp hex (record { rpf = s }) key v
            ≡ record { proof = text; error = none })
        × (verify laws bp hex
              (record { rpf = s })
              (public_to_hex (public_key dk laws) hex (commit_value cf k v).point)
              text
            ≡ record { valid = true; error = none })
  unfolding create_proof verify read Commitment.from_bytes public_to_hex ristretto_laws
  wasm_create_proof-verify cf key k v read_key small =
      let (s, proof, made, constructed, valid) =
        construct_proof-verify laws bp bl 64 cf k v (inr (inr (inr refl))) small in
      let c = commit_value cf k v in
      let (q, e, same) = (ristretto_laws laws).public_round_trip c.point in
      let t = verify-congr s proof c (record { point = q }) (sym same) valid in
      (
        s,
        hex.to_hex proof,
        made,
        rw (read_key, create_proof, constructed) refl,
        rw (verify, read, hex.from_hex-to_hex, Commitment.from_bytes, e, hex.from_hex-to_hex, t)
            refl,
      )
