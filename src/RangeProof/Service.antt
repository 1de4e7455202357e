-- ===== src/RangeProof/Service.antt =====
-- `DalekRangeProofService` of src/ristretto/dalek_range_proof.rs, with the results and errors that
-- it returns.
use tari_crypto.Base.{
  ℕ, zero, suc, ◌+◌, ◌*◌, ◌/◌, ◌%◌, ◌==◌, Bool, false, not, ◌||◌, Bytes, [], ◌∷◌, ◌++◌, none, some,
  Result, ok, err, if◌then◌else◌, ◌≡◌, refl, length, arith,
}
use tari_crypto.Base.Order.{eq_bytes}
use tari_crypto.Ristretto.Dalek.{Dalek}
use tari_crypto.Ristretto.Keys.{RistrettoSecretKey, RistrettoPublicKey, as_bytes, from_secret_key}
use tari_crypto.Ristretto.Pedersen.{PedersenCommitment, PedersenCommitmentFactory}
use tari_crypto.RangeProof.Bulletproofs.{
  Array, array_path, proof_message_length, Bulletproofs, PedersenGens,
}

pub data RangeProofError : Type 0 where
  proof_construction_error invalid_proof initialization_error invalid_range_proof : RangeProofError
  invalid_rewind : RangeProofError

abbrev pub user_message_length : ℕ
user_message_length = 21

pub record RewindResult : Type 0 where
  pub committed_value : ℕ
  pub proof_message : Array user_message_length

pub record FullRewindResult (K : Type 0) : Type 0 where
  pub committed_value : ℕ
  pub proof_message : Array user_message_length
  pub blinding_factor : K

abbrev pub mask : ℕ
mask = 120

-- "TR"
abbrev pub rewind_check_message : Bytes
rewind_check_message = 84 ∷ 82 ∷ []

-- "tari"
abbrev pub label : Bytes
label = 116 ∷ 97 ∷ 114 ∷ 105 ∷ []

-- `a | b` of numbers of `w` bits.
unfoldable pub bit_or : ℕ → ℕ → ℕ → ℕ
bit_or zero a b = 0
bit_or (suc w) a b =
    let rest = bit_or w (a / 2) (b / 2) in
    (if (a % 2 == 1) || (b % 2 == 1) then 1 else 0) + 2 * rest

abbrev pub take : ℕ → Bytes → Bytes
take zero bs = []
take (suc n) [] = []
take (suc n) (b ∷ bs) = b ∷ take n bs

abbrev pub drop : ℕ → Bytes → Bytes
drop zero bs = bs
drop (suc n) [] = []
drop (suc n) (b ∷ bs) = drop n bs

-- The check bytes, then the bytes of the user.
unfoldable pub full_proof_message : Array user_message_length → Array proof_message_length
full_proof_message m = record {
  items = rewind_check_message ++ m.items;
  sized = omega (arith, m.sized);
}

pub drop_two :
    (b : Bytes) → length b ≡ proof_message_length → length (drop 2 b) ≡ user_message_length
drop_two [] h = absurd (omega (arith, h))
drop_two (x ∷ []) h = absurd (omega (arith, h))
drop_two (x ∷ y ∷ b) h = omega (arith, h)

-- The message without its check bytes.
unfoldable pub truncated_proof_message : Array proof_message_length → Array user_message_length
truncated_proof_message m = record { items = drop 2 m.items; sized = drop_two m.items m.sized }

pub truncated-full :
    (m : Array user_message_length) → truncated_proof_message (full_proof_message m) ≡ m
unfolding truncated_proof_message full_proof_message
truncated-full m = array_path _ _ refl

module _ {dk : Dalek} (bp : Bulletproofs dk) where
  pub record DalekRangeProofService : Type 0 where
    pub range : ℕ
    pub pc_gens : PedersenGens dk
    pub bp_gens : bp.Gens

  unfoldable pub new :
      ℕ → PedersenCommitmentFactory dk → Result RangeProofError DalekRangeProofService
  unfolding bit_or
  new range base =
      if (range == 0) || not (bit_or 64 range mask == mask)
      then err initialization_error
      else ok (record {
        range = range;
        pc_gens = record { b_blinding = base.g; b = base.h };
        bp_gens = bp.new_gens range 1;
      })

  unfoldable pub construct_proof :
      DalekRangeProofService → RistrettoSecretKey dk → ℕ → Result RangeProofError Bytes
  construct_proof s key value =
      elim (bp.prove_single s.bp_gens s.pc_gens label value key.scalar s.range) [
        | none ↦ err proof_construction_error
        | some proof ↦ ok (bp.to_bytes proof)
      ]

  unfoldable pub verify : DalekRangeProofService → Bytes → PedersenCommitment dk → Bool
  verify s proof commitment = elim (bp.from_bytes proof) [
    | none ↦ false
    | some rp ↦ bp.verify_single rp s.bp_gens s.pc_gens label (as_bytes commitment.point) s.range
  ]

  unfoldable pub construct_proof_with_rewind_key :
      DalekRangeProofService
      → RistrettoSecretKey dk
      → ℕ
      → RistrettoSecretKey dk
      → RistrettoSecretKey dk
      → Array user_message_length
      → Result RangeProofError Bytes
  unfolding full_proof_message
  construct_proof_with_rewind_key s key value rewind_key rewind_blinding_key proof_message =
      elim (bp.prove_single_with_rewind_key s.bp_gens s.pc_gens label value key.scalar s.range
        rewind_key.scalar rewind_blinding_key.scalar (full_proof_message proof_message)) [
          | none ↦ err proof_construction_error
          | some proof ↦ ok (bp.to_bytes proof)
        ]

  unfoldable pub rewind_proof_value_only :
      DalekRangeProofService
      → Bytes
      → PedersenCommitment dk
      → RistrettoPublicKey dk
      → RistrettoPublicKey dk
      → Result RangeProofError RewindResult
  unfolding truncated_proof_message
  rewind_proof_value_only s proof commitment rewind_public_key rewind_blinding_public_key =
      let c = as_bytes commitment.point in
      let rewind_nonce_1 = bp.get_rewind_nonce_from_pub_key (as_bytes rewind_public_key) c in
      let rewind_nonce_2 =
        bp.get_rewind_nonce_from_pub_key (as_bytes rewind_blinding_public_key) c in
      elim (bp.from_bytes proof) [
        | none ↦ err invalid_proof
        | some rp ↦
            elim (bp.rewind_single_get_value_only rp s.bp_gens label c s.range rewind_nonce_1
              rewind_nonce_2) [
                | none ↦ err proof_construction_error
                | some (confidential_value, message) ↦
                    if not (eq_bytes (take 2 message.items) rewind_check_message)
                    then err invalid_rewind
                    else ok (record {
                      committed_value = confidential_value;
                      proof_message = truncated_proof_message message;
                    })
              ]
      ]

  unfoldable pub rewind_proof_commitment_data :
      DalekRangeProofService
      → Bytes
      → PedersenCommitment dk
      → RistrettoSecretKey dk
      → RistrettoSecretKey dk
      → Result RangeProofError (FullRewindResult (RistrettoSecretKey dk))
  unfolding truncated_proof_message
  rewind_proof_commitment_data s proof commitment rewind_key rewind_blinding_key =
      let c = as_bytes commitment.point in
      let rewind_public_key = from_secret_key rewind_key in
      let rewind_blinding_public_key = from_secret_key rewind_blinding_key in
      let rewind_nonce_1 = bp.get_rewind_nonce_from_pub_key (as_bytes rewind_public_key) c in
      let rewind_nonce_2 =
        bp.get_rewind_nonce_from_pub_key (as_bytes rewind_blinding_public_key) c in
      let blinding_nonce_1 = bp.get_secret_nonce_from_pvt_key rewind_key.scalar c in
      let blinding_nonce_2 = bp.get_secret_nonce_from_pvt_key rewind_blinding_key.scalar c in
      elim (bp.from_bytes proof) [
        | none ↦ err invalid_proof
        | some rp ↦
            elim (bp.rewind_single_get_commitment_data rp s.bp_gens s.pc_gens label c s.range
              rewind_nonce_1 rewind_nonce_2 blinding_nonce_1 blinding_nonce_2) [
                | none ↦ err invalid_rewind
                | some (confidential_value, blinding_factor, message) ↦ ok (record {
                  committed_value = confidential_value;
                  proof_message = truncated_proof_message message;
                  blinding_factor = record { scalar = blinding_factor };
                })
              ]
      ]
