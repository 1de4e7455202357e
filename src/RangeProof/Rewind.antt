-- ===== src/RangeProof/Rewind.antt =====
-- Making proofs, verifying them, and rewinding them.
use tari_crypto.Base.{
  ℕ, ◌<◌, ◌^◌, ◌≡◌, refl, ap, ◌∙◌, true, Bytes, Option, some, ok, Bool-cases, Option-cases, inl,
  inr, arith,
}
use tari_crypto.Base.Order.{cmp_bytes, eq_bytes, eq_bytes_iff}
use tari_crypto.Ristretto.Dalek.{Dalek, DalekLaws}
use tari_crypto.Ristretto.Keys.{
  RistrettoSecretKey, RistrettoPublicKey, as_bytes, from_secret_key, from_u64, new_from_pk,
}
use tari_crypto.Ristretto.KeyLaws.{as_bytes-compress}
use tari_crypto.Ristretto.Pedersen.{PedersenCommitment, PedersenCommitmentFactory, commit_value}
use tari_crypto.Ristretto.PedersenLaws.{commit_lem}
use tari_crypto.RangeProof.Bulletproofs.{
  Array, proof_message_length, Bulletproofs, BulletproofsLaws, PedersenGens, IsSize, committed,
}
use tari_crypto.RangeProof.Service.{
  DalekRangeProofService, RewindResult, rewind_check_message, label, take, new, user_message_length,
  full_proof_message, truncated_proof_message, truncated-full, construct_proof, verify,
  construct_proof_with_rewind_key, rewind_proof_value_only, rewind_proof_commitment_data,
}

module _ {dk : Dalek} (laws : DalekLaws dk) (bp : Bulletproofs dk) (bl : BulletproofsLaws bp) where
  abbrev pub gens_of : PedersenCommitmentFactory dk → PedersenGens dk
  gens_of base = record { b_blinding = base.g; b = base.h }

  abbrev pub service : ℕ → PedersenCommitmentFactory dk → DalekRangeProofService bp
  service range base = record {
    range = range;
    pc_gens = gens_of base;
    bp_gens = bp.new_gens range 1;
  }

  pub made :
      (range : ℕ) (base : PedersenCommitmentFactory dk)
      → IsSize range
      → new bp range base ≡ ok (service range base)
  unfolding new
  made range base (inl e) = rw e refl
  made range base (inr (inl e)) = rw e refl
  made range base (inr (inr (inl e))) = rw e refl
  made range base (inr (inr (inr e))) = rw e refl

  commitment_bytes :
      (base : PedersenCommitmentFactory dk) (k : RistrettoSecretKey dk) (v : ℕ)
      → as_bytes (commit_value base k v).point ≡ committed bp (gens_of base) v k.scalar
  unfolding commit_value from_u64
  commitment_bytes base k v =
      as_bytes-compress laws _ ∙ ap dk.compress (commit_lem laws base k (from_u64 v))

  public_bytes :
      (k : RistrettoSecretKey dk)
      → as_bytes (from_secret_key k) ≡ dk.compress (dk.point_mul k.scalar dk.basepoint)
  unfolding from_secret_key new_from_pk
  public_bytes k = as_bytes-compress laws _ ∙ ap dk.compress (laws.basepoint_table_mul_lem k.scalar)

  -- For the four sizes that bulletproofs has, the service is made, a value in the range has a
  -- proof, and the proof verifies for the commitment to that value.
  pub construct_proof-verify :
      (range : ℕ) (base : PedersenCommitmentFactory dk) (k : RistrettoSecretKey dk) (v : ℕ)
      → IsSize range
      → v < 2 ^ range
      → (s : DalekRangeProofService bp) × (proof : Bytes) × (new bp range base ≡ ok s)
        × (construct_proof bp s k v ≡ ok proof)
        × (verify bp s proof (commit_value base k v) ≡ true)
  unfolding construct_proof verify
  construct_proof-verify range base k v size h =
      let (p, e, t) = bl.prove-verify (gens_of base) label v k.scalar range size h in
      (
        service range base,
        bp.to_bytes p,
        made range base size,
        rw (e, construct_proof) refl,
        rw (verify, bl.from_bytes-to_bytes p, commitment_bytes base k v) t,
      )

  -- For the four sizes that bulletproofs has and a value in the range, the service is made, and a
  -- proof with rewind keys, for a message of 21 bytes, is made and verifies for the commitment. Rewinding it with the public
  -- rewind keys gives the value and the message back, and with the secret ones the blinding factor
  -- besides.
  pub construct_proof-rewind :
      (range : ℕ) (base : PedersenCommitmentFactory dk) (k rk rbk : RistrettoSecretKey dk) (v : ℕ)
      (message : Array user_message_length)
      → IsSize range
      → v < 2 ^ range
      → (s : DalekRangeProofService bp) × (proof : Bytes) × (new bp range base ≡ ok s)
        × (construct_proof_with_rewind_key bp s k v rk rbk message ≡ ok proof)
        × (verify bp s proof (commit_value base k v) ≡ true)
        × (rewind_proof_value_only bp s proof
              (commit_value base k v)
              (from_secret_key rk)
              (from_secret_key rbk)
            ≡ ok (record { committed_value = v; proof_message = message }))
        × (rewind_proof_commitment_data bp s proof (commit_value base k v) rk rbk
            ≡ ok (record { committed_value = v; proof_message = message; blinding_factor = k }))
  unfolding construct_proof_with_rewind_key verify rewind_proof_value_only
      rewind_proof_commitment_data eq_bytes cmp_bytes
  construct_proof-rewind range base k rk rbk v message size h =
      let (p, e, t, u, w) =
        bl.prove-rewind (gens_of base) label v k.scalar range rk.scalar rbk.scalar
          (full_proof_message message) size h in
      (
        service range base,
        bp.to_bytes p,
        made range base size,
        rw (e, construct_proof_with_rewind_key) refl,
        rw (verify, bl.from_bytes-to_bytes p, commitment_bytes base k v) t,
        rw
            (
              rewind_proof_value_only,
              bl.from_bytes-to_bytes p,
              commitment_bytes base k v,
              public_bytes rk,
              public_bytes rbk,
              u,
              truncated-full message,
            )
            refl,
        rw
            (
              rewind_proof_commitment_data,
              bl.from_bytes-to_bytes p,
              commitment_bytes base k v,
              public_bytes rk,
              public_bytes rbk,
              w,
              truncated-full message,
            )
            refl,
      )

module _ {dk : Dalek} (bp : Bulletproofs dk) where
  -- A rewind for the value alone succeeds only for bytes that are a proof, and returns what
  -- follows the check bytes of a message.
  pub rewind_value_only_checked :
      (s : DalekRangeProofService bp) (proof : Bytes) (c : PedersenCommitment dk)
      (p q : RistrettoPublicKey dk) (r : RewindResult)
      → rewind_proof_value_only bp s proof c p q ≡ ok r
      → (rp : bp.Proof) × (message : Array proof_message_length) × (bp.from_bytes proof ≡ some rp)
        × (take 2 message.items ≡ rewind_check_message)
        × (r.proof_message ≡ truncated_proof_message message)
  unfolding rewind_proof_value_only
  rewind_value_only_checked s proof c p q r h = elim (Option-cases (bp.from_bytes proof)) [
    | inl e ↦ absurd (ground (arith, e))
    | inr (rp, e) ↦ elim (Option-cases (rewound rp)) [
      | inl t ↦ absurd (ground (arith, e, t))
      | inr ((v, message), t) ↦
          elim (Bool-cases (eq_bytes (take 2 message.items) rewind_check_message)) [
            | inr u ↦ absurd (ground (arith, e, t, u))
            | inl u ↦ (rp, message, e, (eq_bytes_iff _ _).0 u, ground (arith, e, t, u))
          ]
    ]
  ]
    where
      rewound : bp.Proof → Option (ℕ × Array proof_message_length)
      rewound rp =
          bp.rewind_single_get_value_only rp s.bp_gens label (as_bytes c.point) s.range
            (bp.get_rewind_nonce_from_pub_key (as_bytes p) (as_bytes c.point))
            (bp.get_rewind_nonce_from_pub_key (as_bytes q) (as_bytes c.point))
