-- ===== src/Signatures/CommitmentSignature.antt =====
-- src/signatures/commitment_signature.rs
pub mod Laws
use tari_crypto.Base.{
  ◌≡◌, Bool, false, ◌&&◌, Bytes, List, ◌++◌, Result, ok, err, Option, some, Ordering,
}
use tari_crypto.Base.Order.{cmp_bytes}
use tari_crypto.Keys.{PublicKey}
use tari_crypto.External.{Hasher}
use tari_crypto.Commitment.{HomomorphicCommitment, HomomorphicCommitmentFactory}
use tari_crypto.Commitment

pub data CommitmentSignatureError : Type 0 where
  invalid_challenge : CommitmentSignatureError

pub record CommitmentSignature {ℓ κ} (P : Type ℓ) (K : Type κ) : Type (ℓ ⊔ κ) where
  pub public_nonce : HomomorphicCommitment P
  pub u : K
  pub v : K

module _ {ℓ κ} {P : Type ℓ} {K : Type κ} where
  unfoldable pub new : HomomorphicCommitment P → K → K → CommitmentSignature P K
  new r u v = record { public_nonce = r; u = u; v = v }

  unfoldable pub complete_signature_tuple :
      CommitmentSignature P K → HomomorphicCommitment P × K × K
  complete_signature_tuple s = (s.public_nonce, s.u, s.v)

module _ {K P : Type 0} (pk : PublicKey K P) where
  open pk use {secret as sk}

  unfoldable pub calc_signature_verifier :
      CommitmentSignature P K → HomomorphicCommitmentFactory K P → HomomorphicCommitment P
  calc_signature_verifier s factory = factory.commit s.u s.v

  unfoldable pub sign :
      K
      → K
      → K
      → K
      → Bytes
      → HomomorphicCommitmentFactory K P
      → Result CommitmentSignatureError (CommitmentSignature P K)
  unfolding new
  sign secret_a secret_x nonce_a nonce_x challenge factory = elim (sk.from_bytes challenge) [
    | err _ ↦ err invalid_challenge
    | ok e ↦
        let ea = sk.mul e secret_a in
        let ex = sk.mul e secret_x in
        let v = sk.add nonce_a ea in
        let u = sk.add nonce_x ex in
        let public_commitment_nonce = factory.commit nonce_x nonce_a in
        ok (new public_commitment_nonce u v)
  ]

  unfoldable pub verify :
      CommitmentSignature P K
      → HomomorphicCommitment P
      → K
      → HomomorphicCommitmentFactory K P
      → Bool
  unfolding calc_signature_verifier
  verify s public_commitment challenge factory =
      let lhs = calc_signature_verifier s factory in
      let rhs = Commitment.add pk s.public_nonce (Commitment.mul pk public_commitment challenge) in
      Commitment.eq pk lhs rhs

  unfoldable pub verify_challenge :
      CommitmentSignature P K
      → HomomorphicCommitment P
      → Bytes
      → HomomorphicCommitmentFactory K P
      → Bool
  verify_challenge s public_commitment challenge factory = elim (sk.from_bytes challenge) [
    | err _ ↦ false
    | ok e ↦ verify s public_commitment e factory
  ]

  unfoldable pub to_vec : CommitmentSignature P K → Bytes
  to_vec s = Commitment.as_bytes pk s.public_nonce ++ (sk.as_bytes s.u ++ sk.as_bytes s.v)

  unfoldable pub add : CommitmentSignature P K → CommitmentSignature P K → CommitmentSignature P K
  unfolding new
  add a b = new (Commitment.add pk a.public_nonce b.public_nonce) (sk.add a.u b.u) (sk.add a.v b.v)

  unfoldable pub default : CommitmentSignature P K
  unfolding new
  default = new (record { point = pk.default }) sk.default sk.default

  unfoldable pub cmp : CommitmentSignature P K → CommitmentSignature P K → Ordering
  cmp a b = elim (Commitment.cmp pk a.public_nonce b.public_nonce) [
    | Ordering.eq ↦
        let this_v = cmp_bytes (sk.as_bytes a.v) (sk.as_bytes b.v) in
        elim (cmp_bytes (sk.as_bytes a.u) (sk.as_bytes b.u)) [ Ordering.eq ↦ this_v | v ↦ v ]
    | v ↦ v
  ]

  unfoldable pub eq : CommitmentSignature P K → CommitmentSignature P K → Bool
  eq a b = Commitment.eq pk a.public_nonce b.public_nonce && (sk.eq a.u b.u && sk.eq a.v b.v)

module _ {K P : Type 0} (pk : PublicKey K P) (h : Hasher) where
  unfoldable pub hash : CommitmentSignature P K → h.State → h.State
  unfolding to_vec
  hash sig state = h.write state (to_vec pk sig)
