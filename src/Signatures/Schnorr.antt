-- ===== src/Signatures/Schnorr.antt =====
-- src/signatures/schnorr.rs
pub mod Laws
use tari_crypto.Base.{◌≡◌, Bool, false, Bytes, Result, ok, err, Option, some, Ordering}
use tari_crypto.Base.Order.{cmp_bytes}
use tari_crypto.Keys.{PublicKey}

pub data SchnorrSignatureError : Type 0 where
  invalid_challenge : SchnorrSignatureError

pub record SchnorrSignature {ℓ κ} (P : Type ℓ) (K : Type κ) : Type (ℓ ⊔ κ) where
  pub public_nonce : P
  pub signature : K

module _ {ℓ κ} {P : Type ℓ} {K : Type κ} where
  unfoldable pub new : P → K → SchnorrSignature P K
  new r s = record { public_nonce = r; signature = s }

  unfoldable pub get_signature : SchnorrSignature P K → K
  get_signature sig = sig.signature

  unfoldable pub get_public_nonce : SchnorrSignature P K → P
  get_public_nonce sig = sig.public_nonce

module _ {K P : Type 0} (pk : PublicKey K P) where
  open pk use {secret as sk}

  unfoldable pub calc_signature_verifier : SchnorrSignature P K → P
  calc_signature_verifier sig = pk.from_secret_key sig.signature

  unfoldable pub sign : K → K → Bytes → Result SchnorrSignatureError (SchnorrSignature P K)
  unfolding new
  sign secret nonce challenge = elim (sk.from_bytes challenge) [
    | err _ ↦ err invalid_challenge
    | ok e ↦
        let public_nonce = pk.from_secret_key nonce in
        let ek = sk.mul e secret in let s = sk.add ek nonce in ok (new public_nonce s)
  ]

  unfoldable pub verify : SchnorrSignature P K → P → K → Bool
  unfolding calc_signature_verifier
  verify sig public_key challenge =
      let lhs = calc_signature_verifier sig in
      let rhs = pk.add sig.public_nonce (pk.mul challenge public_key) in pk.eq lhs rhs

  unfoldable pub verify_challenge : SchnorrSignature P K → P → Bytes → Bool
  verify_challenge sig public_key challenge = elim (sk.from_bytes challenge) [
    | err _ ↦ false
    | ok e ↦ verify sig public_key e
  ]

  unfoldable pub add : SchnorrSignature P K → SchnorrSignature P K → SchnorrSignature P K
  unfolding new
  add a b = new (pk.add a.public_nonce b.public_nonce) (sk.add a.signature b.signature)

  unfoldable pub default : SchnorrSignature P K
  unfolding new
  default = new pk.default sk.default

  unfoldable pub cmp : SchnorrSignature P K → SchnorrSignature P K → Ordering
  cmp a b = elim (pk.cmp a.public_nonce b.public_nonce) [
    | Ordering.eq ↦ cmp_bytes (sk.as_bytes a.signature) (sk.as_bytes b.signature)
    | v ↦ v
  ]

  unfoldable pub partial_cmp : SchnorrSignature P K → SchnorrSignature P K → Option Ordering
  unfolding cmp
  partial_cmp a b = some (cmp a b)
