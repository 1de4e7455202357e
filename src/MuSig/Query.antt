-- ===== src/MuSig/Query.antt =====
-- What a `RistrettoMuSig` tells about its state, and the partial signature of a participant.
use tari_crypto.Base.{ℕ, Bool, true, false, Option, none, some, ok, err, Run, done, ◌>>=◌}
use tari_crypto.Keys.{PublicKey}
use tari_crypto.External.{FixedSet}
use tari_crypto.JointKey.{JointKey, MuSigError}
use tari_crypto.JointKey
use tari_crypto.Signatures.Schnorr.{SchnorrSignature}
use tari_crypto.Signatures.Schnorr
use tari_crypto.MuSig.States.{
  MuSigState, nonce_hash_collection, nonce_collection, signature_collection, finalized, failed,
}
use tari_crypto.MuSig.Machine.{MuSig}

module _ {K P : Type 0} {fs : FixedSet} where
  abbrev is_failed : MuSigState fs K P → Bool
  is_failed (failed _) = true
  is_failed _ = false

  unfoldable pub has_failed : MuSig fs K P → Bool
  has_failed m = is_failed m.state

  abbrev reason : MuSigState fs K P → Option MuSigError
  reason (failed e) = some e
  reason _ = none

  unfoldable pub failure_reason : MuSig fs K P → Option MuSigError
  failure_reason m = reason m.state

  abbrev in_round_one : MuSigState fs K P → Bool
  in_round_one (nonce_hash_collection _) = true
  in_round_one _ = false

  unfoldable pub is_collecting_hashes : MuSig fs K P → Bool
  is_collecting_hashes m = in_round_one m.state

  abbrev in_round_two : MuSigState fs K P → Bool
  in_round_two (nonce_collection _) = true
  in_round_two _ = false

  unfoldable pub is_collecting_nonces : MuSig fs K P → Bool
  is_collecting_nonces m = in_round_two m.state

  abbrev in_round_three : MuSigState fs K P → Bool
  in_round_three (signature_collection _) = true
  in_round_three _ = false

  unfoldable pub is_collecting_signatures : MuSig fs K P → Bool
  is_collecting_signatures m = in_round_three m.state

  abbrev at_end : MuSigState fs K P → Bool
  at_end (finalized _) = true
  at_end _ = false

  unfoldable pub is_finalized : MuSig fs K P → Bool
  is_finalized m = at_end m.state

  abbrev challenge_of : MuSigState fs K P → Option K
  challenge_of (signature_collection s) = some s.challenge
  challenge_of (finalized s) = some s.challenge
  challenge_of _ = none

  unfoldable pub get_challenge : MuSig fs K P → Option K
  get_challenge m = challenge_of m.state

  abbrev signature_of : MuSigState fs K P → Option (SchnorrSignature P K)
  signature_of (finalized s) = some s.s_agg
  signature_of _ = none

  unfoldable pub get_aggregated_signature : MuSig fs K P → Option (SchnorrSignature P K)
  get_aggregated_signature m = signature_of m.state

  -- The joint key, once there is one.
  abbrev joint_key_of : MuSigState fs K P → Option (JointKey P K)
  joint_key_of (nonce_hash_collection s) = some s.joint_key
  joint_key_of (nonce_collection s) = some s.joint_key
  joint_key_of (signature_collection s) = some s.joint_key
  joint_key_of (finalized s) = some s.joint_key
  joint_key_of _ = none

  unfoldable pub get_aggregated_public_key : MuSig fs K P → Option P
  get_aggregated_public_key m = elim (joint_key_of m.state) [
    | some jk ↦ some jk.joint_pub_key
    | none ↦ none
  ]

  abbrev public_nonce_of : MuSigState fs K P → ℕ → Option P
  public_nonce_of (signature_collection s) index = fs.get_item s.public_nonces index
  public_nonce_of _ index = none

  unfoldable pub get_public_nonce : MuSig fs K P → ℕ → Option P
  get_public_nonce m index = public_nonce_of m.state index

module _ {K P : Type 0} (pk : PublicKey K P) where
  open pk use {secret as sk}

  abbrev pub index_in : JointKey P K → P → Option ℕ
  index_in jk pub_key = elim (JointKey.index_of pk jk pub_key) [ ok i ↦ some i | err _ ↦ none ]

  abbrev pub scalar_in : JointKey P K → P → Run (Option K)
  scalar_in jk pub_key = elim (JointKey.index_of pk jk pub_key) [
    | ok i ↦ do k ← JointKey.get_musig_scalar jk i; done (some k)
    | err _ ↦ done none
  ]

  -- `nonce + ai * e * secret`; each `?` returns `None`.
  unfoldable pub partial_signature : P → Option K → Option K → K → K → Option (SchnorrSignature P K)
  partial_signature pub_nonce (some ai) (some e) secret nonce =
      let s = sk.add nonce (sk.mul (sk.mul ai e) secret) in some (Schnorr.new pub_nonce s)
  partial_signature pub_nonce _ _ secret nonce = none

module _ {K P : Type 0} (pk : PublicKey K P) {fs : FixedSet} where
  abbrev indexed_key_of : MuSigState fs K P → Option (JointKey P K)
  indexed_key_of (nonce_hash_collection s) = some s.joint_key
  indexed_key_of (nonce_collection s) = some s.joint_key
  indexed_key_of (signature_collection s) = some s.joint_key
  indexed_key_of _ = none

  unfoldable pub index_of : MuSig fs K P → P → Option ℕ
  index_of m pub_key = elim (indexed_key_of m.state) [
    | some jk ↦ index_in pk jk pub_key
    | none ↦ none
  ]

  unfoldable pub get_musig_scalar : MuSig fs K P → P → Run (Option K)
  get_musig_scalar m pub_key = elim (joint_key_of m.state) [
    | some jk ↦ scalar_in pk jk pub_key
    | none ↦ done none
  ]

  unfoldable pub calculate_partial_signature :
      MuSig fs K P → P → K → K → Run (Option (SchnorrSignature P K))
  unfolding index_of get_public_nonce get_musig_scalar get_challenge partial_signature
  calculate_partial_signature m pub_key secret nonce = elim (index_of m pub_key) [
    | none ↦ done none
    | some index ↦ elim (get_public_nonce m index) [
      | none ↦ done none
      | some pub_nonce ↦ do
        ai ← get_musig_scalar m pub_key
        done (partial_signature pk pub_nonce ai (get_challenge m) secret nonce)
    ]
  ]
