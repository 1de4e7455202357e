-- ===== src/MuSig/Invariant.antt =====
-- What holds of every state that a ceremony can reach. `Sent` are the messages that its events may
-- set; `Trusted` is inhabited where every partial signature is validated.
use tari_crypto.Base.{ℕ, ◌<◌, ◌≡◌, true, Option, some, List, length, sequence, done, get_elem?}
use tari_crypto.Keys.{PublicKey}
use tari_crypto.Keys.Laws.{KeyLaws}
use tari_crypto.External.{Digest, digest, FixedSet, FixedSetLaws, fold_map}
use tari_crypto.JointKey.{JointKey}
use tari_crypto.JointKey.Add
use tari_crypto.JointKey.Build.{IsJoint}
use tari_crypto.Signatures.Schnorr
use tari_crypto.Signatures.Schnorr.{SchnorrSignature}
use tari_crypto.MuSig.States.{
  MessageHash, Initialization, NonceHashCollection, NonceCollection, SignatureCollection,
  FinalizedMuSig, MuSigState, initialization, nonce_hash_collection, nonce_collection,
  signature_collection, finalized, failed,
}
use tari_crypto.MuSig.Places.{At}
use tari_crypto.MuSig.Rounds

module _ {K P : Type 0} {pk : PublicKey K P} (laws : KeyLaws pk) (d : Digest) (fs : FixedSet)
    (fl : FixedSetLaws fs) (Sent : MessageHash → Type 0) (Trusted : Type 0) where
  open pk use {secret as sk}
  open laws use {value, plus, zero, act, base}
  open fl use {places}

  -- The message, once set, is one that was sent.
  abbrev pub MessageSent : Option MessageHash → Type 0
  MessageSent message = (m : MessageHash) → message ≡ some m → Sent m

  pub record Gathering (s : Initialization P) : Type 0 where
    pub valid : Add.IsValid pk s.joint_key_builder
    pub room : length s.joint_key_builder.pub_keys < s.joint_key_builder.num_signers
    pub sent : MessageSent s.message

  pub record RoundOne (s : NonceHashCollection fs K P) : Type 0 where
    pub joint : IsJoint laws s.joint_key
    pub hash_places : length (places s.nonce_hashes) ≡ length s.joint_key.pub_keys
    pub sent : MessageSent s.message

  -- Each nonce that is there is the one that its participant committed to.
  pub record RoundTwo (s : NonceCollection fs K P) : Type 0 where
    pub joint : IsJoint laws s.joint_key
    pub hash_places : length (places s.nonce_hashes) ≡ length s.joint_key.pub_keys
    pub nonce_places : length (places s.public_nonces) ≡ length s.joint_key.pub_keys
    pub committed :
        (i : ℕ) (r : P)
        → At (places s.public_nonces) i r
        → At (places s.nonce_hashes) i (digest d (pk.as_bytes r))
    pub sent : MessageSent s.message

  abbrev pub Sum : List P → P → Type 0
  Sum l r = value r ≡ fold_map zero plus value l

  -- The challenge is the hash of a nonce, of the joint key and of a message that was sent.
  abbrev pub Hashed : P → JointKey P K → K → Type 0
  Hashed r jk e =
      (m : MessageHash) × Sent m
      × (Rounds.calculate_challenge pk d fs r jk.joint_pub_key m ≡ done e)

  -- `s.G = R + e.(a.P)` for the participant at index `i`.
  pub record ValidAt (jk : JointKey P K) (e : K) (i : ℕ) (sig : SchnorrSignature P K) : Type 0 where
    pub scalar : K
    pub key : P
    pub has_scalar : get_elem? jk.musig_scalars i ≡ some scalar
    pub has_key : get_elem? jk.pub_keys i ≡ some key
    pub holds :
        act sig.signature base ≡ plus (value sig.public_nonce) (act e (act scalar (value key)))

  -- A signature that is there carries the nonce of its participant, and is valid if signatures are
  -- validated.
  pub record RoundThree (s : SignatureCollection fs K P) : Type 0 where
    pub joint : IsJoint laws s.joint_key
    pub nonce_places : length (places s.public_nonces) ≡ length s.joint_key.pub_keys
    pub signature_places : length (places s.partial_signatures) ≡ length s.joint_key.pub_keys
    pub nonces : List P
    pub all_nonces : sequence (places s.public_nonces) ≡ some nonces
    pub agg_nonce : P
    pub agg_sum : Sum nonces agg_nonce
    pub hashed : Hashed agg_nonce s.joint_key s.challenge
    pub matched :
        (i : ℕ) (sig : SchnorrSignature P K)
        → At (places s.partial_signatures) i sig
        → (r : P) × At (places s.public_nonces) i r × (value sig.public_nonce ≡ value r)
    pub checked :
        Trusted
        → (i : ℕ) (sig : SchnorrSignature P K) → At (places s.partial_signatures) i sig
        → ValidAt s.joint_key s.challenge i sig

  -- The aggregate signature is one of the joint key for the challenge that belongs to its nonce.
  pub record Complete (s : FinalizedMuSig K P) : Type 0 where
    pub joint : IsJoint laws s.joint_key
    pub hashed : Hashed s.s_agg.public_nonce s.joint_key s.challenge
    pub verified : Trusted → Schnorr.verify pk s.s_agg s.joint_key.joint_pub_key s.challenge ≡ true

  abbrev pub InState : MuSigState fs K P → Type 0
  InState (initialization s) = Gathering s
  InState (nonce_hash_collection s) = RoundOne s
  InState (nonce_collection s) = RoundTwo s
  InState (signature_collection s) = RoundThree s
  InState (finalized s) = Complete s
  InState (failed e) = Unit
