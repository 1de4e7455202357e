-- ===== src/MuSig/States.antt =====
-- The states of the ceremony and its events.
use tari_crypto.Base.{Bool, Bytes, Option}
use tari_crypto.External.{FixedSet}
use tari_crypto.JointKey.{JointKey, JointKeyBuilder, MuSigError}
use tari_crypto.Signatures.Schnorr.{SchnorrSignature}

abbrev pub MessageHash : Type 0
MessageHash = Bytes

pub record Initialization (P : Type 0) : Type 0 where
  pub joint_key_builder : JointKeyBuilder P
  pub message : Option MessageHash

pub record NonceHashCollection (fs : FixedSet) (K P : Type 0) : Type 0 where
  pub joint_key : JointKey P K
  pub nonce_hashes : fs.Set MessageHash
  pub message : Option MessageHash

pub record NonceCollection (fs : FixedSet) (K P : Type 0) : Type 0 where
  pub joint_key : JointKey P K
  pub nonce_hashes : fs.Set MessageHash
  pub public_nonces : fs.Set P
  pub message : Option MessageHash

pub record SignatureCollection (fs : FixedSet) (K P : Type 0) : Type 0 where
  pub joint_key : JointKey P K
  pub public_nonces : fs.Set P
  pub partial_signatures : fs.Set (SchnorrSignature P K)
  pub challenge : K

pub record FinalizedMuSig (K P : Type 0) : Type 0 where
  pub s_agg : SchnorrSignature P K
  pub challenge : K
  pub joint_key : JointKey P K

pub data MuSigState (fs : FixedSet) (K P : Type 0) : Type 0 where
  initialization : Initialization P → MuSigState fs K P
  nonce_hash_collection : NonceHashCollection fs K P → MuSigState fs K P
  nonce_collection : NonceCollection fs K P → MuSigState fs K P
  signature_collection : SignatureCollection fs K P → MuSigState fs K P
  finalized : FinalizedMuSig K P → MuSigState fs K P
  failed : MuSigError → MuSigState fs K P

pub data MuSigEvent (K P : Type 0) : Type 0 where
  add_key : P → MuSigEvent K P
  set_message : MessageHash → MuSigEvent K P
  add_nonce_hash : P → MessageHash → MuSigEvent K P
  add_nonce : P → P → MuSigEvent K P
  add_partial_sig : SchnorrSignature P K → Bool → MuSigEvent K P
