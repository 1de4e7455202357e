-- ===== src/MuSig/Rounds.antt =====
-- What each state does with the events that it accepts. `sum().unwrap()`, `message.unwrap()`,
-- `expect` and an index out of bounds end in a panic.
use tari_crypto.Base.{
  ℕ, ◌==◌, Bool, true, false, not, ◌&&◌, Option, none, some, Result, ok, err, Run, done, ◌>>=◌,
  unwrap, expect, if◌then◌else◌,
}
use tari_crypto.Base.Order.{eq_bytes}
use tari_crypto.Keys.{PublicKey}
use tari_crypto.External.{Digest, digest, FixedSet}
use tari_crypto.JointKey.{
  JointKey, JointKeyBuilder, MuSigError, participant_not_found, message_already_set, missing_hash,
  mismatched_nonces, mismatched_signatures, invalid_partial_signature, incompatible_hash_function,
}
use tari_crypto.JointKey
use tari_crypto.Signatures.Schnorr.{SchnorrSignature}
use tari_crypto.Signatures.Schnorr
use tari_crypto.MuSig.States.{
  MessageHash, Initialization, NonceHashCollection, NonceCollection, SignatureCollection,
  FinalizedMuSig, MuSigState, initialization, nonce_hash_collection, nonce_collection,
  signature_collection, finalized, failed,
}

abbrev pub is_some {ℓ} : {A : Type ℓ} → Option A → Bool
is_some none = false
is_some (some a) = true

module _ {K P : Type 0} (pk : PublicKey K P) (d : Digest) (fs : FixedSet) where
  open pk use {secret as sk}

  abbrev State : Type 0
  State = MuSigState fs K P

  unfoldable pub new_initialization : ℕ → Result MuSigError (Initialization P)
  unfolding JointKey.new
  new_initialization n =
      if not (d.output_size == 32)
      then err incompatible_hash_function
      else elim (JointKey.new {P = P} n) [
        | ok joint_key_builder ↦
            ok (record { joint_key_builder = joint_key_builder; message = none })
        | err e ↦ err e
      ]

  unfoldable pub new_nonce_hash_collection :
      JointKey P K → Option MessageHash → NonceHashCollection fs K P
  new_nonce_hash_collection joint_key msg = record {
    joint_key = joint_key;
    nonce_hashes = fs.new (JointKey.size joint_key);
    message = msg;
  }

  unfoldable pub add_pubkey : Initialization P → P → Run (MuSigState fs K P)
  unfolding new_nonce_hash_collection
  add_pubkey s key =
      let b = (JointKey.add_key pk s.joint_key_builder key).0 in
      elim (JointKey.add_key pk s.joint_key_builder key).1 [
        | ok _ ↦
            if JointKey.is_full b
            then (do
              built ← JointKey.build pk d b
              done (elim built [
                | ok jk ↦ nonce_hash_collection (new_nonce_hash_collection jk s.message)
                | err e ↦ failed e
              ]))
            else done (initialization (record s { joint_key_builder = b }))
        | err e ↦ done (failed e)
      ]

  unfoldable pub set_message_initialization : Initialization P → MessageHash → MuSigState fs K P
  set_message_initialization s msg =
      if is_some s.message
      then failed message_already_set
      else initialization (record s { message = some msg })

  unfoldable pub new_nonce_collection : NonceHashCollection fs K P → NonceCollection fs K P
  new_nonce_collection init = record {
    joint_key = init.joint_key;
    nonce_hashes = init.nonce_hashes;
    public_nonces = fs.new (JointKey.size init.joint_key);
    message = init.message;
  }

  unfoldable pub add_nonce_hash : NonceHashCollection fs K P → P → MessageHash → MuSigState fs K P
  unfolding new_nonce_collection
  add_nonce_hash s pub_key hash = elim (JointKey.index_of pk s.joint_key pub_key) [
    | ok i ↦
        let s' : NonceHashCollection fs K P = record s {
          nonce_hashes = (fs.set_item s.nonce_hashes i hash).0;
        } in
        if fs.is_full s'.nonce_hashes
        then nonce_collection (new_nonce_collection s')
        else nonce_hash_collection s'
    | err _ ↦ failed participant_not_found
  ]

  unfoldable pub set_message_nonce_hash :
      NonceHashCollection fs K P → MessageHash → MuSigState fs K P
  set_message_nonce_hash s msg =
      if is_some s.message
      then failed message_already_set
      else nonce_hash_collection (record s { message = some msg })

  unfoldable pub is_valid_nonce : P → MessageHash → Bool
  unfolding digest
  is_valid_nonce nonce expected = eq_bytes (digest d (pk.as_bytes nonce)) expected

  unfoldable pub calculate_challenge : P → P → MessageHash → Run K
  calculate_challenge r_agg p_agg m = expect (
      sk.from_bytes
        (d.finalize (d.chain (d.chain (d.chain d.new (pk.as_bytes r_agg)) (pk.as_bytes p_agg)) m)))

  unfoldable pub new_signature_collection :
      NonceCollection fs K P → Run (SignatureCollection fs K P)
  unfolding calculate_challenge
  new_signature_collection init = do
    let n = JointKey.size init.joint_key
    agg_nonce ← unwrap (fs.sum pk.default pk.add init.public_nonces)
    message ← unwrap init.message
    challenge ← calculate_challenge agg_nonce init.joint_key.joint_pub_key message
    done (record {
      joint_key = init.joint_key;
      public_nonces = init.public_nonces;
      partial_signatures = fs.new n;
      challenge = challenge;
    })

  -- Round three starts when all nonces are there and the message is set.
  unfoldable pub start_signatures : NonceCollection fs K P → Run (MuSigState fs K P)
  unfolding new_signature_collection
  start_signatures s = do c ← new_signature_collection s; done (signature_collection c)

  unfoldable pub add_nonce : NonceCollection fs K P → P → P → Run (MuSigState fs K P)
  unfolding is_valid_nonce start_signatures
  add_nonce s pub_key nonce = elim (JointKey.index_of pk s.joint_key pub_key) [
    | ok i ↦ elim (fs.get_item s.nonce_hashes i) [
      | none ↦ done (failed missing_hash)
      | some expected ↦
          if not (is_valid_nonce nonce expected)
          then done (failed mismatched_nonces)
          else let s' : NonceCollection fs K P = record s {
            public_nonces = (fs.set_item s.public_nonces i nonce).0;
          } in
            if fs.is_full s'.public_nonces && is_some s'.message
            then start_signatures s'
            else done (nonce_collection s')
    ]
    | err _ ↦ done (failed participant_not_found)
  ]

  unfoldable pub set_message_nonce : NonceCollection fs K P → MessageHash → Run (MuSigState fs K P)
  unfolding start_signatures
  set_message_nonce s msg =
      if is_some s.message
      then done (failed message_already_set)
      else let s' : NonceCollection fs K P = record s { message = some msg } in
        if fs.is_full s'.public_nonces then start_signatures s' else done (nonce_collection s')

  unfoldable pub validate_partial_signature :
      SignatureCollection fs K P → ℕ → SchnorrSignature P K → Run Bool
  validate_partial_signature s index signature = do
    pub_key ← JointKey.get_pub_keys s.joint_key index
    a_i ← JointKey.get_musig_scalar s.joint_key index
    let p = pk.mul a_i pub_key
    done (Schnorr.verify pk signature p s.challenge)

  unfoldable pub calculate_agg_signature : SignatureCollection fs K P → Run (SchnorrSignature P K)
  calculate_agg_signature s =
      unwrap (fs.sum (Schnorr.default pk) (Schnorr.add pk) s.partial_signatures)

  unfoldable pub new_finalized : SignatureCollection fs K P → Run (FinalizedMuSig K P)
  unfolding calculate_agg_signature
  new_finalized init = do
    s_agg ← calculate_agg_signature init
    done (record { s_agg = s_agg; challenge = init.challenge; joint_key = init.joint_key })

  unfoldable pub set_signature :
      SignatureCollection fs K P → ℕ → SchnorrSignature P K → Run (MuSigState fs K P)
  unfolding new_finalized
  set_signature s index signature =
      if not (fs.set_item s.partial_signatures index signature).1
      then done (failed mismatched_signatures)
      else let s' : SignatureCollection fs K P = record s {
        partial_signatures = (fs.set_item s.partial_signatures index signature).0;
      } in
        if fs.is_full s'.partial_signatures
        then (do f ← new_finalized s'; done (finalized f))
        else done (signature_collection s')

  unfoldable pub add_partial_signature :
      SignatureCollection fs K P → SchnorrSignature P K → Bool → Run (MuSigState fs K P)
  unfolding validate_partial_signature set_signature
  add_partial_signature s signature validate =
      elim (fs.search pk.eq s.public_nonces signature.public_nonce) [
        | none ↦ done (failed participant_not_found)
        | some i ↦
            let keep = set_signature s i signature in
            if validate
            then (do
              valid ← validate_partial_signature s i signature
              if not valid then done (failed (invalid_partial_signature i)) else keep)
            else keep
      ]
