-- ===== src/MuSig/Machine.antt =====
-- `RistrettoMuSig`: the dispatch of events on states, and the calls that raise them.
use tari_crypto.Base.{ℕ, Bool, Bytes, List, [], ◌∷◌, ok, err, Run, done, ◌>>=◌}
use tari_crypto.Keys.{PublicKey}
use tari_crypto.External.{Digest, digest, FixedSet}
use tari_crypto.JointKey.{invalid_state_transition}
use tari_crypto.Signatures.Schnorr.{SchnorrSignature}
use tari_crypto.MuSig.States.{
  MessageHash, MuSigState, initialization, nonce_hash_collection, nonce_collection,
  signature_collection, failed, MuSigEvent, add_key, set_message, add_nonce_hash, add_nonce,
  add_partial_sig,
}
use tari_crypto.MuSig.Rounds

-- `RistrettoMuSig<D>`; its second field is only a marker of the type `D`.
pub record MuSig (fs : FixedSet) (K P : Type 0) : Type 0 where
  pub state : MuSigState fs K P

module _ {K P : Type 0} (pk : PublicKey K P) (d : Digest) (fs : FixedSet) where
  open pk use {secret as sk}

  unfoldable pub new : ℕ → MuSig fs K P
  unfolding Rounds.new_initialization
  new n = record {
    state = elim (Rounds.new_initialization pk d fs n) [
      | ok s ↦ initialization s
      | err e ↦ failed e
    ];
  }

  abbrev pub invalid_transition : MuSigState fs K P
  invalid_transition = failed invalid_state_transition

  -- The `match` over states and events.
  unfoldable pub next_state : MuSigState fs K P → MuSigEvent K P → Run (MuSigState fs K P)
  next_state (initialization s) (add_key p) = Rounds.add_pubkey pk d fs s p
  next_state (initialization s) (set_message m) =
      done (Rounds.set_message_initialization pk d fs s m)
  next_state (nonce_hash_collection s) (add_nonce_hash p h) =
      done (Rounds.add_nonce_hash pk d fs s p h)
  next_state (nonce_hash_collection s) (set_message m) =
      done (Rounds.set_message_nonce_hash pk d fs s m)
  next_state (nonce_collection s) (add_nonce p nonce) = Rounds.add_nonce pk d fs s p nonce
  next_state (nonce_collection s) (set_message m) = Rounds.set_message_nonce pk d fs s m
  next_state (signature_collection s) (add_partial_sig sig validate) =
      Rounds.add_partial_signature pk d fs s sig validate
  next_state _ _ = done invalid_transition

  unfoldable pub handle_event : MuSig fs K P → MuSigEvent K P → Run (MuSig fs K P)
  unfolding next_state
  handle_event m event = do state ← next_state m.state event; done (record { state = state })

  -- The public calls.
  unfoldable pub add_public_key : MuSig fs K P → P → Run (MuSig fs K P)
  unfolding handle_event
  add_public_key m key = handle_event m (add_key key)

  unfoldable pub set_message_call : MuSig fs K P → Bytes → Run (MuSig fs K P)
  unfolding handle_event digest
  set_message_call m msg = handle_event m (set_message (digest d msg))

  unfoldable pub add_nonce_commitment : MuSig fs K P → P → MessageHash → Run (MuSig fs K P)
  unfolding handle_event
  add_nonce_commitment m pub_key commitment = handle_event m (add_nonce_hash pub_key commitment)

  unfoldable pub add_nonce_call : MuSig fs K P → P → P → Run (MuSig fs K P)
  unfolding handle_event
  add_nonce_call m pub_key nonce = handle_event m (add_nonce pub_key nonce)

  unfoldable pub add_signature : MuSig fs K P → SchnorrSignature P K → Bool → Run (MuSig fs K P)
  unfolding handle_event
  add_signature m s should_validate = handle_event m (add_partial_sig s should_validate)

  -- A whole ceremony: the events in turn.
  unfoldable pub run : MuSig fs K P → List (MuSigEvent K P) → Run (MuSig fs K P)
  run m [] = done m
  run m (e ∷ es) = do m' ← handle_event m e; run m' es
