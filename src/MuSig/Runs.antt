-- ===== src/MuSig/Runs.antt =====
-- src/ristretto/musig.rs: whole ceremonies, as sequences of events.
use tari_crypto.Base.{
  ℕ, ◌==◌, ==→eq, ◌≡◌, refl, sym, subst, ◌∙◌, ◌⊎◌, true, List, [], ◌∷◌, All, Run, done, panic,
  Returns, Returns-bind, inl, inr, Bool-cases, Result-cases, arith,
}
use tari_crypto.Keys.{PublicKey}
use tari_crypto.Keys.Laws.{KeyLaws}
use tari_crypto.External.{Digest, DigestLaws, FixedSet, FixedSetLaws}
use tari_crypto.JointKey.{MuSigError}
use tari_crypto.JointKey
use tari_crypto.JointKey.Add
use tari_crypto.Signatures.Schnorr
use tari_crypto.MuSig.States.{
  MessageHash, MuSigState, initialization, nonce_hash_collection, nonce_collection,
  signature_collection, finalized, failed, MuSigEvent, add_key, set_message, add_nonce_hash,
  add_nonce, add_partial_sig, FinalizedMuSig,
}
use tari_crypto.MuSig.Rounds
use tari_crypto.MuSig.Machine.{MuSig, new, next_state, handle_event, run}
use tari_crypto.MuSig.Invariant.{InState, Complete}
use tari_crypto.MuSig.Early.{
  add_pubkey-InState, set_message-InState, add_nonce_hash-InState, set_message_nonce_hash-InState,
}
use tari_crypto.MuSig.Nonces.{add_nonce-InState, set_message_nonce-InState}
use tari_crypto.MuSig.Signing.{add_partial_signature-InState}

-- The events of a ceremony: its messages are sent ones, and signatures are validated if trusted.
abbrev pub EventOk : {K P : Type 0} → (MessageHash → Type 0) → Type 0 → MuSigEvent K P → Type 0
EventOk Sent Trusted (set_message m) = Sent m
EventOk Sent Trusted (add_partial_sig sig validate) = Trusted → validate ≡ true
EventOk Sent Trusted _ = Unit

module _ {K P : Type 0} (pk : PublicKey K P) (d : Digest) (fs : FixedSet) where
  -- Once a ceremony has failed, any further events, at least one, leave it failed with
  -- `InvalidStateTransition`, whatever they and the first error are.
  failed_run :
      (e : MuSigError) (x : MuSigEvent K P) (es : List (MuSigEvent K P))
      → run pk d fs (record { state = failed e }) (x ∷ es)
        ≡ done (record { state = failed JointKey.invalid_state_transition })
  unfolding run handle_event next_state
  failed_run e x [] = refl
  failed_run e x (y ∷ es) = failed_run JointKey.invalid_state_transition y es

module _ {K P : Type 0} {pk : PublicKey K P} (laws : KeyLaws pk) (d : Digest) (fs : FixedSet)
    (fl : FixedSetLaws fs) (dl : DigestLaws d) (size : pk.secret.key_length ≡ 32) where
  module _ (Sent : MessageHash → Type 0) (Trusted : Type 0) where
    module _ (fits : d.output_size ≡ pk.secret.key_length) where
      -- With a hash as long as a secret key, of 32 bytes, an event that sets only messages counted
      -- as sent, and validates a partial signature where signatures are trusted, takes every state
      -- that keeps the invariant to one that keeps it, without a panic.
      pub next_state-InState :
          (s : MuSigState fs K P) (e : MuSigEvent K P)
          → EventOk Sent Trusted e
          → InState laws d fs fl Sent Trusted s
          → Returns (next_state pk d fs s e) (InState laws d fs fl Sent Trusted)
      unfolding next_state
      next_state-InState (initialization s) (add_key p) k v =
          add_pubkey-InState laws d fs fl Sent Trusted dl fits s p v
      next_state-InState (initialization s) (set_message m) k v =
          set_message-InState laws d fs fl Sent Trusted dl fits s m k v
      next_state-InState (nonce_hash_collection s) (add_nonce_hash p h) k v =
          add_nonce_hash-InState laws d fs fl Sent Trusted dl fits s p h v
      next_state-InState (nonce_hash_collection s) (set_message m) k v =
          set_message_nonce_hash-InState laws d fs fl Sent Trusted dl fits s m k v
      next_state-InState (nonce_collection s) (add_nonce p r) k v =
          add_nonce-InState laws d fs fl Sent Trusted dl fits s p r v
      next_state-InState (nonce_collection s) (set_message m) k v =
          set_message_nonce-InState laws d fs fl Sent Trusted dl fits s m k v
      next_state-InState (signature_collection s) (add_partial_sig sig b) k v =
          add_partial_signature-InState laws d fs fl Sent Trusted dl fits s sig b k v
      next_state-InState _ _ k v = tt

      run-InState :
          (m : MuSig fs K P) (es : List (MuSigEvent K P))
          → All (EventOk Sent Trusted) es
          → InState laws d fs fl Sent Trusted m.state
          → Returns (run pk d fs m es) (λ m'. InState laws d fs fl Sent Trusted m'.state)
      unfolding run handle_event
      run-InState m [] k v = v
      run-InState m (e ∷ es) k v =
          Returns-bind (handle_event pk d fs m e) (λ m'. run pk d fs m' es)
            (λ m'. InState laws d fs fl Sent Trusted m'.state) _
            (Returns-bind (next_state pk d fs m.state e) (λ s. done (record { state = s }))
              (InState laws d fs fl Sent Trusted) (λ m'. InState laws d fs fl Sent Trusted m'.state)
              (next_state-InState m.state e k.0 v) (λ s w. w))
            (λ m' w. run-InState m' es k.1 w)

    new-InState :
        (n : ℕ)
        → ((d.output_size ≡ 32) × InState laws d fs fl Sent Trusted (new pk d fs n).state)
          ⊎ ((e : MuSigError) × ((new pk d fs n).state ≡ failed e))
    unfolding new Rounds.new_initialization JointKey.new
    new-InState n = elim (Bool-cases (d.output_size == 32)) [
      | inr no_match ↦ inr (JointKey.incompatible_hash_function, rw (no_match, new))
      | inl matches ↦ elim (Result-cases (JointKey.new {P = P} n)) [
        | inr (e, t) ↦ inr (e, rw (matches, new, t))
        | inl (b, t) ↦ inl (
          ==→eq _ _ matches,
          rw (matches, new, t)
              (record {
                valid = Add.new-IsValid pk n t;
                room = ground (arith, t);
                sent = λ m u. absurd (ground arith);
              }),
        )
      ]
    ]

  failed_run-Returns :
      (Q : MuSigState fs K P → Type 0) (m : MuSig fs K P) (e : MuSigError)
      (es : List (MuSigEvent K P))
      → ((e : MuSigError) → Q (failed e))
      → m.state ≡ failed e
      → Returns (run pk d fs m es) (λ m'. Q m'.state)
  failed_run-Returns Q m e [] q t = unfold run in subst Q (sym t) (q e)
  failed_run-Returns Q m e (x ∷ es) q t =
      subst (λ s. Returns (run pk d fs (record { state = s }) (x ∷ es)) (λ m'. Q m'.state)) (sym t)
        (rw (failed_run pk d fs e x es) (q JointKey.invalid_state_transition))

  ceremony-InState :
      (Sent : MessageHash → Type 0) (Trusted : Type 0) (n : ℕ) (es : List (MuSigEvent K P))
      → All (EventOk Sent Trusted) es
      → Returns (run pk d fs (new pk d fs n) es) (λ m. InState laws d fs fl Sent Trusted m.state)
  ceremony-InState Sent Trusted n es k = elim (new-InState Sent Trusted n) [
    | inl (fits, v) ↦ run-InState Sent Trusted (fits ∙ sym size) (new pk d fs n) es k v
    | inr (e, t) ↦ failed_run-Returns (InState laws d fs fl Sent Trusted) _ e es (λ _. tt) t
  ]

  any_event : (es : List (MuSigEvent K P)) → All (EventOk (λ _. Unit {0}) ⊥) es
  any_event [] = tt
  any_event (add_key p ∷ es) = (tt, any_event es)
  any_event (set_message m ∷ es) = (tt, any_event es)
  any_event (add_nonce_hash p h ∷ es) = (tt, any_event es)
  any_event (add_nonce p r ∷ es) = (tt, any_event es)
  any_event (add_partial_sig s b ∷ es) = (λ h. absurd h, any_event es)

  -- For secret keys of 32 bytes, and a hash and sets that keep their documented laws, no sequence
  -- of events, honest or not, makes a new ceremony panic, for any number of participants.
  pub ceremony_total :
      (n : ℕ) (es : List (MuSigEvent K P))
      → (m : MuSig fs K P) × (run pk d fs (new pk d fs n) es ≡ done m)
  ceremony_total n es =
      go (run pk d fs (new pk d fs n) es) refl
        (ceremony-InState (λ _. Unit {0}) ⊥ n es (any_event es))
    where
      go :
          (r : Run (MuSig fs K P))
          → run pk d fs (new pk d fs n) es ≡ r
          → Returns r (λ m. InState laws d fs fl (λ _. Unit {0}) ⊥ m.state)
          → (m : MuSig fs K P) × (run pk d fs (new pk d fs n) es ≡ done m)
      go (done m) e w = (m, e)
      go panic e w = absurd w

  finished :
      (Sent : MessageHash → Type 0) (Trusted : Type 0) (n : ℕ) (es : List (MuSigEvent K P))
      (f : FinalizedMuSig K P)
      → All (EventOk Sent Trusted) es
      → run pk d fs (new pk d fs n) es ≡ done (record { state = finalized f })
      → Complete laws d fs fl Sent Trusted f
  finished Sent Trusted n es f k e =
      subst (λ r. Returns r (λ m. InState laws d fs fl Sent Trusted m.state)) e
        (ceremony-InState Sent Trusted n es k)

  abbrev pub Validated : MessageHash → MuSigEvent K P → Type 0
  Validated m (set_message m') = m' ≡ m
  Validated m (add_partial_sig sig validate) = validate ≡ true
  Validated m _ = Unit

  Validated-EventOk :
      (m : MessageHash) (es : List (MuSigEvent K P))
      → All (Validated m) es
      → All (EventOk (λ m'. m' ≡ m) (Unit {0})) es
  Validated-EventOk m [] k = tt
  Validated-EventOk m (add_key p ∷ es) k = (tt, Validated-EventOk m es k.1)
  Validated-EventOk m (set_message m' ∷ es) k = (k.0, Validated-EventOk m es k.1)
  Validated-EventOk m (add_nonce_hash p h ∷ es) k = (tt, Validated-EventOk m es k.1)
  Validated-EventOk m (add_nonce p r ∷ es) k = (tt, Validated-EventOk m es k.1)
  Validated-EventOk m (add_partial_sig s b ∷ es) k = (λ _. k.0, Validated-EventOk m es k.1)

  -- For secret keys of 32 bytes: if every event that sets a message sets `m` and every partial
  -- signature is validated as it is added, a ceremony that ends finalized has an aggregate
  -- signature that verifies under the joint key for its challenge, and that challenge is the hash
  -- of the nonce of the signature, the joint key and `m`.
  pub ceremony_verified :
      (n : ℕ) (m : MessageHash) (es : List (MuSigEvent K P)) (f : FinalizedMuSig K P)
      → All (Validated m) es
      → run pk d fs (new pk d fs n) es ≡ done (record { state = finalized f })
      → (Schnorr.verify pk f.s_agg f.joint_key.joint_pub_key f.challenge ≡ true)
        × (Rounds.calculate_challenge pk d fs f.s_agg.public_nonce f.joint_key.joint_pub_key m
            ≡ done f.challenge)
  ceremony_verified n m es f k e =
      let c = finished (λ m'. m' ≡ m) (Unit {0}) n es f (Validated-EventOk m es k) e in
      let (m', same, t) = c.hashed in
      (
        c.verified tt,
        subst
            (λ x.
              Rounds.calculate_challenge pk d fs f.s_agg.public_nonce f.joint_key.joint_pub_key x
              ≡ done f.challenge)
            same t,
      )
