-- ===== src/MuSig/Forward.antt =====
-- src/ristretto/musig.rs: a ceremony only moves forward, and what it has settled stays.
use tari_crypto.Base.{
  ℕ, ◌≤◌, ◌≡◌, refl, ap, subst, ◌⊎◌, inl, inr, Bool, true, none, some, List, [], ◌∷◌, done, unwrap,
  ◌&&◌, Bool-cases, Option-cases, Result-cases, arith,
}
use tari_crypto.Keys.{PublicKey}
use tari_crypto.External.{Digest, FixedSet}
use tari_crypto.JointKey.{index_of}
use tari_crypto.Signatures.Schnorr.{SchnorrSignature}
use tari_crypto.MuSig.States.{
  MessageHash, MuSigState, MuSigEvent, NonceHashCollection, NonceCollection, SignatureCollection,
  initialization, nonce_hash_collection, nonce_collection, signature_collection, finalized, add_key,
  set_message, add_nonce_hash, add_nonce, add_partial_sig,
}
use tari_crypto.MuSig.Rounds
use tari_crypto.MuSig.Machine.{MuSig, next_state, handle_event, run}
use tari_crypto.MuSig.Query.{has_failed, get_challenge, get_aggregated_public_key}
use tari_crypto.MuSig.Phases.{
  Ends, Ends-bind, Ends-then, Ends_all, Ends_map, phase, Forward, To, initialization-To, To-failed,
  Forward-refl, Forward-trans, stays,
}

module _ {K P : Type 0} (pk : PublicKey K P) (d : Digest) (fs : FixedSet) where
  add_nonce_hash-Forward :
      (s : NonceHashCollection fs K P) (p : P) (h : MessageHash)
      → To (nonce_hash_collection s) (Rounds.add_nonce_hash pk d fs s p h)
  unfolding Rounds.add_nonce_hash Rounds.new_nonce_collection get_aggregated_public_key
      get_challenge
  add_nonce_hash-Forward s p h = elim (Result-cases (index_of pk s.joint_key p)) [
    | inr (m, e) ↦ rw (e, Rounds.add_nonce_hash) (To-failed _ _)
    | inl (i, e) ↦ elim (Bool-cases (fs.is_full (fs.set_item s.nonce_hashes i h).0)) [
      | inl full ↦ rw (e, Rounds.add_nonce_hash, full) (stays _ _ (omega arith) refl (inl refl))
      | inr more ↦ rw (e, Rounds.add_nonce_hash, more) (stays _ _ (omega arith) refl (inl refl))
    ]
  ]

  set_message_nonce_hash-Forward :
      (s : NonceHashCollection fs K P) (m : MessageHash)
      → To (nonce_hash_collection s) (Rounds.set_message_nonce_hash pk d fs s m)
  unfolding Rounds.set_message_nonce_hash get_aggregated_public_key get_challenge
  set_message_nonce_hash-Forward s m = elim (Bool-cases (Rounds.is_some s.message)) [
    | inl e ↦ rw e (To-failed _ _)
    | inr e ↦ rw e (stays _ _ (omega arith) refl (inl refl))
  ]

  start_signatures-Forward :
      (before s : NonceCollection fs K P)
      → s.joint_key ≡ before.joint_key
      → Ends (Rounds.start_signatures pk d fs s) (To (nonce_collection before))
  unfolding Rounds.start_signatures Rounds.new_signature_collection get_aggregated_public_key
      get_challenge
  start_signatures-Forward before s same =
      Ends-bind (Rounds.new_signature_collection pk d fs s) (λ c. done (signature_collection c))
        (λ c. c.joint_key ≡ before.joint_key) (To (nonce_collection before))
        (Ends-then (unwrap (fs.sum pk.default pk.add s.public_nonces)) _ _ (λ r.
          Ends-then (unwrap s.message) _ _ (λ m.
            Ends-then (Rounds.calculate_challenge pk d fs r s.joint_key.joint_pub_key m) _ _
              (λ e. same))))
        (λ c e. stays _ _ (omega arith) (ap (λ j. some j.joint_pub_key) e) (inl refl))

  add_nonce-Forward :
      (s : NonceCollection fs K P) (p nonce : P)
      → Ends (Rounds.add_nonce pk d fs s p nonce) (To (nonce_collection s))
  unfolding Rounds.add_nonce get_aggregated_public_key get_challenge
  add_nonce-Forward s p nonce = elim (Result-cases (index_of pk s.joint_key p)) [
    | inr (m, e) ↦ rw (e, Rounds.add_nonce) (To-failed _ _)
    | inl (i, e) ↦ elim (Option-cases (fs.get_item s.nonce_hashes i)) [
      | inl gone ↦ rw (e, Rounds.add_nonce, gone) (To-failed _ _)
      | inr (h, there) ↦ elim (Bool-cases (Rounds.is_valid_nonce pk d fs nonce h)) [
        | inr bad ↦ rw (e, Rounds.add_nonce, there, bad) (To-failed _ _)
        | inl good ↦
            let s' : NonceCollection fs K P = record s {
              public_nonces = (fs.set_item s.public_nonces i nonce).0;
            } in
            elim (Bool-cases (fs.is_full s'.public_nonces && Rounds.is_some s'.message)) [
              | inl ready ↦
                  rw (e, Rounds.add_nonce, there, good, ready) (start_signatures-Forward s s' refl)
              | inr more ↦
                  rw (e, Rounds.add_nonce, there, good, more)
                    (stays _ _ (omega arith) refl (inl refl))
            ]
      ]
    ]
  ]

  set_message_nonce-Forward :
      (s : NonceCollection fs K P) (m : MessageHash)
      → Ends (Rounds.set_message_nonce pk d fs s m) (To (nonce_collection s))
  unfolding Rounds.set_message_nonce get_aggregated_public_key get_challenge
  set_message_nonce-Forward s m = elim (Bool-cases (Rounds.is_some s.message)) [
    | inl old ↦ rw (old, Rounds.set_message_nonce) (To-failed _ _)
    | inr fresh ↦ elim (Bool-cases (fs.is_full s.public_nonces)) [
      | inl full ↦
          rw (fresh, Rounds.set_message_nonce, full)
            (start_signatures-Forward s (record s { message = some m }) refl)
      | inr more ↦
          rw (fresh, Rounds.set_message_nonce, more) (stays _ _ (omega arith) refl (inl refl))
    ]
  ]

  set_signature-Forward :
      (s : SignatureCollection fs K P) (i : ℕ) (sig : SchnorrSignature P K)
      → Ends (Rounds.set_signature pk d fs s i sig) (To (signature_collection s))
  unfolding Rounds.set_signature Rounds.new_finalized get_aggregated_public_key get_challenge
  set_signature-Forward s i sig = elim (Bool-cases (fs.set_item s.partial_signatures i sig).1) [
    | inr outside ↦ rw (outside, Rounds.set_signature) (To-failed _ _)
    | inl inside ↦ elim (Bool-cases (fs.is_full (fs.set_item s.partial_signatures i sig).0)) [
      | inr more ↦ rw (inside, Rounds.set_signature, more) (stays _ _ (omega arith) refl (inr refl))
      | inl full ↦
          rw (inside, Rounds.set_signature, full)
            (Ends-bind
              (Rounds.new_finalized pk d fs
                (record s { partial_signatures = (fs.set_item s.partial_signatures i sig).0 }))
              (λ f. done (finalized f))
              (λ f. (f.joint_key ≡ s.joint_key) × (f.challenge ≡ s.challenge))
              (To (signature_collection s))
              (Ends-then
                (Rounds.calculate_agg_signature pk d fs
                  (record s { partial_signatures = (fs.set_item s.partial_signatures i sig).0 }))
                _ _ (λ t. (refl, refl)))
              (λ f (e, e').
                stays _ _ (omega arith) (ap (λ j. some j.joint_pub_key) e)
                  (inr (ap (λ k. some k) e'))))
    ]
  ]

  add_partial_signature-Forward :
      (s : SignatureCollection fs K P) (sig : SchnorrSignature P K) (validate : Bool)
      → Ends (Rounds.add_partial_signature pk d fs s sig validate) (To (signature_collection s))
  unfolding Rounds.add_partial_signature
  add_partial_signature-Forward s sig validate =
      elim (Option-cases (fs.search pk.eq s.public_nonces sig.public_nonce)) [
        | inl gone ↦ rw (gone, Rounds.add_partial_signature) (To-failed _ _)
        | inr (i, e) ↦ elim (Bool-cases validate) [
          | inr unchecked ↦
              rw (e, Rounds.add_partial_signature, unchecked) (set_signature-Forward s i sig)
          | inl checked ↦
              rw (e, Rounds.add_partial_signature, checked)
                (Ends-then (Rounds.validate_partial_signature pk d fs s i sig) _ _ (λ valid.
                  elim (Bool-cases valid) [
                    | inl good ↦ rw good (set_signature-Forward s i sig)
                    | inr bad ↦ rw bad (To-failed _ _)
                  ]))
        ]
      ]

  next_state-Forward :
      (s : MuSigState fs K P) (e : MuSigEvent K P) → Ends (next_state pk d fs s e) (To s)
  unfolding next_state
  next_state-Forward (initialization s) (add_key p) =
      Ends_all (Rounds.add_pubkey pk d fs s p) (To (initialization s)) (initialization-To s)
  next_state-Forward (initialization s) (set_message m) = initialization-To s _
  next_state-Forward (nonce_hash_collection s) (add_nonce_hash p h) = add_nonce_hash-Forward s p h
  next_state-Forward (nonce_hash_collection s) (set_message m) = set_message_nonce_hash-Forward s m
  next_state-Forward (nonce_collection s) (add_nonce p r) = add_nonce-Forward s p r
  next_state-Forward (nonce_collection s) (set_message m) = set_message_nonce-Forward s m
  next_state-Forward (signature_collection s) (add_partial_sig sig b) =
      add_partial_signature-Forward s sig b
  next_state-Forward s _ = To-failed s _

  run-Ends : (m : MuSig fs K P) (es : List (MuSigEvent K P)) → Ends (run pk d fs m es) (Forward m)
  unfolding run handle_event
  run-Ends m [] = Forward-refl m
  run-Ends m (e ∷ es) =
      Ends-bind (handle_event pk d fs m e) (λ m'. run pk d fs m' es) (Forward m) (Forward m)
        (Ends-bind (next_state pk d fs m.state e) (λ s. done (record { state = s })) (To m.state)
          (Forward m) (next_state-Forward m.state e) (λ s h. h))
        (λ m' h.
          Ends_map (run pk d fs m' es) (λ m'' k. Forward-trans m m' m'' h k) (run-Ends m' es))

  -- Whatever the events, a ceremony never goes back to an earlier round, and unless it fails, the
  -- joint public key, once there is one, and the challenge, once there is one, stay the same.
  pub run-Forward :
      (m m' : MuSig fs K P) (es : List (MuSigEvent K P))
      → run pk d fs m es ≡ done m'
      → (phase m.state ≤ phase m'.state)
        × ((has_failed m' ≡ true)
            ⊎ (get_aggregated_public_key m ≡ none)
            ⊎ (get_aggregated_public_key m' ≡ get_aggregated_public_key m))
        × ((has_failed m' ≡ true) ⊎ (get_challenge m ≡ none) ⊎ (get_challenge m' ≡ get_challenge m))
  run-Forward m m' es h =
      let f : Forward m m' = subst (λ r. Ends r (Forward m)) h (run-Ends m es) in
      (f.later, f.joint_kept, f.challenge_kept)
