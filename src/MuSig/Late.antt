-- ===== src/MuSig/Late.antt =====
-- src/ristretto/musig.rs: the message may be set later, in a whole run of events.
use tari_crypto.Base.{
  ◌≡◌, refl, sym, ap, subst, ◌∙◌, inl, inr, Bool, false, some, List, [], ◌∷◌, ◌++◌, All, Run, done,
  panic, ◌>>=◌, Bool-cases, Run-cases, arith,
}
use tari_crypto.Keys.{PublicKey}
use tari_crypto.External.{Digest, FixedSet, FixedSetLaws}
use tari_crypto.JointKey.{JointKey, JointKeyBuilder, MuSigError}
use tari_crypto.JointKey
use tari_crypto.MuSig.States.{
  MessageHash, MuSigState, MuSigEvent, Initialization, NonceHashCollection, NonceCollection,
  SignatureCollection, initialization, nonce_hash_collection, nonce_collection,
  signature_collection, finalized, failed, add_key, set_message, add_nonce_hash, add_nonce,
  add_partial_sig,
}
use tari_crypto.MuSig.Rounds
use tari_crypto.MuSig.Machine.{MuSig, next_state, handle_event, run}
use tari_crypto.MuSig.Query.{has_failed}
use tari_crypto.MuSig.Swap.{add_nonce_hash-Late, add_nonce-Late, add_key-Late}
use tari_crypto.MuSig.Swap
use tari_crypto.MuSig.Phases.{failed_later}
use tari_crypto.MuSig.Forward.{run-Forward}

module _ {K P : Type 0} (pk : PublicKey K P) (d : Digest) (fs : FixedSet)
    (fl : FixedSetLaws fs) where
  abbrev State : Type 0
  State = MuSigState fs K P

  abbrev failing : State → Bool
  failing s = has_failed (record { state = s })

  abbrev Late : State → MessageHash → MuSigEvent K P → State → Type 0
  Late = Swap.Late pk d fs fl

  abbrev pub Collects : MuSigEvent K P → Type 0
  Collects (add_key p) = Unit
  Collects (add_nonce_hash p h) = Unit
  Collects (add_nonce p r) = Unit
  Collects _ = ⊥

  abbrev Then : State → MuSigEvent K P → State → Type 0
  Then s e s₂ = next_state pk d fs s e ≡ done s₂

  Then-from : (s s₁ s₂ : State) (e : MuSigEvent K P) → done s ≡ done s₁ → Then s₁ e s₂ → Then s e s₂
  Then-from s s₁ s₂ e h k =
      let same : s ≡ s₁ = ground (arith, h) in subst (λ x. Then x e s₂) (sym same) k

  -- After a failure there is no way to a state that has not failed, and after the nonces are
  -- complete nothing is collected.
  failed-Then :
      (x : MuSigError) (s₂ : State) (e : MuSigEvent K P)
      → Then (failed x) e s₂
      → failing s₂ ≡ false
      → ⊥
  unfolding next_state has_failed
  failed-Then x s₂ e h fine = ground (arith, h, fine)

  signing-Then :
      (r : Run (SignatureCollection fs K P)) (s₁ s₂ : State) (e : MuSigEvent K P)
      → Collects e
      → (r >>= λ c. done (signature_collection c)) ≡ done s₁
      → Then s₁ e s₂
      → failing s₂ ≡ false
      → ⊥
  unfolding next_state has_failed
  signing-Then panic s₁ s₂ e c h k fine = ground (arith, h)
  signing-Then (done r) s₁ s₂ (add_key p) c h k fine =
      ground (arith, Then-from (signature_collection r) s₁ s₂ (add_key p) h k, fine)
  signing-Then (done r) s₁ s₂ (add_nonce_hash p x) c h k fine =
      ground (arith, Then-from (signature_collection r) s₁ s₂ (add_nonce_hash p x) h k, fine)
  signing-Then (done r) s₁ s₂ (add_nonce p x) c h k fine =
      ground (arith, Then-from (signature_collection r) s₁ s₂ (add_nonce p x) h k, fine)
  signing-Then (done r) s₁ s₂ (set_message m) c h k fine = c
  signing-Then (done r) s₁ s₂ (add_partial_sig x b) c h k fine = c

  from_initialization :
      (s : Initialization P) (m : MessageHash) (e : MuSigEvent K P) (s₂ : State)
      → Collects e
      → Rounds.is_some s.message ≡ false
      → Then (initialization (record s { message = some m })) e s₂
      → failing s₂ ≡ false
      → Late (initialization s) m e s₂
  unfolding next_state has_failed
  from_initialization s m (add_key p) s₂ c fresh k fine =
      add_key-Late pk d fs fl s m p s₂ fresh k fine
  from_initialization s m (add_nonce_hash p x) s₂ c fresh k fine = absurd (ground (arith, k, fine))
  from_initialization s m (add_nonce p x) s₂ c fresh k fine = absurd (ground (arith, k, fine))
  from_initialization s m (set_message x) s₂ c fresh k fine = absurd c
  from_initialization s m (add_partial_sig x b) s₂ c fresh k fine = absurd c

  from_hashes :
      (s : NonceHashCollection fs K P) (m : MessageHash) (e : MuSigEvent K P) (s₂ : State)
      → Collects e
      → Rounds.is_some s.message ≡ false
      → Then (nonce_hash_collection (record s { message = some m })) e s₂
      → failing s₂ ≡ false
      → Late (nonce_hash_collection s) m e s₂
  unfolding next_state has_failed
  from_hashes s m (add_nonce_hash p x) s₂ c fresh k fine =
      let same : Rounds.add_nonce_hash pk d fs (record s { message = some m }) p x ≡ s₂ =
        ground (arith, k) in
      subst (Late (nonce_hash_collection s) m (add_nonce_hash p x)) same
        (add_nonce_hash-Late pk d fs fl s m p x fresh (ap failing same ∙ fine))
  from_hashes s m (add_key p) s₂ c fresh k fine = absurd (ground (arith, k, fine))
  from_hashes s m (add_nonce p x) s₂ c fresh k fine = absurd (ground (arith, k, fine))
  from_hashes s m (set_message x) s₂ c fresh k fine = absurd c
  from_hashes s m (add_partial_sig x b) s₂ c fresh k fine = absurd c

  from_nonces :
      (s : NonceCollection fs K P) (m : MessageHash) (e : MuSigEvent K P) (s₂ : State)
      → Collects e
      → Rounds.is_some s.message ≡ false
      → Then (nonce_collection (record s { message = some m })) e s₂
      → failing s₂ ≡ false
      → Late (nonce_collection s) m e s₂
  unfolding next_state has_failed
  from_nonces s m (add_nonce p x) s₂ c fresh k fine =
      add_nonce-Late pk d fs fl s m p x s₂ fresh k fine
  from_nonces s m (add_key p) s₂ c fresh k fine = absurd (ground (arith, k, fine))
  from_nonces s m (add_nonce_hash p x) s₂ c fresh k fine = absurd (ground (arith, k, fine))
  from_nonces s m (set_message x) s₂ c fresh k fine = absurd c
  from_nonces s m (add_partial_sig x b) s₂ c fresh k fine = absurd c

  -- In any state, if setting the message and then collecting something does not fail, then doing it
  -- the other way round leads to the same state.
  pub set_message-Late :
      (s : State) (m : MessageHash) (e : MuSigEvent K P) (s₁ s₂ : State)
      → Collects e
      → Then s (set_message m) s₁
      → Then s₁ e s₂
      → failing s₂ ≡ false
      → Late s m e s₂
  unfolding next_state Rounds.set_message_initialization Rounds.set_message_nonce_hash
      Rounds.set_message_nonce Rounds.start_signatures
  set_message-Late (initialization s) m e s₁ s₂ c h k fine =
      elim (Bool-cases (Rounds.is_some s.message)) [
        | inl old ↦ absurd (
            failed-Then JointKey.message_already_set s₂ e (Then-from _ s₁ s₂ e (rw old at h) k)
              fine)
        | inr fresh ↦
            from_initialization s m e s₂ c fresh (Then-from _ s₁ s₂ e (rw fresh at h) k) fine
      ]
  set_message-Late (nonce_hash_collection s) m e s₁ s₂ c h k fine =
      elim (Bool-cases (Rounds.is_some s.message)) [
        | inl old ↦ absurd (
            failed-Then JointKey.message_already_set s₂ e (Then-from _ s₁ s₂ e (rw old at h) k)
              fine)
        | inr fresh ↦ from_hashes s m e s₂ c fresh (Then-from _ s₁ s₂ e (rw fresh at h) k) fine
      ]
  set_message-Late (nonce_collection s) m e s₁ s₂ c h k fine =
      elim (Bool-cases (Rounds.is_some s.message)) [
        | inl old ↦ absurd (
            failed-Then JointKey.message_already_set s₂ e (Then-from _ s₁ s₂ e (rw old at h) k)
              fine)
        | inr fresh ↦ elim (Bool-cases (fs.is_full s.public_nonces)) [
          | inl full ↦ absurd (signing-Then _ s₁ s₂ e c (rw (fresh, full) at h) k fine)
          | inr room ↦
              from_nonces s m e s₂ c fresh (Then-from _ s₁ s₂ e (rw (fresh, room) at h) k) fine
        ]
      ]
  set_message-Late (signature_collection s) m e s₁ s₂ c h k fine =
      absurd (failed-Then JointKey.invalid_state_transition s₂ e (Then-from _ s₁ s₂ e h k) fine)
  set_message-Late (finalized s) m e s₁ s₂ c h k fine =
      absurd (failed-Then JointKey.invalid_state_transition s₂ e (Then-from _ s₁ s₂ e h k) fine)
  set_message-Late (failed s) m e s₁ s₂ c h k fine =
      absurd (failed-Then JointKey.invalid_state_transition s₂ e (Then-from _ s₁ s₂ e h k) fine)

  Run-step :
      (c c' : MuSig fs K P) (e : MuSigEvent K P) (es : List (MuSigEvent K P))
      → run pk d fs c (e ∷ es) ≡ done c'
      → (s : State) × (Then c.state e s) × (run pk d fs (record { state = s }) es ≡ done c')
  unfolding run handle_event
  Run-step c c' e es h = elim (Run-cases (next_state pk d fs c.state e)) [
    | inl stuck ↦ absurd (ground (arith, stuck, h))
    | inr (s, next) ↦ (s, next, sym (rw next refl) ∙ h)
  ]

  step-Run :
      (c c' : MuSig fs K P) (e : MuSigEvent K P) (es : List (MuSigEvent K P)) (s : State)
      → Then c.state e s
      → run pk d fs (record { state = s }) es ≡ done c'
      → run pk d fs c (e ∷ es) ≡ done c'
  unfolding run handle_event
  step-Run c c' e es s next h = rw next h

  pub never_failed :
      (s : State) (c' : MuSig fs K P) (es : List (MuSigEvent K P))
      → run pk d fs (record { state = s }) es ≡ done c'
      → has_failed c' ≡ false
      → failing s ≡ false
  never_failed s c' es h fine = elim (Bool-cases (failing s)) [
    | inr e ↦ e
    | inl e ↦ absurd (
        ground (
          arith,
          fine,
          failed_later s c'.state e (run-Forward pk d fs (record { state = s }) c' es h).0,
        ))
  ]

  -- For sets that keep their documented laws: from any state, if a run sets the message, goes on
  -- with events that add keys, nonce hashes or nonces, and ends without a failure, then the run in
  -- which the message is set only after these events ends in the same state.
  pub run-set_message_late :
      (c c' : MuSig fs K P) (m : MessageHash) (es rest : List (MuSigEvent K P))
      → All Collects es
      → has_failed c' ≡ false
      → run pk d fs c (set_message m ∷ (es ++ rest)) ≡ done c'
      → run pk d fs c (es ++ (set_message m ∷ rest)) ≡ done c'
  run-set_message_late c c' m [] rest a fine h = h
  run-set_message_late c c' m (e ∷ es) rest a fine h =
      let (s₁, set, h₁) = Run-step c c' (set_message m) (e ∷ (es ++ rest)) h in
      let (s₂, after, h₂) = Run-step (record { state = s₁ }) c' e (es ++ rest) h₁ in
      let (t, first, second) =
        set_message-Late c.state m e s₁ s₂ a.0 set after
          (never_failed s₂ c' (es ++ rest) h₂ fine) in
      step-Run c c' e (es ++ (set_message m ∷ rest)) t first (
        run-set_message_late (record { state = t }) c' m es rest a.1 fine
          (step-Run (record { state = t }) c' (set_message m) (es ++ rest) s₂ second h₂))
