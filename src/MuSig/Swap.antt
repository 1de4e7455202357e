-- ===== src/MuSig/Swap.antt =====
-- src/ristretto/musig.rs: in each of the first three states, an event that adds a key, a nonce hash or a
-- nonce right after the message was set can as well come before.
use tari_crypto.Base.{
  ℕ, suc, ◌≡◌, refl, ap, ◌∙◌, inl, inr, Bool, false, some, List, [], ◌∷◌, sequence, length, Run,
  done, Bool-cases, Option-cases, Result-cases, Run-cases, ok, arith,
}
use tari_crypto.Keys.{PublicKey}
use tari_crypto.External.{Digest, FixedSet, FixedSetLaws}
use tari_crypto.Std.Search.{binary_search}
use tari_crypto.JointKey.{JointKey, JointKeyBuilder, MuSigError}
use tari_crypto.JointKey
use tari_crypto.MuSig.States.{
  MessageHash, MuSigState, MuSigEvent, Initialization, NonceHashCollection, NonceCollection,
  initialization, nonce_hash_collection, nonce_collection, add_key, set_message, add_nonce_hash,
  add_nonce,
}
use tari_crypto.MuSig.Rounds
use tari_crypto.MuSig.Machine.{next_state}
use tari_crypto.MuSig.Query.{has_failed}

module _ {K P : Type 0} (pk : PublicKey K P) (d : Digest) (fs : FixedSet)
    (fl : FixedSetLaws fs) where
  open fl use {places}

  abbrev pub State : Type 0
  State = MuSigState fs K P

  abbrev pub failing : State → Bool
  failing s = has_failed (record { state = s })

  -- With the message set after the event, the state is the same.
  abbrev pub Late : State → MessageHash → MuSigEvent K P → State → Type 0
  Late s m e s₂ =
      (t : State) × (next_state pk d fs s e ≡ done t)
      × (next_state pk d fs t (set_message m) ≡ done s₂)

  new-not_full : (T : Type 0) (n : ℕ) → fs.is_full (fs.new {T = T} (suc n)) ≡ false
  new-not_full T n = elim (Bool-cases (fs.is_full (fs.new {T = T} (suc n)))) [
    | inr e ↦ e
    | inl e ↦
        let (l, all) = (fl.is_full_iff (fs.new {T = T} (suc n))).0 e in
        absurd (ground (arith, ap sequence (fl.places-new {T = T} (suc n)), all))
  ]

  nonempty :
      (keys : List P) (p : P) (i : ℕ)
      → binary_search pk.cmp keys p ≡ ok i
      → (n : ℕ) × (length keys ≡ suc n)
  unfolding binary_search
  nonempty [] p i h = absurd (ground arith)
  nonempty (k ∷ keys) p i h = (length keys, refl)

  fresh_nonces :
      (jk : JointKey P K) (p : P) (i : ℕ)
      → JointKey.index_of pk jk p ≡ ok i
      → fs.is_full (fs.new {T = P} (JointKey.size jk)) ≡ false
  unfolding JointKey.index_of JointKey.size
  fresh_nonces jk p i h = elim (Result-cases (binary_search pk.cmp jk.pub_keys p)) [
    | inr (x, e) ↦ absurd (ground (arith, e, h))
    | inl (j, e) ↦
        let (n, some_key) = nonempty jk.pub_keys p j e in
        ap (λ k. fs.is_full (fs.new {T = P} k)) some_key ∙ new-not_full P n
  ]

  pub add_nonce_hash-Late :
      (s : NonceHashCollection fs K P) (m : MessageHash) (p : P) (h : MessageHash)
      → Rounds.is_some s.message ≡ false
      → failing (Rounds.add_nonce_hash pk d fs (record s { message = some m }) p h) ≡ false
      → Late
          (nonce_hash_collection s)
          m
          (add_nonce_hash p h)
          (Rounds.add_nonce_hash pk d fs (record s { message = some m }) p h)
  unfolding Rounds.add_nonce_hash Rounds.new_nonce_collection has_failed next_state
      Rounds.set_message_nonce Rounds.set_message_nonce_hash
  add_nonce_hash-Late s m p h fresh fine =
      elim (Result-cases (JointKey.index_of pk s.joint_key p)) [
        | inr (x, e) ↦ absurd (ground (arith, e, fine))
        | inl (i, e) ↦ elim (Bool-cases (fs.is_full (fs.set_item s.nonce_hashes i h).0)) [
          | inl full ↦ (
            _,
            refl,
            rw (e, Rounds.add_nonce_hash, full, fresh, fresh_nonces s.joint_key p i e) refl,
          )
          | inr more ↦ (_, refl, rw (e, Rounds.add_nonce_hash, more, fresh) refl)
        ]
      ]

  pub add_nonce-Late :
      (s : NonceCollection fs K P) (m : MessageHash) (p r : P) (s₂ : State)
      → Rounds.is_some s.message ≡ false
      → Rounds.add_nonce pk d fs (record s { message = some m }) p r ≡ done s₂
      → failing s₂ ≡ false
      → Late (nonce_collection s) m (add_nonce p r) s₂
  unfolding Rounds.add_nonce has_failed next_state Rounds.set_message_nonce
  add_nonce-Late s m p r s₂ fresh then fine =
      let same : (t : Run State)
          → t ≡ Rounds.add_nonce pk d fs (record s { message = some m }) p r
          → t ≡ done s₂ =
        λ t h. h ∙ then in
      elim (Result-cases (JointKey.index_of pk s.joint_key p)) [
        | inr (x, e) ↦ absurd (ground (arith, e, then, fine))
        | inl (i, e) ↦ elim (Option-cases (fs.get_item s.nonce_hashes i)) [
          | inl gone ↦ absurd (ground (arith, e, gone, then, fine))
          | inr (h, there) ↦ elim (Bool-cases (Rounds.is_valid_nonce pk d fs r h)) [
            | inr bad ↦ absurd (ground (arith, e, there, bad, then, fine))
            | inl good ↦ elim (Bool-cases (fs.is_full (fs.set_item s.public_nonces i r).0)) [
              | inl full ↦ (
                nonce_collection (record s { public_nonces = (fs.set_item s.public_nonces i r).0 }),
                rw (e, Rounds.add_nonce, there, good, full, fresh) refl,
                same _ (rw (fresh, full, e, Rounds.add_nonce, there, good, full) refl),
              )
              | inr more ↦ (
                nonce_collection (record s { public_nonces = (fs.set_item s.public_nonces i r).0 }),
                rw (e, Rounds.add_nonce, there, good, more) refl,
                same _ (rw (fresh, more, e, Rounds.add_nonce, there, good, more) refl),
              )
            ]
          ]
        ]
      ]

  pub add_key-Late :
      (s : Initialization P) (m : MessageHash) (p : P) (s₂ : State)
      → Rounds.is_some s.message ≡ false
      → Rounds.add_pubkey pk d fs (record s { message = some m }) p ≡ done s₂
      → failing s₂ ≡ false
      → Late (initialization s) m (add_key p) s₂
  unfolding Rounds.add_pubkey has_failed next_state Rounds.set_message_initialization
      Rounds.set_message_nonce_hash Rounds.new_nonce_hash_collection
  add_key-Late s m p s₂ fresh then fine =
      let b = (JointKey.add_key pk s.joint_key_builder p).0 in
      let same : (t : Run State)
          → t ≡ Rounds.add_pubkey pk d fs (record s { message = some m }) p
          → t ≡ done s₂ =
        λ t h. h ∙ then in
      elim (Result-cases (JointKey.add_key pk s.joint_key_builder p).1) [
        | inr (x, e) ↦ absurd (ground (arith, e, then, fine))
        | inl (k, e) ↦ elim (Bool-cases (JointKey.is_full b)) [
          | inr more ↦ (
            initialization (record s { joint_key_builder = b }),
            rw (e, Rounds.add_pubkey, more) refl,
            same _ (rw (fresh, e, Rounds.add_pubkey, more) refl),
          )
          | inl full ↦ elim (Run-cases (JointKey.build pk d b)) [
            | inl stuck ↦ absurd (ground (arith, e, full, stuck, then))
            | inr (built, made) ↦ elim (Result-cases built) [
              | inr (x, bad) ↦ absurd (ground (arith, e, full, made, bad, then, fine))
              | inl (jk, good) ↦ (
                nonce_hash_collection (Rounds.new_nonce_hash_collection pk d fs jk s.message),
                rw (e, Rounds.add_pubkey, full, made, good) refl,
                same _ (rw (fresh, e, Rounds.add_pubkey, full, made, good) refl),
              )
            ]
          ]
        ]
      ]
