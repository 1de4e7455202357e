-- ===== src/MuSig/Nonces.antt =====
-- src/ristretto/musig.rs: the invariant in round two and at the start of round three.
use tari_crypto.Base.{
  ℕ, ◌≡◌, refl, sym, ap, subst₂, ◌∙◌, true, some, List, sequence, ok, expect, Returns, inl, inr,
  Bool-cases, Option-cases, Result-cases,
}
use tari_crypto.Keys.{PublicKey}
use tari_crypto.Keys.Laws.{KeyLaws}
use tari_crypto.External.{Digest, digest, DigestLaws, FixedSet, FixedSetLaws}
use tari_crypto.JointKey.{JointKey, JointKeyBuilder, MuSigError, index_of}
use tari_crypto.JointKey
use tari_crypto.JointKey.Build.{hash_total}
use tari_crypto.Signatures.Schnorr.{SchnorrSignature}
use tari_crypto.MuSig.States.{MessageHash, NonceCollection, SignatureCollection, MuSigState}
use tari_crypto.MuSig.Places.{At, length-new, At-new, length-set_item, At-set_item, get_item-At}
use tari_crypto.MuSig.Rounds
use tari_crypto.MuSig.Early.{now}
use tari_crypto.Base.Order.{eq_bytes_iff}
use tari_crypto.MuSig.Invariant.{InState, RoundTwo, RoundThree, Sum}
use tari_crypto.MuSig.Machine.{new}

module _ {K P : Type 0} {pk : PublicKey K P} (laws : KeyLaws pk) (d : Digest) (fs : FixedSet)
    (fl : FixedSetLaws fs) (Sent : MessageHash → Type 0) (Trusted : Type 0) (dl : DigestLaws d)
    (fits : d.output_size ≡ pk.secret.key_length) where
  open pk use {secret as sk}
  open laws use {value, plus, zero}
  open fl use {places}

  abbrev Ok : MuSigState fs K P → Type 0
  Ok = InState laws d fs fl Sent Trusted

  abbrev Two : NonceCollection fs K P → Type 0
  Two = RoundTwo laws d fs fl Sent Trusted

  abbrev Three : SignatureCollection fs K P → Type 0
  Three = RoundThree laws d fs fl Sent Trusted

  nonce_sum :
      (s : fs.Set P) (l : List P)
      → sequence (places s) ≡ some l
      → (r : P) × (fs.sum pk.default pk.add s ≡ some r) × Sum laws d fs fl Sent Trusted l r
  nonce_sum s l e =
      fl.sum_full pk.default pk.add zero plus value laws.value-default laws.value-add laws.zero-plus
        laws.plus_comm laws.plus_assoc s l e

  start_signatures-InState :
      (s : NonceCollection fs K P) (m : MessageHash)
      → Two s
      → fs.is_full s.public_nonces ≡ true
      → s.message ≡ some m
      → Returns (Rounds.start_signatures pk d fs s) Ok
  unfolding Rounds.start_signatures Rounds.new_signature_collection
  start_signatures-InState s m v full e =
      let (l, all) = (fl.is_full_iff s.public_nonces).0 full in
      let (r, sum, value_sum) = nonce_sum s.public_nonces l all in
      let (k, t) = hash_total laws d dl fits (
        d.chain (d.chain (d.chain d.new (pk.as_bytes r)) (pk.as_bytes s.joint_key.joint_pub_key))
          m) in
      rw (sum, Rounds.start_signatures, e, t)
        (record {
          joint = v.joint;
          nonce_places = v.nonce_places;
          signature_places = unfold JointKey.size in length-new fs fl (SchnorrSignature P K) _;
          nonces = l;
          all_nonces = all;
          agg_nonce = r;
          agg_sum = value_sum;
          hashed = (m, v.sent m e, unfold Rounds.calculate_challenge in ap expect t);
          matched = λ i sig at. absurd (At-new fs fl _ i sig at);
          checked = λ _ i sig at. absurd (At-new fs fl _ i sig at);
        })

  -- A nonce that is written at its commitment.
  committed-set_item :
      (s : NonceCollection fs K P) (i : ℕ) (nonce : P) (h : MessageHash)
      → Two s
      → fs.get_item s.nonce_hashes i ≡ some h
      → Rounds.is_valid_nonce pk d fs nonce h ≡ true
      → Two (record s { public_nonces = (fs.set_item s.public_nonces i nonce).0 })
  unfolding Rounds.is_valid_nonce
  committed-set_item s i nonce h v at good = record {
    joint = v.joint;
    hash_places = v.hash_places;
    nonce_places = length-set_item fs fl s.public_nonces i nonce ∙ v.nonce_places;
    committed = λ j r here. elim (At-set_item fs fl s.public_nonces i j nonce r here) [
      | inl (same, it) ↦
          subst₂ (λ k n. At (places s.nonce_hashes) k (digest d (pk.as_bytes n))) same it
            (get_item-At fs fl s.nonce_hashes i h at ∙ ap (λ x. some (some x)) (sym hash))
      | inr old ↦ v.committed j r old
    ];
    sent = v.sent;
  }
    where
      hash : digest d (pk.as_bytes nonce) ≡ h
      hash = (eq_bytes_iff _ _).0 good

  accepted :
      (s : NonceCollection fs K P) (p nonce : P) (i : ℕ) (h : MessageHash)
      → Two s
      → index_of pk s.joint_key p ≡ ok i
      → fs.get_item s.nonce_hashes i ≡ some h
      → Rounds.is_valid_nonce pk d fs nonce h ≡ true
      → Returns (Rounds.add_nonce pk d fs s p nonce) Ok
  unfolding Rounds.add_nonce
  accepted s p nonce i h v e at good =
      elim (Bool-cases (fs.is_full (fs.set_item s.public_nonces i nonce).0)) [
        | inr more ↦ rw (e, Rounds.add_nonce, at, good, more) v'
        | inl full ↦ elim (Option-cases s.message) [
          | inl gone ↦
              let unset = ap Rounds.is_some gone in
              rw (e, Rounds.add_nonce, at, good, full, unset) v'
          | inr (m, is_m) ↦
              let is_set = ap Rounds.is_some is_m in
              rw (e, Rounds.add_nonce, at, good, full, is_set)
                (start_signatures-InState _ m v' full is_m)
        ]
      ]
    where
      v' : Two (record s { public_nonces = (fs.set_item s.public_nonces i nonce).0 })
      v' = committed-set_item s i nonce h v at good

  pub add_nonce-InState :
      (s : NonceCollection fs K P) (p nonce : P)
      → Two s
      → Returns (Rounds.add_nonce pk d fs s p nonce) Ok
  unfolding Rounds.add_nonce
  add_nonce-InState s p nonce v = elim (Result-cases (index_of pk s.joint_key p)) [
    | inr (m, e) ↦ rw (e, Rounds.add_nonce) tt
    | inl (i, e) ↦ elim (Option-cases (fs.get_item s.nonce_hashes i)) [
      | inl gone ↦ rw (e, Rounds.add_nonce, gone) tt
      | inr (h, at) ↦ elim (Bool-cases (Rounds.is_valid_nonce pk d fs nonce h)) [
        | inr bad ↦ rw (e, Rounds.add_nonce, at, bad) tt
        | inl good ↦ accepted s p nonce i h v e at good
      ]
    ]
  ]

  pub set_message_nonce-InState :
      (s : NonceCollection fs K P) (m : MessageHash)
      → Sent m
      → Two s
      → Returns (Rounds.set_message_nonce pk d fs s m) Ok
  unfolding Rounds.set_message_nonce
  set_message_nonce-InState s m t v = elim (Bool-cases (Rounds.is_some s.message)) [
    | inl old ↦ rw (old, Rounds.set_message_nonce) tt
    | inr new ↦ elim (Bool-cases (fs.is_full s.public_nonces)) [
      | inl full ↦
          rw (new, Rounds.set_message_nonce, full) (start_signatures-InState s' m v' full refl)
      | inr more ↦ rw (new, Rounds.set_message_nonce, more) v'
    ]
  ]
    where
      s' : NonceCollection fs K P
      s' = record s { message = some m }

      v' : Two s'
      v' = record {
        joint = v.joint;
        hash_places = v.hash_places;
        nonce_places = v.nonce_places;
        committed = v.committed;
        sent = now laws d fs fl Sent Trusted dl fits m t;
      }
