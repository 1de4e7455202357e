-- ===== src/MuSig/Early.antt =====
-- src/ristretto/musig.rs: the invariant in the first three states.
use tari_crypto.Base.{
  ℕ, ◌<◌, ◌≡◌, subst, ◌∙◌, some, length, ok, Returns, inl, inr, Bool-cases, Result-cases,
  get_elem?-lt, arith,
}
use tari_crypto.Keys.{PublicKey}
use tari_crypto.Keys.Laws.{KeyLaws}
use tari_crypto.External.{Digest, DigestLaws, FixedSet, FixedSetLaws}
use tari_crypto.JointKey.{JointKey, JointKeyBuilder, MuSigError, index_of}
use tari_crypto.JointKey
use tari_crypto.JointKey.Add
use tari_crypto.JointKey.Build.{IsJoint, build_total, index_of_iff}
use tari_crypto.MuSig.States.{
  MessageHash, Initialization, NonceHashCollection, NonceCollection, MuSigState,
}
use tari_crypto.MuSig.Places.{length-new, At-new, length-set_item}
use tari_crypto.MuSig.Rounds
use tari_crypto.MuSig.Invariant.{InState, Gathering, RoundOne, RoundTwo, MessageSent}

module _ {K P : Type 0} {pk : PublicKey K P} (laws : KeyLaws pk) (d : Digest) (fs : FixedSet)
    (fl : FixedSetLaws fs) (Sent : MessageHash → Type 0) (Trusted : Type 0) (dl : DigestLaws d)
    (fits : d.output_size ≡ pk.secret.key_length) where
  open pk use {secret as sk}
  open laws use {value, plus, zero}
  open fl use {places}

  abbrev Ok : MuSigState fs K P → Type 0
  Ok = InState laws d fs fl Sent Trusted

  abbrev One : NonceHashCollection fs K P → Type 0
  One = RoundOne laws d fs fl Sent Trusted

  abbrev Two : NonceCollection fs K P → Type 0
  Two = RoundTwo laws d fs fl Sent Trusted

  abbrev Zero : Initialization P → Type 0
  Zero = Gathering laws d fs fl Sent Trusted

  pub now : (m : MessageHash) → Sent m → MessageSent laws d fs fl Sent Trusted (some m)
  now m t m' e = subst Sent (ground arith) t

  pub add_pubkey-InState :
      (s : Initialization P) (key : P) → Zero s → Returns (Rounds.add_pubkey pk d fs s key) Ok
  unfolding Rounds.add_pubkey
  add_pubkey-InState s key g = elim (Result-cases (JointKey.add_key pk s.joint_key_builder key).1) [
    | inr (m, e) ↦ rw (e, Rounds.add_pubkey) tt
    | inl (m, e) ↦ elim (build_total laws d dl fits b' v) [
      | inl (more, _) ↦
          rw (e, Rounds.add_pubkey, more)
            (record {
              valid = v;
              room = unfold JointKey.is_full in ground (arith, more, v.bounded);
              sent = g.sent;
            })
      | inr (full, (jk, t, j, _)) ↦
          rw (e, Rounds.add_pubkey, full, t)
            (record {
              joint = j;
              hash_places = unfold JointKey.size in length-new fs fl MessageHash _;
              sent = g.sent;
            })
    ]
  ]
    where
      b' : JointKeyBuilder P
      b' = (JointKey.add_key pk s.joint_key_builder key).0

      v : Add.IsValid pk b'
      v = Add.add_key-IsValid laws s.joint_key_builder key g.valid

  pub set_message-InState :
      (s : Initialization P) (m : MessageHash)
      → Sent m
      → Zero s
      → Ok (Rounds.set_message_initialization pk d fs s m)
  unfolding Rounds.set_message_initialization
  set_message-InState s m t g = elim (Bool-cases (Rounds.is_some s.message)) [
    | inl e ↦ rw (e, Rounds.set_message_initialization) tt
    | inr e ↦
        rw (e, Rounds.set_message_initialization)
          (record { valid = g.valid; room = g.room; sent = now m t })
  ]

  pub index_of-lt :
      (jk : JointKey P K) (p : P) (i : ℕ)
      → IsJoint laws jk
      → index_of pk jk p ≡ ok i
      → i < length jk.pub_keys
  index_of-lt jk p i j h =
      let (q, t, _) = (index_of_iff laws jk p i j).0 h in get_elem?-lt jk.pub_keys i t

  pub add_nonce_hash-InState :
      (s : NonceHashCollection fs K P) (p : P) (h : MessageHash)
      → One s
      → Ok (Rounds.add_nonce_hash pk d fs s p h)
  unfolding Rounds.add_nonce_hash
  add_nonce_hash-InState s p h v = elim (Result-cases (index_of pk s.joint_key p)) [
    | inr (m, e) ↦ rw (e, Rounds.add_nonce_hash) tt
    | inl (i, e) ↦
        let n = length-set_item fs fl s.nonce_hashes i h ∙ v.hash_places in
        elim (Bool-cases (fs.is_full (fs.set_item s.nonce_hashes i h).0)) [
          | inl full ↦
              rw (e, Rounds.add_nonce_hash, full)
                (record {
                  joint = v.joint;
                  hash_places = n;
                  nonce_places = unfold JointKey.size in length-new fs fl P _;
                  committed = λ j r at. absurd (At-new fs fl _ j r at);
                  sent = v.sent;
                })
          | inr more ↦
              rw (e, Rounds.add_nonce_hash, more)
                (record { joint = v.joint; hash_places = n; sent = v.sent })
        ]
  ]

  pub set_message_nonce_hash-InState :
      (s : NonceHashCollection fs K P) (m : MessageHash)
      → Sent m
      → One s
      → Ok (Rounds.set_message_nonce_hash pk d fs s m)
  unfolding Rounds.set_message_nonce_hash
  set_message_nonce_hash-InState s m t v = elim (Bool-cases (Rounds.is_some s.message)) [
    | inl e ↦ rw e tt
    | inr e ↦ rw e (record { joint = v.joint; hash_places = v.hash_places; sent = now m t })
  ]
