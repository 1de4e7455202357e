-- ===== src/MuSig/Honest.antt =====
-- src/ristretto/musig.rs: participants who follow the protocol, and the first two rounds with them.
use tari_crypto.Base.{
  ℕ, ◌≡◌, refl, true, inl, inr, some, List, ◌++◌, map, ok, Run, done, sequence, Bool-cases,
}
use tari_crypto.Base.Order.{eq_bytes, eq_bytes_iff}
use tari_crypto.Keys.{PublicKey}
use tari_crypto.Keys.Laws.{KeyLaws}
use tari_crypto.External.{Digest, DigestLaws, digest, FixedSet, FixedSetLaws}
use tari_crypto.JointKey.{JointKey}
use tari_crypto.JointKey
use tari_crypto.JointKey.Build.{hash_total}
use tari_crypto.MuSig.States.{
  MessageHash, MuSigState, MuSigEvent, nonce_hash_collection, nonce_collection,
  signature_collection, add_key, add_nonce_hash, add_nonce, NonceHashCollection, NonceCollection,
}
use tari_crypto.MuSig.Places.{At}
use tari_crypto.MuSig.Rounds
use tari_crypto.MuSig.Machine.{next_state}
use tari_crypto.MuSig.Filling.{Accepts}
use tari_crypto.MuSig.Seats.{seat}

pub record Participant (K : Type 0) : Type 0 where
  pub secret : K
  pub nonce : K

module _ {K P : Type 0} (pk : PublicKey K P) where
  abbrev pub key : Participant K → P
  key x = pk.from_secret_key x.secret

  abbrev pub public_nonce : Participant K → P
  public_nonce x = pk.from_secret_key x.nonce

  abbrev pub place : JointKey P K → Participant K → ℕ
  place jk x = seat pk jk (key x)

  abbrev pub Indexed : JointKey P K → Participant K → Type 0
  Indexed jk x = JointKey.index_of pk jk (key x) ≡ ok (place jk x)

  module _ (d : Digest) where
    abbrev pub commitment : Participant K → MessageHash
    commitment x = digest d (pk.as_bytes (public_nonce x))

    -- What honest participants send before they sign, in the order of a list of its own for each
    -- round: their keys, commitments to their nonces, and the nonces.
    abbrev pub contributions : (ps hs ns : List (Participant K)) → List (MuSigEvent K P)
    contributions ps hs ns =
        map add_key (map key ps)
        ++ (map (λ x. add_nonce_hash (key x) (commitment x)) hs
            ++ map (λ x. add_nonce (key x) (public_nonce x)) ns)

module _ {K P : Type 0} {pk : PublicKey K P} (laws : KeyLaws pk) (d : Digest) (fs : FixedSet)
    (fl : FixedSetLaws fs) (jk : JointKey P K) (m : MessageHash) where
  open fl use {places}

  abbrev pub hashes_state : fs.Set MessageHash → NonceHashCollection fs K P
  hashes_state s = record { joint_key = jk; nonce_hashes = s; message = some m }

  abbrev pub round_one : fs.Set MessageHash → MuSigState fs K P
  round_one s = nonce_hash_collection (hashes_state s)

  abbrev pub end_one : fs.Set MessageHash → Run (MuSigState fs K P)
  end_one s = done (nonce_collection (Rounds.new_nonce_collection pk d fs (hashes_state s)))

  pub commitment-Accepts :
      (x : Participant K)
      → Indexed pk jk x
      → Accepts pk d fs fl
          (place pk jk)
          (commitment pk d)
          (λ y. add_nonce_hash (key pk y) (commitment pk d y))
          round_one
          end_one
          x
  unfolding next_state Rounds.add_nonce_hash
  commitment-Accepts x h s free =
      elim (Bool-cases (fs.is_full (fs.set_item s (place pk jk x) (commitment pk d x)).0)) [
        | inl e ↦ rw (h, Rounds.add_nonce_hash, e) refl
        | inr e ↦ rw (h, Rounds.add_nonce_hash, e) refl
      ]

  module _ (hashes : fs.Set MessageHash) where
    abbrev pub nonces_state : fs.Set P → NonceCollection fs K P
    nonces_state s = record {
      joint_key = jk;
      nonce_hashes = hashes;
      public_nonces = s;
      message = some m;
    }

    abbrev pub round_two : fs.Set P → MuSigState fs K P
    round_two s = nonce_collection (nonces_state s)

    abbrev pub end_two : fs.Set P → Run (MuSigState fs K P)
    end_two s = Rounds.start_signatures pk d fs (nonces_state s)

    pub nonce-Accepts :
        (x : Participant K)
        → Indexed pk jk x
        → At (places hashes) (place pk jk x) (commitment pk d x)
        → Accepts pk d fs fl
            (place pk jk)
            (public_nonce pk)
            (λ y. add_nonce (key pk y) (public_nonce pk y))
            round_two
            end_two
            x
    unfolding next_state Rounds.add_nonce Rounds.is_valid_nonce
    nonce-Accepts x h at s free =
        let there : fs.get_item hashes (place pk jk x) ≡ some (commitment pk d x) =
          rw (fl.get_item_lem hashes (place pk jk x), at) refl in
        let valid : eq_bytes (commitment pk d x) (commitment pk d x) ≡ true =
          (eq_bytes_iff _ _).1 refl in
        elim (Bool-cases (fs.is_full (fs.set_item s (place pk jk x) (public_nonce pk x)).0)) [
          | inl e ↦ rw (h, Rounds.add_nonce, there, valid, e) refl
          | inr e ↦ rw (h, Rounds.add_nonce, there, valid, e) refl
        ]

    -- With every nonce there, the second round ends in the third, with the nonces kept, no partial
    -- signature, and some challenge.
    pub end_two_total :
        (dl : DigestLaws d) (fits : d.output_size ≡ pk.secret.key_length) (s : fs.Set P)
        (l : List P)
        → sequence (places s) ≡ some l
        → (e : K) × (end_two s
            ≡ done (
                signature_collection (record {
                  joint_key = jk;
                  public_nonces = s;
                  partial_signatures = fs.new (JointKey.size jk);
                  challenge = e;
                })))
    unfolding Rounds.start_signatures Rounds.new_signature_collection Rounds.calculate_challenge
    end_two_total dl fits s l all =
        let (r, sum, _) =
          fl.sum_full {T = P} {M = Unit {0}} pk.default pk.add tt (λ _ _. tt) (λ _. tt) refl
            (λ a b. refl) (λ x. refl) (λ x y. refl) (λ x y z. refl) s l all in
        let (e, read) =
          hash_total laws d dl fits
            (d.chain (d.chain (d.chain d.new (pk.as_bytes r)) (pk.as_bytes jk.joint_pub_key)) m) in
        (e, rw (sum, read) refl)
