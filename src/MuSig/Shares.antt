-- ===== src/MuSig/Shares.antt =====
-- src/ristretto/musig.rs: the third round with participants who follow the protocol.
use tari_crypto.Base.{
  ℕ, lt→ltb, ◌≡◌, refl, sym, ap, ap₂, ◌∙◌, true, inl, inr, some, List, [], ◌∷◌, map, All, Run, done,
  ◌>>=◌, sequence, Bool-cases, Option-cases, get_elem?-lt, arith,
}
use tari_crypto.Keys.{PublicKey}
use tari_crypto.Keys.Laws.{KeyLaws, cmp-eq_iff}
use tari_crypto.External.{Digest, FixedSet, FixedSetLaws}
use tari_crypto.Std.Sort.{Distinct}
use tari_crypto.JointKey.{JointKey}
use tari_crypto.JointKey.Build.{IsJoint}
use tari_crypto.Signatures.Schnorr.{SchnorrSignature}
use tari_crypto.Signatures.Schnorr
use tari_crypto.MuSig.States.{
  MuSigState, SignatureCollection, signature_collection, finalized, add_partial_sig,
}
use tari_crypto.MuSig.Places.{At}
use tari_crypto.MuSig.Rounds
use tari_crypto.MuSig.Machine.{MuSig, next_state}
use tari_crypto.MuSig.Query.{calculate_partial_signature}
use tari_crypto.MuSig.Partial.{partial_signature-validate}
use tari_crypto.MuSig.Totals.{sum_of}
use tari_crypto.MuSig.Single.{secrets, elements, share, or_default}
use tari_crypto.MuSig.Filling.{Accepts, Found, All-Found}
use tari_crypto.MuSig.Honest.{Participant, key, public_nonce, place, Indexed}

module _ {K P : Type 0} (pk : PublicKey K P) {fs : FixedSet} where
  -- Each participant computes its partial signature in the state of the ceremony.
  abbrev pub Signed : MuSig fs K P → List (Participant K) → List (SchnorrSignature P K) → Type 0
  Signed c [] [] = Unit
  Signed c (x ∷ xs) (sig ∷ sigs) =
      (calculate_partial_signature pk c (key pk x) x.secret x.nonce ≡ done (some sig))
      × Signed c xs sigs
  Signed c _ _ = ⊥

module _ {K P : Type 0} {pk : PublicKey K P} (laws : KeyLaws pk) (d : Digest) (fs : FixedSet)
    (fl : FixedSetLaws fs) (jk : JointKey P K) where
  open pk use {secret as sk}
  open laws use {value}
  open fl use {places}

  -- Different public nonces stand in different places.
  same_place :
      (xs : List (Participant K)) (i j : ℕ) (r u : P)
      → Distinct pk.cmp (map (public_nonce pk) xs)
      → Found fs fl (place pk jk) (public_nonce pk) xs i r
      → Found fs fl (place pk jk) (public_nonce pk) xs j u
      → value r ≡ value u
      → i ≡ j
  same_place [] i j r u h f g e = absurd f
  same_place (x ∷ xs) i j r u h (inl (a, b)) (inl (a', b')) e = sym a ∙ a'
  same_place (x ∷ xs) i j r u h (inl (a, b)) (inr g) e = absurd (
      All-Found fs fl _ _ _ xs j u h.0 g
        ((cmp-eq_iff laws _ _).1 ((laws.eq_iff _ _).1 (ap value b ∙ e))))
  same_place (x ∷ xs) i j r u h (inr f) (inl (a, b)) e = absurd (
      All-Found fs fl _ _ _ xs i r h.0 f
        ((cmp-eq_iff laws _ _).1 ((laws.eq_iff _ _).1 (ap value b ∙ sym e))))
  same_place (x ∷ xs) i j r u h (inr f) (inr g) e = same_place xs i j r u h.1 f g e

  module _ (joint : IsJoint laws jk) (nonces : fs.Set P) (e : K) where
    abbrev pub signing : fs.Set (SchnorrSignature P K) → SignatureCollection fs K P
    signing s = record {
      joint_key = jk;
      public_nonces = nonces;
      partial_signatures = s;
      challenge = e;
    }

    abbrev pub round_three : fs.Set (SchnorrSignature P K) → MuSigState fs K P
    round_three s = signature_collection (signing s)

    abbrev pub end_three : fs.Set (SchnorrSignature P K) → Run (MuSigState fs K P)
    end_three s = do f ← Rounds.new_finalized pk d fs (signing s); done (finalized f)

    pub end_three_total :
        (s : fs.Set (SchnorrSignature P K)) (l : List (SchnorrSignature P K))
        → sequence (places s) ≡ some l
        → (t : SchnorrSignature P K) × (end_three s
            ≡ done (finalized (record { s_agg = t; challenge = e; joint_key = jk })))
          × (t.signature ≡ sum_of (secrets laws) (λ u. u.signature) l)
          × (value t.public_nonce ≡ sum_of (elements laws) (λ u. value u.public_nonce) l)
    unfolding Rounds.new_finalized Rounds.calculate_agg_signature Schnorr.default Schnorr.add
        Schnorr.new
    end_three_total s l all =
        let (t, sum, scalars) =
          fl.sum_full {T = SchnorrSignature P K} {M = K} (Schnorr.default pk) (Schnorr.add pk)
            sk.default sk.add (λ u. u.signature) refl (λ a b. refl) laws.default-add laws.add_comm
            laws.add_assoc s l all in
        let (t', sum', nonces) =
          fl.sum_full {T = SchnorrSignature P K} {M = laws.Value} (Schnorr.default pk)
            (Schnorr.add pk) laws.zero laws.plus (λ u. value u.public_nonce) laws.value-default
            (λ a b. laws.value-add a.public_nonce b.public_nonce) laws.zero-plus laws.plus_comm
            laws.plus_assoc s l all in
        let same : t ≡ t' = ground (arith, sum, sum') in
        (
          t,
          rw sum refl,
          scalars,
          ap (λ (u : SchnorrSignature P K). value u.public_nonce) same ∙ nonces,
        )

    abbrev pub Share : Type 0
    Share = Participant K × SchnorrSignature P K

    abbrev pub share_place : Share → ℕ
    share_place z = place pk jk z.0

    abbrev pub ShareAccepts : Share → Type 0
    ShareAccepts =
        Accepts pk d fs fl share_place (λ z. z.1) (λ z. add_partial_sig z.1 true) round_three
          end_three

    share-Accepts :
        (x : Participant K) (sig : SchnorrSignature P K) (start : fs.Set (SchnorrSignature P K))
        → fs.search pk.eq nonces sig.public_nonce ≡ some (place pk jk x)
        → Rounds.validate_partial_signature pk d fs (signing start) (place pk jk x) sig ≡ done true
        → ShareAccepts (x, sig)
    unfolding next_state Rounds.add_partial_signature Rounds.set_signature
        Rounds.validate_partial_signature
    share-Accepts x sig start found valid s free =
        let inside : (fs.set_item s (place pk jk x) sig).1 ≡ true =
          fl.set_item_bounds s (place pk jk x) sig
          ∙ lt→ltb _ _ (get_elem?-lt (places s) (place pk jk x) free) in
        elim (Bool-cases (fs.is_full (fs.set_item s (place pk jk x) sig).0)) [
          | inl full ↦ rw (found, Rounds.add_partial_signature, valid, inside, full) refl
          | inr more ↦ rw (found, Rounds.add_partial_signature, valid, inside, more) refl
        ]

    pub nonce-search :
        (ps : List (Participant K)) (i : ℕ) (r : P)
        → Distinct pk.cmp (map (public_nonce pk) ps)
        → ((j : ℕ) (u : P)
            → At (places nonces) j u
            → Found fs fl (place pk jk) (public_nonce pk) ps j u)
        → At (places nonces) i r
        → fs.search pk.eq nonces r ≡ some i
    nonce-search ps i r h known at = elim (Option-cases (fs.search pk.eq nonces r)) [
      | inl gone ↦ absurd (fl.search_none pk.eq nonces r gone i r at ((laws.eq_iff r r).1 refl))
      | inr (j, found) ↦
          let (u, at', same) = fl.search_some pk.eq nonces r j found in
          found
          ∙ ap some (
              sym (
                same_place ps i j r u h (known i r at) (known j u at')
                  (sym ((laws.eq_iff u r).0 same))))
    ]

    -- Every participant gets a partial signature, and the third round accepts them.
    pub shares :
        (start : fs.Set (SchnorrSignature P K)) (xs : List (Participant K))
        → All (Indexed pk jk) xs
        → All (λ x. At (places nonces) (place pk jk x) (public_nonce pk x)) xs
        → ((i : ℕ) (r : P) → At (places nonces) i r → fs.search pk.eq nonces r ≡ some i)
        → (zs : List Share) × (map share_place zs ≡ map (place pk jk) xs)
          × Signed pk (record { state = round_three start }) xs (map (λ z. z.1) zs)
          × All ShareAccepts zs
          × (zs ≡ map (λ x. (x, share pk jk e x)) xs)
    shares start [] h a found = ([], refl, tt, tt, refl)
    shares start (x ∷ xs) h a found =
        let i = place pk jk x in
        let there : fs.get_item nonces i ≡ some (public_nonce pk x) =
          rw (fl.get_item_lem nonces i, a.0) refl in
        let (sig, signed, same, valid, ai, scalar, form) =
          partial_signature-validate laws d fs (signing start) (key pk x) (public_nonce pk x)
            x.secret x.nonce i joint h.0 there (laws.value-from_secret_key x.secret)
            (laws.value-from_secret_key x.nonce) in
        let here : fs.search pk.eq nonces sig.public_nonce ≡ some i =
          ap (fs.search pk.eq nonces) same ∙ found i (public_nonce pk x) a.0 in
        let mine : sig ≡ share pk jk e x =
          form
          ∙ ap
              (λ k. Schnorr.new (public_nonce pk x) (sk.add x.nonce (sk.mul (sk.mul k e) x.secret)))
              (sym (ap (or_default pk jk) scalar)) in
        let (zs, places, all_signed, accepted, forms) = shares start xs h.1 a.1 found in
        (
          (x, sig) ∷ zs,
          ap (λ is. i ∷ is) places,
          (signed, all_signed),
          (share-Accepts x sig start here valid, accepted),
          ap₂ (λ y ys. y ∷ ys) (ap (λ s. (x, s)) mine) forms,
        )
