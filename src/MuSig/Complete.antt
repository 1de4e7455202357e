-- ===== src/MuSig/Complete.antt =====
-- src/ristretto/musig.rs: from the first round to the end, with participants who follow the protocol.
use mathlib.Core.List.{Permᴰ}
use mathlib.Core.List.Permᴰ
use tari_crypto.Base.{
  ℕ, ◌<◌, ◌≡◌, refl, sym, ap, subst, ◌∙◌, true, inl, inr, List, [], ◌∷◌, ◌++◌, map, All, done,
  ◌>>=◌, length, length-map, arith,
}
use tari_crypto.Base.Perm.{All-perm}
use tari_crypto.Keys.{PublicKey}
use tari_crypto.Keys.Laws.{KeyLaws}
use tari_crypto.External.{Digest, DigestLaws, FixedSet, FixedSetLaws}
use tari_crypto.JointKey.{JointKey, max_signatures}
use tari_crypto.JointKey
use tari_crypto.JointKey.Build.{IsJoint}
use tari_crypto.Signatures.Schnorr.{SchnorrSignature}
use tari_crypto.MuSig.States.{
  MessageHash, MuSigEvent, FinalizedMuSig, finalized, add_nonce_hash, add_nonce, add_partial_sig,
}
use tari_crypto.MuSig.Places.{At, At-new}
use tari_crypto.MuSig.Rounds
use tari_crypto.MuSig.Machine.{MuSig, run}
use tari_crypto.MuSig.Vacant.{Separate, Vacant}
use tari_crypto.MuSig.Filling.{Accepts, Found, fill, fill-full, fill-At, fill-Found, fill-run}
use tari_crypto.MuSig.Honest.{
  Participant, key, public_nonce, place, Indexed, commitment, round_one, end_one,
  commitment-Accepts, round_two, end_two, nonce-Accepts, end_two_total,
}
use tari_crypto.MuSig.Shares.{
  Signed, round_three, end_three, end_three_total, Share, share_place, ShareAccepts, shares,
  nonce-search,
}
use tari_crypto.MuSig.Append.{map-map, run-append}
use tari_crypto.Signatures.Schnorr
use tari_crypto.MuSig.Totals.{sum_of, sum_of-map, sum_of-fill}
use tari_crypto.MuSig.Single.{secrets, elements, share, shares-sum, public_nonces-sum, IsSingle}
use tari_crypto.MuSig.Parts.{joint_secret-joint_key}
use tari_crypto.MuSig.Roster.{Roster, Roster-perm, indexed, separate, vacant}

module _ {K P : Type 0} {pk : PublicKey K P} (laws : KeyLaws pk) (d : Digest) (fs : FixedSet)
    (fl : FixedSetLaws fs) (dl : DigestLaws d) (fits : d.output_size ≡ pk.secret.key_length)
    (m : MessageHash) (jk : JointKey P K) (joint : IsJoint laws jk)
    (hs ns ss : List (Participant K)) (committing : Roster pk jk hs) (showing : Permᴰ hs ns)
    (signing : Permᴰ hs ss) where
  open fl use {places}
  open laws use {value}

  abbrev showers : Roster pk jk ns
  showers = Roster-perm laws jk joint showing committing

  abbrev signers : Roster pk jk ss
  signers = Roster-perm laws jk joint signing committing

  empty-Vacant :
      (T : Type 0) (ys : List (Participant K))
      → Roster pk jk ys
      → Vacant (places (fs.new {T = T} (JointKey.size jk))) (map (place pk jk) ys)
  unfolding JointKey.size
  empty-Vacant T ys r =
      vacant laws jk joint ys r T (places (fs.new {T = T} (length jk.pub_keys)))
        (fl.places-new {T = T} (length jk.pub_keys))

  hashes : fs.Set MessageHash
  hashes = fill fs fl (place pk jk) (commitment pk d) (fs.new (JointKey.size jk)) hs

  abbrev pub hash_events : List (MuSigEvent K P)
  hash_events = map (λ y. add_nonce_hash (key pk y) (commitment pk d y)) hs

  abbrev pub nonce_events : List (MuSigEvent K P)
  nonce_events = map (λ y. add_nonce (key pk y) (public_nonce pk y)) ns

  All-commitment-Accepts :
      (ys : List (Participant K))
      → All (Indexed pk jk) ys
      → All
          (Accepts pk d fs fl
            (place pk jk)
            (commitment pk d)
            (λ y. add_nonce_hash (key pk y) (commitment pk d y))
            (round_one laws d fs fl jk m)
            (end_one laws d fs fl jk m))
          ys
  All-commitment-Accepts [] h = tt
  All-commitment-Accepts (y ∷ ys) h =
      (commitment-Accepts laws d fs fl jk m y h.0, All-commitment-Accepts ys h.1)

  round_one-run :
      run pk d fs
        (record { state = round_one laws d fs fl jk m (fs.new (JointKey.size jk)) })
        hash_events
      ≡ done (record { state = round_two laws d fs fl jk m hashes (fs.new (JointKey.size jk)) })
  unfolding hashes Rounds.new_nonce_collection
  round_one-run =
      fill-run pk d fs fl (place pk jk) (commitment pk d)
        (λ y. add_nonce_hash (key pk y) (commitment pk d y)) (round_one laws d fs fl jk m)
        (end_one laws d fs fl jk m) (fs.new (JointKey.size jk)) hs committing.someone
        (separate laws jk joint hs committing) (empty-Vacant MessageHash hs committing)
        (All-commitment-Accepts hs (indexed laws jk joint hs committing))

  committed : All (λ y. At (places hashes) (place pk jk y) (commitment pk d y)) ns
  unfolding hashes
  committed = All-perm _ showing (
      fill-At fs fl (place pk jk) (commitment pk d) (fs.new (JointKey.size jk)) hs
        (separate laws jk joint hs committing) (empty-Vacant MessageHash hs committing))

  All-nonce-Accepts :
      (ys : List (Participant K))
      → All (Indexed pk jk) ys
      → All (λ y. At (places hashes) (place pk jk y) (commitment pk d y)) ys
      → All
          (Accepts pk d fs fl
            (place pk jk)
            (public_nonce pk)
            (λ y. add_nonce (key pk y) (public_nonce pk y))
            (round_two laws d fs fl jk m hashes)
            (end_two laws d fs fl jk m hashes))
          ys
  All-nonce-Accepts [] h a = tt
  All-nonce-Accepts (y ∷ ys) h a =
      (nonce-Accepts laws d fs fl jk m hashes y h.0 a.0, All-nonce-Accepts ys h.1 a.1)

  nonces : fs.Set P
  nonces = fill fs fl (place pk jk) (public_nonce pk) (fs.new (JointKey.size jk)) ns

  shown : All (λ y. At (places nonces) (place pk jk y) (public_nonce pk y)) ns
  unfolding nonces
  shown =
      fill-At fs fl (place pk jk) (public_nonce pk) (fs.new (JointKey.size jk)) ns
        (separate laws jk joint ns showers) (empty-Vacant P ns showers)

  known :
      (j : ℕ) (u : P) → At (places nonces) j u → Found fs fl (place pk jk) (public_nonce pk) ns j u
  unfolding nonces
  known j u at =
      elim (fill-Found fs fl (place pk jk) (public_nonce pk) (fs.new (JointKey.size jk)) ns j u
        at) [ inl before ↦ absurd (At-new fs fl (JointKey.size jk) j u before) | inr found ↦ found ]

  round_two-run :
      (e : K) × (run pk d fs
          (record { state = round_two laws d fs fl jk m hashes (fs.new (JointKey.size jk)) })
          nonce_events
        ≡ done (record {
          state = round_three laws d fs fl jk joint nonces e (fs.new (JointKey.size jk));
        }))
  unfolding nonces
  round_two-run =
      let apart_ns = separate laws jk joint ns showers in
      let (l, all) =
        fill-full fs fl (place pk jk) (public_nonce pk) (fs.new (JointKey.size jk)) ns apart_ns
          (empty-Vacant P ns showers) in
      let (e, started) = end_two_total laws d fs fl jk m hashes dl fits nonces l all in
      (
        e,
        fill-run pk d fs fl (place pk jk) (public_nonce pk)
              (λ y. add_nonce (key pk y) (public_nonce pk y)) (round_two laws d fs fl jk m hashes)
              (end_two laws d fs fl jk m hashes) (fs.new (JointKey.size jk)) ns showers.someone
              apart_ns (empty-Vacant P ns showers)
              (All-nonce-Accepts ns (indexed laws jk joint ns showers) committed)
            ∙ ap (λ r. r >>= λ t. done (record { state = t })) started,
      )

  abbrev third : K → MuSig fs K P
  third e = record {
    state = round_three laws d fs fl jk joint nonces e (fs.new (JointKey.size jk));
  }

  abbrev last : K → SchnorrSignature P K → MuSig fs K P
  last e t = record { state = finalized (record { s_agg = t; challenge = e; joint_key = jk }) }

  abbrev signature_of_share : (e : K) → Share laws d fs fl jk joint nonces e → SchnorrSignature P K
  signature_of_share e y = y.1

  shares_run :
      (e : K) (zs : List (Share laws d fs fl jk joint nonces e))
      → map (share_place laws d fs fl jk joint nonces e) zs ≡ map (place pk jk) ss
      → All (ShareAccepts laws d fs fl jk joint nonces e) zs
      → (t : SchnorrSignature P K) × (run pk d fs
            (third e)
            (map (λ s. add_partial_sig s true) (map (λ z. z.1) zs))
          ≡ done (last e t))
        × (t.signature ≡ sum_of (secrets laws) (λ z. (signature_of_share e z).signature) zs)
        × (value t.public_nonce
            ≡ sum_of (elements laws) (λ z. value (signature_of_share e z).public_nonce) zs)
  shares_run e zs h a =
      let n = JointKey.size jk in
      let start = fs.new {T = SchnorrSignature P K} n in
      let at = share_place laws d fs fl jk joint nonces e in
      let item = signature_of_share e in
      let event : Share laws d fs fl jk joint nonces e → MuSigEvent K P =
        λ y. add_partial_sig y.1 true in
      let some_one : 0 < length zs =
        omega
          (arith, signers.someone, ap length h, length-map at zs, length-map (place pk jk) ss) in
      let separate_z : Separate (map at zs) =
        subst Separate (sym h) (separate laws jk joint ss signers) in
      let vacant_z : Vacant (places start) (map at zs) =
        subst (Vacant (places start)) (sym h) (empty-Vacant (SchnorrSignature P K) ss signers) in
      let (l, all) = fill-full fs fl at item start zs separate_z vacant_z in
      let (t, ended, scalars, points) =
        end_three_total laws d fs fl jk joint nonces e (fill fs fl at item start zs) l all in
      (
        t,
        ap (run pk d fs (third e)) (map-map (λ s. add_partial_sig s true) item zs)
            ∙ (fill-run pk d fs fl at item event (round_three laws d fs fl jk joint nonces e)
                  (end_three laws d fs fl jk joint nonces e) start zs some_one separate_z vacant_z a
                ∙ ap (λ r. r >>= λ t. done (record { state = t })) ended),
        scalars
            ∙ sum_of-fill (secrets laws) (λ u. u.signature) fs fl at item n zs l separate_z vacant_z
                all,
        points
            ∙ sum_of-fill (elements laws) (λ u. value u.public_nonce) fs fl at item n zs l
                separate_z vacant_z all,
      )

  -- From the first round with the message set to the end, each round in an order of its own.
  pub rounds :
      (c : MuSig fs K P) × (sigs : List (SchnorrSignature P K)) × (f : FinalizedMuSig K P) × (run pk
          d fs
          (record { state = round_one laws d fs fl jk m (fs.new (JointKey.size jk)) })
          (hash_events ++ nonce_events)
        ≡ done c)
      × Signed pk c ss sigs
      × (run pk d fs c (map (λ s. add_partial_sig s true) sigs)
          ≡ done (record { state = finalized f }))
      × (f.joint_key ≡ jk)
      × IsSingle laws f ss
  unfolding Schnorr.new
  rounds =
      let (e, two) = round_two-run in
      let start = fs.new {T = SchnorrSignature P K} (JointKey.size jk) in
      let there = All-perm _ (Permᴰ.trans (Permᴰ.symm showing) signing) shown in
      let (zs, at, signed, accepted, forms) =
        shares laws d fs fl jk joint nonces e start ss (indexed laws jk joint ss signers) there
          (λ i r here.
            nonce-search laws d fs fl jk joint nonces e ns i r showers.apart known here) in
      let (t, three, scalars, points) = shares_run e zs at accepted in
      let item = signature_of_share e in
      (
        third e,
        map (λ z. z.1) zs,
        record { s_agg = t; challenge = e; joint_key = jk },
        run-append pk d fs _ _ hash_events nonce_events round_one-run ∙ two,
        signed,
        three,
        refl,
        (
          scalars
              ∙ (ap (sum_of (secrets laws) (λ z. (item z).signature)) forms
                  ∙ (sum_of-map (secrets laws) (λ z. (item z).signature) (λ x. (x, share pk jk e x))
                        ss
                      ∙ shares-sum laws jk e ss)),
          points
              ∙ (ap (sum_of (elements laws) (λ z. value (item z).public_nonce)) forms
                  ∙ (sum_of-map (elements laws) (λ z. value (item z).public_nonce)
                        (λ x. (x, share pk jk e x)) ss
                      ∙ public_nonces-sum laws ss)),
          joint_secret-joint_key laws jk joint fs fl ss signers,
        ),
      )
