-- ===== src/MuSig/Ceremony.antt =====
-- src/ristretto/musig.rs: a ceremony of participants who follow the protocol reaches its end.
use mathlib.Core.List.{Permᴰ}
use mathlib.Core.List.Permᴰ
use tari_crypto.Base.{
  ℕ, ◌<◌, ◌≤◌, ◌≡◌, refl, sym, ap, subst, ◌∙◌, true, false, inl, inr, some, List, [], ◌∷◌, ◌++◌,
  map, All, ok, done, length, length-map, arith,
}
use tari_crypto.Keys.{PublicKey}
use tari_crypto.Keys.Laws.{KeyLaws}
use tari_crypto.External.{Digest, DigestLaws, FixedSet, FixedSetLaws}
use tari_crypto.Std.Sort.{Distinct, sort}
use tari_crypto.JointKey.{JointKey, max_signatures}
use tari_crypto.JointKey
use tari_crypto.JointKey.Add.{IsValid}
use tari_crypto.JointKey.Build.{IsJoint, build_total}
use tari_crypto.Signatures.Schnorr.{SchnorrSignature}
use tari_crypto.Signatures.Schnorr
use tari_crypto.MuSig.States.{
  MessageHash, MuSigEvent, FinalizedMuSig, initialization, finalized, add_key, set_message,
  add_nonce_hash, add_nonce, add_partial_sig,
}
use tari_crypto.MuSig.Rounds
use tari_crypto.MuSig.Machine.{MuSig, new, run, handle_event, next_state}
use tari_crypto.MuSig.Gather.{gather}
use tari_crypto.MuSig.Honest.{Participant, key, public_nonce, commitment, contributions, round_one}
use tari_crypto.MuSig.Shares.{Signed}
use tari_crypto.MuSig.Append.{run-append, All-append, All-front}
use tari_crypto.MuSig.Single.{joint_secret, joint_nonce, IsSingle, IsSingle-perm, IsSingle-sign}
use tari_crypto.MuSig.Roster.{Roster, Roster-perm}
use tari_crypto.MuSig.Complete.{rounds}
use tari_crypto.MuSig.Query.{has_failed}
use tari_crypto.MuSig.Late.{Collects, never_failed, run-set_message_late}
use tari_crypto.MuSig.Runs.{ceremony_verified}

module _ {K P : Type 0} {pk : PublicKey K P} (laws : KeyLaws pk) (d : Digest) (fs : FixedSet)
    (fl : FixedSetLaws fs) (dl : DigestLaws d) (size : pk.secret.key_length ≡ 32) where
  -- A new ceremony in which the message is set first.
  opened :
      (n : ℕ) (m : MessageHash) (es : List (MuSigEvent K P))
      → d.output_size ≡ 32
      → 0 < n
      → n ≤ 32768
      → run pk d fs (new pk d fs n) (set_message m ∷ es)
        ≡ run pk d fs
            (record {
              state = initialization (record {
                joint_key_builder = record { num_signers = n; pub_keys = [] };
                message = some m;
              });
            })
            es
  unfolding new Rounds.new_initialization JointKey.new run handle_event next_state
      Rounds.set_message_initialization
  opened n m es output some_one few = ground arith

  All-of_each :
      (Q : MuSigEvent K P → Type 0) {X : Type 0} (f : X → MuSigEvent K P) (xs : List X)
      → ((x : X) → Q (f x))
      → All Q (map f xs)
  All-of_each Q f [] h = tt
  All-of_each Q f (x ∷ xs) h = (h x, All-of_each Q f xs h)

  -- What holds of every event that adds a key, a nonce hash or a nonce.
  All-contributions :
      (Q : MuSigEvent K P → Type 0) (ps hs ns : List (Participant K))
      → ((p : P) → Q (add_key p))
      → ((p : P) (h : MessageHash) → Q (add_nonce_hash p h))
      → ((p r : P) → Q (add_nonce p r))
      → All Q (contributions pk d ps hs ns)
  All-contributions Q ps hs ns one two three =
      All-append Q (map add_key (map (key pk) ps)) _ (All-of_each Q add_key (map (key pk) ps) one) (
        All-append Q (map (λ y. add_nonce_hash (key pk y) (commitment pk d y)) hs) _
          (All-of_each Q (λ (y : Participant K). add_nonce_hash (key pk y) (commitment pk d y)) hs
            (λ y. two (key pk y) (commitment pk d y)))
          (All-of_each Q (λ (y : Participant K). add_nonce (key pk y) (public_nonce pk y)) ns
            (λ y. three (key pk y) (public_nonce pk y))))

  module _ (output : d.output_size ≡ 32) (m : MessageHash) (x : Participant K)
      (xs : List (Participant K)) (few : length (x ∷ xs) ≤ 32768)
      (different : Distinct pk.cmp (map (key pk) (x ∷ xs)))
      (apart : Distinct pk.cmp (map (public_nonce pk) (x ∷ xs))) where
    abbrev n : ℕ
    n = length (x ∷ xs)

    -- The joint key of all, and the run up to the first round.
    begin :
        (jk : JointKey P K) × (joint : IsJoint laws jk) × (jk.pub_keys
          ≡ sort pk.cmp (map (key pk) (x ∷ xs)))
        × (run pk d fs (new pk d fs n) (set_message m ∷ map add_key (map (key pk) (x ∷ xs)))
            ≡ done (record { state = round_one laws d fs fl jk m (fs.new (JointKey.size jk)) }))
    unfolding JointKey.is_full Rounds.new_nonce_hash_collection
    begin =
        let keys = map (key pk) (x ∷ xs) in
        let count : length keys ≡ length (x ∷ xs) = length-map (key pk) (x ∷ xs) in
        let valid : IsValid pk (record { num_signers = n; pub_keys = keys }) = record {
          distinct = different;
          bounded = omega (arith, count);
          positive = omega arith;
          capped = few;
        } in
        elim (build_total laws d dl (output ∙ sym size)
          (record { num_signers = n; pub_keys = keys }) valid) [
            | inl (missing, _) ↦ absurd (ground (arith, missing, count))
            | inr (_, (jk, built, joint, sorted)) ↦ (
              jk,
              joint,
              sorted,
              opened n m (map add_key keys) output (omega arith) few
                  ∙ gather laws d fs n keys jk built count different (some m) [] (key pk x)
                      (map (key pk) xs) refl,
            )
          ]

    module _ (hs ns ss : List (Participant K)) (ph : Permᴰ (x ∷ xs) hs) (pn : Permᴰ (x ∷ xs) ns)
        (ps : Permᴰ (x ∷ xs) ss) where
      -- With the message set first.
      message_first :
          (c : MuSig fs K P) × (sigs : List (SchnorrSignature P K)) × (f : FinalizedMuSig K P)
          × (run pk d fs (new pk d fs n) (set_message m ∷ contributions pk d (x ∷ xs) hs ns)
              ≡ done c)
          × Signed pk c ss sigs
          × (run pk d fs c (map (λ s. add_partial_sig s true) sigs)
              ≡ done (record { state = finalized f }))
          × (f.joint_key.pub_keys ≡ sort pk.cmp (map (key pk) (x ∷ xs)))
          × IsSingle laws f (x ∷ xs)
      message_first =
          let (jk, joint, sorted, gathered) = begin in
          let fits = output ∙ sym size in
          let all : Roster pk jk (x ∷ xs) = record {
            sorted = sorted;
            different = different;
            apart = apart;
            someone = omega arith;
          } in
          let committing = Roster-perm laws jk joint ph all in
          let showing = Permᴰ.trans (Permᴰ.symm ph) pn in
          let signing = Permᴰ.trans (Permᴰ.symm ph) ps in
          let (c, sigs, f, ready, signed, ended, same, single) =
            rounds laws d fs fl dl fits m jk joint hs ns ss committing showing signing in
          (
            c,
            sigs,
            f,
            run-append pk d fs _ _ (set_message m ∷ map add_key (map (key pk) (x ∷ xs))) _ gathered
                ∙ ready,
            signed,
            ended,
            ap (λ j. j.pub_keys) same ∙ sorted,
            IsSingle-perm laws f (Permᴰ.symm ps) single,
          )

      -- For secret keys and a hash of 32 bytes, and up to 32768 participants, at least one, with
      -- different public keys and different public nonces, who follow the protocol, in each round
      -- in any order: once their keys, the commitments to their nonces and the nonces have been
      -- added, and the message has been set, at any time before, between or after these, each
      -- participant gets a partial signature. Adding these with validation ends the ceremony. The
      -- joint key then has their keys in ascending order, and the aggregate signature verifies
      -- under it for the challenge, which is the hash of the aggregate nonce, the joint key and the
      -- message. It is the signature that one signer makes for that challenge with the sum of the
      -- secrets, each times the participant's scalar of the joint key, and with the sum of the
      -- nonces; and the joint key is the public key of that signer.
      pub ceremony_completes :
          (before after : List (MuSigEvent K P))
          → before ++ after ≡ contributions pk d (x ∷ xs) hs ns
          → (c : MuSig fs K P) × (sigs : List (SchnorrSignature P K)) × (f : FinalizedMuSig K P)
            × (run pk d fs (new pk d fs (length (x ∷ xs))) (before ++ (set_message m ∷ after))
                ≡ done c)
            × Signed pk c ss sigs
            × (run pk d fs c (map (λ s. add_partial_sig s true) sigs)
                ≡ done (record { state = finalized f }))
            × (f.joint_key.pub_keys ≡ sort pk.cmp (map (key pk) (x ∷ xs)))
            × (Schnorr.verify pk f.s_agg f.joint_key.joint_pub_key f.challenge ≡ true)
            × (Rounds.calculate_challenge pk d fs f.s_agg.public_nonce f.joint_key.joint_pub_key m
                ≡ done f.challenge)
            × (s : SchnorrSignature P K) × (Schnorr.sign pk
                  (joint_secret laws f.joint_key (x ∷ xs))
                  (joint_nonce laws (x ∷ xs))
                  (pk.secret.as_bytes f.challenge)
                ≡ ok s)
            × (s.signature ≡ f.s_agg.signature)
            × (pk.eq s.public_nonce f.s_agg.public_nonce ≡ true)
            × (pk.eq
                  (pk.from_secret_key (joint_secret laws f.joint_key (x ∷ xs)))
                  f.joint_key.joint_pub_key
                ≡ true)
      unfolding has_failed
      ceremony_completes before after split =
          let (c, sigs, f, ready, signed, ended, sorted, single) = message_first in
          let events = contributions pk d (x ∷ xs) hs ns in
          let adding = map (λ s. add_partial_sig s true) sigs in
          let fine : has_failed c ≡ false = never_failed pk d fs fl c.state _ adding ended refl in
          let collects : All (Collects pk d fs fl) before = All-front _ before after (
            subst (All (Collects pk d fs fl)) (sym split)
              (All-contributions _ (x ∷ xs) hs ns (λ p. tt) (λ p h. tt) (λ p r. tt))) in
          let moved =
            run-set_message_late pk d fs fl (new pk d fs n) c m before after collects fine
              (ap (λ es. run pk d fs (new pk d fs n) (set_message m ∷ es)) split ∙ ready) in
          let whole =
            run-append pk d fs (new pk d fs n) c (set_message m ∷ events) adding ready ∙ ended in
          let (verified, hashed) =
            ceremony_verified laws d fs fl dl size n m (set_message m ∷ (events ++ adding)) f
              (
                refl,
                All-append _ events adding
                    (All-contributions _ (x ∷ xs) hs ns (λ p. tt) (λ p h. tt) (λ p r. tt))
                    (All-of_each _ (λ s. add_partial_sig s true) sigs (λ s. refl)),
              )
              whole in
          let (s, made, scalar, nonce, joint_key) = IsSingle-sign laws f (x ∷ xs) single in
          (
            c, sigs, f, moved, signed, ended, sorted, verified, hashed, s, made, scalar, nonce,
            joint_key,
          )
