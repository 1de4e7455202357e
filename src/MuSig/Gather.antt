-- ===== src/MuSig/Gather.antt =====
-- src/ristretto/musig.rs: different keys, as many as there are participants, end the first state.
use mathlib.Core.List.{append_assoc}
use tari_crypto.Base.{
  ℕ, ◌≡◌, refl, sym, ap, subst, ◌∙◌, true, false, Option, List, [], ◌∷◌, ◌++◌, map, ok, done,
  length, length-append, arith,
}
use tari_crypto.Keys.{PublicKey}
use tari_crypto.Keys.Laws.{KeyLaws}
use tari_crypto.External.{Digest, FixedSet}
use tari_crypto.Std.Sort.{Distinct}
use tari_crypto.JointKey.{JointKey, JointKeyBuilder, is_full, build}
use tari_crypto.JointKey
use tari_crypto.JointKey.Add.{add_key-ok, Distinct-prefix}
use tari_crypto.MuSig.States.{MessageHash, initialization, nonce_hash_collection, add_key}
use tari_crypto.MuSig.Rounds
use tari_crypto.MuSig.Machine.{run, handle_event, next_state}

module _ {K P : Type 0} {pk : PublicKey K P} (laws : KeyLaws pk) (d : Digest) (fs : FixedSet)
    (n : ℕ) (all : List P) (jk : JointKey P K)
    (built : build pk d (record { num_signers = n; pub_keys = all }) ≡ done (ok jk))
    (count : length all ≡ n) (distinct : Distinct pk.cmp all) (msg : Option MessageHash) where
  -- The builder with the keys given so far.
  abbrev holding : List P → JointKeyBuilder P
  holding ks = record { num_signers = n; pub_keys = ks }

  abbrev Split : List P → P → List P → Type 0
  Split before k after = before ++ (k ∷ after) ≡ all

  added :
      (before : List P) (k : P) (after : List P)
      → Split before k after
      → JointKey.add_key pk (holding before) k
        ≡ (holding (before ++ k ∷ []), ok (length (before ++ k ∷ [])))
  added before k after e =
      let e' : (before ++ (k ∷ [])) ++ after ≡ all = append_assoc before (k ∷ []) after ∙ e in
      add_key-ok laws (holding before) k
        (Distinct-prefix laws (before ++ k ∷ []) after (subst (Distinct pk.cmp) (sym e') distinct))
        (omega (arith, ap length e, length-append before (k ∷ after)))

  -- From a builder that has some of the keys, the others in turn lead to the first round, with the
  -- joint key of all.
  pub gather :
      (before : List P) (k : P) (after : List P)
      → Split before k after
      → run pk d fs
          (record {
            state = initialization (record { joint_key_builder = holding before; message = msg });
          })
          (map add_key (k ∷ after))
        ≡ done (record {
          state = nonce_hash_collection (Rounds.new_nonce_hash_collection pk d fs jk msg);
        })
  unfolding run handle_event next_state Rounds.add_pubkey
  gather before k [] e =
      let full : is_full (holding (before ++ k ∷ [])) ≡ true =
        unfold is_full in ground (arith, ap length e) in
      let made : build pk d (holding (before ++ k ∷ [])) ≡ done (ok jk) =
        ap (λ l. build pk d (holding l)) e ∙ built in
      rw
        (
          ap (λ r. r.1) (added before k [] e),
          Rounds.add_pubkey,
          ap (λ r. r.0) (added before k [] e),
          full,
          made,
        )
        refl
  gather before k (k' ∷ after) e =
      let e' : Split (before ++ k ∷ []) k' after = append_assoc before (k ∷ []) (k' ∷ after) ∙ e in
      let more : is_full (holding (before ++ k ∷ [])) ≡ false =
        unfold is_full in
        ground (arith, ap length e', length-append (before ++ k ∷ []) (k' ∷ after)) in
      rw
        (
          ap (λ r. r.1) (added before k (k' ∷ after) e),
          Rounds.add_pubkey,
          ap (λ r. r.0) (added before k (k' ∷ after) e),
          more,
        )
        (gather (before ++ k ∷ []) k' after e')
