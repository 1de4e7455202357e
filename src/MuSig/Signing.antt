-- ===== src/MuSig/Signing.antt =====
-- src/ristretto/musig.rs: the invariant in round three and at the aggregate signature.
use tari_crypto.Base.{
  ℕ, ◌<◌, lt→ltb, ◌≡◌, sym, ap, subst, subst₂, ◌∙◌, Bool, true, some, List, length, sequence, done,
  Returns, inl, inr, Bool-cases, Option-cases, get_elem?, get_elem?-lt, get_elem?-some, arith,
}
use tari_crypto.Keys.{PublicKey}
use tari_crypto.Keys.Laws.{KeyLaws}
use tari_crypto.External.{Digest, DigestLaws, FixedSet, FixedSetLaws}
use tari_crypto.JointKey.{JointKey, JointKeyBuilder, MuSigError, index_of}
use tari_crypto.JointKey
use tari_crypto.Signatures.Schnorr.{SchnorrSignature}
use tari_crypto.Signatures.Schnorr
use tari_crypto.Signatures.Schnorr.Laws.{verify_iff}
use tari_crypto.MuSig.States.{MessageHash, SignatureCollection, MuSigState}
use tari_crypto.MuSig.Places.{At, length-set_item, At-set_item, sequence-length, sequence-get}
use tari_crypto.MuSig.Sums.{fold_map_congr, total_verify, nonce_total, scalar_total}
use tari_crypto.MuSig.Rounds
use tari_crypto.MuSig.Invariant.{InState, RoundThree, ValidAt, Complete}

module _ {K P : Type 0} {pk : PublicKey K P} (laws : KeyLaws pk) (d : Digest) (fs : FixedSet)
    (fl : FixedSetLaws fs) (Sent : MessageHash → Type 0) (Trusted : Type 0) (dl : DigestLaws d)
    (fits : d.output_size ≡ pk.secret.key_length) where
  open pk use {secret as sk}
  open laws use {value, plus, zero, act, base}
  open fl use {places}

  abbrev Ok : MuSigState fs K P → Type 0
  Ok = InState laws d fs fl Sent Trusted

  abbrev Three : SignatureCollection fs K P → Type 0
  Three = RoundThree laws d fs fl Sent Trusted

  abbrev Signature : Type 0
  Signature = SchnorrSignature P K

  signature_sum :
      (s : fs.Set Signature) (l : List Signature)
      → sequence (places s) ≡ some l
      → (t : Signature) × (fs.sum (Schnorr.default pk) (Schnorr.add pk) s ≡ some t)
        × (value t.public_nonce ≡ nonce_total laws l)
        × (act t.signature base ≡ scalar_total laws l)
  unfolding Schnorr.default Schnorr.add Schnorr.new
  signature_sum s l e =
      let (t, sum, nonce) =
        fl.sum_full (Schnorr.default pk) (Schnorr.add pk) zero plus
          (λ (x : Signature). value x.public_nonce) laws.value-default
          (λ a b. laws.value-add a.public_nonce b.public_nonce) laws.zero-plus laws.plus_comm
          laws.plus_assoc s l e in
      let (u, sum', scalar) =
        fl.sum_full (Schnorr.default pk) (Schnorr.add pk) zero plus
          (λ (x : Signature). act x.signature base) (laws.act-default base)
          (λ a b. laws.act-add a.signature b.signature base) laws.zero-plus laws.plus_comm
          laws.plus_assoc s l e in
      let same : u ≡ t = ground (arith, sum, sum') in
      (
        t,
        sum,
        nonce,
        subst (λ (x : Signature). act x.signature base ≡ scalar_total laws l) same scalar,
      )

  module _ (s : SignatureCollection fs K P) (v : Three s) (l : List Signature) (t : Signature)
      (all : sequence (places s.partial_signatures) ≡ some l)
      (nonce : value t.public_nonce ≡ nonce_total laws l)
      (scalar : act t.signature base ≡ scalar_total laws l) where
    agg_nonce-eq : value t.public_nonce ≡ value v.agg_nonce
    agg_nonce-eq =
        nonce
        ∙ (fold_map_congr laws (λ (x : Signature). value x.public_nonce) value l v.nonces
              (sequence-length _ l all
                ∙ (v.signature_places
                    ∙ sym (sequence-length _ v.nonces v.all_nonces ∙ v.nonce_places)))
              matches
            ∙ sym v.agg_sum)
      where
        matches :
            (i : ℕ) (x : Signature) (r : P)
            → get_elem? l i ≡ some x
            → get_elem? v.nonces i ≡ some r
            → value x.public_nonce ≡ value r
        matches i x r p q =
            let (r', at, e) = v.matched i x (sequence-get _ l i x all p) in
            let same : r' ≡ r =
              ground
                (arith, at, sequence-get (places s.public_nonces) v.nonces i r v.all_nonces q) in
            e ∙ ap value same

    final-Complete :
        Complete laws d fs fl Sent Trusted
          (record { s_agg = t; challenge = s.challenge; joint_key = s.joint_key })
    final-Complete = record {
      joint = v.joint;
      hashed =
          let (m, t, e) = v.hashed in
          (
            m,
            t,
            unfold Rounds.calculate_challenge in
                rw (laws.as_bytes_lem, agg_nonce-eq, ← laws.as_bytes_lem) e,
          );
      verified = λ trust. (verify_iff laws _ _ _).1 (
          scalar
          ∙ (total_verify laws s.challenge l s.joint_key.musig_scalars s.joint_key.pub_keys
                (as_many ∙ sym v.joint.scalars) as_many (valid trust)
              ∙ cc (nonce, v.joint.joint)));
    }
      where
        as_many : length l ≡ length s.joint_key.pub_keys
        as_many = sequence-length _ l all ∙ v.signature_places

        valid :
            Trusted
            → (i : ℕ) (x : Signature) (a : K) (p : P) → get_elem? l i ≡ some x
            → get_elem? s.joint_key.musig_scalars i ≡ some a
            → get_elem? s.joint_key.pub_keys i ≡ some p
            → act x.signature base ≡ plus (value x.public_nonce) (act s.challenge (act a (value p)))
        valid trust i x a p q r w =
            let ok_at = v.checked trust i x (sequence-get _ l i x all q) in
            let a' : ok_at.scalar ≡ a = ground (arith, ok_at.has_scalar) in
            let p' : ok_at.key ≡ p = ground (arith, ok_at.has_key) in cc (ok_at.holds, a', p')

  set_signature-InState :
      (s : SignatureCollection fs K P) (i : ℕ) (sig : Signature) (r : P)
      → Three s
      → At (places s.public_nonces) i r
      → value sig.public_nonce ≡ value r
      → (Trusted → ValidAt laws d fs fl Sent Trusted s.joint_key s.challenge i sig)
      → Returns (Rounds.set_signature pk d fs s i sig) Ok
  unfolding Rounds.set_signature Rounds.new_finalized Rounds.calculate_agg_signature
  set_signature-InState s i sig r v at same ok_sig =
      elim (Bool-cases (fs.is_full (fs.set_item s.partial_signatures i sig).0)) [
        | inr more ↦ rw (set, Rounds.set_signature, more) v'
        | inl full ↦
            let (l, all) = (fl.is_full_iff (fs.set_item s.partial_signatures i sig).0).0 full in
            let (t, sum, nonce, scalar) =
              signature_sum (fs.set_item s.partial_signatures i sig).0 l all in
            rw (set, Rounds.set_signature, full, sum) (final-Complete s' v' l t all nonce scalar)
      ]
    where
      s' : SignatureCollection fs K P
      s' = record s { partial_signatures = (fs.set_item s.partial_signatures i sig).0 }

      set : (fs.set_item s.partial_signatures i sig).1 ≡ true
      set =
          fl.set_item_bounds s.partial_signatures i sig
          ∙ lt→ltb _ _ (
              omega (
                arith,
                get_elem?-lt (places s.public_nonces) i at,
                v.nonce_places,
                v.signature_places,
              ))

      v' : Three s'
      v' = record {
        joint = v.joint;
        nonce_places = v.nonce_places;
        signature_places = length-set_item fs fl s.partial_signatures i sig ∙ v.signature_places;
        nonces = v.nonces;
        all_nonces = v.all_nonces;
        agg_nonce = v.agg_nonce;
        agg_sum = v.agg_sum;
        hashed = v.hashed;
        matched = λ j x here. elim (At-set_item fs fl s.partial_signatures i j sig x here) [
          | inl (e, e') ↦
              subst₂
                (λ k y.
                  (u : P) × At (places s.public_nonces) k u × (value y.public_nonce ≡ value u))
                e e' (r, at, same)
          | inr old ↦ v.matched j x old
        ];
        checked = λ trust j x here. elim (At-set_item fs fl s.partial_signatures i j sig x here) [
          | inl (e, e') ↦
              subst₂ (ValidAt laws d fs fl Sent Trusted s.joint_key s.challenge) e e' (ok_sig trust)
          | inr old ↦ v.checked trust j x old
        ];
      }

  -- A signature that validates at an index is valid there.
  validate-ValidAt :
      (s : SignatureCollection fs K P) (i : ℕ) (sig : Signature)
      → Three s
      → i < length s.joint_key.pub_keys
      → (b : Bool) × (Rounds.validate_partial_signature pk d fs s i sig ≡ done b)
        × (b ≡ true → ValidAt laws d fs fl Sent Trusted s.joint_key s.challenge i sig)
  unfolding Rounds.validate_partial_signature JointKey.get_pub_keys JointKey.get_musig_scalar
  validate-ValidAt s i sig v h =
      let (p, at_p) = get_elem?-some s.joint_key.pub_keys i h in
      let (a, at_a) = get_elem?-some s.joint_key.musig_scalars i (omega (arith, v.joint.scalars)) in
      (
        Schnorr.verify pk sig (pk.mul a p) s.challenge,
        rw (at_p, Rounds.validate_partial_signature, at_a),
        λ valid. record {
          scalar = a;
          key = p;
          has_scalar = at_a;
          has_key = at_p;
          holds =
              (verify_iff laws sig (pk.mul a p) s.challenge).0 valid
              ∙ ap (λ x. plus (value sig.public_nonce) (act s.challenge x)) (laws.value-mul a p);
        },
      )

  pub add_partial_signature-InState :
      (s : SignatureCollection fs K P) (sig : Signature) (validate : Bool)
      → (Trusted → validate ≡ true)
      → Three s
      → Returns (Rounds.add_partial_signature pk d fs s sig validate) Ok
  unfolding Rounds.add_partial_signature
  add_partial_signature-InState s sig validate trusted v =
      elim (Option-cases (fs.search pk.eq s.public_nonces sig.public_nonce)) [
        | inl gone ↦ rw (gone, Rounds.add_partial_signature) tt
        | inr (i, e) ↦
            let (u, at, eq) = fl.search_some pk.eq s.public_nonces sig.public_nonce i e in
            let same = sym ((laws.eq_iff u sig.public_nonce).0 eq) in
            let inside : i < length s.joint_key.pub_keys =
              omega (arith, get_elem?-lt (places s.public_nonces) i at, v.nonce_places) in
            let (b, checks, valid) = validate-ValidAt s i sig v inside in
            elim (Bool-cases validate) [
              | inr unchecked ↦
                  rw (e, Rounds.add_partial_signature, unchecked)
                    (set_signature-InState s i sig u v at same
                      (λ t. absurd (ground (arith, trusted t))))
              | inl checked ↦ elim (Bool-cases b) [
                | inr bad ↦ rw (e, Rounds.add_partial_signature, checked, checks, bad) tt
                | inl good ↦
                    rw (e, Rounds.add_partial_signature, checked, checks, good)
                      (set_signature-InState s i sig u v at same (λ _. valid good))
              ]
            ]
      ]
