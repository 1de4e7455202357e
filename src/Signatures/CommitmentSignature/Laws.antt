-- ===== src/Signatures/CommitmentSignature/Laws.antt =====
-- What signing, verification, addition, equality, hashing and the order of commitment signatures
-- promise.
use tari_crypto.Base.{
  ◌≡◌, refl, sym, ap, subst, fun_ext, ◌∙◌, ◌↔◌, ◌⊎◌, inl, inr, true, false, &&_true, Bytes, Result,
  ok, err, Ordering, arith, append_inj,
}
use tari_crypto.Base.Order.{
  TotalOrder, TotalOrder-on, lexicographic-TotalOrder, cmp_bytes, cmp_bytes-TotalOrder, then_with,
}
use tari_crypto.Keys.{ByteArrayError, PublicKey}
use tari_crypto.Keys.Laws.{KeyLaws, plus_interchange, cmp-TotalOrder, secret_as_bytes_inj}
use tari_crypto.Commitment.{HomomorphicCommitment, HomomorphicCommitmentFactory}
use tari_crypto.Commitment
use tari_crypto.Commitment.Laws.{FactoryLaws, commitment-eq_iff, value-add, value-mul}
use tari_crypto.Signatures.CommitmentSignature.{
  CommitmentSignature, invalid_challenge, new, sign, verify, verify_challenge, add, cmp, eq, to_vec,
  calc_signature_verifier,
}

module _ {K P : Type 0} {pk : PublicKey K P} (laws : KeyLaws pk)
    (f : HomomorphicCommitmentFactory K P) (fl : FactoryLaws laws f) where
  open pk use {secret as sk}
  open laws use {value, plus, act}
  open fl use {g, h}

  -- `v.H + u.G = R + e.C`, as an equation of group elements.
  pub comsig_verify_iff :
      (s : CommitmentSignature P K) (c : HomomorphicCommitment P) (e : K)
      → (verify pk s c e f ≡ true)
        ↔ (plus (act s.u g) (act s.v h) ≡ plus (value s.public_nonce.point) (act e (value c.point)))
  unfolding verify
  comsig_verify_iff s c e = (
    λ t. sym left ∙ ((commitment-eq_iff laws _ _).0 t ∙ right),
    λ t. (commitment-eq_iff laws _ _).1 (left ∙ (t ∙ sym right)),
  )
    where
      left : value (calc_signature_verifier pk s f).point ≡ plus (act s.u g) (act s.v h)
      left = fl.commit_lem s.u s.v

      right :
          value (Commitment.add pk s.public_nonce (Commitment.mul pk c e)).point
          ≡ plus (value s.public_nonce.point) (act e (value c.point))
      right = value-add laws _ _ ∙ ap (plus (value s.public_nonce.point)) (value-mul laws c e)

  honest : K → K → K → K → K → CommitmentSignature P K
  honest a x r_a r_x e = new (f.commit r_x r_a) (sk.add r_x (sk.mul e x)) (sk.add r_a (sk.mul e a))

  honest-verify : (a x r_a r_x e : K) → verify pk (honest a x r_a r_x e) (f.commit x a) e f ≡ true
  unfolding honest new
  honest-verify a x r_a r_x e = (comsig_verify_iff _ _ _).1 (
      cc (
        laws.act-add r_x (sk.mul e x) g,
        laws.act-add r_a (sk.mul e a) h,
        laws.act-mul e x g,
        laws.act-mul e a h,
        fl.commit_lem r_x r_a,
        fl.commit_lem x a,
        laws.act-plus e (act x g) (act a h),
        plus_interchange laws (act r_x g) (act e (act x g)) (act r_a h) (act e (act a h)),
      ))

  abbrev pub SignOutcome : K → K → K → K → Bytes → Type 0
  SignOutcome a x r_a r_x challenge =
      ((e : ByteArrayError) × (sk.from_bytes challenge ≡ err e)
        × (sign pk a x r_a r_x challenge f ≡ err invalid_challenge)
        × ((s : CommitmentSignature P K) (c : HomomorphicCommitment P)
            → verify_challenge pk s c challenge f ≡ false))
      ⊎ ((e : K) × (s : CommitmentSignature P K) × (sk.from_bytes challenge ≡ ok e)
          × (sign pk a x r_a r_x challenge f ≡ ok s)
          × (verify_challenge pk s (f.commit x a) challenge f ≡ true)
          × (verify pk s (f.commit x a) e f ≡ true))

  -- Signing fails, with `InvalidChallenge`, just when the challenge is no scalar, and then nothing
  -- verifies under that challenge. Otherwise the signature verifies for the commitment to the
  -- secret value and blinding factor, for the challenge bytes and for their scalar.
  pub comsig_sign-verify_challenge :
      (a x r_a r_x : K) (challenge : Bytes) → SignOutcome a x r_a r_x challenge
  unfolding sign verify_challenge
  comsig_sign-verify_challenge a x r_a r_x challenge = go (sk.from_bytes challenge) refl
    where
      go :
          (o : Result ByteArrayError K)
          → sk.from_bytes challenge ≡ o
          → SignOutcome a x r_a r_x challenge
      go (err e) t = inl (e, t, rw (t, sign), λ s c. rw (t, verify_challenge))
      go (ok e) t = inr (
        e,
        honest a x r_a r_x e,
        t,
        unfold honest in rw (t, sign),
        rw (t, verify_challenge) (honest-verify a x r_a r_x e),
        honest-verify a x r_a r_x e,
      )

  -- The sum of two signatures of one challenge verifies for the sum of the two commitments.
  pub comsig_add-verify :
      (s t : CommitmentSignature P K) (c d : HomomorphicCommitment P) (e : K)
      → verify pk s c e f ≡ true
      → verify pk t d e f ≡ true
      → verify pk (add pk s t) (Commitment.add pk c d) e f ≡ true
  unfolding add new
  comsig_add-verify s t c d e p q = (comsig_verify_iff _ _ _).1 (
      cc (
        laws.act-add s.u t.u g,
        laws.act-add s.v t.v h,
        plus_interchange laws (act s.u g) (act t.u g) (act s.v h) (act t.v h),
        (comsig_verify_iff s c e).0 p,
        (comsig_verify_iff t d e).0 q,
        value-add laws s.public_nonce t.public_nonce,
        value-add laws c d,
        laws.act-plus e (value c.point) (value d.point),
        plus_interchange laws (value s.public_nonce.point) (act e (value c.point))
            (value t.public_nonce.point) (act e (value d.point)),
      ))

module _ {K P : Type 0} {pk : PublicKey K P} (laws : KeyLaws pk) where
  open pk use {secret as sk}
  open laws use {value}

  abbrev lexicographic : CommitmentSignature P K → CommitmentSignature P K → Ordering
  lexicographic a b = then_with (pk.cmp a.public_nonce.point b.public_nonce.point) (
      then_with (cmp_bytes (sk.as_bytes a.u) (sk.as_bytes b.u))
        (cmp_bytes (sk.as_bytes a.v) (sk.as_bytes b.v)))

  split : (a b : CommitmentSignature P K) → cmp pk a b ≡ lexicographic a b
  unfolding cmp Commitment.cmp
  split a b = ground arith

  -- The order of commitment signatures is total: by the nonces, then by the bytes of `u`, then by
  -- those of `v`.
  pub comsig_cmp-TotalOrder : TotalOrder (cmp pk)
  comsig_cmp-TotalOrder = subst TotalOrder (fun_ext λ a. fun_ext λ b. sym (split a b)) (
      lexicographic-TotalOrder
        (TotalOrder-on (λ (s : CommitmentSignature P K). s.public_nonce.point)
          (cmp-TotalOrder laws))
        (lexicographic-TotalOrder
          (TotalOrder-on (λ (s : CommitmentSignature P K). sk.as_bytes s.u) cmp_bytes-TotalOrder)
          (TotalOrder-on (λ (s : CommitmentSignature P K). sk.as_bytes s.v) cmp_bytes-TotalOrder)))

  -- Two commitment signatures are equal just when their byte strings are the same.
  pub eq-to_vec_iff :
      (a b : CommitmentSignature P K) → (eq pk a b ≡ true) ↔ (to_vec pk a ≡ to_vec pk b)
  unfolding eq to_vec Commitment.as_bytes
  eq-to_vec_iff a b = (forth, back)
    where
      forth : eq pk a b ≡ true → to_vec pk a ≡ to_vec pk b
      forth t =
          let (p, q) = &&_true _ _ t in
          let (q', r) = &&_true _ _ q in
          cc (
            laws.as_bytes_lem a.public_nonce.point,
            laws.as_bytes_lem b.public_nonce.point,
            (commitment-eq_iff laws _ _).0 p,
            (laws.secret_eq_iff _ _).0 q',
            (laws.secret_eq_iff _ _).0 r,
          )

      back : to_vec pk a ≡ to_vec pk b → eq pk a b ≡ true
      back t =
          let (p, q) =
            append_inj _ _ _ _
              (rw (laws.as_bytes_lem, laws.encode_length)
                (rw (laws.as_bytes_lem, laws.encode_length)))
              t in
          let (u, v) =
            append_inj _ _ _ _ (laws.secret_length a.u ∙ sym (laws.secret_length b.u)) q in
          rw (
            (commitment-eq_iff laws a.public_nonce b.public_nonce).1
                (laws.encode_inj _ _ (sym (laws.as_bytes_lem _) ∙ (p ∙ laws.as_bytes_lem _))),
            (laws.secret_eq_iff a.u b.u).1 (secret_as_bytes_inj laws _ _ u),
            (laws.secret_eq_iff a.v b.v).1 (secret_as_bytes_inj laws _ _ v),
          )
