-- ===== src/Signatures/Schnorr/Laws.antt =====
-- What signing, verification, addition and the order of Schnorr signatures promise.
use tari_crypto.Base.{
  ◌≡◌, refl, sym, ap, subst, fun_ext, ◌∙◌, ◌↔◌, ◌⊎◌, inl, inr, true, false, Bytes, Result, ok, err,
  Ordering, arith,
}
use tari_crypto.Base.Order.{
  TotalOrder, TotalOrder-on, lexicographic-TotalOrder, cmp_bytes, cmp_bytes-TotalOrder, then_with,
}
use tari_crypto.Keys.{ByteArrayError, PublicKey}
use tari_crypto.Keys.Laws.{KeyLaws, plus_interchange, cmp-TotalOrder}
use tari_crypto.Signatures.Schnorr.{
  SchnorrSignature, invalid_challenge, new, sign, verify, verify_challenge, add, cmp,
  calc_signature_verifier,
}

module _ {K P : Type 0} {pk : PublicKey K P} (laws : KeyLaws pk) where
  open pk use {secret as sk}
  open laws use {value, plus, act, base}

  -- `s.G = R + e.P`, as an equation of group elements.
  pub verify_iff :
      (sig : SchnorrSignature P K) (p : P) (e : K)
      → (verify pk sig p e ≡ true)
        ↔ (act sig.signature base ≡ plus (value sig.public_nonce) (act e (value p)))
  unfolding verify
  verify_iff sig p e = (
    λ h. sym left ∙ ((laws.eq_iff _ _).0 h ∙ right),
    λ h. (laws.eq_iff _ _).1 (left ∙ (h ∙ sym right)),
  )
    where
      left : value (calc_signature_verifier pk sig) ≡ act sig.signature base
      left = laws.value-from_secret_key sig.signature

      right :
          value (pk.add sig.public_nonce (pk.mul e p))
          ≡ plus (value sig.public_nonce) (act e (value p))
      right = laws.value-add _ _ ∙ ap (plus (value sig.public_nonce)) (laws.value-mul e p)

  -- Verification depends on group elements alone.
  pub verify-congr :
      (sig sig' : SchnorrSignature P K) (p p' : P) (e : K)
      → value sig.public_nonce ≡ value sig'.public_nonce
      → sig.signature ≡ sig'.signature
      → value p ≡ value p'
      → verify pk sig p e ≡ true
      → verify pk sig' p' e ≡ true
  verify-congr sig sig' p p' e r s k v =
      (verify_iff sig' p' e).1 (cc (r, s, k, (verify_iff sig p e).0 v))

  -- A signature that the signing equation makes verifies.
  pub honest-verify :
      (k r e : K)
      → verify pk (new (pk.from_secret_key r) (sk.add (sk.mul e k) r)) (pk.from_secret_key k) e
        ≡ true
  unfolding new
  honest-verify k r e = (verify_iff _ _ _).1 (
      cc (
        laws.act-add (sk.mul e k) r base,
        laws.act-mul e k base,
        laws.plus_comm (act (sk.mul e k) base) (act r base),
        laws.value-from_secret_key r,
        laws.value-from_secret_key k,
      ))

  -- Signing fails, with `InvalidChallenge`, just when the challenge is no scalar, and then nothing
  -- verifies under that challenge. Otherwise the signature verifies under the public key of the
  -- secret, for the challenge bytes and for the scalar that they stand for.
  pub sign-verify_challenge :
      (k r : K) (challenge : Bytes)
      → ((e : ByteArrayError) × (sk.from_bytes challenge ≡ err e)
          × (sign pk k r challenge ≡ err invalid_challenge)
          × ((s : SchnorrSignature P K) (p : P) → verify_challenge pk s p challenge ≡ false))
        ⊎ ((e : K) × (s : SchnorrSignature P K) × (sk.from_bytes challenge ≡ ok e)
            × (sign pk k r challenge ≡ ok s)
            × (verify_challenge pk s (pk.from_secret_key k) challenge ≡ true)
            × (verify pk s (pk.from_secret_key k) e ≡ true))
  unfolding sign verify_challenge
  sign-verify_challenge k r challenge = go (sk.from_bytes challenge) refl
    where
      go :
          (o : Result ByteArrayError K)
          → sk.from_bytes challenge ≡ o
          → ((e : ByteArrayError) × (sk.from_bytes challenge ≡ err e)
              × (sign pk k r challenge ≡ err invalid_challenge)
              × ((s : SchnorrSignature P K) (p : P) → verify_challenge pk s p challenge ≡ false))
            ⊎ ((e : K) × (s : SchnorrSignature P K) × (sk.from_bytes challenge ≡ ok e)
                × (sign pk k r challenge ≡ ok s)
                × (verify_challenge pk s (pk.from_secret_key k) challenge ≡ true)
                × (verify pk s (pk.from_secret_key k) e ≡ true))
      go (err e) h = inl (e, h, rw (h, sign), λ s p. rw (h, verify_challenge))
      go (ok e) h = inr (
        e,
        new (pk.from_secret_key r) (sk.add (sk.mul e k) r),
        h,
        rw (h, sign),
        rw (h, verify_challenge) (honest-verify k r e),
        honest-verify k r e,
      )

  -- The sum of two signatures of one challenge verifies under the sum of the two keys.
  pub add-verify :
      (a b : SchnorrSignature P K) (p q : P) (e : K)
      → verify pk a p e ≡ true
      → verify pk b q e ≡ true
      → verify pk (add pk a b) (pk.add p q) e ≡ true
  unfolding add new
  add-verify a b p q e h k = (verify_iff _ _ _).1 (
      cc (
        laws.act-add a.signature b.signature base,
        (verify_iff a p e).0 h,
        (verify_iff b q e).0 k,
        laws.value-add a.public_nonce b.public_nonce,
        laws.value-add p q,
        laws.act-plus e (value p) (value q),
        plus_interchange laws (value a.public_nonce) (act e (value p)) (value b.public_nonce)
            (act e (value q)),
      ))

  -- Subtracting undoes adding.
  add-sub : (a b : K) → sk.sub (sk.add a b) b ≡ a
  add-sub a b =
      let x : K = sk.sub (sk.add a b) b in
      let n : K = sk.sub sk.default b in
      let left : sk.add (sk.add x b) n ≡ x = cc (
        laws.add_assoc x b n,
        laws.add_comm b n,
        laws.add_comm x sk.default,
        laws.sub-add sk.default b,
        laws.default-add x,
      ) in
      let right : sk.add (sk.add a b) n ≡ a = cc (
        laws.add_assoc a b n,
        laws.add_comm b n,
        laws.add_comm a sk.default,
        laws.sub-add sk.default b,
        laws.default-add a,
      ) in
      sym left ∙ (ap (λ y. sk.add y n) (laws.sub-add (sk.add a b) b) ∙ right)

  -- Two signatures of one key, made with one nonce for two challenges that are scalars, have the
  -- same public nonce, and their signature scalars differ by the difference of the challenges
  -- times the key. When that difference has an inverse, they give the secret key away, which is
  -- the inverse times the difference of the signature scalars, and the nonce with it.
  pub sign_nonce_reuse :
      (k r d e i : K) (c₁ c₂ : Bytes) {s t : SchnorrSignature P K}
      → sk.from_bytes c₁ ≡ ok d
      → sk.from_bytes c₂ ≡ ok e
      → sign pk k r c₁ ≡ ok s
      → sign pk k r c₂ ≡ ok t
      → ((x : K) → sk.mul i (sk.mul (sk.sub d e) x) ≡ x)
      → (s.public_nonce ≡ t.public_nonce)
        × (s.signature ≡ sk.add (sk.mul (sk.sub d e) k) t.signature)
        × (sk.mul i (sk.sub s.signature t.signature) ≡ k)
        × (sk.sub s.signature (sk.mul d (sk.mul i (sk.sub s.signature t.signature))) ≡ r)
  unfolding sign new
  sign_nonce_reuse k r d e i c₁ c₂ {s} {t} hd he hs ht inverse =
      let hs' : s
          ≡ record { public_nonce = pk.from_secret_key r; signature = sk.add (sk.mul d k) r } =
        ground arith in
      let ht' : t
          ≡ record { public_nonce = pk.from_secret_key r; signature = sk.add (sk.mul e k) r } =
        ground arith in
      let s_is : s.signature ≡ sk.add (sk.mul d k) r = rw hs' refl in
      let t_is : t.signature ≡ sk.add (sk.mul e k) r = rw ht' refl in
      let apart : s.signature ≡ sk.add (sk.mul (sk.sub d e) k) t.signature = cc (
        s_is,
        t_is,
        laws.add_assoc (sk.mul (sk.sub d e) k) (sk.mul e k) r,
        laws.add-mul (sk.sub d e) e k,
        laws.sub-add d e,
      ) in
      let key : sk.mul i (sk.sub s.signature t.signature) ≡ k =
        cc (apart, add-sub (sk.mul (sk.sub d e) k) t.signature, inverse k) in
      (
        ap (λ (x : SchnorrSignature P K). x.public_nonce) hs'
            ∙ sym (ap (λ (x : SchnorrSignature P K). x.public_nonce) ht'),
        apart,
        key,
        cc (key, s_is, laws.add_comm (sk.mul d k) r, add-sub r (sk.mul d k)),
      )

  abbrev lexicographic : SchnorrSignature P K → SchnorrSignature P K → Ordering
  lexicographic a b =
      then_with (pk.cmp a.public_nonce b.public_nonce)
        (cmp_bytes (sk.as_bytes a.signature) (sk.as_bytes b.signature))

  split : (a b : SchnorrSignature P K) → cmp pk a b ≡ lexicographic a b
  unfolding cmp
  split a b = ground arith

  -- The order of signatures is total: by the nonces, then by the bytes of the scalars.
  pub schnorr_cmp-TotalOrder : TotalOrder (cmp pk)
  schnorr_cmp-TotalOrder = subst TotalOrder (fun_ext λ a. fun_ext λ b. sym (split a b)) (
      lexicographic-TotalOrder
        (TotalOrder-on (λ (s : SchnorrSignature P K). s.public_nonce) (cmp-TotalOrder laws))
        (TotalOrder-on (λ (s : SchnorrSignature P K). sk.as_bytes s.signature)
          cmp_bytes-TotalOrder))
