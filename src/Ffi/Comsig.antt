-- ===== src/Ffi/Comsig.antt =====
-- What C programs get from signing and verifying for commitments.
use tari_crypto.Base.{
  ℕ, ◌==◌, ◌≡◌, inl, inr, refl, sym, subst, ◌∙◌, true, false, Bytes, some, ok, done, ◌>>=◌, length,
  [], ◌∷◌, arith,
}
use tari_crypto.Keys.{PublicKey}
use tari_crypto.Keys.Laws.{KeyLaws}
use tari_crypto.External.{Digest, DigestLaws, digest}
use tari_crypto.Commitment.{HomomorphicCommitment, HomomorphicCommitmentFactory}
use tari_crypto.Commitment
use tari_crypto.Commitment.Laws.{FactoryLaws}
use tari_crypto.Signatures.CommitmentSignature.{CommitmentSignature}
use tari_crypto.Signatures.CommitmentSignature
use tari_crypto.Signatures.CommitmentSignature.Laws.{
  comsig_verify_iff, comsig_sign-verify_challenge,
}
use tari_crypto.Ffi.Memory.{ok_code, Memory}
use tari_crypto.Ffi.Keys.{sign_comsig, verify_comsig}
use tari_crypto.Ffi.Signing.{NonNull, after, write-done, eq_refl, hashed}

module _ {K P : Type 0} {pk : PublicKey K P} (laws : KeyLaws pk)
    (f : HomomorphicCommitmentFactory K P) (fl : FactoryLaws laws f) (blake256 : Digest)
    (dl : DigestLaws blake256) (output : blake256.output_size ≡ 32)
    (secret_size : pk.secret.key_length ≡ 32) (public_size : pk.key_length ≡ 32) where
  open pk use {secret as sk}
  open laws use {value, plus, act}

  pub comsig_verify-congr :
      (s s' : CommitmentSignature P K) (c c' : HomomorphicCommitment P) (e : K)
      → value s.public_nonce.point ≡ value s'.public_nonce.point
      → s.u ≡ s'.u
      → s.v ≡ s'.v
      → value c.point ≡ value c'.point
      → CommitmentSignature.verify pk s c e f ≡ true
      → CommitmentSignature.verify pk s' c' e f ≡ true
  comsig_verify-congr s s' c c' e r u v k t =
      (comsig_verify_iff laws f fl s' c' e).1
        (cc (r, u, v, k, (comsig_verify_iff laws f fl s c e).0 t))

  pub comsig_signed :
      (a x r_a r_x : K) (s : Bytes) (e : K)
      → sk.from_bytes (digest blake256 s) ≡ ok e
      → (sig : CommitmentSignature P K) × (CommitmentSignature.sign pk a x r_a r_x
            (digest blake256 s)
            f
          ≡ ok sig)
        × (CommitmentSignature.verify pk sig (f.commit x a) e f ≡ true)
  comsig_signed a x r_a r_x s e h =
      elim (comsig_sign-verify_challenge laws f fl a x r_a r_x (digest blake256 s)) [
        | inl (e', t, _, _) ↦ absurd (ground (arith, h, t))
        | inr (e', sig, t, u, _, v) ↦
            let same : e' ≡ e = ground (arith, h, t) in
            (
              sig,
              u,
              subst (λ y. CommitmentSignature.verify pk sig (f.commit x a) y f ≡ true) same v,
            )
      ]

  -- For a hash and keys of 32 bytes and a factory that keeps its contract: with no null pointer
  -- but perhaps `err_code`, places for the results that differ from each other and from that of
  -- the commitment, secrets that are read, and a message in UTF-8, `sign_comsig` returns `OK`, and
  -- `verify_comsig` accepts the three arrays that it wrote, for the same message and the
  -- commitment to the secret value and blinding factor.
  pub ffi_sign_comsig-verify_comsig :
      (mem : Memory) (a_at x_at c_at msg nonce u_at v_at err_code : ℕ) (a x r_a r_x : K) (s : Bytes)
      → NonNull (a_at ∷ x_at ∷ c_at ∷ msg ∷ nonce ∷ u_at ∷ v_at ∷ [])
      → ((nonce == u_at) ≡ false) × ((nonce == v_at) ≡ false) × ((u_at == v_at) ≡ false)
      → ((c_at == nonce) ≡ false) × ((c_at == u_at) ≡ false) × ((c_at == v_at) ≡ false)
      → sk.from_bytes (mem.keys a_at) ≡ ok a
      → sk.from_bytes (mem.keys x_at) ≡ ok x
      → mem.strings msg ≡ some s
      → mem.keys c_at ≡ Commitment.as_bytes pk (f.commit x a)
      → (mem' : Memory) × (sign_comsig pk
            (done f)
            blake256
            a_at
            x_at
            msg
            nonce
            u_at
            v_at
            r_a
            r_x
            mem
          ≡ done (ok_code, mem'))
        × (verify_comsig pk (done f) blake256 c_at msg nonce u_at v_at err_code mem'
            ≡ done (true, mem'))
  unfolding sign_comsig verify_comsig CommitmentSignature.new Commitment.as_bytes
  ffi_sign_comsig-verify_comsig mem a_at x_at c_at msg nonce u_at v_at err_code a x r_a r_x s n
        (d₁, d₂, d₃) (b₁, b₂, b₃) ha hx hs hc =
      let (n₁, (n₂, (n₃, (n₄, (n₅, (n₆, (n₇, _))))))) = n in
      let (e, he) = hashed laws blake256 dl output secret_size public_size s in
      let (sig, t, v) = comsig_signed a x r_a r_x s e he in
      let (r, hr, same_r) = laws.public_round_trip sig.public_nonce.point in
      let (c, hc', same_c) = laws.public_round_trip (f.commit x a).point in
      let l₁ : length (pk.as_bytes sig.public_nonce.point) ≡ 32 =
        rw laws.as_bytes_lem (laws.encode_length _ ∙ public_size) in
      let l₂ : length (sk.as_bytes sig.u) ≡ 32 = laws.secret_length _ ∙ secret_size in
      let l₃ : length (sk.as_bytes sig.v) ≡ 32 = laws.secret_length _ ∙ secret_size in
      let mem₁ = after mem nonce (pk.as_bytes sig.public_nonce.point) in
      let mem₂ = after mem₁ u_at (sk.as_bytes sig.u) in
      let mem₃ = after mem₂ v_at (sk.as_bytes sig.v) in
      (
        mem₃,
        rw
            (
              n₁,
              n₂,
              n₄,
              n₅,
              n₆,
              n₇,
              ha,
              n₂,
              hx,
              n₄,
              hs,
              ◌>>=◌,
              t,
              write-done mem nonce _ n₅ l₁,
              write-done mem₁ u_at _ n₆ l₂,
              write-done mem₂ v_at _ n₇ l₃,
            )
            refl,
        rw
            (
              n₃,
              n₄,
              n₅,
              n₆,
              n₇,
              Commitment.from_bytes,
              b₃,
              b₂,
              b₁,
              hc,
              hc',
              n₅,
              d₂,
              d₁,
              eq_refl nonce,
              hr,
              n₆,
              d₃,
              eq_refl u_at,
              laws.secret_round_trip sig.u,
              n₇,
              eq_refl v_at,
              laws.secret_round_trip sig.v,
              n₄,
              hs,
              he,
              ◌>>=◌,
              comsig_verify-congr sig (CommitmentSignature.new (record { point = r }) sig.u sig.v)
                  (f.commit x a) (record { point = c }) e (sym same_r) refl refl (sym same_c) v,
            )
            refl,
      )
