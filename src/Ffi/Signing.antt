-- ===== src/Ffi/Signing.antt =====
-- What C programs get from signing and verifying.
use tari_crypto.Base.{
  ℕ, ◌==◌, ◌≡◌, refl, sym, ◌∙◌, true, false, Bytes, some, ok, done, length, inl, inr, subst,
  if◌then◌else◌, All, List, [], ◌∷◌, arith,
}
use tari_crypto.Keys.{PublicKey}
use tari_crypto.Keys.Laws.{KeyLaws}
use tari_crypto.External.{Digest, DigestLaws, digest}
use tari_crypto.Signatures.Schnorr.{SchnorrSignature}
use tari_crypto.Signatures.Schnorr
use tari_crypto.Signatures.Schnorr.Laws.{verify-congr, sign-verify_challenge}
use tari_crypto.Ffi.Memory.{ok_code, Memory, is_null, write}
use tari_crypto.Ffi.Keys.{sign, verify}

abbrev pub NonNull : List ℕ → Type 0
NonNull ps = All (λ p. is_null p ≡ false) ps

abbrev pub after : Memory → ℕ → Bytes → Memory
after mem p bytes = record mem { keys = λ q. if q == p then bytes else mem.keys q }

pub eq_refl : (n : ℕ) → (n == n) ≡ true
eq_refl n = ground arith

pub write-done :
    (mem : Memory) (p : ℕ) (bytes : Bytes)
    → is_null p ≡ false
    → length bytes ≡ 32
    → write mem p bytes ≡ done (after mem p bytes)
unfolding write
write-done mem p bytes n l = rw (n, l) refl

module _ {K P : Type 0} {pk : PublicKey K P} (laws : KeyLaws pk) (blake256 : Digest)
    (dl : DigestLaws blake256) (output : blake256.output_size ≡ 32)
    (secret_size : pk.secret.key_length ≡ 32) (public_size : pk.key_length ≡ 32) where
  open pk use {secret as sk}
  open laws use {value, plus, act, base}

  pub hashed : (s : Bytes) → (e : K) × (sk.from_bytes (digest blake256 s) ≡ ok e)
  unfolding digest
  hashed s = laws.secret_total _ (dl.finalize_length _ ∙ output ∙ sym secret_size)

  pub signed :
      (k drawn : K) (s : Bytes) (e : K)
      → sk.from_bytes (digest blake256 s) ≡ ok e
      → (sig : SchnorrSignature P K) × (Schnorr.sign pk k drawn (digest blake256 s) ≡ ok sig)
        × (Schnorr.verify pk sig (pk.from_secret_key k) e ≡ true)
  signed k drawn s e h = elim (sign-verify_challenge laws k drawn (digest blake256 s)) [
    | inl (e', t, _, _) ↦ absurd (ground (arith, h, t))
    | inr (e', sig, t, u, _, v) ↦
        let same : e' ≡ e = ground (arith, h, t) in
        (sig, u, subst (λ x. Schnorr.verify pk sig (pk.from_secret_key k) x ≡ true) same v)
  ]

  -- For a hash and keys of 32 bytes: with no null pointer, places for the results that differ from
  -- each other and from that of the public key, a secret key that is read, and a message in UTF-8,
  -- `sign` returns `OK`, and `verify` accepts the nonce and the signature that it wrote, for the
  -- same message and the public key of the secret.
  pub ffi_sign-verify :
      (mem : Memory) (priv_key pub_key msg nonce signature err_code : ℕ) (k drawn : K) (s : Bytes)
      → NonNull (priv_key ∷ pub_key ∷ msg ∷ nonce ∷ signature ∷ err_code ∷ [])
      → (nonce == signature) ≡ false
      → (pub_key == nonce) ≡ false
      → (pub_key == signature) ≡ false
      → sk.from_bytes (mem.keys priv_key) ≡ ok k
      → mem.strings msg ≡ some s
      → mem.keys pub_key ≡ pk.as_bytes (pk.from_secret_key k)
      → (mem' : Memory) × (sign pk blake256 priv_key msg nonce signature drawn mem
          ≡ done (ok_code, mem'))
        × (verify pk blake256 pub_key msg nonce signature err_code mem' ≡ done (true, mem'))
  unfolding sign verify Schnorr.new
  ffi_sign-verify mem priv_key pub_key msg nonce signature err_code k drawn s n d₁ d₂ d₃ hk hs hp =
      let (n₁, (n₂, (n₃, (n₄, (n₅, (n₆, _)))))) = n in
      let (e, he) = hashed s in
      let (sig, u, v) = signed k drawn s e he in
      let (r, hr, same_r) = laws.public_round_trip sig.public_nonce in
      let (p, hp', same_p) = laws.public_round_trip (pk.from_secret_key k) in
      let nonce_length : length (pk.as_bytes sig.public_nonce) ≡ 32 =
        rw laws.as_bytes_lem (laws.encode_length _ ∙ public_size) in
      let signature_length : length (sk.as_bytes sig.signature) ≡ 32 =
        laws.secret_length _ ∙ secret_size in
      let mem₁ = after mem nonce (pk.as_bytes sig.public_nonce) in
      let mem₂ = after mem₁ signature (sk.as_bytes sig.signature) in
      (
        mem₂,
        rw
            (
              n₄,
              n₅,
              n₁,
              n₃,
              hk,
              n₃,
              hs,
              u,
              write-done mem nonce _ n₄ nonce_length,
              write-done mem₁ signature _ n₅ signature_length,
            )
            refl,
        rw
            (
              n₂,
              n₃,
              n₄,
              n₅,
              n₆,
              d₃,
              d₂,
              hp,
              hp',
              n₄,
              d₁,
              eq_refl nonce,
              hr,
              n₅,
              eq_refl signature,
              laws.secret_round_trip sig.signature,
              n₃,
              hs,
              he,
              verify-congr laws sig (Schnorr.new r sig.signature) (pk.from_secret_key k) p e
                  (sym same_r) refl (sym same_p) v,
            )
            refl,
      )
