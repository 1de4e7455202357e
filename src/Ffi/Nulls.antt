-- ===== src/Ffi/Nulls.antt =====
-- src/ffi/keys.rs: errors, null pointers, and the call for commitments.
use tari_crypto.Base.{
  ℕ, ◌≡◌, ◌⊎◌, inl, inr, refl, sym, ◌∙◌, true, false, ◌||◌, Option-cases, Bool-cases, ok, done,
  length, arith,
}
use tari_crypto.Keys.{PublicKey}
use tari_crypto.Keys.Laws.{KeyLaws}
use tari_crypto.External.{Digest, DigestLaws}
use tari_crypto.Commitment.{HomomorphicCommitment, HomomorphicCommitmentFactory}
use tari_crypto.Commitment
use tari_crypto.Commitment.Laws.{FactoryLaws}
use tari_crypto.Ffi.Memory.{ℤ, ok_code, null_pointer, str_conv_err, Memory, is_null}
use tari_crypto.Ffi.Keys.{sign, commitment}
use tari_crypto.Ffi.Signing.{after, write-done, eq_refl, hashed, signed}

module _ {K P : Type 0} {pk : PublicKey K P} (laws : KeyLaws pk) where
  open pk use {secret as sk}
  open laws use {value}

  module _ (blake256 : Digest) (dl : DigestLaws blake256) (output : blake256.output_size ≡ 32)
      (secret_size : sk.key_length ≡ 32) (public_size : pk.key_length ≡ 32) where
    -- For a hash and keys of 32 bytes, and 32 bytes at the secret key, `sign` never panics. It
    -- returns `OK`, or it returns `NULL_POINTER` or `STR_CONV_ERR` and leaves the memory as it
    -- was.
    pub ffi_sign_total :
        (mem : Memory) (priv_key msg nonce signature : ℕ) (drawn : K)
        → length (mem.keys priv_key) ≡ 32
        → (code : ℤ) × (mem' : Memory) × (sign pk blake256 priv_key msg nonce signature drawn mem
            ≡ done (code, mem'))
          × ((code ≡ ok_code) ⊎ (((code ≡ null_pointer) ⊎ (code ≡ str_conv_err)) × (mem' ≡ mem)))
    unfolding sign
    ffi_sign_total mem priv_key msg nonce signature drawn size =
        elim (Bool-cases (is_null nonce || is_null signature || is_null priv_key || is_null msg)) [
          | inl null ↦ (null_pointer, mem, rw null refl, inr (inl refl, refl))
          | inr full ↦
              let n₁ : is_null priv_key ≡ false = ground arith in
              let n₃ : is_null msg ≡ false = ground arith in
              let n₄ : is_null nonce ≡ false = ground arith in
              let n₅ : is_null signature ≡ false = ground arith in
              let (k, hk) = laws.secret_total (mem.keys priv_key) (size ∙ sym secret_size) in
              elim (Option-cases (mem.strings msg)) [
                | inl hs ↦ (str_conv_err, mem, rw (full, n₁, hk, n₃, hs) refl, inr (inr refl, refl))
                | inr (s, hs) ↦
                    let (e, he) = hashed laws blake256 dl output secret_size public_size s in
                    let (sig, u, _) =
                      signed laws blake256 dl output secret_size public_size k drawn s e he in
                    let l₁ : length (pk.as_bytes sig.public_nonce) ≡ 32 =
                      rw laws.as_bytes_lem (laws.encode_length _ ∙ public_size) in
                    let l₂ : length (sk.as_bytes sig.signature) ≡ 32 =
                      laws.secret_length _ ∙ secret_size in
                    let mem₁ = after mem nonce (pk.as_bytes sig.public_nonce) in
                    (
                      ok_code,
                      after mem₁ signature (sk.as_bytes sig.signature),
                      rw
                          (
                            full,
                            n₁,
                            hk,
                            n₃,
                            hs,
                            u,
                            write-done mem nonce _ n₄ l₁,
                            write-done mem₁ signature _ n₅ l₂,
                          )
                          refl,
                      inl refl,
                    )
              ]
        ]

  module _ (f : HomomorphicCommitmentFactory K P) (fl : FactoryLaws laws f)
      (secret_size : sk.key_length ≡ 32) (public_size : pk.key_length ≡ 32) where
    -- For keys of 32 bytes and a factory that keeps its contract: with no null pointer and inputs
    -- that are read, `commitment` returns `OK` and writes bytes that read back as a commitment,
    -- which the spending key and the value open.
    pub ffi_commitment-open :
        (mem : Memory) (v_at k_at out : ℕ) (v k : K)
        → is_null v_at ≡ false
        → is_null k_at ≡ false
        → is_null out ≡ false
        → sk.from_bytes (mem.keys v_at) ≡ ok v
        → sk.from_bytes (mem.keys k_at) ≡ ok k
        → (mem' : Memory) × (c : HomomorphicCommitment P) × (commitment pk
              (done f)
              v_at
              k_at
              out
              mem
            ≡ done (ok_code, mem'))
          × (Commitment.from_bytes pk (mem'.keys out) ≡ ok c)
          × (f.open_with k v c ≡ true)
    unfolding commitment Commitment.as_bytes Commitment.from_bytes
    ffi_commitment-open mem v_at k_at out v k n₁ n₂ n₃ hv hk =
        let p = (f.commit k v).point in
        let (q, hq, same) = laws.public_round_trip p in
        let l : length (pk.as_bytes p) ≡ 32 =
          rw laws.as_bytes_lem (laws.encode_length _ ∙ public_size) in
        (
          after mem out (pk.as_bytes p),
          record { point = q },
          rw (n₁, n₂, hv, n₂, hk, write-done mem out _ n₃ l) refl,
          rw (eq_refl out, Commitment.from_bytes, hq) refl,
          (fl.open_lem k v _).1 (same ∙ fl.commit_lem k v),
        )
