-- ===== src/Ffi/Panics.antt =====
-- src/ffi/keys.rs: which calls go through a null pointer, and when.
use tari_crypto.Base.{
  ℕ, ◌≡◌, ◌↔◌, ◌⊎◌, inl, inr, refl, sym, ◌∙◌, Bool, true, false, ◌||◌, ◌>>=◌, ◌==◌, if◌then◌else◌,
  Option-cases, Bool-cases, Result-cases, ok, err, done, panic, length, arith,
}
use tari_crypto.Keys.{ByteArrayError, PublicKey}
use tari_crypto.Keys.Laws.{KeyLaws}
use tari_crypto.External.{Digest, digest}
use tari_crypto.Commitment.{HomomorphicCommitment, HomomorphicCommitmentFactory}
use tari_crypto.Commitment
use tari_crypto.Signatures.Schnorr
use tari_crypto.Signatures.CommitmentSignature
use tari_crypto.Ffi.Memory.{ℤ, null_pointer, invalid_secret_key_ser, Memory, is_null, write}
use tari_crypto.Ffi.Keys.{verify, commitment, verify_comsig}
use tari_crypto.Ffi.Signing.{write-done}

module _ {K P : Type 0} {pk : PublicKey K P} (laws : KeyLaws pk)
    (f : HomomorphicCommitmentFactory K P) (secret_size : pk.secret.key_length ≡ 32)
    (public_size : pk.key_length ≡ 32) where
  open pk use {secret as sk}

  -- For keys of 32 bytes, and 32 bytes at the value and at the spending key: `commitment` goes
  -- through a null pointer, which is the panic of the model, just when its two inputs are not null
  -- and the place for the result is.
  pub ffi_commitment-panic_iff :
      (mem : Memory) (v_at k_at out : ℕ)
      → length (mem.keys v_at) ≡ 32
      → length (mem.keys k_at) ≡ 32
      → (commitment pk (done f) v_at k_at out mem ≡ panic)
        ↔ ((is_null v_at ≡ false) × (is_null k_at ≡ false) × (is_null out ≡ true))
  unfolding commitment write Commitment.as_bytes
  ffi_commitment-panic_iff mem v_at k_at out v_size k_size =
      elim (Bool-cases (is_null v_at || is_null k_at || is_null k_at)) [
        | inl null ↦ (
          λ h. absurd (ground (arith, rw null at h)),
          λ h. absurd (ground (arith, null, h.0, h.1)),
        )
        | inr full ↦
            let n₁ : is_null v_at ≡ false = ground arith in
            let n₂ : is_null k_at ≡ false = ground arith in
            let (v, hv) = laws.secret_total (mem.keys v_at) (v_size ∙ sym secret_size) in
            let (k, hk) = laws.secret_total (mem.keys k_at) (k_size ∙ sym secret_size) in
            let l : length (pk.as_bytes (f.commit k v).point) ≡ 32 =
              rw laws.as_bytes_lem (laws.encode_length _ ∙ public_size) in
            elim (Bool-cases (is_null out)) [
              | inl o ↦ (λ h. (n₁, n₂, o), λ h. rw (n₁, n₂, hv, n₂, hk, o) refl)
              | inr o ↦ (
                λ h.
                    absurd (ground (arith, rw (n₁, n₂, hv, n₂, hk, write-done mem out _ o l) at h)),
                λ h. absurd (ground (arith, o, h.2)),
              )
            ]
      ]

module _ {K P : Type 0} (pk : PublicKey K P) (f : HomomorphicCommitmentFactory K P)
    (blake256 : Digest) where
  open pk use {secret as sk}

  abbrev coded : Memory → ℕ → ℤ → Memory
  coded mem p code = record mem { codes = λ q. if q == p then code else mem.codes q }

  verify_total :
      (mem : Memory) (p_at msg nonce sig err_code : ℕ)
      → (b : Bool) × (mem' : Memory) × (verify pk blake256 p_at msg nonce sig err_code mem
          ≡ done (b, mem'))
  unfolding verify
  verify_total mem p_at msg nonce sig err_code =
      elim (Bool-cases
        (is_null p_at || is_null msg || is_null nonce || is_null sig || is_null err_code)) [
          | inl null ↦ elim (Bool-cases (is_null err_code)) [
            | inl e ↦ (false, mem, rw (null, e) refl)
            | inr e ↦ (false, coded mem err_code null_pointer, rw (null, e) refl)
          ]
          | inr full ↦
              let n₁ : is_null p_at ≡ false = ground arith in
              let n₂ : is_null msg ≡ false = ground arith in
              let n₃ : is_null nonce ≡ false = ground arith in
              let n₄ : is_null sig ≡ false = ground arith in
              let n₅ : is_null err_code ≡ false = ground arith in
              elim (Result-cases (pk.from_bytes (mem.keys p_at))) [
                | inr (x, hp) ↦
                    (false, coded mem err_code invalid_secret_key_ser, rw (full, n₁, hp, n₅) refl)
                | inl (p, hp) ↦ elim (Result-cases (pk.from_bytes (mem.keys nonce))) [
                  | inr (x, hr) ↦ (false, mem, rw (full, n₁, hp, n₃, hr) refl)
                  | inl (r, hr) ↦ elim (Result-cases (sk.from_bytes (mem.keys sig))) [
                    | inr (x, hs) ↦ (false, mem, rw (full, n₁, hp, n₃, hr, n₄, hs) refl)
                    | inl (s, hs) ↦ elim (Option-cases (mem.strings msg)) [
                      | inl ht ↦ (false, mem, rw (full, n₁, hp, n₃, hr, n₄, hs, n₂, ht) refl)
                      | inr (t, ht) ↦ elim (Result-cases (sk.from_bytes (digest blake256 t))) [
                        | inr (x, he) ↦
                            (false, mem, rw (full, n₁, hp, n₃, hr, n₄, hs, n₂, ht, he) refl)
                        | inl (e, he) ↦ (
                          Schnorr.verify pk (Schnorr.new r s) p e,
                          mem,
                          rw (full, n₁, hp, n₃, hr, n₄, hs, n₂, ht, he) refl,
                        )
                      ]
                    ]
                  ]
                ]
              ]
        ]

  comsig_checked :
      (mem : Memory) (c_at msg nonce u_at v_at err_code : ℕ) (c r : HomomorphicCommitment P)
      (u v : K)
      → (is_null c_at || is_null msg || is_null nonce || is_null u_at || is_null v_at) ≡ false
      → Commitment.from_bytes pk (mem.keys c_at) ≡ ok c
      → Commitment.from_bytes pk (mem.keys nonce) ≡ ok r
      → sk.from_bytes (mem.keys u_at) ≡ ok u
      → sk.from_bytes (mem.keys v_at) ≡ ok v
      → (b : Bool) × (verify_comsig pk (done f) blake256 c_at msg nonce u_at v_at err_code mem
          ≡ done (b, mem))
  unfolding verify_comsig
  comsig_checked mem c_at msg nonce u_at v_at err_code c r u v full hc hr hu hv =
      let n₁ : is_null c_at ≡ false = ground arith in
      let n₂ : is_null msg ≡ false = ground arith in
      let n₃ : is_null nonce ≡ false = ground arith in
      let n₄ : is_null u_at ≡ false = ground arith in
      let n₅ : is_null v_at ≡ false = ground arith in
      elim (Option-cases (mem.strings msg)) [
        | inl ht ↦ (false, rw (full, n₁, ◌>>=◌, hc, n₃, hr, n₄, hu, n₅, hv, n₂, ht) refl)
        | inr (t, ht) ↦ elim (Result-cases (sk.from_bytes (digest blake256 t))) [
          | inr (x, he) ↦ (false, rw (full, n₁, ◌>>=◌, hc, n₃, hr, n₄, hu, n₅, hv, n₂, ht, he) refl)
          | inl (e, he) ↦ (
            CommitmentSignature.verify pk (CommitmentSignature.new r u v) c e f,
            rw (full, n₁, ◌>>=◌, hc, n₃, hr, n₄, hu, n₅, hv, n₂, ht, he) refl,
          )
        ]
      ]

  -- Once the commitment is read, `verify_comsig` answers and writes nothing.
  verify_comsig_read :
      (mem : Memory) (c_at msg nonce u_at v_at err_code : ℕ) (c : HomomorphicCommitment P)
      → (is_null c_at || is_null msg || is_null nonce || is_null u_at || is_null v_at) ≡ false
      → Commitment.from_bytes pk (mem.keys c_at) ≡ ok c
      → (b : Bool) × (verify_comsig pk (done f) blake256 c_at msg nonce u_at v_at err_code mem
          ≡ done (b, mem))
  unfolding verify_comsig
  verify_comsig_read mem c_at msg nonce u_at v_at err_code c full hc =
      let n₁ : is_null c_at ≡ false = ground arith in
      let n₂ : is_null msg ≡ false = ground arith in
      let n₃ : is_null nonce ≡ false = ground arith in
      let n₄ : is_null u_at ≡ false = ground arith in
      let n₅ : is_null v_at ≡ false = ground arith in
      elim (Result-cases (Commitment.from_bytes pk (mem.keys nonce))) [
        | inr (x, hr) ↦ (false, rw (full, n₁, ◌>>=◌, hc, n₃, hr) refl)
        | inl (r, hr) ↦ elim (Result-cases (sk.from_bytes (mem.keys u_at))) [
          | inr (x, hu) ↦ (false, rw (full, n₁, ◌>>=◌, hc, n₃, hr, n₄, hu) refl)
          | inl (u, hu) ↦ elim (Result-cases (sk.from_bytes (mem.keys v_at))) [
            | inr (x, hv) ↦ (false, rw (full, n₁, ◌>>=◌, hc, n₃, hr, n₄, hu, n₅, hv) refl)
            | inl (v, hv) ↦
                comsig_checked mem c_at msg nonce u_at v_at err_code c r u v full hc hr hu hv
          ]
        ]
      ]

  -- `verify` goes through a null pointer for no arguments, and answers. `verify_comsig`, with a
  -- factory, does so just when `err_code` is null and another argument is null too or the bytes of
  -- the commitment are not those of a point.
  pub verify_comsig-panic_iff :
      (mem : Memory) (c_at msg nonce u_at v_at err_code : ℕ)
      → ((p_at sig : ℕ)
          → (b : Bool) × (mem' : Memory) × (verify pk blake256 p_at msg nonce sig err_code mem
              ≡ done (b, mem')))
        × ((verify_comsig pk (done f) blake256 c_at msg nonce u_at v_at err_code mem ≡ panic) ↔ (
            (is_null err_code ≡ true)
            × (((is_null c_at || is_null msg || is_null nonce || is_null u_at || is_null v_at)
                  ≡ true)
                ⊎ ((e : ByteArrayError) × (Commitment.from_bytes pk (mem.keys c_at) ≡ err e)))))
  unfolding verify_comsig
  verify_comsig-panic_iff mem c_at msg nonce u_at v_at err_code = (
    λ p_at sig. verify_total mem p_at msg nonce sig err_code,
    elim (Bool-cases
        (is_null c_at || is_null msg || is_null nonce || is_null u_at || is_null v_at)) [
          | inl null ↦ elim (Bool-cases (is_null err_code)) [
            | inl e ↦ (λ h. (e, inl null), λ h. rw (null, e) refl)
            | inr e ↦ (
              λ h. absurd (ground (arith, rw (null, e) at h)),
              λ h. absurd (ground (arith, e, h.0)),
            )
          ]
          | inr full ↦
              let n₁ : is_null c_at ≡ false = ground arith in
              elim (Result-cases (Commitment.from_bytes pk (mem.keys c_at))) [
                | inl (c, hc) ↦
                    let (b, t) =
                      verify_comsig_read mem c_at msg nonce u_at v_at err_code c full hc in
                    (
                      λ h. absurd (ground (arith, h, t)),
                      λ h. elim h.1 [
                        | inl null ↦ absurd (ground (arith, full, null))
                        | inr (x, e) ↦ absurd (ground (arith, hc, e))
                      ],
                    )
                | inr (x, hc) ↦ elim (Bool-cases (is_null err_code)) [
                  | inl e ↦ (λ h. (e, inr (x, hc)), λ h. rw (full, n₁, ◌>>=◌, hc, e) refl)
                  | inr e ↦ (
                    λ h. absurd (ground (arith, rw (full, n₁, ◌>>=◌, hc, e) at h)),
                    λ h. absurd (ground (arith, e, h.0)),
                  )
                ]
              ]
        ],
  )
