-- ===== src/Ffi/Keys.antt =====
-- src/ffi/keys.rs, over any keys, commitment factory and digest in place of the Ristretto keys,
-- `PedersenCommitmentFactory::default()` and `Blake256`. The keys drawn at random are arguments.
use tari_crypto.Base.{ℕ, Bool, false, ◌||◌, none, some, ok, err, Run, done, ◌>>=◌, if◌then◌else◌}
use tari_crypto.Keys.{PublicKey}
use tari_crypto.External.{Digest, digest}
use tari_crypto.Commitment.{HomomorphicCommitment, HomomorphicCommitmentFactory}
use tari_crypto.Commitment
use tari_crypto.Signatures.Schnorr
use tari_crypto.Signatures.CommitmentSignature
use tari_crypto.Ffi.Memory.{
  ℤ, ok_code, null_pointer, invalid_secret_key_ser, signing_error, str_conv_err, Memory, is_null,
  read, read_string, write, write_code,
}

module _ {K P : Type 0} (pk : PublicKey K P) where
  open pk use {secret as sk}

  unfoldable pub random_keypair : ℕ → ℕ → K → Memory → Run (ℤ × Memory)
  unfolding write
  random_keypair priv_key pub_key drawn mem =
      if is_null priv_key
      then done (null_pointer, mem)
      else if is_null pub_key
      then (do mem' ← write mem priv_key (sk.as_bytes drawn); done (ok_code, mem'))
      else (do
        mem' ← write mem priv_key (sk.as_bytes drawn)
        mem'' ← write mem' pub_key (pk.as_bytes (pk.from_secret_key drawn))
        done (ok_code, mem''))

  module _ (blake256 : Digest) where
    unfoldable pub sign : ℕ → ℕ → ℕ → ℕ → K → Memory → Run (ℤ × Memory)
    unfolding read read_string write digest
    sign priv_key msg nonce signature drawn mem =
        if is_null nonce || is_null signature || is_null priv_key || is_null msg
        then done (null_pointer, mem)
        else read mem priv_key >>= λ bytes. elim (sk.from_bytes bytes) [
          | err _ ↦ done (invalid_secret_key_ser, mem)
          | ok k ↦ read_string mem msg >>= λ text. elim text [
            | none ↦ done (str_conv_err, mem)
            | some s ↦ elim (Schnorr.sign pk k drawn (digest blake256 s)) [
              | err _ ↦ done (signing_error, mem)
              | ok sig ↦ do
                mem' ← write mem nonce (pk.as_bytes sig.public_nonce)
                mem'' ← write mem' signature (sk.as_bytes sig.signature)
                done (ok_code, mem'')
            ]
          ]
        ]

    unfoldable pub verify : ℕ → ℕ → ℕ → ℕ → ℕ → Memory → Run (Bool × Memory)
    unfolding read read_string write_code digest
    verify pub_key msg pub_nonce signature err_code mem =
        if is_null pub_key
          || is_null msg
          || is_null pub_nonce
          || is_null signature
          || is_null err_code
        then (if is_null err_code
            then done (false, mem)
            else (do mem' ← write_code mem err_code null_pointer; done (false, mem')))
        else read mem pub_key >>= λ bytes. elim (pk.from_bytes bytes) [
          | err _ ↦ do mem' ← write_code mem err_code invalid_secret_key_ser; done (false, mem')
          | ok p ↦ read mem pub_nonce >>= λ bytes. elim (pk.from_bytes bytes) [
            | err _ ↦ done (false, mem)
            | ok r ↦ read mem signature >>= λ bytes. elim (sk.from_bytes bytes) [
              | err _ ↦ done (false, mem)
              | ok s ↦ read_string mem msg >>= λ text. elim text [
                | none ↦ done (false, mem)
                | some m ↦
                    let sig = Schnorr.new r s in
                    elim (sk.from_bytes (digest blake256 m)) [
                      | err _ ↦ done (false, mem)
                      | ok e ↦ done (Schnorr.verify pk sig p e, mem)
                    ]
              ]
            ]
          ]
        ]

  module _ (default_factory : Run (HomomorphicCommitmentFactory K P)) where
    -- `commitment` itself is not compared with null.
    unfoldable pub commitment : ℕ → ℕ → ℕ → Memory → Run (ℤ × Memory)
    unfolding read write Commitment.as_bytes
    commitment value spend_key commitment_out mem =
        if is_null value || is_null spend_key || is_null spend_key
        then done (null_pointer, mem)
        else read mem value >>= λ bytes. elim (sk.from_bytes bytes) [
          | err _ ↦ done (invalid_secret_key_ser, mem)
          | ok v ↦ read mem spend_key >>= λ bytes. elim (sk.from_bytes bytes) [
            | err _ ↦ done (invalid_secret_key_ser, mem)
            | ok k ↦ do
              factory ← default_factory
              mem' ← write mem commitment_out (Commitment.as_bytes pk (factory.commit k v))
              done (ok_code, mem')
          ]
        ]

    module _ (blake256 : Digest) where
      unfoldable pub sign_comsig : ℕ → ℕ → ℕ → ℕ → ℕ → ℕ → K → K → Memory → Run (ℤ × Memory)
      unfolding read read_string write digest Commitment.as_bytes
      sign_comsig secret_a secret_x msg public_nonce signature_u signature_v nonce_a nonce_x mem =
          if is_null secret_a
            || is_null secret_x
            || is_null msg
            || is_null public_nonce
            || is_null signature_u
            || is_null signature_v
          then done (null_pointer, mem)
          else read mem secret_a >>= λ bytes. elim (sk.from_bytes bytes) [
            | err _ ↦ done (invalid_secret_key_ser, mem)
            | ok a ↦ read mem secret_x >>= λ bytes. elim (sk.from_bytes bytes) [
              | err _ ↦ done (invalid_secret_key_ser, mem)
              | ok x ↦ read_string mem msg >>= λ text. elim text [
                | none ↦ done (str_conv_err, mem)
                | some s ↦ do
                  factory ← default_factory
                  let signed =
                      CommitmentSignature.sign pk a x nonce_a nonce_x (digest blake256 s) factory
                  elim signed [
                    | err _ ↦ done (signing_error, mem)
                    | ok sig ↦ do
                      mem₁ ← write mem public_nonce (Commitment.as_bytes pk sig.public_nonce)
                      mem₂ ← write mem₁ signature_u (sk.as_bytes sig.u)
                      mem₃ ← write mem₂ signature_v (sk.as_bytes sig.v)
                      done (ok_code, mem₃)
                  ]
              ]
            ]
          ]

      -- `err_code` is written without a comparison with null.
      unfoldable pub verify_comsig : ℕ → ℕ → ℕ → ℕ → ℕ → ℕ → Memory → Run (Bool × Memory)
      unfolding read read_string write_code digest Commitment.from_bytes
      verify_comsig commitment_in msg public_nonce signature_u signature_v err_code mem =
          if is_null commitment_in
            || is_null msg
            || is_null public_nonce
            || is_null signature_u
            || is_null signature_v
          then (do mem' ← write_code mem err_code null_pointer; done (false, mem'))
          else read mem commitment_in >>= λ bytes. elim (Commitment.from_bytes pk bytes) [
            | err _ ↦ do mem' ← write_code mem err_code invalid_secret_key_ser; done (false, mem')
            | ok c ↦ read mem public_nonce >>= λ bytes. elim (Commitment.from_bytes pk bytes) [
              | err _ ↦ done (false, mem)
              | ok r ↦ read mem signature_u >>= λ bytes. elim (sk.from_bytes bytes) [
                | err _ ↦ done (false, mem)
                | ok u ↦ read mem signature_v >>= λ bytes. elim (sk.from_bytes bytes) [
                  | err _ ↦ done (false, mem)
                  | ok v ↦ read_string mem msg >>= λ text. elim text [
                    | none ↦ done (false, mem)
                    | some m ↦
                        let sig = CommitmentSignature.new r u v in
                        elim (sk.from_bytes (digest blake256 m)) [
                          | err _ ↦ done (false, mem)
                          | ok e ↦ do
                            factory ← default_factory
                            done (CommitmentSignature.verify pk sig c e factory, mem)
                        ]
                  ]
                ]
              ]
            ]
          ]
