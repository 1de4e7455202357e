-- ===== src/Wasm/ComSigChecks.antt =====
-- src/wasm/key_utils.rs: what JavaScript programs get from signing for commitments and checking.
use tari_crypto.Base.{◌≡◌, refl, sym, true, none, some}
use tari_crypto.Keys.{PublicKey}
use tari_crypto.Keys.Laws.{KeyLaws}
use tari_crypto.External.{Digest, DigestLaws}
use tari_crypto.Commitment.{HomomorphicCommitment, HomomorphicCommitmentFactory}
use tari_crypto.Commitment
use tari_crypto.Commitment.Laws.{FactoryLaws}
use tari_crypto.Signatures.CommitmentSignature
use tari_crypto.Signatures.CommitmentSignature.{CommitmentSignature}
use tari_crypto.Ffi.Signing.{hashed}
use tari_crypto.Ffi.Comsig.{comsig_signed, comsig_verify-congr}
use tari_crypto.Wasm.Hex.{Text, Hex, read}
use tari_crypto.Wasm.KeyUtils.{secret_from_hex, secret_to_hex}
use tari_crypto.Wasm.Checks.{secret_from_hex-to_hex}
use tari_crypto.Wasm.ComSigUtils.{
  commitment_from_hex, commitment_to_hex, sign_comsig, sign_comsig_with_key,
  sign_comsig_message_with_key, check_comsig_signature,
}

module _ {K P : Type 0} {pk : PublicKey K P} (laws : KeyLaws pk) (hex : Hex)
    (f : HomomorphicCommitmentFactory K P) (fl : FactoryLaws laws f) (blake256 : Digest)
    (dl : DigestLaws blake256) (output : blake256.output_size ≡ 32)
    (secret_size : pk.secret.key_length ≡ 32) (public_size : pk.key_length ≡ 32) where
  open laws use {value}

  commitment_from_hex-to_hex :
      (c : HomomorphicCommitment P)
      → (c' : HomomorphicCommitment P) × (commitment_from_hex pk hex f
            (commitment_to_hex pk hex f c)
          ≡ some c')
        × (value c'.point ≡ value c.point)
  unfolding commitment_from_hex commitment_to_hex read Commitment.from_bytes Commitment.as_bytes
  commitment_from_hex-to_hex c =
      let (q, e, same) = laws.public_round_trip c.point in
      (record { point = q }, rw (read, hex.from_hex-to_hex, Commitment.from_bytes, e) refl, same)

  -- For a hash and keys of 32 bytes and a factory that keeps its contract: signing a message with
  -- the texts of two secret keys has no error, and checking the three texts against the message
  -- and the commitment to the two secrets answers true.
  pub sign_comsig-check :
      (a_text x_text msg : Text) (a x drawn_1 drawn_2 : K)
      → secret_from_hex pk hex a_text ≡ some a
      → secret_from_hex pk hex x_text ≡ some x
      → (nonce u v : Text) × (sign_comsig pk hex f blake256 a_text x_text msg drawn_1 drawn_2
          ≡ record { public_nonce = some nonce; u = some u; v = some v; error = none })
        × (check_comsig_signature pk hex f blake256 nonce u v
              (commitment_to_hex pk hex f (f.commit x a))
              msg
            ≡ record { result = true; error = none })
  unfolding sign_comsig sign_comsig_message_with_key sign_comsig_with_key check_comsig_signature
      CommitmentSignature.verify_challenge CommitmentSignature.new
  sign_comsig-check a_text x_text msg a x r_1 r_2 ha hx =
      let (e, h) = hashed laws blake256 dl output secret_size public_size msg in
      let (sig, t, v) =
        comsig_signed laws f fl blake256 dl output secret_size public_size a x r_2 r_1 msg e h in
      let (r, hr, same_r) = commitment_from_hex-to_hex sig.public_nonce in
      let (c, hc, same_c) = commitment_from_hex-to_hex (f.commit x a) in
      let ok_verify =
        comsig_verify-congr laws f fl blake256 dl output secret_size public_size sig
          (CommitmentSignature.new r sig.u sig.v) (f.commit x a) c e (sym same_r) refl refl
          (sym same_c) v in
      (
        commitment_to_hex pk hex f sig.public_nonce,
        secret_to_hex pk hex sig.u,
        secret_to_hex pk hex sig.v,
        rw (sign_comsig, ha, hx, sign_comsig_with_key, t) refl,
        rw
            (
              check_comsig_signature,
              hr,
              hc,
              secret_from_hex-to_hex laws hex sig.u,
              secret_from_hex-to_hex laws hex sig.v,
              CommitmentSignature.verify_challenge,
              h,
              ok_verify,
            )
            refl,
      )
