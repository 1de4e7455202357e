-- ===== src/Wasm/ComSigUtils.antt =====
-- src/wasm/key_utils.rs: signatures for commitments, in hexadecimal.
use tari_crypto.Base.{Option, none, some, ok, err, Bytes}
use tari_crypto.Keys.{PublicKey}
use tari_crypto.External.{Digest, digest}
use tari_crypto.Commitment.{HomomorphicCommitment, HomomorphicCommitmentFactory}
use tari_crypto.Commitment
use tari_crypto.Signatures.CommitmentSignature
use tari_crypto.Wasm.Hex.{Text, Hex, read}
use tari_crypto.Wasm.KeyUtils.{
  ErrorText, invalid_private_key, invalid_private_key_a, invalid_private_key_x,
  invalid_private_nonce_1, invalid_private_nonce_2, challenge_not_hex, could_not_sign,
  not_public_nonce, not_commitment, not_signature, SignatureVerifyResult, verify_error,
  secret_from_hex, secret_to_hex,
}

pub record ComSignResult : Type 0 where
  pub public_nonce : Option Text
  pub u : Option Text
  pub v : Option Text
  pub error : Option ErrorText

abbrev pub comsign_default : ComSignResult
comsign_default = record { public_nonce = none; u = none; v = none; error = none }

abbrev pub comsign_error : ErrorText → ComSignResult
comsign_error e = record { public_nonce = none; u = none; v = none; error = some e }

-- `factory` is `PedersenCommitmentFactory::default()`.
module _ {K P : Type 0} (pk : PublicKey K P) (hex : Hex)
    (factory : HomomorphicCommitmentFactory K P) where
  open pk use {secret as sk}

  unfoldable pub commitment_from_hex : Text → Option (HomomorphicCommitment P)
  unfolding read Commitment.from_bytes
  commitment_from_hex text = read hex (Commitment.from_bytes pk) text

  unfoldable pub commitment_to_hex : HomomorphicCommitment P → Text
  unfolding Commitment.as_bytes
  commitment_to_hex c = hex.to_hex (Commitment.as_bytes pk c)

  -- The nonces drawn at random stand behind the ones that may be given.
  unfoldable pub sign_comsig_with_key :
      K → K → Bytes → Option K → Option K → K → K → ComSignResult → ComSignResult
  sign_comsig_with_key private_key_a private_key_x e nonce_1 nonce_2 drawn_1 drawn_2 result =
      let r_1 : K = elim nonce_1 [ some v ↦ v | none ↦ drawn_1 ] in
      let r_2 : K = elim nonce_2 [ some v ↦ v | none ↦ drawn_2 ] in
      elim (CommitmentSignature.sign pk private_key_a private_key_x r_2 r_1 e factory) [
        | err _ ↦ record result { error = some could_not_sign }
        | ok sig ↦ record result {
          public_nonce = some (commitment_to_hex sig.public_nonce);
          u = some (secret_to_hex pk hex sig.u);
          v = some (secret_to_hex pk hex sig.v);
        }
      ]

  unfoldable pub sign_comsig_challenge_with_nonce :
      Text → Text → Text → Text → Text → K → K → ComSignResult
  sign_comsig_challenge_with_nonce key_a key_x nonce_1 nonce_2 challenge_as_hex drawn_1 drawn_2 =
      elim (secret_from_hex pk hex key_a) [
        | none ↦ comsign_error invalid_private_key_a
        | some a ↦ elim (secret_from_hex pk hex key_x) [
          | none ↦ comsign_error invalid_private_key_x
          | some x ↦ elim (secret_from_hex pk hex nonce_1) [
            | none ↦ comsign_error invalid_private_nonce_1
            | some r_1 ↦ elim (secret_from_hex pk hex nonce_2) [
              | none ↦ comsign_error invalid_private_nonce_2
              | some r_2 ↦ elim (hex.from_hex challenge_as_hex) [
                | none ↦ comsign_error challenge_not_hex
                | some e ↦
                    sign_comsig_with_key a x e (some r_1) (some r_2) drawn_1 drawn_2 comsign_default
              ]
            ]
          ]
        ]
      ]

  module _ (blake256 : Digest) where
    unfoldable pub sign_comsig_message_with_key :
        K → K → Text → Option K → Option K → K → K → ComSignResult → ComSignResult
    unfolding digest
    sign_comsig_message_with_key a x msg nonce_1 nonce_2 drawn_1 drawn_2 result =
        sign_comsig_with_key a x (digest blake256 msg) nonce_1 nonce_2 drawn_1 drawn_2 result

    unfoldable pub sign_comsig : Text → Text → Text → K → K → ComSignResult
    sign_comsig private_key_a private_key_x msg drawn_1 drawn_2 =
        elim (secret_from_hex pk hex private_key_a) [
          | none ↦ comsign_error invalid_private_key
          | some a ↦ elim (secret_from_hex pk hex private_key_x) [
            | none ↦ comsign_error invalid_private_key
            | some x ↦
                sign_comsig_message_with_key a x msg none none drawn_1 drawn_2 comsign_default
          ]
        ]

    unfoldable pub check_comsig_signature : Text → Text → Text → Text → Text → SignatureVerifyResult
    unfolding digest
    check_comsig_signature pub_nonce_commitment signature_u signature_v commitment msg =
        elim (commitment_from_hex pub_nonce_commitment) [
          | none ↦ verify_error (not_public_nonce pub_nonce_commitment)
          | some r ↦ elim (commitment_from_hex commitment) [
            | none ↦ verify_error (not_commitment commitment)
            | some c ↦ elim (secret_from_hex pk hex signature_u) [
              | none ↦ verify_error (not_signature signature_u)
              | some u ↦ elim (secret_from_hex pk hex signature_v) [
                | none ↦ verify_error (not_signature signature_v)
                | some v ↦
                    let sig = CommitmentSignature.new r u v in
                    record {
                      result =
                          CommitmentSignature.verify_challenge pk sig c (digest blake256 msg)
                            factory;
                      error = none;
                    }
              ]
            ]
          ]
        ]
