-- ===== src/Wasm/KeyUtils.antt =====
-- src/wasm/key_utils.rs: keys and Schnorr signatures. An error text is its kind with the texts that
-- it quotes; none is the empty text. The keys drawn at random are arguments.
use tari_crypto.Base.{Bool, false, Option, none, some, ok, err, Bytes}
use tari_crypto.Keys.{PublicKey}
use tari_crypto.External.{Digest, digest}
use tari_crypto.Signatures.Schnorr
use tari_crypto.Wasm.Hex.{Text, Hex, read}

pub data ErrorText : Type 0 where
  invalid_private_key invalid_private_key_a invalid_private_key_x invalid_private_nonce : ErrorText
  invalid_private_nonce_1 invalid_private_nonce_2 challenge_not_hex : ErrorText
  could_not_sign : ErrorText
  not_public_nonce not_public_key not_signature not_commitment : Text → ErrorText
  no_private_key no_private_nonce : Text → ErrorText

pub record SignatureVerifyResult : Type 0 where
  pub result : Bool
  pub error : Option ErrorText

pub record SignResult : Type 0 where
  pub public_nonce : Option Text
  pub signature : Option Text
  pub error : Option ErrorText

-- `SignResult::default()` with an error, and with none.
abbrev pub sign_error : ErrorText → SignResult
sign_error e = record { public_nonce = none; signature = none; error = some e }

abbrev pub sign_default : SignResult
sign_default = record { public_nonce = none; signature = none; error = none }

abbrev pub verify_error : ErrorText → SignatureVerifyResult
verify_error e = record { result = false; error = some e }

module _ {K P : Type 0} (pk : PublicKey K P) (hex : Hex) where
  open pk use {secret as sk}

  unfoldable pub secret_from_hex : Text → Option K
  unfolding read
  secret_from_hex text = read hex sk.from_bytes text

  unfoldable pub public_from_hex : Text → Option P
  unfolding read
  public_from_hex text = read hex pk.from_bytes text

  unfoldable pub secret_to_hex : K → Text
  secret_to_hex k = hex.to_hex (sk.as_bytes k)

  unfoldable pub public_to_hex : P → Text
  public_to_hex p = hex.to_hex (pk.as_bytes p)

  unfoldable pub pubkey_from_secret : Text → Option Text
  pubkey_from_secret k = elim (secret_from_hex k) [
    | some k' ↦ some (public_to_hex (pk.from_secret_key k'))
    | none ↦ none
  ]

  -- Writes into the result that the caller passes.
  unfoldable pub sign_with_key : K → Bytes → Option K → K → SignResult → SignResult
  sign_with_key k e r drawn result =
      let r' : K = elim r [ some r ↦ r | none ↦ drawn ] in
      let big_r = pk.from_secret_key r' in
      elim (Schnorr.sign pk k r' e) [
        | err _ ↦ record result { error = some could_not_sign }
        | ok sig ↦ record result {
          public_nonce = some (public_to_hex big_r);
          signature = some (secret_to_hex sig.signature);
        }
      ]

  unfoldable pub sign_challenge_with_nonce : Text → Text → Text → K → SignResult
  sign_challenge_with_nonce private_key private_nonce challenge_as_hex drawn =
      elim (secret_from_hex private_key) [
        | none ↦ sign_error invalid_private_key
        | some k ↦ elim (secret_from_hex private_nonce) [
          | none ↦ sign_error invalid_private_nonce
          | some r ↦ elim (hex.from_hex challenge_as_hex) [
            | none ↦ sign_error challenge_not_hex
            | some e ↦ sign_with_key k e (some r) drawn sign_default
          ]
        ]
      ]

  module _ (blake256 : Digest) where
    unfoldable pub sign_message_with_key : K → Text → Option K → K → SignResult → SignResult
    unfolding digest
    sign_message_with_key k msg r drawn result =
        let e = digest blake256 msg in sign_with_key k e r drawn result

    unfoldable pub sign : Text → Text → K → SignResult
    sign private_key msg drawn = elim (secret_from_hex private_key) [
      | none ↦ sign_error invalid_private_key
      | some k ↦ sign_message_with_key k msg none drawn sign_default
    ]

    unfoldable pub check_signature : Text → Text → Text → Text → SignatureVerifyResult
    unfolding digest
    check_signature pub_nonce signature pub_key msg = elim (public_from_hex pub_nonce) [
      | none ↦ verify_error (not_public_nonce pub_nonce)
      | some r ↦ elim (public_from_hex pub_key) [
        | none ↦ verify_error (not_public_key pub_key)
        | some p ↦ elim (secret_from_hex signature) [
          | none ↦ verify_error (not_signature signature)
          | some s ↦
              let sig = Schnorr.new r s in
              record {
                result = Schnorr.verify_challenge pk sig p (digest blake256 msg);
                error = none;
              }
        ]
      ]
    ]

  -- `JsValue::from_bool(false)` is `none`.
  unfoldable pub add_secret_keys : Text → Text → Option K
  add_secret_keys private_key_a private_key_b = elim (secret_from_hex private_key_a) [
    | none ↦ none
    | some k_a ↦ elim (secret_from_hex private_key_b) [
      | none ↦ none
      | some k_b ↦ some (sk.add k_a k_b)
    ]
  ]

  unfoldable pub subtract_secret_keys : Text → Text → Option K
  subtract_secret_keys private_key_a private_key_b = elim (secret_from_hex private_key_a) [
    | none ↦ none
    | some k_a ↦ elim (secret_from_hex private_key_b) [
      | none ↦ none
      | some k_b ↦ some (sk.sub k_a k_b)
    ]
  ]

  unfoldable pub multiply_secret_keys : Text → Text → Option K
  multiply_secret_keys private_key_a private_key_b = elim (secret_from_hex private_key_a) [
    | none ↦ none
    | some k_a ↦ elim (secret_from_hex private_key_b) [
      | none ↦ none
      | some k_b ↦ some (sk.mul k_a k_b)
    ]
  ]

  unfoldable pub generate_keypair : K → Text × Text
  generate_keypair drawn = (secret_to_hex drawn, public_to_hex (pk.from_secret_key drawn))

  unfoldable pub pubkey_from_hex : Text → Option P
  pubkey_from_hex text = public_from_hex text

  unfoldable pub secret_key_from_hex_bytes : Text → Option K
  secret_key_from_hex_bytes private_key_hex = secret_from_hex private_key_hex
