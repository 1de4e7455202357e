-- ===== src/Tests/Ring.antt =====
-- A key ring over the two-element field, with bytes themselves as their text.
use tari_crypto.Base.{◌≡◌, refl, true, [], ◌∷◌, some, none}
use tari_crypto.Wasm.Hex.{Text, Hex, read}
use tari_crypto.Wasm.KeyUtils.{secret_from_hex, check_signature}
use tari_crypto.Wasm.KeyRing.{KeyRing, new_key, public_key, sign}
use tari_crypto.Wasm.RingLaws.{ring_sign-check}
use tari_crypto.Wasm.ComSigUtils.{sign_comsig, check_comsig_signature, commitment_to_hex}
use tari_crypto.Wasm.ComSigChecks.{sign_comsig-check}
use tari_crypto.Ristretto.Keys
use tari_crypto.Tests.Field.{encode}
use tari_crypto.Tests.Externals.{any_bit, any_bit_laws}
use tari_crypto.Tests.Inputs.{K, P, keys, keys_laws, k₀, k₁, p₁, commitments, commitments_laws}

abbrev pub verbatim : Hex
verbatim = record { to_hex = λ b. b; from_hex = λ t. some t; from_hex-to_hex = λ b. refl }

abbrev alice : Text
alice = 97 ∷ []

abbrev message : Text
message = 1 ∷ []

abbrev ring : KeyRing K P
ring = record { factory = commitments; keys = (alice, (k₁, p₁)) ∷ [] }

secret_size : keys.secret.key_length ≡ 32
unfolding keys
secret_size = refl

public_size : keys.key_length ≡ 32
unfolding keys
public_size = refl

ring_sign-check_example :
    (nonce signature public : Text) × (sign keys verbatim any_bit
        (new_key keys ring alice k₁).0
        alice
        message
        k₀
      ≡ record { public_nonce = some nonce; signature = some signature; error = none })
    × (public_key keys verbatim (new_key keys ring alice k₁).0 alice ≡ some public)
    × (check_signature keys verbatim any_bit nonce signature public message
        ≡ record { result = true; error = none })
ring_sign-check_example =
    ring_sign-check keys_laws verbatim any_bit any_bit_laws refl secret_size public_size ring alice
      message k₁ k₀

one : Text
one = encode true

one_read : secret_from_hex keys verbatim one ≡ some k₁
unfolding one keys Keys.public_key Keys.secret_key Keys.secret_from_bytes secret_from_hex read
one_read = refl

sign_comsig-check_example :
    (nonce u v : Text) × (sign_comsig keys verbatim commitments any_bit one one message k₀ k₁
      ≡ record { public_nonce = some nonce; u = some u; v = some v; error = none })
    × (check_comsig_signature keys verbatim commitments any_bit nonce u v
          (commitment_to_hex keys verbatim commitments (commitments.commit k₁ k₁))
          message
        ≡ record { result = true; error = none })
sign_comsig-check_example =
    sign_comsig-check keys_laws verbatim commitments commitments_laws any_bit any_bit_laws refl
      secret_size public_size one one message k₁ k₁ k₀ k₁ one_read one_read
