-- ===== src/Tests/Formats.antt =====
-- Formats, hashers and the signing helper over the two-element field.
use mathlib.Core.List.{append-nil, append_assoc}
use tari_crypto.Base.{
  ℕ, ◌≡◌, refl, ap, ◌⊎◌, true, [], ◌∷◌, ◌++◌, Bytes, length, length-replicate, replicate, Option,
  none, some, ok, err, done, arith, List, All, inl,
}
use tari_crypto.Keys.{ByteArrayError}
use tari_crypto.External.{Hasher}
use tari_crypto.Wasm.KeyUtils.{secret_to_hex, public_to_hex}
use tari_crypto.Ristretto.Keys.{
  secret_as_bytes, public_key, secret_key, secret_eq, public_eq, as_bytes, compressed, new_from_pk,
}
use tari_crypto.Ristretto.Serialize.{
  Format, FormatLaws, serialize_secret, serialize_public, deserialize_secret, deserialize_public,
  deserialize-serialize,
}
use tari_crypto.Ristretto.Conversions.{
  secret_hash, public_hash, hashable, display, debug, into_point, into_compressed, key_hash-eq,
}
use tari_crypto.Ristretto.Utils.{SignatureSet, utils_sign-verify_challenge}
use tari_crypto.Ristretto.Utils
use tari_crypto.Signatures.Schnorr
use tari_crypto.Hash.Blake2.{
  VarBlake2b, VarBlake2bLaws, Blake256, Call, give, clear, finish, IsSized, digests, runs, default,
  update, finalize_into, blake256-refines,
}
use tari_crypto.Tests.Field.{two, two_laws, encode}
use tari_crypto.Tests.Externals.{any_bit}
use tari_crypto.Tests.Inputs.{K, P, keys, keys_laws, k₀, k₁, p₁}
use tari_crypto.Tests.Ring.{verbatim}

abbrev unmark : Bytes → Option Bytes
unmark [] = none
unmark (x ∷ xs) = some xs

-- A format for people, that writes a byte before the text.
abbrev readable : Format
readable = record {
  Out = Bytes;
  is_human_readable = true;
  serialize_str = λ t. some (34 ∷ t);
  serialize_bytes = λ b. some (35 ∷ b);
  deserialize_string = unmark;
  deserialize_bytes = unmark;
}

readable_laws : FormatLaws readable
readable_laws = record {
  string_round_trip = λ t o h. ground (arith, h);
  bytes_round_trip = λ b o h. ground (arith, h);
}

written_secret : serialize_secret keys verbatim readable k₁ ≡ some (34 ∷ encode true)
unfolding serialize_secret keys public_key secret_key secret_as_bytes secret_to_hex
written_secret = refl

written_public : serialize_public keys verbatim readable p₁ ≡ some (34 ∷ encode true)
unfolding serialize_public keys public_key as_bytes compressed p₁ new_from_pk public_to_hex
written_public = refl

deserialize-serialize_example :
    (deserialize_secret keys verbatim readable (34 ∷ encode true) ≡ ok k₁)
    × (q : P) × (deserialize_public keys verbatim readable (34 ∷ encode true) ≡ ok q)
    × (keys.eq q p₁ ≡ true)
deserialize-serialize_example =
    deserialize-serialize keys_laws verbatim readable readable_laws k₁ p₁ (34 ∷ encode true)
      (34 ∷ encode true) written_secret written_public

utils_sign-verify_challenge_example :
    ((e : ByteArrayError) × (keys.secret.from_bytes (
          any_bit.finalize (
            any_bit.chain
              (any_bit.chain any_bit.new (keys.as_bytes (keys.from_secret_key k₀)))
              (7 ∷ [])))
        ≡ err e)
      × (Utils.sign keys any_bit k₁ (7 ∷ []) k₀ ≡ err Schnorr.invalid_challenge))
    ⊎ ((e : K) × (s : SignatureSet K P) × (keys.secret.from_bytes (
            any_bit.finalize (
              any_bit.chain
                (any_bit.chain any_bit.new (keys.as_bytes (keys.from_secret_key k₀)))
                (7 ∷ [])))
          ≡ ok e)
        × (Utils.sign keys any_bit k₁ (7 ∷ []) k₀ ≡ ok s)
        × (s.nonce ≡ k₀)
        × (s.public_nonce ≡ keys.from_secret_key k₀)
        × (s.message
            ≡ any_bit.finalize (
                any_bit.chain
                  (any_bit.chain any_bit.new (keys.as_bytes (keys.from_secret_key k₀)))
                  (7 ∷ [])))
        × (s.signature.public_nonce ≡ s.public_nonce)
        × (Schnorr.verify_challenge keys s.signature (keys.from_secret_key k₁) s.message ≡ true))
utils_sign-verify_challenge_example = utils_sign-verify_challenge keys_laws any_bit k₁ k₀ (7 ∷ [])

-- A hasher that keeps what it is given.
abbrev kept : Hasher
kept = record { State = Bytes; write = λ s b. s ++ b; hash_slice = λ s b. s ++ b }

same_secret : secret_eq {dk = two} k₁ k₁ ≡ true
unfolding secret_eq
same_secret = refl

same_public : public_eq p₁ (compressed p₁).1 ≡ true
unfolding public_eq compressed p₁ new_from_pk
same_public = refl

-- A public key, and the same key with its cache filled.
key_hash-eq_example :
    (secret_hash {dk = two} kept k₁ [] ≡ secret_hash kept k₁ [])
    × (public_hash kept p₁ [] ≡ public_hash kept (compressed p₁).1 [])
    × (hashable any_bit p₁ ≡ hashable any_bit (compressed p₁).1)
    × (display verbatim p₁ ≡ display verbatim (compressed p₁).1)
    × (debug verbatim p₁ ≡ debug verbatim (compressed p₁).1)
    × (into_point p₁ ≡ into_point (compressed p₁).1)
    × (into_compressed p₁ ≡ into_compressed (compressed p₁).1)
key_hash-eq_example =
    key_hash-eq two_laws kept any_bit verbatim [] k₁ k₁ p₁ (compressed p₁).1 same_secret same_public

-- A hash of `n` bytes that only tells whether a byte other than 0 was given.
pub record Kept : Type 0 where
  pub size : ℕ
  pub input : Bytes

abbrev plain_blake : VarBlake2b
plain_blake = record {
  State = Kept;
  new = λ n. some (record { size = n; input = [] });
  with_params = λ key salt persona n. some (record { size = n; input = [] });
  update = λ s b. record { size = s.size; input = s.input ++ b };
  reset = λ s. record { size = s.size; input = [] };
  finalize_variable = λ s. replicate s.size 0;
  finalize_variable_reset = λ s. (replicate s.size 0, record { size = s.size; input = [] });
}

plain_blake_laws : VarBlake2bLaws plain_blake
plain_blake_laws = record {
  size = λ s. s.size;
  initial = λ s. record { size = s.size; input = [] };
  new_total = λ n h k. (record { size = n; input = [] }, refl, refl, refl);
  with_params_lem = λ key salt persona n s e. ground (arith, e);
  size-update = λ s b. refl;
  initial-update = λ s b. refl;
  update-update = λ s a b.
      ap (λ (i : Bytes). let r : Kept = record { size = s.size; input = i } in r)
        (append_assoc s.input a b);
  update_nil = λ s.
      ap (λ (i : Bytes). let r : Kept = record { size = s.size; input = i } in r)
        (append-nil s.input);
  reset_lem = λ s. refl;
  finalize_length = λ s. length-replicate s.size 0;
  finalize_reset_lem = λ s. refl;
}

unfoldable fresh : Blake256 plain_blake
fresh = record { hasher = record { size = 32; input = [] } }

fresh_made : default ≡ done fresh
unfolding default fresh
fresh_made = refl

abbrev finishing : List Call
finishing =
    give (1 ∷ [])
    ∷ clear
    ∷ give (2 ∷ [])
    ∷ give (3 ∷ [])
    ∷ finish (replicate 32 9)
    ∷ give (4 ∷ [])
    ∷ finish (replicate 32 8)
    ∷ []

finishing-IsSized : All IsSized finishing
finishing-IsSized = (tt, (tt, (tt, (tt, (refl, (tt, (refl, tt)))))))

blake256-refines_example :
    (hash : (Bytes → Bytes)) × ((b : Bytes) → length (hash b) ≡ 32)
    × ((b out : Bytes) → length out ≡ 32 → finalize_into (update fresh b) out ≡ done (hash b))
    × (runs fresh finishing ≡ done (digests hash [] finishing))
blake256-refines_example =
    blake256-refines plain_blake plain_blake_laws [] [] [] fresh finishing (inl fresh_made)
      finishing-IsSized
