-- ===== src/Tests/Calls.antt =====
-- Calls from C over the two-element field.
use tari_crypto.Base.{
  ℕ, Bool, err, ◌||◌, ◌↔◌, false, ◌==◌, ◌<◌, ◌≡◌, ◌⊎◌, refl, true, false, Bytes, [], ◌∷◌, some, ok,
  done, panic, ltb, length, if◌then◌else◌,
}
use tari_crypto.Keys.{ByteArrayError}
use tari_crypto.Commitment.{HomomorphicCommitment}
use tari_crypto.Commitment
use tari_crypto.Ristretto.Keys.{
  secret_key, public_key, secret_from_bytes, as_bytes, compressed, from_secret_key, new_from_pk,
}
use tari_crypto.Ristretto.Pedersen.{commitment_factory, commit}
use tari_crypto.Ffi.Memory.{
  ℤ, pos, ok_code, null_pointer, buffer_too_small, str_conv_err, Memory, is_null,
}
use tari_crypto.Ffi.Keys.{sign, verify, commitment, sign_comsig, verify_comsig}
use tari_crypto.Ffi.Error.{get_error_message, lookup_error_message}
use tari_crypto.Ffi.Lookup.{c_string, lookup_error_message_lem}
use tari_crypto.Ffi.Signing.{ffi_sign-verify}
use tari_crypto.Ffi.Nulls.{ffi_sign_total, ffi_commitment-open}
use tari_crypto.Ffi.Panics.{ffi_commitment-panic_iff, verify_comsig-panic_iff}
use tari_crypto.Ffi.Comsig.{ffi_sign_comsig-verify_comsig}
use tari_crypto.Tests.Field.{encode}
use tari_crypto.Tests.Externals.{any_bit, any_bit_laws}
use tari_crypto.Tests.Inputs.{P, keys, keys_laws, k₀, k₁, factory, commitments, commitments_laws}

-- The secret key 1 at address 1, its public key at 2, the commitment to the value 1 with the
-- blinding factor 1 at 3; other arrays are 0. Each string is "A".
unfoldable memory : Memory
memory = record {
  keys = λ p. if p == 1 then encode true else if p == 2 then encode true else encode false;
  codes = λ p. pos 0;
  strings = λ p. some (65 ∷ []);
}

secret_size : keys.secret.key_length ≡ 32
unfolding keys
secret_size = refl

public_size : keys.key_length ≡ 32
unfolding keys
public_size = refl

key_at_one : keys.secret.from_bytes (memory.keys 1) ≡ ok k₁
unfolding keys public_key secret_key secret_from_bytes memory
key_at_one = refl

public_at_two : memory.keys 2 ≡ keys.as_bytes (keys.from_secret_key k₁)
unfolding keys public_key as_bytes compressed from_secret_key new_from_pk memory
public_at_two = refl

committed_at_three : memory.keys 3 ≡ Commitment.as_bytes keys (commitments.commit k₁ k₁)
unfolding keys public_key as_bytes compressed commitments commitment_factory factory commit
    new_from_pk Commitment.as_bytes memory
committed_at_three = refl

message_at : (p : ℕ) → memory.strings p ≡ some (65 ∷ [])
unfolding memory
message_at p = refl

ffi_sign-verify_example :
    (mem' : Memory) × (sign keys any_bit 1 9 4 5 k₁ memory ≡ done (ok_code, mem'))
    × (verify keys any_bit 2 9 4 5 7 mem' ≡ done (true, mem'))
ffi_sign-verify_example =
    ffi_sign-verify keys_laws any_bit any_bit_laws refl secret_size public_size memory 1 2 9 4 5 7
      k₁ k₁ (65 ∷ []) (refl, (refl, (refl, (refl, (refl, (refl, tt)))))) refl refl refl key_at_one
      (message_at 9) public_at_two

ffi_sign_comsig-verify_comsig_example :
    (mem' : Memory) × (sign_comsig keys (done commitments) any_bit 1 1 9 4 5 6 k₁ k₀ memory
      ≡ done (ok_code, mem'))
    × (verify_comsig keys (done commitments) any_bit 3 9 4 5 6 7 mem' ≡ done (true, mem'))
ffi_sign_comsig-verify_comsig_example =
    ffi_sign_comsig-verify_comsig keys_laws commitments commitments_laws any_bit any_bit_laws refl
      secret_size public_size memory 1 1 3 9 4 5 6 7 k₁ k₁ k₁ k₀ (65 ∷ [])
      (refl, (refl, (refl, (refl, (refl, (refl, (refl, tt))))))) (refl, refl, refl)
      (refl, refl, refl) key_at_one key_at_one (message_at 9) committed_at_three

size_at_one : length (memory.keys 1) ≡ 32
unfolding memory
size_at_one = refl

ffi_sign_total_example :
    (code : ℤ) × (mem' : Memory) × (sign keys any_bit 1 9 0 5 k₁ memory ≡ done (code, mem'))
    × ((code ≡ ok_code) ⊎ (((code ≡ null_pointer) ⊎ (code ≡ str_conv_err)) × (mem' ≡ memory)))
ffi_sign_total_example =
    ffi_sign_total keys_laws any_bit any_bit_laws refl secret_size public_size memory 1 9 0 5 k₁
      size_at_one

ffi_commitment-open_example :
    (mem' : Memory) × (c : HomomorphicCommitment P) × (commitment keys
        (done commitments)
        1
        1
        4
        memory
      ≡ done (ok_code, mem'))
    × (Commitment.from_bytes keys (mem'.keys 4) ≡ ok c)
    × (commitments.open_with k₁ k₁ c ≡ true)
ffi_commitment-open_example =
    ffi_commitment-open keys_laws commitments commitments_laws secret_size public_size memory 1 1 4
      k₁ k₁ refl refl refl key_at_one key_at_one

ffi_commitment-panic_iff_example :
    (commitment keys (done commitments) 1 1 0 memory ≡ panic)
    ↔ ((is_null 1 ≡ false) × (is_null 1 ≡ false) × (is_null 0 ≡ true))
ffi_commitment-panic_iff_example =
    ffi_commitment-panic_iff keys_laws commitments secret_size public_size memory 1 1 0 size_at_one
      size_at_one

verify_comsig-panic_iff_example :
    ((p_at sig : ℕ)
      → (b : Bool) × (mem' : Memory) × (verify keys any_bit p_at 0 4 sig 0 memory ≡ done (b, mem')))
    × ((verify_comsig keys (done commitments) any_bit 3 0 4 5 6 0 memory ≡ panic) ↔ (
        (is_null 0 ≡ true)
        × (((is_null 3 || is_null 0 || is_null 4 || is_null 5 || is_null 6) ≡ true)
            ⊎ ((e : ByteArrayError) × (Commitment.from_bytes keys (memory.keys 3) ≡ err e)))))
verify_comsig-panic_iff_example =
    verify_comsig-panic_iff keys commitments any_bit memory 3 0 4 5 6 0

abbrev small : Bytes
small = 0 ∷ 0 ∷ []

lookup_error_message_lem_example :
    ((length (get_error_message null_pointer) < length small)
      × ((lookup_error_message null_pointer false (pos 2) small).0
          ≡ pos (length (get_error_message null_pointer)))
      × (length (lookup_error_message null_pointer false (pos 2) small).1 ≡ 2)
      × (c_string (lookup_error_message null_pointer false (pos 2) small).1
          ≡ get_error_message null_pointer))
    ⊎ ((ltb (length (get_error_message null_pointer)) 2 ≡ false)
        × ((lookup_error_message null_pointer false (pos 2) small).0 ≡ buffer_too_small)
        × ((lookup_error_message null_pointer false (pos 2) small).1 ≡ small))
lookup_error_message_lem_example = lookup_error_message_lem null_pointer small
