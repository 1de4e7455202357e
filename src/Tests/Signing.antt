-- ===== src/Tests/Signing.antt =====
-- Signatures, commitments and keys over the two-element field.
use tari_crypto.Base.{
  Bool, Bool-cases, ap, inl, inr, ◌≡◌, ◌≢◌, ◌⊎◌, refl, true, false, [], ◌∷◌, Bytes, length, ok, err,
}
use tari_crypto.Keys.{ByteArrayError, incorrect_length, conversion_error}
use tari_crypto.Commitment.{HomomorphicCommitment}
use tari_crypto.Commitment
use tari_crypto.Commitment.Laws.{add-commit}
use tari_crypto.Signatures.Schnorr.{SchnorrSignature}
use tari_crypto.Signatures.Schnorr
use tari_crypto.Signatures.Schnorr.Laws.{sign-verify_challenge, add-verify, sign_nonce_reuse}
use tari_crypto.Signatures.CommitmentSignature.{CommitmentSignature}
use tari_crypto.Signatures.CommitmentSignature
use tari_crypto.Signatures.CommitmentSignature.Laws.{
  SignOutcome, comsig_sign-verify_challenge, comsig_add-verify,
}
use tari_crypto.Ristretto.Keys.{
  public_from_bytes, as_bytes, public_eq, from_secret_key, new_from_pk, secret_from_bytes,
  secret_add, secret_sub, secret_mul, secret_mul_public, secret_key, public_key, public_add,
}
use tari_crypto.Ristretto.KeyLaws.{public_from_bytes_lem}
use tari_crypto.Ristretto.Pedersen.{open_with, commit, sum, commitment_factory}
use tari_crypto.Ristretto.PedersenLaws.{open-sum, total_key}
use tari_crypto.Tests.Field.{two, two_laws, encode}
use tari_crypto.Tests.Inputs.{
  K, P, keys, keys_laws, k₀, k₁, p₀, p₁, factory, commitments, commitments_laws,
}

abbrev one : Bytes
one = encode true

abbrev nil : Bytes
nil = encode false

-- `r + e.k` for the secret 1, the nonce 1 and the challenges 1 and 0.
unfoldable signed_one : SchnorrSignature P K
unfolding p₁
signed_one = record { public_nonce = p₁; signature = k₀ }

unfoldable signed_nil : SchnorrSignature P K
unfolding p₁
signed_nil = record { public_nonce = p₁; signature = k₁ }

signing_one : Schnorr.sign keys k₁ k₁ one ≡ ok signed_one
unfolding signed_one p₁ keys public_key secret_key Schnorr.sign Schnorr.new secret_from_bytes
    from_secret_key new_from_pk secret_add secret_mul
signing_one = refl

signing_nil : Schnorr.sign keys k₁ k₁ nil ≡ ok signed_nil
unfolding signed_nil p₁ keys public_key secret_key Schnorr.sign Schnorr.new secret_from_bytes
    from_secret_key new_from_pk secret_add secret_mul
signing_nil = refl

read_one : keys.secret.from_bytes one ≡ ok k₁
unfolding keys public_key secret_key secret_from_bytes
read_one = refl

read_nil : keys.secret.from_bytes nil ≡ ok k₀
unfolding keys public_key secret_key secret_from_bytes
read_nil = refl

verify_one : Schnorr.verify keys signed_one p₁ k₁ ≡ true
unfolding signed_one p₁ keys public_key secret_key Schnorr.verify Schnorr.calc_signature_verifier
    public_add public_eq secret_mul_public from_secret_key new_from_pk
verify_one = refl

sign-verify_challenge_example :
    ((e : ByteArrayError) × (keys.secret.from_bytes one ≡ err e)
      × (Schnorr.sign keys k₁ k₁ one ≡ err Schnorr.invalid_challenge)
      × ((s : SchnorrSignature P K) (p : P) → Schnorr.verify_challenge keys s p one ≡ false))
    ⊎ ((e : K) × (s : SchnorrSignature P K) × (keys.secret.from_bytes one ≡ ok e)
        × (Schnorr.sign keys k₁ k₁ one ≡ ok s)
        × (Schnorr.verify_challenge keys s (keys.from_secret_key k₁) one ≡ true)
        × (Schnorr.verify keys s (keys.from_secret_key k₁) e ≡ true))
sign-verify_challenge_example = sign-verify_challenge keys_laws k₁ k₁ one

add-verify_example :
    Schnorr.verify keys (Schnorr.add keys signed_one signed_one) (keys.add p₁ p₁) k₁ ≡ true
add-verify_example = add-verify keys_laws signed_one signed_one p₁ p₁ k₁ verify_one verify_one

one_inverse : (x : K) → keys.secret.mul k₁ (keys.secret.mul (keys.secret.sub k₁ k₀) x) ≡ x
unfolding keys secret_key secret_mul secret_sub
one_inverse x = elim (Bool-cases x.scalar) [
  | inl h ↦ ap (λ (b : Bool). let k : K = record { scalar = b } in k) (rw h refl)
  | inr h ↦ ap (λ (b : Bool). let k : K = record { scalar = b } in k) (rw h refl)
]

sign_nonce_reuse_example :
    (signed_one.public_nonce ≡ signed_nil.public_nonce)
    × (signed_one.signature
        ≡ keys.secret.add (keys.secret.mul (keys.secret.sub k₁ k₀) k₁) signed_nil.signature)
    × (keys.secret.mul k₁ (keys.secret.sub signed_one.signature signed_nil.signature) ≡ k₁)
    × (keys.secret.sub signed_one.signature (
          keys.secret.mul k₁
            (keys.secret.mul k₁ (keys.secret.sub signed_one.signature signed_nil.signature)))
        ≡ k₁)
sign_nonce_reuse_example =
    sign_nonce_reuse keys_laws k₁ k₁ k₁ k₀ k₁ one nil read_one read_nil signing_one signing_nil
      one_inverse

-- The commitment signature of the value 1 and the blinding factor 1, with both nonces 1.
unfoldable comsig : CommitmentSignature P K
unfolding p₀
comsig = record { public_nonce = record { point = p₀ }; u = k₀; v = k₀ }

unfoldable committed : HomomorphicCommitment P
unfolding p₀
committed = record { point = p₀ }

comsig_one : CommitmentSignature.verify keys comsig committed k₁ commitments ≡ true
unfolding comsig committed p₀ keys commitments factory commitment_factory commit public_key
    secret_key CommitmentSignature.verify CommitmentSignature.calc_signature_verifier Commitment.add
    Commitment.mul Commitment.eq Commitment.as_public_key Commitment.from_public_key public_add
    public_eq secret_mul_public new_from_pk
comsig_one = refl

comsig_sign-verify_challenge_example :
    SignOutcome keys_laws commitments commitments_laws k₁ k₁ k₁ k₁ one
comsig_sign-verify_challenge_example =
    comsig_sign-verify_challenge keys_laws commitments commitments_laws k₁ k₁ k₁ k₁ one

comsig_add-verify_example :
    CommitmentSignature.verify keys
      (CommitmentSignature.add keys comsig comsig)
      (Commitment.add keys committed committed)
      k₁
      commitments
    ≡ true
comsig_add-verify_example =
    comsig_add-verify keys_laws commitments commitments_laws comsig comsig committed committed k₁
      comsig_one comsig_one

add-commit_example :
    Commitment.eq keys
      (Commitment.add keys (commitments.commit k₁ k₀) (commitments.commit k₁ k₁))
      (commitments.commit (keys.secret.add k₁ k₁) (keys.secret.add k₀ k₁))
    ≡ true
add-commit_example = add-commit keys_laws commitments commitments_laws k₁ k₀ k₁ k₁

public_from_bytes_lem_example :
    (length one ≢ 32 → public_from_bytes two_laws one ≡ err incorrect_length)
    × (length one ≡ 32
        → ((x : Bool) → two.compress x ≢ one)
        → public_from_bytes two_laws one ≡ err conversion_error)
    × ((x : Bool)
        → two.compress x ≡ one
        → (q : P) × (public_from_bytes two_laws one ≡ ok q) × (q.point ≡ x) × (as_bytes q ≡ one))
public_from_bytes_lem_example = public_from_bytes_lem two_laws one

open-sum_example :
    open_with factory
      (total_key two_laws (k₁ ∷ k₀ ∷ []))
      (total_key two_laws (k₁ ∷ k₁ ∷ []))
      (sum (commit factory k₁ k₁ ∷ commit factory k₀ k₁ ∷ []))
    ≡ true
open-sum_example = open-sum two_laws factory ((k₁, k₁) ∷ (k₀, k₁) ∷ [])
