-- ===== src/Tests/Proofs.antt =====
-- Range proofs over the two-element field: a proof is its commitment, value, key and message.
use mathlib.Core.Option.{bind}
use native.Mathlib.Decide.{ℕ_discrete}
use tari_crypto.Base.{
  ℕ, ◌<◌, ◌==◌, ◌%◌, ◌≡◌, ◌↔◌, refl, ap, length, replicate, inl, Bool, true, false, Bytes, [], ◌∷◌,
  ◌++◌, Option, some, none, ok, if◌then◌else◌, arith,
}
use tari_crypto.Base.Order.{eq_bytes, eq_bytes_iff}
use tari_crypto.Ristretto.Keys.{from_secret_key}
use tari_crypto.Ristretto.Pedersen.{commit_value}
use tari_crypto.RangeProof.Bulletproofs.{
  Array, array_path, proof_message_length, Bulletproofs, BulletproofsLaws, PedersenGens,
}
use tari_crypto.RangeProof.Service.{
  user_message_length, DalekRangeProofService, take, drop, new, verify,
  construct_proof_with_rewind_key, rewind_proof_value_only, rewind_proof_commitment_data,
}
use tari_crypto.RangeProof.New.{service_new_iff}
use tari_crypto.RangeProof.Rewind.{construct_proof-rewind}
use tari_crypto.Tests.Field.{two, two_laws, xor, and, encode, decode}
use tari_crypto.Tests.Inputs.{factory, k₀, k₁}

abbrev commitment_of : PedersenGens two → ℕ → Bool → Bytes
commitment_of pc v k = encode (xor (and k pc.b_blinding) (and (v % 2 == 1) pc.b))

abbrev bit : Bool → ℕ
bit k = if k then 1 else 0

abbrev decided : (n : ℕ) (b : Bytes) → Dec (length b ≡ n) → Option (Array n)
decided n b (yes h) = some (record { items = b; sized = h })
decided n b (no _) = none

-- The bytes as an array, if they are as many.
unfoldable as_array : (n : ℕ) → Bytes → Option (Array n)
as_array n b = decided n b (ℕ_discrete (length b) n)

as_array-items : {n : ℕ} (a : Array n) → as_array n a.items ≡ some a
unfolding as_array
as_array-items {n} a = go (ℕ_discrete (length a.items) n)
  where
    go : (d : Dec (length a.items ≡ n)) → decided n a.items d ≡ some a
    go (yes h) = ap some (array_path _ _ refl)
    go (no h) = absurd (h a.sized)

abbrev opened : Bytes → Option (ℕ × Bool × Array proof_message_length)
opened (v ∷ k ∷ message) = bind (as_array proof_message_length message) λ m. some (v, k == 1, m)
opened _ = none

abbrev value_of :
    Option (ℕ × Bool × Array proof_message_length) → Option (ℕ × Array proof_message_length)
value_of (some (v, k, message)) = some (v, message)
value_of none = none

unfoldable pub plain : Bulletproofs two
unfolding eq_bytes as_array bind
plain = record {
  Gens = ℕ;
  new_gens = λ n parties. n;
  Proof = Bytes;
  to_bytes = λ p. p;
  from_bytes = λ b. some b;
  prove_single = λ gens pc label v k n. some (commitment_of pc v k ++ v ∷ bit k ∷ []);
  verify_single = λ p gens pc label c n. eq_bytes (take 32 p) c;
  prove_single_with_rewind_key = λ gens pc label v k n rk rbk message.
      some (commitment_of pc v k ++ v ∷ bit k ∷ message.items);
  get_rewind_nonce_from_pub_key = λ p c. decode p;
  get_secret_nonce_from_pvt_key = λ k c. k;
  rewind_single_get_value_only = λ p gens label c n r s. value_of (opened (drop 32 p));
  rewind_single_get_commitment_data = λ p gens pc label c n r s t u. opened (drop 32 p);
}

bit-decoded : (k : Bool) → (bit k == 1) ≡ k
bit-decoded true = refl
bit-decoded false = refl

pub plain_laws : BulletproofsLaws plain
unfolding plain
plain_laws = record {
  from_bytes-to_bytes = λ p. refl;
  prove-verify = λ pc label v k n size h. (_, refl, (eq_bytes_iff _ _).1 refl);
  prove-rewind = λ pc label v k n rk rbk message size h. (
    _,
    refl,
    (eq_bytes_iff _ _).1 refl,
    rw (as_array-items message) refl,
    rw (as_array-items message) (ap (λ b. some (v, b, message)) (bit-decoded k)),
  );
}

service_new_iff_example :
    ((s : DalekRangeProofService plain) × (new plain 24 factory ≡ ok s))
    ↔ ((0 < 24) × (24 % 8 ≡ 0) × (24 < 128))
service_new_iff_example = service_new_iff plain 24 factory (omega arith)

-- The message of 21 bytes, all 7.
sevens : Array user_message_length
sevens = record { items = replicate 21 7; sized = refl }

construct_proof-rewind_example :
    (s : DalekRangeProofService plain) × (proof : Bytes) × (new plain 8 factory ≡ ok s)
    × (construct_proof_with_rewind_key plain s k₁ 200 k₀ k₁ sevens ≡ ok proof)
    × (verify plain s proof (commit_value factory k₁ 200) ≡ true)
    × (rewind_proof_value_only plain s proof
          (commit_value factory k₁ 200)
          (from_secret_key k₀)
          (from_secret_key k₁)
        ≡ ok (record { committed_value = 200; proof_message = sevens }))
    × (rewind_proof_commitment_data plain s proof (commit_value factory k₁ 200) k₀ k₁
        ≡ ok (record { committed_value = 200; proof_message = sevens; blinding_factor = k₁ }))
construct_proof-rewind_example =
    construct_proof-rewind two_laws plain plain_laws 8 factory k₁ k₀ k₁ 200 sevens (inl refl)
      (omega arith)
