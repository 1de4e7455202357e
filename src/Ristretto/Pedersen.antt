-- ===== src/Ristretto/Pedersen.antt =====
-- src/ristretto/pedersen.rs
use tari_crypto.Base.{ℕ, Bool, List, [], ◌∷◌, Run, done, ◌>>=◌, unwrap, get_elem?}
use tari_crypto.Commitment.{HomomorphicCommitment, HomomorphicCommitmentFactory}
use tari_crypto.Ristretto.Dalek.{Dalek}
use tari_crypto.Ristretto.Constants.{ristretto_nums_points}
use tari_crypto.Ristretto.Keys.{
  RistrettoSecretKey, RistrettoPublicKey, new_from_pk, public_eq, from_u64,
}

abbrev pub PedersenCommitment : Dalek → Type 0
PedersenCommitment dk = HomomorphicCommitment (RistrettoPublicKey dk)

pub record PedersenCommitmentFactory (dk : Dalek) : Type 0 where
  pub g : dk.Point
  pub h : dk.Point

module _ {dk : Dalek} where
  unfoldable pub new : dk.Point → dk.Point → PedersenCommitmentFactory dk
  new g h = record { g = g; h = h }

  unfoldable pub commit :
      PedersenCommitmentFactory dk
      → RistrettoSecretKey dk
      → RistrettoSecretKey dk
      → PedersenCommitment dk
  commit f k v =
      let c = dk.multiscalar_mul (v.scalar ∷ k.scalar ∷ []) (f.h ∷ f.g ∷ []) in
      record { point = new_from_pk c }

  unfoldable pub zero : PedersenCommitmentFactory dk → PedersenCommitment dk
  zero f =
      let z = dk.scalar_zero in
      let c = dk.multiscalar_mul (z ∷ z ∷ []) (f.h ∷ f.g ∷ []) in record { point = new_from_pk c }

  unfoldable pub open_with :
      PedersenCommitmentFactory dk
      → RistrettoSecretKey dk
      → RistrettoSecretKey dk
      → PedersenCommitment dk
      → Bool
  unfolding commit
  open_with f k v commitment = let c_test = commit f k v in public_eq commitment.point c_test.point

  unfoldable pub commit_value :
      PedersenCommitmentFactory dk → RistrettoSecretKey dk → ℕ → PedersenCommitment dk
  commit_value f k value = commit f k (from_u64 value)

  unfoldable pub open_value :
      PedersenCommitmentFactory dk → RistrettoSecretKey dk → ℕ → PedersenCommitment dk → Bool
  open_value f k v commitment = open_with f k (from_u64 v) commitment

  -- The loop of `Sum::sum`, with its running total.
  unfoldable pub sum_from : dk.Point → List (PedersenCommitment dk) → dk.Point
  sum_from total [] = total
  sum_from total (c ∷ cs) = sum_from (dk.point_add total c.point.point) cs

  unfoldable pub sum : List (PedersenCommitment dk) → PedersenCommitment dk
  unfolding sum_from
  sum cs = record { point = new_from_pk (sum_from dk.identity cs) }

-- The generators are the base point and the first of the points of `Constants`, which exists once
-- its bytes decompress.
unfoldable pub ristretto_pedersen_g : (dk : Dalek) → dk.Point
ristretto_pedersen_g dk = dk.basepoint

unfoldable pub ristretto_pedersen_h : (dk : Dalek) → Run dk.Point
unfolding ristretto_nums_points
ristretto_pedersen_h dk = do points ← ristretto_nums_points dk; unwrap (get_elem? points 0)

unfoldable pub default : (dk : Dalek) → Run (PedersenCommitmentFactory dk)
unfolding ristretto_pedersen_g ristretto_pedersen_h
default dk = do h ← ristretto_pedersen_h dk; done (new (ristretto_pedersen_g dk) h)

-- The implementation of the trait.
unfoldable pub commitment_factory :
    {dk : Dalek}
    → PedersenCommitmentFactory dk
    → HomomorphicCommitmentFactory (RistrettoSecretKey dk) (RistrettoPublicKey dk)
unfolding commit zero open_with commit_value open_value
commitment_factory f = record {
  commit = commit f;
  zero = zero f;
  open_with = open_with f;
  commit_value = commit_value f;
  open_value = open_value f;
}
