-- ===== src/Ristretto/PedersenLaws.antt =====
-- src/ristretto/pedersen.rs: the contract of the factory, and sums of commitments.
use tari_crypto.Base.{◌≡◌, refl, sym, ◌∙◌, ◌↔◌, true, List, [], ◌∷◌, map}
use tari_crypto.Keys.Laws.{plus_interchange}
use tari_crypto.Commitment.Laws.{FactoryLaws}
use tari_crypto.Ristretto.Dalek.{Dalek, DalekLaws}
use tari_crypto.Ristretto.Keys.{RistrettoSecretKey, new_from_pk, public_eq, from_u64, secret_add}
use tari_crypto.Ristretto.KeyLaws.{ristretto_laws}
use tari_crypto.Ristretto.Pedersen.{
  PedersenCommitment, PedersenCommitmentFactory, commit, zero, open_with, commit_value, open_value,
  sum_from, sum, commitment_factory,
}

module _ {dk : Dalek} (laws : DalekLaws dk) where
  open dk use {Scalar, Point, identity, point_add, point_mul, multiscalar_mul}

  two_products :
      (a b : Scalar) (p q : Point)
      → multiscalar_mul (a ∷ b ∷ []) (p ∷ q ∷ []) ≡ point_add (point_mul b q) (point_mul a p)
  two_products a b p q = cc (
    laws.multiscalar_mul_cons a (b ∷ []) p (q ∷ []) refl,
    laws.multiscalar_mul_cons b [] q [] refl,
    laws.multiscalar_mul_nil,
    laws.point_add_comm (point_mul b q) identity,
    laws.identity-point_add (point_mul b q),
    laws.point_add_comm (point_mul a p) (point_mul b q),
  )

  pub commit_lem :
      (f : PedersenCommitmentFactory dk) (k v : RistrettoSecretKey dk)
      → (commit f k v).point.point ≡ point_add (point_mul k.scalar f.g) (point_mul v.scalar f.h)
  unfolding commit new_from_pk
  commit_lem f k v = two_products v.scalar k.scalar f.h f.g

  open-value_iff :
      (f : PedersenCommitmentFactory dk) (k v : RistrettoSecretKey dk) (c : PedersenCommitment dk)
      → (open_with f k v c ≡ true)
        ↔ (c.point.point ≡ point_add (point_mul k.scalar f.g) (point_mul v.scalar f.h))
  unfolding open_with public_eq
  open-value_iff f k v c = (
    λ o. (laws.point_eq_iff _ _).0 o ∙ commit_lem f k v,
    λ e. (laws.point_eq_iff _ _).1 (e ∙ sym (commit_lem f k v)),
  )

  pub pedersen_laws :
      (f : PedersenCommitmentFactory dk) → FactoryLaws (ristretto_laws laws) (commitment_factory f)
  unfolding commitment_factory ristretto_laws commit_value open_value zero new_from_pk
  pedersen_laws f = record {
    of_u64 = from_u64;
    g = f.g;
    h = f.h;
    commit_lem = commit_lem f;
    zero_lem = cc (
      two_products dk.scalar_zero dk.scalar_zero f.h f.g,
      laws.point_mul-zero f.g,
      laws.point_mul-zero f.h,
      laws.identity-point_add identity,
    );
    open_lem = open-value_iff f;
    commit_value_lem = λ k n. refl;
    open_value_lem = λ k n c. refl;
  }

  sum_from-total :
      (x : Point) (cs : List (PedersenCommitment dk))
      → sum_from x cs ≡ point_add x (sum_from identity cs)
  unfolding sum_from
  sum_from-total x [] = sym (laws.point_add_comm x identity ∙ laws.identity-point_add x)
  sum_from-total x (c ∷ cs) =
      let y = c.point.point in
      cc (
        sum_from-total (point_add x y) cs,
        sum_from-total (point_add identity y) cs,
        laws.identity-point_add y,
        laws.point_add_assoc x y (sum_from identity cs),
      )

  -- The sum of the scalars of a list of keys, from the default key.
  unfoldable pub total_key : List (RistrettoSecretKey dk) → RistrettoSecretKey dk
  unfolding secret_add
  total_key [] = record { scalar = dk.scalar_zero }
  total_key (k ∷ ks) = secret_add k (total_key ks)

  abbrev commit_pair :
      PedersenCommitmentFactory dk
      → RistrettoSecretKey dk × RistrettoSecretKey dk
      → PedersenCommitment dk
  commit_pair f (k, v) = commit f k v

  sum_from-commit :
      (f : PedersenCommitmentFactory dk) (ps : List (RistrettoSecretKey dk × RistrettoSecretKey dk))
      → sum_from identity (map (commit_pair f) ps)
        ≡ point_add
            (point_mul (total_key (map (λ p. p.0) ps)).scalar f.g)
            (point_mul (total_key (map (λ p. p.1) ps)).scalar f.h)
  unfolding sum_from total_key secret_add ristretto_laws
  sum_from-commit f [] =
      cc (laws.point_mul-zero f.g, laws.point_mul-zero f.h, laws.identity-point_add identity)
  sum_from-commit f ((k, v) ∷ ps) =
      let ks = total_key (map (λ p. p.0) ps) in
      let vs = total_key (map (λ p. p.1) ps) in
      let c = (commit f k v).point.point in
      sum_from-total (point_add identity c) (map (commit_pair f) ps)
      ∙ rw
          (
            laws.identity-point_add c,
            commit_lem f k v,
            sum_from-commit f ps,
            laws.point_mul-add k.scalar ks.scalar f.g,
            laws.point_mul-add v.scalar vs.scalar f.h,
          )
          (plus_interchange (ristretto_laws laws) _ _ _ _)

  -- The sum of any list of commitments is opened by the sum of their blinding factors and the sum
  -- of their values.
  pub open-sum :
      (f : PedersenCommitmentFactory dk) (ps : List (RistrettoSecretKey dk × RistrettoSecretKey dk))
      → open_with f
          (total_key (map (λ p. p.0) ps))
          (total_key (map (λ p. p.1) ps))
          (sum (map (λ (k, v). commit f k v) ps))
        ≡ true
  unfolding sum new_from_pk
  open-sum f ps = (open-value_iff f _ _ _).1 (sum_from-commit f ps)
