-- ===== src/Commitment/Laws.antt =====
-- src/commitment.rs: the contract of a commitment factory, `k.G + v.H`, and what uses it.
use tari_crypto.Base.{ℕ, ◌≡◌, sym, ◌∙◌, ◌↔◌, true}
use tari_crypto.Keys.{PublicKey}
use tari_crypto.Keys.Laws.{KeyLaws, plus_interchange}
use tari_crypto.Commitment.{
  HomomorphicCommitment, HomomorphicCommitmentFactory, add, mul, eq, as_public_key,
}

module _ {K P : Type 0} {pk : PublicKey K P} (laws : KeyLaws pk) where
  open pk use {secret as sk}
  open laws use {Value, value, plus, act, zero}

  -- What a factory promises, for its two generators; `of_u64` reads a value as a secret key.
  pub record FactoryLaws (f : HomomorphicCommitmentFactory K P) : Type 1 where
    pub of_u64 : ℕ → K
    pub g : Value
    pub h : Value
    pub commit_lem : (k v : K) → value (f.commit k v).point ≡ plus (act k g) (act v h)
    pub zero_lem : value f.zero.point ≡ zero
    pub open_lem :
        (k v : K) (c : HomomorphicCommitment P)
        → (f.open_with k v c ≡ true) ↔ (value c.point ≡ plus (act k g) (act v h))
    pub commit_value_lem : (k : K) (n : ℕ) → f.commit_value k n ≡ f.commit k (of_u64 n)
    pub open_value_lem :
        (k : K) (n : ℕ) (c : HomomorphicCommitment P)
        → f.open_value k n c ≡ f.open_with k (of_u64 n) c

  pub commitment-eq_iff :
      (c d : HomomorphicCommitment P) → (eq pk c d ≡ true) ↔ (value c.point ≡ value d.point)
  unfolding eq as_public_key
  commitment-eq_iff c d = laws.eq_iff c.point d.point

  pub value-add :
      (c d : HomomorphicCommitment P)
      → value (add pk c d).point ≡ plus (value c.point) (value d.point)
  unfolding add
  value-add c d = laws.value-add c.point d.point

  pub value-mul :
      (c : HomomorphicCommitment P) (a : K) → value (mul pk c a).point ≡ act a (value c.point)
  unfolding mul
  value-mul c a = laws.value-mul a c.point

  module _ (f : HomomorphicCommitmentFactory K P) (fl : FactoryLaws f) where
    -- For a factory that keeps its contract, the sum of two commitments is equal to the commitment
    -- to the sums of the blinding factors and of the values.
    pub add-commit :
        (k₁ v₁ k₂ v₂ : K)
        → eq pk (add pk (f.commit k₁ v₁) (f.commit k₂ v₂)) (f.commit (sk.add k₁ k₂) (sk.add v₁ v₂))
          ≡ true
    add-commit k₁ v₁ k₂ v₂ = (commitment-eq_iff _ _).1 (
        value-add (f.commit k₁ v₁) (f.commit k₂ v₂)
        ∙ rw
            (
              fl.commit_lem k₁ v₁,
              fl.commit_lem k₂ v₂,
              fl.commit_lem (sk.add k₁ k₂) (sk.add v₁ v₂),
              laws.act-add k₁ k₂ fl.g,
              laws.act-add v₁ v₂ fl.h,
            )
            (plus_interchange laws (act k₁ fl.g) (act v₁ fl.h) (act k₂ fl.g) (act v₂ fl.h)))

    -- A blinding factor and a value open a commitment just when the commitment made from them is
    -- equal to it, for a factory that keeps its contract.
    pub open-commit_iff :
        (k v k' v' : K)
        → (f.open_with k' v' (f.commit k v) ≡ true) ↔ (eq pk (f.commit k' v') (f.commit k v) ≡ true)
    open-commit_iff k v k' v' = (
      λ o. (commitment-eq_iff _ _).1 (fl.commit_lem k' v' ∙ sym ((fl.open_lem k' v' _).0 o)),
      λ e. (fl.open_lem k' v' _).1 (sym ((commitment-eq_iff _ _).0 e) ∙ fl.commit_lem k' v'),
    )
