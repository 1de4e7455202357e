-- ===== src/MuSig/Places.antt =====
-- The places of a fixed-size set: what a write changes, and when the set is full.
use tari_crypto.Base.{
  ℕ, zero, suc, ◌≡◌, refl, sym, ap, ◌∙◌, ◌⊎◌, inl, inr, Option, none, some, List, [], ◌∷◌, length,
  length-set, length-replicate, get_elem?, set, replicate, sequence, Option-cases, arith,
}
use tari_crypto.External.{FixedSet, FixedSetLaws}

module _ {T : Type 0} where
  -- The item at a place.
  abbrev pub At : List (Option T) → ℕ → T → Type 0
  At os i t = get_elem? os i ≡ some (some t)

  At-replicate : (n i : ℕ) (t : T) → ¬ At (replicate n none) i t
  At-replicate zero i t h = ground arith
  At-replicate (suc n) zero t h = ground arith
  At-replicate (suc n) (suc i) t h = At-replicate n i t h

  At-set :
      (os : List (Option T)) (i j : ℕ) (t u : T)
      → At (set os i (some t)) j u
      → ((i ≡ j) × (t ≡ u)) ⊎ At os j u
  At-set [] i j t u h = absurd (ground arith)
  At-set (o ∷ os) zero zero t u h = inl (refl, ground arith)
  At-set (o ∷ os) zero (suc j) t u h = inr h
  At-set (o ∷ os) (suc i) zero t u h = inr h
  At-set (o ∷ os) (suc i) (suc j) t u h = ground (arith, At-set os i j t u h)

  pub sequence-length :
      (os : List (Option T)) (l : List T) → sequence os ≡ some l → length l ≡ length os
  sequence-length [] l h = ground arith
  sequence-length (none ∷ os) l h = absurd (ground arith)
  sequence-length (some t ∷ os) l h = elim (Option-cases (sequence os)) [
    | inl e ↦ absurd (ground (arith, e))
    | inr (l', e) ↦
        let same : l ≡ t ∷ l' = ground (arith, e) in rw same (ap suc (sequence-length os l' e))
  ]

  pub sequence-get :
      (os : List (Option T)) (l : List T) (i : ℕ) (t : T)
      → sequence os ≡ some l
      → get_elem? l i ≡ some t
      → At os i t
  sequence-get [] l i t h k = absurd (ground arith)
  sequence-get (none ∷ os) l i t h k = absurd (ground arith)
  sequence-get (some u ∷ os) l zero t h k = elim (Option-cases (sequence os)) [
    | inl e ↦ absurd (ground (arith, e))
    | inr (l', e) ↦ ground (arith, e)
  ]
  sequence-get (some u ∷ os) l (suc i) t h k = elim (Option-cases (sequence os)) [
    | inl e ↦ absurd (ground (arith, e))
    | inr (l', e) ↦
        let same : l ≡ u ∷ l' = ground (arith, e) in
        sequence-get os l' i t e (ap (λ (xs : List T). get_elem? xs (suc i)) (sym same) ∙ k)
  ]

module _ (fs : FixedSet) (fl : FixedSetLaws fs) where
  open fl use {places}

  pub length-new : (T : Type 0) (n : ℕ) → length (places (fs.new {T = T} n)) ≡ n
  length-new T n = ap length (fl.places-new {T = T} n) ∙ length-replicate {A = Option T} n none

  pub At-new : {T : Type 0} (n i : ℕ) (t : T) → ¬ At (places (fs.new {T = T} n)) i t
  At-new {T} n i t h = At-replicate n i t (ap (λ os. get_elem? os i) (sym (fl.places-new n)) ∙ h)

  pub length-set_item :
      {T : Type 0} (s : fs.Set T) (i : ℕ) (t : T)
      → length (places (fs.set_item s i t).0) ≡ length (places s)
  length-set_item s i t = ap length (fl.places-set_item s i t) ∙ length-set (places s) i (some t)

  pub At-set_item :
      {T : Type 0} (s : fs.Set T) (i j : ℕ) (t u : T)
      → At (places (fs.set_item s i t).0) j u
      → ((i ≡ j) × (t ≡ u)) ⊎ At (places s) j u
  At-set_item s i j t u h =
      At-set (places s) i j t u (ap (λ os. get_elem? os j) (sym (fl.places-set_item s i t)) ∙ h)

  pub get_item-At :
      {T : Type 0} (s : fs.Set T) (i : ℕ) (t : T) → fs.get_item s i ≡ some t → At (places s) i t
  get_item-At s i t h = elim (Option-cases (get_elem? (places s) i)) [
    | inl e ↦ absurd (ground (arith, e, fl.get_item_lem s i))
    | inr (o, e) ↦ ground (arith, e, fl.get_item_lem s i)
  ]
