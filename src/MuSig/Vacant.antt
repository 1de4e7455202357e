-- ===== src/MuSig/Vacant.antt =====
-- The free places of a set, which are filled one after the other.
use tari_crypto.Base.{
  ℕ, zero, suc, ◌<◌, ◌≡◌, ◌≢◌, refl, ap, ◌∙◌, inl, inr, Option, none, some, List, [], ◌∷◌, All,
  length, get_elem?, set, replicate, sequence, Option-cases, arith,
}
use tari_crypto.MuSig.Places.{At}

-- No place stands twice in the list.
abbrev pub Separate : List ℕ → Type 0
Separate [] = Unit
Separate (i ∷ is) = All (λ j. i ≢ j) is × Separate is

module _ {T : Type 0} where
  -- The place is there, and nothing stands in it.
  abbrev pub Free : List (Option T) → ℕ → Type 0
  Free os i = get_elem? os i ≡ some none

  pub nones : List (Option T) → ℕ
  nones [] = 0
  nones (none ∷ os) = suc (nones os)
  nones (some t ∷ os) = nones os

  -- The places listed are free, and no other is.
  pub record Vacant (os : List (Option T)) (is : List ℕ) : Type 0 where
    pub free : All (Free os) is
    pub counted : nones os ≡ length is

  nones-set :
      (os : List (Option T)) (i : ℕ) (t : T)
      → Free os i
      → suc (nones (set os i (some t))) ≡ nones os
  unfolding nones
  nones-set [] i t h = absurd (ground arith)
  nones-set (none ∷ os) zero t h = refl
  nones-set (some u ∷ os) zero t h = absurd (ground arith)
  nones-set (none ∷ os) (suc i) t h = ap suc (nones-set os i t h)
  nones-set (some u ∷ os) (suc i) t h = nones-set os i t h

  pub get_elem?-set_self :
      (os : List (Option T)) (i : ℕ) (t : T) → Free os i → At (set os i (some t)) i t
  get_elem?-set_self [] i t h = absurd (ground arith)
  get_elem?-set_self (o ∷ os) zero t h = refl
  get_elem?-set_self (o ∷ os) (suc i) t h = get_elem?-set_self os i t h

  pub get_elem?-set_other :
      (os : List (Option T)) (i j : ℕ) (o : Option T)
      → i ≢ j
      → get_elem? (set os i o) j ≡ get_elem? os j
  get_elem?-set_other [] i j o h = refl
  get_elem?-set_other (x ∷ os) zero zero o h = absurd (h refl)
  get_elem?-set_other (x ∷ os) zero (suc j) o h = refl
  get_elem?-set_other (x ∷ os) (suc i) zero o h = refl
  get_elem?-set_other (x ∷ os) (suc i) (suc j) o h =
      get_elem?-set_other os i j o (λ e. h (ap suc e))

  pub full_of_nones : (os : List (Option T)) → nones os ≡ 0 → (l : List T) × (sequence os ≡ some l)
  unfolding nones
  full_of_nones [] h = ([], refl)
  full_of_nones (none ∷ os) h = absurd (omega arith)
  full_of_nones (some t ∷ os) h = let (l, e) = full_of_nones os h in (t ∷ l, rw e refl)

  pub nones_of_full : (os : List (Option T)) (l : List T) → sequence os ≡ some l → nones os ≡ 0
  unfolding nones
  nones_of_full [] l h = refl
  nones_of_full (none ∷ os) l h = absurd (ground arith)
  nones_of_full (some t ∷ os) l h = elim (Option-cases (sequence os)) [
    | inl e ↦ absurd (ground (arith, e))
    | inr (l', e) ↦ nones_of_full os l' e
  ]

module _ (T : Type 0) where
  nones-replicate : (n : ℕ) → nones (replicate {A = Option T} n none) ≡ n
  unfolding nones
  nones-replicate zero = refl
  nones-replicate (suc n) = ap suc (nones-replicate n)

  Free-replicate : (n i : ℕ) → i < n → Free (replicate {A = Option T} n none) i
  Free-replicate zero i h = absurd (omega arith)
  Free-replicate (suc n) zero h = refl
  Free-replicate (suc n) (suc i) h = Free-replicate n i (omega arith)

  All-Free-replicate :
      (n : ℕ) (is : List ℕ) → All (λ i. i < n) is → All (Free (replicate {A = Option T} n none)) is
  All-Free-replicate n [] h = tt
  All-Free-replicate n (i ∷ is) h = (Free-replicate n i h.0, All-Free-replicate n is h.1)

  pub replicate-Vacant :
      (n : ℕ) (is : List ℕ)
      → All (λ i. i < n) is
      → n ≡ length is
      → Vacant (replicate {A = Option T} n none) is
  replicate-Vacant n is h e = record {
    free = All-Free-replicate n is h;
    counted = nones-replicate n ∙ e;
  }

module _ {T : Type 0} where
  All-Free-set :
      (os : List (Option T)) (i : ℕ) (o : Option T) (is : List ℕ)
      → All (λ j. i ≢ j) is
      → All (Free os) is
      → All (Free (set os i o)) is
  All-Free-set os i o [] h f = tt
  All-Free-set os i o (j ∷ is) h f =
      (get_elem?-set_other os i j o h.0 ∙ f.0, All-Free-set os i o is h.1 f.1)

  pub set-Vacant :
      (os : List (Option T)) (i : ℕ) (t : T) (is : List ℕ)
      → Separate (i ∷ is)
      → Vacant os (i ∷ is)
      → Vacant (set os i (some t)) is
  set-Vacant os i t is h v = record {
    free = All-Free-set os i (some t) is h.0 v.free.1;
    counted = omega (arith, nones-set os i t v.free.0, v.counted);
  }
