-- ===== src/Base/Order.antt =====
-- `Ord` of byte slices, and what sorting and searching ask of a comparison.
use Prim.Native.Nat.{ℕ, compare, Ordering}
use mathlib.Core.Path.{◌≡◌, refl}
use mathlib.Core.Logic.{◌⊎◌, inl, inr, ◌↔◌}
use mathlib.Core.Bool.{Bool, true, false}
use mathlib.Core.List.{List, [], ◌∷◌}
use native.Mathlib.Omega.{arith}

abbrev pub flip : Ordering → Ordering
flip Ordering.lt = Ordering.gt
flip Ordering.eq = Ordering.eq
flip Ordering.gt = Ordering.lt

abbrev pub then_with : Ordering → Ordering → Ordering
then_with Ordering.eq o = o
then_with Ordering.lt o = Ordering.lt
then_with Ordering.gt o = Ordering.gt

pub Ordering-cases : (o : Ordering) → (o ≡ Ordering.lt) ⊎ ((o ≡ Ordering.eq) ⊎ (o ≡ Ordering.gt))
Ordering-cases Ordering.lt = inl refl
Ordering-cases Ordering.eq = inr (inl refl)
Ordering-cases Ordering.gt = inr (inr refl)

-- Lexicographic, and a prefix comes first.
unfoldable pub cmp_bytes : List ℕ → List ℕ → Ordering
cmp_bytes [] [] = Ordering.eq
cmp_bytes [] (y ∷ ys) = Ordering.lt
cmp_bytes (x ∷ xs) [] = Ordering.gt
cmp_bytes (x ∷ xs) (y ∷ ys) = then_with (compare x y) (cmp_bytes xs ys)

pub cmp_bytes_refl : (xs : List ℕ) → cmp_bytes xs xs ≡ Ordering.eq
unfolding cmp_bytes
cmp_bytes_refl [] = refl
cmp_bytes_refl (x ∷ xs) = ground (arith, cmp_bytes_refl xs)

pub cmp_bytes-flip : (xs ys : List ℕ) → cmp_bytes ys xs ≡ flip (cmp_bytes xs ys)
unfolding cmp_bytes
cmp_bytes-flip [] [] = refl
cmp_bytes-flip [] (y ∷ ys) = refl
cmp_bytes-flip (x ∷ xs) [] = refl
cmp_bytes-flip (x ∷ xs) (y ∷ ys) = ground (arith, cmp_bytes-flip xs ys)

pub cmp_bytes_eq : (xs ys : List ℕ) → cmp_bytes xs ys ≡ Ordering.eq → xs ≡ ys
unfolding cmp_bytes
cmp_bytes_eq [] [] h = refl
cmp_bytes_eq [] (y ∷ ys) h = cc
cmp_bytes_eq (x ∷ xs) [] h = cc
cmp_bytes_eq (x ∷ xs) (y ∷ ys) h = ground (arith, cmp_bytes_eq xs ys)

pub cmp_bytes_trans :
    (xs ys zs : List ℕ)
    → cmp_bytes xs ys ≡ Ordering.lt
    → cmp_bytes ys zs ≡ Ordering.lt
    → cmp_bytes xs zs ≡ Ordering.lt
unfolding cmp_bytes
cmp_bytes_trans [] [] zs h k = cc
cmp_bytes_trans [] (y ∷ ys) [] h k = cc
cmp_bytes_trans [] (y ∷ ys) (z ∷ zs) h k = refl
cmp_bytes_trans (x ∷ xs) [] zs h k = cc
cmp_bytes_trans (x ∷ xs) (y ∷ ys) [] h k = cc
cmp_bytes_trans (x ∷ xs) (y ∷ ys) (z ∷ zs) h k = ground (arith, cmp_bytes_trans xs ys zs)

-- `==` of byte slices.
unfoldable pub eq_bytes : List ℕ → List ℕ → Bool
eq_bytes xs ys = elim (cmp_bytes xs ys) [ Ordering.eq ↦ true | _ ↦ false ]

pub eq_bytes_iff : (xs ys : List ℕ) → (eq_bytes xs ys ≡ true) ↔ (xs ≡ ys)
unfolding eq_bytes
eq_bytes_iff xs ys =
    (λ h. cmp_bytes_eq xs ys (ground arith), λ h. rw (h, cmp_bytes_refl ys, eq_bytes))

-- A comparison that orders values totally: items that compare equal are interchangeable.
pub record TotalOrder {ℓ} {A : Type ℓ} (cmp : A → A → Ordering) : Type ℓ where
  pub refl_eq : (a : A) → cmp a a ≡ Ordering.eq
  pub flips : (a b : A) → cmp b a ≡ flip (cmp a b)
  pub trans : (a b c : A) → cmp a b ≡ Ordering.lt → cmp b c ≡ Ordering.lt → cmp a c ≡ Ordering.lt
  pub congr : (a b c : A) → cmp a b ≡ Ordering.eq → cmp a c ≡ cmp b c

pub cmp_bytes-TotalOrder : TotalOrder cmp_bytes
cmp_bytes-TotalOrder = record {
  refl_eq = cmp_bytes_refl;
  flips = cmp_bytes-flip;
  trans = cmp_bytes_trans;
  congr = λ a b c h. rw (cmp_bytes_eq a b h);
}

module _ {ℓ κ} {A : Type ℓ} {B : Type κ} {cmp : B → B → Ordering} (f : A → B) where
  -- An order of the images orders the originals.
  pub TotalOrder-on : TotalOrder cmp → TotalOrder (λ a b. cmp (f a) (f b))
  TotalOrder-on o = record {
    refl_eq = λ a. o.refl_eq (f a);
    flips = λ a b. o.flips (f a) (f b);
    trans = λ a b c. o.trans (f a) (f b) (f c);
    congr = λ a b c. o.congr (f a) (f b) (f c);
  }

module _ {ℓ} {A : Type ℓ} {c : A → A → Ordering} (o : TotalOrder c) where
  pub congr_right : (x y z : A) → c y z ≡ Ordering.eq → c x y ≡ c x z
  congr_right x y z h =
      ground (arith, o.congr y z x, o.flips x y, o.flips x z, o.flips y x, o.flips z x)

module _ {ℓ} {A : Type ℓ} {c d : A → A → Ordering} (o : TotalOrder c) (u : TotalOrder d) where
  lexicographic_trans :
      (x y z : A)
      → then_with (c x y) (d x y) ≡ Ordering.lt
      → then_with (c y z) (d y z) ≡ Ordering.lt
      → then_with (c x z) (d x z) ≡ Ordering.lt
  lexicographic_trans x y z h k =
      ground (arith, o.trans x y z, o.congr x y z, congr_right o x y z, u.trans x y z)

  lexicographic_congr :
      (x y z : A)
      → then_with (c x y) (d x y) ≡ Ordering.eq
      → then_with (c x z) (d x z) ≡ then_with (c y z) (d y z)
  lexicographic_congr x y z h = ground (arith, o.congr x y z, u.congr x y z)

  -- Two orders in turn are an order.
  pub lexicographic-TotalOrder : TotalOrder (λ x y. then_with (c x y) (d x y))
  lexicographic-TotalOrder = record {
    refl_eq = λ x. rw (o.refl_eq x) (u.refl_eq x);
    flips = λ x y. ground (arith, o.flips x y, u.flips x y);
    trans = lexicographic_trans;
    congr = lexicographic_congr;
  }
