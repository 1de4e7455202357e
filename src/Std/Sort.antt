-- ===== src/Std/Sort.antt =====
-- `slice::sort_unstable`, by insertion: for items that all compare unequal its result does not
-- depend on the algorithm.
use mathlib.Core.List.{Permᴰ}
use tari_crypto.Base.Perm.{All-perm}
use tari_crypto.Base.{
  suc, ◌≡◌, refl, ap, subst, subst₂, ◌∙◌, ◌≢◌, inl, inr, List, [], ◌∷◌, Ordering, All, length,
  arith,
}
use tari_crypto.Base.Order.{TotalOrder, Ordering-cases, flip}

module _ {ℓ} {A : Type ℓ} (cmp : A → A → Ordering) where
  unfoldable pub insert : A → List A → List A
  insert x [] = x ∷ []
  insert x (y ∷ ys) =
      let rest = insert x ys in elim (cmp x y) [ Ordering.gt ↦ y ∷ rest | _ ↦ x ∷ y ∷ ys ]

  unfoldable pub sort : List A → List A
  sort [] = []
  sort (x ∷ xs) = insert x (sort xs)

  -- No two items compare equal.
  abbrev pub Distinct : List A → Type 0
  Distinct [] = Unit
  Distinct (x ∷ xs) = All (λ y. cmp x y ≢ Ordering.eq) xs × Distinct xs

  -- Each item is less than those behind it.
  abbrev pub Ascending : List A → Type 0
  Ascending [] = Unit
  Ascending (x ∷ xs) = All (λ y. cmp x y ≡ Ordering.lt) xs × Ascending xs

  length-insert : (x : A) (ys : List A) → length (insert x ys) ≡ suc (length ys)
  unfolding insert
  length-insert x [] = refl
  length-insert x (y ∷ ys) = ground (arith, length-insert x ys)

  pub length-sort : (xs : List A) → length (sort xs) ≡ length xs
  unfolding sort
  length-sort [] = refl
  length-sort (x ∷ xs) = length-insert x (sort xs) ∙ ap suc (length-sort xs)

  All-insert : (Q : A → Type 0) (x : A) (ys : List A) → Q x → All Q ys → All Q (insert x ys)
  unfolding insert
  All-insert Q x [] q h = (q, tt)
  All-insert Q x (y ∷ ys) q h = ground (arith, All-insert Q x ys q h.1)

  pub All-sort : (Q : A → Type 0) (xs : List A) → All Q xs → All Q (sort xs)
  unfolding sort
  All-sort Q [] h = tt
  All-sort Q (x ∷ xs) h = All-insert Q x (sort xs) h.0 (All-sort Q xs h.1)

  All-map : (Q R : A → Type 0) (xs : List A) → ((a : A) → Q a → R a) → All Q xs → All R xs
  All-map Q R [] f h = tt
  All-map Q R (x ∷ xs) f h = (f x h.0, All-map Q R xs f h.1)

  module _ (o : TotalOrder cmp) where
    insert-Ascending :
        (x : A) (ys : List A)
        → All (λ y. cmp x y ≢ Ordering.eq) ys
        → Ascending ys
        → Ascending (insert x ys)
    unfolding insert
    insert-Ascending x [] d s = (tt, tt)
    insert-Ascending x (y ∷ ys) d s = elim (Ordering-cases (cmp x y)) [
      | inl less ↦
          rw (less, insert) ((less, All-map _ _ ys (λ a below. o.trans x y a less below) s.0), s)
      | inr (inl same) ↦ absurd (d.0 same)
      | inr (inr more) ↦
          rw (more, insert)
            (All-insert _ x ys (rw (o.flips x y, more)) s.0, insert-Ascending x ys d.1 s.1)
    ]

    -- Sorting puts distinct items in ascending order.
    pub sort-Ascending : (xs : List A) → Distinct xs → Ascending (sort xs)
    unfolding sort
    sort-Ascending [] d = tt
    sort-Ascending (x ∷ xs) d =
        insert-Ascending x (sort xs) (All-sort _ xs d.0) (sort-Ascending xs d.1)

    insert_comm :
        (x y : A) (l : List A)
        → cmp x y ≢ Ordering.eq
        → insert x (insert y l) ≡ insert y (insert x l)
    unfolding insert
    insert_comm x y [] d = ground (arith, o.flips x y)
    insert_comm x y (z ∷ l) d = ground (
      arith,
      o.flips x y,
      o.flips y z,
      o.flips x z,
      o.trans x y z,
      o.trans y x z,
      o.trans x z y,
      o.trans y z x,
      o.congr x z y,
      o.congr y z x,
      insert_comm x y l d,
    )

    pub Distinct-perm : {xs ys : List A} → Permᴰ xs ys → Distinct xs → Distinct ys
    Distinct-perm Permᴰ.nil d = tt
    Distinct-perm (Permᴰ.cons {a = a} {b = b} {l₁ = l₁} e p) d =
        (All-perm _ p (subst (λ x. All (λ y. cmp x y ≢ Ordering.eq) l₁) e d.0), Distinct-perm p d.1)
    Distinct-perm (Permᴰ.swap {a = a} {b = b} {l = l} e e') d = (
      (
        subst₂ (λ x y. cmp x y ≢ Ordering.eq) e' e (λ h. d.0.0 (o.flips b a ∙ ap flip h)),
        subst (λ x. All (λ y. cmp x y ≢ Ordering.eq) l) e' d.1.0,
      ),
      (subst (λ x. All (λ y. cmp x y ≢ Ordering.eq) l) e d.0.1, d.1.1),
    )
    Distinct-perm (Permᴰ.trans p q) d = Distinct-perm q (Distinct-perm p d)

    -- The order in which distinct items stand makes no difference to the sorted list.
    pub sort-perm : {xs ys : List A} → Permᴰ xs ys → Distinct xs → sort xs ≡ sort ys
    unfolding sort
    sort-perm Permᴰ.nil d = refl
    sort-perm (Permᴰ.cons {a = a} {b = b} {l₁ = l₁} {l₂ = l₂} e p) d = cc (sort-perm p d.1)
    sort-perm (Permᴰ.swap {a = a} {b = b} {l = l} e e') d = cc (insert_comm a b (sort l) d.0.0)
    sort-perm (Permᴰ.trans p q) d = sort-perm p d ∙ sort-perm q (Distinct-perm p d)
