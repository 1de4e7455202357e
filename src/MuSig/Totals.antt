-- ===== src/MuSig/Totals.antt =====
-- Sums over the places of a set, in whatever order they were filled.
use mathlib.Core.List.{Permᴰ}
use tari_crypto.Base.{
  ℕ, zero, suc, ◌≡◌, refl, sym, ap, ◌∙◌, inl, inr, Option, none, some, List, [], ◌∷◌, map, set,
  replicate, sequence, Option-cases, arith,
}
use tari_crypto.External.{FixedSet, FixedSetLaws, fold_map}
use tari_crypto.MuSig.Vacant.{Separate, Free, Vacant}
use tari_crypto.MuSig.Filling.{fill, set_item-Vacant}

pub record CommMonoid (M : Type 0) : Type 0 where
  pub zero : M
  pub plus : M → M → M
  pub comm : (x y : M) → plus x y ≡ plus y x
  pub assoc : (x y z : M) → plus (plus x y) z ≡ plus x (plus y z)
  pub zero-plus : (x : M) → plus zero x ≡ x

module _ {M : Type 0} (mon : CommMonoid M) where
  open mon use {plus}

  pub swap : (x y z : M) → plus x (plus y z) ≡ plus y (plus x z)
  swap x y z = cc (mon.assoc x y z, mon.assoc y x z, mon.comm x y)

  pub interchange : (a b c d : M) → plus (plus a b) (plus c d) ≡ plus (plus b c) (plus a d)
  interchange a b c d =
      cc (mon.assoc a b (plus c d), mon.assoc b c (plus a d), swap a b (plus c d), swap a c d)

module _ {M T : Type 0} (mon : CommMonoid M) (h : T → M) where
  open mon use {plus}

  abbrev pub sum_of : List T → M
  sum_of = fold_map mon.zero plus h

  pub sum_of-perm : {xs ys : List T} → Permᴰ xs ys → sum_of xs ≡ sum_of ys
  sum_of-perm Permᴰ.nil = refl
  sum_of-perm (Permᴰ.cons e p) = cc (e, sum_of-perm p)
  sum_of-perm (Permᴰ.swap {a = a} {b = b} {l = l} e e') =
      cc (swap mon (h b) (h a) (sum_of l), e, e')
  sum_of-perm (Permᴰ.trans p q) = sum_of-perm p ∙ sum_of-perm q

  abbrev pub total_places : List (Option T) → M
  total_places [] = mon.zero
  total_places (none ∷ os) = total_places os
  total_places (some t ∷ os) = plus (h t) (total_places os)

  total_places-replicate : (n : ℕ) → total_places (replicate n none) ≡ mon.zero
  total_places-replicate zero = refl
  total_places-replicate (suc n) = total_places-replicate n

  total_places-set :
      (os : List (Option T)) (i : ℕ) (t : T)
      → Free os i
      → total_places (set os i (some t)) ≡ plus (h t) (total_places os)
  total_places-set [] i t f = absurd (ground arith)
  total_places-set (none ∷ os) zero t f = refl
  total_places-set (some u ∷ os) zero t f = absurd (ground arith)
  total_places-set (none ∷ os) (suc i) t f = total_places-set os i t f
  total_places-set (some u ∷ os) (suc i) t f =
      ap (plus (h u)) (total_places-set os i t f) ∙ swap mon (h u) (h t) (total_places os)

  total_places-sequence :
      (os : List (Option T)) (l : List T) → sequence os ≡ some l → total_places os ≡ sum_of l
  total_places-sequence [] l e = let none_left : [] ≡ l = ground (arith, e) in ap sum_of none_left
  total_places-sequence (none ∷ os) l e = absurd (ground arith)
  total_places-sequence (some t ∷ os) l e = elim (Option-cases (sequence os)) [
    | inl gone ↦ absurd (ground (arith, gone))
    | inr (l', there) ↦
        let same : t ∷ l' ≡ l = ground (arith, there) in
        ap (plus (h t)) (total_places-sequence os l' there) ∙ ap sum_of same
  ]

pub sum_of-map :
    {M T X : Type 0} (mon : CommMonoid M) (h : T → M) (f : X → T) (xs : List X)
    → sum_of mon h (map f xs) ≡ sum_of mon (λ x. h (f x)) xs
sum_of-map mon h f [] = refl
sum_of-map mon h f (x ∷ xs) = ap (mon.plus (h (f x))) (sum_of-map mon h f xs)

module _ {M T X : Type 0} (mon : CommMonoid M) (h : T → M) (fs : FixedSet) (fl : FixedSetLaws fs)
    (place : X → ℕ) (item : X → T) where
  open mon use {plus}
  open fl use {places}

  total_places-fill :
      (s : fs.Set T) (xs : List X)
      → Separate (map place xs)
      → Vacant (places s) (map place xs)
      → total_places mon h (places (fill fs fl place item s xs))
        ≡ plus (sum_of mon (λ x. h (item x)) xs) (total_places mon h (places s))
  unfolding fill
  total_places-fill s [] d v = sym (mon.zero-plus _)
  total_places-fill s (x ∷ xs) d v =
      let s' = (fs.set_item s (place x) (item x)).0 in
      let rest = sum_of mon (λ y. h (item y)) xs in
      let one : total_places mon h (places s') ≡ plus (h (item x)) (total_places mon h (places s)) =
        ap (total_places mon h) (fl.places-set_item s (place x) (item x))
        ∙ total_places-set mon h (places s) (place x) (item x) v.free.0 in
      total_places-fill s' xs d.1 (set_item-Vacant fs fl place item s x xs d v)
      ∙ (ap (plus rest) one
          ∙ (swap mon rest (h (item x)) (total_places mon h (places s))
              ∙ sym (mon.assoc (h (item x)) rest (total_places mon h (places s)))))

  -- The sum over a new set that has been filled is that over what filled it.
  pub sum_of-fill :
      (n : ℕ) (xs : List X) (l : List T)
      → Separate (map place xs)
      → Vacant (places (fs.new {T = T} n)) (map place xs)
      → sequence (places (fill fs fl place item (fs.new n) xs)) ≡ some l
      → sum_of mon h l ≡ sum_of mon (λ x. h (item x)) xs
  sum_of-fill n xs l d v e =
      let none_there : total_places mon h (places (fs.new {T = T} n)) ≡ mon.zero =
        ap (total_places mon h) (fl.places-new {T = T} n) ∙ total_places-replicate mon h n in
      sym (total_places-sequence mon h (places (fill fs fl place item (fs.new n) xs)) l e)
      ∙ (total_places-fill (fs.new n) xs d v
          ∙ (ap (plus (sum_of mon (λ x. h (item x)) xs)) none_there
              ∙ (mon.comm _ _ ∙ mon.zero-plus _)))
