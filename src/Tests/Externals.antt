-- ===== src/Tests/Externals.antt =====
-- A digest of 32 bytes, and fixed-size sets as lists of places.
use tari_crypto.Base.{
  ℕ, zero, suc, ◌+◌, ◌==◌, ◌≡◌, ◌≢◌, refl, ap, ◌∙◌, ◌↔◌, inl, inr, Bool, true, false, Option, none,
  some, List, [], ◌∷◌, ◌++◌, Bytes, length, set, get_elem?, replicate, sequence, ltb, arith,
  Option-cases, Bool-cases, if◌then◌else◌,
}
use tari_crypto.External.{Digest, DigestLaws, FixedSet, FixedSetLaws, join, fold_map}

abbrev pub sum_bytes : Bytes → ℕ
sum_bytes [] = 0
sum_bytes (x ∷ xs) = x + sum_bytes xs

-- The first byte of a digest is 1 unless the input has no byte but 0.
abbrev pub any_bit : Digest
any_bit = record {
  State = Bytes;
  new = [];
  chain = λ s b. s ++ b;
  finalize = λ s. (if sum_bytes s == 0 then 0 else 1) ∷ replicate 31 0;
  output_size = 32;
}

pub any_bit_laws : DigestLaws any_bit
any_bit_laws = record { finalize_length = λ s. refl }

abbrev pub later : Option ℕ → Option ℕ
later none = none
later (some i) = some (suc i)

unfoldable pub find : {T : Type 0} → (T → T → Bool) → List (Option T) → T → Option ℕ
find eq [] t = none
find eq (none ∷ os) t = later (find eq os t)
find eq (some u ∷ os) t = let rest = find eq os t in if eq u t then some 0 else later rest

unfoldable pub sum_places : {T : Type 0} → T → (T → T → T) → List (Option T) → Option T
sum_places default add s = elim (sequence s) [
  | some l ↦ some (fold_map default add (λ t. t) l)
  | none ↦ none
]

unfoldable pub full : {T : Type 0} → List (Option T) → Bool
full s = elim (sequence s) [ some _ ↦ true | none ↦ false ]

unfoldable pub lists : FixedSet
unfolding find sum_places full
lists = record {
  Set = λ T. List (Option T);
  new = λ n. replicate n none;
  set_item = λ s i t. (set s i (some t), ltb i (length s));
  get_item = λ s i. join (get_elem? s i);
  is_full = full;
  search = find;
  sum = sum_places;
}

find-some :
    {T : Type 0} (eq : T → T → Bool) (s : List (Option T)) (t : T) (i : ℕ)
    → find eq s t ≡ some i
    → (u : T) × (get_elem? s i ≡ some (some u)) × (eq u t ≡ true)
unfolding find
find-some eq [] t i h = absurd (ground arith)
find-some eq (none ∷ os) t i h = elim (Option-cases (find eq os t)) [
  | inl e ↦ absurd (ground (arith, e))
  | inr (j, e) ↦ ground (arith, e, find-some eq os t j e)
]
find-some eq (some u ∷ os) t i h = elim (Bool-cases (eq u t)) [
  | inl e ↦ (u, ground (arith, e), e)
  | inr e ↦ elim (Option-cases (find eq os t)) [
    | inl e' ↦ absurd (ground (arith, e, e'))
    | inr (j, e') ↦ ground (arith, e, e', find-some eq os t j e')
  ]
]

earlier : (o : Option ℕ) → later o ≡ none → o ≡ none
earlier none h = refl
earlier (some i) h = absurd (ground arith)

find-none :
    {T : Type 0} (eq : T → T → Bool) (s : List (Option T)) (t : T)
    → find eq s t ≡ none
    → (i : ℕ) (u : T) → get_elem? s i ≡ some (some u)
    → eq u t ≢ true
unfolding find
find-none eq [] t h i u k = absurd (ground arith)
find-none eq (none ∷ os) t h zero u k = absurd (ground arith)
find-none eq (none ∷ os) t h (suc i) u k = find-none eq os t (earlier (find eq os t) h) i u k
find-none eq (some v ∷ os) t h zero u k = elim (Bool-cases (eq v t)) [
  | inl e ↦ absurd (ground (arith, e))
  | inr e ↦ ground (arith, e)
]
find-none eq (some v ∷ os) t h (suc i) u k = elim (Bool-cases (eq v t)) [
  | inl e ↦ absurd (ground (arith, e))
  | inr e ↦ find-none eq os t (earlier (find eq os t) (ground (arith, e))) i u k
]

fold_add :
    {T M : Type 0} (default : T) (add : T → T → T) (none_of : M) (plus : M → M → M) (h : T → M)
    → h default ≡ none_of
    → ((a b : T) → h (add a b) ≡ plus (h a) (h b))
    → (l : List T) → h (fold_map default add (λ t. t) l) ≡ fold_map none_of plus h l
fold_add default add none_of plus h z a [] = z
fold_add default add none_of plus h z a (t ∷ ts) =
    a t _ ∙ ap (plus (h t)) (fold_add default add none_of plus h z a ts)

full_iff :
    {T : Type 0} (s : List (Option T)) → (full s ≡ true) ↔ ((l : List T) × (sequence s ≡ some l))
unfolding full
full_iff s = elim (Option-cases (sequence s)) [
  | inl e ↦ (λ h. absurd (ground (arith, e)), λ (l, h). absurd (ground (arith, e)))
  | inr (l, e) ↦ (λ h. (l, e), λ h. rw (e, full) refl)
]

pub lists_laws : FixedSetLaws lists
unfolding lists sum_places
lists_laws = record {
  places = λ s. s;
  places-new = λ n. refl;
  places-set_item = λ s i t. refl;
  set_item_bounds = λ s i t. refl;
  get_item_lem = λ s i. refl;
  is_full_iff = full_iff;
  search_some = find-some;
  search_none = find-none;
  sum_full = λ default add n plus h z a _ _ _ s l e. (
    fold_map default add (λ t. t) l,
    rw (e, sum_places) refl,
    fold_add default add n plus h z a l,
  );
}
