-- ===== src/Std/Search.antt =====
-- `slice::binary_search`, with its loop over `left` and `right` on fuel: each round at least halves
-- the range, so a round for each item and one to end it are enough.
use tari_crypto.Base.{
  ℕ, zero, suc, ◌+◌, ◌-◌, ◌/◌, ◌≤◌, ◌<◌, ◌≡◌, sym, ap, subst, ◌∙◌, ◌⊎◌, compare, List, [], ◌∷◌,
  none, some, Result, ok, err, Ordering, inl, inr, All, length, get_elem?, get_elem?-some,
  get_elem?-lt, ltb, if◌then◌else◌, Option-cases, arith,
}
use tari_crypto.Base.Order.{TotalOrder, Ordering-cases, congr_right, flip}
use tari_crypto.Std.Sort.{Ascending}

module _ {ℓ} {A : Type ℓ} (cmp : A → A → Ordering) where
  -- `cmp` compares the item at `mid` with the key.
  search_from : ℕ → A → List A → ℕ → ℕ → Result ℕ ℕ
  search_from zero key xs left right = err left
  search_from (suc fuel) key xs left right =
      let mid = left + (right - left) / 2 in
      let above = search_from fuel key xs (mid + 1) right in
      let below = search_from fuel key xs left mid in
      if ltb left right
      then elim (get_elem? xs mid) [
        | none ↦ err left
        | some a ↦ elim (cmp a key) [
          | Ordering.lt ↦ above
          | Ordering.gt ↦ below
          | Ordering.eq ↦ ok mid
        ]
      ]
      else err left

  unfoldable pub binary_search : List A → A → Result ℕ ℕ
  unfolding search_from
  binary_search xs key = search_from (length xs + 1) key xs 0 (length xs)

  search_from_sound :
      (fuel : ℕ) (key : A) (xs : List A) (left right : ℕ) {i : ℕ}
      → search_from fuel key xs left right ≡ ok i
      → (a : A) × (get_elem? xs i ≡ some a) × (cmp a key ≡ Ordering.eq)
  unfolding search_from
  search_from_sound zero key xs left right h = absurd (ground arith)
  search_from_sound (suc fuel) key xs left right {i} h =
      elim (Option-cases (get_elem? xs (left + (right - left) / 2))) [
        | inl gone ↦ absurd (ground arith)
        | inr (a, e) ↦ elim (Ordering-cases (cmp a key)) [
          | inl less ↦
              search_from_sound fuel key xs (left + (right - left) / 2 + 1) right (ground arith)
          | inr (inl same) ↦ (a, ground arith, same)
          | inr (inr more) ↦
              search_from_sound fuel key xs left (left + (right - left) / 2) (ground arith)
        ]
      ]

  -- An index that is found is that of an item equal to the key.
  pub binary_search_sound :
      (xs : List A) (key : A) {i : ℕ}
      → binary_search xs key ≡ ok i
      → (a : A) × (get_elem? xs i ≡ some a) × (cmp a key ≡ Ordering.eq)
  unfolding binary_search
  binary_search_sound xs key h = search_from_sound (length xs + 1) key xs 0 (length xs) h

  All-get :
      (Q : A → Type 0) (xs : List A) (i : ℕ) {a : A} → All Q xs → get_elem? xs i ≡ some a → Q a
  All-get Q [] i h e = absurd (ground arith)
  All-get Q (x ∷ xs) zero h e = subst Q (ground arith) h.0
  All-get Q (x ∷ xs) (suc i) h e = All-get Q xs i h.1 e

  Ascending-get :
      (xs : List A) (i j : ℕ) {a b : A}
      → Ascending cmp xs
      → i < j
      → get_elem? xs i ≡ some a
      → get_elem? xs j ≡ some b
      → cmp a b ≡ Ordering.lt
  Ascending-get [] i j s h p q = absurd (ground arith)
  Ascending-get (x ∷ xs) i zero s h p q = absurd (omega arith)
  Ascending-get (x ∷ xs) zero (suc j) {a} {b} s h p q =
      let e : x ≡ a = ground arith in subst (λ y. cmp y b ≡ Ordering.lt) e (All-get _ xs j s.0 q)
  Ascending-get (x ∷ xs) (suc i) (suc j) s h p q = Ascending-get xs i j s.1 (omega arith) p q

  module _ (o : TotalOrder cmp) (key : A) (xs : List A) (i : ℕ) {a : A} where
    -- Where the middle item stands to the item sought.
    side :
        (mid : ℕ) (b : A)
        → Ascending cmp xs
        → get_elem? xs i ≡ some a
        → cmp a key ≡ Ordering.eq
        → get_elem? xs mid ≡ some b
        → ((cmp b key ≡ Ordering.lt) × (mid < i))
          ⊎ (((cmp b key ≡ Ordering.gt) × (i < mid)) ⊎ ((cmp b key ≡ Ordering.eq) × (mid ≡ i)))
    side mid b s p e q = elim (Ordering-cases (compare mid i)) [
      | inl c ↦
          let l : mid < i = ground arith in
          inl (sym (congr_right o b a key e) ∙ Ascending-get xs mid i s l q p, l)
      | inr (inl c) ↦
          let l : mid ≡ i = ground arith in
          let same : b ≡ a = ground arith in
          inr (inr (subst (λ x. cmp x key ≡ Ordering.eq) (sym same) e, l))
      | inr (inr c) ↦
          let l : i < mid = ground arith in
          inr (
            inl (
              sym (congr_right o b a key e)
                  ∙ (o.flips a b ∙ ap flip (Ascending-get xs i mid s l p q)),
              l,
            ))
    ]

    search_from_complete :
        (fuel left right : ℕ)
        → Ascending cmp xs
        → get_elem? xs i ≡ some a
        → cmp a key ≡ Ordering.eq
        → left ≤ i
        → i < right
        → right ≤ length xs
        → right - left < fuel
        → search_from fuel key xs left right ≡ ok i
    unfolding search_from
    search_from_complete zero left right s p e l r n f = absurd (omega arith)
    search_from_complete (suc fuel) left right s p e l r n f =
        let mid = left + (right - left) / 2 in
        let (b, q) = get_elem?-some xs mid (omega arith) in
        elim (side mid b s p e q) [
          | inl (c, d) ↦
              let ih =
                search_from_complete fuel (mid + 1) right s p e (omega arith) r n (omega arith) in
              ground (arith, ih, q, c)
          | inr (inl (c, d)) ↦
              let ih = search_from_complete fuel left mid s p e l d (omega arith) (omega arith) in
              ground (arith, ih, q, c)
          | inr (inr (c, d)) ↦ ground (arith, q, c, d)
        ]

    -- In an ascending list the search finds an item that is there, at its own index.
    pub binary_search_complete :
        Ascending cmp xs
        → get_elem? xs i ≡ some a
        → cmp a key ≡ Ordering.eq
        → binary_search xs key ≡ ok i
    unfolding binary_search
    binary_search_complete s p e =
        search_from_complete (length xs + 1) 0 (length xs) s p e (omega arith) (get_elem?-lt xs i p)
          (omega arith) (omega arith)
