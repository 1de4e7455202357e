-- ===== src/MuSig/Seats.antt =====
-- The places of the participants: the index of each key in the joint key that was built from them.
use tari_crypto.Base.{
  ℕ, zero, suc, ◌<◌, ◌≡◌, ◌≢◌, refl, sym, ap, subst, ◌∙◌, List, [], ◌∷◌, map, All, some, ok, err,
  length, get_elem?, get_elem?-lt, Ordering, inl, inr, arith,
}
use tari_crypto.Base.Order.{Ordering-cases}
use tari_crypto.Keys.{PublicKey}
use tari_crypto.Keys.Laws.{KeyLaws, cmp-eq_iff}
use tari_crypto.Std.Sort.{Distinct, sort, insert}
use tari_crypto.JointKey.{JointKey, index_of}
use tari_crypto.JointKey.Build.{IsJoint, index_of_iff}
use tari_crypto.MuSig.Vacant.{Separate}

module _ {A : Type 0} where
  abbrev pub Has : List A → A → Type 0
  Has xs x = (i : ℕ) × (get_elem? xs i ≡ some x)

  pub Has-cons : (x y : A) (xs : List A) → Has xs y → Has (x ∷ xs) y
  Has-cons x y xs (i, h) = (suc i, h)

  behind : (y z : A) (ys zs : List A) → (Has ys z → Has zs z) → Has (y ∷ ys) z → Has (y ∷ zs) z
  behind y z ys zs keep (zero, t) = (zero, t)
  behind y z ys zs keep (suc i, t) = Has-cons y z zs (keep (i, t))

  module _ (cmp : A → A → Ordering) where
    insert_there : (x : A) (ys : List A) → Has (insert cmp x ys) x
    unfolding insert
    insert_there x [] = (zero, refl)
    insert_there x (y ∷ ys) = elim (Ordering-cases (cmp x y)) [
      | inl e ↦ rw (e, insert) (zero, refl)
      | inr (inl e) ↦ rw (e, insert) (zero, refl)
      | inr (inr e) ↦ rw (e, insert) (Has-cons y x (insert cmp x ys) (insert_there x ys))
    ]

    insert_keeps : (x z : A) (ys : List A) → Has ys z → Has (insert cmp x ys) z
    unfolding insert
    insert_keeps x z [] h = Has-cons x z [] h
    insert_keeps x z (y ∷ ys) h =
        let kept = behind y z ys (insert cmp x ys) (insert_keeps x z ys) h in
        elim (Ordering-cases (cmp x y)) [
          | inl e ↦ rw (e, insert) (Has-cons x z (y ∷ ys) h)
          | inr (inl e) ↦ rw (e, insert) (Has-cons x z (y ∷ ys) h)
          | inr (inr e) ↦ rw (e, insert) kept
        ]

    sort_keeps : (z : A) (xs : List A) → Has xs z → Has (sort cmp xs) z
    unfolding sort
    sort_keeps z [] h = h
    sort_keeps z (x ∷ xs) (zero, t) =
        let same : x ≡ z = ground arith in
        subst (λ w. Has (insert cmp x (sort cmp xs)) w) same (insert_there x (sort cmp xs))
    sort_keeps z (x ∷ xs) (suc i, t) = insert_keeps x z (sort cmp xs) (sort_keeps z xs (i, t))

module _ {K P : Type 0} (pk : PublicKey K P) where
  -- The index of a key; 0 where it has none.
  pub seat : JointKey P K → P → ℕ
  seat jk p = elim (index_of pk jk p) [ ok i ↦ i | err _ ↦ 0 ]

module _ {K P : Type 0} {pk : PublicKey K P} (laws : KeyLaws pk) (jk : JointKey P K)
    (joint : IsJoint laws jk) where
  open laws use {value}

  abbrev pub Seated : P → Type 0
  Seated p = index_of pk jk p ≡ ok (seat pk jk p)

  seated : (p : P) → Has jk.pub_keys p → Seated p
  unfolding seat
  seated p (i, h) =
      let found = (index_of_iff laws jk p i joint).1 (p, h, (laws.eq_iff p p).1 refl) in
      rw (found, seat) refl

  seat_other :
      (p q : P) → Seated p → Seated q → pk.cmp p q ≢ Ordering.eq → seat pk jk p ≢ seat pk jk q
  seat_other p q hp hq n e =
      let (p', tp, sp) = (index_of_iff laws jk p (seat pk jk p) joint).0 hp in
      let (q', tq, sq) = (index_of_iff laws jk q (seat pk jk q) joint).0 hq in
      let same : p' ≡ q' = ground (arith, tp, tq, e) in
      let equal : value p ≡ value q =
        sym ((laws.eq_iff p' p).0 sp) ∙ (ap value same ∙ (laws.eq_iff q' q).0 sq) in
      n ((cmp-eq_iff laws p q).1 ((laws.eq_iff p q).1 equal))

  seats_other :
      (p : P) (qs : List P)
      → Seated p
      → All Seated qs
      → All (λ q. pk.cmp p q ≢ Ordering.eq) qs
      → All (λ j. seat pk jk p ≢ j) (map (seat pk jk) qs)
  seats_other p [] h hs d = tt
  seats_other p (q ∷ qs) h hs d = (seat_other p q h hs.0 d.0, seats_other p qs h hs.1 d.1)

  -- Different keys have different places.
  pub seats-Separate :
      (ps : List P) → All Seated ps → Distinct pk.cmp ps → Separate (map (seat pk jk) ps)
  seats-Separate [] h d = tt
  seats-Separate (p ∷ ps) h d = (seats_other p ps h.0 h.1 d.0, seats-Separate ps h.1 d.1)

  All-Seated :
      (ps qs : List P)
      → ((p : P) → Has qs p → Has ps p)
      → jk.pub_keys ≡ sort pk.cmp ps
      → All Seated qs
  All-Seated ps [] sub e = tt
  All-Seated ps (q ∷ qs) sub e = (
    seated q (subst (λ l. Has l q) (sym e) (sort_keeps pk.cmp q ps (sub q (zero, refl)))),
    All-Seated ps qs (λ p h. sub p (Has-cons q p qs h)) e,
  )

  -- Every key from which the joint key was built has a place.
  pub keys-Seated : (ps : List P) → jk.pub_keys ≡ sort pk.cmp ps → All Seated ps
  keys-Seated ps e = All-Seated ps ps (λ p h. h) e

  pub seats-lt :
      (ps : List P) → All Seated ps → All (λ i. i < length jk.pub_keys) (map (seat pk jk) ps)
  seats-lt [] h = tt
  seats-lt (p ∷ ps) h =
      let (q, t, _) = (index_of_iff laws jk p (seat pk jk p) joint).0 h.0 in
      (get_elem?-lt jk.pub_keys (seat pk jk p) t, seats-lt ps h.1)
