-- ===== src/JointKey/Add.antt =====
-- Adding keys to the builder: what is well formed, and when keys are accepted.
use mathlib.Core.List.{append-nil, append_assoc}
use tari_crypto.Base.{
  ℕ, ◌≤◌, ◌<◌, ◌≡◌, ◌≢◌, ◌↔◌, refl, sym, ap, subst, ◌∙◌, true, false, ltb, List, [], ◌∷◌, ◌++◌,
  Result, ok, err, Ordering, ◌⊎◌, inl, inr, All, length, length-append, Bool-cases, Result-cases,
  arith,
}
use tari_crypto.Keys.{PublicKey}
use tari_crypto.Keys.Laws.{KeyLaws, cmp-eq_iff}
use tari_crypto.Std.Sort.{Distinct}
use tari_crypto.JointKey.{
  JointKeyBuilder, MuSigError, max_signatures, new, any_eq, key_exists, add_key, add_keys,
  duplicate_pub_key, too_many_participants,
}

module _ {K P : Type 0} (pk : PublicKey K P) where
  -- A builder holds different keys, as many as it has signers at most.
  pub record IsValid (b : JointKeyBuilder P) : Type 0 where
    pub distinct : Distinct pk.cmp b.pub_keys
    pub bounded : length b.pub_keys ≤ b.num_signers
    pub positive : 0 < b.num_signers
    pub capped : b.num_signers ≤ max_signatures

  pub new-IsValid : (n : ℕ) {b : JointKeyBuilder P} → new n ≡ ok b → IsValid b
  unfolding new
  new-IsValid n {b} h = ground arith

module _ {K P : Type 0} {pk : PublicKey K P} (laws : KeyLaws pk) where
  abbrev Fresh : P → List P → Type 0
  Fresh key xs = All (λ x. pk.cmp x key ≢ Ordering.eq) xs

  any_eq-Fresh : (key : P) (xs : List P) → any_eq pk key xs ≡ false → Fresh key xs
  unfolding any_eq
  any_eq-Fresh key [] h = tt
  any_eq-Fresh key (x ∷ xs) h =
      (λ e. ground (arith, (cmp-eq_iff laws x key).0 e), any_eq-Fresh key xs (ground arith))

  Fresh-any_eq : (key : P) (xs : List P) → Fresh key xs → any_eq pk key xs ≡ false
  unfolding any_eq
  Fresh-any_eq key [] h = refl
  Fresh-any_eq key (x ∷ xs) h = elim (Bool-cases (pk.eq x key)) [
    | inl e ↦ absurd (h.0 ((cmp-eq_iff laws x key).1 e))
    | inr e ↦ rw e (Fresh-any_eq key xs h.1)
  ]

  All-snoc : (Q : P → Type 0) (xs : List P) {key : P} → All Q xs → Q key → All Q (xs ++ key ∷ [])
  All-snoc Q [] h q = (q, tt)
  All-snoc Q (x ∷ xs) h q = (h.0, All-snoc Q xs h.1 q)

  All-last : (Q : P → Type 0) (xs : List P) {key : P} → All Q (xs ++ key ∷ []) → Q key
  All-last Q [] h = h.0
  All-last Q (x ∷ xs) h = All-last Q xs h.1

  All-prefix : (Q : P → Type 0) (xs ys : List P) → All Q (xs ++ ys) → All Q xs
  All-prefix Q [] ys h = tt
  All-prefix Q (x ∷ xs) ys h = (h.0, All-prefix Q xs ys h.1)

  Distinct-snoc :
      (xs : List P) (key : P) → Distinct pk.cmp xs → Fresh key xs → Distinct pk.cmp (xs ++ key ∷ [])
  Distinct-snoc [] key d f = (tt, tt)
  Distinct-snoc (x ∷ xs) key d f = (All-snoc _ xs d.0 f.0, Distinct-snoc xs key d.1 f.1)

  pub Distinct-prefix : (xs ys : List P) → Distinct pk.cmp (xs ++ ys) → Distinct pk.cmp xs
  Distinct-prefix [] ys d = tt
  Distinct-prefix (x ∷ xs) ys d = (All-prefix _ xs ys d.0, Distinct-prefix xs ys d.1)

  Distinct-last : (xs : List P) (key : P) → Distinct pk.cmp (xs ++ key ∷ []) → Fresh key xs
  Distinct-last [] key d = tt
  Distinct-last (x ∷ xs) key d = (All-last _ xs d.0, Distinct-last xs key d.1)

  pub add_key-IsValid :
      (b : JointKeyBuilder P) (key : P) → IsValid pk b → IsValid pk (add_key pk b key).0
  unfolding add_key key_exists
  add_key-IsValid b key v = ground (
    arith,
    any_eq-Fresh key b.pub_keys,
    Distinct-snoc b.pub_keys key v.distinct,
    length-append b.pub_keys (key ∷ []),
  )

  pub add_key-ok :
      (b : JointKeyBuilder P) (key : P)
      → Distinct pk.cmp (b.pub_keys ++ key ∷ [])
      → length b.pub_keys < b.num_signers
      → add_key pk b key
        ≡ (record b { pub_keys = b.pub_keys ++ key ∷ [] }, ok (length (b.pub_keys ++ key ∷ [])))
  unfolding add_key key_exists
  add_key-ok b key d h =
      ground (arith, Fresh-any_eq key b.pub_keys (Distinct-last b.pub_keys key d))

  -- A key that is accepted goes to the end.
  pub add_key_accepted :
      (b : JointKeyBuilder P) (key : P) (n : ℕ)
      → (add_key pk b key).1 ≡ ok n
      → (add_key pk b key).0 ≡ record b { pub_keys = b.pub_keys ++ key ∷ [] }
  unfolding add_key
  add_key_accepted b key n h = ground arith

  add_keys-IsValid :
      (b : JointKeyBuilder P) (ks : List P) → IsValid pk b → IsValid pk (add_keys pk b ks).0
  unfolding add_keys
  add_keys-IsValid b [] v = v
  add_keys-IsValid b (k ∷ ks) v =
      let v' = add_key-IsValid b k v in
      ground (arith, v', add_keys-IsValid (add_key pk b k).0 ks v')

  add_keys_accepted :
      (b : JointKeyBuilder P) (ks : List P) (n : ℕ)
      → (add_keys pk b ks).1 ≡ ok n
      → (add_keys pk b ks).0 ≡ record b { pub_keys = b.pub_keys ++ ks }
  unfolding add_keys
  add_keys_accepted b [] n h = cc (append-nil b.pub_keys)
  add_keys_accepted b (k ∷ ks) n h = elim (Result-cases (add_key pk b k).1) [
    | inl (m, e) ↦ ground (
      arith,
      e,
      add_key_accepted b k m e,
      add_keys_accepted (add_key pk b k).0 ks n,
      append_assoc b.pub_keys (k ∷ []) ks,
    )
    | inr (m, e) ↦ ground (arith, e)
  ]

  add_keys-ok :
      (b : JointKeyBuilder P) (ks : List P)
      → Distinct pk.cmp (b.pub_keys ++ ks)
      → length (b.pub_keys ++ ks) ≤ b.num_signers
      → add_keys pk b ks
        ≡ (record b { pub_keys = b.pub_keys ++ ks }, ok (length (b.pub_keys ++ ks)))
  unfolding add_keys
  add_keys-ok b [] d h = cc (append-nil b.pub_keys)
  add_keys-ok b (k ∷ ks) d h =
      let assoc = append_assoc b.pub_keys (k ∷ []) ks in
      let d' = subst (Distinct pk.cmp) (sym assoc) d in
      let n : length b.pub_keys < b.num_signers =
        omega (arith, length-append b.pub_keys (k ∷ ks)) in
      let here = add_key-ok b k (Distinct-prefix (b.pub_keys ++ k ∷ []) ks d') n in
      let b' : JointKeyBuilder P = record b { pub_keys = b.pub_keys ++ k ∷ [] } in
      let rest = add_keys-ok b' ks d' (omega (arith, h, ap length assoc)) in
      ground (arith, here, rest, assoc)

  -- A valid builder takes a list of keys just when they differ from one another and from the keys
  -- that it holds, and there is room for all. It then holds them behind its own.
  pub add_keys_iff :
      (b : JointKeyBuilder P) (ks : List P)
      → IsValid pk b
      → ((n : ℕ) × ((add_keys pk b ks).1 ≡ ok n)
          × ((add_keys pk b ks).0 ≡ record b { pub_keys = b.pub_keys ++ ks }))
        ↔ (Distinct pk.cmp (b.pub_keys ++ ks) × (length (b.pub_keys ++ ks) ≤ b.num_signers))
  add_keys_iff b ks v = (
    λ (n, e, e').
        let w : IsValid pk (record b { pub_keys = b.pub_keys ++ ks }) =
          subst (IsValid pk) e' (add_keys-IsValid b ks v) in
        (w.distinct, w.bounded),
    λ (d, h).
        let e = add_keys-ok b ks d h in
        (
          length (b.pub_keys ++ ks),
          ap (λ (r : JointKeyBuilder P × Result MuSigError ℕ). r.1) e,
          ap (λ (r : JointKeyBuilder P × Result MuSigError ℕ). r.0) e,
        ),
  )

  -- The key is equal to one of the list.
  abbrev pub Repeats : P → List P → Type 0
  Repeats key [] = ⊥
  Repeats key (x ∷ xs) = (pk.eq x key ≡ true) ⊎ Repeats key xs

  Repeats-any_eq : (key : P) (xs : List P) → any_eq pk key xs ≡ true → Repeats key xs
  unfolding any_eq
  Repeats-any_eq key [] h = absurd (ground arith)
  Repeats-any_eq key (x ∷ xs) h = elim (Bool-cases (pk.eq x key)) [
    | inl e ↦ inl e
    | inr e ↦ inr (Repeats-any_eq key xs (rw e at h))
  ]

  -- Why a list of keys is refused at one of them: it is equal to a key before it, or it is not and
  -- the builder is full.
  pub data IsRefused (b : JointKeyBuilder P) (held : List P) (k : P) : MuSigError → Type 0 where
    duplicate : Repeats k held → IsRefused b held k duplicate_pub_key
    full :
        Distinct pk.cmp (held ++ k ∷ [])
        → length held ≡ b.num_signers
        → IsRefused b held k too_many_participants

  IsRefused-congr :
      (b b' : JointKeyBuilder P)
      → b.num_signers ≡ b'.num_signers
      → {held : List P} {k : P} {e : MuSigError} → IsRefused b held k e
      → IsRefused b' held k e
  IsRefused-congr b b' same (duplicate r) = duplicate r
  IsRefused-congr b b' same (full d n) = full d (n ∙ same)

  add_key-IsRefused :
      (b : JointKeyBuilder P) (k : P) (e : MuSigError)
      → IsValid pk b
      → (add_key pk b k).1 ≡ err e
      → ((add_key pk b k).0 ≡ b) × IsRefused b b.pub_keys k e
  unfolding add_key key_exists
  add_key-IsRefused b k e v h = elim (Bool-cases (any_eq pk k b.pub_keys)) [
    | inl t ↦
        let same : duplicate_pub_key ≡ e = ground (arith, t) in
        (rw t refl, subst (IsRefused b b.pub_keys k) same (duplicate (Repeats-any_eq k _ t)))
    | inr t ↦ elim (Bool-cases (ltb (length b.pub_keys) b.num_signers)) [
      | inl room ↦ absurd (ground (arith, t, room))
      | inr none_left ↦
          let same : too_many_participants ≡ e = ground (arith, t, none_left) in
          (
            rw (t, none_left) refl,
            subst (IsRefused b b.pub_keys k) same (
                full (Distinct-snoc b.pub_keys k v.distinct (any_eq-Fresh k _ t))
                  (ground (arith, v.bounded, none_left))),
          )
    ]
  ]

  -- When adding a list of keys to a valid builder fails, it fails at one of them. The keys before
  -- that one are in the builder, behind those that it had. The error is `DuplicatePubKey` if the
  -- key is equal to one of these, and `TooManyParticipants` if it is not and these are as many as
  -- there are signers.
  pub add_keys_err :
      (b : JointKeyBuilder P) (ks : List P) (e : MuSigError)
      → IsValid pk b
      → (add_keys pk b ks).1 ≡ err e
      → (before : List P) × (k : P) × (after : List P) × (ks ≡ before ++ (k ∷ after))
        × ((add_keys pk b ks).0 ≡ record b { pub_keys = b.pub_keys ++ before })
        × IsRefused b (b.pub_keys ++ before) k e
  unfolding add_keys
  add_keys_err b [] e v h = absurd (ground arith)
  add_keys_err b (k ∷ ks) e v h = elim (Result-cases (add_key pk b k).1) [
    | inr (x, t) ↦
        let same : x ≡ e = ground (arith, t) in
        let (kept, refused) = add_key-IsRefused b k x v t in
        let nil = append-nil b.pub_keys in
        (
          [],
          k,
          ks,
          refl,
          ground (arith, t, kept, nil),
          rw nil (subst (IsRefused b b.pub_keys k) same refused),
        )
    | inl (m, t) ↦
        let b' : JointKeyBuilder P = record b { pub_keys = b.pub_keys ++ k ∷ [] } in
        let next : (add_key pk b k).0 ≡ b' = add_key_accepted b k m t in
        let v' : IsValid pk b' = subst (IsValid pk) next (add_key-IsValid b k v) in
        let h' : (add_keys pk b' ks).1 ≡ err e = ground (arith, t, next) in
        let (before, x, after, cut, kept, refused) = add_keys_err b' ks e v' h' in
        let assoc = append_assoc b.pub_keys (k ∷ []) before in
        (
          k ∷ before,
          x,
          after,
          cc cut,
          ground (arith, t, next, kept, assoc),
          IsRefused-congr b' b refl (rw assoc at refused),
        )
  ]
