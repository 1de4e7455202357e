-- ===== src/MuSig/Filling.antt =====
-- Filling a set at different places, item by item, until it is full: what the set then holds, and
-- the run of a ceremony whose events fill it.
use tari_crypto.Base.{
  ℕ, ◌<◌, length, ◌≡◌, ◌≢◌, refl, sym, ap, subst, ◌∙◌, true, false, ◌⊎◌, inl, inr, some, List, [],
  ◌∷◌, map, All, get_elem?, sequence, Bool-cases, Run, done, panic, ◌>>=◌, if◌then◌else◌, arith,
}
use tari_crypto.Keys.{PublicKey}
use tari_crypto.External.{Digest, FixedSet, FixedSetLaws}
use tari_crypto.MuSig.States.{MuSigState, MuSigEvent}
use tari_crypto.MuSig.Places.{At, At-set_item}
use tari_crypto.MuSig.Machine.{next_state, handle_event, run}
use tari_crypto.MuSig.Vacant.{
  Separate, Free, Vacant, get_elem?-set_self, get_elem?-set_other, full_of_nones, nones_of_full,
  set-Vacant,
}

module _ (fs : FixedSet) (fl : FixedSetLaws fs) {X T : Type 0} (place : X → ℕ) (item : X → T) where
  open fl use {places}

  -- The set with the items written to their places in turn.
  unfoldable pub fill : fs.Set T → List X → fs.Set T
  fill s [] = s
  fill s (x ∷ xs) = fill (fs.set_item s (place x) (item x)).0 xs

  pub set_item-Vacant :
      (s : fs.Set T) (x : X) (xs : List X)
      → Separate (map place (x ∷ xs))
      → Vacant (places s) (map place (x ∷ xs))
      → Vacant (places (fs.set_item s (place x) (item x)).0) (map place xs)
  set_item-Vacant s x xs h v =
      subst (λ os. Vacant os (map place xs)) (sym (fl.places-set_item s (place x) (item x)))
        (set-Vacant (places s) (place x) (item x) (map place xs) h v)

  pub fill-full :
      (s : fs.Set T) (xs : List X)
      → Separate (map place xs)
      → Vacant (places s) (map place xs)
      → (l : List T) × (sequence (places (fill s xs)) ≡ some l)
  unfolding fill
  fill-full s [] h v = full_of_nones (places s) v.counted
  fill-full s (x ∷ xs) h v =
      fill-full (fs.set_item s (place x) (item x)).0 xs h.1 (set_item-Vacant s x xs h v)

  fill-keeps :
      (s : fs.Set T) (xs : List X) (i : ℕ) (t : T)
      → All (λ j. i ≢ j) (map place xs)
      → At (places s) i t
      → At (places (fill s xs)) i t
  unfolding fill
  fill-keeps s [] i t h a = a
  fill-keeps s (x ∷ xs) i t h a = fill-keeps (fs.set_item s (place x) (item x)).0 xs i t h.1 (
      ap (λ os. get_elem? os i) (fl.places-set_item s (place x) (item x))
      ∙ (get_elem?-set_other (places s) (place x) i (some (item x)) (λ e. h.0 (sym e)) ∙ a))

  -- Each item stands in its place.
  pub fill-At :
      (s : fs.Set T) (xs : List X)
      → Separate (map place xs)
      → Vacant (places s) (map place xs)
      → All (λ x. At (places (fill s xs)) (place x) (item x)) xs
  unfolding fill
  fill-At s [] h v = tt
  fill-At s (x ∷ xs) h v = (
    fill-keeps (fs.set_item s (place x) (item x)).0 xs (place x) (item x) h.0 (
        ap (λ os. get_elem? os (place x)) (fl.places-set_item s (place x) (item x))
        ∙ get_elem?-set_self (places s) (place x) (item x) v.free.0),
    fill-At (fs.set_item s (place x) (item x)).0 xs h.1 (set_item-Vacant s x xs h v),
  )

  -- The item of some entry of the list stands at its place.
  abbrev pub Found : List X → ℕ → T → Type 0
  Found [] j u = ⊥
  Found (x ∷ xs) j u = ((place x ≡ j) × (item x ≡ u)) ⊎ Found xs j u

  pub fill-Found :
      (s : fs.Set T) (xs : List X) (j : ℕ) (u : T)
      → At (places (fill s xs)) j u
      → At (places s) j u ⊎ Found xs j u
  unfolding fill
  fill-Found s [] j u h = inl h
  fill-Found s (x ∷ xs) j u h = elim (fill-Found (fs.set_item s (place x) (item x)).0 xs j u h) [
    | inr f ↦ inr (inr f)
    | inl a ↦ elim (At-set_item fs fl s (place x) j (item x) u a) [
      | inl here ↦ inr (inl here)
      | inr old ↦ inl old
    ]
  ]

  pub All-Found :
      (Q : T → Type 0) (xs : List X) (j : ℕ) (u : T) → All Q (map item xs) → Found xs j u → Q u
  All-Found Q [] j u a f = absurd f
  All-Found Q (x ∷ xs) j u a (inl (e, e')) = subst Q e' a.0
  All-Found Q (x ∷ xs) j u a (inr f) = All-Found Q xs j u a.1 f

bind_done {ℓ κ} :
    {A : Type ℓ} {B : Type κ} (r : Run A) (f : A → B)
    → ((r >>= λ a. done (f a)) >>= λ b. done b) ≡ (r >>= λ a. done (f a))
bind_done (done a) f = refl
bind_done panic f = refl

module _ {K P : Type 0} (pk : PublicKey K P) (d : Digest) (fs : FixedSet) (fl : FixedSetLaws fs)
    {X T : Type 0} (place : X → ℕ) (item : X → T) (event : X → MuSigEvent K P)
    (wrap : fs.Set T → MuSigState fs K P) (finish : fs.Set T → Run (MuSigState fs K P)) where
  open fl use {places}

  -- In a state with a free place for it, the event writes the item there, and the state is left
  -- when the set is full.
  abbrev pub Accepts : X → Type 0
  Accepts x =
      (s : fs.Set T)
      → Free (places s) (place x)
      → next_state pk d fs (wrap s) (event x) ≡ (
          if fs.is_full (fs.set_item s (place x) (item x)).0
          then finish (fs.set_item s (place x) (item x)).0
          else done (wrap (fs.set_item s (place x) (item x)).0))

  pub fill-run :
      (s : fs.Set T) (xs : List X)
      → 0 < length xs
      → Separate (map place xs)
      → Vacant (places s) (map place xs)
      → All Accepts xs
      → run pk d fs (record { state = wrap s }) (map event xs)
        ≡ (finish (fill fs fl place item s xs) >>= λ t. done (record { state = t }))
  unfolding run handle_event fill
  fill-run s [] l h v a = absurd (omega arith)
  fill-run s (x ∷ []) l h v a =
      let s' = (fs.set_item s (place x) (item x)).0 in
      let v' = set_item-Vacant fs fl place item s x [] h v in
      let full : fs.is_full s' ≡ true =
        (fl.is_full_iff s').1 (full_of_nones (places s') v'.counted) in
      rw (a.0 s v.free.0, full) (bind_done (finish s') (λ t. record { state = t }))
  fill-run s (x ∷ y ∷ ys) l h v a =
      let s' = (fs.set_item s (place x) (item x)).0 in
      let v' = set_item-Vacant fs fl place item s x (y ∷ ys) h v in
      let more : fs.is_full s' ≡ false = elim (Bool-cases (fs.is_full s')) [
        | inl full ↦
            let (l, e) = (fl.is_full_iff s').0 full in
            absurd (omega (arith, nones_of_full (places s') l e, v'.counted))
        | inr e ↦ e
      ] in
      rw (a.0 s v.free.0, more) (fill-run s' (y ∷ ys) (omega arith) h.1 v' a.1)
