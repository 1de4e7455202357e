-- ===== src/External.antt =====
-- What the program takes from other packages, as parameters with the laws that it relies on: hash
-- functions (`digest::Digest`) and fixed-size sets (`tari_utilities::fixed_set::FixedSet`).
use tari_crypto.Base.{
  ℕ, ◌≡◌, ◌≢◌, ◌↔◌, Bool, true, Option, none, some, List, [], ◌∷◌, Bytes, length, set, get_elem?,
  replicate, sequence, ltb,
}

-- `finalize (chain (chain new a) b)` is `D::new().chain(a).chain(b).finalize()`.
pub record Digest : Type 1 where
  pub State : Type 0
  pub new : State
  pub chain : State → Bytes → State
  pub finalize : State → Bytes
  pub output_size : ℕ

-- `D::digest(data)`.
unfoldable pub digest : Digest → Bytes → Bytes
digest d input = d.finalize (d.chain d.new input)

-- A digest has the length that its type says.
pub record DigestLaws (d : Digest) : Type 0 where
  pub finalize_length : (s : d.State) → length (d.finalize s) ≡ d.output_size

-- A set of at most `n` items at the places 0 to n - 1. `search` is given the equality of items,
-- `sum` their default and addition.
pub record FixedSet : Type 1 where
  pub Set : Type 0 → Type 0
  pub new : {T : Type 0} → ℕ → Set T
  pub set_item : {T : Type 0} → Set T → ℕ → T → Set T × Bool
  pub get_item : {T : Type 0} → Set T → ℕ → Option T
  pub is_full : {T : Type 0} → Set T → Bool
  pub search : {T : Type 0} → (T → T → Bool) → Set T → T → Option ℕ
  pub sum : {T : Type 0} → T → (T → T → T) → Set T → Option T

abbrev pub join {ℓ} : {T : Type ℓ} → Option (Option T) → Option T
join none = none
join (some o) = o

abbrev pub fold_map {ℓ κ} : {T : Type ℓ} {M : Type κ} → M → (M → M → M) → (T → M) → List T → M
fold_map zero plus h [] = zero
fold_map zero plus h (t ∷ ts) = plus (h t) (fold_map zero plus h ts)

-- The documented behaviour, through the list of the places.
pub record FixedSetLaws (f : FixedSet) : Type 1 where
  pub places : {T : Type 0} → f.Set T → List (Option T)
  pub places-new : {T : Type 0} (n : ℕ) → places (f.new {T = T} n) ≡ replicate n none
  pub places-set_item :
      {T : Type 0} (s : f.Set T) (i : ℕ) (t : T)
      → places (f.set_item s i t).0 ≡ set (places s) i (some t)
  pub set_item_bounds :
      {T : Type 0} (s : f.Set T) (i : ℕ) (t : T) → (f.set_item s i t).1 ≡ ltb i (length (places s))
  pub get_item_lem :
      {T : Type 0} (s : f.Set T) (i : ℕ) → f.get_item s i ≡ join (get_elem? (places s) i)
  pub is_full_iff :
      {T : Type 0} (s : f.Set T)
      → (f.is_full s ≡ true) ↔ ((l : List T) × (sequence (places s) ≡ some l))
  -- a search finds an equal item, or there is none
  pub search_some :
      {T : Type 0} (eq : T → T → Bool) (s : f.Set T) (t : T) (i : ℕ)
      → f.search eq s t ≡ some i
      → (u : T) × (get_elem? (places s) i ≡ some (some u)) × (eq u t ≡ true)
  pub search_none :
      {T : Type 0} (eq : T → T → Bool) (s : f.Set T) (t : T)
      → f.search eq s t ≡ none
      → (i : ℕ) (u : T) → get_elem? (places s) i ≡ some (some u)
      → eq u t ≢ true
  -- the sum of a full set, in whatever way the items are added up
  pub sum_full :
      {T M : Type 0} (default : T) (add : T → T → T) (zero : M) (plus : M → M → M) (h : T → M)
      → h default ≡ zero
      → ((a b : T) → h (add a b) ≡ plus (h a) (h b))
      → ((x : M) → plus zero x ≡ x)
      → ((x y : M) → plus x y ≡ plus y x)
      → ((x y z : M) → plus (plus x y) z ≡ plus x (plus y z))
      → (s : f.Set T) (l : List T) → sequence (places s) ≡ some l
      → (t : T) × (f.sum default add s ≡ some t) × (h t ≡ fold_map zero plus h l)

-- `Hasher` of the language library; `hash_slice` is `Hash::hash` of a slice of bytes.
pub record Hasher : Type 1 where
  pub State : Type 0
  pub write : State → Bytes → State
  pub hash_slice : State → Bytes → State
