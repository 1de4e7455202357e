-- ===== src/MuSig/Append.antt =====
-- src/ristretto/musig.rs: the runs of two lists of events in turn, and lists of the entries of others.
use tari_crypto.Base.{◌≡◌, refl, ap, List, [], ◌∷◌, ◌++◌, map, All, Run, done, panic, ◌>>=◌, arith}
use tari_crypto.Keys.{PublicKey}
use tari_crypto.External.{Digest, FixedSet}
use tari_crypto.MuSig.States.{MuSigEvent}
use tari_crypto.MuSig.Machine.{MuSig, run, handle_event}

pub map-map {ℓ κ υ} :
    {A : Type ℓ} {B : Type κ} {C : Type υ} (g : B → C) (f : A → B) (xs : List A)
    → map g (map f xs) ≡ map (λ x. g (f x)) xs
map-map g f [] = refl
map-map g f (x ∷ xs) = ap (λ ys. g (f x) ∷ ys) (map-map g f xs)

pub All-unmap {ℓ κ υ} :
    {A : Type ℓ} {B : Type κ} (Q : B → Type υ) (f : A → B) (xs : List A)
    → All Q (map f xs)
    → All (λ x. Q (f x)) xs
All-unmap Q f [] h = tt
All-unmap Q f (x ∷ xs) h = (h.0, All-unmap Q f xs h.1)

pub All-append {ℓ κ} :
    {A : Type ℓ} (Q : A → Type κ) (xs ys : List A) → All Q xs → All Q ys → All Q (xs ++ ys)
All-append Q [] ys h k = k
All-append Q (x ∷ xs) ys h k = (h.0, All-append Q xs ys h.1 k)

pub All-front {ℓ κ} : {A : Type ℓ} (Q : A → Type κ) (xs ys : List A) → All Q (xs ++ ys) → All Q xs
All-front Q [] ys h = tt
All-front Q (x ∷ xs) ys h = (h.0, All-front Q xs ys h.1)

bind_then {ℓ κ} :
    {A : Type ℓ} {B : Type κ} (r : Run A) (f g : A → Run B) (b : B) (s : Run B)
    → ((a : A) → f a ≡ done b → g a ≡ s)
    → (r >>= f) ≡ done b
    → (r >>= g) ≡ s
bind_then (done a) f g b s h t = h a t
bind_then panic f g b s h t = absurd (ground arith)

module _ {K P : Type 0} (pk : PublicKey K P) (d : Digest) (fs : FixedSet) where
  -- The events of two lists in turn.
  pub run-append :
      (c c' : MuSig fs K P) (es es' : List (MuSigEvent K P))
      → run pk d fs c es ≡ done c'
      → run pk d fs c (es ++ es') ≡ run pk d fs c' es'
  unfolding run
  run-append c c' [] es' h = let same : c ≡ c' = ground arith in ap (λ x. run pk d fs x es') same
  run-append c c' (e ∷ es) es' h =
      bind_then (handle_event pk d fs c e) (λ m'. run pk d fs m' es) _ c' _
        (λ c₁ t. run-append c₁ c' es es' t) h
