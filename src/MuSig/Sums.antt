-- ===== src/MuSig/Sums.antt =====
-- Sums over the participants: of nonces, of signatures, and of the verification equation.
use tari_crypto.Base.{ℕ, suc, ◌≡◌, refl, sym, ◌∙◌, List, [], ◌∷◌, some, length, get_elem?, arith}
use tari_crypto.Keys.{PublicKey}
use tari_crypto.Keys.Laws.{KeyLaws, dot, plus_interchange}
use tari_crypto.External.{fold_map}
use tari_crypto.Signatures.Schnorr.{SchnorrSignature}

module _ {K P : Type 0} {pk : PublicKey K P} (laws : KeyLaws pk) where
  open pk use {secret as sk}
  open laws use {Value, value, plus, act, base}

  -- Two lists whose items have pairwise the same image have the same sum.
  pub fold_map_congr :
      {A B : Type 0} (f : A → Value) (g : B → Value) (xs : List A) (ys : List B)
      → length xs ≡ length ys
      → ((i : ℕ) (x : A) (y : B) → get_elem? xs i ≡ some x → get_elem? ys i ≡ some y → f x ≡ g y)
      → fold_map laws.zero plus f xs ≡ fold_map laws.zero plus g ys
  fold_map_congr f g [] [] n h = refl
  fold_map_congr f g [] (y ∷ ys) n h = absurd (omega arith)
  fold_map_congr f g (x ∷ xs) [] n h = absurd (omega arith)
  fold_map_congr f g (x ∷ xs) (y ∷ ys) n h =
      cc
        (h 0 x y refl refl, fold_map_congr f g xs ys (omega arith) (λ i u v p q. h (suc i) u v p q))

  abbrev pub nonce_total : List (SchnorrSignature P K) → Value
  nonce_total = fold_map laws.zero plus (λ s. value s.public_nonce)

  abbrev pub scalar_total : List (SchnorrSignature P K) → Value
  scalar_total = fold_map laws.zero plus (λ s. act s.signature base)

  -- The verification equations of all participants add up to that of the joint key.
  pub total_verify :
      (e : K) (sigs : List (SchnorrSignature P K)) (scalars : List K) (keys : List P)
      → length sigs ≡ length scalars
      → length sigs ≡ length keys
      → ((i : ℕ) (s : SchnorrSignature P K) (a : K) (p : P)
          → get_elem? sigs i ≡ some s
          → get_elem? scalars i ≡ some a
          → get_elem? keys i ≡ some p
          → act s.signature base ≡ plus (value s.public_nonce) (act e (act a (value p))))
      → scalar_total sigs ≡ plus (nonce_total sigs) (act e (dot laws scalars keys))
  unfolding dot
  total_verify e [] [] [] m n h = sym (laws.zero-plus _ ∙ laws.act-zero e)
  total_verify e [] [] (p ∷ ps) m n h = absurd (omega arith)
  total_verify e [] (a ∷ scalars) keys m n h = absurd (omega arith)
  total_verify e (s ∷ sigs) [] keys m n h = absurd (omega arith)
  total_verify e (s ∷ sigs) (a ∷ scalars) [] m n h = absurd (omega arith)
  total_verify e (s ∷ sigs) (a ∷ scalars) (p ∷ ps) m n h = cc (
    h 0 s a p refl refl refl,
    total_verify e sigs scalars ps (omega arith) (omega arith)
        (λ i t b q x y z. h (suc i) t b q x y z),
    laws.act-plus e (act a (value p)) (dot laws scalars ps),
    plus_interchange laws (value s.public_nonce) (act e (act a (value p))) (nonce_total sigs)
        (act e (dot laws scalars ps)),
  )
