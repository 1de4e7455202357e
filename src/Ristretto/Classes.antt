-- ===== src/Ristretto/Classes.antt =====
-- src/ristretto/ristretto_keys.rs: public keys up to their equality, which is not that of their
-- representations, since a key may have its compressed point in its cell or not.
use mathlib.Core.Quot
use mathlib.Core.Quot.{Quot, Quot-set}
use mathlib.Core.HLevel.{hedberg}
use tari_crypto.Base.{◌≡◌, refl, sym, ap, ◌∙◌, ◌↔◌, inl, inr, true, Bool-cases, arith}
use tari_crypto.Ristretto.Dalek.{Dalek, DalekLaws}
use tari_crypto.Ristretto.Keys.{
  RistrettoSecretKey, RistrettoPublicKey, as_bytes, new_from_pk, public_eq, public_add, public_sub,
  secret_mul_public, from_secret_key,
}
use tari_crypto.Ristretto.KeyLaws.{as_bytes-compress, compress_inj}

module _ {dk : Dalek} (laws : DalekLaws dk) where
  abbrev pub Alike : RistrettoPublicKey dk → RistrettoPublicKey dk → Type 0
  Alike p q = public_eq p q ≡ true

  abbrev pub KeyClass : Type 0
  KeyClass = Quot Alike

  pub Alike-point : (p q : RistrettoPublicKey dk) → Alike p q → p.point ≡ q.point
  unfolding public_eq
  Alike-point p q h = (laws.point_eq_iff p.point q.point).0 h

  point-Alike : (p q : RistrettoPublicKey dk) → p.point ≡ q.point → Alike p q
  unfolding public_eq
  point-Alike p q h = (laws.point_eq_iff p.point q.point).1 h

  pub point_set : IsSet dk.Point
  point_set = hedberg (λ x y. elim (Bool-cases (dk.point_eq x y)) [
    | inl e ↦ yes ((laws.point_eq_iff x y).0 e)
    | inr e ↦ no (λ h. absurd (ground (arith, (laws.point_eq_iff x y).1 h)))
  ])

  abbrev pub class_of : RistrettoPublicKey dk → KeyClass
  class_of p = Quot.mk p

  -- The class of the keys of a point, and the point of a class.
  unfoldable pub point_class : dk.Point → KeyClass
  unfolding new_from_pk
  point_class x = Quot.mk (new_from_pk x)

  abbrev pub class_point : KeyClass → dk.Point
  class_point = Quot.lift point_set (λ p. p.point) Alike-point

  class_path : (p q : RistrettoPublicKey dk) → p.point ≡ q.point → class_of p ≡ class_of q
  class_path p q h = Quot.sound (point-Alike p q h)

  point_class-class_point : (c : KeyClass) → point_class (class_point c) ≡ c
  unfolding point_class new_from_pk
  point_class-class_point = Quot.ind (λ c. Quot-set _ _) (λ p. Quot.sound (point-Alike _ p refl))

  class_of_iff : (p q : RistrettoPublicKey dk) → (class_of p ≡ class_of q) ↔ (Alike p q)
  class_of_iff p q = (λ h. point-Alike p q (ap class_point h), λ h. Quot.sound h)

  as_bytes_iff : (p q : RistrettoPublicKey dk) → (as_bytes p ≡ as_bytes q) ↔ (Alike p q)
  as_bytes_iff p q = (
    λ h. point-Alike p q (
        compress_inj laws p.point q.point
          (sym (as_bytes-compress laws p) ∙ (h ∙ as_bytes-compress laws q))),
    λ h.
        as_bytes-compress laws p
        ∙ (ap dk.compress (Alike-point p q h) ∙ sym (as_bytes-compress laws q)),
  )

  -- Public keys up to their equality are exactly the points, whatever their cells hold: keys are of
  -- one class just when they compare as equal, and just when their bytes are the same; every class
  -- is that of its point, and every point that of its class. Sums, differences and products of keys
  -- and the key of a secret have the class of the sum, the difference and the multiple of points.
  pub key_classes :
      ((p q : RistrettoPublicKey dk)
        → ((class_of p ≡ class_of q) ↔ (public_eq p q ≡ true))
          × ((as_bytes p ≡ as_bytes q) ↔ (public_eq p q ≡ true)))
      × ((c : KeyClass) → point_class (class_point c) ≡ c)
      × ((x : dk.Point) → class_point (point_class x) ≡ x)
      × ((p q : RistrettoPublicKey dk)
          → (class_of (public_add p q)
              ≡ point_class (dk.point_add (class_point (class_of p)) (class_point (class_of q))))
            × (class_of (public_sub p q)
                ≡ point_class (dk.point_sub (class_point (class_of p)) (class_point (class_of q)))))
      × ((a : RistrettoSecretKey dk) (p : RistrettoPublicKey dk)
          → (class_of (secret_mul_public a p)
              ≡ point_class (dk.point_mul a.scalar (class_point (class_of p))))
            × (class_of (from_secret_key a) ≡ point_class (dk.point_mul a.scalar dk.basepoint)))
  unfolding point_class public_add public_sub secret_mul_public from_secret_key new_from_pk
  key_classes = (
    λ p q. (class_of_iff p q, as_bytes_iff p q),
    point_class-class_point,
    λ x. refl,
    λ p q. (refl, refl),
    λ a p. (refl, ap point_class (laws.basepoint_table_mul_lem a.scalar)),
  )
