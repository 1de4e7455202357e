-- ===== src/Tests/Classes.antt =====
-- Public keys up to their equality, over the two-element field.
use tari_crypto.Base.{◌≡◌, ◌↔◌, Bool, true}
use tari_crypto.Ristretto.Keys.{
  as_bytes, public_eq, public_add, public_sub, secret_mul_public, from_secret_key,
}
use tari_crypto.Ristretto.Classes.{KeyClass, class_of, class_point, point_class, key_classes}
use tari_crypto.Tests.Field.{two, two_laws}
use tari_crypto.Tests.Inputs.{K, P}

key_classes_example :
    ((p q : P)
      → ((class_of two_laws p ≡ class_of two_laws q) ↔ (public_eq p q ≡ true))
        × ((as_bytes p ≡ as_bytes q) ↔ (public_eq p q ≡ true)))
    × ((c : KeyClass two_laws) → point_class two_laws (class_point two_laws c) ≡ c)
    × ((x : Bool) → class_point two_laws (point_class two_laws x) ≡ x)
    × ((p q : P)
        → (class_of two_laws (public_add p q)
            ≡ point_class two_laws (
                two.point_add
                  (class_point two_laws (class_of two_laws p))
                  (class_point two_laws (class_of two_laws q))))
          × (class_of two_laws (public_sub p q)
              ≡ point_class two_laws (
                  two.point_sub
                    (class_point two_laws (class_of two_laws p))
                    (class_point two_laws (class_of two_laws q)))))
    × ((a : K) (p : P)
        → (class_of two_laws (secret_mul_public a p)
            ≡ point_class two_laws
                (two.point_mul a.scalar (class_point two_laws (class_of two_laws p))))
          × (class_of two_laws (from_secret_key a)
              ≡ point_class two_laws (two.point_mul a.scalar two.basepoint)))
key_classes_example = key_classes two_laws
