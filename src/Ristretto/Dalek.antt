-- ===== src/Ristretto/Dalek.antt =====
-- `curve25519_dalek`, as a parameter: scalars, points of the group, and the compressed points, with
-- the documented laws that the source relies on.
use tari_crypto.Base.{ℕ, ◌≡◌, ◌↔◌, Bool, true, Option, some, List, [], ◌∷◌, Bytes, length}

pub record Dalek : Type 1 where
  pub Scalar : Type 0
  pub scalar_zero : Scalar
  pub scalar_add : Scalar → Scalar → Scalar
  pub scalar_sub : Scalar → Scalar → Scalar
  pub scalar_mul : Scalar → Scalar → Scalar
  pub scalar_eq : Scalar → Scalar → Bool
  pub scalar_from_u64 : ℕ → Scalar
  pub from_bytes_mod_order : Bytes → Scalar
  pub scalar_as_bytes : Scalar → Bytes
  pub Point : Type 0
  pub identity : Point
  pub point_add : Point → Point → Point
  pub point_sub : Point → Point → Point
  pub point_mul : Scalar → Point → Point
  pub point_eq : Point → Point → Bool
  pub basepoint : Point
  -- multiplication by the precomputed table of the base point
  pub basepoint_table_mul : Scalar → Point
  pub multiscalar_mul : List Scalar → List Point → Point
  pub compress : Point → Bytes
  pub decompress : Bytes → Option Point

module _ (dk : Dalek) where
  open dk use {
    Scalar, scalar_zero, scalar_add, scalar_sub, scalar_mul, scalar_eq, from_bytes_mod_order,
    scalar_as_bytes, Point, identity, point_add, point_sub, point_mul, point_eq, basepoint,
    basepoint_table_mul, multiscalar_mul, compress, decompress,
  }

  pub record DalekLaws : Type 0 where
    -- the field of scalars, and its 32-byte encoding
    pub scalar_add_comm : (a b : Scalar) → scalar_add a b ≡ scalar_add b a
    pub scalar_add_assoc :
        (a b c : Scalar) → scalar_add (scalar_add a b) c ≡ scalar_add a (scalar_add b c)
    pub zero-scalar_add : (a : Scalar) → scalar_add scalar_zero a ≡ a
    pub scalar_sub-add : (a b : Scalar) → scalar_add (scalar_sub a b) b ≡ a
    pub scalar_mul_comm : (a b : Scalar) → scalar_mul a b ≡ scalar_mul b a
    pub scalar_mul_assoc :
        (a b c : Scalar) → scalar_mul (scalar_mul a b) c ≡ scalar_mul a (scalar_mul b c)
    pub scalar_add-mul :
        (a b c : Scalar)
        → scalar_mul (scalar_add a b) c ≡ scalar_add (scalar_mul a c) (scalar_mul b c)
    pub scalar_eq_iff : (a b : Scalar) → (scalar_eq a b ≡ true) ↔ (a ≡ b)
    pub scalar_length : (a : Scalar) → length (scalar_as_bytes a) ≡ 32
    pub scalar_round_trip : (a : Scalar) → from_bytes_mod_order (scalar_as_bytes a) ≡ a
    -- the group of points, and the action of the scalars
    pub point_add_comm : (p q : Point) → point_add p q ≡ point_add q p
    pub point_add_assoc :
        (p q r : Point) → point_add (point_add p q) r ≡ point_add p (point_add q r)
    pub identity-point_add : (p : Point) → point_add identity p ≡ p
    pub point_sub-add : (p q : Point) → point_add (point_sub p q) q ≡ p
    pub point_add-sub : (p q : Point) → point_sub (point_add p q) q ≡ p
    pub point_mul-add :
        (a b : Scalar) (p : Point)
        → point_mul (scalar_add a b) p ≡ point_add (point_mul a p) (point_mul b p)
    pub point_mul-mul :
        (a b : Scalar) (p : Point) → point_mul (scalar_mul a b) p ≡ point_mul a (point_mul b p)
    pub point_mul-point_add :
        (a : Scalar) (p q : Point)
        → point_mul a (point_add p q) ≡ point_add (point_mul a p) (point_mul a q)
    pub point_mul-zero : (p : Point) → point_mul scalar_zero p ≡ identity
    pub point_mul-identity : (a : Scalar) → point_mul a identity ≡ identity
    pub basepoint_table_mul_lem : (a : Scalar) → basepoint_table_mul a ≡ point_mul a basepoint
    pub multiscalar_mul_nil : multiscalar_mul [] [] ≡ identity
    -- it is an error to give lists of different lengths
    pub multiscalar_mul_cons :
        (a : Scalar) (scalars : List Scalar) (p : Point) (points : List Point)
        → length scalars ≡ length points
        → multiscalar_mul (a ∷ scalars) (p ∷ points)
          ≡ point_add (point_mul a p) (multiscalar_mul scalars points)
    pub point_eq_iff : (p q : Point) → (point_eq p q ≡ true) ↔ (p ≡ q)
    -- only the canonical encodings of points decompress
    pub compress_length : (p : Point) → length (compress p) ≡ 32
    pub decompress-compress : (p : Point) → decompress (compress p) ≡ some p
    pub compress-decompress : (c : Bytes) (p : Point) → decompress c ≡ some p → compress p ≡ c
