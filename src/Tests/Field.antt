-- ===== src/Tests/Field.antt =====
-- The field of two elements in place of `curve25519_dalek`: scalars and points are both `Bool`, with
-- 32-byte encodings.
use tari_crypto.Base.{
  ◌==◌, ◌%◌, ◌≡◌, refl, sym, ◌↔◌, Bool, true, false, Option, none, some, List, [], ◌∷◌, Bytes,
  length, replicate, if◌then◌else◌, arith, Bool-cases, inl, inr,
}
use tari_crypto.Base.Order.{cmp_bytes, eq_bytes, eq_bytes_iff}
use tari_crypto.Ristretto.Dalek.{Dalek, DalekLaws}

abbrev pub xor : Bool → Bool → Bool
xor true true = false
xor true false = true
xor false b = b

abbrev pub and : Bool → Bool → Bool
and true b = b
and false b = false

abbrev pub same : Bool → Bool → Bool
same true b = b
same false true = false
same false false = true

abbrev pub encode : Bool → Bytes
encode b = (if b then 1 else 0) ∷ replicate 31 0

abbrev pub decode : Bytes → Bool
decode [] = false
decode (x ∷ xs) = x % 2 == 1

unfoldable pub decode_point : Bytes → Option Bool
unfolding eq_bytes
decode_point c =
    if eq_bytes c (encode true)
    then some true
    else if eq_bytes c (encode false)
    then some false
    else none

abbrev pub dot_product : List Bool → List Bool → Bool
dot_product (a ∷ as') (p ∷ ps) = xor (and a p) (dot_product as' ps)
dot_product _ _ = false

abbrev pub two : Dalek
two = record {
  Scalar = Bool;
  scalar_zero = false;
  scalar_add = xor;
  scalar_sub = xor;
  scalar_mul = and;
  scalar_eq = same;
  scalar_from_u64 = λ n. n % 2 == 1;
  from_bytes_mod_order = decode;
  scalar_as_bytes = encode;
  Point = Bool;
  identity = false;
  point_add = xor;
  point_sub = xor;
  point_mul = and;
  point_eq = same;
  basepoint = true;
  basepoint_table_mul = λ a. a;
  multiscalar_mul = dot_product;
  compress = encode;
  decompress = decode_point;
}

xor_comm : (a b : Bool) → xor a b ≡ xor b a
xor_comm true true = refl
xor_comm true false = refl
xor_comm false true = refl
xor_comm false false = refl

xor_assoc : (a b c : Bool) → xor (xor a b) c ≡ xor a (xor b c)
xor_assoc true true true = refl
xor_assoc true true false = refl
xor_assoc true false c = refl
xor_assoc false b c = refl

xor_cancel : (a b : Bool) → xor (xor a b) b ≡ a
xor_cancel true true = refl
xor_cancel true false = refl
xor_cancel false true = refl
xor_cancel false false = refl

and_comm : (a b : Bool) → and a b ≡ and b a
and_comm true true = refl
and_comm true false = refl
and_comm false true = refl
and_comm false false = refl

and_assoc : (a b c : Bool) → and (and a b) c ≡ and a (and b c)
and_assoc true b c = refl
and_assoc false b c = refl

xor-and : (a b c : Bool) → and (xor a b) c ≡ xor (and a c) (and b c)
xor-and true true true = refl
xor-and true true false = refl
xor-and true false true = refl
xor-and true false false = refl
xor-and false b c = refl

and-xor : (a b c : Bool) → and a (xor b c) ≡ xor (and a b) (and a c)
and-xor true b c = refl
and-xor false b c = refl

and_false : (a : Bool) → and a false ≡ false
and_false true = refl
and_false false = refl

and_true : (a : Bool) → a ≡ and a true
and_true true = refl
and_true false = refl

same_iff : (a b : Bool) → (same a b ≡ true) ↔ (a ≡ b)
same_iff true b = (λ h. sym h, λ h. sym h)
same_iff false true = (λ h. absurd (ground arith), λ h. absurd (ground arith))
same_iff false false = (λ h. refl, λ h. refl)

encode_length : (b : Bool) → length (encode b) ≡ 32
encode_length b = refl

decode-encode : (b : Bool) → decode (encode b) ≡ b
decode-encode true = refl
decode-encode false = refl

decode_point-encode : (b : Bool) → decode_point (encode b) ≡ some b
unfolding decode_point cmp_bytes
decode_point-encode true = refl
decode_point-encode false = refl

encode-decode_point : (c : Bytes) (p : Bool) → decode_point c ≡ some p → encode p ≡ c
unfolding decode_point
encode-decode_point c p h = elim (Bool-cases (eq_bytes c (encode true))) [
  | inl e ↦ ground (arith, e, (eq_bytes_iff c (encode true)).0 e)
  | inr e ↦ elim (Bool-cases (eq_bytes c (encode false))) [
    | inl e' ↦ ground (arith, e, e', (eq_bytes_iff c (encode false)).0 e')
    | inr e' ↦ ground (arith, e, e')
  ]
]

pub two_laws : DalekLaws two
two_laws = record {
  scalar_add_comm = xor_comm;
  scalar_add_assoc = xor_assoc;
  zero-scalar_add = λ a. refl;
  scalar_sub-add = xor_cancel;
  scalar_mul_comm = and_comm;
  scalar_mul_assoc = and_assoc;
  scalar_add-mul = xor-and;
  scalar_eq_iff = same_iff;
  scalar_length = encode_length;
  scalar_round_trip = decode-encode;
  point_add_comm = xor_comm;
  point_add_assoc = xor_assoc;
  identity-point_add = λ p. refl;
  point_sub-add = xor_cancel;
  point_add-sub = xor_cancel;
  point_mul-add = xor-and;
  point_mul-mul = and_assoc;
  point_mul-point_add = and-xor;
  point_mul-zero = λ p. refl;
  point_mul-identity = and_false;
  basepoint_table_mul_lem = and_true;
  multiscalar_mul_nil = refl;
  multiscalar_mul_cons = λ a scalars p points h. refl;
  point_eq_iff = same_iff;
  compress_length = encode_length;
  decompress-compress = decode_point-encode;
  compress-decompress = encode-decode_point;
}
