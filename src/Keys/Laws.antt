-- ===== src/Keys/Laws.antt =====
-- What the users of the key traits rely on: public keys stand for the elements of a group on which
-- the secret keys act, and are compared through an encoding of those elements.
use tari_crypto.Base.{
  ◌≡◌, sym, ap, ◌∙◌, ◌↔◌, true, List, [], ◌∷◌, Bytes, Ordering, ok, length, arith,
}
use tari_crypto.Base.Order.{
  cmp_bytes, cmp_bytes_refl, cmp_bytes-flip, cmp_bytes_trans, cmp_bytes_eq, TotalOrder,
}
use tari_crypto.Keys.{PublicKey}

pub record KeyLaws {K P : Type 0} (pk : PublicKey K P) : Type 1 where
  -- the group, and the element of a public key
  pub Value : Type 0
  pub value : P → Value
  pub plus : Value → Value → Value
  pub minus : Value → Value → Value
  pub act : K → Value → Value
  pub zero : Value
  pub base : Value
  pub encode : Value → Bytes
  -- secret keys are a commutative ring
  pub add_comm : (a b : K) → pk.secret.add a b ≡ pk.secret.add b a
  pub add_assoc :
      (a b c : K) → pk.secret.add (pk.secret.add a b) c ≡ pk.secret.add a (pk.secret.add b c)
  pub default-add : (a : K) → pk.secret.add pk.secret.default a ≡ a
  pub sub-add : (a b : K) → pk.secret.add (pk.secret.sub a b) b ≡ a
  pub mul_comm : (a b : K) → pk.secret.mul a b ≡ pk.secret.mul b a
  pub mul_assoc :
      (a b c : K) → pk.secret.mul (pk.secret.mul a b) c ≡ pk.secret.mul a (pk.secret.mul b c)
  pub add-mul :
      (a b c : K)
      → pk.secret.mul (pk.secret.add a b) c ≡ pk.secret.add (pk.secret.mul a c) (pk.secret.mul b c)
  -- bytes of a secret key
  pub secret_length : (a : K) → length (pk.secret.as_bytes a) ≡ pk.secret.key_length
  pub secret_round_trip : (a : K) → pk.secret.from_bytes (pk.secret.as_bytes a) ≡ ok a
  pub secret_total :
      (bytes : Bytes)
      → length bytes ≡ pk.secret.key_length
      → (a : K) × (pk.secret.from_bytes bytes ≡ ok a)
  pub secret_eq_iff : (a b : K) → (pk.secret.eq a b ≡ true) ↔ (a ≡ b)
  -- the group is commutative, and the action is linear in both arguments
  pub plus_comm : (x y : Value) → plus x y ≡ plus y x
  pub plus_assoc : (x y z : Value) → plus (plus x y) z ≡ plus x (plus y z)
  pub zero-plus : (x : Value) → plus zero x ≡ x
  pub minus-plus : (x y : Value) → plus (minus x y) y ≡ x
  pub plus-minus : (x y : Value) → minus (plus x y) y ≡ x
  pub act-add : (a b : K) (x : Value) → act (pk.secret.add a b) x ≡ plus (act a x) (act b x)
  pub act-mul : (a b : K) (x : Value) → act (pk.secret.mul a b) x ≡ act a (act b x)
  pub act-plus : (a : K) (x y : Value) → act a (plus x y) ≡ plus (act a x) (act a y)
  pub act-default : (x : Value) → act pk.secret.default x ≡ zero
  pub act-zero : (a : K) → act a zero ≡ zero
  -- the operations on public keys
  pub value-add : (p q : P) → value (pk.add p q) ≡ plus (value p) (value q)
  pub value-sub : (p q : P) → value (pk.sub p q) ≡ minus (value p) (value q)
  pub value-mul : (a : K) (p : P) → value (pk.mul a p) ≡ act a (value p)
  pub value-default : value pk.default ≡ zero
  pub value-from_secret_key : (a : K) → value (pk.from_secret_key a) ≡ act a base
  pub value-batch_mul_nil : value (pk.batch_mul [] []) ≡ zero
  pub value-batch_mul_cons :
      (a : K) (scalars : List K) (p : P) (ps : List P)
      → length scalars ≡ length ps
      → value (pk.batch_mul (a ∷ scalars) (p ∷ ps))
        ≡ plus (act a (value p)) (value (pk.batch_mul scalars ps))
  pub eq_iff : (p q : P) → (pk.eq p q ≡ true) ↔ (value p ≡ value q)
  pub as_bytes_lem : (p : P) → pk.as_bytes p ≡ encode (value p)
  pub encode_length : (x : Value) → length (encode x) ≡ pk.key_length
  pub public_round_trip :
      (p : P) → (q : P) × (pk.from_bytes (pk.as_bytes p) ≡ ok q) × (value q ≡ value p)
  pub encode_inj : (x y : Value) → encode x ≡ encode y → x ≡ y
  pub cmp_lem : (p q : P) → pk.cmp p q ≡ cmp_bytes (encode (value p)) (encode (value q))

module _ {K P : Type 0} {pk : PublicKey K P} (laws : KeyLaws pk) where
  open pk use {secret as sk}
  open laws use {
    Value, value, plus, minus, act, zero, base, encode, cmp_lem, encode_inj, eq_iff, plus_comm,
    plus_assoc,
  }

  -- The sum of a list of elements, and the sum of the products of two lists.
  unfoldable pub total : List Value → Value
  total [] = zero
  total (x ∷ xs) = plus x (total xs)

  unfoldable pub dot : List K → List P → Value
  dot (a ∷ scalars) (p ∷ ps) = plus (act a (value p)) (dot scalars ps)
  dot _ _ = zero

  pub value-batch_mul :
      (scalars : List K) (ps : List P)
      → length scalars ≡ length ps
      → value (pk.batch_mul scalars ps) ≡ dot scalars ps
  unfolding dot
  value-batch_mul [] [] h = laws.value-batch_mul_nil
  value-batch_mul [] (p ∷ ps) h = absurd (omega arith)
  value-batch_mul (a ∷ scalars) [] h = absurd (omega arith)
  value-batch_mul (a ∷ scalars) (p ∷ ps) h =
      laws.value-batch_mul_cons a scalars p ps (omega arith)
      ∙ ap (plus (act a (value p))) (value-batch_mul scalars ps (omega arith))

  pub cmp-TotalOrder : TotalOrder pk.cmp
  cmp-TotalOrder = record {
    refl_eq = λ a. cmp_lem a a ∙ cmp_bytes_refl _;
    flips = λ a b. rw (cmp_lem b a, cmp_lem a b) (cmp_bytes-flip _ _);
    trans = λ a b c h k.
        cmp_lem a c ∙ cmp_bytes_trans _ _ _ (sym (cmp_lem a b) ∙ h) (sym (cmp_lem b c) ∙ k);
    congr = λ a b c h. rw (cmp_lem a c, cmp_lem b c, cmp_bytes_eq _ _ (sym (cmp_lem a b) ∙ h));
  }

  -- The order and the equality of the keys agree.
  pub cmp-eq_iff : (p q : P) → (pk.cmp p q ≡ Ordering.eq) ↔ (pk.eq p q ≡ true)
  cmp-eq_iff p q = (
    λ h. (eq_iff p q).1 (encode_inj _ _ (cmp_bytes_eq _ _ (sym (cmp_lem p q) ∙ h))),
    λ h. rw (cmp_lem p q, (eq_iff p q).0 h) (cmp_bytes_refl _),
  )

  pub secret_as_bytes_inj : (a b : K) → sk.as_bytes a ≡ sk.as_bytes b → a ≡ b
  secret_as_bytes_inj a b h =
      ground (arith, laws.secret_round_trip a, laws.secret_round_trip b, ap sk.from_bytes h)

  pub plus_interchange : (a b c d : Value) → plus (plus a b) (plus c d) ≡ plus (plus a c) (plus b d)
  plus_interchange a b c d = cc (
    plus_assoc a b (plus c d),
    plus_assoc b c d,
    plus_comm b c,
    plus_assoc c b d,
    plus_assoc a c (plus b d),
  )
