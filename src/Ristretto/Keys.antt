-- ===== src/Ristretto/Keys.antt =====
-- src/ristretto/ristretto_keys.rs
use tari_crypto.Base.{
  ℕ, ◌==◌, ◌≡◌, refl, sym, ◌∙◌, not, Bool, Option, none, some, List, Bytes, map, length, Result, ok,
  err, Ordering, if◌then◌else◌, arith,
}
use tari_crypto.Base.Order.{cmp_bytes}
use tari_crypto.Keys.{ByteArrayError, incorrect_length, conversion_error, SecretKey, PublicKey}
use tari_crypto.Ristretto.Dalek.{Dalek, DalekLaws}

abbrev pub scalar_length : ℕ
scalar_length = 32

abbrev pub public_key_length : ℕ
public_key_length = 32

pub record RistrettoSecretKey (dk : Dalek) : Type 0 where
  pub scalar : dk.Scalar

-- The cell `compressed` caches the compressed point. The fields are private in the source, and each
-- constructor there puts nothing else into the cell: `cached` says so.
pub record RistrettoPublicKey (dk : Dalek) : Type 0 where
  pub point : dk.Point
  pub compressed_cell : Option Bytes
  pub cached : (c : Bytes) → compressed_cell ≡ some c → c ≡ dk.compress point

pub empty_cell : (c x : Bytes) → none ≡ some c → c ≡ x
empty_cell c x e = absurd (ground arith)

pub filled_cell : (c x : Bytes) → some x ≡ some c → c ≡ x
filled_cell c x e = ground arith

module _ {dk : Dalek} where
  open dk use {Scalar, Point, compress, decompress}

  -- The key of a scalar that the random number generator returns.
  unfoldable pub random : Scalar → RistrettoSecretKey dk
  random drawn = record { scalar = drawn }

  -- `drop` overwrites the scalar.
  unfoldable pub drop : RistrettoSecretKey dk → RistrettoSecretKey dk
  drop k = record { scalar = dk.scalar_zero }

  unfoldable pub secret_from_bytes : Bytes → Result ByteArrayError (RistrettoSecretKey dk)
  secret_from_bytes bytes =
      if not (length bytes == 32)
      then err incorrect_length
      else ok (record { scalar = dk.from_bytes_mod_order bytes })

  unfoldable pub secret_as_bytes : RistrettoSecretKey dk → Bytes
  secret_as_bytes k = dk.scalar_as_bytes k.scalar

  unfoldable pub secret_eq : RistrettoSecretKey dk → RistrettoSecretKey dk → Bool
  secret_eq a b = dk.scalar_eq a.scalar b.scalar

  unfoldable pub secret_add : RistrettoSecretKey dk → RistrettoSecretKey dk → RistrettoSecretKey dk
  secret_add a b = record { scalar = dk.scalar_add a.scalar b.scalar }

  unfoldable pub secret_sub : RistrettoSecretKey dk → RistrettoSecretKey dk → RistrettoSecretKey dk
  secret_sub a b = record { scalar = dk.scalar_sub a.scalar b.scalar }

  -- the right factor first
  unfoldable pub secret_mul : RistrettoSecretKey dk → RistrettoSecretKey dk → RistrettoSecretKey dk
  secret_mul a b = record { scalar = dk.scalar_mul b.scalar a.scalar }

  unfoldable pub from_u64 : ℕ → RistrettoSecretKey dk
  from_u64 v = record { scalar = dk.scalar_from_u64 v }

  unfoldable pub new_from_pk : Point → RistrettoPublicKey dk
  new_from_pk pk = record {
    point = pk;
    compressed_cell = none;
    cached = λ c e. empty_cell c (compress pk) e;
  }

  -- `OnceCell::get_or_init`: the bytes, and the key with its cell filled.
  unfoldable pub compressed : RistrettoPublicKey dk → Bytes × RistrettoPublicKey dk
  compressed k = elim k.compressed_cell [
    | some c ↦ (c, k)
    | none ↦ (
      compress k.point,
      record {
        point = k.point;
        compressed_cell = some (compress k.point);
        cached = λ c e. filled_cell c (compress k.point) e;
      },
    )
  ]

  unfoldable pub as_bytes : RistrettoPublicKey dk → Bytes
  unfolding compressed
  as_bytes k = (compressed k).0

  unfoldable pub from_secret_key : RistrettoSecretKey dk → RistrettoPublicKey dk
  unfolding new_from_pk
  from_secret_key k = new_from_pk (dk.basepoint_table_mul k.scalar)

  unfoldable pub batch_mul :
      List (RistrettoSecretKey dk) → List (RistrettoPublicKey dk) → RistrettoPublicKey dk
  unfolding new_from_pk
  batch_mul scalars points =
      let p = map (λ (q : RistrettoPublicKey dk). q.point) points in
      let s = map (λ (k : RistrettoSecretKey dk). k.scalar) scalars in
      new_from_pk (dk.multiscalar_mul s p)

  unfoldable pub random_keypair : Scalar → RistrettoSecretKey dk × RistrettoPublicKey dk
  unfolding random from_secret_key
  random_keypair drawn = let k = random drawn in (k, from_secret_key k)

  -- `&K * &P` and `&P * &K`.
  unfoldable pub secret_mul_public :
      RistrettoSecretKey dk → RistrettoPublicKey dk → RistrettoPublicKey dk
  unfolding new_from_pk
  secret_mul_public k p = new_from_pk (dk.point_mul k.scalar p.point)

  unfoldable pub public_mul_secret :
      RistrettoPublicKey dk → RistrettoSecretKey dk → RistrettoPublicKey dk
  unfolding new_from_pk
  public_mul_secret p k = new_from_pk (dk.point_mul k.scalar p.point)

  unfoldable pub shared_secret :
      RistrettoSecretKey dk → RistrettoPublicKey dk → RistrettoPublicKey dk
  unfolding secret_mul_public
  shared_secret k p = secret_mul_public k p

  unfoldable pub public_default : RistrettoPublicKey dk
  unfolding new_from_pk
  public_default = new_from_pk dk.identity

  unfoldable pub public_eq : RistrettoPublicKey dk → RistrettoPublicKey dk → Bool
  public_eq p q = dk.point_eq p.point q.point

  unfoldable pub public_cmp : RistrettoPublicKey dk → RistrettoPublicKey dk → Ordering
  unfolding compressed
  public_cmp p q = cmp_bytes (compressed p).0 (compressed q).0

  unfoldable pub public_partial_cmp :
      RistrettoPublicKey dk → RistrettoPublicKey dk → Option Ordering
  unfolding compressed
  public_partial_cmp p q = some (cmp_bytes (compressed p).0 (compressed q).0)

  unfoldable pub public_add : RistrettoPublicKey dk → RistrettoPublicKey dk → RistrettoPublicKey dk
  unfolding new_from_pk
  public_add p q = new_from_pk (dk.point_add p.point q.point)

  unfoldable pub public_sub : RistrettoPublicKey dk → RistrettoPublicKey dk → RistrettoPublicKey dk
  unfolding new_from_pk
  public_sub p q = new_from_pk (dk.point_sub p.point q.point)

module _ {dk : Dalek} (laws : DalekLaws dk) where
  -- The bytes are kept in the cell.
  unfoldable pub decompressed :
      (c : Bytes) (o : Option dk.Point) → dk.decompress c ≡ o → Option (RistrettoPublicKey dk)
  decompressed c none e = none
  decompressed c (some p) e = some (record {
    point = p;
    compressed_cell = some c;
    cached = λ b same. filled_cell b c same ∙ sym (laws.compress-decompress c p e);
  })

  unfoldable pub new_from_compressed : Bytes → Option (RistrettoPublicKey dk)
  unfolding decompressed
  new_from_compressed c = decompressed c (dk.decompress c) refl

  unfoldable pub public_from_bytes : Bytes → Result ByteArrayError (RistrettoPublicKey dk)
  unfolding new_from_compressed
  public_from_bytes bytes =
      if not (length bytes == 32)
      then err incorrect_length
      else elim (new_from_compressed bytes) [ some p ↦ ok p | none ↦ err conversion_error ]

-- The implementations of the traits.
unfoldable pub secret_key : (dk : Dalek) → SecretKey (RistrettoSecretKey dk)
unfolding secret_from_bytes secret_as_bytes secret_eq secret_add secret_sub secret_mul
secret_key dk = record {
  from_bytes = secret_from_bytes;
  as_bytes = secret_as_bytes;
  eq = secret_eq;
  add = secret_add;
  sub = secret_sub;
  mul = secret_mul;
  default = record { scalar = dk.scalar_zero };
  key_length = scalar_length;
}

unfoldable pub public_key :
    (dk : Dalek) → DalekLaws dk → PublicKey (RistrettoSecretKey dk) (RistrettoPublicKey dk)
unfolding secret_key public_from_bytes as_bytes public_eq public_cmp public_add public_sub
    secret_mul_public public_default from_secret_key batch_mul
public_key dk laws = record {
  secret = secret_key dk;
  from_bytes = public_from_bytes laws;
  as_bytes = as_bytes;
  eq = public_eq;
  cmp = public_cmp;
  add = public_add;
  sub = public_sub;
  mul = secret_mul_public;
  default = public_default;
  from_secret_key = from_secret_key;
  key_length = public_key_length;
  batch_mul = batch_mul;
}
