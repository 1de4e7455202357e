-- ===== src/Ristretto/KeyLaws.antt =====
-- src/ristretto/ristretto_keys.rs: the contract of the keys, their bytes, and the cache of the
-- compressed point.
use tari_crypto.Base.{
  ◌≡◌, refl, sym, ap, ap₂, ◌∙◌, ◌↔◌, ◌≢◌, inl, inr, true, Option, none, some, Bytes, map, length,
  length-map, ok, err, Option-cases, arith,
}
use tari_crypto.Base.Order.{cmp_bytes}
use tari_crypto.Keys.{incorrect_length, conversion_error}
use tari_crypto.Keys.Laws.{KeyLaws}
use tari_crypto.Ristretto.Dalek.{Dalek, DalekLaws}
use tari_crypto.Ristretto.Keys.{
  RistrettoSecretKey, RistrettoPublicKey, compressed, as_bytes, new_from_pk, from_secret_key,
  shared_secret, secret_mul_public, secret_from_bytes, secret_as_bytes, secret_eq, public_eq,
  public_cmp, new_from_compressed, decompressed, public_from_bytes, secret_add, secret_sub,
  secret_mul, public_add, public_sub, public_default, batch_mul, public_key, secret_key,
}

module _ {dk : Dalek} (laws : DalekLaws dk) where
  -- Whatever the cell holds, the bytes are those of the compressed point.
  pub as_bytes-compress : (p : RistrettoPublicKey dk) → as_bytes p ≡ dk.compress p.point
  unfolding as_bytes
  as_bytes-compress p = elim (Option-cases p.compressed_cell) [
    | inl e ↦ rw (e, as_bytes)
    | inr (c, e) ↦ rw (e, as_bytes) (p.cached c e)
  ]

  pub public_cmp-compress :
      (p q : RistrettoPublicKey dk)
      → public_cmp p q ≡ cmp_bytes (dk.compress p.point) (dk.compress q.point)
  unfolding public_cmp as_bytes
  public_cmp-compress p q = ap₂ cmp_bytes (as_bytes-compress p) (as_bytes-compress q)

  pub compress_inj : (x y : dk.Point) → dk.compress x ≡ dk.compress y → x ≡ y
  compress_inj x y e =
      ground (arith, laws.decompress-compress x, laws.decompress-compress y, ap dk.decompress e)

  pub secret_eq_iff : (a b : RistrettoSecretKey dk) → (secret_eq a b ≡ true) ↔ (a ≡ b)
  unfolding secret_eq
  secret_eq_iff a b = (
    λ h. ground (arith, (laws.scalar_eq_iff a.scalar b.scalar).0 h),
    λ h. (laws.scalar_eq_iff a.scalar b.scalar).1 (ap (λ (k : RistrettoSecretKey dk). k.scalar) h),
  )

  pub secret_total :
      (bytes : Bytes)
      → length bytes ≡ 32
      → (a : RistrettoSecretKey dk) × (secret_from_bytes {dk = dk} bytes ≡ ok a)
  unfolding secret_from_bytes
  secret_total bytes n = (record { scalar = dk.from_bytes_mod_order bytes }, ground arith)

  pub secret_round_trip :
      (a : RistrettoSecretKey dk) → secret_from_bytes {dk = dk} (secret_as_bytes a) ≡ ok a
  unfolding secret_from_bytes secret_as_bytes
  secret_round_trip a = ground (arith, laws.scalar_length a.scalar, laws.scalar_round_trip a.scalar)

  found_from :
      (c : Bytes) (x : dk.Point) (o : Option dk.Point) (e : dk.decompress c ≡ o)
      → o ≡ some x
      → (q : RistrettoPublicKey dk) × (decompressed laws c o e ≡ some q) × (q.point ≡ x)
  unfolding decompressed
  found_from c x none e h = absurd (ground arith)
  found_from c x (some y) e h = (_, refl, ground (arith, h))

  found :
      (c : Bytes) (x : dk.Point)
      → dk.decompress c ≡ some x
      → (q : RistrettoPublicKey dk) × (new_from_compressed laws c ≡ some q) × (q.point ≡ x)
  unfolding new_from_compressed
  found c x e = found_from c x (dk.decompress c) refl e

  -- Bytes are read as a key just when they are the 32 bytes of a point.
  from_found :
      (bytes : Bytes) (q : RistrettoPublicKey dk)
      → length bytes ≡ 32
      → new_from_compressed laws bytes ≡ some q
      → public_from_bytes laws bytes ≡ ok q
  unfolding public_from_bytes
  from_found bytes q n e = rw (n, e) refl

  pub public_round_trip :
      (p : RistrettoPublicKey dk)
      → (q : RistrettoPublicKey dk) × (public_from_bytes laws (as_bytes p) ≡ ok q)
        × (q.point ≡ p.point)
  public_round_trip p =
      let same = as_bytes-compress p in
      let (q, e, h) =
        found (as_bytes p) p.point (ap dk.decompress same ∙ laws.decompress-compress p.point) in
      (q, from_found (as_bytes p) q (ap length same ∙ laws.compress_length p.point) e, h)

  pub secret_path : (a b : RistrettoSecretKey dk) → a.scalar ≡ b.scalar → a ≡ b
  secret_path a b e = ap (λ x. record { scalar = x }) e

  unfoldable pub ristretto_laws : KeyLaws (public_key dk laws)
  unfolding public_key secret_key secret_add secret_sub secret_mul public_add public_sub
      secret_mul_public public_default from_secret_key new_from_pk batch_mul
  ristretto_laws = record {
    Value = dk.Point;
    value = λ p. p.point;
    plus = dk.point_add;
    minus = dk.point_sub;
    act = λ k. dk.point_mul k.scalar;
    zero = dk.identity;
    base = dk.basepoint;
    encode = dk.compress;
    add_comm = λ a b. secret_path _ _ (laws.scalar_add_comm a.scalar b.scalar);
    add_assoc = λ a b c. secret_path _ _ (laws.scalar_add_assoc a.scalar b.scalar c.scalar);
    default-add = λ a. secret_path _ _ (laws.zero-scalar_add a.scalar);
    sub-add = λ a b. secret_path _ _ (laws.scalar_sub-add a.scalar b.scalar);
    mul_comm = λ a b. secret_path _ _ (laws.scalar_mul_comm b.scalar a.scalar);
    mul_assoc = λ a b c. secret_path _ _ (sym (laws.scalar_mul_assoc c.scalar b.scalar a.scalar));
    add-mul = λ a b c. secret_path _ _ (
        laws.scalar_mul_comm c.scalar (dk.scalar_add a.scalar b.scalar)
        ∙ laws.scalar_add-mul a.scalar b.scalar c.scalar
        ∙ ap₂ dk.scalar_add (laws.scalar_mul_comm a.scalar c.scalar)
            (laws.scalar_mul_comm b.scalar c.scalar));
    secret_length = λ a. laws.scalar_length a.scalar;
    secret_round_trip = secret_round_trip;
    secret_total = secret_total;
    secret_eq_iff = secret_eq_iff;
    plus_comm = laws.point_add_comm;
    plus_assoc = laws.point_add_assoc;
    zero-plus = laws.identity-point_add;
    minus-plus = laws.point_sub-add;
    plus-minus = laws.point_add-sub;
    act-add = λ a b x. laws.point_mul-add a.scalar b.scalar x;
    act-mul = λ a b x.
        ap (λ k. dk.point_mul k x) (laws.scalar_mul_comm b.scalar a.scalar)
        ∙ laws.point_mul-mul a.scalar b.scalar x;
    act-plus = λ a x y. laws.point_mul-point_add a.scalar x y;
    act-default = laws.point_mul-zero;
    act-zero = λ a. laws.point_mul-identity a.scalar;
    value-add = λ p q. refl;
    value-sub = λ p q. refl;
    value-mul = λ a p. refl;
    value-default = refl;
    value-from_secret_key = λ a. laws.basepoint_table_mul_lem a.scalar;
    value-batch_mul_nil = laws.multiscalar_mul_nil;
    value-batch_mul_cons = λ a scalars p ps h.
        laws.multiscalar_mul_cons a.scalar (map (λ k. k.scalar) scalars) p.point
          (map (λ q. q.point) ps) (length-map _ scalars ∙ h ∙ sym (length-map _ ps));
    eq_iff = λ p q. laws.point_eq_iff p.point q.point;
    as_bytes_lem = as_bytes-compress;
    encode_length = laws.compress_length;
    public_round_trip = public_round_trip;
    encode_inj = compress_inj;
    cmp_lem = public_cmp-compress;
  }

  -- A key reads back from its own bytes, as a key that is equal to it and has the same bytes.
  pub public_from_bytes-as_bytes :
      (p : RistrettoPublicKey dk)
      → ((q : RistrettoPublicKey dk) × (public_from_bytes laws (as_bytes p) ≡ ok q)
          × (public_eq q p ≡ true)
          × (as_bytes q ≡ as_bytes p))
  unfolding public_eq
  public_from_bytes-as_bytes p =
      let (q, e, h) = public_round_trip p in
      (
        q,
        e,
        (laws.point_eq_iff q.point p.point).1 h,
        as_bytes-compress q ∙ ap dk.compress h ∙ sym (as_bytes-compress p),
      )

  lost_from :
      (c : Bytes) (o : Option dk.Point) (e : dk.decompress c ≡ o)
      → o ≡ none
      → decompressed laws c o e ≡ none
  unfolding decompressed
  lost_from c none e h = refl
  lost_from c (some x) e h = absurd (ground arith)

  no_point :
      (bytes : Bytes)
      → length bytes ≡ 32
      → dk.decompress bytes ≡ none
      → public_from_bytes laws bytes ≡ err conversion_error
  unfolding public_from_bytes new_from_compressed
  no_point bytes n e = rw (n, lost_from bytes (dk.decompress bytes) refl e) refl

  -- Reading bytes as a public key: unless there are 32, they are rejected with `IncorrectLength`;
  -- 32 bytes that no point compresses to, with `ConversionError`; and the bytes of a compressed
  -- point are read as a key of that point, which has exactly these bytes.
  pub public_from_bytes_lem :
      (bytes : Bytes)
      → (length bytes ≢ 32 → public_from_bytes laws bytes ≡ err incorrect_length)
        × (length bytes ≡ 32
            → ((x : dk.Point) → dk.compress x ≢ bytes)
            → public_from_bytes laws bytes ≡ err conversion_error)
        × ((x : dk.Point)
            → dk.compress x ≡ bytes
            → (q : RistrettoPublicKey dk) × (public_from_bytes laws bytes ≡ ok q)
              × (q.point ≡ x)
              × (as_bytes q ≡ bytes))
  public_from_bytes_lem bytes = (
    λ n. unfold public_from_bytes in ground arith,
    λ n none_here. elim (Option-cases (dk.decompress bytes)) [
      | inl e ↦ no_point bytes n e
      | inr (x, e) ↦ absurd (none_here x (laws.compress-decompress bytes x e))
    ],
    λ x e.
        let (q, read, same) =
          found bytes x (ap dk.decompress (sym e) ∙ laws.decompress-compress x) in
        (
          q,
          from_found bytes q (ap length (sym e) ∙ laws.compress_length x) read,
          same,
          as_bytes-compress q ∙ (ap dk.compress same ∙ e),
        ),
  )

  compressed_cell_lem :
      (x : dk.Point) (o : Option Bytes) (h : (c : Bytes) → o ≡ some c → c ≡ dk.compress x)
      → let p : RistrettoPublicKey dk = record { point = x; compressed_cell = o; cached = h } in
        ((compressed p).0 ≡ dk.compress x)
        × ((compressed p).1.point ≡ x)
        × ((compressed p).1.compressed_cell ≡ some (dk.compress x))
        × (compressed (compressed p).1 ≡ compressed p)
  unfolding compressed
  compressed_cell_lem x none h = (refl, refl, refl, refl)
  compressed_cell_lem x (some c) h = (h c refl, refl, ap some (h c refl), refl)

  -- What `compressed` returns and leaves behind: the bytes of the point whatever the cell holds;
  -- the same point in the key, with the cell now full; and the same again on the next call.
  pub compressed_lem :
      (p : RistrettoPublicKey dk)
      → ((compressed p).0 ≡ dk.compress p.point)
        × ((compressed p).1.point ≡ p.point)
        × ((compressed p).1.compressed_cell ≡ some (dk.compress p.point))
        × (compressed (compressed p).1 ≡ compressed p)
  compressed_lem p = compressed_cell_lem p.point p.compressed_cell p.cached

  -- Both ends of a Diffie-Hellman exchange compute equal keys.
  pub shared_secret_comm :
      (a b : RistrettoSecretKey dk)
      → public_eq (shared_secret a (from_secret_key b)) (shared_secret b (from_secret_key a)) ≡ true
  unfolding public_eq shared_secret secret_mul_public from_secret_key new_from_pk
  shared_secret_comm a b = (laws.point_eq_iff _ _).1 (
      cc (
        laws.basepoint_table_mul_lem a.scalar,
        laws.basepoint_table_mul_lem b.scalar,
        laws.point_mul-mul a.scalar b.scalar dk.basepoint,
        laws.point_mul-mul b.scalar a.scalar dk.basepoint,
        laws.scalar_mul_comm a.scalar b.scalar,
      ))
