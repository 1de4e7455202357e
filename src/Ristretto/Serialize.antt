-- ===== src/Ristretto/Serialize.antt =====
-- src/ristretto/serialize.rs: keys in the data formats of serde, which are a parameter.
use tari_crypto.Base.{
  ◌≡◌, refl, inl, inr, Bool, true, if◌then◌else◌, Bytes, Option, none, some, Result, ok, err,
  Bool-cases,
}
use tari_crypto.Keys.{PublicKey}
use tari_crypto.Keys.Laws.{KeyLaws}
use tari_crypto.Wasm.Hex.{Text, Hex}
use tari_crypto.Wasm.KeyUtils.{secret_from_hex, public_from_hex, secret_to_hex, public_to_hex}
use tari_crypto.Wasm.Checks.{secret_from_hex-to_hex, public_from_hex-to_hex}

-- A format with its serializer and deserializer; `none` is an error of the format.
pub record Format : Type 1 where
  pub Out : Type 0
  pub is_human_readable : Bool
  pub serialize_str : Text → Option Out
  pub serialize_bytes : Bytes → Option Out
  pub deserialize_string : Out → Option Text
  pub deserialize_bytes : Out → Option Bytes

-- What was written reads back as it was.
pub record FormatLaws (f : Format) : Type 0 where
  pub string_round_trip :
      (t : Text) (o : f.Out) → f.serialize_str t ≡ some o → f.deserialize_string o ≡ some t
  pub bytes_round_trip :
      (b : Bytes) (o : f.Out) → f.serialize_bytes b ≡ some o → f.deserialize_bytes o ≡ some b

-- An error of the format, or one that the source makes by `Error::custom`.
pub data SerdeError : Type 0 where
  format_error custom : SerdeError

module _ {K P : Type 0} (pk : PublicKey K P) where
  open pk use {secret as sk}

  -- `visit_bytes` of the two visitors.
  unfoldable pub visit_public : Bytes → Result SerdeError P
  visit_public v = elim (pk.from_bytes v) [ ok p ↦ ok p | err _ ↦ err custom ]

  unfoldable pub visit_secret : Bytes → Result SerdeError K
  visit_secret v = elim (sk.from_bytes v) [ ok k ↦ ok k | err _ ↦ err custom ]

module _ {K P : Type 0} (pk : PublicKey K P) (hex : Hex) (f : Format) where
  open pk use {secret as sk}

  unfoldable pub deserialize_public : f.Out → Result SerdeError P
  unfolding visit_public
  deserialize_public input =
      if f.is_human_readable
      then elim (f.deserialize_string input) [
        | none ↦ err format_error
        | some s ↦ elim (public_from_hex pk hex s) [ some p ↦ ok p | none ↦ err custom ]
      ]
      else elim (f.deserialize_bytes input) [ none ↦ err format_error | some v ↦ visit_public pk v ]

  unfoldable pub serialize_public : P → Option f.Out
  serialize_public p =
      if f.is_human_readable
      then f.serialize_str (public_to_hex pk hex p)
      else f.serialize_bytes (pk.as_bytes p)

  unfoldable pub deserialize_secret : f.Out → Result SerdeError K
  unfolding visit_secret
  deserialize_secret input =
      if f.is_human_readable
      then elim (f.deserialize_string input) [
        | none ↦ err format_error
        | some s ↦ elim (secret_from_hex pk hex s) [ some k ↦ ok k | none ↦ err custom ]
      ]
      else elim (f.deserialize_bytes input) [ none ↦ err format_error | some v ↦ visit_secret pk v ]

  unfoldable pub serialize_secret : K → Option f.Out
  serialize_secret k =
      if f.is_human_readable
      then f.serialize_str (secret_to_hex pk hex k)
      else f.serialize_bytes (sk.as_bytes k)

module _ {K P : Type 0} {pk : PublicKey K P} (laws : KeyLaws pk) (hex : Hex) (f : Format)
    (fl : FormatLaws f) where
  open pk use {secret as sk}
  open laws use {value}

  secret_back :
      (k : K) (o : f.Out)
      → serialize_secret pk hex f k ≡ some o
      → deserialize_secret pk hex f o ≡ ok k
  unfolding serialize_secret deserialize_secret visit_secret
  secret_back k o h = elim (Bool-cases f.is_human_readable) [
    | inl readable ↦
        let text : f.serialize_str (secret_to_hex pk hex k) ≡ some o = rw readable at h in
        rw
          (
            readable,
            deserialize_secret,
            fl.string_round_trip _ o text,
            secret_from_hex-to_hex laws hex k,
          )
          refl
    | inr binary ↦
        let bytes : f.serialize_bytes (sk.as_bytes k) ≡ some o = rw binary at h in
        rw
          (
            binary,
            deserialize_secret,
            fl.bytes_round_trip _ o bytes,
            visit_secret,
            laws.secret_round_trip k,
          )
          refl
  ]

  public_back :
      (p : P) (o : f.Out)
      → serialize_public pk hex f p ≡ some o
      → (q : P) × (deserialize_public pk hex f o ≡ ok q) × (value q ≡ value p)
  unfolding serialize_public deserialize_public visit_public
  public_back p o h = elim (Bool-cases f.is_human_readable) [
    | inl readable ↦
        let text : f.serialize_str (public_to_hex pk hex p) ≡ some o = rw readable at h in
        let (q, e, same) = public_from_hex-to_hex laws hex p in
        (q, rw (readable, deserialize_public, fl.string_round_trip _ o text, e) refl, same)
    | inr binary ↦
        let bytes : f.serialize_bytes (pk.as_bytes p) ≡ some o = rw binary at h in
        let (q, e, same) = laws.public_round_trip p in
        (
          q,
          rw (binary, deserialize_public, fl.bytes_round_trip _ o bytes, visit_public, e) refl,
          same,
        )
  ]

  -- In a format that reads back what it wrote, as text or as bytes, a secret key that is
  -- serialized deserializes to itself, and a public key to an equal one.
  pub deserialize-serialize :
      (k : K) (p : P) (o o' : f.Out)
      → serialize_secret pk hex f k ≡ some o
      → serialize_public pk hex f p ≡ some o'
      → (deserialize_secret pk hex f o ≡ ok k)
        × (q : P) × (deserialize_public pk hex f o' ≡ ok q)
        × (pk.eq q p ≡ true)
  deserialize-serialize k p o o' h h' =
      let (q, e, same) = public_back p o' h' in (secret_back k o h, q, e, (laws.eq_iff q p).1 same)
