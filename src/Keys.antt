-- ===== src/Keys.antt =====
-- The traits of src/keys.rs as interfaces; `Laws` says what their users rely on.
pub mod Laws
use tari_crypto.Base.{ℕ, Bool, List, Bytes, Result, Ordering}

-- What `ByteArray::from_bytes` reports.
pub data ByteArrayError : Type 0 where
  incorrect_length conversion_error : ByteArrayError

-- The trait `SecretKey`, with the arithmetic that its users ask of it.
pub record SecretKey (K : Type 0) : Type 0 where
  pub from_bytes : Bytes → Result ByteArrayError K
  pub as_bytes : K → Bytes
  pub eq : K → K → Bool
  pub add : K → K → K
  pub sub : K → K → K
  pub mul : K → K → K
  pub default : K
  pub key_length : ℕ

-- The trait `PublicKey`; `secret` is the implementation of its associated type, `mul` is `&K * &P`.
pub record PublicKey (K P : Type 0) : Type 0 where
  pub secret : SecretKey K
  pub from_bytes : Bytes → Result ByteArrayError P
  pub as_bytes : P → Bytes
  pub eq : P → P → Bool
  pub cmp : P → P → Ordering
  pub add : P → P → P
  pub sub : P → P → P
  pub mul : K → P → P
  pub default : P
  pub from_secret_key : K → P
  pub key_length : ℕ
  pub batch_mul : List K → List P → P
