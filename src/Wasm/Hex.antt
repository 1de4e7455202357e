-- ===== src/Wasm/Hex.antt =====
-- `tari_utilities::hex` as a parameter, and the keys read through it. Text is its bytes in UTF-8.
use tari_crypto.Base.{◌≡◌, Bytes, Option, none, some, Result, ok, err}

abbrev pub Text : Type 0
Text = Bytes

pub record Hex : Type 0 where
  pub to_hex : Bytes → Text
  pub from_hex : Text → Option Bytes
  pub from_hex-to_hex : (b : Bytes) → from_hex (to_hex b) ≡ some b

-- `Hex::from_hex` of a type with `from_bytes`.
unfoldable pub read {ℓ κ} : {E : Type ℓ} {A : Type κ} → Hex → (Bytes → Result E A) → Text → Option A
read hex from_bytes text = elim (hex.from_hex text) [
  | none ↦ none
  | some bytes ↦ elim (from_bytes bytes) [ ok a ↦ some a | err _ ↦ none ]
]
