-- ===== src/RangeProof/Bulletproofs.antt =====
-- The `bulletproofs` package as a parameter; the randomness of the provers is part of it.
use mathlib.Core.HLevel.{is_prop→PathP}
use native.Mathlib.Nat.{ℕ_set}
use tari_crypto.Base.{ℕ, ◌<◌, ◌^◌, ◌≡◌, ◌⊎◌, Bool, true, Option, some, Bytes, length}
use tari_crypto.Ristretto.Dalek.{Dalek}

-- `[u8; n]`
pub record Array (n : ℕ) : Type 0 where
  pub items : Bytes
  pub sized : length items ≡ n

-- Arrays of the same bytes are equal.
pub array_path : {n : ℕ} (a b : Array n) → a.items ≡ b.items → a ≡ b
array_path {n} a b e i = record {
  items = e i;
  sized = is_prop→PathP (λ j. length (e j) ≡ n) (λ j. ℕ_set _ _) a.sized b.sized i;
}

-- The message of a proof with rewind keys has 23 bytes.
abbrev pub proof_message_length : ℕ
proof_message_length = 23

pub record PedersenGens (dk : Dalek) : Type 0 where
  pub b_blinding : dk.Point
  pub b : dk.Point

-- A `Transcript` is given by its label; `Gens` are the `BulletproofGens`.
pub record Bulletproofs (dk : Dalek) : Type 1 where
  pub Gens : Type 0
  pub new_gens : ℕ → ℕ → Gens
  pub Proof : Type 0
  pub to_bytes : Proof → Bytes
  pub from_bytes : Bytes → Option Proof
  pub prove_single : Gens → PedersenGens dk → Bytes → ℕ → dk.Scalar → ℕ → Option Proof
  pub verify_single : Proof → Gens → PedersenGens dk → Bytes → Bytes → ℕ → Bool
  pub prove_single_with_rewind_key :
      Gens
      → PedersenGens dk
      → Bytes
      → ℕ
      → dk.Scalar
      → ℕ
      → dk.Scalar
      → dk.Scalar
      → Array proof_message_length
      → Option Proof
  pub get_rewind_nonce_from_pub_key : Bytes → Bytes → dk.Scalar
  pub get_secret_nonce_from_pvt_key : dk.Scalar → Bytes → dk.Scalar
  pub rewind_single_get_value_only :
      Proof
      → Gens
      → Bytes
      → Bytes
      → ℕ
      → dk.Scalar
      → dk.Scalar
      → Option (ℕ × Array proof_message_length)
  pub rewind_single_get_commitment_data :
      Proof
      → Gens
      → PedersenGens dk
      → Bytes
      → Bytes
      → ℕ
      → dk.Scalar
      → dk.Scalar
      → dk.Scalar
      → dk.Scalar
      → Option (ℕ × dk.Scalar × Array proof_message_length)

-- The sizes that the package supports.
abbrev pub IsSize : ℕ → Type 0
IsSize n = (n ≡ 8) ⊎ (n ≡ 16) ⊎ (n ≡ 32) ⊎ (n ≡ 64)

module _ {dk : Dalek} (bp : Bulletproofs dk) where
  open dk use {Scalar, scalar_from_u64, point_add, point_mul, compress}

  -- The compressed commitment to a value.
  abbrev pub committed : PedersenGens dk → ℕ → Scalar → Bytes
  committed pc v k =
      compress (point_add (point_mul k pc.b_blinding) (point_mul (scalar_from_u64 v) pc.b))

  pub record BulletproofsLaws : Type 0 where
    pub from_bytes-to_bytes : (p : bp.Proof) → bp.from_bytes (bp.to_bytes p) ≡ some p
    -- completeness, for values in the range
    pub prove-verify :
        (pc : PedersenGens dk) (label : Bytes) (v : ℕ) (k : Scalar) (n : ℕ)
        → IsSize n
        → v < 2 ^ n
        → (p : bp.Proof) × (bp.prove_single (bp.new_gens n 1) pc label v k n ≡ some p)
          × (bp.verify_single p (bp.new_gens n 1) pc label (committed pc v k) n ≡ true)
    -- a proof with rewind keys verifies too, and gives back what it was made from
    pub prove-rewind :
        (pc : PedersenGens dk) (label : Bytes) (v : ℕ) (k : Scalar) (n : ℕ) (rk rbk : Scalar)
        (message : Array proof_message_length)
        → IsSize n
        → v < 2 ^ n
        → let gens = bp.new_gens n 1 in
          let c = committed pc v k in
          let nonce = λ (r : Scalar).
            bp.get_rewind_nonce_from_pub_key (compress (dk.point_mul r dk.basepoint)) c in
          let secret = λ (r : Scalar). bp.get_secret_nonce_from_pvt_key r c in
          (p : bp.Proof) × (bp.prove_single_with_rewind_key gens pc label v k n rk rbk message
            ≡ some p)
          × (bp.verify_single p gens pc label c n ≡ true)
          × (bp.rewind_single_get_value_only p gens label c n (nonce rk) (nonce rbk)
              ≡ some (v, message))
          × (bp.rewind_single_get_commitment_data p gens pc label c n
                (nonce rk)
                (nonce rbk)
                (secret rk)
                (secret rbk)
              ≡ some (v, k, message))
