-- ===== src/RangeProof/New.antt =====
-- Which ranges the service is made for.
use tari_crypto.Base.{
  ℕ, zero, suc, ◌+◌, ◌*◌, ◌/◌, ◌%◌, ◌^◌, ◌<◌, ◌==◌, ◌≡◌, ◌↔◌, refl, true, false, not, ◌||◌, ok, err,
  inl, inr, Bool-cases, arith,
}
use tari_crypto.Ristretto.Dalek.{Dalek}
use tari_crypto.Ristretto.Pedersen.{PedersenCommitmentFactory}
use tari_crypto.RangeProof.Bulletproofs.{Bulletproofs}
use tari_crypto.RangeProof.Service.{DalekRangeProofService, initialization_error, mask, bit_or, new}

bit_or-zero : (w a : ℕ) → a < 2 ^ w → bit_or w a 0 ≡ a
unfolding bit_or
bit_or-zero zero a h = omega arith
bit_or-zero (suc w) a h = let rest = bit_or-zero w (a / 2) (omega arith) in ground (arith, rest)

-- A step at a bit that the mask has, and at one that it has not.
bit_or-odd : (w a b : ℕ) → b % 2 ≡ 1 → bit_or (suc w) a b ≡ 1 + 2 * bit_or w (a / 2) (b / 2)
unfolding bit_or
bit_or-odd w a b h = ground arith

bit_or-even : (w a b : ℕ) → b % 2 ≡ 0 → bit_or (suc w) a b ≡ a % 2 + 2 * bit_or w (a / 2) (b / 2)
unfolding bit_or
bit_or-even w a b h = ground arith

-- `range | MASK`: the mask, with the bits of the range that it has not.
bit_or-mask :
    (range : ℕ) → range < 2 ^ 64 → bit_or 64 range mask ≡ 120 + range % 8 + 128 * (range / 128)
bit_or-mask range h =
    let a₁ = range / 2 in
    let a₂ = a₁ / 2 in
    let a₃ = a₂ / 2 in
    let a₄ = a₃ / 2 in
    let a₅ = a₄ / 2 in
    let a₆ = a₅ / 2 in
    let s₀ = bit_or-even 63 range 120 refl in
    let s₁ = bit_or-even 62 a₁ 60 refl in
    let s₂ = bit_or-even 61 a₂ 30 refl in
    let s₃ = bit_or-odd 60 a₃ 15 refl in
    let s₄ = bit_or-odd 59 a₄ 7 refl in
    let s₅ = bit_or-odd 58 a₅ 3 refl in
    let s₆ = bit_or-odd 57 a₆ 1 refl in
    let s₇ = bit_or-zero 57 (a₆ / 2) (omega arith) in omega (arith, s₀, s₁, s₂, s₃, s₄, s₅, s₆, s₇)

abbrev Accepted : ℕ → Type 0
Accepted range = (0 < range) × (range % 8 ≡ 0) × (range < 128)

refused-Accepted :
    (range x : ℕ)
    → x ≡ 120 + range % 8 + 128 * (range / 128)
    → ((range == 0) || not (x == mask)) ≡ false
    → Accepted range
refused-Accepted range x e h = ground arith

Accepted-refused :
    (range x : ℕ)
    → x ≡ 120 + range % 8 + 128 * (range / 128)
    → Accepted range
    → ((range == 0) || not (x == mask)) ≡ false
Accepted-refused range x e (p, q, r) = let here : x ≡ 120 = omega arith in rw here (ground arith)

module _ {dk : Dalek} (bp : Bulletproofs dk) where
  -- The service is made, for a range that is a machine word, just when it is a multiple of 8 from
  -- 8 to 120.
  pub service_new_iff :
      (range : ℕ) (base : PedersenCommitmentFactory dk)
      → range < 2 ^ 64
      → ((s : DalekRangeProofService bp) × (new bp range base ≡ ok s))
        ↔ ((0 < range) × (range % 8 ≡ 0) × (range < 128))
  unfolding new
  service_new_iff range base h =
      let x = bit_or 64 range mask in
      let e = bit_or-mask range h in
      (
        λ (s, t). elim (Bool-cases ((range == 0) || not (x == mask))) [
          | inl u ↦ absurd (refusal u t)
          | inr u ↦ refused-Accepted range x e u
        ],
        λ a. (
          record {
            range = range;
            pc_gens = record { b_blinding = base.g; b = base.h };
            bp_gens = bp.new_gens range 1;
          },
          rw (Accepted-refused range x e a) refl,
        ),
      )
    where
      refusal :
          {s : DalekRangeProofService bp}
          → ((range == 0) || not (bit_or 64 range mask == mask)) ≡ true
          → new bp range base ≡ ok s
          → ⊥
      refusal {s} u t =
          let v : new bp range base ≡ err initialization_error = rw u refl in ground (arith, t, v)
