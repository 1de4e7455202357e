-- ===== src/Commitment.antt =====
-- src/commitment.rs: `HomomorphicCommitment` and the trait of its factories.
pub mod Laws
use tari_crypto.Base.{ℕ, Bool, Bytes, Result, ok, err, Option, some, Ordering}
use tari_crypto.Keys.{ByteArrayError, PublicKey}
use tari_crypto.External.{Hasher}

pub record HomomorphicCommitment {ℓ} (P : Type ℓ) : Type ℓ where
  pub point : P

module _ {ℓ} {P : Type ℓ} where
  unfoldable pub as_public_key : HomomorphicCommitment P → P
  as_public_key c = c.point

  unfoldable pub from_public_key : P → HomomorphicCommitment P
  from_public_key p = record { point = p }

module _ {K P : Type 0} (pk : PublicKey K P) where
  unfoldable pub from_bytes : Bytes → Result ByteArrayError (HomomorphicCommitment P)
  from_bytes bytes = elim (pk.from_bytes bytes) [ ok p ↦ ok (record { point = p }) | err e ↦ err e ]

  unfoldable pub as_bytes : HomomorphicCommitment P → Bytes
  as_bytes c = pk.as_bytes c.point

  unfoldable pub cmp : HomomorphicCommitment P → HomomorphicCommitment P → Ordering
  cmp c d = pk.cmp c.point d.point

  unfoldable pub partial_cmp : HomomorphicCommitment P → HomomorphicCommitment P → Option Ordering
  partial_cmp c d = some (pk.cmp c.point d.point)

  unfoldable pub eq : HomomorphicCommitment P → HomomorphicCommitment P → Bool
  unfolding as_public_key
  eq c d = pk.eq (as_public_key c) (as_public_key d)

  unfoldable pub add : HomomorphicCommitment P → HomomorphicCommitment P → HomomorphicCommitment P
  add c d = record { point = pk.add c.point d.point }

  unfoldable pub add_key : HomomorphicCommitment P → P → HomomorphicCommitment P
  add_key c p = record { point = pk.add c.point p }

  unfoldable pub sub : HomomorphicCommitment P → HomomorphicCommitment P → HomomorphicCommitment P
  sub c d = record { point = pk.sub c.point d.point }

  unfoldable pub mul : HomomorphicCommitment P → K → HomomorphicCommitment P
  unfolding from_public_key
  mul c k = from_public_key (pk.mul k c.point)

module _ {K P : Type 0} (pk : PublicKey K P) (h : Hasher) where
  unfoldable pub hash : HomomorphicCommitment P → h.State → h.State
  unfolding as_bytes
  hash c state = h.write state (as_bytes pk c)

-- The trait `HomomorphicCommitmentFactory`.
pub record HomomorphicCommitmentFactory (K P : Type 0) : Type 0 where
  pub commit : K → K → HomomorphicCommitment P
  pub zero : HomomorphicCommitment P
  pub open_with : K → K → HomomorphicCommitment P → Bool
  pub commit_value : K → ℕ → HomomorphicCommitment P
  pub open_value : K → ℕ → HomomorphicCommitment P → Bool
