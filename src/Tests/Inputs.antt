-- ===== src/Tests/Inputs.antt =====
-- The keys of the two-element field: secrets, public keys, and their laws.
use tari_crypto.Base.{true, false, [], Bytes}
use tari_crypto.Keys.{PublicKey}
use tari_crypto.Keys.Laws.{KeyLaws}
use tari_crypto.Commitment.{HomomorphicCommitmentFactory}
use tari_crypto.Commitment.Laws.{FactoryLaws}
use tari_crypto.Ristretto.Keys.{RistrettoSecretKey, RistrettoPublicKey, public_key, new_from_pk}
use tari_crypto.Ristretto.KeyLaws.{ristretto_laws}
use tari_crypto.Ristretto.Pedersen.{PedersenCommitmentFactory, commitment_factory}
use tari_crypto.Ristretto.PedersenLaws.{pedersen_laws}
use tari_crypto.Tests.Field.{two, two_laws}

abbrev pub K : Type 0
K = RistrettoSecretKey two

abbrev pub P : Type 0
P = RistrettoPublicKey two

unfoldable pub keys : PublicKey K P
unfolding public_key
keys = public_key two two_laws

unfoldable pub keys_laws : KeyLaws keys
unfolding keys
keys_laws = ristretto_laws two_laws

abbrev pub k₀ : K
k₀ = record { scalar = false }

abbrev pub k₁ : K
k₁ = record { scalar = true }

unfoldable pub p₀ : P
unfolding new_from_pk
p₀ = new_from_pk false

unfoldable pub p₁ : P
unfolding new_from_pk
p₁ = new_from_pk true

-- Bytes that are no scalar: their length is 0.
abbrev pub short : Bytes
short = []

unfoldable pub factory : PedersenCommitmentFactory two
factory = record { g = true; h = true }

unfoldable pub commitments : HomomorphicCommitmentFactory K P
unfolding commitment_factory factory
commitments = commitment_factory factory

pub commitments_laws : FactoryLaws keys_laws commitments
unfolding keys_laws commitments
commitments_laws = pedersen_laws two_laws factory
