-- ===== src/Ristretto/Conversions.antt =====
-- src/ristretto/ristretto_keys.rs: what keys turn into, hashes, text and the values behind them.
use tari_crypto.Base.{◌≡◌, sym, ap, ◌∙◌, true, Bytes}
use tari_crypto.Keys.{PublicKey}
use tari_crypto.Keys.Laws.{KeyLaws}
use tari_crypto.External.{Digest, digest, Hasher}
use tari_crypto.Commitment.{HomomorphicCommitment}
use tari_crypto.Commitment
use tari_crypto.Signatures.CommitmentSignature.{CommitmentSignature}
use tari_crypto.Signatures.CommitmentSignature
use tari_crypto.Signatures.CommitmentSignature.Laws.{eq-to_vec_iff}
use tari_crypto.Ristretto.Dalek.{Dalek, DalekLaws}
use tari_crypto.Ristretto.Keys.{
  RistrettoSecretKey, RistrettoPublicKey, secret_as_bytes, secret_eq, as_bytes, compressed,
  public_eq,
}
use tari_crypto.Ristretto.KeyLaws.{secret_eq_iff, as_bytes-compress}
use tari_crypto.Wasm.Hex.{Text, Hex}

module _ {dk : Dalek} where
  -- The `From` implementations. The one for a borrowed public key has the same body.
  unfoldable pub into_scalar : RistrettoSecretKey dk → dk.Scalar
  into_scalar k = k.scalar

  unfoldable pub into_point : RistrettoPublicKey dk → dk.Point
  into_point p = p.point

  unfoldable pub into_compressed : RistrettoPublicKey dk → Bytes
  unfolding compressed
  into_compressed p = (compressed p).0

  -- `Hashable::hash`; `blake2b` is `Blake2b`.
  unfoldable pub hashable : Digest → RistrettoPublicKey dk → Bytes
  unfolding as_bytes digest
  hashable blake2b p = digest blake2b (as_bytes p)

  -- `Hash::hash`.
  module _ (h : Hasher) where
    unfoldable pub secret_hash : RistrettoSecretKey dk → h.State → h.State
    unfolding secret_as_bytes
    secret_hash k state = h.hash_slice state (secret_as_bytes k)

    unfoldable pub public_hash : RistrettoPublicKey dk → h.State → h.State
    unfolding as_bytes
    public_hash p state = h.hash_slice state (as_bytes p)

  -- `Display` and `Debug`.
  module _ (hex : Hex) where
    unfoldable pub display : RistrettoPublicKey dk → Text
    unfolding as_bytes
    display p = hex.to_hex (as_bytes p)

    unfoldable pub debug : RistrettoPublicKey dk → Text
    unfolding as_bytes
    debug p = hex.to_hex (as_bytes p)

module _ {dk : Dalek} (laws : DalekLaws dk) where
  -- Keys that compare as equal hash alike, whatever their caches hold: secret keys through
  -- `Hash`, and public keys through `Hash` and `Hashable`. Equal public keys have the same text, the
  -- same point and the same compressed point.
  pub key_hash-eq :
      (h : Hasher) (blake2b : Digest) (hex : Hex) (state : h.State) (a b : RistrettoSecretKey dk)
      (p q : RistrettoPublicKey dk)
      → secret_eq a b ≡ true
      → public_eq p q ≡ true
      → (secret_hash h a state ≡ secret_hash h b state)
        × (public_hash h p state ≡ public_hash h q state)
        × (hashable blake2b p ≡ hashable blake2b q)
        × (display hex p ≡ display hex q)
        × (debug hex p ≡ debug hex q)
        × (into_point p ≡ into_point q)
        × (into_compressed p ≡ into_compressed q)
  unfolding secret_hash public_hash hashable display debug into_point into_compressed public_eq
  key_hash-eq h blake2b hex state a b p q e e' =
      let same : p.point ≡ q.point = (laws.point_eq_iff _ _).0 e' in
      let bytes : as_bytes p ≡ as_bytes q =
        as_bytes-compress laws p ∙ (ap dk.compress same ∙ sym (as_bytes-compress laws q)) in
      (
        ap (λ k. h.hash_slice state (secret_as_bytes k)) ((secret_eq_iff laws a b).0 e),
        ap (h.hash_slice state) bytes,
        ap (digest blake2b) bytes,
        ap hex.to_hex bytes,
        ap hex.to_hex bytes,
        same,
        unfold as_bytes in bytes,
      )

module _ {K P : Type 0} {pk : PublicKey K P} (laws : KeyLaws pk) (h : Hasher) where
  -- Commitments that compare as equal hash alike, and so do commitment signatures.
  pub commitment_hash-eq :
      (state : h.State) (c d : HomomorphicCommitment P) (s t : CommitmentSignature P K)
      → Commitment.eq pk c d ≡ true
      → CommitmentSignature.eq pk s t ≡ true
      → (Commitment.hash pk h c state ≡ Commitment.hash pk h d state)
        × (CommitmentSignature.hash pk h s state ≡ CommitmentSignature.hash pk h t state)
  unfolding Commitment.eq Commitment.as_public_key Commitment.hash Commitment.as_bytes
      CommitmentSignature.hash
  commitment_hash-eq state c d s t e e' = (
    ap (h.write state) (
        laws.as_bytes_lem c.point
        ∙ (ap laws.encode ((laws.eq_iff c.point d.point).0 e) ∙ sym (laws.as_bytes_lem d.point))),
    ap (h.write state) ((eq-to_vec_iff laws s t).0 e'),
  )
