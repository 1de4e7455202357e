-- ===== src/MuSig/Partial.antt =====
-- The partial signature that a participant computes, and its validation.
use tari_crypto.Base.{
  ℕ, ◌≡◌, refl, ◌∙◌, true, some, ok, done, get_elem?, get_elem?-lt, get_elem?-some, arith,
}
use tari_crypto.Keys.{PublicKey}
use tari_crypto.Keys.Laws.{KeyLaws}
use tari_crypto.External.{Digest, FixedSet}
use tari_crypto.JointKey.{JointKey}
use tari_crypto.JointKey
use tari_crypto.JointKey.Build.{IsJoint, index_of_iff}
use tari_crypto.Signatures.Schnorr.{SchnorrSignature}
use tari_crypto.Signatures.Schnorr
use tari_crypto.Signatures.Schnorr.Laws.{verify_iff}
use tari_crypto.MuSig.States.{SignatureCollection, signature_collection}
use tari_crypto.MuSig.Rounds
use tari_crypto.MuSig.Query.{
  calculate_partial_signature, index_of, get_public_nonce, get_musig_scalar, get_challenge,
  partial_signature, scalar_in, index_in,
}

module _ {K P : Type 0} {pk : PublicKey K P} (laws : KeyLaws pk) (d : Digest) (fs : FixedSet) where
  open pk use {secret as sk}
  open laws use {value, plus, act, base}

  -- `r + a.e.k` satisfies the equation of the participant's share `a.P` of the joint key.
  share-verify :
      (a e k n : K) (q r : P)
      → value q ≡ act k base
      → value r ≡ act n base
      → Schnorr.verify pk (Schnorr.new r (sk.add n (sk.mul (sk.mul a e) k))) (pk.mul a q) e ≡ true
  unfolding Schnorr.new
  share-verify a e k n q r hq hr = (verify_iff laws _ _ _).1 (
      cc (
        laws.act-add n (sk.mul (sk.mul a e) k) base,
        laws.act-mul (sk.mul a e) k base,
        laws.mul_comm a e,
        laws.act-mul e a (act k base),
        laws.value-mul a q,
        hq,
        hr,
      ))

  scalar_there :
      (jk : JointKey P K) (p q : P) (i : ℕ)
      → IsJoint laws jk
      → get_elem? jk.pub_keys i ≡ some q
      → (a : K) × (get_elem? jk.musig_scalars i ≡ some a)
  scalar_there jk p q i j h =
      get_elem?-some jk.musig_scalars i (omega (arith, j.scalars, get_elem?-lt jk.pub_keys i h))

  scalar_known :
      (s : SignatureCollection fs K P) (p : P) (i : ℕ) {a : K}
      → JointKey.index_of pk s.joint_key p ≡ ok i
      → get_elem? s.joint_key.musig_scalars i ≡ some a
      → get_musig_scalar pk {fs = fs} (record { state = signature_collection s }) p ≡ done (some a)
  unfolding get_musig_scalar JointKey.get_musig_scalar
  scalar_known s p i h u = rw (get_musig_scalar, scalar_in, h, u) refl

  -- In the third round of a well-formed joint key, a participant at an index, who knows the
  -- secrets of its key and of the nonce at that index, gets a partial signature with that nonce,
  -- and validating it at that index succeeds. It is the nonce plus the product of the scalar at
  -- that index, the challenge and the secret.
  pub partial_signature-validate :
      (s : SignatureCollection fs K P) (p r : P) (secret nonce : K) (i : ℕ)
      → IsJoint laws s.joint_key
      → JointKey.index_of pk s.joint_key p ≡ ok i
      → fs.get_item s.public_nonces i ≡ some r
      → value p ≡ act secret base
      → value r ≡ act nonce base
      → (sig : SchnorrSignature P K) × (calculate_partial_signature pk
            (record { state = signature_collection s })
            p
            secret
            nonce
          ≡ done (some sig))
        × (sig.public_nonce ≡ r)
        × (Rounds.validate_partial_signature pk d fs s i sig ≡ done true)
        × (a : K) × (get_elem? s.joint_key.musig_scalars i ≡ some a)
        × (sig ≡ Schnorr.new r (sk.add nonce (sk.mul (sk.mul a s.challenge) secret)))
  unfolding calculate_partial_signature index_of get_public_nonce get_musig_scalar get_challenge
      partial_signature Rounds.validate_partial_signature JointKey.get_pub_keys
      JointKey.get_musig_scalar
  partial_signature-validate s p r secret nonce i j h g hp hr =
      let (q, t, same) = (index_of_iff laws s.joint_key p i j).0 h in
      let (a, u) = scalar_there s.joint_key p q i j t in
      let hq : value q ≡ act secret base = (laws.eq_iff q p).0 same ∙ hp in
      (
        Schnorr.new r (sk.add nonce (sk.mul (sk.mul a s.challenge) secret)),
        rw (calculate_partial_signature, index_in, h, g, scalar_known s p i h u) refl,
        unfold Schnorr.new in refl,
        rw (t, u, share-verify a s.challenge secret nonce q r hq hr) refl,
        a,
        u,
        refl,
      )
