-- ===== src/Ristretto/Utils.antt =====
-- src/ristretto/utils.rs: signing a message with a fresh nonce, which is an argument.
use tari_crypto.Base.{◌≡◌, refl, ◌⊎◌, inl, inr, true, Bytes, Result, ok, err, Result-cases}
use tari_crypto.Keys.{ByteArrayError, PublicKey}
use tari_crypto.Keys.Laws.{KeyLaws}
use tari_crypto.External.{Digest}
use tari_crypto.Signatures.Schnorr.{SchnorrSignature, SchnorrSignatureError, invalid_challenge}
use tari_crypto.Signatures.Schnorr
use tari_crypto.Signatures.Schnorr.Laws.{honest-verify}

pub record SignatureSet (K P : Type 0) : Type 0 where
  pub nonce : K
  pub public_nonce : P
  pub message : Bytes
  pub signature : SchnorrSignature P K

module _ {K P : Type 0} (pk : PublicKey K P) (d : Digest) where
  open pk use {secret as sk}

  unfoldable pub sign : K → Bytes → K → Result SchnorrSignatureError (SignatureSet K P)
  sign private_key message drawn =
      let public_nonce = pk.from_secret_key drawn in
      let message' = d.finalize (d.chain (d.chain d.new (pk.as_bytes public_nonce)) message) in
      elim (sk.from_bytes message') [
        | err _ ↦ err invalid_challenge
        | ok e ↦ elim (Schnorr.sign pk private_key drawn (sk.as_bytes e)) [
          | err x ↦ err x
          | ok s ↦ ok (record {
            nonce = drawn;
            public_nonce = public_nonce;
            message = message';
            signature = s;
          })
        ]
      ]

module _ {K P : Type 0} {pk : PublicKey K P} (laws : KeyLaws pk) (d : Digest) where
  open pk use {secret as sk}

  -- The hash of the public nonce and of the message.
  abbrev hash_of : K → Bytes → Bytes
  hash_of drawn message =
      d.finalize (d.chain (d.chain d.new (pk.as_bytes (pk.from_secret_key drawn))) message)

  -- Signing a message fails, with `InvalidChallenge`, just when the hash of the public nonce and of
  -- the message is no secret key. Otherwise the set that it returns has the nonce and its public
  -- key, that hash as its message, and a signature of it that carries the public nonce and verifies
  -- under the public key of the secret.
  pub utils_sign-verify_challenge :
      (private_key drawn : K) (message : Bytes)
      → let hash =
          d.finalize (d.chain (d.chain d.new (pk.as_bytes (pk.from_secret_key drawn))) message) in
        ((e : ByteArrayError) × (sk.from_bytes hash ≡ err e)
          × (sign pk d private_key message drawn ≡ err invalid_challenge))
        ⊎ ((e : K) × (s : SignatureSet K P) × (sk.from_bytes hash ≡ ok e)
            × (sign pk d private_key message drawn ≡ ok s)
            × (s.nonce ≡ drawn)
            × (s.public_nonce ≡ pk.from_secret_key drawn)
            × (s.message ≡ hash)
            × (s.signature.public_nonce ≡ s.public_nonce)
            × (Schnorr.verify_challenge pk s.signature (pk.from_secret_key private_key) s.message
                ≡ true))
  unfolding sign Schnorr.sign Schnorr.new Schnorr.verify_challenge
  utils_sign-verify_challenge private_key drawn message =
      elim (Result-cases (sk.from_bytes (hash_of drawn message))) [
        | inr (x, h) ↦ inl (x, h, rw (sign, h) refl)
        | inl (e, h) ↦ inr (
          e,
          record {
            nonce = drawn;
            public_nonce = pk.from_secret_key drawn;
            message = hash_of drawn message;
            signature =
                Schnorr.new (pk.from_secret_key drawn) (sk.add (sk.mul e private_key) drawn);
          },
          h,
          rw (sign, h, Schnorr.sign, laws.secret_round_trip e) refl,
          refl,
          refl,
          refl,
          refl,
          rw (Schnorr.verify_challenge, h) (honest-verify laws private_key drawn e),
        )
      ]
