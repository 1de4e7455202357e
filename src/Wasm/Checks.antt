-- ===== src/Wasm/Checks.antt =====
-- What JavaScript programs get from signing and checking.
use tari_crypto.Base.{◌≡◌, refl, sym, true, Option, some, none, ok}
use tari_crypto.Keys.{PublicKey}
use tari_crypto.Keys.Laws.{KeyLaws}
use tari_crypto.External.{Digest, DigestLaws, digest}
use tari_crypto.Signatures.Schnorr.{SchnorrSignature}
use tari_crypto.Signatures.Schnorr
use tari_crypto.Signatures.Schnorr.Laws.{verify-congr, honest-verify}
use tari_crypto.Ffi.Signing.{hashed}
use tari_crypto.Wasm.Hex.{Text, Hex, read}
use tari_crypto.Wasm.KeyUtils.{
  sign_default, secret_from_hex, public_from_hex, secret_to_hex, public_to_hex, sign_with_key,
  sign_message_with_key, check_signature,
}

module _ {K P : Type 0} {pk : PublicKey K P} (laws : KeyLaws pk) (hex : Hex) where
  open pk use {secret as sk}
  open laws use {value}

  pub secret_from_hex-to_hex : (k : K) → secret_from_hex pk hex (secret_to_hex pk hex k) ≡ some k
  unfolding secret_from_hex secret_to_hex read
  secret_from_hex-to_hex k = rw (read, hex.from_hex-to_hex, laws.secret_round_trip k) refl

  pub public_from_hex-to_hex :
      (p : P)
      → (q : P) × (public_from_hex pk hex (public_to_hex pk hex p) ≡ some q) × (value q ≡ value p)
  unfolding public_from_hex public_to_hex read
  public_from_hex-to_hex p =
      let (q, e, same) = laws.public_round_trip p in
      (q, rw (read, hex.from_hex-to_hex, e) refl, same)

  module _ (blake256 : Digest) (dl : DigestLaws blake256) (output : blake256.output_size ≡ 32)
      (secret_size : sk.key_length ≡ 32) (public_size : pk.key_length ≡ 32) where
    made :
        (k n : K) (msg : Text) (e : K)
        → sk.from_bytes (digest blake256 msg) ≡ ok e
        → Schnorr.sign pk k n (digest blake256 msg)
          ≡ ok (Schnorr.new (pk.from_secret_key n) (sk.add (sk.mul e k) n))
    unfolding Schnorr.sign
    made k n msg e h = rw (Schnorr.sign, h) refl

    checked :
        (k n : K) (msg : Text) (e : K)
        → sk.from_bytes (digest blake256 msg) ≡ ok e
        → check_signature pk hex blake256
            (public_to_hex pk hex (pk.from_secret_key n))
            (secret_to_hex pk hex (sk.add (sk.mul e k) n))
            (public_to_hex pk hex (pk.from_secret_key k))
            msg
          ≡ record { result = true; error = none }
    unfolding check_signature Schnorr.verify_challenge
    checked k n msg e h =
        let s = sk.add (sk.mul e k) n in
        let (r, hr, same_r) = public_from_hex-to_hex (pk.from_secret_key n) in
        let (p, hp, same_p) = public_from_hex-to_hex (pk.from_secret_key k) in
        let v =
          verify-congr laws (Schnorr.new (pk.from_secret_key n) s) (Schnorr.new r s)
            (pk.from_secret_key k) p e (unfold Schnorr.new in sym same_r)
            (unfold Schnorr.new in refl) (sym same_p) (honest-verify laws k n e) in
        rw (check_signature, hr, hp, secret_from_hex-to_hex s, Schnorr.verify_challenge, h, v) refl

    -- A signature of a message, with a nonce that is given or drawn, has no error, and checking its
    -- two texts against the message and the public key of the secret answers true.
    pub sign_message_with_key-check :
        (k drawn : K) (r : Option K) (msg : Text)
        → (nonce signature : Text) × (sign_message_with_key pk hex blake256 k msg r drawn
              sign_default
            ≡ record { public_nonce = some nonce; signature = some signature; error = none })
          × (check_signature pk hex blake256 nonce signature
                (public_to_hex pk hex (pk.from_secret_key k))
                msg
              ≡ record { result = true; error = none })
    unfolding sign_message_with_key sign_with_key Schnorr.new
    sign_message_with_key-check k drawn none msg =
        let (e, h) = hashed laws blake256 dl output secret_size public_size msg in
        (_, _, rw (sign_with_key, made k drawn msg e h) refl, checked k drawn msg e h)
    sign_message_with_key-check k drawn (some r) msg =
        let (e, h) = hashed laws blake256 dl output secret_size public_size msg in
        (_, _, rw (sign_with_key, made k r msg e h) refl, checked k r msg e h)
