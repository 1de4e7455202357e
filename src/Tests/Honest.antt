-- ===== src/Tests/Honest.antt =====
-- Two participants who follow the protocol, with the secrets 1 and 0 and the nonces 0 and 1.
use mathlib.Core.List.{Permᴰ}
use tari_crypto.Base.{◌≡◌, refl, true, List, [], ◌∷◌, ◌++◌, map, ok, done, arith}
use tari_crypto.Base.Order.{cmp_bytes}
use tari_crypto.Std.Sort.{Distinct, sort}
use tari_crypto.Signatures.Schnorr.{SchnorrSignature}
use tari_crypto.Signatures.Schnorr
use tari_crypto.Ristretto.Keys.{public_key, public_cmp, compressed, from_secret_key, new_from_pk}
use tari_crypto.MuSig.States.{
  FinalizedMuSig, MuSigEvent, finalized, add_key, set_message, add_nonce_hash, add_nonce,
  add_partial_sig,
}
use tari_crypto.MuSig.Rounds
use tari_crypto.MuSig.Machine.{MuSig, new, run}
use tari_crypto.MuSig.Honest.{Participant, key, public_nonce, commitment}
use tari_crypto.MuSig.Single.{joint_secret, joint_nonce}
use tari_crypto.MuSig.Shares.{Signed}
use tari_crypto.MuSig.Ceremony.{ceremony_completes}
use tari_crypto.Tests.Externals.{any_bit, any_bit_laws, lists, lists_laws}
use tari_crypto.Tests.Inputs.{K, P, keys, keys_laws, k₀, k₁}

abbrev first : Participant K
first = record { secret = k₁; nonce = k₀ }

abbrev second : Participant K
second = record { secret = k₀; nonce = k₁ }

abbrev both : List (Participant K)
both = first ∷ second ∷ []

secret_size : keys.secret.key_length ≡ 32
unfolding keys
secret_size = refl

different : Distinct keys.cmp (map (key keys) both)
unfolding keys public_key public_cmp compressed from_secret_key new_from_pk cmp_bytes
different = ((λ h. ground arith, tt), (tt, tt))

apart : Distinct keys.cmp (map (public_nonce keys) both)
unfolding keys public_key public_cmp compressed from_secret_key new_from_pk cmp_bytes
apart = ((λ h. ground arith, tt), (tt, tt))

abbrev turned : List (Participant K)
turned = second ∷ first ∷ []

same : Permᴰ both both
same = Permᴰ.cons refl (Permᴰ.cons refl Permᴰ.nil)

other : Permᴰ both turned
other = Permᴰ.swap refl refl

-- The message is set after the first nonce hash.
abbrev early : List (MuSigEvent K P)
early =
    add_key (key keys first)
    ∷ add_key (key keys second)
    ∷ add_nonce_hash (key keys second) (commitment keys any_bit second)
    ∷ []

abbrev late : List (MuSigEvent K P)
late =
    add_nonce_hash (key keys first) (commitment keys any_bit first)
    ∷ add_nonce (key keys first) (public_nonce keys first)
    ∷ add_nonce (key keys second) (public_nonce keys second)
    ∷ []

ceremony_completes_example :
    (c : MuSig lists K P) × (sigs : List (SchnorrSignature P K)) × (f : FinalizedMuSig K P) × (run
        keys any_bit lists
        (new keys any_bit lists 2)
        (early ++ (set_message (7 ∷ []) ∷ late))
      ≡ done c)
    × Signed keys c turned sigs
    × (run keys any_bit lists c (map (λ s. add_partial_sig s true) sigs)
        ≡ done (record { state = finalized f }))
    × (f.joint_key.pub_keys ≡ sort keys.cmp (map (key keys) both))
    × (Schnorr.verify keys f.s_agg f.joint_key.joint_pub_key f.challenge ≡ true)
    × (Rounds.calculate_challenge keys any_bit lists f.s_agg.public_nonce f.joint_key.joint_pub_key
          (7 ∷ [])
        ≡ done f.challenge)
    × (s : SchnorrSignature P K) × (Schnorr.sign keys
          (joint_secret keys_laws f.joint_key both)
          (joint_nonce keys_laws both)
          (keys.secret.as_bytes f.challenge)
        ≡ ok s)
    × (s.signature ≡ f.s_agg.signature)
    × (keys.eq s.public_nonce f.s_agg.public_nonce ≡ true)
    × (keys.eq
          (keys.from_secret_key (joint_secret keys_laws f.joint_key both))
          f.joint_key.joint_pub_key
        ≡ true)
ceremony_completes_example =
    ceremony_completes keys_laws any_bit lists lists_laws any_bit_laws secret_size refl (7 ∷ [])
      first (second ∷ []) (omega arith) different apart turned both turned other same other early
      late refl
