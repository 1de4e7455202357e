-- ===== src/MuSig/Single.antt =====
-- The secrets of all participants added up to those of one signer: the sum of the secrets, each times
-- the participant's scalar of the joint key, and the sum of the nonces.
use mathlib.Core.List.{Permᴰ}
use tari_crypto.Base.{
  true, ◌≡◌, refl, sym, ap, ◌∙◌, Option, none, some, List, [], ◌∷◌, ok, get_elem?,
}
use tari_crypto.Keys.{PublicKey}
use tari_crypto.Keys.Laws.{KeyLaws}
use tari_crypto.JointKey.{JointKey}
use tari_crypto.Signatures.Schnorr.{SchnorrSignature}
use tari_crypto.Signatures.Schnorr
use tari_crypto.MuSig.Totals.{CommMonoid, interchange, sum_of, sum_of-perm}
use tari_crypto.MuSig.States.{FinalizedMuSig}
use tari_crypto.MuSig.Honest.{Participant, public_nonce, place}

module _ {K P : Type 0} (pk : PublicKey K P) (jk : JointKey P K) where
  open pk use {secret as sk}

  abbrev pub or_default : Option K → K
  or_default none = sk.default
  or_default (some a) = a

  abbrev pub scalar_of : Participant K → K
  scalar_of x = or_default (get_elem? jk.musig_scalars (place pk jk x))

  -- What a participant signs.
  abbrev pub share : K → Participant K → SchnorrSignature P K
  share e x =
      Schnorr.new (public_nonce pk x) (sk.add x.nonce (sk.mul (sk.mul (scalar_of x) e) x.secret))

module _ {K P : Type 0} {pk : PublicKey K P} (laws : KeyLaws pk) where
  open pk use {secret as sk}
  open laws use {Value, value, plus, act, base}

  abbrev pub secrets : CommMonoid K
  secrets = record {
    zero = sk.default;
    plus = sk.add;
    comm = laws.add_comm;
    assoc = laws.add_assoc;
    zero-plus = laws.default-add;
  }

  abbrev pub elements : CommMonoid Value
  elements = record {
    zero = laws.zero;
    plus = plus;
    comm = laws.plus_comm;
    assoc = laws.plus_assoc;
    zero-plus = laws.zero-plus;
  }

  abbrev pub joint_nonce : List (Participant K) → K
  joint_nonce = sum_of secrets (λ x. x.nonce)

  mul-default : (e : K) → sk.mul e sk.default ≡ sk.default
  mul-default e =
      let y = sk.mul e sk.default in
      let z = sk.sub sk.default y in
      let twice : sk.add y y ≡ y = cc (
        laws.mul_comm e sk.default,
        laws.add-mul sk.default sk.default e,
        laws.default-add sk.default,
      ) in
      cc (laws.sub-add sk.default y, laws.default-add y, laws.add_assoc z y y, twice)

  mul-add : (e a b : K) → sk.mul e (sk.add a b) ≡ sk.add (sk.mul e a) (sk.mul e b)
  mul-add e a b =
      cc (laws.mul_comm e (sk.add a b), laws.add-mul a b e, laws.mul_comm e a, laws.mul_comm e b)

  -- The public nonces add up to the one of the sum.
  pub public_nonces-sum :
      (xs : List (Participant K))
      → sum_of elements (λ x. value (public_nonce pk x)) xs ≡ act (joint_nonce xs) base
  public_nonces-sum [] = sym (laws.act-default base)
  public_nonces-sum (x ∷ xs) = cc (
    laws.act-add x.nonce (joint_nonce xs) base,
    laws.value-from_secret_key x.nonce,
    public_nonces-sum xs,
  )

  module _ (jk : JointKey P K) where
    abbrev pub joint_secret : List (Participant K) → K
    joint_secret = sum_of secrets (λ x. sk.mul (scalar_of pk jk x) x.secret)

    one_share :
        (n a e k X R : K)
        → sk.add (sk.add n (sk.mul (sk.mul a e) k)) (sk.add (sk.mul e X) R)
          ≡ sk.add (sk.mul e (sk.add (sk.mul a k) X)) (sk.add n R)
    one_share n a e k X R =
        let part : sk.mul (sk.mul a e) k ≡ sk.mul e (sk.mul a k) =
          cc (laws.mul_comm a e, laws.mul_assoc e a k) in
        cc (
          part,
          mul-add e (sk.mul a k) X,
          interchange secrets n (sk.mul e (sk.mul a k)) (sk.mul e X) R,
        )

    -- The signatures add up to that of the joint secret and the joint nonce.
    pub shares-sum :
        (e : K) (xs : List (Participant K))
        → sum_of secrets (λ x. (share pk jk e x).signature) xs
          ≡ sk.add (sk.mul e (joint_secret xs)) (joint_nonce xs)
    unfolding Schnorr.new
    shares-sum e [] =
        sym (ap (λ y. sk.add y sk.default) (mul-default e) ∙ laws.default-add sk.default)
    shares-sum e (x ∷ xs) =
        ap (sk.add _) (shares-sum e xs)
        ∙ one_share x.nonce (scalar_of pk jk x) e x.secret (joint_secret xs) (joint_nonce xs)

  -- The signature of a finalized ceremony is that of one signer with the sums of these
  -- participants, and the joint key is the public key of that signer.
  abbrev pub IsSingle : FinalizedMuSig K P → List (Participant K) → Type 0
  IsSingle f xs =
      (f.s_agg.signature
        ≡ sk.add (sk.mul f.challenge (joint_secret f.joint_key xs)) (joint_nonce xs))
      × (value f.s_agg.public_nonce ≡ act (joint_nonce xs) base)
      × (act (joint_secret f.joint_key xs) base ≡ value f.joint_key.joint_pub_key)

  module _ (f : FinalizedMuSig K P) where
    pub IsSingle-perm : {xs ys : List (Participant K)} → Permᴰ xs ys → IsSingle f xs → IsSingle f ys
    IsSingle-perm {xs} {ys} p s =
        let same_secret : joint_secret f.joint_key xs ≡ joint_secret f.joint_key ys =
          sum_of-perm secrets (λ x. sk.mul (scalar_of pk f.joint_key x) x.secret) p in
        let same_nonce : joint_nonce xs ≡ joint_nonce ys = sum_of-perm secrets (λ x. x.nonce) p in
        (cc (s.0, same_secret, same_nonce), cc (s.1, same_nonce), cc (s.2, same_secret))

    -- That signer signs the bytes of the challenge with an equal signature.
    pub IsSingle-sign :
        (xs : List (Participant K))
        → IsSingle f xs
        → (s : SchnorrSignature P K) × (Schnorr.sign pk
              (joint_secret f.joint_key xs)
              (joint_nonce xs)
              (sk.as_bytes f.challenge)
            ≡ ok s)
          × (s.signature ≡ f.s_agg.signature)
          × (pk.eq s.public_nonce f.s_agg.public_nonce ≡ true)
          × (pk.eq (pk.from_secret_key (joint_secret f.joint_key xs)) f.joint_key.joint_pub_key
              ≡ true)
    unfolding Schnorr.sign Schnorr.new
    IsSingle-sign xs (s, n, k) = (
      _,
      rw (laws.secret_round_trip f.challenge, Schnorr.sign) refl,
      sym s,
      (laws.eq_iff _ _).1 (laws.value-from_secret_key (joint_nonce xs) ∙ sym n),
      (laws.eq_iff _ _).1 (laws.value-from_secret_key (joint_secret f.joint_key xs) ∙ k),
    )
