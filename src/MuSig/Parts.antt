-- ===== src/MuSig/Parts.antt =====
-- The joint key is the public key of the sum of the secrets, each times the scalar of its key: the
-- participants' parts of the joint key stand in the places of their keys.
use tari_crypto.Base.{
  ℕ, suc, ◌≡◌, refl, sym, ap, ◌∙◌, inl, inr, some, List, [], ◌∷◌, All, get_elem?, length, arith,
}
use tari_crypto.Keys.{PublicKey}
use tari_crypto.Keys.Laws.{KeyLaws, dot}
use tari_crypto.External.{FixedSet, FixedSetLaws}
use tari_crypto.JointKey.{JointKey}
use tari_crypto.JointKey.Build.{IsJoint, index_of_iff}
use tari_crypto.MuSig.Totals.{sum_of, sum_of-fill}
use tari_crypto.MuSig.Places.{At-new, sequence-length, sequence-get, length-new, length-set_item}
use tari_crypto.MuSig.Filling.{Found, fill, fill-full, fill-Found}
use tari_crypto.MuSig.Roster.{Roster, indexed, separate, vacant}
use tari_crypto.MuSig.Honest.{Participant, key, place, Indexed}
use tari_crypto.MuSig.Single.{elements, joint_secret, or_default, scalar_of}

module _ {K P : Type 0} {pk : PublicKey K P} (laws : KeyLaws pk) where
  open pk use {secret as sk}
  open laws use {Value, value, act, base}

  -- Values in the places of the keys add up to the combination of scalars and keys.
  sum_of-dot :
      (l : List Value) (scalars : List K) (keys : List P)
      → length l ≡ length keys
      → length scalars ≡ length keys
      → ((i : ℕ) (v : Value) (a : K) (q : P)
          → get_elem? l i ≡ some v
          → get_elem? scalars i ≡ some a
          → get_elem? keys i ≡ some q
          → v ≡ act a (value q))
      → sum_of (elements laws) (λ v. v) l ≡ dot laws scalars keys
  unfolding dot
  sum_of-dot [] [] [] m n h = refl
  sum_of-dot [] (a ∷ scalars) [] m n h = absurd (omega arith)
  sum_of-dot [] scalars (q ∷ keys) m n h = absurd (omega arith)
  sum_of-dot (v ∷ l) scalars [] m n h = absurd (omega arith)
  sum_of-dot (v ∷ l) [] (q ∷ keys) m n h = absurd (omega arith)
  sum_of-dot (v ∷ l) (a ∷ scalars) (q ∷ keys) m n h = cc (
    h 0 v a q refl refl refl,
    sum_of-dot l scalars keys (omega arith) (omega arith) (λ i u b p x y z. h (suc i) u b p x y z),
  )

  module _ (jk : JointKey P K) (joint : IsJoint laws jk) (fs : FixedSet)
      (fl : FixedSetLaws fs) where
    open fl use {places}

    -- The participant's part of the joint key.
    abbrev part : Participant K → Value
    part x = act (scalar_of pk jk x) (value (key pk x))

    part_at :
        (x : Participant K) (a : K) (q : P)
        → Indexed pk jk x
        → get_elem? jk.musig_scalars (place pk jk x) ≡ some a
        → get_elem? jk.pub_keys (place pk jk x) ≡ some q
        → part x ≡ act a (value q)
    part_at x a q here ha hq =
        let (q', t, same) = (index_of_iff laws jk (key pk x) (place pk jk x) joint).0 here in
        let q'-q : q' ≡ q = ground (arith, t, hq) in
        let scalar : scalar_of pk jk x ≡ a = ap (or_default pk jk) ha in
        cc (scalar, q'-q, (laws.eq_iff q' (key pk x)).0 same)

    Found-part :
        (xs : List (Participant K)) (i : ℕ) (v : Value) (a : K) (q : P)
        → All (Indexed pk jk) xs
        → Found fs fl (place pk jk) part xs i v
        → get_elem? jk.musig_scalars i ≡ some a
        → get_elem? jk.pub_keys i ≡ some q
        → v ≡ act a (value q)
    Found-part [] i v a q ix f ha hq = absurd f
    Found-part (x ∷ xs) i v a q ix (inl (e, e')) ha hq =
        sym e'
        ∙ part_at x a q ix.0 (ap (get_elem? jk.musig_scalars) e ∙ ha)
            (ap (get_elem? jk.pub_keys) e ∙ hq)
    Found-part (x ∷ xs) i v a q ix (inr f) ha hq = Found-part xs i v a q ix.1 f ha hq

    length-fill :
        (s : fs.Set Value) (xs : List (Participant K))
        → length (places (fill fs fl (place pk jk) part s xs)) ≡ length (places s)
    unfolding fill
    length-fill s [] = refl
    length-fill s (x ∷ xs) =
        length-fill (fs.set_item s (place pk jk x) (part x)).0 xs
        ∙ length-set_item fs fl s (place pk jk x) (part x)

    parts-sum :
        (xs : List (Participant K))
        → sum_of (elements laws) part xs ≡ act (joint_secret laws jk xs) base
    parts-sum [] = sym (laws.act-default base)
    parts-sum (x ∷ xs) = cc (
      laws.act-add (sk.mul (scalar_of pk jk x) x.secret) (joint_secret laws jk xs) base,
      laws.act-mul (scalar_of pk jk x) x.secret base,
      laws.value-from_secret_key x.secret,
      parts-sum xs,
    )

    -- The joint key is the public key of the joint secret.
    pub joint_secret-joint_key :
        (xs : List (Participant K))
        → Roster pk jk xs
        → act (joint_secret laws jk xs) base ≡ value jk.joint_pub_key
    joint_secret-joint_key xs r =
        let n = length jk.pub_keys in
        let start = fs.new {T = Value} n in
        let filled = fill fs fl (place pk jk) part start xs in
        let apart = separate laws jk joint xs r in
        let free = vacant laws jk joint xs r Value (places start) (fl.places-new {T = Value} n) in
        let (l, all) = fill-full fs fl (place pk jk) part start xs apart free in
        let count : length l ≡ n =
          sequence-length (places filled) l all
          ∙ (length-fill start xs ∙ length-new fs fl Value n) in
        let known : (i : ℕ) (v : Value)
            → get_elem? l i ≡ some v
            → Found fs fl (place pk jk) part xs i v =
          λ i v t.
            elim (fill-Found fs fl (place pk jk) part start xs i v
              (sequence-get (places filled) l i v all t)) [
                | inl before ↦ absurd (At-new fs fl n i v before)
                | inr f ↦ f
              ] in
        sym (parts-sum xs)
        ∙ (sym (sum_of-fill (elements laws) (λ v. v) fs fl (place pk jk) part n xs l apart free all)
            ∙ (sum_of-dot l jk.musig_scalars jk.pub_keys count joint.scalars (λ i v a q t ha hq.
                  Found-part xs i v a q (indexed laws jk joint xs r) (known i v t) ha hq)
                ∙ sym joint.joint))
