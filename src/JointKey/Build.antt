-- ===== src/JointKey/Build.antt =====
-- src/musig.rs: building the joint key, and looking participants up in it.
use mathlib.Core.List.{Permᴰ}
use tari_crypto.Base.Perm.{length-perm}
use tari_crypto.Base.{
  ℕ, zero, suc, ◌<◌, ◌≡◌, ◌↔◌, ◌⊎◌, unwrap, refl, sym, ap, subst, ◌∙◌, true, false, List, [], ◌∷◌,
  Bytes, some, ok, err, done, expect, inl, inr, length, get_elem?, Bool-cases, arith,
}
use tari_crypto.Keys.{PublicKey}
use tari_crypto.Keys.Laws.{KeyLaws, dot, value-batch_mul, cmp-TotalOrder, cmp-eq_iff}
use tari_crypto.External.{Digest, DigestLaws}
use tari_crypto.Std.Sort.{Ascending, sort, sort-Ascending, length-sort, sort-perm}
use tari_crypto.Std.Search.{binary_search_sound, binary_search_complete}
use tari_crypto.JointKey.{
  JointKey, JointKeyBuilder, not_enough_participants, get_musig_scalar, is_full, sort_keys,
  calculate_common, calculate_partial_key, partial_keys, calculate_musig_scalars,
  calculate_joint_key, chain_keys, build, index_of,
}
use tari_crypto.JointKey.Add.{IsValid}

module _ {K P : Type 0} {pk : PublicKey K P} (laws : KeyLaws pk) where
  open pk use {secret as sk}
  open laws use {value}

  -- What a joint key holds: the keys in ascending order, a scalar for each, and their combination.
  pub record IsJoint (jk : JointKey P K) : Type 0 where
    pub ascending : Ascending pk.cmp jk.pub_keys
    pub scalars : length jk.musig_scalars ≡ length jk.pub_keys
    pub joint : value jk.joint_pub_key ≡ dot laws jk.musig_scalars jk.pub_keys
    pub inhabited : 0 < length jk.pub_keys

  module _ (d : Digest) (dl : DigestLaws d) (fits : d.output_size ≡ sk.key_length) where
    pub hash_total : (s : d.State) → (k : K) × (sk.from_bytes (d.finalize s) ≡ ok k)
    hash_total s = laws.secret_total (d.finalize s) (dl.finalize_length s ∙ fits)

    partial_key_total :
        (common : Bytes) (p : P) → (k : K) × (calculate_partial_key pk d common p ≡ done k)
    unfolding calculate_partial_key
    partial_key_total common p =
        let (k, e) = hash_total (d.chain (d.chain d.new common) (pk.as_bytes p)) in (k, ap expect e)

    partial_keys_total :
        (common : Bytes) (ps : List P)
        → (ks : List K) × (partial_keys pk d common ps ≡ done ks) × (length ks ≡ length ps)
    unfolding partial_keys
    partial_keys_total common [] = ([], refl, refl)
    partial_keys_total common (p ∷ ps) =
        let (k, e) = partial_key_total common p in
        let (ks, e', n) = partial_keys_total common ps in (k ∷ ks, rw (e, e'), ap suc n)

    abbrev Built : JointKeyBuilder P → JointKey P K → Type 0
    Built b jk =
        (jk.pub_keys ≡ sort pk.cmp b.pub_keys)
        × (partial_keys pk d (sk.as_bytes jk.common) jk.pub_keys ≡ done jk.musig_scalars)

    build_full :
        (b : JointKeyBuilder P)
        → IsValid pk b
        → is_full b ≡ true
        → (jk : JointKey P K) × (build pk d b ≡ done (ok jk)) × IsJoint jk × Built b jk
    unfolding build sort_keys calculate_common calculate_musig_scalars calculate_joint_key
    build_full b v full =
        let keys = sort pk.cmp b.pub_keys in
        let (common, e) = hash_total (chain_keys pk d d.new keys) in
        let (scalars, e', n) = partial_keys_total (sk.as_bytes common) keys in
        let jk : JointKey P K = record {
          pub_keys = keys;
          musig_scalars = scalars;
          common = common;
          joint_pub_key = pk.batch_mul scalars keys;
        } in
        let joint : IsJoint jk = record {
          ascending = sort-Ascending pk.cmp (cmp-TotalOrder laws) b.pub_keys v.distinct;
          scalars = n;
          joint = value-batch_mul laws scalars keys n;
          inhabited = unfold is_full in ground (arith, length-sort pk.cmp b.pub_keys, v.positive);
        } in
        (jk, rw (full, e, e'), joint, (refl, e'))

    -- For a valid builder and a hash as long as a secret key, building never panics. It fails,
    -- with `NotEnoughParticipants`, when keys are missing. Otherwise the joint key is well formed:
    -- it holds the keys of the builder in ascending order, as many scalars, and the sum of the
    -- products of the two as its public key.
    pub build_total :
        (b : JointKeyBuilder P)
        → IsValid pk b
        → ((is_full b ≡ false) × (build pk d b ≡ done (err not_enough_participants)))
          ⊎ ((is_full b ≡ true)
              × ((jk : JointKey P K) × (build pk d b ≡ done (ok jk))
                  × IsJoint jk
                  × (jk.pub_keys ≡ sort pk.cmp b.pub_keys)))
    build_total b v = elim (Bool-cases (is_full b)) [
      | inl e ↦ let (jk, t, j, w) = build_full b v e in inr (e, (jk, t, j, w.0))
      | inr e ↦ inl (e, unfold build in rw e)
    ]

    get-partial_keys :
        (common : Bytes) (ps : List P) (ks : List K) (i : ℕ) {p : P}
        → partial_keys pk d common ps ≡ done ks
        → get_elem? ps i ≡ some p
        → unwrap (get_elem? ks i) ≡ calculate_partial_key pk d common p
    unfolding partial_keys
    get-partial_keys common [] ks i e h = absurd (ground arith)
    get-partial_keys common (q ∷ ps) ks zero {p} e h =
        let (k, t) = partial_key_total common q in
        let (ks', t', n) = partial_keys_total common ps in
        let same : ks ≡ k ∷ ks' = ground (arith, t, t') in
        let here : q ≡ p = ground arith in rw (same, ← here, t)
    get-partial_keys common (q ∷ ps) ks (suc i) {p} e h =
        let (k, t) = partial_key_total common q in
        let (ks', t', n) = partial_keys_total common ps in
        let same : ks ≡ k ∷ ks' = ground (arith, t, t') in
        rw same (get-partial_keys common ps ks' i t' h)

    built :
        (b : JointKeyBuilder P) (jk : JointKey P K)
        → IsValid pk b
        → build pk d b ≡ done (ok jk)
        → IsJoint jk × Built b jk
    built b jk v e = elim (Bool-cases (is_full b)) [
      | inl full ↦
          let (jk', t, j, w) = build_full b v full in
          let same : jk' ≡ jk = ground (arith, t) in subst (λ x. IsJoint x × Built b x) same (j, w)
      | inr more ↦ absurd (missing more)
    ]
      where
        missing : is_full b ≡ false → ⊥
        missing more =
            let t : build pk d b ≡ done (err not_enough_participants) = unfold build in rw more in
            ground (arith, t)

    -- In the joint key of a valid builder, with a hash as long as a secret key, the scalar at the
    -- index of a participant is the hash of the common scalar and of that participant's key.
    pub participant_scalar :
        (b : JointKeyBuilder P) (jk : JointKey P K) (p : P) (i : ℕ)
        → IsValid pk b
        → build pk d b ≡ done (ok jk)
        → index_of pk jk p ≡ ok i
        → get_musig_scalar jk i ≡ calculate_partial_key pk d (sk.as_bytes jk.common) p
    unfolding index_of get_musig_scalar
    participant_scalar b jk p i v e h =
        let (q, t, same) = binary_search_sound pk.cmp jk.pub_keys p {i = i} (ground arith) in
        let bytes : pk.as_bytes q ≡ pk.as_bytes p =
          laws.as_bytes_lem q
          ∙ (ap laws.encode ((laws.eq_iff q p).0 ((cmp-eq_iff laws q p).0 same))
              ∙ sym (laws.as_bytes_lem p)) in
        get-partial_keys (sk.as_bytes jk.common) jk.pub_keys jk.musig_scalars i (built b jk v e).1.1
          t
        ∙ unfold calculate_partial_key in rw bytes

  -- In a well-formed joint key, the index of a key is `i` just when the list holds an equal key at
  -- `i`.
  pub index_of_iff :
      (jk : JointKey P K) (p : P) (i : ℕ)
      → IsJoint jk
      → (index_of pk jk p ≡ ok i)
        ↔ ((q : P) × (get_elem? jk.pub_keys i ≡ some q) × (pk.eq q p ≡ true))
  unfolding index_of
  index_of_iff jk p i j = (
    λ h.
        let (q, t, same) = binary_search_sound pk.cmp jk.pub_keys p {i = i} (ground arith) in
        (q, t, (cmp-eq_iff laws q p).0 same),
    λ (q, t, same).
        let found =
          binary_search_complete pk.cmp (cmp-TotalOrder laws) p jk.pub_keys i j.ascending t
            ((cmp-eq_iff laws q p).1 same) in
        ground (arith, found),
  )

  -- A valid builder, and one for as many signers with the same keys in another order, build the
  -- same joint key.
  pub build_perm :
      (d : Digest) (b c : JointKeyBuilder P)
      → IsValid pk b
      → b.num_signers ≡ c.num_signers
      → Permᴰ b.pub_keys c.pub_keys
      → build pk d b ≡ build pk d c
  unfolding build is_full
  build_perm d b c v n p =
      rw (length-perm p, n, sort-perm pk.cmp (cmp-TotalOrder laws) p v.distinct)
