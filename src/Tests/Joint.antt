-- ===== src/Tests/Joint.antt =====
-- The joint key of two participants with the secrets 0 and 1.
use mathlib.Core.List.{Permᴰ}
use tari_crypto.Base.{
  ℕ, ◌≡◌, ◌↔◌, ◌⊎◌, refl, true, false, some, List, [], ◌∷◌, ◌++◌, ok, err, done, length, get_elem?,
  ◌≤◌, arith,
}
use tari_crypto.Base.Order.{cmp_bytes}
use tari_crypto.Keys.Laws.{dot}
use tari_crypto.Std.Sort.{sort, insert, Distinct}
use tari_crypto.Std.Search.{binary_search}
use tari_crypto.JointKey.{
  JointKey, JointKeyBuilder, MuSigError, duplicate_pub_key, not_enough_participants,
}
use tari_crypto.JointKey
use tari_crypto.JointKey.Add.{IsValid, add_keys_iff, add_keys_err, IsRefused}
use tari_crypto.JointKey.Build.{IsJoint, build_total, build_perm, participant_scalar, index_of_iff}
use tari_crypto.Ristretto.Keys.{
  as_bytes, batch_mul, compressed, new_from_pk, public_cmp, public_eq, public_key, secret_as_bytes,
  secret_from_bytes, secret_key,
}
use tari_crypto.Ristretto.KeyLaws.{ristretto_laws}
use tari_crypto.Tests.Externals.{any_bit, any_bit_laws}
use tari_crypto.Tests.Inputs.{K, P, keys, keys_laws, k₁, p₀, p₁}

unfoldable forwards : JointKeyBuilder P
unfolding p₀ p₁
forwards = record { num_signers = 2; pub_keys = p₁ ∷ p₀ ∷ [] }

unfoldable backwards : JointKeyBuilder P
unfolding p₀ p₁
backwards = record { num_signers = 2; pub_keys = p₀ ∷ p₁ ∷ [] }

unfoldable empty : JointKeyBuilder P
empty = record { num_signers = 2; pub_keys = [] }

unfoldable pub joint : JointKey P K
unfolding p₀ p₁
joint = record {
  pub_keys = p₀ ∷ p₁ ∷ [];
  musig_scalars = k₁ ∷ k₁ ∷ [];
  common = k₁;
  joint_pub_key = p₁;
}

pub fits : any_bit.output_size ≡ keys.secret.key_length
unfolding keys
fits = refl

distinct : Distinct keys.cmp (p₁ ∷ p₀ ∷ [])
unfolding keys p₀ p₁ public_key public_cmp compressed cmp_bytes new_from_pk
distinct = ((λ h. absurd (ground arith), tt), (tt, tt))

forwards-IsValid : IsValid keys forwards
unfolding forwards
forwards-IsValid = record {
  distinct = distinct;
  bounded = omega arith;
  positive = omega arith;
  capped = omega arith;
}

empty-IsValid : IsValid keys empty
unfolding empty
empty-IsValid = record {
  distinct = tt;
  bounded = omega arith;
  positive = omega arith;
  capped = omega arith;
}

built : JointKey.build keys any_bit forwards ≡ done (ok joint)
unfolding keys p₀ p₁ forwards joint JointKey.is_full JointKey.build JointKey.calculate_common
    JointKey.calculate_joint_key JointKey.calculate_musig_scalars JointKey.calculate_partial_key
    JointKey.sort_keys sort insert cmp_bytes as_bytes batch_mul compressed new_from_pk public_cmp
    public_key secret_as_bytes secret_from_bytes secret_key
built = refl

pub found : JointKey.index_of keys joint p₁ ≡ ok 1
unfolding keys p₀ p₁ joint JointKey.index_of binary_search cmp_bytes compressed new_from_pk
    public_cmp public_key
found = refl

pub joint-IsJoint : IsJoint keys_laws joint
unfolding joint keys_laws keys p₀ p₁ public_key public_cmp compressed cmp_bytes new_from_pk
    ristretto_laws dot
joint-IsJoint = record {
  ascending = ((refl, tt), (tt, tt));
  scalars = refl;
  joint = refl;
  inhabited = omega arith;
}

shuffled : Permᴰ forwards.pub_keys backwards.pub_keys
unfolding forwards backwards
shuffled = Permᴰ.swap refl refl

build_total_example :
    ((JointKey.is_full forwards ≡ false)
      × (JointKey.build keys any_bit forwards ≡ done (err not_enough_participants)))
    ⊎ ((JointKey.is_full forwards ≡ true)
        × ((jk : JointKey P K) × (JointKey.build keys any_bit forwards ≡ done (ok jk))
            × IsJoint keys_laws jk
            × (jk.pub_keys ≡ sort keys.cmp forwards.pub_keys)))
build_total_example = build_total keys_laws any_bit any_bit_laws fits forwards forwards-IsValid

signers : forwards.num_signers ≡ backwards.num_signers
unfolding forwards backwards
signers = refl

build_perm_example : JointKey.build keys any_bit forwards ≡ JointKey.build keys any_bit backwards
build_perm_example =
    build_perm keys_laws any_bit forwards backwards forwards-IsValid signers shuffled

participant_scalar_example :
    JointKey.get_musig_scalar joint 1
    ≡ JointKey.calculate_partial_key keys any_bit (keys.secret.as_bytes joint.common) p₁
participant_scalar_example =
    participant_scalar keys_laws any_bit any_bit_laws fits forwards joint p₁ 1 forwards-IsValid
      built found

index_of_iff_example :
    (JointKey.index_of keys joint p₁ ≡ ok 1)
    ↔ ((q : P) × (get_elem? joint.pub_keys 1 ≡ some q) × (keys.eq q p₁ ≡ true))
index_of_iff_example = index_of_iff keys_laws joint p₁ 1 joint-IsJoint

add_keys_iff_example :
    ((n : ℕ) × ((JointKey.add_keys keys empty (p₁ ∷ p₀ ∷ [])).1 ≡ ok n)
      × ((JointKey.add_keys keys empty (p₁ ∷ p₀ ∷ [])).0
          ≡ record empty { pub_keys = empty.pub_keys ++ p₁ ∷ p₀ ∷ [] }))
    ↔ (Distinct keys.cmp (empty.pub_keys ++ p₁ ∷ p₀ ∷ [])
        × (length (empty.pub_keys ++ p₁ ∷ p₀ ∷ []) ≤ empty.num_signers))
add_keys_iff_example = add_keys_iff keys_laws empty (p₁ ∷ p₀ ∷ []) empty-IsValid

repeated : (JointKey.add_keys keys empty (p₁ ∷ p₁ ∷ [])).1 ≡ err duplicate_pub_key
unfolding keys p₁ empty JointKey.add_keys JointKey.add_key JointKey.key_exists public_key public_eq
    new_from_pk
repeated = refl

add_keys_err_example :
    (before : List P) × (k : P) × (after : List P) × (p₁ ∷ p₁ ∷ [] ≡ before ++ (k ∷ after))
    × ((JointKey.add_keys keys empty (p₁ ∷ p₁ ∷ [])).0
        ≡ record empty { pub_keys = empty.pub_keys ++ before })
    × IsRefused keys_laws empty (empty.pub_keys ++ before) k duplicate_pub_key
add_keys_err_example =
    add_keys_err keys_laws empty (p₁ ∷ p₁ ∷ []) duplicate_pub_key empty-IsValid repeated
