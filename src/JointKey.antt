-- ===== src/JointKey.antt =====
-- src/musig.rs: gathering the participants' keys and building the joint key.
pub mod Add
pub mod Build
use tari_crypto.Base.{
  ℕ, ◌==◌, ltb, Bool, true, false, ◌||◌, Bytes, List, [], ◌∷◌, ◌++◌, map, length, get_elem?, Result,
  ok, err, Run, done, ◌>>=◌, expect, unwrap, if◌then◌else◌, not,
}
use tari_crypto.Keys.{PublicKey}
use tari_crypto.External.{Digest}
use tari_crypto.Std.Sort.{sort}
use tari_crypto.Std.Search.{binary_search}

abbrev pub max_signatures : ℕ
max_signatures = 32768

pub data MuSigError : Type 0 where
  mismatched_nonces mismatched_signatures invalid_aggregate_signature : MuSigError
  invalid_partial_signature : ℕ → MuSigError
  not_sorted participant_not_found invalid_state_transition duplicate_pub_key : MuSigError
  too_many_participants not_enough_participants missing_hash message_already_set : MuSigError
  missing_message invalid_message incompatible_hash_function : MuSigError

pub record JointKey {ℓ κ} (P : Type ℓ) (K : Type κ) : Type (ℓ ⊔ κ) where
  pub pub_keys : List P
  pub musig_scalars : List K
  pub common : K
  pub joint_pub_key : P

pub record JointKeyBuilder {ℓ} (P : Type ℓ) : Type ℓ where
  pub num_signers : ℕ
  pub pub_keys : List P

unfoldable pub new {ℓ} : {P : Type ℓ} → ℕ → Result MuSigError (JointKeyBuilder P)
new n =
    if ltb max_signatures n
    then err too_many_participants
    else if n == 0
    then err not_enough_participants
    else ok (record { num_signers = n; pub_keys = [] })

unfoldable pub num_signers {ℓ} : {P : Type ℓ} → JointKeyBuilder P → ℕ
num_signers b = b.num_signers

unfoldable pub is_full {ℓ} : {P : Type ℓ} → JointKeyBuilder P → Bool
is_full b = length b.pub_keys == b.num_signers

module _ {ℓ κ} {P : Type ℓ} {K : Type κ} where
  unfoldable pub size : JointKey P K → ℕ
  size jk = length jk.pub_keys

  unfoldable pub get_common : JointKey P K → K
  get_common jk = jk.common

  unfoldable pub get_joint_pubkey : JointKey P K → P
  get_joint_pubkey jk = jk.joint_pub_key

  -- An index out of bounds panics.
  unfoldable pub get_pub_keys : JointKey P K → ℕ → Run P
  get_pub_keys jk index = unwrap (get_elem? jk.pub_keys index)

  unfoldable pub get_musig_scalar : JointKey P K → ℕ → Run K
  get_musig_scalar jk index = unwrap (get_elem? jk.musig_scalars index)

module _ {K P : Type 0} (pk : PublicKey K P) where
  open pk use {secret as sk}

  any_eq : P → List P → Bool
  any_eq key [] = false
  any_eq key (v ∷ vs) = pk.eq v key || any_eq key vs

  unfoldable pub key_exists : JointKeyBuilder P → P → Bool
  unfolding any_eq
  key_exists b key = any_eq key b.pub_keys

  unfoldable pub add_key : JointKeyBuilder P → P → JointKeyBuilder P × Result MuSigError ℕ
  unfolding key_exists
  add_key b pub_key =
      if key_exists b pub_key
      then (b, err duplicate_pub_key)
      else if not (ltb (length b.pub_keys) b.num_signers)
      then (b, err too_many_participants)
      else let pub_keys = b.pub_keys ++ pub_key ∷ [] in
        (record b { pub_keys = pub_keys }, ok (length pub_keys))

  -- The keys before the one that fails stay in the builder.
  unfoldable pub add_keys : JointKeyBuilder P → List P → JointKeyBuilder P × Result MuSigError ℕ
  add_keys b [] = (b, ok (length b.pub_keys))
  add_keys b (k ∷ ks) =
      let rest = add_keys (add_key b k).0 ks in
      elim (add_key b k).1 [ ok _ ↦ rest | err e ↦ ((add_key b k).0, err e) ]

  unfoldable pub sort_keys : JointKeyBuilder P → JointKeyBuilder P
  sort_keys b = record b { pub_keys = sort pk.cmp b.pub_keys }

  chain_keys : (d : Digest) → d.State → List P → d.State
  chain_keys d common [] = common
  chain_keys d common (k ∷ ks) = chain_keys d (d.chain common (pk.as_bytes k)) ks

  unfoldable pub calculate_common : Digest → JointKeyBuilder P → Run K
  unfolding chain_keys
  calculate_common d b = expect (sk.from_bytes (d.finalize (chain_keys d d.new b.pub_keys)))

  unfoldable pub calculate_partial_key : Digest → Bytes → P → Run K
  calculate_partial_key d common pubkey =
      expect (sk.from_bytes (d.finalize (d.chain (d.chain d.new common) (pk.as_bytes pubkey))))

  partial_keys : Digest → Bytes → List P → Run (List K)
  unfolding calculate_partial_key
  partial_keys d common [] = done []
  partial_keys d common (p ∷ ps) = do
    k ← calculate_partial_key d common p
    ks ← partial_keys d common ps
    done (k ∷ ks)

  unfoldable pub calculate_musig_scalars : Digest → JointKeyBuilder P → K → Run (List K)
  unfolding partial_keys
  calculate_musig_scalars d b common = partial_keys d (sk.as_bytes common) b.pub_keys

  unfoldable pub calculate_joint_key : List K → List P → P
  calculate_joint_key scalars pub_keys = pk.batch_mul scalars pub_keys

  unfoldable pub build : Digest → JointKeyBuilder P → Run (Result MuSigError (JointKey P K))
  unfolding sort_keys calculate_common calculate_musig_scalars calculate_joint_key
  build d b = if not (is_full b) then done (err not_enough_participants) else do
    let b' = sort_keys b
    common ← calculate_common d b'
    musig_scalars ← calculate_musig_scalars d b' common
    done (
        ok (record {
          pub_keys = b'.pub_keys;
          musig_scalars = musig_scalars;
          common = common;
          joint_pub_key = calculate_joint_key musig_scalars b'.pub_keys;
        }))

  unfoldable pub index_of : JointKey P K → P → Result MuSigError ℕ
  index_of jk pubkey = elim (binary_search pk.cmp jk.pub_keys pubkey) [
    | ok i ↦ ok i
    | err _ ↦ err participant_not_found
  ]
