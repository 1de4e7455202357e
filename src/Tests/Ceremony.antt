-- ===== src/Tests/Ceremony.antt =====
-- Two participants with the secrets 0 and 1, and their ceremony.
use tari_crypto.Base.{
  ◌≤◌, ◌⊎◌, true, false, List, [], ◌∷◌, ◌++◌, All, refl, Returns, ◌≡◌, Run, done, none, some, arith,
}
use tari_crypto.Base.Order.{cmp_bytes, eq_bytes}
use tari_crypto.Std.Sort.{sort, insert}
use tari_crypto.Std.Search.{binary_search}
use tari_crypto.External.{digest}
use tari_crypto.Ristretto.Keys.{
  as_bytes, batch_mul, compressed, from_secret_key, new_from_pk, public_add, public_cmp,
  public_default, public_eq, public_key, secret_add, secret_as_bytes, secret_eq, secret_from_bytes,
  secret_key, secret_mul, secret_mul_public,
}
use tari_crypto.Tests.Field.{encode}
use tari_crypto.Tests.Externals.{any_bit, any_bit_laws, lists, lists_laws, find, full, sum_places}
use tari_crypto.Tests.Inputs.{K, P, keys, keys_laws, k₀, k₁, p₀, p₁}
use tari_crypto.MuSig.Query.{has_failed, get_challenge, get_aggregated_public_key}
use tari_crypto.MuSig.Phases.{phase}
use tari_crypto.MuSig.Late.{Collects, run-set_message_late}
use tari_crypto.MuSig.Forward.{run-Forward}
use tari_crypto.Tests.Joint.{joint, fits}
use tari_crypto.JointKey
use tari_crypto.Signatures.Schnorr.{SchnorrSignature}
use tari_crypto.MuSig.States.{
  MessageHash, Initialization, initialization, nonce_hash_collection, signature_collection,
  MuSigEvent, finalized, add_key, set_message, add_nonce_hash, add_nonce, add_partial_sig,
  FinalizedMuSig,
}
use tari_crypto.MuSig.Machine.{MuSig, new, run, handle_event, next_state}
use tari_crypto.MuSig.Rounds
use tari_crypto.MuSig.Invariant.{InState, Gathering}
use tari_crypto.JointKey.Add.{new-IsValid}
use tari_crypto.MuSig.Runs.{Validated, ceremony_verified, ceremony_total, next_state-InState}
use tari_crypto.Signatures.Schnorr

abbrev message : MessageHash
message = 1 ∷ []

unfoldable zero_nonce : SchnorrSignature P K
unfolding p₀
zero_nonce = record { public_nonce = p₀; signature = k₁ }

unfoldable one_nonce : SchnorrSignature P K
unfolding p₁
one_nonce = record { public_nonce = p₁; signature = k₁ }

unfoldable events : List (MuSigEvent K P)
unfolding p₀ p₁ zero_nonce one_nonce
events =
    add_key p₁
    ∷ add_key p₀
    ∷ add_nonce_hash p₁ (encode false)
    ∷ set_message message
    ∷ add_nonce_hash p₀ (encode true)
    ∷ add_nonce p₀ p₁
    ∷ add_nonce p₁ p₀
    ∷ add_partial_sig zero_nonce true
    ∷ add_partial_sig one_nonce true
    ∷ []

unfoldable the_end : Run (MuSig lists K P)
unfolding keys events lists p₀ p₁ zero_nonce one_nonce
the_end = run keys any_bit lists (new keys any_bit lists 2) events

unfoldable result : FinalizedMuSig K P
unfolding joint p₁
result = record {
  s_agg = record { public_nonce = p₁; signature = k₀ };
  challenge = k₁;
  joint_key = joint;
}

ends :
    run keys any_bit lists (new keys any_bit lists 2) events
    ≡ done (record { state = finalized result })
unfolding keys events lists p₀ p₁ zero_nonce one_nonce result joint run handle_event new next_state
    Rounds.add_pubkey Rounds.add_nonce_hash Rounds.set_message_nonce_hash Rounds.add_nonce
    Rounds.add_partial_signature Rounds.calculate_agg_signature Rounds.calculate_challenge
    Rounds.is_valid_nonce Rounds.new_finalized Rounds.new_initialization Rounds.new_nonce_collection
    Rounds.new_nonce_hash_collection Rounds.new_signature_collection
    Rounds.set_message_initialization Rounds.set_message_nonce Rounds.set_signature
    Rounds.start_signatures Rounds.validate_partial_signature JointKey.add_key JointKey.is_full
    JointKey.build JointKey.index_of JointKey.size JointKey.calculate_common
    JointKey.calculate_joint_key JointKey.calculate_musig_scalars JointKey.calculate_partial_key
    JointKey.get_musig_scalar JointKey.get_pub_keys JointKey.key_exists JointKey.new
    JointKey.sort_keys sort insert binary_search cmp_bytes eq_bytes digest as_bytes batch_mul
    compressed from_secret_key new_from_pk public_add public_cmp public_default public_eq public_key
    secret_add secret_as_bytes secret_eq secret_from_bytes secret_key secret_mul secret_mul_public
    Schnorr.add Schnorr.calc_signature_verifier Schnorr.default Schnorr.new Schnorr.verify find full
    sum_places
ends = refl

size : keys.secret.key_length ≡ 32
unfolding keys
size = refl

validated : All (Validated keys_laws any_bit lists lists_laws any_bit_laws size message) events
unfolding events
validated = (tt, (tt, (tt, (refl, (tt, (tt, (tt, (refl, (refl, tt)))))))))

ceremony_verified_example :
    (Schnorr.verify keys result.s_agg result.joint_key.joint_pub_key result.challenge ≡ true)
    × (Rounds.calculate_challenge keys any_bit lists result.s_agg.public_nonce
          result.joint_key.joint_pub_key message
        ≡ done result.challenge)
ceremony_verified_example =
    ceremony_verified keys_laws any_bit lists lists_laws any_bit_laws size 2 message events result
      validated ends

ceremony_total_example :
    (m : MuSig lists K P) × (run keys any_bit lists (new keys any_bit lists 2) events ≡ done m)
ceremony_total_example =
    ceremony_total keys_laws any_bit lists lists_laws any_bit_laws size 2 events

start : Initialization P
unfolding JointKey.new
start = record { joint_key_builder = record { num_signers = 2; pub_keys = [] }; message = none }

start-Gathering : Gathering keys_laws any_bit lists lists_laws (λ m. m ≡ message) Unit start
unfolding start JointKey.new
start-Gathering = record {
  valid = new-IsValid keys 2 refl;
  room = omega arith;
  sent = λ m h. absurd (ground arith);
}

next_state-InState_example :
    Returns
      (next_state keys any_bit lists (initialization start) (set_message message))
      (InState keys_laws any_bit lists lists_laws (λ m. m ≡ message) Unit)
next_state-InState_example =
    next_state-InState keys_laws any_bit lists lists_laws any_bit_laws size (λ m. m ≡ message) Unit
      fits (initialization start) (set_message message) refl start-Gathering

-- Both keys are there, and the first nonce hash is to come.
unfoldable joined : MuSig lists K P
unfolding lists
joined = record {
  state =
      nonce_hash_collection
        (record { joint_key = joint; nonce_hashes = none ∷ none ∷ []; message = none });
}

unfoldable collected : List (MuSigEvent K P)
unfolding p₀ p₁
collected =
    add_nonce_hash p₁ (encode false)
    ∷ add_nonce_hash p₀ (encode true)
    ∷ add_nonce p₀ p₁
    ∷ add_nonce p₁ p₀
    ∷ []

unfoldable signed : List (MuSigEvent K P)
unfolding zero_nonce
signed = add_partial_sig zero_nonce true ∷ []

abbrev later_events : List (MuSigEvent K P)
later_events = set_message message ∷ (collected ++ signed)

unfoldable one_to_come : MuSig lists K P
unfolding lists p₀ p₁ zero_nonce
one_to_come = record {
  state = signature_collection (record {
    joint_key = joint;
    public_nonces = some p₁ ∷ some p₀ ∷ [];
    partial_signatures = none ∷ some zero_nonce ∷ [];
    challenge = k₁;
  });
}

waits : run keys any_bit lists joined later_events ≡ done one_to_come
unfolding keys joined collected signed lists p₀ p₁ zero_nonce one_nonce one_to_come joint run
    handle_event new next_state Rounds.add_pubkey Rounds.add_nonce_hash
    Rounds.set_message_nonce_hash Rounds.add_nonce Rounds.add_partial_signature
    Rounds.calculate_agg_signature Rounds.calculate_challenge Rounds.is_valid_nonce
    Rounds.new_finalized Rounds.new_initialization Rounds.new_nonce_collection
    Rounds.new_nonce_hash_collection Rounds.new_signature_collection
    Rounds.set_message_initialization Rounds.set_message_nonce Rounds.set_signature
    Rounds.start_signatures Rounds.validate_partial_signature JointKey.add_key JointKey.is_full
    JointKey.build JointKey.index_of JointKey.size JointKey.calculate_common
    JointKey.calculate_joint_key JointKey.calculate_musig_scalars JointKey.calculate_partial_key
    JointKey.get_musig_scalar JointKey.get_pub_keys JointKey.key_exists JointKey.new
    JointKey.sort_keys sort insert binary_search cmp_bytes eq_bytes digest as_bytes batch_mul
    compressed from_secret_key new_from_pk public_add public_cmp public_default public_eq public_key
    secret_add secret_as_bytes secret_eq secret_from_bytes secret_key secret_mul secret_mul_public
    Schnorr.add Schnorr.calc_signature_verifier Schnorr.default Schnorr.new Schnorr.verify find full
    sum_places
waits = refl

run-Forward_example :
    (phase joined.state ≤ phase one_to_come.state)
    × ((has_failed one_to_come ≡ true)
        ⊎ (get_aggregated_public_key joined ≡ none)
        ⊎ (get_aggregated_public_key one_to_come ≡ get_aggregated_public_key joined))
    × ((has_failed one_to_come ≡ true)
        ⊎ (get_challenge joined ≡ none)
        ⊎ (get_challenge one_to_come ≡ get_challenge joined))
run-Forward_example = run-Forward keys any_bit lists joined one_to_come later_events waits

collects : All (Collects keys any_bit lists lists_laws) collected
unfolding collected
collects = (tt, (tt, (tt, (tt, tt))))

fine : has_failed one_to_come ≡ false
unfolding has_failed one_to_come
fine = refl

run-set_message_late_example :
    run keys any_bit lists joined (collected ++ (set_message message ∷ signed)) ≡ done one_to_come
run-set_message_late_example =
    run-set_message_late keys any_bit lists lists_laws joined one_to_come message collected signed
      collects fine waits
