-- ===== src/Lib.antt =====
-- tari-crypto: keys, commitments, signatures and MuSig on the ristretto255 group.
--
-- The program. Secret keys are scalars and public keys points of a group (src/keys.rs,
-- src/ristretto/ristretto_keys.rs). On them stand homomorphic commitments (src/commitment.rs,
-- src/ristretto/pedersen.rs), Schnorr signatures (src/signatures/schnorr.rs), signatures for
-- commitments (src/signatures/commitment_signature.rs), joint keys (src/musig.rs) and the MuSig
-- ceremony (src/ristretto/musig.rs), a state machine in which participants build a joint key,
-- commit to nonces, show them, and sign.
--
-- The files.
--   Base               names from the libraries, results, panics (`Run`), lists; the order of bytes,
--                      and lists in another order
--   Std                the sort and the binary search of slices, as the language library has them
--   External           hash functions, `Hasher` and fixed-size sets, which are other packages' code
--   Keys               the traits `SecretKey` and `PublicKey` as records of operations; Keys/Laws is
--                      the contract: public keys stand for elements of a group on which the secret
--                      keys, a commutative ring, act
--   Hash               src/hash: `Blake256` over the hasher of the blake2 package
--   Commitment         `HomomorphicCommitment`; Commitment/Laws is the contract of a factory
--   Signatures         Schnorr and CommitmentSignature, over any keys that keep the contract
--   JointKey           `JointKeyBuilder` and `JointKey`; Add and Build are about their operations
--   MuSig              States, Rounds (the operations of each state), Machine (the dispatch of
--                      events) and Query. About any events: Invariant, Places, Early, Nonces, Sums,
--                      Signing and Runs; Phases and Forward for the order of the rounds; and Swap
--                      and Late for the moment at which the message is set. About participants who
--                      follow the protocol: Partial, Vacant, Filling, Totals, Seats, Gather, Honest,
--                      Append, Roster, Single, Parts, Shares, Complete and Ceremony
--   Ristretto          Dalek (curve25519_dalek as a parameter), Keys, Constants, Pedersen; KeyLaws and
--                      PedersenLaws relate them to the contracts; Classes has the public keys up to
--                      equality, Conversions their hashes and texts, Serialize the code of
--                      src/ristretto/serialize.rs, and Utils that of src/ristretto/utils.rs
--   RangeProof         src/ristretto/dalek_range_proof.rs and its errors, with the bulletproofs
--                      package as a parameter, and arrays of 21 and 23 bytes for the messages of
--                      proofs with rewind keys; Traits is about src/range_proof.rs and
--                      src/rewindable_range_proof.rs, New and Rewind about the service
--   Ffi                src/ffi: Memory, Keys and Error, with Signing, Comsig,
--                      Nulls, Panics and Lookup about them
--   Wasm               src/wasm: Hex (hexadecimal text as a parameter), KeyUtils, ComSigUtils,
--                      KeyRing, Commitments and RangeProofs, with Checks, ComSigChecks, RingLaws and
--                      RingSpec about them
--   Tests              a field of two elements, a digest and lists of places as parameters, a whole
--                      ceremony of two participants, and every result at such an input
--
-- How the code is read. A function that takes `self` returns its next value; `Result` is `Result`;
-- `unwrap`, `expect` and an index out of bounds end in `panic` of `Run`. The mutable builder of
-- src/musig.rs is passed on beside the result of each call. Equality of keys is that of the
-- points, not of the representations: a Ristretto public key has a cell that caches its compressed
-- point. Sets have as many places as the joint key has keys; a sum over a set is known only
-- through the laws of External. C pointers are addresses in a memory of key arrays, error codes
-- and strings; reading or writing through a null pointer counts as a panic. The number of participants is
-- bounded by MAX_SIGNATURES. No length here comes near the bounds of machine integers, so lengths
-- and indices are unbounded numbers, but for `range | MASK`, which is taken on 64 bits. Loops are
-- structural; the binary search halves a length and has one round of fuel more than the slice has
-- items.
--
-- What is a parameter. curve25519_dalek (scalars, points, their encodings), the digest, the
-- blake2 package, hashers of the language library, tari_utilities' `FixedSet` and hexadecimal text,
-- the formats of serde, and the bulletproofs package: each with the laws of its documentation, of
-- which the soundness of range proofs is not one that is used. The
-- draws of the random number generator are arguments. That hashes of different inputs differ is
-- nowhere supposed, so nothing here is about forging signatures.
--
-- What is not modelled. The version strings of the bindings, the type aliases of
-- src/ristretto/ristretto_sig.rs and src/ristretto/ristretto_com_sig.rs, and the macros of
-- src/macros.rs, which forward operators on owned operands to those on references: a value and a
-- reference to it are one value here. Of serde's visitors, the text that says what was expected;
-- of the commands of wasm_bindgen, the conversion of the answers to JavaScript objects. Benchmarks
-- and examples only call the library.
pub mod Base
pub mod Keys
pub mod Commitment
pub mod Signatures
pub mod Std
pub mod External
pub mod JointKey
pub mod MuSig
pub mod Ristretto
pub mod RangeProof
pub mod Wasm
pub mod Hash
pub mod Ffi
pub mod Tests
