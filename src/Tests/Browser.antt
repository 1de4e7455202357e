-- ===== src/Tests/Browser.antt =====
-- The calls from JavaScript over the two-element field: commitments, range proofs and a key ring.
use tari_crypto.Base.{◌≡◌, refl, ◌⊎◌, true, false, List, [], ◌∷◌, some, none, ok, arith}
use tari_crypto.Wasm.Hex.{Text, read}
use tari_crypto.Wasm.KeyUtils.{invalid_private_key, secret_from_hex, public_to_hex}
use tari_crypto.Wasm.KeyRing
use tari_crypto.Wasm.Commitments
use tari_crypto.Wasm.Commitments.{commit, wasm_commit-opens}
use tari_crypto.Wasm.RangeProofs.{create_proof, verify, wasm_create_proof-verify}
use tari_crypto.Wasm.RingSpec
use tari_crypto.Wasm.RingSpec.{Call, new_key, len, sign, runs, answers, empty, ring-refines}
use tari_crypto.Ristretto.Keys
use tari_crypto.Ristretto.Pedersen.{commit_value}
use tari_crypto.RangeProof.Service.{DalekRangeProofService}
use tari_crypto.RangeProof.Service
use tari_crypto.Tests.Field.{two, two_laws, encode}
use tari_crypto.Tests.Externals.{any_bit}
use tari_crypto.Tests.Inputs.{K, keys, keys_laws, k₀, k₁, factory, commitments, commitments_laws}
use tari_crypto.Tests.Proofs.{plain, plain_laws}
use tari_crypto.Tests.Ring.{verbatim}

abbrev one : Text
one = encode true

wasm_commit-opens_example :
    ((secret_from_hex keys verbatim one ≡ none)
      × (commit keys verbatim commitments one 5
          ≡ record { commitment = none; error = some invalid_private_key })
      × ((text : Text) → Commitments.opens keys verbatim commitments one 5 text ≡ false))
    ⊎ ((k : K) × (text : Text) × (secret_from_hex keys verbatim one ≡ some k)
        × (commit keys verbatim commitments one 5 ≡ record { commitment = some text; error = none })
        × (Commitments.opens keys verbatim commitments one 5 text ≡ true))
wasm_commit-opens_example = wasm_commit-opens keys_laws verbatim commitments commitments_laws one 5

one_read : secret_from_hex (Keys.public_key two two_laws) verbatim one ≡ some k₁
unfolding secret_from_hex read Keys.public_key Keys.secret_key Keys.secret_from_bytes
one_read = refl

wasm_create_proof-verify_example :
    (s : DalekRangeProofService plain) × (text : Text) × (Service.new plain 64 factory ≡ ok s)
    × (create_proof two_laws plain verbatim (record { rpf = s }) one 200
        ≡ record { proof = text; error = none })
    × (verify two_laws plain verbatim
          (record { rpf = s })
          (public_to_hex
            (Keys.public_key two two_laws)
            verbatim
            (commit_value factory k₁ 200).point)
          text
        ≡ record { valid = true; error = none })
wasm_create_proof-verify_example =
    wasm_create_proof-verify two_laws plain plain_laws verbatim factory one k₁ 200 one_read
      (omega arith)

abbrev alice : Text
alice = 97 ∷ []

abbrev calls : List (Call K)
calls =
    new_key alice k₁
    ∷ sign alice (7 ∷ []) k₀
    ∷ new_key alice k₀
    ∷ len
    ∷ RingSpec.opens alice 3 one
    ∷ []

ring-refines_example :
    runs keys verbatim any_bit commitments (KeyRing.new commitments) calls
    ≡ answers keys verbatim any_bit commitments empty calls
ring-refines_example = ring-refines keys verbatim any_bit commitments calls
