-- ===== src/Wasm/KeyRing.antt =====
-- src/wasm/keyring.rs: the key ring, its hash map as a list of pairs with different names.
use tari_crypto.Base.{
  ℕ, Bool, false, List, [], ◌∷◌, length, ◌==◌, Option, none, some, if◌then◌else◌,
}
use tari_crypto.Base.Order.{eq_bytes}
use tari_crypto.Keys.{PublicKey}
use tari_crypto.External.{Digest}
use tari_crypto.Commitment.{HomomorphicCommitmentFactory, from_public_key}
use tari_crypto.Wasm.Hex.{Text, Hex}
use tari_crypto.Wasm.KeyUtils.{
  ErrorText, no_private_key, no_private_nonce, SignResult, sign_error, sign_default,
  public_from_hex, secret_to_hex, public_to_hex, sign_message_with_key,
}

pub record KeyRing (K P : Type 0) : Type 0 where
  pub factory : HomomorphicCommitmentFactory K P
  pub keys : List (Text × (K × P))

-- `CommitmentResult` of src/wasm/commitments.rs
pub record CommitmentResult : Type 0 where
  pub commitment : Option Text
  pub error : Option ErrorText

module _ {K P : Type 0} where
  -- `HashMap::get` and `HashMap::insert`.
  unfoldable pub get : List (Text × (K × P)) → Text → Option (K × P)
  unfolding eq_bytes
  get [] id = none
  get ((name, pair) ∷ rest) id =
      let below = get rest id in if eq_bytes name id then some pair else below

  unfoldable pub insert : List (Text × (K × P)) → Text → K × P → List (Text × (K × P))
  unfolding eq_bytes
  insert [] id pair = (id, pair) ∷ []
  insert ((name, old) ∷ rest) id pair =
      let below = insert rest id pair in
      if eq_bytes name id then (name, pair) ∷ rest else (name, old) ∷ below

  unfoldable pub new : HomomorphicCommitmentFactory K P → KeyRing K P
  new default_factory = record { keys = []; factory = default_factory }

  unfoldable pub len : KeyRing K P → ℕ
  len ring = length ring.keys

  unfoldable pub is_empty : KeyRing K P → Bool
  is_empty ring = length ring.keys == 0

module _ {K P : Type 0} (pk : PublicKey K P) where
  unfoldable pub new_key : KeyRing K P → Text → K → KeyRing K P × ℕ
  unfolding insert
  new_key ring id drawn =
      let pair : K × P = (drawn, pk.from_secret_key drawn) in
      let keys = insert ring.keys id pair in (record ring { keys = keys }, length keys)

  module _ (hex : Hex) where
    unfoldable pub private_key : KeyRing K P → Text → Option Text
    unfolding get
    private_key ring id = elim (get ring.keys id) [
      | some p ↦ some (secret_to_hex pk hex p.0)
      | none ↦ none
    ]

    unfoldable pub public_key : KeyRing K P → Text → Option Text
    unfolding get
    public_key ring id = elim (get ring.keys id) [
      | some p ↦ some (public_to_hex pk hex p.1)
      | none ↦ none
    ]

    unfoldable pub commit : KeyRing K P → Text → ℕ → CommitmentResult
    unfolding get
    commit ring id value = elim (get ring.keys id) [
      | none ↦ record { commitment = none; error = some (no_private_key id) }
      | some k ↦ record {
        commitment = some (hex.to_hex (pk.as_bytes (ring.factory.commit_value k.0 value).point));
        error = none;
      }
    ]

    unfoldable pub opens : KeyRing K P → Text → ℕ → Text → Bool
    unfolding get
    opens ring id value commitment = elim (get ring.keys id) [
      | none ↦ false
      | some k ↦ elim (public_from_hex pk hex commitment) [
        | none ↦ false
        | some p ↦ ring.factory.open_value k.0 value (from_public_key p)
      ]
    ]

    module _ (blake256 : Digest) where
      unfoldable pub sign : KeyRing K P → Text → Text → K → SignResult
      unfolding get
      sign ring id msg drawn = elim (get ring.keys id) [
        | none ↦ sign_error (no_private_key id)
        | some k ↦ sign_message_with_key pk hex blake256 k.0 msg none drawn sign_default
      ]

      unfoldable pub sign_with_nonce : KeyRing K P → Text → Text → Text → K → SignResult
      unfolding get
      sign_with_nonce ring id nonce_id msg drawn = elim (get ring.keys id) [
        | none ↦ sign_error (no_private_key id)
        | some k ↦ elim (get ring.keys nonce_id) [
          | none ↦ sign_error (no_private_nonce nonce_id)
          | some nonce ↦
              sign_message_with_key pk hex blake256 k.0 msg (some nonce.0) drawn sign_default
        ]
      ]
