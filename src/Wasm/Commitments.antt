-- ===== src/Wasm/Commitments.antt =====
-- src/wasm/commitments.rs. `factory` is `PedersenCommitmentFactory::default()`.
use tari_crypto.Base.{ℕ, ◌≡◌, refl, ◌∙◌, ◌⊎◌, inl, inr, Bool, true, false, none, some, Option-cases}
use tari_crypto.Keys.{PublicKey}
use tari_crypto.Keys.Laws.{KeyLaws}
use tari_crypto.Commitment.{HomomorphicCommitment, HomomorphicCommitmentFactory, from_public_key}
use tari_crypto.Commitment.Laws.{FactoryLaws}
use tari_crypto.Wasm.Hex.{Text, Hex}
use tari_crypto.Wasm.KeyUtils.{
  invalid_private_key, no_private_key, secret_from_hex, public_from_hex, public_to_hex,
}
use tari_crypto.Wasm.KeyRing.{CommitmentResult}
use tari_crypto.Wasm.Checks.{public_from_hex-to_hex}

module _ {K P : Type 0} (pk : PublicKey K P) (hex : Hex)
    (factory : HomomorphicCommitmentFactory K P) where
  unfoldable pub commit : Text → ℕ → CommitmentResult
  commit key value = elim (secret_from_hex pk hex key) [
    | none ↦ record { commitment = none; error = some invalid_private_key }
    | some k ↦ record {
      commitment = some (public_to_hex pk hex (factory.commit_value k value).point);
      error = none;
    }
  ]

  -- The error quotes the text that is no key.
  unfoldable pub commit_private_keys : Text → Text → CommitmentResult
  commit_private_keys key_1 key_2 = elim (secret_from_hex pk hex key_1) [
    | none ↦ record { commitment = none; error = some (no_private_key key_1) }
    | some k_1 ↦ elim (secret_from_hex pk hex key_2) [
      | none ↦ record { commitment = none; error = some (no_private_key key_2) }
      | some k_2 ↦ record {
        commitment = some (public_to_hex pk hex (factory.commit k_1 k_2).point);
        error = none;
      }
    ]
  ]

  unfoldable pub opens : Text → ℕ → Text → Bool
  unfolding from_public_key
  opens key value commitment = elim (secret_from_hex pk hex key) [
    | none ↦ false
    | some k ↦ elim (public_from_hex pk hex commitment) [
      | none ↦ false
      | some c ↦ factory.open_value k value (from_public_key c)
    ]
  ]

module _ {K P : Type 0} {pk : PublicKey K P} (laws : KeyLaws pk) (hex : Hex)
    (f : HomomorphicCommitmentFactory K P) (fl : FactoryLaws laws f) where
  open laws use {value}

  reads_back :
      (k v : K) (c : HomomorphicCommitment P)
      → value c.point ≡ value (f.commit k v).point
      → (q : P) × (public_from_hex pk hex (public_to_hex pk hex c.point) ≡ some q)
        × (f.open_with k v (from_public_key q) ≡ true)
  unfolding from_public_key
  reads_back k v c same =
      let (q, e, back) = public_from_hex-to_hex laws hex c.point in
      (q, e, (fl.open_lem k v (record { point = q })).1 (back ∙ (same ∙ fl.commit_lem k v)))

  -- For a factory that keeps its contract: with a text that is no secret key, committing to a value
  -- has the error of an invalid private key and no commitment, and nothing opens with that text.
  -- Otherwise committing has no error, and its text opens with the same key and value.
  pub wasm_commit-opens :
      (key : Text) (v : ℕ)
      → ((secret_from_hex pk hex key ≡ none)
          × (commit pk hex f key v ≡ record { commitment = none; error = some invalid_private_key })
          × ((text : Text) → opens pk hex f key v text ≡ false))
        ⊎ ((k : K) × (text : Text) × (secret_from_hex pk hex key ≡ some k)
            × (commit pk hex f key v ≡ record { commitment = some text; error = none })
            × (opens pk hex f key v text ≡ true))
  unfolding commit opens
  wasm_commit-opens key v = elim (Option-cases (secret_from_hex pk hex key)) [
    | inl e ↦ inl (e, rw (e, commit) refl, λ text. rw (e, opens) refl)
    | inr (k, e) ↦
        let c = f.commit_value k v in
        let same : value c.point ≡ value (f.commit k (fl.of_u64 v)).point =
          rw (fl.commit_value_lem k v) refl in
        let (q, h, opened) = reads_back k (fl.of_u64 v) c same in
        inr (
          k,
          public_to_hex pk hex c.point,
          e,
          rw (e, commit) refl,
          rw (e, opens, h, fl.open_value_lem) opened,
        )
  ]

  -- For a factory that keeps its contract: committing two keys fails on the first text that is no
  -- secret key, and the error quotes it; otherwise it has no error and a text that is read as a
  -- commitment which the two keys open.
  pub commit_private_keys_lem :
      (key_1 key_2 : Text)
      → ((secret_from_hex pk hex key_1 ≡ none)
          × (commit_private_keys pk hex f key_1 key_2
              ≡ record { commitment = none; error = some (no_private_key key_1) }))
        ⊎ ((k_1 : K) × (secret_from_hex pk hex key_1 ≡ some k_1)
            × (secret_from_hex pk hex key_2 ≡ none)
            × (commit_private_keys pk hex f key_1 key_2
                ≡ record { commitment = none; error = some (no_private_key key_2) }))
        ⊎ ((k_1 k_2 : K) × (text : Text) × (q : P) × (secret_from_hex pk hex key_1 ≡ some k_1)
            × (secret_from_hex pk hex key_2 ≡ some k_2)
            × (commit_private_keys pk hex f key_1 key_2
                ≡ record { commitment = some text; error = none })
            × (public_from_hex pk hex text ≡ some q)
            × (f.open_with k_1 k_2 (from_public_key q) ≡ true))
  unfolding commit_private_keys
  commit_private_keys_lem key_1 key_2 = elim (Option-cases (secret_from_hex pk hex key_1)) [
    | inl e ↦ inl (e, rw (e, commit_private_keys) refl)
    | inr (k_1, e) ↦ inr (elim (Option-cases (secret_from_hex pk hex key_2)) [
      | inl e' ↦ inl (k_1, e, e', rw (e, commit_private_keys, e') refl)
      | inr (k_2, e') ↦
          let c = f.commit k_1 k_2 in
          let (q, h, opened) = reads_back k_1 k_2 c refl in
          inr (
            k_1,
            k_2,
            public_to_hex pk hex c.point,
            q,
            e,
            e',
            rw (e, commit_private_keys, e') refl,
            h,
            opened,
          )
    ])
  ]
