-- ===== src/Wasm/RingLaws.antt =====
-- The key ring: what it holds, and what its keys sign and open.
use tari_crypto.Base.{
  ℕ, suc, ◌≡◌, ◌≢◌, ◌⊎◌, inl, inr, refl, ap, ◌∙◌, true, false, List, [], ◌∷◌, length, some, none,
  Bool-cases, Option-cases, arith,
}
use tari_crypto.Base.Order.{eq_bytes, eq_bytes_iff}
use tari_crypto.Keys.{PublicKey}
use tari_crypto.Keys.Laws.{KeyLaws}
use tari_crypto.External.{Digest, DigestLaws}
use tari_crypto.Commitment.{from_public_key}
use tari_crypto.Commitment.Laws.{FactoryLaws}
use tari_crypto.Wasm.Hex.{Text, Hex}
use tari_crypto.Wasm.KeyUtils.{check_signature, public_to_hex, secret_to_hex}
use tari_crypto.Wasm.KeyRing.{
  KeyRing, get, insert, new_key, private_key, public_key, sign, commit, opens, len,
}
use tari_crypto.Wasm.Checks.{sign_message_with_key-check, public_from_hex-to_hex}

module _ {K P : Type 0} where
  pub get-insert :
      (l : List (Text × (K × P))) (id : Text) (pair : K × P) → get (insert l id pair) id ≡ some pair
  unfolding get insert
  get-insert [] id pair = rw ((eq_bytes_iff id id).1 refl) refl
  get-insert ((name, old) ∷ rest) id pair = elim (Bool-cases (eq_bytes name id)) [
    | inl e ↦ rw (e, e) refl
    | inr e ↦ rw (e, e) (get-insert rest id pair)
  ]

  pub get-insert_other :
      (l : List (Text × (K × P))) (id other : Text) (pair : K × P)
      → eq_bytes id other ≡ false
      → get (insert l id pair) other ≡ get l other
  unfolding get insert
  get-insert_other [] id other pair h = rw h refl
  get-insert_other ((name, old) ∷ rest) id other pair h = elim (Bool-cases (eq_bytes name id)) [
    | inl e ↦
        let f : eq_bytes name other ≡ false =
          ap (λ n. eq_bytes n other) ((eq_bytes_iff name id).0 e) ∙ h in
        rw (e, f) refl
    | inr e ↦ rw (e, get-insert_other rest id other pair h) refl
  ]

  pub length-insert :
      (l : List (Text × (K × P))) (id : Text) (pair : K × P)
      → ((get l id ≡ none) × (length (insert l id pair) ≡ suc (length l)))
        ⊎ ((get l id ≢ none) × (length (insert l id pair) ≡ length l))
  unfolding get insert
  length-insert [] id pair = inl (refl, refl)
  length-insert ((name, old) ∷ rest) id pair = elim (Bool-cases (eq_bytes name id)) [
    | inl e ↦ inr (λ h. ground (arith, h, e), rw e refl)
    | inr e ↦ elim (length-insert rest id pair) [
      | inl (h, n) ↦ inl (rw e h, rw e (ap suc n))
      | inr (h, n) ↦ inr (rw e h, rw e (ap suc n))
    ]
  ]

module _ {K P : Type 0} (pk : PublicKey K P) (hex : Hex) where
  -- A new key is found under its name; other names keep theirs; and the number returned is that of
  -- the keys, one more than before when the name is new, and as many otherwise.
  pub new_key_lem :
      (ring : KeyRing K P) (id : Text) (drawn : K)
      → let (ring', n) = new_key pk ring id drawn in
        (private_key pk hex ring' id ≡ some (secret_to_hex pk hex drawn))
        × (public_key pk hex ring' id ≡ some (public_to_hex pk hex (pk.from_secret_key drawn)))
        × ((other : Text)
            → eq_bytes id other ≡ false
            → (private_key pk hex ring' other ≡ private_key pk hex ring other)
              × (public_key pk hex ring' other ≡ public_key pk hex ring other))
        × (n ≡ len ring')
        × (((private_key pk hex ring id ≡ none) × (n ≡ suc (len ring)))
            ⊎ ((private_key pk hex ring id ≢ none) × (n ≡ len ring)))
  unfolding new_key private_key public_key len
  new_key_lem ring id drawn =
      let pair : K × P = (drawn, pk.from_secret_key drawn) in
      let e = get-insert ring.keys id pair in
      (
        rw (private_key, e) refl,
        rw (public_key, e) refl,
        λ other h.
            let f = get-insert_other ring.keys id other pair h in
            (rw (private_key, f) refl, rw (public_key, f) refl),
        refl,
        elim (length-insert ring.keys id pair) [
          | inl (h, n) ↦ inl (rw (private_key, h) refl, n)
          | inr (h, n) ↦ inr (
            λ t. elim (Option-cases (get ring.keys id)) [
              | inl u ↦ h u
              | inr (q, u) ↦ ground (arith, t, u)
            ],
            n,
          )
        ],
      )

module _ {K P : Type 0} {pk : PublicKey K P} (laws : KeyLaws pk) (hex : Hex) where
  open pk use {secret as sk}

  -- For a hash and keys of 32 bytes, what a key just added to a ring signs has no error, and it
  -- checks against the message and the public key that the ring gives for its name.
  pub ring_sign-check :
      (blake256 : Digest)
      → DigestLaws blake256
      → blake256.output_size ≡ 32
      → sk.key_length ≡ 32
      → pk.key_length ≡ 32
      → (ring : KeyRing K P) (id msg : Text) (k drawn : K)
      → let ring' = (new_key pk ring id k).0 in
        (nonce signature public : Text) × (sign pk hex blake256 ring' id msg drawn
          ≡ record { public_nonce = some nonce; signature = some signature; error = none })
        × (public_key pk hex ring' id ≡ some public)
        × (check_signature pk hex blake256 nonce signature public msg
            ≡ record { result = true; error = none })
  unfolding new_key sign public_key
  ring_sign-check blake256 dl output secret_size public_size ring id msg k drawn =
      let e = get-insert ring.keys id (k, pk.from_secret_key k) in
      let (nonce, signature, s, c) =
        sign_message_with_key-check laws hex blake256 dl output secret_size public_size k drawn none
          msg in
      (
        nonce,
        signature,
        public_to_hex pk hex (pk.from_secret_key k),
        rw (sign, e) s,
        rw (public_key, e) refl,
        c,
      )

  -- For a factory that keeps its contract, a commitment of the ring to a value, under the name of
  -- a key that it holds, has no error and opens with that name and value.
  pub ring_commit-opens :
      (ring : KeyRing K P)
      → FactoryLaws laws ring.factory
      → (id : Text) (value : ℕ) (k : K) (p : P) → get ring.keys id ≡ some (k, p)
      → (text : Text) × (commit pk hex ring id value
          ≡ record { commitment = some text; error = none })
        × (opens pk hex ring id value text ≡ true)
  unfolding commit opens from_public_key public_to_hex
  ring_commit-opens ring fl id value k p h =
      let f = ring.factory in
      let c = (f.commit_value k value).point in
      let (q, e, same) = public_from_hex-to_hex laws hex c in
      (
        hex.to_hex (pk.as_bytes c),
        rw (commit, h) refl,
        rw (opens, h, e, fl.open_value_lem)
            ((fl.open_lem k (fl.of_u64 value) (record { point = q })).1 (
              same
              ∙ (ap (λ x. laws.value x.point) (fl.commit_value_lem k value)
                  ∙ fl.commit_lem k (fl.of_u64 value)))),
      )
