-- ===== src/Wasm/RingSpec.antt =====
-- What a key ring promises: it is a map from names to key pairs with the count of its names, and
-- every sequence of calls is answered from that map.
use tari_crypto.Base.{
  ℕ, suc, ◌==◌, ◌≡◌, refl, sym, ap, ap₂, ◌∙◌, Bool, false, inl, inr, Option, none, some, List, [],
  ◌∷◌, length, if◌then◌else◌, Bool-cases, Option-cases, arith,
}
use tari_crypto.Base.Order.{eq_bytes, eq_bytes_iff}
use tari_crypto.Keys.{PublicKey}
use tari_crypto.External.{Digest}
use tari_crypto.Commitment.{HomomorphicCommitmentFactory, from_public_key}
use tari_crypto.Wasm.Hex.{Text, Hex}
use tari_crypto.Wasm.KeyUtils.{
  SignResult, no_private_key, no_private_nonce, sign_error, sign_default, sign_message_with_key,
  public_from_hex, public_to_hex, secret_to_hex,
}
use tari_crypto.Wasm.KeyRing.{KeyRing, CommitmentResult, get, insert}
use tari_crypto.Wasm.KeyRing
use tari_crypto.Wasm.RingLaws.{get-insert, get-insert_other, length-insert}

-- The calls of a program, with the keys drawn for them.
pub data Call (K : Type 0) : Type 0 where
  new_key : Text → K → Call K
  is_empty len : Call K
  private_key public_key : Text → Call K
  sign : Text → Text → K → Call K
  sign_with_nonce : Text → Text → Text → K → Call K
  commit : Text → ℕ → Call K
  opens : Text → ℕ → Text → Call K

pub data Answer : Type 0 where
  number : ℕ → Answer
  flag : Bool → Answer
  text : Option Text → Answer
  signed : SignResult → Answer
  committed : CommitmentResult → Answer

-- The abstract ring.
pub record Vault (K P : Type 0) : Type 0 where
  pub holds : Text → Option (K × P)
  pub count : ℕ

module _ {K P : Type 0} where
  abbrev pub empty : Vault K P
  empty = record { holds = λ id. none; count = 0 }

  -- The map changed at one name; a new name is counted.
  abbrev pub bind : Vault K P → Text → K × P → Vault K P
  bind v id pair = record {
    holds = λ other. if eq_bytes id other then some pair else v.holds other;
    count = elim (v.holds id) [ none ↦ suc v.count | some _ ↦ v.count ];
  }

  abbrev pub ask {ℓ} : {A : Type ℓ} → Vault K P → Text → A → (K × P → A) → A
  ask v id otherwise f = elim (v.holds id) [ none ↦ otherwise | some p ↦ f p ]

module _ {K P : Type 0} (pk : PublicKey K P) (hex : Hex) (blake256 : Digest)
    (factory : HomomorphicCommitmentFactory K P) where
  -- The ring's step: the code of each call.
  abbrev pub step : KeyRing K P → Call K → KeyRing K P × Answer
  step r (new_key id k) = let (r', n) = KeyRing.new_key pk r id k in (r', number n)
  step r is_empty = (r, flag (KeyRing.is_empty r))
  step r len = (r, number (KeyRing.len r))
  step r (private_key id) = (r, text (KeyRing.private_key pk hex r id))
  step r (public_key id) = (r, text (KeyRing.public_key pk hex r id))
  step r (sign id msg k) = (r, signed (KeyRing.sign pk hex blake256 r id msg k))
  step r (sign_with_nonce id nonce msg k) =
      (r, signed (KeyRing.sign_with_nonce pk hex blake256 r id nonce msg k))
  step r (commit id value) = (r, committed (KeyRing.commit pk hex r id value))
  step r (opens id value c) = (r, flag (KeyRing.opens pk hex r id value c))

  pub runs : KeyRing K P → List (Call K) → List Answer
  runs r [] = []
  runs r (c ∷ cs) = (step r c).1 ∷ runs (step r c).0 cs

  abbrev pub signed_by : Option K → Text → K → K × P → SignResult
  signed_by nonce msg drawn p =
      sign_message_with_key pk hex blake256 p.0 msg nonce drawn sign_default

  -- The specification's answer.
  abbrev pub answer : Vault K P → Call K → Vault K P × Answer
  answer v (new_key id k) = let v' = bind v id (k, pk.from_secret_key k) in (v', number v'.count)
  answer v is_empty = (v, flag (v.count == 0))
  answer v len = (v, number v.count)
  answer v (private_key id) = (v, text (ask v id none (λ p. some (secret_to_hex pk hex p.0))))
  answer v (public_key id) = (v, text (ask v id none (λ p. some (public_to_hex pk hex p.1))))
  answer v (sign id msg k) =
      (v, signed (ask v id (sign_error (no_private_key id)) (signed_by none msg k)))
  answer v (sign_with_nonce id nonce msg k) = (
    v,
    signed (
        ask v id (sign_error (no_private_key id)) (λ p.
          ask v nonce (sign_error (no_private_nonce nonce)) (λ q. signed_by (some q.0) msg k p))),
  )
  answer v (commit id value) = (
    v,
    committed (
        ask v id (record { commitment = none; error = some (no_private_key id) })
          (λ p. record {
            commitment = some (public_to_hex pk hex (factory.commit_value p.0 value).point);
            error = none;
          })),
  )
  answer v (opens id value c) = (
    v,
    flag (
        ask v id false (λ p. elim (public_from_hex pk hex c) [
          | none ↦ false
          | some q ↦ factory.open_value p.0 value (from_public_key q)
        ])),
  )

  pub answers : Vault K P → List (Call K) → List Answer
  answers v [] = []
  answers v (c ∷ cs) = (answer v c).1 ∷ answers (answer v c).0 cs

  record Represents (r : KeyRing K P) (v : Vault K P) : Type 0 where
    names : (id : Text) → get r.keys id ≡ v.holds id
    counted : length r.keys ≡ v.count
    made_with : r.factory ≡ factory

  bind-Represents :
      (r : KeyRing K P) (v : Vault K P) (id : Text) (pair : K × P)
      → Represents r v
      → Represents (record r { keys = insert r.keys id pair }) (bind v id pair)
  bind-Represents r v id pair h = record {
    names = λ other. elim (Bool-cases (eq_bytes id other)) [
      | inl e ↦ rw e (
          ap (get (insert r.keys id pair)) (sym ((eq_bytes_iff id other).0 e))
          ∙ get-insert r.keys id pair)
      | inr e ↦ rw e (get-insert_other r.keys id other pair e ∙ h.names other)
    ];
    counted = elim (Option-cases (v.holds id)) [
      | inl e ↦ elim (length-insert r.keys id pair) [
        | inl (_, n) ↦ rw e (n ∙ ap suc h.counted)
        | inr (old, _) ↦ absurd (old (h.names id ∙ e))
      ]
      | inr (p, e) ↦ elim (length-insert r.keys id pair) [
        | inl (fresh, _) ↦ absurd (ground (arith, fresh, h.names id, e))
        | inr (_, n) ↦ rw e (n ∙ h.counted)
      ]
    ];
    made_with = h.made_with;
  }

  abbrev Agrees : KeyRing K P → Vault K P → Call K → Type 0
  Agrees r v c = ((step r c).1 ≡ (answer v c).1) × Represents (step r c).0 (answer v c).0

  step-answer : (r : KeyRing K P) (v : Vault K P) (c : Call K) → Represents r v → Agrees r v c
  unfolding KeyRing.new_key KeyRing.is_empty KeyRing.len KeyRing.private_key KeyRing.public_key
      KeyRing.sign KeyRing.sign_with_nonce KeyRing.commit KeyRing.opens public_to_hex
  step-answer r v (new_key id k) h =
      let h' = bind-Represents r v id (k, pk.from_secret_key k) h in (ap number h'.counted, h')
  step-answer r v is_empty h = (ap (λ n. flag (n == 0)) h.counted, h)
  step-answer r v len h = (ap number h.counted, h)
  step-answer r v (private_key id) h = (rw (KeyRing.private_key, h.names id) refl, h)
  step-answer r v (public_key id) h = (rw (KeyRing.public_key, h.names id) refl, h)
  step-answer r v (sign id msg k) h = (rw (KeyRing.sign, h.names id) refl, h)
  step-answer r v (sign_with_nonce id nonce msg k) h = (
    elim (Option-cases (v.holds id)) [
      | inl e ↦ rw (KeyRing.sign_with_nonce, h.names id, e, ask) refl
      | inr (p, e) ↦ rw (KeyRing.sign_with_nonce, h.names id, e, ask, h.names nonce) refl
    ],
    h,
  )
  step-answer r v (commit id value) h = (
    elim (Option-cases (v.holds id)) [
      | inl e ↦ rw (KeyRing.commit, h.names id, e, ask) refl
      | inr (p, e) ↦ rw (KeyRing.commit, h.names id, e, ask, h.made_with) refl
    ],
    h,
  )
  step-answer r v (opens id value c) h = (
    elim (Option-cases (v.holds id)) [
      | inl e ↦ rw (KeyRing.opens, h.names id, e, ask) refl
      | inr (p, e) ↦ elim (Option-cases (public_from_hex pk hex c)) [
        | inl t ↦ rw (KeyRing.opens, h.names id, e, ask, t) refl
        | inr (q, t) ↦ rw (KeyRing.opens, h.names id, e, ask, t, h.made_with) refl
      ]
    ],
    h,
  )

  runs-answers :
      (r : KeyRing K P) (v : Vault K P) (cs : List (Call K))
      → Represents r v
      → runs r cs ≡ answers v cs
  unfolding runs answers
  runs-answers r v [] h = refl
  runs-answers r v (c ∷ cs) h =
      let (same, h') = step-answer r v c h in
      ap₂ (λ a l. a ∷ l) same (runs-answers (step r c).0 (answer v c).0 cs h')

  -- A new key ring answers every sequence of calls as its specification does: a map from names to
  -- key pairs, empty at first, in which a new key binds its name, and the number of its names.
  pub ring-refines : (cs : List (Call K)) → runs (KeyRing.new factory) cs ≡ answers empty cs
  unfolding KeyRing.new
  ring-refines cs =
      runs-answers _ _ cs
        (record { names = λ id. unfold get in refl; counted = refl; made_with = refl })
