-- ===== src/MuSig/Phases.antt =====
-- src/ristretto/musig.rs: the order of the rounds, and what a ceremony has settled.
use tari_crypto.Base.{
  ℕ, ◌≤◌, ◌≡◌, refl, sym, ◌∙◌, ◌⊎◌, inl, inr, true, Option, none, Run, done, panic, ◌>>=◌, arith,
}
use tari_crypto.External.{FixedSet}
use tari_crypto.MuSig.States.{
  MuSigState, initialization, nonce_hash_collection, nonce_collection, signature_collection,
  finalized, failed,
}
use tari_crypto.MuSig.Machine.{MuSig}
use tari_crypto.MuSig.Query.{has_failed, get_challenge, get_aggregated_public_key}

-- If the run ends without a panic, then in a value that satisfies `Q`.
abbrev pub Ends {ℓ} : {A : Type ℓ} → Run A → (A → Type 0) → Type 0
Ends (done a) Q = Q a
Ends panic Q = Unit

pub Ends-bind {ℓ κ} :
    {A : Type ℓ} {B : Type κ} (r : Run A) (f : A → Run B) (Q : A → Type 0) (R : B → Type 0)
    → Ends r Q
    → ((a : A) → Q a → Ends (f a) R)
    → Ends (r >>= f) R
Ends-bind (done a) f Q R h k = k a h
Ends-bind panic f Q R h k = tt

pub Ends-then {ℓ κ} :
    {A : Type ℓ} {B : Type κ} (r : Run A) (f : A → Run B) (R : B → Type 0)
    → ((a : A) → Ends (f a) R)
    → Ends (r >>= f) R
Ends-then (done a) f R k = k a
Ends-then panic f R k = tt

pub Ends_all {ℓ} : {A : Type ℓ} (r : Run A) (R : A → Type 0) → ((a : A) → R a) → Ends r R
Ends_all (done a) R k = k a
Ends_all panic R k = tt

pub Ends_map {ℓ} :
    {A : Type ℓ} (r : Run A) {Q R : A → Type 0} → ((a : A) → Q a → R a) → Ends r Q → Ends r R
Ends_map (done a) k h = k a h
Ends_map panic k h = tt

-- A value that was there is still the same.
abbrev pub Kept {ℓ} : {A : Type ℓ} → Option A → Option A → Type ℓ
Kept old new = (old ≡ none) ⊎ (new ≡ old)

module _ {K P : Type 0} {fs : FixedSet} where
  -- The rounds of a ceremony in their order.
  abbrev pub phase : MuSigState fs K P → ℕ
  phase (initialization _) = 0
  phase (nonce_hash_collection _) = 1
  phase (nonce_collection _) = 2
  phase (signature_collection _) = 3
  phase (finalized _) = 4
  phase (failed _) = 5

  pub record Forward (m m' : MuSig fs K P) : Type 0 where
    pub later : phase m.state ≤ phase m'.state
    pub joint_kept :
        (has_failed m' ≡ true) ⊎ Kept (get_aggregated_public_key m) (get_aggregated_public_key m')
    pub challenge_kept : (has_failed m' ≡ true) ⊎ Kept (get_challenge m) (get_challenge m')

  abbrev at : MuSigState fs K P → MuSig fs K P
  at s = record { state = s }

  abbrev pub To : MuSigState fs K P → MuSigState fs K P → Type 0
  To s s' = Forward (at s) (at s')

  pub initialization-To : (s : _) (s' : MuSigState fs K P) → To (initialization s) s'
  unfolding get_aggregated_public_key get_challenge
  initialization-To s s' = record {
    later = omega arith;
    joint_kept = inr (inl refl);
    challenge_kept = inr (inl refl);
  }

  pub To-failed : (s : MuSigState fs K P) (e : _) → To s (failed e)
  unfolding has_failed
  To-failed s e = record { later = at_most s; joint_kept = inl refl; challenge_kept = inl refl }
    where
      at_most : (s : MuSigState fs K P) → phase s ≤ 5
      at_most (initialization _) = omega arith
      at_most (nonce_hash_collection _) = omega arith
      at_most (nonce_collection _) = omega arith
      at_most (signature_collection _) = omega arith
      at_most (finalized _) = omega arith
      at_most (failed _) = omega arith

  pub failed_later :
      (s s' : MuSigState fs K P)
      → has_failed (at s) ≡ true
      → phase s ≤ phase s'
      → has_failed (at s') ≡ true
  unfolding has_failed
  failed_later (failed e) (failed e') h l = refl
  failed_later (failed e) (initialization _) h l = absurd (omega arith)
  failed_later (failed e) (nonce_hash_collection _) h l = absurd (omega arith)
  failed_later (failed e) (nonce_collection _) h l = absurd (omega arith)
  failed_later (failed e) (signature_collection _) h l = absurd (omega arith)
  failed_later (failed e) (finalized _) h l = absurd (omega arith)
  failed_later (initialization _) s' h l = absurd (ground arith)
  failed_later (nonce_hash_collection _) s' h l = absurd (ground arith)
  failed_later (nonce_collection _) s' h l = absurd (ground arith)
  failed_later (signature_collection _) s' h l = absurd (ground arith)
  failed_later (finalized _) s' h l = absurd (ground arith)

Kept_trans {ℓ} :
    {A : Type ℓ} (F : Type 0) (a b c : Option A) → F ⊎ Kept a b → F ⊎ Kept b c → F ⊎ Kept a c
Kept_trans F a b c (inl f) k = inl f
Kept_trans F a b c h (inl f) = inl f
Kept_trans F a b c (inr (inl n)) k = inr (inl n)
Kept_trans F a b c (inr (inr e)) (inr (inl n)) = inr (inl (sym e ∙ n))
Kept_trans F a b c (inr (inr e)) (inr (inr e')) = inr (inr (e' ∙ e))

carried {ℓ} : (F G : Type 0) {A : Type ℓ} (a b : Option A) → (F → G) → F ⊎ Kept a b → G ⊎ Kept a b
carried F G a b k (inl f) = inl (k f)
carried F G a b k (inr h) = inr h

module _ {K P : Type 0} {fs : FixedSet} where
  pub Forward-refl : (m : MuSig fs K P) → Forward m m
  Forward-refl m = record {
    later = omega arith;
    joint_kept = inr (inr refl);
    challenge_kept = inr (inr refl);
  }

  pub Forward-trans : (m m' m'' : MuSig fs K P) → Forward m m' → Forward m' m'' → Forward m m''
  Forward-trans m m' m'' h k =
      let fails = λ (f : has_failed m' ≡ true). failed_later m'.state m''.state f k.later in
      record {
        later = omega (arith, h.later, k.later);
        joint_kept = Kept_trans _ _ _ _ (carried _ _ _ _ fails h.joint_kept) k.joint_kept;
        challenge_kept =
            Kept_trans _ _ _ _ (carried _ _ _ _ fails h.challenge_kept) k.challenge_kept;
      }

  -- A later state with the same joint key, if the earlier one has no challenge or the same.
  pub stays :
      (s s' : MuSigState fs K P)
      → phase s ≤ phase s'
      → get_aggregated_public_key (at s') ≡ get_aggregated_public_key (at s)
      → Kept (get_challenge (at s)) (get_challenge (at s'))
      → To s s'
  stays s s' l j c = record { later = l; joint_kept = inr (inr j); challenge_kept = inr c }
