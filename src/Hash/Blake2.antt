-- ===== src/Hash/Blake2.antt =====
-- src/hash/blake2.rs: `Blake256`, over `VarBlake2b` of the blake2 package as a parameter.
use tari_crypto.Base.{
  ℕ, ◌==◌, ◌≤◌, ◌<◌, ◌≡◌, refl, sym, ap, ◌∙◌, List, [], ◌∷◌, ◌++◌, Bytes, length, Option, some,
  subst, inl, inr, Option-cases, Run, done, panic, ◌>>=◌, unwrap, if◌then◌else◌, arith, All, ◌⊎◌,
  replicate,
}
use tari_crypto.External.{Digest, DigestLaws}

-- `new` is `VariableOutput::new`, which refuses some sizes; `with_params` panics on some lengths.
pub record VarBlake2b : Type 1 where
  pub State : Type 0
  pub new : ℕ → Option State
  pub with_params : Bytes → Bytes → Bytes → ℕ → Option State
  pub update : State → Bytes → State
  pub reset : State → State
  pub finalize_variable : State → Bytes
  pub finalize_variable_reset : State → Bytes × State

-- The documented behaviour, through the output size and the initial state of a hasher.
pub record VarBlake2bLaws (v : VarBlake2b) : Type 0 where
  pub size : v.State → ℕ
  pub initial : v.State → v.State
  pub new_total :
      (n : ℕ) → 0 < n → n ≤ 64 → (s : v.State) × (v.new n ≡ some s) × (size s ≡ n) × (initial s ≡ s)
  pub with_params_lem :
      (key salt persona : Bytes) (n : ℕ) (s : v.State)
      → v.with_params key salt persona n ≡ some s
      → (size s ≡ n) × (initial s ≡ s)
  pub size-update : (s : v.State) (b : Bytes) → size (v.update s b) ≡ size s
  pub initial-update : (s : v.State) (b : Bytes) → initial (v.update s b) ≡ initial s
  pub update-update : (s : v.State) (a b : Bytes) → v.update (v.update s a) b ≡ v.update s (a ++ b)
  pub update_nil : (s : v.State) → v.update s [] ≡ s
  pub reset_lem : (s : v.State) → v.reset s ≡ initial s
  pub finalize_length : (s : v.State) → length (v.finalize_variable s) ≡ size s
  pub finalize_reset_lem :
      (s : v.State) → v.finalize_variable_reset s ≡ (v.finalize_variable s, initial s)

pub record Blake256 (v : VarBlake2b) : Type 0 where
  pub hasher : v.State

abbrev pub output_size : ℕ
output_size = 32

-- `copy_from_slice`, which panics where the lengths differ.
abbrev copy_from_slice : Bytes → Bytes → Run Bytes
copy_from_slice out res = if length res == length out then done res else panic

-- A call on a hasher: `update`, `reset`, and `finalize_into_reset` with an output.
pub data Call : Type 0 where
  give : Bytes → Call
  clear : Call
  finish : Bytes → Call

abbrev pub IsSized : Call → Type 0
IsSized (finish out) = length out ≡ 32
IsSized _ = Unit

-- The hashes of what is given between the resets, the first behind the bytes already held.
abbrev pub digests : (Bytes → Bytes) → Bytes → List Call → List Bytes
digests hash held [] = []
digests hash held (give b ∷ cs) = digests hash (held ++ b) cs
digests hash held (clear ∷ cs) = digests hash [] cs
digests hash held (finish out ∷ cs) = hash held ∷ digests hash [] cs

module _ {v : VarBlake2b} where
  unfoldable pub with_params : Bytes → Bytes → Bytes → Run (Blake256 v)
  with_params key salt persona = do
    h ← unwrap (v.with_params key salt persona output_size)
    done (record { hasher = h })

  unfoldable pub default : Run (Blake256 v)
  default = do h ← unwrap (v.new output_size); done (record { hasher = h })

  -- What is in the output afterwards.
  unfoldable pub finalize_into : Blake256 v → Bytes → Run Bytes
  finalize_into h out = copy_from_slice out (v.finalize_variable h.hasher)

  unfoldable pub finalize_into_reset : Blake256 v → Bytes → Run (Bytes × Blake256 v)
  finalize_into_reset h out = do
    let r = v.finalize_variable_reset h.hasher
    out' ← copy_from_slice out r.0
    done (out', record { hasher = r.1 })

  unfoldable pub reset : Blake256 v → Blake256 v
  reset h = record { hasher = v.reset h.hasher }

  unfoldable pub update : Blake256 v → Bytes → Blake256 v
  update h input = record { hasher = v.update h.hasher input }

  -- What the outputs of a run of calls hold.
  unfoldable pub runs : Blake256 v → List Call → Run (List Bytes)
  unfolding update reset finalize_into_reset
  runs h [] = done []
  runs h (give b ∷ cs) = runs (update h b) cs
  runs h (clear ∷ cs) = runs (reset h) cs
  runs h (finish out ∷ cs) = do
    (out', h') ← finalize_into_reset h out
    outs ← runs h' cs
    done (out' ∷ outs)

module _ (v : VarBlake2b) (laws : VarBlake2bLaws v) where
  open laws use {size, initial}

  pub record IsFresh (h : Blake256 v) : Type 0 where
    pub sized : size h.hasher ≡ 32
    pub at_start : initial h.hasher ≡ h.hasher

  pub default_total : (h : Blake256 v) × (default ≡ done h) × IsFresh h
  unfolding default
  default_total =
      let (s, e, n, i) = laws.new_total 32 (omega arith) (omega arith) in
      (record { hasher = s }, rw e refl, record { sized = n; at_start = i })

  pub with_params-IsFresh :
      (key salt persona : Bytes) (h : Blake256 v)
      → with_params key salt persona ≡ done h
      → IsFresh h
  unfolding with_params
  with_params-IsFresh key salt persona h e =
      elim (Option-cases (v.with_params key salt persona output_size)) [
        | inl t ↦ absurd (ground (arith, t))
        | inr (s, t) ↦
            let same : h ≡ record { hasher = s } = ground (arith, t) in
            let (n, i) = laws.with_params_lem key salt persona 32 s t in
            subst IsFresh (sym same) (record { sized = n; at_start = i })
      ]

  hashers : (a b : Blake256 v) → a.hasher ≡ b.hasher → a ≡ b
  hashers a b e = ap (λ (s : v.State). let r : Blake256 v = record { hasher = s } in r) e

  made-IsFresh :
      (key salt persona : Bytes) (h : Blake256 v)
      → (default ≡ done h) ⊎ (with_params key salt persona ≡ done h)
      → IsFresh h
  made-IsFresh key salt persona h (inl e) =
      let (g, t, fresh) = default_total in
      let same : g ≡ h = ground (arith, e, t) in subst IsFresh same fresh
  made-IsFresh key salt persona h (inr e) = with_params-IsFresh key salt persona h e

  abbrev hash_of : Blake256 v → Bytes → Bytes
  hash_of h b = v.finalize_variable (v.update h.hasher b)

  update_again : (h : Blake256 v) (a b : Bytes) → update (update h a) b ≡ update h (a ++ b)
  unfolding update
  update_again h a b = hashers _ _ (laws.update-update h.hasher a b)

  update_nothing : (h : Blake256 v) → update h [] ≡ h
  unfolding update
  update_nothing h = hashers _ _ (laws.update_nil h.hasher)

  reset_fresh : (h : Blake256 v) (held : Bytes) → IsFresh h → reset (update h held) ≡ h
  unfolding reset update
  reset_fresh h held fresh =
      hashers _ _ (laws.reset_lem _ ∙ (laws.initial-update h.hasher held ∙ fresh.at_start))

  finalize_fresh :
      (h : Blake256 v) (held out : Bytes)
      → IsFresh h
      → length out ≡ 32
      → let hash = hash_of h held in
        (length hash ≡ 32)
        × (finalize_into (update h held) out ≡ done hash)
        × (finalize_into_reset (update h held) out ≡ done (hash, h))
  unfolding update finalize_into finalize_into_reset
  finalize_fresh h held out fresh n =
      let back : initial (v.update h.hasher held) ≡ h.hasher =
        laws.initial-update h.hasher held ∙ fresh.at_start in
      let long : length (v.finalize_variable (v.update h.hasher held)) ≡ 32 =
        laws.finalize_length _ ∙ (laws.size-update h.hasher held ∙ fresh.sized) in
      (long, rw (long, n) refl, rw (laws.finalize_reset_lem, back, long, n) refl)

  runs-digests :
      (h : Blake256 v) (held : Bytes) (cs : List Call)
      → IsFresh h
      → All IsSized cs
      → runs (update h held) cs ≡ done (digests (hash_of h) held cs)
  unfolding runs
  runs-digests h held [] fresh sized = refl
  runs-digests h held (give b ∷ cs) fresh sized =
      rw (update_again h held b) (runs-digests h (held ++ b) cs fresh sized.1)
  runs-digests h held (clear ∷ cs) fresh sized = rw (reset_fresh h held fresh) (
      subst (λ g. runs g cs ≡ done (digests (hash_of h) [] cs)) (update_nothing h)
        (runs-digests h [] cs fresh sized.1))
  runs-digests h held (finish out ∷ cs) fresh sized =
      let rest =
        subst (λ g. runs g cs ≡ done (digests (hash_of h) [] cs)) (update_nothing h)
          (runs-digests h [] cs fresh sized.1) in
      rw ((finalize_fresh h held out fresh sized.0).2, rest) refl

  -- A hasher made by default or with parameters has one hash function, with results of 32 bytes:
  -- giving it some bytes and finishing writes their hash into an output of 32 bytes. In any run of
  -- calls that give it bytes, reset it or finish and reset it, each output gets the hash of the
  -- bytes given since the last reset of either kind, one after the other, and no call panics.
  pub blake256-refines :
      (key salt persona : Bytes) (h : Blake256 v) (cs : List Call)
      → (default ≡ done h) ⊎ (with_params key salt persona ≡ done h)
      → All IsSized cs
      → (hash : (Bytes → Bytes)) × ((b : Bytes) → length (hash b) ≡ 32)
        × ((b out : Bytes) → length out ≡ 32 → finalize_into (update h b) out ≡ done (hash b))
        × (runs h cs ≡ done (digests hash [] cs))
  blake256-refines key salt persona h cs how sized =
      let fresh = made-IsFresh key salt persona h how in
      (
        hash_of h,
        λ b. (finalize_fresh h b (replicate 32 0) fresh refl).0,
        λ b out n. (finalize_fresh h b out fresh n).1,
        subst (λ g. runs g cs ≡ done (digests (hash_of h) [] cs)) (update_nothing h)
            (runs-digests h [] cs fresh sized),
      )

  -- `Blake256` as a digest: its hashers are those of 32 bytes.
  unfoldable pub blake256 : Digest
  unfolding update default_total
  blake256 = record {
    State = (h : Blake256 v) × (size h.hasher ≡ 32);
    new = (default_total.0, default_total.2.sized);
    chain = λ s b. (update s.0 b, laws.size-update s.0.hasher b ∙ s.1);
    finalize = λ s. v.finalize_variable s.0.hasher;
    output_size = output_size;
  }

  pub blake256-DigestLaws : DigestLaws blake256
  unfolding blake256
  blake256-DigestLaws = record { finalize_length = λ s. laws.finalize_length s.0.hasher ∙ s.1 }
