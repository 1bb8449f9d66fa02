-- ===== src/Orchestrator/Token/Fresh.antt =====
-- A minted token is bound to the boot that the device is in.
use sumo_provision.Base.{
  ℕ, ◌≡◌, refl, Option, none, some, arith, Text, Text_eq, text_eq_iff, eq_self, ◌==◌, Bool-cases,
  inl, inr, Result, ok, err,
}
use mathlib.Core.Path.{subst}
use sumo_provision.Base.Exec.{continue}
use sumo_provision.Orchestrator.Token.{
  EngineError, mint, Cached, Answers, remint, cached_or_mint, token,
}

-- A successful answer's value has a property.
abbrev pub Holds : {E A : Type 0} → (A → Type 0) → Result E A → Type 0
Holds P (ok a) = P a
Holds P (err e) = Unit

module _ (IsBound : Text → Text → Type 0) where
  -- The cached token is bound to the cached boot.
  abbrev pub IsCache : Cached → Type 0
  IsCache none = Unit
  IsCache (some (boot, tok)) = IsBound boot tok

  -- A minted token is bound to the boot that it was minted for.
  abbrev pub Mints : Answers → Type 0
  Mints answers =
      (ecu boot : Text) (ttl : Option ℕ) → Holds (IsBound boot) (answers.mint_token ecu boot ttl)

  -- What a call may leave: a token for the boot, if any, and a cache in order.
  abbrev pub IsFresh : Text → Result EngineError Text × Cached → Type 0
  IsFresh boot r = Holds (IsBound boot) r.0 × IsCache r.1

  remint-IsFresh :
      (answers : Answers) (ttl : Option ℕ) (boot : Text) (s : Cached)
      → Mints answers
      → IsCache s
      → IsFresh boot (remint answers ttl boot s)
  unfolding remint
  remint-IsFresh answers ttl boot s m c = at answers.ecu_id
    where
      minted :
          (r : Result EngineError Text)
          → Holds (IsBound boot) r
          → IsFresh boot (continue r (λ tok _. (ok tok, some (boot, tok))) s)
      minted (ok tok) h = (h, h)
      minted (err e) h = (tt, c)

      at :
          (r : Result EngineError Text)
          → IsFresh boot (
              continue r
                (λ ecu t.
                  continue
                    (answers.mint_token ecu boot ttl)
                    (λ tok _. (ok tok, some (boot, tok)))
                    t)
                s)
      at (ok ecu) = minted (answers.mint_token ecu boot ttl) (m ecu boot ttl)
      at (err e) = (tt, c)

  cached-IsFresh :
      (answers : Answers) (ttl : Option ℕ) (boot : Text) (s : Cached)
      → Mints answers
      → IsCache s
      → IsFresh boot (cached_or_mint answers ttl boot s)
  unfolding cached_or_mint
  cached-IsFresh answers ttl boot none m c = remint-IsFresh answers ttl boot none m c
  cached-IsFresh answers ttl boot (some (old, tok)) m c = elim (Bool-cases (old == boot)) [
    | inl same ↦ rw same (subst (λ b. IsBound b tok) ((text_eq_iff old boot).0 same) c, c)
    | inr moved ↦ rw moved (remint-IsFresh answers ttl boot (some (old, tok)) m c)
  ]

  -- If the cached token is bound to the cached boot and the minter binds a token to the boot it is
  -- asked for, a call in a given boot answers, if it succeeds, with a token bound to that boot,
  -- and the cache is in order after it, failed or not.
  pub token-IsFresh :
      (answers : Answers) (ttl : Option ℕ) (boot : Text) (s : Cached)
      → answers.boot_id ≡ ok boot
      → Mints answers
      → IsCache s
      → IsFresh boot (token (mint ttl) answers s)
  unfolding token
  token-IsFresh answers ttl boot s b m c = rw b (cached-IsFresh answers ttl boot s m c)

found :
    (answers : Answers) (ttl : Option ℕ) (boot tok : Text)
    → cached_or_mint answers ttl boot (some (boot, tok)) ≡ (ok tok, some (boot, tok))
unfolding cached_or_mint
found answers ttl boot tok = rw (eq_self boot) refl

minted_cache :
    (r : Result EngineError Text) (boot tok : Text) (t s' : Cached)
    → continue r (λ x _. (ok x, some (boot, x))) t ≡ (ok tok, s')
    → s' ≡ some (boot, tok)
minted_cache (ok x) boot tok t s' e = ground (arith, e)
minted_cache (err x) boot tok t s' e = ground (arith, e)

remint_cache :
    (answers : Answers) (ttl : Option ℕ) (boot tok : Text) (t s' : Cached)
    → remint answers ttl boot t ≡ (ok tok, s')
    → s' ≡ some (boot, tok)
unfolding remint
remint_cache answers ttl boot tok t s' = at answers.ecu_id
  where
    at :
        (r : Result EngineError Text)
        → continue r
            (λ ecu u. continue (answers.mint_token ecu boot ttl) (λ x _. (ok x, some (boot, x))) u)
            t
          ≡ (ok tok, s')
        → s' ≡ some (boot, tok)
    at (ok ecu) e = minted_cache (answers.mint_token ecu boot ttl) boot tok t s' e
    at (err x) e = ground (arith, e)

kept_cache :
    (answers : Answers) (ttl : Option ℕ) (boot tok : Text) (t s' : Cached)
    → cached_or_mint answers ttl boot t ≡ (ok tok, s')
    → s' ≡ some (boot, tok)
unfolding cached_or_mint
kept_cache answers ttl boot tok none s' e = remint_cache answers ttl boot tok none s' e
kept_cache answers ttl boot tok (some (old, cached)) s' e = elim (Bool-cases (old == boot)) [
  | inl same ↦ ground (arith, e, same, text_eq_iff old boot)
  | inr moved ↦ remint_cache answers ttl boot tok (some (old, cached)) s' (rw moved at e)
]

-- Once a token is minted or found in a boot, the next call in that boot answers with the same
-- token and leaves the cache as it is, whatever the minter and the other answers of the device
-- are.
pub token-again :
    (first second : Answers) (ttl : Option ℕ) (boot : Text) (s s' : Cached) (tok : Text)
    → first.boot_id ≡ ok boot
    → second.boot_id ≡ ok boot
    → token (mint ttl) first s ≡ (ok tok, s')
    → token (mint ttl) second s' ≡ (ok tok, s')
unfolding token
token-again first second ttl boot s s' tok b b' h =
    rw (b', kept_cache first ttl boot tok s s' (rw b at h)) (found second ttl boot tok)
