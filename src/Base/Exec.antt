-- ===== src/Base/Exec.antt =====
-- Steps on a state that may fail. What was written before a failure stays written, so the state
-- comes back beside the error too.
use mathlib.Core.List.{List, [], ◌∷◌}
use mathlib.Core.Path.{◌≡◌, refl, ◌∙◌}
use sumo_provision.Base.Results.{Result, ok, err}

abbrev pub Exec : Type 0 → Type 0 → Type 0 → Type 0
Exec S E A = S → Result E A × S

module _ {S E A : Type 0} where
  abbrev pub pure : A → Exec S E A
  pure a s = (ok a, s)

  abbrev pub fail : E → Exec S E A
  fail e s = (err e, s)

  -- a pure computation that may fail
  abbrev pub lift : Result E A → Exec S E A
  lift r s = (r, s)

  abbrev pub gets : (S → A) → Exec S E A
  gets f s = (ok (f s), s)

module _ {S E A B : Type 0} where
  abbrev pub continue : Result E A → (A → Exec S E B) → Exec S E B
  continue (ok a) f s = f a s
  continue (err e) f s = (err e, s)

  infixl 5 ◌>>=◌ ◌>>◌
  abbrev pub ◌>>=◌ : Exec S E A → (A → Exec S E B) → Exec S E B
  ◌>>=◌ m f s = continue (m s).0 f (m s).1

  abbrev pub ◌>>◌ : Exec S E A → Exec S E B → Exec S E B
  m >> k = m >>= λ _. k

-- `for x in xs { f(x)?; }`
module _ {S E A : Type 0} where
  unfoldable pub for_each : (A → Exec S E (Unit {0})) → List A → Exec S E (Unit {0})
  for_each f [] = pure tt
  for_each f (x ∷ xs) = f x >> for_each f xs
  -- `for x in xs { out.push(f(x)?); }`

module _ {S E A B : Type 0} where
  unfoldable pub map_each : (A → Exec S E B) → List A → Exec S E (List B)
  map_each f [] = pure []
  map_each f (x ∷ xs) = do y ← f x; ys ← map_each f xs; pure (y ∷ ys)

-- What no step of a loop changes, the loop does not change.
module _ {S E B C : Type 0} (g : S → C) where
  pub continue-keeps :
      (k : Exec S E B) (r : Result E (Unit {0})) (s s' : S)
      → ((t : S) → g (k t).1 ≡ g t)
      → g s' ≡ g s
      → g (continue r (λ _. k) s').1 ≡ g s
  continue-keeps k (ok a) s s' h p = h s' ∙ p
  continue-keeps k (err e) s s' h p = p

module _ {S E A B : Type 0} (g : S → B) (f : A → Exec S E (Unit {0}))
    (keeps : (x : A) (s : S) → g (f x s).1 ≡ g s) where
  pub for_each-keeps : (xs : List A) (s : S) → g (for_each f xs s).1 ≡ g s
  unfolding for_each
  for_each-keeps [] s = refl
  for_each-keeps (x ∷ xs) s =
      continue-keeps g (for_each f xs) (f x s).0 s (f x s).1 (for_each-keeps xs) (keeps x s)

pub continue-err :
    {S E A B : Type 0} (f : A → Exec S E B) (r : Result E A × S) {e : E}
    → r.0 ≡ err e
    → (continue r.0 f r.1).0 ≡ err e
continue-err f (ok a, s) h = cc
continue-err f (err e, s) h = cc
