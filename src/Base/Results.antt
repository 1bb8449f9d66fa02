-- ===== src/Base/Results.antt =====
-- `Result<A, E>`, with the chain of `?` as a `do` block.
use mathlib.Core.Path.{◌≡◌, refl, ap}
use mathlib.Core.Option.{Option, none, some}

pub data Result {ℓ} (E A : Type ℓ) : Type ℓ where
  err : E → Result E A
  ok : A → Result E A

infixl 5 ◌>>=◌
abbrev pub ◌>>=◌ {ℓ} : {E A B : Type ℓ} → Result E A → (A → Result E B) → Result E B
err e >>= rest = err e
ok a >>= rest = rest a

-- `ok_or_else`
abbrev pub ok_or {ℓ} : {E A : Type ℓ} → Option A → E → Result E A
ok_or none e = err e
ok_or (some a) e = ok a

-- `map_err(|_| e)`
abbrev pub or_err {ℓ} : {E F A : Type ℓ} → Result E A → F → Result F A
or_err (ok a) f = ok a
or_err (err e) f = err f

-- What a chain that succeeded went through.
pub >>=-eq-ok {ℓ} :
    {E A B : Type ℓ} (first : Result E A) (rest : A → Result E B) {last : B}
    → (first >>= rest) ≡ ok last
    → (middle : A) × (first ≡ ok middle) × (rest middle ≡ ok last)
>>=-eq-ok (err e) rest done = cc
>>=-eq-ok (ok middle) rest done = (middle, refl, done)

pub ok-inj : {E A : Type 0} {a b : A} → ◌≡◌ {A = Result E A} (ok a) (ok b) → a ≡ b
ok-inj {a = a} h = ap (value_or a) h
  where
    value_or : {E A : Type 0} → A → Result E A → A
    value_or d (ok x) = x
    value_or d (err e) = d
