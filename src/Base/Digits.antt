-- ===== src/Base/Digits.antt =====
-- Decimal digits are read back.
use Prim.Native.Nat.{ℕ, zero, suc, ◌+◌, ◌-◌, ◌*◌, ◌/◌, ◌%◌, ◌<◌}
use mathlib.Core.Path.{◌≡◌, refl, sym, ap, ◌∙◌}
use mathlib.Core.Logic.{inl, inr}
use mathlib.Core.List.{[], ◌∷◌, ◌++◌}
use native.Mathlib.Omega.{arith}
use sumo_provision.Base.Tests.{ltb, Bool-cases}
use sumo_provision.Base.Order.{Text}
use sumo_provision.Base.Sort.{decimal_digits, to_string}

abbrev read : ℕ → Text → ℕ
read acc [] = acc
read acc (c ∷ s) = read (acc * 10 + (c - 48)) s

read-snoc : (acc c : ℕ) (s : Text) → read acc (s ++ c ∷ []) ≡ read acc s * 10 + (c - 48)
read-snoc acc c [] = refl
read-snoc acc c (d ∷ s) = read-snoc (acc * 10 + (d - 48)) c s

read-decimal_digits : (fuel n : ℕ) → n < fuel → read 0 (decimal_digits fuel n) ≡ n
unfolding decimal_digits
read-decimal_digits zero n h = absurd (omega arith)
read-decimal_digits (suc fuel) n h = elim (Bool-cases (ltb n 10)) [
  | inl small ↦ rw small (omega arith)
  | inr large ↦
      let below : n / 10 < fuel = ground (arith, large) in
      rw large (
        read-snoc 0 (48 + n % 10) (decimal_digits fuel (n / 10))
        ∙ omega (arith, read-decimal_digits fuel (n / 10) below))
]

pub to_string-inj : (m n : ℕ) → to_string m ≡ to_string n → m ≡ n
unfolding to_string
to_string-inj m n same =
    sym (read-decimal_digits (suc m) m (omega arith))
    ∙ ap (read 0) same
    ∙ read-decimal_digits (suc n) n (omega arith)
