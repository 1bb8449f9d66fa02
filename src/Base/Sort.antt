-- ===== src/Base/Sort.antt =====
-- `sort_by` on a key, `sort_unstable` and `dedup`, and texts that are joined.
use Prim.Native.Nat.{ℕ, zero, suc, ◌+◌, ◌/◌, ◌%◌}
use mathlib.Core.List.{List, [], ◌∷◌, ◌++◌}
use sumo_provision.Base.Tests.{if◌then◌else◌, ltb}
use sumo_provision.Base.Order.{Ord, Text}

module _ {ℓ κ} {A : Type ℓ} {K : Type κ} ⦃o : Ord K⦄ (key : A → K) where
  unfoldable pub insert_by : A → List A → List A
  insert_by x [] = x ∷ []
  insert_by x (y ∷ ys) =
      let rest = insert_by x ys in if o.lt (key y) (key x) then y ∷ rest else x ∷ y ∷ ys

  -- stable: of two items with one key the earlier stays in front
  unfoldable pub sort_by : List A → List A
  unfolding insert_by
  sort_by [] = []
  sort_by (x ∷ xs) = insert_by x (sort_by xs)

module _ {ℓ} {K : Type ℓ} ⦃o : Ord K⦄ where
  -- `dedup`: of equal neighbours the first stays
  unfoldable pub dedup : List K → List K
  dedup [] = []
  dedup (x ∷ []) = x ∷ []
  dedup (x ∷ y ∷ ys) = let rest = dedup (y ∷ ys) in if o.eq.beq x y then rest else x ∷ rest

-- `to_string` of a number: its decimal digits. The fuel bounds the number.
unfoldable pub decimal_digits : ℕ → ℕ → Text
decimal_digits zero n = []
decimal_digits (suc fuel) n =
    let rest = decimal_digits fuel (n / 10) in
    if ltb n 10 then (48 + n) ∷ [] else rest ++ (48 + n % 10) ∷ []

unfoldable pub to_string : ℕ → Text
unfolding decimal_digits
to_string n = decimal_digits (suc n) n

-- `join(sep)`
unfoldable pub join : Text → List Text → Text
join sep [] = []
join sep (s ∷ []) = s
join sep (s ∷ t ∷ ts) = s ++ (sep ++ join sep (t ∷ ts))
