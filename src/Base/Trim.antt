-- ===== src/Base/Trim.antt =====
-- `str::trim` of Rust on the bytes of a text: the white space of Unicode, in UTF-8.
use Prim.Native.Nat.{ℕ, zero, suc}
use mathlib.Core.Bool.{Bool, ◌&&◌, ◌||◌}
use mathlib.Core.List.{[], ◌∷◌}
use sumo_provision.Base.Tests.{nat_eq, leb, if◌then◌else◌}
use sumo_provision.Base.Order.{Text}

-- tab, line feed, vertical tab, form feed, carriage return, space
unfoldable is_white_1 : ℕ → Bool
is_white_1 a = (leb 9 a && leb a 13) || nat_eq a 32

-- U+0085, U+00A0
unfoldable is_white_2 : ℕ → ℕ → Bool
is_white_2 a b = nat_eq a 194 && (nat_eq b 133 || nat_eq b 160)

-- U+1680, U+2000 to U+200A, U+2028, U+2029, U+202F, U+205F, U+3000
unfoldable is_white_3 : ℕ → ℕ → ℕ → Bool
is_white_3 a b c =
    (nat_eq a 225 && (nat_eq b 154 && nat_eq c 128))
    || ((nat_eq a 226
          && ((nat_eq b 128
                && ((leb 128 c && leb c 138) || ((nat_eq c 168 || nat_eq c 169) || nat_eq c 175)))
              || (nat_eq b 129 && nat_eq c 159)))
        || (nat_eq a 227 && (nat_eq b 128 && nat_eq c 128)))

-- how many bytes the white space takes that a text starts with
unfoldable leading : Text → ℕ
unfolding is_white_1 is_white_2 is_white_3
leading [] = 0
leading (a ∷ []) = if is_white_1 a then 1 else 0
leading (a ∷ b ∷ []) = if is_white_1 a then 1 else if is_white_2 a b then 2 else 0
leading (a ∷ b ∷ c ∷ s) =
    if is_white_1 a then 1 else if is_white_2 a b then 2 else if is_white_3 a b c then 3 else 0

-- the same of the white space that ends a text, which is given backwards
unfoldable trailing : Text → ℕ
unfolding is_white_1 is_white_2 is_white_3
trailing [] = 0
trailing (a ∷ []) = if is_white_1 a then 1 else 0
trailing (a ∷ b ∷ []) = if is_white_1 a then 1 else if is_white_2 b a then 2 else 0
trailing (a ∷ b ∷ c ∷ s) =
    if is_white_1 a then 1 else if is_white_2 b a then 2 else if is_white_3 c b a then 3 else 0

-- drop what `width` finds, and first the bytes of a white space that has begun
unfoldable trim_by : (Text → ℕ) → ℕ → Text → Text
trim_by width n [] = []
trim_by width (suc n) (c ∷ s) = trim_by width n s
trim_by width zero (c ∷ s) = elim (width (c ∷ s)) [ zero ↦ c ∷ s | suc n ↦ trim_by width n s ]

unfoldable backwards : Text → Text → Text
backwards [] acc = acc
backwards (c ∷ s) acc = backwards s (c ∷ acc)

unfoldable pub trim : Text → Text
unfolding leading trailing trim_by backwards
trim s = backwards (trim_by trailing 0 (backwards (trim_by leading 0 s) [])) []
