-- ===== src/Cli/Size.antt =====
-- `human_size` of crates/cli/src/main.rs. `tenths n u` stands for `{:.1}` of n / 1024 ^ u as a float.
-- A `u64` as a float, divided, reaches 1024 exactly when the number reaches that power of 1024, since
-- the powers up to 1024 ^ 4 are far below 2 ^ 53.
use Prim.Native.Nat.{◌^◌}
use sumo_provision.Base.{
  ℕ, zero, suc, ◌≡◌, ◌≤◌, ◌<◌, ◌⊎◌, ◌&&◌, List, [], ◌∷◌, ◌++◌, Text, text, nat_eq, leb, ltb,
  to_string, arith, if◌then◌else◌,
}

-- the loop, from `unit` divisions by 1024 on
unfoldable pub scale_up : ℕ → ℕ → ℕ → ℕ
scale_up zero bytes unit = unit
scale_up (suc rounds) bytes unit =
    let next = scale_up rounds bytes (suc unit) in
    if leb (1024 ^ suc unit) bytes && ltb unit 4 then next else unit

abbrev pub units : List Text
units = text "B" ∷ text "KB" ∷ text "MB" ∷ text "GB" ∷ text "TB" ∷ []

-- `UNITS[unit]`; past the end nothing is written, where the source would stop
abbrev pub unit_at : List Text → ℕ → Text
unit_at [] unit = []
unit_at (u ∷ us) zero = u
unit_at (u ∷ us) (suc unit) = unit_at us unit

unfoldable pub human_size : (ℕ → ℕ → Text) → ℕ → Text
unfolding scale_up to_string
human_size tenths bytes =
    let unit = scale_up 5 bytes 0 in
    if nat_eq unit 0
    then to_string bytes ++ text " B"
    else tenths bytes unit ++ (text " " ++ unit_at units unit)

-- With five rounds or more the loop over the units of a size ends by its own test: the unit is at
-- most the last one, the size reaches the unit unless it is the first, and stays below the next
-- one unless it is the last.
pub scale_up-ends :
    (rounds bytes : ℕ)
    → 5 ≤ rounds
    → let unit = scale_up rounds bytes 0 in
      (unit ≤ 4) × ((unit ≡ 0) ⊎ (1024 ^ unit ≤ bytes)) × ((unit ≡ 4) ⊎ (bytes < 1024 ^ suc unit))
unfolding scale_up
scale_up-ends (suc (suc (suc (suc (suc rounds))))) bytes h = ground arith
scale_up-ends _ bytes h = absurd (omega arith)
