-- ===== src/Cli/Preview.antt =====
-- The steps that the campaign command of crates/cli/src/main.rs announces: the grouping in the arm of
-- `RigCmd::Campaign`, and `print_campaign`.
pub mod Steps
use sumo_provision.Base.{
  ℕ, ◌+◌, Bool, true, false, not, ◌&&◌, Option, none, some, List, [], ◌∷◌, ◌++◌, map, foldl, filter,
  Text, Text_eq, Bool_eq, Option_eq, text, ◌==◌, length, is_empty, join, to_string, if◌then◌else◌,
}
use sumo_provision.Orchestrator.Preview.{ComponentApply, ApplyPlan}
use sumo_provision.Orchestrator.Preview.Bytes.{add_u64, component_ship_bytes}
use sumo_provision.Cli.{is_chosen}
use sumo_provision.Cli.Size.{human_size}
use sumo_provision.Cli.Show.{line, concat, em_dash}

-- `shipping`
unfoldable pub shipping : ApplyPlan → Option Text → List ComponentApply
unfolding filter is_empty is_chosen
shipping plan only =
    filter (λ (c : ComponentApply). not (is_empty c.ship) && is_chosen only c.entity)
      plan.components

abbrev pub irreversible : ComponentApply → Bool
irreversible c = c.supports_rollback == some false

-- `partition`
unfoldable pub singleshot : List ComponentApply → List ComponentApply
unfolding filter
singleshot = filter irreversible

unfoldable pub banked : List ComponentApply → List ComponentApply
unfolding filter
banked = filter (λ c. not (irreversible c))

-- the components of each step, and whether it is the banked one
abbrev pub PreviewStep : Type 0
PreviewStep = List ComponentApply × Bool

abbrev pub banked_preview : List ComponentApply → List PreviewStep
banked_preview cs = if is_empty cs then [] else (cs, true) ∷ []

unfoldable pub preview_steps : List ComponentApply → List PreviewStep
unfolding singleshot banked is_empty
preview_steps cs =
    map (λ (c : ComponentApply). (c ∷ [], false)) (singleshot cs) ++ banked_preview (banked cs)

module _ (tenths : ℕ → ℕ → Text) where
  abbrev pub arrow : Text
  arrow = 226 ∷ 134 ∷ 146 ∷ []

  abbrev pub step_label : ℕ → Text
  step_label n = text "  Step " ++ to_string n

  unfoldable pub singleshot_line : ℕ → ComponentApply → Text
  unfolding concat to_string human_size component_ship_bytes
  singleshot_line n c = line (
      step_label n
      ∷ text " (singleshot, irreversible): "
      ∷ c.entity
      ∷ text " "
      ∷ em_dash
      ∷ text " "
      ∷ to_string (length c.ship)
      ∷ text " part(s), "
      ∷ human_size tenths (component_ship_bytes c)
      ∷ text " "
      ∷ em_dash
      ∷ text " write-through + node reboot"
      ∷ [])

  unfoldable pub banked_line : ℕ → List ComponentApply → Text
  unfolding concat to_string human_size component_ship_bytes join
  banked_line n cs = line (
      step_label n
      ∷ text " (banked, trial): "
      ∷ join (text ", ") (map (λ (c : ComponentApply). c.entity) cs)
      ∷ text " "
      ∷ em_dash
      ∷ text " "
      ∷ to_string (foldl ◌+◌ 0 (map (λ (c : ComponentApply). length c.ship) cs))
      ∷ text " part(s), "
      ∷ human_size tenths (foldl add_u64 0 (map component_ship_bytes cs))
      ∷ text " "
      ∷ em_dash
      ∷ text " flash "
      ∷ arrow
      ∷ text " reboot "
      ∷ arrow
      ∷ text " trial "
      ∷ arrow
      ∷ text " commit"
      ∷ [])

  -- one line for each step, numbered from `n`
  unfoldable pub step_lines : ℕ → List ComponentApply → List ComponentApply → Text
  unfolding singleshot_line banked_line is_empty
  step_lines n [] many = if is_empty many then [] else banked_line n many
  step_lines n (c ∷ single) many = singleshot_line n c ++ step_lines (n + 1) single many

  unfoldable pub print_campaign : Text → Text → List ComponentApply → List ComponentApply → Text
  unfolding concat to_string step_lines is_empty
  print_campaign channel device single many =
      line (
        text "Campaign "
        ∷ em_dash
        ∷ text " bring '"
        ∷ device
        ∷ text "' to channel '"
        ∷ channel
        ∷ text "' in "
        ∷ to_string (length single + (if is_empty many then 0 else 1))
        ∷ text " step(s):"
        ∷ [])
      ++ step_lines 1 single many
