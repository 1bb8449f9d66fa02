-- ===== src/Cli/Show.antt =====
-- What crates/cli/src/main.rs prints: `print_device`, `print_tree`, `print_diff`, `print_plan`,
-- `print_apply`, `print_bundle` and `print_flash_result`, each as the text that it writes.
use sumo_provision.Base.{
  ℕ, zero, suc, ◌+◌, ◌-◌, Bool, not, ◌&&◌, ◌||◌, Option, none, some, List, [], ◌∷◌, ◌++◌, map,
  flat_map, foldl, filter, any, Text, Text_eq, text, ◌==◌, leb, length, is_empty, to_string,
  if◌then◌else◌,
}
use sumo_provision.Wire.Hash.{Hex, to_prefixed}
use sumo_provision.Wire.Model.{Part, Entity, Tree}
use sumo_provision.Wire.Roster.{Device}
use sumo_provision.Wire.Diff.{Change, added, removed, changed, PartChange, TreeDiff, diff_is_empty}
use sumo_provision.Wire.Plan.{PlannedPart, FlashPlan, ship, reuse, is_ship, is_reuse, is_noop}
use sumo_provision.Orchestrator.Preview.{ShipPart, ComponentApply, ApplyPlan, missing, plan_is_noop}
use sumo_provision.Orchestrator.Preview.Bytes.{plan_ship_bytes}
use sumo_provision.Orchestrator.Bundle.{PayloadRef, ComponentFlash, FlashBundle}
use sumo_provision.Orchestrator.Bundle.Carried.{payload_bytes}
use sumo_provision.Orchestrator.Flash.{ComponentFlashResult, FlashResult}
use sumo_provision.Cli.Size.{human_size}

unfoldable pub concat : List Text → Text
concat [] = []
concat (s ∷ ss) = s ++ concat ss

-- `println!`
abbrev pub line : List Text → Text
line ss = concat ss ++ 10 ∷ []

unfoldable pub spaces : ℕ → Text
spaces zero = []
spaces (suc n) = 32 ∷ spaces n

-- `{:<n}`, by the characters of a text in UTF-8: the bytes that do not continue one
unfoldable pub pad : ℕ → Text → Text
unfolding filter spaces
pad n s = s ++ spaces (n - length (filter (λ (b : ℕ). not (leb 128 b && leb b 191)) s))

-- the characters — and ↑ and ✗
abbrev pub em_dash : Text
em_dash = 226 ∷ 128 ∷ 148 ∷ []

abbrev pub arrow_up : Text
arrow_up = 226 ∷ 134 ∷ 145 ∷ []

abbrev pub cross : Text
cross = 226 ∷ 156 ∷ 151 ∷ []

-- `unwrap_or`
abbrev pub or_text : Text → Option Text → Text
or_text d none = d
or_text d (some s) = s

-- `map(|v| format!("{before}{v}")).unwrap_or_default()`
abbrev pub with_before : Text → Option Text → Text
with_before before none = []
with_before before (some v) = before ++ v

unfoldable pub print_device : Device → Text
unfolding concat
print_device d =
    line (text "id      " ∷ d.id ∷ [])
    ++ (elim d.model [ none ↦ [] | some m ↦ line (text "model   " ∷ m ∷ []) ]
        ++ (line (text "status  " ∷ d.status ∷ [])
            ++ line (text "pubkey  " ∷ or_text (text "(none)") d.pubkey ∷ [])))

abbrev pub change_sign : Change → Text
change_sign added = text "+"
change_sign removed = text "-"
change_sign changed = text "~"

unfoldable pub print_diff : TreeDiff → Text
unfolding concat diff_is_empty flat_map
print_diff d =
    if diff_is_empty d
    then line (concat (text "up to date " ∷ em_dash ∷ text " nothing to flash" ∷ []) ∷ [])
    else flat_map (λ (e : Text). line (text "+ entity " ∷ e ∷ [])) d.entities_added
      ++ (flat_map (λ (e : Text). line (text "- entity " ∷ e ∷ [])) d.entities_removed
          ++ flat_map
              (λ (c : PartChange). line (
                change_sign c.change
                ∷ text " "
                ∷ c.entity
                ∷ text " "
                ∷ c.part
                ∷ text "  ["
                ∷ c.kind
                ∷ text "]"
                ∷ []))
              d.parts)

-- the states that a component has before its verdict
abbrev pub in_trial : Text → Bool
in_trial s = s == text "Staged" || (s == text "AwaitingSystemReboot" || s == text "Activated")

unfoldable pub print_flash_result : FlashResult → Bool → Text
unfolding concat pad any is_empty flat_map
print_flash_result r trial_hint =
    if is_empty r.components
    then line (
        text "nothing flashed "
        ∷ em_dash
        ∷ text " up to date for channel '"
        ∷ r.channel
        ∷ text "'"
        ∷ [])
    else line
        (text "flashed device '" ∷ r.device ∷ text "' (channel '" ∷ r.channel ∷ text "'):" ∷ [])
      ++ (flat_map
            (λ (c : ComponentFlashResult). line (
              text "  "
              ∷ pad 8 c.entity
              ∷ text " "
              ∷ pad 12 c.state
              ∷ text " update "
              ∷ or_text (text "-") c.update_id
              ∷ []))
            r.components
          ++ (if trial_hint && any (λ (c : ComponentFlashResult). in_trial c.state) r.components
              then concat (
                  (10 ∷ text "in trial ")
                  ∷ em_dash
                  ∷ text " the rig rebooted into the staged bank. When healthy, finalize:"
                  ∷ (10 ∷ text "  ./commit.sh   (or `rig rollback ")
                  ∷ (226 ∷ 128 ∷ 166 ∷ text "` to revert)")
                  ∷ (10 ∷ [])
                  ∷ [])
              else []))

module _ (hex : Hex) where
  unfoldable pub print_tree : Tree → Text
  unfolding concat pad to_prefixed is_empty flat_map
  print_tree tree =
      flat_map
        (λ (e : Text × Entity).
          line (
            e.0
            ∷ text "  ["
            ∷ e.1.kind
            ∷ text "]"
            ∷ with_before (text " " ++ (em_dash ++ text " ")) e.1.version
            ∷ [])
          ++ ((if is_empty e.1.parts then line (text "    (no signed manifest)" ∷ []) else [])
              ++ flat_map
                  (λ (p : Part).
                    line (text "    " ∷ pad 16 p.id ∷ text " " ∷ to_prefixed hex p.content ∷ []))
                  e.1.parts))
        tree.entities

  -- the line of a part that ships
  abbrev pub ship_line : PlannedPart → Text
  ship_line p = elim p.plan [
    | reuse ↦ []
    | ship ↦ line (
        arrow_up
        ∷ text " ship   "
        ∷ p.entity
        ∷ text " "
        ∷ p.part
        ∷ text " ["
        ∷ p.kind
        ∷ text "]  "
        ∷ to_prefixed hex p.content
        ∷ [])
  ]

  unfoldable pub print_plan : FlashPlan → Text
  unfolding concat is_noop filter to_string to_prefixed flat_map
  print_plan plan =
      if is_noop plan
      then line (text "up to date " ∷ em_dash ∷ text " every part already in the active bank" ∷ [])
      else flat_map ship_line plan.parts
        ++ line (
            (10 ∷ to_string (length (filter is_ship plan.parts)))
            ∷ text " to ship from Tower 2, "
            ∷ to_string (length (filter is_reuse plan.parts))
            ∷ text " reused bank-to-bank on-device"
            ∷ [])

  module _ (tenths : ℕ → ℕ → Text) where
    -- the line of a part, stored or not
    unfoldable pub apply_part_line : ShipPart → Text
    unfolding concat pad to_prefixed human_size
    apply_part_line s = elim s.blob [
      | none ↦ line (
          text "  "
          ∷ cross
          ∷ text " "
          ∷ pad 14 s.part
          ∷ text " "
          ∷ to_prefixed hex s.content
          ∷ text "  "
          ∷ em_dash
          ∷ text " NOT in Tower 2"
          ∷ [])
      | some b ↦ line (
          text "  "
          ∷ arrow_up
          ∷ text " "
          ∷ pad 14 s.part
          ∷ text " "
          ∷ to_prefixed hex s.content
          ∷ text "  ("
          ∷ human_size tenths b.size
          ∷ text ")"
          ∷ [])
    ]

    unfoldable pub apply_lines : ComponentApply → Text
    unfolding concat to_string flat_map apply_part_line
    apply_lines c =
        line (
          c.entity
          ∷ with_before (text " ") c.version
          ∷ text "  "
          ∷ em_dash
          ∷ text " ship "
          ∷ to_string (length c.ship)
          ∷ text ", reuse "
          ∷ to_string c.reuse
          ∷ [])
        ++ flat_map apply_part_line c.ship

    unfoldable pub print_apply : ApplyPlan → Text
    unfolding concat to_string flat_map apply_lines missing plan_is_noop plan_ship_bytes human_size
        is_empty
    print_apply plan =
        if plan_is_noop plan
        then line (
            text "up to date "
            ∷ em_dash
            ∷ text " nothing to ship for channel '"
            ∷ plan.channel
            ∷ text "'"
            ∷ [])
        else flat_map apply_lines plan.components
          ++ (concat (
                (10
                  ∷ to_string
                      (foldl ◌+◌ 0 (map (λ (c : ComponentApply). length c.ship) plan.components)))
                ∷ text " part(s) to ship, "
                ∷ human_size tenths (plan_ship_bytes plan)
                ∷ text " total"
                ∷ [])
              ++ ((if is_empty (missing plan)
                    then line []
                    else line (
                        text " "
                        ∷ em_dash
                        ∷ text " "
                        ∷ to_string (length (missing plan))
                        ∷ text " unservable (not in Tower 2)"
                        ∷ []))
                  ++ (line (
                        text "flash (per component): SOVD open_update "
                        ∷ (226 ∷ 134 ∷ 146 ∷ text " upload manifest + parts ")
                        ∷ (226 ∷ 134 ∷ 146 ∷ text " prepare ")
                        ∷ (226 ∷ 134 ∷ 146 ∷ text " execute ")
                        ∷ (226 ∷ 134 ∷ 146 ∷ text " commit")
                        ∷ [])
                      ++ line (
                          text "(read-only plan; `rig flash` assembles the signed envelopes)"
                          ∷ []))))

    unfoldable pub bundle_lines : ComponentFlash → Text
    unfolding concat pad to_string to_prefixed human_size flat_map
    bundle_lines c =
        line (
          text "  "
          ∷ c.entity
          ∷ text " "
          ∷ em_dash
          ∷ text " signed envelope "
          ∷ human_size tenths c.envelope_bytes
          ∷ text ", "
          ∷ to_string (length c.payloads)
          ∷ text " payload(s):"
          ∷ [])
        ++ flat_map
            (λ (p : PayloadRef). line (
              text "    "
              ∷ pad 14 p.uri
              ∷ text " "
              ∷ to_prefixed hex p.outer
              ∷ text "  ("
              ∷ human_size tenths p.size
              ∷ text ")"
              ∷ []))
            c.payloads

    unfoldable pub print_bundle : FlashBundle → Text
    unfolding concat to_string human_size flat_map bundle_lines is_empty
    print_bundle b =
        if is_empty b.components
        then line (
            text "up to date "
            ∷ em_dash
            ∷ text " nothing to flash for channel '"
            ∷ b.channel
            ∷ text "'"
            ∷ [])
        else line (
            text "flash bundle for device '"
            ∷ b.device
            ∷ text "' (channel '"
            ∷ b.channel
            ∷ text "'):"
            ∷ [])
          ++ (flat_map bundle_lines b.components
              ++ (line (
                    (10 ∷ to_string (length b.components))
                    ∷ text " component(s), "
                    ∷ human_size tenths (payload_bytes b)
                    ∷ text " of payloads to upload"
                    ∷ [])
                  ++ (line (
                        text "would flash (per component): SOVD open_update "
                        ∷ (226 ∷ 134 ∷ 146 ∷ text " upload manifest + payloads ")
                        ∷ (226 ∷ 134 ∷ 146 ∷ text " prepare ")
                        ∷ (226 ∷ 134 ∷ 146 ∷ text " execute ")
                        ∷ (226 ∷ 134 ∷ 146 ∷ text " commit")
                        ∷ [])
                      ++ line (
                          text "(dry run "
                          ∷ em_dash
                          ∷ text
                              " no rig flash; the live flash authenticates to SOVD with a sovd-token-helper JWT)"
                          ∷ []))))
