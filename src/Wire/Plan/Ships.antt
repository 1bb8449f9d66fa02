-- ===== src/Wire/Plan/Ships.antt =====
-- The flash plan against the diff.
use mathlib.Core.Path.{ap₂}
use mathlib.Core.List.{append-nil, map-append}
use sumo_provision.Base.{
  ◌≡◌, refl, ◌∙◌, Bool, true, false, not, List, [], ◌∷◌, ◌++◌, map, flat_map, arith, Text, Text_ord,
  Text_eq, text_eq_iff, option_eq, filter, filter-append, filter-flat_map, map-flat_map,
  flat_map-nil, Option-cases, Bool-cases, map-filter-append, sym, inl, inr,
}
use sumo_provision.Map.{get, contains_key}
use sumo_provision.Wire.Model.{Part, Entity, Tree, entity_or_default}
use sumo_provision.Wire.Slots.{by_id, contents, get-contents}
use sumo_provision.Wire.Diff.{
  added, removed, changed, PartChange, part_change, desired_change, diff_parts, diff,
  desired_part_changes, removed_part_changes,
}
use sumo_provision.Wire.Plan.{PlannedPart, is_ship, ships, plan_part, plan_entity, flash_plan}

-- Added and changed parts, whose content has to be acquired.
abbrev pub needs_content : PartChange → Bool
needs_content c = elim c.change [ added ↦ true | changed ↦ true | removed ↦ false ]

-- Where a part stands in the vehicle: its entity, its id and its kind.
abbrev pub planned_at : PlannedPart → Text × Text × Text
planned_at p = (p.entity, p.part, p.kind)

abbrev pub changed_at : PartChange → Text × Text × Text
changed_at c = (c.entity, c.part, c.kind)

filter_removed :
    (entity : Text) (ps : List Part)
    → filter needs_content (map (part_change entity removed) ps) ≡ []
unfolding filter
filter_removed entity [] = refl
filter_removed entity (p ∷ ps) = filter_removed entity ps

-- One desired part is shipped exactly when it is an addition or a change.
ships-part :
    (path : Text) (obs : List Part) (p : Part)
    → map planned_at (filter is_ship (plan_part path (contents obs) p ∷ []))
      ≡ map changed_at (filter needs_content (desired_change path (by_id obs) p))
unfolding plan_part desired_change filter option_eq
ships-part path obs p = rw (get-contents p.id obs) (elim (Option-cases (get p.id (by_id obs))) [
  | inl missing ↦ rw missing (ground arith)
  | inr (op, found) ↦ rw found (ground (arith, text_eq_iff op.content p.content))
])

ships-desired :
    (path : Text) (obs des : List Part)
    → map planned_at (filter is_ship (map (plan_part path (contents obs)) des))
      ≡ map changed_at (filter needs_content (flat_map (desired_change path (by_id obs)) des))
unfolding flat_map filter
ships-desired path obs [] = refl
ships-desired path obs (p ∷ des) =
    map-filter-append planned_at is_ship (plan_part path (contents obs) p ∷ [])
      (map (plan_part path (contents obs)) des)
    ∙ ap₂ (◌++◌) (ships-part path obs p) (ships-desired path obs des)
    ∙ sym (
        map-filter-append changed_at needs_content (desired_change path (by_id obs) p)
          (flat_map (desired_change path (by_id obs)) des))

pub ships-entity :
    (observed : Tree) (e : Text × Entity)
    → map planned_at (filter is_ship (plan_entity observed e))
      ≡ map changed_at (filter needs_content (desired_part_changes observed e))
unfolding diff_parts
ships-entity observed (path, des) =
    rw (filter-append, filter_removed, append-nil)
      (ships-desired path (entity_or_default path observed).parts des.parts)

removals-ship_nothing :
    (desired : Tree) (e : Text × Entity)
    → filter needs_content (removed_part_changes desired e) ≡ []
unfolding diff_parts flat_map filter
removals-ship_nothing desired (path, obs) = elim (Bool-cases (contains_key path desired.entities)) [
  | inl kept ↦ rw kept
  | inr gone ↦
      rw gone (filter_removed path (filter (λ op. not (contains_key op.id (by_id []))) obs.parts))
]

-- The flash plan ships, part by part and in the same order, exactly what the diff of the two trees
-- reports as added or changed.
pub ships-diff :
    (observed desired : Tree)
    → map planned_at (ships (flash_plan observed desired))
      ≡ map changed_at (filter needs_content (diff observed desired).parts)
unfolding flash_plan diff ships
ships-diff observed desired =
    simp
      (
        filter-append, filter-flat_map, map-flat_map, map-append, ships-entity,
        removals-ship_nothing,
      )
      (simp (flat_map-nil, append-nil))
