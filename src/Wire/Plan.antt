-- ===== src/Wire/Plan.antt =====
-- `flash_plan` of crates/wire/src/lib.rs.
pub mod Ships
use sumo_provision.Base.{
  flat_map, Bool, true, false, some, List, map, Text, Text_eq, Text_ord, Option_eq, ◌==◌,
  if◌then◌else◌, filter, all,
}
use sumo_provision.Map.{Map, get}
use sumo_provision.Wire.Slots.{contents}
use sumo_provision.Wire.Model.{ContentHash, Part, Entity, Tree, entity_or_default}

pub data PartPlan : Type 0 where
  ship reuse : PartPlan

pub record PlannedPart : Type 0 where
  pub entity : Text
  pub part : Text
  pub kind : Text
  pub content : ContentHash
  pub plan : PartPlan

pub record FlashPlan : Type 0 where
  pub parts : List PlannedPart

abbrev pub is_ship : PlannedPart → Bool
is_ship p = elim p.plan [ ship ↦ true | reuse ↦ false ]

abbrev pub is_reuse : PlannedPart → Bool
is_reuse p = elim p.plan [ ship ↦ false | reuse ↦ true ]

unfoldable pub ships : FlashPlan → List PlannedPart
ships f = filter is_ship f.parts

unfoldable pub reused : FlashPlan → List PlannedPart
reused f = filter is_reuse f.parts

unfoldable pub is_noop : FlashPlan → Bool
is_noop f = all is_reuse f.parts

-- the body of the inner loop
unfoldable pub plan_part : Text → Map Text ContentHash → Part → PlannedPart
plan_part epath active_at part = record {
  entity = epath;
  part = part.id;
  kind = part.kind;
  content = part.content;
  plan = if get part.id active_at == some part.content then reuse else ship;
}

abbrev pub plan_entity : Tree → Text × Entity → List PlannedPart
plan_entity observed (epath, des) =
    map (plan_part epath (contents (entity_or_default epath observed).parts)) des.parts

unfoldable pub flash_plan : Tree → Tree → FlashPlan
unfolding plan_part flat_map
flash_plan observed desired = record { parts = flat_map (plan_entity observed) desired.entities }
