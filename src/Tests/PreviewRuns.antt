-- ===== src/Tests/PreviewRuns.antt =====
-- The preview on concrete inputs.
use sumo_provision.Base.{
  ◌≡◌, refl, true, none, some, Option, List, [], ◌∷◌, filter, flat_map, contains, is_empty,
  Text_ord, text, text_eq, text_lt, option_eq, Result, ok,
}
use sumo_provision.Map.{get, insert, from_list}
use sumo_provision.Wire.Model.{ContentHash, ArtifactRef, entity_or_default}
use sumo_provision.Wire.Plan.{flash_plan, plan_part}
use sumo_provision.Orchestrator.Model.{Error}
use sumo_provision.Orchestrator.Campaign.{supports_rollback}
use sumo_provision.Orchestrator.Preview.{ComponentApply, apply_parts, apply_components}
use sumo_provision.Tests.Samples.{image, rig, goal}

-- a tower that has no blob
abbrev no_blob : ContentHash → Result Error (Option ArtifactRef)
no_blob content = ok none

abbrev listing : List ComponentApply
listing =
    record {
      entity = text "host";
      version = none;
      ship = record { part = text "os"; kind = text "file"; content = image 2; blob = none } ∷ [];
      reuse = 0;
      supports_rollback = some true;
    }
    ∷ record {
      entity = text "vm";
      version = none;
      ship = record { part = text "os"; kind = text "file"; content = image 3; blob = none } ∷ [];
      reuse = 0;
      supports_rollback = none;
    }
    ∷ []

listed : apply_components no_blob rig (flash_plan rig goal) none goal.entities ≡ ok listing
unfolding apply_components apply_parts flash_plan plan_part entity_or_default get insert
    supports_rollback text_eq text_lt option_eq filter flat_map contains is_empty from_list
listed = refl
