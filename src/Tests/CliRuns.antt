-- ===== src/Tests/CliRuns.antt =====
-- The gate of the command line on concrete inputs.
use sumo_provision.Base.{
  ◌≡◌, refl, true, not, Option, none, some, [], ◌∷◌, text, Text_eq, Text_ord, Result, ok, arith,
  text_eq, text_lt, option_eq, bool_eq, any, all, filter, flat_map, is_empty, contains,
}
use sumo_provision.Map.{get, insert, add, from_list}
use sumo_provision.Wire.Model.{ContentHash, ArtifactRef, Tree, default_entity, entity_or_default}
use sumo_provision.Wire.Diff.{diff, diff_parts, desired_change}
use sumo_provision.Wire.Assess.{
  assess_tree, is_converged, outcome_of, actionable_set, is_new, is_drift, admin_differs,
  admin_state,
}
use sumo_provision.Wire.Plan.{flash_plan, plan_part}
use sumo_provision.Orchestrator.Model.{Error, ChannelTarget}
use sumo_provision.Orchestrator.Campaign.{supports_rollback}
use sumo_provision.Orchestrator.Preview.{ApplyPlan, apply_components, apply_parts, apply_plan}
use sumo_provision.Cli.{campaign_has_work, is_chosen}
use sumo_provision.Cli.Gate.{AllEnabled, gate-converged}
use sumo_provision.Tests.Samples.{rig, host, file, image}

abbrev pub no_blob : ContentHash → Result Error (Option ArtifactRef)
no_blob content = ok none

abbrev pub target : ChannelTarget
target = record {
  channel = text "stable";
  device = none;
  architecture = none;
  vehicle_release_id = none;
  tree_hash = none;
}

abbrev pub newer : Tree
newer = record { entities = (text "host", host 2) ∷ [] }

newer-AllEnabled : AllEnabled newer
unfolding get
newer-AllEnabled path want found = ground arith

abbrev pub plan : ApplyPlan
plan = record {
  channel = text "stable";
  components =
      record {
        entity = text "host";
        version = none;
        ship = record { part = text "os"; kind = text "file"; content = image 2; blob = none } ∷ [];
        reuse = 0;
        supports_rollback = some true;
      }
      ∷ [];
  assessment = assess_tree rig newer;
}

pub previewed : apply_plan no_blob (ok rig) (λ t. ok (some newer)) target none ≡ ok plan
unfolding apply_plan apply_components apply_parts flash_plan plan_part entity_or_default get insert
    supports_rollback text_eq text_lt option_eq filter flat_map contains is_empty from_list
previewed = refl

gate-converged_example : campaign_has_work plan none ≡ not (is_converged plan.assessment)
gate-converged_example =
    gate-converged no_blob (ok rig) (λ t. ok (some newer)) target refl refl (tt, tt)
      newer-AllEnabled previewed

-- A vehicle that holds a component disabled, and a release that has it disabled with new content.
abbrev held : Tree
held = record {
  entities = (text "host", record default_entity { admin_disabled = some true }) ∷ [];
}

abbrev off_with_parts : Tree
off_with_parts = record {
  entities =
      (text "host", record default_entity { disabled = true; parts = file (text "os") 2 ∷ [] })
      ∷ [];
}

abbrev off_plan : ApplyPlan
off_plan = record {
  channel = text "stable";
  components =
      record {
        entity = text "host";
        version = none;
        ship = record { part = text "os"; kind = text "file"; content = image 2; blob = none } ∷ [];
        reuse = 0;
        supports_rollback = none;
      }
      ∷ [];
  assessment = assess_tree held off_with_parts;
}

off_previewed :
    apply_plan no_blob (ok held) (λ t. ok (some off_with_parts)) target none ≡ ok off_plan
unfolding apply_plan apply_components apply_parts flash_plan plan_part entity_or_default get insert
    supports_rollback text_eq text_lt option_eq filter flat_map contains is_empty from_list
off_previewed = refl

off_has_work : campaign_has_work off_plan none ≡ true
unfolding campaign_has_work is_chosen any is_empty
off_has_work = refl

off_is_converged : is_converged off_plan.assessment ≡ true
unfolding assess_tree outcome_of actionable_set is_new is_drift admin_differs admin_state diff
    diff_parts desired_change entity_or_default get insert add from_list text_lt text_eq option_eq
    bool_eq all any filter is_empty flat_map is_converged
off_is_converged = refl
