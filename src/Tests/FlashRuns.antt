-- ===== src/Tests/FlashRuns.antt =====
-- Flashing on concrete inputs.
use sumo_provision.Base.{
  ℕ, suc, nat_eq, if◌then◌else◌, ◌≡◌, ◌⊎◌, refl, Bool, true, false, none, some, List, [], ◌∷◌, map,
  filter, length, join, Text, Text_ord, text, text_eq, contains, is_empty, Result, ok, err,
}
use sumo_provision.Map.{get}
use sumo_provision.Wire.Model.{ContentHash}
use sumo_provision.Orchestrator.Model.{Error, engine, only_matched_nothing, FlashJob}
use sumo_provision.Orchestrator.Jobs.{selected}
use sumo_provision.Orchestrator.Campaign.{
  Services, l1_selector, request_l1, l1_flash_plan, campaign_execute,
}
use sumo_provision.Orchestrator.Preview.{ApplyPlan}
use sumo_provision.Orchestrator.Preview.Bytes.{plan_ship_bytes}
use sumo_provision.Orchestrator.Bundle.{FlashBundle, flash_bundle}
use sumo_provision.Orchestrator.Bundle.Carried.{
  flash_line, ship_line, has_ship, payload_bytes, bundle-carries,
}
use sumo_provision.Orchestrator.Token.{static}
use sumo_provision.Orchestrator.Flash.{EcuStatus, FlashEngine, flash_execute}
use sumo_provision.Orchestrator.Flash.Guarded.{IsAccepted, flash-guarded}
use sumo_provision.Orchestrator.Flash.Unmatched.{IsUnmatched, flash-unmatched}
use sumo_provision.Wire.Assess.{converged}
use sumo_provision.Tests.Samples.{image, rig}
use sumo_provision.Tests.CampaignRuns.{services, target, campaign}

-- a rig that counts its resets, and whose guard lets one job through
abbrev pub engine_of_one : FlashEngine ℕ Bool
engine_of_one = record {
  staged = false;
  activated = true;
  show_state = λ done. if done then text "Activated" else text "Staged";
  guard = λ config jobs s. (if nat_eq (length jobs) 1 then ok tt else err engine, s);
  stage_all = λ config jobs s. (
    ok (
        map
          (λ (j : FlashJob). record {
            component_id = j.component_id;
            state = false;
            update_id = some (text "u");
          })
          jobs),
    s,
  );
  reset_all =
      λ config ecus s. (ok (map (λ (e : EcuStatus Bool). record e { state = true }) ecus), suc s);
  commit_all = λ config ecus s. (ok ecus, s);
  rollback_all = λ config ecus s. (ok ecus, s);
  commit_node_trials = λ config s. (ok tt, s);
  rollback_node_trials = λ config s. (ok tt, s);
}

-- a tower that has a campaign
abbrev pub serving : Services (Unit {0}) FlashJob
serving = record services {
  channel_target_l1 = λ channel device architecture pubkey device_id state. ok (4 ∷ []);
}

flash-guarded_example :
    ((flash_execute engine_of_one serving target (text "car-1") none false (static []) 7).1 ≡ 7)
    ⊎ IsAccepted engine_of_one
        (l1_flash_plan serving target (text "car-1") none)
        false
        (static [])
        7
flash-guarded_example =
    flash-guarded engine_of_one serving target (text "car-1") none false (static []) 7
      (λ config jobs s. refl)

unmatched : IsUnmatched serving target (text "car-1") (text "vm9" ∷ [])
unfolding l1_selector request_l1 is_empty selected contains text_eq get
unmatched = record {
  observed = rig;
  state = tt;
  pubkey = 8 ∷ [];
  selector = (text "car", text "arm");
  l1 = 4 ∷ [];
  components = campaign;
  trust_anchor = 9 ∷ [];
  rig_read = refl;
  encoded = refl;
  known = refl;
  narrowed = refl;
  answered = refl;
  has_content = refl;
  fanned_out = refl;
  signed = refl;
  left_out = (refl, (refl, (refl, tt)));
}

flash-unmatched_example :
    (flash_execute engine_of_one serving target
        (text "car-1")
        (some (text "vm9" ∷ []))
        false
        (static [])
        7
      ≡ (ok (record { channel = text "stable"; device = text "car-1"; components = [] }), 7))
    × (campaign_execute serving target (text "car-1") false (some (text "vm9" ∷ []))
        ≡ err (only_matched_nothing (join (text ", ") (text "vm9" ∷ []))))
flash-unmatched_example =
    flash-unmatched serving engine_of_one target (text "car-1") (text "vm9" ∷ []) false false
      (static []) 7 unmatched

-- a preview with a stored part, a missing one, and a component without parts
abbrev previewed : ApplyPlan
previewed = record {
  channel = text "stable";
  components =
      record {
        entity = text "host";
        version = none;
        ship =
            record {
              part = text "os";
              kind = text "file";
              content = image 2;
              blob = some (record { outer = image 9; size = 500 });
            }
            ∷ record { part = text "etc"; kind = text "file"; content = image 3; blob = none }
            ∷ [];
        reuse = 0;
        supports_rollback = some true;
      }
      ∷ record {
        entity = text "vm";
        version = none;
        ship = [];
        reuse = 1;
        supports_rollback = none;
      }
      ∷ [];
  assessment = record { components = []; outcome = converged; ignored_device_only_entities = [] };
}

abbrev pub build : Text → Text → Text → List (Text × ContentHash) → ℕ → Result Error Text
build pubkey device_id component parts seq = ok (1 ∷ 2 ∷ 3 ∷ [])

abbrev bundled : FlashBundle
bundled = record {
  channel = text "stable";
  device = text "car-1";
  components =
      record {
        entity = text "host";
        envelope_bytes = 3;
        payloads = record { uri = text "#os"; outer = image 9; size = 500 } ∷ [];
      }
      ∷ [];
}

assembled : flash_bundle build (ok previewed) (λ id. ok (8 ∷ [])) target (text "car-1") ≡ ok bundled
unfolding flash_bundle
assembled = refl

bundle-carries_example :
    (map flash_line bundled.components ≡ map ship_line (filter has_ship previewed.components))
    × (payload_bytes bundled ≡ plan_ship_bytes previewed)
bundle-carries_example =
    bundle-carries build previewed (λ id. ok (8 ∷ [])) target (text "car-1") bundled assembled
