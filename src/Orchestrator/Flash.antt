-- ===== src/Orchestrator/Flash.antt =====
-- The flashing of crates/orchestrator/src/lib.rs beside the campaign:
-- `build_flash_plan`, `flash_execute` and `flash_keystore`. The flash engine is a
-- parameter: each of its calls takes the rig from one state to another.
pub mod Guarded
pub mod Unmatched
pub mod Verdict
use sumo_provision.Base.{
  ℕ, Bool, true, false, Option, none, some, List, [], ◌∷◌, ◌++◌, map, Text, text, length,
  if◌then◌else◌, is_empty, Result, ok, err,
}
use sumo_provision.Base.Exec.{Exec, pure, lift, ◌>>=◌, ◌>>◌}
use sumo_provision.Wire.Model.{ContentHash}
use sumo_provision.Orchestrator.Model.{Error, ChannelTarget, FlashJob, CampaignStep}
use sumo_provision.Orchestrator.Campaign.{Services, RigPlan, l1_flash_plan}
use sumo_provision.Orchestrator.Preview.{ShipPart, ComponentApply, ApplyPlan}
use sumo_provision.Orchestrator.Token.{RigToken}

-- `EcuStatus`, with the fields that are read or set here
pub record EcuStatus (EcuState : Type 0) : Type 0 where
  pub component_id : Text
  pub state : EcuState
  pub update_id : Option Text

-- what an engine is made with, beside the rig
pub record EngineConfig : Type 0 where
  pub token : RigToken
  pub trust_anchor : Text
  pub force_ecu_reset : Bool

-- `FlashEngine`. The statuses that a call is lent are returned as it leaves them.
pub record FlashEngine (S EcuState : Type 0) : Type 0 where
  pub staged : EcuState
  pub activated : EcuState
  -- the state as `{:?}` writes it
  pub show_state : EcuState → Text
  pub guard : EngineConfig → List FlashJob → Exec S Error (Unit {0})
  pub stage_all : EngineConfig → List FlashJob → Exec S Error (List (EcuStatus EcuState))
  pub reset_all :
      EngineConfig → List (EcuStatus EcuState) → Exec S Error (List (EcuStatus EcuState))
  pub commit_all :
      EngineConfig → List (EcuStatus EcuState) → Exec S Error (List (EcuStatus EcuState))
  pub rollback_all :
      EngineConfig → List (EcuStatus EcuState) → Exec S Error (List (EcuStatus EcuState))
  pub commit_node_trials : EngineConfig → Exec S Error (Unit {0})
  pub rollback_node_trials : EngineConfig → Exec S Error (Unit {0})

pub record ComponentFlashResult : Type 0 where
  pub entity : Text
  pub update_id : Option Text
  pub state : Text

pub record FlashResult : Type 0 where
  pub channel : Text
  pub device : Text
  pub components : List ComponentFlashResult

module _ {S EcuState : Type 0} (engine : FlashEngine S EcuState) where
  open engine use {
    staged, activated, show_state, guard, stage_all, reset_all, commit_all, rollback_all,
    commit_node_trials, rollback_node_trials,
  }

  unfoldable pub component_result : EcuStatus EcuState → ComponentFlashResult
  component_result s = record {
    entity = s.component_id;
    update_id = s.update_id;
    state = show_state s.state;
  }

  unfoldable pub ecu_status : Text → Text → EcuState → EcuStatus EcuState
  ecu_status component update_id state = record {
    component_id = component;
    state = state;
    update_id = some update_id;
  }

  abbrev pub flash_result : Text → Text → List (EcuStatus EcuState) → FlashResult
  flash_result channel device ecus = record {
    channel = channel;
    device = device;
    components = map component_result ecus;
  }

  -- guard, stage, reset
  unfoldable pub drive :
      ChannelTarget → Text → EngineConfig → List FlashJob → Exec S Error FlashResult
  unfolding component_result
  drive target device_id config jobs = do
    guard config jobs
    ecus ← stage_all config jobs
    reset ← reset_all config ecus
    pure (flash_result target.channel device_id reset)

  -- below the plan
  unfoldable pub flash_planned :
      ChannelTarget → Text → Bool → RigToken → RigPlan → Exec S Error FlashResult
  unfolding drive is_empty
  flash_planned target device_id reboot_to_activate token plan =
      if is_empty plan.jobs
      then pure (flash_result target.channel device_id [])
      else drive target device_id
          (record {
            token = token;
            trust_anchor = plan.trust_anchor;
            force_ecu_reset = reboot_to_activate;
          })
          plan.jobs

  -- `build_flash_plan` drops the observed tree of the plan
  unfoldable pub flash_execute :
      {State Report : Type 0}
      → Services State Report
      → ChannelTarget
      → Text
      → Option (List Text)
      → Bool
      → RigToken
      → Exec S Error FlashResult
  unfolding l1_flash_plan flash_planned
  flash_execute services target device_id only reboot_to_activate token = do
    plan ← lift (l1_flash_plan services target device_id only)
    flash_planned target device_id reboot_to_activate token plan

  unfoldable pub flash_keystore : Text → Text → RigToken → Exec S Error FlashResult
  unfolding component_result
  flash_keystore hsm_suit trust_anchor token = do
    ecus ←
        stage_all (record { token = token; trust_anchor = trust_anchor; force_ecu_reset = false })
          (record { component_id = text "hsm"; envelope = hsm_suit; payloads = [] } ∷ [])
    pure (flash_result (text "(keystore)") [] ecus)
