-- ===== src/Orchestrator/Campaign.antt =====
-- `l1_selector`, `l1_flash_plan` and `campaign_execute` of crates/orchestrator/src/lib.rs. The rig,
-- the towers and the flash engine are parameters, and so is the decoding of the signed campaign.
pub mod Steps
pub mod Converged
use sumo_provision.Base.{
  ℕ, Bool, true, false, not, ◌&&◌, Option, none, some, List, [], ◌∷◌, ◌++◌, map, Text, Text_ord,
  Text_eq, Bool_eq, Option_eq, ◌==◌, if◌then◌else◌, filter, is_empty, join, text, Result, ok, err,
  ◌>>=◌,
}
use sumo_provision.Map.{get}
use sumo_provision.Wire.Model.{ContentHash, UpdateMode, Entity, Tree}
use sumo_provision.Orchestrator.Model.{
  Error, channel_not_found, only_matched_nothing, l1_needs_selector, ChannelTarget, L1Component,
  FlashJob, CampaignStep,
}
use sumo_provision.Orchestrator.Jobs.{l1_jobs}

unfoldable pub l1_selector : ChannelTarget → Result Error (Text × Text)
l1_selector target = elim target.device [
  | none ↦ err (l1_needs_selector target.channel)
  | some device ↦ elim target.architecture [
    | none ↦ err (l1_needs_selector target.channel)
    | some architecture ↦ ok (device, architecture)
  ]
]

-- the capability that the vehicle reports for a component
unfoldable pub supports_rollback : Tree → Text → Option Bool
supports_rollback observed component = elim (get component observed.entities) [
  | none ↦ none
  | some e ↦ elim e.update_mode [ none ↦ none | some m ↦ some m.supports_rollback ]
]

unfoldable pub is_singleshot : Tree → FlashJob → Bool
unfolding supports_rollback
is_singleshot observed job = supports_rollback observed job.component_id == some false

abbrev pub singleshot_step : FlashJob → CampaignStep
singleshot_step job = record { jobs = job ∷ []; force_ecu_reset = false }

unfoldable pub banked_step : List FlashJob → List CampaignStep
unfolding is_empty
banked_step banked =
    if is_empty banked then [] else record { jobs = banked; force_ecu_reset = true } ∷ []

-- `partition`, and the steps from the two halves
unfoldable pub campaign_steps : Tree → List FlashJob → List CampaignStep
unfolding is_singleshot banked_step filter
campaign_steps observed jobs =
    map singleshot_step (filter (is_singleshot observed) jobs)
    ++ banked_step (filter (λ job. not (is_singleshot observed job)) jobs)

-- What a run asks of the rig, of the two towers and of the engine. `State` is the serialized
-- self-report, `Report` the outcome that the engine gives for a component.
pub record Services (State Report : Type 0) : Type 0 where
  pub read_rig_state : Result Error Tree
  pub to_value : Tree → Result Error State
  pub device_pubkey : Text → Result Error Text
  pub vehicle_release_l1 : ℕ → Option Text → Text → Text → Text → Text → State → Result Error Text
  pub channel_target_l1 : Text → Text → Text → Text → Text → State → Result Error Text
  pub fanout_l1 : Text → Result Error (List L1Component)
  pub fetch_ciphertext : ContentHash → Result Error Text
  pub signer_pubkey : Result Error Text
  pub run_campaign : Text → List CampaignStep → Bool → Result Error (List Report)

pub record RigPlan : Type 0 where
  pub jobs : List FlashJob
  pub trust_anchor : Text
  pub observed : Tree

module _ {State Report : Type 0} (services : Services State Report) where
  open services use {
    read_rig_state, to_value, device_pubkey, vehicle_release_l1, channel_target_l1, fanout_l1,
    fetch_ciphertext, signer_pubkey, run_campaign,
  }

  unfoldable pub request_l1 : ChannelTarget → Text → Text → Text → Text → State → Result Error Text
  request_l1 target device architecture pubkey device_id state = elim target.vehicle_release_id [
    | none ↦ channel_target_l1 target.channel device architecture pubkey device_id state
    | some id ↦ vehicle_release_l1 id target.tree_hash device architecture pubkey device_id state
  ]

  -- from the body of the answer on
  unfoldable pub plan_of_l1 : Tree → Option (List Text) → Text → Result Error RigPlan
  unfolding is_empty l1_jobs
  plan_of_l1 observed only l1 =
      if is_empty l1
      then ok (record { jobs = []; trust_anchor = []; observed = observed })
      else (fanout_l1 l1 >>= λ components.
          l1_jobs fetch_ciphertext components observed only >>= λ jobs.
          signer_pubkey >>= λ trust_anchor.
          ok (record { jobs = jobs; trust_anchor = trust_anchor; observed = observed }))

  unfoldable pub l1_flash_plan : ChannelTarget → Text → Option (List Text) → Result Error RigPlan
  unfolding l1_selector request_l1 plan_of_l1
  l1_flash_plan target device_id only = do
    observed ← read_rig_state
    current_state ← to_value observed
    pubkey ← device_pubkey device_id
    selector ← l1_selector target
    l1 ← request_l1 target selector.0 selector.1 pubkey device_id current_state
    plan_of_l1 observed only l1

  -- below the plan
  unfoldable pub run_plan : Bool → Option (List Text) → RigPlan → Result Error (List Report)
  unfolding campaign_steps is_empty join
  run_plan no_commit only plan =
      if is_empty plan.jobs
      then elim only [
        | none ↦ ok []
        | some allow ↦ err (only_matched_nothing (join (text ", ") allow))
      ]
      else run_campaign plan.trust_anchor (campaign_steps plan.observed plan.jobs) no_commit

  unfoldable pub campaign_execute :
      ChannelTarget → Text → Bool → Option (List Text) → Result Error (List Report)
  unfolding l1_flash_plan run_plan
  campaign_execute target device_id no_commit only = do
    plan ← l1_flash_plan target device_id only
    run_plan no_commit only plan
