-- ===== src/Cli.antt =====
-- The decisions of crates/cli/src/main.rs before a campaign: `ChannelSel::target`, `rig_token`,
-- `campaign_has_work` and the arm of `RigCmd::Campaign`. What is printed is not kept.
pub mod Gate
pub mod Size
pub mod Vhsm
pub mod Terminal
pub mod Hub
pub mod Ca
pub mod Rig
pub mod Show
pub mod Preview
use sumo_provision.Base.{
  ℕ, Bool, true, false, not, ◌&&◌, ◌||◌, Option, none, some, List, [], ◌∷◌, Text, text, Text_eq,
  ◌==◌, any, is_empty, if◌then◌else◌, Result, ok, err, ◌>>=◌, or_err,
}
use sumo_provision.Wire.Assess.{
  AssessmentOutcome, converged, converged_ignoring_device_only, deferred, actionable,
}
use sumo_provision.Orchestrator.Model.{Error, ChannelTarget, NodeUpdateState}
use sumo_provision.Orchestrator.Preview.{ComponentApply, ApplyPlan, is_unresolved}
use sumo_provision.Orchestrator.Token.{RigToken, static, mint}

pub record ChannelSel : Type 0 where
  pub channel : Text
  pub device : Option Text
  pub architecture : Option Text

unfoldable pub sel_target : ChannelSel → ChannelTarget
sel_target sel = record {
  channel = sel.channel;
  device = sel.device;
  architecture = sel.architecture;
  vehicle_release_id = none;
  tree_hash = none;
}

pub record AuthArgs : Type 0 where
  pub device_id : Text
  pub token : Option Text
  pub minter_url : Option Text
  pub operator_token : Option Text

-- what the command fails with; an error of the orchestrator is passed on
pub data CliError : Type 0 where
  minter_requires_operator_token : CliError
  campaign_deferred : List Text → CliError
  unresolved_transaction : Text → List Text → CliError
  orchestrator : Error → CliError
  -- an error of the file system, of a client, of JSON, of a key
  io client malformed bad_key : CliError
  not_found invalid_hash : Text → CliError

unfoldable pub rig_token : AuthArgs → Result CliError RigToken
rig_token auth = elim auth.token [
  | some t ↦ ok (static t)
  | none ↦ elim auth.minter_url [
    | some minter_url ↦ elim auth.operator_token [
      | some operator_token ↦ ok (mint none)
      | none ↦ err minter_requires_operator_token
    ]
    | none ↦ ok (static [])
  ]
]

-- `only.is_none_or(|id| id == component)`
unfoldable pub is_chosen : Option Text → Text → Bool
is_chosen none component = true
is_chosen (some id) component = id == component

unfoldable pub campaign_has_work : ApplyPlan → Option Text → Bool
unfolding is_chosen any is_empty
campaign_has_work plan only =
    any (λ (c : ComponentApply). not (is_empty c.ship) && is_chosen only c.entity) plan.components
    || any (is_chosen only) plan.assessment.components

abbrev pub is_deferred : AssessmentOutcome → Bool
is_deferred deferred = true
is_deferred _ = false

-- the chosen component is among those that the assessment lists
unfoldable pub is_listed : Option Text → List Text → Bool
unfolding any
is_listed none components = true
is_listed (some id) components = any (λ c. c == id) components

-- how the command ends, if it does not fail
pub data CampaignEnd (Report : Type 0) : Type 0 where
  up_to_date : CampaignEnd Report
  plan_only : CampaignEnd Report
  complete : List Report → CampaignEnd Report

-- `?` on a result of the orchestrator
abbrev pub or_orchestrator : {A : Type 0} → Result Error A → Result CliError A
or_orchestrator (ok a) = ok a
or_orchestrator (err e) = err (orchestrator e)

-- the guard on an unresolved transaction
unfoldable pub refuse_unresolved : NodeUpdateState → Result CliError (Unit {0})
unfolding is_unresolved
refuse_unresolved state =
    if is_unresolved state.phase
    then err (unresolved_transaction state.phase state.components)
    else ok tt

-- the filter of one component as the list that the orchestrator takes
abbrev pub only_vec : Option Text → Option (List Text)
only_vec none = none
only_vec (some o) = some (o ∷ [])

module _ {Report : Type 0} (node_update_state : Result Error NodeUpdateState)
    (campaign_execute : ChannelTarget
      → Text
      → Bool
      → RigToken
      → Option (List Text)
      → Result Error (List Report)) where
  -- below the guards
  unfoldable pub run_campaign_command :
      ChannelSel → AuthArgs → Bool → Option Text → Result CliError (CampaignEnd Report)
  unfolding rig_token refuse_unresolved sel_target
  run_campaign_command sel auth no_commit only = do
    node_state ← or_orchestrator node_update_state
    ready ← refuse_unresolved node_state
    token ← rig_token auth
    results ←
        or_orchestrator
          (campaign_execute (sel_target sel) auth.device_id no_commit token (only_vec only))
    ok (complete results)

  -- from the plan on
  unfoldable pub campaign_command :
      ChannelSel
      → AuthArgs
      → Bool
      → Bool
      → Option Text
      → ApplyPlan
      → Result CliError (CampaignEnd Report)
  unfolding is_listed campaign_has_work run_campaign_command
  campaign_command sel auth execute no_commit only plan =
      if is_deferred plan.assessment.outcome && is_listed only plan.assessment.components
      then err (campaign_deferred plan.assessment.components)
      else if not (campaign_has_work plan only)
      then ok up_to_date
      else if not execute
      then ok plan_only
      else run_campaign_command sel auth no_commit only

  -- the arm of `RigCmd::Campaign`
  unfoldable pub rig_campaign :
      (ChannelTarget → Result Error ApplyPlan)
      → ChannelSel
      → AuthArgs
      → Bool
      → Bool
      → Option Text
      → Result CliError (CampaignEnd Report)
  unfolding campaign_command sel_target
  rig_campaign apply_plan sel auth execute no_commit only = do
    plan ← or_orchestrator (apply_plan (sel_target sel))
    campaign_command sel auth execute no_commit only plan
