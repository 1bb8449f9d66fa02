-- ===== src/Orchestrator/Campaign/Converged.antt =====
-- A campaign for a vehicle that is already at its target.
use sumo_provision.Base.{
  ◌≡◌, refl, Bool, Option, none, some, List, [], Text, text, join, is_empty, ok, err,
}
use sumo_provision.Wire.Model.{Tree}
use sumo_provision.Orchestrator.Model.{only_matched_nothing, ChannelTarget}
use sumo_provision.Orchestrator.Campaign.{
  Services, l1_selector, request_l1, plan_of_l1, l1_flash_plan, run_plan, campaign_execute,
}

module _ {State Report : Type 0} (services : Services State Report) where
  open services use {read_rig_state, to_value, device_pubkey}

  -- The rig answers, and the tower answers without a body: nothing is to be done.
  pub record IsAtTarget (target : ChannelTarget) (device_id : Text) : Type 0 where
    pub observed : Tree
    pub state : State
    pub pubkey : Text
    pub selector : Text × Text
    pub rig_read : read_rig_state ≡ ok observed
    pub encoded : to_value observed ≡ ok state
    pub known : device_pubkey device_id ≡ ok pubkey
    pub narrowed : l1_selector target ≡ ok selector
    pub no_content : request_l1 services target selector.0 selector.1 pubkey device_id state ≡ ok []

  plan_empty :
      (target : ChannelTarget) (device_id : Text) (only : Option (List Text))
      (h : IsAtTarget target device_id)
      → l1_flash_plan services target device_id only
        ≡ ok (record { jobs = []; trust_anchor = []; observed = h.observed })
  unfolding l1_flash_plan plan_of_l1 is_empty
  plan_empty target device_id only h =
      rw (h.rig_read, h.encoded, h.known, h.narrowed, h.no_content) refl

  -- When the vehicle is already at its target, a campaign without a component filter succeeds with
  -- no result, and the same campaign with a filter fails with the error for a filter that matches
  -- no component, whatever the filter names.
  pub campaign-at_target :
      (target : ChannelTarget) (device_id : Text) (no_commit : Bool) (allow : List Text)
      → IsAtTarget target device_id
      → (campaign_execute services target device_id no_commit none ≡ ok [])
        × (campaign_execute services target device_id no_commit (some allow)
            ≡ err (only_matched_nothing (join (text ", ") allow)))
  unfolding campaign_execute run_plan is_empty
  campaign-at_target target device_id no_commit allow h = (
    rw (plan_empty target device_id none h) refl,
    rw (plan_empty target device_id (some allow) h) refl,
  )
