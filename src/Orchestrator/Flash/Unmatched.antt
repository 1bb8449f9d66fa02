-- ===== src/Orchestrator/Flash/Unmatched.antt =====
-- A component filter that allows nothing of the campaign.
use sumo_provision.Base.{
  ◌≡◌, refl, Bool, false, Option, some, List, [], ◌∷◌, All, Text, text, join, is_empty, ok, err,
}
use sumo_provision.Wire.Model.{Tree}
use sumo_provision.Orchestrator.Model.{only_matched_nothing, ChannelTarget, L1Component}
use sumo_provision.Orchestrator.Jobs.{selected, l1_jobs}
use sumo_provision.Orchestrator.Campaign.{
  Services, l1_selector, request_l1, plan_of_l1, l1_flash_plan, run_plan, campaign_execute,
}
use sumo_provision.Orchestrator.Token.{RigToken}
use sumo_provision.Orchestrator.Flash.{FlashEngine, flash_planned, flash_execute}

module _ {State Report : Type 0} (services : Services State Report) where
  open services use {
    read_rig_state, to_value, device_pubkey, fanout_l1, fetch_ciphertext, signer_pubkey,
  }

  -- The tower answers with a campaign of which the filter and the rig let no component through.
  pub record IsUnmatched (target : ChannelTarget) (device_id : Text) (allow : List Text)
      : Type 0 where
    pub observed : Tree
    pub state : State
    pub pubkey : Text
    pub selector : Text × Text
    pub l1 : Text
    pub components : List L1Component
    pub trust_anchor : Text
    pub rig_read : read_rig_state ≡ ok observed
    pub encoded : to_value observed ≡ ok state
    pub known : device_pubkey device_id ≡ ok pubkey
    pub narrowed : l1_selector target ≡ ok selector
    pub answered : request_l1 services target selector.0 selector.1 pubkey device_id state ≡ ok l1
    pub has_content : is_empty l1 ≡ false
    pub fanned_out : fanout_l1 l1 ≡ ok components
    pub signed : signer_pubkey ≡ ok trust_anchor
    pub left_out : All (λ c. selected observed (some allow) c ≡ false) components

  l1_jobs-none :
      (components : List L1Component) (observed : Tree) (only : Option (List Text))
      → All (λ c. selected observed only c ≡ false) components
      → l1_jobs fetch_ciphertext components observed only ≡ ok []
  unfolding l1_jobs
  l1_jobs-none [] observed only h = refl
  l1_jobs-none (c ∷ components) observed only h = rw h.0 (l1_jobs-none components observed only h.1)

  plan-unmatched :
      (target : ChannelTarget) (device_id : Text) (allow : List Text)
      (h : IsUnmatched target device_id allow)
      → l1_flash_plan services target device_id (some allow)
        ≡ ok (record { jobs = []; trust_anchor = h.trust_anchor; observed = h.observed })
  unfolding l1_flash_plan plan_of_l1
  plan-unmatched target device_id allow h =
      rw
        (
          h.rig_read,
          h.encoded,
          h.known,
          h.narrowed,
          h.answered,
          h.has_content,
          h.fanned_out,
          l1_jobs-none h.components h.observed (some allow) h.left_out,
          h.signed,
        )
        refl

  -- When the tower answers with a campaign of which the component filter and the vehicle let no
  -- component through, a flash succeeds with no component and leaves the rig as it is, where the
  -- campaign with the same filter fails with the error for a filter that matches no component.
  pub flash-unmatched :
      {S EcuState : Type 0} (engine : FlashEngine S EcuState) (target : ChannelTarget)
      (device_id : Text) (allow : List Text) (reboot no_commit : Bool) (token : RigToken) (s : S)
      → IsUnmatched target device_id allow
      → (flash_execute engine services target device_id (some allow) reboot token s
          ≡ (ok (record { channel = target.channel; device = device_id; components = [] }), s))
        × (campaign_execute services target device_id no_commit (some allow)
            ≡ err (only_matched_nothing (join (text ", ") allow)))
  unfolding flash_execute flash_planned campaign_execute run_plan is_empty
  flash-unmatched engine target device_id allow reboot no_commit token s h = (
    rw (plan-unmatched target device_id allow h) refl,
    rw (plan-unmatched target device_id allow h) refl,
  )
