-- ===== src/Orchestrator/Model.antt =====
-- The data of crates/orchestrator/src/lib.rs. What an error of another crate says is not kept, nor
-- is the reason of `BadL2`.
use sumo_provision.Base.{ℕ, Bool, Option, List, Text}
use sumo_provision.Wire.Model.{ContentHash}

pub data Error : Type 0 where
  sovd client engine decode_l1 state_encode node_state : Error
  payload_missing channel_not_found only_matched_nothing device_not_found device_no_pubkey :
      Text → Error
  bad_l2 l1_needs_selector manifest : Text → Error
  mixed_update_modes : List Text → List Text → Error

-- `NodeUpdateState`
pub record NodeUpdateState : Type 0 where
  pub phase : Text
  pub components : List Text
  pub node_boot_id : Option Text

pub record ChannelTarget : Type 0 where
  pub channel : Text
  pub device : Option Text
  pub architecture : Option Text
  pub vehicle_release_id : Option ℕ
  pub tree_hash : Option Text

-- `L1Part`, `L1Component`
pub record L1Part : Type 0 where
  pub part : Text
  pub outer : ContentHash
  pub inner : Option ContentHash

pub record L1Component : Type 0 where
  pub component : Text
  pub envelope : Text
  pub parts : List L1Part

-- `Payload` and `FlashJob` of the flash engine, with the fields that are set here
pub record Payload : Type 0 where
  pub uri : Text
  pub source : Text

pub record FlashJob : Type 0 where
  pub component_id : Text
  pub envelope : Text
  pub payloads : List Payload

pub record CampaignStep : Type 0 where
  pub jobs : List FlashJob
  pub force_ecu_reset : Bool
