-- ===== src/Orchestrator/Bundle.antt =====
-- The flash bundle of crates/orchestrator/src/lib.rs: `flash_bundle`. The preview and the towers
-- are parameters.
pub mod Carried
use sumo_provision.Base.{
  ℕ, Option, none, some, List, [], ◌∷◌, ◌++◌, map, Text, text, length, if◌then◌else◌, is_empty,
  Result, ok, err, ◌>>=◌,
}
use sumo_provision.Wire.Model.{ContentHash}
use sumo_provision.Orchestrator.Model.{Error, ChannelTarget}
use sumo_provision.Orchestrator.Preview.{ShipPart, ComponentApply, ApplyPlan}

pub record PayloadRef : Type 0 where
  pub uri : Text
  pub outer : ContentHash
  pub size : ℕ

pub record ComponentFlash : Type 0 where
  pub entity : Text
  pub envelope_bytes : ℕ
  pub payloads : List PayloadRef

pub record FlashBundle : Type 0 where
  pub channel : Text
  pub device : Text
  pub components : List ComponentFlash

-- `filter_map`: a part without a blob has no payload
unfoldable pub payload_refs : List ShipPart → List PayloadRef
payload_refs [] = []
payload_refs (s ∷ ship) =
    let rest = payload_refs ship in
    elim s.blob [
      | none ↦ rest
      | some b ↦ record { uri = text "#" ++ s.part; outer = b.outer; size = b.size } ∷ rest
    ]

abbrev pub shipped_contents : List ShipPart → List (Text × ContentHash)
shipped_contents = map (λ (s : ShipPart). (s.part, s.content))

-- `build_envelope` of the software tower, for the key of the device, its id, a component with its
-- parts, and a sequence number
module _
    (build_envelope : Text → Text → Text → List (Text × ContentHash) → ℕ → Result Error Text) where
  abbrev pub component_flash : ComponentApply → Text → ComponentFlash
  component_flash c envelope = record {
    entity = c.entity;
    envelope_bytes = length envelope;
    payloads = payload_refs c.ship;
  }

  unfoldable pub bundle_components :
      Text → Text → List ComponentApply → Result Error (List ComponentFlash)
  unfolding payload_refs is_empty
  bundle_components pubkey device_id [] = ok []
  bundle_components pubkey device_id (c ∷ cs) =
      let rest = bundle_components pubkey device_id cs in
      if is_empty c.ship
      then rest
      else (build_envelope pubkey device_id c.entity (shipped_contents c.ship) 1 >>= λ envelope.
          rest >>= λ flashes. ok (component_flash c envelope ∷ flashes))

  unfoldable pub flash_bundle :
      Result Error ApplyPlan
      → (Text → Result Error Text)
      → ChannelTarget
      → Text
      → Result Error FlashBundle
  unfolding bundle_components
  flash_bundle apply_plan device_pubkey target device_id = apply_plan >>= λ plan.
      device_pubkey device_id >>= λ pubkey.
      bundle_components pubkey device_id plan.components >>= λ components.
      ok (record { channel = target.channel; device = device_id; components = components })
