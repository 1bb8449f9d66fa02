-- ===== src/Wire/Roster.antt =====
-- The device roster on the wire: `Device`, `RegisterDevice`, `EnrollResponse` and `TrustBundle` of
-- crates/wire/src/lib.rs.
use sumo_provision.Base.{Option, Text, Text_ord}
use sumo_provision.Map.{Map}

pub record Device : Type 0 where
  pub id : Text
  pub model : Option Text
  pub status : Text
  pub pubkey : Option Text
  pub ecu_id : Option Text

pub record RegisterDevice : Type 0 where
  pub id : Text
  pub model : Option Text
  pub pubkey : Option Text

pub record EnrollResponse : Type 0 where
  pub id : Text
  pub key_id : Text
  pub certificate_pem : Option Text
  pub serial : Option Text
  pub not_after : Option Text
  pub fingerprint : Option Text

pub record TrustBundle : Type 0 where
  pub anchors : Map Text Text
