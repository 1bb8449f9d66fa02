-- ===== src/Releases/Tables.antt =====
-- The tables of crates/software-tower/migrations, the errors of the content API, and the request
-- and response bodies. A statement runs to its end before the next one, on the rows in the order of
-- their insertion. `now` is what `now()` returns. Row ids are the positive numbers of BIGSERIAL.
use sumo_provision.Base.{ℕ, Bool, Option, List, Text}
use sumo_provision.Wire.Model.{ContentHash}

-- `AppError`; what an internal error says is not kept.
pub data AppError : Type 0 where
  bad_hash : AppError
  bad_request : Text → AppError
  not_found : AppError
  internal : AppError

pub record ComponentRow : Type 0 where
  pub id : ℕ
  pub entity_path : Text
  pub entity_kind : Text
  pub version : Text
  pub identity_hash : Option Text
  pub created_at : ℕ

pub record PartRow : Type 0 where
  pub release_id : ℕ
  pub part_id : Text
  pub part_kind : Text
  pub content_hash : Text

pub record VehicleRow : Type 0 where
  pub id : ℕ
  pub tag : Text
  pub version : Text
  pub identity_hash : Option Text
  pub created_at : ℕ
  pub config_snapshot : Option Text

pub record MemberRow : Type 0 where
  pub vehicle_release_id : ℕ
  pub component_release_id : ℕ
  pub disabled : Bool

-- a row of `vehicle_release_targets`
pub record ServedRow : Type 0 where
  pub vehicle_release_id : ℕ
  pub device : Text
  pub architecture : Text

pub record ChannelRow : Type 0 where
  pub channel : Text
  pub device : Text
  pub architecture : Text
  pub vehicle_release_id : ℕ
  pub tree_hash : Text
  pub updated_at : ℕ

pub record Db : Type 0 where
  pub components : List ComponentRow
  pub component_parts : List PartRow
  pub vehicles : List VehicleRow
  pub members : List MemberRow
  pub served : List ServedRow
  pub channels : List ChannelRow
  pub next_component : ℕ
  pub next_vehicle : ℕ
  pub now : ℕ

-- `NewPart`, `NewComponentRelease`, `NewVehicleRelease`
pub record NewPart : Type 0 where
  pub id : Text
  pub kind : Text
  pub content : ContentHash

pub record NewComponentRelease : Type 0 where
  pub entity_path : Text
  pub entity_kind : Text
  pub version : Text
  pub parts : List NewPart

pub record NewVehicleRelease : Type 0 where
  pub tag : Text
  pub version : Text
  pub members : List ℕ
  pub disabled_members : List ℕ
  pub config_snapshot : Option Text

pub record SetChannelTarget : Type 0 where
  pub channel : Text
  pub device : Text
  pub architecture : Text
  pub vehicle_release_id : ℕ

pub record TargetSelector : Type 0 where
  pub channel : Option Text
  pub device : Option Text
  pub architecture : Option Text
  pub vehicle_release_id : Option ℕ
  pub tree_hash : Option Text

pub record ReleaseRef : Type 0 where
  pub id : ℕ
  pub version : Text
  pub created_at : ℕ
  pub reused : Bool

pub record VehicleRef : Type 0 where
  pub id : ℕ
  pub tag : Text
  pub version : Text
  pub created_at : ℕ

pub record ChannelTargetState : Type 0 where
  pub channel : Text
  pub device : Option Text
  pub architecture : Option Text
  pub vehicle : Option VehicleRef
  pub target_release : Option VehicleRef
  pub tree_hash : Option Text
  pub config_snapshot : Option Text

pub record ChannelTargetRef : Type 0 where
  pub channel : Text
  pub device : Text
  pub architecture : Text
  pub vehicle_release_id : ℕ
  pub tree_hash : Text
