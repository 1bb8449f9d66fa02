-- ===== src/Releases/Publish.antt =====
-- `create_component_release` and `create_vehicle_release` of
-- crates/software-tower/src/releases.rs. Their statements are no transaction: what ran before a
-- failing one stays.
pub mod Idempotent
pub mod Parts
pub mod Interrupted
pub mod Vehicle
use sumo_provision.Base.{
  ℕ, ◌+◌, Bool, true, false, not, ◌&&◌, ◌||◌, Option, none, some, List, [], ◌∷◌, ◌++◌, map, Text,
  Text_eq, ℕ_eq, Option_eq, ◌==◌, if◌then◌else◌, any, contains, is_some, Result,
}
use sumo_provision.Base.Exec.{Exec, pure, fail, gets, continue, ◌>>=◌, ◌>>◌, for_each}
use sumo_provision.Wire.Hash.{Hashing, to_prefixed}
use sumo_provision.Releases.Tables.{
  AppError, internal, ComponentRow, PartRow, VehicleRow, MemberRow, Db, NewPart,
  NewComponentRelease, NewVehicleRelease, ReleaseRef,
}
use sumo_provision.Releases.Identity.{component_identity, vehicle_identity}

-- `fetch_optional`: the first row that a condition selects
unfoldable pub find : {A : Type 0} → (A → Bool) → List A → Option A
find p [] = none
find p (x ∷ xs) = let rest = find p xs in if p x then some x else rest

-- `ReleaseRef::from_row`
abbrev pub component_ref : ComponentRow → Bool → ReleaseRef
component_ref row reused = record {
  id = row.id;
  version = row.version;
  created_at = row.created_at;
  reused = reused;
}

abbrev pub vehicle_ref : VehicleRow → Bool → ReleaseRef
vehicle_ref row reused = record {
  id = row.id;
  version = row.version;
  created_at = row.created_at;
  reused = reused;
}

-- WHERE entity_path = $1 AND identity_hash = $2
abbrev pub is_component : Text → Text → ComponentRow → Bool
is_component path identity r = r.entity_path == path && r.identity_hash == some identity

-- WHERE tag = $1 AND identity_hash = $2
abbrev pub is_vehicle : Text → Text → VehicleRow → Bool
is_vehicle tag identity r = r.tag == tag && r.identity_hash == some identity

unfoldable pub insert_component : Text → Text → Text → Text → Exec Db AppError ComponentRow
insert_component path kind version identity s =
    let row : ComponentRow = record {
      id = s.next_component;
      entity_path = path;
      entity_kind = kind;
      version = version;
      identity_hash = some identity;
      created_at = s.now;
    } in
    pure row
      (record s { components = s.components ++ row ∷ []; next_component = s.next_component + 1 })

-- PRIMARY KEY (release_id, part_id)
abbrev pub same_part : ℕ → Text → PartRow → Bool
same_part id part r = r.release_id == id && r.part_id == part

unfoldable pub insert_vehicle : Text → Text → Text → Option Text → Exec Db AppError VehicleRow
insert_vehicle tag version identity snapshot s =
    let row : VehicleRow = record {
      id = s.next_vehicle;
      tag = tag;
      version = version;
      identity_hash = some identity;
      created_at = s.now;
      config_snapshot = snapshot;
    } in
    pure row (record s { vehicles = s.vehicles ++ row ∷ []; next_vehicle = s.next_vehicle + 1 })

-- REFERENCES component_releases(id), PRIMARY KEY (vehicle_release_id, component_release_id)
abbrev pub can_join : ℕ → ℕ → Db → Bool
can_join id m s =
    any (λ (r : ComponentRow). r.id == m) s.components
    && not (
        any (λ (r : MemberRow). r.vehicle_release_id == id && r.component_release_id == m)
          s.members)

unfoldable pub insert_member : ℕ → List ℕ → ℕ → Exec Db AppError (Unit {0})
unfolding contains
insert_member id disabled m s =
    if can_join id m s
    then pure tt (record s {
      members =
          s.members
          ++ record {
            vehicle_release_id = id;
            component_release_id = m;
            disabled = contains disabled m;
          }
            ∷ [];
    })
    else fail internal s

-- SET config_snapshot = COALESCE(config_snapshot, $2) WHERE id = $1
abbrev pub coalesce : Option Text → Option Text → Option Text
coalesce none new = new
coalesce (some old) new = some old

abbrev pub with_snapshot : ℕ → Option Text → VehicleRow → VehicleRow
with_snapshot id snapshot r =
    if r.id == id then record r { config_snapshot = coalesce r.config_snapshot snapshot } else r

unfoldable pub update_snapshot : ℕ → Option Text → Exec Db AppError (Unit {0})
update_snapshot id none s = pure tt s
update_snapshot id (some snapshot) s =
    pure tt (record s { vehicles = map (with_snapshot id (some snapshot)) s.vehicles })

module _ (hashing : Hashing) where
  open hashing use {hex}

  unfoldable pub insert_part : ℕ → NewPart → Exec Db AppError (Unit {0})
  insert_part id p s =
      if any (same_part id p.id) s.component_parts
      then fail internal s
      else pure tt (record s {
        component_parts =
            s.component_parts
            ++ record {
              release_id = id;
              part_id = p.id;
              part_kind = p.kind;
              content_hash = to_prefixed hex p.content;
            }
              ∷ [];
      })

  -- the part of the handler below the lookup
  unfoldable pub cut_component : NewComponentRelease → Exec Db AppError ReleaseRef
  unfolding insert_component insert_part for_each
  cut_component req = do
    row ←
        insert_component req.entity_path req.entity_kind req.version
          (component_identity hashing req.entity_kind req.parts)
    for_each (insert_part row.id) req.parts
    pure (component_ref row false)

  unfoldable pub create_component_release : NewComponentRelease → Exec Db AppError ReleaseRef
  unfolding find cut_component
  create_component_release req s =
      elim (find
        (is_component req.entity_path (component_identity hashing req.entity_kind req.parts))
        s.components) [ some row ↦ pure (component_ref row true) s | none ↦ cut_component req s ]

  unfoldable pub cut_vehicle : NewVehicleRelease → Exec Db AppError ReleaseRef
  unfolding insert_vehicle insert_member for_each
  cut_vehicle req = do
    row ←
        insert_vehicle req.tag req.version
          (vehicle_identity hashing req.members req.disabled_members) req.config_snapshot
    for_each (insert_member row.id req.disabled_members) req.members
    pure (vehicle_ref row false)

  unfoldable pub reuse_vehicle : NewVehicleRelease → VehicleRow → Exec Db AppError ReleaseRef
  unfolding update_snapshot
  reuse_vehicle req row = do update_snapshot row.id req.config_snapshot; pure (vehicle_ref row true)

  unfoldable pub create_vehicle_release : NewVehicleRelease → Exec Db AppError ReleaseRef
  unfolding find cut_vehicle reuse_vehicle
  create_vehicle_release req s =
      elim (find (is_vehicle req.tag (vehicle_identity hashing req.members req.disabled_members))
        s.vehicles) [ some row ↦ reuse_vehicle req row s | none ↦ cut_vehicle req s ]
