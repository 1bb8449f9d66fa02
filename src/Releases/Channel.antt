-- ===== src/Releases/Channel.antt =====
-- Channel targets: `set_channel_target`, `get_channel_target` and `channel_target_tree` of
-- crates/software-tower/src/releases.rs. The two statements of `set_channel_target` are one
-- transaction.
pub mod Rows
pub mod Reads
pub mod Moved
pub mod Frame
use sumo_provision.Base.{
  ℕ, Bool, true, false, not, ◌&&◌, ◌||◌, Option, none, some, List, [], ◌∷◌, ◌++◌, map, Text, text,
  Text_eq, ℕ_eq, ◌==◌, if◌then◌else◌, ltb, any, filter, Result, ok, err, ◌>>=◌, ok_or, is_some_and,
}
use sumo_provision.Base.Exec.{Exec}
use sumo_provision.Wire.Hash.{Hashing}
use sumo_provision.Wire.Model.{Tree}
use sumo_provision.Releases.Tables.{
  AppError, bad_request, not_found, internal, VehicleRow, ServedRow, ChannelRow, Db, TargetSelector,
  SetChannelTarget, VehicleRef, ChannelTargetState, ChannelTargetRef,
}
use sumo_provision.Releases.Identity.{tree_hash}
use sumo_provision.Releases.Publish.{find}
use sumo_provision.Releases.Resolve.{is_target, serves, resolve_members_to_tree, resolve_target}

-- INSERT INTO vehicle_release_targets … ON CONFLICT DO NOTHING
unfoldable pub serve : ℕ → Text → Text → List ServedRow → List ServedRow
unfolding any
serve id device architecture rows =
    if any (serves id device architecture) rows
    then rows
    else rows
      ++ record { vehicle_release_id = id; device = device; architecture = architecture } ∷ []

-- ON CONFLICT (channel, device, architecture) DO UPDATE SET
abbrev pub move_row : ChannelRow → ChannelRow → ChannelRow
move_row new r =
    if is_target new.channel new.device new.architecture r
    then record r {
      vehicle_release_id = new.vehicle_release_id;
      tree_hash = new.tree_hash;
      updated_at = new.updated_at;
    }
    else r

unfoldable pub upsert : ChannelRow → List ChannelRow → List ChannelRow
unfolding any
upsert new rows =
    if any (is_target new.channel new.device new.architecture) rows
    then map (move_row new) rows
    else rows ++ new ∷ []

-- REFERENCES vehicle_releases(id)
abbrev pub is_release : ℕ → Db → Bool
is_release id s = any (λ (r : VehicleRow). r.id == id) s.vehicles

module _ (hashing : Hashing) where
  abbrev pub target_row : SetChannelTarget → Tree → ℕ → ChannelRow
  target_row req tree now = record {
    channel = req.channel;
    device = req.device;
    architecture = req.architecture;
    vehicle_release_id = req.vehicle_release_id;
    tree_hash = tree_hash hashing tree;
    updated_at = now;
  }

  -- what the transaction commits
  unfoldable pub moved_db : SetChannelTarget → Tree → Db → Db
  unfolding serve upsert
  moved_db req tree s = record s {
    served = serve req.vehicle_release_id req.device req.architecture s.served;
    channels = upsert (target_row req tree s.now) s.channels;
  }

  abbrev pub target_ref : SetChannelTarget → Tree → ChannelTargetRef
  target_ref req tree = record {
    channel = req.channel;
    device = req.device;
    architecture = req.architecture;
    vehicle_release_id = req.vehicle_release_id;
    tree_hash = tree_hash hashing tree;
  }

  -- a release that is not there rolls both statements back
  unfoldable pub point_target : SetChannelTarget → Tree → Exec Db AppError ChannelTargetRef
  unfolding moved_db
  point_target req tree s =
      if is_release req.vehicle_release_id s
      then (ok (target_ref req tree), moved_db req tree s)
      else (err internal, s)

  unfoldable pub set_channel_target : SetChannelTarget → Exec Db AppError ChannelTargetRef
  unfolding point_target
  set_channel_target req s = elim (resolve_members_to_tree hashing s req.vehicle_release_id) [
    | ok tree ↦ point_target req tree s
    | err e ↦ (err e, s)
  ]

  -- `channel_target_tree`
  unfoldable pub channel_target_tree : Db → TargetSelector → Result AppError Tree
  unfolding resolve_target
  channel_target_tree s sel = do tree ← resolve_target hashing s sel; ok_or tree not_found

-- ($2::text IS NULL OR column = $2)
abbrev pub selects : Option Text → Text → Bool
selects none column = true
selects (some wanted) column = column == wanted

-- ORDER BY updated_at DESC LIMIT 1, over the rows whose release joins
unfoldable pub latest : List ChannelRow → Option ChannelRow
latest [] = none
latest (r ∷ rs) = elim (latest rs) [
  | none ↦ some r
  | some r' ↦ if ltb r.updated_at r'.updated_at then some r' else some r
]

abbrev pub vehicle_row_ref : VehicleRow → VehicleRef
vehicle_row_ref v = record {
  id = v.id;
  tag = v.tag;
  version = v.version;
  created_at = v.created_at;
}

abbrev pub release_of : ChannelRow → Db → Option VehicleRow
release_of r s = find (λ (v : VehicleRow). v.id == r.vehicle_release_id) s.vehicles

abbrev pub state_of : Text → Option ChannelRow → Option VehicleRow → ChannelTargetState
state_of channel (some r) (some v) = record {
  channel = channel;
  device = some r.device;
  architecture = some r.architecture;
  vehicle = some (vehicle_row_ref v);
  target_release = some (vehicle_row_ref v);
  tree_hash = some r.tree_hash;
  config_snapshot = v.config_snapshot;
}
state_of channel _ _ = record {
  channel = channel;
  device = none;
  architecture = none;
  vehicle = none;
  target_release = none;
  tree_hash = none;
  config_snapshot = none;
}

unfoldable pub get_channel_target : Db → TargetSelector → Result AppError ChannelTargetState
unfolding latest filter find
get_channel_target s sel = do
  channel ← ok_or sel.channel (bad_request (text "channel is required"))
  let row : Option ChannelRow = latest (
      filter
        (λ (r : ChannelRow).
          (r.channel == channel
            && (selects sel.device r.device && selects sel.architecture r.architecture))
          && is_release r.vehicle_release_id s)
        s.channels)
  ok (state_of channel row (elim row [ none ↦ none | some r ↦ release_of r s ]))
