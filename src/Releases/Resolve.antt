-- ===== src/Releases/Resolve.antt =====
-- Resolving a channel or a pinned release to its desired tree, in
-- crates/software-tower/src/releases.rs.
use sumo_provision.Base.{
  ℕ, Bool, ◌&&◌, Option, none, some, List, [], ◌∷◌, Text, text, Text_eq, Text_ord, ℕ_eq, ◌==◌,
  if◌then◌else◌, any, filter, Result, ok, err, ◌>>=◌, ok_or, or_err,
}
use sumo_provision.Map.{insert}
use sumo_provision.Wire.Hash.{Hashing, from_str}
use sumo_provision.Wire.Model.{ContentHash, Part, Entity, Tree, empty_tree}
use sumo_provision.Releases.Tables.{
  AppError, bad_request, internal, ComponentRow, PartRow, VehicleRow, MemberRow, ServedRow,
  ChannelRow, Db, TargetSelector,
}
use sumo_provision.Releases.Identity.{tree_hash}
use sumo_provision.Releases.Publish.{find}

-- `channel_target_vehicle`
unfoldable pub only_target : List ChannelRow → Option ℕ
only_target [] = none
only_target (r ∷ []) = some r.vehicle_release_id
only_target (r ∷ r' ∷ rs) = none

abbrev pub is_channel : Text → ChannelRow → Bool
is_channel channel r = r.channel == channel

abbrev pub is_target : Text → Text → Text → ChannelRow → Bool
is_target channel device architecture r =
    r.channel == channel && (r.device == device && r.architecture == architecture)

abbrev pub vehicle_of : Option ChannelRow → Option ℕ
vehicle_of none = none
vehicle_of (some r) = some r.vehicle_release_id

unfoldable pub channel_target_vehicle : Db → Text → Option Text → Option Text → Option ℕ
unfolding find filter only_target
channel_target_vehicle s channel (some d) (some a) =
    vehicle_of (find (is_target channel d a) s.channels)
channel_target_vehicle s channel (some d) none =
    only_target (filter (is_channel channel) s.channels)
channel_target_vehicle s channel none a = only_target (filter (is_channel channel) s.channels)

abbrev pub serves : ℕ → Text → Text → ServedRow → Bool
serves id device architecture r =
    r.vehicle_release_id == id && (r.device == device && r.architecture == architecture)

-- `release_matches_target`
unfoldable pub release_matches_target : Db → ℕ → Text → Text → Bool
unfolding any
release_matches_target s id device architecture = any (serves id device architecture) s.served

module _ (hashing : Hashing) where
  open hashing use {hex}

  -- `parse_stored_hash`: a malformed hash is an internal error
  unfoldable pub parse_stored_hash : Text → Result AppError ContentHash
  unfolding from_str
  parse_stored_hash s = or_err (from_str hex s) internal

  unfoldable pub read_parts : List PartRow → Result AppError (List Part)
  unfolding parse_stored_hash
  read_parts [] = ok []
  read_parts (r ∷ rs) = do
    content ← parse_stored_hash r.content_hash
    parts ← read_parts rs
    ok (record { kind = r.part_kind; id = r.part_id; content = content } ∷ parts)

  -- one round of the loop over the members: its path and its entity
  unfoldable pub read_member : Db → MemberRow → Result AppError (Text × Entity)
  unfolding find filter read_parts
  read_member s m = do
    row ← ok_or (find (λ (r : ComponentRow). r.id == m.component_release_id) s.components) internal
    parts ←
        read_parts
          (filter (λ (p : PartRow). p.release_id == m.component_release_id) s.component_parts)
    ok (
      row.entity_path,
      record {
        kind = row.entity_kind;
        version = some row.version;
        update_mode = none;
        parts = parts;
        disabled = m.disabled;
        admin_disabled = none;
      },
    )

  unfoldable pub read_members : Db → Tree → List MemberRow → Result AppError Tree
  unfolding read_member insert
  read_members s tree [] = ok tree
  read_members s tree (m ∷ ms) = do
    entry ← read_member s m
    read_members s (record { entities = insert entry.0 entry.1 tree.entities }) ms

  unfoldable pub resolve_members_to_tree : Db → ℕ → Result AppError Tree
  unfolding read_members filter
  resolve_members_to_tree s vehicle_id =
      read_members s empty_tree
        (filter (λ (m : MemberRow). m.vehicle_release_id == vehicle_id) s.members)

  unfoldable pub resolve_channel_target :
      Db → Text → Option Text → Option Text → Result AppError (Option Tree)
  unfolding resolve_members_to_tree channel_target_vehicle
  resolve_channel_target s channel device architecture =
      elim (channel_target_vehicle s channel device architecture) [
        | none ↦ ok none
        | some id ↦ (do tree ← resolve_members_to_tree s id; ok (some tree))
      ]

  abbrev pub resolve_pinned : Db → ℕ → Result AppError (Option Tree)
  resolve_pinned s id =
      if any (λ (r : VehicleRow). r.id == id) s.vehicles
      then (do tree ← resolve_members_to_tree s id; ok (some tree))
      else ok none

  -- the guard on a supplied tree hash
  unfoldable pub check_tree_hash : Option Text → Option Tree → Result AppError (Option Tree)
  check_tree_hash (some expected) (some tree) =
      if tree_hash hashing tree == expected
      then ok (some tree)
      else err (bad_request (text "tree_hash does not match release"))
  check_tree_hash (some expected) none = ok none
  check_tree_hash none tree = ok tree

  unfoldable pub select_tree :
      Db → Option ℕ → Option Text → Option Text → Option Text → Result AppError (Option Tree)
  unfolding resolve_channel_target any
  select_tree s (some id) channel device architecture = resolve_pinned s id
  select_tree s none (some channel) device architecture =
      resolve_channel_target s channel device architecture
  select_tree s none none device architecture =
      err (bad_request (text "channel or vehicle_release_id is required"))

  unfoldable pub resolve_target : Db → TargetSelector → Result AppError (Option Tree)
  unfolding select_tree check_tree_hash
  resolve_target s selector = do
    tree ←
        select_tree s selector.vehicle_release_id selector.channel selector.device
          selector.architecture
    check_tree_hash selector.tree_hash tree
