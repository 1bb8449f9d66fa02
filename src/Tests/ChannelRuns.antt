-- ===== src/Tests/ChannelRuns.antt =====
-- Channel targets on concrete inputs.
use sumo_provision.Base.{
  ◌==◌, ◌&&◌, ℕ_eq, Text_eq, text_eq, Text_ord, ◌≡◌, refl, true, false, none, some, [], ◌∷◌, text,
  ok, any, filter,
}
use sumo_provision.Map.{insert}
use sumo_provision.Wire.Model.{Tree}
use sumo_provision.Releases.Tables.{Db, SetChannelTarget}
use sumo_provision.Releases.Identity.{tree_hash}
use sumo_provision.Releases.Publish.{find}
use sumo_provision.Releases.Resolve.{
  resolve_members_to_tree, resolve_target, release_matches_target, read_members, read_member,
  read_parts, parse_stored_hash,
}
use sumo_provision.Releases.Channel.{set_channel_target, target_ref}
use sumo_provision.Releases.Channel.Moved.{by_channel, pinned, set-resolves}
use sumo_provision.Wire.Hash.{from_str, hex_part, strip_prefix, to_prefixed}
use sumo_provision.Tests.Samples.{hex, file, encode, decode, digit, value, hashing, image}
use sumo_provision.Tests.ReleaseRuns.{start}

abbrev pub stocked : Db
stocked = record start {
  components =
      record {
        id = 1;
        entity_path = text "host";
        entity_kind = text "os";
        version = text "1";
        identity_hash = none;
        created_at = 3;
      }
      ∷ [];
  component_parts =
      record {
        release_id = 1;
        part_id = text "os";
        part_kind = text "file";
        content_hash = to_prefixed hex (image 1);
      }
      ∷ [];
  vehicles =
      record {
        id = 1;
        tag = text "car";
        version = text "1";
        identity_hash = none;
        created_at = 4;
        config_snapshot = none;
      }
      ∷ [];
  members = record { vehicle_release_id = 1; component_release_id = 1; disabled = false } ∷ [];
  next_component = 2;
  next_vehicle = 2;
}

abbrev pub release_tree : Tree
release_tree = record {
  entities =
      (
        text "host",
        record {
          kind = text "os";
          version = some (text "1");
          update_mode = none;
          parts = file (text "os") 1 ∷ [];
          disabled = false;
          admin_disabled = none;
        },
      )
      ∷ [];
}

abbrev point : SetChannelTarget
point = record {
  channel = text "stable";
  device = text "car";
  architecture = text "arm";
  vehicle_release_id = 1;
}

pub pointed : resolve_members_to_tree hashing stocked 1 ≡ ok release_tree
unfolding resolve_members_to_tree read_members read_member read_parts find filter insert
    parse_stored_hash from_str hex_part strip_prefix encode decode digit value to_prefixed
pointed = refl

answered : (set_channel_target hashing point stocked).0 ≡ ok (target_ref hashing point release_tree)
unfolding set_channel_target any
answered = rw (pointed, set_channel_target) refl

set-resolves_example :
    (tree : Tree) × (resolve_members_to_tree hashing stocked 1 ≡ ok tree)
    × (resolve_target hashing
          (set_channel_target hashing point stocked).1
          (by_channel point (tree_hash hashing release_tree))
        ≡ ok (some tree))
    × (resolve_target hashing
          (set_channel_target hashing point stocked).1
          (pinned point (tree_hash hashing release_tree))
        ≡ ok (some tree))
    × (release_matches_target
          (set_channel_target hashing point stocked).1
          1
          (text "car")
          (text "arm")
        ≡ true)
set-resolves_example =
    set-resolves hashing point stocked (target_ref hashing point release_tree) answered

other_target :
    (text "stable" == text "beta" && (text "car" == text "car" && text "arm" == text "arm")) ≡ false
unfolding text_eq
other_target = refl
