-- ===== src/Cli/Hub.antt =====
-- `run_hub` and `ping` of crates/cli/src/main.rs. `pretty` is `serde_json::to_string_pretty`.
use sumo_provision.Base.{
  Bool, Option, [], ◌∷◌, Text, text, if◌then◌else◌, to_string, Result, or_err,
}
use sumo_provision.Base.Exec.{lift, ◌>>=◌, ◌>>◌}
use sumo_provision.Wire.Hash.{Hex, from_str, to_prefixed}
use sumo_provision.Wire.Model.{Tree}
use sumo_provision.Client.{ClientError, Request, Response, Json, healthy, tower_version}
use sumo_provision.Client.Software.{publish_artifact, get_blob, channel_target_tree}
use sumo_provision.Cli.{invalid_hash, not_found}
use sumo_provision.Cli.Show.{line, concat, em_dash, print_tree}
use sumo_provision.Cli.Terminal.{
  FileSystem, Command, read_file, print, write_out, from_client, or_fail,
}

pub data HubCmd : Type 0 where
  hub_ping : HubCmd
  publish : Text → HubCmd
  get : Text → Option Text → HubCmd
  channel : Text → Option Text → Option Text → Bool → HubCmd

module _ {S Value : Type 0} (send : Request Value → Result ClientError Response) (json : Json) where
  unfoldable pub ping : Text → Command S (Unit {0})
  unfolding healthy tower_version concat
  ping url = do
    alive ← from_client (healthy send url)
    v ← from_client (tower_version send json url)
    print (
        line (
          url
          ∷ text " "
          ∷ em_dash
          ∷ text " "
          ∷ v.service
          ∷ text " v"
          ∷ v.version
          ∷ text " ("
          ∷ (if alive then text "healthy" else text "unhealthy")
          ∷ text ")"
          ∷ []))

module _ {S Value : Type 0} (send : Request Value → Result ClientError Response) (json : Json)
    (hex : Hex) (fs : FileSystem) (pretty : Tree → Text) where
  unfoldable pub run_hub : Text → HubCmd → Command S (Unit {0})
  unfolding ping read_file publish_artifact get_blob channel_target_tree from_str to_prefixed
      to_string concat write_out print_tree
  run_hub url hub_ping = ping send json url
  run_hub url (publish file) = do
    bytes ← read_file file
    aref ← from_client (publish_artifact send json hex url bytes)
    print (line (text "inner " ∷ to_prefixed hex aref.inner ∷ []))
    print (line (text "outer " ∷ to_prefixed hex aref.outer ∷ []))
    print (line (text "size  " ∷ to_string aref.size ∷ []))
  run_hub url (get hash out) = do
    outer ← lift (or_err (from_str hex hash) (invalid_hash hash))
    found ← from_client (get_blob send json hex url outer)
    bytes ← or_fail (not_found (to_prefixed hex outer)) found
    write_out fs out bytes
  run_hub url (channel name device architecture as_json) = do
    found ← from_client (channel_target_tree send json hex url name device architecture)
    tree ← or_fail (not_found name) found
    print (if as_json then line (pretty tree ∷ []) else print_tree hex tree)
