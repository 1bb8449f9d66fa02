-- ===== src/Client/Software.antt =====
-- `SoftwareClient` of crates/client/src/lib.rs, for a tower at `base`.
use sumo_provision.Base.{
  ℕ, Option, none, some, List, [], ◌∷◌, ◌++◌, map, Text, text, to_string, Result,
}
use sumo_provision.Wire.Hash.{Hex, to_prefixed}
use sumo_provision.Wire.Model.{ContentHash, ArtifactRef, Tree}
use sumo_provision.Signer.{NewEnvelopePart}
use sumo_provision.Client.{
  ClientError, bytes, envelope_req, l1_req, Request, Response, Json, get_request, post_request,
  fetch_bytes, fetch_json, fetch_optional, fetch_optional_json,
}

-- the optional entries of a query
abbrev pub query_entry : Text → Option Text → List (Text × Text)
query_entry name none = []
query_entry name (some value) = (name, value) ∷ []

-- `EnvelopePartReq`
abbrev pub envelope_part_req : Text × ContentHash → NewEnvelopePart
envelope_part_req (id, content) = record { id = id; content = content }

module _ {Value : Type 0} (send : Request Value → Result ClientError Response) (json : Json)
    (hex : Hex) (base : Text) where
  unfoldable pub publish_artifact : Text → Result ClientError ArtifactRef
  unfolding fetch_json
  publish_artifact plaintext =
      fetch_json send json.artifact_ref
        (post_request (base ++ text "/admin/artifacts") (bytes plaintext))

  unfoldable pub get_blob : ContentHash → Result ClientError (Option Text)
  unfolding fetch_optional to_prefixed
  get_blob outer =
      fetch_optional send (get_request (base ++ text "/blobs/" ++ to_prefixed hex outer) [])

  unfoldable pub artifact_exists : ContentHash → Result ClientError (Option ArtifactRef)
  unfolding fetch_optional_json to_prefixed
  artifact_exists inner =
      fetch_optional_json send json.artifact_ref
        (get_request (base ++ text "/admin/artifacts/" ++ to_prefixed hex inner) [])

  unfoldable pub channel_target_tree :
      Text → Option Text → Option Text → Result ClientError (Option Tree)
  unfolding fetch_optional_json
  channel_target_tree channel device architecture = fetch_optional_json send json.tree (
      get_request (base ++ text "/channel-targets/tree") (
        (text "channel", channel)
        ∷ (query_entry (text "device") device ++ query_entry (text "architecture") architecture)))

  unfoldable pub channel_tree : Text → Result ClientError (Option Tree)
  unfolding channel_target_tree
  channel_tree name = channel_target_tree name none none

  unfoldable pub vehicle_release_tree : ℕ → Option Text → Result ClientError (Option Tree)
  unfolding fetch_optional_json to_string
  vehicle_release_tree vehicle_release_id tree_hash = fetch_optional_json send json.tree (
      get_request (base ++ text "/channel-targets/tree") (
        (text "vehicle_release_id", to_string vehicle_release_id)
        ∷ query_entry (text "tree_hash") tree_hash))

  unfoldable pub request_envelope :
      Text → Text → Text → List (Text × ContentHash) → ℕ → Result ClientError Text
  unfolding fetch_bytes
  request_envelope device_pubkey device_id component parts seq = fetch_bytes send (
      post_request (base ++ text "/admin/envelope") (
        envelope_req (record {
          device_pubkey = device_pubkey;
          device_id = device_id;
          component = component;
          parts = map envelope_part_req parts;
          seq = seq;
        })))

  unfoldable pub channel_target_l1 :
      Text → Text → Text → Text → Text → Option Value → ℕ → Result ClientError Text
  unfolding fetch_bytes
  channel_target_l1 channel device architecture device_pubkey device_id current_state seq =
      fetch_bytes send (
        post_request (base ++ text "/channel-targets/l1") (
          l1_req (record {
            channel = some channel;
            vehicle_release_id = none;
            tree_hash = none;
            device = device;
            architecture = architecture;
            device_pubkey = device_pubkey;
            device_id = device_id;
            current_state = current_state;
            seq = seq;
          })))

  unfoldable pub vehicle_release_l1 :
      ℕ → Option Text → Text → Text → Text → Text → Option Value → ℕ → Result ClientError Text
  unfolding fetch_bytes
  vehicle_release_l1 id tree_hash device architecture device_pubkey device_id current_state seq =
      fetch_bytes send (
        post_request (base ++ text "/channel-targets/l1") (
          l1_req (record {
            channel = none;
            vehicle_release_id = some id;
            tree_hash = tree_hash;
            device = device;
            architecture = architecture;
            device_pubkey = device_pubkey;
            device_id = device_id;
            current_state = current_state;
            seq = seq;
          })))

  unfoldable pub signer_pubkey : Result ClientError Text
  unfolding fetch_bytes
  signer_pubkey = fetch_bytes send (get_request (base ++ text "/admin/signer/pubkey") [])
