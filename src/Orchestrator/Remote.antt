-- ===== src/Orchestrator/Remote.antt =====
-- The services of a campaign as crates/orchestrator/src/lib.rs gets them: from the towers, through
-- the clients of crates/client/src/lib.rs. The rig and the engine stay parameters.
use sumo_provision.Base.{Bool, some, List, Text, Result, ◌>>=◌, ok_or, or_err}
use sumo_provision.Wire.Hash.{Hex, to_prefixed}
use sumo_provision.Wire.Model.{ContentHash, Tree}
use sumo_provision.Client.{ClientError, Request, Response, Json, trim_end_slashes}
use sumo_provision.Client.Software.{get_blob, channel_target_l1, vehicle_release_l1, signer_pubkey}
use sumo_provision.Client.Identity.{get_device}
use sumo_provision.Orchestrator.Model.{
  Error, client, payload_missing, device_not_found, device_no_pubkey, CampaignStep,
}
use sumo_provision.Orchestrator.Fanout.{Suit, fanout_l1}
use sumo_provision.Orchestrator.Campaign.{Services}

module _ {Value : Type 0} (send : Request Value → Result ClientError Response) (json : Json)
    (hex : Hex) where
  -- `impl BlobSource for SoftwareClient`
  unfoldable pub fetch_ciphertext : Text → ContentHash → Result Error Text
  unfolding get_blob to_prefixed
  fetch_ciphertext hub outer = do
    found ← or_err (get_blob send json hex hub outer) client
    ok_or found (payload_missing (to_prefixed hex outer))

  unfoldable pub device_pubkey : Text → Text → Result Error Text
  unfolding get_device
  device_pubkey ca device_id = do
    found ← or_err (get_device send json ca device_id) client
    device ← ok_or found (device_not_found device_id)
    ok_or device.pubkey (device_no_pubkey device_id)

  -- what `l1_flash_plan` and `campaign_execute` call, with the clients that `SoftwareClient::new` and
  -- `IdentityClient::new` make of the urls of the towers
  abbrev pub remote :
      {Report : Type 0}
      → Suit
      → Text
      → Text
      → Result Error Tree
      → (Tree → Result Error Value)
      → (Text → List CampaignStep → Bool → Result Error (List Report))
      → Services Value Report
  remote suit hub_url ca_url read_rig_state to_value run_campaign = record {
    read_rig_state = read_rig_state;
    to_value = to_value;
    device_pubkey = device_pubkey (trim_end_slashes ca_url);
    vehicle_release_l1 = λ id tree_hash device architecture pubkey device_id state.
        or_err
          (vehicle_release_l1 send json hex (trim_end_slashes hub_url) id tree_hash device
            architecture pubkey device_id (some state) 1)
          client;
    channel_target_l1 = λ channel device architecture pubkey device_id state.
        or_err
          (channel_target_l1 send json hex (trim_end_slashes hub_url) channel device architecture
            pubkey device_id (some state) 1)
          client;
    fanout_l1 = fanout_l1 suit hex;
    fetch_ciphertext = fetch_ciphertext (trim_end_slashes hub_url);
    signer_pubkey = or_err (signer_pubkey send json hex (trim_end_slashes hub_url)) client;
    run_campaign = run_campaign;
  }
