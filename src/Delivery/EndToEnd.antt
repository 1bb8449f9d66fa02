-- ===== src/Delivery/EndToEnd.antt =====
-- A campaign whose services are the towers, over the clients of crates/client/src/lib.rs.
use sumo_provision.Base.{
  ℕ, ◌≡◌, refl, Bool, true, false, Option, none, some, List, [], ◌++◌, Text, text, Text_ord, Result,
  ok, err, all, is_empty, join, Bool-cases, Option-cases, ◌⊎◌, inl, inr,
}
use sumo_provision.Map.{get}
use sumo_provision.Wire.Hash.{Hashing, to_prefixed}
use sumo_provision.Wire.Hash.Roundtrip.{from_str-to_prefixed}
use sumo_provision.Wire.Model.{ContentHash, IsDigest, Tree}
use sumo_provision.Wire.Assess.{is_converged, assess_tree}
use sumo_provision.Releases.Tables.{Db}
use sumo_provision.Releases.L1.{
  L1Request, L1Answer, signed, no_content, l1_target, reported_state, channel_target_l1,
}
use sumo_provision.Releases.L1.Converged.{is_bare, l1-converged}
use sumo_provision.Content.{Store, get_blob}
use sumo_provision.Content.Published.{IsStore}
use sumo_provision.Signer.{Offboard}
use sumo_provision.Signer.Opens.{Opens}
use sumo_provision.Server.{respond, respond_l1}
use sumo_provision.Client.{
  ClientError, l1_req, Request, Response, Json, get_request, post_request, fetch_bytes,
  fetch_optional, error_for_status, not_found_as_none, trim_end_slashes,
}
use sumo_provision.Client.Software as Software
use sumo_provision.Orchestrator.Model.{Error, only_matched_nothing, ChannelTarget, CampaignStep}
use sumo_provision.Orchestrator.Fanout.{Suit}
use sumo_provision.Orchestrator.Jobs.{l1_jobs}
use sumo_provision.Orchestrator.Jobs.Available.{is_ok}
use sumo_provision.Orchestrator.Campaign.{
  Services, l1_selector, request_l1, plan_of_l1, l1_flash_plan, campaign_execute,
}
use sumo_provision.Orchestrator.Campaign.Converged.{IsAtTarget, campaign-at_target}
use sumo_provision.Orchestrator.Remote.{fetch_ciphertext, device_pubkey, remote}
use sumo_provision.Delivery.Decoded.{Fetches}
use sumo_provision.Delivery.FannedOut.{l1-delivered}

-- the request of `l1_flash_plan`
unfoldable pub l1_request :
    {Value : Type 0} → ChannelTarget → Text → Text → Text → Text → Value → L1Request Value
l1_request target device architecture pubkey device_id state = elim target.vehicle_release_id [
  | none ↦ record {
    channel = some target.channel;
    vehicle_release_id = none;
    tree_hash = none;
    device = device;
    architecture = architecture;
    device_pubkey = pubkey;
    device_id = device_id;
    current_state = some state;
    seq = 1;
  }
  | some id ↦ record {
    channel = none;
    vehicle_release_id = some id;
    tree_hash = target.tree_hash;
    device = device;
    architecture = architecture;
    device_pubkey = pubkey;
    device_id = device_id;
    current_state = some state;
    seq = 1;
  }
]

is_ok-ok : {E A : Type 0} (r : Result E A) → is_ok r ≡ true → (a : A) × (r ≡ ok a)
is_ok-ok (ok a) h = (a, refl)
is_ok-ok (err e) h = cc

module _ (offboard : Offboard) (suit : Suit) (hashing : Hashing) (key : offboard.CoseKey)
    (clock : Option Text → Option ℕ) (store : Store) (s : Db) {Value : Type 0}
    (from_value : Value → Option Tree) (send : Request Value → Result ClientError Response)
    (json : Json) (hub_url : Text) where
  -- where the client of the tower sends its requests
  abbrev pub hub : Text
  hub = trim_end_slashes hub_url

  -- The requests that a campaign makes at `hub` reach the handlers of the tower.
  pub record Serves : Type 0 where
    pub blobs :
        (path : Text)
        → send (get_request (hub ++ text "/blobs/" ++ path) [])
          ≡ ok (respond (get_blob hashing path store))
    pub campaign :
        (req : L1Request Value)
        → send (post_request (hub ++ text "/channel-targets/l1") (l1_req req))
          ≡ ok (respond_l1 (channel_target_l1 offboard hashing key clock from_value s store req))
    pub anchor : Text
    pub pubkey :
        send (get_request (hub ++ text "/admin/signer/pubkey") []) ≡ ok (respond (ok anchor))

  get_blob-there :
      (outer : ContentHash) (bytes : Text)
      → IsDigest outer
      → get outer store.blobs ≡ some bytes
      → get_blob hashing (to_prefixed hashing.hex outer) store ≡ ok bytes
  unfolding get_blob
  get_blob-there outer bytes d there = rw ((from_str-to_prefixed hashing.hex outer d).0, there) refl

  serves-Fetches :
      Serves → Fetches offboard suit hashing store (fetch_ciphertext send json hashing.hex hub)
  unfolding fetch_ciphertext Software.get_blob fetch_optional respond not_found_as_none
      error_for_status
  serves-Fetches served outer bytes d there =
      rw (served.blobs (to_prefixed hashing.hex outer), get_blob-there outer bytes d there) refl

  module _ (ca_url : Text) {Report : Type 0} (read_rig_state : Result Error Tree)
      (to_value : Tree → Result Error Value)
      (run_campaign : Text → List CampaignStep → Bool → Result Error (List Report)) where
    abbrev pub services : Services Value Report
    services = remote send json hashing.hex suit hub_url ca_url read_rig_state to_value run_campaign

    -- The rig answers with a tree, the roster knows the device, and the target is narrowed.
    pub record Asks (target : ChannelTarget) (device_id : Text) : Type 0 where
      pub observed : Tree
      pub state : Value
      pub pubkey : Text
      pub device : Text
      pub architecture : Text
      pub rig_read : read_rig_state ≡ ok observed
      pub encoded : to_value observed ≡ ok state
      pub known :
          device_pubkey send json hashing.hex (trim_end_slashes ca_url) device_id ≡ ok pubkey
      pub narrowed : l1_selector target ≡ ok (device, architecture)

    abbrev pub asked :
        (target : ChannelTarget) (device_id : Text) → Asks target device_id → L1Request Value
    asked target device_id a = l1_request target a.device a.architecture a.pubkey device_id a.state

    -- the body of the answer
    abbrev body_of : L1Answer → Text
    body_of (signed l1) = l1
    body_of no_content = []

    posted-body :
        (req : L1Request Value) (answer : L1Answer)
        → Serves
        → channel_target_l1 offboard hashing key clock from_value s store req ≡ ok answer
        → fetch_bytes send (post_request (hub ++ text "/channel-targets/l1") (l1_req req))
          ≡ ok (body_of answer)
    unfolding fetch_bytes error_for_status respond_l1
    posted-body req (signed l1) served h = rw (served.campaign req, h) refl
    posted-body req no_content served h = rw (served.campaign req, h) refl

    request-body :
        (target : ChannelTarget) (device_id : Text) (a : Asks target device_id) (answer : L1Answer)
        → Serves
        → channel_target_l1 offboard hashing key clock from_value s store (asked target device_id a)
          ≡ ok answer
        → request_l1 services target a.device a.architecture a.pubkey device_id a.state
          ≡ ok (body_of answer)
    unfolding request_l1 l1_request Software.channel_target_l1 Software.vehicle_release_l1
    request-body target device_id a answer served h =
        elim (Option-cases target.vehicle_release_id) [
          | inl by_channel ↦
              rw (by_channel, request_l1)
                (rw (posted-body _ answer served (rw (by_channel, l1_request) at h)) refl)
          | inr (id, pinned) ↦
              rw (pinned, request_l1)
                (rw (posted-body _ answer served (rw (pinned, l1_request) at h)) refl)
        ]

    anchor_known : (served : Serves) → services.signer_pubkey ≡ ok served.anchor
    unfolding Software.signer_pubkey fetch_bytes error_for_status respond
    anchor_known served = rw served.pubkey refl

    -- When the rig answers, the roster knows the device, the target is narrowed to a device and an
    -- architecture, the SUIT library decodes what it builds, the stores are in order and the
    -- requests reach the handlers of the tower, then, if the tower signs a campaign for the
    -- request, the plan of the campaign is made, whatever the component filter is: every image
    -- decodes and every blob that is needed is found.
    pub plan-delivered :
        (target : ChannelTarget) (device_id : Text) (only : Option (List Text)) (l1 : Text)
        → Opens offboard suit
        → IsStore hashing store
        → Serves
        → (a : Asks target device_id)
        → channel_target_l1 offboard hashing key clock from_value s store (asked target device_id a)
          ≡ ok (signed l1)
        → is_ok (l1_flash_plan services target device_id only) ≡ true
    unfolding l1_flash_plan
    plan-delivered target device_id only l1 opens is served a h =
        rw
          (
            a.rig_read,
            a.encoded,
            a.known,
            a.narrowed,
            request-body target device_id a (signed l1) served h,
          )
          (delivered (Bool-cases (is_empty l1)))
      where
        delivered :
            ((is_empty l1 ≡ true) ⊎ (is_empty l1 ≡ false))
            → is_ok (plan_of_l1 services a.observed only l1) ≡ true
        delivered (inl nothing) = rw (nothing, plan_of_l1) refl
        delivered (inr body) =
            let (cs, decoded, built) =
              l1-delivered offboard suit hashing key clock store
                (fetch_ciphertext send json hashing.hex hub) from_value s (asked target device_id a)
                l1 opens is (serves-Fetches served) h a.observed only in
            let (jobs, same) =
              is_ok-ok (l1_jobs (fetch_ciphertext send json hashing.hex hub) cs a.observed only)
                built in
            rw (body, plan_of_l1) (rw (decoded, same, anchor_known served) refl)

    reported :
        (target : ChannelTarget) (device_id : Text) (a : Asks target device_id)
        → from_value a.state ≡ some a.observed
        → reported_state from_value (asked target device_id a) ≡ some a.observed
    unfolding reported_state l1_request
    reported target device_id a read = elim (Option-cases target.vehicle_release_id) [
      | inl by_channel ↦ rw (by_channel, l1_request) read
      | inr (id, pinned) ↦ rw (pinned, l1_request) read
    ]

    -- the tower has an answer without a body for such a vehicle
    converged-IsAtTarget :
        (target : ChannelTarget) (device_id : Text) {pubkey : Text} {tree : Tree}
        → Serves
        → (a : Asks target device_id) → from_value a.state ≡ some a.observed
        → l1_target offboard hashing s (asked target device_id a) ≡ ok (pubkey, tree)
        → is_converged (assess_tree a.observed tree) ≡ true
        → all is_bare tree.entities ≡ false
        → IsAtTarget services target device_id
    converged-IsAtTarget target device_id served a read target_found converged bare =
        let answered =
          l1-converged offboard hashing key clock from_value s store (asked target device_id a)
            target_found (reported target device_id a read) converged in
        record {
          observed = a.observed;
          state = a.state;
          pubkey = a.pubkey;
          selector = (a.device, a.architecture);
          rig_read = a.rig_read;
          encoded = a.encoded;
          known = a.known;
          narrowed = a.narrowed;
          no_content = request-body target device_id a no_content served (rw bare at answered);
        }

    -- When the requests reach the handlers of the tower and the report is read back as the
    -- observed tree, and the assessment of that tree against the resolved one is converged, a
    -- campaign without a component filter succeeds with no result, provided that some resolved
    -- entity is disabled or has parts.
    pub converged-run :
        (target : ChannelTarget) (device_id : Text) (no_commit : Bool) {pubkey : Text} {tree : Tree}
        → Serves
        → (a : Asks target device_id) → from_value a.state ≡ some a.observed
        → l1_target offboard hashing s (asked target device_id a) ≡ ok (pubkey, tree)
        → is_converged (assess_tree a.observed tree) ≡ true
        → all is_bare tree.entities ≡ false
        → campaign_execute services target device_id no_commit none ≡ ok []
    converged-run target device_id no_commit served a read target_found converged bare =
        (campaign-at_target services target device_id no_commit []
          (converged-IsAtTarget target device_id served a read target_found converged bare)).0

    -- When the requests reach the handlers of the tower and the report is read back as the
    -- observed tree, and the assessment of that tree against the resolved one is converged, a
    -- campaign with a component filter fails with the error for a filter that matches no
    -- component, whatever the filter names, provided that some resolved entity is disabled or has
    -- parts.
    pub converged-filtered :
        (target : ChannelTarget) (device_id : Text) (no_commit : Bool) (allow : List Text)
        {pubkey : Text} {tree : Tree}
        → Serves
        → (a : Asks target device_id) → from_value a.state ≡ some a.observed
        → l1_target offboard hashing s (asked target device_id a) ≡ ok (pubkey, tree)
        → is_converged (assess_tree a.observed tree) ≡ true
        → all is_bare tree.entities ≡ false
        → campaign_execute services target device_id no_commit (some allow)
          ≡ err (only_matched_nothing (join (text ", ") allow))
    converged-filtered target device_id no_commit allow served a read target_found converged bare =
        (campaign-at_target services target device_id no_commit allow
          (converged-IsAtTarget target device_id served a read target_found converged bare)).1
