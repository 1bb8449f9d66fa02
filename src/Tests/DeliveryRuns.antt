-- ===== src/Tests/DeliveryRuns.antt =====
-- From published content to the plan of a campaign, on concrete inputs.
use sumo_provision.Base.{
  ℕ, ◌≡◌, refl, true, false, Option, none, some, [], ◌∷◌, Text, text, text_eq, Text_ord, Text_eq,
  Result, ok, err, join, all, any, filter, flat_map, is_empty, trim, text_lt, option_eq, bool_eq,
  ℕ_eq, if◌then◌else◌,
}
use sumo_provision.Map.{get, insert, add, from_list}
use sumo_provision.Wire.Hash.{to_prefixed, from_str, strip_prefix}
use sumo_provision.Wire.Model.{Tree, entity_or_default}
use sumo_provision.Wire.Assess.{
  assess_tree, is_converged, outcome_of, actionable_set, is_new, is_drift, admin_differs,
  admin_state,
}
use sumo_provision.Wire.Diff.{diff, diff_parts, desired_change}
use sumo_provision.Releases.Tables.{Db}
use sumo_provision.Releases.Publish.{find}
use sumo_provision.Releases.L1.{L1Request, signed, l1_target, channel_target_l1}
use sumo_provision.Releases.Partition.{entity_agreed, parts_agreed}
use sumo_provision.Releases.L1.Converged.{is_bare}
use sumo_provision.Content.{
  Store, publish_stream, read_stream, open_stream, drain, push_chunk, emit, close_stream,
  store_stream, commit, put,
}
use sumo_provision.Content.Published.{IsStore}
use sumo_provision.Content.Again.{publish-IsStore}
use sumo_provision.Content.{get_blob}
use sumo_provision.Wire.Roster.{Device}
use sumo_provision.Client.{ClientError, l1_req, Request, Response, Json, trim_end_slashes}
use sumo_provision.Orchestrator.Model.{only_matched_nothing, ChannelTarget}
use sumo_provision.Orchestrator.Campaign.{l1_selector, l1_flash_plan, campaign_execute}
use sumo_provision.Orchestrator.Jobs.Available.{is_ok}
use sumo_provision.Orchestrator.Remote.{device_pubkey}
use sumo_provision.Delivery.EndToEnd.{
  l1_request, Serves, Asks, services, asked, plan-delivered, converged-run, converged-filtered,
}
use sumo_provision.Server.{respond, respond_l1}
use sumo_provision.Tests.Samples.{digest, host, hex, hashing, image, encode, decode, digit, value}
use sumo_provision.Tests.Codec.{offboard, suit, opens, sealed, seal, spec_quads, texts, pair_texts}
use sumo_provision.Tests.ContentRuns.{zstd, cipher, empty_store, empty_store-IsStore}
use sumo_provision.Tests.ChannelRuns.{stocked, release_tree}

-- the store after the content of the release was published
abbrev published : Store
published = (publish_stream zstd (cipher 4) hashing (ok (1 ∷ []) ∷ []) empty_store).1

published-IsStore : IsStore hashing published
published-IsStore =
    publish-IsStore hashing zstd (cipher 4) (ok (1 ∷ []) ∷ []) empty_store empty_store-IsStore

abbrev targeted : Db
targeted = record stocked {
  channels =
      record {
        channel = text "stable";
        device = text "car";
        architecture = text "arm";
        vehicle_release_id = 1;
        tree_hash = [];
        updated_at = 5;
      }
      ∷ [];
}

abbrev clock : Option Text → Option ℕ
clock what = some 1751800000

abbrev from_value : Tree → Option Tree
from_value tree = some tree

abbrev request : Tree → L1Request Tree
request state = record {
  channel = some (text "stable");
  vehicle_release_id = none;
  tree_hash = none;
  device = text "car";
  architecture = text "arm";
  device_pubkey = text " 08 ";
  device_id = text "car-1";
  current_state = some state;
  seq = 1;
}

found : l1_target offboard hashing targeted (request release_tree) ≡ ok (8 ∷ [], release_tree)
unfolding l1_target decode text_eq to_prefixed encode
found = refl

converged : is_converged (assess_tree release_tree release_tree) ≡ true
unfolding assess_tree outcome_of actionable_set is_new is_drift admin_differs admin_state diff
    diff_parts desired_change entity_or_default get insert add from_list text_lt text_eq option_eq
    bool_eq all any filter is_empty flat_map is_converged
converged = refl

-- the towers, behind the requests of a campaign
abbrev device : Device
device = record {
  id = text "car-1";
  model = none;
  status = text "enrolled";
  pubkey = some (text " 08 ");
  ecu_id = none;
}

abbrev json : Json
json = record {
  version = λ content. none;
  artifact_ref = λ content. none;
  tree = λ content. none;
  device = λ content. some device;
  devices = λ content. none;
  enroll_response = λ content. none;
  trust_bundle = λ content. none;
  minted_token = λ content. none;
}

abbrev tower_1 : Text → Response
tower_1 url = respond (ok (if text_eq url (text "/admin/signer/pubkey") then 9 ∷ [] else []))

unfoldable send : Request Tree → Result ClientError Response
unfolding strip_prefix
send request = elim request.body [
  | l1_req req ↦
      ok
        (respond_l1 (channel_target_l1 offboard hashing [] clock from_value targeted published req))
  | _ ↦ elim (strip_prefix (text "/blobs/") request.url) [
    | some path ↦ ok (respond (get_blob hashing path published))
    | none ↦ ok (tower_1 request.url)
  ]
]

tower_serves : Serves offboard suit hashing [] clock published targeted from_value send json []
unfolding send strip_prefix text_eq trim_end_slashes
tower_serves = record {
  blobs = λ path. refl;
  campaign = λ req. refl;
  anchor = 9 ∷ [];
  pubkey = refl;
}

abbrev target : ChannelTarget
target = record {
  channel = text "stable";
  device = some (text "car");
  architecture = some (text "arm");
  vehicle_release_id = none;
  tree_hash = none;
}

known :
    device_pubkey send json hex (trim_end_slashes (text "/ca/")) (text "car-1") ≡ ok (text " 08 ")
unfolding device_pubkey send respond text_eq trim_end_slashes
known = refl

narrowed : l1_selector target ≡ ok (text "car", text "arm")
unfolding l1_selector
narrowed = refl

abbrev asks :
    (observed : Tree)
    → Asks offboard suit hashing [] clock published targeted from_value send json []
        (text "/ca/")
        {Report = Unit {0}}
        (ok observed)
        (λ tree. ok tree)
        (λ anchor steps no_commit. ok [])
        target
        (text "car-1")
asks observed = record {
  observed = observed;
  state = observed;
  pubkey = text " 08 ";
  device = text "car";
  architecture = text "arm";
  rig_read = refl;
  encoded = refl;
  known = known;
  narrowed = narrowed;
}

not_bare : all is_bare release_tree.entities ≡ false
unfolding all is_empty
not_bare = refl

resolved :
    l1_target offboard hashing targeted (
      asked offboard suit hashing [] clock published targeted from_value send json []
        (text "/ca/")
        {Report = Unit {0}}
        (ok release_tree)
        (λ tree. ok tree)
        (λ anchor steps no_commit. ok [])
        target
        (text "car-1")
        (asks release_tree))
    ≡ ok (8 ∷ [], release_tree)
unfolding l1_target l1_request decode text_eq to_prefixed encode
resolved = refl

converged-run_example :
    campaign_execute
      (services offboard suit hashing [] clock published targeted from_value send json []
        (text "/ca/")
        {Report = Unit {0}}
        (ok release_tree)
        (λ tree. ok tree)
        (λ anchor steps no_commit. ok []))
      target
      (text "car-1")
      true
      none
    ≡ ok []
converged-run_example =
    converged-run offboard suit hashing [] clock published targeted from_value send json []
      (text "/ca/") (ok release_tree) (λ tree. ok tree) (λ anchor steps no_commit. ok []) target
      (text "car-1") true tower_serves (asks release_tree) refl resolved converged not_bare

converged-filtered_example :
    campaign_execute
      (services offboard suit hashing [] clock published targeted from_value send json []
        (text "/ca/")
        {Report = Unit {0}}
        (ok release_tree)
        (λ tree. ok tree)
        (λ anchor steps no_commit. ok []))
      target
      (text "car-1")
      true
      (some (text "host" ∷ []))
    ≡ err (only_matched_nothing (join (text ", ") (text "host" ∷ [])))
converged-filtered_example =
    converged-filtered offboard suit hashing [] clock published targeted from_value send json []
      (text "/ca/") (ok release_tree) (λ tree. ok tree) (λ anchor steps no_commit. ok []) target
      (text "car-1") true (text "host" ∷ []) tower_serves (asks release_tree) refl resolved
      converged not_bare

-- a vehicle with other content
abbrev outdated : Tree
outdated = record { entities = (text "host", host 9) ∷ [] }

abbrev body : Text
body =
    2
    ∷ sealed (
        pair_texts (
          (
            text "host",
            0
                ∷ sealed (
                    texts (
                      (text "host", text "os", to_prefixed hex (digest (25 ∷ 1 ∷ 4 ∷ [])), image 1)
                      ∷ [])),
          )
          ∷ []))

answered :
    channel_target_l1 offboard hashing [] clock from_value targeted published (
      asked offboard suit hashing [] clock published targeted from_value send json []
        (text "/ca/")
        {Report = Unit {0}}
        (ok outdated)
        (λ tree. ok tree)
        (λ anchor steps no_commit. ok [])
        target
        (text "car-1")
        (asks outdated))
    ≡ ok (signed body)
unfolding channel_target_l1 l1_request l1_target decode encode digit value text_eq to_prefixed
    from_str get insert publish_stream read_stream open_stream drain push_chunk emit close_stream
    store_stream commit put is_empty any all filter find trim sealed seal texts spec_quads option_eq
    bool_eq text_lt entity_agreed parts_agreed
answered = refl

plan-delivered_example :
    is_ok (
      l1_flash_plan
        (services offboard suit hashing [] clock published targeted from_value send json []
          (text "/ca/")
          {Report = Unit {0}}
          (ok outdated)
          (λ tree. ok tree)
          (λ anchor steps no_commit. ok []))
        target
        (text "car-1")
        (some (text "host" ∷ [])))
    ≡ true
plan-delivered_example =
    plan-delivered offboard suit hashing [] clock published targeted from_value send json []
      (text "/ca/") (ok outdated) (λ tree. ok tree) (λ anchor steps no_commit. ok []) target
      (text "car-1") (some (text "host" ∷ [])) body opens published-IsStore tower_serves
      (asks outdated) answered
