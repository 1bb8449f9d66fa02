-- ===== src/Tests/CampaignRuns.antt =====
-- The orchestrator's plan, campaign and token on concrete inputs.
use sumo_provision.Base.{
  ℕ, ◌≡◌, refl, true, not, ◌&&◌, none, some, List, [], ◌∷◌, ◌++◌, flat_map, filter, all, is_empty,
  Text, Text_ord, text, text_eq, contains, any, Result, ok, All,
}
use sumo_provision.Map.{get}
use sumo_provision.Wire.Model.{ContentHash}
use sumo_provision.Wire.Hash.{strip_prefix, from_str, hex_part, to_prefixed}
use sumo_provision.Releases.Partition.{entity_agreed}
use sumo_provision.Orchestrator.Model.{
  Error, ChannelTarget, L1Part, L1Component, FlashJob, CampaignStep,
}
use sumo_provision.Orchestrator.Fanout.{
  Suit, fanout_l1, bare_key, decode_components, decode_component, decode_parts, decode_part,
  part_count, part_id, digest_of,
}
use sumo_provision.Orchestrator.Jobs.{
  component_unchanged, part_present, selected, fetch_payloads, job_payloads, push_job, l1_jobs,
}
use sumo_provision.Orchestrator.Jobs.Made.{AreJobs, l1_jobs-AreJobs}
use sumo_provision.Orchestrator.Jobs.Agreement.{l1_component, unchanged-agreed}
use sumo_provision.Orchestrator.Campaign.{is_singleshot, Services, campaign_steps}
use sumo_provision.Orchestrator.Campaign.Steps.{IsUnmixed, ResetsLast, campaign_steps-IsUnmixed}
use sumo_provision.Orchestrator.Token.{mint, Answers, token, cached_or_mint, remint}
use sumo_provision.Orchestrator.Token.Fresh.{IsFresh, token-IsFresh}
use sumo_provision.Tests.Samples.{hex, image, rig, host, encode, decode, digit, value}

-- a store that has every blob
abbrev pub fetch : ContentHash → Result Error Text
fetch outer = ok (1 ∷ 2 ∷ [])

abbrev pub l1_part : Text → ℕ → L1Part
l1_part id n = record { part = id; outer = image 9; inner = some (image n) }

-- one component that the vehicle carries, one that changed, one that it does not advertise
abbrev pub campaign : List L1Component
campaign =
    record { component = text "host"; envelope = 5 ∷ []; parts = l1_part (text "os") 1 ∷ [] }
    ∷ record { component = text "rt"; envelope = 6 ∷ []; parts = l1_part (text "rtos") 4 ∷ [] }
    ∷ record { component = text "vm"; envelope = 7 ∷ []; parts = l1_part (text "os") 3 ∷ [] }
    ∷ []

abbrev pub host_job : FlashJob
host_job = record { component_id = text "host"; envelope = 5 ∷ []; payloads = [] }

abbrev pub rt_job : FlashJob
rt_job = record {
  component_id = text "rt";
  envelope = 6 ∷ [];
  payloads = record { uri = text "#rtos"; source = 1 ∷ 2 ∷ [] } ∷ [];
}

built : l1_jobs fetch campaign rig none ≡ ok (host_job ∷ rt_job ∷ [])
unfolding l1_jobs push_job job_payloads fetch_payloads selected component_unchanged part_present get
    text_eq all any is_empty contains
built = refl

l1_jobs-AreJobs_example : AreJobs fetch rig none campaign (host_job ∷ rt_job ∷ [])
l1_jobs-AreJobs_example = l1_jobs-AreJobs fetch rig none campaign built

unchanged-agreed_example :
    component_unchanged (l1_component (λ h. h) (5 ∷ []) (text "host") (host 1)) rig
    ≡ (not (is_empty (host 1).parts) && entity_agreed rig (text "host") (host 1))
unchanged-agreed_example = unchanged-agreed (λ h. h) (5 ∷ []) (text "host") (host 1) rig

campaign_steps-IsUnmixed_example :
    All (IsUnmixed rig) (campaign_steps rig (host_job ∷ rt_job ∷ []))
    × ResetsLast rig (campaign_steps rig (host_job ∷ rt_job ∷ []))
    × (flat_map (λ (step : CampaignStep). step.jobs) (campaign_steps rig (host_job ∷ rt_job ∷ []))
        ≡ filter (is_singleshot rig) (host_job ∷ rt_job ∷ [])
          ++ filter (λ job. not (is_singleshot rig job)) (host_job ∷ rt_job ∷ []))
campaign_steps-IsUnmixed_example = campaign_steps-IsUnmixed rig (host_job ∷ rt_job ∷ [])

-- the towers of a vehicle that is at its target
abbrev pub services : Services (Unit {0}) FlashJob
services = record {
  read_rig_state = ok rig;
  to_value = λ tree. ok tt;
  device_pubkey = λ id. ok (8 ∷ []);
  vehicle_release_l1 = λ id guard device architecture pubkey device_id state. ok [];
  channel_target_l1 = λ channel device architecture pubkey device_id state. ok [];
  fanout_l1 = λ l1. ok campaign;
  fetch_ciphertext = fetch;
  signer_pubkey = ok (9 ∷ []);
  run_campaign = λ anchor steps no_commit. ok (flat_map (λ (step : CampaignStep). step.jobs) steps);
}

abbrev pub target : ChannelTarget
target = record {
  channel = text "stable";
  device = some (text "car");
  architecture = some (text "arm");
  vehicle_release_id = none;
  tree_hash = none;
}

-- a minter whose tokens spell the boot that they are for
abbrev answers : Answers
answers = record {
  boot_id = ok (text "b2");
  ecu_id = ok (text "e");
  mint_token = λ ecu boot ttl. ok (text "token:" ++ boot);
}

abbrev Spells : Text → Text → Type 0
Spells boot tok = tok ≡ text "token:" ++ boot

token-IsFresh_example :
    IsFresh Spells (text "b2") (token (mint none) answers (some (text "b1", text "token:b1")))
token-IsFresh_example =
    token-IsFresh Spells answers none (text "b2") (some (text "b1", text "token:b1")) refl
      (λ ecu boot ttl. refl) refl

first_token :
    token (mint none) answers none ≡ (ok (text "token:b2"), some (text "b2", text "token:b2"))
unfolding token cached_or_mint remint
first_token = refl

-- an envelope is a list of images, or the digest and address of one part
abbrev suit : Suit
suit = record {
  Envelope = Text;
  decode_envelope = λ bytes. some bytes;
  integrated_payloads = λ envelope. (text "#host", 5 ∷ []) ∷ [];
  disable_target = λ envelope. none;
  has_firmware = λ envelope. true;
  component_count = λ envelope. 1;
  component_id = λ envelope i. some (text "host" ∷ text "os" ∷ []);
  uri = λ envelope i. some (to_prefixed hex (image 9));
  image_digest = λ envelope i. some (image 1);
  from_utf8_lossy = λ bytes. bytes;
}

abbrev fanned : List L1Component
fanned =
    record { component = text "host"; envelope = 5 ∷ []; parts = l1_part (text "os") 1 ∷ [] } ∷ []

fanned_out : fanout_l1 suit hex (4 ∷ []) ≡ ok fanned
unfolding fanout_l1 decode_components decode_component decode_parts decode_part part_count part_id
    digest_of bare_key strip_prefix from_str hex_part to_prefixed encode decode digit value
fanned_out = refl
