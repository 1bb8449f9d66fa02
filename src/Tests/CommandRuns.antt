-- ===== src/Tests/CommandRuns.antt =====
-- The commands on concrete inputs.
use Prim.Native.Nat.{◌^◌}
use sumo_provision.Base.{
  ℕ, suc, ◌≤◌, ◌<◌, ◌≡◌, ◌⊎◌, refl, arith, true, false, none, some, [], ◌∷◌, map, Text, Text_ord,
  text, Result, ok, err,
}
use sumo_provision.Map.{get}
use sumo_provision.Client.{ClientError, http, Request, Response, Json}
use sumo_provision.Orchestrator.Campaign.{campaign_steps}
use sumo_provision.Cli.Size.{scale_up, human_size, scale_up-ends}
use sumo_provision.Cli.Preview.{shipping, preview_steps}
use sumo_provision.Cli.Preview.Steps.{announced, executed, preview-steps}
use sumo_provision.Cli.Terminal.{Terminal, FileSystem}
use sumo_provision.Cli.Vhsm.Cwt.{Cwt}
use sumo_provision.Cli.Ca.{Keys, bootstrap_token, run_ca}
use sumo_provision.Cli.Ca.Bootstrap.{read_state, bootstrap-written}
use sumo_provision.Cli.Rig.{Pretty, Hub, flash, run_rig}
use sumo_provision.Cli.Rig.Dry.{Keeps, dry-Keeps}
use sumo_provision.Tests.Samples.{hex, hashing, rig}
use sumo_provision.Tests.CampaignRuns.{host_job}
use sumo_provision.Tests.CliRuns.{no_blob, target, newer, plan, previewed}
use sumo_provision.Tests.FlashRuns.{engine_of_one, serving, build}

scale_up-ends_example :
    (scale_up 5 3_000_000 0 ≤ 4)
    × ((scale_up 5 3_000_000 0 ≡ 0) ⊎ (1024 ^ scale_up 5 3_000_000 0 ≤ 3_000_000))
    × ((scale_up 5 3_000_000 0 ≡ 4) ⊎ (3_000_000 < 1024 ^ suc (scale_up 5 3_000_000 0)))
scale_up-ends_example = scale_up-ends 5 3_000_000 (omega arith)

megabytes : human_size (λ bytes unit. text "2.9") 3_000_000 ≡ text "2.9 MB"
unfolding human_size
megabytes = refl

preview-steps_example :
    map announced (preview_steps (shipping plan none))
    ≡ map executed (campaign_steps rig (host_job ∷ []))
unfolding shipping
preview-steps_example =
    preview-steps no_blob rig (λ t. ok (some newer)) target none (host_job ∷ []) refl previewed refl

abbrev fs : FileSystem
fs = record { writable = λ path. true; is_utf8 = λ bytes. true }

abbrev silent : Request (Unit {0}) → Result ClientError Response
silent request = err http

abbrev json : Json
json = record {
  version = λ s. none;
  artifact_ref = λ s. none;
  tree = λ s. none;
  device = λ s. none;
  devices = λ s. none;
  enroll_response = λ s. none;
  trust_bundle = λ s. none;
  minted_token = λ s. none;
}

abbrev cwt : Cwt (Unit {0}) (Unit {0})
cwt = record {
  of_u64 = λ n. tt;
  one = tt;
  claim_iss = tt;
  claim_sub = tt;
  claim_aud = tt;
  claim_exp = tt;
  claim_nbf = tt;
  claim_iat = tt;
  claim_cti = tt;
  claim_cnf = tt;
  key_crv = tt;
  key_x = tt;
  key_y = tt;
  ec2 = tt;
  es256 = tt;
  p_256 = tt;
  vhsm_audience = text "vhsm";
  to_cbor_value = λ key. none;
  into_writer = λ v. none;
  sign1 = λ key payload. none;
}

abbrev keys : Keys (Unit {0})
keys = record {
  signing_key = λ bytes. none;
  public_xy = λ bytes. none;
  now_unix = 0;
  random_32 = 1 ∷ 2 ∷ [];
  random_16 = [];
}

abbrev terminal : Terminal ℕ
terminal = record { files = []; stdout = []; rig = 7 }

bootstrap-written_example :
    (after : Terminal ℕ) × (yaml : Text) × (run_ca silent json hashing fs cwt keys
        (text "http://ca")
        (bootstrap_token (text "vm\"1") (text "t") (some (text "s")) true)
        terminal
      ≡ (ok tt, after))
    × (get (text "t") after.files ≡ some keys.random_32)
    × (get (text "s") after.files ≡ some yaml)
    × (read_state true yaml
        ≡ some (text "vm\"1", hashing.hex.encode (hashing.sha256 keys.random_32), false))
bootstrap-written_example =
    bootstrap-written silent json hashing fs cwt keys (text "http://ca") (text "vm\"1") (text "t")
      (text "s") true terminal (refl, (refl, (refl, (refl, tt)))) (λ same. ground (arith, same))
      refl refl

abbrev pretty : Pretty
pretty = record {
  tree = λ t. [];
  plan = λ p. [];
  result = λ r. [];
  bundle = λ b. [];
  read_tree = λ s. none;
}

abbrev hub : Hub
hub = record {
  channel_target_tree = λ name device architecture. ok none;
  desired_tree = λ t. ok (some newer);
  artifact_exists = no_blob;
  build_envelope = build;
  hub_signer_pubkey = ok [];
}

dry-Keeps_example : Keeps (
    run_rig hex fs pretty
      (λ bytes unit. [])
      hub
      serving
      engine_of_one
      (flash
        (record { channel = text "stable"; device = none; architecture = none })
        (record {
          device_id = text "car-1";
          token = none;
          minter_url = none;
          operator_token = none;
        })
        none
        false
        false))
dry-Keeps_example =
    dry-Keeps hex fs pretty (λ bytes unit. []) hub serving engine_of_one
      (flash (record { channel = text "stable"; device = none; architecture = none })
        (record {
          device_id = text "car-1";
          token = none;
          minter_url = none;
          operator_token = none;
        })
        none false false)
      refl
