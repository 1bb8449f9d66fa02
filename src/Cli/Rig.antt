-- ===== src/Cli/Rig.antt =====
-- `run_rig` of crates/cli/src/main.rs, beside the arm of the campaign. The calls of the orchestrator
-- are its definitions, with the towers and the engine as parameters; `pretty` stands for
-- `serde_json::to_string_pretty` at each type that is written.
pub mod Dry
use sumo_provision.Base.{
  ℕ, Bool, true, false, Option, none, some, List, [], ◌∷◌, ◌++◌, flat_map, Text, text,
  if◌then◌else◌, Result, ok, err, or_err,
}
use sumo_provision.Base.Exec.{Exec, pure, fail, lift, ◌>>=◌, ◌>>◌}
use sumo_provision.Wire.Hash.{Hex}
use sumo_provision.Wire.Model.{ContentHash, ArtifactRef, Tree}
use sumo_provision.Wire.Diff.{diff}
use sumo_provision.Wire.Plan.{flash_plan}
use sumo_provision.Client.{ClientError}
use sumo_provision.Orchestrator.Model.{Error, ChannelTarget}
use sumo_provision.Orchestrator.Campaign.{Services}
use sumo_provision.Orchestrator.Preview.{ApplyPlan, apply_plan}
use sumo_provision.Orchestrator.Bundle.{FlashBundle, flash_bundle}
use sumo_provision.Orchestrator.Flash.{
  FlashEngine, FlashResult, ComponentFlashResult, flash_execute, flash_keystore,
}
use sumo_provision.Orchestrator.Flash.Verdict.{
  flash_reset, flash_commit, flash_rollback, flash_commit_trials, flash_rollback_trials,
}
use sumo_provision.Cli.{
  CliError, malformed, not_found, ChannelSel, sel_target, AuthArgs, rig_token, only_vec,
}
use sumo_provision.Cli.Show.{
  line, concat, print_tree, print_diff, print_plan, print_apply, print_bundle, print_flash_result,
}
use sumo_provision.Cli.Terminal.{
  Terminal, FileSystem, Command, read_file, print, from_client, from_orchestrator, or_fail, on_rig,
}

pub data RigCmd : Type 0 where
  state : Bool → RigCmd
  diff_release : Text → Bool → RigCmd
  diff_channel : Text → Option Text → Option Text → Bool → RigCmd
  apply : ChannelSel → Bool → RigCmd
  flash : ChannelSel → AuthArgs → Option Text → Bool → Bool → RigCmd
  commit : Text → Text → AuthArgs → RigCmd
  rollback : Text → Text → AuthArgs → RigCmd
  commit_trials : AuthArgs → RigCmd
  rollback_trials : AuthArgs → RigCmd
  reset : Text → Text → AuthArgs → RigCmd
  install_keystore : Text → AuthArgs → RigCmd

-- the writers and the reader of JSON
pub record Pretty : Type 0 where
  pub tree : Tree → Text
  pub plan : ApplyPlan → Text
  pub result : FlashResult → Text
  pub bundle : FlashBundle → Text
  pub read_tree : Text → Option Tree

-- what the commands ask of the software tower beside a campaign
pub record Hub : Type 0 where
  pub channel_target_tree : Text → Option Text → Option Text → Result ClientError (Option Tree)
  pub desired_tree : ChannelTarget → Result Error (Option Tree)
  pub artifact_exists : ContentHash → Result Error (Option ArtifactRef)
  pub build_envelope : Text → Text → Text → List (Text × ContentHash) → ℕ → Result Error Text
  pub hub_signer_pubkey : Result ClientError Text

module _ {S EcuState State Report : Type 0} (hex : Hex) (fs : FileSystem) (pretty : Pretty)
    (tenths : ℕ → ℕ → Text) (hub : Hub) (services : Services State Report)
    (engine : FlashEngine S EcuState) where
  open services use {read_rig_state, device_pubkey}

  -- `if json { println!(pretty) } else { print }`
  abbrev pub show : Bool → Text → Text → Command S (Unit {0})
  show as_json json plain = print (if as_json then line (json ∷ []) else plain)

  abbrev pub show_difference : Bool → Tree → Tree → Command S (Unit {0})
  show_difference plan observed desired = print (
      if plan
      then print_plan hex (flash_plan observed desired)
      else print_diff (diff observed desired))

  -- the dry half of `Flash`, and its wet half
  unfoldable pub rig_bundle : ChannelSel → AuthArgs → Option Text → Bool → Command S (Unit {0})
  unfolding apply_plan flash_bundle sel_target print_bundle concat
  rig_bundle sel auth only as_json = do
    bundle ← from_orchestrator (
        flash_bundle hub.build_envelope
          (apply_plan hub.artifact_exists read_rig_state hub.desired_tree (sel_target sel)
            (only_vec only))
          device_pubkey (sel_target sel) auth.device_id)
    show as_json (pretty.bundle bundle) (print_bundle hex tenths bundle)

  unfoldable pub rig_flash : ChannelSel → AuthArgs → Option Text → Bool → Command S (Unit {0})
  unfolding rig_token flash_execute sel_target print_flash_result concat
  rig_flash sel auth only as_json = do
    token ← lift (rig_token auth)
    result ←
        on_rig (
          flash_execute engine services (sel_target sel) auth.device_id (only_vec only) false token)
    show as_json (pretty.result result) (print_flash_result result true)

  -- the line below a verdict
  abbrev pub verdict_line : Text → Text → Text → Text
  verdict_line component what status =
      line (component ∷ text " " ∷ what ∷ (32 ∷ 226 ∷ 134 ∷ 146 ∷ 32 ∷ []) ∷ status ∷ [])

  abbrev pub keystore_line : ComponentFlashResult → Text
  keystore_line c = line (text "hsm keystore " ∷ (226 ∷ 134 ∷ 146 ∷ 32 ∷ []) ∷ c.state ∷ [])

  unfoldable pub install : Text → AuthArgs → Command S (Unit {0})
  unfolding rig_token read_file flash_keystore flat_map concat
  install suit auth = do
    token ← lift (rig_token auth)
    suit_bytes ← read_file suit
    trust_anchor ← from_client hub.hub_signer_pubkey
    result ← on_rig (flash_keystore engine suit_bytes trust_anchor token)
    print (flat_map keystore_line result.components)
    print (
        line (
          text "keystore installed "
          ∷ (226 ∷ 128 ∷ 148 ∷ [])
          ∷ text " the rig now trusts Tower 2's signer; flash firmware next."
          ∷ []))

  unfoldable pub run_rig : RigCmd → Command S (Unit {0})
  unfolding read_file print_tree print_plan print_diff flash_plan diff apply_plan sel_target
      print_apply rig_bundle rig_flash rig_token flash_commit flash_rollback flash_commit_trials
      flash_rollback_trials flash_reset install concat
  run_rig (state as_json) = do
    observed ← from_orchestrator read_rig_state
    show as_json (pretty.tree observed) (print_tree hex observed)
  run_rig (diff_release path plan) = do
    observed ← from_orchestrator read_rig_state
    content ← read_file path
    desired ← or_fail malformed (pretty.read_tree content)
    show_difference plan observed desired
  run_rig (diff_channel name device architecture plan) = do
    observed ← from_orchestrator read_rig_state
    found ← from_client (hub.channel_target_tree name device architecture)
    desired ← or_fail (not_found name) found
    show_difference plan observed desired
  run_rig (apply sel as_json) = do
    plan ←
        from_orchestrator
          (apply_plan hub.artifact_exists read_rig_state hub.desired_tree (sel_target sel) none)
    show as_json (pretty.plan plan) (print_apply hex tenths plan)
  run_rig (flash sel auth only execute as_json) =
      if execute then rig_flash sel auth only as_json else rig_bundle sel auth only as_json
  run_rig (commit component update auth) = do
    token ← lift (rig_token auth)
    status ← on_rig (flash_commit engine component update token)
    print (verdict_line component (text "committed") status)
  run_rig (rollback component update auth) = do
    token ← lift (rig_token auth)
    status ← on_rig (flash_rollback engine component update token)
    print (verdict_line component (text "rolled back") status)
  run_rig (commit_trials auth) = do
    token ← lift (rig_token auth)
    on_rig (flash_commit_trials engine token)
    print (line (text "node trials committed (the update session is the commit unit)" ∷ []))
  run_rig (rollback_trials auth) = do
    token ← lift (rig_token auth)
    on_rig (flash_rollback_trials engine token)
    print (line (text "node trials rolled back" ∷ []))
  run_rig (reset component update auth) = do
    token ← lift (rig_token auth)
    status ← on_rig (flash_reset engine component update token)
    print (verdict_line component (text "reset") status)
  run_rig (install_keystore suit auth) = install suit auth
