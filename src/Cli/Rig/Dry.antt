-- ===== src/Cli/Rig/Dry.antt =====
-- The commands that only look at the rig.
use sumo_provision.Base.{arith, ℕ, ◌≡◌, Bool, true, false, Text}
use sumo_provision.Wire.Hash.{Hex}
use sumo_provision.Orchestrator.Campaign.{Services}
use sumo_provision.Orchestrator.Flash.{FlashEngine}
use sumo_provision.Cli.Terminal.{Terminal, FileSystem, Command}
use sumo_provision.Cli.Rig.{
  RigCmd, state, diff_release, diff_channel, apply, flash, commit, rollback, commit_trials,
  rollback_trials, reset, install_keystore, Pretty, Hub, run_rig,
}

-- The commands that promise to change nothing.
abbrev pub is_dry : RigCmd → Bool
is_dry (state as_json) = true
is_dry (diff_release path plan) = true
is_dry (diff_channel name device architecture plan) = true
is_dry (apply sel as_json) = true
is_dry (flash sel auth only true as_json) = false
is_dry (flash sel auth only false as_json) = true
is_dry _ = false

module _ {S : Type 0} where
  -- A command that leaves the rig and the files as they are.
  abbrev pub Keeps : {A : Type 0} → Command S A → Type 0
  Keeps m = (t : Terminal S) → ((m t).1.rig ≡ t.rig) × ((m t).1.files ≡ t.files)

module _ {S EcuState State Report : Type 0} (hex : Hex) (fs : FileSystem) (pretty : Pretty)
    (tenths : ℕ → ℕ → Text) (hub : Hub) (services : Services State Report)
    (engine : FlashEngine S EcuState) where
  -- Whatever the tower, the rig and the flash engine answer, a command that is dry, that is the
  -- state, the diff, the preview, or the flash without its flag to execute, leaves the rig and the
  -- files as they are.
  pub dry-Keeps :
      (cmd : RigCmd)
      → is_dry cmd ≡ true
      → Keeps (run_rig hex fs pretty tenths hub services engine cmd)
  unfolding run_rig
  dry-Keeps (state as_json) h t = ground arith
  dry-Keeps (diff_release path plan) h t = ground arith
  dry-Keeps (diff_channel name device architecture plan) h t = ground arith
  dry-Keeps (apply sel as_json) h t = ground arith
  dry-Keeps (flash sel auth only true as_json) h t = cc
  dry-Keeps (flash sel auth only false as_json) h t = ground arith
  dry-Keeps (commit component update auth) h t = cc
  dry-Keeps (rollback component update auth) h t = cc
  dry-Keeps (commit_trials auth) h t = cc
  dry-Keeps (rollback_trials auth) h t = cc
  dry-Keeps (reset component update auth) h t = cc
  dry-Keeps (install_keystore suit auth) h t = cc
