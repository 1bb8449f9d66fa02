-- ===== src/Orchestrator/Flash/Verdict.antt =====
-- The verdicts of crates/orchestrator/src/lib.rs: `flash_reset`, `flash_commit`, `flash_rollback`,
-- `flash_commit_all`, `flash_rollback_all`, `flash_commit_trials` and `flash_rollback_trials`.
use sumo_provision.Base.{Bool, true, false, List, [], ◌∷◌, map, Text}
use sumo_provision.Base.Exec.{Exec, pure, ◌>>=◌}
use sumo_provision.Orchestrator.Model.{Error}
use sumo_provision.Orchestrator.Token.{RigToken}
use sumo_provision.Orchestrator.Flash.{EcuStatus, EngineConfig, FlashEngine, ecu_status}

-- `verdict_engine`
abbrev pub verdict_config : RigToken → Bool → EngineConfig
verdict_config token force_ecu_reset = record {
  token = token;
  trust_anchor = [];
  force_ecu_reset = force_ecu_reset;
}

module _ {S EcuState : Type 0} (engine : FlashEngine S EcuState) where
  open engine use {
    staged, activated, show_state, reset_all, commit_all, rollback_all, commit_node_trials,
    rollback_node_trials,
  }

  -- `ecus[0]`: the engine is lent a slice of one status, whose length it cannot change
  abbrev first_state : List (EcuStatus EcuState) → Text
  first_state [] = []
  first_state (s ∷ ecus) = show_state s.state

  -- a verdict on one component
  unfoldable pub verdict_one :
      (EngineConfig → List (EcuStatus EcuState) → Exec S Error (List (EcuStatus EcuState)))
      → EcuState
      → Text
      → Text
      → RigToken
      → Exec S Error Text
  unfolding ecu_status
  verdict_one verdict state component update_id token = do
    ecus ← verdict (verdict_config token false) (ecu_status engine component update_id state ∷ [])
    pure (first_state ecus)

  unfoldable pub flash_reset : Text → Text → RigToken → Exec S Error Text
  unfolding verdict_one
  flash_reset = verdict_one reset_all staged

  unfoldable pub flash_commit : Text → Text → RigToken → Exec S Error Text
  unfolding verdict_one
  flash_commit = verdict_one commit_all activated

  unfoldable pub flash_rollback : Text → Text → RigToken → Exec S Error Text
  unfolding verdict_one
  flash_rollback = verdict_one rollback_all activated

  abbrev pub attached : List (Text × Text) → List (EcuStatus EcuState)
  attached = map (λ (u : Text × Text). ecu_status engine u.0 u.1 activated)

  abbrev pub final_states : List (EcuStatus EcuState) → List (Text × Text)
  final_states = map (λ (s : EcuStatus EcuState). (s.component_id, show_state s.state))

  -- a verdict on the components of a step
  unfoldable pub verdict_all :
      (EngineConfig → List (EcuStatus EcuState) → Exec S Error (List (EcuStatus EcuState)))
      → List (Text × Text)
      → RigToken
      → Exec S Error (List (Text × Text))
  unfolding ecu_status
  verdict_all verdict updates token = do
    ecus ← verdict (verdict_config token true) (attached updates)
    pure (final_states ecus)

  unfoldable pub flash_commit_all :
      List (Text × Text) → RigToken → Exec S Error (List (Text × Text))
  unfolding verdict_all
  flash_commit_all = verdict_all commit_all

  unfoldable pub flash_rollback_all :
      List (Text × Text) → RigToken → Exec S Error (List (Text × Text))
  unfolding verdict_all
  flash_rollback_all = verdict_all rollback_all

  unfoldable pub flash_commit_trials : RigToken → Exec S Error (Unit {0})
  flash_commit_trials token = commit_node_trials (verdict_config token true)

  unfoldable pub flash_rollback_trials : RigToken → Exec S Error (Unit {0})
  flash_rollback_trials token = rollback_node_trials (verdict_config token true)
