-- ===== src/Orchestrator/Flash/Guarded.antt =====
-- What a flash does to the rig before the guard of the engine has accepted the plan.
use sumo_provision.Base.{
  ◌≡◌, refl, sym, ap, ◌∙◌, ◌⊎◌, inl, inr, Bool, false, Bool-cases, Option, List, Text, is_empty,
  Result, ok, err,
}
use sumo_provision.Base.Exec.{Exec, continue}
use sumo_provision.Orchestrator.Model.{Error, ChannelTarget, FlashJob}
use sumo_provision.Orchestrator.Campaign.{Services, RigPlan, l1_flash_plan}
use sumo_provision.Orchestrator.Token.{RigToken}
use sumo_provision.Orchestrator.Flash.{
  FlashEngine, FlashResult, EngineConfig, drive, flash_planned, flash_execute,
}

module _ {S EcuState : Type 0} (engine : FlashEngine S EcuState) where
  open engine use {guard}

  -- The guard reads the capabilities of the components, and changes nothing.
  abbrev pub GuardReads : Type 0
  GuardReads = (config : EngineConfig) (jobs : List FlashJob) (s : S) → (guard config jobs s).1 ≡ s

  abbrev pub config_of : Bool → RigToken → RigPlan → EngineConfig
  config_of reboot token plan = record {
    token = token;
    trust_anchor = plan.trust_anchor;
    force_ecu_reset = reboot;
  }

  -- The plan could be built, has jobs, and the guard accepted it in the state that the rig was in.
  abbrev pub IsAccepted : Result Error RigPlan → Bool → RigToken → S → Type 0
  IsAccepted planned reboot token s =
      (plan : RigPlan) × (planned ≡ ok plan)
      × (is_empty plan.jobs ≡ false)
      × ((guard (config_of reboot token plan) plan.jobs s).0 ≡ ok tt)

  drive-guarded :
      (target : ChannelTarget) (device_id : Text) (config : EngineConfig) (jobs : List FlashJob)
      (s : S)
      → GuardReads
      → ((drive engine target device_id config jobs s).1 ≡ s) ⊎ ((guard config jobs s).0 ≡ ok tt)
  unfolding drive
  drive-guarded target device_id config jobs s reads = at _ (guard config jobs s) refl
    where
      at :
          (rest : Unit {0} → Exec S Error FlashResult) (r : Result Error (Unit {0}) × S)
          → guard config jobs s ≡ r
          → ((continue r.0 rest r.1).1 ≡ s) ⊎ (r.0 ≡ ok tt)
      at rest (ok tt, s') e = inr refl
      at rest (err e', s') e =
          inl (ap (λ (r : Result Error (Unit {0}) × S). r.1) (sym e) ∙ reads config jobs s)

  plan-guarded :
      (target : ChannelTarget) (device_id : Text) (reboot : Bool) (token : RigToken)
      (plan : RigPlan) (s : S)
      → GuardReads
      → ((flash_planned engine target device_id reboot token plan s).1 ≡ s)
        ⊎ IsAccepted (ok plan) reboot token s
  unfolding flash_planned
  plan-guarded target device_id reboot token plan s reads = elim (Bool-cases (is_empty plan.jobs)) [
    | inl none_left ↦ inl (rw none_left refl)
    | inr some_left ↦
        elim (drive-guarded target device_id (config_of reboot token plan) plan.jobs s reads) [
          | inl same ↦ inl (rw some_left same)
          | inr accepted ↦ inr (plan, refl, some_left, accepted)
        ]
  ]

  -- If the guard of the engine changes nothing, a flash leaves the rig as it is, or its plan could
  -- be built, has jobs, and was accepted by the guard in the state that the rig was in.
  pub flash-guarded :
      {State Report : Type 0} (services : Services State Report) (target : ChannelTarget)
      (device_id : Text) (only : Option (List Text)) (reboot : Bool) (token : RigToken) (s : S)
      → GuardReads
      → ((flash_execute engine services target device_id only reboot token s).1 ≡ s)
        ⊎ IsAccepted (l1_flash_plan services target device_id only) reboot token s
  unfolding flash_execute
  flash-guarded services target device_id only reboot token s reads =
      at (l1_flash_plan services target device_id only)
    where
      at :
          (planned : Result Error RigPlan)
          → ((continue planned (flash_planned engine target device_id reboot token) s).1 ≡ s)
            ⊎ IsAccepted planned reboot token s
      at (ok plan) = plan-guarded target device_id reboot token plan s reads
      at (err e) = inl refl
