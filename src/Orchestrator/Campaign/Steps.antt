-- ===== src/Orchestrator/Campaign/Steps.antt =====
-- The steps of a campaign.
use sumo_provision.Base.{
  ◌≡◌, refl, ◌∙◌, ap, true, not, List, [], ◌∷◌, ◌++◌, map, flat_map, filter, is_empty, All, Bool,
  Bool-cases, Option, Option-cases, some, none, false, inl, inr, ◌⊎◌, Text_ord, arith, eq_self,
  Bool_eq, Option_eq,
}
use mathlib.Core.List.{append-nil}
use sumo_provision.Map.{get}
use sumo_provision.Wire.Model.{Entity, UpdateMode, Tree}
use sumo_provision.Orchestrator.Model.{FlashJob, CampaignStep}
use sumo_provision.Orchestrator.Campaign.{
  supports_rollback, is_singleshot, singleshot_step, banked_step, campaign_steps,
}

module _ (observed : Tree) where
  -- The vehicle reports of the component of the job that it supports no rollback.
  abbrev pub IsSingleshot : FlashJob → Type 0
  IsSingleshot job =
      (e : Entity) × (m : UpdateMode) × (get job.component_id observed.entities ≡ some e)
      × (e.update_mode ≡ some m)
      × (m.supports_rollback ≡ false)

  -- A step for one such component by itself that does not ask for the forced reset, or one for other
  -- components together that asks for it.
  abbrev pub IsUnmixed : CampaignStep → Type 0
  IsUnmixed step =
      ((step.force_ecu_reset ≡ false)
        × ((job : FlashJob) × (step.jobs ≡ job ∷ []) × IsSingleshot job))
      ⊎ ((step.force_ecu_reset ≡ true)
          × (is_empty step.jobs ≡ false)
          × All (λ job. ¬ IsSingleshot job) step.jobs)

  -- Only the last step may ask for the forced reset.
  abbrev pub ResetsLast : List CampaignStep → Type 0
  ResetsLast [] = Unit
  ResetsLast (step ∷ steps) = ((step.force_ecu_reset ≡ false) ⊎ (steps ≡ [])) × ResetsLast steps

  abbrev mode_rollback : Option UpdateMode → Option Bool
  mode_rollback none = none
  mode_rollback (some m) = some m.supports_rollback

  reported_mode :
      (o : Option UpdateMode)
      → mode_rollback o ≡ some false
      → (m : UpdateMode) × (o ≡ some m) × (m.supports_rollback ≡ false)
  reported_mode none h = cc
  reported_mode (some m) h = (m, refl, ground (arith, h))

  is_singleshot-test : (job : FlashJob) → is_singleshot observed job ≡ true → IsSingleshot job
  unfolding is_singleshot supports_rollback
  is_singleshot-test job h =
      let reads : supports_rollback observed job.component_id ≡ some false =
        (Option_eq.beq_iff (supports_rollback observed job.component_id) (some false)).0 h in
      elim (Option-cases (get job.component_id observed.entities)) [
        | inl unknown ↦ absurd (ground (arith, rw (supports_rollback, unknown) at reads))
        | inr (e, known) ↦
            let (m, given, only) =
              reported_mode e.update_mode (rw (supports_rollback, known) at reads) in
            (e, m, known, given, only)
      ]

  IsSingleshot-test : (job : FlashJob) → IsSingleshot job → is_singleshot observed job ≡ true
  unfolding is_singleshot supports_rollback
  IsSingleshot-test job (e, m, known, given, only) =
      rw (is_singleshot, supports_rollback, known, given, only) (eq_self (some false))

  banked_jobs :
      (jobs : List FlashJob)
      → All (λ job. ¬ IsSingleshot job) (filter (λ job. not (is_singleshot observed job)) jobs)
  unfolding filter
  banked_jobs [] = tt
  banked_jobs (j ∷ jobs) = elim (Bool-cases (is_singleshot observed j)) [
    | inl alone ↦ rw alone (banked_jobs jobs)
    | inr bank ↦
        rw bank
          ((λ alone. absurd (ground (arith, bank, IsSingleshot-test j alone))), banked_jobs jobs)
  ]

  IsUnmixed-banked :
      (banked : List FlashJob)
      → All (λ job. ¬ IsSingleshot job) banked
      → All IsUnmixed (banked_step banked)
  unfolding banked_step is_empty
  IsUnmixed-banked [] h = tt
  IsUnmixed-banked (j ∷ jobs) h = (inr (refl, refl, h), tt)

  IsUnmixed-steps :
      (jobs : List FlashJob) (rest : List CampaignStep)
      → All IsUnmixed rest
      → All IsUnmixed (map singleshot_step (filter (is_singleshot observed) jobs) ++ rest)
  unfolding filter
  IsUnmixed-steps [] rest h = h
  IsUnmixed-steps (j ∷ jobs) rest h = elim (Bool-cases (is_singleshot observed j)) [
    | inl alone ↦
        rw alone (inl (refl, (j, refl, is_singleshot-test j alone)), IsUnmixed-steps jobs rest h)
    | inr bank ↦ rw bank (IsUnmixed-steps jobs rest h)
  ]

  resets_banked : (banked : List FlashJob) → ResetsLast (banked_step banked)
  unfolding banked_step is_empty
  resets_banked [] = tt
  resets_banked (j ∷ jobs) = (inr refl, tt)

  resets_steps :
      (alone : List FlashJob) (rest : List CampaignStep)
      → ResetsLast rest
      → ResetsLast (map singleshot_step alone ++ rest)
  resets_steps [] rest h = h
  resets_steps (j ∷ jobs) rest h = (inl refl, resets_steps jobs rest h)

  abbrev jobs_of : List CampaignStep → List FlashJob
  jobs_of = flat_map (λ (step : CampaignStep). step.jobs)

  jobs_banked : (banked : List FlashJob) → jobs_of (banked_step banked) ≡ banked
  unfolding banked_step is_empty flat_map
  jobs_banked [] = refl
  jobs_banked (j ∷ jobs) = append-nil (j ∷ jobs)

  jobs_steps :
      (alone : List FlashJob) (rest : List CampaignStep)
      → jobs_of (map singleshot_step alone ++ rest) ≡ alone ++ jobs_of rest
  unfolding flat_map
  jobs_steps [] rest = refl
  jobs_steps (j ∷ jobs) rest = ap (λ r. j ∷ r) (jobs_steps jobs rest)

  -- The steps run every job exactly once: first the singleshot ones, then the others, both in the
  -- order of the plan.
  pub campaign_steps-jobs :
      (jobs : List FlashJob)
      → flat_map (λ (step : CampaignStep). step.jobs) (campaign_steps observed jobs)
        ≡ filter (is_singleshot observed) jobs
          ++ filter (λ job. not (is_singleshot observed job)) jobs
  unfolding campaign_steps
  campaign_steps-jobs jobs =
      let banked = filter (λ job. not (is_singleshot observed job)) jobs in
      let alone = filter (is_singleshot observed) jobs in
      jobs_steps alone (banked_step banked) ∙ ap (λ r. alone ++ r) (jobs_banked banked)

  -- Every step of a campaign is either one component alone, for which the vehicle reports that it
  -- supports no rollback, and does not ask for the forced reset, or it is a non-empty group of
  -- components of which none is reported so, and asks for the forced reset; a step that asks for
  -- it is the last; and the steps run every job once, first those of the components alone, then
  -- the others, both in the order of the plan.
  pub campaign_steps-IsUnmixed :
      (jobs : List FlashJob)
      → All IsUnmixed (campaign_steps observed jobs)
        × ResetsLast (campaign_steps observed jobs)
        × (flat_map (λ (step : CampaignStep). step.jobs) (campaign_steps observed jobs)
            ≡ filter (is_singleshot observed) jobs
              ++ filter (λ job. not (is_singleshot observed job)) jobs)
  unfolding campaign_steps
  campaign_steps-IsUnmixed jobs =
      let banked = filter (λ job. not (is_singleshot observed job)) jobs in
      (
        IsUnmixed-steps jobs (banked_step banked) (IsUnmixed-banked banked (banked_jobs jobs)),
        resets_steps (filter (is_singleshot observed) jobs) (banked_step banked)
            (resets_banked banked),
        campaign_steps-jobs jobs,
      )
