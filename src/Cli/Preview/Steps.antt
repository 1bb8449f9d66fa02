-- ===== src/Cli/Preview/Steps.antt =====
-- The steps that are announced, against the steps that the orchestrator runs.
use sumo_provision.Base.{
  ℕ, ltb, ◌≡◌, refl, ◌∙◌, sym, ap, Bool, true, false, not, ◌&&◌, ◌||◌, Option, none, some, List, [],
  ◌∷◌, ◌++◌, map, filter, All, Text, Text_eq, Bool_eq, Option_eq, ◌==◌, is_empty, Bool-cases, inl,
  inr, if◌then◌else◌, Result, ok, >>=-eq-ok, ok-inj, ◌>>=◌,
}
use mathlib.Core.Path.{ap₂, subst}
use mathlib.Core.List.{map-append}
use sumo_provision.Wire.Model.{ContentHash, ArtifactRef, Entity, Tree}
use sumo_provision.Wire.Plan.{FlashPlan, flash_plan}
use sumo_provision.Wire.Assess.{assess_tree}
use sumo_provision.Orchestrator.Preview.Listed.{parts_of}
use sumo_provision.Cli.{is_chosen}
use sumo_provision.Orchestrator.Model.{Error, ChannelTarget, FlashJob, CampaignStep}
use sumo_provision.Orchestrator.Campaign.{
  supports_rollback, is_singleshot, campaign_steps, banked_step, singleshot_step,
}
use sumo_provision.Orchestrator.Preview.{
  ComponentApply, ApplyPlan, ShipPart, apply_parts, list_component, apply_components, apply_plan,
  allows,
}
use sumo_provision.Cli.Preview.{
  shipping, irreversible, singleshot, banked, PreviewStep, banked_preview, preview_steps,
}

-- The names of the components of a step, and whether it is the banked one.
abbrev pub announced : PreviewStep → List Text × Bool
announced (cs, trial) = (map (λ (c : ComponentApply). c.entity) cs, trial)

abbrev pub executed : CampaignStep → List Text × Bool
executed step = (map (λ (j : FlashJob). j.component_id) step.jobs, step.force_ecu_reset)

-- A line of the preview has the capability that the rig reports for its component.
abbrev pub IsObserved : Tree → ComponentApply → Type 0
IsObserved observed c = c.supports_rollback ≡ supports_rollback observed c.entity

abbrev names : List ComponentApply → List Text
names = map (λ (c : ComponentApply). c.entity)

abbrev job_names : List FlashJob → List Text
job_names = map (λ (j : FlashJob). j.component_id)

abbrev tail_of : List Text → List Text
tail_of [] = []
tail_of (x ∷ xs) = xs

abbrev head_of : Text → List Text → Text
head_of d [] = d
head_of d (x ∷ xs) = x

-- An item is kept in both lists, or in neither.
keep-agrees :
    (b : Bool) (c : ComponentApply) (j : FlashJob) (cs : List ComponentApply) (jobs : List FlashJob)
    → c.entity ≡ j.component_id
    → names cs ≡ job_names jobs
    → names (if b then c ∷ cs else cs) ≡ job_names (if b then j ∷ jobs else jobs)
keep-agrees true c j cs jobs one rest = ap₂ ◌∷◌ one rest
keep-agrees false c j cs jobs one rest = rest

module _ (observed : Tree) where
  agrees :
      (c : ComponentApply) (j : FlashJob)
      → c.entity ≡ j.component_id
      → IsObserved observed c
      → irreversible c ≡ is_singleshot observed j
  unfolding is_singleshot
  agrees c j one h =
      ap (λ (o : Option Bool). o == some false) (h ∙ ap (supports_rollback observed) one)

  filter-agrees :
      (p : Bool → Bool) (cs : List ComponentApply) (jobs : List FlashJob)
      → names cs ≡ job_names jobs
      → All (IsObserved observed) cs
      → names (filter (λ c. p (irreversible c)) cs)
        ≡ job_names (filter (λ j. p (is_singleshot observed j)) jobs)
  unfolding filter
  filter-agrees p [] [] same h = refl
  filter-agrees p [] (j ∷ jobs) same h = cc
  filter-agrees p (c ∷ cs) [] same h = cc
  filter-agrees p (c ∷ cs) (j ∷ jobs) same h =
      let one = ap (head_of []) same in
      let rest = filter-agrees p cs jobs (ap tail_of same) h.1 in
      rw (agrees c j one h.0) (
        keep-agrees (p (is_singleshot observed j)) c j (filter (λ c. p (irreversible c)) cs)
          (filter (λ j. p (is_singleshot observed j)) jobs) one rest)

  singles :
      (cs : List ComponentApply) (jobs : List FlashJob)
      → names cs ≡ job_names jobs
      → map announced (map (λ (c : ComponentApply). (c ∷ [], false)) cs)
        ≡ map executed (map singleshot_step jobs)
  singles [] [] same = refl
  singles [] (j ∷ jobs) same = cc
  singles (c ∷ cs) [] same = cc
  singles (c ∷ cs) (j ∷ jobs) same =
      ap₂ ◌∷◌ (ap (λ (n : Text). (n ∷ [], false)) (ap (head_of []) same))
        (singles cs jobs (ap tail_of same))

  many :
      (cs : List ComponentApply) (jobs : List FlashJob)
      → names cs ≡ job_names jobs
      → map announced (banked_preview cs) ≡ map executed (banked_step jobs)
  unfolding banked_step is_empty
  many [] [] same = refl
  many [] (j ∷ jobs) same = cc
  many (c ∷ cs) [] same = cc
  many (c ∷ cs) (j ∷ jobs) same = ap (λ (ns : List Text). (ns, true) ∷ []) same

  steps-agree :
      (cs : List ComponentApply) (jobs : List FlashJob)
      → names cs ≡ job_names jobs
      → All (IsObserved observed) cs
      → map announced (preview_steps cs) ≡ map executed (campaign_steps observed jobs)
  unfolding preview_steps campaign_steps
  steps-agree cs jobs same h =
      map-append announced (map (λ (c : ComponentApply). (c ∷ [], false)) (singleshot cs))
        (banked_preview (banked cs))
      ∙ ap₂ ◌++◌
          (singles (singleshot cs) (filter (is_singleshot observed) jobs)
            (filter-agrees (λ b. b) cs jobs same h))
          (many (banked cs) (filter (λ j. not (is_singleshot observed j)) jobs)
            (filter-agrees not cs jobs same h))
      ∙ sym (
          map-append executed (map singleshot_step (filter (is_singleshot observed) jobs))
            (banked_step (filter (λ j. not (is_singleshot observed j)) jobs)))

All-filter :
    {A : Type 0} (P : A → Type 0) (p : A → Bool) (xs : List A) → All P xs → All P (filter p xs)
unfolding filter
All-filter P p [] h = tt
All-filter P p (x ∷ xs) h = elim (Bool-cases (p x)) [
  | inl kept ↦ rw kept (h.0, All-filter P p xs h.1)
  | inr left ↦ rw left (All-filter P p xs h.1)
]

list_component-IsObserved :
    (observed : Tree) (e : Text × Entity) (r : List ShipPart × ℕ) (cs : List ComponentApply)
    → All (IsObserved observed) cs
    → All (IsObserved observed) (list_component observed e r cs)
list_component-IsObserved observed (path, entity) (shipped, reused) cs h =
    elim (Bool-cases (not (is_empty shipped) || ltb 0 reused)) [
      | inl listed ↦ rw listed (refl, h)
      | inr bare ↦ rw bare h
    ]

module _ (artifact_exists : ContentHash → Result Error (Option ArtifactRef)) (observed : Tree) where
  apply_components-IsObserved :
      (plan : FlashPlan) (only : Option (List Text)) (entities : List (Text × Entity))
      (cs : List ComponentApply)
      → apply_components artifact_exists observed plan only entities ≡ ok cs
      → All (IsObserved observed) cs
  unfolding apply_components
  apply_components-IsObserved plan only [] cs h = subst (All (IsObserved observed)) (ok-inj h) tt
  apply_components-IsObserved plan only ((path, entity) ∷ es) cs h =
      elim (Bool-cases (allows only path)) [
        | inl allowed ↦
            let (r, e1, k1) =
              >>=-eq-ok (apply_parts artifact_exists (parts_of plan path))
                (λ r. apply_components artifact_exists observed plan only es >>= λ rest.
                  ok (list_component observed (path, entity) r rest))
                (rw allowed at h) in
            let (rest, e2, k2) =
              >>=-eq-ok (apply_components artifact_exists observed plan only es)
                (λ rest. ok (list_component observed (path, entity) r rest)) k1 in
            subst (All (IsObserved observed)) (ok-inj k2) (
              list_component-IsObserved observed (path, entity) r rest
                (apply_components-IsObserved plan only es rest e2))
        | inr left ↦ apply_components-IsObserved plan only es cs (rw left at h)
      ]

  -- For a preview made without a component filter, when the components that the command line finds
  -- to be shipped are, in order, those of the jobs of the campaign, the steps that it announces
  -- are the steps that the orchestrator runs: the same components in the same order, and the
  -- banked step where the orchestrator resets the node.
  pub preview-steps :
      (desired_tree : ChannelTarget → Result Error (Option Tree)) (target : ChannelTarget)
      (only : Option Text) {plan : ApplyPlan} {desired : Tree} (jobs : List FlashJob)
      → desired_tree target ≡ ok (some desired)
      → apply_plan artifact_exists (ok observed) desired_tree target none ≡ ok plan
      → map (λ (c : ComponentApply). c.entity) (shipping plan only)
        ≡ map (λ (j : FlashJob). j.component_id) jobs
      → map announced (preview_steps (shipping plan only))
        ≡ map executed (campaign_steps observed jobs)
  unfolding apply_plan shipping
  preview-steps desired_tree target only {plan} {desired} jobs found h same =
      let (components, built, k) =
        >>=-eq-ok
          (apply_components artifact_exists observed (flash_plan observed desired) none
            desired.entities)
          (λ components. ok (record {
            channel = target.channel;
            components = components;
            assessment = assess_tree observed desired;
          }))
          (rw found at h) in
      let listed : components ≡ plan.components = ap (λ (p : ApplyPlan). p.components) (ok-inj k) in
      let all =
        apply_components-IsObserved (flash_plan observed desired) none desired.entities components
          built in
      steps-agree observed (shipping plan only) jobs same (
        All-filter (IsObserved observed)
          (λ (c : ComponentApply). not (is_empty c.ship) && is_chosen only c.entity) plan.components
          (subst (All (IsObserved observed)) listed all))
