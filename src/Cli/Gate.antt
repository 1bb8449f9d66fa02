-- ===== src/Cli/Gate.antt =====
-- When a campaign is run: the test of the command line against the assessment.
use sumo_provision.Base.{
  ◌≡◌, refl, ◌∙◌, ap, Bool, true, false, not, ◌&&◌, ◌||◌, Option, none, some, List, [], ◌∷◌, map,
  flat_map, Text, Text_ord, Text_eq, ◌==◌, arith, any, filter, filter-append, any-filter, any-map,
  is_empty, is_empty-map, All, Bool-cases, inl, inr, Result, ok, >>=-eq-ok,
}
use mathlib.Core.Path.{subst}
use sumo_provision.Map.{IsSorted, get, get→All}
use sumo_provision.Wire.Model.{ContentHash, ArtifactRef, Entity, Tree, entity_or_default}
use sumo_provision.Wire.Diff.{diff_parts}
use sumo_provision.Wire.Plan.{PlannedPart, FlashPlan, is_ship, plan_entity, flash_plan}
use sumo_provision.Wire.Plan.Ships.{planned_at, ships-entity}
use sumo_provision.Wire.Assess.{is_converged, assess_tree}
use sumo_provision.Wire.Assess.Outcome.{assess-converged_iff, converged-is_empty}
use sumo_provision.Releases.Partition.Converged.{quiet_parts, no_update}
use sumo_provision.Orchestrator.Model.{Error, ChannelTarget}
use sumo_provision.Orchestrator.Preview.{
  ComponentApply, ApplyPlan, apply_components, apply_plan, allows,
}
use sumo_provision.Orchestrator.Preview.Listed.{
  Line, line_of, shipped, plan_line, has_parts, apply_components-lines,
}
use sumo_provision.Cli.{campaign_has_work, is_chosen}

map_nil : {A B : Type 0} (f : A → B) (xs : List A) → map f xs ≡ [] → xs ≡ []
map_nil f [] h = refl
map_nil f (x ∷ xs) h = cc

is_empty_nil : {A : Type 0} (xs : List A) → is_empty xs ≡ true → xs ≡ []
unfolding is_empty
is_empty_nil [] h = refl
is_empty_nil (x ∷ xs) h = cc

filter-filter :
    {A : Type 0} (p q : A → Bool) (xs : List A) → filter p xs ≡ [] → filter p (filter q xs) ≡ []
unfolding filter
filter-filter p q [] h = refl
filter-filter p q (x ∷ xs) h = ground (arith, filter-filter p q xs)

any-false : {A : Type 0} (p : A → Bool) (xs : List A) → ((x : A) → p x ≡ false) → any p xs ≡ false
unfolding any
any-false p [] h = refl
any-false p (x ∷ xs) h = ground (arith, h x, any-false p xs h)

-- The parts of an entity are as they should be.
abbrev is_quiet : Tree → Text × Entity → Bool
is_quiet observed e = is_empty (diff_parts e.0 (entity_or_default e.0 observed).parts e.1.parts)

quiet-ships :
    (observed : Tree) (e : Text × Entity)
    → is_quiet observed e ≡ true
    → filter is_ship (plan_entity observed e) ≡ []
unfolding filter
quiet-ships observed (path, des) h =
    let nothing =
      is_empty_nil (diff_parts path (entity_or_default path observed).parts des.parts) h in
    map_nil planned_at (filter is_ship (plan_entity observed (path, des)))
      (ships-entity observed (path, des) ∙ rw nothing refl)

plan-ships :
    (observed : Tree) (m : List (Text × Entity))
    → All (λ e. is_quiet observed e ≡ true) m
    → filter is_ship (flat_map (plan_entity observed) m) ≡ []
unfolding flat_map filter
plan-ships observed [] h = refl
plan-ships observed (e ∷ m) h =
    filter-append is_ship (plan_entity observed e) (flat_map (plan_entity observed) m)
    ∙ rw (quiet-ships observed e h.0) (plan-ships observed m h.1)

abbrev ships_line : Line → Bool
ships_line l = not (is_empty l.ship)

any-lines :
    (cs : List ComponentApply)
    → any (λ (c : ComponentApply). not (is_empty c.ship)) cs ≡ any ships_line (map line_of cs)
unfolding any
any-lines [] = refl
any-lines (c ∷ cs) = rw (is_empty-map shipped c.ship, any-lines cs) refl

-- A preview whose plan ships nothing has no component with something to ship.
lines-ship :
    (plan : FlashPlan) (es : List (Text × Entity)) (cs : List ComponentApply)
    → filter is_ship plan.parts ≡ []
    → map line_of cs ≡ filter has_parts (map (plan_line plan) es)
    → any (λ (c : ComponentApply). not (is_empty c.ship)) cs ≡ false
unfolding is_empty
lines-ship plan es cs quiet lines =
    any-lines cs
    ∙ ap (any ships_line) lines
    ∙ any-filter has_parts ships_line (map (plan_line plan) es)
    ∙ any-map (λ l. has_parts l && ships_line l) (plan_line plan) es
    ∙ any-false (λ e. has_parts (plan_line plan e) && ships_line (plan_line plan e)) es
        (λ e.
          rw (filter-filter is_ship (λ (p : PlannedPart). p.entity == e.0) plan.parts quiet)
            (ground arith))

chosen-any : (xs : List Text) → any (is_chosen none) xs ≡ not (is_empty xs)
unfolding any is_chosen is_empty
chosen-any [] = refl
chosen-any (x ∷ xs) = refl

all_chosen :
    (cs : List ComponentApply)
    → any (λ (c : ComponentApply). not (is_empty c.ship) && is_chosen none c.entity) cs
      ≡ any (λ (c : ComponentApply). not (is_empty c.ship)) cs
unfolding any is_chosen
all_chosen [] = refl
all_chosen (c ∷ cs) = ground (arith, all_chosen cs)

work-none :
    (plan : ApplyPlan)
    → campaign_has_work plan none ≡ (
        any (λ (c : ComponentApply). not (is_empty c.ship)) plan.components
        || not (is_empty plan.assessment.components))
unfolding campaign_has_work
work-none plan =
    ap (λ b. b || any (is_chosen none) plan.assessment.components) (all_chosen plan.components)
    ∙ ap (λ b. any (λ (c : ComponentApply). not (is_empty c.ship)) plan.components || b)
        (chosen-any plan.assessment.components)

-- Every entity is enabled.
abbrev pub AllEnabled : Tree → Type 0
AllEnabled desired =
    (path : Text) (want : Entity) → get path desired.entities ≡ some want → want.disabled ≡ false

-- An enabled entity that needs no update has its parts.
quiet_entities :
    (observed desired : Tree)
    → IsSorted desired.entities
    → AllEnabled desired
    → is_converged (assess_tree observed desired) ≡ true
    → All (λ e. is_quiet observed e ≡ true) desired.entities
quiet_entities observed desired sd on h =
    let none_needed = (assess-converged_iff observed desired sd).0 h in
    get→All (λ k e. is_quiet observed (k, e) ≡ true) desired.entities sd
      (λ k e found.
        quiet_parts observed k e (on k e found) (no_update observed desired k e none_needed found))

module _ (artifact_exists : ContentHash → Result Error (Option ArtifactRef)) where
  abbrev preview : ChannelTarget → Tree → Tree → List ComponentApply → ApplyPlan
  preview target observed desired components = record {
    channel = target.channel;
    components = components;
    assessment = assess_tree observed desired;
  }

  preview-work :
      (target : ChannelTarget) (observed desired : Tree) (components : List ComponentApply)
      → IsSorted desired.entities
      → AllEnabled desired
      → apply_components artifact_exists observed
          (flash_plan observed desired)
          none
          desired.entities
        ≡ ok components
      → campaign_has_work (preview target observed desired components) none
        ≡ not (is_converged (assess_tree observed desired))
  unfolding flash_plan
  preview-work target observed desired components sd on built =
      let counted = converged-is_empty observed desired in
      elim (Bool-cases (is_converged (assess_tree observed desired))) [
        | inl done ↦
            let nothing =
              lines-ship (flash_plan observed desired)
                (filter (λ (e : Text × Entity). allows none e.0) desired.entities) components
                (plan-ships observed desired.entities (quiet_entities observed desired sd on done))
                (apply_components-lines artifact_exists observed (flash_plan observed desired) none
                  desired.entities components built) in
            work-none (preview target observed desired components)
            ∙ rw (nothing, ← counted, done) refl
        | inr open_work ↦
            work-none (preview target observed desired components)
            ∙ rw (← counted, open_work) (ground arith)
      ]

  -- For a resolved tree in the order of its map whose entities are all enabled, when the preview
  -- can be made without a component filter, the command line finds work for a campaign exactly
  -- when the assessment in the preview is not converged.
  pub gate-converged :
      (read_rig_state : Result Error Tree)
      (desired_tree : ChannelTarget → Result Error (Option Tree)) (target : ChannelTarget)
      {observed desired : Tree} {plan : ApplyPlan}
      → read_rig_state ≡ ok observed
      → desired_tree target ≡ ok (some desired)
      → IsSorted desired.entities
      → AllEnabled desired
      → apply_plan artifact_exists read_rig_state desired_tree target none ≡ ok plan
      → campaign_has_work plan none ≡ not (is_converged plan.assessment)
  unfolding apply_plan
  gate-converged read_rig_state desired_tree target {observed} {desired} {plan} read found sd on h =
      let (components, built, k) =
        >>=-eq-ok
          (apply_components artifact_exists observed (flash_plan observed desired) none
            desired.entities)
          (λ components. ok (preview target observed desired components)) (rw (read, found) at h) in
      let same : preview target observed desired components ≡ plan = cc in
      subst (λ p. campaign_has_work p none ≡ not (is_converged p.assessment)) same
        (preview-work target observed desired components sd on built)
