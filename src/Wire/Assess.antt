-- ===== src/Wire/Assess.antt =====
-- `assess_tree` of crates/wire/src/lib.rs.
pub mod Members
pub mod Outcome
use sumo_provision.Base.{
  foldl, Bool, true, false, not, ◌&&◌, ◌||◌, Option, none, some, List, [], Text, Text_eq, Text_ord,
  Option_eq, Bool_eq, ◌==◌, if◌then◌else◌, all, is_empty, is_some_and,
}
use sumo_provision.Map.{Set, get, contains_key, add_if}
use sumo_provision.Wire.Model.{Entity, Tree}
use sumo_provision.Wire.Diff.{PartChange, diff}

pub data AssessmentOutcome : Type 0 where
  converged converged_ignoring_device_only deferred actionable : AssessmentOutcome

pub record ConvergenceAssessment : Type 0 where
  pub outcome : AssessmentOutcome
  pub components : List Text
  pub ignored_device_only_entities : List Text

unfoldable pub is_converged : ConvergenceAssessment → Bool
is_converged a = elim a.outcome [
  | converged ↦ true
  | converged_ignoring_device_only ↦ true
  | _ ↦ false
]

-- `observed.entities.get(id).and_then(|e| e.admin_disabled)`
unfoldable pub admin_state : Tree → Text → Option Bool
admin_state observed id = elim (get id observed.entities) [
  | none ↦ none
  | some e ↦ e.admin_disabled
]

-- the three tests under which a component is inserted into `actionable`
unfoldable pub is_new : Tree → Text → Bool
is_new desired id = is_some_and (λ e. not e.disabled) (get id desired.entities)

unfoldable pub is_drift : Tree → Tree → Text → Bool
unfolding admin_state
is_drift observed desired id = elim (get id desired.entities) [
  | none ↦ false
  | some want ↦ not want.disabled || admin_state observed id == some false
]

unfoldable pub admin_differs : Tree → Text → Entity → Bool
unfolding admin_state
admin_differs observed id want =
    (want.disabled && admin_state observed id == some false)
    || (not want.disabled && admin_state observed id == some true)

unfoldable pub actionable_set : Tree → Tree → Set Text
actionable_set observed desired =
    let delta = diff observed desired in
    let s₁ : Set Text = foldl (add_if (is_new desired) (λ id. id)) [] delta.entities_added in
    let s₂ : Set Text =
      foldl (add_if (λ (p : PartChange). is_drift observed desired p.entity) (λ p. p.entity)) s₁
        delta.parts in
    foldl (add_if (λ (e : Text × Entity). admin_differs observed e.0 e.1) (λ e. e.0)) s₂
      desired.entities

unfoldable pub outcome_of : Tree → List Text → List Text → AssessmentOutcome
outcome_of observed removed components =
    if is_empty components
    then (if is_empty removed then converged else converged_ignoring_device_only)
    else if all (λ id. not (contains_key id observed.entities)) components
    then deferred
    else actionable

unfoldable pub assess_tree : Tree → Tree → ConvergenceAssessment
unfolding outcome_of
assess_tree observed desired =
    let delta = diff observed desired in
    let components = actionable_set observed desired in
    record {
      outcome = outcome_of observed delta.entities_removed components;
      components = components;
      ignored_device_only_entities = delta.entities_removed;
    }
