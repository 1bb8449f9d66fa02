-- ===== src/Wire/Assess/Outcome.antt =====
-- What the outcome of an assessment says.
use sumo_provision.Base.{
  ◌≡◌, refl, ◌↔◌, Bool, true, false, not, List, [], ◌∷◌, arith, Text, Text_ord, is_empty, all,
  text_eq_iff, sym, ◌∙◌,
}
use sumo_provision.Map.{
  Set, has, contains_key, IsSorted, IsAscending, foldl-IsAscending, is_empty-has,
}
use sumo_provision.Wire.Model.{Entity, Tree}
use sumo_provision.Wire.Assess.{deferred, is_converged, outcome_of, actionable_set, assess_tree}
use sumo_provision.Wire.Diff.{PartChange, diff}
use sumo_provision.Wire.Assess.Members.{needs_update, has-assess_tree}

pub converged-is_empty :
    (observed desired : Tree)
    → is_converged (assess_tree observed desired)
      ≡ is_empty (assess_tree observed desired).components
unfolding is_converged assess_tree
converged-is_empty observed desired = ground arith

outcome_lem :
    (observed desired : Tree)
    → (assess_tree observed desired).outcome
      ≡ outcome_of observed
          (diff observed desired).entities_removed
          (assess_tree observed desired).components
unfolding assess_tree
outcome_lem observed desired = refl

-- For a desired tree in the order of its map, the outcome is a converged one exactly when no
-- component needs an update.
pub assess-converged_iff :
    (observed desired : Tree)
    → IsSorted desired.entities
    → (is_converged (assess_tree observed desired) ≡ true)
      ↔ ((id : Text) → needs_update observed desired id ≡ false)
assess-converged_iff observed desired sd = rw converged-is_empty (
  λ h id. sym (has-assess_tree observed desired sd id) ∙ (is_empty-has _).0 h id,
  λ h.
      (is_empty-has (assess_tree observed desired).components).1
        (λ id. has-assess_tree observed desired sd id ∙ h id),
)

-- The components that an assessment lists stand in ascending order, each once.
pub assess-IsAscending :
    (observed desired : Tree) → IsAscending (assess_tree observed desired).components
unfolding assess_tree actionable_set
assess-IsAscending observed desired =
    foldl-IsAscending {K = Text} {A = Text × Entity} _ _ desired.entities _ (
      foldl-IsAscending {K = Text} {A = PartChange} _ _ (diff observed desired).parts _
        (foldl-IsAscending {K = Text} {A = Text} _ _ (diff observed desired).entities_added [] tt))

all-has :
    (p : Text → Bool) (s : Set Text)
    → (all p s ≡ true) ↔ ((id : Text) → has id s ≡ true → p id ≡ true)
unfolding all has
all-has p [] = (λ h id m. cc, λ h. refl)
all-has p (j ∷ s) = (
  λ h id m. ground (arith, text_eq_iff j id, (all-has p s).0 (ground arith) id),
  λ h. ground (arith, h j, text_eq_iff j j, (all-has p s).1 (λ id m. h id (ground arith))),
)

outcome-deferred :
    (observed : Tree) (removed components : List Text)
    → (outcome_of observed removed components ≡ deferred) ↔ (
        (is_empty components ≡ false)
        × (all (λ id. not (contains_key id observed.entities)) components ≡ true))
unfolding outcome_of
outcome-deferred observed removed components = ground arith

-- For a desired tree in the order of its map, an assessment is deferred exactly when it is not
-- converged and nothing that needs an update is on the device.
pub assess-deferred_iff :
    (observed desired : Tree)
    → IsSorted desired.entities
    → ((assess_tree observed desired).outcome ≡ deferred) ↔ (
        (is_converged (assess_tree observed desired) ≡ false)
        × ((id : Text)
            → needs_update observed desired id ≡ true
            → not (contains_key id observed.entities) ≡ true))
assess-deferred_iff observed desired sd = rw converged-is_empty (
  λ h.
      let (some_listed, absent) =
        (outcome-deferred observed _ components).0 (rw outcome_lem at h) in
      (
        some_listed,
        λ id n. (all-has _ components).0 absent id (has-assess_tree observed desired sd id ∙ n),
      ),
  λ h. rw outcome_lem (
      (outcome-deferred observed _ components).1 (
        h.0,
        (all-has _ components).1
            (λ id m. h.1 id (sym (has-assess_tree observed desired sd id) ∙ m)),
      )),
)
  where
    components : List Text
    components = (assess_tree observed desired).components
