-- ===== src/Releases/Partition/Converged.antt =====
-- The tower's split against the convergence assessment that the orchestrator previews.
use sumo_provision.Base.{
  ◌≡◌, true, false, some, [], arith, Text, Text_ord, Text_eq, Option_eq, Bool_eq, option_eq,
  bool_eq, all_iff, All-imp, is_empty, Option-cases, inl, inr, Bool-cases,
}
use sumo_provision.Map.{get, IsSorted, get→All}
use sumo_provision.Wire.Model.{Entity, Tree, entity_or_default, entity-some}
use sumo_provision.Wire.Slots.{content_mem}
use sumo_provision.Wire.Diff.{diff_parts}
use sumo_provision.Wire.Diff.InSync.{PartsAgree, diff_parts_iff}
use sumo_provision.Wire.Assess.{is_converged, assess_tree}
use sumo_provision.Wire.Assess.Members.{wants_update, needs_update}
use sumo_provision.Wire.Assess.Outcome.{assess-converged_iff}
use sumo_provision.Releases.Partition.{
  parts_agreed, entity_agreed, observed_admin, carried, partition_l1_components,
}
use sumo_provision.Releases.Partition.Classes.{builds, switches_off, included-nil, disabled-nil}

-- Slots that hold the desired contents hold every desired digest.
PartsAgree-agreed :
    (obs des : Entity) → PartsAgree obs.parts des.parts → parts_agreed obs des ≡ true
unfolding parts_agreed
PartsAgree-agreed obs des h =
    (all_iff _ des.parts).1 (All-imp des.parts (λ p. content_mem obs.parts p.id p.content) h.0)

pub quiet_parts :
    (observed : Tree) (path : Text) (want : Entity)
    → want.disabled ≡ false
    → wants_update observed path want ≡ false
    → is_empty (diff_parts path (entity_or_default path observed).parts want.parts) ≡ true
quiet_parts observed path want on h = ground arith

converged-carried :
    (observed : Tree) (path : Text) (want : Entity)
    → want.disabled ≡ false
    → wants_update observed path want ≡ false
    → carried (some observed) path want ≡ true
unfolding carried entity_agreed option_eq bool_eq
converged-carried observed path want on h = elim (Option-cases (get path observed.entities)) [
  | inl gone ↦ ground (arith, gone)
  | inr (obs, found) ↦
      let quiet = rw (entity-some path observed found) at (quiet_parts observed path want on h) in
      let agreed =
        PartsAgree-agreed obs want ((diff_parts_iff path obs.parts want.parts).0 quiet) in
      ground (arith, found, agreed)
]

converged-builds :
    (observed : Tree) (path : Text) (want : Entity)
    → wants_update observed path want ≡ false
    → builds (some observed) path want ≡ false
converged-builds observed path want h = elim (Bool-cases want.disabled) [
  | inl off ↦ rw off
  | inr on ↦ ground (arith, converged-carried observed path want on h)
]

converged-switches_off :
    (observed : Tree) (path : Text) (want : Entity)
    → wants_update observed path want ≡ false
    → switches_off (some observed) path want ≡ false
unfolding observed_admin option_eq bool_eq
converged-switches_off observed path want h = ground arith

pub no_update :
    (observed desired : Tree) (path : Text) (want : Entity)
    → ((id : Text) → needs_update observed desired id ≡ false)
    → get path desired.entities ≡ some want
    → wants_update observed path want ≡ false
unfolding needs_update
no_update observed desired path want h found = rw found at (h path)

-- For a desired tree in the order of its map, when the assessment of the report is converged, the
-- tower has nothing to build and nothing to switch off.
pub partition-converged :
    (observed desired : Tree)
    → IsSorted desired.entities
    → is_converged (assess_tree observed desired) ≡ true
    → ((partition_l1_components desired (some observed)).included ≡ [])
      × ((partition_l1_components desired (some observed)).disabled ≡ [])
unfolding partition_l1_components
partition-converged observed desired sd h =
    let none_needed = (assess-converged_iff observed desired sd).0 h in
    (
      included-nil (some observed) desired.entities (
          get→All (λ k e. builds (some observed) k e ≡ false) desired.entities sd
            (λ k e found.
              converged-builds observed k e (no_update observed desired k e none_needed found))),
      disabled-nil (some observed) desired.entities (
          get→All (λ k e. switches_off (some observed) k e ≡ false) desired.entities sd
            (λ k e found.
              converged-switches_off observed k e
                (no_update observed desired k e none_needed found))),
    )
