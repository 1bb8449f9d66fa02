-- ===== src/Tests/ReleaseRuns.antt =====
-- Releases, identities and channel targets on concrete inputs.
use sumo_provision.Base.{
  ℕ, Bool, ◌+◌, ◌&&◌, ℕ_eq, Text_eq, text_eq, Text_ord, ◌≡◌, refl, true, false, none, some, List,
  [], ◌∷◌, ◌++◌, Text, text, text_lt, ok, err, map, any, arith, contains, option_eq, bool_eq, all,
  filter, is_empty, flat_map,
}
use sumo_provision.Map.{IsSorted, get, insert, add, from_list}
use sumo_provision.Wire.Model.{Entity, Tree, entity_or_default}
use sumo_provision.Wire.Assess.{
  assess_tree, is_converged, outcome_of, actionable_set, is_new, is_drift, admin_differs,
  admin_state,
}
use sumo_provision.Wire.Diff.{diff, diff_parts, desired_change}
use sumo_provision.Releases.Tables.{internal, Db, ComponentRow, NewPart, NewComponentRelease}
use sumo_provision.Releases.Identity.{tree_hash}
use sumo_provision.Releases.Identity.Collision.{one_disabled, two_enabled, tree_hash-collision}
use sumo_provision.Releases.Publish.{component_ref, create_component_release, find}
use sumo_provision.Releases.Publish.Parts.{duplicated, clashing, part_row}
use sumo_provision.Releases.Publish.Idempotent.{component_row, create-again}
use sumo_provision.Releases.Publish.Interrupted.{create_complete, create-interrupted}
use sumo_provision.Releases.Partition.{partition_l1_components}
use sumo_provision.Releases.Partition.Placed.{IsPlaced, places, partition-IsPlaced}
use sumo_provision.Tests.Samples.{hashing, image, rig, goal, host, rt_off}
use sumo_provision.Tests.WireRuns.{goal-IsSorted}

abbrev part : Text → ℕ → NewPart
part id n = record { id = id; kind = text "file"; content = image n }

abbrev request : List NewPart → NewComponentRelease
request parts = record {
  entity_path = text "host";
  entity_kind = text "os";
  version = text "1";
  parts = parts;
}

abbrev pub start : Db
start = record {
  components = [];
  component_parts = [];
  vehicles = [];
  members = [];
  served = [];
  channels = [];
  next_component = 1;
  next_vehicle = 1;
  now = 9;
}

abbrev two_parts : NewComponentRelease
two_parts = request (part (text "os") 1 ∷ part (text "fs") 2 ∷ [])

abbrev same_id : NewComponentRelease
same_id = request (part (text "os") 1 ∷ part (text "os") 2 ∷ [])

create-again_example :
    (row : ComponentRow) × (create_component_release hashing two_parts
        (create_component_release hashing two_parts start).1
      ≡ (ok (component_ref row true), (create_component_release hashing two_parts start).1))
create-again_example = create-again hashing two_parts start

distinct : duplicated two_parts.parts ≡ false
unfolding duplicated text_eq
distinct = refl

unused : clashing start.next_component start.component_parts two_parts.parts ≡ false
unfolding clashing
unused = refl

none_yet : (p : ComponentRow → Bool) → find p [] ≡ none
unfolding find
none_yet p = refl

repeated : duplicated same_id.parts ≡ true
unfolding duplicated text_eq
repeated = refl

create_complete_example : create_component_release hashing two_parts start ≡ (
  ok (component_ref (component_row hashing two_parts start) false),
  record start {
    components = [] ++ component_row hashing two_parts start ∷ [];
    next_component = 1 + 1;
    component_parts = [] ++ map (part_row hashing 1) two_parts.parts;
  },
)
create_complete_example = create_complete hashing two_parts start (none_yet _) unused distinct

create-interrupted_example :
    ((create_component_release hashing same_id start).0 ≡ err internal)
    × ((create_component_release hashing same_id
          (create_component_release hashing same_id start).1).0
        ≡ ok (component_ref (component_row hashing same_id start) true))
create-interrupted_example = create-interrupted hashing same_id start (none_yet _) repeated

members_alike : (i : ℕ) → contains (3 ∷ 1 ∷ []) i ≡ contains (1 ∷ 3 ∷ 1 ∷ []) i
unfolding contains
members_alike i = ground arith

disabled_alike :
    (i : ℕ)
    → (contains (3 ∷ 1 ∷ []) i && contains (3 ∷ 7 ∷ []) i)
      ≡ (contains (1 ∷ 3 ∷ 1 ∷ []) i && contains (3 ∷ []) i)
unfolding contains
disabled_alike i = ground arith

before : Text_ord.lt (text "app") (text "disabled") ≡ true
unfolding text_lt
before = refl

tree_hash-collision_example :
    IsSorted (one_disabled (text "app")).entities
    × (IsSorted (two_enabled (text "app")).entities
        × ((one_disabled (text "app") ≡ two_enabled (text "app") → ⊥)
            × (tree_hash hashing (one_disabled (text "app"))
                ≡ tree_hash hashing (two_enabled (text "app")))))
tree_hash-collision_example = tree_hash-collision hashing (text "app") before

partition-IsPlaced_example :
    ((e : Entity)
      → get (text "rt") goal.entities ≡ some e
      → IsPlaced
          (some rig)
          (text "rt")
          e
          (places (text "rt") (partition_l1_components goal (some rig))))
    × (get (text "rt") goal.entities ≡ none
        → places (text "rt") (partition_l1_components goal (some rig)) ≡ (0, 0, 0))
partition-IsPlaced_example = partition-IsPlaced goal (some rig) (text "rt") goal-IsSorted

-- the vehicle with the desired content, the second component switched off
abbrev reached : Tree
reached = record {
  entities =
      (text "host", host 2)
      ∷ (text "rt", record rt_off { admin_disabled = some true })
      ∷ (text "vm", host 3)
      ∷ [];
}

reached-is_converged : is_converged (assess_tree reached goal) ≡ true
unfolding assess_tree outcome_of actionable_set is_new is_drift admin_differs admin_state diff
    diff_parts desired_change entity_or_default get insert add from_list text_lt text_eq option_eq
    bool_eq all any filter is_empty flat_map is_converged
reached-is_converged = refl
