-- ===== src/Releases/Partition.antt =====
-- Which components of a resolved tree go into the L1 campaign: `entity_agreed` and
-- `partition_l1_components` of crates/software-tower/src/releases.rs.
pub mod Classes
pub mod Judged
pub mod Placed
pub mod Converged
use sumo_provision.Base.{
  ℕ, Bool, true, false, not, ◌&&◌, Option, none, some, List, [], ◌∷◌, ◌++◌, Text, Text_ord, Text_eq,
  Option_eq, Bool_eq, ◌==◌, if◌then◌else◌, all, any, is_empty, text, to_string,
}
use sumo_provision.Map.{get}
use sumo_provision.Wire.Model.{Part, Entity, Tree}
use sumo_provision.Wire.Assess.{admin_state}

unfoldable pub parts_agreed : Entity → Entity → Bool
unfolding all any
parts_agreed rep resolved =
    all (λ (p : Part). any (λ (rp : Part). rp.content == p.content) rep.parts) resolved.parts

unfoldable pub entity_agreed : Tree → Text → Entity → Bool
entity_agreed reported path resolved = elim (get path reported.entities) [
  | none ↦ false
  | some rep ↦ parts_agreed rep resolved
]

-- `target_label`
unfoldable pub target_label : Option Text → Option ℕ → Text
unfolding to_string
target_label channel (some id) = text "vehicle release " ++ to_string id
target_label (some channel) none = channel
target_label none none = text "unspecified target"

-- `(included, disabled, skipped)`
pub record L1Split : Type 0 where
  pub included : List (Text × Entity)
  pub disabled : List (Text × Entity)
  pub skipped : List Text

-- `reported.and_then(|rep| rep.entities.get(path)).and_then(|entity| entity.admin_disabled)`
unfoldable pub observed_admin : Option Tree → Text → Option Bool
unfolding admin_state
observed_admin none path = none
observed_admin (some rep) path = admin_state rep path

-- the guard of the `match`: the vehicle already carries the component and does not hold it disabled
unfoldable pub carried : Option Tree → Text → Entity → Bool
unfolding observed_admin
carried none path entity = false
carried (some rep) path entity =
    not (observed_admin (some rep) path == some true) && entity_agreed rep path entity

-- one round of the loop, in front of what the rest of the tree gives
unfoldable pub place : Option Tree → Text × Entity → L1Split → L1Split
unfolding carried is_empty
place reported (path, entity) rest =
    if entity.disabled
    then (if observed_admin reported path == some false
        then record rest { disabled = (path, entity) ∷ rest.disabled }
        else record rest { skipped = path ∷ rest.skipped })
    else if is_empty entity.parts
    then rest
    else if carried reported path entity
    then record rest { skipped = path ∷ rest.skipped }
    else record rest { included = (path, entity) ∷ rest.included }

unfoldable pub partition_entries : Option Tree → List (Text × Entity) → L1Split
unfolding place
partition_entries reported [] = record { included = []; disabled = []; skipped = [] }
partition_entries reported (e ∷ entries) = place reported e (partition_entries reported entries)

unfoldable pub partition_l1_components : Tree → Option Tree → L1Split
unfolding partition_entries
partition_l1_components tree reported = partition_entries reported tree.entities
