-- ===== src/Wire/Diff.antt =====
-- `diff` of crates/wire/src/lib.rs. A `Vec` that the source fills through `&mut` is returned.
pub mod InSync
use sumo_provision.Base.{
  flat_map, Bool, true, false, not, ◌&&◌, Option, none, some, List, [], ◌∷◌, ◌++◌, map, Text,
  Text_eq, Text_ord, Eq, ◌==◌, if◌then◌else◌, filter, is_empty,
}
use sumo_provision.Map.{Map, Set, get, contains_key, keys, from_list, has, add}
use sumo_provision.Wire.Slots.{by_id}
use sumo_provision.Wire.Model.{Part, Entity, Tree, entity_or_default}

pub data Change : Type 0 where
  added removed changed : Change

pub record PartChange : Type 0 where
  pub entity : Text
  pub change : Change
  pub part : Text
  pub kind : Text

pub record TreeDiff : Type 0 where
  pub entities_added : List Text
  pub entities_removed : List Text
  pub parts : List PartChange

-- `TreeDiff::is_empty`
unfoldable pub diff_is_empty : TreeDiff → Bool
unfolding is_empty
diff_is_empty d = is_empty d.entities_added && is_empty d.entities_removed && is_empty d.parts

-- the closure `change` of `diff_parts`
abbrev pub part_change : Text → Change → Part → PartChange
part_change entity c p = record { entity = entity; change = c; part = p.id; kind = p.kind }

-- the body of the loop over `desired`
unfoldable pub desired_change : Text → Map Text Part → Part → List PartChange
desired_change entity obs dp = elim (get dp.id obs) [
  | none ↦ part_change entity added dp ∷ []
  | some op ↦ if not (op.content == dp.content) then part_change entity changed dp ∷ [] else []
]

unfoldable pub diff_parts : Text → List Part → List Part → List PartChange
unfolding desired_change flat_map
diff_parts entity observed desired =
    flat_map (desired_change entity (by_id observed)) desired
    ++ map (part_change entity removed)
        (filter (λ op. not (contains_key op.id (by_id desired))) observed)

-- the part changes of the two loops of `diff`
abbrev pub desired_part_changes : Tree → Text × Entity → List PartChange
desired_part_changes observed (path, des) =
    diff_parts path (entity_or_default path observed).parts des.parts

abbrev pub removed_part_changes : Tree → Text × Entity → List PartChange
removed_part_changes desired (path, obs) =
    if not (contains_key path desired.entities) then diff_parts path obs.parts [] else []

unfoldable pub diff : Tree → Tree → TreeDiff
unfolding flat_map
diff observed desired = record {
  entities_added =
      filter (λ path. not (contains_key path observed.entities)) (keys desired.entities);
  entities_removed =
      filter (λ path. not (contains_key path desired.entities)) (keys observed.entities);
  parts =
      flat_map (desired_part_changes observed) desired.entities
      ++ flat_map (removed_part_changes desired) observed.entities;
}
