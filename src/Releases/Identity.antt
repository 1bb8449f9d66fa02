-- ===== src/Releases/Identity.antt =====
-- The identity hashes of crates/software-tower/src/releases.rs, each with the text that it hashes.
pub mod Sorted
pub mod Order
pub mod Collision
use sumo_provision.Base.{
  ℕ, Bool, List, [], ◌∷◌, ◌++◌, map, flat_map, Text, text, Text_ord, ℕ_ord, ℕ_eq, if◌then◌else◌,
  filter, is_empty, contains, sort_by, dedup, to_string, join,
}
use sumo_provision.Wire.Hash.{Hashing, to_prefixed}
use sumo_provision.Wire.Model.{Part, Entity, Tree}
use sumo_provision.Releases.Tables.{NewPart}

abbrev pub newline : Text
newline = 10 ∷ []

abbrev pub nul : Text
nul = 0 ∷ []

-- `sort_unstable` and `dedup`
unfoldable pub sorted_ids : List ℕ → List ℕ
unfolding sort_by dedup
sorted_ids ids = dedup (sort_by (λ (i : ℕ). i) ids)

unfoldable pub comma_separated : List ℕ → Text
unfolding join to_string
comma_separated ids = join (text ",") (map to_string ids)

-- the disabled ids that are members, sorted
unfoldable pub disabled_ids : List ℕ → List ℕ → List ℕ
unfolding sorted_ids filter contains
disabled_ids members disabled = sorted_ids (filter (contains (sorted_ids members)) disabled)

unfoldable pub vehicle_buffer : List ℕ → List ℕ → Text
unfolding sorted_ids comma_separated disabled_ids is_empty
vehicle_buffer members disabled =
    let off = disabled_ids members disabled in
    comma_separated (sorted_ids members)
    ++ (if is_empty off then [] else newline ++ (text "disabled:" ++ comma_separated off))

module _ (hashing : Hashing) where
  open hashing use {hex, sha256}

  unfoldable pub part_line : NewPart → Text
  unfolding to_prefixed
  part_line p = p.id ++ (nul ++ (p.kind ++ (nul ++ (to_prefixed hex p.content ++ newline))))

  unfoldable pub component_buffer : Text → List NewPart → Text
  unfolding part_line sort_by flat_map
  component_buffer entity_kind parts =
      entity_kind ++ (newline ++ flat_map part_line (sort_by (λ p. p.id) parts))

  unfoldable pub component_identity : Text → List NewPart → Text
  unfolding component_buffer to_prefixed
  component_identity entity_kind parts =
      to_prefixed hex (sha256 (component_buffer entity_kind parts))

  unfoldable pub vehicle_identity : List ℕ → List ℕ → Text
  unfolding vehicle_buffer to_prefixed
  vehicle_identity members disabled_members =
      to_prefixed hex (sha256 (vehicle_buffer members disabled_members))

  unfoldable pub tree_part_line : Part → Text
  unfolding to_prefixed
  tree_part_line p = p.id ++ (nul ++ (to_prefixed hex p.content ++ newline))

  unfoldable pub entity_lines : Text × Entity → Text
  unfolding tree_part_line sort_by flat_map
  entity_lines (path, entity) =
      path
      ++ (newline
          ++ ((if entity.disabled then text "disabled" ++ newline else [])
              ++ flat_map tree_part_line (sort_by (λ p. p.id) entity.parts)))

  unfoldable pub tree_buffer : Tree → Text
  unfolding entity_lines flat_map
  tree_buffer tree = flat_map entity_lines tree.entities

  unfoldable pub tree_hash : Tree → Text
  unfolding tree_buffer to_prefixed
  tree_hash tree = to_prefixed hex (sha256 (tree_buffer tree))
