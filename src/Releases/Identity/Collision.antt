-- ===== src/Releases/Identity/Collision.antt =====
-- Two different trees with one hash.
use sumo_provision.Base.{
  ◌≡◌, refl, true, [], ◌∷◌, ◌++◌, ap, sym, ◌∙◌, length, arith, Text, text, sort_by, flat_map,
  Text_ord,
}
use mathlib.Core.List.{append-nil, append_assoc}
use sumo_provision.Map.{IsSorted}
use sumo_provision.Wire.Hash.{Hashing, to_prefixed}
use sumo_provision.Wire.Model.{Entity, Tree, default_entity}
use sumo_provision.Releases.Identity.{newline, entity_lines, tree_buffer, tree_hash}

abbrev pub off : Entity
off = record default_entity { disabled = true }

-- A component that is held disabled, and the same component enabled beside one named "disabled".
abbrev pub one_disabled : Text → Tree
one_disabled path = record { entities = (path, off) ∷ [] }

abbrev pub two_enabled : Text → Tree
two_enabled path = record {
  entities = (path, default_entity) ∷ (text "disabled", default_entity) ∷ [];
}

lines_off :
    (hashing : Hashing) (path : Text)
    → entity_lines hashing (path, off) ≡ path ++ (newline ++ (text "disabled" ++ newline))
unfolding entity_lines sort_by flat_map
lines_off hashing path = refl

lines_on :
    (hashing : Hashing) (path : Text)
    → entity_lines hashing (path, default_entity) ≡ path ++ newline
unfolding entity_lines sort_by flat_map
lines_on hashing path = refl

buffers :
    (hashing : Hashing) (path : Text)
    → tree_buffer hashing (one_disabled path) ≡ tree_buffer hashing (two_enabled path)
unfolding tree_buffer flat_map
buffers hashing path =
    rw (lines_off hashing path, lines_on hashing path, lines_on hashing (text "disabled"))
      (append-nil (path ++ (newline ++ (text "disabled" ++ newline)))
        ∙ sym (append_assoc path newline (text "disabled" ++ newline)))

-- For every component name before "disabled", the tree that holds that component disabled and the
-- tree that has it enabled beside an enabled component named "disabled", none with parts, are in
-- the order of a map, differ, and have the same tree hash.
pub tree_hash-collision :
    (hashing : Hashing) (path : Text)
    → Text_ord.lt path (text "disabled") ≡ true
    → IsSorted (one_disabled path).entities
      × (IsSorted (two_enabled path).entities
          × ((one_disabled path ≡ two_enabled path → ⊥)
              × (tree_hash hashing (one_disabled path) ≡ tree_hash hashing (two_enabled path))))
unfolding tree_hash
tree_hash-collision hashing path h = (
  (tt, tt),
  (
    ((h, tt), (tt, tt)),
    (differ, ap (λ b. to_prefixed hashing.hex (hashing.sha256 b)) (buffers hashing path)),
  ),
)
  where
    differ : one_disabled path ≡ two_enabled path → ⊥
    differ e = ground (arith, ap (λ (t : Tree). length t.entities) e)
