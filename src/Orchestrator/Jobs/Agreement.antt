-- ===== src/Orchestrator/Jobs/Agreement.antt =====
-- The tower and the orchestrator judge a component alike.
use sumo_provision.Base.{
  ◌≡◌, refl, not, ◌&&◌, some, map, arith, Text, Text_ord, Text_eq, all-map, is_empty, is_empty-map,
  Option-cases, inl, inr,
}
use sumo_provision.Map.{get}
use sumo_provision.Wire.Model.{ContentHash, Part, Entity, Tree}
use sumo_provision.Releases.Partition.{parts_agreed, entity_agreed}
use sumo_provision.Orchestrator.Model.{L1Part, L1Component}
use sumo_provision.Orchestrator.Jobs.{part_present, component_unchanged}

-- The component of the campaign that the tower builds for an entity: a part for each part, with the
-- digest of its image and the address of its ciphertext.
abbrev pub l1_part : (ContentHash → ContentHash) → Part → L1Part
l1_part outer p = record { part = p.id; outer = outer p.content; inner = some p.content }

abbrev pub l1_component : (ContentHash → ContentHash) → Text → Text → Entity → L1Component
l1_component outer envelope path e = record {
  component = path;
  envelope = envelope;
  parts = map (l1_part outer) e.parts;
}

-- For a component that the campaign builds from an entity of the resolved tree, the orchestrator
-- finds it unchanged exactly when the entity has parts and the tower finds that the reported
-- component agrees with it.
pub unchanged-agreed :
    (outer : ContentHash → ContentHash) (envelope path : Text) (e : Entity) (observed : Tree)
    → component_unchanged (l1_component outer envelope path e) observed
      ≡ (not (is_empty e.parts) && entity_agreed observed path e)
unfolding component_unchanged entity_agreed parts_agreed part_present
unchanged-agreed outer envelope path e observed = elim (Option-cases (get path observed.entities)) [
  | inl unknown ↦ rw (unknown, component_unchanged, entity_agreed) (ground arith)
  | inr (rep, known) ↦
      rw
        (
          known,
          component_unchanged,
          entity_agreed,
          is_empty-map (l1_part outer) e.parts,
          all-map (part_present rep.parts) (l1_part outer) e.parts,
        )
        refl
]
