-- ===== src/Orchestrator/Rig/State.antt =====
-- What is read from a rig: the tree, against what the rig answers for each component.
use sumo_provision.Base.{
  ◌≡◌, refl, ◌∙◌, sym, ap, ◌↔◌, Option, none, some, List, [], ◌∷◌, Text, Text_ord, Text_eq,
  Bool-cases, inl, inr, ◌==◌, if◌then◌else◌, All, ok, >>=-eq-ok, ok-inj,
}
use mathlib.Core.Path.{subst}
use sumo_provision.Map.{get, insert, get-insert, insert-IsSorted, IsSorted}
use sumo_provision.Wire.Hash.{Hex}
use sumo_provision.Wire.Model.{Entity, Tree, empty_tree}
use sumo_provision.Orchestrator.Rig.{
  Component, Sovd, connect_sovd, read_entity, read_components, read_rig_state,
}

-- The last component of a name.
abbrev pub last_named : Text → List Component → Option Component
last_named path [] = none
last_named path (c ∷ cs) = elim (last_named path cs) [
  | some d ↦ some d
  | none ↦ if c.id == path then some c else none
]

module _ (device : Sovd) (hex : Hex) where
  open device use {SovdClient}

  -- What a lookup finds after the loop, where it found `before` in front of it.
  abbrev pub IsRead : SovdClient → Option Component → Option Entity → Option Entity → Type 0
  IsRead client none before after = after ≡ before
  IsRead client (some c) before after =
      (e : Entity) × (read_entity device hex client c ≡ ok e) × (after ≡ some e)

  abbrev inserted : Component → Entity → Tree → Tree
  inserted c e tree = record { entities = insert c.id e tree.entities }

  -- One round in front of the others.
  IsRead-cons :
      (client : SovdClient) (path : Text) (c : Component) (found : Option Component) (e : Entity)
      (before : Tree) (after : Option Entity)
      → read_entity device hex client c ≡ ok e
      → IsRead client found (get path (inserted c e before).entities) after
      → IsRead client
          (elim found [ some d ↦ some d | none ↦ if c.id == path then some c else none ])
          (get path before.entities)
          after
  IsRead-cons client path c (some d) e before after here h = h
  IsRead-cons client path c none e before after here h = elim (Bool-cases (c.id == path)) [
    | inl same ↦ rw same (e, here, h ∙ get-insert c.id path e before.entities ∙ rw same)
    | inr other ↦ rw other (h ∙ get-insert c.id path e before.entities ∙ rw other)
  ]

  read_components-IsRead :
      (client : SovdClient) (path : Text) (cs : List Component) (before after : Tree)
      → read_components device hex client cs before ≡ ok after
      → IsRead client (last_named path cs) (get path before.entities) (get path after.entities)
  unfolding read_components
  read_components-IsRead client path [] before after h =
      ap (λ (t : Tree). get path t.entities) (sym (ok-inj h))
  read_components-IsRead client path (c ∷ cs) before after h =
      let (e, here, k) =
        >>=-eq-ok (read_entity device hex client c)
          (λ e. read_components device hex client cs (inserted c e before)) h in
      IsRead-cons client path c (last_named path cs) e before (get path after.entities) here
        (read_components-IsRead client path cs (inserted c e before) after k)

  read_components-IsSorted :
      (client : SovdClient) (cs : List Component) (before after : Tree)
      → read_components device hex client cs before ≡ ok after
      → IsSorted before.entities
      → IsSorted after.entities
  unfolding read_components
  read_components-IsSorted client [] before after h sorted =
      subst (λ (t : Tree). IsSorted t.entities) (ok-inj h) sorted
  read_components-IsSorted client (c ∷ cs) before after h sorted =
      let (e, here, k) =
        >>=-eq-ok (read_entity device hex client c)
          (λ e. read_components device hex client cs (inserted c e before)) h in
      read_components-IsSorted client cs (inserted c e before) after k
        (insert-IsSorted c.id e before.entities sorted)

  abbrev pub IsReadable : SovdClient → Component → Type 0
  IsReadable client c = (e : Entity) × (read_entity device hex client c ≡ ok e)

  read_components-All :
      (client : SovdClient) (cs : List Component) (before after : Tree)
      → read_components device hex client cs before ≡ ok after
      → All (IsReadable client) cs
  unfolding read_components
  read_components-All client [] before after h = tt
  read_components-All client (c ∷ cs) before after h =
      let (e, here, k) =
        >>=-eq-ok (read_entity device hex client c)
          (λ e. read_components device hex client cs (inserted c e before)) h in
      ((e, here), read_components-All client cs (inserted c e before) after k)

  read_components-ok :
      (client : SovdClient) (cs : List Component) (before : Tree)
      → All (IsReadable client) cs
      → (after : Tree) × (read_components device hex client cs before ≡ ok after)
  unfolding read_components
  read_components-ok client [] before h = (before, refl)
  read_components-ok client (c ∷ cs) before ((e, here), rest) =
      rw here (read_components-ok client cs (inserted c e before) rest)

  read_rig_state-eq-ok :
      (sovd_url : Text) (tree : Tree)
      → read_rig_state device hex sovd_url ≡ ok tree
      → (connected : SovdClient × List Component) × (connect_sovd device sovd_url ≡ ok connected)
        × (read_components device hex connected.0 connected.1 empty_tree ≡ ok tree)
  unfolding read_rig_state
  read_rig_state-eq-ok sovd_url tree =
      >>=-eq-ok (connect_sovd device sovd_url) (λ (connected : SovdClient × List Component).
        read_components device hex connected.0 connected.1 empty_tree)

  -- X
  pub rig-read_iff :
      (sovd_url : Text)
      → ((tree : Tree) × (read_rig_state device hex sovd_url ≡ ok tree)) ↔ (
          (connected : SovdClient × List Component) × (connect_sovd device sovd_url ≡ ok connected)
          × All (IsReadable connected.0) connected.1)
  unfolding read_rig_state
  rig-read_iff sovd_url = (
    λ (tree, h).
        let (connected, reached, k) = read_rig_state-eq-ok sovd_url tree h in
        (connected, reached, read_components-All connected.0 connected.1 empty_tree tree k),
    λ (connected, reached, all).
        rw reached (read_components-ok connected.0 connected.1 empty_tree all),
  )

  -- When the reading of a rig succeeds, the rig was connected to, the tree is in the order of its
  -- map, and it has exactly the components that the rig listed, each with what the rig answered
  -- for the last one of its name.
  pub rig-entities :
      (sovd_url : Text) (tree : Tree)
      → read_rig_state device hex sovd_url ≡ ok tree
      → (connected : SovdClient × List Component) × (connect_sovd device sovd_url ≡ ok connected)
        × IsSorted tree.entities
        × ((path : Text)
            → IsRead connected.0 (last_named path connected.1) none (get path tree.entities))
  unfolding get
  rig-entities sovd_url tree h =
      let (connected, reached, k) = read_rig_state-eq-ok sovd_url tree h in
      (
        connected,
        reached,
        read_components-IsSorted connected.0 connected.1 empty_tree tree k tt,
        λ path. read_components-IsRead connected.0 path connected.1 empty_tree tree k,
      )
