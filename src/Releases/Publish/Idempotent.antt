-- ===== src/Releases/Publish/Idempotent.antt =====
-- A second call with the same content.
use sumo_provision.Base.{
  ℕ, ◌+◌, ◌≡◌, refl, Bool, true, false, none, some, List, [], ◌∷◌, ◌++◌, arith, Text_eq,
  text_eq_iff, ℕ_eq, Option_eq, option_eq, Option-cases, inl, inr, ok,
}
use sumo_provision.Base.Exec.{pure, continue-keeps, for_each-keeps, for_each}
use sumo_provision.Wire.Hash.{Hashing}
use sumo_provision.Releases.Tables.{ComponentRow, Db, NewPart, NewComponentRelease}
use sumo_provision.Releases.Identity.{component_identity}
use sumo_provision.Releases.Publish.{
  find, component_ref, is_component, insert_component, insert_part, cut_component,
  create_component_release,
}

pub find_new :
    {A : Type 0} (p : A → Bool) (x : A) (xs : List A)
    → find p xs ≡ none
    → p x ≡ true
    → find p (xs ++ x ∷ []) ≡ some x
unfolding find
find_new p x [] h k = rw k
find_new p x (y ∷ ys) h k = ground (arith, find_new p x ys)

module _ (hashing : Hashing) where
  -- The parts are written to another table.
  part_components :
      (id : ℕ) (p : NewPart) (s : Db) → (insert_part hashing id p s).1.components ≡ s.components
  unfolding insert_part
  part_components id p s = ground arith

  -- The row that a call leaves behind.
  abbrev pub component_row : NewComponentRelease → Db → ComponentRow
  component_row req s = record {
    id = s.next_component;
    entity_path = req.entity_path;
    entity_kind = req.entity_kind;
    version = req.version;
    identity_hash = some (component_identity hashing req.entity_kind req.parts);
    created_at = s.now;
  }

  abbrev wanted : NewComponentRelease → ComponentRow → Bool
  wanted req = is_component req.entity_path (component_identity hashing req.entity_kind req.parts)

  pub cut_components :
      (req : NewComponentRelease) (s : Db)
      → (cut_component hashing req s).1.components ≡ s.components ++ component_row req s ∷ []
  unfolding cut_component insert_component
  cut_components req s =
      let id = s.next_component in
      let s' : Db = record s {
        components = s.components ++ component_row req s ∷ [];
        next_component = s.next_component + 1;
      } in
      continue-keeps (λ (t : Db). t.components) (pure (component_ref (component_row req s) false))
        (for_each (insert_part hashing id) req.parts s').0 s'
        (for_each (insert_part hashing id) req.parts s').1 (λ t. refl)
        (for_each-keeps (λ (t : Db). t.components) (insert_part hashing id) (part_components id)
          req.parts s')

  pub row_wanted : (req : NewComponentRelease) (s : Db) → wanted req (component_row req s) ≡ true
  unfolding option_eq
  row_wanted req s = ground (
    arith,
    text_eq_iff req.entity_path req.entity_path,
    text_eq_iff (component_identity hashing req.entity_kind req.parts)
        (component_identity hashing req.entity_kind req.parts),
  )

  -- What the handler does when the lookup finds nothing, and when it finds a row.
  pub create_fresh :
      (req : NewComponentRelease) (s : Db)
      → find (wanted req) s.components ≡ none
      → create_component_release hashing req s ≡ cut_component hashing req s
  unfolding create_component_release
  create_fresh req s fresh = rw (fresh, create_component_release) refl

  pub create_found :
      (req : NewComponentRelease) (s : Db) (row : ComponentRow)
      → find (wanted req) s.components ≡ some row
      → create_component_release hashing req s ≡ (ok (component_ref row true), s)
  unfolding create_component_release
  create_found req s row old = rw (old, create_component_release) refl

  -- After any call, failed or not, the row is there.
  pub find-create :
      (req : NewComponentRelease) (s : Db)
      → (row : ComponentRow) × (find
            (wanted req)
            (create_component_release hashing req s).1.components
          ≡ some row)
  find-create req s = elim (Option-cases (find (wanted req) s.components)) [
    | inl fresh ↦ (
      component_row req s,
      rw (create_fresh req s fresh, cut_components req s)
          (find_new (wanted req) (component_row req s) s.components fresh (row_wanted req s)),
    )
    | inr (row, old) ↦ (row, rw (create_found req s row old) old)
  ]

  -- Whether a call to publish a component release succeeded or failed, the same call made again
  -- answers with a release, says that it is reused, and changes nothing.
  pub create-again :
      (req : NewComponentRelease) (s : Db)
      → (row : ComponentRow) × (create_component_release hashing req
            (create_component_release hashing req s).1
          ≡ (ok (component_ref row true), (create_component_release hashing req s).1))
  create-again req s =
      let r = find-create req s in
      (r.0, create_found req (create_component_release hashing req s).1 r.0 r.1)
