-- ===== src/Releases/Publish/Interrupted.antt =====
-- What a call that publishes a component release writes, when it completes and when it stops.
use sumo_provision.Base.{
  ◌+◌, ◌≡◌, refl, ◌∙◌, ap, true, false, none, [], ◌∷◌, ◌++◌, map, arith, ok, err,
}
use sumo_provision.Base.Exec.{for_each, continue-err, pure}
use sumo_provision.Wire.Hash.{Hashing}
use sumo_provision.Releases.Tables.{internal, Db, NewComponentRelease}
use sumo_provision.Releases.Identity.{component_identity}
use sumo_provision.Releases.Publish.{
  find, component_ref, is_component, insert_component, insert_part, cut_component,
  create_component_release,
}
use sumo_provision.Releases.Publish.Parts.{
  duplicated, clashing, part_row, for_each-insert_part, for_each-insert_part_err,
}
use sumo_provision.Releases.Publish.Idempotent.{
  component_row, create_fresh, create_found, find_new, cut_components, row_wanted,
}

module _ (hashing : Hashing) where
  -- No release of this entity has the identity of the request.
  abbrev pub IsNew : NewComponentRelease → Db → Type 0
  IsNew req s =
      find (is_component req.entity_path (component_identity hashing req.entity_kind req.parts))
        s.components
      ≡ none

  abbrev with_release : NewComponentRelease → Db → Db
  with_release req s = record s {
    components = s.components ++ component_row hashing req s ∷ [];
    next_component = s.next_component + 1;
  }

  cut_err :
      (req : NewComponentRelease) (s : Db)
      → (for_each (insert_part hashing s.next_component) req.parts (with_release req s)).0
        ≡ err internal
      → (cut_component hashing req s).0 ≡ err internal
  unfolding cut_component insert_component
  cut_err req s h =
      continue-err (λ _. pure (component_ref (component_row hashing req s) false))
        (for_each (insert_part hashing s.next_component) req.parts (with_release req s)) h

  -- Cutting a new component release whose parts have distinct ids, with an id that no part row has
  -- yet, succeeds: the answer is the new release, not reused, and the release and a row for each
  -- part are added.
  pub create_complete :
      (req : NewComponentRelease) (s : Db)
      → IsNew req s
      → clashing s.next_component s.component_parts req.parts ≡ false
      → duplicated req.parts ≡ false
      → create_component_release hashing req s ≡ (
        ok (component_ref (component_row hashing req s) false),
        record s {
          components = s.components ++ component_row hashing req s ∷ [];
          next_component = s.next_component + 1;
          component_parts = s.component_parts ++ map (part_row hashing s.next_component) req.parts;
        },
      )
  unfolding cut_component insert_component
  create_complete req s new c d =
      create_fresh hashing req s new
      ∙ rw (for_each-insert_part hashing s.next_component req.parts (with_release req s) c d) refl

  -- When two parts of a request that cuts a new component release have one id, the call fails with
  -- an internal error, but its release row stays: the same call made again answers that the
  -- release exists and is reused.
  pub create-interrupted :
      (req : NewComponentRelease) (s : Db)
      → IsNew req s
      → duplicated req.parts ≡ true
      → ((create_component_release hashing req s).0 ≡ err internal)
        × ((create_component_release hashing req (create_component_release hashing req s).1).0
            ≡ ok (component_ref (component_row hashing req s) true))
  create-interrupted req s new d = (
    rw (create_fresh hashing req s new) (
        cut_err req s (
          for_each-insert_part_err hashing s.next_component req.parts (with_release req s)
            (ground arith))),
    ap (λ r. r.0)
        (create_found hashing req (create_component_release hashing req s).1
          (component_row hashing req s)
          (rw (create_fresh hashing req s new, cut_components hashing req s)
            (find_new
              (is_component req.entity_path (component_identity hashing req.entity_kind req.parts))
              (component_row hashing req s) s.components new (row_wanted hashing req s)))),
  )
