-- ===== src/Releases/Publish/Parts.antt =====
-- The loop over the parts of a new component release.
use sumo_provision.Base.{
  ℕ, ◌≡◌, refl, ◌∙◌, sym, ap, Bool, true, false, ◌||◌, List, [], ◌∷◌, ◌++◌, map, arith, Text_eq,
  text_eq_iff, ℕ_eq, nat_eq_iff, ◌==◌, any, any-append, Bool-cases, inl, inr, ok, err,
}
use sumo_provision.Base.Exec.{for_each}
use mathlib.Core.List.{append_assoc, append-nil}
use sumo_provision.Wire.Hash.{Hashing, to_prefixed}
use sumo_provision.Releases.Tables.{internal, PartRow, Db, NewPart}
use sumo_provision.Releases.Publish.{same_part, insert_part}

-- Two parts of a request have one id.
unfoldable pub duplicated : List NewPart → Bool
unfolding any
duplicated [] = false
duplicated (p ∷ ps) = any (λ (q : NewPart). q.id == p.id) ps || duplicated ps

-- A part of the request has the key of a row.
unfoldable pub clashing : ℕ → List PartRow → List NewPart → Bool
unfolding any
clashing id rows [] = false
clashing id rows (p ∷ ps) = any (same_part id p.id) rows || clashing id rows ps

module _ (hashing : Hashing) where
  open hashing use {hex}

  abbrev pub part_row : ℕ → NewPart → PartRow
  part_row id p = record {
    release_id = id;
    part_id = p.id;
    part_kind = p.kind;
    content_hash = to_prefixed hex p.content;
  }

  -- One more row clashes with the parts of its id.
  clashing-row :
      (id : ℕ) (p : NewPart) (rows : List PartRow) (ps : List NewPart)
      → clashing id (rows ++ part_row id p ∷ []) ps
        ≡ (clashing id rows ps || any (λ (q : NewPart). q.id == p.id) ps)
  unfolding clashing any
  clashing-row id p rows [] = refl
  clashing-row id p rows (q ∷ qs) = ground (
    arith,
    clashing-row id p rows qs,
    any-append (same_part id q.id) rows (part_row id p ∷ []),
    nat_eq_iff id id,
    text_eq_iff p.id q.id,
    text_eq_iff q.id p.id,
  )

  abbrev with_parts : ℕ → List NewPart → Db → Db
  with_parts id ps s = record s { component_parts = s.component_parts ++ map (part_row id) ps }

  -- Without a clash and without a repeated id, every part gets its row.
  pub for_each-insert_part :
      (id : ℕ) (ps : List NewPart) (s : Db)
      → clashing id s.component_parts ps ≡ false
      → duplicated ps ≡ false
      → for_each (insert_part hashing id) ps s ≡ (ok tt, with_parts id ps s)
  unfolding clashing duplicated insert_part for_each
  for_each-insert_part id [] s c d =
      ap (λ r. (ok tt, record s { component_parts = r })) (sym (append-nil s.component_parts))
  for_each-insert_part id (p ∷ ps) s c d =
      elim (Bool-cases (any (same_part id p.id) s.component_parts)) [
        | inl found ↦ absurd (ground arith)
        | inr free ↦ rw free (
            for_each-insert_part id ps (with_parts id (p ∷ []) s)
              (ground (arith, clashing-row id p s.component_parts ps)) (ground arith)
            ∙ ap (λ r. (ok tt, record s { component_parts = r }))
                (append_assoc s.component_parts (part_row id p ∷ []) (map (part_row id) ps)))
      ]

  -- With either, the loop stops with an internal error.
  pub for_each-insert_part_err :
      (id : ℕ) (ps : List NewPart) (s : Db)
      → (clashing id s.component_parts ps || duplicated ps) ≡ true
      → (for_each (insert_part hashing id) ps s).0 ≡ err internal
  unfolding clashing duplicated insert_part for_each
  for_each-insert_part_err id [] s h = cc
  for_each-insert_part_err id (p ∷ ps) s h =
      elim (Bool-cases (any (same_part id p.id) s.component_parts)) [
        | inl found ↦ rw found refl
        | inr free ↦ rw free (
            for_each-insert_part_err id ps (with_parts id (p ∷ []) s)
              (ground (arith, clashing-row id p s.component_parts ps)))
      ]
