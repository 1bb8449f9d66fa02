-- ===== src/Wire/Assess/Members.antt =====
-- Which components an assessment lists.
use sumo_provision.Base.{
  ◌≡◌, refl, ◌∙◌, Bool, true, false, not, ◌&&◌, ◌||◌, Option, none, some, List, [], ◌∷◌, ◌++◌, map,
  flat_map, arith, Text, Text_ord, Text_eq, option_eq, bool_eq, Option_eq, Bool_eq, if◌then◌else◌,
  any, is_empty, is_empty-append, is_some_and, any-filter, any-map, any-append, any-flat_map,
  any-ext, any-const_false, Option-cases, inl, inr, ◌==◌,
}
use sumo_provision.Map.{Map, get, has, contains_key, IsSorted, any-at, has-foldl}
use sumo_provision.Wire.Model.{Part, Entity, Tree, entity_or_default}
use sumo_provision.Wire.Diff.{
  PartChange, part_change, Change, removed, desired_change, diff_parts, diff, removed_part_changes,
}
use sumo_provision.Wire.Assess.{
  admin_state, is_new, is_drift, admin_differs, actionable_set, assess_tree,
}

any-map_change :
    (h : Text → Bool) (path : Text) (c : Change) (ps : List Part)
    → any (λ x. h x.entity) (map (part_change path c) ps)
      ≡ (h path && not (is_empty (map (part_change path c) ps)))
unfolding any is_empty
any-map_change h path c [] = ground arith
any-map_change h path c (p ∷ ps) = ground (arith, any-map_change h path c ps)

any-desired_change :
    (h : Text → Bool) (path : Text) (obs : Map Text Part) (p : Part)
    → any (λ x. h x.entity) (desired_change path obs p)
      ≡ (h path && not (is_empty (desired_change path obs p)))
unfolding any is_empty desired_change
any-desired_change h path obs p = ground arith

-- A test of where a change stands, on changes that stand at one path.
any-&&-append :
    (h : PartChange → Bool) (b : Bool) (xs ys : List PartChange)
    → any h xs ≡ (b && not (is_empty xs))
    → any h ys ≡ (b && not (is_empty ys))
    → any h (xs ++ ys) ≡ (b && not (is_empty (xs ++ ys)))
any-&&-append h b xs ys p q = rw (any-append, is_empty-append, p, q) (ground arith)

any-desired :
    (h : Text → Bool) (path : Text) (obs : Map Text Part) (ps : List Part)
    → any (λ x. h x.entity) (flat_map (desired_change path obs) ps)
      ≡ (h path && not (is_empty (flat_map (desired_change path obs) ps)))
unfolding flat_map any is_empty
any-desired h path obs [] = ground arith
any-desired h path obs (p ∷ ps) =
    any-&&-append (λ x. h x.entity) (h path) (desired_change path obs p)
      (flat_map (desired_change path obs) ps) (any-desired_change h path obs p)
      (any-desired h path obs ps)

any-diff_parts :
    (h : Text → Bool) (path : Text) (obs des : List Part)
    → any (λ x. h x.entity) (diff_parts path obs des)
      ≡ (h path && not (is_empty (diff_parts path obs des)))
unfolding diff_parts
any-diff_parts h path obs des =
    any-&&-append (λ x. h x.entity) (h path) _ _ (any-desired h path _ des)
      (any-map_change h path removed _)

-- a drifted part of an entity that is not desired counts for nothing
removed_nowhere :
    (observed desired : Tree) (id : Text) (e : Text × Entity)
    → any
        (λ x. is_drift observed desired x.entity && x.entity == id)
        (removed_part_changes desired e)
      ≡ false
unfolding is_drift
removed_nowhere observed desired id (path, obs) = elim (Option-cases (get path desired.entities)) [
  | inl gone ↦
      rw (gone, any-diff_parts (λ t. is_drift observed desired t && t == id))
        (rw (gone, is_drift) refl)
  | inr (want, kept) ↦ rw kept (unfold any in refl)
]

module _ (observed desired : Tree) (sd : IsSorted desired.entities) (id : Text) where
  new_at :
      any (λ x. is_new desired x && x == id) (diff observed desired).entities_added
      ≡ is_some_and
          (λ e. not (contains_key id observed.entities) && not e.disabled)
          (get id desired.entities)
  unfolding diff is_new
  new_at =
      rw (any-filter, any-map)
        (any-ext desired.entities (λ e.
            regroup (not (contains_key e.0 observed.entities)) (is_new desired e.0) (e.0 == id))
          ∙ any-at (λ k _. not (contains_key k observed.entities) && is_new desired k) id
              desired.entities sd
          ∙ at (get id desired.entities) refl)
    where
      regroup : (a b c : Bool) → (a && (b && c)) ≡ ((a && b) && c)
      regroup a b c = ground arith

      at :
          (w : Option Entity)
          → get id desired.entities ≡ w
          → is_some_and (λ _. not (contains_key id observed.entities) && is_new desired id) w
            ≡ is_some_and (λ e. not (contains_key id observed.entities) && not e.disabled) w
      at none q = refl
      at (some want) q = rw (q, is_new)

  drift_at :
      any
        (λ (x : PartChange). is_drift observed desired x.entity && x.entity == id)
        (diff observed desired).parts
      ≡ is_some_and
          (λ e.
            is_drift observed desired id
            && not (is_empty (diff_parts id (entity_or_default id observed).parts e.parts)))
          (get id desired.entities)
  unfolding diff
  drift_at =
      rw (any-append, any-flat_map, any-flat_map)
        (simp (removed_nowhere, any-const_false)
          (or_false _
            ∙ any-ext desired.entities (λ e.
              any-diff_parts here e.0 (entity_or_default e.0 observed).parts e.1.parts
              ∙ regroup (is_drift observed desired e.0) (e.0 == id) _)
            ∙ any-at
                (λ k e.
                  is_drift observed desired k
                  && not (is_empty (diff_parts k (entity_or_default k observed).parts e.parts)))
                id desired.entities sd))
    where
      here : Text → Bool
      here t = is_drift observed desired t && t == id

      or_false : (b : Bool) → (b || false) ≡ b
      or_false b = ground arith

      regroup : (a b c : Bool) → ((a && b) && c) ≡ ((a && c) && b)
      regroup a b c = ground arith

-- What makes one desired component be listed.
abbrev pub wants_update : Tree → Text → Entity → Bool
wants_update observed id want =
    if want.disabled
    then admin_state observed id == some false
    else not (contains_key id observed.entities)
      || admin_state observed id == some true
      || not (is_empty (diff_parts id (entity_or_default id observed).parts want.parts))

-- The components that an assessment is to list.
unfoldable pub needs_update : Tree → Tree → Text → Bool
needs_update observed desired id = is_some_and (wants_update observed id) (get id desired.entities)

drift-some :
    (observed desired : Tree) (id : Text) (want : Entity)
    → get id desired.entities ≡ some want
    → is_drift observed desired id ≡ (not want.disabled || admin_state observed id == some false)
unfolding is_drift
drift-some observed desired id want q = rw (q, is_drift)

three_tests :
    (observed desired : Tree) (id : Text) (w : Option Entity)
    → get id desired.entities ≡ w
    → (is_some_and (λ e. not (contains_key id observed.entities) && not e.disabled) w
        || is_some_and
            (λ e.
              is_drift observed desired id
              && not (is_empty (diff_parts id (entity_or_default id observed).parts e.parts)))
            w
        || is_some_and (admin_differs observed id) w)
      ≡ is_some_and (wants_update observed id) w
unfolding admin_differs option_eq bool_eq
three_tests observed desired id none q = refl
three_tests observed desired id (some want) q =
    rw (drift-some observed desired id want q) (ground arith)

-- For a desired tree in the order of its map, an assessment lists exactly the desired components
-- that need an update: a disabled one that the device reports enabled; an enabled one that the
-- device does not have, reports disabled, or has with other parts.
pub has-assess_tree :
    (observed desired : Tree)
    → IsSorted desired.entities
    → (id : Text)
    → has id (assess_tree observed desired).components ≡ needs_update observed desired id
unfolding assess_tree actionable_set needs_update has
has-assess_tree observed desired sd id =
    rw
      (
        has-foldl,
        has-foldl,
        has-foldl,
        new_at observed desired sd id,
        drift_at observed desired sd id,
        any-at (admin_differs observed) id desired.entities sd,
      )
      (three_tests observed desired id (get id desired.entities) refl)
