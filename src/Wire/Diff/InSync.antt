-- ===== src/Wire/Diff/InSync.antt =====
-- When `diff` finds nothing.
use sumo_provision.Base.{
  ◌≡◌, refl, ◌↔◌, Bool, true, not, ◌&&◌, Option, none, some, List, [], arith, Text, Text_ord,
  Text_eq, All, all, is_empty, is_empty-append, is_empty-flat_map, is_empty-map, is_empty-filter,
  all-map, all-All, is_empty_iff, is_some, &&-×, text_eq_iff, inl, inr, Option-cases,
}
use sumo_provision.Map.{get, contains_key, IsSorted, all-get}
use sumo_provision.Wire.Model.{Part, Entity, Tree, entity-some}
use sumo_provision.Wire.Diff.{
  PartChange, desired_change, diff_parts, diff, diff_is_empty, desired_part_changes,
  removed_part_changes,
}
use sumo_provision.Wire.Slots.{by_id, contents, get-contents}

-- Every desired part is observed at its slot with its content, and no other slot is observed.
abbrev pub PartsAgree : List Part → List Part → Type 0
PartsAgree obs des =
    All (λ p. get p.id (contents obs) ≡ some p.content) des
    × All (λ p. contains_key p.id (by_id des) ≡ true) obs

abbrev pub EntitiesAgree : Option Entity → Option Entity → Type 0
EntitiesAgree none none = Unit
EntitiesAgree none (some des) = ⊥
EntitiesAgree (some obs) none = ⊥
EntitiesAgree (some obs) (some des) = PartsAgree obs.parts des.parts

abbrev pub InSync : Tree → Tree → Type 0
InSync observed desired =
    (path : Text) → EntitiesAgree (get path observed.entities) (get path desired.entities)

desired_change_iff :
    (entity : Text) (obs : List Part) (dp : Part)
    → (is_empty (desired_change entity (by_id obs) dp) ≡ true)
      ↔ (get dp.id (contents obs) ≡ some dp.content)
unfolding desired_change is_empty
desired_change_iff entity obs dp =
    rw (get-contents dp.id obs) (elim (Option-cases (get dp.id (by_id obs))) [
      | inl missing ↦ rw missing (ground arith)
      | inr (op, found) ↦ rw found (ground (arith, text_eq_iff op.content dp.content))
    ])

is_empty-diff_parts :
    (entity : Text) (obs des : List Part)
    → is_empty (diff_parts entity obs des) ≡ (
        all (λ dp. is_empty (desired_change entity (by_id obs) dp)) des
        && all (λ op. not (not (contains_key op.id (by_id des)))) obs)
unfolding diff_parts
is_empty-diff_parts entity obs des =
    simp (is_empty-append, is_empty-flat_map, is_empty-map, is_empty-filter)

not-not_iff : (b : Bool) → (not (not b) ≡ true) ↔ (b ≡ true)
not-not_iff b = ground arith

pub diff_parts_iff :
    (entity : Text) (obs des : List Part)
    → (is_empty (diff_parts entity obs des) ≡ true) ↔ PartsAgree obs des
diff_parts_iff entity obs des = rw is_empty-diff_parts (
    &&-× _ _ (all-All _ des (desired_change_iff entity obs))
      (all-All _ obs (λ op. not-not_iff (contains_key op.id (by_id des)))))

-- What an entry of the desired or the observed map contributes nothing to the diff by.
abbrev in_tree : Tree → Text × Entity → Bool
in_tree t e = not (not (contains_key e.0 t.entities))

abbrev no_change : Tree → Text × Entity → Bool
no_change observed e = is_empty (desired_part_changes observed e)

abbrev no_removal : Tree → Text × Entity → Bool
no_removal desired e = is_empty (removed_part_changes desired e)

is_empty-diff :
    (observed desired : Tree)
    → diff_is_empty (diff observed desired) ≡ (
        all (in_tree observed) desired.entities
        && all (in_tree desired) observed.entities
        && (all (no_change observed) desired.entities
            && all (no_removal desired) observed.entities))
unfolding diff_is_empty diff
is_empty-diff observed desired = simp (is_empty-append, is_empty-flat_map, is_empty-filter, all-map)

-- The four tests at one path.
tests_at :
    (observed desired : Tree) (path : Text)
    → ((des : Entity)
        → get path desired.entities ≡ some des
        → (not (not (contains_key path observed.entities)) ≡ true)
          × (is_empty (desired_part_changes observed (path, des)) ≡ true))
    → ((obs : Entity)
        → get path observed.entities ≡ some obs
        → not (not (contains_key path desired.entities)) ≡ true)
    → EntitiesAgree (get path observed.entities) (get path desired.entities)
tests_at observed desired path hd ho =
    at (get path observed.entities) (get path desired.entities) refl refl
  where
    at :
        (o d : Option Entity)
        → get path observed.entities ≡ o
        → get path desired.entities ≡ d
        → EntitiesAgree o d
    at none none p q = tt
    at none (some des) p q = ground (arith, hd des q)
    at (some obs) none p q = ground (arith, ho obs p)
    at (some obs) (some des) p q =
        (diff_parts_iff path obs.parts des.parts).0
          (rw (entity-some path observed p) at (hd des q).1)

agree_at :
    (observed desired : Tree) (path : Text) (des : Entity)
    → EntitiesAgree (get path observed.entities) (get path desired.entities)
    → get path desired.entities ≡ some des
    → (contains_key path observed.entities ≡ true)
      × (is_empty (desired_part_changes observed (path, des)) ≡ true)
agree_at observed desired path des h q = at (get path observed.entities) refl (rw q at h)
  where
    at :
        (o : Option Entity)
        → get path observed.entities ≡ o
        → EntitiesAgree o (some des)
        → (contains_key path observed.entities ≡ true)
          × (is_empty (desired_part_changes observed (path, des)) ≡ true)
    at none p h = absurd h
    at (some obs) p h =
        (rw p, rw (entity-some path observed p) ((diff_parts_iff path obs.parts des.parts).1 h))

-- For two trees in the order of their maps, the diff is empty exactly when they have the same
-- entities and at each of them every desired part is observed in its slot with its content and no
-- other slot is observed.
pub diff-InSync :
    (observed desired : Tree)
    → IsSorted observed.entities
    → IsSorted desired.entities
    → (diff_is_empty (diff observed desired) ≡ true) ↔ InSync observed desired
diff-InSync observed desired so sd = rw is_empty-diff (
  λ h.
      let (a, b, c, _) = split h in
      λ path.
        tests_at observed desired path
          (λ des q. (
            (all-get (in_tree observed) desired.entities sd).0 a path des q,
            (all-get (no_change observed) desired.entities sd).0 c path des q,
          ))
          (λ obs q. (all-get (in_tree desired) observed.entities so).0 b path obs q),
  λ h.
      every
        ((all-get (in_tree observed) desired.entities sd).1
          (λ path des q. ground (arith, (agree_at observed desired path des (h path) q).0)))
        ((all-get (in_tree desired) observed.entities so).1
          (λ path obs q. wanted path obs (h path) q))
        ((all-get (no_change observed) desired.entities sd).1
          (λ path des q. (agree_at observed desired path des (h path) q).1))
        ((all-get (no_removal desired) observed.entities so).1
          (λ path obs q. gone path obs (wanted path obs (h path) q))),
)
  where
    wanted :
        (path : Text) (obs : Entity)
        → EntitiesAgree (get path observed.entities) (get path desired.entities)
        → get path observed.entities ≡ some obs
        → not (not (contains_key path desired.entities)) ≡ true
    wanted path obs h q = at (get path desired.entities) (rw q at h)
      where
        at : (d : Option Entity) → EntitiesAgree (some obs) d → not (not (is_some d)) ≡ true
        at none h = absurd h
        at (some des) h = refl

    gone :
        (path : Text) (obs : Entity)
        → not (not (contains_key path desired.entities)) ≡ true
        → is_empty (removed_part_changes desired (path, obs)) ≡ true
    gone path obs h =
        rw ((not-not_iff (contains_key path desired.entities)).0 h)
          ((is_empty_iff {A = PartChange} []).1 refl)

    every :
        {a b c d : Bool} → a ≡ true → b ≡ true → c ≡ true → d ≡ true → (a && b && (c && d)) ≡ true
    every p q r s = ground arith

    split :
        {a b c d : Bool}
        → (a && b && (c && d)) ≡ true
        → (a ≡ true) × (b ≡ true) × (c ≡ true) × (d ≡ true)
    split h = ground arith
