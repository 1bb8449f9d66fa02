-- ===== src/Orchestrator/Jobs/Judged.antt =====
-- What the guards of the loop and `component_unchanged` test.
use sumo_provision.Base.{
  ◌≡◌, ◌≢◌, ◌↔◌, refl, sym, ap, ◌∙◌, Bool, true, false, not, ◌&&◌, Option, none, some, List, [],
  ◌∷◌, arith, Text, Text_ord, Text_eq, ◌==◌, text_eq, text_eq_iff, Any, All, all, all_iff, All-imp,
  contains, is_empty, is_empty_iff, is_some, is_some_and, any, Bool-cases, Option-cases, inl, inr,
}
use mathlib.Core.Path.{subst}
use sumo_provision.Map.{get}
use sumo_provision.Wire.Model.{ContentHash, Part, Entity, Tree}
use sumo_provision.Wire.Contents.{HasContent, HasContent-iff}
use sumo_provision.Orchestrator.Model.{L1Part, L1Component}
use sumo_provision.Orchestrator.Jobs.{part_present, component_unchanged, selected}

-- The filter, when there is one, names the component, and the vehicle advertises it.
abbrev pub IsSelected : Tree → Option (List Text) → L1Component → Type 0
IsSelected observed only c =
    ((allow : List Text) → only ≡ some allow → Any (λ name. name ≡ c.component) allow)
    × ((e : Entity) × (get c.component observed.entities ≡ some e))

-- The component has parts, and the vehicle reports it with the content of every one of them.
abbrev pub IsUnchanged : Tree → L1Component → Type 0
IsUnchanged observed c =
    (e : Entity) × (get c.component observed.entities ≡ some e)
    × (c.parts ≢ [])
    × All
        (λ (p : L1Part). (inner : ContentHash) × (p.inner ≡ some inner) × HasContent e.parts inner)
        c.parts

contains_iff :
    (names : List Text) (name : Text) → (contains names name ≡ true) ↔ Any (λ n. n ≡ name) names
unfolding contains
contains_iff [] name = (λ h. cc, λ h. absurd h)
contains_iff (n ∷ names) name = (
  λ h. elim (Bool-cases (text_eq n name)) [
    | inl here ↦ inl ((text_eq_iff n name).0 here)
    | inr other ↦ inr ((contains_iff names name).0 (ground (arith, h, other)))
  ],
  λ h. elim h [
    | inl here ↦ ground (arith, (text_eq_iff n name).1 here)
    | inr later ↦ ground (arith, (contains_iff names name).1 later)
  ],
)

part_absent : (parts : List Part) (p : L1Part) → p.inner ≡ none → part_present parts p ≡ false
unfolding part_present
part_absent parts p missing = rw (part_present, missing) refl

part_given :
    (parts : List Part) (p : L1Part) {inner : ContentHash}
    → p.inner ≡ some inner
    → part_present parts p ≡ any (λ (op : Part). op.content == inner) parts
unfolding part_present
part_given parts p given = rw (part_present, given) refl

abbrev IsPresent : List Part → L1Part → Type 0
IsPresent parts p = (inner : ContentHash) × (p.inner ≡ some inner) × HasContent parts inner

part_present-IsPresent :
    (parts : List Part) (p : L1Part) → part_present parts p ≡ true → IsPresent parts p
part_present-IsPresent parts p h = elim (Option-cases p.inner) [
  | inl missing ↦ absurd (ground (arith, h, part_absent parts p missing))
  | inr (inner, given) ↦
      (inner, given, (HasContent-iff parts inner).0 (sym (part_given parts p given) ∙ h))
]

IsPresent-part_present :
    (parts : List Part) (p : L1Part) → IsPresent parts p → part_present parts p ≡ true
IsPresent-part_present parts p (inner, given, has) =
    part_given parts p given ∙ (HasContent-iff parts inner).1 has

unchanged_unknown :
    (c : L1Component) (observed : Tree)
    → get c.component observed.entities ≡ none
    → component_unchanged c observed ≡ false
unfolding component_unchanged
unchanged_unknown c observed unknown = rw (component_unchanged, unknown) refl

unchanged_known :
    (c : L1Component) (observed : Tree) {e : Entity}
    → get c.component observed.entities ≡ some e
    → component_unchanged c observed
      ≡ (not (is_empty c.parts) && all (part_present e.parts) c.parts)
unfolding component_unchanged
unchanged_known c observed known = rw (component_unchanged, known) refl

pub component_unchanged-IsUnchanged :
    (c : L1Component) (observed : Tree)
    → component_unchanged c observed ≡ true
    → IsUnchanged observed c
component_unchanged-IsUnchanged c observed h =
    elim (Option-cases (get c.component observed.entities)) [
      | inl unknown ↦ absurd (ground (arith, h, unchanged_unknown c observed unknown))
      | inr (e, known) ↦
          let both = sym (unchanged_known c observed known) ∙ h in
          (
            e,
            known,
            λ nothing. ground (arith, both, (is_empty_iff c.parts).1 nothing),
            All-imp c.parts (part_present-IsPresent e.parts)
                ((all_iff (part_present e.parts) c.parts).0 (ground (arith, both))),
          )
    ]

pub IsUnchanged-component_unchanged :
    (c : L1Component) (observed : Tree)
    → IsUnchanged observed c
    → component_unchanged c observed ≡ true
IsUnchanged-component_unchanged c observed (e, known, has_parts, present) =
    unchanged_known c observed known ∙ elim (Bool-cases (is_empty c.parts)) [
      | inl nothing ↦ absurd (has_parts ((is_empty_iff c.parts).0 nothing))
      | inr full ↦ ground (
        arith,
        full,
        (all_iff (part_present e.parts) c.parts).1
            (All-imp c.parts (IsPresent-part_present e.parts) present),
      )
    ]

-- the filter by itself
abbrev admits : Option (List Text) → Text → Bool
admits only name = not (is_some_and (λ allow. not (contains allow name)) only)

admits-IsAdmitted :
    (only : Option (List Text)) (name : Text)
    → admits only name ≡ true
    → (allow : List Text) → only ≡ some allow
    → Any (λ n. n ≡ name) allow
admits-IsAdmitted none name h allow same = cc
admits-IsAdmitted (some names) name h allow same =
    subst (λ ns. Any (λ n. n ≡ name) ns) (ground (arith, same))
      ((contains_iff names name).0 (ground (arith, h)))

IsAdmitted-admits :
    (only : Option (List Text)) (name : Text)
    → ((allow : List Text) → only ≡ some allow → Any (λ n. n ≡ name) allow)
    → admits only name ≡ true
IsAdmitted-admits none name h = refl
IsAdmitted-admits (some names) name h = ground (arith, (contains_iff names name).1 (h names refl))

pub selected-IsSelected :
    (observed : Tree) (only : Option (List Text)) (c : L1Component)
    → selected observed only c ≡ true
    → IsSelected observed only c
unfolding selected
selected-IsSelected observed only c h = (
  admits-IsAdmitted only c.component (ground (arith, h)),
  elim (Option-cases (get c.component observed.entities)) [
    | inl unknown ↦ absurd (ground (arith, h, ap (λ o. is_some o) unknown))
    | inr (e, known) ↦ (e, known)
  ],
)

pub IsSelected-selected :
    (observed : Tree) (only : Option (List Text)) (c : L1Component)
    → IsSelected observed only c
    → selected observed only c ≡ true
unfolding selected
IsSelected-selected observed only c (admitted, (e, known)) =
    rw known (ground (arith, IsAdmitted-admits only c.component admitted))
