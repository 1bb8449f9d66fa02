-- ===== src/Releases/Partition/Judged.antt =====
-- What the tests on the report mean.
use sumo_provision.Base.{
  ◌≡◌, ◌≢◌, ◌↔◌, refl, sym, ap, ◌∙◌, Bool, true, false, not, ◌&&◌, Option, none, some, arith, Text,
  Text_ord, Text_eq, Option_eq, Bool_eq, ◌==◌, all_iff, All, All-imp, Bool-cases, Option-cases, inl,
  inr,
}
use sumo_provision.Map.{get}
use sumo_provision.Wire.Model.{Part, Entity, Tree}
use sumo_provision.Wire.Assess.{admin_state}
use sumo_provision.Wire.Contents.{HasContent, HasContent-iff}
use sumo_provision.Releases.Partition.{observed_admin, parts_agreed, entity_agreed, carried}

-- The vehicle reports the component, not as disabled, and with the content of every part.
abbrev pub IsCarried : Option Tree → Text → Entity → Type 0
IsCarried reported path e =
    (rep : Tree) × (r : Entity) × (reported ≡ some rep)
    × (get path rep.entities ≡ some r)
    × (r.admin_disabled ≢ some true)
    × All (λ (p : Part). HasContent r.parts p.content) e.parts

-- The vehicle reports the component as enabled.
abbrev pub IsReportedOn : Option Tree → Text → Type 0
IsReportedOn reported path =
    (rep : Tree) × (r : Entity) × (reported ≡ some rep)
    × (get path rep.entities ≡ some r)
    × (r.admin_disabled ≡ some false)

pub option_bool_iff : (a b : Option Bool) → ((a == b) ≡ true) ↔ (a ≡ b)
option_bool_iff a b = (Option_eq ⦃e = Bool_eq⦄).beq_iff a b

agreed_iff :
    (r e : Entity)
    → (parts_agreed r e ≡ true) ↔ All (λ (p : Part). HasContent r.parts p.content) e.parts
unfolding parts_agreed
agreed_iff r e = (
  λ h. All-imp e.parts (λ p. (HasContent-iff r.parts p.content).0) ((all_iff _ e.parts).0 h),
  λ h. (all_iff _ e.parts).1 (All-imp e.parts (λ p. (HasContent-iff r.parts p.content).1) h),
)

-- a reported component and another that is reported at the same place
same_row :
    (rep other : Tree) (path : Text) (found : Option Entity) (r : Entity)
    → get path rep.entities ≡ found
    → ◌≡◌ {A = Option Tree} (some rep) (some other)
    → get path other.entities ≡ some r
    → found ≡ some r
same_row rep other path found r known same there =
    let trees : rep ≡ other = ground (arith, same) in
    sym known ∙ ap (λ (x : Tree). get path x.entities) trees ∙ there

carried_unknown :
    (rep : Tree) (path : Text) (e : Entity)
    → get path rep.entities ≡ none
    → carried (some rep) path e ≡ false
unfolding carried entity_agreed
carried_unknown rep path e unknown = rw (entity_agreed, unknown) (ground arith)

carried_known :
    (rep : Tree) (path : Text) (e r : Entity)
    → get path rep.entities ≡ some r
    → carried (some rep) path e ≡ (not (r.admin_disabled == some true) && parts_agreed r e)
unfolding carried entity_agreed observed_admin admin_state
carried_known rep path e r known = rw (entity_agreed, observed_admin, admin_state, known) refl

pub carried-IsCarried :
    (reported : Option Tree) (path : Text) (e : Entity)
    → carried reported path e ≡ true
    → IsCarried reported path e
unfolding carried
carried-IsCarried none path e h = cc
carried-IsCarried (some rep) path e h = elim (Option-cases (get path rep.entities)) [
  | inl unknown ↦ absurd (ground (arith, h, carried_unknown rep path e unknown))
  | inr (r, known) ↦
      let both = sym (carried_known rep path e r known) ∙ h in
      (
        rep,
        r,
        refl,
        known,
        λ off. ground (arith, both, (option_bool_iff r.admin_disabled (some true)).1 off),
        (agreed_iff r e).0 (ground (arith, both)),
      )
]

pub IsCarried-carried :
    (reported : Option Tree) (path : Text) (e : Entity)
    → IsCarried reported path e
    → carried reported path e ≡ true
IsCarried-carried none path e (rep, r, same, there, on, agreed) = cc
IsCarried-carried (some rep) path e (other, r, same, there, on, agreed) =
    let known = same_row rep other path (get path rep.entities) r refl same there in
    carried_known rep path e r known ∙ elim (Bool-cases (r.admin_disabled == some true)) [
      | inl off ↦ absurd (on ((option_bool_iff r.admin_disabled (some true)).0 off))
      | inr other_state ↦ ground (arith, other_state, (agreed_iff r e).1 agreed)
    ]

pub on_reported :
    (reported : Option Tree) (path : Text)
    → observed_admin reported path ≡ some false
    → IsReportedOn reported path
unfolding observed_admin
on_reported none path h = cc
on_reported (some rep) path h = elim (Option-cases (get path rep.entities)) [
  | inl unknown ↦ absurd (ground (arith, rw (admin_state, unknown) at h))
  | inr (r, known) ↦ (rep, r, refl, known, rw (admin_state, known) at h)
]

pub reported_on :
    (reported : Option Tree) (path : Text)
    → IsReportedOn reported path
    → observed_admin reported path ≡ some false
unfolding observed_admin
reported_on none path (rep, r, same, there, on) = cc
reported_on (some rep) path (other, r, same, there, on) =
    rw (admin_state, same_row rep other path (get path rep.entities) r refl same there) on
