-- ===== src/Releases/Partition/Placed.antt =====
-- Where each component of the resolved tree goes.
use sumo_provision.Base.{
  ℕ, suc, ◌≡◌, ◌≢◌, ◌⊎◌, refl, ap, Bool, true, false, Option, none, some, List, [], ◌∷◌, map, arith,
  Text, Text_ord, Text_eq, Option_eq, Bool_eq, ◌==◌, text_eq, text_eq_iff, if◌then◌else◌, All,
  is_empty, is_empty_iff, is_some_and, Bool-cases, inl, inr,
}
use mathlib.Core.Path.{subst}
use sumo_provision.Map.{Map, get, IsSorted, get-Below}
use sumo_provision.Wire.Model.{Entity, Tree}
use sumo_provision.Releases.Partition.{
  L1Split, observed_admin, carried, place, partition_entries, partition_l1_components,
}
use sumo_provision.Releases.Partition.Judged.{
  IsCarried, IsReportedOn, option_bool_iff, carried-IsCarried, IsCarried-carried, on_reported,
  reported_on,
}
use sumo_provision.Releases.Partition.Classes.{builds, switches_off, leaves_alone}

-- how often a name is in a list
abbrev pub times : Text → List Text → ℕ
times path [] = 0
times path (n ∷ names) = let rest = times path names in if text_eq n path then suc rest else rest

-- how often a component is in the three lists: to be built, to be switched off, and skipped
abbrev pub places : Text → L1Split → ℕ × ℕ × ℕ
places path split = (
  times path (map (λ e. e.0) split.included),
  times path (map (λ e. e.0) split.disabled),
  times path split.skipped,
)

-- The place of a component.
abbrev pub IsPlaced : Option Tree → Text → Entity → ℕ × ℕ × ℕ → Type 0
IsPlaced reported path e found =
    ((found ≡ (1, 0, 0)) × (e.disabled ≡ false) × (e.parts ≢ []) × ¬ IsCarried reported path e)
    ⊎ (((found ≡ (0, 1, 0)) × (e.disabled ≡ true) × IsReportedOn reported path)
        ⊎ (((found ≡ (0, 0, 1))
              × (((e.disabled ≡ true) × ¬ IsReportedOn reported path)
                  ⊎ ((e.disabled ≡ false) × (e.parts ≢ []) × IsCarried reported path e)))
            ⊎ ((found ≡ (0, 0, 0)) × (e.disabled ≡ false) × (e.parts ≡ []))))

abbrev count : Bool → ℕ
count true = 1
count false = 0

module _ (reported : Option Tree) (path : Text) where
  none_after :
      (p : Text) (m : Map Text Entity)
      → text_eq p path ≡ true
      → All (λ e. Text_ord.lt p e.0 ≡ true) m
      → get path m ≡ none
  none_after p m here below =
      subst (λ q. get q m ≡ none) ((text_eq_iff p path).0 here) (get-Below p m below)

  included_times :
      (m : Map Text Entity)
      → IsSorted m
      → times path (map (λ e. e.0) (partition_entries reported m).included)
        ≡ count (is_some_and (builds reported path) (get path m))
  unfolding partition_entries place get
  included_times [] s = refl
  included_times ((p, e) ∷ m) s = elim (Bool-cases (text_eq p path)) [
    | inl here ↦ ground (
      arith,
      here,
      none_after p m here s.0,
      included_times m s.1,
      ap (λ q. builds reported q e) ((text_eq_iff p path).0 here),
    )
    | inr other ↦ ground (arith, included_times m s.1, other)
  ]

  disabled_times :
      (m : Map Text Entity)
      → IsSorted m
      → times path (map (λ e. e.0) (partition_entries reported m).disabled)
        ≡ count (is_some_and (switches_off reported path) (get path m))
  unfolding partition_entries place get
  disabled_times [] s = refl
  disabled_times ((p, e) ∷ m) s = elim (Bool-cases (text_eq p path)) [
    | inl here ↦ ground (
      arith,
      here,
      none_after p m here s.0,
      disabled_times m s.1,
      ap (λ q. switches_off reported q e) ((text_eq_iff p path).0 here),
    )
    | inr other ↦ ground (arith, disabled_times m s.1, other)
  ]

  skipped_times :
      (m : Map Text Entity)
      → IsSorted m
      → times path ((partition_entries reported m).skipped)
        ≡ count (is_some_and (leaves_alone reported path) (get path m))
  unfolding partition_entries place get
  skipped_times [] s = refl
  skipped_times ((p, e) ∷ m) s = elim (Bool-cases (text_eq p path)) [
    | inl here ↦ ground (
      arith,
      here,
      none_after p m here s.0,
      skipped_times m s.1,
      ap (λ q. leaves_alone reported q e) ((text_eq_iff p path).0 here),
    )
    | inr other ↦ ground (arith, skipped_times m s.1, other)
  ]

placed :
    (reported : Option Tree) (path : Text) (e : Entity)
    → IsPlaced reported path e (
      count (builds reported path e),
      count (switches_off reported path e),
      count (leaves_alone reported path e),
    )
placed reported path e = elim (Bool-cases e.disabled) [
  | inl off ↦ elim (Bool-cases (observed_admin reported path == some false)) [
    | inl on ↦ inr (
        inl (
          rw (off, on) refl,
          off,
          on_reported reported path
              ((option_bool_iff (observed_admin reported path) (some false)).0 on),
        ))
    | inr left ↦ inr (
        inr (
          inl (
            rw (off, left) refl,
            inl (
              off,
              λ on. ground (
                arith,
                left,
                (option_bool_iff (observed_admin reported path) (some false)).1
                    (reported_on reported path on),
              ),
            ),
          )))
  ]
  | inr enabled ↦ elim (Bool-cases (is_empty e.parts)) [
    | inl bare ↦ inr (inr (inr (rw (enabled, bare) refl, enabled, (is_empty_iff e.parts).0 bare)))
    | inr full ↦
        let has_parts : e.parts ≢ [] =
          λ nothing. ground (arith, full, (is_empty_iff e.parts).1 nothing) in
        elim (Bool-cases (carried reported path e)) [
          | inl has ↦ inr (
              inr (
                inl (
                  rw (has, full, enabled) refl,
                  inr (enabled, has_parts, carried-IsCarried reported path e has),
                )))
          | inr new ↦ inl (
            rw (new, full, enabled) refl,
            enabled,
            has_parts,
            λ has. ground (arith, new, IsCarried-carried reported path e has),
          )
        ]
  ]
]

-- For a tree in the order of its map, each component of the tree is once in one of the three
-- lists, or in none of them: an enabled one with parts is to be built when the vehicle does not
-- report it with the content of every part, or reports it as disabled, and else skipped; a
-- disabled one is to be switched off when the vehicle reports it as enabled, and else skipped; an
-- enabled one without parts is in no list, as is a name that the tree does not have.
pub partition-IsPlaced :
    (tree : Tree) (reported : Option Tree) (path : Text)
    → IsSorted tree.entities
    → ((e : Entity)
        → get path tree.entities ≡ some e
        → IsPlaced reported path e (places path (partition_l1_components tree reported)))
      × (get path tree.entities ≡ none
          → places path (partition_l1_components tree reported) ≡ (0, 0, 0))
unfolding partition_l1_components
partition-IsPlaced tree reported path s =
    let m = tree.entities in
    let i = included_times reported path m s in
    let d = disabled_times reported path m s in
    let k = skipped_times reported path m s in
    (λ e there. rw (i, d, k, there) (placed reported path e), λ gone. rw (i, d, k, gone) refl)
