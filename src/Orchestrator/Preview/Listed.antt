-- ===== src/Orchestrator/Preview/Listed.antt =====
-- What the preview lists.
use sumo_provision.Base.{
  ℕ, suc, ◌+◌, ◌≡◌, refl, ◌∙◌, sym, ap, Bool, not, ◌||◌, Option, List, [], ◌∷◌, map, arith, Text,
  Text_eq, text, ◌==◌, if◌then◌else◌, filter, length, is_empty, is_empty-map, ltb, Bool-cases, All,
  inl, inr, ◌⊎◌, Result, ok, err, ◌>>=◌, >>=-eq-ok, ok-inj,
}
use mathlib.Core.Path.{subst}
use sumo_provision.Wire.Hash.{Hex, from_str}
use sumo_provision.Wire.Hash.Roundtrip.{from_str-IsDigest}
use sumo_provision.Wire.Model.{ContentHash, ArtifactRef, Part, Entity, Tree, IsDigest}
use sumo_provision.Wire.Plan.{PartPlan, ship, reuse, PlannedPart, FlashPlan, is_ship, is_reuse}
use sumo_provision.Orchestrator.Model.{Error}
use sumo_provision.Orchestrator.Preview.{
  InstalledFile, installed_files_to_parts, ShipPart, ComponentApply, ship_part, apply_parts, allows,
  list_component, apply_components,
}

-- The parts that are read from the manifest of a rig have digests as contents, whatever the rig
-- reports.
pub installed-IsDigest :
    (hex : Hex) (files : List InstalledFile)
    → All (λ (p : Part). IsDigest p.content) (installed_files_to_parts hex files)
unfolding installed_files_to_parts
installed-IsDigest hex [] = tt
installed-IsDigest hex (f ∷ files) = at (from_str hex f.sha256) refl (installed-IsDigest hex files)
  where
    at :
        (r : Result _ ContentHash)
        → from_str hex f.sha256 ≡ r
        → All (λ (p : Part). IsDigest p.content) (installed_files_to_parts hex files)
        → All
            (λ (p : Part). IsDigest p.content)
            (elim r [
              | ok content ↦
                  record { kind = text "file"; id = f.path; content = content }
                  ∷ installed_files_to_parts hex files
              | err e ↦ installed_files_to_parts hex files
            ])
    at (ok content) h rest = ((from_str-IsDigest hex f.sha256 content h).0, rest)
    at (err e) h rest = rest

-- A line of the preview without the blobs: the contents to ship, and the count of the others.
pub record Line : Type 0 where
  pub entity : Text
  pub ship : List (Text × ContentHash)
  pub reuse : ℕ

abbrev pub shipped : ShipPart → Text × ContentHash
shipped s = (s.part, s.content)

abbrev pub planned : PlannedPart → Text × ContentHash
planned p = (p.part, p.content)

abbrev pub line_of : ComponentApply → Line
line_of c = record { entity = c.entity; ship = map shipped c.ship; reuse = c.reuse }

abbrev pub parts_of : FlashPlan → Text → List PlannedPart
parts_of plan path = filter (λ (p : PlannedPart). p.entity == path) plan.parts

-- What the flash plan says of an entity.
abbrev pub plan_line : FlashPlan → Text × Entity → Line
plan_line plan (path, entity) = record {
  entity = path;
  ship = map planned (filter is_ship (parts_of plan path));
  reuse = length (filter is_reuse (parts_of plan path));
}

abbrev pub has_parts : Line → Bool
has_parts l = not (is_empty l.ship) || ltb 0 l.reuse

PartPlan-cases : (x : PartPlan) → (x ≡ ship) ⊎ (x ≡ reuse)
PartPlan-cases ship = inl refl
PartPlan-cases reuse = inr refl

module _ (artifact_exists : ContentHash → Result Error (Option ArtifactRef)) where
  -- What a successful run of the inner loop found.
  abbrev IsCounted : List PlannedPart → List ShipPart × ℕ → Type 0
  IsCounted ps r =
      (map shipped r.0 ≡ map planned (filter is_ship ps)) × (r.1 ≡ length (filter is_reuse ps))

  apply_parts-IsCounted :
      (ps : List PlannedPart) (r : List ShipPart × ℕ)
      → apply_parts artifact_exists ps ≡ ok r
      → IsCounted ps r
  unfolding apply_parts filter
  apply_parts-IsCounted [] r h = ground (arith, h)
  apply_parts-IsCounted (p ∷ ps) r h = elim (PartPlan-cases p.plan) [
    | inl shipped_now ↦
        let (a, e1, k1) =
          >>=-eq-ok (artifact_exists p.content)
            (λ a. apply_parts artifact_exists ps >>= λ r. ok (ship_part p a ∷ r.0, r.1))
            (rw (shipped_now, apply_parts) at h) in
        let (rest, e2, k2) =
          >>=-eq-ok (apply_parts artifact_exists ps) (λ r. ok (ship_part p a ∷ r.0, r.1)) k1 in
        let tail = apply_parts-IsCounted ps rest e2 in
        let same : (ship_part p a ∷ rest.0, rest.1) ≡ r = ok-inj k2 in
        rw shipped_now (
          subst
            (λ (x : List ShipPart × ℕ).
              (map shipped x.0 ≡ planned p ∷ map planned (filter is_ship ps))
              × (x.1 ≡ length (filter is_reuse ps)))
            same (ap (λ l. planned p ∷ l) tail.0, tail.1))
    | inr reused_now ↦
        let (rest, e2, k2) =
          >>=-eq-ok (apply_parts artifact_exists ps) (λ r. ok (r.0, r.1 + 1))
            (rw (reused_now, apply_parts) at h) in
        let tail = apply_parts-IsCounted ps rest e2 in
        let same : (rest.0, rest.1 + 1) ≡ r = ok-inj k2 in
        rw reused_now (
          subst
            (λ (x : List ShipPart × ℕ).
              (map shipped x.0 ≡ map planned (filter is_ship ps))
              × (x.1 ≡ suc (length (filter is_reuse ps))))
            same (tail.0, ground (arith, tail.1)))
  ]

  list_component-line :
      (observed : Tree) (plan : FlashPlan) (path : Text) (entity : Entity) (r : List ShipPart × ℕ)
      (cs : List ComponentApply)
      → IsCounted (parts_of plan path) r
      → map line_of (list_component observed (path, entity) r cs) ≡ (
          if has_parts (plan_line plan (path, entity))
          then plan_line plan (path, entity) ∷ map line_of cs
          else map line_of cs)
  list_component-line observed plan path entity r cs k =
      let same : record { entity = path; ship = map shipped r.0; reuse = r.1 }
          ≡ plan_line plan (path, entity) =
        ap (λ (x : List (Text × ContentHash)). record { entity = path; ship = x; reuse = r.1 }) k.0
        ∙ ap (λ n. record { entity = path; ship = (plan_line plan (path, entity)).ship; reuse = n })
            k.1 in
      let test : has_parts (plan_line plan (path, entity)) ≡ (not (is_empty r.0) || ltb 0 r.1) =
        sym (ap has_parts same) ∙ ap (λ b. not b || ltb 0 r.1) (is_empty-map shipped r.0) in
      elim (Bool-cases (not (is_empty r.0) || ltb 0 r.1)) [
        | inl listed ↦ rw (test, listed) (ap (λ l. l ∷ map line_of cs) same)
        | inr bare ↦ rw (test, bare) refl
      ]

  -- When the preview can be built, its lines are, in the order of the tree, those of the desired
  -- entities that the filter allows and that have parts in the flash plan: each names the parts
  -- that the plan ships, with their contents and in their order, and counts the ones it reuses.
  pub apply_components-lines :
      (observed : Tree) (plan : FlashPlan) (only : Option (List Text))
      (entities : List (Text × Entity)) (cs : List ComponentApply)
      → apply_components artifact_exists observed plan only entities ≡ ok cs
      → map line_of cs
        ≡ filter has_parts
            (map (plan_line plan) (filter (λ (e : Text × Entity). allows only e.0) entities))
  unfolding apply_components filter
  apply_components-lines observed plan only [] cs h = ground (arith, h)
  apply_components-lines observed plan only ((path, entity) ∷ es) cs h =
      elim (Bool-cases (allows only path)) [
        | inl allowed ↦
            let ps = parts_of plan path in
            let (r, e1, k1) =
              >>=-eq-ok (apply_parts artifact_exists ps)
                (λ r. apply_components artifact_exists observed plan only es >>= λ rest.
                  ok (list_component observed (path, entity) r rest))
                (rw allowed at h) in
            let (rest, e2, k2) =
              >>=-eq-ok (apply_components artifact_exists observed plan only es)
                (λ rest. ok (list_component observed (path, entity) r rest)) k1 in
            rw allowed (
              ap (map line_of) (sym (ok-inj k2))
              ∙ list_component-line observed plan path entity r rest (apply_parts-IsCounted ps r e1)
              ∙ ap
                  (λ l.
                    if has_parts (plan_line plan (path, entity))
                    then plan_line plan (path, entity) ∷ l
                    else l)
                  (apply_components-lines observed plan only es rest e2))
        | inr left ↦ rw left (apply_components-lines observed plan only es cs (rw left at h))
      ]
