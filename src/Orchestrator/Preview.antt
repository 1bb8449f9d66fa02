-- ===== src/Orchestrator/Preview.antt =====
-- The reading of a rig and the read-only preview of crates/orchestrator/src/lib.rs: `is_unresolved`,
-- `parse_admin_disabled`, `installed_files_to_parts`, `ApplyPlan` and `apply_plan`. A JSON value is
-- what `as_str` makes of it; the rig and the software tower are parameters.
pub mod Listed
pub mod Bytes
use sumo_provision.Base.{
  ℕ, ◌+◌, ◌%◌, Bool, true, false, not, ◌&&◌, ◌||◌, Option, none, some, List, [], ◌∷◌, ◌++◌, map,
  flat_map, Text, Text_ord, Text_eq, text, ◌==◌, if◌then◌else◌, filter, all, contains, is_empty,
  is_some, is_some_and, to_string, ltb, Result, ok, err, ◌>>=◌, ok_or,
}
use sumo_provision.Map.{get}
use sumo_provision.Wire.Hash.{Hex, from_str}
use sumo_provision.Wire.Model.{ContentHash, ArtifactRef, Part, Entity, Tree}
use sumo_provision.Wire.Plan.{PartPlan, ship, reuse, PlannedPart, FlashPlan, flash_plan}
use sumo_provision.Wire.Assess.{ConvergenceAssessment, assess_tree}
use sumo_provision.Orchestrator.Model.{Error, node_state, channel_not_found, ChannelTarget}
use sumo_provision.Orchestrator.Campaign.{supports_rollback}

-- `NodeUpdateState::is_unresolved` of its phase
unfoldable pub is_unresolved : Text → Bool
is_unresolved phase = phase == text "RebootPending" || phase == text "Trial"

-- the value, if the extension is there, and its text, if it is a string
unfoldable pub parse_admin_disabled : Option (Option Text) → Result Error (Option Bool)
parse_admin_disabled none = ok none
parse_admin_disabled (some none) = err node_state
parse_admin_disabled (some (some state)) =
    if state == text "enabled"
    then ok (some false)
    else if state == text "disabled"
    then ok (some true)
    else err node_state

pub record InstalledFile : Type 0 where
  pub path : Text
  pub sha256 : Text

-- a file whose hash does not parse is left out
unfoldable pub installed_files_to_parts : Hex → List InstalledFile → List Part
unfolding from_str
installed_files_to_parts hex [] = []
installed_files_to_parts hex (f ∷ files) =
    let rest = installed_files_to_parts hex files in
    elim (from_str hex f.sha256) [
      | ok content ↦ record { kind = text "file"; id = f.path; content = content } ∷ rest
      | err e ↦ rest
    ]

pub record BlobRef : Type 0 where
  pub outer : ContentHash
  pub size : ℕ

pub record ShipPart : Type 0 where
  pub part : Text
  pub kind : Text
  pub content : ContentHash
  pub blob : Option BlobRef

pub record ComponentApply : Type 0 where
  pub entity : Text
  pub version : Option Text
  pub ship : List ShipPart
  pub reuse : ℕ
  pub supports_rollback : Option Bool

pub record ApplyPlan : Type 0 where
  pub channel : Text
  pub components : List ComponentApply
  pub assessment : ConvergenceAssessment

-- `ApplyPlan::missing` and `ApplyPlan::is_noop`
unfoldable pub missing : ApplyPlan → List (Text × Text)
unfolding flat_map filter
missing plan =
    flat_map
      (λ (c : ComponentApply).
        map (λ (s : ShipPart). (c.entity, s.part))
          (filter (λ (s : ShipPart). not (is_some s.blob)) c.ship))
      plan.components

unfoldable pub plan_is_noop : ApplyPlan → Bool
unfolding all is_empty
plan_is_noop plan = all (λ (c : ComponentApply). is_empty c.ship) plan.components

-- `ChannelTarget::label`
unfoldable pub label : ChannelTarget → Text
unfolding to_string
label target = elim target.vehicle_release_id [
  | some id ↦ text "vehicle release " ++ to_string id
  | none ↦
      if not (is_some target.device) && not (is_some target.architecture)
      then target.channel
      else target.channel
        ++ (text " (device="
            ++ (or_star target.device
                ++ (text ", architecture=" ++ (or_star target.architecture ++ text ")"))))
]
  where
    or_star : Option Text → Text
    or_star none = text "*"
    or_star (some s) = s

abbrev pub blob_ref : Option ArtifactRef → Option BlobRef
blob_ref none = none
blob_ref (some a) = some (record { outer = a.outer; size = a.size })

abbrev pub ship_part : PlannedPart → Option ArtifactRef → ShipPart
ship_part p a = record { part = p.part; kind = p.kind; content = p.content; blob = blob_ref a }

abbrev pub allows : Option (List Text) → Text → Bool
allows only path = not (is_some_and (λ allow. not (contains allow path)) only)

-- what one entity adds in front of the others
abbrev pub list_component :
    Tree → Text × Entity → List ShipPart × ℕ → List ComponentApply → List ComponentApply
list_component observed (path, entity) (shipped, reused) rest =
    if not (is_empty shipped) || ltb 0 reused
    then record {
      entity = path;
      version = entity.version;
      ship = shipped;
      reuse = reused;
      supports_rollback = supports_rollback observed path;
    }
      ∷ rest
    else rest

module _ (artifact_exists : ContentHash → Result Error (Option ArtifactRef)) where
  -- the inner loop: what ships, and how many parts are reused
  unfoldable pub apply_parts : List PlannedPart → Result Error (List ShipPart × ℕ)
  apply_parts [] = ok ([], 0)
  apply_parts (p ∷ parts) =
      let rest = apply_parts parts in
      elim p.plan [
        | reuse ↦ (rest >>= λ r. ok (r.0, r.1 + 1))
        | ship ↦ (artifact_exists p.content >>= λ a. rest >>= λ r. ok (ship_part p a ∷ r.0, r.1))
      ]

  unfoldable pub apply_components :
      Tree
      → FlashPlan
      → Option (List Text)
      → List (Text × Entity)
      → Result Error (List ComponentApply)
  unfolding apply_parts contains filter supports_rollback is_empty
  apply_components observed plan only [] = ok []
  apply_components observed plan only ((path, entity) ∷ entities) =
      let rest = apply_components observed plan only entities in
      if allows only path
      then (apply_parts (filter (λ (p : PlannedPart). p.entity == path) plan.parts) >>= λ r.
          rest >>= λ cs. ok (list_component observed (path, entity) r cs))
      else rest

  unfoldable pub apply_plan :
      Result Error Tree
      → (ChannelTarget → Result Error (Option Tree))
      → ChannelTarget
      → Option (List Text)
      → Result Error ApplyPlan
  unfolding apply_components flash_plan assess_tree label
  apply_plan read_rig_state desired_tree target only = do
    observed ← read_rig_state
    resolved ← desired_tree target
    desired ← ok_or resolved (channel_not_found (label target))
    components ← apply_components observed (flash_plan observed desired) only desired.entities
    ok (record {
      channel = target.channel;
      components = components;
      assessment = assess_tree observed desired;
    })
