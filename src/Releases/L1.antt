-- ===== src/Releases/L1.antt =====
-- `channel_target_l1` of crates/software-tower/src/releases.rs: the state of a vehicle in, the
-- signed campaign out. `from_value` is serde_json's reading of a tree; `clock` is what the clock
-- says while the manifest of a component, or of the campaign, is built.

pub mod Resolved
pub mod Converged
use sumo_provision.Base.{
  ℕ, ◌≡◌, Bool, true, false, not, Option, none, some, List, [], ◌∷◌, ◌++◌, Text, Text_ord, is_empty,
  if◌then◌else◌, Result, ok, err, ◌>>=◌, ok_or, or_err,
}
use sumo_provision.Map.{get}
use sumo_provision.Wire.Hash.{Hashing}
use sumo_provision.Wire.Model.{Part, Entity, Tree}
use sumo_provision.Releases.Tables.{AppError, not_found, internal, Db, TargetSelector}
use sumo_provision.Releases.Resolve.{release_matches_target, resolve_target}
use sumo_provision.Releases.Partition.{L1Split, partition_l1_components}
use sumo_provision.Content.{ArtifactEntry, Store}
use sumo_provision.Signer.{
  Offboard, EnvelopePart, build_envelope, build_campaign, build_disable_envelope,
  parse_device_pubkey,
}

pub record L1Request (Value : Type 0) : Type 0 where
  pub channel : Option Text
  pub vehicle_release_id : Option ℕ
  pub tree_hash : Option Text
  pub device : Text
  pub architecture : Text
  pub device_pubkey : Text
  pub device_id : Text
  pub current_state : Option Value
  pub seq : ℕ

-- the response: a body, or 204
pub data L1Answer : Type 0 where
  signed : Text → L1Answer
  no_content : L1Answer

-- the locals of the handler that each component is built with
pub record Build : Type 0 where
  pub device_pubkey : Text
  pub device_id : Text
  pub seq : ℕ

module _ {Value : Type 0} where
  abbrev pub request_selector : L1Request Value → TargetSelector
  request_selector req = record {
    channel = req.channel;
    device = some req.device;
    architecture = some req.architecture;
    vehicle_release_id = req.vehicle_release_id;
    tree_hash = req.tree_hash;
  }

  unfoldable pub check_release : Db → L1Request Value → Result AppError (Unit {0})
  unfolding release_matches_target
  check_release s req = elim req.vehicle_release_id [
    | none ↦ ok tt
    | some id ↦
        (if not (release_matches_target s id req.device req.architecture)
          then err not_found
          else ok tt)
  ]

  -- a report that cannot be read is no report
  unfoldable pub reported_state : (Value → Option Tree) → L1Request Value → Option Tree
  reported_state from_value req = elim req.current_state [
    | none ↦ none
    | some value ↦ from_value value
  ]

abbrev pub envelope_part : Part → ArtifactEntry → EnvelopePart
envelope_part p entry = record {
  id = p.id;
  inner = p.content;
  size = entry.size;
  cek = entry.cek;
  iv = entry.nonce;
  outer = some entry.outer;
}

module _ (offboard : Offboard) (hashing : Hashing) where
  unfoldable pub envelope_parts : Store → List Part → Result AppError (List EnvelopePart)
  envelope_parts store [] = ok []
  envelope_parts store (p ∷ ps) = do
    entry ← ok_or (get p.content store.index) not_found
    parts ← envelope_parts store ps
    ok (envelope_part p entry ∷ parts)

  -- what the request resolves to, behind its guards
  unfoldable pub l1_target : {Value : Type 0} → Db → L1Request Value → Result AppError (Text × Tree)
  unfolding parse_device_pubkey check_release resolve_target
  l1_target s req = do
    device_pubkey ← parse_device_pubkey offboard hashing.hex req.device_pubkey
    served ← check_release s req
    found ← resolve_target hashing s (request_selector req)
    tree ← ok_or found not_found
    ok (device_pubkey, tree)

  module _ (key : offboard.CoseKey) (clock : Option Text → Option ℕ) where
    unfoldable pub build_parts : Store → Build → Text × Entity → Result AppError Text
    unfolding envelope_parts build_envelope
    build_parts store b (path, entity) = do
      parts ← envelope_parts store entity.parts
      or_err
          (build_envelope offboard hashing.hex key (clock (some path)) b.device_pubkey b.device_id
            path parts b.seq)
          internal

    unfoldable pub build_l2 : Store → Build → Text × Entity → Result AppError Text
    unfolding build_parts build_disable_envelope
    build_l2 store b (path, entity) =
        if entity.disabled
        then or_err (build_disable_envelope offboard hashing.hex key (clock (some path)) path b.seq)
            internal
        else build_parts store b (path, entity)

    unfoldable pub build_l2s :
        Store → Build → List (Text × Entity) → Result AppError (List (Text × Text))
    unfolding build_l2
    build_l2s store b [] = ok []
    build_l2s store b (e ∷ entries) = do
      l2 ← build_l2 store b e
      l2s ← build_l2s store b entries
      ok ((e.0, l2) ∷ l2s)

    -- below the loop over the components
    unfoldable pub answer_l1 : List Text → ℕ → List (Text × Text) → Result AppError L1Answer
    unfolding is_empty build_campaign
    answer_l1 skipped seq l2s =
        if is_empty l2s
        then (if not (is_empty skipped) then ok no_content else err not_found)
        else (or_err (build_campaign offboard hashing.hex key (clock none) l2s seq) internal
            >>= λ l1. ok (signed l1))

    unfoldable pub assemble : Store → Build → L1Split → Result AppError L1Answer
    unfolding build_l2s answer_l1
    assemble store b split = do
      l2s ← build_l2s store b (split.included ++ split.disabled)
      answer_l1 split.skipped b.seq l2s

    unfoldable pub channel_target_l1 :
        {Value : Type 0}
        → (Value → Option Tree)
        → Db
        → Store
        → L1Request Value
        → Result AppError L1Answer
    unfolding l1_target reported_state partition_l1_components assemble
    channel_target_l1 from_value s store req = do
      target ← l1_target s req
      assemble store (record { device_pubkey = target.0; device_id = req.device_id; seq = req.seq })
          (partition_l1_components target.1 (reported_state from_value req))
