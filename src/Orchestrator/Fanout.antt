-- ===== src/Orchestrator/Fanout.antt =====
-- `fanout_l1` of crates/orchestrator/src/lib.rs. The SUIT library that decodes an envelope and reads
-- its fields is a parameter; what its errors and the log messages say is not kept.
pub mod Outline
use sumo_provision.Base.{
  ℕ, zero, suc, Bool, true, false, not, ◌&&◌, Option, none, some, List, [], ◌∷◌, ◌++◌, Text, text,
  if◌then◌else◌, length, nat_eq, is_some, Result, ok, err, ◌>>=◌, ok_or, or_err,
}
use sumo_provision.Wire.Hash.{Hex, strip_prefix, from_str}
use sumo_provision.Wire.Model.{ContentHash}
use sumo_provision.Orchestrator.Model.{Error, decode_l1, bad_l2, L1Part, L1Component}

-- `decode_envelope` and the fields of `Manifest`, with the indices of the SUIT components
pub record Suit : Type 1 where
  pub Envelope : Type 0
  pub decode_envelope : Text → Option Envelope
  pub integrated_payloads : Envelope → List (Text × Text)
  pub disable_target : Envelope → Option (List Text)
  pub has_firmware : Envelope → Bool
  pub component_count : Envelope → ℕ
  pub component_id : Envelope → ℕ → Option (List Text)
  pub uri : Envelope → ℕ → Option Text
  pub image_digest : Envelope → ℕ → Option Text
  pub from_utf8_lossy : Text → Text

-- `segs.get(1)`
abbrev pub second_segment : List Text → Option Text
second_segment (a ∷ b ∷ segs) = some b
second_segment _ = none

-- `key.strip_prefix('#').unwrap_or(key)`
unfoldable pub bare_key : Text → Text
unfolding strip_prefix
bare_key key = elim (strip_prefix (text "#") key) [ none ↦ key | some rest ↦ rest ]

-- `<[u8; 32]>::try_from`
unfoldable pub digest_of : Option Text → Option ContentHash
digest_of none = none
digest_of (some bytes) = if nat_eq (length bytes) 32 then some bytes else none

module _ (suit : Suit) (hex : Hex) where
  open suit use {
    Envelope, decode_envelope, integrated_payloads, disable_target, has_firmware, component_count,
    component_id, uri, image_digest, from_utf8_lossy,
  }

  unfoldable pub part_id : Envelope → ℕ → Option Text
  part_id manifest i = elim (component_id manifest i) [
    | none ↦ none
    | some segs ↦ elim (second_segment segs) [ none ↦ none | some seg ↦ some (from_utf8_lossy seg) ]
  ]

  unfoldable pub decode_part : Text → Envelope → ℕ → Result Error L1Part
  unfolding part_id digest_of from_str
  decode_part component manifest i = do
    part ← ok_or (part_id manifest i) (bad_l2 component)
    address ← ok_or (uri manifest i) (bad_l2 component)
    outer ← or_err (from_str hex address) (bad_l2 component)
    ok (record { part = part; outer = outer; inner = digest_of (image_digest manifest i) })

  unfoldable pub part_count : Envelope → ℕ
  part_count manifest =
      if is_some (disable_target manifest) && not (has_firmware manifest)
      then 0
      else component_count manifest

  -- `for i in first..first + count`
  unfoldable pub decode_parts : Text → Envelope → ℕ → ℕ → Result Error (List L1Part)
  unfolding decode_part
  decode_parts component manifest first zero = ok []
  decode_parts component manifest first (suc count) = do
    part ← decode_part component manifest first
    parts ← decode_parts component manifest (suc first) count
    ok (part ∷ parts)

  unfoldable pub decode_component : Text → Text → Result Error L1Component
  unfolding part_count decode_parts bare_key
  decode_component key l2 = do
    manifest ← ok_or (decode_envelope l2) (bad_l2 (bare_key key))
    parts ← decode_parts (bare_key key) manifest 0 (part_count manifest)
    ok (record { component = bare_key key; envelope = l2; parts = parts })

  unfoldable pub decode_components : List (Text × Text) → Result Error (List L1Component)
  unfolding decode_component
  decode_components [] = ok []
  decode_components ((key, l2) ∷ payloads) = do
    component ← decode_component key l2
    components ← decode_components payloads
    ok (component ∷ components)

  unfoldable pub fanout_l1 : Text → Result Error (List L1Component)
  unfolding decode_components
  fanout_l1 l1 = do
    campaign ← ok_or (decode_envelope l1) decode_l1
    decode_components (integrated_payloads campaign)
