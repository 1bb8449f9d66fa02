-- ===== src/Signer.antt =====
-- `Signer` of crates/software-tower/src/signer.rs. The crate `sumo_offboard`, which builds and signs
-- SUIT manifests, is a parameter, with the random keys that it draws; what its errors say is not
-- kept. `now` is what the clock says when a manifest is built.
pub mod Opens
use sumo_provision.Base.{
  ℕ, Option, none, some, List, [], ◌∷◌, ◌++◌, Text, text, Text_ord, Result, ok, err, ◌>>=◌, ok_or,
  or_err, trim,
}
use sumo_provision.Map.{get}
use sumo_provision.Wire.Hash.{Hex, to_prefixed}
use sumo_provision.Wire.Model.{ContentHash}
use sumo_provision.Releases.Tables.{AppError, bad_request, not_found, internal}
use sumo_provision.Content.{ArtifactEntry, Store}

pub data OffboardError : Type 0 where
  offboard_error : OffboardError

-- `ComponentSpec` of the image builder, with the fields that are set here
pub record ComponentSpec : Type 0 where
  pub id : List Text
  pub digest : Text
  pub size : ℕ
  pub uri : Text
  pub encryption_info : Option Text

-- `CoseKey`, `rewrap_cek_ecdh` and the builders, each from its signing time, its sequence number and
-- what was added to it
pub record Offboard : Type 1 where
  pub CoseKey : Type 0
  pub from_cose_key_bytes : Text → Result OffboardError CoseKey
  pub rewrap_cek_ecdh : Text → Text → CoseKey → Text → Result OffboardError Text
  pub build_components : ℕ → ℕ → List ComponentSpec → CoseKey → Result OffboardError Text
  pub build_images : ℕ → ℕ → List (Text × Text) → CoseKey → Result OffboardError Text
  pub build_disable : ℕ → ℕ → List Text → CoseKey → Result OffboardError Text

pub record EnvelopePart : Type 0 where
  pub id : Text
  pub inner : ContentHash
  pub size : ℕ
  pub cek : Text
  pub iv : Text
  pub outer : Option ContentHash

-- `duration_since(UNIX_EPOCH)`, or 0
abbrev pub signing_time : Option ℕ → ℕ
signing_time none = 0
signing_time (some secs) = secs

-- `NewEnvelopePart`, `NewEnvelope`
pub record NewEnvelopePart : Type 0 where
  pub id : Text
  pub content : ContentHash

pub record NewEnvelope : Type 0 where
  pub device_pubkey : Text
  pub device_id : Text
  pub component : Text
  pub parts : List NewEnvelopePart
  pub seq : ℕ

module _ (offboard : Offboard) (hex : Hex) where
  open offboard use {
    CoseKey, from_cose_key_bytes, rewrap_cek_ecdh, build_components, build_images, build_disable,
  }

  unfoldable pub part_uri : EnvelopePart → Text
  unfolding to_prefixed
  part_uri p = elim p.outer [ none ↦ text "#" ++ p.id | some outer ↦ to_prefixed hex outer ]

  unfoldable pub component_spec :
      CoseKey → Text → Text → EnvelopePart → Result OffboardError ComponentSpec
  unfolding part_uri
  component_spec public_key kid component p = do
    enc_info ← rewrap_cek_ecdh p.cek p.iv public_key kid
    ok (record {
      id = component ∷ p.id ∷ [];
      digest = p.inner;
      size = p.size;
      uri = part_uri p;
      encryption_info = some enc_info;
    })

  unfoldable pub component_specs :
      CoseKey → Text → Text → List EnvelopePart → Result OffboardError (List ComponentSpec)
  unfolding component_spec
  component_specs public_key kid component [] = ok []
  component_specs public_key kid component (p ∷ parts) = do
    spec ← component_spec public_key kid component p
    specs ← component_specs public_key kid component parts
    ok (spec ∷ specs)

  -- the guards on the device key that both handlers start with
  unfoldable pub parse_device_pubkey : Text → Result AppError Text
  unfolding trim
  parse_device_pubkey s = do
    device_pubkey ← ok_or (hex.decode (trim s)) (bad_request (text "device_pubkey must be hex"))
    parsed ←
        or_err (from_cose_key_bytes device_pubkey)
          (bad_request (text "device_pubkey is not a valid COSE_Key"))
    ok device_pubkey

  unfoldable pub integrated_parts :
      Store → List NewEnvelopePart → Result AppError (List EnvelopePart)
  integrated_parts store [] = ok []
  integrated_parts store (p ∷ ps) = do
    entry ← ok_or (get p.content store.index) not_found
    parts ← integrated_parts store ps
    ok (
        record {
          id = p.id;
          inner = p.content;
          size = entry.size;
          cek = entry.cek;
          iv = entry.nonce;
          outer = none;
        }
        ∷ parts)

  module _ (key : CoseKey) where
    unfoldable pub build_envelope :
        Option ℕ → Text → Text → Text → List EnvelopePart → ℕ → Result OffboardError Text
    unfolding component_specs
    build_envelope now device_pubkey device_kid component parts seq = do
      public_key ← from_cose_key_bytes device_pubkey
      specs ← component_specs public_key device_kid component parts
      build_components (signing_time now) seq specs key

    unfoldable pub build_campaign : Option ℕ → List (Text × Text) → ℕ → Result OffboardError Text
    build_campaign now components seq = build_images (signing_time now) seq components key

    unfoldable pub build_disable_envelope : Option ℕ → Text → ℕ → Result OffboardError Text
    build_disable_envelope now component seq =
        build_disable (signing_time now) seq (component ∷ []) key

    unfoldable pub create_envelope : Option ℕ → Store → NewEnvelope → Result AppError Text
    unfolding parse_device_pubkey integrated_parts build_envelope
    create_envelope now store req = do
      device_pubkey ← parse_device_pubkey req.device_pubkey
      parts ← integrated_parts store req.parts
      or_err (build_envelope now device_pubkey req.device_id req.component parts req.seq) internal
