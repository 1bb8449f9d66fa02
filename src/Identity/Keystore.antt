-- ===== src/Identity/Keystore.antt =====
-- The factory keystore of crates/identity-tower/src/keystore.rs: `assemble_keystore`, `mint_keystore`
-- and `mint_keystore_endpoint`. The crate `hsm` with its roles and constants is a parameter, and so
-- are the encoding, compression, encryption and signing of the keystore.
pub mod Slots
pub mod Leaf
use sumo_provision.Base.{
  ℕ, Bool, true, false, not, ◌&&◌, Option, none, some, List, [], ◌∷◌, ◌++◌, map, Text, text,
  Text_eq, Text_ord, ◌==◌, is_some, length, trim, if◌then◌else◌, Result, ok, err, ◌>>=◌, ok_or,
  or_err,
}
use sumo_provision.Map.{get}
use sumo_provision.Wire.Hash.{Hashing}
use sumo_provision.Identity.Keys.{Cose, cose_to_sec1}
use sumo_provision.Identity.Roster.{AppError, bad_request, internal, CertRow, DeviceRow, Roster}

-- `KeyRole` with `KeyType`, and the constants of `hsm::payload`
pub record Hsm : Type 1 where
  pub KeyRole : Type 0
  pub mandatory_roles : List KeyRole
  pub is_device_generated : KeyRole → Bool
  pub is_aes : KeyRole → Bool
  pub is_software_authority : KeyRole → Bool
  pub is_factory_reset_issuer : KeyRole → Bool
  pub key_id : KeyRole → Text
  pub tls_identity : KeyRole
  pub device_decryption : KeyRole
  pub factory_signing_public : Text
  pub delegation_root_anchor_id : Text
  pub schema_version : ℕ

-- `OP_SIGN` and the others, `KEY_TYPE_AES_256` and `KEY_TYPE_EC_P256`
pub data KeyOp : Type 0 where
  op_sign op_verify op_get_pubkey op_encrypt op_decrypt : KeyOp

pub data KeyKind : Type 0 where
  key_type_aes_256 key_type_ec_p256 : KeyKind

pub record KeySlot : Type 0 where
  pub slot_id : Text
  pub key_kind : KeyKind
  pub anchor_public_key : Option Text
  pub allowed_guests : Option (List Text)
  pub allowed_ops : Option (List KeyOp)

-- `LeafCert` and `TrustAnchorCert`: a name and a certificate
pub record LeafCert : Type 0 where
  pub leaf_id : Text
  pub certificate : Text

pub record TrustAnchorCert : Type 0 where
  pub anchor_id : Text
  pub certificate : Text

pub record HsmKeystore : Type 0 where
  pub schema_version : ℕ
  pub security_version : ℕ
  pub identities : List Text
  pub slots : List KeySlot
  pub certificates : List LeafCert
  pub trust_anchors : List TrustAnchorCert

module _ (hsm : Hsm) where
  open hsm use {
    KeyRole, mandatory_roles, is_device_generated, is_aes, is_software_authority,
    is_factory_reset_issuer, key_id, tls_identity, device_decryption, factory_signing_public,
    delegation_root_anchor_id,
  }

  -- the key that the slot of a role carries
  unfoldable pub anchor_of : Text → Text → KeyRole → Option Text
  anchor_of sw_authority key_authority role =
      if is_device_generated role
      then none
      else if is_software_authority role
      then some sw_authority
      else if is_factory_reset_issuer role
      then some factory_signing_public
      else some key_authority

  unfoldable pub ops_of : Option Text → KeyRole → List KeyOp
  ops_of anchor role =
      if is_some anchor
      then op_verify ∷ op_get_pubkey ∷ []
      else if is_aes role
      then op_encrypt ∷ op_decrypt ∷ []
      else op_sign ∷ op_verify ∷ op_get_pubkey ∷ []

  unfoldable pub key_slot : Text → Text → KeyRole → KeySlot
  unfolding anchor_of ops_of
  key_slot sw_authority key_authority role =
      let anchor = anchor_of sw_authority key_authority role in
      record {
        slot_id = key_id role;
        key_kind = if is_aes role then key_type_aes_256 else key_type_ec_p256;
        anchor_public_key = anchor;
        allowed_guests = none;
        allowed_ops = some (ops_of anchor role);
      }

  unfoldable pub leaf_certs : Option Text → List LeafCert
  leaf_certs none = []
  leaf_certs (some leaf) = record { leaf_id = key_id tls_identity; certificate = leaf } ∷ []

  unfoldable pub assemble_keystore : Text → Text → ℕ → Option Text → Text → HsmKeystore
  unfolding key_slot leaf_certs
  assemble_keystore sw_authority key_authority security_version tls_identity_leaf
        delegation_root_der =
      record {
        schema_version = hsm.schema_version;
        security_version = security_version;
        identities = [];
        slots = map (key_slot sw_authority key_authority) mandatory_roles;
        certificates = leaf_certs tls_identity_leaf;
        trust_anchors =
            record { anchor_id = delegation_root_anchor_id; certificate = delegation_root_der }
            ∷ [];
      }

-- `payload::encode`, `compress_firmware`, the ECDH encryption to a device key under a key id, and the
-- signed manifest: its sequence number, the digest and size of the plaintext, the encryption
-- information and the payload
pub record KeystoreSuit : Type 0 where
  pub encode : HsmKeystore → Option Text
  pub compress : Text → Option Text
  pub encrypt : Text → Text → Text → Option (Text × Text)
  pub build : ℕ → Text → ℕ → Text → Text → Option Text

pub record MintKeystoreReq : Type 0 where
  pub sw_authority_pubkey : Text
  pub security_version : ℕ

-- SELECT cert_der ... WHERE device_id = $1 AND key_id = 'tls-identity'
unfoldable pub tls_leaf : Text → List CertRow → Option Text
tls_leaf id [] = none
tls_leaf id (row ∷ rows) =
    let rest = tls_leaf id rows in
    if row.device_id == id && row.key_id == text "tls-identity" then some row.cert_der else rest

abbrev pub pubkey_of : Option DeviceRow → Option Text
pubkey_of none = none
pubkey_of (some row) = row.pubkey

module _ (hsm : Hsm) (suit : KeystoreSuit) (hashing : Hashing) (cose : Cose) where
  open hashing use {hex, sha256}

  unfoldable pub mint_keystore : Text → Text → Text → ℕ → Option Text → Text → Result AppError Text
  unfolding assemble_keystore cose_to_sec1
  mint_keystore device_decrypt_cose sw_authority_cose key_authority security_version leaf root = do
    sw_authority ← ok_or (cose_to_sec1 cose sw_authority_cose) internal
    cbor ←
        ok_or
          (suit.encode
            (assemble_keystore hsm sw_authority key_authority security_version leaf root))
          internal
    compressed ← ok_or (suit.compress cbor) internal
    encrypted ←
        ok_or (suit.encrypt compressed device_decrypt_cose (hsm.key_id hsm.device_decryption))
          internal
    ok_or (suit.build security_version (sha256 cbor) (length cbor) encrypted.0 encrypted.1) internal

  -- `public_sec1` of the key authority and `root_cert_der` of the delegation root
  unfoldable pub mint_keystore_endpoint :
      Option Text → Option Text → Text → MintKeystoreReq → Roster → Result AppError Text
  unfolding mint_keystore tls_leaf trim
  mint_keystore_endpoint public_sec1 root_cert_der id req s = do
    pubkey_hex ← ok_or (pubkey_of (get id s.devices)) (
        bad_request
          (text "device '" ++ (id ++ text "' has no registered pubkey — register/enroll it first")))
    device_decrypt_cose ←
        ok_or (hex.decode (trim pubkey_hex)) (bad_request (text "device pubkey is not hex"))
    sw_authority_cose ←
        ok_or (hex.decode (trim req.sw_authority_pubkey))
          (bad_request (text "sw_authority_pubkey is not hex"))
    ka_sec1 ← ok_or public_sec1 internal
    delegation_root_der ← ok_or root_cert_der internal
    mint_keystore device_decrypt_cose sw_authority_cose ka_sec1 req.security_version
        (tls_leaf id s.certs) delegation_root_der
