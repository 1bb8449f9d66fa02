-- ===== src/Identity/Roster.antt =====
-- The device roster of crates/identity-tower/src/devices.rs, with the tables of
-- crates/identity-tower/migrations: `devices` by its primary key, `device_certs` as the list of its
-- rows. The certificate authority, the point that a CSR proves and the X.509 encoding of a key are
-- parameters; `order_by_id` is the order that the database gives to texts.

pub mod Frame
pub mod Enrolled
pub mod Certs
pub mod Invariant
use sumo_provision.Base.{
  ℕ, Bool, true, false, not, ◌&&◌, Option, none, some, List, [], ◌∷◌, ◌++◌, map, Text, text,
  Text_eq, Text_ord, ◌==◌, any, length, nat_eq, if◌then◌else◌, Result, ok, err, ◌>>=◌, ok_or,
  or_err,
}
use sumo_provision.Base.Exec.{Exec}
use sumo_provision.Map.{Map, get, insert, contains_key}
use sumo_provision.Wire.Hash.{Hashing}
use sumo_provision.Wire.Roster.{Device, RegisterDevice, EnrollResponse, TrustBundle}
use sumo_provision.Identity.Keys.{Cose, cose_to_sec1, sec1_to_cose}

pub record DeviceRow : Type 0 where
  pub id : Text
  pub model : Option Text
  pub status : Text
  pub pubkey : Option Text

pub record CertRow : Type 0 where
  pub device_id : Text
  pub key_id : Text
  pub cert_der : Text
  pub cert_serial : Text
  pub cert_not_after : Text
  pub cert_fingerprint : Text

pub record Roster : Type 0 where
  pub devices : Map Text DeviceRow
  pub certs : List CertRow

-- `AppError` of this tower; what an internal error says is not kept
pub data AppError : Type 0 where
  not_found : AppError
  bad_request : Text → AppError
  internal : AppError

pub data LeafUsage : Type 0 where
  client mtls : LeafUsage

pub record IssuedCert : Type 0 where
  pub der : Text
  pub pem : Text
  pub serial_hex : Text
  pub not_after : Text
  pub fingerprint : Text

-- `Ca` of ca.rs, as the handlers call it. A failure is what it says.
pub record Ca : Type 0 where
  pub verify_csr_pubkey : Text → Result Text Text
  pub issue_leaf : Text → Text → LeafUsage → Result Text IssuedCert
  pub root_cert_pem : Result Text Text

abbrev pub device_decrypt : Text
device_decrypt = text "device-decrypt"

abbrev pub enrolled : Text
enrolled = text "enrolled"

-- COALESCE
abbrev pub new_or_old : Option Text → Option Text → Option Text
new_or_old (some new) old = some new
new_or_old none old = old

-- what INSERT ... ON CONFLICT (id) DO UPDATE leaves as the row
unfoldable pub registered_row : RegisterDevice → Option DeviceRow → DeviceRow
registered_row req none = record {
  id = req.id;
  model = req.model;
  status = text "registered";
  pubkey = req.pubkey;
}
registered_row req (some row) = record row {
  model = new_or_old req.model row.model;
  pubkey = new_or_old req.pubkey row.pubkey;
}

abbrev pub enrolled_row : Text → DeviceRow → DeviceRow
enrolled_row pubkey row = record row { status = enrolled; pubkey = some pubkey }

abbrev pub same_key : CertRow → CertRow → Bool
same_key a b = a.device_id == b.device_id && a.key_id == b.key_id

abbrev pub same_serial : CertRow → CertRow → Bool
same_serial a b = a.cert_serial == b.cert_serial

-- the unique index on the serial, which ON CONFLICT (device_id, key_id) does not cover
unfoldable pub serial_taken : CertRow → List CertRow → Bool
unfolding any
serial_taken new certs = any (λ row. not (same_key row new) && same_serial row new) certs

-- INSERT ... ON CONFLICT (device_id, key_id) DO UPDATE
unfoldable pub put_cert : CertRow → List CertRow → List CertRow
put_cert new [] = new ∷ []
put_cert new (row ∷ rows) =
    let rest = put_cert new rows in if same_key row new then new ∷ rows else row ∷ rest

abbrev pub usage_of : Text → LeafUsage
usage_of key_id = if key_id == text "tls-identity" then mtls else client

abbrev pub cert_row : Text → Text → IssuedCert → CertRow
cert_row id key_id issued = record {
  device_id = id;
  key_id = key_id;
  cert_der = issued.der;
  cert_serial = issued.serial_hex;
  cert_not_after = issued.not_after;
  cert_fingerprint = issued.fingerprint;
}

abbrev pub leaf_response : Text → Text → IssuedCert → EnrollResponse
leaf_response id key_id issued = record {
  id = id;
  key_id = key_id;
  certificate_pem = some issued.pem;
  serial = some issued.serial_hex;
  not_after = some issued.not_after;
  fingerprint = some issued.fingerprint;
}

module _ (hashing : Hashing) (cose : Cose) (spki_der : Text → Option Text) where
  open hashing use {hex, sha256}

  abbrev pub thumbprint : Option Text → Option Text
  thumbprint none = none
  thumbprint (some der) = some (hex.encode (sha256 der))

  unfoldable pub ecu_id_from_cose_hex : Text → Option Text
  unfolding cose_to_sec1
  ecu_id_from_cose_hex pubkey_cose_hex = elim (hex.decode pubkey_cose_hex) [
    | none ↦ none
    | some bytes ↦ elim (cose_to_sec1 cose bytes) [
      | none ↦ none
      | some sec1 ↦ thumbprint (spki_der sec1)
    ]
  ]

  abbrev pub ecu_id_of : Option Text → Option Text
  ecu_id_of none = none
  ecu_id_of (some pubkey) = ecu_id_from_cose_hex pubkey

  unfoldable pub device_from_row : DeviceRow → Device
  device_from_row row = record {
    id = row.id;
    model = row.model;
    status = row.status;
    pubkey = row.pubkey;
    ecu_id = ecu_id_of row.pubkey;
  }

  unfoldable pub register_device : RegisterDevice → Exec Roster AppError Device
  unfolding registered_row device_from_row
  register_device req s =
      let row = registered_row req (get req.id s.devices) in
      (ok (device_from_row row), record s { devices = insert req.id row s.devices })

  abbrev pub found_device : Option DeviceRow → Result AppError Device
  found_device none = err not_found
  found_device (some row) = ok (device_from_row row)

  unfoldable pub get_device : Text → Roster → Result AppError Device
  unfolding device_from_row
  get_device id s = found_device (get id s.devices)

  unfoldable pub list_devices : (List DeviceRow → List DeviceRow) → Roster → List Device
  unfolding device_from_row
  list_devices order_by_id s = map device_from_row (order_by_id (map (λ e. e.1) s.devices))

  module _ (identity_ca : Ca) where
    open identity_ca use {verify_csr_pubkey, issue_leaf}

    -- the point of the CSR as the roster stores it
    unfoldable pub csr_pubkey : Text → Result AppError Text
    unfolding sec1_to_cose
    csr_pubkey body = elim (verify_csr_pubkey body) [
      | err e ↦ err (bad_request (text "CSR rejected: " ++ e))
      | ok pubkey_hex ↦ elim (hex.decode pubkey_hex) [
        | none ↦ err (bad_request (text "CSR key is not a 65-byte P-256 point"))
        | some sec1 ↦
            if nat_eq (length sec1) 65
            then ok (hex.encode (sec1_to_cose cose sec1))
            else err (bad_request (text "CSR key is not a 65-byte P-256 point"))
      ]
    ]

    unfoldable pub enroll_decrypt : Text → Text → Exec Roster AppError EnrollResponse
    unfolding csr_pubkey
    enroll_decrypt id body s = elim (csr_pubkey body) [
      | err e ↦ (err e, s)
      | ok pubkey ↦ elim (get id s.devices) [
        | none ↦ (err not_found, s)
        | some row ↦ (
          ok (record {
            id = id;
            key_id = device_decrypt;
            certificate_pem = none;
            serial = none;
            not_after = none;
            fingerprint = none;
          }),
          record s { devices = insert id (enrolled_row pubkey row) s.devices },
        )
      ]
    ]

    unfoldable pub enroll_leaf : Text → Text → Text → Exec Roster AppError EnrollResponse
    unfolding serial_taken put_cert
    enroll_leaf id key_id body s = elim (issue_leaf id body (usage_of key_id)) [
      | err e ↦ (err (bad_request (text "CSR rejected: " ++ e)), s)
      | ok issued ↦
          if not (contains_key id s.devices)
          then (err not_found, s)
          else if serial_taken (cert_row id key_id issued) s.certs
          then (err internal, s)
          else (
            ok (leaf_response id key_id issued),
            record s { certs = put_cert (cert_row id key_id issued) s.certs },
          )
    ]

    unfoldable pub enroll_device : Text → Text → Text → Exec Roster AppError EnrollResponse
    unfolding enroll_decrypt enroll_leaf
    enroll_device id key_id body s =
        if key_id == device_decrypt then enroll_decrypt id body s else enroll_leaf id key_id body s

-- `or_err` to an internal error, and the anchors by name
unfoldable pub trust_bundle : Ca → Ca → Result AppError TrustBundle
unfolding insert
trust_bundle identity_ca delegation_ca = do
  identity ← or_err identity_ca.root_cert_pem internal
  delegation ← or_err delegation_ca.root_cert_pem internal
  ok (record {
    anchors = insert (text "delegation") delegation (insert (text "identity") identity []);
  })
