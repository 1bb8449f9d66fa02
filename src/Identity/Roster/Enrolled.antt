-- ===== src/Identity/Roster/Enrolled.antt =====
-- What the roster answers about a device that was enrolled.
use sumo_provision.Base.{
  ◌<◌, ◌≡◌, refl, ◌∙◌, ap, Option, some, ◌∷◌, Text, Text_ord, Text_eq, text_eq, text_eq_iff, arith,
  All, length, ok,
}
use sumo_provision.Map.{get, insert, get-insert}
use sumo_provision.Wire.Hash.{Hashing}
use sumo_provision.Identity.Keys.{Cose, sec1_to_cose}
use sumo_provision.Identity.Keys.Roundtrip.{sec1-roundtrip}
use sumo_provision.Identity.Roster.{
  Roster, DeviceRow, Ca, enrolled, enrolled_row, device_decrypt, thumbprint, ecu_id_from_cose_hex,
  found_device, get_device, csr_pubkey, enroll_decrypt, enroll_device,
}

module _ (hashing : Hashing) (cose : Cose) (spki_der : Text → Option Text) where
  open hashing use {hex, sha256}

  ecu_id-encode :
      (point der : Text)
      → length point ≡ 64
      → All (λ b. b < 256) (sec1_to_cose cose (4 ∷ point))
      → spki_der (4 ∷ point) ≡ some der
      → ecu_id_from_cose_hex hashing cose spki_der (hex.encode (sec1_to_cose cose (4 ∷ point)))
        ≡ some (hex.encode (sha256 der))
  unfolding ecu_id_from_cose_hex
  ecu_id-encode point der size bytes known =
      rw (hex.decode-encode (sec1_to_cose cose (4 ∷ point)) bytes, ecu_id_from_cose_hex)
        (rw (sec1-roundtrip cose point size) (ap (thumbprint hashing cose spki_der) known))

  get_self :
      (id : Text) (row : DeviceRow) (s : Roster) → get id (insert id row s.devices) ≡ some row
  get_self id row s = ground (arith, get-insert id id row s.devices, text_eq_iff id id)

  module _ (identity_ca : Ca) where
    csr_pubkey-ok :
        (body point : Text)
        → identity_ca.verify_csr_pubkey body ≡ ok (hex.encode (4 ∷ point))
        → length point ≡ 64
        → All (λ b. b < 256) point
        → csr_pubkey hashing cose spki_der identity_ca body
          ≡ ok (hex.encode (sec1_to_cose cose (4 ∷ point)))
    unfolding csr_pubkey
    csr_pubkey-ok body point proved size bytes =
        rw (proved, csr_pubkey)
          (rw (hex.decode-encode (4 ∷ point) (omega arith, bytes)) (rw size refl))

    -- When the authority finds that the request of a registered device proves a point of 64 bytes
    -- behind the byte 4, the COSE encoding of the point is made of bytes, and the point has an
    -- X.509 encoding, then after the enrollment of the decryption key the roster answers that the
    -- device is enrolled, with the COSE key of the point in hexadecimal and with the digest of the
    -- X.509 encoding as its ECU id.
    pub enroll-get_device :
        (id body : Text) (s : Roster) (row : DeviceRow) (point der : Text)
        → get id s.devices ≡ some row
        → identity_ca.verify_csr_pubkey body ≡ ok (hex.encode (4 ∷ point))
        → length point ≡ 64
        → All (λ b. b < 256) point
        → All (λ b. b < 256) (sec1_to_cose cose (4 ∷ point))
        → spki_der (4 ∷ point) ≡ some der
        → get_device hashing cose spki_der id
            (enroll_device hashing cose spki_der identity_ca id device_decrypt body s).1
          ≡ ok (record {
            id = row.id;
            model = row.model;
            status = enrolled;
            pubkey = some (hex.encode (sec1_to_cose cose (4 ∷ point)));
            ecu_id = some (hex.encode (sha256 der));
          })
    unfolding enroll_device text_eq get get_device
    enroll-get_device id body s row point der there proved size bytes cose_bytes known =
        rw (csr_pubkey-ok body point proved size bytes, enroll_decrypt, there)
          (ap (found_device hashing cose spki_der)
              (get_self id (enrolled_row (hex.encode (sec1_to_cose cose (4 ∷ point))) row) s)
            ∙ ap
                (λ ecu_id. ok (record {
                  id = row.id;
                  model = row.model;
                  status = enrolled;
                  pubkey = some (hex.encode (sec1_to_cose cose (4 ∷ point)));
                  ecu_id = ecu_id;
                }))
                (ecu_id-encode point der size cose_bytes known))
