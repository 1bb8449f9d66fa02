-- ===== src/Identity/Keystore/Leaf.antt =====
-- The leaf that the keystore carries.
use sumo_provision.Base.{
  ◌≡◌, refl, sym, ap, Option, some, List, [], ◌∷◌, Text, text, Text_eq, text_eq, text_eq_iff,
  Text_ord, arith, Result, ok, Bool-cases, inl, inr,
}
use sumo_provision.Map.{contains_key}
use sumo_provision.Wire.Hash.{Hashing}
use sumo_provision.Wire.Roster.{EnrollResponse}
use sumo_provision.Identity.Keys.{Cose}
use sumo_provision.Identity.Roster.{
  AppError, CertRow, Roster, Ca, IssuedCert, mtls, put_cert, serial_taken, cert_row, leaf_response,
  enroll_leaf, enroll_device,
}
use sumo_provision.Identity.Roster.Frame.{Result-cases}
use sumo_provision.Identity.Keystore.{tls_leaf}

abbrev pub tls_identity_slot : Text
tls_identity_slot = text "tls-identity"

tls_leaf-put_cert :
    (id : Text) (new : CertRow) (certs : List CertRow)
    → new.device_id ≡ id
    → new.key_id ≡ tls_identity_slot
    → tls_leaf id (put_cert new certs) ≡ some new.cert_der
unfolding tls_leaf put_cert
tls_leaf-put_cert id new [] same_id same_slot =
    ground (arith, text_eq_iff new.device_id id, text_eq_iff new.key_id tls_identity_slot)
tls_leaf-put_cert id new (row ∷ rows) same_id same_slot = ground (
  arith,
  tls_leaf-put_cert id new rows same_id same_slot,
  text_eq_iff new.device_id id,
  text_eq_iff new.key_id tls_identity_slot,
  text_eq_iff row.device_id id,
  text_eq_iff row.key_id tls_identity_slot,
  text_eq_iff row.device_id new.device_id,
  text_eq_iff row.key_id new.key_id,
)

module _ (hashing : Hashing) (cose : Cose) (spki_der : Text → Option Text) (identity_ca : Ca) where
  -- The certificate that was issued is in the answer and in the roster.
  abbrev pub IsDelivered : Text → Text → EnrollResponse → Roster → Type 0
  IsDelivered id body resp after =
      (issued : IssuedCert) × (identity_ca.issue_leaf id body mtls ≡ ok issued)
      × (resp.certificate_pem ≡ some issued.pem)
      × (tls_leaf id after.certs ≡ some issued.der)

  leaf-IsDelivered :
      (id body : Text) (s : Roster) {resp : EnrollResponse}
      → (enroll_leaf hashing cose spki_der identity_ca id tls_identity_slot body s).0 ≡ ok resp
      → IsDelivered id body resp
          (enroll_leaf hashing cose spki_der identity_ca id tls_identity_slot body s).1
  unfolding enroll_leaf text_eq
  leaf-IsDelivered id body s {resp = resp} h =
      elim (Result-cases (identity_ca.issue_leaf id body mtls)) [
        | inl (e, bad) ↦ ground (arith, rw (bad, enroll_leaf) at h)
        | inr (issued, good) ↦ elim (Bool-cases (contains_key id s.devices)) [
          | inl there ↦
              elim (Bool-cases (serial_taken (cert_row id tls_identity_slot issued) s.certs)) [
                | inl taken ↦ ground (arith, rw (good, enroll_leaf, there, taken) at h)
                | inr free ↦
                    let answered : ◌≡◌ {A = Result AppError EnrollResponse}
                        (ok (leaf_response id tls_identity_slot issued)) (ok resp) =
                      rw (good, enroll_leaf, there, free) at h in
                    let same : leaf_response id tls_identity_slot issued ≡ resp = cc in
                    (
                      issued,
                      good,
                      ap (λ (r : EnrollResponse). r.certificate_pem) (sym same),
                      rw (good, enroll_leaf, there, free)
                          (tls_leaf-put_cert id (cert_row id tls_identity_slot issued) s.certs refl
                            refl),
                    )
              ]
          | inr gone ↦ ground (arith, rw (good, enroll_leaf, gone) at h)
        ]
      ]

  -- When the enrollment of the TLS slot of a device succeeds, the authority issued a certificate
  -- for mutual TLS, the answer carries it, and it is the leaf that the next keystore of the device
  -- is minted with.
  pub enroll-IsDelivered :
      (id body : Text) (s : Roster) {resp : EnrollResponse}
      → (enroll_device hashing cose spki_der identity_ca id tls_identity_slot body s).0 ≡ ok resp
      → IsDelivered id body resp
          (enroll_device hashing cose spki_der identity_ca id tls_identity_slot body s).1
  unfolding enroll_device text_eq
  enroll-IsDelivered id body s h = leaf-IsDelivered id body s h
