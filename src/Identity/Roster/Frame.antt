-- ===== src/Identity/Roster/Frame.antt =====
-- What registering and enrolling leave as it was.
use sumo_provision.Base.{
  ◌≡◌, refl, ◌∙◌, ap, false, Option, some, Text, Text_ord, Text_eq, ◌==◌, Result, ok, err,
  Bool-cases, Option-cases, ◌⊎◌, inl, inr, if◌then◌else◌,
}
use sumo_provision.Map.{get, insert, get-insert, contains_key}
use sumo_provision.Wire.Hash.{Hashing}
use sumo_provision.Wire.Roster.{RegisterDevice, EnrollResponse}
use sumo_provision.Identity.Keys.{Cose}
use sumo_provision.Identity.Roster.{
  Roster, DeviceRow, AppError, Ca, registered_row, register_device, found_device, get_device,
  csr_pubkey, enroll_decrypt, enroll_leaf, enroll_device, serial_taken, device_decrypt,
  enrolled_row, usage_of, cert_row,
}

pub Result-cases :
    {E A : Type 0} (r : Result E A) → ((e : E) × (r ≡ err e)) ⊎ ((a : A) × (r ≡ ok a))
Result-cases (err e) = inl (e, refl)
Result-cases (ok a) = inr (a, refl)

module _ (hashing : Hashing) (cose : Cose) (spki_der : Text → Option Text) where
  get_device-insert :
      (id other : Text) (row : DeviceRow) (s : Roster)
      → (id == other) ≡ false
      → get_device hashing cose spki_der other (record s { devices = insert id row s.devices })
        ≡ get_device hashing cose spki_der other s
  unfolding get_device
  get_device-insert id other row s apart = ap (found_device hashing cose spki_der) (
      get-insert id other row s.devices
      ∙ ap (λ b. if b then some row else get other s.devices) apart)

  pub register-frame :
      (req : RegisterDevice) (other : Text) (s : Roster)
      → (req.id == other) ≡ false
      → get_device hashing cose spki_der other (register_device hashing cose spki_der req s).1
        ≡ get_device hashing cose spki_der other s
  unfolding register_device
  register-frame req other s apart =
      get_device-insert req.id other (registered_row req (get req.id s.devices)) s apart

  module _ (identity_ca : Ca) where
    -- What an enrollment leaves: the rest of the roster for one that succeeds, and all of it for one
    -- that fails.
    abbrev pub Framed : Text → Roster → Result AppError EnrollResponse × Roster → Type 0
    Framed other s after =
        (get_device hashing cose spki_der other after.1 ≡ get_device hashing cose spki_der other s)
        × ((e : AppError) → after.0 ≡ err e → after.1 ≡ s)

    decrypt-frame :
        (id body other : Text) (s : Roster)
        → (id == other) ≡ false
        → Framed other s (enroll_decrypt hashing cose spki_der identity_ca id body s)
    unfolding enroll_decrypt
    decrypt-frame id body other s apart =
        elim (Result-cases (csr_pubkey hashing cose spki_der identity_ca body)) [
          | inl (e, bad) ↦ rw (bad, enroll_decrypt) (refl, λ e h. refl)
          | inr (pubkey, good) ↦ elim (Option-cases (get id s.devices)) [
            | inl gone ↦ rw (good, enroll_decrypt, gone) (refl, λ e h. refl)
            | inr (row, there) ↦
                rw (good, enroll_decrypt, there)
                  (get_device-insert id other (enrolled_row pubkey row) s apart, λ e h. cc)
          ]
        ]

    leaf-frame :
        (id key_id body other : Text) (s : Roster)
        → Framed other s (enroll_leaf hashing cose spki_der identity_ca id key_id body s)
    unfolding enroll_leaf get_device
    leaf-frame id key_id body other s =
        elim (Result-cases (identity_ca.issue_leaf id body (usage_of key_id))) [
          | inl (e, bad) ↦ rw (bad, enroll_leaf) (refl, λ e h. refl)
          | inr (issued, good) ↦ elim (Bool-cases (contains_key id s.devices)) [
            | inl there ↦ elim (Bool-cases (serial_taken (cert_row id key_id issued) s.certs)) [
              | inl taken ↦ rw (good, enroll_leaf, there, taken) (refl, λ e h. refl)
              | inr free ↦ rw (good, enroll_leaf, there, free) (refl, λ e h. cc)
            ]
            | inr gone ↦ rw (good, enroll_leaf, gone) (refl, λ e h. refl)
          ]
        ]

    -- Whatever an enrollment returns, what the roster answers about another device stays as it
    -- was, and an enrollment that fails changes nothing.
    pub enroll-frame :
        (id key_id body other : Text) (s : Roster)
        → (id == other) ≡ false
        → Framed other s (enroll_device hashing cose spki_der identity_ca id key_id body s)
    unfolding enroll_device
    enroll-frame id key_id body other s apart = elim (Bool-cases (key_id == device_decrypt)) [
      | inl decrypt ↦ rw (decrypt, enroll_device) (decrypt-frame id body other s apart)
      | inr leaf ↦ rw (leaf, enroll_device) (leaf-frame id key_id body other s)
    ]
