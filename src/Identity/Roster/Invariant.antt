-- ===== src/Identity/Roster/Invariant.antt =====
-- What holds of every roster that the handlers can leave.
use sumo_provision.Base.{
  ◌≡◌, refl, true, Option, none, some, [], Text, Text_ord, Text_eq, ◌==◌, text_eq, text_eq_iff,
  arith, All, All-imp, is_some, Bool-cases, Option-cases, ◌⊎◌, inl, inr,
}
use mathlib.Core.Path.{subst}
use sumo_provision.Map.{Map, get, insert, get-insert, contains_key}
use sumo_provision.Wire.Hash.{Hashing}
use sumo_provision.Wire.Roster.{RegisterDevice}
use sumo_provision.Identity.Keys.{Cose}
use sumo_provision.Identity.Roster.{
  DeviceRow, CertRow, Roster, Ca, registered_row, enrolled_row, enrolled, new_or_old,
  register_device, csr_pubkey, enroll_decrypt, enroll_leaf, enroll_device, serial_taken, cert_row,
  usage_of, device_decrypt,
}
use sumo_provision.Identity.Roster.Certs.{AllDistinct, put_cert-AllDistinct, put_cert-All}
use sumo_provision.Identity.Roster.Frame.{Result-cases}

-- A device that is enrolled has its key; a certificate belongs to a device of the roster; no two
-- certificates have one slot of one device, or one serial.
pub record IsRoster (s : Roster) : Type 0 where
  pub keyed :
      (id : Text) (row : DeviceRow)
      → get id s.devices ≡ some row
      → row.status ≡ enrolled
      → is_some row.pubkey ≡ true
  pub owned : All (λ (c : CertRow). is_some (get c.device_id s.devices) ≡ true) s.certs
  pub distinct : AllDistinct s.certs

abbrev pub no_devices : Roster
no_devices = record { devices = []; certs = [] }

get-inserted :
    (id other : Text) (row found : DeviceRow) (m : Map Text DeviceRow)
    → get other (insert id row m) ≡ some found
    → ((id ≡ other) × (row ≡ found)) ⊎ (get other m ≡ some found)
get-inserted id other row found m h = elim (Bool-cases (text_eq id other)) [
  | inl same ↦ inl (ground (arith, get-insert id other row m, text_eq_iff id other))
  | inr apart ↦ inr (ground (arith, get-insert id other row m))
]

still_there :
    (id other : Text) (row : DeviceRow) (m : Map Text DeviceRow)
    → is_some (get other m) ≡ true
    → is_some (get other (insert id row m)) ≡ true
still_there id other row m h = ground (arith, get-insert id other row m)

-- Inserting a row that has its key if it is enrolled.
insert-IsRoster :
    (id : Text) (row : DeviceRow) (s : Roster)
    → (row.status ≡ enrolled → is_some row.pubkey ≡ true)
    → IsRoster s
    → IsRoster (record s { devices = insert id row s.devices })
insert-IsRoster id row s good h = record {
  keyed = λ other found there is_enrolled. elim (get-inserted id other row found s.devices there) [
    | inl (same_id, same_row) ↦
        subst (λ (r : DeviceRow). r.status ≡ enrolled → is_some r.pubkey ≡ true) same_row good
          is_enrolled
    | inr before ↦ h.keyed other found before is_enrolled
  ];
  owned = All-imp s.certs (λ c. still_there id c.device_id row s.devices) h.owned;
  distinct = h.distinct;
}

registered-keyed :
    (req : RegisterDevice) (o : Option DeviceRow)
    → ((row : DeviceRow) → o ≡ some row → row.status ≡ enrolled → is_some row.pubkey ≡ true)
    → (registered_row req o).status ≡ enrolled
    → is_some (registered_row req o).pubkey ≡ true
unfolding registered_row
registered-keyed req none h is_enrolled = cc
registered-keyed req (some row) h is_enrolled = given req.pubkey
  where
    given : (new : Option Text) → is_some (new_or_old new row.pubkey) ≡ true
    given (some new) = refl
    given none = h row refl is_enrolled

module _ (hashing : Hashing) (cose : Cose) (spki_der : Text → Option Text) (identity_ca : Ca) where
  register-IsRoster :
      (req : RegisterDevice) (s : Roster)
      → IsRoster s
      → IsRoster (register_device hashing cose spki_der req s).1
  unfolding register_device
  register-IsRoster req s h =
      insert-IsRoster req.id (registered_row req (get req.id s.devices)) s
        (registered-keyed req (get req.id s.devices) (h.keyed req.id)) h

  decrypt-IsRoster :
      (id body : Text) (s : Roster)
      → IsRoster s
      → IsRoster (enroll_decrypt hashing cose spki_der identity_ca id body s).1
  unfolding enroll_decrypt
  decrypt-IsRoster id body s h =
      elim (Result-cases (csr_pubkey hashing cose spki_der identity_ca body)) [
        | inl (e, bad) ↦ rw (bad, enroll_decrypt) h
        | inr (pubkey, good) ↦ elim (Option-cases (get id s.devices)) [
          | inl gone ↦ rw (good, enroll_decrypt, gone) h
          | inr (row, there) ↦
              rw (good, enroll_decrypt, there)
                (insert-IsRoster id (enrolled_row pubkey row) s (λ e. refl) h)
        ]
      ]

  leaf-IsRoster :
      (id key_id body : Text) (s : Roster)
      → IsRoster s
      → IsRoster (enroll_leaf hashing cose spki_der identity_ca id key_id body s).1
  unfolding enroll_leaf
  leaf-IsRoster id key_id body s h =
      elim (Result-cases (identity_ca.issue_leaf id body (usage_of key_id))) [
        | inl (e, bad) ↦ rw (bad, enroll_leaf) h
        | inr (issued, good) ↦ elim (Bool-cases (contains_key id s.devices)) [
          | inl there ↦ elim (Bool-cases (serial_taken (cert_row id key_id issued) s.certs)) [
            | inl taken ↦ rw (good, enroll_leaf, there, taken) h
            | inr free ↦
                rw (good, enroll_leaf, there, free)
                  (record {
                    keyed = h.keyed;
                    owned =
                        put_cert-All (λ (c : CertRow). is_some (get c.device_id s.devices) ≡ true)
                          (cert_row id key_id issued) s.certs there h.owned;
                    distinct =
                        put_cert-AllDistinct (cert_row id key_id issued) s.certs h.distinct free;
                  })
          ]
          | inr gone ↦ rw (good, enroll_leaf, gone) h
        ]
      ]

  enroll-IsRoster :
      (id key_id body : Text) (s : Roster)
      → IsRoster s
      → IsRoster (enroll_device hashing cose spki_der identity_ca id key_id body s).1
  unfolding enroll_device
  enroll-IsRoster id key_id body s h = elim (Bool-cases (key_id == device_decrypt)) [
    | inl decrypt ↦ rw (decrypt, enroll_device) (decrypt-IsRoster id body s h)
    | inr leaf ↦ rw (leaf, enroll_device) (leaf-IsRoster id key_id body s h)
  ]

  -- The rosters that calls of the two handlers leave, from the empty one on.
  pub data Reachable : Roster → Type 0 where
    start : Reachable no_devices
    registered :
        (req : RegisterDevice) {s : Roster}
        → Reachable s
        → Reachable (register_device hashing cose spki_der req s).1
    enrolled_slot :
        (id key_id body : Text) {s : Roster}
        → Reachable s
        → Reachable (enroll_device hashing cose spki_der identity_ca id key_id body s).1

  -- In every roster that calls of the registration and enrollment handlers leave, whatever they
  -- are asked and whether they succeed, an enrolled device has its key, every certificate belongs
  -- to a device of the roster, and no two certificates share a slot of one device or a serial.
  pub reachable-IsRoster : {s : Roster} → Reachable s → IsRoster s
  unfolding get
  reachable-IsRoster start = record { keyed = λ id row h e. cc; owned = tt; distinct = tt }
  reachable-IsRoster (registered req {s = s} r) = register-IsRoster req s (reachable-IsRoster r)
  reachable-IsRoster (enrolled_slot id key_id body {s = s} r) =
      enroll-IsRoster id key_id body s (reachable-IsRoster r)
