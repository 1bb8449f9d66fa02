-- ===== src/Tests/IdentityRuns.antt =====
-- The identity tower on concrete inputs.
use sumo_provision.Base.{
  ◌<◌, false, any, ◌≡◌, refl, sym, ◌∙◌, ap, arith, false, Option, none, some, [], ◌∷◌, ◌++◌, Text,
  text, text_eq, Text_ord, Text_eq, ◌==◌, All, length, length-append, nat_eq, nat_eq_iff,
  if◌then◌else◌, Bool-cases, inl, inr, ok,
}
use mathlib.Core.Path.{subst}
use sumo_provision.Map.{get, insert}
use sumo_provision.Wire.Roster.{RegisterDevice, EnrollResponse}
use sumo_provision.Identity.Keys.{Cose, take, drop, cose_to_sec1, sec1_to_cose}
use sumo_provision.Identity.Keys.Roundtrip.{take-append, drop-append, split}
use sumo_provision.Identity.Roster.{
  Roster, DeviceRow, Ca, enrolled, device_decrypt, register_device, get_device, enroll_device,
}
use sumo_provision.Identity.Roster.Frame.{Framed, enroll-frame}
use sumo_provision.Identity.Roster.Enrolled.{enroll-get_device}
use sumo_provision.Identity.Roster.Invariant.{IsRoster, Reachable, no_devices, reachable-IsRoster}
use sumo_provision.Identity.Keystore.Leaf.{tls_identity_slot, IsDelivered, enroll-IsDelivered}
use sumo_provision.Tests.Samples.{hex, hashing, digest, copies}

-- a key is its two coordinates, one behind the other
abbrev coordinates : Text → Option (Text × Text)
coordinates key = if nat_eq (length key) 64 then some (take 32 key, drop 32 key) else none

coordinates-append :
    (x y : Text) → length x ≡ 32 → length y ≡ 32 → coordinates (x ++ y) ≡ some (x, y)
coordinates-append x y sx sy =
    let size : length (x ++ y) ≡ 64 = omega (arith, length-append x y, sx, sy) in
    let first : take 32 (x ++ y) ≡ x = subst (λ n. take n (x ++ y) ≡ x) sx (take-append x y) in
    let second : drop 32 (x ++ y) ≡ y = subst (λ n. drop n (x ++ y) ≡ y) sx (drop-append x y) in
    rw (size, first, second) refl

abbrev pair_or : Option (Text × Text) → Text × Text
pair_or none = ([], [])
pair_or (some p) = p

coordinates-size :
    (key x y : Text) → coordinates key ≡ some (x, y) → (length x ≡ 32) × (length y ≡ 32)
coordinates-size key x y h = elim (Bool-cases (nat_eq (length key) 64)) [
  | inl sized ↦
      let (a, b, same, sa, sb) = split 32 32 key ((nat_eq_iff (length key) 64).0 sized) in
      let both : some (a, b) ≡ some (x, y) =
        sym (coordinates-append a b sa sb) ∙ ap coordinates (sym same) ∙ h in
      let first : a ≡ x = ap (λ o. (pair_or o).0) both in
      let second : b ≡ y = ap (λ o. (pair_or o).1) both in
      (ap length (sym first) ∙ sa, ap length (sym second) ∙ sb)
  | inr other ↦ ground (arith, rw other at h)
]

abbrev cose : Cose
cose = record {
  CoseKey = Text;
  from_cose_key_bytes = λ bytes. some bytes;
  ec2_public_xy = coordinates;
  new_ec2_pub_key = λ x y. x ++ y;
  xy_size = coordinates-size;
  xy_of_new = λ x y sx sy. (x ++ y, refl, coordinates-append x y sx sy);
}

abbrev point : Text
point = copies 64 3

parsed : cose_to_sec1 cose point ≡ some (4 ∷ point)
unfolding cose_to_sec1 take drop
parsed = refl

abbrev spki_der : Text → Option Text
spki_der sec1 = some (48 ∷ sec1)

-- every request proves the one point, and gets the certificate of its name
abbrev identity_ca : Ca
identity_ca = record {
  verify_csr_pubkey = λ body. ok (hex.encode (4 ∷ point));
  issue_leaf = λ id body usage. ok (record {
    der = body;
    pem = body;
    serial_hex = body;
    not_after = text "2027";
    fingerprint = digest body;
  });
  root_cert_pem = ok (text "root");
}

abbrev car : RegisterDevice
car = record { id = text "car-1"; model = none; pubkey = none }

abbrev registered : Roster
registered = (register_device hashing cose spki_der car no_devices).1

abbrev car_row : DeviceRow
car_row = record { id = text "car-1"; model = none; status = text "registered"; pubkey = none }

known : get (text "car-1") registered.devices ≡ some car_row
unfolding register_device get insert text_eq
known = refl

bytes_of_point : All (λ b. b < 256) point
bytes_of_point = omega arith

bytes_of_key : All (λ b. b < 256) (sec1_to_cose cose (4 ∷ point))
unfolding sec1_to_cose take drop
bytes_of_key = omega arith

enroll-get_device_example :
    get_device hashing cose spki_der
      (text "car-1")
      (enroll_device hashing cose spki_der identity_ca
        (text "car-1")
        device_decrypt
        []
        registered).1
    ≡ ok (record {
      id = text "car-1";
      model = none;
      status = enrolled;
      pubkey = some (hex.encode (sec1_to_cose cose (4 ∷ point)));
      ecu_id = some (hex.encode (digest (48 ∷ 4 ∷ point)));
    })
enroll-get_device_example =
    enroll-get_device hashing cose spki_der identity_ca (text "car-1") [] registered car_row point
      (48 ∷ 4 ∷ point) known refl refl bytes_of_point bytes_of_key refl

other_device : (text "car-1" == text "car-2") ≡ false
unfolding text_eq
other_device = refl

enroll-frame_example : Framed hashing cose spki_der identity_ca (text "car-2") registered (
    enroll_device hashing cose spki_der identity_ca
      (text "car-1")
      (text "tls-identity")
      (7 ∷ [])
      registered)
enroll-frame_example =
    enroll-frame hashing cose spki_der identity_ca (text "car-1") (text "tls-identity") (7 ∷ [])
      (text "car-2") registered other_device

abbrev with_leaf : Roster
with_leaf =
    (enroll_device hashing cose spki_der identity_ca (text "car-1") (text "tls-identity") (7 ∷ [])
      (enroll_device hashing cose spki_der identity_ca (text "car-1") device_decrypt []
        registered).1).1

reached : Reachable hashing cose spki_der identity_ca with_leaf
reached = Reachable.enrolled_slot (text "car-1") (text "tls-identity") (7 ∷ []) (
    Reachable.enrolled_slot (text "car-1") device_decrypt []
      (Reachable.registered car Reachable.start))

reachable-IsRoster_example : IsRoster with_leaf
reachable-IsRoster_example = reachable-IsRoster hashing cose spki_der identity_ca reached

abbrev leaf_answer : EnrollResponse
leaf_answer = record {
  id = text "car-1";
  key_id = tls_identity_slot;
  certificate_pem = some (7 ∷ []);
  serial = some (7 ∷ []);
  not_after = some (text "2027");
  fingerprint = some (digest (7 ∷ []));
}

issued :
    (enroll_device hashing cose spki_der identity_ca
      (text "car-1")
      tls_identity_slot
      (7 ∷ [])
      registered).0
    ≡ ok leaf_answer
unfolding enroll_device register_device get insert text_eq any
issued = refl

enroll-IsDelivered_example :
    IsDelivered hashing cose spki_der identity_ca
      (text "car-1")
      (7 ∷ [])
      leaf_answer
      (enroll_device hashing cose spki_der identity_ca
        (text "car-1")
        tls_identity_slot
        (7 ∷ [])
        registered).1
enroll-IsDelivered_example =
    enroll-IsDelivered hashing cose spki_der identity_ca (text "car-1") (7 ∷ []) registered issued
