-- ===== src/Releases/Publish/Vehicle.antt =====
-- A second call that publishes the same vehicle release.
use sumo_provision.Base.{
  ℕ, ◌+◌, ◌≡◌, refl, ◌∙◌, ap, Bool, true, false, Option, none, some, List, [], ◌∷◌, ◌++◌, map,
  arith, text_eq_iff, Bool-cases, Option-cases, inl, inr, ok, option_eq,
}
use sumo_provision.Base.Exec.{pure, continue-keeps, for_each, for_each-keeps}
use sumo_provision.Wire.Hash.{Hashing}
use sumo_provision.Releases.Tables.{VehicleRow, Db, NewVehicleRelease}
use sumo_provision.Releases.Identity.{vehicle_identity}
use sumo_provision.Releases.Publish.{
  find, vehicle_ref, is_vehicle, insert_vehicle, insert_member, with_snapshot, update_snapshot,
  cut_vehicle, reuse_vehicle, create_vehicle_release,
}
use sumo_provision.Releases.Publish.Idempotent.{find_new}

-- A row is found again after a change that its condition does not see.
find-map :
    {A : Type 0} (p : A → Bool) (f : A → A) (xs : List A) {x : A}
    → ((y : A) → p (f y) ≡ p y)
    → find p xs ≡ some x
    → find p (map f xs) ≡ some (f x)
unfolding find
find-map p f [] h k = cc
find-map p f (y ∷ ys) h k = elim (Bool-cases (p y)) [
  | inl here ↦
      rw (h y, here) (ap (λ o. elim o [ none ↦ none | some z ↦ some (f z) ]) (rw here at k))
  | inr there ↦ rw (h y, there) (find-map p f ys h (rw there at k))
]

module _ (hashing : Hashing) where
  abbrev wanted_vehicle : NewVehicleRelease → VehicleRow → Bool
  wanted_vehicle req =
      is_vehicle req.tag (vehicle_identity hashing req.members req.disabled_members)

  abbrev pub vehicle_row : NewVehicleRelease → Db → VehicleRow
  vehicle_row req s = record {
    id = s.next_vehicle;
    tag = req.tag;
    version = req.version;
    identity_hash = some (vehicle_identity hashing req.members req.disabled_members);
    created_at = s.now;
    config_snapshot = req.config_snapshot;
  }

  vehicle_wanted :
      (req : NewVehicleRelease) (s : Db) → wanted_vehicle req (vehicle_row req s) ≡ true
  unfolding option_eq
  vehicle_wanted req s = ground (
    arith,
    text_eq_iff req.tag req.tag,
    text_eq_iff (vehicle_identity hashing req.members req.disabled_members)
        (vehicle_identity hashing req.members req.disabled_members),
  )

  member_vehicles :
      (id : ℕ) (disabled : List ℕ) (m : ℕ) (s : Db)
      → (insert_member id disabled m s).1.vehicles ≡ s.vehicles
  unfolding insert_member
  member_vehicles id disabled m s = ground arith

  cut_vehicles :
      (req : NewVehicleRelease) (s : Db)
      → (cut_vehicle hashing req s).1.vehicles ≡ s.vehicles ++ vehicle_row req s ∷ []
  unfolding cut_vehicle insert_vehicle
  cut_vehicles req s =
      let step = insert_member s.next_vehicle req.disabled_members in
      let kept = member_vehicles s.next_vehicle req.disabled_members in
      let s' : Db = record s {
        vehicles = s.vehicles ++ vehicle_row req s ∷ [];
        next_vehicle = s.next_vehicle + 1;
      } in
      continue-keeps (λ (t : Db). t.vehicles) (pure (vehicle_ref (vehicle_row req s) false))
        (for_each step req.members s').0 s' (for_each step req.members s').1 (λ t. refl)
        (for_each-keeps (λ (t : Db). t.vehicles) step kept req.members s')

  wanted-snapshot :
      (req : NewVehicleRelease) (id : ℕ) (snapshot : Option _) (r : VehicleRow)
      → wanted_vehicle req (with_snapshot id snapshot r) ≡ wanted_vehicle req r
  wanted-snapshot req id snapshot r = ground arith

  snapshot-found :
      (req : NewVehicleRelease) (id : ℕ) (snapshot : Option _) (s : Db) (row : VehicleRow)
      → find (wanted_vehicle req) s.vehicles ≡ some row
      → (r : VehicleRow) × (find (wanted_vehicle req) (update_snapshot id snapshot s).1.vehicles
          ≡ some r)
  unfolding update_snapshot
  snapshot-found req id none s row h = (row, h)
  snapshot-found req id (some c) s row h = (
    with_snapshot id (some c) row,
    find-map (wanted_vehicle req) (with_snapshot id (some c)) s.vehicles
        (wanted-snapshot req id (some c)) h,
  )

  reuse_answer :
      (req : NewVehicleRelease) (row : VehicleRow) (s : Db)
      → reuse_vehicle hashing req row s
        ≡ (ok (vehicle_ref row true), (update_snapshot row.id req.config_snapshot s).1)
  unfolding reuse_vehicle update_snapshot
  reuse_answer req row s = ground arith

  vehicle_found :
      (req : NewVehicleRelease) (s : Db) (row : VehicleRow)
      → find (wanted_vehicle req) s.vehicles ≡ some row
      → create_vehicle_release hashing req s ≡ reuse_vehicle hashing req row s
  unfolding create_vehicle_release
  vehicle_found req s row old = rw (old, create_vehicle_release) refl

  vehicle_fresh :
      (req : NewVehicleRelease) (s : Db)
      → find (wanted_vehicle req) s.vehicles ≡ none
      → create_vehicle_release hashing req s ≡ cut_vehicle hashing req s
  unfolding create_vehicle_release
  vehicle_fresh req s fresh = rw (fresh, create_vehicle_release) refl

  find-create_vehicle :
      (req : NewVehicleRelease) (s : Db)
      → (row : VehicleRow) × (find
            (wanted_vehicle req)
            (create_vehicle_release hashing req s).1.vehicles
          ≡ some row)
  find-create_vehicle req s = elim (Option-cases (find (wanted_vehicle req) s.vehicles)) [
    | inl fresh ↦ (
      vehicle_row req s,
      rw (vehicle_fresh req s fresh, cut_vehicles req s)
          (find_new (wanted_vehicle req) (vehicle_row req s) s.vehicles fresh
            (vehicle_wanted req s)),
    )
    | inr (row, old) ↦
        rw (vehicle_found req s row old, reuse_answer req row s)
          (snapshot-found req row.id req.config_snapshot s row old)
  ]

  -- Whether a call to publish a vehicle release succeeded or failed, the same call made again
  -- succeeds: it answers with a release and says that it is reused.
  pub create_vehicle-again :
      (req : NewVehicleRelease) (s : Db)
      → (row : VehicleRow) × ((create_vehicle_release hashing req
            (create_vehicle_release hashing req s).1).0
          ≡ ok (vehicle_ref row true))
  create_vehicle-again req s =
      let (row, there) = find-create_vehicle req s in
      (
        row,
        ap (λ r. r.0)
            (vehicle_found req (create_vehicle_release hashing req s).1 row there
              ∙ reuse_answer req row (create_vehicle_release hashing req s).1),
      )
