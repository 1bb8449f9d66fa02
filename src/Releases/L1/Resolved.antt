-- ===== src/Releases/L1/Resolved.antt =====
-- What a request for an L1 campaign resolves to: a tree in the order of its map.
use sumo_provision.Base.{
  ℕ, ◌≡◌, Option, none, some, List, [], ◌∷◌, Text, Text_ord, Text_eq, arith, Result, ok, ◌>>=◌,
  >>=-eq-ok, ok_or, any, filter, ◌==◌, Bool-cases, Option-cases, inl, inr, ℕ_eq,
}
use mathlib.Core.Path.{subst}
use sumo_provision.Releases.Identity.{tree_hash}
use sumo_provision.Map.{IsSorted, insert, insert-IsSorted}
use sumo_provision.Wire.Hash.{Hashing}
use sumo_provision.Wire.Model.{Tree, empty_tree}
use sumo_provision.Releases.Tables.{AppError, MemberRow, VehicleRow, Db, TargetSelector, not_found}
use sumo_provision.Releases.Resolve.{
  read_member, read_members, resolve_members_to_tree, resolve_channel_target, resolve_pinned,
  select_tree, check_tree_hash, resolve_target, channel_target_vehicle,
}
use sumo_provision.Releases.L1.{L1Request, request_selector, check_release, l1_target}
use sumo_provision.Signer.{Offboard, parse_device_pubkey}

-- A tree, where there is one, is in the order of its map.
abbrev AllSorted : Option Tree → Type 0
AllSorted none = Unit
AllSorted (some tree) = IsSorted tree.entities

ok-AllSorted :
    (o : Option Tree) {found : Option Tree}
    → ◌≡◌ {A = Result AppError (Option Tree)} (ok o) (ok found)
    → AllSorted o
    → AllSorted found
ok-AllSorted o {found = found} h sorted = let same : o ≡ found = cc in subst AllSorted same sorted

module _ (hashing : Hashing) where
  read_members-IsSorted :
      (s : Db) (tree : Tree) (ms : List MemberRow) {t : Tree}
      → IsSorted tree.entities
      → read_members hashing s tree ms ≡ ok t
      → IsSorted t.entities
  unfolding read_members
  read_members-IsSorted s tree [] sorted h = ground (arith, h)
  read_members-IsSorted s tree (m ∷ ms) sorted h =
      let (entry, e, k) =
        >>=-eq-ok (read_member hashing s m)
          (λ entry.
            read_members hashing s (record { entities = insert entry.0 entry.1 tree.entities }) ms)
          h in
      read_members-IsSorted s (record { entities = insert entry.0 entry.1 tree.entities }) ms
        (insert-IsSorted entry.0 entry.1 tree.entities sorted) k

  members-IsSorted :
      (s : Db) (id : ℕ) {t : Tree}
      → resolve_members_to_tree hashing s id ≡ ok t
      → IsSorted t.entities
  unfolding resolve_members_to_tree
  members-IsSorted s id h =
      read_members-IsSorted s empty_tree
        (filter (λ (m : MemberRow). m.vehicle_release_id == id) s.members) tt h

  found-AllSorted :
      (s : Db) (id : ℕ) {found : Option Tree}
      → (resolve_members_to_tree hashing s id >>= λ tree. ok (some tree)) ≡ ok found
      → AllSorted found
  found-AllSorted s id {found = found} h =
      let (tree, e, k) =
        >>=-eq-ok (resolve_members_to_tree hashing s id) (λ tree. ok (some tree)) h in
      let same : some tree ≡ found = cc in subst AllSorted same (members-IsSorted s id e)

  channel-AllSorted :
      (s : Db) (channel : Text) (device architecture : Option Text) {found : Option Tree}
      → resolve_channel_target hashing s channel device architecture ≡ ok found
      → AllSorted found
  unfolding resolve_channel_target
  channel-AllSorted s channel device architecture {found = found} h =
      elim (Option-cases (channel_target_vehicle s channel device architecture)) [
        | inl gone ↦ ok-AllSorted none (rw (gone, resolve_channel_target) at h) tt
        | inr (id, there) ↦ found-AllSorted s id (rw (there, resolve_channel_target) at h)
      ]

  pinned-AllSorted :
      (s : Db) (id : ℕ) {found : Option Tree}
      → resolve_pinned hashing s id ≡ ok found
      → AllSorted found
  pinned-AllSorted s id h = elim (Bool-cases (any (λ (r : VehicleRow). r.id == id) s.vehicles)) [
    | inl there ↦ found-AllSorted s id (rw there at h)
    | inr gone ↦ ok-AllSorted none (rw gone at h) tt
  ]

  select-AllSorted :
      (s : Db) (id : Option ℕ) (channel device architecture : Option Text) {found : Option Tree}
      → select_tree hashing s id channel device architecture ≡ ok found
      → AllSorted found
  unfolding select_tree
  select-AllSorted s (some id) channel device architecture h = pinned-AllSorted s id h
  select-AllSorted s none (some channel) device architecture h =
      channel-AllSorted s channel device architecture h
  select-AllSorted s none none device architecture h = cc

  check-AllSorted :
      (expected : Option Text) (tree : Option Tree) {found : Option Tree}
      → AllSorted tree
      → check_tree_hash hashing expected tree ≡ ok found
      → AllSorted found
  unfolding check_tree_hash
  check-AllSorted (some expected) (some tree) sorted h =
      elim (Bool-cases (tree_hash hashing tree == expected)) [
        | inl same ↦ ok-AllSorted (some tree) (rw same at h) sorted
        | inr other ↦ ground (arith, rw other at h)
      ]
  check-AllSorted (some expected) none sorted h = ok-AllSorted none h sorted
  check-AllSorted none tree sorted h = ok-AllSorted tree h sorted

  pub resolve-AllSorted :
      (s : Db) (sel : TargetSelector) {found : Option Tree}
      → resolve_target hashing s sel ≡ ok found
      → AllSorted found
  unfolding resolve_target
  resolve-AllSorted s sel h =
      let (tree, e, k) =
        >>=-eq-ok
          (select_tree hashing s sel.vehicle_release_id sel.channel sel.device sel.architecture)
          (λ tree. check_tree_hash hashing sel.tree_hash tree) h in
      check-AllSorted sel.tree_hash tree
        (select-AllSorted s sel.vehicle_release_id sel.channel sel.device sel.architecture e) k

  module _ (offboard : Offboard) {Value : Type 0} where
    pub l1_target-IsSorted :
        (s : Db) (req : L1Request Value) {target : Text × Tree}
        → l1_target offboard hashing s req ≡ ok target
        → IsSorted target.1.entities
    unfolding l1_target
    l1_target-IsSorted s req h =
        let (pubkey, e1, k1) =
          >>=-eq-ok (parse_device_pubkey offboard hashing.hex req.device_pubkey)
            (λ pubkey. check_release s req >>= λ served.
              resolve_target hashing s (request_selector req) >>= λ found.
              ok_or found not_found >>= λ tree. ok (pubkey, tree))
            h in
        let (served, e2, k2) =
          >>=-eq-ok (check_release s req)
            (λ served. resolve_target hashing s (request_selector req) >>= λ found.
              ok_or found not_found >>= λ tree. ok (pubkey, tree))
            k1 in
        let (found, e3, k3) =
          >>=-eq-ok (resolve_target hashing s (request_selector req))
            (λ found. ok_or found not_found >>= λ tree. ok (pubkey, tree)) k2 in
        answered pubkey found (resolve-AllSorted s (request_selector req) e3) k3
      where
        answered :
            (pubkey : Text) (found : Option Tree) {target : Text × Tree}
            → AllSorted found
            → (ok_or found not_found >>= λ tree. ok (pubkey, tree)) ≡ ok target
            → IsSorted target.1.entities
        answered pubkey none sorted k = cc
        answered pubkey (some tree) {target = target} sorted k =
            let same : (pubkey, tree) ≡ target = cc in
            subst (λ (t : Text × Tree). IsSorted t.1.entities) same sorted
