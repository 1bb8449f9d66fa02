-- ===== src/Releases/History.antt =====
-- The listings of crates/software-tower/src/releases.rs: `list_component_releases`,
-- `list_vehicle_releases` and `list_channels`. `collates` is the order that the database gives to
-- texts; the text of a timestamp is taken to be ordered as its time is.
use sumo_provision.Base.{
  ℕ, ◌≡◌, refl, ◌∙◌, ap, arith, Bool, true, not, ◌&&◌, ◌||◌, Option, none, some, List, [], ◌∷◌, map,
  flat_map, Text, Text_eq, ℕ_eq, ◌==◌, ltb, any, any-filter, any-map, filter, if◌then◌else◌,
}
use sumo_provision.Releases.Tables.{
  ComponentRow, PartRow, VehicleRow, MemberRow, ChannelRow, Db, ChannelTargetState,
}
use sumo_provision.Releases.Channel.{state_of}

-- ORDER BY: an item stays in front of the ones that it does not come behind
unfoldable pub insert_ordered : {A : Type 0} → (A → A → Bool) → A → List A → List A
insert_ordered before x [] = x ∷ []
insert_ordered before x (y ∷ ys) =
    let rest = insert_ordered before x ys in if before y x then y ∷ rest else x ∷ y ∷ ys

unfoldable pub order_by : {A : Type 0} → (A → A → Bool) → List A → List A
unfolding insert_ordered
order_by before [] = []
order_by before (x ∷ xs) = insert_ordered before x (order_by before xs)

-- `$1::text IS NULL OR key = $1`
abbrev pub matches : Option Text → Text → Bool
matches none key = true
matches (some wanted) key = key == wanted

-- created_at DESC, id DESC
abbrev pub newer : ℕ × ℕ → ℕ × ℕ → Bool
newer (created_a, id_a) (created_b, id_b) =
    ltb created_b created_a || (not (ltb created_a created_b) && ltb id_b id_a)

-- `PartRow` and `ComponentReleaseRow` of the answer
pub record ListedPart : Type 0 where
  pub id : Text
  pub kind : Text
  pub content_hash : Text

pub record ComponentReleaseRow : Type 0 where
  pub id : ℕ
  pub entity_path : Text
  pub entity_kind : Text
  pub version : Text
  pub identity_hash : Option Text
  pub created_at : ℕ
  pub parts : List ListedPart

pub record VehicleReleaseRow : Type 0 where
  pub id : ℕ
  pub tag : Text
  pub version : Text
  pub identity_hash : Option Text
  pub created_at : ℕ
  pub members : List ℕ

abbrev pub listed_part : PartRow → ListedPart
listed_part p = record { id = p.part_id; kind = p.part_kind; content_hash = p.content_hash }

module _ (collates : Text → Text → Bool) where
  unfoldable pub component_release_row : Db → ComponentRow → ComponentReleaseRow
  unfolding order_by filter
  component_release_row s r = record {
    id = r.id;
    entity_path = r.entity_path;
    entity_kind = r.entity_kind;
    version = r.version;
    identity_hash = r.identity_hash;
    created_at = r.created_at;
    parts = map listed_part (
        order_by (λ (a : PartRow) (b : PartRow). collates a.part_id b.part_id)
          (filter (λ (p : PartRow). p.release_id == r.id) s.component_parts));
  }

  unfoldable pub list_component_releases : Option Text → Db → List ComponentReleaseRow
  unfolding component_release_row order_by filter
  list_component_releases entity_path s = map (component_release_row s) (
      order_by
        (λ (a : ComponentRow) (b : ComponentRow). newer (a.created_at, a.id) (b.created_at, b.id))
        (filter (λ (r : ComponentRow). matches entity_path r.entity_path) s.components))

  -- a row of `channel_targets` joined with its release
  unfoldable pub joined : Db → ChannelRow → List ChannelTargetState
  unfolding filter
  joined s c =
      map (λ (v : VehicleRow). state_of c.channel (some c) (some v))
        (filter (λ (v : VehicleRow). v.id == c.vehicle_release_id) s.vehicles)

  abbrev pub channel_before : ChannelRow → ChannelRow → Bool
  channel_before a b =
      collates a.channel b.channel
      || (not (collates b.channel a.channel)
          && (collates a.device b.device
              || (not (collates b.device a.device) && collates a.architecture b.architecture)))

  unfoldable pub list_channels : Db → List ChannelTargetState
  unfolding joined order_by flat_map
  list_channels s = flat_map (joined s) (order_by channel_before s.channels)

unfoldable pub vehicle_release_row : Db → VehicleRow → VehicleReleaseRow
unfolding order_by filter
vehicle_release_row s r = record {
  id = r.id;
  tag = r.tag;
  version = r.version;
  identity_hash = r.identity_hash;
  created_at = r.created_at;
  members = order_by ltb (
      map (λ (m : MemberRow). m.component_release_id)
        (filter (λ (m : MemberRow). m.vehicle_release_id == r.id) s.members));
}

unfoldable pub list_vehicle_releases : Option Text → Db → List VehicleReleaseRow
unfolding vehicle_release_row order_by filter
list_vehicle_releases tag s = map (vehicle_release_row s) (
    order_by (λ (a : VehicleRow) (b : VehicleRow). newer (a.created_at, a.id) (b.created_at, b.id))
      (filter (λ (r : VehicleRow). matches tag r.tag) s.vehicles))

any-insert_ordered :
    {A : Type 0} (p : A → Bool) (before : A → A → Bool) (x : A) (xs : List A)
    → any p (insert_ordered before x xs) ≡ (p x || any p xs)
unfolding insert_ordered any
any-insert_ordered p before x [] = refl
any-insert_ordered p before x (y ∷ ys) = ground (arith, any-insert_ordered p before x ys)

any-order_by :
    {A : Type 0} (p : A → Bool) (before : A → A → Bool) (xs : List A)
    → any p (order_by before xs) ≡ any p xs
unfolding order_by any
any-order_by p before [] = refl
any-order_by p before (x ∷ xs) =
    any-insert_ordered p before x (order_by before xs)
    ∙ ap (λ b. p x || b) (any-order_by p before xs)

-- A listing has the releases that the filter matches, and no other.
pub list_component_releases-any :
    (collates : Text → Text → Bool) (entity_path : Option Text) (s : Db) (id : ℕ)
    → any (λ (r : ComponentReleaseRow). r.id == id) (list_component_releases collates entity_path s)
      ≡ any (λ (r : ComponentRow). matches entity_path r.entity_path && r.id == id) s.components
unfolding list_component_releases component_release_row
list_component_releases-any collates entity_path s id =
    any-map (λ (r : ComponentReleaseRow). r.id == id) (component_release_row collates s)
      (order_by
        (λ (a : ComponentRow) (b : ComponentRow). newer (a.created_at, a.id) (b.created_at, b.id))
        (filter (λ (r : ComponentRow). matches entity_path r.entity_path) s.components))
    ∙ any-order_by (λ (r : ComponentRow). r.id == id)
        (λ (a : ComponentRow) (b : ComponentRow). newer (a.created_at, a.id) (b.created_at, b.id))
        (filter (λ (r : ComponentRow). matches entity_path r.entity_path) s.components)
    ∙ any-filter (λ (r : ComponentRow). matches entity_path r.entity_path)
        (λ (r : ComponentRow). r.id == id) s.components
