-- ===== src/Orchestrator/Rig.antt =====
-- The reading of a rig in crates/orchestrator/src/lib.rs: `connect_sovd`, `read_rig_state` and what
-- it calls. The crate `sovd-client` is a parameter, and so is serde_json; what the rig answers does
-- not change while it is read.
pub mod Scheme
pub mod State
use sumo_provision.Base.{
  ℕ, Bool, ◌||◌, Option, none, some, List, [], ◌∷◌, ◌++◌, Text, Text_ord, Text_eq, text, ◌==◌,
  nat_eq, if◌then◌else◌, trim, Result, ok, err, ◌>>=◌, ok_or, or_err,
}
use sumo_provision.Map.{insert}
use sumo_provision.Wire.Hash.{Hex, strip_prefix}
use sumo_provision.Wire.Model.{UpdateMode, Part, Entity, Tree, empty_tree}
use sumo_provision.Client.{trim_end_slashes}
use sumo_provision.Orchestrator.Model.{Error, sovd, node_state, manifest}
use sumo_provision.Orchestrator.Preview.{
  InstalledFile, installed_files_to_parts, parse_admin_disabled,
}

-- `SovdClientError`: a status that the server answered with, an error of the transport, or one of
-- the variants that are not named here, as for an answer that cannot be read
pub data SovdClientError : Type 0 where
  server_error : ℕ → SovdClientError
  http_error other_error : SovdClientError

-- `sovd_client::Component`, with the fields that are read here
pub record Component : Type 0 where
  pub id : Text
  pub component_type : Option Text

-- `Identity` and `InstalledManifest`
pub record Identity : Type 0 where
  pub name : Text
  pub version : Text

pub record InstalledManifest : Type 0 where
  pub identity : Identity
  pub files : List InstalledFile

-- `SovdClient`, and what serde_json makes of its answers
pub record Sovd : Type 1 where
  pub SovdClient : Type 0
  pub Value : Type 0
  pub new_verifying : Text → Result SovdClientError SovdClient
  pub list_components : SovdClient → Result SovdClientError (List Component)
  pub read_data : SovdClient → Text → Text → Result SovdClientError Value
  -- the extensions of the status
  pub read_status : SovdClient → Text → Result SovdClientError (Text → Option Value)
  pub get_field : Value → Text → Option Value
  pub as_str : Value → Option Text
  pub installed_manifest : Value → Option InstalledManifest
  pub update_mode : Value → Option UpdateMode

-- `split_once`
unfoldable pub split_once : Text → Text → Option (Text × Text)
unfolding strip_prefix
split_once sep [] = elim (strip_prefix sep []) [ none ↦ none | some rest ↦ some ([], rest) ]
split_once sep (c ∷ s) =
    let later = split_once sep s in
    elim (strip_prefix sep (c ∷ s)) [
      | some rest ↦ some ([], rest)
      | none ↦ elim later [ none ↦ none | some (before, rest) ↦ some (c ∷ before, rest) ]
    ]

-- the url as given, and the one with the scheme swapped
unfoldable pub swap_scheme : Text → Option (Text × Text) → List Text
swap_scheme base none = base ∷ []
swap_scheme base (some (scheme, rest)) =
    if scheme == text "https"
    then base ∷ (text "http://" ++ rest) ∷ []
    else if scheme == text "http"
    then base ∷ (text "https://" ++ rest) ∷ []
    else base ∷ []

unfoldable pub candidates : Text → List Text
unfolding swap_scheme split_once
candidates base = swap_scheme base (split_once (text "://") base)

-- the statuses for a resource that is not there
unfoldable pub is_absent : SovdClientError → Bool
is_absent (server_error status) = nat_eq status 404 || nat_eq status 501
is_absent http_error = Bool.false
is_absent other_error = Bool.false

module _ (device : Sovd) where
  open device use {
    SovdClient, Value, new_verifying, list_components, read_data, read_status, get_field, as_str,
    installed_manifest, update_mode,
  }

  -- the error after the last candidate
  abbrev pub unreachable : Option SovdClientError → Error
  unreachable none = node_state
  unreachable (some e) = sovd

  unfoldable pub probe :
      Option SovdClientError → List Text → Result Error (SovdClient × List Component)
  probe last_err [] = err (unreachable last_err)
  probe last_err (url ∷ urls) =
      let next = probe (some http_error) urls in
      let next_other = probe (some other_error) urls in
      elim (new_verifying url) [
        | err e ↦ err sovd
        | ok client ↦ elim (list_components client) [
          | ok components ↦ ok (client, components)
          | err (server_error status) ↦ err sovd
          | err http_error ↦ next
          | err other_error ↦ next_other
        ]
      ]

  unfoldable pub connect_sovd : Text → Result Error (SovdClient × List Component)
  unfolding probe candidates trim_end_slashes
  connect_sovd sovd_url = probe none (candidates (trim_end_slashes sovd_url))

  -- `Err(ServerError { status: 404 | 501 }) => Ok(None)`, and other errors are passed on
  unfoldable pub read_or_none : Text → SovdClient → Text → Result Error (Option Value)
  unfolding is_absent
  read_or_none resource client component = elim (read_data client component resource) [
    | ok value ↦ ok (some value)
    | err e ↦ if is_absent e then ok none else err sovd
  ]

  -- the manifest of a component, once its value is read
  abbrev pub parse_manifest : Text → Option Value → Result Error (Option InstalledManifest)
  parse_manifest component none = ok none
  parse_manifest component (some value) = elim (installed_manifest value) [
    | none ↦ err (manifest component)
    | some m ↦ ok (some m)
  ]

  unfoldable pub read_installed : SovdClient → Text → Result Error (Option InstalledManifest)
  unfolding read_or_none
  read_installed client component = do
    value ← read_or_none (text "x-ota-installed-manifest") client component
    parse_manifest component value

  -- a value that does not parse is no capability
  abbrev pub parse_mode : Option Value → Option UpdateMode
  parse_mode none = none
  parse_mode (some value) = update_mode value

  unfoldable pub read_update_mode : SovdClient → Text → Result Error (Option UpdateMode)
  unfolding read_or_none
  read_update_mode client component = do
    value ← read_or_none (text "x-ota-update-mode") client component
    ok (parse_mode value)

  -- `extensions.get("x-runtime").and_then(|v| v.get("admin_state"))`, and its text
  unfoldable pub admin_value : (Text → Option Value) → Option (Option Text)
  admin_value extensions = elim (extensions (text "x-runtime")) [
    | none ↦ none
    | some v ↦ elim (get_field v (text "admin_state")) [
      | none ↦ none
      | some state ↦ some (as_str state)
    ]
  ]

  unfoldable pub read_admin_disabled : SovdClient → Text → Result Error (Option Bool)
  unfolding parse_admin_disabled admin_value
  read_admin_disabled client component = do
    extensions ← or_err (read_status client component) sovd
    parse_admin_disabled (admin_value extensions)

  abbrev pub kind_of : Option Text → Text
  kind_of none = []
  kind_of (some kind) = kind

  abbrev pub version_of : Option InstalledManifest → Option Text
  version_of none = none
  version_of (some m) = some (trim (m.identity.name ++ (text " " ++ m.identity.version)))

  abbrev pub parts_of : Hex → Option InstalledManifest → List Part
  parts_of hex none = []
  parts_of hex (some m) = installed_files_to_parts hex m.files

  module _ (hex : Hex) where
    -- one round of the loop, without the insertion
    unfoldable pub read_entity : SovdClient → Component → Result Error Entity
    unfolding read_installed read_update_mode read_admin_disabled installed_files_to_parts trim
    read_entity client c = do
      installed ← read_installed client c.id
      mode ← read_update_mode client c.id
      admin ← read_admin_disabled client c.id
      ok (record {
        kind = kind_of c.component_type;
        version = version_of installed;
        update_mode = mode;
        parts = parts_of hex installed;
        disabled = Bool.false;
        admin_disabled = admin;
      })

    unfoldable pub read_components : SovdClient → List Component → Tree → Result Error Tree
    unfolding read_entity insert
    read_components client [] tree = ok tree
    read_components client (c ∷ cs) tree = do
      entity ← read_entity client c
      read_components client cs (record { entities = insert c.id entity tree.entities })

    unfoldable pub read_rig_state : Text → Result Error Tree
    unfolding connect_sovd read_components
    read_rig_state sovd_url = do
      connected ← connect_sovd sovd_url
      read_components connected.0 connected.1 empty_tree
