-- ===== src/Tests/RigRuns.antt =====
-- The reading of a rig on concrete inputs.
use sumo_provision.Base.{
  ◌≡◌, refl, true, false, none, some, List, [], ◌∷◌, Text, Text_ord, text, text_eq, if◌then◌else◌,
  ok, err, or_err, ◌>>=◌,
}
use sumo_provision.Map.{get, IsSorted}
use sumo_provision.Wire.Hash.{strip_prefix, hex_part, from_str}
use sumo_provision.Wire.Model.{Entity, Tree, empty_tree}
use sumo_provision.Client.{trim_end_slashes}
use sumo_provision.Orchestrator.Model.{sovd}
use sumo_provision.Orchestrator.Rig.{
  server_error, http_error, Component, Sovd, connect_sovd, read_components, read_rig_state,
}
use sumo_provision.Orchestrator.Rig.State.{IsRead, last_named, rig-entities}
use sumo_provision.Orchestrator.Rig.Scheme.{IsHost, url_of, either-scheme}
use sumo_provision.Tests.Samples.{hex, image, file, encode, decode, digit, value}

abbrev host_component : Component
host_component = record { id = text "host"; component_type = some (text "vm") }

-- a rig that has a certificate and serves HTTPS, with one component
abbrev device : Sovd
device = record {
  SovdClient = Text;
  Value = Text;
  new_verifying = λ url. ok url;
  list_components = λ client.
      if text_eq client (text "https://rig") then ok (host_component ∷ []) else err http_error;
  read_data = λ client component resource.
      if text_eq resource (text "x-ota-installed-manifest") then ok [] else err (server_error 404);
  read_status = λ client component. ok (λ name. none);
  get_field = λ v name. none;
  as_str = λ v. none;
  installed_manifest = λ v. some (record {
    identity = record { name = text "os"; version = text "7" };
    files =
        record { path = text "os"; sha256 = encode (image 1) }
        ∷ record { path = text "bad"; sha256 = text "zz" }
        ∷ [];
  });
  update_mode = λ v. none;
}

abbrev host_read : Entity
host_read = record {
  kind = text "vm";
  version = some (text "os 7");
  update_mode = none;
  parts = file (text "os") 1 ∷ [];
  disabled = false;
  admin_disabled = none;
}

abbrev tree_read : Tree
tree_read = record { entities = (text "host", host_read) ∷ [] }

-- the rig is asked by HTTP, and answers by HTTPS
rig_read : read_rig_state device hex (text "http://rig/") ≡ ok tree_read
unfolding read_rig_state trim_end_slashes text_eq encode decode digit value from_str hex_part
    strip_prefix
rig_read = refl

rig-entities_example :
    (connected : Text × List Component) × (connect_sovd device (text "http://rig/") ≡ ok connected)
    × IsSorted tree_read.entities
    × ((path : Text)
        → IsRead device hex connected.0
            (last_named path connected.1)
            none
            (get path tree_read.entities))
rig-entities_example = rig-entities device hex (text "http://rig/") tree_read rig_read

rig_named : IsHost (text "rig")
unfolding trim_end_slashes text_eq
rig_named = record { starts = b'r'; rest = text "ig"; named = refl; trimmed = refl }

either-scheme_example : read_rig_state device hex (url_of false (text "rig")) ≡ (
    or_err (device.list_components (text "https://rig")) sovd >>= λ components.
    read_components device hex (text "https://rig") components empty_tree)
unfolding text_eq
either-scheme_example =
    either-scheme device hex (text "rig") true false (text "https://rig") (text "http://rig")
      http_error rig_named refl refl refl refl
