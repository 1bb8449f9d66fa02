-- ===== src/Wire/Model.antt =====
-- The vehicle model of crates/wire/src/lib.rs. A content hash is the list of its bytes.
use sumo_provision.Base.{
  ℕ, ◌<◌, ◌≡◌, Bool, Option, List, [], Text, All, length, Text_eq, none, some, false, Text_ord,
  arith,
}
use sumo_provision.Map.{Map, get}

-- `ContentHash([u8; 32])`
abbrev pub ContentHash : Type 0
ContentHash = Text

-- The 32 bytes that the array type promises.
pub record IsDigest (h : ContentHash) : Type 0 where
  pub size : length h ≡ 32
  pub bytes : All (λ b. b < 256) h

pub record ArtifactRef : Type 0 where
  pub inner : ContentHash
  pub outer : ContentHash
  pub size : ℕ

pub record Part : Type 0 where
  pub kind : Text
  pub id : Text
  pub content : ContentHash

pub record UpdateMode : Type 0 where
  pub mode : Text
  pub supports_rollback : Bool
  pub dual_bank : Bool
  pub reset_kind : Text

pub record Entity : Type 0 where
  pub kind : Text
  pub version : Option Text
  pub update_mode : Option UpdateMode
  pub parts : List Part
  pub disabled : Bool
  pub admin_disabled : Option Bool

-- `Entity::default()`
abbrev pub default_entity : Entity
default_entity = record {
  kind = [];
  version = none;
  update_mode = none;
  parts = [];
  disabled = false;
  admin_disabled = none;
}

pub record Tree : Type 0 where
  pub entities : Map Text Entity

abbrev pub empty_tree : Tree
empty_tree = record { entities = [] }

-- `entities.get(path).unwrap_or(&empty)`
unfoldable pub entity_or_default : Text → Tree → Entity
entity_or_default path t = elim (get path t.entities) [ none ↦ default_entity | some e ↦ e ]

pub entity-some :
    (path : Text) (t : Tree) {e : Entity}
    → get path t.entities ≡ some e
    → entity_or_default path t ≡ e
unfolding entity_or_default
entity-some path t h = ground arith

pub entity-none :
    (path : Text) (t : Tree)
    → get path t.entities ≡ none
    → entity_or_default path t ≡ default_entity
unfolding entity_or_default
entity-none path t h = ground arith
