-- ===== src/Cli/Ca/Bootstrap.antt =====
-- The two files of a bootstrap token belong together.
use sumo_provision.Base.{
  ◌≡◌, ◌≢◌, refl, ◌∙◌, Bool, true, false, Option, none, some, [], ◌∷◌, ◌++◌, Text, Text_ord, text,
  text_eq, text_eq_iff, Bool-cases, inl, inr, Result, ok,
}
use sumo_provision.Map.{get, insert, get-insert}
use sumo_provision.Wire.Hash.{Hashing, strip_prefix}
use sumo_provision.Client.{ClientError, Request, Response, Json}
use sumo_provision.Cli.Vhsm.{token_sha256_hex, bootstrap_yaml_document}
use sumo_provision.Cli.Vhsm.Yaml.{IsPlain, read_entry, bootstrap-read}
use sumo_provision.Cli.Vhsm.Cwt.{Cwt}
use sumo_provision.Cli.Terminal.{Terminal, FileSystem, write_file, write_out}
use sumo_provision.Cli.Ca.{Keys, bootstrap_token, yaml_of, write_bootstrap, run_ca}

text_ne : (s t : Text) → s ≢ t → text_eq s t ≡ false
text_ne s t distinct = elim (Bool-cases (text_eq s t)) [
  | inl same ↦ absurd (distinct ((text_eq_iff s t).0 same))
  | inr other ↦ other
]

-- An entry by itself, or the one of a whole document.
abbrev pub read_state : Bool → Text → Option (Text × Text × Bool)
read_state false yaml = read_entry yaml
read_state true yaml = elim (strip_prefix (text "tokens:" ++ 10 ∷ []) yaml) [
  | none ↦ none
  | some entry ↦ read_entry entry
]

read_state-yaml_of :
    (hashing : Hashing) (standalone : Bool) (vm_id raw_token : Text)
    → IsPlain vm_id
    → read_state standalone (yaml_of standalone vm_id (token_sha256_hex hashing raw_token))
      ≡ some (vm_id, hashing.hex.encode (hashing.sha256 raw_token), false)
unfolding bootstrap_yaml_document strip_prefix
read_state-yaml_of hashing true vm_id raw_token plain = bootstrap-read hashing vm_id raw_token plain
read_state-yaml_of hashing false vm_id raw_token plain =
    bootstrap-read hashing vm_id raw_token plain

module _ {S Value Integer SigningKey : Type 0} (send : Request Value → Result ClientError Response)
    (json : Json) (hashing : Hashing) (fs : FileSystem) (cwt : Cwt Integer SigningKey)
    (keys : Keys SigningKey) where
  -- For a name without control characters and two different paths that can be written, the command
  -- for a bootstrap token succeeds; the first file has the token, and a reader of the second finds
  -- an entry for the name, not consumed, with the hexadecimal SHA-256 of that token, as an entry
  -- by itself or in a whole document.
  pub bootstrap-written :
      (url vm_id token_out state_out : Text) (standalone : Bool) (t : Terminal S)
      → IsPlain vm_id
      → state_out ≢ token_out
      → fs.writable token_out ≡ true
      → fs.writable state_out ≡ true
      → (after : Terminal S) × (yaml : Text) × (run_ca send json hashing fs cwt keys url
            (bootstrap_token vm_id token_out (some state_out) standalone)
            t
          ≡ (ok tt, after))
        × (get token_out after.files ≡ some keys.random_32)
        × (get state_out after.files ≡ some yaml)
        × (read_state standalone yaml
            ≡ some (vm_id, hashing.hex.encode (hashing.sha256 keys.random_32), false))
  unfolding run_ca write_bootstrap write_file write_out
  bootstrap-written url vm_id token_out state_out standalone t plain distinct token_open
        state_open =
      let yaml = yaml_of standalone vm_id (token_sha256_hex hashing keys.random_32) in
      let with_token = insert token_out keys.random_32 t.files in
      (
        record t { files = insert state_out yaml with_token },
        yaml,
        rw (token_open, state_open) refl,
        get-insert state_out token_out yaml with_token
            ∙ rw (text_ne state_out token_out distinct) (
                get-insert token_out token_out keys.random_32 t.files
                ∙ rw ((text_eq_iff token_out token_out).1 refl) refl),
        get-insert state_out state_out yaml with_token
            ∙ rw ((text_eq_iff state_out state_out).1 refl) refl,
        read_state-yaml_of hashing standalone vm_id keys.random_32 plain,
      )
