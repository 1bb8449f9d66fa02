-- ===== src/Cli/Terminal.antt =====
-- What the commands of crates/cli/src/main.rs act on: the files, what was written to the standard
-- output, and the rig. What goes to the standard error is not kept.
use sumo_provision.Base.{
  Bool, Option, none, some, ◌++◌, Text, Text_ord, if◌then◌else◌, Result, ok, err,
}
use sumo_provision.Base.Exec.{Exec, pure, fail}
use sumo_provision.Map.{Map, get, insert}
use sumo_provision.Client.{ClientError}
use sumo_provision.Orchestrator.Model.{Error}
use sumo_provision.Cli.{CliError, orchestrator, io, client}

pub record Terminal (S : Type 0) : Type 0 where
  pub files : Map Text Text
  pub stdout : Text
  pub rig : S

-- which paths can be written, and which bytes are a text
pub record FileSystem : Type 0 where
  pub writable : Text → Bool
  pub is_utf8 : Text → Bool

abbrev pub Command : Type 0 → Type 0 → Type 0
Command S = Exec (Terminal S) CliError

module _ {S : Type 0} where
  -- `std::fs::read`
  unfoldable pub read_file : Text → Command S Text
  unfolding get
  read_file path t = elim (get path t.files) [ none ↦ (err io, t) | some bytes ↦ (ok bytes, t) ]

  -- `std::fs::read_to_string`
  unfoldable pub read_to_string : FileSystem → Text → Command S Text
  unfolding get
  read_to_string fs path t = elim (get path t.files) [
    | none ↦ (err io, t)
    | some bytes ↦ if fs.is_utf8 bytes then (ok bytes, t) else (err io, t)
  ]

  -- `std::fs::write`
  unfoldable pub write_file : FileSystem → Text → Text → Command S (Unit {0})
  unfolding insert
  write_file fs path bytes t =
      if fs.writable path
      then (ok tt, record t { files = insert path bytes t.files })
      else (err io, t)

  -- `print!`
  abbrev pub print : Text → Command S (Unit {0})
  print s t = (ok tt, record t { stdout = t.stdout ++ s })

  -- to the file, or to the standard output where none is given
  unfoldable pub write_out : FileSystem → Option Text → Text → Command S (Unit {0})
  unfolding write_file
  write_out fs none bytes = print bytes
  write_out fs (some path) bytes = write_file fs path bytes

  -- `?` on the answer of a client, and of the orchestrator
  abbrev pub from_client : {A : Type 0} → Result ClientError A → Command S A
  from_client (ok a) t = (ok a, t)
  from_client (err e) t = (err client, t)

  abbrev pub from_orchestrator : {A : Type 0} → Result Error A → Command S A
  from_orchestrator (ok a) t = (ok a, t)
  from_orchestrator (err e) t = (err (orchestrator e), t)

  -- `ok_or_else`
  abbrev pub or_fail : {A : Type 0} → CliError → Option A → Command S A
  or_fail e none = fail e
  or_fail e (some a) = pure a

  -- a call that acts on the rig
  abbrev pub put_rig :
      {A : Type 0} → Terminal S → Result Error A × S → Result CliError A × Terminal S
  put_rig t (ok a, s) = (ok a, record t { rig = s })
  put_rig t (err e, s) = (err (orchestrator e), record t { rig = s })

  abbrev pub on_rig : {A : Type 0} → Exec S Error A → Command S A
  on_rig m t = put_rig t (m t.rig)
