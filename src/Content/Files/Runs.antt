-- ===== src/Content/Files/Runs.antt =====
-- A process that uses the store: many sinks, whose calls come in any order, and restarts.
use sumo_provision.Base.{
  ℕ, ◌+◌, ◌<◌, ◌≡◌, ◌≢◌, sym, none, some, Option, Text, Text_ord, nat_eq, if◌then◌else◌,
}
use mathlib.Core.Path.{subst}
use sumo_provision.Wire.Hash.{Hex}
use sumo_provision.Wire.Model.{ContentHash}
use sumo_provision.Content.{u64}
use sumo_provision.Content.Files.{
  FsBlobStore, FsBlobSink, temp_name, file_of, begin_blob, write_all, commit_blob, drop_sink,
}
use sumo_provision.Content.Files.Names.{IsTemp, temp-ne, temp_name-IsTemp}

-- A process of the tower: the store, and the sinks that are in use, by the number that each drew.
pub record Run : Type 0 where
  pub store : FsBlobStore
  pub process_id : Text
  pub sinks : ℕ → Option FsBlobSink

abbrev pub use_sink : ℕ → Option FsBlobSink → Run → ℕ → Option FsBlobSink
use_sink k sink r j = if nat_eq j k then sink else r.sinks j

module _ (hex : Hex) where
  -- A call of the store or of a sink that is in use, before the counter has wrapped; or a restart,
  -- which leaves the temporary files there.
  pub data Step : Run → Run → Type 0 where
    begun :
        {r : Run}
        → r.store.temp_seq + 1 < u64
        → Step r (record r {
          store = (begin_blob r.process_id r.store).1;
          sinks = use_sink r.store.temp_seq (some (begin_blob r.process_id r.store).0) r;
        })
    written :
        {r : Run} (k : ℕ) (sink : FsBlobSink) (buf : Text)
        → r.sinks k ≡ some sink
        → Step r (record r { store = write_all sink buf r.store })
    committed_as :
        {r : Run} (k : ℕ) (sink : FsBlobSink) (outer : ContentHash)
        → r.sinks k ≡ some sink
        → Step r
            (record r { store = (commit_blob hex sink outer r.store).1; sinks = use_sink k none r })
    dropped :
        {r : Run} (k : ℕ) (sink : FsBlobSink)
        → r.sinks k ≡ some sink
        → Step r (record r { store = drop_sink sink r.store; sinks = use_sink k none r })
    restarted :
        {r : Run} (process_id : Text)
        → Step r (record {
          store = record r.store { open_files = λ n. none; temp_seq = 0 };
          process_id = process_id;
          sinks = λ k. none;
        })

  pub data Reaches (r : Run) : Run → Type 0 where
    here : Reaches r r
    next : {s t : Run} → Reaches r s → Step s t → Reaches r t

  -- a sink in use has its temporary file open, under the name of its number
  pub record IsHeld (r : Run) (k : ℕ) (sink : FsBlobSink) : Type 0 where
    pub number : k < r.store.temp_seq
    pub name : sink.tmp ≡ temp_name r.process_id k
    pub held : file_of sink r.store ≡ some sink.tmp
    pub handle : (n : ℕ) × (sink.file ≡ some n) × (n < r.store.next_file)

  abbrev pub AreHeld : Run → Type 0
  AreHeld r = (k : ℕ) (sink : FsBlobSink) → r.sinks k ≡ some sink → IsHeld r k sink

  pub held_name :
      (r : Run) (k : ℕ) (sink : FsBlobSink) (outer : ContentHash)
      → IsHeld r k sink
      → sink.tmp ≢ hex.encode outer
  held_name r k sink outer h =
      temp-ne hex sink.tmp outer (subst IsTemp (sym h.name) (temp_name-IsTemp r.process_id k))
