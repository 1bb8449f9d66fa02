-- ===== src/Tests/StoreRuns.antt =====
-- The files and the rows of the content store on concrete inputs.
use sumo_provision.Base.{
  ◌<◌, ◌≡◌, refl, arith, none, some, List, [], ◌∷◌, All, Text, text, Text_ord, text_eq,
}
use sumo_provision.Map.{get}
use sumo_provision.Wire.Model.{ContentHash}
use sumo_provision.Content.{ArtifactEntry, commit, put}
use sumo_provision.Content.Files.{
  FsBlobStore, FsBlobSink, drop_sink, begin_blob, write_all, commit_blob, upload, abandon,
  open_blob,
}
use sumo_provision.Content.Files.Names.{concat_chunks}
use sumo_provision.Content.Files.Refined.{Agrees, upload-refines}
use sumo_provision.Content.Files.Runs.{
  Run, use_sink, Reaches, here, next, begun, written, committed_as, dropped,
}
use sumo_provision.Content.Files.Stays.{blob-stays}
use sumo_provision.Content.Index.{index_get, index_put}
use sumo_provision.Content.Index.Refined.{IsEntry, Mirrors, index_put-refines}
use sumo_provision.Tests.ContentRuns.{empty_store}
use sumo_provision.Tests.Samples.{hashing, hex, digest, copies}

abbrev outer : ContentHash
outer = digest (9 ∷ [])

outer-bytes : All (λ b. b < 256) outer
outer-bytes = (hashing.sha256-IsDigest (9 ∷ [])).bytes

abbrev chunks : List Text
chunks = (1 ∷ 2 ∷ []) ∷ (3 ∷ []) ∷ []

abbrev no_files : FsBlobStore
no_files = record { files = []; open_files = λ n. none; next_file = 0; temp_seq = 7 }

no_files-Agrees : Agrees hex no_files empty_store
unfolding get
no_files-Agrees o b = refl

abbrev opened : FsBlobSink × FsBlobStore
opened = begin_blob (text "12") no_files

upload-refines_example :
    (Agrees hex
        (upload hex (text "12") chunks outer no_files)
        (commit outer (concat_chunks chunks) empty_store)
      × (get opened.0.tmp (upload hex (text "12") chunks outer no_files).files ≡ none))
    × (Agrees hex (abandon hex (text "12") chunks no_files) empty_store
        × (get opened.0.tmp (abandon hex (text "12") chunks no_files).files ≡ none))
upload-refines_example =
    upload-refines hex (text "12") chunks no_files outer empty_store outer-bytes no_files-Agrees

abbrev started : Run
started = record {
  store = record {
    files = (hex.encode outer, 1 ∷ 2 ∷ []) ∷ [];
    open_files = λ n. none;
    next_file = 0;
    temp_seq = 0;
  };
  process_id = text "12";
  sinks = λ k. none;
}

abbrev first : FsBlobSink × FsBlobStore
first = begin_blob (text "12") started.store

abbrev second : FsBlobSink × FsBlobStore
second = begin_blob (text "12") first.1

-- two uploads, of which one has the hash of the blob that is there and the other breaks off
abbrev ended : FsBlobStore
ended =
    drop_sink second.0
      (commit_blob hex first.0 outer
        (write_all second.0 (6 ∷ []) (write_all first.0 (5 ∷ []) second.1))).1

abbrev finished : Run
finished = record {
  store = ended;
  process_id = text "12";
  sinks = use_sink 1 none (record {
    store = ended;
    process_id = text "12";
    sinks = use_sink 0 none (record {
      store = ended;
      process_id = text "12";
      sinks = use_sink 1 (some second.0) (record {
        store = ended;
        process_id = text "12";
        sinks = use_sink 0 (some first.0) started;
      });
    });
  });
}

finished-Reaches : Reaches hex started finished
unfolding begin_blob
finished-Reaches =
    next
      (next
        (next
          (next (next (next here (begun (omega arith))) (begun (omega arith)))
            (written 0 first.0 (5 ∷ []) refl))
          (written 1 second.0 (6 ∷ []) refl))
        (committed_as 0 first.0 outer refl))
      (dropped 1 second.0 refl)

was_there : open_blob hex outer started.store ≡ some (2, 1 ∷ 2 ∷ [])
unfolding get text_eq sumo_provision.Tests.Samples.encode open_blob
was_there = refl

blob-stays_example : open_blob hex outer finished.store ≡ some (2, 1 ∷ 2 ∷ [])
blob-stays_example = blob-stays hex outer (λ k. refl) here finished-Reaches was_there

abbrev entry : ArtifactEntry
entry = record {
  inner = digest (1 ∷ []);
  outer = outer;
  cek = copies 16 1;
  nonce = copies 12 2;
  size = 9223372036854775813;
}

entry-IsEntry : IsEntry entry
entry-IsEntry = record {
  inner = hashing.sha256-IsDigest (1 ∷ []);
  outer = hashing.sha256-IsDigest (9 ∷ []);
  cek = refl;
  nonce = refl;
  size = omega arith;
}

no_rows-Mirrors : Mirrors hex [] empty_store
unfolding index_get get
no_rows-Mirrors i d = refl

index_put-refines_example : Mirrors hex (index_put hex entry []) (put entry empty_store)
index_put-refines_example = index_put-refines hex entry [] empty_store entry-IsEntry no_rows-Mirrors
