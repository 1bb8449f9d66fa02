-- ===== src/Content/Files.antt =====
-- `FsBlobStore` and `FsBlobSink` of crates/software-tower/src/store.rs: the files below the root, by
-- name, the open files, and the counter of temporary names. An open file is known by the name that
-- its file has at the time, and follows it through a rename. A write appends, as it does where no
-- other open file writes to the same file. What a call does that meets an error of the file system
-- is not modelled.
pub mod Names
pub mod Refined
pub mod Runs
pub mod Held
pub mod Stays
use sumo_provision.Base.{
  ℕ, ◌+◌, ◌%◌, Bool, true, false, Option, none, some, List, [], ◌∷◌, ◌++◌, Text, text, Text_ord,
  if◌then◌else◌, length, to_string, text_eq, nat_eq,
}
use sumo_provision.Map.{Map, get, insert, contains_key}
use sumo_provision.Wire.Hash.{Hex}
use sumo_provision.Wire.Model.{ContentHash}
use sumo_provision.Content.{u64}

pub record FsBlobStore : Type 0 where
  pub files : Map Text Text
  -- the name of the file of an open file, unless that is removed
  pub open_files : ℕ → Option Text
  pub next_file : ℕ
  pub temp_seq : ℕ

pub record FsBlobSink : Type 0 where
  pub tmp : Text
  pub file : Option ℕ
  pub committed : Bool

-- the open files after the file of a name has another one, or none
unfoldable pub renamed : Text → Option Text → Option Text → Option Text
renamed name later none = none
renamed name later (some n) = if text_eq n name then later else some n

-- the files without that of a name
unfoldable pub remove : Text → Map Text Text → Map Text Text
remove name [] = []
remove name ((n, bytes) ∷ files) =
    let rest = remove name files in if text_eq n name then rest else (n, bytes) ∷ rest

-- `remove_file`
unfoldable pub remove_file : Text → FsBlobStore → FsBlobStore
unfolding renamed remove
remove_file name s = record s {
  files = remove name s.files;
  open_files = λ n. renamed name none (s.open_files n);
}

-- the name of a temporary file of this process
unfoldable pub temp_name : Text → ℕ → Text
unfolding to_string
temp_name process_id seq = text ".tmp." ++ (process_id ++ (text "." ++ to_string seq))

-- `BlobStore::begin`: `File::create` empties a file of that name
unfoldable pub begin_blob : Text → FsBlobStore → FsBlobSink × FsBlobStore
unfolding temp_name
begin_blob process_id s =
    let tmp = temp_name process_id s.temp_seq in
    (
      record { tmp = tmp; file = some s.next_file; committed = false },
      record {
        files = insert tmp [] s.files;
        open_files = λ n. if nat_eq n s.next_file then some tmp else s.open_files n;
        next_file = s.next_file + 1;
        temp_seq = (s.temp_seq + 1) % u64;
      },
    )

-- the file that a sink writes to
unfoldable pub file_of : FsBlobSink → FsBlobStore → Option Text
file_of sink s = elim sink.file [ none ↦ none | some n ↦ s.open_files n ]

-- `BlobSink::write_all`
unfoldable pub write_all : FsBlobSink → Text → FsBlobStore → FsBlobStore
unfolding file_of
write_all sink buf s = elim (file_of sink s) [
  | none ↦ s
  | some name ↦ elim (get name s.files) [
    | none ↦ s
    | some bytes ↦ record s { files = insert name (bytes ++ buf) s.files }
  ]
]

module _ (hex : Hex) where
  -- `FsBlobStore::path`, below the root
  abbrev pub blob_path : ContentHash → Text
  blob_path outer = hex.encode outer

  -- `rename`: an open file of a file that is replaced has none any more
  unfoldable pub rename : Text → Text → FsBlobStore → FsBlobStore
  unfolding renamed
  rename tmp dest s = elim (get tmp s.files) [
    | none ↦ s
    | some bytes ↦ record s {
      files = insert dest bytes (remove tmp s.files);
      open_files = λ n. renamed tmp (some dest) (renamed dest none (s.open_files n));
    }
  ]

  -- `BlobSink::commit`: the sink gives up its file
  unfoldable pub commit_blob : FsBlobSink → ContentHash → FsBlobStore → FsBlobSink × FsBlobStore
  unfolding rename remove_file
  commit_blob sink outer s = (
    record sink { file = none; committed = true },
    if contains_key (blob_path outer) s.files
        then remove_file sink.tmp s
        else rename sink.tmp (blob_path outer) s,
  )

  -- `BlobStore::open`: the size and the bytes
  unfoldable pub open_blob : ContentHash → FsBlobStore → Option (ℕ × Text)
  open_blob outer s = elim (get (blob_path outer) s.files) [
    | none ↦ none
    | some bytes ↦ some (length bytes, bytes)
  ]

-- `Drop` of a sink
unfoldable pub drop_sink : FsBlobSink → FsBlobStore → FsBlobStore
unfolding remove_file
drop_sink sink s = if sink.committed then s else remove_file sink.tmp s

-- the chunks of an upload, one after the other
unfoldable pub write_chunks : FsBlobSink → List Text → FsBlobStore → FsBlobStore
unfolding write_all
write_chunks sink [] s = s
write_chunks sink (c ∷ chunks) s = write_chunks sink chunks (write_all sink c s)

module _ (hex : Hex) (process_id : Text) where
  -- what `publish_stream` asks of the store: for a new content, and for one that is there or a
  -- stream that breaks off
  unfoldable pub upload : List Text → ContentHash → FsBlobStore → FsBlobStore
  unfolding begin_blob write_chunks commit_blob drop_sink
  upload chunks outer s =
      let (sink, opened) = begin_blob process_id s in
      let (done, stored) = commit_blob hex sink outer (write_chunks sink chunks opened) in
      drop_sink done stored

  unfoldable pub abandon : List Text → FsBlobStore → FsBlobStore
  unfolding begin_blob write_chunks drop_sink
  abandon chunks s =
      let (sink, opened) = begin_blob process_id s in
      drop_sink sink (write_chunks sink chunks opened)
