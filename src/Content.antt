-- ===== src/Content.antt =====
-- Publishing and fetching content: crates/software-tower/src/content.rs with the stores of store.rs
-- and the stream encryption of crypto.rs. zstd, the random keys and AES-GCM are parameters. The
-- blob store is here a map from outer hashes to ciphertexts and the index a map from inner hashes;
-- Content/Files has the files and Content/Index the rows. Errors of the file system and of the
-- database are not modelled.
pub mod Stream
pub mod Published
pub mod Again
pub mod Files
pub mod Index
use sumo_provision.Base.{
  ℕ, ◌+◌, ◌%◌, Bool, true, false, Option, none, some, List, [], ◌∷◌, ◌++◌, Text, text, Text_ord,
  if◌then◌else◌, is_empty, is_some, length, Result, ok, err, ◌>>=◌, ok_or, or_err,
}
use sumo_provision.Base.Exec.{Exec}
use sumo_provision.Map.{Map, get, insert, contains_key}
use sumo_provision.Wire.Hash.{Hashing, from_str}
use sumo_provision.Wire.Model.{ContentHash, ArtifactRef}
use sumo_provision.Releases.Tables.{AppError, bad_hash, bad_request, not_found, internal}

-- `zstd::Encoder`: what it emits for a chunk, and at its end
pub record Zstd : Type 1 where
  pub Window : Type 0
  pub start : Option Window
  pub write : Window → Text → Option (Window × Text)
  pub finish : Window → Option Text

-- the encryption that `StreamEncryptor` wraps, under the key and nonce that it drew
pub record Cipher : Type 1 where
  pub Inner : Type 0
  pub cek : Text
  pub nonce : Text
  pub begin : Option Inner
  pub update : Inner → Text → Option (Inner × Text)
  pub finalize : Inner → Option Text

pub record ArtifactEntry : Type 0 where
  pub inner : ContentHash
  pub outer : ContentHash
  pub cek : Text
  pub nonce : Text
  pub size : ℕ

pub record Store : Type 0 where
  pub blobs : Map ContentHash Text
  pub index : Map ContentHash ArtifactEntry

abbrev pub entry_ref : ArtifactEntry → ArtifactRef
entry_ref e = record { inner = e.inner; outer = e.outer; size = e.size }

-- `BlobSink::commit`: a blob that is there already stays
unfoldable pub commit : ContentHash → Text → Store → Store
commit outer bytes s =
    if contains_key outer s.blobs then s else record s { blobs = insert outer bytes s.blobs }

-- `ArtifactIndex::put`: ON CONFLICT (inner_hash) DO NOTHING
unfoldable pub put : ArtifactEntry → Store → Store
put e s = if contains_key e.inner s.index then s else record s { index = insert e.inner e s.index }

-- 2 ^ 64
abbrev pub u64 : ℕ
u64 = 18446744073709551616

module _ (zstd : Zstd) (cipher : Cipher) where
  open zstd use {Window, start, write, finish}
  open cipher use {Inner, cek, nonce, begin, update, finalize}

  -- the locals of `publish_stream`; a hasher holds what was fed to it
  pub record Progress : Type 0 where
    pub inner_h : Text
    pub outer_h : Text
    pub sink : Text
    pub size : ℕ
    pub zenc : Window
    pub enc : Inner

  unfoldable pub open_stream : Result AppError Progress
  open_stream = do
    enc ← ok_or begin internal
    zenc ← ok_or start internal
    ok (record { inner_h = []; outer_h = []; sink = []; size = 0; zenc = zenc; enc = enc })

  -- encrypt, hash and write what zstd gave, unless that is nothing
  unfoldable pub emit : Text → Progress → Result AppError Progress
  unfolding is_empty
  emit compressed p =
      if is_empty compressed
      then ok p
      else (ok_or (update p.enc compressed) internal >>= λ step.
          ok (record p { enc = step.0; outer_h = p.outer_h ++ step.1; sink = p.sink ++ step.1 }))

  unfoldable pub push_chunk : Result Text Text → Progress → Result AppError Progress
  unfolding emit
  push_chunk (err e) p = err (bad_request (text "upload aborted: " ++ e))
  push_chunk (ok chunk) p = do
    step ← ok_or (write p.zenc chunk) internal
    emit step.1 (record p {
      inner_h = p.inner_h ++ chunk;
      size = (p.size + length chunk) % u64;
      zenc = step.0;
    })

  unfoldable pub drain : List (Result Text Text) → Progress → Result AppError Progress
  unfolding push_chunk
  drain [] p = ok p
  drain (c ∷ chunks) p = do q ← push_chunk c p; drain chunks q

  -- the frame footer, and the tag
  unfoldable pub close_stream : Progress → Result AppError Progress
  unfolding emit
  close_stream p = do
    tail ← ok_or (finish p.zenc) internal
    q ← emit tail p
    tag ← ok_or (finalize q.enc) internal
    ok (record q { outer_h = q.outer_h ++ tag; sink = q.sink ++ tag })

  unfoldable pub read_stream : List (Result Text Text) → Result AppError Progress
  unfolding open_stream drain close_stream
  read_stream body = do p ← open_stream; q ← drain body p; close_stream q

  module _ (hashing : Hashing) where
    open hashing use {sha256}

    abbrev pub new_entry : Progress → ArtifactEntry
    new_entry p = record {
      inner = sha256 p.inner_h;
      outer = sha256 p.outer_h;
      cek = cek;
      nonce = nonce;
      size = p.size;
    }

    -- below the stream: the lookup, and what it decides
    unfoldable pub store_stream : Progress → Exec Store AppError ArtifactRef
    unfolding commit put
    store_stream p s = elim (get (sha256 p.inner_h) s.index) [
      | some existing ↦ (ok (entry_ref existing), s)
      | none ↦
          (ok (entry_ref (new_entry p)), put (new_entry p) (commit (sha256 p.outer_h) p.sink s))
    ]

    unfoldable pub publish_stream : List (Result Text Text) → Exec Store AppError ArtifactRef
    unfolding read_stream store_stream
    publish_stream body s = elim (read_stream body) [ ok p ↦ store_stream p s | err e ↦ (err e, s) ]

module _ (hashing : Hashing) where
  -- `artifact_exists` of releases.rs, and `get_blob`
  unfoldable pub artifact_exists : Text → Store → Result AppError ArtifactRef
  unfolding from_str
  artifact_exists path s = do
    inner ← or_err (from_str hashing.hex path) bad_hash
    entry ← ok_or (get inner s.index) not_found
    ok (entry_ref entry)

  unfoldable pub get_blob : Text → Store → Result AppError Text
  unfolding from_str
  get_blob path s = do
    outer ← or_err (from_str hashing.hex path) bad_hash
    ok_or (get outer s.blobs) not_found
