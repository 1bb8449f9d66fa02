-- ===== src/Content/Files/Refined.antt =====
-- The files of the blob store against the map that the tower's publishing is modelled on.
use sumo_provision.Base.{
  ◌<◌, ◌≡◌, ◌≢◌, ◌∙◌, refl, sym, ap, Bool-cases, Option-cases, inl, inr, none, some, List, [], ◌∷◌,
  ◌++◌, All, Text, Text_ord, text_eq, text_eq_iff, text_ne, arith, if◌then◌else◌,
}
use mathlib.Core.List.{append_assoc, append-nil}
use sumo_provision.Map.{Map, get, contains_key, get-insert}
use sumo_provision.Wire.Hash.{Hex}
use sumo_provision.Wire.Model.{ContentHash}
use sumo_provision.Content.{Store, commit}
use sumo_provision.Content.Files.{
  FsBlobStore, FsBlobSink, remove, begin_blob, write_all, file_of, commit_blob, write_chunks,
  upload, abandon,
}
use sumo_provision.Content.Files.Names.{
  get-remove, concat_chunks, temp-ne, begin-IsTemp, encode-inj, begin_other, begin_own, begin_file,
  write_keeps, write_other, write_own, commit_there, commit_new,
}

-- under every digest both have the same bytes, or none
abbrev pub Agrees : Hex → FsBlobStore → Store → Type 0
Agrees hex f s =
    (o : ContentHash) → All (λ b. b < 256) o → get (hex.encode o) f.files ≡ get o s.blobs

removed_own : (k : Text) (files : Map Text Text) → get k (remove k files) ≡ none
removed_own k files = ground (arith, get-remove k k files, text_eq_iff k k)

removed_other : (k j : Text) (files : Map Text Text) → k ≢ j → get j (remove k files) ≡ get j files
removed_other k j files ne = get-remove k j files ∙ rw (text_ne k j ne) refl

still_held :
    (sink : FsBlobSink) (c : Text) (f : FsBlobStore) {own : Text}
    → file_of sink f ≡ some own
    → file_of sink (write_all sink c f) ≡ some own
unfolding file_of
still_held sink c f held = elim (Option-cases sink.file) [
  | inl closed ↦ absurd (ground (arith, rw (file_of, closed) at held))
  | inr (n, given) ↦
      rw (file_of, given)
        (ap (λ files. files n) (write_keeps sink c f).0 ∙ (rw (file_of, given) at held))
]

chunks_own :
    (sink : FsBlobSink) (chunks : List Text) (f : FsBlobStore) (own bytes : Text)
    → file_of sink f ≡ some own
    → get own f.files ≡ some bytes
    → get own (write_chunks sink chunks f).files ≡ some (bytes ++ concat_chunks chunks)
unfolding write_chunks
chunks_own sink [] f own bytes held h = h ∙ ap some (sym (append-nil bytes))
chunks_own sink (c ∷ chunks) f own bytes held h =
    chunks_own sink chunks (write_all sink c f) own (bytes ++ c) (still_held sink c f held)
      (write_own sink c f held h)
    ∙ ap some (append_assoc bytes c (concat_chunks chunks))

chunks_other :
    (sink : FsBlobSink) (chunks : List Text) (name own : Text) (f : FsBlobStore)
    → file_of sink f ≡ some own
    → own ≢ name
    → get name (write_chunks sink chunks f).files ≡ get name f.files
unfolding write_chunks
chunks_other sink [] name own f held ne = refl
chunks_other sink (c ∷ chunks) name own f held ne =
    chunks_other sink chunks name own (write_all sink c f) (still_held sink c f held) ne
    ∙ write_other sink c name f held ne

get-commit :
    (outer o : ContentHash) (bytes : Text) (s : Store)
    → get o (commit outer bytes s).blobs ≡ (
        if contains_key outer s.blobs
        then get o s.blobs
        else if text_eq outer o
        then some bytes
        else get o s.blobs)
unfolding commit
get-commit outer o bytes s = ground (arith, get-insert outer o bytes s.blobs)

module _ (hex : Hex) where
  encoded_eq :
      (a b : ContentHash)
      → All (λ x. x < 256) a
      → All (λ x. x < 256) b
      → text_eq (hex.encode a) (hex.encode b) ≡ text_eq a b
  encoded_eq a b ha hb = elim (Bool-cases (text_eq a b)) [
    | inl same ↦
        (text_eq_iff (hex.encode a) (hex.encode b)).1 (ap hex.encode ((text_eq_iff a b).0 same))
        ∙ sym same
    | inr other ↦
        text_ne (hex.encode a) (hex.encode b) (λ same.
          absurd (ground (arith, other, (text_eq_iff a b).1 (encode-inj hex a b ha hb same))))
        ∙ sym other
  ]

  -- the bytes that a commit moves are there under their digest, and the name they had is free
  commit-Agrees :
      (sink : FsBlobSink) (outer : ContentHash) (f : FsBlobStore) (s : Store) (bytes : Text)
      → All (λ b. b < 256) outer
      → ((o : ContentHash) → sink.tmp ≢ hex.encode o)
      → get sink.tmp f.files ≡ some bytes
      → Agrees hex f s
      → Agrees hex (commit_blob hex sink outer f).1 (commit outer bytes s)
        × (get sink.tmp (commit_blob hex sink outer f).1.files ≡ none)
  commit-Agrees sink outer f s bytes b ne own agrees =
      elim (Bool-cases (contains_key (hex.encode outer) f.files)) [
        | inl there ↦ (
          λ o bo. ground (
            arith,
            ap (get (hex.encode o)) (commit_there hex sink outer f there),
            get-remove sink.tmp (hex.encode o) f.files,
            text_ne sink.tmp (hex.encode o) (ne o),
            agrees o bo,
            get-commit outer o bytes s,
            agrees outer b,
            there,
          ),
          ground (
            arith,
            ap (get sink.tmp) (commit_there hex sink outer f there),
            get-remove sink.tmp sink.tmp f.files,
            text_eq_iff sink.tmp sink.tmp,
          ),
        )
        | inr fresh ↦ (
          λ o bo. ground (
            arith,
            ap (get (hex.encode o)) (commit_new hex sink outer f fresh own),
            get-insert (hex.encode outer) (hex.encode o) bytes (remove sink.tmp f.files),
            get-remove sink.tmp (hex.encode o) f.files,
            text_ne sink.tmp (hex.encode o) (ne o),
            agrees o bo,
            get-commit outer o bytes s,
            agrees outer b,
            fresh,
            encoded_eq outer o b bo,
          ),
          ground (
            arith,
            ap (get sink.tmp) (commit_new hex sink outer f fresh own),
            get-insert (hex.encode outer) sink.tmp bytes (remove sink.tmp f.files),
            get-remove sink.tmp sink.tmp f.files,
            text_eq_iff sink.tmp sink.tmp,
            text_eq_iff (hex.encode outer) sink.tmp,
            ne outer,
          ),
        )
      ]

  module _ (process_id : Text) (chunks : List Text) (f : FsBlobStore) where
    abbrev opened : FsBlobSink × FsBlobStore
    opened = begin_blob process_id f

    abbrev written : FsBlobStore
    written = write_chunks opened.0 chunks opened.1

    tmp-ne : (o : ContentHash) → opened.0.tmp ≢ hex.encode o
    tmp-ne o = temp-ne hex opened.0.tmp o (begin-IsTemp process_id f)

    written-Agrees : (s : Store) → Agrees hex f s → Agrees hex written s
    written-Agrees s agrees o bo =
        chunks_other opened.0 chunks (hex.encode o) opened.0.tmp opened.1 (begin_file process_id f)
          (tmp-ne o)
        ∙ begin_other process_id (hex.encode o) f (tmp-ne o)
        ∙ agrees o bo

    written_own : get opened.0.tmp written.files ≡ some (concat_chunks chunks)
    written_own =
        chunks_own opened.0 chunks opened.1 opened.0.tmp [] (begin_file process_id f)
          (begin_own process_id f)

    upload-commit_blob :
        (outer : ContentHash)
        → upload hex process_id chunks outer f ≡ (commit_blob hex opened.0 outer written).1
    unfolding upload
    upload-commit_blob outer = refl

    abandon-remove : (abandon hex process_id chunks f).files ≡ remove opened.0.tmp written.files
    unfolding abandon
    abandon-remove = refl

    -- When the files and the map of the tower hold the same bytes under every list of bytes as an
    -- outer hash, then they do so again after an upload to the files of any chunks and a commit of
    -- all their bytes to the map, and the files of an upload that is broken off still agree with
    -- the map as it was; in both cases the temporary file of the upload is gone.
    pub upload-refines :
        (outer : ContentHash) (s : Store)
        → All (λ b. b < 256) outer
        → Agrees hex f s
        → (Agrees hex (upload hex process_id chunks outer f) (commit outer (concat_chunks chunks) s)
            × (get opened.0.tmp (upload hex process_id chunks outer f).files ≡ none))
          × (Agrees hex (abandon hex process_id chunks f) s
              × (get opened.0.tmp (abandon hex process_id chunks f).files ≡ none))
    upload-refines outer s b agrees = (
      rw (upload-commit_blob outer) (
          commit-Agrees opened.0 outer written s (concat_chunks chunks) b tmp-ne written_own
            (written-Agrees s agrees)),
      (
        λ o bo.
            ap (get (hex.encode o)) abandon-remove
            ∙ removed_other opened.0.tmp (hex.encode o) written.files (tmp-ne o)
            ∙ written-Agrees s agrees o bo,
        ap (get opened.0.tmp) abandon-remove ∙ removed_own opened.0.tmp written.files,
      ),
    )
