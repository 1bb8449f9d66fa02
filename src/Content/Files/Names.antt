-- ===== src/Content/Files/Names.antt =====
-- The names of blobs and of temporary files, and what a call leaves under a name.
use sumo_provision.Base.{
  ℕ, ◌<◌, ◌≡◌, ◌≢◌, refl, sym, ap, ◌∙◌, true, false, Bool-cases, Option-cases, inl, inr, none, some,
  List, [], ◌∷◌, ◌++◌, All, Text, Text_ord, text, text_eq, text_eq_iff, to_string, to_string-inj,
  nat_eq_iff, text_ne, arith, if◌then◌else◌,
}
use sumo_provision.Map.{Map, get, insert, contains_key, get-insert}
use sumo_provision.Wire.Hash.{Hex, IsHexDigit}
use sumo_provision.Wire.Model.{ContentHash}
use sumo_provision.Content.Files.{
  FsBlobStore, FsBlobSink, remove, temp_name, begin_blob, write_all, rename, commit_blob, drop_sink,
  file_of, remove_file,
}

pub get-remove :
    (k j : Text) (m : Map Text Text) → get j (remove k m) ≡ (if text_eq k j then none else get j m)
unfolding get remove
get-remove k j [] = ground arith
get-remove k j ((i, bytes) ∷ m) =
    ground (arith, get-remove k j m, text_eq_iff i k, text_eq_iff k j, text_eq_iff i j)

-- All the bytes of an upload.
abbrev pub concat_chunks : List Text → Text
concat_chunks [] = []
concat_chunks (c ∷ chunks) = c ++ concat_chunks chunks

-- A name of a file that is no blob.
abbrev pub IsTemp : Text → Type 0
IsTemp [] = ⊥
IsTemp (c ∷ s) = c ≡ b'.'

digit-not_dot : (c : ℕ) → IsHexDigit c → c ≢ b'.'
digit-not_dot c h = ground arith

no_digits-ne : (tmp s : Text) → IsTemp tmp → All IsHexDigit s → tmp ≢ s
no_digits-ne [] s h digits same = h
no_digits-ne (c ∷ tmp) [] h digits same = ground (arith, same)
no_digits-ne (c ∷ tmp) (d ∷ s) h digits same = digit-not_dot d digits.0 (ground (arith, same, h))

pub temp-ne : (hex : Hex) (tmp : Text) (outer : ContentHash) → IsTemp tmp → tmp ≢ hex.encode outer
temp-ne hex tmp outer h = no_digits-ne tmp (hex.encode outer) h (hex.encode_digits outer)

module _ (hex : Hex) where
  pub encode-inj :
      (a b : ContentHash)
      → All (λ x. x < 256) a
      → All (λ x. x < 256) b
      → hex.encode a ≡ hex.encode b
      → a ≡ b
  encode-inj a b ha hb same =
      ground (arith, sym (hex.decode-encode a ha) ∙ ap hex.decode same ∙ hex.decode-encode b hb)

pub temp_name-IsTemp : (process_id : Text) (seq : ℕ) → IsTemp (temp_name process_id seq)
unfolding temp_name
temp_name-IsTemp process_id seq = refl

-- what a call leaves under a name that is not that of its temporary file
pub begin-IsTemp : (process_id : Text) (s : FsBlobStore) → IsTemp (begin_blob process_id s).0.tmp
unfolding begin_blob
begin-IsTemp process_id s = temp_name-IsTemp process_id s.temp_seq

append-inj : (p a b : Text) → ◌≡◌ {A = Text} (p ++ a) (p ++ b) → a ≡ b
append-inj [] a b same = same
append-inj (c ∷ p) a b same = append-inj p a b (ap rest_of same)
  where
    rest_of : Text → Text
    rest_of [] = []
    rest_of (x ∷ s) = s

pub temp_name-inj :
    (process_id : Text) (i j : ℕ) → temp_name process_id i ≡ temp_name process_id j → i ≡ j
unfolding temp_name
temp_name-inj process_id i j same = to_string-inj i j (
    append-inj (text ".") (to_string i) (to_string j) (
      append-inj process_id (text "." ++ to_string i) (text "." ++ to_string j) (
        append-inj (text ".tmp.") (process_id ++ (text "." ++ to_string i))
          (process_id ++ (text "." ++ to_string j)) same)))

pub begin_other :
    (process_id name : Text) (s : FsBlobStore)
    → (begin_blob process_id s).0.tmp ≢ name
    → get name (begin_blob process_id s).1.files ≡ get name s.files
unfolding begin_blob
begin_other process_id name s ne =
    get-insert (temp_name process_id s.temp_seq) name [] s.files
    ∙ rw (text_ne (temp_name process_id s.temp_seq) name ne) refl

pub begin_own :
    (process_id : Text) (s : FsBlobStore)
    → get (begin_blob process_id s).0.tmp (begin_blob process_id s).1.files ≡ some []
unfolding begin_blob
begin_own process_id s =
    let tmp = temp_name process_id s.temp_seq in
    get-insert tmp tmp [] s.files ∙ rw ((text_eq_iff tmp tmp).1 refl) refl

pub begin_file :
    (process_id : Text) (s : FsBlobStore)
    → file_of (begin_blob process_id s).0 (begin_blob process_id s).1
      ≡ some (begin_blob process_id s).0.tmp
unfolding begin_blob file_of
begin_file process_id s = ground (arith, nat_eq_iff s.next_file s.next_file)

-- a write changes the file that the sink has held, and no other
pub write_other :
    (sink : FsBlobSink) (buf name : Text) (s : FsBlobStore) {own : Text}
    → file_of sink s ≡ some own
    → own ≢ name
    → get name (write_all sink buf s).files ≡ get name s.files
unfolding write_all
write_other sink buf name s {own} held ne = elim (Option-cases (get own s.files)) [
  | inl gone ↦ rw (write_all, held, gone) refl
  | inr (bytes, there) ↦
      rw (write_all, held, there)
        (rw (get-insert own name (bytes ++ buf) s.files) (rw (text_ne own name ne) refl))
]

pub write_own :
    (sink : FsBlobSink) (buf : Text) (s : FsBlobStore) {own bytes : Text}
    → file_of sink s ≡ some own
    → get own s.files ≡ some bytes
    → get own (write_all sink buf s).files ≡ some (bytes ++ buf)
unfolding write_all
write_own sink buf s {own} {bytes} held there =
    rw (write_all, held, there)
      (ground (arith, get-insert own own (bytes ++ buf) s.files, text_eq_iff own own))

-- it opens and closes none
pub write_keeps :
    (sink : FsBlobSink) (buf : Text) (s : FsBlobStore)
    → ((write_all sink buf s).open_files ≡ s.open_files)
      × ((write_all sink buf s).next_file ≡ s.next_file)
      × ((write_all sink buf s).temp_seq ≡ s.temp_seq)
unfolding write_all
write_keeps sink buf s = elim (Option-cases (file_of sink s)) [
  | inl closed ↦ rw (write_all, closed) (refl, refl, refl)
  | inr (own, held) ↦ elim (Option-cases (get own s.files)) [
    | inl gone ↦ rw (write_all, held, gone) (refl, refl, refl)
    | inr (bytes, there) ↦ rw (write_all, held, there) (refl, refl, refl)
  ]
]

pub drop_other :
    (sink : FsBlobSink) (name : Text) (s : FsBlobStore)
    → sink.tmp ≢ name
    → get name (drop_sink sink s).files ≡ get name s.files
unfolding drop_sink remove_file
drop_other sink name s ne =
    ground (arith, get-remove sink.tmp name s.files, text_ne sink.tmp name ne)

module _ (hex : Hex) where
  -- a commit by the two cases of `try_exists`
  pub commit_there :
      (sink : FsBlobSink) (outer : ContentHash) (s : FsBlobStore)
      → contains_key (hex.encode outer) s.files ≡ true
      → (commit_blob hex sink outer s).1.files ≡ remove sink.tmp s.files
  unfolding commit_blob remove_file
  commit_there sink outer s there = rw there refl

  pub commit_new :
      (sink : FsBlobSink) (outer : ContentHash) (s : FsBlobStore) {bytes : Text}
      → contains_key (hex.encode outer) s.files ≡ false
      → get sink.tmp s.files ≡ some bytes
      → (commit_blob hex sink outer s).1.files
        ≡ insert (hex.encode outer) bytes (remove sink.tmp s.files)
  unfolding commit_blob rename remove_file
  commit_new sink outer s fresh own = rw fresh (rw (rename, own) refl)

  -- a blob that is there stays, with its bytes, at a commit of any sink
  pub commit-stays :
      (sink : FsBlobSink) (outer : ContentHash) (name : Text) (s : FsBlobStore) {bytes : Text}
      → sink.tmp ≢ name
      → get name s.files ≡ some bytes
      → get name (commit_blob hex sink outer s).1.files ≡ some bytes
  unfolding commit_blob rename remove_file
  commit-stays sink outer name s {bytes} ne h =
      elim (Bool-cases (contains_key (hex.encode outer) s.files)) [
        | inl there ↦
            rw there (ground (arith, get-remove sink.tmp name s.files, text_ne sink.tmp name ne, h))
        | inr fresh ↦ rw fresh (elim (Option-cases (get sink.tmp s.files)) [
          | inl gone ↦ rw (rename, gone) h
          | inr (own, has) ↦
              rw (rename, has)
                (ground (
                  arith,
                  get-insert (hex.encode outer) name own (remove sink.tmp s.files),
                  get-remove sink.tmp name s.files,
                  text_ne sink.tmp name ne,
                  h,
                  fresh,
                  text_eq_iff (hex.encode outer) name,
                ))
        ])
      ]
