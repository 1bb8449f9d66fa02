-- ===== src/Content/Published.antt =====
-- What publishing leaves in the stores.
use sumo_provision.Base.{
  ◌≡◌, refl, ◌∙◌, sym, ap, true, false, none, some, List, arith, Text, Text_ord, text_eq,
  text_eq_iff, ◌⊎◌, if◌then◌else◌, Bool-cases, Option-cases, inl, inr, Result, ok, err,
}
use mathlib.Core.Path.{subst}
use sumo_provision.Map.{get, insert, get-insert, contains_key}
use sumo_provision.Wire.Hash.{Hashing}
use sumo_provision.Wire.Model.{ContentHash}
use sumo_provision.Releases.Tables.{AppError}
use sumo_provision.Content.{
  Zstd, Cipher, ArtifactEntry, Store, entry_ref, commit, put, Progress, read_stream, new_entry,
  store_stream, publish_stream,
}

module _ (hashing : Hashing) where
  open hashing use {sha256}

  -- Every blob stands under the hash of its bytes, and every entry of the index stands under its
  -- inner hash and has its blob.
  pub record IsStore (s : Store) : Type 0 where
    pub addressed : (o : ContentHash) (bytes : Text) → get o s.blobs ≡ some bytes → sha256 bytes ≡ o
    pub indexed :
        (i : ContentHash) (e : ArtifactEntry)
        → get i s.index ≡ some e
        → (e.inner ≡ i) × ((bytes : Text) × (get e.outer s.blobs ≡ some bytes))

  commit_self :
      (o : ContentHash) (bytes : Text) (s : Store)
      → (b : Text) × (get o (commit o bytes s).blobs ≡ some b)
  unfolding commit
  commit_self o bytes s = elim (Option-cases (get o s.blobs)) [
    | inl absent ↦
        (bytes, rw (absent, commit) (ground (arith, get-insert o o bytes s.blobs, text_eq_iff o o)))
    | inr (b, there) ↦ (b, rw (there, commit) there)
  ]

  commit-keeps :
      (o p : ContentHash) (bytes b : Text) (s : Store)
      → get p s.blobs ≡ some b
      → get p (commit o bytes s).blobs ≡ some b
  unfolding commit
  commit-keeps o p bytes b s h = elim (Option-cases (get o s.blobs)) [
    | inl absent ↦
        rw (absent, commit)
          (ground (arith, get-insert o p bytes s.blobs, text_eq_iff o p, absent, h))
    | inr (c, there) ↦ rw (there, commit) h
  ]

  commit-addressed :
      (bytes : Text) (s : Store)
      → ((o : ContentHash) (b : Text) → get o s.blobs ≡ some b → sha256 b ≡ o)
      → (o : ContentHash) (b : Text) → get o (commit (sha256 bytes) bytes s).blobs ≡ some b
      → sha256 b ≡ o
  unfolding commit
  commit-addressed bytes s h o b g = elim (Bool-cases (contains_key (sha256 bytes) s.blobs)) [
    | inl there ↦ h o b (rw (there, commit) at g)
    | inr absent ↦ ground (
      arith,
      get-insert (sha256 bytes) o bytes s.blobs,
      text_eq_iff (sha256 bytes) o,
      h o b,
      (rw (absent, commit) at g),
    )
  ]

  put_new :
      (e : ArtifactEntry) (s : Store)
      → get e.inner s.index ≡ none
      → put e s ≡ record s { index = insert e.inner e s.index }
  unfolding put
  put_new e s absent = rw (absent, put) refl

  commit-index : (o : ContentHash) (bytes : Text) (s : Store) → (commit o bytes s).index ≡ s.index
  unfolding commit
  commit-index o bytes s = elim (Bool-cases (contains_key o s.blobs)) [
    | inl there ↦ rw (there, commit) refl
    | inr absent ↦ rw (absent, commit) refl
  ]

  -- A new entry whose blob was committed.
  stored-IsStore :
      (e : ArtifactEntry) (bytes : Text) (s : Store)
      → IsStore s
      → sha256 bytes ≡ e.outer
      → IsStore (record (commit (sha256 bytes) bytes s) { index = insert e.inner e s.index })
  stored-IsStore e bytes s w h = record {
    addressed = commit-addressed bytes s w.addressed;
    indexed =
        λ i f g. at i f (Bool-cases (text_eq e.inner i)) (sym (get-insert e.inner i e s.index) ∙ g);
  }
    where
      at :
          (i : ContentHash) (f : ArtifactEntry)
          → (text_eq e.inner i ≡ true) ⊎ (text_eq e.inner i ≡ false)
          → (if text_eq e.inner i then some e else get i s.index) ≡ some f
          → (f.inner ≡ i)
            × ((b : Text) × (get f.outer (commit (sha256 bytes) bytes s).blobs ≡ some b))
      at i f (inl same) g =
          let here : e ≡ f = ground (arith, same, g) in
          subst
            (λ (x : ArtifactEntry).
              (x.inner ≡ i)
              × ((b : Text) × (get x.outer (commit (sha256 bytes) bytes s).blobs ≡ some b)))
            here
            (
              (text_eq_iff e.inner i).0 same,
              subst (λ o. (b : Text) × (get o (commit (sha256 bytes) bytes s).blobs ≡ some b)) h
                  (commit_self (sha256 bytes) bytes s),
            )
      at i f (inr other) g =
          let old = w.indexed i f (rw other at g) in
          (old.0, (old.1.0, commit-keeps (sha256 bytes) f.outer bytes old.1.0 s old.1.1))

  module _ (zstd : Zstd) (cipher : Cipher) where
    abbrev pub entry_of : Progress zstd cipher → ArtifactEntry
    entry_of = new_entry zstd cipher hashing

    pub store_found :
        (p : Progress zstd cipher) (s : Store) (e : ArtifactEntry)
        → get (sha256 p.inner_h) s.index ≡ some e
        → store_stream zstd cipher hashing p s ≡ (ok (entry_ref e), s)
    unfolding store_stream
    store_found p s e h = rw (h, store_stream) refl

    pub store_new :
        (p : Progress zstd cipher) (s : Store)
        → get (sha256 p.inner_h) s.index ≡ none
        → p.sink ≡ p.outer_h
        → store_stream zstd cipher hashing p s ≡ (
          ok (entry_ref (entry_of p)),
          record (commit (sha256 p.outer_h) p.outer_h s) {
            index = insert (sha256 p.inner_h) (entry_of p) s.index;
          },
        )
    unfolding store_stream
    store_new p s h k =
        rw
          (
            h,
            store_stream,
            k,
            put_new (entry_of p) (commit (sha256 p.outer_h) p.outer_h s)
                (ap (get (sha256 p.inner_h)) (commit-index (sha256 p.outer_h) p.outer_h s) ∙ h),
            commit-index (sha256 p.outer_h) p.outer_h s,
          )
          refl

    -- The answer refers to an entry that the index then has.
    pub store-entry :
        (p : Progress zstd cipher) (s : Store)
        → p.sink ≡ p.outer_h
        → IsStore s
        → IsStore (store_stream zstd cipher hashing p s).1
          × ((e : ArtifactEntry) × ((store_stream zstd cipher hashing p s).0 ≡ ok (entry_ref e))
              × (get (sha256 p.inner_h) (store_stream zstd cipher hashing p s).1.index ≡ some e))
    store-entry p s k w = elim (Option-cases (get (sha256 p.inner_h) s.index)) [
      | inl new ↦ rw (store_new p s new k) (
        stored-IsStore (entry_of p) p.outer_h s w refl,
        (
          entry_of p,
          refl,
          ground (
            arith,
            get-insert (sha256 p.inner_h) (sha256 p.inner_h) (entry_of p) s.index,
            text_eq_iff (sha256 p.inner_h) (sha256 p.inner_h),
          ),
        ),
      )
      | inr (e, old) ↦ rw (store_found p s e old) (w, (e, refl, old))
    ]

    pub publish_read :
        (body : List (Result Text Text)) (s : Store) (p : Progress zstd cipher)
        → read_stream zstd cipher body ≡ ok p
        → publish_stream zstd cipher hashing body s ≡ store_stream zstd cipher hashing p s
    unfolding publish_stream
    publish_read body s p h = rw (h, publish_stream) refl

    pub publish_err :
        (body : List (Result Text Text)) (s : Store) (x : AppError)
        → read_stream zstd cipher body ≡ err x
        → publish_stream zstd cipher hashing body s ≡ (err x, s)
    unfolding publish_stream
    publish_err body s x h = rw (h, publish_stream) refl
