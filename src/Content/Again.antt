-- ===== src/Content/Again.antt =====
-- What a publisher is promised.
use sumo_provision.Base.{
  ◌≡◌, refl, ◌∙◌, sym, ap, some, List, arith, Text, Text_ord, ◌⊎◌, inl, inr, Result, ok, err,
}
use mathlib.Core.Path.{subst}
use sumo_provision.Map.{get}
use sumo_provision.Wire.Hash.{Hashing}
use sumo_provision.Wire.Model.{ArtifactRef}
use sumo_provision.Content.{
  Zstd, Cipher, ArtifactEntry, Store, entry_ref, read_stream, store_stream, publish_stream,
}
use sumo_provision.Content.Stream.{body_bytes, read_stream-Fed}
use sumo_provision.Content.Published.{IsStore, store-entry, store_found, publish_read, publish_err}

abbrev pub Outcome : {E A : Type 0} → Result E A → Type 0
Outcome {E} {A} r = ((a : A) × (r ≡ ok a)) ⊎ ((e : E) × (r ≡ err e))

pub Result-cases : {E A : Type 0} (r : Result E A) → Outcome r
Result-cases (ok a) = inl (a, refl)
Result-cases (err e) = inr (e, refl)

module _ (hashing : Hashing) (zstd : Zstd) (cipher : Cipher) where
  open hashing use {sha256}

  -- Publishing, whether it succeeds or fails, keeps every blob under the hash of its bytes, and
  -- every entry of the index under its inner hash and with its blob in the store.
  pub publish-IsStore :
      (body : List (Result Text Text)) (s : Store)
      → IsStore hashing s
      → IsStore hashing (publish_stream zstd cipher hashing body s).1
  publish-IsStore body s w = elim (Result-cases (read_stream zstd cipher body)) [
    | inl (p, read) ↦
        rw (publish_read hashing zstd cipher body s p read)
          (store-entry hashing zstd cipher p s (read_stream-Fed zstd cipher body p read).sunk w).0
    | inr (e, failed) ↦ rw (publish_err hashing zstd cipher body s e failed) w
  ]

  -- When a stream publishes, the index has afterwards, under the hash of the bytes of the stream, an
  -- entry that the answer refers to.
  published-entry :
      (body : List (Result Text Text)) (s : Store) {ref : ArtifactRef}
      → IsStore hashing s
      → (publish_stream zstd cipher hashing body s).0 ≡ ok ref
      → (e : ArtifactEntry) × (ref ≡ entry_ref e)
        × (get (sha256 (body_bytes body)) (publish_stream zstd cipher hashing body s).1.index
            ≡ some e)
  published-entry body s w h = elim (Result-cases (read_stream zstd cipher body)) [
    | inl (p, read) ↦
        let fed = read_stream-Fed zstd cipher body p read in
        let (kept, (e, answer, entry)) = store-entry hashing zstd cipher p s fed.sunk w in
        (
          e,
          ground (arith, publish_read hashing zstd cipher body s p read, answer, h),
          rw (publish_read hashing zstd cipher body s p read) (
              subst (λ b. get (sha256 b) (store_stream zstd cipher hashing p s).1.index ≡ some e)
                fed.inner entry),
        )
    | inr (e, failed) ↦
        absurd (ground (arith, h, ap (λ r. r.0) (publish_err hashing zstd cipher body s e failed)))
  ]

  -- When a stream is published to stores in order, the answer names the hash of the bytes of the
  -- stream, however they were chunked, and an outer hash under which the store then has a blob
  -- whose bytes have that hash.
  pub publish-answer :
      (body : List (Result Text Text)) (s : Store) (ref : ArtifactRef)
      → IsStore hashing s
      → (publish_stream zstd cipher hashing body s).0 ≡ ok ref
      → (ref.inner ≡ sha256 (body_bytes body))
        × ((bytes : Text) × (get ref.outer (publish_stream zstd cipher hashing body s).1.blobs
              ≡ some bytes)
            × (sha256 bytes ≡ ref.outer))
  publish-answer body s ref w h =
      let (e, answer, entry) = published-entry body s w h in
      let w' = publish-IsStore body s w in
      let (inner, (blob, there)) = w'.indexed (sha256 (body_bytes body)) e entry in
      (
        ap (λ (r : ArtifactRef). r.inner) answer ∙ inner,
        (
          blob,
          ap (λ (r : ArtifactRef). get r.outer (publish_stream zstd cipher hashing body s).1.blobs)
                answer
              ∙ there,
          w'.addressed e.outer blob there ∙ sym (ap (λ (r : ArtifactRef). r.outer) answer),
        ),
      )

-- On stores in order, when the same bytes are published again, in other chunks or under another
-- key, and both streams publish, the second answer is the first one and the second call does not
-- change the stores.
pub publish-again :
    (hashing : Hashing) (zstd zstd' : Zstd) (cipher cipher' : Cipher)
    (body body' : List (Result Text Text)) (s : Store) (ref ref' : ArtifactRef)
    → IsStore hashing s
    → (publish_stream zstd cipher hashing body s).0 ≡ ok ref
    → body_bytes body' ≡ body_bytes body
    → (publish_stream zstd' cipher' hashing body' (publish_stream zstd cipher hashing body s).1).0
      ≡ ok ref'
    → (ref' ≡ ref)
      × ((publish_stream zstd' cipher' hashing body'
            (publish_stream zstd cipher hashing body s).1).1
          ≡ (publish_stream zstd cipher hashing body s).1)
publish-again hashing zstd zstd' cipher cipher' body body' s ref ref' w h same h' =
    let s' = (publish_stream zstd cipher hashing body s).1 in
    let (e, answer, entry) = published-entry hashing zstd cipher body s w h in
    elim (Result-cases (read_stream zstd' cipher' body')) [
      | inl (p, read) ↦
          let fed = read_stream-Fed zstd' cipher' body' p read in
          let found =
            store_found hashing zstd' cipher' p s' e
              (ap (λ b. get (hashing.sha256 b) s'.index) (fed.inner ∙ same) ∙ entry) in
          let whole = publish_read hashing zstd' cipher' body' s' p read ∙ found in
          (ground (arith, answer, h', ap (λ r. r.0) whole), ap (λ r. r.1) whole)
      | inr (x, failed) ↦
          absurd (
            ground (arith, h', ap (λ r. r.0) (publish_err hashing zstd' cipher' body' s' x failed)))
    ]
