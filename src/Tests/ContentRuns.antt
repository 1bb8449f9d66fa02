-- ===== src/Tests/ContentRuns.antt =====
-- Publishing on concrete inputs.
use sumo_provision.Base.{
  ℕ, ◌≡◌, refl, some, List, [], ◌∷◌, ◌++◌, is_empty, Text, Text_ord, text_eq, Result, ok,
}
use sumo_provision.Map.{get, insert}
use sumo_provision.Wire.Model.{ArtifactRef}
use sumo_provision.Content.{
  Zstd, Cipher, Store, open_stream, emit, push_chunk, drain, close_stream, read_stream,
  publish_stream, store_stream, commit, put,
}
use sumo_provision.Content.Stream.{body_bytes}
use sumo_provision.Content.Published.{IsStore}
use sumo_provision.Content.Again.{publish-IsStore, publish-answer, publish-again}
use sumo_provision.Tests.Samples.{hashing, digest}

-- a compressor that keeps everything back until the end
abbrev pub zstd : Zstd
zstd = record {
  Window = Text;
  start = some [];
  write = λ window chunk. some (window ++ chunk, []);
  finish = λ window. some (25 ∷ window);
}

-- a cipher that only adds a tag
abbrev pub cipher : ℕ → Cipher
cipher key = record {
  Inner = Unit {0};
  cek = key ∷ [];
  nonce = [];
  begin = some tt;
  update = λ inner plaintext. some (inner, plaintext);
  finalize = λ inner. some (key ∷ []);
}

abbrev body : List (Result Text Text)
body = ok (1 ∷ 2 ∷ []) ∷ ok (3 ∷ []) ∷ []

abbrev rechunked : List (Result Text Text)
rechunked = ok (1 ∷ []) ∷ ok (2 ∷ 3 ∷ []) ∷ []

abbrev pub empty_store : Store
empty_store = record { blobs = []; index = [] }

pub empty_store-IsStore : IsStore hashing empty_store
unfolding get
empty_store-IsStore = record { addressed = λ o bytes h. cc; indexed = λ i e h. cc }

abbrev answer : ArtifactRef
answer = record {
  inner = digest (1 ∷ 2 ∷ 3 ∷ []);
  outer = digest (25 ∷ 1 ∷ 2 ∷ 3 ∷ 4 ∷ []);
  size = 3;
}

published : (publish_stream zstd (cipher 4) hashing body empty_store).0 ≡ ok answer
unfolding publish_stream read_stream open_stream drain push_chunk emit close_stream store_stream
    is_empty get
published = refl

republished :
    (publish_stream zstd
      (cipher 5)
      hashing
      rechunked
      (publish_stream zstd (cipher 4) hashing body empty_store).1).0
    ≡ ok answer
unfolding publish_stream read_stream open_stream drain push_chunk emit close_stream store_stream
    is_empty get insert commit put text_eq
republished = refl

publish-IsStore_example :
    IsStore hashing (publish_stream zstd (cipher 4) hashing body empty_store).1
publish-IsStore_example =
    publish-IsStore hashing zstd (cipher 4) body empty_store empty_store-IsStore

publish-answer_example :
    (digest (1 ∷ 2 ∷ 3 ∷ []) ≡ digest (body_bytes body))
    × ((bytes : Text) × (get answer.outer
            (publish_stream zstd (cipher 4) hashing body empty_store).1.blobs
          ≡ some bytes)
        × (digest bytes ≡ answer.outer))
publish-answer_example =
    publish-answer hashing zstd (cipher 4) body empty_store answer empty_store-IsStore published

same_bytes : body_bytes rechunked ≡ body_bytes body
unfolding body_bytes
same_bytes = refl

publish-again_example :
    (answer ≡ answer)
    × ((publish_stream zstd
          (cipher 5)
          hashing
          rechunked
          (publish_stream zstd (cipher 4) hashing body empty_store).1).1
        ≡ (publish_stream zstd (cipher 4) hashing body empty_store).1)
publish-again_example =
    publish-again hashing zstd zstd (cipher 4) (cipher 5) body rechunked empty_store answer answer
      empty_store-IsStore published same_bytes republished
