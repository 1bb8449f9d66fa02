-- ===== src/Content/Stream.antt =====
-- What has been hashed when a stream was read to its end.
use sumo_provision.Base.{
  ℕ, ◌+◌, ◌%◌, ◌≡◌, refl, ◌∙◌, sym, ap, List, [], ◌∷◌, ◌++◌, arith, Text, is_empty, length,
  length-append, Bool-cases, inl, inr, Result, ok, err, ◌>>=◌, >>=-eq-ok, ok_or,
}
use mathlib.Core.Path.{subst}
use mathlib.Core.List.{append_assoc, append-nil}
use sumo_provision.Releases.Tables.{internal}
use sumo_provision.Content.{
  Zstd, Cipher, u64, Progress, open_stream, emit, push_chunk, drain, close_stream, read_stream,
}

-- The bytes of the chunks that arrived.
unfoldable pub body_bytes : List (Result Text Text) → Text
body_bytes [] = []
body_bytes (ok chunk ∷ body) = chunk ++ body_bytes body
body_bytes (err e ∷ body) = body_bytes body

module _ (zstd : Zstd) (cipher : Cipher) where
  open zstd use {start, write, finish}
  open cipher use {begin, update, finalize}

  -- The progress after the given bytes: the sink holds what the outer hasher was fed.
  pub record Fed (bytes : Text) (p : Progress zstd cipher) : Type 0 where
    pub inner : p.inner_h ≡ bytes
    pub sunk : p.sink ≡ p.outer_h
    pub sized : p.size ≡ length bytes % u64

  abbrev emitted : Progress zstd cipher → cipher.Inner × Text → Progress zstd cipher
  emitted p step = record p { enc = step.0; outer_h = p.outer_h ++ step.1; sink = p.sink ++ step.1 }

  -- The three loop bodies keep what the progress says of the bytes.
  emit-Fed :
      (compressed bytes : Text) (p q : Progress zstd cipher)
      → Fed bytes p
      → emit zstd cipher compressed p ≡ ok q
      → Fed bytes q
  unfolding emit
  emit-Fed compressed bytes p q f h = elim (Bool-cases (is_empty compressed)) [
    | inl nothing ↦ let same : p ≡ q = ground (arith, nothing, h) in subst (Fed bytes) same f
    | inr something ↦
        let (step, e, k) =
          >>=-eq-ok (ok_or (update p.enc compressed) internal) (λ step. ok (emitted p step))
            (rw something at h) in
        let same : emitted p step ≡ q = ground (arith, k) in
        subst (Fed bytes) same
          (record { inner = f.inner; sunk = ap (λ r. r ++ step.1) f.sunk; sized = f.sized })
  ]

  abbrev chunked : Text → Progress zstd cipher → zstd.Window × Text → Progress zstd cipher
  chunked chunk p step = record p {
    inner_h = p.inner_h ++ chunk;
    size = (p.size + length chunk) % u64;
    zenc = step.0;
  }

  sized_chunk : (a b : ℕ) (m : ℕ) → m ≡ a % u64 → (m + b) % u64 ≡ (a + b) % u64
  sized_chunk a b m h = omega arith

  push_chunk-Fed :
      (chunk bytes : Text) (p q : Progress zstd cipher)
      → Fed bytes p
      → push_chunk zstd cipher (ok chunk) p ≡ ok q
      → Fed (bytes ++ chunk) q
  unfolding push_chunk
  push_chunk-Fed chunk bytes p q f h =
      let (step, e, k) =
        >>=-eq-ok (ok_or (write p.zenc chunk) internal)
          (λ step. emit zstd cipher step.1 (chunked chunk p step)) h in
      emit-Fed step.1 (bytes ++ chunk) (chunked chunk p step) q
        (record {
          inner = ap (λ r. r ++ chunk) f.inner;
          sunk = f.sunk;
          sized =
              sized_chunk (length bytes) (length chunk) p.size f.sized
              ∙ ap (λ n. n % u64) (sym (length-append bytes chunk));
        })
        k

  drain-Fed :
      (body : List (Result Text Text)) (bytes : Text) (p q : Progress zstd cipher)
      → Fed bytes p
      → drain zstd cipher body p ≡ ok q
      → Fed (bytes ++ body_bytes body) q
  unfolding drain body_bytes push_chunk
  drain-Fed [] bytes p q f h =
      let same : p ≡ q = ground (arith, h) in
      subst (λ r. Fed r q) (sym (append-nil bytes)) (subst (Fed bytes) same f)
  drain-Fed (err e ∷ body) bytes p q f h = cc
  drain-Fed (ok chunk ∷ body) bytes p q f h =
      let (r, e, k) =
        >>=-eq-ok (push_chunk zstd cipher (ok chunk) p) (λ r. drain zstd cipher body r) h in
      subst (λ b. Fed b q) (append_assoc bytes chunk (body_bytes body))
        (drain-Fed body (bytes ++ chunk) r q (push_chunk-Fed chunk bytes p r f e) k)

  close_stream-Fed :
      (bytes : Text) (p q : Progress zstd cipher)
      → Fed bytes p
      → close_stream zstd cipher p ≡ ok q
      → Fed bytes q
  unfolding close_stream
  close_stream-Fed bytes p q f h =
      let end : Progress zstd cipher → Text → Progress zstd cipher =
        λ r tag. record r { outer_h = r.outer_h ++ tag; sink = r.sink ++ tag } in
      let (tail, e1, k1) =
        >>=-eq-ok (ok_or (finish p.zenc) internal)
          (λ tail. emit zstd cipher tail p >>= λ r.
            ok_or (finalize r.enc) internal >>= λ tag. ok (end r tag))
          h in
      let (r, e2, k2) =
        >>=-eq-ok (emit zstd cipher tail p)
          (λ r. ok_or (finalize r.enc) internal >>= λ tag. ok (end r tag)) k1 in
      let (tag, e3, k3) = >>=-eq-ok (ok_or (finalize r.enc) internal) (λ tag. ok (end r tag)) k2 in
      let g = emit-Fed tail bytes p r f e2 in
      let same : end r tag ≡ q = ground (arith, k3) in
      subst (Fed bytes) same
        (record { inner = g.inner; sunk = ap (λ x. x ++ tag) g.sunk; sized = g.sized })

  pub read_stream-Fed :
      (body : List (Result Text Text)) (q : Progress zstd cipher)
      → read_stream zstd cipher body ≡ ok q
      → Fed (body_bytes body) q
  unfolding read_stream open_stream
  read_stream-Fed body q h =
      let (p, e1, k1) =
        >>=-eq-ok (open_stream zstd cipher)
          (λ p. drain zstd cipher body p >>= λ r. close_stream zstd cipher r) h in
      let (r, e2, k2) = >>=-eq-ok (drain zstd cipher body p) (λ r. close_stream zstd cipher r) k1 in
      close_stream-Fed (body_bytes body) r q (drain-Fed body [] p r (opened p e1) e2) k2
    where
      opened : (p : Progress zstd cipher) → open_stream zstd cipher ≡ ok p → Fed [] p
      opened p e =
          let fresh : cipher.Inner → zstd.Window → Progress zstd cipher = λ enc zenc. record {
            inner_h = [];
            outer_h = [];
            sink = [];
            size = 0;
            zenc = zenc;
            enc = enc;
          } in
          let (enc, e1, k1) =
            >>=-eq-ok (ok_or begin internal)
              (λ enc. ok_or start internal >>= λ zenc. ok (fresh enc zenc)) e in
          let (zenc, e2, k2) = >>=-eq-ok (ok_or start internal) (λ zenc. ok (fresh enc zenc)) k1 in
          let same : fresh enc zenc ≡ p = ground (arith, k2) in
          subst (Fed []) same (record { inner = refl; sunk = refl; sized = refl })
