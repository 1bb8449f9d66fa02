-- ===== src/Content/Files/Held.antt =====
-- Every sink in use has a temporary file of its own.
use sumo_provision.Base.{
  ℕ, ◌+◌, ◌<◌, ◌≡◌, ◌≢◌, ◌∙◌, refl, sym, ap, none, some, Option, false, Bool-cases, Option-cases,
  inl, inr, Text, Text_ord, text_ne, arith, nat_eq, nat_eq_iff,
}
use mathlib.Core.Path.{subst}
use sumo_provision.Map.{get, contains_key}
use sumo_provision.Wire.Hash.{Hex}
use sumo_provision.Wire.Model.{ContentHash}
use sumo_provision.Content.{u64}
use sumo_provision.Content.Files.{
  FsBlobStore, FsBlobSink, temp_name, file_of, renamed, rename, remove_file, begin_blob,
  commit_blob, drop_sink,
}
use sumo_provision.Content.Files.Names.{temp_name-inj, begin_file, write_keeps}
use sumo_provision.Content.Files.Runs.{
  Run, use_sink, Step, begun, written, committed_as, dropped, restarted, Reaches, here, next,
  IsHeld, AreHeld, held_name,
}

module _ (hex : Hex) where
  -- a call keeps a sink when it keeps its open file
  kept :
      (r later : Run) (k : ℕ) (sink : FsBlobSink)
      → IsHeld hex r k sink
      → later.process_id ≡ r.process_id
      → k < later.store.temp_seq
      → ((n : ℕ)
          → n < r.store.next_file
          → r.store.open_files n ≡ some sink.tmp
          → later.store.open_files n ≡ some sink.tmp)
      → ((n : ℕ) → n < r.store.next_file → n < later.store.next_file)
      → IsHeld hex later k sink
  unfolding file_of
  kept r later k sink h process seq files handles =
      let (n, given, old) = h.handle in
      record {
        number = seq;
        name = h.name ∙ ap (λ p. temp_name p k) (sym process);
        held = rw (file_of, given) (files n old (rw (file_of, given) at h.held));
        handle = (n, given, handles n old);
      }

  -- two sinks in use have two temporary files
  distinct :
      (r : Run) (j k : ℕ) (a b : FsBlobSink)
      → IsHeld hex r j a
      → IsHeld hex r k b
      → nat_eq j k ≡ false
      → b.tmp ≢ a.tmp
  distinct r j k a b ha hb other same =
      let numbers = temp_name-inj r.process_id j k (sym ha.name ∙ sym same ∙ hb.name) in
      ground (arith, other, (nat_eq_iff j k).1 numbers)

  remove_keeps :
      (tmp own : Text) (s : FsBlobStore) (n : ℕ)
      → own ≢ tmp
      → s.open_files n ≡ some own
      → (remove_file tmp s).open_files n ≡ some own
  unfolding remove_file renamed
  remove_keeps tmp own s n ne held = rw (renamed, held) (rw (text_ne own tmp ne) refl)

  drop_keeps :
      (sink : FsBlobSink) (own : Text) (s : FsBlobStore) (n : ℕ)
      → own ≢ sink.tmp
      → s.open_files n ≡ some own
      → (drop_sink sink s).open_files n ≡ some own
  unfolding drop_sink
  drop_keeps sink own s n ne held = elim (Bool-cases sink.committed) [
    | inl done ↦ rw (drop_sink, done) held
    | inr undone ↦ rw (drop_sink, undone) (remove_keeps sink.tmp own s n ne held)
  ]

  commit_keeps :
      (sink : FsBlobSink) (outer : ContentHash) (own : Text) (s : FsBlobStore) (n : ℕ)
      → own ≢ sink.tmp
      → own ≢ hex.encode outer
      → s.open_files n ≡ some own
      → (commit_blob hex sink outer s).1.open_files n ≡ some own
  unfolding commit_blob rename renamed
  commit_keeps sink outer own s n ne ne_blob held =
      elim (Bool-cases (contains_key (hex.encode outer) s.files)) [
        | inl there ↦ rw there (remove_keeps sink.tmp own s n ne held)
        | inr fresh ↦ rw fresh (elim (Option-cases (get sink.tmp s.files)) [
          | inl gone ↦ rw (rename, gone) held
          | inr (bytes, present) ↦
              rw (rename, present)
                (rw (renamed, held)
                  (rw (text_ne own (hex.encode outer) ne_blob, text_ne own sink.tmp ne) refl))
        ])
      ]

  -- neither draws a number or opens a file
  commit_counts :
      (sink : FsBlobSink) (outer : ContentHash) (s : FsBlobStore)
      → ((commit_blob hex sink outer s).1.next_file ≡ s.next_file)
        × ((commit_blob hex sink outer s).1.temp_seq ≡ s.temp_seq)
  unfolding commit_blob rename remove_file
  commit_counts sink outer s = elim (Bool-cases (contains_key (hex.encode outer) s.files)) [
    | inl there ↦ rw there (refl, refl)
    | inr fresh ↦ rw fresh (elim (Option-cases (get sink.tmp s.files)) [
      | inl gone ↦ rw (rename, gone) (refl, refl)
      | inr (bytes, present) ↦ rw (rename, present) (refl, refl)
    ])
  ]

  drop_counts :
      (sink : FsBlobSink) (s : FsBlobStore)
      → ((drop_sink sink s).next_file ≡ s.next_file) × ((drop_sink sink s).temp_seq ≡ s.temp_seq)
  unfolding drop_sink remove_file
  drop_counts sink s = elim (Bool-cases sink.committed) [
    | inl done ↦ rw (drop_sink, done) (refl, refl)
    | inr undone ↦ rw (drop_sink, undone) (refl, refl)
  ]

  another :
      (r : Run) (j k : ℕ) {a : FsBlobSink}
      → use_sink k none r j ≡ some a
      → (nat_eq j k ≡ false) × (r.sinks j ≡ some a)
  another r j k h = elim (Bool-cases (nat_eq j k)) [
    | inl same ↦ absurd (ground (arith, h, same))
    | inr other ↦ (other, rw other at h)
  ]

  begin_counts :
      (process_id : Text) (s : FsBlobStore)
      → s.temp_seq + 1 < u64
      → ((begin_blob process_id s).1.temp_seq ≡ s.temp_seq + 1)
        × ((begin_blob process_id s).1.next_file ≡ s.next_file + 1)
        × ((begin_blob process_id s).0.file ≡ some s.next_file)
        × ((begin_blob process_id s).0.tmp ≡ temp_name process_id s.temp_seq)
  unfolding begin_blob
  begin_counts process_id s room = (omega arith, refl, refl, refl)

  begin_keeps :
      (process_id : Text) (s : FsBlobStore) (n : ℕ)
      → n < s.next_file
      → (begin_blob process_id s).1.open_files n ≡ s.open_files n
  unfolding begin_blob
  begin_keeps process_id s n below = ground arith

  some-inj : {A : Type 0} {a b : A} → some a ≡ some b → a ≡ b
  some-inj {a = a} same = ap (value_or a) same
    where
      value_or : {A : Type 0} → A → Option A → A
      value_or d none = d
      value_or d (some x) = x

  begun-AreHeld :
      (r : Run)
      → r.store.temp_seq + 1 < u64
      → AreHeld hex r
      → AreHeld hex (record r {
        store = (begin_blob r.process_id r.store).1;
        sinks = use_sink r.store.temp_seq (some (begin_blob r.process_id r.store).0) r;
      })
  begun-AreHeld r room held j a given =
      let (seq, numbers, file, name) = begin_counts r.process_id r.store room in
      elim (Bool-cases (nat_eq j r.store.temp_seq)) [
        | inl new ↦
            let number = (nat_eq_iff j r.store.temp_seq).0 new in
            subst (IsHeld hex _ j) (some-inj (rw new at given)) (record {
              number = subst (λ m. j < m) (sym seq) (omega (arith, number));
              name = name ∙ ap (temp_name r.process_id) (sym number);
              held = begin_file r.process_id r.store;
              handle = (
                r.store.next_file,
                file,
                subst (λ m. r.store.next_file < m) (sym numbers) (omega arith),
              );
            })
        | inr old ↦
            let before = held j a (rw old at given) in
            kept r _ j a before refl (subst (λ m. j < m) (sym seq) (omega (arith, before.number)))
              (λ n below here. begin_keeps r.process_id r.store n below ∙ here)
              (λ n below. subst (λ m. n < m) (sym numbers) (omega (arith, below)))
      ]

  Step-AreHeld : {r t : Run} → Step hex r t → AreHeld hex r → AreHeld hex t
  Step-AreHeld (begun {r} room) held j a given = begun-AreHeld r room held j a given
  Step-AreHeld (written {r} k sink buf inuse) held j a given =
      let (files, numbers, seq) = write_keeps sink buf r.store in
      kept r _ j a (held j a given) refl (subst (λ m. j < m) (sym seq) (held j a given).number)
        (λ n below file. ap (λ f. f n) files ∙ file)
        (λ n below. subst (λ m. n < m) (sym numbers) below)
  Step-AreHeld (committed_as {r} k sink outer inuse) held j a given =
      let (other, there) = another r j k given in
      let mine = held j a there in
      let (numbers, seq) = commit_counts sink outer r.store in
      kept r _ j a mine refl (subst (λ m. j < m) (sym seq) mine.number)
        (λ n below file.
          commit_keeps sink outer a.tmp r.store n
            (λ same. distinct r j k a sink mine (held k sink inuse) other (sym same))
            (held_name hex r j a outer mine) file)
        (λ n below. subst (λ m. n < m) (sym numbers) below)
  Step-AreHeld (dropped {r} k sink inuse) held j a given =
      let (other, there) = another r j k given in
      let mine = held j a there in
      let (numbers, seq) = drop_counts sink r.store in
      kept r _ j a mine refl (subst (λ m. j < m) (sym seq) mine.number)
        (λ n below file.
          drop_keeps sink a.tmp r.store n
            (λ same. distinct r j k a sink mine (held k sink inuse) other (sym same)) file)
        (λ n below. subst (λ m. n < m) (sym numbers) below)
  Step-AreHeld (restarted {r} process_id) held j a given = cc

  pub Reaches-AreHeld : {r t : Run} → Reaches hex r t → AreHeld hex r → AreHeld hex t
  Reaches-AreHeld here held = held
  Reaches-AreHeld (next before step) held = Step-AreHeld step (Reaches-AreHeld before held)
