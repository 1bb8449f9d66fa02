-- ===== src/Content/Files/Stays.antt =====
-- A blob that is stored stays.
use sumo_provision.Base.{
  ℕ, ◌≡◌, ◌∙◌, refl, sym, none, some, Option-cases, inl, inr, Text, Text_ord, length, arith,
}
use sumo_provision.Map.{get}
use sumo_provision.Wire.Hash.{Hex}
use sumo_provision.Wire.Model.{ContentHash}
use sumo_provision.Content.Files.{FsBlobStore, begin_blob, open_blob}
use sumo_provision.Content.Files.Names.{
  temp-ne, begin-IsTemp, begin_other, write_other, commit-stays, drop_other,
}
use sumo_provision.Content.Files.Runs.{
  Run, Step, begun, written, committed_as, dropped, restarted, Reaches, here, next, AreHeld,
  held_name,
}
use sumo_provision.Content.Files.Held.{Reaches-AreHeld}

module _ (hex : Hex) where
  -- a file of a blob stays, with its bytes
  step-stays :
      {r t : Run} (outer : ContentHash) {bytes : Text}
      → Step hex r t
      → AreHeld hex r
      → get (hex.encode outer) r.store.files ≡ some bytes
      → get (hex.encode outer) t.store.files ≡ some bytes
  step-stays outer (begun {r} room) held h =
      begin_other r.process_id (hex.encode outer) r.store (
        temp-ne hex (begin_blob r.process_id r.store).0.tmp outer
          (begin-IsTemp r.process_id r.store))
      ∙ h
  step-stays outer (written {r} k sink buf inuse) held h =
      let mine = held k sink inuse in
      write_other sink buf (hex.encode outer) r.store mine.held (held_name hex r k sink outer mine)
      ∙ h
  step-stays outer (committed_as {r} k sink o inuse) held h =
      commit-stays hex sink o (hex.encode outer) r.store
        (held_name hex r k sink outer (held k sink inuse)) h
  step-stays outer (dropped {r} k sink inuse) held h =
      drop_other sink (hex.encode outer) r.store (held_name hex r k sink outer (held k sink inuse))
      ∙ h
  step-stays outer (restarted process_id) held h = h

  file-stays :
      {r t : Run} (outer : ContentHash) {bytes : Text}
      → Reaches hex r t
      → AreHeld hex r
      → get (hex.encode outer) r.store.files ≡ some bytes
      → get (hex.encode outer) t.store.files ≡ some bytes
  file-stays outer here held h = h
  file-stays outer (next before step) held h =
      step-stays outer step (Reaches-AreHeld hex before held) (file-stays outer before held h)

  opened_as :
      (s : FsBlobStore) (outer : ContentHash) {bytes : Text}
      → get (hex.encode outer) s.files ≡ some bytes
      → open_blob hex outer s ≡ some (length bytes, bytes)
  unfolding open_blob
  opened_as s outer h = rw (open_blob, h) refl

  open_blob-none :
      (s : FsBlobStore) (outer : ContentHash)
      → get (hex.encode outer) s.files ≡ none
      → open_blob hex outer s ≡ none
  unfolding open_blob
  open_blob-none s outer h = rw (open_blob, h) refl

  -- In a process of the tower that started without a sink in use, over any sequence of calls of
  -- the store and of the sinks in use, interleaved in any way, and of restarts, with fewer uploads
  -- in a process than the counter of temporary names counts, a blob that can be opened is opened
  -- with the same size and bytes ever after.
  pub blob-stays :
      {start r t : Run} (outer : ContentHash) {answer : ℕ × Text}
      → ((k : ℕ) → start.sinks k ≡ none)
      → Reaches hex start r
      → Reaches hex r t
      → open_blob hex outer r.store ≡ some answer
      → open_blob hex outer t.store ≡ some answer
  blob-stays {start} {r} {t} outer idle before later h =
      elim (Option-cases (get (hex.encode outer) r.store.files)) [
        | inl gone ↦ ground (arith, h, open_blob-none r.store outer gone)
        | inr (bytes, there) ↦
            let held =
              Reaches-AreHeld hex before (λ k sink given. absurd (ground (arith, given, idle k))) in
            opened_as t.store outer (file-stays outer later held there)
            ∙ sym (opened_as r.store outer there)
            ∙ h
      ]
