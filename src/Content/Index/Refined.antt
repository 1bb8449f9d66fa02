-- ===== src/Content/Index/Refined.antt =====
-- The rows of the index against the map that the tower's publishing is modelled on.
use sumo_provision.Base.{
  ℕ, ◌<◌, ◌≡◌, ◌∙◌, refl, sym, ap, Bool-cases, Option-cases, inl, inr, none, some, Text_ord,
  text_eq, text_eq_iff, text_ne, arith, length, ok, ◌>>=◌, ok-inj,
}
use mathlib.Core.Path.{subst}
use sumo_provision.Map.{get, insert, contains_key, get-insert}
use sumo_provision.Wire.Hash.{Hex, to_prefixed, from_str}
use sumo_provision.Wire.Hash.Roundtrip.{from_str-to_prefixed}
use sumo_provision.Wire.Model.{ContentHash, IsDigest}
use sumo_provision.Content.Again.{Result-cases}
use sumo_provision.Content.{ArtifactEntry, Store, put, u64}
use sumo_provision.Content.Index.{
  Rows, Row, as_i64, as_u64, to_array, entry_from_row, index_get, row_of, index_put,
}

-- an entry of the types of `ArtifactEntry`
pub record IsEntry (e : ArtifactEntry) : Type 0 where
  pub inner : IsDigest e.inner
  pub outer : IsDigest e.outer
  pub cek : length e.cek ≡ 16
  pub nonce : length e.nonce ≡ 12
  pub size : e.size < u64

-- for every digest the table answers what the map holds
abbrev pub Mirrors : Hex → Rows → Store → Type 0
Mirrors hex rows s = (i : ContentHash) → IsDigest i → index_get hex i rows ≡ ok (get i s.index)

as_u64-as_i64 : (n : ℕ) → n < u64 → as_u64 (as_i64 n) ≡ n
unfolding as_i64 as_u64
as_u64-as_i64 n h = ground arith

module _ (hex : Hex) where
  entry_from_row-row_of :
      (e : ArtifactEntry) → IsEntry e → entry_from_row hex e.inner (row_of hex e) ≡ ok e
  unfolding entry_from_row to_array
  entry_from_row-row_of e w =
      rw ((from_str-to_prefixed hex e.outer w.outer).0, w.cek, w.nonce, as_u64-as_i64 e.size w.size)
        refl

  prefixed-inj :
      (a b : ContentHash) → IsDigest a → IsDigest b → to_prefixed hex a ≡ to_prefixed hex b → a ≡ b
  prefixed-inj a b da db same = ok-inj (
      sym (from_str-to_prefixed hex a da).0
      ∙ ap (from_str hex) same
      ∙ (from_str-to_prefixed hex b db).0)

  get_no_row :
      (i : ContentHash) (rows : Rows)
      → get (to_prefixed hex i) rows ≡ none
      → index_get hex i rows ≡ ok none
  unfolding index_get
  get_no_row i rows gone = rw (index_get, gone) refl

  get_row :
      (i : ContentHash) (rows : Rows) {row : Row}
      → get (to_prefixed hex i) rows ≡ some row
      → index_get hex i rows ≡ (entry_from_row hex i row >>= λ entry. ok (some entry))
  unfolding index_get
  get_row i rows there = rw (index_get, there) refl

  -- a row that is answered by no entry is answered by an error
  row_present :
      (i : ContentHash) (rows : Rows) (s : Store)
      → IsDigest i
      → Mirrors hex rows s
      → contains_key (to_prefixed hex i) rows ≡ contains_key i s.index
  row_present i rows s d agrees = elim (Option-cases (get (to_prefixed hex i) rows)) [
    | inl gone ↦ ground (arith, gone, get_no_row i rows gone, agrees i d)
    | inr (row, there) ↦ elim (Result-cases (entry_from_row hex i row)) [
      | inl (e, read) ↦ ground (arith, there, read, get_row i rows there, agrees i d)
      | inr (e, failed) ↦ ground (arith, failed, get_row i rows there, agrees i d)
    ]
  ]

  same_row :
      (i : ContentHash) (rows later : Rows)
      → get (to_prefixed hex i) later ≡ get (to_prefixed hex i) rows
      → index_get hex i later ≡ index_get hex i rows
  same_row i rows later same = elim (Option-cases (get (to_prefixed hex i) rows)) [
    | inl gone ↦ get_no_row i later (same ∙ gone) ∙ sym (get_no_row i rows gone)
    | inr (row, there) ↦ get_row i later (same ∙ there) ∙ sym (get_row i rows there)
  ]

  get-row_of :
      (e : ArtifactEntry) (rows : Rows)
      → IsEntry e
      → get (to_prefixed hex e.inner) rows ≡ some (row_of hex e)
      → index_get hex e.inner rows ≡ ok (some e)
  get-row_of e rows w there =
      get_row e.inner rows there
      ∙ ap (λ r. r >>= λ entry. ok (some entry)) (entry_from_row-row_of e w)

  inserted-Mirrors :
      (e : ArtifactEntry) (rows : Rows) (s : Store)
      → IsEntry e
      → Mirrors hex rows s
      → (i : ContentHash) → IsDigest i
      → index_get hex i (insert (to_prefixed hex e.inner) (row_of hex e) rows)
        ≡ ok (get i (insert e.inner e s.index))
  inserted-Mirrors e rows s w agrees i d =
      let key = to_prefixed hex e.inner in
      let later = insert key (row_of hex e) rows in
      let found = get-insert key (to_prefixed hex i) (row_of hex e) rows in
      elim (Bool-cases (text_eq e.inner i)) [
        | inl same ↦
            let same_hash = (text_eq_iff e.inner i).0 same in
            subst (λ j. index_get hex j later ≡ ok (get j (insert e.inner e s.index))) same_hash
              (get-row_of e later w
                  (get-insert key key (row_of hex e) rows ∙ rw ((text_eq_iff key key).1 refl) refl)
                ∙ ap ok (
                    sym (
                      get-insert e.inner e.inner e s.index
                      ∙ rw ((text_eq_iff e.inner e.inner).1 refl) refl)))
        | inr other ↦
            same_row i rows later (
              found
              ∙ rw
                  (text_ne key (to_prefixed hex i) (λ same. absurd (
                    ground (
                      arith,
                      other,
                      (text_eq_iff e.inner i).1 (prefixed-inj e.inner i w.inner d same),
                    ))))
                  refl)
            ∙ agrees i d
            ∙ ap ok (sym (get-insert e.inner i e s.index ∙ rw other refl))
      ]

  -- When the table answers for every digest what the map holds, and an entry has digests, a key of
  -- 16 bytes, a nonce of 12 and a size below 2 ^ 64, then the table answers so again after both
  -- have recorded the entry.
  pub index_put-refines :
      (e : ArtifactEntry) (rows : Rows) (s : Store)
      → IsEntry e
      → Mirrors hex rows s
      → Mirrors hex (index_put hex e rows) (put e s)
  unfolding index_put put
  index_put-refines e rows s w agrees i d = elim (Bool-cases (contains_key e.inner s.index)) [
    | inl there ↦ rw (row_present e.inner rows s w.inner agrees, there) (agrees i d)
    | inr fresh ↦
        rw (row_present e.inner rows s w.inner agrees, fresh)
          (inserted-Mirrors e rows s w agrees i d)
  ]
