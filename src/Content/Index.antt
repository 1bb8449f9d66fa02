-- ===== src/Content/Index.antt =====
-- `PgIndex` of crates/software-tower/src/store.rs: the rows of the table `artifacts`, by their
-- primary key, the prefixed text of the inner hash. Errors of the database are not modelled.
pub mod Refined
use sumo_provision.Base.{
  ℕ, ◌-◌, Bool, Option, none, some, Text, Text_ord, Result, ok, err, ◌>>=◌, or_err, length,
  if◌then◌else◌, nat_eq, ltb,
}
use sumo_provision.Map.{Map, get, insert, contains_key}
use sumo_provision.Wire.Hash.{Hex, to_prefixed, from_str}
use sumo_provision.Wire.Model.{ContentHash}
use sumo_provision.Content.{ArtifactEntry, u64}

-- `i64`: `negsuc n` is - n - 1
pub data I64 : Type 0 where
  pos negsuc : ℕ → I64

-- `size as i64`, and back
unfoldable pub as_i64 : ℕ → I64
as_i64 n = if ltb n 9223372036854775808 then pos n else negsuc (u64 - 1 - n)

unfoldable pub as_u64 : I64 → ℕ
as_u64 (pos n) = n
as_u64 (negsuc n) = u64 - 1 - n

pub record Row : Type 0 where
  pub outer_hash : Text
  pub cek : Text
  pub nonce : Text
  pub size : I64

abbrev pub Rows : Type 0
Rows = Map Text Row

pub data IndexError : Type 0 where
  bad_outer bad_cek bad_nonce : IndexError

-- `slice.try_into()` an array of a length
unfoldable pub to_array : {E : Type 0} → ℕ → E → Text → Result E Text
to_array n e bytes = if nat_eq (length bytes) n then ok bytes else err e

module _ (hex : Hex) where
  unfoldable pub entry_from_row : ContentHash → Row → Result IndexError ArtifactEntry
  unfolding from_str to_array
  entry_from_row inner row = do
    outer ← or_err (from_str hex row.outer_hash) bad_outer
    cek ← to_array 16 bad_cek row.cek
    nonce ← to_array 12 bad_nonce row.nonce
    ok (record { inner = inner; outer = outer; cek = cek; nonce = nonce; size = as_u64 row.size })

  -- `ArtifactIndex::get`
  unfoldable pub index_get : ContentHash → Rows → Result IndexError (Option ArtifactEntry)
  index_get inner rows = elim (get (to_prefixed hex inner) rows) [
    | none ↦ ok none
    | some row ↦ (entry_from_row inner row >>= λ entry. ok (some entry))
  ]

  abbrev pub row_of : ArtifactEntry → Row
  row_of entry = record {
    outer_hash = to_prefixed hex entry.outer;
    cek = entry.cek;
    nonce = entry.nonce;
    size = as_i64 entry.size;
  }

  -- `ArtifactIndex::put`
  unfoldable pub index_put : ArtifactEntry → Rows → Rows
  index_put entry rows =
      let key = to_prefixed hex entry.inner in
      if contains_key key rows then rows else insert key (row_of entry) rows
