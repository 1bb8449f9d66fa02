-- ===== src/Orchestrator/Jobs.antt =====
-- `component_unchanged` and `l1_jobs` of crates/orchestrator/src/lib.rs.
pub mod Judged
pub mod Made
pub mod Available
pub mod Agreement
use sumo_provision.Base.{
  Bool, true, false, not, ◌&&◌, ◌||◌, Option, none, some, List, [], ◌∷◌, ◌++◌, Text, Text_ord,
  Text_eq, ◌==◌, if◌then◌else◌, all, any, is_empty, is_some_and, contains, text, Result, ok, err,
  ◌>>=◌,
}
use sumo_provision.Map.{get, contains_key}
use sumo_provision.Wire.Model.{ContentHash, Part, Entity, Tree}
use sumo_provision.Orchestrator.Model.{Error, L1Part, L1Component, Payload, FlashJob}

-- one part's digest is among those that the vehicle reports
unfoldable pub part_present : List Part → L1Part → Bool
unfolding any
part_present parts p = elim p.inner [
  | none ↦ false
  | some inner ↦ any (λ (op : Part). op.content == inner) parts
]

unfoldable pub component_unchanged : L1Component → Tree → Bool
unfolding part_present all is_empty
component_unchanged c observed = elim (get c.component observed.entities) [
  | none ↦ false
  | some entity ↦ not (is_empty c.parts) && all (part_present entity.parts) c.parts
]

-- the two guards of the loop
unfoldable pub selected : Tree → Option (List Text) → L1Component → Bool
unfolding contains
selected observed only c =
    not (is_some_and (λ allow. not (contains allow c.component)) only)
    && contains_key c.component observed.entities

-- `BlobSource`
module _ (fetch_ciphertext : ContentHash → Result Error Text) where
  unfoldable pub fetch_payloads : List L1Part → Result Error (List Payload)
  fetch_payloads [] = ok []
  fetch_payloads (p ∷ ps) = do
    bytes ← fetch_ciphertext p.outer
    payloads ← fetch_payloads ps
    ok (record { uri = text "#" ++ p.part; source = bytes } ∷ payloads)

  unfoldable pub job_payloads : Tree → L1Component → Result Error (List Payload)
  unfolding component_unchanged fetch_payloads
  job_payloads observed c = if component_unchanged c observed then ok [] else fetch_payloads c.parts

  -- a selected component in front of the rest of the loop
  unfoldable pub push_job :
      Tree → L1Component → Result Error (List FlashJob) → Result Error (List FlashJob)
  unfolding job_payloads
  push_job observed c rest = do
    payloads ← job_payloads observed c
    jobs ← rest
    ok (record { component_id = c.component; envelope = c.envelope; payloads = payloads } ∷ jobs)

  unfoldable pub l1_jobs :
      List L1Component → Tree → Option (List Text) → Result Error (List FlashJob)
  unfolding selected push_job
  l1_jobs [] observed only = ok []
  l1_jobs (c ∷ components) observed only =
      let rest = l1_jobs components observed only in
      if selected observed only c then push_job observed c rest else rest
