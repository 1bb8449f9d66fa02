-- ===== src/Orchestrator/Jobs/Made.antt =====
-- Which components get a job, and what the job carries.
use sumo_provision.Base.{
  ◌≡◌, Option, List, [], ◌∷◌, ◌++◌, arith, Text, text, Text_ord, Text_eq, Bool-cases, inl, inr,
  Result, ok, >>=-eq-ok, ok-inj,
}
use mathlib.Core.Path.{subst}
use sumo_provision.Wire.Model.{ContentHash, Tree}
use sumo_provision.Orchestrator.Jobs.Judged.{
  IsSelected, IsUnchanged, component_unchanged-IsUnchanged, IsUnchanged-component_unchanged,
  selected-IsSelected, IsSelected-selected,
}
use sumo_provision.Orchestrator.Model.{Error, L1Part, L1Component, Payload, FlashJob}
use sumo_provision.Orchestrator.Jobs.{
  component_unchanged, selected, fetch_payloads, job_payloads, push_job, l1_jobs,
}

module _ (fetch_ciphertext : ContentHash → Result Error Text) (observed : Tree)
    (only : Option (List Text)) where
  -- one payload for each part, in the order of the manifest, with the bytes that were fetched
  pub data AreFetched : List L1Part → List Payload → Type 0 where
    no_parts : AreFetched [] []
    fetched :
        (p : L1Part) {source : Text} {ps : List L1Part} {payloads : List Payload}
        → fetch_ciphertext p.outer ≡ ok source
        → AreFetched ps payloads
        → AreFetched (p ∷ ps) (record { uri = text "#" ++ p.part; source = source } ∷ payloads)

  -- the jobs of the components, in their order
  pub data AreJobs : List L1Component → List FlashJob → Type 0 where
    no_components : AreJobs [] []
    left_out :
        (c : L1Component) {cs : List L1Component} {jobs : List FlashJob}
        → ¬ IsSelected observed only c
        → AreJobs cs jobs
        → AreJobs (c ∷ cs) jobs
    without_payloads :
        (c : L1Component) {cs : List L1Component} {jobs : List FlashJob}
        → IsSelected observed only c
        → IsUnchanged observed c
        → AreJobs cs jobs
        → AreJobs
            (c ∷ cs)
            (record { component_id = c.component; envelope = c.envelope; payloads = [] } ∷ jobs)
    with_payloads :
        (c : L1Component) {payloads : List Payload} {cs : List L1Component} {jobs : List FlashJob}
        → IsSelected observed only c
        → ¬ IsUnchanged observed c
        → AreFetched c.parts payloads
        → AreJobs cs jobs
        → AreJobs (c ∷ cs) (
            record { component_id = c.component; envelope = c.envelope; payloads = payloads }
            ∷ jobs)

  fetch_payloads-AreFetched :
      (ps : List L1Part) {payloads : List Payload}
      → fetch_payloads fetch_ciphertext ps ≡ ok payloads
      → AreFetched ps payloads
  unfolding fetch_payloads
  fetch_payloads-AreFetched [] h = subst (AreFetched []) (ok-inj h) no_parts
  fetch_payloads-AreFetched (p ∷ ps) h =
      let (source, e1, k1) = >>=-eq-ok (fetch_ciphertext p.outer) _ h in
      let (rest, e2, k2) = >>=-eq-ok (fetch_payloads fetch_ciphertext ps) _ k1 in
      subst (AreFetched (p ∷ ps)) (ok-inj k2) (fetched p e1 (fetch_payloads-AreFetched ps e2))

  pushed :
      (c : L1Component) {cs : List L1Component} {payloads : List Payload} {tail : List FlashJob}
      → IsSelected observed only c
      → job_payloads fetch_ciphertext observed c ≡ ok payloads
      → AreJobs cs tail
      → AreJobs
          (c ∷ cs)
          (record { component_id = c.component; envelope = c.envelope; payloads = payloads } ∷ tail)
  unfolding job_payloads
  pushed c {cs} {payloads} {tail} chosen e later =
      elim (Bool-cases (component_unchanged c observed)) [
        | inl same ↦
            let nothing : [] ≡ payloads = ok-inj (rw same at e) in
            subst
              (λ ps. AreJobs (c ∷ cs) (
                record { component_id = c.component; envelope = c.envelope; payloads = ps } ∷ tail))
              nothing
              (without_payloads c chosen (component_unchanged-IsUnchanged c observed same) later)
        | inr new ↦
            with_payloads c chosen
              (λ same. ground (arith, new, IsUnchanged-component_unchanged c observed same))
              (fetch_payloads-AreFetched c.parts (rw new at e)) later
      ]

  -- When the jobs can be built, they are those of the components of the campaign, in its order,
  -- that the vehicle advertises and that the filter, if there is one, names; each has the manifest
  -- of its component, and no payload when the component has parts and the vehicle reports the
  -- content of every one of them, and else one for each part, in the order of the manifest, under
  -- the name of the part and with the bytes that were fetched for its ciphertext.
  pub l1_jobs-AreJobs :
      (components : List L1Component) {jobs : List FlashJob}
      → l1_jobs fetch_ciphertext components observed only ≡ ok jobs
      → AreJobs components jobs
  unfolding l1_jobs push_job
  l1_jobs-AreJobs [] h = subst (AreJobs []) (ok-inj h) no_components
  l1_jobs-AreJobs (c ∷ cs) h = elim (Bool-cases (selected observed only c)) [
    | inl here ↦
        let (payloads, e1, k1) =
          >>=-eq-ok (job_payloads fetch_ciphertext observed c) _ (rw here at h) in
        let (tail, e2, k2) = >>=-eq-ok (l1_jobs fetch_ciphertext cs observed only) _ k1 in
        subst (AreJobs (c ∷ cs)) (ok-inj k2)
          (pushed c (selected-IsSelected observed only c here) e1 (l1_jobs-AreJobs cs e2))
    | inr left ↦
        left_out c (λ chosen. ground (arith, left, IsSelected-selected observed only c chosen))
          (l1_jobs-AreJobs cs (rw left at h))
  ]
