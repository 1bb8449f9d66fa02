-- ===== src/Orchestrator/Jobs/Available.antt =====
-- When the jobs can be built.
use sumo_provision.Base.{
  ◌≡◌, refl, ◌∙◌, ap, Bool, true, false, ◌&&◌, ◌||◌, Option, List, [], ◌∷◌, Text, text, ◌++◌,
  filter, all, Bool-cases, inl, inr, Result, ok, err, ◌>>=◌,
}
use sumo_provision.Wire.Model.{ContentHash, Tree}
use sumo_provision.Orchestrator.Model.{Error, L1Part, L1Component, Payload, FlashJob}
use sumo_provision.Orchestrator.Jobs.{
  component_unchanged, selected, fetch_payloads, job_payloads, push_job, l1_jobs,
}

abbrev pub is_ok : {E A : Type 0} → Result E A → Bool
is_ok (ok a) = true
is_ok (err e) = false

is_ok->>= :
    {E A B : Type 0} (m : Result E A) (f : A → Result E B) (b : Bool)
    → ((a : A) → is_ok (f a) ≡ b)
    → is_ok (m >>= f) ≡ (is_ok m && b)
is_ok->>= (ok a) f b h = h a
is_ok->>= (err e) f b h = refl

module _ (fetch_ciphertext : ContentHash → Result Error Text) where
  -- The blobs that a component needs are there.
  abbrev pub available : Tree → L1Component → Bool
  available observed c =
      component_unchanged c observed
      || all (λ (p : L1Part). is_ok (fetch_ciphertext p.outer)) c.parts

  fetch_payloads-ok :
      (ps : List L1Part)
      → is_ok (fetch_payloads fetch_ciphertext ps)
        ≡ all (λ (p : L1Part). is_ok (fetch_ciphertext p.outer)) ps
  unfolding fetch_payloads all
  fetch_payloads-ok [] = refl
  fetch_payloads-ok (p ∷ ps) =
      is_ok->>= (fetch_ciphertext p.outer)
        (λ bytes. fetch_payloads fetch_ciphertext ps >>= λ payloads.
          ok (record { uri = text "#" ++ p.part; source = bytes } ∷ payloads))
        (is_ok (fetch_payloads fetch_ciphertext ps))
        (λ bytes. rest_ok bytes (fetch_payloads fetch_ciphertext ps))
      ∙ ap (λ b. is_ok (fetch_ciphertext p.outer) && b) (fetch_payloads-ok ps)
    where
      rest_ok :
          (bytes : Text) (m : Result Error (List Payload))
          → is_ok (
              m >>= λ payloads. ok (record { uri = text "#" ++ p.part; source = bytes } ∷ payloads))
            ≡ is_ok m
      rest_ok bytes (ok a) = refl
      rest_ok bytes (err e) = refl

  job_payloads-ok :
      (observed : Tree) (c : L1Component)
      → is_ok (job_payloads fetch_ciphertext observed c) ≡ available observed c
  unfolding job_payloads
  job_payloads-ok observed c = elim (Bool-cases (component_unchanged c observed)) [
    | inl same ↦ rw same refl
    | inr new ↦ rw new (fetch_payloads-ok c.parts)
  ]

  push_job-ok :
      (observed : Tree) (c : L1Component) (rest : Result Error (List FlashJob))
      → is_ok (push_job fetch_ciphertext observed c rest) ≡ (available observed c && is_ok rest)
  unfolding push_job
  push_job-ok observed c rest =
      is_ok->>= (job_payloads fetch_ciphertext observed c)
        (λ payloads. rest >>= λ jobs. ok (job payloads ∷ jobs)) (is_ok rest)
        (λ payloads. rest_ok (job payloads) rest)
      ∙ ap (λ b. b && is_ok rest) (job_payloads-ok observed c)
    where
      job : List Payload → FlashJob
      job payloads = record {
        component_id = c.component;
        envelope = c.envelope;
        payloads = payloads;
      }

      rest_ok :
          (j : FlashJob) (m : Result Error (List FlashJob))
          → is_ok (m >>= λ jobs. ok (j ∷ jobs)) ≡ is_ok m
      rest_ok j (ok a) = refl
      rest_ok j (err e) = refl

  -- The jobs can be built exactly when, for every component that the vehicle advertises and the
  -- filter allows, the vehicle carries the component or the blob of each of its parts can be
  -- fetched.
  pub l1_jobs-ok :
      (components : List L1Component) (observed : Tree) (only : Option (List Text))
      → is_ok (l1_jobs fetch_ciphertext components observed only)
        ≡ all (available observed) (filter (selected observed only) components)
  unfolding l1_jobs filter all
  l1_jobs-ok [] observed only = refl
  l1_jobs-ok (c ∷ cs) observed only = elim (Bool-cases (selected observed only c)) [
    | inl here ↦ rw here (
        push_job-ok observed c (l1_jobs fetch_ciphertext cs observed only)
        ∙ ap (λ b. available observed c && b) (l1_jobs-ok cs observed only))
    | inr left ↦ rw left (l1_jobs-ok cs observed only)
  ]
