-- ===== src/Jobs/Run/JobSteps.antt =====
-- Code: server/repositories/mongo/job-repository.js: what the calls that end or make attempts do to
-- the jobs.
use tech_pulse_ai.Prelude.{
  Bool, Bool-cases, List, Option, Option-cases, Result, String, [], arith, err, false, inl, inr,
  none, ok, refl, some, true, ℕ, ◌++◌, ◌∷◌, ◌≡◌, ◌⊎◌,
}
use tech_pulse_ai.Jobs.Names.{Platform}
use tech_pulse_ai.Jobs.Leases.{Fence, Lease, Owner, clear_owner, touch}
use tech_pulse_ai.Jobs.Audit.{Actor, Event, Request}
use tech_pulse_ai.Jobs.Ingestion.{
  Job, JobError, Refusal, Store, find_job, find_running, is_terminal, safe_error_document,
  update_job,
}
use tech_pulse_ai.Jobs.Ingestion.Recovery.{
  Orphanage, Report, add_retry, expired_error, fail_job, fail_orphan, finalize_job,
  finalize_orphaned_attempt, finalize_with, finalized_jobs, foreign_lease, free_lease,
  inspect_lease, is_owned, owned_lease, recover_jobs, recover_lease, recover_orphan, recover_parent,
  reported_error,
}
use tech_pulse_ai.Jobs.Ingestion.Queue.{
  cancel_found, cancel_ingestion_job, cancel_job, create_audited, create_ingestion_job,
}
use tech_pulse_ai.Jobs.Ingestion.Retention.{
  Evolves, add_retry-Evolves, fail_job-IsSafe, finalize_job-IsSafe, cancel_job-IsSafe, Evolves-by,
  Evolves-refl,
}
use tech_pulse_ai.Jobs.Run.Changes.{ended_then, found_update}

finalize_with-jobs :
    (p : Platform) (owned : Bool) (mark : Lease → Lease) (f : Fence) (r : Report) (now : ℕ)
    (j : Job) (s t : Store) (b : Bool)
    → finalize_with p owned mark f r now j s ≡ ok (b, t)
    → t.jobs ≡ finalized_jobs p owned r now j s.jobs
unfolding finalize_with
finalize_with-jobs p owned mark f r now j s t b e = ground arith

finalized_jobs-cases :
    (p : Platform) (owned : Bool) (r : Report) (now : ℕ) (j : Job) (js : List Job)
    → (e : JobError) × ((finalized_jobs p owned r now j js
          ≡ update_job j.id (finalize_job e now) js)
        ⊎ (finalized_jobs p owned r now j js
            ≡ add_retry p j now (update_job j.id (finalize_job e now) js)))
unfolding finalized_jobs
finalized_jobs-cases p owned r now j js = (safe_error_document (reported_error r now), ground arith)

finalized_jobs-Evolves :
    (p : Platform) (owned : Bool) (i : String) (g : ℕ) (r : Report) (now : ℕ) (j : Job)
    (js : List Job)
    → find_running i g js ≡ some j
    → Evolves js (finalized_jobs p owned r now j js)
finalized_jobs-Evolves p owned i g r now j js h =
    let (e, w) = finalized_jobs-cases p owned r now j js in
    let failed_jobs = update_job j.id (finalize_job e now) js in
    let ks = finalized_jobs p owned r now j js in
    ended_then i g (finalize_job e now) js ks j (finalize_job-IsSafe e now) h (elim w [
      | inl q ↦ Evolves-by failed_jobs failed_jobs ks q (Evolves-refl failed_jobs)
      | inr q ↦
          Evolves-by failed_jobs (add_retry p j now failed_jobs) ks q
            (add_retry-Evolves p j now failed_jobs)
    ])

finalize-jobs :
    (p : Platform) (i : String) (f : Fence) (r : Report) (clock : Option ℕ) (s t : Store) (b : Bool)
    → finalize_orphaned_attempt p i f r clock s ≡ ok (b, t)
    → (t.jobs ≡ s.jobs)
      ⊎ ((now : ℕ) × (j : Job) × (owned : Bool) × (find_running i f.lease_generation s.jobs
            ≡ some j)
          × (t.jobs ≡ finalized_jobs p owned r now j s.jobs))
unfolding finalize_orphaned_attempt
finalize-jobs p i f r none s t b e = ground arith
finalize-jobs p i f r (some now) s t b e =
    elim (Option-cases (find_running i f.lease_generation s.jobs)) [
      | inl n ↦ inl (ground arith)
      | inr (j, n) ↦ go j n (inspect_lease i f r now s.leases) refl
    ]
  where
    go :
        (j : Job)
        → find_running i f.lease_generation s.jobs ≡ some j
        → (o : Orphanage) → inspect_lease i f r now s.leases ≡ o
        → (t.jobs ≡ s.jobs)
          ⊎ ((now : ℕ) × (j : Job) × (owned : Bool) × (find_running i f.lease_generation s.jobs
                ≡ some j)
              × (t.jobs ≡ finalized_jobs p owned r now j s.jobs))
    go j n foreign_lease h = inl (ground arith)
    go j n owned_lease h = inr (
      now,
      j,
      true,
      n,
      ground (arith, finalize_with-jobs p true (clear_owner now) f r now j s t b),
    )
    go j n free_lease h =
        inr
          (now, j, false, n, ground (arith, finalize_with-jobs p false (touch now) f r now j s t b))

pub finalize-Evolves :
    (p : Platform) (i : String) (f : Fence) (r : Report) (clock : Option ℕ) (s t : Store) (b : Bool)
    → finalize_orphaned_attempt p i f r clock s ≡ ok (b, t)
    → Evolves s.jobs t.jobs
finalize-Evolves p i f r clock s t b e = elim (finalize-jobs p i f r clock s t b e) [
  | inl w ↦ Evolves-by s.jobs s.jobs t.jobs w (Evolves-refl s.jobs)
  | inr (now, j, owned, h, w) ↦
      Evolves-by s.jobs (finalized_jobs p owned r now j s.jobs) t.jobs w
        (finalized_jobs-Evolves p owned i f.lease_generation r now j s.jobs h)
]

pub recover_jobs-jobs :
    (p : Platform) (now : ℕ) (j : Job) (s t : Store)
    → recover_jobs p now j s ≡ ok t
    → t.jobs ≡ add_retry p j now (update_job j.id (fail_job (expired_error true now) now) s.jobs)
unfolding recover_jobs
recover_jobs-jobs p now j s t e = ground arith

pub recover_parent-Evolves :
    (p : Platform) (o : Owner) (now : ℕ) (s t : Store)
    → recover_parent p o now s ≡ ok t
    → Evolves s.jobs t.jobs
unfolding recover_parent
recover_parent-Evolves p o now s t e =
    elim (Option-cases (find_running o.job_id o.lease_generation s.jobs)) [
      | inl n ↦ Evolves-by s.jobs s.jobs t.jobs (ground arith) (Evolves-refl s.jobs)
      | inr (j, n) ↦
          let failed_jobs = update_job j.id (fail_job (expired_error true now) now) s.jobs in
          ended_then o.job_id o.lease_generation (fail_job (expired_error true now) now) s.jobs
            t.jobs j (fail_job-IsSafe (expired_error true now) now) n
            (Evolves-by failed_jobs (add_retry p j now failed_jobs) t.jobs
              (ground (arith, recover_jobs-jobs p now j s t))
              (add_retry-Evolves p j now failed_jobs))
    ]

pub recover_lease-parent :
    (p : Platform) (k : String) (o : Owner) (now : ℕ) (s t : Store)
    → recover_lease p k o now s ≡ ok t
    → (u : Store) × (recover_parent p o now s ≡ ok u) × (t.jobs ≡ u.jobs)
unfolding recover_lease
recover_lease-parent p k o now s t e = go (recover_parent p o now s) refl
  where
    go :
        (r : Result Refusal Store)
        → recover_parent p o now s ≡ r
        → (u : Store) × (recover_parent p o now s ≡ ok u) × (t.jobs ≡ u.jobs)
    go (err x) h = ground arith
    go (ok u) h = (u, h, ground arith)

fail_orphan-jobs :
    (p : Platform) (now : ℕ) (j : Job) (s t : Store)
    → fail_orphan p now j s ≡ ok t
    → t.jobs ≡ update_job j.id (fail_job (expired_error false now) now) s.jobs
unfolding fail_orphan
fail_orphan-jobs p now j s t e = ground arith

recover_orphan-jobs :
    (p : Platform) (i : String) (g now : ℕ) (s t : Store)
    → recover_orphan p i g now s ≡ ok t
    → (t.jobs ≡ s.jobs)
      ⊎ ((j : Job) × (find_running i g s.jobs ≡ some j)
          × (t.jobs ≡ update_job j.id (fail_job (expired_error false now) now) s.jobs))
unfolding recover_orphan
recover_orphan-jobs p i g now s t e = elim (Option-cases (find_running i g s.jobs)) [
  | inl n ↦ inl (ground arith)
  | inr (j, n) ↦ elim (Bool-cases (is_owned j now s.leases)) [
    | inl h ↦ inl (ground arith)
    | inr h ↦ inr (j, n, ground (arith, fail_orphan-jobs p now j s t))
  ]
]

pub recover_orphan-Evolves :
    (p : Platform) (i : String) (g now : ℕ) (s t : Store)
    → recover_orphan p i g now s ≡ ok t
    → Evolves s.jobs t.jobs
recover_orphan-Evolves p i g now s t e = elim (recover_orphan-jobs p i g now s t e) [
  | inl w ↦ Evolves-by s.jobs s.jobs t.jobs w (Evolves-refl s.jobs)
  | inr (j, n, w) ↦
      let failed_jobs = update_job j.id (fail_job (expired_error false now) now) s.jobs in
      ended_then i g (fail_job (expired_error false now) now) s.jobs t.jobs j
        (fail_job-IsSafe (expired_error false now) now) n
        (Evolves-by failed_jobs failed_jobs t.jobs w (Evolves-refl failed_jobs))
]

cancel_found-jobs :
    (p : Platform) (actor : Actor) (reason : String) (request : Request) (now : ℕ) (j : Job)
    (s t : Store)
    → cancel_found p actor reason request now j s ≡ ok t
    → (is_terminal j.status ≡ false) × (t.jobs ≡ update_job j.id (cancel_job now) s.jobs)
unfolding cancel_found
cancel_found-jobs p actor reason request now j s t e = ground arith

pub cancel-Evolves :
    (p : Platform) (active : Bool) (i : String) (actor : Actor) (reason : String)
    (request : Request) (now : ℕ) (s t : Store)
    → cancel_ingestion_job p active i actor reason request now s ≡ ok t
    → Evolves s.jobs t.jobs
unfolding cancel_ingestion_job
cancel-Evolves p active i actor reason request now s t e = elim (Option-cases (find_job i s.jobs)) [
  | inl n ↦ ground arith
  | inr (j, n) ↦
      let (live, w) = cancel_found-jobs p actor reason request now j s t (ground arith) in
      found_update i (cancel_job now) s.jobs t.jobs j (cancel_job-IsSafe now) n live w
]

pub create-jobs :
    (p : Platform) (active : Bool) (audit : Event) (j found : Job) (s t : Store)
    → create_ingestion_job p active audit j s ≡ ok (found, t)
    → (t.jobs ≡ s.jobs) ⊎ (t.jobs ≡ s.jobs ++ j ∷ [])
unfolding create_ingestion_job create_audited
create-jobs p active audit j found s t e = ground arith
