-- ===== src/Jobs/Run/Terminal.antt =====
-- Code: server/repositories/mongo/job-repository.js: the life of a job over sequences of calls.
use tech_pulse_ai.Prelude.{
  Bool, List, Option, Result, String, [], ap, arith, err, false, inl, inr, none, ok, refl, some,
  take, true, ℕ, ◌++◌, ◌+◌, ◌∙◌, ◌∷◌, ◌≡◌,
}
use tech_pulse_ai.Jobs.Names.{Platform}
use tech_pulse_ai.Jobs.Leases.{Leases, clear_expired_reconciliation, heartbeat, release}
use tech_pulse_ai.Jobs.Ingestion.{
  Job, Refusal, Store, claim_queued_with_fence, complete_with_fence, defer_with_fence, find_job,
  is_terminal,
}
use tech_pulse_ai.Jobs.Ingestion.Recovery.{finalize_orphaned_attempt, recover_lease, recover_orphan}
use tech_pulse_ai.Jobs.Ingestion.Queue.{cancel_ingestion_job, create_ingestion_job}
use tech_pulse_ai.Jobs.Ingestion.Retention.{
  Evolves, append-Evolves, Evolves-by, Evolves-refl, job_ok, jobs_ok,
}
use tech_pulse_ai.Jobs.Ingestion.Purge.{
  Purge, delete-kept, delete_selected, due_jobs, is_due, purge-parts, purge_due_ingestion_jobs,
  purge_selected, sort_by_deadline,
}
use tech_pulse_ai.Jobs.Run.Changes.{claim-Evolves, complete-Evolves, defer-Evolves}
use tech_pulse_ai.Jobs.Run.JobSteps.{
  cancel-Evolves, create-jobs, finalize-Evolves, recover_lease-parent, recover_orphan-Evolves,
  recover_parent-Evolves,
}
use tech_pulse_ai.Jobs.Run.{
  Call, acquires, cancels, claims, clears, completes, creates, defers, finalizes, heartbeats, kept,
  kept_leases, kept_purge, kept_second, purges, recovers, releases, run, step, sweeps,
}

kept-Evolves :
    (s : Store) (r : Result Refusal Store)
    → ((t : Store) → r ≡ ok t → Evolves s.jobs t.jobs)
    → Evolves s.jobs (kept s r).jobs
unfolding kept
kept-Evolves s (ok t) h = h t refl
kept-Evolves s (err e) h = Evolves-refl s.jobs

kept_second-Evolves :
    {A : Type 0} (s : Store) (r : Result Refusal (A × Store))
    → ((a : A) (t : Store) → r ≡ ok (a, t) → Evolves s.jobs t.jobs)
    → Evolves s.jobs (kept_second s r).jobs
unfolding kept_second
kept_second-Evolves s (ok (a, t)) h = h a t refl
kept_second-Evolves s (err e) h = Evolves-refl s.jobs

kept_leases-Evolves :
    {A : Type 0} {E : Type 0} (s : Store) (r : Result E (A × Leases))
    → Evolves s.jobs (kept_leases s r).jobs
unfolding kept_leases
kept_leases-Evolves s (ok (a, ls)) = Evolves-refl s.jobs
kept_leases-Evolves s (err e) = Evolves-refl s.jobs

-- The jobs that a call creates keep the limits of a job.
abbrev pub CreatesOk : Call → Type 0
CreatesOk (creates active audit j) = job_ok j ≡ true
CreatesOk _ = Unit

abbrev pub AllCreateOk : List Call → Type 0
AllCreateOk [] = Unit
AllCreateOk (c ∷ cs) = CreatesOk c × AllCreateOk cs

is_purge : Call → Bool
is_purge (purges cutoff limit) = true
is_purge _ = false

call-Evolves :
    (p : Platform) (c : Call) (s : Store)
    → CreatesOk c
    → is_purge c ≡ false
    → Evolves s.jobs (step p c s).jobs
unfolding step is_purge
call-Evolves p (acquires r clock) s h n = Evolves-refl s.jobs
call-Evolves p (heartbeats i f ms clock) s h n =
    kept_leases-Evolves s (heartbeat i f ms clock s.leases)
call-Evolves p (releases i f clock) s h n = kept_leases-Evolves s (release i f clock s.leases)
call-Evolves p (claims i f clock) s h n =
    kept_second-Evolves s (claim_queued_with_fence i f clock s)
      (λ b t e. claim-Evolves i f clock s t b e)
call-Evolves p (completes i f c clock) s h n =
    kept-Evolves s (complete_with_fence i f c clock s) (complete-Evolves i f c clock s)
call-Evolves p (defers i f ms clock) s h n =
    kept-Evolves s (defer_with_fence i f ms clock s) (defer-Evolves i f ms clock s)
call-Evolves p (finalizes i f r clock) s h n =
    kept_second-Evolves s (finalize_orphaned_attempt p i f r clock s)
      (λ b t e. finalize-Evolves p i f r clock s t b e)
call-Evolves p (recovers k o now) s h n = kept-Evolves s (recover_lease p k o now s) λ t e.
    let (u, parent, w) = recover_lease-parent p k o now s t e in
    Evolves-by s.jobs u.jobs t.jobs w (recover_parent-Evolves p o now s u parent)
call-Evolves p (sweeps i g now) s h n =
    kept-Evolves s (recover_orphan p i g now s) (recover_orphan-Evolves p i g now s)
call-Evolves p (cancels active i actor reason request now) s h n =
    kept-Evolves s (cancel_ingestion_job p active i actor reason request now s)
      (cancel-Evolves p active i actor reason request now s)
call-Evolves p (creates active audit j) s h n =
    kept_second-Evolves s (create_ingestion_job p active audit j s) λ found t e.
      elim (create-jobs p active audit j found s t e) [
        | inl w ↦ Evolves-by s.jobs s.jobs t.jobs w (Evolves-refl s.jobs)
        | inr w ↦ Evolves-by s.jobs (s.jobs ++ j ∷ []) t.jobs w (append-Evolves s.jobs j h)
      ]
call-Evolves p (purges cutoff limit) s h n = ground arith
call-Evolves p (clears k clock) s h n =
    kept_leases-Evolves s (clear_expired_reconciliation k clock s.leases)

-- A call that is no purge whose cutoff has reached the deadline of the job.
abbrev pub Spares : Job → Call → Type 0
Spares j (purges (some cutoff) limit) = is_due cutoff j ≡ false
Spares j _ = Unit

abbrev pub AllSpare : Job → List Call → Type 0
AllSpare j [] = Unit
AllSpare j (c ∷ cs) = Spares j c × AllSpare j cs

jobs_ok-delete :
    (cutoff : ℕ) (chosen js : List Job)
    → jobs_ok js ≡ true
    → jobs_ok (delete_selected cutoff chosen js) ≡ true
unfolding jobs_ok delete_selected
jobs_ok-delete cutoff chosen [] h = refl
jobs_ok-delete cutoff chosen (j ∷ js) h = ground (arith, jobs_ok-delete cutoff chosen js)

-- What a purge leaves: the jobs that it did not select, or that its filter does not reach.
purge-jobs :
    (cutoff limit : ℕ) (js : List Job) (r : Purge)
    → purge_due_ingestion_jobs (some cutoff) limit js ≡ ok r
    → (chosen : List Job) × (r.jobs ≡ delete_selected cutoff chosen js)
unfolding purge_due_ingestion_jobs purge_selected
purge-jobs cutoff limit js r e =
    (take limit (take (limit + 1) (sort_by_deadline (due_jobs cutoff js))), ground arith)

-- Finished jobs stay unless the call is a purge that has reached them, and the limits hold on.
abbrev Endures : Call → List Job → List Job → Type 0
Endures c js ks =
    ((q : String) (j : Job)
      → find_job q js ≡ some j
      → is_terminal j.status ≡ true
      → Spares j c
      → find_job q ks ≡ some j)
    × (jobs_ok js ≡ true → jobs_ok ks ≡ true)

Evolves-Endures : (c : Call) (js ks : List Job) → Evolves js ks → Endures c js ks
Evolves-Endures c js ks (a, b) = ((λ q j e t h. a q j e t), b)

purged-Endures :
    (cutoff limit : ℕ) (s : Store) (r : Result Refusal Purge)
    → purge_due_ingestion_jobs (some cutoff) limit s.jobs ≡ r
    → Endures (purges (some cutoff) limit) s.jobs (kept_purge s r).jobs
unfolding kept_purge
purged-Endures cutoff limit s (err e) h = ((λ q j e t w. e), λ g. g)
purged-Endures cutoff limit s (ok r) h =
    let (chosen, w) = purge-jobs cutoff limit s.jobs r h in
    (
      (λ q j e t n. ap (find_job q) w ∙ delete-kept cutoff chosen s.jobs q j e n),
      λ g. ap jobs_ok w ∙ jobs_ok-delete cutoff chosen s.jobs g,
    )

purge-Endures :
    (p : Platform) (cutoff : Option ℕ) (limit : ℕ) (s : Store)
    → Endures (purges cutoff limit) s.jobs (step p (purges cutoff limit) s).jobs
unfolding step
purge-Endures p none limit s = go (purge_due_ingestion_jobs none limit s.jobs) refl
  where
    go :
        (r : Result Refusal Purge)
        → purge_due_ingestion_jobs none limit s.jobs ≡ r
        → Endures (purges none limit) s.jobs (kept_purge s r).jobs
    go (err e) h = ((λ q j e t w. e), λ g. g)
    go (ok r) h =
        let (now, lacks, _, _) = purge-parts none limit s.jobs r h in ground (arith, lacks)
purge-Endures p (some cutoff) limit s =
    purged-Endures cutoff limit s (purge_due_ingestion_jobs (some cutoff) limit s.jobs) refl

step-Endures :
    (p : Platform) (c : Call) (s : Store) → CreatesOk c → Endures c s.jobs (step p c s).jobs
unfolding is_purge
step-Endures p (purges cutoff limit) s h = purge-Endures p cutoff limit s
step-Endures p c s h = Evolves-Endures c s.jobs (step p c s).jobs (call-Evolves p c s h refl)

-- A job that has succeeded, failed, ended in part or been cancelled is exactly the same after any
-- sequence of the calls of Jobs/Run.antt, when the jobs that those calls create keep the limits of a job, and each purge
-- among them has a cutoff before the deadline of the job or before its idempotency key expires.
pub finished_job_stays :
    (p : Platform) (cs : List Call) (s : Store) (i : String) (j : Job)
    → AllCreateOk cs
    → AllSpare j cs
    → find_job i s.jobs ≡ some j
    → is_terminal j.status ≡ true
    → find_job i (run p cs s).jobs ≡ some j
unfolding run
finished_job_stays p [] s i j h n e t = e
finished_job_stays p (c ∷ cs) s i j (h, hs) (n, ns) e t =
    finished_job_stays p cs (step p c s) i j hs ns ((step-Endures p c s h).0 i j e t n) t

-- After any calls, purges included, no job has an attempt above the third, and every finished job has
-- a deadline two weeks from its end at least, and not before its idempotency key expires, when the
-- jobs at the start and the created ones keep to that.
pub run-jobs_ok :
    (p : Platform) (cs : List Call) (s : Store)
    → AllCreateOk cs
    → jobs_ok s.jobs ≡ true
    → jobs_ok (run p cs s).jobs ≡ true
unfolding run
run-jobs_ok p [] s h g = g
run-jobs_ok p (c ∷ cs) s (h, hs) g = run-jobs_ok p cs (step p c s) hs ((step-Endures p c s h).1 g)
