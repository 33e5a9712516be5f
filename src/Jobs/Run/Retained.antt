-- ===== src/Jobs/Run/Retained.antt =====
-- Code: server/repositories/mongo/job-repository.js: how long a finished job is kept over sequences of
-- calls.
use tech_pulse_ai.Prelude.{
  List, String, [], arith, none, some, true, ℕ, ◌*◌, ◌+◌, ◌<◌, ◌∷◌, ◌≡◌, ◌≤◌, false,
}
use tech_pulse_ai.Jobs.Names.{Platform}
use tech_pulse_ai.Jobs.Ingestion.{Job, Store, day_ms, find_job, is_terminal}
use tech_pulse_ai.Jobs.Ingestion.Purge.{is_due}
use tech_pulse_ai.Jobs.Ingestion.Retention.{is_retained, job_ok, jobs_ok}
use tech_pulse_ai.Jobs.Run.Terminal.{AllCreateOk, AllSpare, finished_job_stays, run-jobs_ok}
use tech_pulse_ai.Jobs.Run.{Call, purges, run}

-- Every purge of the calls has a cutoff before `t`.
abbrev pub PurgesBefore : ℕ → List Call → Type 0
PurgesBefore t [] = Unit
PurgesBefore t (purges (some cutoff) limit ∷ cs) = (cutoff < t) × PurgesBefore t cs
PurgesBefore t (c ∷ cs) = PurgesBefore t cs

found_ok :
    (i : String) (js : List Job) (j : Job)
    → find_job i js ≡ some j
    → jobs_ok js ≡ true
    → job_ok j ≡ true
unfolding find_job jobs_ok
found_ok i [] j e h = ground arith
found_ok i (k ∷ js) j e h = ground (arith, found_ok i js j)

early_purge_spares :
    (cutoff t : ℕ) (j : Job)
    → job_ok j ≡ true
    → is_terminal j.status ≡ true
    → j.finished_at ≡ some t
    → cutoff < t + 14 * day_ms
    → is_due cutoff j ≡ false
unfolding job_ok is_retained is_due
early_purge_spares cutoff t j h d e n = ground arith

PurgesBefore-AllSpare :
    (t : ℕ) (j : Job) (cs : List Call)
    → job_ok j ≡ true
    → is_terminal j.status ≡ true
    → j.finished_at ≡ some t
    → PurgesBefore (t + 14 * day_ms) cs
    → AllSpare j cs
PurgesBefore-AllSpare t j [] h d e n = tt
PurgesBefore-AllSpare t j (purges (some cutoff) limit ∷ cs) h d e (n, ns) =
    (early_purge_spares cutoff t j h d e n, PurgesBefore-AllSpare t j cs h d e ns)
PurgesBefore-AllSpare t j (purges none limit ∷ cs) h d e n =
    (tt, PurgesBefore-AllSpare t j cs h d e n)
PurgesBefore-AllSpare t j (c ∷ cs) h d e n = (tt, PurgesBefore-AllSpare t j cs h d e n)

-- From a store that keeps the limits of jobs: a job that is found finished after any calls of
-- Jobs/Run.antt, purges included, has had three attempts at most, and stays exactly the same through any further calls
-- whose purges all have cutoffs before two weeks from its end. The condition on both sequences is
-- that the jobs which they create keep the limits of a job.
pub retention_two_weeks :
    (p : Platform) (cs ds : List Call) (s : Store) (i : String) (j : Job) (t : ℕ)
    → AllCreateOk cs
    → AllCreateOk ds
    → jobs_ok s.jobs ≡ true
    → find_job i (run p cs s).jobs ≡ some j
    → is_terminal j.status ≡ true
    → j.finished_at ≡ some t
    → PurgesBefore (t + 14 * day_ms) ds
    → (find_job i (run p ds (run p cs s)).jobs ≡ some j) × (j.attempt ≤ 3)
unfolding job_ok
retention_two_weeks p cs ds s i j t h g k e d f n =
    let good = found_ok i (run p cs s).jobs j e (run-jobs_ok p cs s h k) in
    (
      finished_job_stays p ds (run p cs s) i j g (PurgesBefore-AllSpare t j ds good d f n) e d,
      ground (arith, good),
    )
