-- ===== src/Jobs/Run/Outcomes.antt =====
-- Code: completeWithFence and recoverExpiredIngestion of server/repositories/mongo/job-repository.js:
-- the stores that they leave.
use tech_pulse_ai.Prelude.{
  Bool, List, Option, String, [], ap, arith, eq_refl, false, if◌then◌else◌, ok, refl, some, true, ℕ,
  ◌++◌, ◌+◌, ◌<◌, ◌∙◌, ◌∷◌, ◌≡◌,
}
use tech_pulse_ai.Jobs.Names.{Platform}
use tech_pulse_ai.Jobs.Leases.{
  Fence, Leases, Owner, clear_owner, find_lease, holds, touch, update_lease,
}
use tech_pulse_ai.Jobs.Ingestion.{
  Completion, Job, Store, complete_job, complete_with_fence, failed, find_job, find_running, finish,
  is_running, policy_holds, update_job,
}
use tech_pulse_ai.Jobs.Ingestion.Recovery.{
  add_retry, expired_error, fail_job, has_attempt, is_attempt, recover_lease, recover_parent,
  recovery_child_for,
}
use tech_pulse_ai.Jobs.Ingestion.Retention.{
  IsSafe, complete_job-IsSafe, fail_job-IsSafe, find_job-append,
}
use tech_pulse_ai.Jobs.Leases.Acquire.{is_free}
use tech_pulse_ai.Jobs.Run.JobSteps.{recover_jobs-jobs, recover_lease-parent}
use tech_pulse_ai.Jobs.Run.Changes.{
  complete-parts, find_job-id, find_running-is_running, find_running-parts,
}
use tech_pulse_ai.Jobs.Run.Effects.{complete-leases, recover_lease-leases}

find_lease-cleared :
    (k : String) (now : ℕ) (ls : Leases) → is_free k (update_lease k (clear_owner now) ls) ≡ true
unfolding is_free find_lease update_lease clear_owner
find_lease-cleared k now [] = refl
find_lease-cleared k now (l ∷ ls) = ground (arith, find_lease-cleared k now ls)

find_job-updated :
    (i : String) (f : Job → Job) (js : List Job) (j : Job)
    → IsSafe f
    → find_job i js ≡ some j
    → find_job i (update_job i f js) ≡ some (f j)
unfolding find_job update_job
find_job-updated i f [] j r e = ground arith
find_job-updated i f (k ∷ js) j r e = ground (arith, find_job-updated i f js j r, (r k).0)

complete_job-status :
    (c : Completion) (b : Bool) (now : ℕ) (j : Job)
    → (complete_job c b now j).status ≡ (if b then c.status else failed)
unfolding complete_job finish
complete_job-status c true now j = refl
complete_job-status c false now j = refl

cleared_free :
    (k : String) (now : ℕ) (ls ms : Leases)
    → ms ≡ update_lease k (clear_owner now) ls
    → is_free k ms ≡ true
cleared_free k now ls ms e = ap (is_free k) e ∙ find_lease-cleared k now ls

-- A completion that returns was made at a valid time, by the holder of the lease at that time, for a job
-- that was running with the generation of the fence; it leaves the lease free for the next worker and
-- the job finished, as asked or failed where the source no longer has the policy of the job.
pub completion_finishes :
    (i : String) (f : Fence) (c : Completion) (clock : Option ℕ) (s t : Store)
    → complete_with_fence i f c clock s ≡ ok t
    → (now : ℕ) × (j k : Job) × (clock ≡ some now)
      × (holds s.leases i f now ≡ true)
      × (find_job i s.jobs ≡ some j)
      × (is_running j.status ≡ true)
      × (j.lease_generation ≡ f.lease_generation)
      × (find_job i t.jobs ≡ some k)
      × (k.status ≡ (if policy_holds j s.sources then c.status else failed))
      × (is_free f.key t.leases ≡ true)
completion_finishes i f c clock s t e =
    let (now, j, at_now, found, held, w) = complete-parts i f c clock s t e in
    let (time, _, l) = complete-leases i f c clock s t e in
    let (stored, _, generation) = find_running-parts i f.lease_generation s.jobs j found in
    let done = complete_job c (policy_holds j s.sources) now in
    (
      now,
      j,
      done j,
      at_now,
      held,
      stored,
      find_running-is_running i f.lease_generation s.jobs j found,
      generation,
      ap (find_job i) w
          ∙ find_job-updated i done s.jobs j (complete_job-IsSafe c (policy_holds j s.sources) now)
              stored,
      complete_job-status c (policy_holds j s.sources) now j,
      cleared_free f.key time (update_lease f.key (touch time) s.leases) t.leases l,
    )

has_attempt-append :
    (q : String) (n : ℕ) (js : List Job) (j : Job)
    → is_attempt q n j ≡ true
    → has_attempt q n (js ++ j ∷ []) ≡ true
unfolding has_attempt
has_attempt-append q n [] j h = ground arith
has_attempt-append q n (k ∷ js) j h = ground (arith, has_attempt-append q n js j)

retry_is_attempt :
    (p : Platform) (j : Job) (now : ℕ)
    → is_attempt j.id (j.attempt + 1) (recovery_child_for p j now) ≡ true
unfolding is_attempt recovery_child_for
retry_is_attempt p j now = ground (arith, eq_refl j.id)

add_retry-has_attempt :
    (p : Platform) (j : Job) (now : ℕ) (js : List Job)
    → j.attempt < 3
    → has_attempt j.id (j.attempt + 1) (add_retry p j now js) ≡ true
unfolding add_retry
add_retry-has_attempt p j now js h = ground (
  arith,
  has_attempt-append j.id (j.attempt + 1) js (recovery_child_for p j now)
      (retry_is_attempt p j now),
)

add_retry-found :
    (p : Platform) (j : Job) (now : ℕ) (js : List Job) (q : String) (k : Job)
    → find_job q js ≡ some k
    → find_job q (add_retry p j now js) ≡ some k
unfolding add_retry
add_retry-found p j now js q k e =
    ground (arith, find_job-append q js (recovery_child_for p j now ∷ []) k e)

recover_parent-running :
    (p : Platform) (o : Owner) (now : ℕ) (s t : Store) (j : Job)
    → find_running o.job_id o.lease_generation s.jobs ≡ some j
    → recover_parent p o now s ≡ ok t
    → t.jobs ≡ add_retry p j now (update_job j.id (fail_job (expired_error true now) now) s.jobs)
unfolding recover_parent
recover_parent-running p o now s t j h e = ground (arith, recover_jobs-jobs p now j s t)

-- The recovery of an expired lease that returns, where the lease's job is running below the third
-- attempt, frees the lease, leaves that job failed with a retryable error, and a next attempt of it.
pub recovery_retries :
    (p : Platform) (k : String) (o : Owner) (now : ℕ) (s t : Store) (j : Job)
    → find_running o.job_id o.lease_generation s.jobs ≡ some j
    → j.attempt < 3
    → recover_lease p k o now s ≡ ok t
    → (find_job o.job_id t.jobs ≡ some (fail_job (expired_error true now) now j))
      × (has_attempt j.id (j.attempt + 1) t.jobs ≡ true)
      × (is_free k t.leases ≡ true)
recovery_retries p k o now s t j h a e =
    let (u, parent, same) = recover_lease-parent p k o now s t e in
    let (found, _, _) = find_running-parts o.job_id o.lease_generation s.jobs j h in
    let fails = fail_job (expired_error true now) now in
    let w = same ∙ recover_parent-running p o now s u j h parent in
    let same_id = ap (λ x. update_job x fails s.jobs) (find_job-id o.job_id s.jobs j found) in
    let stored =
      ap (find_job o.job_id) same_id
      ∙ find_job-updated o.job_id fails s.jobs j (fail_job-IsSafe (expired_error true now) now)
          found in
    (
      ap (find_job o.job_id) w
          ∙ add_retry-found p j now (update_job j.id fails s.jobs) o.job_id (fails j) stored,
      ap (has_attempt j.id (j.attempt + 1)) w
          ∙ add_retry-has_attempt p j now (update_job j.id fails s.jobs) a,
      cleared_free k now s.leases t.leases (recover_lease-leases p k o now s t e),
    )
