-- ===== src/Jobs/Ingestion/Recovery.antt =====
-- Code: server/repositories/mongo/job-repository.js, the attempts whose worker was lost: the
-- finalization by a worker itself, and the recovery that looks for expired leases.
use tech_pulse_ai.Prelude.{
  Bool, List, Option, Result, String, [], concat, date_value, false, if◌then◌else◌, is_text, leb,
  ltb, none, not, ok, some, str_eq, throw_if, true, ℕ, ◌&&◌, ◌*◌, ◌++◌, ◌+◌, ◌==◌, ◌>>=◌, ◌>>◌,
  ◌||◌, ◌∷◌,
}
use tech_pulse_ai.Jobs.Names.{
  Platform, ingestion, key_prefix, recovery_child_id, recovery_key, recovery_request_hash,
}
use tech_pulse_ai.Jobs.Leases.{
  Fence, Lease, Leases, Owner, clear_owner, find_lease, is_owner, touch, update_lease,
}
use tech_pulse_ai.Jobs.Audit.{
  Actor, Event, Request, create_job_audit_event, ingestion_job_lease_recovered, insert_audit,
  system_worker,
}
use tech_pulse_ai.Jobs.Ingestion.{
  Counters, Job, JobError, Refusal, Store, audited, bad_request, conflict, day_ms, failed,
  find_running, finish, invalid_clock, queued, safe_error_document, update_job,
}

abbrev no_counters : Counters
no_counters = record {
  fetched = 0;
  created = 0;
  updated = 0;
  duplicate = 0;
  skipped = 0;
  failures = 0;
}

-- `recoveryChildFor`.
unfoldable pub recovery_child_for : Platform → Job → ℕ → Job
unfolding recovery_child_id recovery_key recovery_request_hash day_ms
recovery_child_for p j now =
    let next = j.attempt + 1 in
    record j {
      id = recovery_child_id p j.id next;
      idempotency_key = recovery_key p j.id next;
      actor_scope = "system-recovery";
      request_hash = recovery_request_hash p j.id next;
      trigger = "retry";
      parent_job_id = some j.id;
      status = queued;
      attempt = next;
      available_at = now;
      aging_eligible_at = now + 30 * 60 * 1000;
      idempotency_expires_at = now + 14 * day_ms;
      lease_generation = 0;
      counters = no_counters;
      created_at = now;
      updated_at = now;
      started_at = none;
      heartbeat_at = none;
      finished_at = none;
      purge_after = none;
      error = none;
      cancellation_requested_at = none;
      checkpoint = none;
    }

unfoldable pub is_attempt : String → ℕ → Job → Bool
is_attempt parent attempt j = is_text j.parent_job_id parent && j.attempt == attempt

unfoldable pub has_attempt : String → ℕ → List Job → Bool
unfolding is_attempt
has_attempt parent attempt [] = false
has_attempt parent attempt (j ∷ js) = is_attempt parent attempt j || has_attempt parent attempt js

-- The upsert of a child by its parent and attempt, below three attempts.
unfoldable pub add_retry : Platform → Job → ℕ → List Job → List Job
unfolding has_attempt recovery_child_for
add_retry p parent now js =
    if ltb parent.attempt 3 && not (has_attempt parent.id (parent.attempt + 1) js)
    then js ++ recovery_child_for p parent now ∷ []
    else js

abbrev worker : Actor
worker = record { id = "system:due-work"; role = system_worker }

abbrev recovery_request : Platform → String → Job → Request
recovery_request p kind j = record {
  identity = concat kind (concat j.id (concat ":" (p.decimal j.lease_generation)));
  actor_session_id = none;
}

unfoldable pub audit_recovery :
    Platform → String → Job → ℕ → List Event → Result Refusal (List Event)
unfolding audited create_job_audit_event insert_audit
audit_recovery p kind j now es = audited (do
  event ←
      create_job_audit_event p.sha256 worker ingestion_job_lease_recovered j.id
        ("status" ∷ "error" ∷ []) "lease_expired_recovered" (recovery_request p kind j) now
  insert_audit p event es)

unfoldable pub fail_job : JobError → ℕ → Job → Job
unfolding finish
fail_job e now j = record (finish failed now j) { error = some e }

-- What a worker reports of the attempt that it could not complete.
pub record Report : Type 0 where
  pub code : Option String
  pub retryable : Bool
  pub upstream_status : Option ℕ

pub lost_heartbeat : Report → Bool
lost_heartbeat r = is_text r.code "lease_heartbeat_lost"

pub reported_error : Report → ℕ → JobError
reported_error r now = record {
  code = elim r.code [ none ↦ "ingestion_completion_failed" | some c ↦ c ];
  retryable = r.retryable;
  occurred_at = now;
  upstream_status = r.upstream_status;
}

-- The lease of an orphan: its owner to clear, no owner, or not this worker's to touch.
pub data Orphanage : Type 0 where
  owned_lease free_lease foreign_lease : Orphanage

unfoldable pub inspect_lease : String → Fence → Report → ℕ → Leases → Orphanage
unfolding find_lease is_owner lost_heartbeat
inspect_lease i f r now ls = elim (find_lease f.key ls) [
  | none ↦ foreign_lease
  | some l ↦
      if not (l.generation_high_water == f.lease_generation)
      then foreign_lease
      else elim l.active_owner [
        | none ↦ free_lease
        | some o ↦
            if is_owner i f.owner_token_hash f.lease_generation o
              && (lost_heartbeat r || leb o.expires_at now)
            then owned_lease
            else foreign_lease
      ]
]

-- What `finalizeOrphanedAttempt` writes to the job: its heartbeat goes too.
unfoldable pub finalize_job : JobError → ℕ → Job → Job
unfolding fail_job
finalize_job e now j = record (fail_job e now j) { heartbeat_at = none }

-- The jobs after a finalization: a retry only where this worker still owned the lease.
unfoldable pub finalized_jobs : Platform → Bool → Report → ℕ → Job → List Job → List Job
unfolding finalize_job reported_error add_retry update_job safe_error_document
finalized_jobs p owned r now j js =
    let failed_jobs =
      update_job j.id (finalize_job (safe_error_document (reported_error r now)) now) js in
    if owned && (safe_error_document (reported_error r now)).retryable
    then add_retry p j now failed_jobs
    else failed_jobs

unfoldable pub finalize_with :
    Platform
    → Bool
    → (Lease → Lease)
    → Fence
    → Report
    → ℕ
    → Job
    → Store
    → Result Refusal (Bool × Store)
unfolding finalized_jobs update_lease audit_recovery
finalize_with p owned mark f r now j s = do
  es ← audit_recovery p "orphan-finalization:" j now s.audits
  ok (
    true,
    record s {
      jobs = finalized_jobs p owned r now j s.jobs;
      leases = update_lease f.key mark s.leases;
      audits = es;
    },
  )

-- `finalizeOrphanedAttempt`.
unfoldable pub finalize_orphaned_attempt :
    Platform → String → Fence → Report → Option ℕ → Store → Result Refusal (Bool × Store)
unfolding find_running inspect_lease finalize_with clear_owner touch
finalize_orphaned_attempt p i f r clock s = do
  now ← date_value clock invalid_clock
  throw_if (str_eq f.key "") bad_request
  elim (find_running i f.lease_generation s.jobs) [
    | none ↦ ok (false, s)
    | some j ↦ elim (inspect_lease i f r now s.leases) [
      | foreign_lease ↦ ok (false, s)
      | owned_lease ↦ finalize_with p true (clear_owner now) f r now j s
      | free_lease ↦ finalize_with p false (touch now) f r now j s
    ]
  ]

pub expired_error : Bool → ℕ → JobError
expired_error retry now = record {
  code = "lease_expired";
  retryable = retry;
  occurred_at = now;
  upstream_status = none;
}

-- The recovery of one expired lease, whose owner was read before the transaction.
unfoldable pub recover_jobs : Platform → ℕ → Job → Store → Result Refusal Store
unfolding audit_recovery add_retry update_job fail_job expired_error
recover_jobs p now j s = do
  es ← audit_recovery p "recovery:" j now s.audits
  ok (record s {
    jobs = add_retry p j now (update_job j.id (fail_job (expired_error true now) now) s.jobs);
    audits = es;
  })

unfoldable pub recover_parent : Platform → Owner → ℕ → Store → Result Refusal Store
unfolding find_running recover_jobs
recover_parent p o now s = elim (find_running o.job_id o.lease_generation s.jobs) [
  | none ↦ ok s
  | some j ↦ recover_jobs p now j s
]

unfoldable pub still_expired : String → Owner → ℕ → Leases → Bool
unfolding find_lease is_owner
still_expired k o now ls = elim (find_lease k ls) [
  | none ↦ false
  | some l ↦ elim l.active_owner [
    | none ↦ false
    | some x ↦ is_owner o.job_id o.owner_token_hash o.lease_generation x && leb x.expires_at now
  ]
]

unfoldable pub recover_lease : Platform → String → Owner → ℕ → Store → Result Refusal Store
unfolding recover_parent still_expired update_lease clear_owner
recover_lease p k o now s = do
  t ← recover_parent p o now s
  throw_if (not (still_expired k o now t.leases)) conflict
  ok (record t { leases = update_lease k (clear_owner now) t.leases })

-- A lease owns the job that runs in it, for the sweep of running jobs.
unfoldable pub is_owned : Job → ℕ → Leases → Bool
unfolding find_lease key_prefix
is_owned j now ls = elim (find_lease (concat (key_prefix ingestion) j.source_id) ls) [
  | none ↦ false
  | some l ↦ elim l.active_owner [
    | none ↦ false
    | some o ↦
        str_eq o.job_id j.id && o.lease_generation == j.lease_generation && ltb now o.expires_at
  ]
]

unfoldable pub fail_orphan : Platform → ℕ → Job → Store → Result Refusal Store
unfolding audit_recovery update_job fail_job expired_error
fail_orphan p now j s = do
  es ← audit_recovery p "orphan-recovery:" j now s.audits
  ok (record s {
    jobs = update_job j.id (fail_job (expired_error false now) now) s.jobs;
    audits = es;
  })

-- The recovery of one running job that was listed with a lease generation.
unfoldable pub recover_orphan : Platform → String → ℕ → ℕ → Store → Result Refusal Store
unfolding find_running is_owned fail_orphan
recover_orphan p i generation now s = elim (find_running i generation s.jobs) [
  | none ↦ ok s
  | some j ↦ if is_owned j now s.leases then ok s else fail_orphan p now j s
]
