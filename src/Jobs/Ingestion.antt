-- ===== src/Jobs/Ingestion.antt =====
-- Code: server/repositories/mongo/job-repository.js. A collection is a list of documents; an index on
-- `_id` is unique. A transaction that throws leaves the store as it was.
pub mod Recovery
pub mod Queue
pub mod Retention
pub mod Idempotency
pub mod Purge
pub mod Selection
use tech_pulse_ai.Prelude.{
  Bool, List, Option, Result, String, [], date_value, err, false, if◌then◌else◌, is_some, leb, ltb,
  max, none, not, ok, or_else, some, str_eq, throw_if, true, ℕ, ◌&&◌, ◌*◌, ◌+◌, ◌==◌, ◌>>=◌, ◌>>◌,
  ◌||◌, ◌∷◌,
}
use tech_pulse_ai.Jobs.ErrorCodes.{safe_error_code}
use tech_pulse_ai.Jobs.Leases.{Failure, Fence, Leases, clear_owner, holds, touch, update_lease}
use tech_pulse_ai.Jobs.Audit.{Event}

pub data Status : Type 0 where
  queued running succeeded partial failed cancelled : Status

pub record Counters : Type 0 where
  pub fetched : ℕ
  pub created : ℕ
  pub updated : ℕ
  pub duplicate : ℕ
  pub skipped : ℕ
  pub failures : ℕ

pub record JobError : Type 0 where
  pub code : String
  pub retryable : Bool
  pub occurred_at : ℕ
  pub upstream_status : Option ℕ

-- `safeErrorDocument`; the message is always the same.
unfoldable pub safe_error_document : JobError → JobError
unfolding safe_error_code
safe_error_document e = record e { code = safe_error_code e.code }

pub record Job : Type 0 where
  pub id : String
  pub idempotency_key : String
  pub actor_scope : String
  pub request_hash : String
  pub source_id : String
  pub connector_type : String
  pub expected_source_policy_version : ℕ
  pub trigger : String
  pub requested_by : Option String
  pub parent_job_id : Option String
  pub status : Status
  pub attempt : ℕ
  pub priority : ℕ
  pub available_at : ℕ
  pub aging_eligible_at : ℕ
  pub idempotency_expires_at : ℕ
  pub lease_generation : ℕ
  pub batch_size : ℕ
  pub checkpoint : Option String
  pub counters : Counters
  pub cancellation_requested_at : Option ℕ
  pub error : Option JobError
  pub created_at : ℕ
  pub started_at : Option ℕ
  pub heartbeat_at : Option ℕ
  pub finished_at : Option ℕ
  pub purge_after : Option ℕ
  pub updated_at : ℕ

-- What `completeWithFence` reads of a source.
pub record Source : Type 0 where
  pub id : String
  pub policy_version : ℕ
  pub is_active : Bool
  pub license_status : String
  pub connector_type : String
  pub connector_kind : String

pub record Store : Type 0 where
  pub jobs : List Job
  pub leases : Leases
  pub audits : List Event
  pub sources : List Source

pub data Refusal : Type 0 where
  invalid_clock invalid_status invalid_delay lease_fence_stale conflict : Refusal
  unauthorized not_found audit_refused bad_request idempotency_mismatch : Refusal

unfoldable pub is_terminal : Status → Bool
is_terminal queued = false
is_terminal running = false
is_terminal _ = true

unfoldable pub is_queued : Status → Bool
is_queued queued = true
is_queued _ = false

unfoldable pub is_running : Status → Bool
is_running running = true
is_running _ = false

unfoldable pub day_ms : ℕ
day_ms = 24 * 60 * 60 * 1000

pub retention_days : Status → ℕ
retention_days failed = 30
retention_days partial = 30
retention_days _ = 14

unfoldable pub purge_after_for : Status → ℕ → ℕ → ℕ
unfolding retention_days day_ms
purge_after_for status finished expires = max (finished + retention_days status * day_ms) expires

unfoldable pub find_job : String → List Job → Option Job
find_job i [] = none
find_job i (j ∷ js) = let rest = find_job i js in if str_eq j.id i then some j else rest

unfoldable pub update_job : String → (Job → Job) → List Job → List Job
update_job i f [] = []
update_job i f (j ∷ js) =
    let rest = update_job i f js in if str_eq j.id i then f j ∷ js else j ∷ rest

-- The job that the filter `{ _id, status: 'running', leaseGeneration }` meets.
unfoldable pub find_running : String → ℕ → List Job → Option Job
unfolding find_job is_running
find_running i generation js = elim (find_job i js) [
  | none ↦ none
  | some j ↦ if is_running j.status && j.lease_generation == generation then some j else none
]

unfoldable pub start_job : ℕ → ℕ → Job → Job
start_job generation now j = record j {
  status = running;
  lease_generation = generation;
  started_at = some now;
  heartbeat_at = some now;
  updated_at = now;
}

unfoldable pub is_claimable : String → ℕ → List Job → Bool
unfolding find_job is_queued
is_claimable i now js = elim (find_job i js) [
  | none ↦ false
  | some j ↦ is_queued j.status && leb j.available_at now
]

-- `claimQueuedWithFence`.
unfoldable pub claim_queued_with_fence :
    String → Fence → Option ℕ → Store → Result Refusal (Bool × Store)
unfolding holds touch update_lease is_claimable update_job start_job
claim_queued_with_fence i f clock s = do
  now ← date_value clock invalid_clock
  if not (holds s.leases i f now)
      then ok (false, s)
      else if not (is_claimable i now s.jobs)
      then err conflict
      else ok (
        true,
        record s {
          leases = update_lease f.key (touch now) s.leases;
          jobs = update_job i (start_job f.lease_generation now) s.jobs;
        },
      )

unfoldable pub find_source : String → List Source → Option Source
find_source i [] = none
find_source i (x ∷ xs) = let rest = find_source i xs in if str_eq x.id i then some x else rest

pub is_licensed : String → Bool
is_licensed l = str_eq l "permitted" || str_eq l "metadata-only"

-- Whether the source still has the policy that the job was made for.
unfoldable pub policy_holds : Job → List Source → Bool
unfolding find_source is_licensed
policy_holds j xs = elim (find_source j.source_id xs) [
  | none ↦ false
  | some x ↦
      x.policy_version == j.expected_source_policy_version
      && x.is_active
      && is_licensed x.license_status
      && str_eq x.connector_type j.connector_type
      && str_eq x.connector_kind j.connector_type
]

pub record Completion : Type 0 where
  pub status : Status
  pub error : Option JobError
  pub checkpoint : Option String
  pub counters : Option Counters

unfoldable pub finish : Status → ℕ → Job → Job
unfolding purge_after_for
finish status now j = record j {
  status = status;
  finished_at = some now;
  purge_after = some (purge_after_for status now j.idempotency_expires_at);
  updated_at = now;
}

pub policy_error : ℕ → JobError
policy_error now = record {
  code = "source_policy_changed_mid_run";
  retryable = false;
  occurred_at = now;
  upstream_status = none;
}

-- What a completion writes.
unfoldable pub complete_job : Completion → Bool → ℕ → Job → Job
unfolding finish policy_error safe_error_document
complete_job c keeps_policy now j =
    if keeps_policy
    then record (finish c.status now j) {
      error = elim c.error [ none ↦ j.error | some e ↦ some (safe_error_document e) ];
      checkpoint = or_else c.checkpoint j.checkpoint;
      counters = elim c.counters [ none ↦ j.counters | some n ↦ n ];
    }
    else record (finish failed now j) { error = some (safe_error_document (policy_error now)) }

-- `completeWithFence`: the job is finished and its lease released in one transaction.
unfoldable pub complete_with_fence :
    String → Fence → Completion → Option ℕ → Store → Result Refusal Store
unfolding is_terminal holds find_running update_job complete_job policy_holds update_lease touch
    clear_owner
complete_with_fence i f c clock s = do
  throw_if (not (is_terminal c.status)) invalid_status
  now ← date_value clock invalid_clock
  throw_if (not (holds s.leases i f now)) lease_fence_stale
  elim (find_running i f.lease_generation s.jobs) [
    | none ↦ err lease_fence_stale
    | some j ↦ ok (record s {
      jobs = update_job i (complete_job c (policy_holds j s.sources) now) s.jobs;
      leases = update_lease f.key (clear_owner now) (update_lease f.key (touch now) s.leases);
    })
  ]

unfoldable pub defer_job : ℕ → ℕ → Job → Job
unfolding finish
defer_job delay_ms now j =
    if is_some j.cancellation_requested_at
    then record (finish cancelled now j) { started_at = none; heartbeat_at = none }
    else record j {
      status = queued;
      available_at = now + delay_ms;
      lease_generation = 0;
      updated_at = now;
      started_at = none;
      heartbeat_at = none;
    }

pub valid_delay : ℕ → Bool
valid_delay ms = not (ltb ms 1000) && not (ltb (15 * 60 * 1000) ms)

-- `deferWithFence`.
unfoldable pub defer_with_fence : String → Fence → ℕ → Option ℕ → Store → Result Refusal Store
unfolding valid_delay holds find_running update_job defer_job update_lease touch clear_owner
defer_with_fence i f delay_ms clock s = do
  now ← date_value clock invalid_clock
  throw_if (not (valid_delay delay_ms)) invalid_delay
  throw_if (not (holds s.leases i f now)) conflict
  elim (find_running i f.lease_generation s.jobs) [
    | none ↦ err conflict
    | some j ↦ ok (record s {
      jobs = update_job i (defer_job delay_ms now) s.jobs;
      leases = update_lease f.key (clear_owner now) (update_lease f.key (touch now) s.leases);
    })
  ]

-- A call of the audit writer that throws makes the transaction throw.
unfoldable pub audited :
    Result tech_pulse_ai.Jobs.Audit.Failure (List Event) → Result Refusal (List Event)
audited (ok es) = ok es
audited (err e) = err audit_refused
