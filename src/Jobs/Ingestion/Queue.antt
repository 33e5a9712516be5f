-- ===== src/Jobs/Ingestion/Queue.antt =====
-- Code: server/repositories/mongo/job-repository.js: creation and cancellation.
use tech_pulse_ai.Prelude.{
  Bool, List, Option, Result, String, [], err, if◌then◌else◌, none, not, ok, some, str_eq, throw_if,
  ℕ, ◌&&◌, ◌++◌, ◌>>=◌, ◌>>◌, ◌∷◌,
}
use tech_pulse_ai.Jobs.Names.{Platform}
use tech_pulse_ai.Jobs.Audit.{
  Action, Actor, Event, Request, create_job_audit_event, ingestion_job_cancellation_requested,
  ingestion_job_cancelled, insert_audit,
}
use tech_pulse_ai.Jobs.Ingestion.{
  Job, Refusal, Status, Store, audited, cancelled, conflict, find_job, finish, idempotency_mismatch,
  is_queued, is_terminal, not_found, queued, unauthorized, update_job,
}

unfoldable pub cancel_job : ℕ → Job → Job
unfolding finish is_queued
cancel_job now j = if is_queued j.status then finish cancelled now j else record j {
  cancellation_requested_at = elim j.cancellation_requested_at [
    | none ↦ some now
    | some t ↦ some t
  ];
  updated_at = now;
}

pub cancel_action : Status → Action
cancel_action queued = ingestion_job_cancelled
cancel_action _ = ingestion_job_cancellation_requested

pub cancel_fields : Status → List String
cancel_fields queued = "status" ∷ []
cancel_fields _ = "cancellationRequestedAt" ∷ []

unfoldable pub cancel_found :
    Platform → Actor → String → Request → ℕ → Job → Store → Result Refusal Store
unfolding audited cancel_action cancel_fields create_job_audit_event insert_audit update_job
    cancel_job
cancel_found p actor reason request now j s = do
  throw_if (is_terminal j.status) conflict
  es ← audited (do
    event ←
        create_job_audit_event p.sha256 actor (cancel_action j.status) j.id (cancel_fields j.status)
          reason request now
    insert_audit p event s.audits)
  ok (record s { jobs = update_job j.id (cancel_job now) s.jobs; audits = es })

-- `cancelIngestionJob`; `actor_is_active` is the answer of `assertActorFence`.
unfoldable pub cancel_ingestion_job :
    Platform → Bool → String → Actor → String → Request → ℕ → Store → Result Refusal Store
unfolding cancel_found find_job
cancel_ingestion_job p actor_is_active i actor reason request now s = do
  throw_if (not actor_is_active) unauthorized
  elim (find_job i s.jobs) [
    | none ↦ err not_found
    | some j ↦ cancel_found p actor reason request now j s
  ]

-- `resolveIdempotentJob` of a job that exists.
unfoldable pub resolve_idempotent_job : Job → String → Result Refusal Job
resolve_idempotent_job old hash =
    if str_eq old.request_hash hash then ok old else err idempotency_mismatch

unfoldable pub find_by_key : String → String → List Job → Option Job
find_by_key scope k [] = none
find_by_key scope k (j ∷ js) =
    let rest = find_by_key scope k js in
    if str_eq j.actor_scope scope && str_eq j.idempotency_key k then some j else rest

unfoldable pub create_audited : Platform → Event → Job → Store → Result Refusal (Job × Store)
unfolding insert_audit
create_audited p audit j s = do
  es ← audited (insert_audit p audit s.audits)
  ok (j, record s { jobs = s.jobs ++ j ∷ []; audits = es })

-- `createIngestionJob`; the transaction that another one overtakes finds its job then.
unfoldable pub create_ingestion_job :
    Platform → Bool → Event → Job → Store → Result Refusal (Job × Store)
unfolding find_by_key resolve_idempotent_job create_audited
create_ingestion_job p actor_is_active audit j s = do
  throw_if (not actor_is_active) unauthorized
  elim (find_by_key j.actor_scope j.idempotency_key s.jobs) [
    | none ↦ create_audited p audit j s
    | some old ↦ do found ← resolve_idempotent_job old j.request_hash; ok (found, s)
  ]
