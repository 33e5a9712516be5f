-- ===== src/Jobs/Run/Tests.antt =====
-- The code of the job and lease repositories at a source with a running and a finished job.
use tech_pulse_ai.Prelude.{
  str_eq, List, String, [], arith, err, false, if◌then◌else◌, is_ok, none, not, ok, refl, some,
  true, ◌+◌, ◌||◌, ◌∷◌, ◌≡◌, ◌≤◌, ℕ,
}
use tech_pulse_ai.Jobs.Names.{
  Platform, after_prefix, all_opaque_chars, derive_lease_key, ingestion, is_canonical,
  is_opaque_char, is_opaque_id, key_prefix, resource_of,
}
use tech_pulse_ai.Jobs.Leases.{
  AcquireRequest, Fence, Lease, Owner, acquire, check_acquire, clear_owner, find_lease, holds,
  touch,
}
use tech_pulse_ai.Jobs.Audit.{Event, admin, ingestion_job_created, insert_audit}
use tech_pulse_ai.Jobs.Ingestion.{
  Completion, Counters, Job, Source, Store, audited, claim_queued_with_fence, complete_job,
  complete_with_fence, day_ms, failed, find_job, find_running, idempotency_mismatch, is_queued,
  is_running, is_terminal, lease_fence_stale, policy_holds, queued, running, succeeded,
}
use tech_pulse_ai.Jobs.Ingestion.Recovery.{expired_error, fail_job, has_attempt, recover_lease}
use tech_pulse_ai.Jobs.Ingestion.Queue.{create_audited, create_ingestion_job}
use tech_pulse_ai.Jobs.Ingestion.Retention.{job_ok, jobs_ok}
use tech_pulse_ai.Jobs.Names.Keys.{derive_lease_key-is_canonical}
use tech_pulse_ai.Jobs.Leases.Fences.{all_ok, high_water}
use tech_pulse_ai.Jobs.Leases.Acquire.{acquire-free, acquire-owned, is_free}
use tech_pulse_ai.Jobs.Ingestion.Idempotency.{create_again, create_mismatch, insert_audit_again}
use tech_pulse_ai.Jobs.Ingestion.Purge.{
  due_jobs, insert_by_deadline, is_due, purge_due_ingestion_jobs, purge_keeps, purge_selected,
  sort_by_deadline,
}
use tech_pulse_ai.Jobs.Ingestion.Selection.{
  first_by, is_aged, is_aged_waiting, is_normal_waiting, is_waiting, select_due_ingestion,
  selection_complete, selection_prefers_aged,
}
use tech_pulse_ai.Jobs.Run.Fencing.{superseded_fence_refused}
use tech_pulse_ai.Jobs.Run.Terminal.{finished_job_stays}
use tech_pulse_ai.Jobs.Run.Retained.{retention_two_weeks}
use tech_pulse_ai.Jobs.Run.Outcomes.{completion_finishes, recovery_retries}
use tech_pulse_ai.Jobs.Run.{Call, completes, kept, purges, recovers, run, step}

abbrev platform : Platform
platform = record {
  sha256 = λ s. s;
  decimal = λ n. "2";
  lower_case = λ s. s;
  object_id = λ s. if str_eq s "system:due-work" then none else some s;
}

abbrev lease_key : String
lease_key = "ingestion:source:s1"

abbrev held : Lease
held = record {
  key = lease_key;
  generation_high_water = 4;
  active_owner = some (record {
    owner_token_hash = "token-two";
    job_id = "j1";
    lease_generation = 4;
    acquired_at = 1000;
    heartbeat_at = 1000;
    expires_at = 31000;
  });
  created_at = 0;
  updated_at = 1000;
  last_released_at = none;
  last_fence_validated_at = none;
}

abbrev fence : Fence
fence = record { key = lease_key; owner_token_hash = "token-two"; lease_generation = 4 }

abbrev old_fence : Fence
old_fence = record { key = lease_key; owner_token_hash = "token-one"; lease_generation = 3 }

abbrev zero_counters : Counters
zero_counters = record {
  fetched = 0;
  created = 0;
  updated = 0;
  duplicate = 0;
  skipped = 0;
  failures = 0;
}

abbrev running_job : Job
running_job = record {
  id = "j1";
  idempotency_key = "daily:s1";
  actor_scope = "system-cron";
  request_hash = "h1";
  source_id = "s1";
  connector_type = "rss";
  expected_source_policy_version = 2;
  trigger = "cron";
  requested_by = none;
  parent_job_id = none;
  status = running;
  attempt = 1;
  priority = 25;
  available_at = 0;
  aging_eligible_at = 1800000;
  idempotency_expires_at = 1209600000;
  lease_generation = 4;
  batch_size = 20;
  checkpoint = none;
  counters = zero_counters;
  cancellation_requested_at = none;
  error = none;
  created_at = 0;
  started_at = some 1000;
  heartbeat_at = some 1000;
  finished_at = none;
  purge_after = none;
  updated_at = 1000;
}

abbrev done_job : Job
done_job = record running_job {
  id = "j0";
  idempotency_key = "daily:s0";
  status = succeeded;
  finished_at = some 500;
  purge_after = some 1209600500;
}

abbrev fresh_job : Job
fresh_job = record running_job {
  id = "j2";
  idempotency_key = "daily:s2";
  status = queued;
  lease_generation = 0;
  started_at = none;
  heartbeat_at = none;
}

abbrev feed : Source
feed = record {
  id = "s1";
  policy_version = 2;
  is_active = true;
  license_status = "permitted";
  connector_type = "rss";
  connector_kind = "rss";
}

abbrev store : Store
store = record {
  jobs = running_job ∷ done_job ∷ [];
  leases = held ∷ [];
  audits = [];
  sources = feed ∷ [];
}

abbrev success : Completion
success = record { status = succeeded; error = none; checkpoint = some "page-2"; counters = none }

abbrev owner : Owner
owner = record {
  owner_token_hash = "token-two";
  job_id = "j1";
  lease_generation = 4;
  acquired_at = 1000;
  heartbeat_at = 1000;
  expires_at = 31000;
}

abbrev calls : List Call
calls =
    completes "j1" fence success (some 2000)
    ∷ recovers lease_key owner 40000
    ∷ purges (some 1000000000) 10
    ∷ []

abbrev event : Event
event = record {
  event_id = "job:e1";
  actor_type = admin;
  actor_id = "a1";
  action = ingestion_job_created;
  target_id = "j2";
  changed_fields = "status" ∷ [];
  reason_code = "ingestion_trigger_requested";
  request_id = "r1";
  created_at = 5;
}

abbrev request : AcquireRequest
request = record { key = lease_key; job_id = "j2"; owner_token = "token-three"; lease_ms = 30000 }

derive_lease_key-is_canonical_example :
    (is_canonical lease_key ≡ true)
    × (resource_of lease_key ≡ some ingestion)
    × (after_prefix (key_prefix ingestion) lease_key ≡ some "s1")
unfolding derive_lease_key key_prefix is_opaque_id all_opaque_chars is_opaque_char
derive_lease_key-is_canonical_example = derive_lease_key-is_canonical ingestion "s1" lease_key refl

acquire-free_example :
    (f : Fence) × ((acquire (λ s. s) request (some 5000) []).outcome ≡ ok f)
    × (f.key ≡ lease_key)
    × (f.lease_generation ≡ high_water lease_key [] + 1)
    × (holds (acquire (λ s. s) request (some 5000) []).leases "j2" f 6000 ≡ true)
unfolding check_acquire is_canonical is_free is_opaque_id all_opaque_chars is_opaque_char
acquire-free_example =
    acquire-free (λ s. s) request (some 5000) 5000 6000 [] refl refl (omega arith)

acquire-owned_example :
    ((acquire (λ s. s) request (some 90000) (held ∷ [])).leases ≡ held ∷ [])
    × (is_ok (acquire (λ s. s) request (some 90000) (held ∷ [])).outcome ≡ false)
unfolding is_free
acquire-owned_example = acquire-owned (λ s. s) request (some 90000) (held ∷ []) refl

superseded_fence_refused_example :
    (holds (run platform calls store).leases "j1" old_fence 3000 ≡ false)
    × (claim_queued_with_fence "j1" old_fence (some 3000) (run platform calls store)
        ≡ ok (false, run platform calls store))
    × (complete_with_fence "j1" old_fence success (some 3000) (run platform calls store)
        ≡ err lease_fence_stale)
unfolding all_ok high_water is_terminal find_lease
superseded_fence_refused_example =
    superseded_fence_refused platform calls store "j1" old_fence success 3000 refl (omega arith)
      refl

finished_job_stays_example : find_job "j0" (run platform calls store).jobs ≡ some done_job
unfolding find_job is_terminal is_due
finished_job_stays_example =
    finished_job_stays platform calls store "j0" done_job (tt, (tt, (tt, tt)))
      (tt, (tt, (refl, tt))) refl refl

abbrev completed : Store
completed = record store {
  jobs = complete_job success true 2000 running_job ∷ done_job ∷ [];
  leases = clear_owner 2000 (touch 2000 held) ∷ [];
}

completion_finishes_example :
    (now : ℕ) × (j k : Job) × (some 2000 ≡ some now)
    × (holds store.leases "j1" fence now ≡ true)
    × (find_job "j1" store.jobs ≡ some j)
    × (is_running j.status ≡ true)
    × (j.lease_generation ≡ 4)
    × (find_job "j1" completed.jobs ≡ some k)
    × (k.status ≡ (if policy_holds j store.sources then succeeded else failed))
    × (is_free lease_key completed.leases ≡ true)
unfolding complete_with_fence
completion_finishes_example =
    completion_finishes "j1" fence success (some 2000) store completed refl

abbrev completion : List Call
completion = completes "j1" fence success (some 2000) ∷ []

abbrev early_purge : List Call
early_purge = purges (some 1209601999) 10 ∷ []

retention_two_weeks_example :
    (find_job "j1" (run platform early_purge (run platform completion store)).jobs
      ≡ some (complete_job success true 2000 running_job))
    × (1 ≤ 3)
unfolding jobs_ok job_ok run step complete_with_fence kept complete_job is_terminal day_ms
retention_two_weeks_example =
    retention_two_weeks platform completion early_purge store "j1"
      (complete_job success true 2000 running_job) 2000 (tt, tt) (tt, tt) refl refl refl refl
      (omega arith, tt)

abbrev recovered : Store
recovered = kept store (recover_lease platform lease_key owner 40000 store)

recovery_retries_example :
    (find_job "j1" recovered.jobs ≡ some (fail_job (expired_error true 40000) 40000 running_job))
    × (has_attempt "j1" 2 recovered.jobs ≡ true)
    × (is_free lease_key recovered.leases ≡ true)
unfolding find_running recover_lease kept
recovery_retries_example =
    recovery_retries platform lease_key owner 40000 store recovered running_job refl (omega arith)
      refl

abbrev created : Store
created = record store { jobs = running_job ∷ done_job ∷ fresh_job ∷ []; audits = event ∷ [] }

create_again_example :
    create_ingestion_job platform true event fresh_job created ≡ ok (fresh_job, created)
unfolding create_ingestion_job create_audited audited
create_again_example = create_again platform true event event fresh_job fresh_job store created refl

abbrev changed_job : Job
changed_job = record fresh_job { request_hash = "h2" }

create_mismatch_example :
    create_ingestion_job platform true event changed_job created ≡ err idempotency_mismatch
unfolding create_ingestion_job create_audited audited
create_mismatch_example =
    create_mismatch platform true event event fresh_job changed_job fresh_job store created refl
      refl refl refl

insert_audit_again_example : insert_audit platform event (event ∷ []) ≡ ok (event ∷ [])
unfolding insert_audit
insert_audit_again_example = insert_audit_again platform event [] (event ∷ []) refl

purge_keeps_example :
    (find_job "j1" (purge_selected 1209600500 10 (done_job ∷ []) store.jobs).jobs
      ≡ some running_job)
    × ((purge_selected 1209600500 10 (done_job ∷ []) store.jobs).inspected ≤ 10)
    × (10 ≤ 100)
unfolding find_job is_terminal purge_due_ingestion_jobs due_jobs is_due sort_by_deadline
    insert_by_deadline
purge_keeps_example =
    purge_keeps 1209600500 10 store.jobs (purge_selected 1209600500 10 (done_job ∷ []) store.jobs)
      "j1" running_job refl refl refl

selection_complete_example : is_waiting 5000 ("s9" ∷ []) running_job ≡ false
unfolding select_due_ingestion first_by is_aged_waiting is_normal_waiting is_waiting is_queued
    find_job
selection_complete_example =
    selection_complete 5000 ("s9" ∷ []) store.jobs "j1" running_job refl refl

selection_prefers_aged_example :
    (is_waiting 5000 [] fresh_job ≡ true)
    × (is_aged 5000 fresh_job || not (is_aged_waiting 5000 [] running_job) ≡ true)
unfolding select_due_ingestion first_by is_aged_waiting is_normal_waiting is_waiting is_queued
    is_aged find_job
selection_prefers_aged_example =
    selection_prefers_aged 5000 [] (running_job ∷ fresh_job ∷ []) fresh_job running_job "j1" refl
      refl
