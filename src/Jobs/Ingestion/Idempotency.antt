-- ===== src/Jobs/Ingestion/Idempotency.antt =====
-- Code: createIngestionJob and insertAudit of server/repositories/mongo/job-repository.js: requests
-- that are repeated.
use tech_pulse_ai.Jobs.Names.{Platform}
use tech_pulse_ai.Prelude.{
  Result, Bool, List, Option-cases, String, [], arith, eq_refl, err, false, inl, inr, none, ok,
  refl, some, str_eq, true, ◌&&◌, ◌++◌, ◌∷◌, ◌≡◌,
}
use tech_pulse_ai.Jobs.Audit.{
  Event, Failure, action_name, find_event, insert_audit, job_audit_document, role_name, same_event,
  same_fields,
}
use tech_pulse_ai.Jobs.Ingestion.{Job, Store, idempotency_mismatch}
use tech_pulse_ai.Jobs.Ingestion.Queue.{
  create_audited, create_ingestion_job, find_by_key, resolve_idempotent_job,
}

find_by_key-append :
    (scope k : String) (js : List Job) (j : Job)
    → find_by_key scope k js ≡ none
    → str_eq j.actor_scope scope && str_eq j.idempotency_key k ≡ true
    → find_by_key scope k (js ++ j ∷ []) ≡ some j
unfolding find_by_key
find_by_key-append scope k [] j n h = ground arith
find_by_key-append scope k (x ∷ js) j n h = ground (arith, find_by_key-append scope k js j)

create-parts :
    (p : Platform) (active : Bool) (audit : Event) (j found : Job) (s t : Store)
    → create_ingestion_job p active audit j s ≡ ok (found, t)
    → (active ≡ true)
      × (find_by_key j.actor_scope j.idempotency_key t.jobs ≡ some found)
      × (str_eq found.request_hash j.request_hash ≡ true)
unfolding create_ingestion_job create_audited resolve_idempotent_job
create-parts p active audit j found s t e =
    elim (Option-cases (find_by_key j.actor_scope j.idempotency_key s.jobs)) [
      | inl n ↦ ground (
        arith,
        find_by_key-append j.actor_scope j.idempotency_key s.jobs j n,
        eq_refl j.actor_scope,
        eq_refl j.idempotency_key,
        eq_refl j.request_hash,
      )
      | inr (old, n) ↦ ground arith
    ]

-- A creation that is repeated, by the same actor with the same key for the same request, gives the
-- job of the first one and changes nothing, whatever audit event comes with it.
pub create_again :
    (p : Platform) (active : Bool) (audit again : Event) (j found : Job) (s t : Store)
    → create_ingestion_job p active audit j s ≡ ok (found, t)
    → create_ingestion_job p active again j t ≡ ok (found, t)
unfolding create_ingestion_job resolve_idempotent_job
create_again p active audit again j found s t e =
    let (a, k, h) = create-parts p active audit j found s t e in ground (arith, k, h, a)

-- The same key of the same actor with another request is refused.
pub create_mismatch :
    (p : Platform) (active : Bool) (audit again : Event) (j other_job found : Job) (s t : Store)
    → create_ingestion_job p active audit j s ≡ ok (found, t)
    → other_job.actor_scope ≡ j.actor_scope
    → other_job.idempotency_key ≡ j.idempotency_key
    → str_eq found.request_hash other_job.request_hash ≡ false
    → create_ingestion_job p active again other_job t ≡ err idempotency_mismatch
unfolding create_ingestion_job resolve_idempotent_job
create_mismatch p active audit again j other_job found s t e same_scope same_key n =
    let (a, k, h) = create-parts p active audit j found s t e in
    ground (arith, k, n, a, same_scope, same_key)

same_fields_refl : (xs : List String) → same_fields xs xs ≡ true
unfolding same_fields
same_fields_refl [] = refl
same_fields_refl (x ∷ xs) = ground (arith, same_fields_refl xs, eq_refl x)

same_event_refl : (e : Event) → same_event e e ≡ true
unfolding same_event
same_event_refl e = ground (
  arith,
  eq_refl e.event_id,
  eq_refl (role_name e.actor_type),
  eq_refl e.actor_id,
  eq_refl (action_name e.action),
  eq_refl e.target_id,
  same_fields_refl e.changed_fields,
  eq_refl e.reason_code,
  eq_refl e.request_id,
)

-- An audit event that was written is accepted again and written once.
pub insert_audit_again :
    (p : Platform) (e : Event) (es fs : List Event)
    → insert_audit p e es ≡ ok fs
    → insert_audit p e fs ≡ ok fs
unfolding insert_audit find_event
insert_audit_again p e es fs h = go (job_audit_document p e) refl
  where
    go : (r : Result Failure Event) → job_audit_document p e ≡ r → insert_audit p e fs ≡ ok fs
    go (err x) w = ground (arith, w, h)
    go (ok safe) w = elim (Option-cases (find_event safe.event_id es)) [
      | inl n ↦ ground (arith, w, h, same_event_refl safe, eq_refl safe.event_id)
      | inr (old, n) ↦ ground (arith, w, h)
    ]
