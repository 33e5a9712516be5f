-- ===== src/Jobs/Run/Effects.antt =====
-- Code: the job and lease repositories of server/repositories/mongo: what they write to leases.
use tech_pulse_ai.Prelude.{
  Bool, Option, Option-cases, Result, String, arith, err, false, inl, inr, none, ok, refl, some,
  true, ℕ, ◌≡◌, ◌⊎◌,
}
use tech_pulse_ai.Jobs.Names.{Platform}
use tech_pulse_ai.Jobs.Leases.{
  Fence, Lease, Leases, Owner, beat, clear_expired_reconciliation, clear_owner, heartbeat, release,
  touch, update_lease,
}
use tech_pulse_ai.Jobs.Audit.{Actor, Event, Request}
use tech_pulse_ai.Jobs.Ingestion.{
  Completion, Job, Refusal, Store, claim_queued_with_fence, complete_with_fence, defer_with_fence,
  find_job, find_running,
}
use tech_pulse_ai.Jobs.Ingestion.Recovery.{
  Report, fail_orphan, finalize_orphaned_attempt, finalize_with, recover_jobs, recover_lease,
  recover_orphan, recover_parent,
}
use tech_pulse_ai.Jobs.Ingestion.Queue.{
  cancel_found, cancel_ingestion_job, create_audited, create_ingestion_job,
}

pub heartbeat-leases :
    (i : String) (f : Fence) (ms : ℕ) (clock : Option ℕ) (ls ns : Leases) (b : Bool)
    → heartbeat i f ms clock ls ≡ ok (b, ns)
    → (now : ℕ) × (clock ≡ some now) × ((ns ≡ ls) ⊎ (ns ≡ update_lease f.key (beat now ms) ls))
unfolding heartbeat
heartbeat-leases i f ms clock ls ns b e = ground arith

pub release-leases :
    (i : String) (f : Fence) (clock : Option ℕ) (ls ns : Leases) (b : Bool)
    → release i f clock ls ≡ ok (b, ns)
    → (now : ℕ) × (clock ≡ some now) × ((ns ≡ ls) ⊎ (ns ≡ update_lease f.key (clear_owner now) ls))
unfolding release
release-leases i f clock ls ns b e = ground arith

pub clear-leases :
    (k : String) (clock : Option ℕ) (ls ns : Leases) (b : Bool)
    → clear_expired_reconciliation k clock ls ≡ ok (b, ns)
    → (now : ℕ) × (clock ≡ some now) × ((ns ≡ ls) ⊎ (ns ≡ update_lease k (clear_owner now) ls))
unfolding clear_expired_reconciliation
clear-leases k clock ls ns b e = ground arith

pub claim-leases :
    (i : String) (f : Fence) (clock : Option ℕ) (s t : Store) (b : Bool)
    → claim_queued_with_fence i f clock s ≡ ok (b, t)
    → (now : ℕ) × (clock ≡ some now)
      × ((t.leases ≡ s.leases) ⊎ (t.leases ≡ update_lease f.key (touch now) s.leases))
unfolding claim_queued_with_fence
claim-leases i f clock s t b e = ground arith

pub complete-leases :
    (i : String) (f : Fence) (c : Completion) (clock : Option ℕ) (s t : Store)
    → complete_with_fence i f c clock s ≡ ok t
    → (now : ℕ) × (clock ≡ some now)
      × (t.leases ≡ update_lease f.key (clear_owner now) (update_lease f.key (touch now) s.leases))
unfolding complete_with_fence
complete-leases i f c clock s t e = ground arith

pub defer-leases :
    (i : String) (f : Fence) (ms : ℕ) (clock : Option ℕ) (s t : Store)
    → defer_with_fence i f ms clock s ≡ ok t
    → (now : ℕ) × (clock ≡ some now)
      × (t.leases ≡ update_lease f.key (clear_owner now) (update_lease f.key (touch now) s.leases))
unfolding defer_with_fence
defer-leases i f ms clock s t e = ground arith

pub finalize_with-leases :
    (p : Platform) (owned : Bool) (mark : Lease → Lease) (f : Fence) (r : Report) (now : ℕ)
    (j : Job) (s t : Store) (b : Bool)
    → finalize_with p owned mark f r now j s ≡ ok (b, t)
    → t.leases ≡ update_lease f.key mark s.leases
unfolding finalize_with
finalize_with-leases p owned mark f r now j s t b e = ground arith

pub recover_jobs-leases :
    (p : Platform) (now : ℕ) (j : Job) (s t : Store)
    → recover_jobs p now j s ≡ ok t
    → t.leases ≡ s.leases
unfolding recover_jobs
recover_jobs-leases p now j s t e = ground arith

pub recover_parent-leases :
    (p : Platform) (o : Owner) (now : ℕ) (s t : Store)
    → recover_parent p o now s ≡ ok t
    → t.leases ≡ s.leases
unfolding recover_parent
recover_parent-leases p o now s t e =
    elim (Option-cases (find_running o.job_id o.lease_generation s.jobs)) [
      | inl n ↦ ground arith
      | inr (j, n) ↦ ground (arith, recover_jobs-leases p now j s t)
    ]

pub recover_lease-leases :
    (p : Platform) (k : String) (o : Owner) (now : ℕ) (s t : Store)
    → recover_lease p k o now s ≡ ok t
    → t.leases ≡ update_lease k (clear_owner now) s.leases
unfolding recover_lease
recover_lease-leases p k o now s t e = go (recover_parent p o now s) refl
  where
    go :
        (r : Result Refusal Store)
        → recover_parent p o now s ≡ r
        → t.leases ≡ update_lease k (clear_owner now) s.leases
    go (err x) h = ground arith
    go (ok u) h = ground (arith, recover_parent-leases p o now s u h)

pub fail_orphan-leases :
    (p : Platform) (now : ℕ) (j : Job) (s t : Store)
    → fail_orphan p now j s ≡ ok t
    → t.leases ≡ s.leases
unfolding fail_orphan
fail_orphan-leases p now j s t e = ground arith

pub recover_orphan-leases :
    (p : Platform) (i : String) (generation now : ℕ) (s t : Store)
    → recover_orphan p i generation now s ≡ ok t
    → t.leases ≡ s.leases
unfolding recover_orphan
recover_orphan-leases p i generation now s t e =
    elim (Option-cases (find_running i generation s.jobs)) [
      | inl n ↦ ground arith
      | inr (j, n) ↦ ground (arith, fail_orphan-leases p now j s t)
    ]

pub cancel_found-leases :
    (p : Platform) (actor : Actor) (reason : String) (request : Request) (now : ℕ) (j : Job)
    (s t : Store)
    → cancel_found p actor reason request now j s ≡ ok t
    → t.leases ≡ s.leases
unfolding cancel_found
cancel_found-leases p actor reason request now j s t e = ground arith

pub cancel_ingestion_job-leases :
    (p : Platform) (active : Bool) (i : String) (actor : Actor) (reason : String)
    (request : Request) (now : ℕ) (s t : Store)
    → cancel_ingestion_job p active i actor reason request now s ≡ ok t
    → t.leases ≡ s.leases
unfolding cancel_ingestion_job
cancel_ingestion_job-leases p active i actor reason request now s t e =
    elim (Option-cases (find_job i s.jobs)) [
      | inl n ↦ ground arith
      | inr (j, n) ↦ ground (arith, cancel_found-leases p actor reason request now j s t)
    ]

pub create_ingestion_job-leases :
    (p : Platform) (active : Bool) (audit : Event) (j found : Job) (s t : Store)
    → create_ingestion_job p active audit j s ≡ ok (found, t)
    → t.leases ≡ s.leases
unfolding create_ingestion_job create_audited
create_ingestion_job-leases p active audit j found s t e = ground arith

pub finalize-leases :
    (p : Platform) (i : String) (f : Fence) (r : Report) (clock : Option ℕ) (s t : Store) (b : Bool)
    → finalize_orphaned_attempt p i f r clock s ≡ ok (b, t)
    → (now : ℕ) × (clock ≡ some now)
      × ((t.leases ≡ s.leases)
          ⊎ ((t.leases ≡ update_lease f.key (clear_owner now) s.leases)
              ⊎ (t.leases ≡ update_lease f.key (touch now) s.leases)))
unfolding finalize_orphaned_attempt
finalize-leases p i f r none s t b e = ground arith
finalize-leases p i f r (some now) s t b e =
    elim (Option-cases (find_running i f.lease_generation s.jobs)) [
      | inl n ↦ (now, refl, ground arith)
      | inr (j, n) ↦ (
        now,
        refl,
        ground (
          arith,
          finalize_with-leases p true (clear_owner now) f r now j s t b,
          finalize_with-leases p false (touch now) f r now j s t b,
        ),
      )
    ]
