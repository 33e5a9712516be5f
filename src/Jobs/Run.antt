-- ===== src/Jobs/Run.antt =====
-- Code: server/repositories/mongo/job-repository.js and lease-repository.js: sequences of the calls
-- that write to the jobs and the leases, one transaction after another. Of the calls that create a job,
-- `createIngestionJob` stands here; the other creations have no constructor.
mod Effects
mod Changes
mod JobSteps
pub mod Fencing
pub mod Terminal
pub mod Retained
pub mod Outcomes
mod Tests
use tech_pulse_ai.Prelude.{Bool, List, Option, Result, String, [], err, ok, ℕ, ◌∷◌}
use tech_pulse_ai.Jobs.Names.{Platform}
use tech_pulse_ai.Jobs.Leases.{
  AcquireRequest, Fence, Leases, Owner, acquire, clear_expired_reconciliation, heartbeat, release,
}
use tech_pulse_ai.Jobs.Audit.{Actor, Event, Request}
use tech_pulse_ai.Jobs.Ingestion.{
  Completion, Job, Store, claim_queued_with_fence, complete_with_fence, defer_with_fence,
}
use tech_pulse_ai.Jobs.Ingestion.Recovery.{
  Report, finalize_orphaned_attempt, recover_lease, recover_orphan,
}
use tech_pulse_ai.Jobs.Ingestion.Queue.{cancel_ingestion_job, create_ingestion_job}
use tech_pulse_ai.Jobs.Ingestion.Purge.{Purge, purge_due_ingestion_jobs}

pub data Call : Type 0 where
  acquires : AcquireRequest → Option ℕ → Call
  heartbeats : String → Fence → ℕ → Option ℕ → Call
  releases : String → Fence → Option ℕ → Call
  claims : String → Fence → Option ℕ → Call
  completes : String → Fence → Completion → Option ℕ → Call
  defers : String → Fence → ℕ → Option ℕ → Call
  finalizes : String → Fence → Report → Option ℕ → Call
  recovers : String → Owner → ℕ → Call
  sweeps : String → ℕ → ℕ → Call
  cancels : Bool → String → Actor → String → Request → ℕ → Call
  creates : Bool → Event → Job → Call
  purges : Option ℕ → ℕ → Call
  clears : String → Option ℕ → Call

-- What stays stored: the new store of a call that returns, the old one of a call that throws.
unfoldable pub kept {ℓ} : {E : Type ℓ} → Store → Result E Store → Store
kept s (ok t) = t
kept s (err e) = s

unfoldable pub kept_second {ℓ κ} : {E : Type ℓ} {A : Type κ} → Store → Result E (A × Store) → Store
kept_second s (ok (a, t)) = t
kept_second s (err e) = s

unfoldable pub kept_leases {ℓ κ} : {E : Type ℓ} {A : Type κ} → Store → Result E (A × Leases) → Store
kept_leases s (ok (a, ls)) = record s { leases = ls }
kept_leases s (err e) = s

unfoldable pub kept_purge {ℓ} : {E : Type ℓ} → Store → Result E Purge → Store
kept_purge s (ok r) = record s { jobs = r.jobs }
kept_purge s (err e) = s

unfoldable pub step : Platform → Call → Store → Store
unfolding kept kept_second kept_leases kept_purge
step p (acquires r clock) s = record s { leases = (acquire p.sha256 r clock s.leases).leases }
step p (heartbeats i f ms clock) s = kept_leases s (heartbeat i f ms clock s.leases)
step p (releases i f clock) s = kept_leases s (release i f clock s.leases)
step p (claims i f clock) s = kept_second s (claim_queued_with_fence i f clock s)
step p (completes i f c clock) s = kept s (complete_with_fence i f c clock s)
step p (defers i f ms clock) s = kept s (defer_with_fence i f ms clock s)
step p (finalizes i f r clock) s = kept_second s (finalize_orphaned_attempt p i f r clock s)
step p (recovers k o now) s = kept s (recover_lease p k o now s)
step p (sweeps i generation now) s = kept s (recover_orphan p i generation now s)
step p (cancels active i actor reason request now) s =
    kept s (cancel_ingestion_job p active i actor reason request now s)
step p (creates active audit j) s = kept_second s (create_ingestion_job p active audit j s)
step p (purges cutoff limit) s = kept_purge s (purge_due_ingestion_jobs cutoff limit s.jobs)
step p (clears k clock) s = kept_leases s (clear_expired_reconciliation k clock s.leases)

unfoldable pub run : Platform → List Call → Store → Store
unfolding step
run p [] s = s
run p (c ∷ cs) s = run p cs (step p c s)
