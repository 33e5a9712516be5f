-- ===== src/Jobs/Run/Fencing.antt =====
-- Code: the job and lease repositories of server/repositories/mongo: the generations of leases over
-- sequences of calls.
use mathlib.Core.Path.{subst}
use tech_pulse_ai.Prelude.{
  Bool-cases, List, Option, Result, String, [], arith, err, false, inl, inr, ok, refl, some, sym,
  true, ℕ, ◌<◌, ◌∷◌, ◌≡◌, ◌⊎◌,
}
use tech_pulse_ai.Jobs.Names.{Platform}
use tech_pulse_ai.Jobs.Leases.{
  AcquireRequest, Failure, Fence, Leases, acquire, beat, check_acquire,
  clear_expired_reconciliation, clear_owner, ensure_lease, heartbeat, holds, own, release,
  take_lease, touch, update_lease,
}
use tech_pulse_ai.Jobs.Leases.Fences.{
  Advances, Advances-refl, Advances-trans, all_ok, beat-Advances, clear-Advances, ensure-Advances,
  high_water, holds-high_water, own-Advances, touch-Advances,
}
use tech_pulse_ai.Jobs.Ingestion.{
  Completion, Refusal, Store, claim_queued_with_fence, complete_with_fence, defer_with_fence,
  is_terminal, lease_fence_stale,
}
use tech_pulse_ai.Jobs.Ingestion.Recovery.{finalize_orphaned_attempt, recover_lease, recover_orphan}
use tech_pulse_ai.Jobs.Ingestion.Queue.{cancel_ingestion_job, create_ingestion_job}
use tech_pulse_ai.Jobs.Ingestion.Purge.{Purge, purge_due_ingestion_jobs}
use tech_pulse_ai.Jobs.Run.{
  Call, acquires, cancels, claims, clears, completes, creates, defers, finalizes, heartbeats, kept,
  kept_leases, kept_purge, kept_second, purges, recovers, releases, run, step, sweeps,
}
use tech_pulse_ai.Jobs.Run.Effects.{
  cancel_ingestion_job-leases, claim-leases, clear-leases, complete-leases,
  create_ingestion_job-leases, defer-leases, finalize-leases, heartbeat-leases,
  recover_lease-leases, recover_orphan-leases, release-leases,
}

Advances-by : (ls ms ns : Leases) → ms ≡ ns → Advances ls ns → Advances ls ms
Advances-by ls ms ns e a = subst (λ x. Advances ls x) (sym e) a

clear_touched :
    (k : String) (now : ℕ) (ls ms : Leases)
    → ms ≡ update_lease k (clear_owner now) (update_lease k (touch now) ls)
    → Advances ls ms
clear_touched k now ls ms e =
    Advances-by ls ms (update_lease k (clear_owner now) (update_lease k (touch now) ls)) e (
      Advances-trans ls (update_lease k (touch now) ls)
        (update_lease k (clear_owner now) (update_lease k (touch now) ls)) (touch-Advances k now ls)
        (clear-Advances k now (update_lease k (touch now) ls)))

take_lease-leases :
    (k job hash : String) (now ms : ℕ) (ls : Leases)
    → ((take_lease k job hash now ms ls).leases ≡ ls)
      ⊎ ((take_lease k job hash now ms ls).leases ≡ update_lease k (own job hash now ms) ls)
unfolding take_lease
take_lease-leases k job hash now ms ls = ground arith

take_lease-Advances :
    (k job hash : String) (now ms : ℕ) (ls : Leases)
    → Advances ls (take_lease k job hash now ms ls).leases
take_lease-Advances k job hash now ms ls = elim (take_lease-leases k job hash now ms ls) [
  | inl e ↦ Advances-by ls (take_lease k job hash now ms ls).leases ls e (Advances-refl ls)
  | inr e ↦
      Advances-by ls (take_lease k job hash now ms ls).leases
        (update_lease k (own job hash now ms) ls) e (own-Advances k job hash now ms ls)
]

acquire-leases :
    (sha256 : String → String) (r : AcquireRequest) (clock : Option ℕ) (ls : Leases)
    → ((acquire sha256 r clock ls).leases ≡ ls)
      ⊎ ((now : ℕ) × ((acquire sha256 r clock ls).leases
            ≡ (take_lease r.key r.job_id
                (sha256 r.owner_token)
                now
                r.lease_ms
                (ensure_lease r.key now ls)).leases))
unfolding acquire
acquire-leases sha256 r clock ls = go (check_acquire r clock) refl
  where
    go :
        (c : Result tech_pulse_ai.Jobs.Leases.Failure ℕ)
        → check_acquire r clock ≡ c
        → ((acquire sha256 r clock ls).leases ≡ ls)
          ⊎ ((now : ℕ) × ((acquire sha256 r clock ls).leases
                ≡ (take_lease r.key r.job_id
                    (sha256 r.owner_token)
                    now
                    r.lease_ms
                    (ensure_lease r.key now ls)).leases))
    go (err e) c = inl (ground arith)
    go (ok now) c = inr (now, ground arith)

acquire-Advances :
    (sha256 : String → String) (r : AcquireRequest) (clock : Option ℕ) (ls : Leases)
    → Advances ls (acquire sha256 r clock ls).leases
acquire-Advances sha256 r clock ls = elim (acquire-leases sha256 r clock ls) [
  | inl e ↦ Advances-by ls (acquire sha256 r clock ls).leases ls e (Advances-refl ls)
  | inr (now, e) ↦
      let ms = ensure_lease r.key now ls in
      let ns = (take_lease r.key r.job_id (sha256 r.owner_token) now r.lease_ms ms).leases in
      Advances-by ls (acquire sha256 r clock ls).leases ns e (
        Advances-trans ls ms ns (ensure-Advances r.key now ls)
          (take_lease-Advances r.key r.job_id (sha256 r.owner_token) now r.lease_ms ms))
]

kept-Advances :
    (s : Store) (r : Result Refusal Store)
    → ((t : Store) → r ≡ ok t → Advances s.leases t.leases)
    → Advances s.leases (kept s r).leases
unfolding kept
kept-Advances s (ok t) h = h t refl
kept-Advances s (err e) h = Advances-refl s.leases

kept_second-Advances :
    {A : Type 0} (s : Store) (r : Result Refusal (A × Store))
    → ((a : A) (t : Store) → r ≡ ok (a, t) → Advances s.leases t.leases)
    → Advances s.leases (kept_second s r).leases
unfolding kept_second
kept_second-Advances s (ok (a, t)) h = h a t refl
kept_second-Advances s (err e) h = Advances-refl s.leases

kept_leases-Advances :
    {A : Type 0} (s : Store) (r : Result tech_pulse_ai.Jobs.Leases.Failure (A × Leases))
    → ((a : A) (ls : Leases) → r ≡ ok (a, ls) → Advances s.leases ls)
    → Advances s.leases (kept_leases s r).leases
unfolding kept_leases
kept_leases-Advances s (ok (a, ls)) h = h a ls refl
kept_leases-Advances s (err e) h = Advances-refl s.leases

kept_purge-Advances :
    (s : Store) (r : Result Refusal Purge) → Advances s.leases (kept_purge s r).leases
unfolding kept_purge
kept_purge-Advances s (ok r) = Advances-refl s.leases
kept_purge-Advances s (err e) = Advances-refl s.leases

same-Advances : (ls ms : Leases) → ms ≡ ls → Advances ls ms
same-Advances ls ms e = Advances-by ls ms ls e (Advances-refl ls)

step-Advances : (p : Platform) (c : Call) (s : Store) → Advances s.leases (step p c s).leases
unfolding step
step-Advances p (acquires r clock) s = acquire-Advances p.sha256 r clock s.leases
step-Advances p (heartbeats i f ms clock) s =
    kept_leases-Advances s (heartbeat i f ms clock s.leases) λ b ls e.
      let (now, _, w) = heartbeat-leases i f ms clock s.leases ls b e in
      elim w [
        | inl q ↦ same-Advances s.leases ls q
        | inr q ↦
            Advances-by s.leases ls (update_lease f.key (beat now ms) s.leases) q
              (beat-Advances f.key now ms s.leases)
      ]
step-Advances p (releases i f clock) s =
    kept_leases-Advances s (release i f clock s.leases) λ b ls e.
      let (now, _, w) = release-leases i f clock s.leases ls b e in
      elim w [
        | inl q ↦ same-Advances s.leases ls q
        | inr q ↦
            Advances-by s.leases ls (update_lease f.key (clear_owner now) s.leases) q
              (clear-Advances f.key now s.leases)
      ]
step-Advances p (claims i f clock) s =
    kept_second-Advances s (claim_queued_with_fence i f clock s) λ b t e.
      let (now, _, w) = claim-leases i f clock s t b e in
      elim w [
        | inl q ↦ same-Advances s.leases t.leases q
        | inr q ↦
            Advances-by s.leases t.leases (update_lease f.key (touch now) s.leases) q
              (touch-Advances f.key now s.leases)
      ]
step-Advances p (completes i f c clock) s =
    kept-Advances s (complete_with_fence i f c clock s) λ t e.
      let (now, _, w) = complete-leases i f c clock s t e in
      clear_touched f.key now s.leases t.leases w
step-Advances p (defers i f ms clock) s = kept-Advances s (defer_with_fence i f ms clock s) λ t e.
    let (now, _, w) = defer-leases i f ms clock s t e in clear_touched f.key now s.leases t.leases w
step-Advances p (finalizes i f r clock) s =
    kept_second-Advances s (finalize_orphaned_attempt p i f r clock s) λ b t e.
      let (now, _, w) = finalize-leases p i f r clock s t b e in
      elim w [
        | inl q ↦ same-Advances s.leases t.leases q
        | inr (inl q) ↦
            Advances-by s.leases t.leases (update_lease f.key (clear_owner now) s.leases) q
              (clear-Advances f.key now s.leases)
        | inr (inr q) ↦
            Advances-by s.leases t.leases (update_lease f.key (touch now) s.leases) q
              (touch-Advances f.key now s.leases)
      ]
step-Advances p (recovers k o now) s = kept-Advances s (recover_lease p k o now s) λ t e.
    Advances-by s.leases t.leases (update_lease k (clear_owner now) s.leases)
      (recover_lease-leases p k o now s t e) (clear-Advances k now s.leases)
step-Advances p (sweeps i generation now) s =
    kept-Advances s (recover_orphan p i generation now s)
      λ t e. same-Advances s.leases t.leases (recover_orphan-leases p i generation now s t e)
step-Advances p (cancels active i actor reason request now) s =
    kept-Advances s (cancel_ingestion_job p active i actor reason request now s) λ t e.
      same-Advances s.leases t.leases
        (cancel_ingestion_job-leases p active i actor reason request now s t e)
step-Advances p (creates active audit j) s =
    kept_second-Advances s (create_ingestion_job p active audit j s) λ found t e.
      same-Advances s.leases t.leases (create_ingestion_job-leases p active audit j found s t e)
step-Advances p (purges cutoff limit) s =
    kept_purge-Advances s (purge_due_ingestion_jobs cutoff limit s.jobs)
step-Advances p (clears k clock) s =
    kept_leases-Advances s (clear_expired_reconciliation k clock s.leases) λ b ls e.
      let (now, _, w) = clear-leases k clock s.leases ls b e in
      elim w [
        | inl q ↦ same-Advances s.leases ls q
        | inr q ↦
            Advances-by s.leases ls (update_lease k (clear_owner now) s.leases) q
              (clear-Advances k now s.leases)
      ]

pub run-Advances :
    (p : Platform) (cs : List Call) (s : Store) → Advances s.leases (run p cs s).leases
unfolding run
run-Advances p [] s = Advances-refl s.leases
run-Advances p (c ∷ cs) s =
    Advances-trans s.leases (step p c s).leases (run p cs (step p c s)).leases (step-Advances p c s)
      (run-Advances p cs (step p c s))

-- From a store where each owner of a lease has the generation given last: once a lease has given a
-- newer generation, the older fence is dead in every store that follows, whatever calls arrive and
-- whatever the time. It does not hold the lease, it claims no job, and no completion with a final
-- status gets through.
pub superseded_fence_refused :
    (p : Platform) (cs : List Call) (s : Store) (i : String) (f : Fence) (c : Completion) (now : ℕ)
    → all_ok s.leases ≡ true
    → f.lease_generation < high_water f.key s.leases
    → is_terminal c.status ≡ true
    → (holds (run p cs s).leases i f now ≡ false)
      × (claim_queued_with_fence i f (some now) (run p cs s) ≡ ok (false, run p cs s))
      × (complete_with_fence i f c (some now) (run p cs s) ≡ err lease_fence_stale)
unfolding claim_queued_with_fence complete_with_fence
superseded_fence_refused p cs s i f c now a h d =
    let t = run p cs s in
    let (w, k) = run-Advances p cs s in
    let lost : holds t.leases i f now ≡ false = elim (Bool-cases (holds t.leases i f now)) [
      | inl y ↦ ground (arith, holds-high_water t.leases i f now (k a) y, w f.key)
      | inr y ↦ y
    ] in
    (lost, ground (arith, lost), ground (arith, lost))
