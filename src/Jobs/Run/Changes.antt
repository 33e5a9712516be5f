-- ===== src/Jobs/Run/Changes.antt =====
-- Code: server/repositories/mongo/job-repository.js: what fenced writes do to the jobs.
use tech_pulse_ai.Prelude.{
  Bool, Bool-cases, List, Option, Option-cases, String, [], ap, arith, eq_iff, false, inl, inr,
  none, ok, refl, some, true, ℕ, ◌∙◌, ◌∷◌, ◌≡◌, ◌⊎◌,
}
use tech_pulse_ai.Jobs.Leases.{Fence, holds}
use tech_pulse_ai.Jobs.Ingestion.{
  Completion, Job, Store, claim_queued_with_fence, complete_job, complete_with_fence, defer_job,
  defer_with_fence, find_job, find_running, is_claimable, is_queued, is_running, is_terminal,
  policy_holds, start_job, update_job,
}
use tech_pulse_ai.Jobs.Ingestion.Retention.{
  Evolves, IsSafe, complete_job-IsSafe, defer_job-IsSafe, Evolves-by, Evolves-refl, Evolves-trans,
  start_job-IsSafe, update_job-Evolves,
}

pub find_running-parts :
    (i : String) (g : ℕ) (js : List Job) (j : Job)
    → find_running i g js ≡ some j
    → (find_job i js ≡ some j) × (is_terminal j.status ≡ false) × (j.lease_generation ≡ g)
unfolding find_running is_terminal is_running
find_running-parts i g js j e = elim (Option-cases (find_job i js)) [
  | inl n ↦ ground arith
  | inr (k, n) ↦ ground arith
]

pub find_running-is_running :
    (i : String) (g : ℕ) (js : List Job) (j : Job)
    → find_running i g js ≡ some j
    → is_running j.status ≡ true
unfolding find_running
find_running-is_running i g js j e = elim (Option-cases (find_job i js)) [
  | inl n ↦ ground arith
  | inr (k, n) ↦ ground arith
]

running_update :
    (i : String) (g : ℕ) (f : Job → Job) (js ks : List Job) (j : Job)
    → IsSafe f
    → find_running i g js ≡ some j
    → ks ≡ update_job i f js
    → Evolves js ks
running_update i g f js ks j r e w =
    let (found, live, _) = find_running-parts i g js j e in
    Evolves-by js (update_job i f js) ks w (update_job-Evolves i f js j r found live)

claim-jobs :
    (i : String) (f : Fence) (clock : Option ℕ) (s t : Store) (b : Bool)
    → claim_queued_with_fence i f clock s ≡ ok (b, t)
    → (t.jobs ≡ s.jobs)
      ⊎ ((now : ℕ) × (clock ≡ some now)
          × (is_claimable i now s.jobs ≡ true)
          × (t.jobs ≡ update_job i (start_job f.lease_generation now) s.jobs))
unfolding claim_queued_with_fence
claim-jobs i f none s t b e = ground arith
claim-jobs i f (some now) s t b e = elim (Bool-cases (holds s.leases i f now)) [
  | inl h ↦ elim (Bool-cases (is_claimable i now s.jobs)) [
    | inl g ↦ inr (now, refl, g, ground arith)
    | inr g ↦ ground arith
  ]
  | inr h ↦ inl (ground arith)
]

claimable_live :
    (i : String) (now : ℕ) (js : List Job)
    → is_claimable i now js ≡ true
    → (j : Job) × (find_job i js ≡ some j) × (is_terminal j.status ≡ false)
unfolding is_claimable is_terminal is_queued
claimable_live i now js h = elim (Option-cases (find_job i js)) [
  | inl n ↦ ground arith
  | inr (j, n) ↦ (j, n, ground arith)
]

pub claim-Evolves :
    (i : String) (f : Fence) (clock : Option ℕ) (s t : Store) (b : Bool)
    → claim_queued_with_fence i f clock s ≡ ok (b, t)
    → Evolves s.jobs t.jobs
claim-Evolves i f clock s t b e = elim (claim-jobs i f clock s t b e) [
  | inl w ↦ Evolves-by s.jobs s.jobs t.jobs w (Evolves-refl s.jobs)
  | inr (now, _, g, w) ↦
      let (j, found, live) = claimable_live i now s.jobs g in
      let start = start_job f.lease_generation now in
      Evolves-by s.jobs (update_job i start s.jobs) t.jobs w
        (update_job-Evolves i start s.jobs j (start_job-IsSafe f.lease_generation now) found live)
]

pub complete-parts :
    (i : String) (f : Fence) (c : Completion) (clock : Option ℕ) (s t : Store)
    → complete_with_fence i f c clock s ≡ ok t
    → (now : ℕ) × (j : Job) × (clock ≡ some now)
      × (find_running i f.lease_generation s.jobs ≡ some j)
      × (holds s.leases i f now ≡ true)
      × (t.jobs ≡ update_job i (complete_job c (policy_holds j s.sources) now) s.jobs)
unfolding complete_with_fence
complete-parts i f c clock s t e = ground arith

pub complete-Evolves :
    (i : String) (f : Fence) (c : Completion) (clock : Option ℕ) (s t : Store)
    → complete_with_fence i f c clock s ≡ ok t
    → Evolves s.jobs t.jobs
complete-Evolves i f c clock s t e =
    let (now, j, _, found, _, w) = complete-parts i f c clock s t e in
    running_update i f.lease_generation (complete_job c (policy_holds j s.sources) now) s.jobs
      t.jobs j (complete_job-IsSafe c (policy_holds j s.sources) now) found w

defer-parts :
    (i : String) (f : Fence) (ms : ℕ) (clock : Option ℕ) (s t : Store)
    → defer_with_fence i f ms clock s ≡ ok t
    → (now : ℕ) × (j : Job) × (clock ≡ some now)
      × (find_running i f.lease_generation s.jobs ≡ some j)
      × (t.jobs ≡ update_job i (defer_job ms now) s.jobs)
unfolding defer_with_fence
defer-parts i f ms clock s t e = ground arith

pub defer-Evolves :
    (i : String) (f : Fence) (ms : ℕ) (clock : Option ℕ) (s t : Store)
    → defer_with_fence i f ms clock s ≡ ok t
    → Evolves s.jobs t.jobs
defer-Evolves i f ms clock s t e =
    let (now, j, _, found, w) = defer-parts i f ms clock s t e in
    running_update i f.lease_generation (defer_job ms now) s.jobs t.jobs j (defer_job-IsSafe ms now)
      found w

pub find_job-id : (i : String) (js : List Job) (j : Job) → find_job i js ≡ some j → j.id ≡ i
unfolding find_job
find_job-id i [] j e = ground arith
find_job-id i (k ∷ js) j e = ground (arith, find_job-id i js j, eq_iff k.id i)

pub found_update :
    (i : String) (f : Job → Job) (js ks : List Job) (j : Job)
    → IsSafe f
    → find_job i js ≡ some j
    → is_terminal j.status ≡ false
    → ks ≡ update_job j.id f js
    → Evolves js ks
found_update i f js ks j r found live w =
    let same : update_job j.id f js ≡ update_job i f js =
      ap (λ x. update_job x f js) (find_job-id i js j found) in
    Evolves-by js (update_job i f js) ks (w ∙ same) (update_job-Evolves i f js j r found live)

-- A running job that is ended, with or without a retry.
pub ended_then :
    (i : String) (g : ℕ) (f : Job → Job) (js ks : List Job) (j : Job)
    → IsSafe f
    → find_running i g js ≡ some j
    → Evolves (update_job j.id f js) ks
    → Evolves js ks
ended_then i g f js ks j r h v =
    let (found, live, _) = find_running-parts i g js j h in
    let ended = update_job j.id f js in
    Evolves-trans js ended ks (found_update i f js ended j r found live refl) v
