-- ===== src/Jobs/Ingestion/Retention.antt =====
-- Code: server/repositories/mongo/job-repository.js: finished jobs, their retention, and the limit of
-- attempts.
use mathlib.Core.Path.{subst}
use tech_pulse_ai.Prelude.{
  Bool, List, String, [], arith, false, inl, inr, leb, ltb, none, not, refl, some, sym, true, ℕ,
  ◌&&◌, ◌*◌, ◌++◌, ◌+◌, ◌||◌, ◌∷◌, ◌≡◌, ◌⊎◌,
}
use tech_pulse_ai.Jobs.Names.{Platform}
use tech_pulse_ai.Jobs.Ingestion.{
  Completion, Job, JobError, Status, cancelled, complete_job, day_ms, defer_job, failed, find_job,
  finish, is_terminal, purge_after_for, retention_days, start_job, update_job,
}
use tech_pulse_ai.Jobs.Ingestion.Recovery.{add_retry, fail_job, finalize_job, recovery_child_for}
use tech_pulse_ai.Jobs.Ingestion.Queue.{cancel_job}

-- Retention of a finished job: two weeks at least, and until its idempotency key expires.
unfoldable pub is_retained : Job → Bool
unfolding day_ms
is_retained j = elim j.finished_at [
  | none ↦ false
  | some t ↦ elim j.purge_after [
    | none ↦ false
    | some u ↦ leb (t + 14 * day_ms) u && leb j.idempotency_expires_at u
  ]
]

unfoldable pub job_ok : Job → Bool
unfolding is_retained
job_ok j = leb j.attempt 3 && (not (is_terminal j.status) || is_retained j)

unfoldable pub jobs_ok : List Job → Bool
unfolding job_ok
jobs_ok [] = true
jobs_ok (j ∷ js) = job_ok j && jobs_ok js

-- Finished jobs stay what they are, and the limits hold on.
abbrev pub Evolves : List Job → List Job → Type 0
Evolves js ks =
    ((q : String) (j : Job)
      → find_job q js ≡ some j
      → is_terminal j.status ≡ true
      → find_job q ks ≡ some j)
    × (jobs_ok js ≡ true → jobs_ok ks ≡ true)

pub Evolves-refl : (js : List Job) → Evolves js js
Evolves-refl js = ((λ q j e h. e), λ h. h)

pub Evolves-trans : (js ks ls : List Job) → Evolves js ks → Evolves ks ls → Evolves js ls
Evolves-trans js ks ls (a, b) (c, d) = ((λ q j e h. c q j (a q j e h) h), λ h. d (b h))

pub Evolves-by : (js ks ls : List Job) → ls ≡ ks → Evolves js ks → Evolves js ls
Evolves-by js ks ls e v = subst (λ x. Evolves js x) (sym e) v

abbrev pub IsSafe : (Job → Job) → Type 0
IsSafe f = (j : Job) → ((f j).id ≡ j.id) × (job_ok j ≡ true → job_ok (f j) ≡ true)

pub start_job-IsSafe : (generation now : ℕ) → IsSafe (start_job generation now)
unfolding start_job job_ok is_terminal
start_job-IsSafe generation now j = (refl, λ h. ground arith)

finish_retained : (status : Status) (now : ℕ) (j : Job) → is_retained (finish status now j) ≡ true
unfolding finish purge_after_for retention_days day_ms is_retained
finish_retained status now j = ground arith

pub finish-IsSafe : (status : Status) (now : ℕ) → IsSafe (finish status now)
unfolding job_ok finish
finish-IsSafe status now j = (refl, λ h. ground (arith, finish_retained status now j))

pub complete_job-IsSafe : (c : Completion) (b : Bool) (now : ℕ) → IsSafe (complete_job c b now)
unfolding complete_job job_ok is_retained finish
complete_job-IsSafe c true now j = (refl, λ h. ground (arith, finish_retained c.status now j))
complete_job-IsSafe c false now j = (refl, λ h. ground (arith, finish_retained failed now j))

pub defer_job-IsSafe : (ms now : ℕ) → IsSafe (defer_job ms now)
unfolding defer_job job_ok is_retained finish is_terminal
defer_job-IsSafe ms now j = (ground arith, λ h. ground (arith, finish_retained cancelled now j))

pub fail_job-IsSafe : (e : JobError) (now : ℕ) → IsSafe (fail_job e now)
unfolding fail_job job_ok is_retained finish
fail_job-IsSafe e now j = (refl, λ h. ground (arith, finish_retained failed now j))

pub finalize_job-IsSafe : (e : JobError) (now : ℕ) → IsSafe (finalize_job e now)
unfolding finalize_job fail_job job_ok is_retained finish
finalize_job-IsSafe e now j = (refl, λ h. ground (arith, finish_retained failed now j))

pub cancel_job-IsSafe : (now : ℕ) → IsSafe (cancel_job now)
unfolding cancel_job job_ok is_retained finish is_terminal
cancel_job-IsSafe now j = (ground arith, λ h. ground (arith, finish_retained cancelled now j))

find_job-update :
    (i q : String) (f : Job → Job) (js : List Job) (j k : Job)
    → IsSafe f
    → find_job i js ≡ some j
    → is_terminal j.status ≡ false
    → find_job q js ≡ some k
    → is_terminal k.status ≡ true
    → find_job q (update_job i f js) ≡ some k
unfolding find_job update_job
find_job-update i q f [] j k r e n g t = ground arith
find_job-update i q f (m ∷ js) j k r e n g t =
    ground (arith, find_job-update i q f js j k r, (r m).0)

jobs_ok-update :
    (i : String) (f : Job → Job) (js : List Job)
    → IsSafe f
    → jobs_ok js ≡ true
    → jobs_ok (update_job i f js) ≡ true
unfolding jobs_ok update_job
jobs_ok-update i f [] r h = refl
jobs_ok-update i f (m ∷ js) r h = ground (arith, jobs_ok-update i f js r, (r m).1)

pub update_job-Evolves :
    (i : String) (f : Job → Job) (js : List Job) (j : Job)
    → IsSafe f
    → find_job i js ≡ some j
    → is_terminal j.status ≡ false
    → Evolves js (update_job i f js)
update_job-Evolves i f js j r e n =
    ((λ q k g t. find_job-update i q f js j k r e n g t), jobs_ok-update i f js r)

pub find_job-append :
    (q : String) (js ks : List Job) (k : Job)
    → find_job q js ≡ some k
    → find_job q (js ++ ks) ≡ some k
unfolding find_job
find_job-append q [] ks k e = ground arith
find_job-append q (j ∷ js) ks k e = ground (arith, find_job-append q js ks k)

jobs_ok-append :
    (js : List Job) (j : Job) → jobs_ok js ≡ true → job_ok j ≡ true → jobs_ok (js ++ j ∷ []) ≡ true
unfolding jobs_ok
jobs_ok-append [] j h g = ground arith
jobs_ok-append (k ∷ js) j h g = ground (arith, jobs_ok-append js j)

pub append-Evolves : (js : List Job) (j : Job) → job_ok j ≡ true → Evolves js (js ++ j ∷ [])
append-Evolves js j g =
    ((λ q k e t. find_job-append q js (j ∷ []) k e), λ h. jobs_ok-append js j h g)

retry_ok :
    (p : Platform) (j : Job) (now : ℕ)
    → ltb j.attempt 3 ≡ true
    → job_ok (recovery_child_for p j now) ≡ true
unfolding job_ok recovery_child_for is_terminal
retry_ok p j now h = ground arith

add_retry-cases :
    (p : Platform) (j : Job) (now : ℕ) (js : List Job)
    → (add_retry p j now js ≡ js)
      ⊎ ((ltb j.attempt 3 ≡ true) × (add_retry p j now js ≡ js ++ recovery_child_for p j now ∷ []))
unfolding add_retry
add_retry-cases p j now js = ground arith

pub add_retry-Evolves :
    (p : Platform) (j : Job) (now : ℕ) (js : List Job) → Evolves js (add_retry p j now js)
add_retry-Evolves p j now js = elim (add_retry-cases p j now js) [
  | inl e ↦ Evolves-by js js (add_retry p j now js) e (Evolves-refl js)
  | inr (h, e) ↦
      Evolves-by js (js ++ recovery_child_for p j now ∷ []) (add_retry p j now js) e
        (append-Evolves js (recovery_child_for p j now) (retry_ok p j now h))
]
