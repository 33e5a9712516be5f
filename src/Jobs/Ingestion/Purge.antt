-- ===== src/Jobs/Ingestion/Purge.antt =====
-- Code: server/repositories/mongo/job-repository.js, the removal of finished jobs whose retention is
-- over.
use tech_pulse_ai.Prelude.{
  Bool, List, Option, Result, String, [], ap, arith, date_value, false, if◌then◌else◌, leb, length,
  ltb, none, not, ok, refl, some, str_eq, suc, sym, take, throw_if, true, zero, ℕ, ◌&&◌, ◌+◌, ◌-◌,
  ◌>>=◌, ◌>>◌, ◌||◌, ◌∙◌, ◌∷◌, ◌≡◌, ◌≤◌,
}
use tech_pulse_ai.Jobs.Ingestion.{Job, Refusal, bad_request, find_job, invalid_clock, is_terminal}

pub deadline_of : Job → ℕ
deadline_of j = elim j.purge_after [ none ↦ 0 | some u ↦ u ]

-- The filter of the purge.
unfoldable pub is_due : ℕ → Job → Bool
is_due cutoff j =
    is_terminal j.status
    && elim j.purge_after [ none ↦ false | some u ↦ leb u cutoff ]
    && leb j.idempotency_expires_at cutoff

unfoldable pub due_jobs : ℕ → List Job → List Job
unfolding is_due
due_jobs cutoff [] = []
due_jobs cutoff (j ∷ js) =
    let rest = due_jobs cutoff js in if is_due cutoff j then j ∷ rest else rest

unfoldable pub insert_by_deadline : Job → List Job → List Job
unfolding deadline_of
insert_by_deadline j [] = j ∷ []
insert_by_deadline j (k ∷ ks) =
    let rest = insert_by_deadline j ks in
    if leb (deadline_of j) (deadline_of k) then j ∷ k ∷ ks else k ∷ rest

unfoldable pub sort_by_deadline : List Job → List Job
unfolding insert_by_deadline
sort_by_deadline [] = []
sort_by_deadline (j ∷ js) = insert_by_deadline j (sort_by_deadline js)

pub has_id : String → List Job → Bool
has_id i [] = false
has_id i (j ∷ js) = str_eq j.id i || has_id i js

-- `deleteMany` of the selected jobs, where the filter still holds.
unfoldable pub delete_selected : ℕ → List Job → List Job → List Job
unfolding has_id is_due
delete_selected cutoff chosen [] = []
delete_selected cutoff chosen (j ∷ js) =
    let rest = delete_selected cutoff chosen js in
    if has_id j.id chosen && is_due cutoff j then rest else j ∷ rest

pub record Purge : Type 0 where
  pub inspected : ℕ
  pub affected : ℕ
  pub has_more : Bool
  pub jobs : List Job

unfoldable pub purge_selected : ℕ → ℕ → List Job → List Job → Purge
unfolding delete_selected
purge_selected cutoff limit candidates js = record {
  inspected = length (take limit candidates);
  affected = length js - length (delete_selected cutoff (take limit candidates) js);
  has_more = ltb limit (length candidates);
  jobs = delete_selected cutoff (take limit candidates) js;
}

-- `purgeDueIngestionJobs`.
unfoldable pub purge_due_ingestion_jobs : Option ℕ → ℕ → List Job → Result Refusal Purge
unfolding due_jobs sort_by_deadline purge_selected
purge_due_ingestion_jobs clock limit js = do
  cutoff ← date_value clock invalid_clock
  throw_if (not (leb 1 limit && leb limit 100)) bad_request
  ok (purge_selected cutoff limit (take (limit + 1) (sort_by_deadline (due_jobs cutoff js))) js)

pub delete-kept :
    (cutoff : ℕ) (chosen : List Job) (js : List Job) (i : String) (j : Job)
    → find_job i js ≡ some j
    → is_due cutoff j ≡ false
    → find_job i (delete_selected cutoff chosen js) ≡ some j
unfolding find_job delete_selected
delete-kept cutoff chosen [] i j e n = ground arith
delete-kept cutoff chosen (k ∷ js) i j e n = ground (arith, delete-kept cutoff chosen js i j)

length-take-le : (n : ℕ) (js : List Job) → length (take n js) ≤ n
length-take-le zero js = omega arith
length-take-le (suc n) [] = omega arith
length-take-le (suc n) (j ∷ js) = omega (arith, length-take-le n js)

pub purge-parts :
    (clock : Option ℕ) (limit : ℕ) (js : List Job) (r : Purge)
    → purge_due_ingestion_jobs clock limit js ≡ ok r
    → (cutoff : ℕ) × (clock ≡ some cutoff)
      × (limit ≤ 100)
      × (purge_selected cutoff limit (take (limit + 1) (sort_by_deadline (due_jobs cutoff js))) js
          ≡ r)
unfolding purge_due_ingestion_jobs
purge-parts none limit js r e = ground arith
purge-parts (some cutoff) limit js r e = (cutoff, refl, ground arith, ground arith)

-- A purge that returns keeps every job that is not finished, or whose retention or idempotency key
-- reaches beyond the cutoff, and selects no more jobs than its limit of a hundred at most.
pub purge_keeps :
    (cutoff limit : ℕ) (js : List Job) (r : Purge) (i : String) (j : Job)
    → purge_due_ingestion_jobs (some cutoff) limit js ≡ ok r
    → find_job i js ≡ some j
    → not (is_terminal j.status)
        || ltb cutoff (deadline_of j)
        || ltb cutoff j.idempotency_expires_at
      ≡ true
    → (find_job i r.jobs ≡ some j) × (r.inspected ≤ limit) × (limit ≤ 100)
unfolding purge_selected is_due deadline_of
purge_keeps cutoff limit js r i j e found live =
    let (c, same, small, result) = purge-parts (some cutoff) limit js r e in
    let candidates = take (limit + 1) (sort_by_deadline (due_jobs c js)) in
    (
      ap (λ (x : Purge). find_job i x.jobs) (sym result)
          ∙ delete-kept c (take limit candidates) js i j found (ground (arith, same, live)),
      ground (arith, result, length-take-le limit candidates),
      small,
    )
