-- ===== src/Jobs/Ingestion/Selection.antt =====
-- Code: selectDueIngestion of server/repositories/mongo/job-repository.js: the next job to run.
use Prim.Native.Nat.{Ordering}
use Prim.Native.String.{compare}
use tech_pulse_ai.Prelude.{
  Bool, List, Option, Option-cases, String, [], arith, false, if◌then◌else◌, includes, inl, inr,
  leb, ltb, none, not, some, true, ℕ, ◌&&◌, ◌==◌, ◌||◌, ◌∷◌, ◌≡◌,
}
use tech_pulse_ai.Jobs.Ingestion.{Job, find_job, is_queued}

pub id_before : String → String → Bool
id_before a b = elim (compare a b) [ Ordering.lt ↦ true | _ ↦ false ]

-- The last keys of both orders: `availableAt`, `createdAt`, `_id`.
pub starts_before : Job → Job → Bool
unfolding id_before
starts_before a b =
    if not (a.available_at == b.available_at)
    then ltb a.available_at b.available_at
    else if not (a.created_at == b.created_at)
    then ltb a.created_at b.created_at
    else id_before a.id b.id

pub aged_before : Job → Job → Bool
unfolding starts_before
aged_before a b =
    if not (a.aging_eligible_at == b.aging_eligible_at)
    then ltb a.aging_eligible_at b.aging_eligible_at
    else starts_before a b

pub normal_before : Job → Job → Bool
unfolding starts_before
normal_before a b =
    if not (a.priority == b.priority) then ltb b.priority a.priority else starts_before a b

-- The filter that both queries share.
unfoldable pub is_waiting : ℕ → List String → Job → Bool
unfolding is_queued
is_waiting now excluded j =
    is_queued j.status && leb j.available_at now && not (includes excluded j.source_id)

unfoldable pub is_aged : ℕ → Job → Bool
is_aged now j = leb j.aging_eligible_at now

unfoldable pub is_aged_waiting : ℕ → List String → Job → Bool
unfolding is_waiting is_aged
is_aged_waiting now excluded j = is_waiting now excluded j && is_aged now j

unfoldable pub is_normal_waiting : ℕ → List String → Job → Bool
unfolding is_waiting is_aged
is_normal_waiting now excluded j = is_waiting now excluded j && not (is_aged now j)

-- `find(filter).sort(order).limit(1).next()`.
unfoldable pub first_by : (Job → Bool) → (Job → Job → Bool) → List Job → Option Job
first_by p before [] = none
first_by p before (j ∷ js) =
    let rest = first_by p before js in
    if not (p j)
    then rest
    else elim rest [ none ↦ some j | some k ↦ if before k j then some k else some j ]

-- `selectDueIngestion`.
unfoldable pub select_due_ingestion : ℕ → List String → List Job → Option Job
unfolding first_by is_aged_waiting is_normal_waiting aged_before normal_before
select_due_ingestion now excluded js =
    elim (first_by (is_aged_waiting now excluded) aged_before js) [
      | some j ↦ some j
      | none ↦ first_by (is_normal_waiting now excluded) normal_before js
    ]

first_by-meets :
    (p : Job → Bool) (before : Job → Job → Bool) (js : List Job) (j : Job)
    → first_by p before js ≡ some j
    → p j ≡ true
unfolding first_by
first_by-meets p before [] j e = ground arith
first_by-meets p before (k ∷ js) j e = elim (Option-cases (first_by p before js)) [
  | inl n ↦ ground arith
  | inr (m, n) ↦ ground (arith, first_by-meets p before js m n)
]

first_by-none :
    (p : Job → Bool) (before : Job → Job → Bool) (js : List Job) (i : String) (j : Job)
    → first_by p before js ≡ none
    → find_job i js ≡ some j
    → p j ≡ false
unfolding first_by find_job
first_by-none p before [] i j n e = ground arith
first_by-none p before (k ∷ js) i j n e = elim (Option-cases (first_by p before js)) [
  | inl m ↦ ground (arith, first_by-none p before js i j m)
  | inr (m, h) ↦ ground arith
]

waiting_parts :
    (now : ℕ) (excluded : List String) (j : Job)
    → is_aged_waiting now excluded j ≡ false
    → is_normal_waiting now excluded j ≡ false
    → is_waiting now excluded j ≡ false
unfolding is_aged_waiting is_normal_waiting
waiting_parts now excluded j a b = ground arith

normal_waits :
    (now : ℕ) (excluded : List String) (j : Job)
    → is_normal_waiting now excluded j ≡ true
    → is_waiting now excluded j ≡ true
unfolding is_normal_waiting
normal_waits now excluded j h = ground arith

aged_waits :
    (now : ℕ) (excluded : List String) (j : Job)
    → is_aged_waiting now excluded j ≡ true
    → (is_waiting now excluded j ≡ true) × (is_aged now j ≡ true)
unfolding is_aged_waiting
aged_waits now excluded j h = ground arith

-- Where no job is selected, no stored job waits: none is queued, available and of a source that is
-- not excluded.
pub selection_complete :
    (now : ℕ) (excluded : List String) (js : List Job) (i : String) (j : Job)
    → select_due_ingestion now excluded js ≡ none
    → find_job i js ≡ some j
    → is_waiting now excluded j ≡ false
unfolding select_due_ingestion
selection_complete now excluded js i j n e =
    elim (Option-cases (first_by (is_aged_waiting now excluded) aged_before js)) [
      | inl a ↦
          waiting_parts now excluded j
            (first_by-none (is_aged_waiting now excluded) aged_before js i j a e)
            (first_by-none (is_normal_waiting now excluded) normal_before js i j (ground arith) e)
      | inr (k, a) ↦ ground arith
    ]

-- The job that is selected waits, and where it is not aged itself, no aged job waits: jobs of a
-- high priority never hold back one that has aged.
pub selection_prefers_aged :
    (now : ℕ) (excluded : List String) (js : List Job) (j k : Job) (i : String)
    → select_due_ingestion now excluded js ≡ some j
    → find_job i js ≡ some k
    → (is_waiting now excluded j ≡ true)
      × (is_aged now j || not (is_aged_waiting now excluded k) ≡ true)
unfolding select_due_ingestion
selection_prefers_aged now excluded js j k i e found =
    elim (Option-cases (first_by (is_aged_waiting now excluded) aged_before js)) [
      | inl a ↦
          let none_aged = first_by-none (is_aged_waiting now excluded) aged_before js i k a found in
          let waits =
            first_by-meets (is_normal_waiting now excluded) normal_before js j (ground arith) in
          (normal_waits now excluded j waits, ground (arith, none_aged))
      | inr (m, a) ↦
          let waits = first_by-meets (is_aged_waiting now excluded) aged_before js m a in
          (
            ground (arith, aged_waits now excluded m waits),
            ground (arith, aged_waits now excluded m waits),
          )
    ]
