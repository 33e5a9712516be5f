-- ===== src/Provider/Execution.antt =====
-- Code: what a call of server/ai/provider-admission.js or server/ai/provider-router.js reads and
-- changes, the check that it may go on, and `awaitExecution`. `Host` is the platform and what the caller
-- passes in: the clock, the abort signal, the race of a pending operation with the two, fresh ids, the
-- two repositories, `invoke` and `validateOutput`.
pub mod Triples
pub mod Steady
use tech_pulse_ai.Prelude.{
  Bool, List, Option, Result, String, [], err, false, if◌then◌else◌, is_some, leb, ok, some, true,
  ℕ, ◌+◌, ◌||◌, ◌∷◌,
}
use tech_pulse_ai.Provider.Taxonomy.{DomainOutcome, Failure, adapter, cancellation_error}

pub data Capability : Type 0 where
  zdr_verified nonconfidential : Capability

pub data Operation : Type 0 where
  summary answer support embedding : Operation

pub record Route : Type 0 where
  pub route_id : String
  pub admission_domain_id : String
  pub provider_failure_domain_id : String
  pub model : String
  pub enabled : Bool
  pub operations : List Operation
  pub capability : Capability
  pub evidence_expires_at : Option ℕ
  pub artifact_compatibility_id : Option String
  pub embedding_dimensions : Option ℕ
  pub embedding_version : Option String

-- The answer of either repository.
pub record Reply : Type 0 where
  pub allowed : Bool
  pub retry_after_seconds : Option ℕ

pub data ReleaseOutcome : Type 0 where
  released_success released_retryable released_failure released_cancelled : ReleaseOutcome

pub record Host (W O : Type 0) : Type 0 where
  pub now : W → Option ℕ × W
  pub is_aborted : W → Bool × W
  pub is_overtaken : W → Bool × W
  pub fresh_id : W → String × W
  pub reserve : Route → String → Option ℕ → W → Result Failure Reply × W
  pub release :
      String → ReleaseOutcome → Option String → Option ℕ → W → Result Failure (Unit {0}) × W
  pub admit_domain : String → String → Option ℕ → W → Result Failure Reply × W
  pub report_domain : String → String → DomainOutcome → Option ℕ → W → Result Failure (Unit {0}) × W
  pub invoke : Route → W → Result Failure O × W
  pub validate_output : Route → O → W → Result Failure O × W

-- The calls that count: slots that a repository granted, requests to give one back, which the repository
-- may refuse or fail, and calls of the provider.
pub data Event : Type 0 where
  reserved : String → Event
  release_asked : String → ReleaseOutcome → Event
  admitted : String → Event
  reported : String → DomainOutcome → Event
  invoked : Route → Event

-- A reply of a repository that came after the abort or the deadline, for its observer.
pub data Late : Type 0 where
  late_reservation : (reservation_id : String) → Reply → Late
  late_admission : (domain_id reservation_id : String) → Reply → Late

-- `held` is the variable `reserved` of `run`, `external_attempts` that of `execute`; `late` are the
-- replies whose observers have still to run.
pub record State (W : Type 0) : Type 0 where
  pub world : W
  pub held : Bool
  pub external_attempts : ℕ
  pub late : List Late
  pub trace : List Event

abbrev pub Exec : Type 0 → Type 0 → Type 0
Exec W A = State W → Result Failure A × State W

pub record Context : Type 0 where
  pub has_signal : Bool
  pub deadline : Option ℕ

infixl 5 ◌>>=◌ ◌>>◌
unfoldable pub after :
    {W A B : Type 0} → Result Failure A × State W → (A → Exec W B) → Result Failure B × State W
after (ok a, s) f = f a s
after (err e, s) f = (err e, s)

unfoldable pub ◌>>=◌ : {W A B : Type 0} → Exec W A → (A → Exec W B) → Exec W B
unfolding after
(m >>= f) s = after (m s) f

abbrev pub ◌>>◌ : {W A B : Type 0} → Exec W A → Exec W B → Exec W B
m >> k = m >>= λ _. k

unfoldable pub give : {W A : Type 0} → A → Exec W A
give a s = (ok a, s)

unfoldable pub fail : {W A : Type 0} → Failure → Exec W A
fail e s = (err e, s)

-- `try { ... } catch (error) { ... }`: the outcome of the body as a value.
unfoldable pub attempt : {W A : Type 0} → Exec W A → Exec W (Result Failure A)
attempt m s = let r = m s in (ok r.0, r.1)

-- A result by cases, without and with an error.
unfoldable pub either :
    {W A B : Type 0} → (Failure → Exec W B) → (A → Exec W B) → Result Failure A → Exec W B
either f g (ok a) = g a
either f g (err e) = f e

-- One call of the host.
unfoldable pub ask : {W A : Type 0} → (W → A × W) → Exec W A
ask f s = let r = f s.world in (ok r.0, record s { world = r.1 })

unfoldable pub call : {W A : Type 0} → (W → Result Failure A × W) → Exec W A
call f s = let r = f s.world in (r.0, record s { world = r.1 })

unfoldable pub note : {W : Type 0} → Event → Exec W (Unit {0})
note e s = (ok tt, record s { trace = e ∷ s.trace })

unfoldable pub set_held : {W : Type 0} → Bool → Exec W (Unit {0})
set_held b s = (ok tt, record s { held = b })

unfoldable pub get_held : {W : Type 0} → Exec W Bool
get_held s = (ok s.held, s)

unfoldable pub put_late : {W : Type 0} → Late → Exec W (Unit {0})
put_late l s = (ok tt, record s { late = l ∷ s.late })

unfoldable pub take_late : {W : Type 0} → Exec W (List Late)
take_late s = (ok s.late, record s { late = [] })

-- `externalAttempts += 1`, with the call that follows.
unfoldable pub count_attempt : {W : Type 0} → Route → Exec W (Unit {0})
count_attempt r s =
    (ok tt, record s { external_attempts = s.external_attempts + 1; trace = invoked r ∷ s.trace })

unfoldable pub reset_attempts : {W : Type 0} → Exec W (Unit {0})
reset_attempts s = (ok tt, record s { external_attempts = 0 })

unfoldable pub get_attempts : {W : Type 0} → Exec W ℕ
get_attempts s = (ok s.external_attempts, s)

-- `deadlineValue !== undefined && current.getTime() >= deadlineValue`.
pub is_late : Option ℕ → Option ℕ → Bool
is_late (some d) (some t) = leb d t
is_late _ _ = false

module _ {W O : Type 0} (h : Host W O) where
  -- `executionUnavailable`.
  unfoldable pub execution_unavailable : Context → Exec W Bool
  unfolding ◌>>=◌ ask give is_late
  execution_unavailable c = do
    aborted ← ask h.is_aborted
    if aborted then give true else (ask h.now >>= λ t. give (is_late c.deadline t))

  unfoldable pub stop_if : Bool → Exec W (Unit {0})
  unfolding fail give
  stop_if b = if b then fail (adapter cancellation_error) else give tt

  -- `assertExecutionAvailable`.
  unfoldable pub assert_execution_available : Context → Exec W (Unit {0})
  unfolding execution_unavailable stop_if
  assert_execution_available c = execution_unavailable c >>= stop_if

  -- The race of `awaitExecution`, when the operation has acted: where the abort or the deadline comes
  -- first, the caller goes on with the cancellation, and the late reply waits for its observer; a late
  -- error is dropped.
  unfoldable pub settle : {A : Type 0} → (A → Late) → Result Failure A → Bool → Exec W A
  unfolding either put_late
  settle late r false = either fail give r
  settle late r true = do
    either (λ e. give tt) (λ a. put_late (late a)) r
    fail (adapter cancellation_error)

  -- An invalid clock leaves a timer of its own, so it is no reason to stop.
  unfoldable pub check_timer : Context → Exec W (Unit {0})
  check_timer c =
      if is_some c.deadline then (ask h.now >>= λ t. stop_if (is_late c.deadline t)) else give tt

  unfoldable pub raced : {A : Type 0} → Context → Exec W A → (A → Late) → Exec W A
  unfolding assert_execution_available check_timer settle
  raced c operation late = do
    assert_execution_available c
    check_timer c
    r ← attempt operation
    b ← ask h.is_overtaken
    settle late r b

  -- `awaitExecution`.
  unfoldable pub await_execution : {A : Type 0} → Context → Exec W A → (A → Late) → Exec W A
  unfolding raced
  await_execution c operation late = do
    assert_execution_available c
    if c.has_signal || is_some c.deadline then raced c operation late else operation

  -- `repository.reserveProviderCall`, noted under the id that it was called with where it is granted.
  unfoldable pub request_slot : Route → String → Option ℕ → Exec W Reply
  unfolding call note give ◌>>=◌
  request_slot r id t = do
    x ← call (h.reserve r id t)
    if x.allowed then note (reserved id) else give tt
    give x

  -- `repository.releaseProviderCall`, noted under the id that it is called with.
  unfoldable pub request_release :
      String → ReleaseOutcome → Option String → Option ℕ → Exec W (Unit {0})
  unfolding call note ◌>>=◌
  request_release id outcome code t = do
    note (release_asked id outcome)
    call (h.release id outcome code t)
