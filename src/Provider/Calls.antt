-- ===== src/Provider/Calls.antt =====
-- Code: server/ai/provider-admission.js: a call of a provider under a reservation of its budget and of
-- its failure domain, over the two repositories of the host.

pub mod Reservations
pub mod Observers
pub mod Releases
use tech_pulse_ai.Prelude.{
  Bool, List, Option, Result, String, [], err, false, if◌then◌else◌, includes, js_length, leb, ltb,
  none, not, ok, or_else, some, str_eq, suc, true, zero, ℕ, ◌==◌, ◌||◌, ◌∷◌,
}
use tech_pulse_ai.Provider.Taxonomy.{
  DomainOutcome, Failure, FailureClass, adapter, ambiguous, boundary_error, cancellation_error,
  cancelled, config, foreign, is_local, may_retry, privacy, provider_retryable, routing, selection,
  terminal_failure,
}
use tech_pulse_ai.Provider.Execution.{
  ◌>>=◌, ◌>>◌, Capability, Context, Exec, Host, ReleaseOutcome, Reply, Route, admitted, ask,
  assert_execution_available, attempt, await_execution, call, either, embedding,
  execution_unavailable, fail, get_held, give, nonconfidential, note, Late, late_admission,
  late_reservation, put_late, request_release, request_slot, released_cancelled, take_late,
  released_failure, released_retryable, released_success, reported, reserved, set_held, summary,
  zdr_verified,
}
use tech_pulse_ai.Provider.Registry.{
  Call, DomainAdmission, Registry, capability_allows, domain_answer, eligible, evidence_expired,
  failure_code, failure_domain, find_route, get_route, is_expired, kinds, needs_zdr, over_budget,
  positive_delay, prefix, refused, release_code, release_outcome, thrown, unavailable,
  without_domain,
}

module _ {W O : Type 0} (h : Host W O) (g : Registry) where
  unfoldable pub report : String → String → DomainOutcome → Exec W (Unit {0})
  unfolding note call ask give ◌>>=◌
  report d id outcome = do
    note (reported id outcome)
    t ← ask h.now
    call (h.report_domain d id outcome t)

  unfoldable pub report_to : Option String → Option String → DomainOutcome → Exec W (Unit {0})
  unfolding report fail
  report_to none id outcome = give tt
  report_to (some d) none outcome = fail (foreign none false)
  report_to (some d) (some i) outcome =
      if js_length i == 0 then fail (foreign none false) else report d i outcome

  -- `reportProviderDomain`: without a failure domain there is nothing to report.
  unfoldable pub report_provider_domain : String → Option String → DomainOutcome → Exec W (Unit {0})
  unfolding report_to failure_domain get_route
  report_provider_domain route_id id outcome =
      report_to (failure_domain g (get_route g route_id)) id outcome

  unfoldable pub request_domain : String → String → Exec W Reply
  unfolding ask call note
  request_domain d id = do
    t ← ask h.now
    r ← call (h.admit_domain d id t)
    if r.allowed then note (admitted id) else give tt
    give r

  unfoldable pub cancel_domain : String → String → Reply → Exec W (Unit {0})
  unfolding report
  cancel_domain d id r = if r.allowed then report d id cancelled else give tt

  unfoldable pub cancel_admission : String → String → Option Reply → Exec W Reply
  unfolding cancel_domain attempt fail
  cancel_admission d id r = do
    attempt (elim r [ none ↦ give tt | some x ↦ cancel_domain d id x ])
    fail (adapter cancellation_error)

  unfoldable pub abandon_domain : Context → String → String → Option Reply → Failure → Exec W Reply
  unfolding cancel_admission execution_unavailable
  abandon_domain c d id r e = do
    b ← execution_unavailable h c
    if b then cancel_admission d id r else fail e

  unfoldable pub confirm_domain : Context → String → String → Reply → Exec W Reply
  unfolding abandon_domain assert_execution_available either
  confirm_domain c d id r = do
    x ← attempt (assert_execution_available h c)
    either (abandon_domain c d id (some r)) (λ _. give r) x

  unfoldable pub admit_domain : Context → String → Exec W DomainAdmission
  unfolding confirm_domain request_domain await_execution domain_answer
  admit_domain c d = do
    id ← ask h.fresh_id
    x ← attempt (await_execution h c (request_domain d id) (late_admission d id))
    r ← either (abandon_domain c d id none) (confirm_domain c d id) x
    give (domain_answer id r)

  unfoldable pub admit_in : Context → String → Option String → Exec W DomainAdmission
  unfolding admit_domain without_domain
  admit_in c attempt_id none = give (without_domain g)
  admit_in c attempt_id (some d) =
      if js_length attempt_id == 0 then give (refused none) else admit_domain c d

  unfoldable pub admit_route : Context → String → Option Route → Exec W DomainAdmission
  unfolding admit_in failure_domain
  admit_route c attempt_id none = give (refused none)
  admit_route c attempt_id (some r) = admit_in c attempt_id (failure_domain g (some r))

  -- `admitProviderDomain`.
  unfoldable pub admit_provider_domain : Context → String → String → Exec W DomainAdmission
  unfolding admit_route get_route
  admit_provider_domain c route_id attempt_id = do
    assert_execution_available h c
    admit_route c attempt_id (get_route g route_id)

  -- `release` of `run`: only a reservation that is held is asked to be given back, and once.
  unfoldable pub give_back : String → ReleaseOutcome → Option String → Exec W (Unit {0})
  unfolding set_held ask request_release
  give_back id outcome code = do set_held false; t ← ask h.now; request_release h id outcome code t

  unfoldable pub release : String → ReleaseOutcome → Option String → Exec W (Unit {0})
  unfolding get_held give_back
  release id outcome code = do b ← get_held; if b then give_back id outcome code else give tt

  -- `observeLateReservation`; its variable `reserved` is that of a call that is over.
  unfoldable pub observe_late : String → Reply → Exec W (Unit {0})
  unfolding release set_held
  observe_late id x =
      if x.allowed
      then (set_held true >> release id released_cancelled (some "execution_cancelled"))
      else give tt

  unfoldable pub check_evidence : Call → Route → Exec W (Unit {0})
  unfolding is_expired needs_zdr ask
  check_evidence q r =
      if needs_zdr q.capability
      then (ask h.now >>= λ t.
          if is_expired r.evidence_expires_at t then fail evidence_expired else give tt)
      else give tt

  -- The body of `try`.
  unfoldable pub use_slot : Context → Call → (Route → Exec W O) → Route → String → Exec W O
  unfolding check_evidence assert_execution_available release
  use_slot c q invoke r id = do
    assert_execution_available h c
    check_evidence q r
    out ← invoke r
    assert_execution_available h c
    release id released_success none
    give out

  unfoldable pub give_up : Context → String → Failure → Exec W O
  unfolding execution_unavailable release attempt
  give_up c id e = do
    b ← execution_unavailable h c
    attempt (release id (release_outcome (b || is_local e) e) (some (release_code b e)))
    fail (if b then adapter cancellation_error else (if is_local e then e else thrown e))

  unfoldable pub call_in_slot :
      Context → Call → (Route → Exec W O) → Route → String → Reply → Exec W O
  unfolding use_slot give_up set_held
  call_in_slot c q invoke r id x =
      if x.allowed
      then (set_held true >> attempt (use_slot c q invoke r id) >>= either (give_up c id) give)
      else fail (over_budget x)

  unfoldable pub reserve_and_call :
      Context → Call → (Route → Exec W O) → Option ℕ → Route → Exec W O
  unfolding call_in_slot request_slot await_execution
  reserve_and_call c q invoke t r = do
    id ← ask h.fresh_id
    set_held false
    x ← await_execution h c (request_slot h r id t) (late_reservation id)
    call_in_slot c q invoke r id x

  -- `run`.
  unfoldable pub run : Context → Call → (Route → Exec W O) → Exec W O
  unfolding reserve_and_call eligible get_route
  run c q invoke = do
    assert_execution_available h c
    t ← ask h.now
    r ← either fail give (eligible g q t (get_route g q.route_id))
    reserve_and_call c q invoke t r

  -- What the observer of a late reply does.
  unfoldable pub observe : Late → Exec W (Unit {0})
  unfolding observe_late cancel_domain
  observe (late_reservation id x) = observe_late id x
  observe (late_admission d id x) = cancel_domain d id x

  -- The observers run on their own, and their errors are dropped.
  unfoldable pub drain : List Late → Exec W (Unit {0})
  unfolding observe attempt
  drain [] = give tt
  drain (l ∷ ls) = attempt (observe l) >> drain ls

  unfoldable pub observe_all : Exec W (Unit {0})
  unfolding take_late drain
  observe_all = take_late >>= drain
