-- ===== src/Provider/Router.antt =====
-- Code: server/ai/provider-router.js: one workload's call of a provider, with at most one fallback.
-- `none` of a loop stands for fuel that has run out.
pub mod Bounds
pub mod Budget
pub mod Quiet
pub mod Rounds
pub mod Stages
mod Tests
use tech_pulse_ai.Prelude.{
  Bool, List, Option, Result, String, [], any, err, false, if◌then◌else◌, is_text, js_length, leb,
  ltb, none, not, ok, some, str_eq, suc, true, zero, ℕ, ◌&&◌, ◌==◌, ◌||◌, ◌∷◌,
}
use tech_pulse_ai.Provider.Taxonomy.{
  Failure, Fallback, Metadata, adapter, adapter_error, ambiguous, cancellation_error, cancelled,
  classify_provider_error, config, domain_outcome_of, is_local, model_fallback, model_retryable,
  no_fallback, privacy, provider_fallback, provider_retryable, refusal, routing, routing_error,
  succeeded,
}
use tech_pulse_ai.Provider.Execution.{
  ◌>>=◌, ◌>>◌, support, Capability, Context, Exec, Host, Operation, Route, answer, ask,
  assert_execution_available, attempt, call, count_attempt, either, embedding,
  execution_unavailable, fail, get_attempts, give, nonconfidential, reset_attempts, summary,
  zdr_verified,
}
use tech_pulse_ai.Provider.Calls.{admit_provider_domain, report_provider_domain, run}
use tech_pulse_ai.Provider.Registry.{DomainAdmission, Registry, get_route}
use tech_pulse_ai.Provider.Routes.{
  Answer, Policy, Request, Turn, again, answer_of, assert_candidate, candidate, candidate_route,
  finished, has_expired, id_of, is_empty, is_primary, last_error, next_turn, operation_kind,
  route_allows, route_metadata, same_artifact, same_operation, serves, stopped, suits, valid_policy,
}

module _ {W O : Type 0} (h : Host W O) (g : Registry) (c : Context) (p : Policy) where
  -- `throw routingError(error, { metadata, externalAttempts })`.
  unfoldable pub routed : {A : Type 0} → Option Route → Fallback → Failure → Exec W A
  unfolding get_attempts fail routing_error route_metadata ◌>>=◌
  routed route f e = do
    n ← get_attempts
    fail (routing (routing_error e (route_metadata p route n f)))

  unfoldable pub check_candidate : Option Route → Fallback → Option Route → Exec W Route
  unfolding routed assert_candidate either ask
  check_candidate primary f route = do
    t ← ask h.now
    either (routed route f) give (assert_candidate p primary f t route)

  -- The callback that `execute` passes to `run`.
  unfoldable pub external_call : Route → Exec W O
  unfolding count_attempt call
  external_call r = do count_attempt r; out ← call (h.invoke r); call (h.validate_output r out)

  unfoldable pub cancel_report : String → Option String → Exec W (Result Failure (Unit {0}))
  unfolding report_provider_domain attempt
  cancel_report id reservation = attempt (report_provider_domain h g id reservation cancelled)

  unfoldable pub stop_admission : String → Option String → Exec W DomainAdmission
  unfolding cancel_report
  stop_admission id none = fail (adapter cancellation_error)
  stop_admission id (some r) = cancel_report id (some r) >> fail (adapter cancellation_error)

  -- What an error of the domain's admission leads to.
  unfoldable pub not_admitted :
      Option Route → Fallback → String → Option String → Failure → Exec W DomainAdmission
  unfolding execution_unavailable stop_admission
  not_admitted route f id reservation e = do
    b ← execution_unavailable h c
    if b || is_local e
        then stop_admission id reservation
        else routed route f (adapter (adapter_error config none))

  unfoldable pub still_admitted :
      Option Route → Fallback → String → DomainAdmission → Exec W DomainAdmission
  unfolding not_admitted assert_execution_available
  still_admitted route f id a = do
    x ← attempt (assert_execution_available h c)
    either (not_admitted route f id a.reservation_id) (λ _. give a) x

  unfoldable pub enter_domain : Request → Option Route → Fallback → String → Exec W DomainAdmission
  unfolding still_admitted admit_provider_domain
  enter_domain rq route f id = do
    x ← attempt (admit_provider_domain h g c id rq.attempt_id)
    either (not_admitted route f id none) (still_admitted route f id) x

  -- The failure domain refuses the call.
  unfoldable pub refused_domain : Option Route → Fallback → Option ℕ → Exec W (Turn O)
  unfolding routed is_primary is_empty
  refused_domain route f delay =
      let e = adapter (adapter_error provider_retryable delay) in
      if is_primary f && not (is_empty p.provider_fallback_route_ids)
      then give (again provider_fallback e)
      else routed route f e

  unfoldable pub after_failure :
      Option Route → Fallback → Failure → Result Failure (Unit {0}) → Exec W (Turn O)
  unfolding routed next_turn
  after_failure route f e (Result.err _) = routed route f (adapter (adapter_error ambiguous none))
  after_failure route f e (Result.ok _) = get_attempts >>= λ n. give (next_turn p f n e)

  unfoldable pub failed :
      Option Route → Fallback → String → Option String → Failure → Bool → Exec W (Turn O)
  unfolding cancel_report after_failure report_provider_domain
  failed route f id reservation e true = do
    cancel_report id reservation
    fail (adapter cancellation_error)
  failed route f id reservation e false =
      if is_local e
      then (cancel_report id reservation >> fail e)
      else (attempt (report_provider_domain h g id reservation (domain_outcome_of e))
          >>= after_failure route f e)

  unfoldable pub on_failure :
      Option Route → Fallback → String → Option String → Failure → Exec W (Turn O)
  unfolding failed execution_unavailable
  on_failure route f id reservation e = do
    b ← execution_unavailable h c
    failed route f id reservation e b

  unfoldable pub report_success : String → Option String → Exec W (Unit {0})
  unfolding assert_execution_available report_provider_domain
  report_success id reservation = do
    assert_execution_available h c
    report_provider_domain h g id reservation succeeded

  unfoldable pub unreported :
      Option Route → Fallback → String → Option String → Failure → Exec W (Turn O)
  unfolding execution_unavailable cancel_report routed
  unreported route f id reservation e = do
    b ← execution_unavailable h c
    if b
        then (cancel_report id reservation >> fail (adapter cancellation_error))
        else routed route f (adapter (adapter_error ambiguous none))

  unfoldable pub on_success : Option Route → Fallback → String → Option String → O → Exec W (Turn O)
  unfolding report_success unreported answer_of
  on_success route f id reservation out = do
    x ← attempt (report_success id reservation)
    either (unreported route f id reservation)
        (λ _. get_attempts >>= λ n. give (answer_of p route f out n)) x

  unfoldable pub run_route : Fallback → String → Exec W O
  unfolding run external_call assert_execution_available
  run_route f id = do
    out ←
        run h g c
          (record {
            route_id = id;
            capability = p.required_capability;
            kind = operation_kind p.operation f;
          })
          external_call
    assert_execution_available h c
    give out

  unfoldable pub run_admitted : Option Route → Fallback → String → DomainAdmission → Exec W (Turn O)
  unfolding run_route on_success on_failure refused_domain
  run_admitted route f id a =
      if a.allowed
      then (attempt (run_route f id)
          >>= either (on_failure route f id a.reservation_id)
              (on_success route f id a.reservation_id))
      else refused_domain route f a.retry_after_seconds

  unfoldable pub call_route : Request → Fallback → Option Route → String → Exec W (Turn O)
  unfolding enter_domain run_admitted
  call_route rq f route id = do a ← enter_domain rq route f id; run_admitted route f id a

  -- One round of the loop.
  unfoldable pub turn : Request → Option Route → Fallback → Exec W (Turn O)
  unfolding check_candidate call_route candidate_route candidate id_of
  turn rq primary f = do
    assert_execution_available h c
    r ← check_candidate primary f (candidate_route g (candidate p f))
    call_route rq f (some r) (id_of (candidate p f))

  unfoldable pub continue_with :
      (Fallback → Option Failure → Option Route → Exec W (Option (Answer O)))
      → Fallback
      → Turn O
      → Exec W (Option (Answer O))
  unfolding routed candidate_route candidate
  continue_with rest f (finished a) = give (some a)
  continue_with rest f (again next e) = rest next (some e) (candidate_route g (candidate p f))
  continue_with rest f (stopped e) = routed (candidate_route g (candidate p f)) f e

  -- The loop, on fuel.
  unfoldable pub loop :
      Request
      → Option Route
      → ℕ
      → Fallback
      → Option Failure
      → Option Route
      → Exec W (Option (Answer O))
  unfolding turn continue_with last_error routed
  loop rq primary zero f e route = give none
  loop rq primary (suc fuel) f e route =
      let rest = loop rq primary fuel in
      get_attempts >>= λ n.
      if ltb n p.max_external_attempts
      then (turn rq primary f >>= continue_with rest f)
      else routed route f (last_error e)

  unfoldable pub check_input : Request → Exec W (Unit {0})
  unfolding routed
  check_input rq =
      if rq.is_cloneable
      then give tt
      else routed none no_fallback (adapter (adapter_error config none))

  -- `execute` of a workload that has a policy.
  unfoldable pub execute_policy : Request → ℕ → Exec W (Option (Answer O))
  unfolding check_input check_candidate loop reset_attempts
  execute_policy rq fuel = do
    reset_attempts
    assert_execution_available h c
    check_input rq
    primary ←
        check_candidate (get_route g p.primary_route_id) no_fallback
          (get_route g p.primary_route_id)
    loop rq (some primary) fuel no_fallback none (some primary)

unfoldable pub find_policy : String → List Policy → Option Policy
find_policy id [] = none
find_policy id (q ∷ qs) = if str_eq q.workload_id id then some q else find_policy id qs

-- `execute`, by what `policies.get(workloadId)` finds.
unfoldable pub execute_with :
    {W O : Type 0}
    → Host W O
    → Registry
    → Context
    → Request
    → ℕ
    → Option Policy
    → Exec W (Option (Answer O))
unfolding execute_policy refusal fail
execute_with h g c rq fuel none = fail (refusal config)
execute_with h g c rq fuel (some p) =
    if js_length rq.attempt_id == 0 || rq.units == 0
    then fail (refusal config)
    else execute_policy h g c p rq fuel

unfoldable pub execute :
    {W O : Type 0}
    → Host W O
    → Registry
    → Context
    → List Policy
    → String
    → Request
    → ℕ
    → Exec W (Option (Answer O))
unfolding execute_with find_policy
execute h g c ps workload_id rq fuel = execute_with h g c rq fuel (find_policy workload_id ps)
