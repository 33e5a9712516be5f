-- ===== src/Provider/Router/Rounds.antt =====
-- Code: the loop of `execute` in server/ai/provider-router.js: how many rounds it can take.
use tech_pulse_ai.Prelude.{
  Bool, Bool-cases, List, Option, Result, String, arith, false, if◌then◌else◌, inl, inr, is_some,
  js_length, ltb, none, not, ok, refl, some, suc, true, zero, ℕ, ◌&&◌, ◌==◌, ◌||◌, ◌≡◌, ◌≢◌, ◌≤◌,
}
use tech_pulse_ai.Provider.Taxonomy.{
  Failure, Fallback, adapter, adapter_error, ambiguous, cancellation_error, config,
  domain_outcome_of, is_local, no_fallback, provider_fallback, provider_retryable, refusal,
}
use tech_pulse_ai.Provider.Execution.{
  ◌>>=◌, Context, Exec, Host, Route, State, assert_execution_available, attempt, either,
  execution_unavailable, get_attempts, give, reset_attempts,
}
use tech_pulse_ai.Provider.Execution.Triples.{
  Returns, Returns-after, Returns-bind, Returns-fail, Returns-give, Returns-if,
}
use tech_pulse_ai.Provider.Calls.{report_provider_domain}
use tech_pulse_ai.Provider.Registry.{DomainAdmission, Registry, get_route}
use tech_pulse_ai.Provider.Router.{
  after_failure, call_route, cancel_report, check_candidate, check_input, continue_with,
  enter_domain, execute, execute_policy, execute_with, failed, find_policy, loop, on_failure,
  on_success, refused_domain, report_success, routed, run_admitted, run_route, turn, unreported,
}
use tech_pulse_ai.Provider.Routes.{
  is_empty, is_primary, Answer, Policy, Request, Turn, again, answer_of, candidate, candidate_route,
  finished, id_of, last_error, next_turn, stopped,
}

-- A round that goes round again comes from the primary route and goes to a fallback.
unfoldable pub moves_on : {O : Type 0} → Fallback → Turn O → Bool
unfolding is_primary
moves_on f (again next e) = is_primary f && not (is_primary next)
moves_on f _ = true

next_turn-moves_on :
    (O : Type 0) (p : Policy) (f : Fallback) (n : ℕ) (e : Failure)
    → moves_on {O = O} f (next_turn p f n e) ≡ true
unfolding next_turn moves_on is_primary
next_turn-moves_on O p f n e = elim (Bool-cases (is_primary f)) [
  | inl i ↦ ground arith
  | inr i ↦ ground arith
]

module _ {W O : Type 0} (h : Host W O) (g : Registry) (c : Context) (p : Policy)
    (route : Option Route) (f : Fallback) where
  pub routed-Returns :
      {A : Type 0} {Q : A → Type 0} (e : Failure) → Returns Q (routed h g c p {A = A} route f e)
  unfolding routed
  routed-Returns e = Returns-bind get_attempts (λ n. Returns-fail _)

  abbrev Moves : Turn O → Type 0
  Moves t = moves_on f t ≡ true

  refused_domain-Returns : (d : Option ℕ) → Returns Moves (refused_domain h g c p route f d)
  unfolding refused_domain moves_on is_primary
  refused_domain-Returns d =
      let e = adapter (adapter_error provider_retryable d) in
      Returns-if (is_primary f && not (is_empty p.provider_fallback_route_ids))
        (λ i. Returns-give (again provider_fallback e) (ground arith)) (routed-Returns e)

  after_failure-Returns :
      (e : Failure) (r : Result Failure (Unit {0}))
      → Returns Moves (after_failure h g c p route f e r)
  unfolding after_failure
  after_failure-Returns e (Result.ok u) =
      Returns-bind get_attempts
        (λ n. Returns-give (next_turn p f n e) (next_turn-moves_on O p f n e))
  after_failure-Returns e (Result.err x) = routed-Returns (adapter (adapter_error ambiguous none))

  failed-Returns :
      (id : String) (i : Option String) (e : Failure) (b : Bool)
      → Returns Moves (failed h g c p route f id i e b)
  unfolding failed
  failed-Returns id i e true =
      Returns-bind (cancel_report h g c p id i) (λ x. Returns-fail (adapter cancellation_error))
  failed-Returns id i e false =
      Returns-if (is_local e) (λ l. Returns-bind (cancel_report h g c p id i) (λ x. Returns-fail e))
        (Returns-bind (attempt (report_provider_domain h g id i (domain_outcome_of e)))
          (after_failure-Returns e))

  on_failure-Returns :
      (id : String) (i : Option String) (e : Failure)
      → Returns Moves (on_failure h g c p route f id i e)
  unfolding on_failure
  on_failure-Returns id i e = Returns-bind (execution_unavailable h c) (failed-Returns id i e)

  on_success-Returns :
      (id : String) (i : Option String) (out : O)
      → Returns Moves (on_success h g c p route f id i out)
  unfolding on_success moves_on answer_of unreported either
  on_success-Returns id i out = Returns-bind (attempt (report_success h g c p id i)) go
    where
      go :
          (r : Result Failure (Unit {0}))
          → Returns Moves (
              either
                (unreported h g c p route f id i)
                (λ _. get_attempts >>= λ n. give (answer_of p route f out n))
                r)
      go (Result.ok u) =
          Returns-bind get_attempts (λ n. Returns-give (answer_of p route f out n) refl)
      go (Result.err e) = Returns-bind (execution_unavailable h c) (λ b.
          Returns-if b
            (λ _.
              Returns-bind (cancel_report h g c p id i)
                (λ x. Returns-fail (adapter cancellation_error)))
            (routed-Returns (adapter (adapter_error ambiguous none))))

  run_admitted-Returns :
      (id : String) (a : DomainAdmission) → Returns Moves (run_admitted h g c p route f id a)
  unfolding run_admitted either
  run_admitted-Returns id a =
      Returns-if a.allowed (λ _. Returns-bind (attempt (run_route h g c p f id)) go)
        (refused_domain-Returns a.retry_after_seconds)
    where
      go :
          (r : Result Failure O)
          → Returns Moves (
              either
                (on_failure h g c p route f id a.reservation_id)
                (on_success h g c p route f id a.reservation_id)
                r)
      go (Result.ok out) = on_success-Returns id a.reservation_id out
      go (Result.err e) = on_failure-Returns id a.reservation_id e

  call_route-Returns :
      (rq : Request) (id : String) → Returns Moves (call_route h g c p rq f route id)
  unfolding call_route
  call_route-Returns rq id =
      Returns-bind (enter_domain h g c p rq route f id) (run_admitted-Returns id)

module _ {W O : Type 0} (h : Host W O) (g : Registry) (c : Context) (p : Policy) (rq : Request)
    (primary : Option Route) where
  turn-moves_on : (f : Fallback) → Returns (λ t. moves_on f t ≡ true) (turn h g c p rq primary f)
  unfolding turn
  turn-moves_on f = Returns-bind (assert_execution_available h c) (λ u.
      Returns-bind (check_candidate h g c p primary f (candidate_route g (candidate p f)))
        (λ r. call_route-Returns h g c p (some r) f rq (id_of (candidate p f))))

-- How many rounds there can still be.
rounds : Fallback → ℕ
unfolding is_primary
rounds f = if is_primary f then 2 else 1

abbrev Settled : {A : Type 0} → Option A → Type 0
Settled o = is_some o ≡ true

continue_with-Returns :
    {W O : Type 0} (h : Host W O) (g : Registry) (c : Context) (p : Policy)
    (rest : Fallback → Option Failure → Option Route → Exec W (Option (Answer O))) (f : Fallback)
    → ((next : Fallback) (e : Option Failure) (r : Option Route)
        → is_primary f && not (is_primary next) ≡ true
        → Returns Settled (rest next e r))
    → (t : Turn O) → moves_on f t ≡ true
    → Returns Settled (continue_with h g c p rest f t)
unfolding continue_with moves_on
continue_with-Returns h g c p rest f k (finished a) m = Returns-give (some a) refl
continue_with-Returns h g c p rest f k (again next e) m =
    k next (some e) (candidate_route g (candidate p f)) m
continue_with-Returns h g c p rest f k (stopped e) m =
    routed-Returns h g c p (candidate_route g (candidate p f)) f e

module _ {W O : Type 0} (h : Host W O) (g : Registry) (c : Context) (p : Policy) (rq : Request)
    (primary : Option Route) where
  loop-Returns :
      (fuel : ℕ) (f : Fallback) (e : Option Failure) (r : Option Route)
      → rounds f ≤ fuel
      → Returns Settled (loop h g c p rq primary fuel f e r)
  unfolding loop rounds is_primary
  loop-Returns zero f e r l = ground arith
  loop-Returns (suc n) f e r l =
      let ih = loop-Returns n in
      Returns-bind get_attempts (λ k.
        Returns-if (ltb k p.max_external_attempts)
          (λ _. Returns-after (turn-moves_on h g c p rq primary f) (
            continue_with-Returns h g c p (loop h g c p rq primary n) f
              (λ next x y m. ih next x y (ground arith))))
          (routed-Returns h g c p r f (last_error e)))

execute_policy-Returns :
    {W O : Type 0} (h : Host W O) (g : Registry) (c : Context) (p : Policy) (rq : Request)
    (fuel : ℕ)
    → 2 ≤ fuel
    → Returns Settled (execute_policy h g c p rq fuel)
unfolding execute_policy rounds
execute_policy-Returns h g c p rq fuel l = Returns-bind reset_attempts (λ u.
    Returns-bind (assert_execution_available h c) (λ v. Returns-bind (check_input h g c p rq) (λ w.
      Returns-bind
        (check_candidate h g c p (get_route g p.primary_route_id) no_fallback
          (get_route g p.primary_route_id))
        (λ r. loop-Returns h g c p rq (some r) fuel no_fallback none (some r) l))))

execute_with-Returns :
    {W O : Type 0} (h : Host W O) (g : Registry) (c : Context) (rq : Request) (fuel : ℕ)
    (o : Option Policy)
    → 2 ≤ fuel
    → Returns Settled (execute_with h g c rq fuel o)
unfolding execute_with
execute_with-Returns h g c rq fuel none l = Returns-fail (refusal config)
execute_with-Returns h g c rq fuel (some p) l =
    Returns-if (js_length rq.attempt_id == 0 || rq.units == 0) (λ _. Returns-fail (refusal config))
      (execute_policy-Returns h g c p rq fuel l)

-- `execute` needs no more than two rounds of its loop: given fuel for two, it never runs out, whatever
-- the host answers.
pub execute_terminates :
    {W O : Type 0} (h : Host W O) (g : Registry) (c : Context) (ps : List Policy) (id : String)
    (rq : Request) (fuel : ℕ) (s : State W)
    → 2 ≤ fuel
    → (execute h g c ps id rq fuel s).0 ≢ ok none
unfolding execute
execute_terminates h g c ps id rq fuel s l e =
    let w = (execute_with-Returns h g c rq fuel (find_policy id ps) l).returned s none e in
    ground arith
