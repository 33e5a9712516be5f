-- ===== src/Provider/Router/Budget.antt =====
-- Code: server/ai/provider-router.js: the loop of `execute`, by how often and on which routes it calls a
-- provider.
use mathlib.Core.Path.{subst}
use tech_pulse_ai.Prelude.{
  Bool, List, Option, String, [], arith, js_length, ltb, none, some, suc, sym, true, zero, ℕ, ◌==◌,
  ◌||◌, ◌≡◌, ◌≤◌,
}
use tech_pulse_ai.Provider.Taxonomy.{Failure, Fallback, adapter, adapter_error, config, no_fallback}
use tech_pulse_ai.Provider.Execution.{Context, Exec, Host, Route, State, fail, reset_attempts}
use tech_pulse_ai.Provider.Execution.Steady.{ask-Takes, available-Takes, either-Takes}
use tech_pulse_ai.Provider.Execution.Triples.{
  Takes, Keeps-bind, Takes-after, Takes-attempt, Takes-bind, Takes-give, Takes-if, Takes-test,
}
use tech_pulse_ai.Provider.Registry.{Call, DomainAdmission, Registry, get_route}
use tech_pulse_ai.Provider.Router.{
  call_route, check_candidate, check_input, continue_with, execute, execute_policy, execute_with,
  external_call, find_policy, loop, run_admitted, run_route, turn,
}
use tech_pulse_ai.Provider.Routes.{
  Answer, Policy, Request, Turn, again, assert_candidate, candidate, candidate_route, finished,
  id_of, last_error, operation_kind, stopped,
}
use tech_pulse_ai.Provider.Router.Quiet.{
  Keeps, Within, Within-IsSteady, Within-exact, Within-le, all_satisfy, invocations, is_invoked,
  satisfies, Takes-count, Takes-first, Takes-weak, weaken,
}
use tech_pulse_ai.Provider.Router.Bounds.{external_call-Takes, permitted, run-Takes}
use tech_pulse_ai.Provider.Router.Stages.{
  candidate_route-get, check_candidate-Returns, enter_domain-Takes, on_failure-Takes,
  on_success-Takes, refused_domain-Takes, routed-Takes,
}

module _ {W O : Type 0} (h : Host W O) (g : Registry) (c : Context) (q : Policy) where
  run_route-Takes :
      {k : ℕ} (f : Fallback) (id : String) (r : Route)
      → get_route g id ≡ some r
      → permitted q r ≡ true
      → Takes (Within (permitted q) k) (Within (permitted q) (suc k)) (run_route h g c q f id)
  unfolding run_route
  run_route-Takes f id r e w =
      let called = external_call-Takes h g c q r w in
      let request : Call = record {
        route_id = id;
        capability = q.required_capability;
        kind = operation_kind q.operation f;
      } in
      Takes-bind (run-Takes h g c request (external_call h g c q) r e called) (λ s x. x)
        (λ out. Keeps-bind (available-Takes Within-IsSteady h c) (λ u. Takes-give out))

  run_admitted-Takes :
      {k : ℕ} (f : Fallback) (id : String) (r : Route) (a : DomainAdmission)
      → get_route g id ≡ some r
      → permitted q r ≡ true
      → Takes
          (Within (permitted q) k)
          (Within (permitted q) (suc k))
          (run_admitted h g c q (some r) f id a)
  unfolding run_admitted
  run_admitted-Takes {k} f id r a e w =
      let i = a.reservation_id in
      Takes-if a.allowed
        (Takes-bind (Takes-attempt (run_route-Takes f id r e w)) (λ s x. x)
          (either-Takes Within-IsSteady
            (on_failure-Takes h g c q (permitted q) (suc k) (some r) f id i)
            (on_success-Takes h g c q (permitted q) (suc k) (some r) f id i)))
        (Takes-weak
          (refused_domain-Takes h g c q (permitted q) k (some r) f id a.retry_after_seconds))

  call_route-Takes :
      {k : ℕ} (rq : Request) (f : Fallback) (id : String) (r : Route)
      → get_route g id ≡ some r
      → permitted q r ≡ true
      → Takes
          (Within (permitted q) k)
          (Within (permitted q) (suc k))
          (call_route h g c q rq f (some r) id)
  unfolding call_route
  call_route-Takes {k} rq f id r e w =
      Takes-bind (enter_domain-Takes h g c q (permitted q) k (some r) f id rq) weaken
        (λ a. run_admitted-Takes f id r a e w)

  check_candidate-Takes :
      {k : ℕ} (primary : Option Route) (f : Fallback) (o : Option Route)
      → Keeps (permitted q) k (check_candidate h g c q primary f o)
  unfolding check_candidate
  check_candidate-Takes primary f o = Keeps-bind (ask-Takes Within-IsSteady h.now) (λ t.
      either-Takes Within-IsSteady (routed-Takes h g c q o f) Takes-give
        (assert_candidate q primary f t o))

  turn-Takes :
      {k : ℕ} (rq : Request) (primary : Option Route) (f : Fallback)
      → Takes (Within (permitted q) k) (Within (permitted q) (suc k)) (turn h g c q rq primary f)
  unfolding turn
  turn-Takes rq primary f =
      let o = candidate_route g (candidate q f) in
      let found = candidate_route-get g (candidate q f) in
      Takes-bind (available-Takes Within-IsSteady h c) weaken (λ u.
        Takes-after (check_candidate-Takes primary f o)
          (check_candidate-Returns h g c q primary f o) weaken
          (λ r e. call_route-Takes rq f (id_of (candidate q f)) r (found r e.0) e.1))

  -- A round is made only while calls are left.
  round-Takes :
      (rq : Request) (primary : Option Route) (f : Fallback) (k : ℕ)
      → suc k ≤ q.max_external_attempts
      → Takes
          (λ (s : State W).
            Within (permitted q) q.max_external_attempts s × (s.external_attempts ≡ k))
          (Within (permitted q) q.max_external_attempts)
          (turn h g c q rq primary f)
  round-Takes rq primary f k l = record {
    taken = λ s x.
        Within-le (suc k) q.max_external_attempts (turn h g c q rq primary f s).1 l
          ((turn-Takes {k = k} rq primary f).taken s (Within-exact k s x.1 x.0));
  }

  continue_with-Takes :
      {k : ℕ} (rest : Fallback → Option Failure → Option Route → Exec W (Option (Answer O)))
      (f : Fallback)
      → ((next : Fallback) (e : Option Failure) (r : Option Route)
          → Keeps (permitted q) k (rest next e r))
      → (t : Turn O) → Keeps (permitted q) k (continue_with h g c q rest f t)
  unfolding continue_with
  continue_with-Takes rest f go (finished a) = Takes-give (some a)
  continue_with-Takes rest f go (again next e) =
      go next (some e) (candidate_route g (candidate q f))
  continue_with-Takes rest f go (stopped e) =
      routed-Takes h g c q (candidate_route g (candidate q f)) f e

  module _ (rq : Request) (primary : Option Route) where
    loop-Takes :
        (fuel : ℕ) (f : Fallback) (e : Option Failure) (r : Option Route)
        → Keeps (permitted q) q.max_external_attempts (loop h g c q rq primary fuel f e r)
    unfolding loop
    loop-Takes zero f e r = Takes-give none
    loop-Takes (suc n) f e r =
        let ih = loop-Takes n in
        Takes-count (λ k.
          Takes-test (ltb k q.max_external_attempts)
            (λ l.
              Takes-bind (round-Takes rq primary f k (ground (arith, l))) (λ s x. x)
                (continue_with-Takes (loop h g c q rq primary n) f ih))
            (Takes-first (routed-Takes h g c q r f (last_error e))))

check_input-Takes :
    {W O : Type 0} (h : Host W O) (g : Registry) (c : Context) (q : Policy) (rq : Request)
    {P : State W → Type 0}
    → Takes P P (check_input h g c q rq)
unfolding check_input
check_input-Takes h g c q rq =
    Takes-if rq.is_cloneable (Takes-give tt)
      (routed-Takes h g c q none no_fallback (adapter (adapter_error config none)))

-- Nothing is called yet.
IsFresh : {W : Type 0} → State W → Type 0
IsFresh s = s.trace ≡ []

reset-Takes :
    {W : Type 0} {p : Route → Bool} (k : ℕ) → Takes IsFresh (Within p k) (reset_attempts {W = W})
unfolding IsFresh reset_attempts invocations is_invoked all_satisfy satisfies
reset-Takes k = record {
  taken =
      λ s x. record { bounded = omega arith; counted = ground (arith, x); fit = ground (arith, x) };
}

module _ {W O : Type 0} (h : Host W O) (g : Registry) (c : Context) (rq : Request) (fuel : ℕ) where
  execute_policy-Takes :
      (q : Policy)
      → Takes IsFresh
          (Within (permitted q) q.max_external_attempts)
          (execute_policy h g c q rq fuel)
  unfolding execute_policy
  execute_policy-Takes q =
      let primary = get_route g q.primary_route_id in
      Takes-bind (reset-Takes q.max_external_attempts) (λ s x. x)
        (λ u. Keeps-bind (available-Takes Within-IsSteady h c) (λ v.
          Keeps-bind (check_input-Takes h g c q rq) (λ w.
            Keeps-bind (check_candidate-Takes h g c q primary no_fallback primary)
              (λ r. loop-Takes h g c q rq (some r) fuel no_fallback none (some r)))))

-- What the calls of a provider cost, and on which routes they are.
pub record IsWithinPolicy {W : Type 0} (q : Policy) (s : State W) : Type 0 where
  pub few : invocations s ≤ q.max_external_attempts
  pub fit : all_satisfy (permitted q) s ≡ true

Within-policy :
    {W : Type 0} (q : Policy) (s : State W)
    → Within (permitted q) q.max_external_attempts s
    → IsWithinPolicy q s
Within-policy q s x = record { few = omega (arith, x.bounded, x.counted); fit = x.fit }

IsFresh-policy : {W : Type 0} (q : Policy) (s : State W) → IsFresh s → IsWithinPolicy q s
unfolding IsFresh invocations is_invoked all_satisfy satisfies
IsFresh-policy q s x = record { few = ground (arith, x); fit = ground (arith, x) }

module _ {W O : Type 0} (h : Host W O) (g : Registry) (c : Context) (rq : Request) (fuel : ℕ) where
  execute_with-Takes :
      (q : Policy) → Takes IsFresh (IsWithinPolicy q) (execute_with h g c rq fuel (some q))
  unfolding execute_with fail
  execute_with-Takes q =
      Takes-if (js_length rq.attempt_id == 0 || rq.units == 0)
        (record { taken = λ s x. IsFresh-policy q s x })
        (record {
          taken = λ s x.
              Within-policy q (execute_policy h g c q rq fuel s).1
                ((execute_policy-Takes h g c rq fuel q).taken s x);
        })

-- `execute` of a workload with a policy, started before any call of a provider: when it ends, with an
-- answer, an error or without fuel, at most `maxExternalAttempts` calls were made, each on a route that is
-- enabled, that serves the operation of the policy and, where the policy is private, is verified for it.
pub execute-IsWithinPolicy :
    {W O : Type 0} (h : Host W O) (g : Registry) (c : Context) (ps : List Policy) (id : String)
    (rq : Request) (fuel : ℕ) (s : State W) (q : Policy)
    → find_policy id ps ≡ some q
    → s.trace ≡ []
    → IsWithinPolicy q (execute h g c ps id rq fuel s).1
unfolding execute IsFresh
execute-IsWithinPolicy h g c ps id rq fuel s q e f =
    subst (λ o. IsWithinPolicy q (execute_with h g c rq fuel o s).1) (sym e)
      ((execute_with-Takes h g c rq fuel q).taken s f)
