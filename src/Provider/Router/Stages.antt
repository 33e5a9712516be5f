-- ===== src/Provider/Router/Stages.antt =====
-- Code: server/ai/provider-router.js: the rounds of `execute`, by what they call.
use tech_pulse_ai.Prelude.{
  Bool, Option, Result, String, arith, err, false, none, not, ok, some, true, ℕ, ◌&&◌, ◌||◌, ◌≡◌,
}
use tech_pulse_ai.Provider.Taxonomy.{
  Failure, Fallback, adapter, adapter_error, ambiguous, cancellation_error, cancelled, config,
  domain_outcome_of, is_local, provider_fallback, provider_retryable, succeeded,
}
use tech_pulse_ai.Provider.Execution.{◌>>=◌, Context, Host, Route, State, ask, fail, get_attempts}
use tech_pulse_ai.Provider.Execution.Steady.{available-Takes, either-Takes, unavailable-Takes}
use tech_pulse_ai.Provider.Execution.Triples.{
  Returns, Takes, Keeps-bind, Returns-bind, Returns-either, Takes-attempt, Takes-fail, Takes-give,
  Takes-if,
}
use tech_pulse_ai.Provider.Registry.{DomainAdmission, Registry, get_route}
use tech_pulse_ai.Provider.Router.{
  after_failure, cancel_report, check_candidate, enter_domain, failed, not_admitted, on_failure,
  on_success, refused_domain, report_success, routed, still_admitted, stop_admission, unreported,
}
use tech_pulse_ai.Provider.Routes.{
  is_empty, is_primary, Policy, Request, again, answer_of, assert_candidate, candidate_route, id_of,
  next_turn,
}
use tech_pulse_ai.Provider.Router.Quiet.{
  Keeps, Within-IsSteady, admit_provider_domain-Takes, get_attempts-Takes,
  report_provider_domain-Takes,
}
use tech_pulse_ai.Provider.Router.Bounds.{assert_candidate-permits, permitted}
use tech_pulse_ai.Provider.Router.Rounds.{routed-Returns}

module _ {W O : Type 0} (h : Host W O) (g : Registry) (c : Context) (q : Policy) where
  pub routed-Takes :
      {A : Type 0} {P : State W → Type 0} (route : Option Route) (f : Fallback) (e : Failure)
      → Takes P P (routed h g c q {A = A} route f e)
  unfolding routed get_attempts fail ◌>>=◌
  routed-Takes route f e = record { taken = λ s x. x }

  pub check_candidate-Returns :
      (primary : Option Route) (f : Fallback) (o : Option Route)
      → Returns (λ r. (o ≡ some r) × (permitted q r ≡ true)) (check_candidate h g c q primary f o)
  unfolding check_candidate
  check_candidate-Returns primary f o = Returns-bind (ask h.now) (λ t.
      Returns-either (assert_candidate q primary f t o) (routed-Returns h g c q o f)
        (assert_candidate-permits q primary f t o))

pub candidate_route-get :
    (g : Registry) (o : Option String) (r : Route)
    → candidate_route g o ≡ some r
    → get_route g (id_of o) ≡ some r
unfolding candidate_route id_of
candidate_route-get g none r e = ground arith
candidate_route-get g (some id) r e = e

module _ {W O : Type 0} (h : Host W O) (g : Registry) (c : Context) (q : Policy) (p : Route → Bool)
    (k : ℕ) (route : Option Route) (f : Fallback) (id : String) where
  cancel_report-Takes : (i : Option String) → Keeps p k (cancel_report h g c q id i)
  unfolding cancel_report
  cancel_report-Takes i = Takes-attempt (report_provider_domain-Takes h g id i cancelled)

  stop_admission-Takes : (i : Option String) → Keeps p k (stop_admission h g c q id i)
  unfolding stop_admission
  stop_admission-Takes none = Takes-fail (adapter cancellation_error)
  stop_admission-Takes (some r) =
      Keeps-bind (cancel_report-Takes (some r)) (λ u. Takes-fail (adapter cancellation_error))

  not_admitted-Takes :
      (i : Option String) (e : Failure) → Keeps p k (not_admitted h g c q route f id i e)
  unfolding not_admitted
  not_admitted-Takes i e = Keeps-bind (unavailable-Takes Within-IsSteady h c) (λ b.
      Takes-if (b || is_local e) (stop_admission-Takes i)
        (routed-Takes h g c q route f (adapter (adapter_error config none))))

  still_admitted-Takes : (a : DomainAdmission) → Keeps p k (still_admitted h g c q route f id a)
  unfolding still_admitted
  still_admitted-Takes a =
      Keeps-bind (Takes-attempt (available-Takes Within-IsSteady h c))
        (either-Takes Within-IsSteady (not_admitted-Takes a.reservation_id) (λ u. Takes-give a))

  pub enter_domain-Takes : (rq : Request) → Keeps p k (enter_domain h g c q rq route f id)
  unfolding enter_domain
  enter_domain-Takes rq =
      Keeps-bind (Takes-attempt (admit_provider_domain-Takes h g c id rq.attempt_id))
        (either-Takes Within-IsSteady (not_admitted-Takes none) still_admitted-Takes)

  pub refused_domain-Takes : (d : Option ℕ) → Keeps p k (refused_domain h g c q route f d)
  unfolding refused_domain
  refused_domain-Takes d =
      let e = adapter (adapter_error provider_retryable d) in
      Takes-if (is_primary f && not (is_empty q.provider_fallback_route_ids))
        (Takes-give (again provider_fallback e)) (routed-Takes h g c q route f e)

  after_failure-Takes :
      (e : Failure) (r : Result Failure (Unit {0})) → Keeps p k (after_failure h g c q route f e r)
  unfolding after_failure
  after_failure-Takes e (ok u) = Keeps-bind get_attempts-Takes (λ n. Takes-give (next_turn q f n e))
  after_failure-Takes e (err x) =
      routed-Takes h g c q route f (adapter (adapter_error ambiguous none))

  failed-Takes :
      (i : Option String) (e : Failure) (b : Bool) → Keeps p k (failed h g c q route f id i e b)
  unfolding failed
  failed-Takes i e true =
      Keeps-bind (cancel_report-Takes i) (λ u. Takes-fail (adapter cancellation_error))
  failed-Takes i e false =
      Takes-if (is_local e) (Keeps-bind (cancel_report-Takes i) (λ u. Takes-fail e)) (
        Keeps-bind (Takes-attempt (report_provider_domain-Takes h g id i (domain_outcome_of e)))
          (after_failure-Takes e))

  pub on_failure-Takes :
      (i : Option String) (e : Failure) → Keeps p k (on_failure h g c q route f id i e)
  unfolding on_failure
  on_failure-Takes i e = Keeps-bind (unavailable-Takes Within-IsSteady h c) (failed-Takes i e)

  unreported-Takes :
      (i : Option String) (e : Failure) → Keeps p k (unreported h g c q route f id i e)
  unfolding unreported
  unreported-Takes i e = Keeps-bind (unavailable-Takes Within-IsSteady h c) (λ b.
      Takes-if b (Keeps-bind (cancel_report-Takes i) (λ u. Takes-fail (adapter cancellation_error)))
        (routed-Takes h g c q route f (adapter (adapter_error ambiguous none))))

  report_success-Takes : (i : Option String) → Keeps p k (report_success h g c q id i)
  unfolding report_success
  report_success-Takes i =
      Keeps-bind (available-Takes Within-IsSteady h c)
        (λ u. report_provider_domain-Takes h g id i succeeded)

  pub on_success-Takes :
      (i : Option String) (out : O) → Keeps p k (on_success h g c q route f id i out)
  unfolding on_success
  on_success-Takes i out = Keeps-bind (Takes-attempt (report_success-Takes i)) (
      either-Takes Within-IsSteady (unreported-Takes i)
        (λ u. Keeps-bind get_attempts-Takes (λ n. Takes-give (answer_of q route f out n))))
