-- ===== src/Provider/Router/Bounds.antt =====
-- Code: server/ai/provider-router.js and server/ai/provider-admission.js: how often, and on which routes,
-- `execute` calls a provider.
use mathlib.Core.Path.{subst}
use tech_pulse_ai.Prelude.{
  Bool, Option, String, any, arith, false, none, not, ok, some, suc, true, ℕ, ◌&&◌, ◌||◌, ◌≡◌,
}
use tech_pulse_ai.Provider.Taxonomy.{Fallback}
use tech_pulse_ai.Provider.Execution.{
  Context, Exec, Host, Reply, Route, count_attempt, late_reservation, released_success,
}
use tech_pulse_ai.Provider.Execution.Steady.{
  ask-Takes, available-Takes, await-Takes, call-Takes, either-Takes,
}
use tech_pulse_ai.Provider.Execution.Triples.{
  Takes, Keeps-bind, Returns-either, Returns-fail, Takes-after, Takes-attempt, Takes-bind,
  Takes-fail, Takes-give, Takes-if,
}
use tech_pulse_ai.Provider.Calls.{call_in_slot, reserve_and_call, run, use_slot}
use tech_pulse_ai.Provider.Registry.{Call, Registry, eligible, get_route, needs_zdr, over_budget}
use tech_pulse_ai.Provider.Router.{external_call}
use tech_pulse_ai.Provider.Routes.{serves, same_operation, route_allows, Policy, assert_candidate}
use tech_pulse_ai.Provider.Router.Quiet.{
  Within, Within-IsSteady, all_satisfy, check_evidence-Takes, give_up-Takes, invocations,
  is_invoked, put_late-Takes, release-Takes, request_slot-Takes, satisfies, set_held-Takes,
  Takes-weak, weaken,
}

eligible-same :
    (g : Registry) (q : Call) (t : Option ℕ) (o : Option Route) (r : Route)
    → eligible g q t o ≡ ok r
    → o ≡ some r
unfolding eligible
eligible-same g q t none r e = ground arith
eligible-same g q t (some x) r e = ground arith

module _ {W O : Type 0} (h : Host W O) (g : Registry) (c : Context) {p : Route → Bool} {k : ℕ} where
  count_attempt-Takes :
      (r : Route) → p r ≡ true → Takes (Within p k) (Within p (suc k)) (count_attempt {W = W} r)
  unfolding count_attempt invocations all_satisfy is_invoked satisfies
  count_attempt-Takes r e = record {
    taken = λ s x. record {
      bounded = omega (arith, x.bounded);
      counted = omega (arith, x.counted);
      fit = ground (arith, x.fit);
    };
  }

  pub external_call-Takes :
      (q : Policy) (r : Route)
      → p r ≡ true
      → Takes (Within p k) (Within p (suc k)) (external_call h g c q r)
  unfolding external_call
  external_call-Takes q r e =
      Takes-bind (count_attempt-Takes r e) (λ s x. x)
        (λ u.
          Keeps-bind (call-Takes Within-IsSteady (h.invoke r))
            (λ out. call-Takes Within-IsSteady (h.validate_output r out)))

  -- A call in its reservation is one call at most, of the route.
  module _ (q : Call) (invoke : Route → Exec W O) (r : Route)
      (called : Takes (Within p k) (Within p (suc k)) (invoke r)) where
    use_slot-Takes :
        (id : String) → Takes (Within p k) (Within p (suc k)) (use_slot h g c q invoke r id)
    unfolding use_slot
    use_slot-Takes id = Takes-bind (available-Takes Within-IsSteady h c) weaken (λ u.
        Takes-bind (check_evidence-Takes h g c q r) weaken (λ v.
          Takes-bind called (λ s x. x)
            (λ out. Keeps-bind (available-Takes Within-IsSteady h c) (λ w.
              Keeps-bind (release-Takes h g c id released_success none) (λ x. Takes-give out)))))

    call_in_slot-Takes :
        (id : String) (x : Reply)
        → Takes (Within p k) (Within p (suc k)) (call_in_slot h g c q invoke r id x)
    unfolding call_in_slot
    call_in_slot-Takes id x =
        Takes-if x.allowed
          (Takes-bind (set_held-Takes true) weaken (λ u.
            Takes-bind (Takes-attempt (use_slot-Takes id)) (λ s y. y)
              (either-Takes Within-IsSteady (give_up-Takes h g c id) Takes-give)))
          (Takes-weak (Takes-fail (over_budget x)))

    reserve_and_call-Takes :
        (t : Option ℕ) → Takes (Within p k) (Within p (suc k)) (reserve_and_call h g c q invoke t r)
    unfolding reserve_and_call
    reserve_and_call-Takes t = Takes-bind (ask-Takes Within-IsSteady h.fresh_id) weaken (λ id.
        Takes-bind (set_held-Takes false) weaken (λ u.
          Takes-bind
            (await-Takes Within-IsSteady h c (late_reservation id) (request_slot-Takes h g c r id t)
              (λ x. put_late-Takes (late_reservation id x)))
            weaken (call_in_slot-Takes id)))

  pub run-Takes :
      (q : Call) (invoke : Route → Exec W O) (r : Route)
      → get_route g q.route_id ≡ some r
      → Takes (Within p k) (Within p (suc k)) (invoke r)
      → Takes (Within p k) (Within p (suc k)) (run h g c q invoke)
  unfolding run
  run-Takes q invoke r e called = Takes-bind (available-Takes Within-IsSteady h c) weaken (λ u.
      Takes-bind (ask-Takes Within-IsSteady h.now) weaken (λ t.
        Takes-after
          (either-Takes Within-IsSteady Takes-fail Takes-give
            (eligible g q t (get_route g q.route_id)))
          (Returns-either (eligible g q t (get_route g q.route_id)) Returns-fail
            (eligible-same g q t (get_route g q.route_id)))
          weaken
          (λ x w.
            let l : r ≡ x = ground (arith, e, w) in
            reserve_and_call-Takes q invoke x
              (subst (λ y. Takes (Within p k) (Within p (suc k)) (invoke y)) (l) called) t)))

-- A route that is enabled and serves the operation of the policy; a private policy needs a verified one.
pub permitted : Policy → Route → Bool
unfolding same_operation needs_zdr
permitted q r =
    r.enabled
    && any (same_operation q.operation) r.operations
    && (not (needs_zdr q.required_capability) || needs_zdr r.capability)

pub assert_candidate-permits :
    (q : Policy) (primary : Option Route) (f : Fallback) (t : Option ℕ) (o : Option Route)
    (r : Route)
    → assert_candidate q primary f t o ≡ ok r
    → (o ≡ some r) × (permitted q r ≡ true)
unfolding assert_candidate serves permitted route_allows needs_zdr
assert_candidate-permits q none f t none r e = ground arith
assert_candidate-permits q (some y) f t none r e = ground arith
assert_candidate-permits q none f t (some x) r e = ground arith
assert_candidate-permits q (some y) f t (some x) r e = ground arith
