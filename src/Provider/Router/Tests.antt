-- ===== src/Provider/Router/Tests.antt =====
-- Code: server/ai/provider-router.js and server/ai/provider-admission.js. A host whose clock counts its
-- readings and whose first model is out of order, and the runs of a policy with a fallback on it.
use tech_pulse_ai.Prelude.{
  String, [], arith, err, false, if◌then◌else◌, none, ok, refl, some, str_eq, true, ℕ, ◌+◌, ◌∷◌,
  ◌≡◌, ◌≢◌,
}
use tech_pulse_ai.Provider.Taxonomy.{adapter, adapter_error, model_retryable}
use tech_pulse_ai.Provider.Execution.{
  Context, Host, Reply, Route, State, call, summary, zdr_verified,
}
use tech_pulse_ai.Provider.Execution.Steady.{call-Takes}
use tech_pulse_ai.Provider.Execution.Triples.{Takes}
use tech_pulse_ai.Provider.Calls.{observe_all, run}
use tech_pulse_ai.Provider.Registry.{Call, Registry}
use tech_pulse_ai.Provider.Calls.Releases.{run_gives_back}
use tech_pulse_ai.Provider.Calls.Reservations.{IsBusy, owed, releases, reservations}
use tech_pulse_ai.Provider.Router.{execute, find_policy}
use tech_pulse_ai.Provider.Routes.{Policy, Request}
use tech_pulse_ai.Provider.Router.Budget.{IsWithinPolicy, execute-IsWithinPolicy}
use tech_pulse_ai.Provider.Router.Rounds.{execute_terminates}

abbrev allowed : Reply
allowed = record { allowed = true; retry_after_seconds = none }

abbrev host : Host ℕ String
host = record {
  now = λ w. (some w, w + 1);
  is_aborted = λ w. (false, w);
  is_overtaken = λ w. (false, w);
  fresh_id = λ w. ("id", w + 1);
  reserve = λ r id t w. (ok allowed, w);
  release = λ id o e t w. (ok tt, w);
  admit_domain = λ d id t w. (ok allowed, w);
  report_domain = λ d id o t w. (ok tt, w);
  invoke = λ r w.
      if str_eq r.model "small"
      then (err (adapter (adapter_error model_retryable none)), w)
      else (ok "text", w);
  validate_output = λ r o w. (ok o, w);
}

abbrev route : String → String → Route
route id model = record {
  route_id = id;
  admission_domain_id = "budget";
  provider_failure_domain_id = "acme";
  model = model;
  enabled = true;
  operations = summary ∷ [];
  capability = zdr_verified;
  evidence_expires_at = some 1000;
  artifact_compatibility_id = none;
  embedding_dimensions = none;
  embedding_version = none;
}

abbrev registry : Registry
registry = record {
  routes = route "first" "small" ∷ route "second" "large" ∷ [];
  domains = "budget" ∷ [];
  provider_failure_domains = "acme" ∷ [];
}

abbrev policy : Policy
policy = record {
  workload_id = "article-summary";
  operation = summary;
  required_capability = zdr_verified;
  max_external_attempts = 2;
  primary_route_id = "first";
  model_fallback_route_ids = "second" ∷ [];
  provider_fallback_route_ids = [];
}

abbrev request : Request
request = record { attempt_id = "attempt"; units = 1; is_cloneable = true }

abbrev context : Context
context = record { has_signal = true; deadline = some 500 }

abbrev start : State ℕ
start = record { world = 0; held = false; external_attempts = 0; late = []; trace = [] }

abbrev ended : State ℕ
ended = (execute host registry context (policy ∷ []) "article-summary" request 2 start).1

execute_terminates_example :
    (execute host registry context (policy ∷ []) "article-summary" request 2 start).0 ≢ ok none
execute_terminates_example =
    execute_terminates host registry context (policy ∷ []) "article-summary" request 2 start
      (omega arith)

execute-IsWithinPolicy_example : IsWithinPolicy policy ended
unfolding find_policy
execute-IsWithinPolicy_example =
    execute-IsWithinPolicy host registry context (policy ∷ []) "article-summary" request 2 start
      policy refl refl

abbrev first_call : Call
first_call = record { route_id = "first"; capability = zdr_verified; kind = "summary" }

abbrev slow_host : Host ℕ String
slow_host = record host { is_overtaken = λ w. (true, w) }

invoke-IsBusy :
    (id : String) (r : Route)
    → Takes (IsBusy "id" id 0) (IsBusy "id" id 0) (call {W = ℕ} (slow_host.invoke r))
unfolding reservations releases
invoke-IsBusy id r =
    call-Takes (record { on_world = λ s w x. record { even = x.even } }) (slow_host.invoke r)

-- The host answers the reservation, and the abort has come before.
run_gives_back_example :
    let t = (run slow_host registry context first_call (λ r. call (slow_host.invoke r)) start).1 in
    let u = (observe_all slow_host registry t).1 in
    (reservations "id" t ≡ releases "id" t + owed "id" t.late)
    × (reservations "id" u ≡ releases "id" u)
unfolding releases reservations
run_gives_back_example =
    run_gives_back slow_host registry context first_call (λ r. call (slow_host.invoke r)) start "id"
      invoke-IsBusy refl refl refl
