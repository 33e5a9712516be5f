-- ===== src/Provider/FailureDomain/Tests.antt =====
-- The theorems about failure domains at concrete calls.
use tech_pulse_ai.Prelude.{List, [], arith, false, none, refl, some, true, ◌∷◌, ◌≡◌}
use tech_pulse_ai.Provider.FailureDomain.{
  Domain, State, admit, admit_provider_call, apply_admission, apply_outcome, base_state, closed,
  expire_probe, half_open, initial_state, is_known, is_stale, model_retryable_failure, open_phase,
  terminal_failure, provider_retryable_failure, record_provider_call_outcome, report, settle,
  succeeded, valid_domain, valid_reservation_id,
}
use tech_pulse_ai.Provider.FailureDomain.Consistent.{
  Call, IsConsistent, admits, reports, run, run-IsConsistent,
}
use tech_pulse_ai.Provider.FailureDomain.Closed.{IsClosed, is_provider_failure, run-IsClosed}
use tech_pulse_ai.Provider.FailureDomain.Probe.{
  third_failure_opens, is_allowed, probe_excludes, domain_recovers,
}

abbrev gemini : Domain
gemini = record {
  provider_failure_domain_id = "gemini";
  config_version = 1;
  failure_threshold = 3;
  cooldown_seconds = 60;
}

abbrev outage : List Call
outage =
    admits gemini "call-one" (some 0)
    ∷ reports gemini "call-one" provider_retryable_failure (some 5)
    ∷ reports gemini "call-two" provider_retryable_failure (some 6)
    ∷ reports gemini "call-three" provider_retryable_failure (some 7)
    ∷ []

abbrev down : State
down = record {
  provider_failure_domain_id = "gemini";
  config_version = 1;
  state = open_phase;
  consecutive_retryable_failures = 3;
  cooldown_until = some 60007;
  half_open_probe = none;
  updated_at = 7;
}

abbrev probing : State
probing = record down {
  state = half_open;
  cooldown_until = none;
  half_open_probe = some "call-four";
  updated_at = 60007;
}

abbrev idle : State
idle = record down { state = closed; consecutive_retryable_failures = 0; cooldown_until = none }

outage-down : run none outage ≡ some down
unfolding run admit_provider_call record_provider_call_outcome apply_admission apply_outcome
    base_state valid_domain valid_reservation_id is_stale initial_state expire_probe admit report
    settle is_known
outage-down = refl

run-IsConsistent_example : IsConsistent (run none outage)
run-IsConsistent_example = run-IsConsistent none outage tt

domain_recovers_example :
    is_allowed (apply_admission (some down) gemini "call-five" (some 60007)) ≡ true
unfolding valid_domain is_stale valid_reservation_id
domain_recovers_example =
    domain_recovers outage down gemini "call-five" 60007 outage-down refl refl refl (omega arith)

abbrev strangers : List Call
strangers =
    admits gemini "call-five" (some 60010)
    ∷ reports gemini "call-two" succeeded (some 60020)
    ∷ reports gemini "call-three" provider_retryable_failure (some 60030)
    ∷ admits gemini "call-six" (some 120006)
    ∷ []

probe_excludes_example :
    (run (some probing) strangers ≡ some probing)
    × (is_allowed (apply_admission (run (some probing) strangers) gemini "call-seven" (some 100000))
        ≡ false)
probe_excludes_example =
    probe_excludes probing "call-four" strangers gemini "call-seven" 100000 refl refl
      ((refl, omega arith), (refl, (refl, ((refl, omega arith), tt)))) refl (omega arith)

third_failure_opens_example :
    let s1 = (report idle gemini "call-one" provider_retryable_failure 5).state in
    let s2 = (report s1 gemini "call-two" provider_retryable_failure 6).state in
    let s3 = (report s2 gemini "call-three" provider_retryable_failure 7).state in
    (s3.state ≡ open_phase) × (s3.cooldown_until ≡ some 60007)
third_failure_opens_example =
    third_failure_opens idle gemini "call-one" "call-two" "call-three" 5 6 7 (refl, refl) refl

abbrev mishaps : List Call
mishaps =
    admits gemini "call-one" (some 0)
    ∷ reports gemini "call-one" model_retryable_failure (some 5)
    ∷ reports gemini "call-two" terminal_failure (some 6)
    ∷ reports gemini "call-three" model_retryable_failure (some 7)
    ∷ []

run-IsClosed_example : IsClosed (run (some idle) mishaps)
unfolding is_provider_failure
run-IsClosed_example = run-IsClosed (some idle) mishaps (refl, (refl, (refl, tt))) refl
