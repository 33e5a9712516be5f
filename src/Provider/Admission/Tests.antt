-- ===== src/Provider/Admission/Tests.antt =====
-- The theorems about admission at concrete calls.
use tech_pulse_ai.Prelude.{
  true, List, String, [], arith, false, if◌then◌else◌, none, ok, refl, some, str_eq, ℕ, ◌*◌, ◌+◌,
  ◌∷◌, ◌≡◌, ◌≤◌,
}
use tech_pulse_ai.Provider.Admission.{
  Circuit, Domain, Request, State, admit, after_cooldown, apply_provider_release,
  apply_provider_reservation, base_state, cancelled, circuit_for, circuit_open, cooling_seconds,
  day, drop_probe, entered, fail_circuit, fresh_state, granted, holds_call, holds_reservation,
  is_cooling, is_half_open, live_reservations, lost_probe, new_circuit, open_circuit, prune_circuit,
  rebased, refused, release_from, release_provider_call, reservation_of, reserve_from,
  reserve_provider_call, retry_seconds, retryable_failure, same_domain, same_identity,
  settle_circuit, store_circuit, valid_identity, valid_request, window_ms, window_start, without,
}
use tech_pulse_ai.Provider.Admission.Bounds.{
  Call, IsBoundedStore, releases, reserves, run, run-IsBounded, step,
}
use tech_pulse_ai.Provider.Admission.Breaker.{
  fail_times, fail_times_open, release_from-circuits, reserve_from-cooling,
  reserve_provider_call-cooling,
}
use tech_pulse_ai.Provider.Admission.Recovery.{IsTimely, recovers}

abbrev openai : Domain
openai = record {
  admission_domain_id = "llm";
  provider_id = some "openai";
  provider = none;
  max_concurrency = 4;
  budget_limit = 100;
  budget_window = day;
}

abbrev request : String → ℕ → Request
request id now = record {
  domain = openai;
  admission_domain_id = "llm";
  route_id = "primary";
  reservation_id = id;
  attempt_id = "attempt";
  attempt_is_object_id = true;
  kind = "summary";
  units = 1;
  now = some now;
  expires_at = some (now + 60000);
}

abbrev three_failures : List Call
three_failures =
    reserves (request "call-one" 0)
    ∷ reserves (request "call-two" 1)
    ∷ reserves (request "call-three" 2)
    ∷ releases "primary" "call-one" retryable_failure (some 10)
    ∷ releases "primary" "call-two" retryable_failure (some 11)
    ∷ releases "primary" "call-three" retryable_failure (some 12)
    ∷ []

abbrev tripped : Circuit
tripped = record {
  route_id = "primary";
  state = open_circuit;
  consecutive_retryable_failures = 3;
  cooldown_until = some 60012;
  half_open_probe = none;
}

abbrev blocked : State
blocked = record {
  admission_domain_id = "llm";
  provider_id = some "openai";
  provider = none;
  active_reservations = [];
  max_concurrency = 4;
  budget_window_start = some 0;
  spent_units = 3;
  budget_limit = 100;
  route_circuits = tripped ∷ [];
  updated_at = 12;
}

abbrev busy : State
busy = record blocked {
  active_reservations =
      record {
        reservation_id = "call-one";
        route_id = "primary";
        attempt_id = "attempt";
        kind = "summary";
        expires_at = 60000;
      }
      ∷ [];
}

three_failures_open : run none three_failures ≡ some blocked
unfolding run step reserve_provider_call release_provider_call apply_provider_reservation
    apply_provider_release valid_request base_state valid_identity window_ms same_domain
    same_identity fresh_state rebased window_start live_reservations prune_circuit lost_probe
    reserve_from admit holds_reservation circuit_for new_circuit store_circuit is_cooling
    after_cooldown cooling_seconds retry_seconds entered is_half_open reservation_of release_from
    holds_call without settle_circuit drop_probe fail_circuit
three_failures_open = refl

run-IsBounded_example : IsBoundedStore (run none three_failures)
run-IsBounded_example = run-IsBounded none three_failures tt

fail_times_open_example :
    ((fail_times tripped (("call-a1", 1) ∷ ("call-a2", 2) ∷ ("call-a3", 3) ∷ [])).state
      ≡ open_circuit)
    × ((fail_times tripped
          (("call-a1", 1) ∷ ("call-a2", 2) ∷ ("call-a3", 3) ∷ [])).consecutive_retryable_failures
        ≡ 3)
fail_times_open_example = fail_times_open tripped ("call-a1", 1) ("call-a2", 2) ("call-a3", 3) []

reserve_provider_call-cooling_example :
    reserve_provider_call (some blocked) (request "call-four" 50) ≡ some blocked
unfolding circuit_for holds_reservation
reserve_provider_call-cooling_example =
    reserve_provider_call-cooling blocked (request "call-four" 50) 50 60012 refl refl refl
      (omega arith) refl

reserve_from-cooling_example :
    (secs : ℕ) × (after : State) × (reserve_from blocked (request "call-four" 50) 86400000 50 60050
      ≡ refused circuit_open secs after)
    × (1 ≤ secs)
    × (60012 ≤ 50 + 1000 * secs)
unfolding circuit_for holds_reservation
reserve_from-cooling_example =
    reserve_from-cooling blocked (request "call-four" 50) 86400000 50 60050 60012 refl refl
      (omega arith) refl

timely : IsTimely 0 12 three_failures
timely = (
  0,
  omega arith,
  (refl, 60000, refl, omega arith),
  (
    1,
    omega arith,
    (refl, 60001, refl, omega arith),
    (
      2,
      omega arith,
      (refl, 60002, refl, omega arith),
      (10, omega arith, refl, (11, omega arith, refl, (12, omega arith, refl, omega arith))),
    ),
  ),
)

recovers_example :
    (s : State) × (apply_provider_reservation (some blocked) (request "call-four" 60012)
      ≡ ok (granted s false))
unfolding valid_request base_state valid_identity window_ms same_domain same_identity rebased
    window_start live_reservations prune_circuit lost_probe
recovers_example =
    recovers three_failures blocked (record blocked { updated_at = 60012 })
      (request "call-four" 60012) 12 60012 120012 timely three_failures_open (omega arith) refl refl
      refl refl (omega arith) (omega arith)

release_from-circuits_example :
    (circuit_for (release_from busy "primary" "call-one" cancelled 5).route_circuits "backup" ≡ (
      if str_eq "primary" "backup"
      then settle_circuit (circuit_for busy.route_circuits "primary") "call-one" cancelled 5
      else circuit_for busy.route_circuits "backup"))
    × ((release_from busy "primary" "call-one" cancelled 5).spent_units ≡ 3)
    × ((release_from busy "primary" "call-one" cancelled 5).max_concurrency ≡ 4)
    × ((release_from busy "primary" "call-one" cancelled 5).budget_limit ≡ 100)
unfolding holds_call reservation_of
release_from-circuits_example =
    release_from-circuits busy "primary" "call-one" "backup" cancelled 5 refl
