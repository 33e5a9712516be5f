-- ===== src/Provider/Admission/Breaker.antt =====
-- The circuit of a route: when it opens, whom it refuses, and what a release leaves alone.
use tech_pulse_ai.Prelude.{
  List, String, [], arith, false, if◌then◌else◌, refl, some, str_eq, true, ℕ, ◌*◌, ◌+◌, ◌<◌, ◌∙◌,
  ◌∷◌, ◌≡◌, ◌≤◌,
}
use tech_pulse_ai.Provider.Admission.{
  Circuit, Outcome, Request, Reservation, State, circuit_for, circuit_open, holds_call,
  holds_reservation, live_reservations, open_circuit, prune_circuit, refused, release_from,
  reserve_from, reserve_provider_call, retry_seconds, retryable_failure, settle_circuit,
  store_circuit,
}
use tech_pulse_ai.Provider.Admission.Steps.{Granted, base_state-some, reserve_cases}
use tech_pulse_ai.Provider.Admission.Circuits.{
  circuit_for-route, circuit_for-store, rebased-active, rebased-circuit,
}

pub settle_circuit-route :
    (c : Circuit) (id : String) (o : Outcome) (now : ℕ)
    → (settle_circuit c id o now).route_id ≡ c.route_id
unfolding settle_circuit
settle_circuit-route c id o now = ground arith

-- A release of a call that is active settles the circuit of its route by the outcome and leaves
-- the circuit of every other route, the spent budget and the limits as they were.
pub release_from-circuits :
    (s : State) (route id j : String) (o : Outcome) (now : ℕ)
    → holds_call s.active_reservations id route ≡ true
    → (circuit_for (release_from s route id o now).route_circuits j ≡ (
        if str_eq route j
        then settle_circuit (circuit_for s.route_circuits route) id o now
        else circuit_for s.route_circuits j))
      × ((release_from s route id o now).spent_units ≡ s.spent_units)
      × ((release_from s route id o now).max_concurrency ≡ s.max_concurrency)
      × ((release_from s route id o now).budget_limit ≡ s.budget_limit)
unfolding release_from
release_from-circuits s route id j o now h = ground (
  arith,
  circuit_for-store s.route_circuits route j
      (settle_circuit (circuit_for s.route_circuits route) id o now),
  settle_circuit-route (circuit_for s.route_circuits route) id o now,
  circuit_for-route s.route_circuits route,
)

-- The circuit after retryable failures in a row, each of a call and at a time.
pub fail_times : Circuit → List (String × ℕ) → Circuit
fail_times c [] = c
fail_times c ((id, now) ∷ fs) = fail_times (settle_circuit c id retryable_failure now) fs

abbrev IsTripped : Circuit → Type 0
IsTripped c = (c.state ≡ open_circuit) × (c.consecutive_retryable_failures ≡ 3)

fail-counts :
    (c : Circuit) (id : String) (now k : ℕ)
    → k ≤ c.consecutive_retryable_failures
    → k ≤ 2
    → k + 1 ≤ (settle_circuit c id retryable_failure now).consecutive_retryable_failures
unfolding settle_circuit
fail-counts c id now k h b = ground arith

fail-IsTripped :
    (c : Circuit) (id : String) (now : ℕ)
    → 2 ≤ c.consecutive_retryable_failures
    → IsTripped (settle_circuit c id retryable_failure now)
unfolding settle_circuit
fail-IsTripped c id now h = ground arith

fail_times-IsTripped :
    (c : Circuit) (fs : List (String × ℕ)) → IsTripped c → IsTripped (fail_times c fs)
unfolding fail_times
fail_times-IsTripped c [] h = h
fail_times-IsTripped c ((id, now) ∷ fs) h =
    fail_times-IsTripped (settle_circuit c id retryable_failure now) fs
      (fail-IsTripped c id now (omega arith))

-- Three retryable failures in a row, and any number more, leave the circuit of a route open,
-- whatever state it was in, and its failure count at exactly three.
pub fail_times_open :
    (c : Circuit) (x y z : String × ℕ) (fs : List (String × ℕ))
    → ((fail_times c (x ∷ y ∷ z ∷ fs)).state ≡ open_circuit)
      × ((fail_times c (x ∷ y ∷ z ∷ fs)).consecutive_retryable_failures ≡ 3)
unfolding fail_times
fail_times_open c x y z fs =
    let c1 = settle_circuit c x.0 retryable_failure x.1 in
    let c2 = settle_circuit c1 y.0 retryable_failure y.1 in
    let one : 1 ≤ c1.consecutive_retryable_failures =
      fail-counts c x.0 x.1 0 (omega arith) (omega arith) in
    let two : 2 ≤ c2.consecutive_retryable_failures = fail-counts c1 y.0 y.1 1 one (omega arith) in
    fail_times-IsTripped (settle_circuit c2 z.0 retryable_failure z.1) fs
      (fail-IsTripped c2 z.0 z.1 two)

pub holds-live :
    (now : ℕ) (rs : List Reservation) (id : String)
    → holds_reservation rs id ≡ false
    → holds_reservation (live_reservations now rs) id ≡ false
unfolding holds_reservation live_reservations
holds-live now [] id h = refl
holds-live now (r ∷ rs) id h = ground (arith, holds-live now rs id)

-- A refusal of an open circuit that is cooling tells the caller to wait at least a second, and
-- for long enough: the cooldown is over once that time has passed.
pub reserve_from-cooling :
    (s : State) (q : Request) (width now expiry t : ℕ)
    → (circuit_for s.route_circuits q.route_id).state ≡ open_circuit
    → (circuit_for s.route_circuits q.route_id).cooldown_until ≡ some t
    → now < t
    → holds_reservation s.active_reservations q.reservation_id ≡ false
    → (secs : ℕ) × (after : State) × (reserve_from s q width now expiry
        ≡ refused circuit_open secs after)
      × (1 ≤ secs)
      × (t ≤ now + 1000 * secs)
unfolding reserve_from retry_seconds
reserve_from-cooling s q width now expiry t o e l f = (
  retry_seconds t now,
  record s {
    route_circuits =
        store_circuit s.route_circuits q.route_id (circuit_for s.route_circuits q.route_id);
  },
  ground arith,
  omega arith,
  omega arith,
)

prune-open : (rs : List Reservation) (c : Circuit) → c.state ≡ open_circuit → prune_circuit rs c ≡ c
unfolding prune_circuit
prune-open rs c h = ground arith

-- While the circuit of a route is open and cooling, a call with a new reservation changes nothing
-- that is stored: no reservation is added and no unit is spent.
pub reserve_provider_call-cooling :
    (s : State) (q : Request) (now t : ℕ)
    → (circuit_for s.route_circuits q.route_id).state ≡ open_circuit
    → (circuit_for s.route_circuits q.route_id).cooldown_until ≡ some t
    → q.now ≡ some now
    → now < t
    → holds_reservation s.active_reservations q.reservation_id ≡ false
    → reserve_provider_call (some s) q ≡ some s
reserve_provider_call-cooling s q now t o e at l f =
    reserve_cases (λ x. x ≡ some s) (some s) q refl refuted
  where
    refuted : (s' : State) → Granted (some s) q s' → some s' ≡ some s
    refuted s' g =
        let (width, _, _, base) = base_state-some s q.domain g.now g.base g.base_of in
        let same : circuit_for g.base.route_circuits q.route_id
            ≡ circuit_for s.route_circuits q.route_id =
          rw base (rebased-circuit s q.domain width g.now q.route_id ∙ prune-open _ _ o) in
        let fresh : holds_reservation g.base.active_reservations q.reservation_id ≡ false =
          rw (base, rebased-active s q.domain width g.now)
            (holds-live g.now s.active_reservations q.reservation_id f) in
        let (_, _, denied, _, _) =
          reserve_from-cooling g.base q g.width g.now g.expiry t (rw same o) (rw same e)
            (ground arith) fresh in
        cc (denied, g.result)
