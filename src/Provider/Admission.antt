-- ===== src/Provider/Admission.antt =====
-- Code: server/repositories/mongo/provider-admission-repository.js (budget, concurrency and
-- circuit breaker of an admission domain). Units are whole numbers; `none` is an Invalid Date.
-- The fields of a stored state that no operation reads (`_id`) are left out. An identifier that
-- the document may lack is an `Option`; stored identifiers are not empty.
pub mod Bounds
pub mod Breaker
pub mod Circuits
pub mod Probe
pub mod Sound
pub mod Grants
pub mod Recovery
pub mod Steps
mod Tests
use tech_pulse_ai.Prelude.{
  Bool, List, Option, Result, String, [], date_value, err, false, if◌then◌else◌, is_some, is_text,
  js_length, keep, leb, length, ltb, map, max, min, none, not, ok, or_else, some, str_eq, throw_if,
  true, ℕ, ◌&&◌, ◌*◌, ◌++◌, ◌+◌, ◌-◌, ◌/◌, ◌==◌, ◌>>=◌, ◌>>◌, ◌||◌, ◌∷◌,
}

pub data Failure : Type 0 where
  invalid_date invalid_window invalid_identity mismatched_state invalid_input : Failure

abbrev pub Checked : Type 0 → Type 0
Checked = Result Failure

abbrev pub cooldown_ms : ℕ
cooldown_ms = 60000

pub data Window : Type 0 where
  hour day month other : Window

pub window_ms : Window → Checked ℕ
window_ms hour = ok (60 * 60 * 1000)
window_ms day = ok (24 * 60 * 60 * 1000)
window_ms month = ok (30 * 24 * 60 * 60 * 1000)
window_ms other = err invalid_window

pub record Domain : Type 0 where
  pub admission_domain_id : String
  pub provider_id : Option String
  pub provider : Option String
  pub max_concurrency : ℕ
  pub budget_limit : ℕ
  pub budget_window : Window

pub record Reservation : Type 0 where
  pub reservation_id : String
  pub route_id : String
  pub attempt_id : String
  pub kind : String
  pub expires_at : ℕ

pub data CircuitState : Type 0 where
  closed open_circuit half_open : CircuitState

pub record Circuit : Type 0 where
  pub route_id : String
  pub state : CircuitState
  pub consecutive_retryable_failures : ℕ
  pub cooldown_until : Option ℕ
  pub half_open_probe : Option String

pub record State : Type 0 where
  pub admission_domain_id : String
  pub provider_id : Option String
  pub provider : Option String
  pub active_reservations : List Reservation
  pub max_concurrency : ℕ
  pub budget_window_start : Option ℕ
  pub spent_units : ℕ
  pub budget_limit : ℕ
  pub route_circuits : List Circuit
  pub updated_at : ℕ

-- `left === right` on two values that may be undefined.
pub same_identity : Option String → Option String → Bool
same_identity none none = true
same_identity none (some b) = false
same_identity (some a) b = is_text b a

pub same_domain : State → Domain → Bool
unfolding same_identity
same_domain s d =
    str_eq s.admission_domain_id d.admission_domain_id
    && same_identity (or_else s.provider_id s.provider) (or_else d.provider_id d.provider)
    && s.max_concurrency == d.max_concurrency
    && s.budget_limit == d.budget_limit

pub is_half_open : CircuitState → Bool
is_half_open half_open = true
is_half_open _ = false

pub holds_reservation : List Reservation → String → Bool
holds_reservation [] id = false
holds_reservation (r ∷ rs) id = str_eq r.reservation_id id || holds_reservation rs id

-- The probe of a half-open circuit is forgotten once its reservation is gone.
pub lost_probe : List Reservation → Circuit → Bool
unfolding is_half_open
lost_probe rs c = elim c.half_open_probe [
  | none ↦ false
  | some p ↦ is_half_open c.state && not (holds_reservation rs p)
]

pub prune_circuit : List Reservation → Circuit → Circuit
unfolding lost_probe
prune_circuit rs c = if lost_probe rs c then record c { half_open_probe = none } else c

pub valid_identity : Option String → Bool
valid_identity none = false
valid_identity (some p) = not (ltb (js_length p) 1) && not (ltb 64 (js_length p))

pub live_reservations : ℕ → List Reservation → List Reservation
live_reservations now rs = keep (λ r. ltb now r.expires_at) rs

-- The state of a domain that has none yet: `state ?? {}` under the fields that are given anew.
pub fresh_state : Domain → ℕ → State
fresh_state d now = record {
  admission_domain_id = d.admission_domain_id;
  provider_id = d.provider_id;
  provider = if is_some d.provider_id then none else d.provider;
  active_reservations = [];
  max_concurrency = d.max_concurrency;
  budget_window_start = some now;
  spent_units = 0;
  budget_limit = d.budget_limit;
  route_circuits = [];
  updated_at = now;
}

pub window_start : Option ℕ → ℕ → ℕ
window_start none now = now
window_start (some t) now = t

-- `baseState` on a stored state, for the length of the budget window in milliseconds.
pub rebased : State → Domain → ℕ → ℕ → State
unfolding window_start
rebased s d width now =
    let started = window_start s.budget_window_start now in
    let is_reset = leb (started + width) now in
    let live = live_reservations now s.active_reservations in
    let is_target = is_some d.provider_id || is_some s.provider_id in
    let name = or_else d.provider_id d.provider in
    record {
      admission_domain_id = d.admission_domain_id;
      provider_id = if is_target then name else none;
      provider = if is_target then none else name;
      active_reservations = live;
      max_concurrency = d.max_concurrency;
      budget_window_start = some (if is_reset then now else started);
      spent_units = if is_reset then 0 else s.spent_units;
      budget_limit = d.budget_limit;
      route_circuits = map (prune_circuit live) s.route_circuits;
      updated_at = now;
    }

pub base_state : Option State → Domain → ℕ → Checked State
unfolding valid_identity
base_state stored d now = do
  throw_if (not (valid_identity (or_else d.provider_id d.provider))) invalid_identity
  throw_if (elim stored [ none ↦ false | some s ↦ not (same_domain s d) ]) mismatched_state
  width ← window_ms d.budget_window
  ok (elim stored [ none ↦ fresh_state d now | some s ↦ rebased s d width now ])

-- `circuitFor`: the first circuit of the route, which is appended where there is none.
pub new_circuit : String → Circuit
new_circuit r = record {
  route_id = r;
  state = closed;
  consecutive_retryable_failures = 0;
  cooldown_until = none;
  half_open_probe = none;
}

pub circuit_for : List Circuit → String → Circuit
unfolding new_circuit
circuit_for [] r = new_circuit r
circuit_for (c ∷ cs) r = if str_eq c.route_id r then c else circuit_for cs r

-- The list after the object that `circuitFor` returns has been mutated into `x`.
pub store_circuit : List Circuit → String → Circuit → List Circuit
store_circuit [] r x = x ∷ []
store_circuit (c ∷ cs) r x = if str_eq c.route_id r then x ∷ cs else c ∷ store_circuit cs r x

pub data Refusal : Type 0 where
  circuit_open concurrency_limit budget_limit_reached : Refusal

-- The result of a reservation; a refusal carries `retryAfterSeconds`.
pub data Admission : Type 0 where
  granted : (state : State) (reused : Bool) → Admission
  refused : Refusal → (retry_after : ℕ) (state : State) → Admission

-- The input of a reservation; `attempt_is_object_id` is whether `attemptId` reads its attempt, by the
-- driver's `ObjectId`.
pub record Request : Type 0 where
  pub domain : Domain
  pub admission_domain_id : String
  pub route_id : String
  pub reservation_id : String
  pub attempt_id : String
  pub attempt_is_object_id : Bool
  pub kind : String
  pub units : ℕ
  pub now : Option ℕ
  pub expires_at : Option ℕ

-- `Math.max(1, Math.ceil((until - now) / 1000))`, where a date in the past gives 1.
pub retry_seconds : ℕ → ℕ → ℕ
retry_seconds until now = max 1 ((until - now + 999) / 1000)

-- `open` turns into `half-open` when its cooldown is over.
pub is_cooling : Circuit → ℕ → Bool
is_cooling c now = elim c.state [
  | open_circuit ↦ elim c.cooldown_until [ none ↦ true | some t ↦ ltb now t ]
  | _ ↦ false
]

pub after_cooldown : Circuit → Circuit
after_cooldown c = elim c.state [
  | open_circuit ↦ record c { state = half_open; cooldown_until = none }
  | _ ↦ c
]

pub cooling_seconds : Option ℕ → ℕ → ℕ
unfolding retry_seconds
cooling_seconds none now = 60
cooling_seconds (some t) now = retry_seconds t now

pub reservation_of : Request → ℕ → Reservation
reservation_of q expiry = record {
  reservation_id = q.reservation_id;
  route_id = q.route_id;
  attempt_id = q.attempt_id;
  kind = q.kind;
  expires_at = expiry;
}

-- The granted call of a half-open circuit is its probe.
pub entered : Circuit → String → Circuit
unfolding is_half_open
entered c id = if is_half_open c.state then record c { half_open_probe = some id } else c

-- The checks of `applyProviderReservation` behind the state of the circuit, and the grant.
pub admit : State → Circuit → Request → ℕ → ℕ → ℕ → Admission
unfolding window_start is_half_open
admit s c q width now expiry =
    let shown = record s { route_circuits = store_circuit s.route_circuits q.route_id c } in
    let started = window_start s.budget_window_start now in
    if is_half_open c.state && is_some c.half_open_probe
    then refused circuit_open 60 shown
    else if leb s.max_concurrency (length s.active_reservations)
    then refused concurrency_limit 1 shown
    else if ltb s.budget_limit (s.spent_units + q.units)
    then refused budget_limit_reached (retry_seconds (started + width) now) shown
    else granted
        (record s {
          active_reservations = s.active_reservations ++ reservation_of q expiry ∷ [];
          spent_units = s.spent_units + q.units;
          route_circuits = store_circuit s.route_circuits q.route_id (entered c q.reservation_id);
        })
        false

pub reserve_from : State → Request → ℕ → ℕ → ℕ → Admission
unfolding is_cooling cooling_seconds after_cooldown
reserve_from s q width now expiry =
    let c = circuit_for s.route_circuits q.route_id in
    if holds_reservation s.active_reservations q.reservation_id
    then granted s true
    else if is_cooling c now
    then refused circuit_open (cooling_seconds c.cooldown_until now)
        (record s { route_circuits = store_circuit s.route_circuits q.route_id c })
    else admit s (after_cooldown c) q width now expiry

pub valid_request : Request → ℕ → ℕ → Bool
valid_request q now expiry =
    str_eq q.admission_domain_id q.domain.admission_domain_id
    && not (ltb (js_length q.reservation_id) 8)
    && ltb now expiry
    && ltb 0 q.units

-- `applyProviderReservation`.
pub apply_provider_reservation : Option State → Request → Checked Admission
unfolding valid_request
apply_provider_reservation stored q = do
  now ← date_value q.now invalid_date
  expiry ← date_value q.expires_at invalid_date
  throw_if (not (valid_request q now expiry)) invalid_input
  next ← base_state stored q.domain now
  width ← window_ms q.domain.budget_window
  ok (reserve_from next q width now expiry)

pub data Outcome : Type 0 where
  succeeded retryable_failure nonretryable_failure cancelled : Outcome

-- The first reservation of the call is taken out.
pub without : List Reservation → String → String → List Reservation
without [] id r = []
without (x ∷ xs) id r =
    if str_eq x.reservation_id id && str_eq x.route_id r then xs else x ∷ without xs id r

pub holds_call : List Reservation → String → String → Bool
holds_call [] id r = false
holds_call (x ∷ xs) id r = str_eq x.reservation_id id && str_eq x.route_id r || holds_call xs id r

pub drop_probe : Circuit → String → Circuit
drop_probe c id = if is_text c.half_open_probe id then record c { half_open_probe = none } else c

pub fail_circuit : Circuit → ℕ → Circuit
unfolding is_half_open
fail_circuit c now =
    let failures = min 3 (c.consecutive_retryable_failures + 1) in
    if is_half_open c.state || leb 3 failures
    then record c {
      state = open_circuit;
      consecutive_retryable_failures = 3;
      cooldown_until = some (now + cooldown_ms);
    }
    else record c { state = closed; consecutive_retryable_failures = failures }

pub settle_circuit : Circuit → String → Outcome → ℕ → Circuit
unfolding drop_probe fail_circuit
settle_circuit c id retryable_failure now = fail_circuit (drop_probe c id) now
settle_circuit c id succeeded now = record (drop_probe c id) {
  state = closed;
  consecutive_retryable_failures = 0;
  cooldown_until = none;
}
settle_circuit c id nonretryable_failure now = drop_probe c id
settle_circuit c id cancelled now = drop_probe c id

pub release_from : State → String → String → Outcome → ℕ → State
release_from s route id outcome now =
    if holds_call s.active_reservations id route
    then record s {
      active_reservations = without s.active_reservations id route;
      route_circuits =
          store_circuit s.route_circuits route
            (settle_circuit (circuit_for s.route_circuits route) id outcome now);
      updated_at = now;
    }
    else s

-- `applyProviderRelease`; its `released` is always true.
pub apply_provider_release :
    Option State → String → String → Outcome → Option ℕ → Checked (Option State)
unfolding release_from
apply_provider_release stored route id outcome now_input = do
  now ← date_value now_input invalid_date
  ok (elim stored [ none ↦ none | some s ↦ some (release_from s route id outcome now) ])

-- What `mutate` keeps of a transaction: nothing of a refusal or of an operation that throws. `mongoState`
-- throws at an attempt that is no `ObjectId`; those of the stored reservations are.
pub reserve_provider_call : Option State → Request → Option State
reserve_provider_call stored q = elim (apply_provider_reservation stored q) [
  | ok (granted s reused) ↦ if reused || q.attempt_is_object_id then some s else stored
  | _ ↦ stored
]

pub release_provider_call : Option State → String → String → Outcome → Option ℕ → Option State
release_provider_call stored route id outcome now =
    elim (apply_provider_release stored route id outcome now) [ ok (some s) ↦ some s | _ ↦ stored ]
