-- ===== src/Provider/FailureDomain.antt =====
-- Code: server/repositories/mongo/provider-failure-domain-repository.js (the circuit breaker that
-- all routes of one provider share). `none` is an Invalid Date or a field that is not there.
pub mod Consistent
pub mod Probe
pub mod Closed
mod Tests
use Prim.Native.Char.{code}
use tech_pulse_ai.Prelude.{
  Bool, Option, Result, String, [], date_value, err, false, if◌then◌else◌, is_some, is_text,
  js_length, leb, ltb, max, min, none, not, ok, some, str_eq, throw_if, true, ℕ, ◌&&◌, ◌*◌, ◌+◌,
  ◌-◌, ◌/◌, ◌==◌, ◌>>=◌, ◌>>◌, ◌||◌, ◌∷◌,
}

pub data Failure : Type 0 where
  invalid_date invalid_reservation invalid_domain invalid_outcome stale_config : Failure

abbrev pub Checked : Type 0 → Type 0
Checked = Result Failure

pub record Domain : Type 0 where
  pub provider_failure_domain_id : String
  pub config_version : ℕ
  pub failure_threshold : ℕ
  pub cooldown_seconds : ℕ

pub data Phase : Type 0 where
  closed open_phase half_open unknown : Phase

pub record State : Type 0 where
  pub provider_failure_domain_id : String
  pub config_version : ℕ
  pub state : Phase
  pub consecutive_retryable_failures : ℕ
  pub cooldown_until : Option ℕ
  pub half_open_probe : Option String
  pub updated_at : ℕ

-- The classes `[a-z0-9]` and `[a-z0-9._-]` of the pattern `ID`.
pub is_alphanumeric : ℕ → Bool
is_alphanumeric c = leb b'a' c && leb c b'z' || leb b'0' c && leb c b'9'

pub is_id_char : ℕ → Bool
unfolding is_alphanumeric
is_id_char c = is_alphanumeric c || c == b'.' || c == b'_' || c == b'-'

pub all_id_chars : String → Bool
unfolding is_id_char
all_id_chars String.[] = true
all_id_chars (String.◌∷◌ c s) = is_id_char (code c) && all_id_chars s

-- `ID.test(value)`.
pub matches_id : String → Bool
unfolding all_id_chars
matches_id String.[] = false
matches_id (String.◌∷◌ c s) = is_alphanumeric (code c) && all_id_chars s && leb (js_length s) 63

pub valid_domain : Domain → Bool
unfolding matches_id
valid_domain d =
    matches_id d.provider_failure_domain_id
    && leb 1 d.config_version
    && d.failure_threshold == 3
    && d.cooldown_seconds == 60

pub valid_reservation_id : String → Bool
valid_reservation_id id = not (ltb (js_length id) 8) && not (ltb 128 (js_length id))

pub initial_state : Domain → ℕ → State
initial_state d now = record {
  provider_failure_domain_id = d.provider_failure_domain_id;
  config_version = d.config_version;
  state = closed;
  consecutive_retryable_failures = 0;
  cooldown_until = none;
  half_open_probe = none;
  updated_at = now;
}

pub is_stale : State → Domain → Bool
is_stale s d =
    not (str_eq s.provider_failure_domain_id d.provider_failure_domain_id)
    || not (s.config_version == d.config_version)

pub base_state : Option State → Domain → ℕ → Checked State
base_state none d now = do throw_if (not (valid_domain d)) invalid_domain; ok (initial_state d now)
base_state (some s) d now = do
  throw_if (not (valid_domain d)) invalid_domain
  throw_if (is_stale s d) stale_config
  ok s

-- `Math.max(1, Math.ceil((cooldownUntil - now) / 1000))`.
pub retry_after_seconds : ℕ → ℕ → ℕ
retry_after_seconds until now = max 1 ((until - now + 999) / 1000)

-- The result of an admission; `probe` and `reused` as the code returns them.
pub data Admission : Type 0 where
  allowed : (probe reused : Bool) (state : State) → Admission
  refused : (retry_after : ℕ) (state : State) → Admission

-- A probe that was not heard of for a cooldown is given up.
pub expire_probe : State → Domain → ℕ → State
expire_probe s d now = elim s.state [
  | half_open ↦
      if is_some s.half_open_probe && leb (s.updated_at + d.cooldown_seconds * 1000) now
      then record s { half_open_probe = none; updated_at = now }
      else s
  | _ ↦ s
]

pub start_probe : State → String → ℕ → State
start_probe s id now = record s {
  state = half_open;
  half_open_probe = some id;
  cooldown_until = none;
  updated_at = now;
}

pub admit_open : State → String → ℕ → Checked Admission
admit_open s id now = do
  until ← date_value s.cooldown_until invalid_date
  ok (
      if ltb now until
      then refused (retry_after_seconds until now) s
      else allowed true false (start_probe s id now))

pub admit_half_open : State → Domain → String → ℕ → Admission
admit_half_open s d id now =
    if is_text s.half_open_probe id
    then allowed true true s
    else if is_some s.half_open_probe
    then refused d.cooldown_seconds s
    else allowed true false (record s { half_open_probe = some id; updated_at = now })

pub admit : State → Domain → String → ℕ → Checked Admission
unfolding admit_open admit_half_open
admit s d id now = elim s.state [
  | closed ↦ ok (allowed false false s)
  | open_phase ↦ admit_open s id now
  | half_open ↦ ok (admit_half_open s d id now)
  | unknown ↦ err stale_config
]

-- `applyProviderFailureDomainAdmission`.
pub apply_admission : Option State → Domain → String → Option ℕ → Checked Admission
apply_admission stored d id now_input = do
  now ← date_value now_input invalid_date
  throw_if (not (valid_reservation_id id)) invalid_reservation
  current ← base_state stored d now
  admit (expire_probe current d now) d id now

pub data Outcome : Type 0 where
  succeeded model_retryable_failure provider_retryable_failure terminal_failure cancelled : Outcome
  other_outcome : Outcome

pub is_known : Outcome → Bool
is_known other_outcome = false
is_known _ = true

pub record Report : Type 0 where
  pub recorded : Bool
  pub state : State

pub owns_probe : State → String → Bool
owns_probe s id = is_text s.half_open_probe id

-- Another call is the probe of this half-open state.
pub is_outsider : State → String → Bool
unfolding owns_probe
is_outsider s id = elim s.state [
  | half_open ↦ is_some s.half_open_probe && not (owns_probe s id)
  | _ ↦ false
]

pub is_half_open : Phase → Bool
is_half_open half_open = true
is_half_open _ = false

pub fail_state : State → Domain → ℕ → State
unfolding is_half_open
fail_state s d now =
    let failures = min d.failure_threshold (s.consecutive_retryable_failures + 1) in
    let should_open = is_half_open s.state || leb d.failure_threshold failures in
    record s {
      state = if should_open then open_phase else closed;
      consecutive_retryable_failures = failures;
      cooldown_until = if should_open then some (now + d.cooldown_seconds * 1000) else none;
      half_open_probe = none;
      updated_at = now;
    }

pub close_state : State → ℕ → State
close_state s now = record s {
  state = closed;
  consecutive_retryable_failures = 0;
  cooldown_until = none;
  half_open_probe = none;
  updated_at = now;
}

pub drop_probe : State → String → ℕ → State
unfolding owns_probe
drop_probe s id now =
    if owns_probe s id then record s { half_open_probe = none; updated_at = now } else s

pub settle : State → Domain → String → Outcome → ℕ → State
unfolding fail_state close_state drop_probe
settle s d id provider_retryable_failure now = fail_state s d now
settle s d id succeeded now = close_state s now
settle s d id model_retryable_failure now = drop_probe s id now
settle s d id terminal_failure now = drop_probe s id now
settle s d id cancelled now = drop_probe s id now
settle s d id other_outcome now = drop_probe s id now

pub report : State → Domain → String → Outcome → ℕ → Report
unfolding is_outsider
report s d id o now =
    if is_outsider s id
    then record { recorded = false; state = s }
    else record { recorded = true; state = settle s d id o now }

-- `applyProviderFailureDomainOutcome`.
pub apply_outcome : Option State → Domain → String → Outcome → Option ℕ → Checked Report
apply_outcome stored d id o now_input = do
  now ← date_value now_input invalid_date
  throw_if (not (valid_reservation_id id)) invalid_reservation
  throw_if (not (is_known o)) invalid_outcome
  current ← base_state stored d now
  ok (report current d id o now)

-- What `mutate` leaves stored: the state of the result, or the old one where a call throws.
pub state_of : Admission → State
state_of (allowed probe reused s) = s
state_of (refused retry_after s) = s

pub admit_provider_call : Option State → Domain → String → Option ℕ → Option State
unfolding state_of
admit_provider_call stored d id now = elim (apply_admission stored d id now) [
  | ok a ↦ some (state_of a)
  | err e ↦ stored
]

pub record_provider_call_outcome :
    Option State → Domain → String → Outcome → Option ℕ → Option State
record_provider_call_outcome stored d id o now = elim (apply_outcome stored d id o now) [
  | ok r ↦ some r.state
  | err e ↦ stored
]
