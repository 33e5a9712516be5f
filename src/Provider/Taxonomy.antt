-- ===== src/Provider/Taxonomy.antt =====
-- Code: server/ai/provider-error-taxonomy.js, and the errors of server/ai/provider-admission.js and
-- server/ai/provider-router.js.
use tech_pulse_ai.Prelude.{
  Bool, Option, String, false, if◌then◌else◌, leb, ltb, none, some, true, ℕ, ◌&&◌,
}

pub data FailureClass : Type 0 where
  model_retryable provider_retryable policy privacy sensitive_input config : FailureClass
  model_mismatch schema support ambiguous : FailureClass

-- The code and the `retryable` flag of `DEFINITIONS`.
unfoldable pub code_of : FailureClass → String
code_of model_retryable = "provider_model_unavailable"
code_of provider_retryable = "provider_domain_unavailable"
code_of policy = "policy_blocked"
code_of privacy = "privacy_blocked"
code_of sensitive_input = "sensitive_input"
code_of config = "provider_config_invalid"
code_of model_mismatch = "provider_model_mismatch"
code_of schema = "provider_schema_invalid"
code_of support = "provider_support_invalid"
code_of ambiguous = "ambiguous_provider_outcome"

unfoldable pub is_retryable : FailureClass → Bool
is_retryable model_retryable = true
is_retryable provider_retryable = true
is_retryable _ = false

pub data DomainOutcome : Type 0 where
  succeeded model_retryable_failure provider_retryable_failure terminal_failure cancelled :
      DomainOutcome

-- A `ProviderAdapterError`.
pub record AdapterError : Type 0 where
  pub failure_class : FailureClass
  pub code : String
  pub retryable : Bool
  pub local_control : Bool
  pub retry_after_seconds : Option ℕ
  pub upstream_status : Option ℕ
  pub domain_outcome : Option DomainOutcome
  pub release_code : Option String

pub data Fallback : Type 0 where
  no_fallback model_fallback provider_fallback : Fallback

-- What `safeRoutingMetadata` lets through.
pub record Metadata : Type 0 where
  pub workload_id : String
  pub route_id : Option String
  pub provider_failure_domain_id : Option String
  pub model : Option String
  pub external_attempts : ℕ
  pub fallback : Fallback

-- A `ProviderRoutingError`.
pub record RoutingError : Type 0 where
  pub failure_class : FailureClass
  pub code : String
  pub retryable : Bool
  pub external_attempts : ℕ
  pub retry_after_seconds : Option ℕ
  pub upstream_status : Option ℕ
  pub metadata : Option Metadata

-- What a call may throw: the errors of the two classes; an `EvidenceSelectionError` or a
-- `PrivacyAdmissionError` of the codes that `run` lets through (`selection`); anything else, whose `code`
-- may be missing. The last two carry their code and whether `retryable` is true.
pub data Failure : Type 0 where
  adapter : AdapterError → Failure
  routing : RoutingError → Failure
  selection : String → Bool → Failure
  foreign : Option String → Bool → Failure

-- `positiveInteger`, on a value that may be undefined.
pub positive : Option ℕ → Option ℕ
positive none = none
positive (some n) = if ltb 0 n then some n else none

-- `new ProviderAdapterError(failureClass, { retryAfterSeconds })`.
unfoldable pub adapter_error : FailureClass → Option ℕ → AdapterError
unfolding positive code_of is_retryable
adapter_error c after = record {
  failure_class = c;
  code = code_of c;
  retryable = is_retryable c;
  local_control = false;
  retry_after_seconds = positive after;
  upstream_status = none;
  domain_outcome = none;
  release_code = none;
}

unfoldable pub cancellation_error : AdapterError
unfolding adapter_error
cancellation_error = record (adapter_error policy none) { local_control = true }

-- A `ProviderBoundaryError`: the code `provider_unavailable` with a class of its own.
unfoldable pub boundary_error : FailureClass → Bool → Option ℕ → Option DomainOutcome → AdapterError
unfolding adapter_error
boundary_error c retryable after outcome = record (adapter_error c after) {
  code = "provider_unavailable";
  retryable = retryable;
  domain_outcome = outcome;
}

-- `providerLocalControl === true`.
unfoldable pub is_local : Failure → Bool
is_local (adapter e) = e.local_control
is_local _ = false

unfoldable pub may_retry : Failure → Bool
may_retry (adapter e) = e.retryable
may_retry (routing e) = e.retryable
may_retry (selection c b) = b
may_retry (foreign c b) = b

pub record Classification : Type 0 where
  pub failure_class : FailureClass
  pub retryable : Bool
  pub retry_after_seconds : Option ℕ
  pub upstream_status : Option ℕ

-- `classifyProviderError`; the code is that of the class.
unfoldable pub classify_provider_error : Failure → Classification
unfolding is_retryable positive
classify_provider_error (adapter e) = record {
  failure_class = e.failure_class;
  retryable = is_retryable e.failure_class;
  retry_after_seconds = positive e.retry_after_seconds;
  upstream_status = positive e.upstream_status;
}
classify_provider_error _ = record {
  failure_class = ambiguous;
  retryable = false;
  retry_after_seconds = none;
  upstream_status = none;
}

unfoldable pub is_ambiguous : FailureClass → Bool
is_ambiguous ambiguous = true
is_ambiguous _ = false

pub http_status : Option ℕ → Option ℕ
http_status none = none
http_status (some n) = if leb 400 n && leb n 599 then some n else none

-- The constructor of `ProviderRoutingError`.
unfoldable pub routing_error_of :
    FailureClass → String → Bool → ℕ → Option ℕ → Option ℕ → Option Metadata → RoutingError
unfolding is_ambiguous positive http_status
routing_error_of c code retryable attempts after status metadata = record {
  failure_class = c;
  code = code;
  retryable = retryable;
  external_attempts = attempts;
  retry_after_seconds = if is_ambiguous c then none else positive after;
  upstream_status = http_status status;
  metadata = metadata;
}

-- `routingError(error, { metadata, externalAttempts })`.
unfoldable pub routing_error : Failure → Metadata → RoutingError
unfolding routing_error_of classify_provider_error code_of
routing_error (routing e) m =
    routing_error_of e.failure_class e.code e.retryable m.external_attempts e.retry_after_seconds
      e.upstream_status (some m)
routing_error f m =
    let c = classify_provider_error f in
    routing_error_of c.failure_class (code_of c.failure_class) c.retryable m.external_attempts
      c.retry_after_seconds c.upstream_status (some m)

-- `configError()` and `privacyError()`.
unfoldable pub refusal : FailureClass → Failure
unfolding routing_error_of code_of is_retryable
refusal c = routing (routing_error_of c (code_of c) (is_retryable c) 0 none none none)

-- `reportOutcome`.
unfoldable pub report_outcome : FailureClass → DomainOutcome
report_outcome model_retryable = model_retryable_failure
report_outcome provider_retryable = provider_retryable_failure
report_outcome _ = terminal_failure

unfoldable pub domain_outcome_of : Failure → DomainOutcome
unfolding report_outcome classify_provider_error
domain_outcome_of (adapter e) = elim e.domain_outcome [
  | some o ↦ o
  | none ↦ report_outcome e.failure_class
]
domain_outcome_of f = report_outcome (classify_provider_error f).failure_class
