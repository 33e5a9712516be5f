-- ===== src/Provider/Routes.antt =====
-- Code: server/ai/provider-router.js: the policy of a workload, the routes that it admits and the choice
-- of the next round.
use tech_pulse_ai.Prelude.{
  Bool, List, Option, Result, String, [], any, false, if◌then◌else◌, is_text, leb, none, not, some,
  str_eq, true, ℕ, ◌&&◌, ◌==◌, ◌||◌, ◌∷◌,
}
use tech_pulse_ai.Provider.Taxonomy.{
  Failure, Fallback, Metadata, adapter, adapter_error, classify_provider_error, config,
  model_fallback, model_retryable, no_fallback, privacy, provider_fallback, provider_retryable,
  refusal,
}
use tech_pulse_ai.Provider.Execution.{
  support, Capability, Operation, Route, answer, embedding, nonconfidential, summary, zdr_verified,
}
use tech_pulse_ai.Provider.Registry.{Registry, get_route}

pub record Policy : Type 0 where
  pub workload_id : String
  pub operation : Operation
  pub required_capability : Capability
  pub max_external_attempts : ℕ
  pub primary_route_id : String
  pub model_fallback_route_ids : List String
  pub provider_fallback_route_ids : List String

pub record Request : Type 0 where
  pub attempt_id : String
  pub units : ℕ
  pub is_cloneable : Bool

pub record Answer (O : Type 0) : Type 0 where
  pub output : O
  pub metadata : Metadata

-- How one round of the loop ends: it returns, goes round again with another fallback, or leaves the
-- loop with the error.
pub data Turn (O : Type 0) : Type 0 where
  finished : Answer O → Turn O
  again : Fallback → Failure → Turn O
  stopped : Failure → Turn O

unfoldable pub same_operation : Operation → Operation → Bool
same_operation summary summary = true
same_operation answer answer = true
same_operation support support = true
same_operation embedding embedding = true
same_operation _ _ = false

-- `capabilityAllows` of the router.
unfoldable pub route_allows : Capability → Capability → Bool
route_allows zdr_verified _ = true
route_allows nonconfidential nonconfidential = true
route_allows nonconfidential zdr_verified = false

unfoldable pub is_primary : Fallback → Bool
is_primary no_fallback = true
is_primary _ = false

unfoldable pub operation_kind : Operation → Fallback → String
unfolding is_primary
operation_kind answer f = if is_primary f then "answer-primary" else "answer-fallback"
operation_kind support f = "answer-support"
operation_kind embedding f = "embedding"
operation_kind summary f = "summary"

unfoldable pub route_metadata : Policy → Option Route → ℕ → Fallback → Metadata
route_metadata p none n f = record {
  workload_id = p.workload_id;
  route_id = none;
  provider_failure_domain_id = none;
  model = none;
  external_attempts = n;
  fallback = f;
}
route_metadata p (some r) n f = record {
  workload_id = p.workload_id;
  route_id = some r.route_id;
  provider_failure_domain_id = some r.provider_failure_domain_id;
  model = some r.model;
  external_attempts = n;
  fallback = f;
}

unfoldable pub is_empty : List String → Bool
is_empty [] = true
is_empty _ = false

-- `assertPolicy`, as a test.
unfoldable pub valid_policy : Policy → Bool
unfolding same_operation is_empty
valid_policy p =
    leb 1 p.max_external_attempts
    && leb p.max_external_attempts 2
    && (not (str_eq p.workload_id "qa-intent")
        || same_operation p.operation summary
          && p.max_external_attempts == 1
          && is_empty p.model_fallback_route_ids
          && is_empty p.provider_fallback_route_ids)

same_text : Option String → Option String → Bool
same_text none none = true
same_text none (some b) = false
same_text (some a) b = is_text b a

same_number : Option ℕ → Option ℕ → Bool
same_number (some a) (some b) = a == b
same_number none none = true
same_number _ _ = false

pub same_artifact : Route → Route → Bool
unfolding same_text same_number
same_artifact a b =
    same_text a.artifact_compatibility_id b.artifact_compatibility_id
    && same_number a.embedding_dimensions b.embedding_dimensions
    && same_text a.embedding_version b.embedding_version

-- What a fallback asks of its route.
unfoldable pub suits : Fallback → Route → Route → Bool
suits no_fallback route primary = true
suits model_fallback route primary =
    str_eq route.provider_failure_domain_id primary.provider_failure_domain_id
    && not (str_eq route.model primary.model)
suits provider_fallback route primary =
    not (str_eq route.provider_failure_domain_id primary.provider_failure_domain_id)

-- A missing or invalid expiry, or one that has passed.
pub has_expired : Option ℕ → Option ℕ → Bool
has_expired none t = true
has_expired (some e) none = false
has_expired (some e) (some t) = leb e t

unfoldable pub serves : Policy → Route → Bool
unfolding same_operation
serves p r = r.enabled && any (same_operation p.operation) r.operations

-- `assertCandidate`, with the clock read before.
unfoldable pub assert_candidate :
    Policy → Option Route → Fallback → Option ℕ → Option Route → Result Failure Route
unfolding serves has_expired route_allows suits same_artifact refusal
assert_candidate p primary f t none = Result.err (refusal config)
assert_candidate p none f t (some r) = Result.err (refusal config)
assert_candidate p (some primary) f t (some r) =
    if not (serves p r) || has_expired r.evidence_expires_at t
    then Result.err (refusal config)
    else (if not (route_allows r.capability p.required_capability)
        then Result.err (refusal privacy)
        else (if not (suits f r primary)
              || same_operation p.operation embedding
                && not (is_primary f)
                && not (same_artifact r primary)
            then Result.err (refusal config)
            else Result.ok r))

-- `candidateIds(policy, fallback)[0]`.
unfoldable pub candidate : Policy → Fallback → Option String
candidate p no_fallback = some p.primary_route_id
candidate p model_fallback = elim p.model_fallback_route_ids [ [] ↦ none | id ∷ ids ↦ some id ]
candidate p provider_fallback = elim p.provider_fallback_route_ids [
  | [] ↦ none
  | id ∷ ids ↦ some id
]

unfoldable pub candidate_route : Registry → Option String → Option Route
unfolding get_route
candidate_route g none = none
candidate_route g (some id) = get_route g id

-- The choice after an error of the call, `n` calls having been made.
unfoldable pub next_turn : {O : Type 0} → Policy → Fallback → ℕ → Failure → Turn O
unfolding is_primary is_empty classify_provider_error
next_turn p f n e =
    if leb p.max_external_attempts n || not (is_primary f)
    then stopped e
    else elim (classify_provider_error e).failure_class [
      | model_retryable ↦
          if is_empty p.model_fallback_route_ids then stopped e else again model_fallback e
      | provider_retryable ↦
          if is_empty p.provider_fallback_route_ids then stopped e else again provider_fallback e
      | _ ↦ stopped e
    ]

unfoldable pub answer_of : {O : Type 0} → Policy → Option Route → Fallback → O → ℕ → Turn O
unfolding route_metadata
answer_of p route f out n =
    finished (record { output = out; metadata = route_metadata p route n f })

-- The error after the loop.
unfoldable pub last_error : Option Failure → Failure
last_error none = adapter (adapter_error config none)
last_error (some e) = e

-- Without a candidate there is no route, which does not pass `assertCandidate`.
unfoldable pub id_of : Option String → String
id_of none = String.[]
id_of (some id) = id
