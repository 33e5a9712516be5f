-- ===== src/Provider/Registry.antt =====
-- Code: server/ai/provider-admission.js: the registry, the guards of a call and what its errors become.
use tech_pulse_ai.Prelude.{
  Bool, List, Option, Result, String, [], false, if◌then◌else◌, includes, leb, ltb, none, not,
  or_else, some, str_eq, suc, true, zero, ℕ, ◌||◌, ◌∷◌,
}
use tech_pulse_ai.Provider.Taxonomy.{
  Failure, FailureClass, adapter, ambiguous, boundary_error, config, foreign, may_retry, privacy,
  provider_retryable, routing, selection, terminal_failure,
}
use tech_pulse_ai.Provider.Execution.{
  Capability, ReleaseOutcome, Reply, Route, nonconfidential, released_cancelled, released_failure,
  released_retryable, zdr_verified,
}

-- The validated registry.
pub record Registry : Type 0 where
  pub routes : List Route
  pub domains : List String
  pub provider_failure_domains : List String

-- `routes.get(id)`: a `Map` keeps the last of two entries with one key.
unfoldable pub find_route : String → List Route → Option Route
find_route id [] = none
find_route id (r ∷ rs) = or_else (find_route id rs) (if str_eq r.route_id id then some r else none)

unfoldable pub get_route : Registry → String → Option Route
unfolding find_route
get_route g id = find_route id g.routes

-- `KINDS`.
abbrev pub kinds : List String
kinds = "summary" ∷ "embedding" ∷ "answer-primary" ∷ "answer-fallback" ∷ "answer-support" ∷ []

pub capability_allows : Capability → Capability → Bool
capability_allows zdr_verified required = true
capability_allows nonconfidential zdr_verified = false
capability_allows nonconfidential nonconfidential = true

unfoldable pub needs_zdr : Capability → Bool
needs_zdr zdr_verified = true
needs_zdr nonconfidential = false

-- `evidenceExpiresAt <= now` of a missing or invalid date, or one that has passed.
unfoldable pub is_expired : Option ℕ → Option ℕ → Bool
is_expired none t = true
is_expired (some e) none = false
is_expired (some e) (some t) = leb e t

-- What `admitProviderDomain` returns.
pub record DomainAdmission : Type 0 where
  pub allowed : Bool
  pub reservation_id : Option String
  pub retry_after_seconds : Option ℕ

abbrev pub refused : Option ℕ → DomainAdmission
refused delay = record { allowed = false; reservation_id = none; retry_after_seconds = delay }

-- `retryAfterSeconds` of an integer above 0.
pub positive_delay : Option ℕ → Option ℕ
positive_delay none = none
positive_delay (some n) = if ltb 0 n then some n else none

unfoldable pub domain_answer : String → Reply → DomainAdmission
unfolding positive_delay
domain_answer id r =
    if r.allowed
    then record { allowed = true; reservation_id = some id; retry_after_seconds = none }
    else refused (positive_delay r.retry_after_seconds)

-- The answer for a route whose failure domain the registry does not have.
unfoldable pub without_domain : Registry → DomainAdmission
without_domain g = elim g.provider_failure_domains [
  | [] ↦ record { allowed = true; reservation_id = none; retry_after_seconds = none }
  | d ∷ ds ↦ refused none
]

-- The request of a call; `units` and the attempt's id pass through to the host.
pub record Call : Type 0 where
  pub route_id : String
  pub capability : Capability
  pub kind : String

-- The failure domain of a route, when the registry has it.
unfoldable pub failure_domain : Registry → Option Route → Option String
failure_domain g none = none
failure_domain g (some r) =
    if includes g.provider_failure_domains r.provider_failure_domain_id
    then some r.provider_failure_domain_id
    else none

-- `slice(0, n)` of a text of the basic plane.
pub prefix : ℕ → String → String
prefix zero s = String.[]
prefix (suc n) String.[] = String.[]
prefix (suc n) (String.◌∷◌ c s) = String.◌∷◌ c (prefix n s)

-- The code with which a failed call gives its reservation back.
pub failure_code : Failure → String
unfolding prefix
failure_code (adapter e) = elim e.release_code [ some c ↦ c | none ↦ prefix 128 e.code ]
failure_code (routing e) = prefix 128 e.code
failure_code (selection c b) = prefix 128 c
failure_code (foreign (some c) b) = prefix 128 c
failure_code (foreign none b) = "provider_failed"

unfoldable pub release_code : Bool → Failure → String
unfolding failure_code
release_code true e = "execution_cancelled"
release_code false e = failure_code e

pub release_outcome : Bool → Failure → ReleaseOutcome
unfolding may_retry
release_outcome true e = released_cancelled
release_outcome false e = if may_retry e then released_retryable else released_failure

-- The error that leaves `run`.
pub thrown : Failure → Failure
unfolding boundary_error
thrown (adapter e) = adapter e
thrown (selection c b) = selection c b
thrown _ = adapter (boundary_error ambiguous false none none)

abbrev pub unavailable : FailureClass → Failure
unavailable c = adapter (boundary_error c false none none)

-- The reservation that the budget refuses.
unfoldable pub over_budget : Reply → Failure
unfolding boundary_error
over_budget r =
    adapter (boundary_error provider_retryable true r.retry_after_seconds (some terminal_failure))

pub evidence_expired : Failure
unfolding boundary_error
evidence_expired = adapter (record (boundary_error config false none none) {
  release_code = some "provider_evidence_expired";
})

-- The guards of `run` on its route.
unfoldable pub eligible : Registry → Call → Option ℕ → Option Route → Result Failure Route
unfolding capability_allows is_expired boundary_error needs_zdr
eligible g q reserved_at none = Result.err (unavailable config)
eligible g q reserved_at (some r) =
    if not (includes g.domains r.admission_domain_id)
      || not r.enabled
      || not (includes kinds q.kind)
    then Result.err (unavailable config)
    else (if not (capability_allows r.capability q.capability)
        then Result.err (unavailable privacy)
        else (if not (needs_zdr q.capability) || not (is_expired r.evidence_expires_at reserved_at)
            then Result.ok r
            else Result.err (unavailable config)))
