-- ===== src/Sources/Content.antt =====
-- Code: server/domain/policy/content-policy.js and server/domain/article/visibility.js.
use tech_pulse_ai.Prelude.{
  Bool, List, Result, String, [], false, is_ok, leb, not, ok, throw_if, true, ℕ, ◌&&◌, ◌++◌, ◌>>◌,
  ◌∷◌,
}
use tech_pulse_ai.Sources.Validation.{Web}
use tech_pulse_ai.Sources.Rights.{
  InputScope, Storage, excerpt_input, fulltext_temporary, is_metadata_only, is_no_input,
  validate_policy_compatibility,
}
use tech_pulse_ai.Sources.Lifecycle.{Source, has_passed, is_active, is_licensed}

pub data Purpose : Type 0 where
  metadata_purpose excerpt_purpose summary_purpose embedding_purpose retrieval_purpose : Purpose
  unknown_purpose : Purpose

pub data Rejection : Type 0 where
  source_purpose_unknown source_inactive source_policy_invalid source_policy_blocked : Rejection
  source_scope_denied : Rejection

pub data Scope : Type 0 where
  scope_of_source : InputScope → Scope
  scope_of_purpose : Purpose → Scope

pub record Grant : Type 0 where
  pub purpose : Purpose
  pub policy_version : ℕ
  pub input_scope : Scope
  pub allowed_fields : List String

-- `PURPOSES`: whether the purpose is known, stored, and sent to a provider.
unfoldable pub is_known_purpose : Purpose → Bool
is_known_purpose unknown_purpose = false
is_known_purpose _ = true

unfoldable pub is_stored : Purpose → Storage → Bool
is_stored metadata_purpose s = s.metadata
is_stored excerpt_purpose s = s.excerpt
is_stored summary_purpose s = s.summary
is_stored embedding_purpose s = s.embedding
is_stored retrieval_purpose s = s.metadata
is_stored unknown_purpose s = false

unfoldable pub uses_provider : Purpose → Bool
uses_provider summary_purpose = true
uses_provider embedding_purpose = true
uses_provider _ = false

abbrev metadata_fields : List String
metadata_fields = "titleOriginal" ∷ "author" ∷ "publishedAt" ∷ "topics" ∷ "sourceName" ∷ []

pub summary_fields : InputScope → List String
summary_fields excerpt_input = metadata_fields ++ "excerptOriginal" ∷ []
summary_fields fulltext_temporary = metadata_fields ++ "fullTextTemporary" ∷ []
summary_fields _ = metadata_fields

-- `fieldsFor`.
unfoldable pub fields_for : Purpose → InputScope → List String
unfolding summary_fields
fields_for embedding_purpose scope = "titleOriginal" ∷ "titleVi" ∷ "summaryVi" ∷ "topics" ∷ []
fields_for summary_purpose scope = summary_fields scope
fields_for excerpt_purpose scope = metadata_fields ++ "excerptOriginal" ∷ []
fields_for _ scope = metadata_fields

unfoldable pub input_scope_for : Purpose → InputScope → Scope
input_scope_for summary_purpose scope = scope_of_source scope
input_scope_for embedding_purpose scope = scope_of_source scope
input_scope_for retrieval_purpose scope = scope_of_source scope
input_scope_for p scope = scope_of_purpose p

unfoldable pub is_excerpt : Purpose → Bool
is_excerpt excerpt_purpose = true
is_excerpt _ = false

unfoldable pub is_valid_policy : Web → Source → Bool
is_valid_policy w s = leb 1 s.policy_version && is_ok (validate_policy_compatibility w s.rights)

-- `evaluateContentPolicy` of a source that exists.
unfoldable pub evaluate_content_policy : Web → Source → Purpose → Result Rejection Grant
unfolding is_known_purpose is_valid_policy is_stored is_excerpt uses_provider fields_for
    input_scope_for
evaluate_content_policy w s p = do
  throw_if (not (is_known_purpose p)) source_purpose_unknown
  throw_if (not (is_active s.operational_status)) source_inactive
  throw_if (not (is_valid_policy w s)) source_policy_invalid
  throw_if (not (is_licensed s.rights.license_status)) source_policy_blocked
  throw_if (not (is_stored p s.rights.storage_scope)) source_scope_denied
  throw_if (is_excerpt p && is_metadata_only s.rights.license_status) source_scope_denied
  throw_if (uses_provider p && is_no_input s.rights.llm_input_scope) source_scope_denied
  ok (record {
    purpose = p;
    policy_version = s.policy_version;
    input_scope = input_scope_for p s.rights.llm_input_scope;
    allowed_fields = fields_for p s.rights.llm_input_scope;
  })

-- `isSourceProductionEligible`.
unfoldable pub is_source_production_eligible : Web → Source → Bool
unfolding evaluate_content_policy
is_source_production_eligible w s =
    is_active s.operational_status
    && is_licensed s.rights.license_status
    && has_passed s.technical_check.status
    && is_ok (evaluate_content_policy w s metadata_purpose)
