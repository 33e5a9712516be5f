-- ===== src/Jobs/ErrorCodes.antt =====
-- Code: server/jobs/runtime-trace.js, the codes of errors that may be stored. Each member of
-- `SAFE_ERROR_CODES` matches `SAFE_CODE`, so that membership is the whole test.
use tech_pulse_ai.Prelude.{List, String, [], if◌then◌else◌, includes, ◌∷◌}

abbrev safe_error_codes : List String
safe_error_codes =
    "ambiguous_provider_outcome" ∷ "article_checkpoint_invalid" ∷ "article_conflict"
    ∷ "article_invalid" ∷ "article_unavailable" ∷ "artifact_commit_stale" ∷ "artifact_failed"
    ∷ "candidate_invalid" ∷ "cleanup_incomplete" ∷ "conflict" ∷ "database_unavailable"
    ∷ "embedding_compatibility_mismatch" ∷ "embedding_unavailable" ∷ "embedding_version_mismatch"
    ∷ "indexing_cancelled" ∷ "indexing_task_invalid" ∷ "ingestion_aborted"
    ∷ "ingestion_clock_invalid" ∷ "ingestion_deadline_exceeded" ∷ "ingestion_deadline_invalid"
    ∷ "ingestion_finalization_unresolved" ∷ "indexing_finalization_unresolved"
    ∷ "ingestion_completion_failed" ∷ "indexing_deadline_exceeded" ∷ "lease_expired"
    ∷ "lease_fence_stale" ∷ "lease_heartbeat_lost" ∷ "lease_heartbeat_unavailable"
    ∷ "policy_blocked" ∷ "policy_input_invalid" ∷ "policy_version_mismatch" ∷ "privacy_blocked"
    ∷ "privacy_input_blocked" ∷ "provider_config_invalid" ∷ "provider_credential_unavailable"
    ∷ "provider_domain_unavailable" ∷ "provider_error" ∷ "provider_failed" ∷ "provider_http_error"
    ∷ "provider_model_mismatch" ∷ "provider_model_unavailable" ∷ "provider_network_error"
    ∷ "provider_response_invalid" ∷ "provider_route_invalid" ∷ "provider_schema_invalid"
    ∷ "provider_support_invalid" ∷ "provider_unavailable" ∷ "reconciliation_failed"
    ∷ "runtime_cleanup_unresolved" ∷ "runtime_deadline_exceeded" ∷ "runtime_error"
    ∷ "runtime_transaction_failed" ∷ "sensitive_input" ∷ "service_unavailable" ∷ "source_inactive"
    ∷ "source_policy_invalid" ∷ "source_policy_reconciliation_not_ready" ∷ "source_scope_denied"
    ∷ "source_address_blocked" ∷ "source_policy_changed_mid_run" ∷ "source_policy_unavailable"
    ∷ "source_content_host_blocked" ∷ "source_content_type_rejected" ∷ "source_decode_failed"
    ∷ "source_decoded_limit" ∷ "source_dns_empty" ∷ "source_dns_failed" ∷ "source_encoding_rejected"
    ∷ "source_expansion_limit" ∷ "source_fetch_aborted" ∷ "source_fetch_failed"
    ∷ "source_fetch_timeout" ∷ "source_payload_rejected" ∷ "source_redirect_rejected"
    ∷ "source_upstream_status" ∷ "source_url_rejected" ∷ "source_wire_limit"
    ∷ "source_policy_blocked" ∷ "temporary_input_unavailable" ∷ "worker_failed"
    ∷ "worker_outcome_invalid" ∷ []

unfoldable pub safe_error_code : String → String
safe_error_code c = if includes safe_error_codes c then c else "worker_failed"
