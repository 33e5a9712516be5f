-- ===== src/Sources/Tests.antt =====
-- The code of server/domain/source and server/domain/policy at a feed that is renamed, sent back to
-- review and changed.
use tech_pulse_ai.Prelude.{
  List, [], false, if◌then◌else◌, includes, is_ok, leb, none, refl, some, true, ◌&&◌, ◌+◌, ◌==◌,
  ◌∷◌, ◌≡◌,
}
use tech_pulse_ai.Sources.Validation.{Web, validate_connector_unit}
use tech_pulse_ai.Sources.Rights.{
  MediaPolicy, Storage, media_keys, is_blocked, is_closed, is_known_license, is_known_scope,
  is_metadata_input, is_metadata_only, is_no_input, is_under_review, metadata_input, metadata_only,
  normalize_media_policy, normalize_source_definition, stores_any, validate_policy_compatibility,
}
use tech_pulse_ai.Sources.Lifecycle.{
  Source, active, archived, has_evidence, has_passed, is_active, is_archived, is_licensed, passed,
  pending_marker,
}
use tech_pulse_ai.Sources.Update.{
  Patch, apply_source_update, changes_versioned, reopened, request_policy_re_review,
}
use tech_pulse_ai.Sources.Content.{
  Grant, evaluate_content_policy, fields_for, input_scope_for, is_excerpt, is_known_purpose,
  is_source_production_eligible, is_stored, is_valid_policy, scope_of_source, summary_purpose,
  uses_provider,
}
use tech_pulse_ai.Sources.Cleared.{Call, after, is_cleared, re_reviews, run, run-cleared, updates}
use tech_pulse_ai.Sources.Versions.{run_archived, update_version}
use tech_pulse_ai.Sources.Disclosure.{
  metadata_only_discloses_no_text, re_review_denies_all, run-eligible,
}

abbrev web : Web
web = record {
  trim = λ s. s;
  is_space = λ c. c == 32;
  to_ascii = λ s. s;
  is_ip = λ s. false;
  parse_url = λ s. some (record {
    protocol = "https:";
    username = "";
    password = "";
    hostname = "example.com";
    text = s;
  });
}

abbrev storage : Storage
storage = record { metadata = true; excerpt = false; summary = true; embedding = false }

abbrev media : MediaPolicy
media = record {
  keys = media_keys;
  image_mode = "none";
  video_mode = "none";
  allowed_hosts = [];
  attribution_required = false;
  evidence_note = none;
}

abbrev feed : Source
feed = record {
  id = "s1";
  identity = record {
    name = "Feed";
    source_key = "rss:feed";
    publisher_name = "Publisher";
    domain = "example.com";
  };
  connector = record {
    connector_type = "rss";
    access_method = "rss";
    authority_tier = "primary";
    connector_config = record {
      keys = "kind" ∷ "batchSize" ∷ "feedUrl" ∷ [];
      kind = "rss";
      batch_size = 20;
      feed_url = some "https://example.com/feed";
      arxiv_query = none;
      hacker_news_stream = none;
    };
  };
  operational_status = active;
  rights = record {
    license_status = metadata_only;
    llm_input_scope = metadata_input;
    storage_scope = storage;
    media_policy = media;
    attribution_required = false;
    attribution_text = none;
  };
  terms_url = none;
  license_url = none;
  evidence_note = some "reviewed";
  reviewed_at = some 10;
  reviewed_by = some "a1";
  policy_version = 2;
  reconciliation = record {
    is_pending = false;
    required_policy_version = 2;
    completed_policy_version = some 2;
    requested_at = none;
    error = none;
  };
  technical_check = record {
    status = passed;
    checked_at = some 5;
    content_type = none;
    resolved_host = none;
    sample_count = some 3;
    error = none;
  };
  created_at = 0;
  updated_at = 10;
}

abbrev no_change : Patch
no_change = record {
  name = none;
  publisher_name = none;
  domain = none;
  authority_tier = none;
  connector_config = none;
  media_policy = none;
  attribution_required = none;
  attribution_text = none;
  operational_status = none;
  reason_code = "source_configuration_changed";
}

abbrev rename : Patch
rename = record no_change { name = some "New feed" }

abbrev credit : Patch
credit = record no_change {
  attribution_required = some true;
  attribution_text = some (some "By Feed");
}

abbrev pending_feed : Source
pending_feed = record (reopened feed "a1" 20) { id = "s1" }

abbrev credited_feed : Source
credited_feed = after pending_feed (apply_source_update web pending_feed credit 30)

abbrev archived_feed : Source
archived_feed = record feed { operational_status = archived }

abbrev calls : List Call
calls = updates rename 15 ∷ re_reviews "a1" 20 ∷ updates credit 30 ∷ []

run-cleared_example : is_cleared web (run web calls feed) ≡ true
unfolding is_cleared is_active has_passed is_licensed has_evidence validate_policy_compatibility
    normalize_media_policy is_known_license is_known_scope is_closed is_blocked is_metadata_only
    is_no_input is_metadata_input
run-cleared_example = run-cleared web calls feed refl

run-eligible_example :
    is_source_production_eligible web (run web calls feed)
    ≡ is_active (run web calls feed).operational_status
      && leb 1 (run web calls feed).policy_version
      && (run web calls feed).rights.storage_scope.metadata
unfolding is_cleared is_active has_passed is_licensed has_evidence validate_policy_compatibility
    normalize_media_policy is_known_license is_known_scope is_closed is_blocked is_metadata_only
    is_no_input is_metadata_input
run-eligible_example = run-eligible web calls feed refl

re_review_denies_all_example :
    is_ok (evaluate_content_policy web (reopened feed "a1" 20) summary_purpose) ≡ false
unfolding request_policy_re_review reopened is_archived is_active validate_policy_compatibility
    stores_any normalize_media_policy is_known_license is_known_scope is_closed is_blocked
    is_metadata_only is_no_input
re_review_denies_all_example =
    re_review_denies_all web feed (reopened feed "a1" 20) "a1" 20 summary_purpose refl

abbrev summary_grant : Grant
summary_grant = record {
  purpose = summary_purpose;
  policy_version = 2;
  input_scope = scope_of_source metadata_input;
  allowed_fields = "titleOriginal" ∷ "author" ∷ "publishedAt" ∷ "topics" ∷ "sourceName" ∷ [];
}

metadata_only_discloses_no_text_example :
    (includes summary_grant.allowed_fields "excerptOriginal" ≡ false)
    × (includes summary_grant.allowed_fields "fullTextTemporary" ≡ false)
unfolding evaluate_content_policy is_known_purpose is_active is_valid_policy is_licensed is_stored
    is_excerpt uses_provider fields_for input_scope_for validate_policy_compatibility
    normalize_media_policy is_known_license is_known_scope is_closed is_blocked is_metadata_only
    is_no_input is_metadata_input
metadata_only_discloses_no_text_example =
    metadata_only_discloses_no_text web feed summary_purpose summary_grant refl refl

update_version_example :
    (credited_feed.policy_version ≡ (
      if changes_versioned pending_feed credit
      then pending_feed.policy_version + 1
      else pending_feed.policy_version))
    × (credited_feed.reconciliation ≡ (
        if changes_versioned pending_feed credit
        then pending_marker (pending_feed.policy_version + 1) 30
        else pending_feed.reconciliation))
unfolding after apply_source_update reopened is_under_review validate_connector_unit
    normalize_source_definition normalize_media_policy validate_policy_compatibility
update_version_example = update_version web pending_feed credited_feed credit 30 refl

run_archived_example : (run web calls archived_feed).operational_status ≡ archived
run_archived_example = run_archived web calls archived_feed refl
