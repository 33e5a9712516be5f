-- ===== src/Sources/Update.antt =====
-- Code: server/domain/source/state-machine.js, the updates and the reviews of a source.
use tech_pulse_ai.Prelude.{
  Bool, List, Option, String, [], false, if◌then◌else◌, none, not, ok, some, str_eq, throw_if, true,
  ℕ, ◌&&◌, ◌+◌, ◌==◌, ◌>>=◌, ◌>>◌, ◌||◌, ◌∷◌,
}
use tech_pulse_ai.Sources.Validation.{
  Checked, ConnectorConfig, Web, invalid, invalid_state_transition, require_text,
  validate_connector_unit, validate_https_url,
}
use tech_pulse_ai.Sources.Rights.{
  Identity, License, MediaPolicy, Rights, blocked, is_under_review, metadata_only, no_input,
  normalize_media_policy, normalize_source_definition, permitted, review_needed,
  validate_policy_compatibility,
}
use tech_pulse_ai.Sources.Lifecycle.{
  Source, Status, TechnicalCheck, active, archived, draft, empty_check, empty_storage, is_active,
  is_archived, paused, pending_marker, testing, transition_operational_status, was_run,
}

-- `none` is a field that the patch does not have.
pub record Patch : Type 0 where
  pub name : Option String
  pub publisher_name : Option String
  pub domain : Option String
  pub authority_tier : Option String
  pub connector_config : Option ConnectorConfig
  pub media_policy : Option MediaPolicy
  pub attribution_required : Option Bool
  pub attribution_text : Option (Option String)
  pub operational_status : Option Status
  pub reason_code : String

pub same_option : Option String → Option String → Bool
same_option none none = true
same_option none (some b) = false
same_option (some a) none = false
same_option (some a) (some b) = str_eq a b

pub same_list : List String → List String → Bool
same_list [] [] = true
same_list [] (y ∷ ys) = false
same_list (x ∷ xs) [] = false
same_list (x ∷ xs) (y ∷ ys) = str_eq x y && same_list xs ys

pub same_bool : Bool → Bool → Bool
same_bool true b = b
same_bool false b = not b

-- `same`: the two texts of `JSON.stringify`, which have the fields that are given in their order.
pub same_config : ConnectorConfig → ConnectorConfig → Bool
unfolding same_option same_list
same_config a b =
    same_list a.keys b.keys
    && str_eq a.kind b.kind
    && a.batch_size == b.batch_size
    && same_option a.feed_url b.feed_url
    && same_option a.arxiv_query b.arxiv_query
    && same_option a.hacker_news_stream b.hacker_news_stream

pub same_media : MediaPolicy → MediaPolicy → Bool
unfolding same_option same_list same_bool
same_media a b =
    same_list a.keys b.keys
    && str_eq a.image_mode b.image_mode
    && str_eq a.video_mode b.video_mode
    && same_list a.allowed_hosts b.allowed_hosts
    && same_bool a.attribution_required b.attribution_required
    && same_option a.evidence_note b.evidence_note

pub same_status : Status → Status → Bool
same_status draft draft = true
same_status testing testing = true
same_status active active = true
same_status paused paused = true
same_status archived archived = true
same_status _ _ = false

-- A field of `changedFields`: the patch has it, and with another value than the source.
unfoldable pub changes : {A : Type 0} → (A → A → Bool) → A → Option A → Bool
changes same old none = false
changes same old (some new) = not (same old new)

-- The members of `TECHNICAL_EVIDENCE_UPDATE_FIELDS` that change.
unfoldable pub changes_technical : Source → Patch → Bool
unfolding changes same_config
changes_technical s p =
    changes str_eq s.identity.domain p.domain
    || changes str_eq s.connector.authority_tier p.authority_tier
    || changes same_config s.connector.connector_config p.connector_config

-- Of `VERSIONED_UPDATE_FIELDS`.
unfoldable pub changes_versioned : Source → Patch → Bool
unfolding changes_technical changes same_media same_bool same_option
changes_versioned s p =
    changes_technical s p
    || changes same_media s.rights.media_policy p.media_policy
    || changes same_bool s.rights.attribution_required p.attribution_required
    || changes same_option s.rights.attribution_text p.attribution_text

-- Of `RIGHTS_EVIDENCE_UPDATE_FIELDS`.
unfoldable pub changes_rights : Source → Patch → Bool
unfolding changes_versioned changes
changes_rights s p =
    changes_versioned s p || changes str_eq s.identity.publisher_name p.publisher_name

-- All fields but the operational status.
unfoldable pub changes_configuration : Source → Patch → Bool
unfolding changes_rights changes
changes_configuration s p = changes_rights s p || changes str_eq s.identity.name p.name

unfoldable pub changes_status : Source → Patch → Bool
unfolding changes same_status
changes_status s p = changes same_status s.operational_status p.operational_status

unfoldable pub value_or : {A : Type 0} → A → Option A → A
value_or old none = old
value_or old (some new) = new

-- A field that is the same is written as it is.
unfoldable pub patched : Source → Patch → Source
unfolding value_or
patched s p = record s {
  identity = record s.identity {
    name = value_or s.identity.name p.name;
    publisher_name = value_or s.identity.publisher_name p.publisher_name;
    domain = value_or s.identity.domain p.domain;
  };
  connector = record s.connector {
    authority_tier = value_or s.connector.authority_tier p.authority_tier;
    connector_config = value_or s.connector.connector_config p.connector_config;
  };
  rights = record s.rights {
    media_policy = value_or s.rights.media_policy p.media_policy;
    attribution_required = value_or s.rights.attribution_required p.attribution_required;
    attribution_text = value_or s.rights.attribution_text p.attribution_text;
  };
}

unfoldable pub normalized : Source → Identity → MediaPolicy → Source
normalized s identity media = record s {
  identity = identity;
  rights = record s.rights { media_policy = media };
}

unfoldable pub check_after : Source → Patch → TechnicalCheck
unfolding changes_technical was_run
check_after s p =
    if changes_technical s p && was_run s.technical_check.status
    then empty_check
    else s.technical_check

unfoldable pub expected_reason : Source → Patch → String
expected_reason s p =
    if changes_configuration s p then "source_configuration_changed" else "source_status_changed"

unfoldable pub configured : Source → Patch → Identity → MediaPolicy → Source
unfolding patched normalized check_after
configured s p identity media = record (normalized (patched s p) identity media) {
  technical_check = check_after s p;
}

unfoldable pub compatible_source : Web → Source → Checked Source
compatible_source w s = do media ← validate_policy_compatibility w s.rights; ok s

-- The validated configuration of an update, before its status and its version.
unfoldable pub reconfigured : Web → Source → Patch → Checked Source
unfolding configured compatible_source patched
reconfigured w s p = do
  feed ← validate_connector_unit w (patched s p).connector
  identity ← normalize_source_definition w (patched s p).identity
  media ← normalize_media_policy w (patched s p).rights.media_policy
  compatible_source w (configured s p identity media)

unfoldable pub with_status : Web → Source → Patch → Source → ℕ → Checked Source
unfolding changes_status
with_status w s p next now =
    if changes_status s p
    then transition_operational_status w next (value_or s.operational_status p.operational_status)
        now
    else ok next

unfoldable pub with_version : Source → Patch → Source → ℕ → Source
unfolding changes_versioned pending_marker
with_version s p next now =
    if changes_versioned s p
    then record next {
      policy_version = s.policy_version + 1;
      reconciliation = pending_marker (s.policy_version + 1) now;
      updated_at = now;
    }
    else record next { updated_at = now }

-- What an update has to meet before it is tried.
unfoldable pub check_update : Source → Patch → Checked (Unit {0})
unfolding changes_configuration changes_status expected_reason changes_rights
check_update s p = do
  throw_if (not (changes_configuration s p) && not (changes_status s p)) invalid
  throw_if (not (str_eq p.reason_code (expected_reason s p))) invalid
  throw_if (not (is_under_review s.rights.license_status) && changes_rights s p)
      invalid_state_transition

unfoldable pub settle_update : Web → Source → Patch → ℕ → Source → Checked Source
unfolding with_status with_version
settle_update w s p now next = do
  moved ← with_status w s p next now
  ok (with_version s p moved now)

-- `applySourceUpdate`.
unfoldable pub apply_source_update : Web → Source → Patch → ℕ → Checked Source
unfolding check_update reconfigured settle_update
apply_source_update w s p now = do
  check_update s p
  next ← reconfigured w s p
  settle_update w s p now next

pub record Review : Type 0 where
  pub rights : Rights
  pub terms_url : Option String
  pub license_url : Option String
  pub evidence_note : String
  pub reason_code : String

unfoldable pub is_decision : License → Bool
is_decision permitted = true
is_decision metadata_only = true
is_decision blocked = true
is_decision _ = false

-- `attributionText?.trim() || null`.
pub trimmed_text : Web → Option String → Option String
trimmed_text w none = none
trimmed_text w (some s) = if str_eq (w.trim s) "" then none else some (w.trim s)

-- `validatePolicyReviewEvidence`.
unfoldable pub validate_policy_review_evidence : Web → Review → Checked Review
unfolding is_decision trimmed_text require_text validate_https_url
validate_policy_review_evidence w r = do
  throw_if (not (is_decision r.rights.license_status)) invalid
  note ← require_text w r.evidence_note 4000
  terms ← validate_https_url w r.terms_url
  license ← validate_https_url w r.license_url
  media ← validate_policy_compatibility w r.rights
  ok (record r {
    rights = record r.rights {
      media_policy = media;
      attribution_text = trimmed_text w r.rights.attribution_text;
    };
    terms_url = terms;
    license_url = license;
    evidence_note = note;
  })

unfoldable pub reviewed : Source → Review → String → ℕ → Source
unfolding pending_marker
reviewed s r reviewer now = record s {
  rights = r.rights;
  terms_url = r.terms_url;
  license_url = r.license_url;
  evidence_note = some r.evidence_note;
  reviewed_at = some now;
  reviewed_by = some reviewer;
  policy_version = s.policy_version + 1;
  reconciliation = pending_marker (s.policy_version + 1) now;
  updated_at = now;
}

-- `reviewSourcePolicy`.
unfoldable pub review_source_policy : Web → Source → Review → String → ℕ → Checked Source
unfolding validate_policy_review_evidence reviewed
review_source_policy w s r reviewer now = do
  throw_if (str_eq reviewer "") invalid
  throw_if (not (str_eq r.reason_code "source_policy_reviewed")) invalid
  throw_if (is_active s.operational_status) invalid_state_transition
  normal ← validate_policy_review_evidence w r
  ok (reviewed s normal reviewer now)

unfoldable pub reopened : Source → String → ℕ → Source
unfolding pending_marker
reopened s reviewer now = record s {
  operational_status = if is_active s.operational_status then paused else s.operational_status;
  rights = record s.rights {
    license_status = review_needed;
    llm_input_scope = no_input;
    storage_scope = empty_storage;
  };
  reviewed_at = some now;
  reviewed_by = some reviewer;
  policy_version = s.policy_version + 1;
  reconciliation = pending_marker (s.policy_version + 1) now;
  updated_at = now;
}

-- `requestPolicyReReview`.
unfoldable pub request_policy_re_review : Web → Source → String → ℕ → Checked Source
unfolding reopened is_archived
request_policy_re_review w s reviewer now = do
  throw_if (str_eq reviewer "") invalid
  throw_if (is_archived s.operational_status) invalid_state_transition
  compatible ← validate_policy_compatibility w (reopened s reviewer now).rights
  ok (reopened s reviewer now)
