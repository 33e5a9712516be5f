-- ===== src/Sources/Lifecycle.antt =====
-- Code: server/domain/source/state-machine.js. The fields of a source document are grouped by the
-- validator that reads them: its identity, its connector and its rights.
use tech_pulse_ai.Prelude.{
  Bool, Option, String, [], false, if◌then◌else◌, is_some, none, not, ok, some, str_eq, throw_if,
  true, ℕ, ◌&&◌, ◌>>=◌, ◌>>◌, ◌||◌,
}
use tech_pulse_ai.Sources.Validation.{
  Checked, Connector, Web, invalid_state_transition, validate_connector_unit,
}
use tech_pulse_ai.Sources.Rights.{
  Identity, License, media_keys, MediaPolicy, Rights, Storage, metadata_only, no_input,
  normalize_media_policy, normalize_source_definition, permitted, review_needed,
  validate_policy_compatibility,
}

pub data Status : Type 0 where
  draft testing active paused archived : Status

pub data CheckStatus : Type 0 where
  not_run passed check_failed : CheckStatus

pub record TechnicalCheck : Type 0 where
  pub status : CheckStatus
  pub checked_at : Option ℕ
  pub content_type : Option String
  pub resolved_host : Option String
  pub sample_count : Option ℕ
  pub error : Option String

pub record Reconciliation : Type 0 where
  pub is_pending : Bool
  pub required_policy_version : ℕ
  pub completed_policy_version : Option ℕ
  pub requested_at : Option ℕ
  pub error : Option String

pub record Source : Type 0 where
  pub id : String
  pub identity : Identity
  pub connector : Connector
  pub operational_status : Status
  pub rights : Rights
  pub terms_url : Option String
  pub license_url : Option String
  pub evidence_note : Option String
  pub reviewed_at : Option ℕ
  pub reviewed_by : Option String
  pub policy_version : ℕ
  pub reconciliation : Reconciliation
  pub technical_check : TechnicalCheck
  pub created_at : ℕ
  pub updated_at : ℕ

abbrev pub empty_storage : Storage
empty_storage = record { metadata = false; excerpt = false; summary = false; embedding = false }

abbrev default_media : MediaPolicy
default_media = record {
  keys = media_keys;
  image_mode = "none";
  video_mode = "none";
  allowed_hosts = [];
  attribution_required = false;
  evidence_note = none;
}

abbrev pub empty_check : TechnicalCheck
empty_check = record {
  status = not_run;
  checked_at = none;
  content_type = none;
  resolved_host = none;
  sample_count = none;
  error = none;
}

unfoldable pub pending_marker : ℕ → ℕ → Reconciliation
pending_marker version now = record {
  is_pending = true;
  required_policy_version = version;
  completed_policy_version = none;
  requested_at = some now;
  error = none;
}

-- `TRANSITIONS`.
unfoldable pub may_become : Status → Status → Bool
may_become draft testing = true
may_become testing active = true
may_become testing paused = true
may_become active paused = true
may_become paused active = true
may_become paused archived = true
may_become _ _ = false

unfoldable pub is_active : Status → Bool
is_active active = true
is_active _ = false

unfoldable pub is_archived : Status → Bool
is_archived archived = true
is_archived _ = false

unfoldable pub has_passed : CheckStatus → Bool
has_passed passed = true
has_passed _ = false

unfoldable pub was_run : CheckStatus → Bool
was_run not_run = false
was_run _ = true

unfoldable pub is_licensed : License → Bool
is_licensed permitted = true
is_licensed metadata_only = true
is_licensed _ = false

unfoldable pub has_evidence : Web → Source → Bool
has_evidence w s =
    is_some s.reviewed_at
    && elim s.reviewed_by [ none ↦ false | some r ↦ not (str_eq r "") ]
    && elim s.evidence_note [ none ↦ false | some n ↦ not (str_eq (w.trim n) "") ]

-- `validateActivation`.
unfoldable pub validate_activation : Web → Source → Checked MediaPolicy
unfolding has_passed is_licensed has_evidence
validate_activation w s = do
  throw_if (not (has_passed s.technical_check.status)) invalid_state_transition
  throw_if (not (is_licensed s.rights.license_status) || not (has_evidence w s))
      invalid_state_transition
  validate_policy_compatibility w s.rights

-- `transitionOperationalStatus`.
unfoldable pub transition_operational_status : Web → Source → Status → ℕ → Checked Source
unfolding may_become is_active validate_activation
transition_operational_status w s to now = do
  throw_if (not (may_become s.operational_status to)) invalid_state_transition
  if is_active to
      then (do
        media ← validate_activation w s
        ok (record s { operational_status = to; updated_at = now }))
      else ok (record s { operational_status = to; updated_at = now })

pub record DraftInput : Type 0 where
  pub id : String
  pub identity : Identity
  pub connector : Connector
  pub media_policy : Option MediaPolicy

pub draft_media : Web → Option MediaPolicy → Checked MediaPolicy
draft_media w none = ok default_media
draft_media w (some m) = normalize_media_policy w m

unfoldable pub new_source : DraftInput → Identity → MediaPolicy → ℕ → Source
new_source d identity media now = record {
  id = d.id;
  identity = identity;
  connector = d.connector;
  operational_status = draft;
  rights = record {
    license_status = review_needed;
    llm_input_scope = no_input;
    storage_scope = empty_storage;
    media_policy = media;
    attribution_required = false;
    attribution_text = none;
  };
  terms_url = none;
  license_url = none;
  evidence_note = none;
  reviewed_at = none;
  reviewed_by = none;
  policy_version = 1;
  reconciliation = record {
    is_pending = false;
    required_policy_version = 1;
    completed_policy_version = none;
    requested_at = none;
    error = none;
  };
  technical_check = empty_check;
  created_at = now;
  updated_at = now;
}

-- `createDraftSource`.
unfoldable pub create_draft_source : Web → DraftInput → ℕ → Checked Source
unfolding new_source draft_media
create_draft_source w d now = do
  feed ← validate_connector_unit w d.connector
  identity ← normalize_source_definition w d.identity
  media ← draft_media w d.media_policy
  ok (new_source d identity media now)
