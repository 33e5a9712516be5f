-- ===== src/Sources/Rights.antt =====
-- Code: server/domain/source/validation.js, the rights of a source and its identity.
use Prim.Native.Char.{code}
use tech_pulse_ai.Prelude.{
  Bool, List, Option, String, [], false, if◌then◌else◌, includes, js_length, leb, length, ltb, none,
  not, ok, some, str_eq, throw_if, true, ℕ, ◌&&◌, ◌==◌, ◌>>=◌, ◌>>◌, ◌||◌, ◌∷◌,
}
use tech_pulse_ai.Sources.Validation.{
  Checked, Web, invalid, normalize_reviewed_hostname, require_some_text, require_text,
}

pub data License : Type 0 where
  permitted metadata_only review_needed blocked unknown_license : License

pub data InputScope : Type 0 where
  no_input metadata_input excerpt_input fulltext_temporary unknown_scope : InputScope

pub record Storage : Type 0 where
  pub metadata : Bool
  pub excerpt : Bool
  pub summary : Bool
  pub embedding : Bool

-- The names of the fields of a media policy that the code has written, in their order.
abbrev pub media_keys : List String
media_keys =
    "imageMode" ∷ "videoMode" ∷ "allowedHosts" ∷ "attributionRequired" ∷ "evidenceNote" ∷ []

-- A media policy; `keys` are the names of the fields that are given, in their order.
pub record MediaPolicy : Type 0 where
  pub keys : List String
  pub image_mode : String
  pub video_mode : String
  pub allowed_hosts : List String
  pub attribution_required : Bool
  pub evidence_note : Option String

pub record Rights : Type 0 where
  pub license_status : License
  pub llm_input_scope : InputScope
  pub storage_scope : Storage
  pub media_policy : MediaPolicy
  pub attribution_required : Bool
  pub attribution_text : Option String

pub normalize_hosts : Web → List String → Checked (List String)
normalize_hosts w [] = ok []
normalize_hosts w (h ∷ hs) = do
  host ← normalize_reviewed_hostname w h
  rest ← normalize_hosts w hs
  ok (host ∷ rest)

unfoldable pub are_unique : List String → Bool
are_unique [] = true
are_unique (x ∷ xs) = not (includes xs x) && are_unique xs

pub valid_modes : MediaPolicy → Bool
valid_modes m =
    (str_eq m.image_mode "none" || str_eq m.image_mode "remote-preview")
    && (str_eq m.video_mode "none" || str_eq m.video_mode "link-only")

unfoldable pub normalize_media_policy : Web → MediaPolicy → Checked MediaPolicy
unfolding valid_modes normalize_hosts are_unique
normalize_media_policy w m = do
  throw_if (not (valid_modes m)) invalid
  throw_if (ltb 20 (length m.allowed_hosts)) invalid
  hosts ← normalize_hosts w m.allowed_hosts
  throw_if (not (are_unique hosts)) invalid
  throw_if (elim m.evidence_note [ none ↦ false | some n ↦ ltb 4000 (js_length n) ]) invalid
  ok (record m { keys = media_keys; allowed_hosts = hosts })

unfoldable pub is_closed : License → Bool
is_closed review_needed = true
is_closed blocked = true
is_closed _ = false

unfoldable pub is_under_review : License → Bool
is_under_review review_needed = true
is_under_review _ = false

unfoldable pub is_blocked : License → Bool
is_blocked blocked = true
is_blocked _ = false

unfoldable pub is_metadata_only : License → Bool
is_metadata_only metadata_only = true
is_metadata_only _ = false

unfoldable pub is_known_license : License → Bool
is_known_license unknown_license = false
is_known_license _ = true

unfoldable pub is_known_scope : InputScope → Bool
is_known_scope unknown_scope = false
is_known_scope _ = true

unfoldable pub is_no_input : InputScope → Bool
is_no_input no_input = true
is_no_input _ = false

unfoldable pub is_metadata_input : InputScope → Bool
is_metadata_input metadata_input = true
is_metadata_input _ = false

unfoldable pub stores_any : Storage → Bool
stores_any s = s.metadata || s.excerpt || s.summary || s.embedding

pub shows_media : MediaPolicy → Bool
shows_media m =
    not (str_eq m.image_mode "none")
    || not (str_eq m.video_mode "none")
    || ltb 0 (length m.allowed_hosts)

-- `validatePolicyCompatibility`: the normalized media policy.
unfoldable pub validate_policy_compatibility : Web → Rights → Checked MediaPolicy
unfolding normalize_media_policy is_closed is_blocked is_metadata_only is_known_license
    is_known_scope is_no_input is_metadata_input stores_any shows_media require_some_text
validate_policy_compatibility w r = do
  media ← normalize_media_policy w r.media_policy
  throw_if (not (is_known_license r.license_status)) invalid
  throw_if (not (is_known_scope r.llm_input_scope)) invalid
  throw_if
      (is_closed r.license_status
        && (not (is_no_input r.llm_input_scope) || stores_any r.storage_scope))
      invalid
  throw_if (is_blocked r.license_status && shows_media media) invalid
  throw_if
      (is_metadata_only r.license_status
        && (not (is_no_input r.llm_input_scope || is_metadata_input r.llm_input_scope)
            || not r.storage_scope.metadata))
      invalid
  throw_if (is_metadata_only r.license_status && r.storage_scope.excerpt) invalid
  throw_if (is_no_input r.llm_input_scope && (r.storage_scope.summary || r.storage_scope.embedding))
      invalid
  if r.attribution_required
      then (do t ← require_some_text w r.attribution_text 500; ok media)
      else ok media

-- `normalizeSourceDefinition`.
pub record Identity : Type 0 where
  pub name : String
  pub source_key : String
  pub publisher_name : String
  pub domain : String

pub is_key_char : ℕ → Bool
is_key_char c = leb b'a' c && leb c b'z' || leb b'0' c && leb c b'9' || c == b':' || c == b'-'

pub all_key_chars : String → Bool
unfolding is_key_char
all_key_chars String.[] = true
all_key_chars (String.◌∷◌ c s) = is_key_char (code c) && all_key_chars s

pub is_source_key : String → Bool
unfolding all_key_chars
is_source_key String.[] = false
is_source_key (String.◌∷◌ c s) =
    is_key_char (code c)
    && not (code c == b':')
    && not (code c == b'-')
    && leb 2 (js_length s)
    && leb (js_length s) 119
    && all_key_chars s

unfoldable pub normalize_source_definition : Web → Identity → Checked Identity
unfolding is_source_key require_text
normalize_source_definition w i = do
  source_key ← require_text w i.source_key 120
  throw_if (not (is_source_key source_key)) invalid
  name ← require_text w i.name 120
  publisher ← require_text w i.publisher_name 160
  domain ← normalize_reviewed_hostname w i.domain
  ok (record { name = name; source_key = source_key; publisher_name = publisher; domain = domain })
