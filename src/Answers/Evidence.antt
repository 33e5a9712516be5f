-- ===== src/Answers/Evidence.antt =====
-- Code: canUseQnaEvidence of server/domain/article/visibility.js, and filterQnaEvidence of
-- server/domain/qa/evidence.js. Ids are their texts.
pub mod Selection
use tech_pulse_ai.Prelude.{
  Bool, List, Option, Result, String, [], err, false, if◌then◌else◌, js_length, leb, none, not, ok,
  some, str_eq, true, ℕ, ◌&&◌, ◌+◌, ◌==◌, ◌||◌, ◌∷◌,
}
use tech_pulse_ai.Sources.Validation.{Url, Web}
use tech_pulse_ai.Sources.Rights.{
  InputScope, License, excerpt_input, fulltext_temporary, metadata_input, metadata_only, no_input,
  permitted, review_needed, blocked,
}
use tech_pulse_ai.Sources.Lifecycle.{Source}
use tech_pulse_ai.Sources.Content.{is_source_production_eligible}

-- A date that a document may lack.
pub data Stamp : Type 0 where
  undefined null_date invalid_date : Stamp
  at : ℕ → Stamp

pub record Snapshot : Type 0 where
  pub source_policy_version : ℕ
  pub license_status : License
  pub llm_input_scope : InputScope

pub record Article : Type 0 where
  pub id : String
  pub source_id : String
  pub status : String
  pub evidence_eligible : Bool
  pub rights_snapshot : Option Snapshot
  pub title_original : Option String
  pub title_vi : Option String
  pub original_url : String
  pub author : Option String
  pub published_at : Stamp
  pub source_language : Option String

pub record Evidence : Type 0 where
  pub article : Article
  pub source : Source

-- `===` on the known values; an unknown one is neither licensed nor a scope of a provider.
same_license : License → License → Bool
same_license permitted permitted = true
same_license metadata_only metadata_only = true
same_license review_needed review_needed = true
same_license blocked blocked = true
same_license _ _ = false

same_scope : InputScope → InputScope → Bool
same_scope no_input no_input = true
same_scope metadata_input metadata_input = true
same_scope excerpt_input excerpt_input = true
same_scope fulltext_temporary fulltext_temporary = true
same_scope _ _ = false

is_provider_scope : InputScope → Bool
is_provider_scope metadata_input = true
is_provider_scope excerpt_input = true
is_provider_scope fulltext_temporary = true
is_provider_scope _ = false

unfoldable pub has_text : Web → Option String → Bool
has_text w none = false
has_text w (some s) = not (js_length (w.trim s) == 0)

pub is_dated : Stamp → Bool
is_dated (at t) = true
is_dated _ = false

-- An https URL without credentials.
unfoldable pub public_url : Web → String → Option Url
public_url w s = elim (w.parse_url s) [
  | none ↦ none
  | some u ↦
      if str_eq u.protocol "https:" && js_length u.username == 0 && js_length u.password == 0
      then some u
      else none
]

is_public_url : Web → String → Bool
unfolding public_url
is_public_url w s = elim (public_url w s) [ none ↦ false | some u ↦ true ]

has_citation_evidence_metadata : Web → Article → Bool
unfolding has_text is_dated is_public_url
has_citation_evidence_metadata w a =
    has_text w a.title_original && is_public_url w a.original_url && is_dated a.published_at

-- `currentPolicy`.
unfoldable pub matches_policy : Option Snapshot → Source → Bool
unfolding same_license same_scope
matches_policy none s = false
matches_policy (some r) s =
    r.source_policy_version == s.policy_version
    && same_license r.license_status s.rights.license_status
    && same_scope r.llm_input_scope s.rights.llm_input_scope

is_authoritative : String → Bool
is_authoritative tier = str_eq tier "primary" || str_eq tier "editorial"

-- `canUseQnaEvidence`.
unfoldable pub can_use_qna_evidence : Web → Article → Source → Bool
unfolding is_authoritative matches_policy is_provider_scope has_citation_evidence_metadata
can_use_qna_evidence w a s =
    str_eq a.status "published"
    && is_source_production_eligible w s
    && is_authoritative s.connector.authority_tier
    && a.evidence_eligible
    && matches_policy a.rights_snapshot s
    && is_provider_scope s.rights.llm_input_scope
    && has_citation_evidence_metadata w a

-- `currentVisible`.
unfoldable pub is_visible : Web → Evidence → Bool
unfolding can_use_qna_evidence
is_visible w e = can_use_qna_evidence w e.article e.source && str_eq e.article.source_id e.source.id

pub data SelectionError : Type 0 where
  insufficient_evidence : SelectionError

-- `sourceCounts`, and its `set`.
abbrev pub Counts : Type 0
Counts = String → ℕ

unfoldable pub counted : String → Counts → Counts
counted id c j = if str_eq id j then c j + 1 else c j

unfoldable pub is_taken : Web → Counts → Evidence → Bool
is_taken w c e = is_visible w e && not (leb 2 (c e.source.id))

-- The loop, `n` records having been selected.
unfoldable pub select_from : Web → List Evidence → Counts → ℕ → List Evidence
unfolding is_taken counted
select_from w [] c n = []
select_from w (e ∷ es) c n =
    let taken = is_taken w c e in
    let rest =
      select_from w es (if taken then counted e.source.id c else c) (if taken then n + 1 else n) in
    if taken then (e ∷ (if n + 1 == 6 then [] else rest)) else rest

-- `filterQnaEvidence`.
unfoldable pub filter_qna_evidence : Web → List Evidence → Result SelectionError (List Evidence)
unfolding select_from
filter_qna_evidence w es = elim (select_from w es (λ id. 0) 0) [
  | [] ↦ err insufficient_evidence
  | e ∷ rest ↦ ok (e ∷ rest)
]
