-- ===== src/Answers/Citations.antt =====
-- Code: server/domain/qa/citations.js and server/domain/qa/support.js. Citation `k` of an answer is `C`
-- and the number of its record. `Numerals` is the platform's text of a number and back.
pub mod Grounds
pub mod Numbers
use tech_pulse_ai.Prelude.{
  Bool, List, Option, Result, String, [], all, any, concat, err, false, if◌then◌else◌, includes,
  is_some, is_text, js_length, leb, length, ltb, map, none, not, ok, or_else, some, str_eq, suc,
  throw_if, true, ℕ, ◌&&◌, ◌+◌, ◌-◌, ◌==◌, ◌>>=◌, ◌>>◌, ◌||◌, ◌∷◌,
}
use tech_pulse_ai.Sources.Validation.{Url, Web}
use tech_pulse_ai.Sources.Rights.{are_unique}
use tech_pulse_ai.Answers.Evidence.{
  Article, Evidence, Stamp, at, has_text, invalid_date, null_date, public_url, undefined,
}

pub record Numerals : Type 0 where
  pub show : ℕ → String
  pub number : String → ℕ

-- A `QaCitationIntegrityError`, by its message.
pub data IntegrityError : Type 0 where
  date_invalid evidence_unavailable coverage_invalid citations_invalid unresolved : IntegrityError

pub record Metadata : Type 0 where
  pub article_id : String
  pub source_id : String
  pub source_name : String
  pub title_original : String
  pub title_vi : Option String
  pub original_url : String
  pub author : Option String
  pub published_at : ℕ
  pub source_language : String

pub record Citation : Type 0 where
  pub id : String
  pub metadata : Metadata

pub record Block : Type 0 where
  pub id : String
  pub citation_id : String

pub record Paragraph : Type 0 where
  pub text : String
  pub citation_ids : List String
  pub evidence_block_ids : List String

-- `dateValue`: `new Date(null)` is the epoch.
pub date_of : Stamp → Result IntegrityError ℕ
date_of (at t) = ok t
date_of null_date = ok 0
date_of _ = err date_invalid

is_undefined : Stamp → Bool
is_undefined undefined = true
is_undefined _ = false

-- A text that is trimmed, when something is left of it.
pub trimmed : Web → Option String → Option String
trimmed w none = none
trimmed w (some s) = if js_length (w.trim s) == 0 then none else some (w.trim s)

pub text_or : Option String → String → String
text_or none d = d
text_or (some s) d = s

https_url : Web → String → Result IntegrityError Url
https_url w s = elim (public_url w s) [ none ↦ err evidence_unavailable | some u ↦ ok u ]

unfoldable pub metadata_of : Web → Evidence → Url → ℕ → Metadata
unfolding trimmed text_or
metadata_of w e u t = record {
  article_id = e.article.id;
  source_id = e.source.id;
  source_name = e.source.identity.name;
  title_original = text_or e.article.title_original String.[];
  title_vi = trimmed w e.article.title_vi;
  original_url = u.text;
  author = e.article.author;
  published_at = t;
  source_language = text_or e.article.source_language "unknown";
}

-- `citationEvidenceMetadata`.
unfoldable pub citation_evidence_metadata : Web → Evidence → Result IntegrityError Metadata
unfolding https_url is_undefined date_of has_text metadata_of
citation_evidence_metadata w e = do
  u ← https_url w e.article.original_url
  throw_if
      (js_length e.article.id == 0
        || js_length e.source.id == 0
        || not (has_text w e.article.title_original)
        || is_undefined e.article.published_at)
      evidence_unavailable
  t ← date_of e.article.published_at
  ok (metadata_of w e u t)

unfoldable pub citation_id : Numerals → ℕ → String
citation_id n k = concat "C" (n.show (k + 1))

-- `String(id).slice(1)`.
rest_of : String → String
rest_of String.[] = String.[]
rest_of (String.◌∷◌ c s) = s

unfoldable pub citation_record : Web → Numerals → Evidence → ℕ → Result IntegrityError Citation
unfolding citation_evidence_metadata citation_id
citation_record w n e k = do
  m ← citation_evidence_metadata w e
  ok (record { id = citation_id n k; metadata = m })

-- The `Map` of the block's citations: the last entry of an id counts.
unfoldable pub block_citation : String → List Block → Option String
block_citation id [] = none
block_citation id (b ∷ bs) =
    or_else (block_citation id bs) (if str_eq b.id id then some b.citation_id else none)

cites : Option String → List String → Bool
cites none ids = false
cites (some c) ids = includes ids c

unfoldable pub is_count : ℕ → ℕ → List String → Bool
is_count low high xs = leb low (length xs) && leb (length xs) high

-- The test of one paragraph.
unfoldable pub is_covered : Web → List String → List Block → Paragraph → Bool
unfolding block_citation cites is_count
is_covered w known blocks p =
    not (js_length (w.trim p.text) == 0)
    && leb (js_length p.text) 2000
    && is_count 1 10 p.citation_ids
    && are_unique p.citation_ids
    && all (includes known) p.citation_ids
    && is_count 1 10 p.evidence_block_ids
    && are_unique p.evidence_block_ids
    && all (λ id. cites (block_citation id blocks) p.citation_ids) p.evidence_block_ids

unfoldable pub check_paragraphs :
    Web → List String → List Block → List Paragraph → Result IntegrityError (List Paragraph)
unfolding is_covered
check_paragraphs w known blocks [] = ok []
check_paragraphs w known blocks (p ∷ ps) = do
  throw_if (not (is_covered w known blocks p)) coverage_invalid
  rest ← check_paragraphs w known blocks ps
  ok (p ∷ rest)

-- `validateParagraphCitations`.
unfoldable pub validate_paragraph_citations :
    Web → List Paragraph → List String → List Block → Result IntegrityError (List Paragraph)
unfolding check_paragraphs
validate_paragraph_citations w ps ids blocks = do
  throw_if (ltb (length ps) 1 || ltb 12 (length ps)) coverage_invalid
  check_paragraphs w ids blocks ps

-- The `Map` of the evidence, from number `k` on.
unfoldable pub find_evidence : Numerals → String → ℕ → List Evidence → Option Evidence
unfolding citation_id
find_evidence n id k [] = none
find_evidence n id k (e ∷ es) =
    or_else (find_evidence n id (k + 1) es) (if str_eq (citation_id n k) id then some e else none)

unfoldable pub hydrate_one :
    Web → Numerals → String → Option Evidence → Result IntegrityError Citation
unfolding citation_record rest_of
hydrate_one w n id none = err unresolved
hydrate_one w n id (some e) = citation_record w n e (n.number (rest_of id) - 1)

unfoldable pub hydrate_all :
    Web → Numerals → List Evidence → List String → Result IntegrityError (List Citation)
unfolding hydrate_one find_evidence
hydrate_all w n es [] = ok []
hydrate_all w n es (id ∷ ids) = do
  c ← hydrate_one w n id (find_evidence n id 0 es)
  rest ← hydrate_all w n es ids
  ok (c ∷ rest)

-- `hydrateAnswerCitations`.
unfoldable pub hydrate_answer_citations :
    Web → Numerals → List String → List Evidence → Result IntegrityError (List Citation)
unfolding hydrate_all
hydrate_answer_citations w n ids es = do
  throw_if (ltb (length ids) 1 || ltb 50 (length ids)) citations_invalid
  hydrate_all w n es ids

-- A citation as it is stored.
pub record Historical : Type 0 where
  pub id : String
  pub status : String
  pub article_id : Option String
  pub source_id : Option String
  pub original_url : String
  pub title_original : String
  pub title_vi : Option (Option String)
  pub published_at : Stamp
  pub unavailable_reason : Option String

pub data HistoricalView : Type 0 where
  available :
      String → String → String → String → String → Option (Option String) → ℕ → HistoricalView
  unavailable : String → String → Option String → Option String → HistoricalView

pub data HistoricalError : Type 0 where
  url_invalid reason_invalid historical_date_invalid : HistoricalError

-- `historicalTitleVi`: undefined, null or a text.
historical_title_vi : Web → Option (Option String) → Option (Option String)
unfolding trimmed
historical_title_vi w none = none
historical_title_vi w (some t) = some (trimmed w t)

pub historical_date : Stamp → Result HistoricalError ℕ
unfolding date_of
historical_date s = elim (date_of s) [ ok t ↦ ok t | err e ↦ err historical_date_invalid ]

unfoldable pub serialize_available : Web → Historical → Result HistoricalError HistoricalView
unfolding public_url text_or historical_title_vi historical_date
serialize_available w v = elim (public_url w v.original_url) [
  | none ↦ err url_invalid
  | some u ↦ do
    t ← historical_date v.published_at
    ok (
        available v.id (text_or v.article_id String.[]) (text_or v.source_id String.[]) u.text
          v.title_original (historical_title_vi w v.title_vi) t)
]

unfoldable pub serialize_unavailable : Historical → String → Result HistoricalError HistoricalView
serialize_unavailable v reason =
    if includes ("takedown" ∷ "source-policy" ∷ "article-removed" ∷ []) reason
    then ok (unavailable v.id reason v.article_id v.source_id)
    else err reason_invalid

-- `serializeHistoricalCitation`.
unfoldable pub serialize_historical_citation :
    Web → Historical → Result HistoricalError HistoricalView
unfolding serialize_available serialize_unavailable text_or
serialize_historical_citation w v =
    if str_eq v.status "available"
    then serialize_available w v
    else serialize_unavailable v (text_or v.unavailable_reason v.status)

pub data SupportError : Type 0 where
  insufficient uncertain : SupportError
  not_covered : IntegrityError → SupportError

-- `new Set(ids).size`.
distinct : List String → ℕ
distinct [] = 0
distinct (x ∷ xs) = let rest = distinct xs in if includes xs x then rest else suc rest

abbrev block_ids : List Block → List String
block_ids = map (λ (b : Block). b.id)

-- The verdict is on exactly the blocks.
unfoldable pub matches_blocks : List String → List Block → Bool
unfolding distinct
matches_blocks ids blocks =
    length ids == length (block_ids blocks)
    && distinct ids == length (block_ids blocks)
    && all (includes ids) (block_ids blocks)

-- `assertSupportedAnswer`.
unfoldable pub assert_supported_answer :
    Web
    → String
    → List String
    → List Paragraph
    → List String
    → List Block
    → Result SupportError (Unit {0})
unfolding matches_blocks validate_paragraph_citations
assert_supported_answer w verdict verdict_ids ps ids blocks =
    if not (str_eq verdict "supported")
    then err insufficient
    else (if not (matches_blocks verdict_ids blocks)
        then err uncertain
        else elim (validate_paragraph_citations w ps ids blocks) [
          | ok x ↦ ok tt
          | err e ↦ err (not_covered e)
        ])
