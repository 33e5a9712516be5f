-- ===== src/Answers/Tests.antt =====
-- Code: server/domain/qa and canUseQnaEvidence of server/domain/article/visibility.js, at an answer on one
-- article of a feed.
use tech_pulse_ai.Prelude.{
  List, String, [], all, arith, false, keep, length, map, min, none, ok, refl, some, suc, true,
  zero, ℕ, ◌+◌, ◌==◌, ◌∷◌, ◌≡◌, ◌≤◌, str_eq,
}
use tech_pulse_ai.Sources.Validation.{Web}
use tech_pulse_ai.Sources.Rights.{
  MediaPolicy, Storage, media_keys, are_unique, metadata_input, metadata_only,
  validate_policy_compatibility,
}
use tech_pulse_ai.Sources.Lifecycle.{Source, active, passed, is_active, is_licensed, has_passed}
use tech_pulse_ai.Sources.Content.{is_source_production_eligible}
use tech_pulse_ai.Answers.Evidence.{
  Article, Evidence, at, filter_qna_evidence, is_visible, public_url,
}
use tech_pulse_ai.Answers.Evidence.Selection.{
  count, filter_qna_evidence_complete, filter_qna_evidence-fits,
}
use tech_pulse_ai.Answers.Citations.{
  Block, Citation, Numerals, Paragraph, assert_supported_answer, hydrate_answer_citations,
}
use tech_pulse_ai.Answers.Citations.Grounds.{
  hydrate_shows_usable, is_grounded, shows_usable, supported_answer_grounded,
}
use tech_pulse_ai.Answers.Citations.Numbers.{hydrate_keeps_ids}

abbrev web : Web
web = record {
  trim = λ s. s;
  is_space = λ c. c == 32;
  to_ascii = λ s. s;
  is_ip = λ s. false;
  parse_url = λ s. some (record {
    protocol = "https:";
    username = "";
    password = "";
    hostname = "example.com";
    text = s;
  });
}

abbrev storage : Storage
storage = record { metadata = true; excerpt = false; summary = true; embedding = false }

abbrev media : MediaPolicy
media = record {
  keys = media_keys;
  image_mode = "none";
  video_mode = "none";
  allowed_hosts = [];
  attribution_required = false;
  evidence_note = none;
}

abbrev feed : Source
feed = record {
  id = "s1";
  identity = record {
    name = "Feed";
    source_key = "rss:feed";
    publisher_name = "Publisher";
    domain = "example.com";
  };
  connector = record {
    connector_type = "rss";
    access_method = "rss";
    authority_tier = "primary";
    connector_config = record {
      keys = "kind" ∷ "batchSize" ∷ "feedUrl" ∷ [];
      kind = "rss";
      batch_size = 20;
      feed_url = some "https://example.com/feed";
      arxiv_query = none;
      hacker_news_stream = none;
    };
  };
  operational_status = active;
  rights = record {
    license_status = metadata_only;
    llm_input_scope = metadata_input;
    storage_scope = storage;
    media_policy = media;
    attribution_required = false;
    attribution_text = none;
  };
  terms_url = none;
  license_url = none;
  evidence_note = some "reviewed";
  reviewed_at = some 10;
  reviewed_by = some "a1";
  policy_version = 2;
  reconciliation = record {
    is_pending = false;
    required_policy_version = 2;
    completed_policy_version = some 2;
    requested_at = none;
    error = none;
  };
  technical_check = record {
    status = passed;
    checked_at = some 5;
    content_type = none;
    resolved_host = none;
    sample_count = some 3;
    error = none;
  };
  created_at = 0;
  updated_at = 10;
}

abbrev article : Article
article = record {
  id = "a1";
  source_id = "s1";
  status = "published";
  evidence_eligible = true;
  rights_snapshot = some (record {
    source_policy_version = 2;
    license_status = metadata_only;
    llm_input_scope = metadata_input;
  });
  title_original = some "Title";
  title_vi = none;
  original_url = "https://example.com/a1";
  author = none;
  published_at = at 4;
  source_language = some "en";
}

abbrev evidence : List Evidence
evidence = record { article = article; source = feed } ∷ []

-- Numbers as strokes.
tally : ℕ → String
tally zero = String.[]
tally (suc k) = String.◌∷◌ "i" (tally k)

strokes : String → ℕ
strokes String.[] = 0
strokes (String.◌∷◌ c s) = strokes s + 1

strokes-tally : (k : ℕ) → strokes (tally k) ≡ k
unfolding strokes tally
strokes-tally zero = refl
strokes-tally (suc k) = omega (arith, strokes-tally k)

abbrev numerals : Numerals
numerals = record { show = tally; number = strokes }

chosen_lem : filter_qna_evidence web evidence ≡ ok evidence
unfolding filter_qna_evidence is_visible is_source_production_eligible is_active is_licensed
    has_passed validate_policy_compatibility
chosen_lem = refl

filter_qna_evidence-fits_example :
    (1 ≤ length evidence)
    × (length evidence ≤ 6)
    × (all (is_visible web) evidence ≡ true)
    × (count "s1" evidence ≤ 2)
filter_qna_evidence-fits_example = filter_qna_evidence-fits web evidence evidence "s1" chosen_lem

filter_qna_evidence_complete_example :
    count "s1" evidence ≡ min 2 (count "s1" (keep (is_visible web) evidence))
filter_qna_evidence_complete_example =
    filter_qna_evidence_complete web evidence evidence "s1" chosen_lem (omega arith)

abbrev wanted : List String
wanted = "Ci" ∷ []

abbrev citation : Citation
citation = record {
  id = "Ci";
  metadata = record {
    article_id = "a1";
    source_id = "s1";
    source_name = "Feed";
    title_original = "Title";
    title_vi = none;
    original_url = "https://example.com/a1";
    author = none;
    published_at = 4;
    source_language = "en";
  };
}

hydrated_lem : hydrate_answer_citations web numerals wanted evidence ≡ ok (citation ∷ [])
unfolding hydrate_answer_citations tally strokes public_url
hydrated_lem = refl

hydrate_shows_usable_example :
    (length (citation ∷ []) ≡ length wanted)
    × (all (shows_usable web evidence) (citation ∷ []) ≡ true)
hydrate_shows_usable_example =
    hydrate_shows_usable web numerals evidence evidence wanted (citation ∷ []) chosen_lem
      hydrated_lem

hydrate_keeps_ids_example : map (λ (c : Citation). c.id) (citation ∷ []) ≡ wanted
hydrate_keeps_ids_example =
    hydrate_keeps_ids web numerals evidence wanted (citation ∷ []) strokes-tally hydrated_lem

abbrev blocks : List Block
blocks = record { id = "E1"; citation_id = "Ci" } ∷ []

abbrev paragraphs : List Paragraph
paragraphs = record { text = "Text"; citation_ids = "Ci" ∷ []; evidence_block_ids = "E1" ∷ [] } ∷ []

supported_lem : assert_supported_answer web "supported" ("E1" ∷ []) paragraphs wanted blocks ≡ ok tt
unfolding assert_supported_answer are_unique
supported_lem = refl

supported_answer_grounded_example :
    (str_eq "supported" "supported" ≡ true)
    × (1 ≤ length paragraphs)
    × (length paragraphs ≤ 12)
    × (all (is_grounded ("E1" ∷ []) wanted) paragraphs ≡ true)
supported_answer_grounded_example =
    supported_answer_grounded web "supported" ("E1" ∷ []) paragraphs wanted blocks supported_lem
