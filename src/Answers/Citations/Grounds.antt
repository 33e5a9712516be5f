-- ===== src/Answers/Citations/Grounds.antt =====
-- Code: server/domain/qa/citations.js and server/domain/qa/support.js: what the citations of an answer
-- stand on.
use tech_pulse_ai.Prelude.{
  Bool, Bool-cases, List, Option-cases, Result, String, [], all, any, ap, arith, eq_iff, eq_refl,
  err, false, includes, leb, ◌≤◌, inl, inr, length, ok, refl, some, str_eq, true, ℕ, ◌&&◌, ◌+◌, ◌-◌,
  ◌≡◌, ◌∷◌,
}
use tech_pulse_ai.Sources.Validation.{Web}
use tech_pulse_ai.Answers.Evidence.{Evidence, filter_qna_evidence, is_visible}
use tech_pulse_ai.Answers.Evidence.Selection.{filter_qna_evidence-fits}
use tech_pulse_ai.Answers.Citations.{
  Block, Citation, IntegrityError, Metadata, Numerals, Paragraph, assert_supported_answer,
  block_citation, block_ids, check_paragraphs, citation_evidence_metadata, citation_id,
  citation_record, cites, find_evidence, hydrate_all, hydrate_answer_citations, hydrate_one,
  is_count, is_covered, matches_blocks, metadata_of, rest_of, validate_paragraph_citations,
}

find_evidence-any :
    (n : Numerals) (q : Evidence → Bool) (id : String) (k : ℕ) (es : List Evidence) (e : Evidence)
    → find_evidence n id k es ≡ some e
    → q e ≡ true
    → any q es ≡ true
unfolding find_evidence
find_evidence-any n q id k [] e f h = ground arith
find_evidence-any n q id k (x ∷ es) e f h =
    let ih = find_evidence-any n q id (k + 1) es in
    elim (Option-cases (find_evidence n id (k + 1) es)) [
      | inl m ↦ ground (arith, f, h, m)
      | inr (y, m) ↦ ground (arith, ih e, f, h, m)
    ]

find_evidence-all :
    (n : Numerals) (q : Evidence → Bool) (id : String) (k : ℕ) (es : List Evidence) (e : Evidence)
    → find_evidence n id k es ≡ some e
    → all q es ≡ true
    → q e ≡ true
unfolding find_evidence
find_evidence-all n q id k [] e f h = ground arith
find_evidence-all n q id k (x ∷ es) e f h =
    let ih = find_evidence-all n q id (k + 1) es in
    elim (Option-cases (find_evidence n id (k + 1) es)) [
      | inl m ↦ ground (arith, f, h, m)
      | inr (y, m) ↦ ground (arith, ih e, f, h, m)
    ]

-- The citation shows this record.
unfoldable pub shows : Citation → Evidence → Bool
shows c e = str_eq e.article.id c.metadata.article_id && str_eq e.source.id c.metadata.source_id

metadata_of-ids :
    (w : Web) (e : Evidence) (m : Metadata)
    → citation_evidence_metadata w e ≡ ok m
    → (m.article_id ≡ e.article.id) × (m.source_id ≡ e.source.id)
unfolding citation_evidence_metadata metadata_of
metadata_of-ids w e m h = ground arith

pub citation_record-shows :
    (w : Web) (n : Numerals) (e : Evidence) (k : ℕ) (c : Citation)
    → citation_record w n e k ≡ ok c
    → (c.id ≡ citation_id n k) × (shows c e ≡ true)
unfolding citation_record shows
citation_record-shows w n e k c h = go (citation_evidence_metadata w e) refl
  where
    go :
        (r : Result IntegrityError Metadata)
        → citation_evidence_metadata w e ≡ r
        → (c.id ≡ citation_id n k) × (shows c e ≡ true)
    go (err x) r = ground (arith, h, r)
    go (ok m) r =
        ground (arith, h, r, metadata_of-ids w e m r, eq_refl e.article.id, eq_refl e.source.id)

-- A citation of a record that may be used.
unfoldable pub shows_usable : Web → List Evidence → Citation → Bool
shows_usable w es c = any (λ e. is_visible w e && shows c e) es

hydrate_one-usable :
    (w : Web) (n : Numerals) (es : List Evidence) (id : String) (c : Citation)
    → all (is_visible w) es ≡ true
    → hydrate_one w n id (find_evidence n id 0 es) ≡ ok c
    → shows_usable w es c ≡ true
unfolding hydrate_one shows_usable
hydrate_one-usable w n es id c v h = elim (Option-cases (find_evidence n id 0 es)) [
  | inl m ↦ ground (arith, h, m)
  | inr (e, m) ↦
      let made : citation_record w n e (n.number (rest_of id) - 1) ≡ ok c = ground (arith, h, m) in
      let (_, shown) = citation_record-shows w n e (n.number (rest_of id) - 1) c made in
      let fit = find_evidence-all n (is_visible w) id 0 es e m v in
      find_evidence-any n (λ x. is_visible w x && shows c x) id 0 es e m
        (ground (arith, shown, fit))
]

hydrate_all-usable :
    (w : Web) (n : Numerals) (es : List Evidence) (ids : List String) (cs : List Citation)
    → all (is_visible w) es ≡ true
    → hydrate_all w n es ids ≡ ok cs
    → (length cs ≡ length ids) × (all (shows_usable w es) cs ≡ true)
unfolding hydrate_all
hydrate_all-usable w n es [] cs v h = ground (arith, h)
hydrate_all-usable w n es (id ∷ ids) cs v h =
    go (λ ds t. hydrate_all-usable w n es ids ds v t) (hydrate_one w n id (find_evidence n id 0 es))
      (hydrate_all w n es ids) refl refl
  where
    go :
        ((ds : List Citation)
          → hydrate_all w n es ids ≡ ok ds
          → (length ds ≡ length ids) × (all (shows_usable w es) ds ≡ true))
        → (r : Result IntegrityError Citation) (rs : Result IntegrityError (List Citation))
        → hydrate_one w n id (find_evidence n id 0 es) ≡ r
        → hydrate_all w n es ids ≡ rs
        → (length cs ≡ length (id ∷ ids)) × (all (shows_usable w es) cs ≡ true)
    go ih (err x) rs r t = ground (arith, h, r)
    go ih (ok c) (err x) r t = ground (arith, h, r, t)
    go ih (ok c) (ok ds) r t = ground (arith, h, r, t, hydrate_one-usable w n es id c v r, ih ds t)

-- When the evidence of an answer was chosen by `filterQnaEvidence` and `hydrateAnswerCitations` returns,
-- there is one citation for each id, and each carries the ids of the article and the source of a chosen
-- record that may be used for questions and answers.
pub hydrate_shows_usable :
    (w : Web) (n : Numerals) (es chosen : List Evidence) (ids : List String) (cs : List Citation)
    → filter_qna_evidence w es ≡ ok chosen
    → hydrate_answer_citations w n ids chosen ≡ ok cs
    → (length cs ≡ length ids) × (all (shows_usable w chosen) cs ≡ true)
unfolding hydrate_answer_citations
hydrate_shows_usable w n es chosen ids cs e h =
    let (_, _, visible, _) = filter_qna_evidence-fits w es chosen String.[] e in
    let made : hydrate_all w n chosen ids ≡ ok cs = ground (arith, h) in
    hydrate_all-usable w n chosen ids cs visible made

-- A block's citation is found only for the id of a block.
block_citation-all :
    (q : String → Bool) (id : String) (bs : List Block) (c : String)
    → block_citation id bs ≡ some c
    → all q (block_ids bs) ≡ true
    → q id ≡ true
unfolding block_citation
block_citation-all q id [] c e h = ground arith
block_citation-all q id (b ∷ bs) c e h = elim (Option-cases (block_citation id bs)) [
  | inr (d, m) ↦ ground (arith, h, block_citation-all q id bs d m)
  | inl m ↦ elim (Bool-cases (str_eq b.id id)) [
    | inl s ↦ ground (arith, h, ap q ((eq_iff b.id id).0 s))
    | inr s ↦ ground (arith, e, m, s)
  ]
]

blocks_verified :
    (verdict : List String) (bs : List Block) (cited ids : List String)
    → all (includes verdict) (block_ids bs) ≡ true
    → all (λ id. cites (block_citation id bs) cited) ids ≡ true
    → all (includes verdict) ids ≡ true
unfolding cites
blocks_verified verdict bs cited [] v h = refl
blocks_verified verdict bs cited (id ∷ ids) v h =
    let ih = blocks_verified verdict bs cited ids v in
    elim (Option-cases (block_citation id bs)) [
      | inl m ↦ ground (arith, h, m)
      | inr (c, m) ↦ ground (arith, h, ih, m, block_citation-all (includes verdict) id bs c m v)
    ]

-- A paragraph that stands on blocks of the verdict, and on known citations, at least one of each.
unfoldable pub is_grounded : List String → List String → Paragraph → Bool
is_grounded verdict known p =
    leb 1 (length p.citation_ids)
    && all (includes known) p.citation_ids
    && leb 1 (length p.evidence_block_ids)
    && all (includes verdict) p.evidence_block_ids

covered_grounded :
    (w : Web) (verdict known : List String) (bs : List Block) (p : Paragraph)
    → all (includes verdict) (block_ids bs) ≡ true
    → is_covered w known bs p ≡ true
    → is_grounded verdict known p ≡ true
unfolding is_covered is_grounded is_count
covered_grounded w verdict known bs p v h =
    ground (arith, h, blocks_verified verdict bs p.citation_ids p.evidence_block_ids v)

check_paragraphs-grounded :
    (w : Web) (verdict known : List String) (bs : List Block) (ps qs : List Paragraph)
    → all (includes verdict) (block_ids bs) ≡ true
    → check_paragraphs w known bs ps ≡ ok qs
    → (qs ≡ ps) × (all (is_grounded verdict known) ps ≡ true)
unfolding check_paragraphs
check_paragraphs-grounded w verdict known bs [] qs v h = ground (arith, h)
check_paragraphs-grounded w verdict known bs (p ∷ ps) qs v h =
    go (λ rs t. check_paragraphs-grounded w verdict known bs ps rs v t) (is_covered w known bs p)
      (check_paragraphs w known bs ps) refl refl
  where
    go :
        ((rs : List Paragraph)
          → check_paragraphs w known bs ps ≡ ok rs
          → (rs ≡ ps) × (all (is_grounded verdict known) ps ≡ true))
        → (b : Bool) (r : Result IntegrityError (List Paragraph)) → is_covered w known bs p ≡ b
        → check_paragraphs w known bs ps ≡ r
        → (qs ≡ p ∷ ps) × (all (is_grounded verdict known) (p ∷ ps) ≡ true)
    go ih false r c t = ground (arith, h, c)
    go ih true (err x) c t = ground (arith, h, c, t)
    go ih true (ok rs) c t =
        ground (arith, h, c, t, covered_grounded w verdict known bs p v c, ih rs t)

-- When `assertSupportedAnswer` accepts an answer, the verdict is `supported`, there are from one to twelve
-- paragraphs, and each cites at least one citation of the answer and none other, and stands on at least
-- one evidence block, all of them blocks that the verdict names.
pub supported_answer_grounded :
    (w : Web) (verdict : String) (verdict_ids : List String) (ps : List Paragraph)
    (ids : List String) (bs : List Block)
    → assert_supported_answer w verdict verdict_ids ps ids bs ≡ ok tt
    → (str_eq verdict "supported" ≡ true)
      × (1 ≤ length ps)
      × (length ps ≤ 12)
      × (all (is_grounded verdict_ids ids) ps ≡ true)
unfolding assert_supported_answer matches_blocks validate_paragraph_citations
supported_answer_grounded w verdict verdict_ids ps ids bs h = go (check_paragraphs w ids bs ps) refl
  where
    go :
        (r : Result IntegrityError (List Paragraph))
        → check_paragraphs w ids bs ps ≡ r
        → (str_eq verdict "supported" ≡ true)
          × (1 ≤ length ps)
          × (length ps ≤ 12)
          × (all (is_grounded verdict_ids ids) ps ≡ true)
    go (err x) r = ground (arith, h, r)
    go (ok qs) r =
        let named : all (includes verdict_ids) (block_ids bs) ≡ true = ground (arith, h) in
        let (_, grounded) = check_paragraphs-grounded w verdict_ids ids bs ps qs named r in
        ground (arith, h, r, grounded)
