-- ===== src/Answers/Citations/Numbers.antt =====
-- Code: hydrateAnswerCitations of server/domain/qa/citations.js: the ids of the citations.
use tech_pulse_ai.Prelude.{
  Bool-cases, List, Option-cases, Result, String, [], ap, arith, eq_iff, err, inl, inr, map, ok,
  refl, some, str_eq, sym, ℕ, ◌+◌, ◌-◌, ◌≡◌, ◌∙◌, ◌∷◌,
}
use tech_pulse_ai.Sources.Validation.{Web}
use tech_pulse_ai.Answers.Evidence.{Evidence}
use tech_pulse_ai.Answers.Citations.{
  Citation, IntegrityError, Numerals, citation_id, find_evidence, hydrate_all,
  hydrate_answer_citations, hydrate_one, rest_of, citation_record,
}
use tech_pulse_ai.Answers.Citations.Grounds.{citation_record-shows}

find_evidence-number :
    (n : Numerals) (id : String) (k : ℕ) (es : List Evidence) (e : Evidence)
    → find_evidence n id k es ≡ some e
    → (j : ℕ) × (citation_id n j ≡ id)
unfolding find_evidence
find_evidence-number n id k [] e f = ground arith
find_evidence-number n id k (x ∷ es) e f =
    let ih = find_evidence-number n id (k + 1) es in
    elim (Option-cases (find_evidence n id (k + 1) es)) [
      | inr (y, m) ↦ ih y m
      | inl m ↦ elim (Bool-cases (str_eq (citation_id n k) id)) [
        | inl s ↦ (k, (eq_iff (citation_id n k) id).0 s)
        | inr s ↦ ground (arith, f, m, s)
      ]
    ]

rest_of-citation_id : (n : Numerals) (j : ℕ) → rest_of (citation_id n j) ≡ n.show (j + 1)
unfolding rest_of citation_id
rest_of-citation_id n j = refl

module _ (w : Web) (n : Numerals) (reads : (k : ℕ) → n.number (n.show k) ≡ k) where
  number-citation_id : (j : ℕ) (id : String) → citation_id n j ≡ id → n.number (rest_of id) - 1 ≡ j
  number-citation_id j id e =
      let text : rest_of id ≡ n.show (j + 1) = ap rest_of (sym e) ∙ rest_of-citation_id n j in
      let value : n.number (rest_of id) ≡ j + 1 = ap n.number text ∙ reads (j + 1) in
      omega (arith, value)

  hydrate_one-id :
      (es : List Evidence) (id : String) (c : Citation)
      → hydrate_one w n id (find_evidence n id 0 es) ≡ ok c
      → c.id ≡ id
  unfolding hydrate_one
  hydrate_one-id es id c h = elim (Option-cases (find_evidence n id 0 es)) [
    | inl m ↦ ground (arith, h, m)
    | inr (e, m) ↦
        let made : citation_record w n e (n.number (rest_of id) - 1) ≡ ok c =
          ground (arith, h, m) in
        let (named, _) = citation_record-shows w n e (n.number (rest_of id) - 1) c made in
        let (j, i) = find_evidence-number n id 0 es e m in
        named ∙ ap (citation_id n) (number-citation_id j id i) ∙ i
  ]

hydrate_all-ids :
    (w : Web) (n : Numerals) (es : List Evidence) (ids : List String) (cs : List Citation)
    → ((k : ℕ) → n.number (n.show k) ≡ k)
    → hydrate_all w n es ids ≡ ok cs
    → map (λ (c : Citation). c.id) cs ≡ ids
unfolding hydrate_all
hydrate_all-ids w n es [] cs reads h = ground (arith, h)
hydrate_all-ids w n es (id ∷ ids) cs reads h =
    go (λ ds t. hydrate_all-ids w n es ids ds reads t)
      (hydrate_one w n id (find_evidence n id 0 es)) (hydrate_all w n es ids) refl refl
  where
    go :
        ((ds : List Citation)
          → hydrate_all w n es ids ≡ ok ds
          → map (λ (c : Citation). c.id) ds ≡ ids)
        → (r : Result IntegrityError Citation) (rs : Result IntegrityError (List Citation))
        → hydrate_one w n id (find_evidence n id 0 es) ≡ r
        → hydrate_all w n es ids ≡ rs
        → map (λ (c : Citation). c.id) cs ≡ id ∷ ids
    go ih (err x) rs r t = ground (arith, h, r)
    go ih (ok c) (err x) r t = ground (arith, h, r, t)
    go ih (ok c) (ok ds) r t = ground (arith, h, r, t, hydrate_one-id w n reads es id c r, ih ds t)

-- Where the platform reads back the numbers that it writes, the citations that `hydrateAnswerCitations`
-- returns have exactly the ids that were asked for, in their order.
pub hydrate_keeps_ids :
    (w : Web) (n : Numerals) (es : List Evidence) (ids : List String) (cs : List Citation)
    → ((k : ℕ) → n.number (n.show k) ≡ k)
    → hydrate_answer_citations w n ids es ≡ ok cs
    → map (λ (c : Citation). c.id) cs ≡ ids
unfolding hydrate_answer_citations
hydrate_keeps_ids w n es ids cs reads h =
    let made : hydrate_all w n es ids ≡ ok cs = ground (arith, h) in
    hydrate_all-ids w n es ids cs reads made
