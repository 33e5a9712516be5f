-- ===== src/Answers/Evidence/Selection.antt =====
-- Code: filterQnaEvidence of server/domain/qa/evidence.js: what it selects.
use tech_pulse_ai.Prelude.{
  Bool, Bool-cases, List, String, [], all, arith, eq_iff, false, if◌then◌else◌, inl, keep, length,
  min, ok, refl, str_eq, ap, inr, ◌⊎◌, true, ℕ, ◌&&◌, ◌+◌, ◌<◌, ◌==◌, ◌∷◌, ◌≡◌, ◌≤◌,
}
use tech_pulse_ai.Sources.Validation.{Web}
use tech_pulse_ai.Answers.Evidence.{
  Counts, Evidence, counted, filter_qna_evidence, is_taken, is_visible, select_from,
}

-- The records of one source.
pub is_from : String → Evidence → Bool
is_from id e = str_eq e.source.id id

unfoldable pub count : String → List Evidence → ℕ
unfolding is_from
count id es = length (keep (is_from id) es)

select_from-visible :
    (w : Web) (es : List Evidence) (c : Counts) (n : ℕ)
    → all (is_visible w) (select_from w es c n) ≡ true
unfolding select_from is_taken
select_from-visible w [] c n = refl
select_from-visible w (e ∷ es) c n = ground (
  arith,
  select_from-visible w es (if is_taken w c e then counted e.source.id c else c)
      (if is_taken w c e then n + 1 else n),
)

-- The three ways of one round.
module _ (w : Web) (e : Evidence) (es : List Evidence) (c : Counts) (n : ℕ) where
  select_from-skip : is_taken w c e ≡ false → select_from w (e ∷ es) c n ≡ select_from w es c n
  unfolding select_from
  select_from-skip t = ground (arith, t)

  select_from-more :
      is_taken w c e ≡ true
      → n + 1 < 6
      → select_from w (e ∷ es) c n ≡ e ∷ select_from w es (counted e.source.id c) (n + 1)
  unfolding select_from
  select_from-more t l = ground (arith, t, l)

  select_from-last : is_taken w c e ≡ true → n + 1 ≡ 6 → select_from w (e ∷ es) c n ≡ e ∷ []
  unfolding select_from
  select_from-last t l = ground (arith, t, l)

  -- A record that is taken is visible, and its source has room.
  is_taken-room : is_taken w c e ≡ true → (is_visible w e ≡ true) × (c e.source.id < 2)
  unfolding is_taken
  is_taken-room t = ground (arith, t)

  -- A record that is not taken is not visible, or its source is full.
  is_taken-full : is_taken w c e ≡ false → (is_visible w e ≡ false) ⊎ (2 ≤ c e.source.id)
  unfolding is_taken
  is_taken-full t = elim (Bool-cases (is_visible w e)) [
    | inl v ↦ inr (ground (arith, t, v))
    | inr v ↦ inl v
  ]

  -- The count of a source after its record, and of the others.
  counted-at : (id : String) → counted e.source.id c id ≡ (if is_from id e then c id + 1 else c id)
  unfolding counted is_from
  counted-at id = refl

  is_from-same : (id : String) → is_from id e ≡ true → c e.source.id ≡ c id
  unfolding is_from
  is_from-same id f = ap c ((eq_iff e.source.id id).0 f)

next_round : (n : ℕ) → n < 6 → (n + 1 < 6) ⊎ (n + 1 ≡ 6)
next_round n l = elim (Bool-cases (n + 1 == 6)) [
  | inl b ↦ inr (ground (arith, b))
  | inr b ↦ inl (ground (arith, b, l))
]

select_from-bounded :
    (w : Web) (es : List Evidence) (c : Counts) (n : ℕ)
    → n < 6
    → n + length (select_from w es c n) ≤ 6
unfolding select_from
select_from-bounded w [] c n l = omega (arith, l)
select_from-bounded w (e ∷ es) c n l =
    let ih = select_from-bounded w es in
    elim (Bool-cases (is_taken w c e)) [
      | inr t ↦ ground (arith, select_from-skip w e es c n t, ih c n l)
      | inl t ↦ elim (next_round n l) [
        | inl m ↦
            ground (arith, select_from-more w e es c n t m, ih (counted e.source.id c) (n + 1) m)
        | inr m ↦ ground (arith, select_from-last w e es c n t m)
      ]
    ]

count-add :
    (id : String) (e : Evidence) (es : List Evidence)
    → count id (e ∷ es) ≡ (if is_from id e then 1 else 0) + count id es
unfolding count
count-add id e es = ground arith

-- A taken record leaves its source with at most two.
counted-room :
    (w : Web) (e : Evidence) (c : Counts) (id : String)
    → is_taken w c e ≡ true
    → c id ≤ 2
    → counted e.source.id c id ≤ 2
counted-room w e c id t r =
    let room = is_taken-room w e [] c 0 t in
    let now = counted-at w e [] c 0 id in
    elim (Bool-cases (is_from id e)) [
      | inl f ↦ ground (arith, room, now, f, is_from-same w e [] c 0 id f)
      | inr f ↦ ground (arith, now, f)
    ]

select_from-spread :
    (w : Web) (id : String) (es : List Evidence) (c : Counts) (n : ℕ)
    → n < 6
    → c id ≤ 2
    → c id + count id (select_from w es c n) ≤ 2
unfolding select_from count
select_from-spread w id [] c n l r = omega (arith, r)
select_from-spread w id (e ∷ es) c n l r =
    let ih = select_from-spread w id es in
    elim (Bool-cases (is_taken w c e)) [
      | inr t ↦ ground (arith, select_from-skip w e es c n t, ih c n l r)
      | inl t ↦
          let d = counted e.source.id c in
          let small = counted-room w e c id t r in
          let now = counted-at w e es c n id in
          elim (next_round n l) [
            | inl m ↦ ground (
              arith,
              select_from-more w e es c n t m,
              ih d (n + 1) m small,
              now,
              count-add id e (select_from w es d (n + 1)),
            )
            | inr m ↦ ground (arith, select_from-last w e es c n t m, now, small, count-add id e [])
          ]
    ]

-- The records of a source among those that may be used.
usable : Web → String → List Evidence → ℕ
unfolding count
usable w id es = count id (keep (is_visible w) es)

usable-add :
    (w : Web) (id : String) (e : Evidence) (es : List Evidence)
    → usable w id (e ∷ es) ≡ (if is_visible w e && is_from id e then 1 else 0) + usable w id es
unfolding usable count
usable-add w id e es = elim (Bool-cases (is_visible w e)) [
  | inl v ↦ ground (arith, v)
  | inr v ↦ ground (arith, v)
]

-- While six are not reached, a source has all its records, or two.
abbrev Complete : Web → String → List Evidence → Counts → ℕ → Type 0
Complete w id es c n = c id + count id (select_from w es c n) ≡ min 2 (c id + usable w id es)

skipped-Complete :
    (w : Web) (id : String) (e : Evidence) (es : List Evidence) (c : Counts) (n : ℕ)
    → is_taken w c e ≡ false
    → c id ≤ 2
    → Complete w id es c n
    → Complete w id (e ∷ es) c n
skipped-Complete w id e es c n t r ih =
    let same = select_from-skip w e es c n t in
    let more = usable-add w id e es in
    elim (is_taken-full w e es c n t) [
      | inl v ↦ ground (arith, same, more, v, ih)
      | inr f ↦ elim (Bool-cases (is_from id e)) [
        | inl i ↦ ground (arith, same, more, f, i, is_from-same w e es c n id i, ih)
        | inr i ↦ ground (arith, same, more, i, ih)
      ]
    ]

taken-Complete :
    (w : Web) (id : String) (e : Evidence) (es : List Evidence) (c : Counts) (n : ℕ)
    → is_taken w c e ≡ true
    → n + 1 < 6
    → Complete w id es (counted e.source.id c) (n + 1)
    → Complete w id (e ∷ es) c n
taken-Complete w id e es c n t m ih =
    let same = select_from-more w e es c n t m in
    let more = usable-add w id e es in
    let room = is_taken-room w e es c n t in
    let now = counted-at w e es c n id in
    let one = count-add id e (select_from w es (counted e.source.id c) (n + 1)) in
    ground (arith, same, more, room, now, one, ih)

select_from-Complete :
    (w : Web) (id : String) (es : List Evidence) (c : Counts) (n : ℕ)
    → n + length (select_from w es c n) < 6
    → c id ≤ 2
    → Complete w id es c n
unfolding select_from usable count
select_from-Complete w id [] c n l r = ground (arith, r)
select_from-Complete w id (e ∷ es) c n l r =
    let ih = select_from-Complete w id es in
    elim (Bool-cases (is_taken w c e)) [
      | inr t ↦
          skipped-Complete w id e es c n t r
            (ih c n (ground (arith, select_from-skip w e es c n t, l)) r)
      | inl t ↦ elim (next_round n (ground (arith, l))) [
        | inr m ↦ ground (arith, select_from-last w e es c n t m, l)
        | inl m ↦ taken-Complete w id e es c n t m (
            ih (counted e.source.id c) (n + 1) (ground (arith, select_from-more w e es c n t m, l))
              (counted-room w e c id t r))
      ]
    ]

filter_qna_evidence-selected :
    (w : Web) (es chosen : List Evidence)
    → filter_qna_evidence w es ≡ ok chosen
    → (chosen ≡ select_from w es (λ id. 0) 0) × (1 ≤ length chosen)
unfolding filter_qna_evidence
filter_qna_evidence-selected w es chosen e = go (select_from w es (λ id. 0) 0) refl
  where
    go :
        (out : List Evidence)
        → out ≡ select_from w es (λ id. 0) 0
        → (chosen ≡ select_from w es (λ id. 0) 0) × (1 ≤ length chosen)
    go [] h = ground (arith, e, h)
    go (x ∷ xs) h = ground (arith, e, h)

-- What `filterQnaEvidence` returns: from one to six records, each of which may be used for questions and
-- answers, and no more than two of any one source.
pub filter_qna_evidence-fits :
    (w : Web) (es chosen : List Evidence) (id : String)
    → filter_qna_evidence w es ≡ ok chosen
    → (1 ≤ length chosen)
      × (length chosen ≤ 6)
      × (all (is_visible w) chosen ≡ true)
      × (count id chosen ≤ 2)
filter_qna_evidence-fits w es chosen id e =
    let (same, some_chosen) = filter_qna_evidence-selected w es chosen e in
    let none_yet : Counts = λ id. 0 in
    let few = select_from-bounded w es none_yet 0 (omega arith) in
    let fit = select_from-visible w es none_yet 0 in
    let spread = select_from-spread w id es none_yet 0 (omega arith) (omega arith) in
    (
      some_chosen,
      ground (arith, same, few),
      ground (arith, same, fit),
      ground (arith, same, spread),
    )

-- When `filterQnaEvidence` returns fewer than six records, it left out none without need: a source that
-- has no more than two records that may be used has them all in the result, any other has two.
pub filter_qna_evidence_complete :
    (w : Web) (es chosen : List Evidence) (id : String)
    → filter_qna_evidence w es ≡ ok chosen
    → length chosen < 6
    → count id chosen ≡ min 2 (count id (keep (is_visible w) es))
unfolding usable
filter_qna_evidence_complete w es chosen id e l =
    let (same, _) = filter_qna_evidence-selected w es chosen e in
    let none_yet : Counts = λ id. 0 in
    let full = select_from-Complete w id es none_yet 0 (ground (arith, same, l)) (omega arith) in
    ground (arith, same, full)
