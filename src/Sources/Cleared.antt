-- ===== src/Sources/Cleared.antt =====
-- Code: server/domain/source/state-machine.js: which sources may be active, over sequences of
-- updates and reviews.
use tech_pulse_ai.Prelude.{
  Bool, Bool-cases, List, String, [], ap, arith, err, false, inl, inr, is_ok, not, ok, refl, sym,
  true, ℕ, ◌&&◌, ◌||◌, ◌∙◌, ◌∷◌, ◌≡◌,
}
use tech_pulse_ai.Sources.Validation.{Checked, Web}
use tech_pulse_ai.Sources.Rights.{
  Identity, MediaPolicy, is_under_review, validate_policy_compatibility,
}
use tech_pulse_ai.Sources.Lifecycle.{
  Source, Status, has_evidence, has_passed, is_active, is_licensed, transition_operational_status,
  validate_activation,
}
use tech_pulse_ai.Sources.Update.{
  Patch, Review, apply_source_update, changes_rights, changes_technical, changes_versioned,
  check_after, configured, normalized, patched, reopened, request_policy_re_review,
  review_source_policy, reviewed, value_or, with_status, with_version,
}
use tech_pulse_ai.Sources.Parts.{
  re_review-parts, reconfigured-parts, review-parts, transition-parts, update-parts,
  with_status-parts,
}

-- An active source has a passed check, a license, the evidence of a review, and rights that agree
-- with each other.
unfoldable pub is_cleared : Web → Source → Bool
is_cleared w s =
    not (is_active s.operational_status)
    || has_passed s.technical_check.status
      && is_licensed s.rights.license_status
      && has_evidence w s
      && is_ok (validate_policy_compatibility w s.rights)

activation_clears :
    (w : Web) (s : Source) (to : Status) (m : MediaPolicy) (now : ℕ)
    → validate_activation w s ≡ ok m
    → is_cleared w (record s { operational_status = to; updated_at = now }) ≡ true
unfolding validate_activation is_cleared has_evidence
activation_clears w s to m now e = ground arith

inactive_cleared :
    (w : Web) (s : Source) → is_active s.operational_status ≡ false → is_cleared w s ≡ true
unfolding is_cleared
inactive_cleared w s h = ground arith

pub transition-cleared :
    (w : Web) (s t : Source) (to : Status) (now : ℕ)
    → transition_operational_status w s to now ≡ ok t
    → is_cleared w t ≡ true
transition-cleared w s t to now e =
    let (_, same, cases) = transition-parts w s t to now e in
    ap (is_cleared w) same ∙ elim cases [
      | inl h ↦ inactive_cleared w (record s { operational_status = to; updated_at = now }) h
      | inr (m, h) ↦ activation_clears w s to m now h
    ]

with_version-cleared :
    (w : Web) (s t : Source) (p : Patch) (now : ℕ)
    → is_cleared w t ≡ true
    → is_cleared w (with_version s p t now) ≡ true
unfolding is_cleared with_version has_evidence
with_version-cleared w s t p now h = elim (Bool-cases (changes_versioned s p)) [
  | inl e ↦ ground arith
  | inr e ↦ ground arith
]

rights_unchanged :
    (s : Source) (p : Patch) → changes_rights s p ≡ false → changes_technical s p ≡ false
unfolding changes_rights changes_versioned
rights_unchanged s p h = ground arith

configured-cleared :
    (w : Web) (s : Source) (p : Patch) (i : Identity) (media m : MediaPolicy)
    → is_cleared w s ≡ true
    → is_under_review s.rights.license_status || not (changes_rights s p) ≡ true
    → validate_policy_compatibility w (configured s p i media).rights ≡ ok m
    → is_cleared w (configured s p i media) ≡ true
unfolding is_cleared configured normalized patched check_after has_evidence is_licensed
    is_under_review
configured-cleared w s p i media m h a c = ground (arith, rights_unchanged s p)

with_status-cleared :
    (w : Web) (s next moved : Source) (p : Patch) (now : ℕ)
    → is_cleared w next ≡ true
    → with_status w s p next now ≡ ok moved
    → is_cleared w moved ≡ true
with_status-cleared w s next moved p now h e = elim (with_status-parts w s next moved p now e) [
  | inl q ↦ ap (is_cleared w) q ∙ h
  | inr q ↦
      transition-cleared w next moved (value_or s.operational_status p.operational_status) now q
]

pub update-cleared :
    (w : Web) (s t : Source) (p : Patch) (now : ℕ)
    → is_cleared w s ≡ true
    → apply_source_update w s p now ≡ ok t
    → is_cleared w t ≡ true
update-cleared w s t p now h e =
    let (next, moved, built, moves, same, allows) = update-parts w s t p now e in
    let (i, media, m, q, c) = reconfigured-parts w s next p built in
    let compatible = sym (ap (λ x. validate_policy_compatibility w x.rights) q) ∙ c in
    let next_cleared =
      ap (is_cleared w) q ∙ configured-cleared w s p i media m h allows compatible in
    let moved_cleared = with_status-cleared w s next moved p now next_cleared moves in
    ap (is_cleared w) same ∙ with_version-cleared w s moved p now moved_cleared

pub review-cleared :
    (w : Web) (s t : Source) (r : Review) (reviewer : String) (now : ℕ)
    → review_source_policy w s r reviewer now ≡ ok t
    → is_cleared w t ≡ true
review-cleared w s t r reviewer now e =
    let (n, same, idle) = review-parts w s t r reviewer now e in
    ap (is_cleared w) same ∙ inactive_cleared w (reviewed s n reviewer now) idle

reopened-cleared :
    (w : Web) (s : Source) (reviewer : String) (now : ℕ)
    → is_cleared w (reopened s reviewer now) ≡ true
unfolding is_cleared reopened is_active
reopened-cleared w s reviewer now = ground arith

pub re_review-cleared :
    (w : Web) (s t : Source) (reviewer : String) (now : ℕ)
    → request_policy_re_review w s reviewer now ≡ ok t
    → is_cleared w t ≡ true
re_review-cleared w s t reviewer now e =
    ap (is_cleared w) (re_review-parts w s t reviewer now e) ∙ reopened-cleared w s reviewer now

-- The calls that change a source, one after another; a call that throws changes nothing.
pub data Call : Type 0 where
  updates : Patch → ℕ → Call
  reviews : Review → String → ℕ → Call
  re_reviews : String → ℕ → Call

unfoldable pub step : Web → Call → Source → Checked Source
step w (updates p now) s = apply_source_update w s p now
step w (reviews r reviewer now) s = review_source_policy w s r reviewer now
step w (re_reviews reviewer now) s = request_policy_re_review w s reviewer now

unfoldable pub after : Source → Checked Source → Source
after s (ok t) = t
after s (err e) = s

unfoldable pub run : Web → List Call → Source → Source
unfolding step after
run w [] s = s
run w (c ∷ cs) s = run w cs (after s (step w c s))

step-cleared :
    (w : Web) (c : Call) (s : Source)
    → is_cleared w s ≡ true
    → is_cleared w (after s (step w c s)) ≡ true
unfolding step after
step-cleared w c s h = go (step w c s) refl
  where
    settled : (c : Call) (t : Source) → step w c s ≡ ok t → is_cleared w t ≡ true
    settled (updates p now) t e = update-cleared w s t p now h e
    settled (reviews r reviewer now) t e = review-cleared w s t r reviewer now e
    settled (re_reviews reviewer now) t e = re_review-cleared w s t reviewer now e

    go : (r : Checked Source) → step w c s ≡ r → is_cleared w (after s r) ≡ true
    go (err x) e = h
    go (ok t) e = settled c t e

-- Over any updates, reviews and re-reviews, also those that are refused, a source that is active has
-- a passed technical check, a license, the evidence of a review, and rights that are compatible,
-- when that holds at the start.
pub run-cleared :
    (w : Web) (cs : List Call) (s : Source)
    → is_cleared w s ≡ true
    → is_cleared w (run w cs s) ≡ true
unfolding run
run-cleared w [] s h = h
run-cleared w (c ∷ cs) s h = run-cleared w cs (after s (step w c s)) (step-cleared w c s h)
