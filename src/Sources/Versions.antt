-- ===== src/Sources/Versions.antt =====
-- Code: server/domain/source/state-machine.js: policy versions and archived sources.
use tech_pulse_ai.Prelude.{
  Bool, Bool-cases, List, String, [], ap, arith, err, false, if◌then◌else◌, inl, inr, ok, refl,
  true, ℕ, ◌+◌, ◌∙◌, ◌∷◌, ◌≡◌, ◌≢◌,
}
use tech_pulse_ai.Sources.Validation.{Checked, Web}
use tech_pulse_ai.Sources.Rights.{Identity, MediaPolicy}
use tech_pulse_ai.Sources.Lifecycle.{
  Source, Status, archived, is_archived, may_become, pending_marker,
}
use tech_pulse_ai.Sources.Update.{
  Patch, Review, apply_source_update, changes_versioned, configured, normalized, patched,
  request_policy_re_review, review_source_policy, reviewed, value_or, with_status, with_version,
}
use tech_pulse_ai.Sources.Cleared.{Call, after, re_reviews, reviews, run, step, updates}
use tech_pulse_ai.Sources.Parts.{
  reconfigured-parts, review-parts, transition-parts, update-parts, with_status-parts,
}

configured-version :
    (s : Source) (p : Patch) (i : Identity) (media : MediaPolicy)
    → ((configured s p i media).policy_version ≡ s.policy_version)
      × ((configured s p i media).reconciliation ≡ s.reconciliation)
      × ((configured s p i media).operational_status ≡ s.operational_status)
unfolding configured normalized patched
configured-version s p i media = (refl, refl, refl)

-- Sources with one policy version and one marker of reconciliation.
abbrev SameVersion : Source → Source → Type 0
SameVersion s t = (t.policy_version ≡ s.policy_version) × (t.reconciliation ≡ s.reconciliation)

moved-version :
    (w : Web) (s next moved : Source) (p : Patch) (now : ℕ)
    → with_status w s p next now ≡ ok moved
    → SameVersion next moved
moved-version w s next moved p now e = elim (with_status-parts w s next moved p now e) [
  | inl q ↦ (ap (λ (x : Source). x.policy_version) q, ap (λ (x : Source). x.reconciliation) q)
  | inr q ↦
      let (_, same, _) =
        transition-parts w next moved (value_or s.operational_status p.operational_status) now q in
      (ap (λ (x : Source). x.policy_version) same, ap (λ (x : Source). x.reconciliation) same)
]

with_version-values :
    (s moved : Source) (p : Patch) (now : ℕ)
    → SameVersion s moved
    → (b : Bool) → changes_versioned s p ≡ b
    → ((with_version s p moved now).policy_version
        ≡ (if b then s.policy_version + 1 else s.policy_version))
      × ((with_version s p moved now).reconciliation
          ≡ (if b then pending_marker (s.policy_version + 1) now else s.reconciliation))
unfolding with_version
with_version-values s moved p now (v, r) true e = (ground arith, ground arith)
with_version-values s moved p now (v, r) false e = (ground (arith, v), ground (arith, r))

-- An accepted update gives the policy its next version, with a reconciliation pending for exactly
-- that version, where it changes a field that the policy depends on, and leaves both where not.
pub update_version :
    (w : Web) (s t : Source) (p : Patch) (now : ℕ)
    → apply_source_update w s p now ≡ ok t
    → (t.policy_version
        ≡ (if changes_versioned s p then s.policy_version + 1 else s.policy_version))
      × (t.reconciliation ≡ (
          if changes_versioned s p
          then pending_marker (s.policy_version + 1) now
          else s.reconciliation))
unfolding configured
update_version w s t p now e =
    let (next, moved, built, moves, same, _) = update-parts w s t p now e in
    let (i, media, m, q, _) = reconfigured-parts w s next p built in
    let (v, r) = moved-version w s next moved p now moves in
    let (version, marker) =
      with_version-values s moved p now
        (v ∙ ap (λ (x : Source). x.policy_version) q, r ∙ ap (λ (x : Source). x.reconciliation) q)
        (changes_versioned s p) refl in
    (
      ap (λ (x : Source). x.policy_version) same ∙ version,
      ap (λ (x : Source). x.reconciliation) same ∙ marker,
    )

with_version-status :
    (s moved : Source) (p : Patch) (now : ℕ)
    → (with_version s p moved now).operational_status ≡ moved.operational_status
unfolding with_version
with_version-status s moved p now = elim (Bool-cases (changes_versioned s p)) [
  | inl e ↦ ground arith
  | inr e ↦ ground arith
]

archived_ends : (from to : Status) → from ≡ archived → may_become from to ≡ false
unfolding may_become
archived_ends from to h = ground arith

update_archived :
    (w : Web) (s t : Source) (p : Patch) (now : ℕ)
    → s.operational_status ≡ archived
    → apply_source_update w s p now ≡ ok t
    → t.operational_status ≡ archived
update_archived w s t p now h e =
    let (next, moved, built, moves, same, _) = update-parts w s t p now e in
    let (i, media, m, q, _) = reconfigured-parts w s next p built in
    let (_, _, kept) = configured-version s p i media in
    let next_archived = ap (λ (x : Source). x.operational_status) q ∙ kept ∙ h in
    let status =
      ap (λ (x : Source). x.operational_status) same ∙ with_version-status s moved p now in
    let to = value_or s.operational_status p.operational_status in
    elim (with_status-parts w s next moved p now moves) [
      | inl u ↦ status ∙ ap (λ (x : Source). x.operational_status) u ∙ next_archived
      | inr u ↦
          let (allowed, _, _) = transition-parts w next moved to now u in
          ground (arith, allowed, archived_ends next.operational_status to next_archived)
    ]

review_archived :
    (w : Web) (s t : Source) (r : Review) (reviewer : String) (now : ℕ)
    → s.operational_status ≡ archived
    → review_source_policy w s r reviewer now ≡ ok t
    → t.operational_status ≡ archived
unfolding reviewed
review_archived w s t r reviewer now h e =
    let (n, same, _) = review-parts w s t r reviewer now e in
    ap (λ (x : Source). x.operational_status) same ∙ h

re_review_archived :
    (w : Web) (s : Source) (reviewer : String) (now : ℕ)
    → s.operational_status ≡ archived
    → (t : Source) → request_policy_re_review w s reviewer now ≢ ok t
unfolding request_policy_re_review is_archived
re_review_archived w s reviewer now h t e = ground arith

settled_archived :
    (w : Web) (c : Call) (s t : Source)
    → s.operational_status ≡ archived
    → step w c s ≡ ok t
    → t.operational_status ≡ archived
unfolding step
settled_archived w (updates p now) s t h e = update_archived w s t p now h e
settled_archived w (reviews r reviewer now) s t h e = review_archived w s t r reviewer now h e
settled_archived w (re_reviews reviewer now) s t h e =
    ground (arith, re_review_archived w s reviewer now h t e)

after_archived :
    (w : Web) (c : Call) (s : Source) (r : Checked Source)
    → s.operational_status ≡ archived
    → step w c s ≡ r
    → (after s r).operational_status ≡ archived
unfolding after
after_archived w c s (ok t) h e = settled_archived w c s t h e
after_archived w c s (err x) h e = h

-- No update, review or re-review brings an archived source back.
pub run_archived :
    (w : Web) (cs : List Call) (s : Source)
    → s.operational_status ≡ archived
    → (run w cs s).operational_status ≡ archived
unfolding run
run_archived w [] s h = h
run_archived w (c ∷ cs) s h =
    run_archived w cs (after s (step w c s)) (after_archived w c s (step w c s) h refl)
