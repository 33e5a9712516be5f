-- ===== src/Sources/Parts.antt =====
-- Code: server/domain/source/state-machine.js: the steps of an operation that returns.
use tech_pulse_ai.Prelude.{
  Bool-cases, String, ap, arith, bind_parts, err, false, inl, inr, not, ok, refl, sym, true, ℕ,
  ◌>>=◌, ◌||◌, ◌∙◌, ◌≡◌, ◌⊎◌,
}
use tech_pulse_ai.Sources.Validation.{Checked, Web}
use tech_pulse_ai.Sources.Rights.{
  Identity, MediaPolicy, is_under_review, normalize_media_policy, normalize_source_definition,
  validate_policy_compatibility,
}
use tech_pulse_ai.Sources.Lifecycle.{
  Source, Status, is_active, may_become, transition_operational_status, validate_activation,
}
use tech_pulse_ai.Sources.Update.{
  Patch, Review, apply_source_update, changes_rights, changes_status, check_update,
  compatible_source, configured, patched, reconfigured, reopened, request_policy_re_review,
  review_source_policy, reviewed, settle_update, validate_policy_review_evidence, value_or,
  with_status, with_version,
}

pub transition-parts :
    (w : Web) (s t : Source) (to : Status) (now : ℕ)
    → transition_operational_status w s to now ≡ ok t
    → (may_become s.operational_status to ≡ true)
      × (t ≡ record s { operational_status = to; updated_at = now })
      × ((is_active to ≡ false) ⊎ ((m : MediaPolicy) × (validate_activation w s ≡ ok m)))
unfolding transition_operational_status
transition-parts w s t to now e = elim (Bool-cases (is_active to)) [
  | inl h ↦ ground arith
  | inr h ↦ (ground arith, ground arith, inl h)
]

check_update-allows :
    (s : Source) (p : Patch) (u : Unit {0})
    → check_update s p ≡ ok u
    → is_under_review s.rights.license_status || not (changes_rights s p) ≡ true
unfolding check_update
check_update-allows s p u e = ground arith

-- An update that returns, by its steps.
abbrev pub UpdateParts : Web → Source → Source → Patch → ℕ → Type 0
UpdateParts w s t p now =
    (next : Source) × (moved : Source) × (reconfigured w s p ≡ ok next)
    × (with_status w s p next now ≡ ok moved)
    × (t ≡ with_version s p moved now)
    × (is_under_review s.rights.license_status || not (changes_rights s p) ≡ true)

ok_inj : {A : Type 0} {a b : A} → Path (Checked A) (ok a) (ok b) → a ≡ b
ok_inj e = ground arith

pub update-parts :
    (w : Web) (s t : Source) (p : Patch) (now : ℕ)
    → apply_source_update w s p now ≡ ok t
    → UpdateParts w s t p now
unfolding apply_source_update settle_update
update-parts w s t p now e =
    let (u, c, e1) = bind_parts (λ _. reconfigured w s p >>= settle_update w s p now) e in
    let (next, h, e2) = bind_parts (settle_update w s p now) e1 in
    let (moved, g, e3) = bind_parts (λ x. ok (with_version s p x now)) e2 in
    (next, moved, h, g, sym (ok_inj e3), check_update-allows s p u c)

abbrev pub ConfiguredParts : Web → Source → Patch → Source → Type 0
ConfiguredParts w s p t =
    (identity : Identity) × (media : MediaPolicy) × (m : MediaPolicy) × (t
      ≡ configured s p identity media)
    × (validate_policy_compatibility w t.rights ≡ ok m)

compatible_source-parts :
    (w : Web) (s t : Source)
    → compatible_source w s ≡ ok t
    → (m : MediaPolicy) × (t ≡ s) × (validate_policy_compatibility w t.rights ≡ ok m)
unfolding compatible_source
compatible_source-parts w s t e =
    let (m, h, e1) = bind_parts (λ _. ok s) e in
    (m, sym (ok_inj e1), ap (λ x. validate_policy_compatibility w x.rights) (sym (ok_inj e1)) ∙ h)

pub reconfigured-parts :
    (w : Web) (s t : Source) (p : Patch) → reconfigured w s p ≡ ok t → ConfiguredParts w s p t
unfolding reconfigured
reconfigured-parts w s t p e =
    let last : Identity → MediaPolicy → Checked Source =
      λ i m. compatible_source w (configured s p i m) in
    let (_, _, e1) =
      bind_parts
        (λ _. normalize_source_definition w (patched s p).identity >>= λ i.
          normalize_media_policy w (patched s p).rights.media_policy >>= last i)
        e in
    let (i, _, e2) =
      bind_parts (λ i. normalize_media_policy w (patched s p).rights.media_policy >>= last i) e1 in
    let (media, _, e3) = bind_parts (last i) e2 in
    let (m, h, c) = compatible_source-parts w (configured s p i media) t e3 in (i, media, m, h, c)

pub with_status-parts :
    (w : Web) (s next moved : Source) (p : Patch) (now : ℕ)
    → with_status w s p next now ≡ ok moved
    → (moved ≡ next)
      ⊎ (transition_operational_status w next
            (value_or s.operational_status p.operational_status)
            now
          ≡ ok moved)
unfolding with_status
with_status-parts w s next moved p now e = elim (Bool-cases (changes_status s p)) [
  | inl h ↦ inr (ground arith)
  | inr h ↦ inl (ground arith)
]

pub review-parts :
    (w : Web) (s t : Source) (r : Review) (reviewer : String) (now : ℕ)
    → review_source_policy w s r reviewer now ≡ ok t
    → (n : Review) × (t ≡ reviewed s n reviewer now)
      × (is_active (reviewed s n reviewer now).operational_status ≡ false)
unfolding review_source_policy reviewed
review-parts w s t r reviewer now e = go (validate_policy_review_evidence w r) refl
  where
    go :
        (v : Checked Review)
        → validate_policy_review_evidence w r ≡ v
        → (n : Review) × (t ≡ reviewed s n reviewer now)
          × (is_active (reviewed s n reviewer now).operational_status ≡ false)
    go (err x) h = ground arith
    go (ok n) h = (n, ground arith, ground arith)

pub re_review-parts :
    (w : Web) (s t : Source) (reviewer : String) (now : ℕ)
    → request_policy_re_review w s reviewer now ≡ ok t
    → t ≡ reopened s reviewer now
unfolding request_policy_re_review
re_review-parts w s t reviewer now e =
    go (validate_policy_compatibility w (reopened s reviewer now).rights) refl
  where
    go :
        (v : Checked MediaPolicy)
        → validate_policy_compatibility w (reopened s reviewer now).rights ≡ v
        → t ≡ reopened s reviewer now
    go (err x) h = ground arith
    go (ok m) h = ground arith
