-- ===== src/Sources/Disclosure.antt =====
-- Code: server/domain/policy/content-policy.js and server/domain/article/visibility.js: the content
-- that may leave a source.
use tech_pulse_ai.Prelude.{
  List, String, ap, arith, err, false, includes, is_ok, leb, ok, refl, true, ℕ, ◌&&◌, ◌||◌, ◌∙◌,
  ◌≡◌,
}
use tech_pulse_ai.Sources.Validation.{Checked, Web}
use tech_pulse_ai.Sources.Rights.{
  InputScope, MediaPolicy, Rights, is_metadata_input, is_metadata_only, is_no_input,
  normalize_media_policy, validate_policy_compatibility,
}
use tech_pulse_ai.Sources.Lifecycle.{Source, is_active, is_licensed}
use tech_pulse_ai.Sources.Update.{reopened, request_policy_re_review}
use tech_pulse_ai.Sources.Content.{
  Grant, Purpose, evaluate_content_policy, fields_for, is_excerpt, is_known_purpose,
  is_source_production_eligible, is_stored, is_valid_policy, uses_provider,
}
use tech_pulse_ai.Sources.Parts.{re_review-parts}
use tech_pulse_ai.Sources.Cleared.{Call, is_cleared, run, run-cleared}

compatible_limits :
    (w : Web) (r : Rights) (m : MediaPolicy)
    → validate_policy_compatibility w r ≡ ok m
    → is_metadata_only r.license_status ≡ true
    → (is_no_input r.llm_input_scope || is_metadata_input r.llm_input_scope ≡ true)
      × (r.storage_scope.metadata ≡ true)
      × (r.storage_scope.excerpt ≡ false)
unfolding validate_policy_compatibility
compatible_limits w r m e h = go (normalize_media_policy w r.media_policy) refl
  where
    go :
        (v : Checked MediaPolicy)
        → normalize_media_policy w r.media_policy ≡ v
        → (is_no_input r.llm_input_scope || is_metadata_input r.llm_input_scope ≡ true)
          × (r.storage_scope.metadata ≡ true)
          × (r.storage_scope.excerpt ≡ false)
    go (err x) g = ground arith
    go (ok n) g = ground arith

granted :
    (w : Web) (s : Source) (p : Purpose) (g : Grant)
    → evaluate_content_policy w s p ≡ ok g
    → (is_active s.operational_status ≡ true)
      × (is_valid_policy w s ≡ true)
      × (is_licensed s.rights.license_status ≡ true)
      × (is_excerpt p && is_metadata_only s.rights.license_status ≡ false)
      × (g.allowed_fields ≡ fields_for p s.rights.llm_input_scope)
unfolding evaluate_content_policy
granted w s p g e = ground arith

valid_policy_compatible :
    (w : Web) (s : Source)
    → is_valid_policy w s ≡ true
    → (m : MediaPolicy) × (validate_policy_compatibility w s.rights ≡ ok m)
unfolding is_valid_policy
valid_policy_compatible w s h = go (validate_policy_compatibility w s.rights) refl
  where
    go :
        (v : Checked MediaPolicy)
        → validate_policy_compatibility w s.rights ≡ v
        → (m : MediaPolicy) × (validate_policy_compatibility w s.rights ≡ ok m)
    go (err x) g = ground arith
    go (ok m) g = (m, g)

metadata_fields_only :
    (p : Purpose) (scope : InputScope)
    → is_excerpt p ≡ false
    → is_no_input scope || is_metadata_input scope ≡ true
    → (includes (fields_for p scope) "excerptOriginal" ≡ false)
      × (includes (fields_for p scope) "fullTextTemporary" ≡ false)
unfolding fields_for is_no_input is_metadata_input is_excerpt
metadata_fields_only p scope h g = ground arith

-- No purpose that is granted on a metadata-only source discloses the original excerpt or the full
-- text of an article.
pub metadata_only_discloses_no_text :
    (w : Web) (s : Source) (p : Purpose) (g : Grant)
    → evaluate_content_policy w s p ≡ ok g
    → is_metadata_only s.rights.license_status ≡ true
    → (includes g.allowed_fields "excerptOriginal" ≡ false)
      × (includes g.allowed_fields "fullTextTemporary" ≡ false)
metadata_only_discloses_no_text w s p g e h =
    let (_, valid, _, no_excerpt, fields) = granted w s p g e in
    let (m, compatible) = valid_policy_compatible w s valid in
    let (scope, _, _) = compatible_limits w s.rights m compatible h in
    let (a, b) =
      metadata_fields_only p s.rights.llm_input_scope (ground (arith, no_excerpt, h)) scope in
    (
      ap (λ xs. includes xs "excerptOriginal") fields ∙ a,
      ap (λ xs. includes xs "fullTextTemporary") fields ∙ b,
    )

reopened_denied :
    (w : Web) (s : Source) (reviewer : String) (now : ℕ) (p : Purpose)
    → is_ok (evaluate_content_policy w (reopened s reviewer now) p) ≡ false
unfolding evaluate_content_policy reopened is_active is_licensed
reopened_denied w s reviewer now p = ground arith

-- A source that goes back to review is refused every purpose at once.
pub re_review_denies_all :
    (w : Web) (s t : Source) (reviewer : String) (now : ℕ) (p : Purpose)
    → request_policy_re_review w s reviewer now ≡ ok t
    → is_ok (evaluate_content_policy w t p) ≡ false
re_review_denies_all w s t reviewer now p e =
    ap (λ x. is_ok (evaluate_content_policy w x p)) (re_review-parts w s t reviewer now e)
    ∙ reopened_denied w s reviewer now p

eligible_grant :
    (w : Web) (s : Source)
    → is_cleared w s ≡ true
    → is_source_production_eligible w s
      ≡ is_active s.operational_status && leb 1 s.policy_version && s.rights.storage_scope.metadata
unfolding is_source_production_eligible is_cleared evaluate_content_policy is_valid_policy is_stored
    is_known_purpose is_excerpt uses_provider
eligible_grant w s h = ground arith

-- After any updates and reviews of a cleared source, articles of it may be shown exactly when it is
-- active, has a policy version, and may store metadata: the other conditions are never what fails.
pub run-eligible :
    (w : Web) (cs : List Call) (s : Source)
    → is_cleared w s ≡ true
    → is_source_production_eligible w (run w cs s)
      ≡ is_active (run w cs s).operational_status
        && leb 1 (run w cs s).policy_version
        && (run w cs s).rights.storage_scope.metadata
run-eligible w cs s h = eligible_grant w (run w cs s) (run-cleared w cs s h)
