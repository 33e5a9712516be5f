-- ===== src/Articles/Tombstone/Accepted.antt =====
-- Code: server/domain/article/removed-tombstone.js: what the validator says of the builder's documents.
use tech_pulse_ai.Prelude.{
  Bool, Option, Result, String, [], ap, arith, err, false, js_length, leb, none, ok, or_else, refl,
  some, true, ℕ, ◌++◌, ◌≡◌, ◌∙◌,
}
use tech_pulse_ai.Answers.Evidence.{Stamp}
use tech_pulse_ai.Articles.Tombstone.{
  Article, Document, Identity, TombstoneError, or_identity, build_removed_article_tombstone,
  checked_tombstone, dated_tombstone, extra_fields, field_if, fits, has_id, is_connector, is_hash,
  is_valid_date, is_version, message, nonempty, or_stamp, require_id, timestamp, tombstone_of,
  validate_removed_article_tombstone, required_fields,
}

-- A text that is missing, or of 500 code units at most.
pub is_short : Option String → Bool
is_short none = true
is_short (some s) = leb (js_length s) 500

nonempty-fits : (o : Option String) → fits (nonempty o) ≡ is_short o
unfolding fits nonempty is_short
nonempty-fits none = refl
nonempty-fits (some s) = ground arith

nothing_extra :
    (x y : Option String)
    → extra_fields (required_fields ++ field_if "externalId" x ++ field_if "externalIdVersion" y)
      ≡ []
unfolding extra_fields field_if
nothing_extra none none = refl
nothing_extra none (some y) = refl
nothing_extra (some x) none = refl
nothing_extra (some x) (some y) = refl

-- The document of the builder and what it has tested.
Built : Article → Document → Type 0
Built a d =
    (i : String) × (s : String) × (r : ℕ) × (c : ℕ) × (u : ℕ) × (d ≡ tombstone_of a i s r c u)
    × (is_connector a.connector_type ≡ true)
    × (is_hash a.canonical_url_hash ≡ true)

dated-Built :
    (a : Article) (now : Stamp) (i s : String) (d : Document)
    → dated_tombstone a now i s ≡ ok d
    → Built a d
unfolding dated_tombstone checked_tombstone Built
dated-Built a now i s d e =
    go (timestamp a.removed_at (or_stamp now a.updated_at))
      (timestamp a.created_at (or_stamp now a.removed_at))
      (timestamp (or_stamp now a.updated_at) a.removed_at) refl refl refl
  where
    go :
        (x y z : Result TombstoneError ℕ)
        → timestamp a.removed_at (or_stamp now a.updated_at) ≡ x
        → timestamp a.created_at (or_stamp now a.removed_at) ≡ y
        → timestamp (or_stamp now a.updated_at) a.removed_at ≡ z
        → Built a d
    go (err f) y z h k l = ground (arith, e, h)
    go (ok r) (err f) z h k l = ground (arith, e, h, k)
    go (ok r) (ok c) (err f) h k l = ground (arith, e, h, k, l)
    go (ok r) (ok c) (ok u) h k l = (
      i,
      s,
      r,
      c,
      u,
      ground (arith, e, h, k, l),
      ground (arith, e, h, k, l),
      ground (arith, e, h, k, l),
    )

build-Built :
    (a : Article) (id : Identity) (now : Stamp) (d : Document)
    → build_removed_article_tombstone a id now ≡ ok d
    → Built a d × (is_version (or_else a.removal_policy_version a.snapshot_policy_version) ≡ true)
unfolding build_removed_article_tombstone
build-Built a id now d e =
    go (require_id (or_identity a.id id)) (require_id a.source_id)
      (is_version (or_else a.removal_policy_version a.snapshot_policy_version)) refl refl refl
  where
    go :
        (x y : Result TombstoneError String) (b : Bool)
        → require_id (or_identity a.id id) ≡ x
        → require_id a.source_id ≡ y
        → is_version (or_else a.removal_policy_version a.snapshot_policy_version) ≡ b
        → Built a d
          × (is_version (or_else a.removal_policy_version a.snapshot_policy_version) ≡ true)
    go (err f) y b h k l = ground (arith, e, h)
    go (ok i) (err f) b h k l = ground (arith, e, h, k)
    go (ok i) (ok s) false h k l = ground (arith, e, h, k, l)
    go (ok i) (ok s) true h k l = (dated-Built a now i s d (ground (arith, e, h, k, l)), l)

validate-built :
    (a : Article) (i s : String) (r c u : ℕ)
    → is_connector a.connector_type ≡ true
    → is_hash a.canonical_url_hash ≡ true
    → is_version (or_else a.removal_policy_version a.snapshot_policy_version) ≡ true
    → validate_removed_article_tombstone (tombstone_of a i s r c u)
      ≡ message (is_short a.external_id) "externalId is invalid"
        ++ message (is_short a.external_id_version) "externalIdVersion is invalid"
unfolding validate_removed_article_tombstone tombstone_of message has_id is_valid_date
validate-built a i s r c u g h v = ground (
  arith,
  g,
  h,
  v,
  nothing_extra (nonempty a.external_id) (nonempty a.external_id_version),
  nonempty-fits a.external_id,
  nonempty-fits a.external_id_version,
)

-- What `validateRemovedArticleTombstone` says of a document that `buildRemovedArticleTombstone` returns:
-- nothing but that an external id, or its version, is of more than 500 code units.
pub built_tombstone_accepted :
    (a : Article) (id : Identity) (now : Stamp) (d : Document)
    → build_removed_article_tombstone a id now ≡ ok d
    → validate_removed_article_tombstone d
      ≡ message (is_short a.external_id) "externalId is invalid"
        ++ message (is_short a.external_id_version) "externalIdVersion is invalid"
unfolding Built
built_tombstone_accepted a id now d e =
    let ((i, s, r, c, u, w, g, h), v) = build-Built a id now d e in
    ap validate_removed_article_tombstone w ∙ validate-built a i s r c u g h v
