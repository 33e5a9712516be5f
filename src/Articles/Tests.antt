-- ===== src/Articles/Tests.antt =====
-- Code: server/domain/article/removed-tombstone.js, at one article that is removed.
use tech_pulse_ai.Prelude.{none, ok, refl, some, ◌++◌, ◌≡◌}
use tech_pulse_ai.Answers.Evidence.{at, undefined}
use tech_pulse_ai.Articles.Tombstone.{
  Article, Document, build_removed_article_tombstone, message, missing, object_id, tombstone_of,
  validate_removed_article_tombstone,
}
use tech_pulse_ai.Articles.Tombstone.Accepted.{built_tombstone_accepted, is_short}

abbrev removed_article : Article
removed_article = record {
  id = object_id "a1";
  source_id = object_id "s1";
  connector_type = some "rss";
  canonical_url_hash = some "aaaaaaaaaaaaaaaaaaaaaaaaaaaaaaaaaaaaaaaaaaaaaaaaaaaaaaaaaaaaaaaa";
  removal_policy_version = none;
  snapshot_policy_version = some 2;
  removed_at = undefined;
  created_at = at 1;
  updated_at = at 2;
  external_id = some "guid-1";
  external_id_version = none;
}

abbrev tombstone : Document
tombstone = tombstone_of removed_article "a1" "s1" 9 1 9

built_lem : build_removed_article_tombstone removed_article missing (at 9) ≡ ok tombstone
unfolding build_removed_article_tombstone
built_lem = refl

built_tombstone_accepted_example :
    validate_removed_article_tombstone tombstone
    ≡ message (is_short (some "guid-1")) "externalId is invalid"
      ++ message (is_short none) "externalIdVersion is invalid"
built_tombstone_accepted_example =
    built_tombstone_accepted removed_article missing (at 9) tombstone built_lem
