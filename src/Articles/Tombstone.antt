-- ===== src/Articles/Tombstone.antt =====
-- Code: server/domain/article/removed-tombstone.js. An id that the code has read is its text.
pub mod Accepted
use tech_pulse_ai.Prelude.{
  Bool, List, Option, Result, String, [], concat, err, false, if◌then◌else◌, includes, js_length,
  leb, none, not, ok, or_else, some, str_eq, throw_if, true, ℕ, ◌&&◌, ◌++◌, ◌==◌, ◌>>=◌, ◌>>◌, ◌||◌,
  ◌∷◌,
}
use Prim.Native.Char.{code}
use tech_pulse_ai.Answers.Evidence.{Stamp, at, invalid_date, null_date, undefined}

-- An id as it is given: null or undefined, a value that `objectId` does not read, or the `ObjectId`
-- that it reads.
pub data Identity : Type 0 where
  missing unreadable : Identity
  object_id : String → Identity

pub record Article : Type 0 where
  pub id : Identity
  pub source_id : Identity
  pub connector_type : Option String
  pub canonical_url_hash : Option String
  pub removal_policy_version : Option ℕ
  pub snapshot_policy_version : Option ℕ
  pub removed_at : Stamp
  pub created_at : Stamp
  pub updated_at : Stamp
  pub external_id : Option String
  pub external_id_version : Option String

-- A document of the collection, with the names of its fields.
pub record Document : Type 0 where
  pub fields : List String
  pub id : Option String
  pub source_id : Option String
  pub connector_type : Option String
  pub external_id : Option String
  pub external_id_version : Option String
  pub canonical_url_hash : Option String
  pub status : String
  pub evidence_eligible : Bool
  pub removal_policy_version : Option ℕ
  pub removed_at : Stamp
  pub created_at : Stamp
  pub updated_at : Stamp

pub data TombstoneError : Type 0 where
  invalid_identity invalid_policy invalid_timestamp invalid_connector invalid_ingestion_identity :
      TombstoneError

abbrev pub required_fields : List String
required_fields =
    "_id" ∷ "sourceId" ∷ "connectorType" ∷ "canonicalUrlHash" ∷ "status" ∷ "evidenceEligible"
    ∷ "removalPolicyVersion" ∷ "removedAt" ∷ "createdAt" ∷ "updatedAt" ∷ []

-- `REMOVED_ARTICLE_TOMBSTONE_FIELDS`.
abbrev pub tombstone_fields : List String
tombstone_fields =
    "_id" ∷ "sourceId" ∷ "connectorType" ∷ "externalId" ∷ "externalIdVersion" ∷ "canonicalUrlHash"
    ∷ "status" ∷ "evidenceEligible" ∷ "removalPolicyVersion" ∷ "removedAt" ∷ "createdAt"
    ∷ "updatedAt" ∷ []

-- `a ?? b` on dates.
unfoldable pub or_stamp : Stamp → Stamp → Stamp
or_stamp undefined b = b
or_stamp null_date b = b
or_stamp a b = a

-- `new Date(value)`.
unfoldable pub date_from : Stamp → Result TombstoneError ℕ
date_from (at t) = ok t
date_from null_date = ok 0
date_from _ = err invalid_timestamp

unfoldable pub timestamp : Stamp → Stamp → Result TombstoneError ℕ
unfolding or_stamp date_from
timestamp value fallback = date_from (or_stamp value fallback)

is_hex : ℕ → Bool
is_hex c = leb b'a' c && leb c b'f' || leb b'0' c && leb c b'9'

all_hex : String → Bool
unfolding is_hex
all_hex String.[] = true
all_hex (String.◌∷◌ c s) = is_hex (code c) && all_hex s

-- `/^[a-f0-9]{64}$/`.
pub is_hash : Option String → Bool
unfolding all_hex
is_hash none = false
is_hash (some s) = all_hex s && js_length s == 64

pub is_connector : Option String → Bool
is_connector none = false
is_connector (some s) = includes ("rss" ∷ "arxiv" ∷ "hacker-news" ∷ []) s

pub is_version : Option ℕ → Bool
is_version none = false
is_version (some n) = leb 1 n

-- A text that is there and not empty.
unfoldable pub nonempty : Option String → Option String
nonempty none = none
nonempty (some s) = if js_length s == 0 then none else some s

unfoldable pub field_if : String → Option String → List String
field_if name none = []
field_if name (some s) = name ∷ []

-- `a ?? b` on ids: a value that is there but cannot be read does not give way.
unfoldable pub or_identity : Identity → Identity → Identity
or_identity missing b = b
or_identity a b = a

unfoldable pub require_id : Identity → Result TombstoneError String
require_id (object_id id) = ok id
require_id _ = err invalid_identity

-- The document that the builder returns.
unfoldable pub tombstone_of : Article → String → String → ℕ → ℕ → ℕ → Document
unfolding nonempty field_if
tombstone_of a id source removed created updated = record {
  fields =
      required_fields
      ++ field_if "externalId" (nonempty a.external_id)
      ++ field_if "externalIdVersion" (nonempty a.external_id_version);
  id = some id;
  source_id = some source;
  connector_type = a.connector_type;
  external_id = nonempty a.external_id;
  external_id_version = nonempty a.external_id_version;
  canonical_url_hash = a.canonical_url_hash;
  status = "removed";
  evidence_eligible = false;
  removal_policy_version = or_else a.removal_policy_version a.snapshot_policy_version;
  removed_at = at removed;
  created_at = at created;
  updated_at = at updated;
}

unfoldable pub checked_tombstone : Article → Document → Result TombstoneError Document
unfolding is_connector is_hash
checked_tombstone a d = do
  throw_if (not (is_connector a.connector_type)) invalid_connector
  throw_if (not (is_hash a.canonical_url_hash)) invalid_ingestion_identity
  ok d

unfoldable pub dated_tombstone : Article → Stamp → String → String → Result TombstoneError Document
unfolding timestamp or_stamp tombstone_of checked_tombstone
dated_tombstone a now id source = do
  removed ← timestamp a.removed_at (or_stamp now a.updated_at)
  created ← timestamp a.created_at (or_stamp now a.removed_at)
  updated ← timestamp (or_stamp now a.updated_at) a.removed_at
  checked_tombstone a (tombstone_of a id source removed created updated)

-- `buildRemovedArticleTombstone`.
unfoldable pub build_removed_article_tombstone :
    Article → Identity → Stamp → Result TombstoneError Document
unfolding require_id or_identity is_version dated_tombstone
build_removed_article_tombstone a id now = do
  article_id ← require_id (or_identity a.id id)
  source_id ← require_id a.source_id
  throw_if (not (is_version (or_else a.removal_policy_version a.snapshot_policy_version)))
      invalid_policy
  dated_tombstone a now article_id source_id

-- The messages for the fields that are not allowed.
unfoldable pub extra_fields : List String → List String
extra_fields [] = []
extra_fields (f ∷ fs) =
    let rest = extra_fields fs in
    if includes tombstone_fields f
    then rest
    else (concat f " is not allowed on a removed article tombstone" ∷ rest)

unfoldable pub message : Bool → String → List String
message true text = []
message false text = text ∷ []

unfoldable pub is_valid_date : Stamp → Bool
is_valid_date (at t) = true
is_valid_date _ = false

unfoldable pub has_id : Option String → Bool
has_id none = false
has_id (some id) = true

unfoldable pub fits : Option String → Bool
fits none = true
fits (some s) = leb 1 (js_length s) && leb (js_length s) 500

-- `validateRemovedArticleTombstone`: its messages.
unfoldable pub validate_removed_article_tombstone : Document → List String
unfolding extra_fields message is_valid_date has_id fits is_connector is_hash is_version
validate_removed_article_tombstone d =
    extra_fields d.fields
    ++ message (has_id d.id) "_id must be an ObjectId"
    ++ message (has_id d.source_id) "sourceId must be an ObjectId"
    ++ message (is_connector d.connector_type) "connectorType is invalid"
    ++ message (is_hash d.canonical_url_hash) "canonicalUrlHash is invalid"
    ++ message (str_eq d.status "removed") "status must be removed"
    ++ message (not d.evidence_eligible) "evidenceEligible must be false"
    ++ message (is_version d.removal_policy_version) "removalPolicyVersion is invalid"
    ++ message (is_valid_date d.removed_at) "removedAt is invalid"
    ++ message (is_valid_date d.created_at) "createdAt is invalid"
    ++ message (is_valid_date d.updated_at) "updatedAt is invalid"
    ++ message (fits d.external_id) "externalId is invalid"
    ++ message (fits d.external_id_version) "externalIdVersion is invalid"
