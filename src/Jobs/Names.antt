-- ===== src/Jobs/Names.antt =====
-- Code: server/domain/jobs/lease-keys.js and the identities of server/domain/jobs/idempotency.js and
-- server/repositories/mongo/job-repository.js.
pub mod Keys
use Prim.Native.Char.{code}
use tech_pulse_ai.Prelude.{
  Bool, Option, String, [], concat, false, if◌then◌else◌, is_some, is_text, js_length, leb, none,
  some, suc, true, zero, ℕ, ◌&&◌, ◌==◌, ◌||◌, ◌∷◌,
}

-- What the platform gives: `sha256` is `createHash('sha256').update(x).digest('hex')`, `decimal` the
-- text of a number in a template literal and in `JSON.stringify`, `lower_case` is `toLowerCase`, and
-- `object_id` the driver's `new ObjectId(x).toHexString()`, `none` where `ObjectId.isValid` is false.
pub record Platform : Type 0 where
  pub sha256 : String → String
  pub decimal : ℕ → String
  pub lower_case : String → String
  pub object_id : String → Option String

pub data Resource : Type 0 where
  ingestion indexing reconciliation account_deletion : Resource

-- The two parts of a key of `KEY_PARTS` with their colons.
unfoldable pub key_prefix : Resource → String
key_prefix ingestion = "ingestion:source:"
key_prefix indexing = "indexing:article:"
key_prefix reconciliation = "reconciliation:source:"
key_prefix account_deletion = "account-deletion:user:"

unfoldable pub is_opaque_char : ℕ → Bool
is_opaque_char c = leb b'a' c && leb c b'z' || leb b'0' c && leb c b'9' || c == b'_' || c == b'-'

unfoldable pub all_opaque_chars : String → Bool
unfolding is_opaque_char
all_opaque_chars String.[] = true
all_opaque_chars (String.◌∷◌ c s) = is_opaque_char (code c) && all_opaque_chars s

-- `OPAQUE_ID.test(value)`.
unfoldable pub is_opaque_id : String → Bool
unfolding all_opaque_chars
is_opaque_id s = leb 1 (js_length s) && leb (js_length s) 128 && all_opaque_chars s

unfoldable pub derive_lease_key : Resource → String → Option String
derive_lease_key r id = if is_opaque_id id then some (concat (key_prefix r) id) else none

-- `key.slice(prefix.length)` where `key.startsWith(prefix)`.
pub after_prefix : String → String → Option String
after_prefix String.[] s = some s
after_prefix (String.◌∷◌ c p) String.[] = none
after_prefix (String.◌∷◌ c p) (String.◌∷◌ d s) =
    let rest = after_prefix p s in if code c == code d then rest else none

pub has_prefix : Resource → String → Bool
unfolding after_prefix key_prefix
has_prefix r key = is_some (after_prefix (key_prefix r) key)

-- The first entry of `KEY_PARTS` that the key starts with.
pub resource_of : String → Option Resource
unfolding has_prefix
resource_of key =
    if has_prefix ingestion key
    then some ingestion
    else if has_prefix indexing key
    then some indexing
    else if has_prefix reconciliation key
    then some reconciliation
    else if has_prefix account_deletion key
    then some account_deletion
    else none

-- Whether `assertCanonicalLeaseKey` returns.
unfoldable pub is_canonical : String → Bool
unfolding resource_of after_prefix key_prefix derive_lease_key
is_canonical key = elim (resource_of key) [
  | none ↦ false
  | some r ↦ elim (after_prefix (key_prefix r) key) [
    | none ↦ false
    | some id ↦ is_text (derive_lease_key r id) key
  ]
]

-- The first 24 characters of a hash.
pub take_chars : ℕ → String → String
take_chars zero s = ""
take_chars (suc n) String.[] = ""
take_chars (suc n) (String.◌∷◌ c s) = String.◌∷◌ c (take_chars n s)

unfoldable pub recovery_child_id : Platform → String → ℕ → String
unfolding take_chars
recovery_child_id p parent next =
    take_chars 24
      (p.sha256 (concat "ingestion-recovery:" (concat parent (concat ":" (p.decimal next)))))

unfoldable pub recovery_key : Platform → String → ℕ → String
recovery_key p parent next = concat "system-recovery:" (concat parent (concat ":" (p.decimal next)))

-- `canonicalRequestHash({ operation: 'lease-recovery', parentJobId, nextAttempt })`: the properties in
-- the order of their names. A parent's id is hexadecimal and needs no escapes.
unfoldable pub recovery_request_hash : Platform → String → ℕ → String
recovery_request_hash p parent next = p.sha256 (
    concat "{\"nextAttempt\":" (
      concat (p.decimal next)
        (concat ",\"operation\":\"lease-recovery\",\"parentJobId\":\"" (concat parent "\"}"))))
