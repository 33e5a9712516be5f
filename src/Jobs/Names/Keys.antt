-- ===== src/Jobs/Names/Keys.antt =====
-- Code: server/domain/jobs/lease-keys.js: `deriveLeaseKey` and `assertCanonicalLeaseKey` together.
use tech_pulse_ai.Prelude.{String, arith, concat, eq_refl, is_text, refl, some, true, ◌≡◌}
use tech_pulse_ai.Jobs.Names.{
  Resource, account_deletion, after_prefix, derive_lease_key, has_prefix, indexing, ingestion,
  is_canonical, key_prefix, reconciliation, resource_of,
}

after_prefix-concat : (p s : String) → after_prefix p (concat p s) ≡ some s
unfolding after_prefix
after_prefix-concat String.[] s = refl
after_prefix-concat (String.◌∷◌ c p) s = ground (arith, after_prefix-concat p s)

resource_of-concat : (r : Resource) (id : String) → resource_of (concat (key_prefix r) id) ≡ some r
unfolding resource_of has_prefix after_prefix key_prefix
resource_of-concat ingestion id = refl
resource_of-concat indexing id = refl
resource_of-concat reconciliation id = refl
resource_of-concat account_deletion id = refl

eq_refl_text : (k : String) → is_text (some k) k ≡ true
eq_refl_text k = eq_refl k

-- A key that is derived for a resource is accepted as canonical, names that resource, and holds the
-- identifier that it was derived from.
pub derive_lease_key-is_canonical :
    (r : Resource) (id k : String)
    → derive_lease_key r id ≡ some k
    → (is_canonical k ≡ true) × (resource_of k ≡ some r) × (after_prefix (key_prefix r) k ≡ some id)
unfolding is_canonical derive_lease_key
derive_lease_key-is_canonical r id k e =
    ground (arith, resource_of-concat r id, after_prefix-concat (key_prefix r) id, eq_refl k)
