-- ===== src/Jobs/Leases.antt =====
-- Code: server/repositories/mongo/lease-repository.js. The collection is a list of rows; its index on
-- `key` is unique, so a filter on a key meets the first row with it and no other.
pub mod Fences
pub mod Acquire
use tech_pulse_ai.Prelude.{
  Bool, List, Option, Result, String, [], date_value, err, false, if◌then◌else◌, is_some, js_length,
  leb, ltb, none, not, ok, some, str_eq, take, throw_if, true, ℕ, ◌&&◌, ◌*◌, ◌+◌, ◌==◌, ◌>>=◌, ◌>>◌,
  ◌∷◌,
}
use tech_pulse_ai.Jobs.Names.{
  Resource, has_prefix, indexing, ingestion, is_canonical, reconciliation,
}

pub record Owner : Type 0 where
  pub owner_token_hash : String
  pub job_id : String
  pub lease_generation : ℕ
  pub acquired_at : ℕ
  pub heartbeat_at : ℕ
  pub expires_at : ℕ

pub record Lease : Type 0 where
  pub key : String
  pub generation_high_water : ℕ
  pub active_owner : Option Owner
  pub created_at : ℕ
  pub updated_at : ℕ
  pub last_released_at : Option ℕ
  pub last_fence_validated_at : Option ℕ

-- What a worker keeps of the lease that it acquired.
pub record Fence : Type 0 where
  pub key : String
  pub owner_token_hash : String
  pub lease_generation : ℕ

pub data Failure : Type 0 where
  invalid_key bad_clock invalid_duration invalid_token invalid_query has_owner : Failure

abbrev pub Leases : Type 0
Leases = List Lease

unfoldable pub find_lease : String → Leases → Option Lease
find_lease k [] = none
find_lease k (l ∷ ls) = let rest = find_lease k ls in if str_eq l.key k then some l else rest

unfoldable pub update_lease : String → (Lease → Lease) → Leases → Leases
update_lease k f [] = []
update_lease k f (l ∷ ls) =
    let rest = update_lease k f ls in if str_eq l.key k then f l ∷ ls else l ∷ rest

unfoldable pub is_owner : String → String → ℕ → Owner → Bool
is_owner job hash generation o =
    str_eq o.job_id job && str_eq o.owner_token_hash hash && o.lease_generation == generation

-- The filter that every fenced write has: the owner is the caller's and has not expired.
unfoldable pub holds : Leases → String → Fence → ℕ → Bool
unfolding find_lease is_owner
holds ls job f now = elim (find_lease f.key ls) [
  | none ↦ false
  | some l ↦ elim l.active_owner [
    | none ↦ false
    | some o ↦ is_owner job f.owner_token_hash f.lease_generation o && ltb now o.expires_at
  ]
]

unfoldable pub clear_owner : ℕ → Lease → Lease
clear_owner now l = record l { active_owner = none; last_released_at = some now; updated_at = now }

unfoldable pub touch : ℕ → Lease → Lease
touch now l = record l { last_fence_validated_at = some now; updated_at = now }

unfoldable pub beat : ℕ → ℕ → Lease → Lease
beat now lease_ms l = record l {
  active_owner = elim l.active_owner [
    | none ↦ none
    | some o ↦ some (record o { heartbeat_at = now; expires_at = now + lease_ms })
  ];
  updated_at = now;
}

pub valid_duration : ℕ → Bool
valid_duration ms = not (ltb ms 100) && not (ltb (15 * 60 * 1000) ms)

pub valid_token : String → Bool
valid_token t = not (ltb (js_length t) 8) && not (ltb 512 (js_length t))

pub fresh_lease : String → ℕ → Lease
fresh_lease k now = record {
  key = k;
  generation_high_water = 0;
  active_owner = none;
  created_at = now;
  updated_at = now;
  last_released_at = none;
  last_fence_validated_at = none;
}

-- The upsert with `$setOnInsert`.
unfoldable pub ensure_lease : String → ℕ → Leases → Leases
unfolding find_lease fresh_lease
ensure_lease k now ls = if is_some (find_lease k ls) then ls else fresh_lease k now ∷ ls

unfoldable pub own : String → String → ℕ → ℕ → Lease → Lease
own job hash now lease_ms l = record l {
  generation_high_water = l.generation_high_water + 1;
  active_owner = some (record {
    owner_token_hash = hash;
    job_id = job;
    lease_generation = l.generation_high_water + 1;
    acquired_at = now;
    heartbeat_at = now;
    expires_at = now + lease_ms;
  });
  updated_at = now;
}

pub record Acquisition : Type 0 where
  pub outcome : Result Failure Fence
  pub leases : Leases

-- The update of the row where `activeOwner` does not exist.
unfoldable pub take_lease : String → String → String → ℕ → ℕ → Leases → Acquisition
unfolding find_lease update_lease own
take_lease k job hash now lease_ms ls = elim (find_lease k ls) [
  | none ↦ record { outcome = err has_owner; leases = ls }
  | some l ↦
      if is_some l.active_owner then record { outcome = err has_owner; leases = ls } else record {
        outcome = ok (record {
          key = k;
          owner_token_hash = hash;
          lease_generation = l.generation_high_water + 1;
        });
        leases = update_lease k (own job hash now lease_ms) ls;
      }
]

pub record AcquireRequest : Type 0 where
  pub key : String
  pub job_id : String
  pub owner_token : String
  pub lease_ms : ℕ

unfoldable pub check_acquire : AcquireRequest → Option ℕ → Result Failure ℕ
unfolding valid_duration valid_token
check_acquire r clock = do
  throw_if (not (is_canonical r.key)) invalid_key
  now ← date_value clock bad_clock
  throw_if (not (valid_duration r.lease_ms)) invalid_duration
  throw_if (not (valid_token r.owner_token)) invalid_token
  ok now

-- `acquire`: two writes, of which the first stays when the second meets an owner.
unfoldable pub acquire : (String → String) → AcquireRequest → Option ℕ → Leases → Acquisition
unfolding check_acquire take_lease ensure_lease
acquire sha256 r clock ls = elim (check_acquire r clock) [
  | err e ↦ record { outcome = err e; leases = ls }
  | ok now ↦
      take_lease r.key r.job_id (sha256 r.owner_token) now r.lease_ms (ensure_lease r.key now ls)
]

-- `heartbeat`, with the hash that the fence holds.
unfoldable pub heartbeat : String → Fence → ℕ → Option ℕ → Leases → Result Failure (Bool × Leases)
unfolding valid_duration holds update_lease beat
heartbeat job f lease_ms clock ls = do
  throw_if (not (is_canonical f.key)) invalid_key
  now ← date_value clock bad_clock
  throw_if (not (valid_duration lease_ms)) invalid_duration
  ok (if holds ls job f now then (true, update_lease f.key (beat now lease_ms) ls) else (false, ls))

unfoldable pub release : String → Fence → Option ℕ → Leases → Result Failure (Bool × Leases)
unfolding holds update_lease clear_owner
release job f clock ls = do
  throw_if (not (is_canonical f.key)) invalid_key
  now ← date_value clock bad_clock
  ok (if holds ls job f now then (true, update_lease f.key (clear_owner now) ls) else (false, ls))

-- The filter of an expired owner.
unfoldable pub expired_at : ℕ → Lease → Bool
expired_at now l = elim l.active_owner [ none ↦ false | some o ↦ leb o.expires_at now ]

unfoldable pub expiry : Lease → ℕ
expiry l = elim l.active_owner [ none ↦ 0 | some o ↦ o.expires_at ]

pub insert_by_expiry : Lease → Leases → Leases
unfolding expiry
insert_by_expiry l [] = l ∷ []
insert_by_expiry l (m ∷ ms) =
    let rest = insert_by_expiry l ms in if leb (expiry l) (expiry m) then l ∷ m ∷ ms else m ∷ rest

unfoldable pub sort_by_expiry : Leases → Leases
unfolding insert_by_expiry
sort_by_expiry [] = []
sort_by_expiry (l ∷ ls) = insert_by_expiry l (sort_by_expiry ls)

unfoldable pub expired_in : Resource → ℕ → Leases → Leases
unfolding expired_at
expired_in r now [] = []
expired_in r now (l ∷ ls) =
    let rest = expired_in r now ls in
    if has_prefix r l.key && expired_at now l then l ∷ rest else rest

pub valid_query : Resource → ℕ → Bool
valid_query ingestion limit = leb 1 limit && leb limit 100
valid_query indexing limit = leb 1 limit && leb limit 100
valid_query _ limit = false

-- `listExpired`: the namespace names the resource.
unfoldable pub list_expired : Resource → Option ℕ → ℕ → Leases → Result Failure Leases
unfolding valid_query sort_by_expiry expired_in
list_expired r clock limit ls = do
  now ← date_value clock bad_clock
  throw_if (not (valid_query r limit)) invalid_query
  ok (take limit (sort_by_expiry (expired_in r now ls)))

unfoldable pub clear_expired_reconciliation :
    String → Option ℕ → Leases → Result Failure (Bool × Leases)
unfolding find_lease update_lease expired_at clear_owner
clear_expired_reconciliation k clock ls = do
  throw_if (not (is_canonical k)) invalid_key
  throw_if (not (has_prefix reconciliation k)) invalid_key
  now ← date_value clock bad_clock
  ok (elim (find_lease k ls) [
    | none ↦ (false, ls)
    | some l ↦ if expired_at now l then (true, update_lease k (clear_owner now) ls) else (false, ls)
  ])
