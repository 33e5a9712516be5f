-- ===== src/Jobs/Leases/Acquire.antt =====
-- Code: acquire of server/repositories/mongo/lease-repository.js.
use tech_pulse_ai.Prelude.{
  Bool, Option, Option-cases, Result, String, [], arith, eq_refl, err, false, inl, inr, is_ok,
  is_some, none, not, ok, refl, some, str_eq, true, ℕ, ◌+◌, ◌<◌, ◌∷◌, ◌≡◌,
}
use tech_pulse_ai.Jobs.Leases.{
  AcquireRequest, Failure, Fence, Lease, Leases, acquire, check_acquire, ensure_lease, find_lease,
  fresh_lease, has_owner, holds, is_owner, own, take_lease, update_lease,
}
use tech_pulse_ai.Jobs.Leases.Fences.{high_water}

unfoldable pub is_free : String → Leases → Bool
unfolding find_lease
is_free k ls = elim (find_lease k ls) [ none ↦ true | some l ↦ not (is_some l.active_owner) ]

find_lease-key :
    (k : String) (ls : Leases) (l : Lease) → find_lease k ls ≡ some l → str_eq l.key k ≡ true
unfolding find_lease
find_lease-key k [] l e = ground arith
find_lease-key k (m ∷ ls) l e = ground (arith, find_lease-key k ls l)

find_lease-own :
    (k job hash : String) (now ms : ℕ) (ls : Leases) (l : Lease)
    → find_lease k ls ≡ some l
    → find_lease k (update_lease k (own job hash now ms) ls) ≡ some (own job hash now ms l)
unfolding find_lease update_lease own
find_lease-own k job hash now ms [] l e = ground arith
find_lease-own k job hash now ms (m ∷ ls) l e =
    ground (arith, find_lease-own k job hash now ms ls l)

ensure-present :
    (k : String) (now : ℕ) (ls : Leases)
    → is_free k ls ≡ true
    → (l : Lease) × (find_lease k (ensure_lease k now ls) ≡ some l)
      × (l.active_owner ≡ none)
      × (l.generation_high_water ≡ high_water k ls)
unfolding is_free ensure_lease high_water find_lease fresh_lease
ensure-present k now ls h = elim (Option-cases (find_lease k ls)) [
  | inl n ↦ (fresh_lease k now, ground (arith, eq_refl k), refl, ground arith)
  | inr (l, e) ↦ (l, ground arith, ground arith, ground arith)
]

-- A valid request for a lease that nobody owns gets it, with the generation after the last one, and
-- its fence holds the lease until the duration has passed.
pub acquire-free :
    (sha256 : String → String) (r : AcquireRequest) (clock : Option ℕ) (now later : ℕ) (ls : Leases)
    → check_acquire r clock ≡ ok now
    → is_free r.key ls ≡ true
    → later < now + r.lease_ms
    → (f : Fence) × ((acquire sha256 r clock ls).outcome ≡ ok f)
      × (f.key ≡ r.key)
      × (f.lease_generation ≡ high_water r.key ls + 1)
      × (holds (acquire sha256 r clock ls).leases r.job_id f later ≡ true)
unfolding acquire take_lease holds is_owner own
acquire-free sha256 r clock now later ls c free h =
    let (l, e, n, w) = ensure-present r.key now ls free in
    let fence : Fence = record {
      key = r.key;
      owner_token_hash = sha256 r.owner_token;
      lease_generation = l.generation_high_water + 1;
    } in
    (
      fence,
      ground arith,
      refl,
      omega (arith, w),
      ground (
        arith,
        eq_refl r.job_id,
        eq_refl (sha256 r.owner_token),
        find_lease-own r.key r.job_id (sha256 r.owner_token) now r.lease_ms
            (ensure_lease r.key now ls) l e,
      ),
    )

take_lease-owned :
    (k job hash : String) (now ms : ℕ) (ls : Leases)
    → is_free k ls ≡ false
    → take_lease k job hash now ms (ensure_lease k now ls)
      ≡ record { outcome = err has_owner; leases = ls }
unfolding take_lease ensure_lease is_free
take_lease-owned k job hash now ms ls h = ground arith

-- While a lease has an owner, also one whose time is over, no request gets it, and nothing changes.
pub acquire-owned :
    (sha256 : String → String) (r : AcquireRequest) (clock : Option ℕ) (ls : Leases)
    → is_free r.key ls ≡ false
    → ((acquire sha256 r clock ls).leases ≡ ls)
      × (is_ok (acquire sha256 r clock ls).outcome ≡ false)
unfolding acquire
acquire-owned sha256 r clock ls h = go (check_acquire r clock) refl
  where
    go :
        (c : Result Failure ℕ)
        → check_acquire r clock ≡ c
        → ((acquire sha256 r clock ls).leases ≡ ls)
          × (is_ok (acquire sha256 r clock ls).outcome ≡ false)
    go (err e) c = (ground arith, ground arith)
    go (ok now) c =
        let owned = take_lease-owned r.key r.job_id (sha256 r.owner_token) now r.lease_ms ls h in
        (ground (arith, owned), ground (arith, owned))
