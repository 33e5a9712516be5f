-- ===== src/Jobs/Leases/Fences.antt =====
-- Code: server/repositories/mongo/lease-repository.js: the generations of leases.
use tech_pulse_ai.Prelude.{
  Bool, Option-cases, String, [], ap, arith, eq_iff, inl, inr, none, refl, some, str_eq, true, ℕ,
  ◌&&◌, ◌==◌, ◌∷◌, ◌≡◌, ◌≤◌,
}
use tech_pulse_ai.Jobs.Leases.{
  Fence, Lease, Leases, beat, clear_owner, ensure_lease, find_lease, fresh_lease, holds, is_owner,
  own, touch, update_lease,
}

unfoldable pub high_water : String → Leases → ℕ
unfolding find_lease
high_water k ls = elim (find_lease k ls) [ none ↦ 0 | some l ↦ l.generation_high_water ]

-- The owner of a row has the generation that the row gave last.
unfoldable pub row_ok : Lease → Bool
row_ok l = elim l.active_owner [
  | none ↦ true
  | some o ↦ o.lease_generation == l.generation_high_water
]

unfoldable pub all_ok : Leases → Bool
unfolding row_ok
all_ok [] = true
all_ok (l ∷ ls) = row_ok l && all_ok ls

-- An update of rows that neither forgets a generation nor gives an owner another one.
abbrev pub Advances : Leases → Leases → Type 0
Advances ls ms =
    ((k : String) → high_water k ls ≤ high_water k ms) × (all_ok ls ≡ true → all_ok ms ≡ true)

pub Advances-refl : (ls : Leases) → Advances ls ls
Advances-refl ls = ((λ k. omega arith), λ h. h)

pub Advances-trans : (ls ms ns : Leases) → Advances ls ms → Advances ms ns → Advances ls ns
Advances-trans ls ms ns (a, b) (c, d) = ((λ k. omega (arith, a k, c k)), λ h. d (b h))

abbrev pub RowAdvances : (Lease → Lease) → Type 0
RowAdvances f =
    (l : Lease)
    → ((f l).key ≡ l.key)
      × (l.generation_high_water ≤ (f l).generation_high_water)
      × (row_ok l ≡ true → row_ok (f l) ≡ true)

touch_advances : (now : ℕ) → RowAdvances (touch now)
unfolding touch row_ok
touch_advances now l = (refl, omega arith, λ h. h)

clear_owner_advances : (now : ℕ) → RowAdvances (clear_owner now)
unfolding clear_owner row_ok
clear_owner_advances now l = (refl, omega arith, λ h. refl)

beat_advances : (now ms : ℕ) → RowAdvances (beat now ms)
unfolding beat row_ok
beat_advances now ms l = (refl, omega arith, λ h. ground arith)

own_advances : (job hash : String) (now ms : ℕ) → RowAdvances (own job hash now ms)
unfolding own row_ok
own_advances job hash now ms l = (refl, omega arith, λ h. ground arith)

high_water-update :
    (k q : String) (f : Lease → Lease) (ls : Leases)
    → RowAdvances f
    → high_water q ls ≤ high_water q (update_lease k f ls)
unfolding high_water find_lease update_lease
high_water-update k q f [] r = omega arith
high_water-update k q f (l ∷ ls) r = ground (arith, high_water-update k q f ls r, r l)

all_ok-update :
    (k : String) (f : Lease → Lease) (ls : Leases)
    → RowAdvances f
    → all_ok ls ≡ true
    → all_ok (update_lease k f ls) ≡ true
unfolding all_ok update_lease
all_ok-update k f [] r h = refl
all_ok-update k f (l ∷ ls) r h = ground (arith, all_ok-update k f ls r, r l)

pub update_lease-Advances :
    (k : String) (f : Lease → Lease) (ls : Leases)
    → RowAdvances f
    → Advances ls (update_lease k f ls)
update_lease-Advances k f ls r = ((λ q. high_water-update k q f ls r), all_ok-update k f ls r)

-- The four writes that the operations make.
pub touch-Advances :
    (k : String) (now : ℕ) (ls : Leases) → Advances ls (update_lease k (touch now) ls)
touch-Advances k now ls = update_lease-Advances k (touch now) ls (touch_advances now)

pub clear-Advances :
    (k : String) (now : ℕ) (ls : Leases) → Advances ls (update_lease k (clear_owner now) ls)
clear-Advances k now ls = update_lease-Advances k (clear_owner now) ls (clear_owner_advances now)

pub beat-Advances :
    (k : String) (now ms : ℕ) (ls : Leases) → Advances ls (update_lease k (beat now ms) ls)
beat-Advances k now ms ls = update_lease-Advances k (beat now ms) ls (beat_advances now ms)

pub own-Advances :
    (k job hash : String) (now ms : ℕ) (ls : Leases)
    → Advances ls (update_lease k (own job hash now ms) ls)
own-Advances k job hash now ms ls =
    update_lease-Advances k (own job hash now ms) ls (own_advances job hash now ms)

pub find_lease-eq :
    (k q : String) (ls : Leases) → str_eq k q ≡ true → find_lease k ls ≡ find_lease q ls
find_lease-eq k q ls h = ap (λ x. find_lease x ls) ((eq_iff k q).0 h)

pub ensure-Advances : (k : String) (now : ℕ) (ls : Leases) → Advances ls (ensure_lease k now ls)
unfolding ensure_lease fresh_lease high_water find_lease all_ok row_ok
ensure-Advances k now ls = elim (Option-cases (find_lease k ls)) [
  | inl n ↦ ((λ q. ground (arith, find_lease-eq k q ls)), λ h. ground arith)
  | inr (l, e) ↦ ((λ q. ground arith), λ h. ground arith)
]

pub find_lease-row_ok :
    (k : String) (ls : Leases) (l : Lease)
    → all_ok ls ≡ true
    → find_lease k ls ≡ some l
    → row_ok l ≡ true
unfolding find_lease all_ok
find_lease-row_ok k [] l a e = ground arith
find_lease-row_ok k (m ∷ ls) l a e = ground (arith, find_lease-row_ok k ls l)

-- A fence that holds a lease has its newest generation.
pub holds-high_water :
    (ls : Leases) (job : String) (f : Fence) (now : ℕ)
    → all_ok ls ≡ true
    → holds ls job f now ≡ true
    → f.lease_generation ≡ high_water f.key ls
unfolding holds high_water is_owner row_ok
holds-high_water ls job f now a h = elim (Option-cases (find_lease f.key ls)) [
  | inl n ↦ ground arith
  | inr (l, e) ↦ elim (Option-cases l.active_owner) [
    | inl m ↦ ground arith
    | inr (o, m) ↦ ground (arith, find_lease-row_ok f.key ls l a e)
  ]
]
