-- ===== src/Provider/Admission/Probe.antt =====
-- Code: server/repositories/mongo/provider-admission-repository.js: the probe of a half-open circuit.
use tech_pulse_ai.Prelude.{
  Bool, Bool-cases, List, Option-cases, String, [], all, arith, eq_iff, eq_refl, false, inl, inr,
  is_some, is_text, keep, leb, ltb, none, not, refl, some, str_eq, true, ℕ, ◌&&◌, ◌++◌, ◌+◌, ◌||◌,
  ◌∷◌, ◌≡◌, ◌≤◌,
}
use tech_pulse_ai.Provider.Admission.Breaker.{holds-live}
use tech_pulse_ai.Provider.Admission.{
  Circuit, Reservation, closed, cooldown_ms, half_open, holds_call, holds_reservation,
  live_reservations, lost_probe, open_circuit, prune_circuit, without,
}

-- Of the reservations of its route an open circuit has only such as end with its cooldown, and a
-- half-open one only its probe.
unfoldable pub fits : Circuit → Reservation → Bool
fits c r = not (str_eq r.route_id c.route_id) || elim c.state [
  | closed ↦ true
  | open_circuit ↦ elim c.cooldown_until [ none ↦ false | some t ↦ leb r.expires_at t ]
  | half_open ↦ is_text c.half_open_probe r.reservation_id
]

-- Only a half-open circuit has a probe, and a cooldown is over a minute after `clock`.
unfoldable pub steady : ℕ → Circuit → Bool
steady clock c = elim c.state [
  | closed ↦ not (is_some c.half_open_probe)
  | open_circuit ↦
      not (is_some c.half_open_probe)
      && elim c.cooldown_until [ none ↦ false | some t ↦ leb t (clock + cooldown_ms) ]
  | half_open ↦ true
]

unfoldable pub recent : ℕ → List Reservation → Bool
recent clock rs = all (λ r. leb r.expires_at (clock + cooldown_ms)) rs

unfoldable pub distinct : List Reservation → Bool
distinct [] = true
distinct (r ∷ rs) = not (holds_reservation rs r.reservation_id) && distinct rs

unfoldable pub sound_circuit : ℕ → List Reservation → Circuit → Bool
sound_circuit clock rs c = steady clock c && all (fits c) rs

all-keep {ℓ} :
    {A : Type ℓ} (p k : A → Bool) (xs : List A) → all p xs ≡ true → all p (keep k xs) ≡ true
all-keep p k [] h = refl
all-keep p k (x ∷ xs) h = ground (arith, all-keep p k xs)

pub all-live :
    (p : Reservation → Bool) (now : ℕ) (rs : List Reservation)
    → all p rs ≡ true
    → all p (live_reservations now rs) ≡ true
unfolding live_reservations
all-live p now rs h = all-keep p (λ r. ltb now r.expires_at) rs h

pub all-live_self :
    (now : ℕ) (rs : List Reservation)
    → all (λ r. ltb now r.expires_at) (live_reservations now rs) ≡ true
unfolding live_reservations
all-live_self now [] = refl
all-live_self now (r ∷ rs) = ground (arith, all-live_self now rs)

pub distinct-live :
    (now : ℕ) (rs : List Reservation)
    → distinct rs ≡ true
    → distinct (live_reservations now rs) ≡ true
unfolding live_reservations distinct
distinct-live now [] h = refl
distinct-live now (r ∷ rs) h =
    ground (arith, distinct-live now rs, holds-live now rs r.reservation_id)

pub all-without :
    (p : Reservation → Bool) (rs : List Reservation) (id r : String)
    → all p rs ≡ true
    → all p (without rs id r) ≡ true
unfolding without
all-without p [] id r h = refl
all-without p (x ∷ rs) id r h = ground (arith, all-without p rs id r)

pub holds-without :
    (rs : List Reservation) (id r k : String)
    → holds_reservation rs k ≡ false
    → holds_reservation (without rs id r) k ≡ false
unfolding without holds_reservation
holds-without [] id r k h = refl
holds-without (x ∷ rs) id r k h = ground (arith, holds-without rs id r k)

pub distinct-without :
    (rs : List Reservation) (id r : String) → distinct rs ≡ true → distinct (without rs id r) ≡ true
unfolding without distinct
distinct-without [] id r h = refl
distinct-without (x ∷ rs) id r h =
    ground (arith, distinct-without rs id r, holds-without rs id r x.reservation_id)

pub holds_call-holds :
    (rs : List Reservation) (id r : String)
    → holds_call rs id r ≡ true
    → holds_reservation rs id ≡ true
unfolding holds_call holds_reservation
holds_call-holds [] id r h = cc
holds_call-holds (x ∷ rs) id r h = ground (arith, holds_call-holds rs id r)

-- Once a call is released, its reservation is gone.
pub released-gone :
    (rs : List Reservation) (id r : String)
    → distinct rs ≡ true
    → holds_call rs id r ≡ true
    → holds_reservation (without rs id r) id ≡ false
unfolding without distinct holds_reservation holds_call
released-gone [] id r h g = cc
released-gone (x ∷ rs) id r h g =
    ground (arith, released-gone rs id r, eq_iff x.reservation_id id, holds_call-holds rs id r)

pub all-append-one {ℓ} :
    {A : Type ℓ} (p : A → Bool) (xs : List A) (a : A)
    → all p xs ≡ true
    → p a ≡ true
    → all p (xs ++ a ∷ []) ≡ true
all-append-one p [] a h e = ground arith
all-append-one p (x ∷ xs) a h e = ground (arith, all-append-one p xs a)

pub holds-append :
    (rs : List Reservation) (e : Reservation) (k : String)
    → holds_reservation rs k ≡ false
    → str_eq e.reservation_id k ≡ false
    → holds_reservation (rs ++ e ∷ []) k ≡ false
unfolding holds_reservation
holds-append [] e k h n = ground arith
holds-append (r ∷ rs) e k h n = ground (arith, holds-append rs e k)

pub distinct-append :
    (rs : List Reservation) (e : Reservation)
    → distinct rs ≡ true
    → holds_reservation rs e.reservation_id ≡ false
    → distinct (rs ++ e ∷ []) ≡ true
unfolding distinct holds_reservation
distinct-append [] e h n = refl
distinct-append (r ∷ rs) e h n = ground (
  arith,
  distinct-append rs e,
  holds-append rs e r.reservation_id,
  eq_iff r.reservation_id e.reservation_id,
  eq_iff e.reservation_id r.reservation_id,
)

-- A reservation of another route fits any circuit.
pub fits_elsewhere :
    (c : Circuit) (r : Reservation) → str_eq r.route_id c.route_id ≡ false → fits c r ≡ true
unfolding fits
fits_elsewhere c r h = ground arith

-- No reservation of the list is of the route.
unfoldable pub absent : List Reservation → String → Bool
absent [] j = true
absent (r ∷ rs) j = not (str_eq r.route_id j) && absent rs j

pub absent-fits :
    (rs : List Reservation) (d : Circuit) → absent rs d.route_id ≡ true → all (fits d) rs ≡ true
unfolding absent
absent-fits [] d h = refl
absent-fits (r ∷ rs) d h = ground (arith, absent-fits rs d, fits_elsewhere d r)

pub lone-absent :
    (rs : List Reservation) (c : Circuit) (p : String)
    → c.state ≡ half_open
    → is_text c.half_open_probe p ≡ is_some c.half_open_probe
    → all (fits c) rs ≡ true
    → holds_reservation rs p ≡ false
    → absent rs c.route_id ≡ true
unfolding absent fits holds_reservation
lone-absent [] c p s e h l = refl
lone-absent (r ∷ rs) c p s e h l = elim (Option-cases c.half_open_probe) [
  | inl n ↦ ground (arith, lone-absent rs c p s e)
  | inr (k, n) ↦ ground (
    arith,
    lone-absent rs c p s e,
    eq_iff k p,
    eq_iff k r.reservation_id,
    eq_iff r.reservation_id p,
  )
]

pub expired-absent :
    (rs : List Reservation) (c : Circuit) (now t : ℕ)
    → c.state ≡ open_circuit
    → c.cooldown_until ≡ some t
    → t ≤ now
    → all (fits c) rs ≡ true
    → all (λ r. ltb now r.expires_at) rs ≡ true
    → absent rs c.route_id ≡ true
unfolding absent fits
expired-absent [] c now t s e b h l = refl
expired-absent (r ∷ rs) c now t s e b h l = ground (arith, expired-absent rs c now t s e b)

pub steady-prune :
    (clock : ℕ) (rs : List Reservation) (c : Circuit)
    → steady clock c ≡ true
    → steady clock (prune_circuit rs c) ≡ true
unfolding steady prune_circuit
steady-prune clock rs c h = ground arith

-- A reservation of another route changes nothing for the circuit, also once it is in the list.
pub append-fits :
    (rs : List Reservation) (e : Reservation) (c : Circuit)
    → all (fits c) rs ≡ true
    → fits c e ≡ true
    → all (fits c) (rs ++ e ∷ []) ≡ true
append-fits rs e c h k = all-append-one (fits c) rs e h k

lost_probe-parts :
    (rs : List Reservation) (c : Circuit)
    → lost_probe rs c ≡ true
    → (p : String) × (c.half_open_probe ≡ some p)
      × (c.state ≡ half_open)
      × (holds_reservation rs p ≡ false)
unfolding lost_probe
lost_probe-parts rs c h = ground arith

pub prune-fits :
    (rs : List Reservation) (c : Circuit)
    → all (fits c) rs ≡ true
    → all (fits (prune_circuit rs c)) rs ≡ true
unfolding prune_circuit
prune-fits rs c h = elim (Bool-cases (lost_probe rs c)) [
  | inr kept ↦ rw kept h
  | inl lost ↦
      let (p, is_probe, half, gone) = lost_probe-parts rs c lost in
      rw lost (
        absent-fits rs (record c { half_open_probe = none })
          (lone-absent rs c p half (rw is_probe (eq_refl p)) h gone))
]
