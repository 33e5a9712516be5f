-- ===== src/Provider/Admission/Sound.antt =====
-- Code: server/repositories/mongo/provider-admission-repository.js: the state between two calls.
use tech_pulse_ai.Prelude.{
  Bool-cases, List, String, [], all, arith, eq_iff, false, inl, inr, is_text, leb, refl, some, true,
  ℕ, ◌+◌, ◌∷◌, ◌≡◌, ◌≤◌,
}
use tech_pulse_ai.Provider.Admission.{
  Circuit, Outcome, Reservation, State, cancelled, circuit_for, closed, cooldown_ms, drop_probe,
  half_open, holds_call, holds_reservation, nonretryable_failure, open_circuit, release_from,
  retryable_failure, settle_circuit, store_circuit, succeeded, without,
}
use tech_pulse_ai.Provider.Admission.Breaker.{settle_circuit-route}
use tech_pulse_ai.Provider.Admission.Circuits.{circuit_for-route, circuit_for-store}
use tech_pulse_ai.Provider.Admission.Probe.{
  absent, absent-fits, all-without, distinct, distinct-without, fits, lone-absent, recent,
  released-gone, sound_circuit, steady,
}

pub record IsSound (clock : ℕ) (s : State) : Type 0 where
  pub unique : distinct s.active_reservations ≡ true
  pub fresh : recent clock s.active_reservations ≡ true
  pub circuits :
      (j : String)
      → sound_circuit clock s.active_reservations (circuit_for s.route_circuits j) ≡ true

pub recent_mono :
    (clock now : ℕ) (rs : List Reservation)
    → clock ≤ now
    → recent clock rs ≡ true
    → recent now rs ≡ true
unfolding recent
recent_mono clock now [] l h = refl
recent_mono clock now (r ∷ rs) l h = ground (arith, recent_mono clock now rs l)

pub steady_mono :
    (clock now : ℕ) (c : Circuit) → clock ≤ now → steady clock c ≡ true → steady now c ≡ true
unfolding steady
steady_mono clock now c l h = ground arith

recent-fits :
    (clock now : ℕ) (rs : List Reservation) (d : Circuit)
    → clock ≤ now
    → recent clock rs ≡ true
    → d.state ≡ open_circuit
    → d.cooldown_until ≡ some (now + cooldown_ms)
    → all (fits d) rs ≡ true
unfolding recent fits
recent-fits clock now [] d l h o e = refl
recent-fits clock now (r ∷ rs) d l h o e = ground (arith, recent-fits clock now rs d l)

pub closed-fits : (rs : List Reservation) (d : Circuit) → d.state ≡ closed → all (fits d) rs ≡ true
unfolding fits
closed-fits [] d h = refl
closed-fits (r ∷ rs) d h = ground (arith, closed-fits rs d h)

call-is_probe :
    (rs : List Reservation) (c : Circuit) (id : String)
    → c.state ≡ half_open
    → all (fits c) rs ≡ true
    → holds_call rs id c.route_id ≡ true
    → is_text c.half_open_probe id ≡ true
unfolding fits holds_call
call-is_probe [] c id s h k = cc
call-is_probe (r ∷ rs) c id s h k =
    ground (arith, call-is_probe rs c id s, eq_iff r.reservation_id id)

module _ (clock now : ℕ) (rs : List Reservation) (c : Circuit) (id route : String)
    (of_route : c.route_id ≡ route) (later : clock ≤ now) (steady_c : steady clock c ≡ true)
    (fits_c : all (fits c) rs ≡ true) (recent_rs : recent clock rs ≡ true)
    (unique_rs : distinct rs ≡ true) (held : holds_call rs id route ≡ true) where
  left : List Reservation
  left = without rs id route

  left-recent : recent clock left ≡ true
  unfolding left recent
  left-recent = all-without (λ r. leb r.expires_at (clock + cooldown_ms)) rs id route recent_rs

  left-fits : all (fits c) left ≡ true
  unfolding left
  left-fits = all-without (fits c) rs id route fits_c

  left-gone : holds_reservation left id ≡ false
  unfolding left
  left-gone = released-gone rs id route unique_rs held

  is_probe : c.state ≡ half_open → is_text c.half_open_probe id ≡ true
  is_probe half = call-is_probe rs c id half fits_c (rw of_route held)

  left-absent : c.state ≡ half_open → absent left c.route_id ≡ true
  left-absent half = lone-absent left c id half (ground (arith, is_probe half)) left-fits left-gone

  fail_sound : sound_circuit now left (settle_circuit c id retryable_failure now) ≡ true
  unfolding sound_circuit settle_circuit steady
  fail_sound = ground (
    arith,
    is_probe,
    recent-fits clock now left (settle_circuit c id retryable_failure now) later left-recent,
    closed-fits left (settle_circuit c id retryable_failure now),
  )

  success_sound : sound_circuit now left (settle_circuit c id succeeded now) ≡ true
  unfolding sound_circuit settle_circuit steady
  success_sound = ground (arith, is_probe, closed-fits left (settle_circuit c id succeeded now))

  -- An outcome that says nothing about the provider only takes the probe away.
  drop_sound : sound_circuit now left (drop_probe c id) ≡ true
  unfolding sound_circuit drop_probe steady
  drop_sound = ground (arith, is_probe, left-fits, left-absent, absent-fits left (drop_probe c id))

  settle_sound : (o : Outcome) → sound_circuit now left (settle_circuit c id o now) ≡ true
  unfolding settle_circuit
  settle_sound retryable_failure = fail_sound
  settle_sound succeeded = success_sound
  settle_sound nonretryable_failure = drop_sound
  settle_sound cancelled = drop_sound

recent-without :
    (clock now : ℕ) (rs : List Reservation) (id r : String)
    → clock ≤ now
    → recent clock rs ≡ true
    → recent now (without rs id r) ≡ true
unfolding recent
recent-without clock now rs id r l h =
    all-without (λ x. leb x.expires_at (now + cooldown_ms)) rs id r (recent_mono clock now rs l h)

sound-without :
    (clock now : ℕ) (rs : List Reservation) (c : Circuit) (id r : String)
    → clock ≤ now
    → sound_circuit clock rs c ≡ true
    → sound_circuit now (without rs id r) c ≡ true
unfolding sound_circuit
sound-without clock now rs c id r l h =
    ground (arith, steady_mono clock now c l, all-without (fits c) rs id r)

pub sound_circuit-parts :
    (clock : ℕ) (rs : List Reservation) (c : Circuit)
    → sound_circuit clock rs c ≡ true
    → (steady clock c ≡ true) × (all (fits c) rs ≡ true)
unfolding sound_circuit
sound_circuit-parts clock rs c h = ground arith

pub sound_circuit_mono :
    (clock now : ℕ) (rs : List Reservation) (c : Circuit)
    → clock ≤ now
    → sound_circuit clock rs c ≡ true
    → sound_circuit now rs c ≡ true
unfolding sound_circuit
sound_circuit_mono clock now rs c l h = ground (arith, steady_mono clock now c l)

pub IsSound-later : (s : State) (clock now : ℕ) → clock ≤ now → IsSound clock s → IsSound now s
IsSound-later s clock now l h = record {
  unique = h.unique;
  fresh = recent_mono clock now s.active_reservations l h.fresh;
  circuits = λ j.
      sound_circuit_mono clock now s.active_reservations (circuit_for s.route_circuits j) l
        (h.circuits j);
}

module _ (s : State) (route id : String) (o : Outcome) (clock now : ℕ) (l : clock ≤ now)
    (h : IsSound clock s) (held : holds_call s.active_reservations id route ≡ true) where
  settled : Circuit
  settled = settle_circuit (circuit_for s.route_circuits route) id o now

  settled_sound : sound_circuit now (without s.active_reservations id route) settled ≡ true
  unfolding settled left
  settled_sound =
      let e = circuit_for-route s.route_circuits route in
      let (firm, fit) =
        sound_circuit-parts clock s.active_reservations (circuit_for s.route_circuits route)
          (h.circuits route) in
      settle_sound clock now s.active_reservations (circuit_for s.route_circuits route) id route e l
        firm fit h.fresh h.unique held o

  stored_sound :
      (j : String)
      → sound_circuit now
          (without s.active_reservations id route)
          (circuit_for (store_circuit s.route_circuits route settled) j)
        ≡ true
  unfolding settled
  stored_sound j = ground (
    arith,
    circuit_for-store s.route_circuits route j settled,
    settle_circuit-route (circuit_for s.route_circuits route) id o now,
    circuit_for-route s.route_circuits route,
    settled_sound,
    sound-without clock now s.active_reservations (circuit_for s.route_circuits j) id route l
        (h.circuits j),
  )

pub release_from-IsSound :
    (s : State) (route id : String) (o : Outcome) (clock now : ℕ)
    → clock ≤ now
    → IsSound clock s
    → IsSound now (release_from s route id o now)
unfolding release_from settled
release_from-IsSound s route id o clock now l h =
    elim (Bool-cases (holds_call s.active_reservations id route)) [
      | inr missing ↦ rw missing (IsSound-later s clock now l h)
      | inl held ↦ rw held (record {
        unique = distinct-without s.active_reservations id route h.unique;
        fresh = recent-without clock now s.active_reservations id route l h.fresh;
        circuits = stored_sound s route id o clock now l h held;
      })
    ]
