-- ===== src/Provider/Admission/Grants.antt =====
-- Code: server/repositories/mongo/provider-admission-repository.js: the circuits after a grant.
use tech_pulse_ai.Prelude.{
  Bool, List, String, [], all, arith, eq_refl, false, inl, inr, is_some, leb, ltb, none, refl, some,
  str_eq, true, ℕ, ◌&&◌, ◌++◌, ◌+◌, ◌∷◌, ◌≡◌, ◌≤◌, ◌⊎◌,
}
use tech_pulse_ai.Provider.Admission.{
  Circuit, CircuitState, Domain, Request, Reservation, State, admit, after_cooldown, circuit_for,
  closed, cooldown_ms, entered, fresh_state, granted, half_open, holds_reservation, is_cooling,
  is_half_open, live_reservations, open_circuit, prune_circuit, rebased, reservation_of,
  reserve_from, store_circuit,
}
use tech_pulse_ai.Provider.Admission.Circuits.{
  circuit_for-route, circuit_for-store, rebased-active, rebased-circuit,
}
use tech_pulse_ai.Provider.Admission.Probe.{
  absent, absent-fits, all-append-one, all-live, append-fits, distinct, distinct-append,
  distinct-live, expired-absent, fits, fits_elsewhere, lone-absent, prune-fits, recent,
  sound_circuit, steady, steady-prune,
}
use tech_pulse_ai.Provider.Admission.Sound.{
  IsSound, closed-fits, recent_mono, sound_circuit-parts, steady_mono,
}

pub fresh_state-IsSound : (d : Domain) (now : ℕ) → IsSound now (fresh_state d now)
unfolding fresh_state distinct recent sound_circuit steady circuit_for
fresh_state-IsSound d now = record { unique = refl; fresh = refl; circuits = λ j. refl }

prune_sound :
    (clock now : ℕ) (rs : List Reservation) (c : Circuit)
    → clock ≤ now
    → sound_circuit clock rs c ≡ true
    → sound_circuit now (live_reservations now rs) (prune_circuit (live_reservations now rs) c)
      ≡ true
unfolding sound_circuit
prune_sound clock now rs c l h = ground (
  arith,
  all-live (fits c) now rs,
  prune-fits (live_reservations now rs) c,
  steady_mono clock now (prune_circuit (live_reservations now rs) c) l,
  steady-prune clock (live_reservations now rs) c,
)

pub rebased-IsSound :
    (s : State) (d : Domain) (width clock now : ℕ)
    → clock ≤ now
    → IsSound clock s
    → IsSound now (rebased s d width now)
unfolding recent
rebased-IsSound s d width clock now l h = record {
  unique = rw (rebased-active s d width now) (distinct-live now s.active_reservations h.unique);
  fresh = rw (rebased-active s d width now) (
      all-live (λ r. leb r.expires_at (now + cooldown_ms)) now s.active_reservations
        (recent_mono clock now s.active_reservations l h.fresh));
  circuits = λ j.
      rw (rebased-active s d width now, rebased-circuit s d width now j)
        (prune_sound clock now s.active_reservations (circuit_for s.route_circuits j) l
          (h.circuits j));
}

module _ (now : ℕ) (rs : List Reservation) (c : Circuit) (id : String)
    (sound_c : sound_circuit now rs c ≡ true) (lasting : all (λ r. ltb now r.expires_at) rs ≡ true)
    (new : holds_reservation rs id ≡ false) (ready : is_cooling c now ≡ false)
    (lone : (is_half_open (after_cooldown c).state && is_some (after_cooldown c).half_open_probe)
      ≡ false) where
  next : Circuit
  next = entered (after_cooldown c) id

  next-route : next.route_id ≡ c.route_id
  unfolding next entered after_cooldown
  next-route = ground arith

  next-steady : steady now next ≡ true
  unfolding next entered after_cooldown is_half_open steady sound_circuit
  next-steady = ground (arith, sound_circuit-parts now rs c sound_c)

  over : c.state ≡ open_circuit → (t : ℕ) × (c.cooldown_until ≡ some t) × (t ≤ now)
  unfolding is_cooling
  over o = ground arith

  no_probe : c.state ≡ half_open → c.half_open_probe ≡ none
  unfolding after_cooldown is_half_open
  no_probe half = ground arith

  ready-absent :
      (st : CircuitState) → c.state ≡ st → (c.state ≡ closed) ⊎ (absent rs c.route_id ≡ true)
  ready-absent closed e = inl e
  ready-absent open_circuit e =
      let (t, until, past) = over e in
      inr (expired-absent rs c now t e until past (sound_circuit-parts now rs c sound_c).1 lasting)
  ready-absent half_open e =
      inr (lone-absent rs c id e (rw (no_probe e)) (sound_circuit-parts now rs c sound_c).1 new)

  next-fits : all (fits next) rs ≡ true
  unfolding next entered after_cooldown is_half_open
  next-fits = ground (arith, closed-fits rs next, absent-fits rs next, ready-absent c.state refl)

  entry-fits : (e : Reservation) → e.reservation_id ≡ id → fits next e ≡ true
  unfolding next entered after_cooldown is_half_open fits is_cooling
  entry-fits e same = ground (arith, eq_refl id, sound_circuit-parts now rs c sound_c)

  next_sound :
      (e : Reservation) → e.reservation_id ≡ id → sound_circuit now (rs ++ e ∷ []) next ≡ true
  unfolding sound_circuit
  next_sound e same =
      ground (arith, next-steady, append-fits rs e next next-fits (entry-fits e same))

-- A grant is that of an active reservation, or it adds one and stores the circuit of its route.
pub reserve_from-granted :
    (s s' : State) (q : Request) (width now expiry : ℕ) (reused : Bool)
    → let c = circuit_for s.route_circuits q.route_id in
      reserve_from s q width now expiry ≡ granted s' reused
      → (s' ≡ s)
        ⊎ ((holds_reservation s.active_reservations q.reservation_id ≡ false)
            × (is_cooling c now ≡ false)
            × ((is_half_open (after_cooldown c).state && is_some (after_cooldown c).half_open_probe)
                ≡ false)
            × (s'.active_reservations ≡ s.active_reservations ++ reservation_of q expiry ∷ [])
            × (s'.route_circuits
                ≡ store_circuit s.route_circuits q.route_id
                    (entered (after_cooldown c) q.reservation_id)))
unfolding reserve_from admit
reserve_from-granted s s' q width now expiry reused e = ground arith

module _ (s : State) (q : Request) (now expiry : ℕ) (h : IsSound now s)
    (lasting : all (λ r. ltb now r.expires_at) s.active_reservations ≡ true)
    (brief : expiry ≤ now + cooldown_ms)
    (new : holds_reservation s.active_reservations q.reservation_id ≡ false)
    (ready : is_cooling (circuit_for s.route_circuits q.route_id) now ≡ false)
    (lone : (is_half_open (after_cooldown (circuit_for s.route_circuits q.route_id)).state
        && is_some (after_cooldown (circuit_for s.route_circuits q.route_id)).half_open_probe)
      ≡ false) where
  taken : Circuit
  taken = entered (after_cooldown (circuit_for s.route_circuits q.route_id)) q.reservation_id

  taken-route : taken.route_id ≡ q.route_id
  unfolding taken entered after_cooldown
  taken-route = ground (arith, circuit_for-route s.route_circuits q.route_id)

  taken_sound :
      sound_circuit now (s.active_reservations ++ reservation_of q expiry ∷ []) taken ≡ true
  unfolding taken next reservation_of
  taken_sound =
      next_sound now s.active_reservations (circuit_for s.route_circuits q.route_id)
        q.reservation_id (h.circuits q.route_id) lasting new ready lone (reservation_of q expiry)
        refl

  others_sound :
      (j : String)
      → str_eq q.route_id j ≡ false
      → sound_circuit now
          (s.active_reservations ++ reservation_of q expiry ∷ [])
          (circuit_for s.route_circuits j)
        ≡ true
  unfolding sound_circuit reservation_of
  others_sound j elsewhere =
      let (firm, fit) =
        sound_circuit-parts now s.active_reservations (circuit_for s.route_circuits j)
          (h.circuits j) in
      ground (
        arith,
        firm,
        append-fits s.active_reservations (reservation_of q expiry) (circuit_for s.route_circuits j)
            fit,
        fits_elsewhere (circuit_for s.route_circuits j) (reservation_of q expiry),
        circuit_for-route s.route_circuits j,
      )

  stored_sound :
      (j : String)
      → sound_circuit now
          (s.active_reservations ++ reservation_of q expiry ∷ [])
          (circuit_for (store_circuit s.route_circuits q.route_id taken) j)
        ≡ true
  stored_sound j = ground (
    arith,
    circuit_for-store s.route_circuits q.route_id j taken taken-route,
    taken_sound,
    others_sound j,
  )

  all_recent : recent now (s.active_reservations ++ reservation_of q expiry ∷ []) ≡ true
  unfolding recent reservation_of
  all_recent =
      all-append-one (λ r. leb r.expires_at (now + cooldown_ms)) s.active_reservations
        (reservation_of q expiry) h.fresh (ground arith)

  all_distinct : distinct (s.active_reservations ++ reservation_of q expiry ∷ []) ≡ true
  unfolding reservation_of
  all_distinct = distinct-append s.active_reservations (reservation_of q expiry) h.unique new

pub reserve_from-IsSound :
    (s s' : State) (q : Request) (width now expiry : ℕ) (reused : Bool)
    → IsSound now s
    → all (λ r. ltb now r.expires_at) s.active_reservations ≡ true
    → expiry ≤ now + cooldown_ms
    → reserve_from s q width now expiry ≡ granted s' reused
    → IsSound now s'
unfolding taken
reserve_from-IsSound s s' q width now expiry reused h lasting brief e =
    elim (reserve_from-granted s s' q width now expiry reused e) [
      | inl same ↦ rw same h
      | inr (new, ready, lone, acts, circs) ↦ record {
        unique = rw acts (all_distinct s q now expiry h lasting brief new ready lone);
        fresh = rw acts (all_recent s q now expiry h lasting brief new ready lone);
        circuits =
            λ j. rw (acts, circs) (stored_sound s q now expiry h lasting brief new ready lone j);
      }
    ]
