-- ===== src/Provider/Admission/Recovery.antt =====
-- Code: server/repositories/mongo/provider-admission-repository.js: the end of a cooldown.
use tech_pulse_ai.Prelude.{
  List, Option, String, [], all, arith, false, is_some, ltb, none, ok, refl, some, true, ℕ, ◌&&◌,
  ◌++◌, ◌+◌, ◌<◌, ◌∷◌, ◌≡◌, ◌≤◌,
}
use tech_pulse_ai.Provider.Admission.{
  Circuit, Domain, Outcome, Request, Reservation, State, admit, after_cooldown,
  apply_provider_release, apply_provider_reservation, base_state, circuit_for, cooldown_ms, entered,
  fresh_state, granted, holds_reservation, is_cooling, is_half_open, live_reservations,
  prune_circuit, release_provider_call, reservation_of, reserve_from, reserve_provider_call,
  store_circuit, valid_request,
}
use tech_pulse_ai.Provider.Admission.Circuits.{rebased-active, rebased-circuit}
use tech_pulse_ai.Provider.Admission.Steps.{
  Granted, apply-of_reserve_from, base_state-some, reserve_cases,
}
use tech_pulse_ai.Provider.Admission.Bounds.{Call, releases, reserves, run, step}
use tech_pulse_ai.Provider.Admission.Probe.{all-live_self, recent, steady}
use tech_pulse_ai.Provider.Admission.Sound.{
  IsSound, IsSound-later, release_from-IsSound, sound_circuit-parts,
}
use tech_pulse_ai.Provider.Admission.Grants.{
  fresh_state-IsSound, rebased-IsSound, reserve_from-IsSound,
}

abbrev IsSoundStore : ℕ → Option State → Type 0
IsSoundStore clock none = Unit
IsSoundStore clock (some s) = IsSound clock s

-- A call at a time: a reservation then ends within `reservationTtlMs`, which is the cooldown.
abbrev pub IsAt : ℕ → Call → Type 0
IsAt now (reserves q) =
    (q.now ≡ some now) × (expiry : ℕ) × (q.expires_at ≡ some expiry) × (expiry ≤ now + cooldown_ms)
IsAt now (releases route id o time) = time ≡ some now

-- Calls in the order of their times, from `clock` on and up to `end`.
abbrev pub IsTimely : ℕ → ℕ → List Call → Type 0
IsTimely clock end [] = clock ≤ end
IsTimely clock end (c ∷ cs) = (now : ℕ) × (clock ≤ now) × IsAt now c × IsTimely now end cs

fresh_state-lasting :
    (d : Domain) (now : ℕ)
    → all (λ r. ltb now r.expires_at) (fresh_state d now).active_reservations ≡ true
unfolding fresh_state
fresh_state-lasting d now = refl

base_state-IsSound :
    (stored : Option State) (d : Domain) (clock now : ℕ) (s : State)
    → clock ≤ now
    → IsSoundStore clock stored
    → base_state stored d now ≡ ok s
    → IsSound now s × (all (λ r. ltb now r.expires_at) s.active_reservations ≡ true)
unfolding base_state
base_state-IsSound none d clock now s l h e =
    rw (fresh_base s e) (fresh_state-IsSound d now, fresh_state-lasting d now)
  where
    fresh_base : (s : State) → base_state none d now ≡ ok s → s ≡ fresh_state d now
    fresh_base s e = ground arith
base_state-IsSound (some t) d clock now s l h e =
    let (width, _, _, rebased_t) = base_state-some t d now s e in
    rw rebased_t (
      rebased-IsSound t d width clock now l h,
      rw (rebased-active t d width now) (all-live_self now t.active_reservations),
    )

IsSoundStore-later :
    (stored : Option State) (clock now : ℕ)
    → clock ≤ now
    → IsSoundStore clock stored
    → IsSoundStore now stored
IsSoundStore-later none clock now l h = tt
IsSoundStore-later (some s) clock now l h = IsSound-later s clock now l h

reserve-IsSound :
    (stored : Option State) (q : Request) (clock now : ℕ)
    → clock ≤ now
    → IsAt now (reserves q)
    → IsSoundStore clock stored
    → IsSoundStore now (reserve_provider_call stored q)
reserve-IsSound stored q clock now l (at, expiry, until, brief) h =
    reserve_cases (IsSoundStore now) stored q (IsSoundStore-later stored clock now l h) stores
  where
    stores : (s : State) → Granted stored q s → IsSound now s
    stores s g =
        let now_is : g.now ≡ now = ground (arith, g) in
        let expiry_is : g.expiry ≡ expiry = ground (arith, g) in
        let (sound, lasting) =
          base_state-IsSound stored q.domain clock now g.base l h (rw now_is at g.base_of) in
        reserve_from-IsSound g.base s q g.width now expiry g.reused sound lasting brief
          (rw (now_is, expiry_is) at g.result)

release-IsSound :
    (stored : Option State) (route id : String) (o : Outcome) (clock now : ℕ)
    → clock ≤ now
    → IsSoundStore clock stored
    → IsSoundStore now (release_provider_call stored route id o (some now))
unfolding release_provider_call apply_provider_release
release-IsSound none route id o clock now l h = tt
release-IsSound (some s) route id o clock now l h = release_from-IsSound s route id o clock now l h

step-IsSound :
    (stored : Option State) (c : Call) (clock now : ℕ)
    → clock ≤ now
    → IsAt now c
    → IsSoundStore clock stored
    → IsSoundStore now (step stored c)
unfolding step
step-IsSound stored (reserves q) clock now l at h = reserve-IsSound stored q clock now l at h
step-IsSound stored (releases route id o time) clock now l at h =
    rw at (release-IsSound stored route id o clock now l h)

run-IsSound :
    (stored : Option State) (cs : List Call) (clock end : ℕ)
    → IsTimely clock end cs
    → IsSoundStore clock stored
    → IsSoundStore end (run stored cs)
unfolding run
run-IsSound stored [] clock end l h = IsSoundStore-later stored clock end l h
run-IsSound stored (c ∷ cs) clock end (now, l, at, rest) h =
    run-IsSound (step stored c) cs now end rest (step-IsSound stored c clock now l at h)

live-expired :
    (clock now : ℕ) (rs : List Reservation)
    → clock + cooldown_ms ≤ now
    → recent clock rs ≡ true
    → live_reservations now rs ≡ []
unfolding recent live_reservations
live-expired clock now [] l h = refl
live-expired clock now (r ∷ rs) l h = ground (arith, live-expired clock now rs l)

-- A circuit of which a minute has passed is ready for a call.
settled-ready :
    (clock now : ℕ) (c : Circuit)
    → clock + cooldown_ms ≤ now
    → steady clock c ≡ true
    → (is_cooling (prune_circuit [] c) now ≡ false)
      × ((is_half_open (after_cooldown (prune_circuit [] c)).state
            && is_some (after_cooldown (prune_circuit [] c)).half_open_probe)
          ≡ false)
unfolding is_cooling after_cooldown is_half_open prune_circuit steady holds_reservation
settled-ready clock now c l h = ground arith

-- With no reservation active, an idle circuit and budget left, a call is granted.
idle-granted :
    (s : State) (q : Request) (width now expiry : ℕ)
    → let c = circuit_for s.route_circuits q.route_id in
      s.active_reservations ≡ []
      → (is_cooling c now ≡ false)
        × ((is_half_open (after_cooldown c).state && is_some (after_cooldown c).half_open_probe)
            ≡ false)
      → 0 < s.max_concurrency
      → s.spent_units + q.units ≤ s.budget_limit
      → (s' : State) × (reserve_from s q width now expiry ≡ granted s' false)
unfolding reserve_from admit holds_reservation
idle-granted s q width now expiry idle (ready, lone) room budget = (after, rw idle (ground arith))
  where
    after : State
    after = record s {
      active_reservations = s.active_reservations ++ reservation_of q expiry ∷ [];
      spent_units = s.spent_units + q.units;
      route_circuits =
          store_circuit s.route_circuits q.route_id
            (entered (after_cooldown (circuit_for s.route_circuits q.route_id)) q.reservation_id);
    }

-- However the calls of a domain ended, successes, failures and calls that were never released,
-- its breaker locks no route out: if the clock never went back and no reservation lasted longer
-- than the cooldown, then a minute after the last call a valid call on any route is granted, as
-- long as the domain admits a call at all and the budget has room for it.
pub recovers :
    (cs : List Call) (s base : State) (q : Request) (end now expiry : ℕ)
    → IsTimely 0 end cs
    → run none cs ≡ some s
    → end + cooldown_ms ≤ now
    → q.now ≡ some now
    → q.expires_at ≡ some expiry
    → valid_request q now expiry ≡ true
    → base_state (some s) q.domain now ≡ ok base
    → 0 < base.max_concurrency
    → base.spent_units + q.units ≤ base.budget_limit
    → (s' : State) × (apply_provider_reservation (some s) q ≡ ok (granted s' false))
recovers cs s base q end now expiry timely ran late at until valid based room budget =
    let sound : IsSound end s = rw ran at (run-IsSound none cs 0 end timely tt) in
    let (width, _, width_of, rebased_s) = base_state-some s q.domain now base based in
    let idle : base.active_reservations ≡ [] =
      rw (rebased_s, rebased-active s q.domain width now)
        (live-expired end now s.active_reservations late sound.fresh) in
    let circuit : circuit_for base.route_circuits q.route_id
        ≡ prune_circuit [] (circuit_for s.route_circuits q.route_id) =
      rw
        (
          rebased_s,
          rebased-circuit s q.domain width now q.route_id,
          live-expired end now s.active_reservations late sound.fresh,
        )
        refl in
    let ready =
      settled-ready end now (circuit_for s.route_circuits q.route_id) late
        (sound_circuit-parts end s.active_reservations (circuit_for s.route_circuits q.route_id)
          (sound.circuits q.route_id)).0 in
    let (s', result) = idle-granted base q width now expiry idle (rw circuit ready) room budget in
    (
      s',
      apply-of_reserve_from (some s) q base now expiry width (granted s' false) at until valid based
          width_of result,
    )
