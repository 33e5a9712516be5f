-- ===== src/Provider/Admission/Bounds.antt =====
-- Concurrency and budget over any sequence of reservations and releases.
use tech_pulse_ai.Prelude.{
  ℕ, ◌≤◌, ◌≡◌, String, true, Option, none, some, List, [], ◌∷◌, length, ok, length-append,
  length-keep-le, arith, ltb,
}
use tech_pulse_ai.Provider.Admission.{
  Domain, State, Circuit, Request, Reservation, Outcome, Admission, granted, refused, rebased,
  fresh_state, base_state, admit, reserve_from, without, release_from, apply_provider_release,
  reserve_provider_call, release_provider_call, after_cooldown, circuit_for, same_domain,
  live_reservations, reservation_of,
}
use tech_pulse_ai.Provider.Admission.Steps.{base_state-some, Granted, reserve_cases}

pub record IsBounded (s : State) : Type 0 where
  pub within_concurrency : length s.active_reservations ≤ s.max_concurrency
  pub within_budget : s.spent_units ≤ s.budget_limit

abbrev pub IsBoundedStore : Option State → Type 0
IsBoundedStore none = Unit
IsBoundedStore (some s) = IsBounded s

abbrev IsBoundedAdmission : Admission → Type 0
IsBoundedAdmission (granted s reused) = IsBounded s
IsBoundedAdmission (refused why after s) = Unit

length-live-le : (now : ℕ) (rs : List Reservation) → length (live_reservations now rs) ≤ length rs
unfolding live_reservations
length-live-le now rs = length-keep-le (λ r. ltb now r.expires_at) rs

rebased-IsBounded :
    (s : State) (d : Domain) (width now : ℕ)
    → same_domain s d ≡ true
    → IsBounded s
    → IsBounded (rebased s d width now)
unfolding rebased same_domain
rebased-IsBounded s d width now same h = ground (arith, length-live-le now s.active_reservations)

fresh_state-IsBounded : (d : Domain) (now : ℕ) → IsBounded (fresh_state d now)
unfolding fresh_state
fresh_state-IsBounded d now = omega arith

base_state-IsBounded :
    (stored : Option State) (d : Domain) (now : ℕ) (s : State)
    → IsBoundedStore stored
    → base_state stored d now ≡ ok s
    → IsBounded s
unfolding base_state
base_state-IsBounded none d now s h e = ground (arith, fresh_state-IsBounded d now)
base_state-IsBounded (some t) d now s h e =
    let (width, same, _, rebased_t) = base_state-some t d now s e in
    rw rebased_t (rebased-IsBounded t d width now same h)

admit-IsBounded :
    (s : State) (c : Circuit) (q : Request) (width now expiry : ℕ)
    → IsBounded s
    → IsBoundedAdmission (admit s c q width now expiry)
unfolding admit
admit-IsBounded s c q width now expiry h =
    ground (arith, length-append s.active_reservations (reservation_of q expiry ∷ []))

reserve_from-IsBounded :
    (s : State) (q : Request) (width now expiry : ℕ)
    → IsBounded s
    → IsBoundedAdmission (reserve_from s q width now expiry)
unfolding reserve_from
reserve_from-IsBounded s q width now expiry h = ground (
  arith,
  admit-IsBounded s (after_cooldown (circuit_for s.route_circuits q.route_id)) q width now expiry,
)

length-without-le : (xs : List Reservation) (id r : String) → length (without xs id r) ≤ length xs
unfolding without
length-without-le [] id r = omega arith
length-without-le (x ∷ xs) id r = ground (arith, length-without-le xs id r)

release_from-IsBounded :
    (s : State) (route id : String) (outcome : Outcome) (now : ℕ)
    → IsBounded s
    → IsBounded (release_from s route id outcome now)
unfolding release_from
release_from-IsBounded s route id outcome now h =
    ground (arith, length-without-le s.active_reservations id route)

pub reserve_provider_call-IsBounded :
    (stored : Option State) (q : Request)
    → IsBoundedStore stored
    → IsBoundedStore (reserve_provider_call stored q)
reserve_provider_call-IsBounded stored q h = reserve_cases IsBoundedStore stored q h stores
  where
    stores : (s : State) → Granted stored q s → IsBounded s
    stores s g = ground (
      arith,
      g,
      reserve_from-IsBounded g.base q g.width g.now g.expiry
          (base_state-IsBounded stored q.domain g.now g.base h g.base_of),
    )

pub release_provider_call-IsBounded :
    (stored : Option State) (route id : String) (outcome : Outcome) (now : Option ℕ)
    → IsBoundedStore stored
    → IsBoundedStore (release_provider_call stored route id outcome now)
unfolding release_provider_call apply_provider_release
release_provider_call-IsBounded none route id outcome now h = ground arith
release_provider_call-IsBounded (some s) route id outcome none h = h
release_provider_call-IsBounded (some s) route id outcome (some now) h =
    release_from-IsBounded s route id outcome now h

-- The calls that the two entry points of the repository receive, in the order of their
-- transactions.
pub data Call : Type 0 where
  reserves : Request → Call
  releases : (route id : String) (outcome : Outcome) (now : Option ℕ) → Call

unfoldable pub step : Option State → Call → Option State
step stored (reserves q) = reserve_provider_call stored q
step stored (releases route id outcome now) = release_provider_call stored route id outcome now

unfoldable pub run : Option State → List Call → Option State
run stored [] = stored
run stored (c ∷ cs) = run (step stored c) cs

step-IsBounded :
    (stored : Option State) (c : Call) → IsBoundedStore stored → IsBoundedStore (step stored c)
unfolding step
step-IsBounded stored (reserves q) h = reserve_provider_call-IsBounded stored q h
step-IsBounded stored (releases route id outcome now) h =
    release_provider_call-IsBounded stored route id outcome now h

-- Whatever calls arrive, in whatever order, from a stored state within its limits: the number of
-- active reservations never exceeds the concurrency of the domain, nor do the spent units exceed
-- its budget.
pub run-IsBounded :
    (stored : Option State) (cs : List Call)
    → IsBoundedStore stored
    → IsBoundedStore (run stored cs)
unfolding run
run-IsBounded stored [] h = h
run-IsBounded stored (c ∷ cs) h = run-IsBounded (step stored c) cs (step-IsBounded stored c h)
