-- ===== src/Provider/Calls/Releases.antt =====
-- Code: `run` of server/ai/provider-admission.js: its reservations of the budget and their releases.
use tech_pulse_ai.Prelude.{
  Bool, Option, Result, String, [], arith, err, false, if◌then◌else◌, none, ok, some, true, ℕ, ◌+◌,
  ◌||◌, ◌≡◌,
}
use tech_pulse_ai.Provider.Taxonomy.{Failure, adapter, cancellation_error, is_local}
use tech_pulse_ai.Provider.Execution.{
  ◌>>=◌, ◌>>◌, Context, Exec, Host, Reply, Route, State, attempt, either, fail, give,
  released_success, set_held,
}
use tech_pulse_ai.Provider.Execution.Steady.{
  ask-Takes, available-Takes, either-Takes, Takes-unavailable,
}
use tech_pulse_ai.Provider.Execution.Triples.{
  Meets, Takes, Keeps-bind, Meets-give, Meets-take, Takes-attempt, Takes-bind, Takes-fail,
  Takes-give, Takes-if, Takes-meet, Takes-try,
}
use tech_pulse_ai.Provider.Calls.{
  call_in_slot, check_evidence, give_up, reserve_and_call, run, use_slot, observe_all,
}
use tech_pulse_ai.Provider.Registry.{
  Call, Registry, eligible, evidence_expired, get_route, is_expired, needs_zdr, over_budget,
  release_code, release_outcome, thrown,
}
use tech_pulse_ai.Provider.Calls.Reservations.{
  IsBusy, IsBusy-IsSteady, Pending, Pending-IsBusy, Pending-IsSteady, await-Meets, clear-Takes,
  granted, granted_to, hold_first-Takes, owed, release-Takes, releases, reservations, weight,
}
use tech_pulse_ai.Provider.Calls.Observers.{IsSettled, observe_all-IsSettled, observe_all-Takes}

-- What the body of `try` leaves: a success has given its reservation back.
Ended : {W O : Type 0} → String → String → Result Failure O → State W → Type 0
Ended i id (ok out) s = Pending i 0 s
Ended i id (err e) s = IsBusy i id 0 s

module _ {W O : Type 0} (h : Host W O) (g : Registry) (c : Context) (q : Call)
    (invoke : Route → Exec W O) (i : String)
    (called : (id : String) (r : Route) → Takes (IsBusy i id 0) (IsBusy i id 0) (invoke r)) where
  check_evidence-Takes :
      (id : String) (r : Route) → Takes (IsBusy i id 0) (IsBusy i id 0) (check_evidence h g q r)
  unfolding check_evidence
  check_evidence-Takes id r =
      Takes-if (needs_zdr q.capability)
        (Keeps-bind (ask-Takes (IsBusy-IsSteady i) h.now) (λ t.
          Takes-if (is_expired r.evidence_expires_at t) (Takes-fail evidence_expired)
            (Takes-give tt)))
        (Takes-give tt)

  use_slot-Meets :
      (r : Route) (id : String) → Meets (IsBusy i id 0) (Ended i id) (use_slot h g c q invoke r id)
  unfolding use_slot Ended
  use_slot-Meets r id =
      Meets-take (available-Takes (IsBusy-IsSteady i) h c) (λ e s p. p)
        (λ u.
          Meets-take (check_evidence-Takes id r) (λ e s p. p)
            (λ v.
              Meets-take (called id r) (λ e s p. p)
                (λ out.
                  Meets-take (available-Takes (IsBusy-IsSteady i) h c) (λ e s p. p)
                    (λ w.
                      Meets-take (release-Takes h g i id 0 released_success none)
                        (λ e s p. Pending-IsBusy i id 0 s p) (λ x. Meets-give out (λ s p. p))))))

  give_up-Takes :
      (id : String) (e : Failure) → Takes (IsBusy i id 0) (Pending i 0) (give_up h g c id e)
  unfolding give_up
  give_up-Takes id e = Takes-unavailable h c (IsBusy-IsSteady i) (λ b.
      Takes-bind
        (Takes-attempt (
          release-Takes h g i id 0 (release_outcome (b || is_local e) e) (some (release_code b e))))
        (λ s p. p)
        (λ u.
          Takes-fail
            (if b then adapter cancellation_error else (if is_local e then e else thrown e))))

  call_in_slot-Takes :
      (r : Route) (id : String) (x : Reply)
      → Takes (Pending i (granted_to i id x)) (Pending i 0) (call_in_slot h g c q invoke r id x)
  unfolding call_in_slot either Ended
  call_in_slot-Takes r id x = go x.allowed
    where
      ends :
          (y : Result Failure O)
          → Takes {W = W} (Ended i id y) (Pending i 0) (either (give_up h g c id) give y)
      ends (ok out) = Takes-give out
      ends (err e) = give_up-Takes id e

      go :
          (b : Bool)
          → Takes {W = W} (Pending i (if b then weight i id else 0)) (Pending i 0) (
              if b
              then (set_held true
                  >> attempt (use_slot h g c q invoke r id)
                  >>= either (give_up h g c id) give)
              else fail (over_budget x))
      go true = hold_first-Takes i id (λ u. Takes-try (use_slot-Meets r id) ends)
      go false = Takes-fail (over_budget x)

  reserve_and_call-Takes :
      (t : Option ℕ) (r : Route)
      → Takes (Pending i 0) (Pending i 0) (reserve_and_call h g c q invoke t r)
  unfolding reserve_and_call granted
  reserve_and_call-Takes t r = Keeps-bind (ask-Takes (Pending-IsSteady i) h.fresh_id) (λ id.
      Keeps-bind (clear-Takes i)
        (λ u. Takes-meet (await-Meets h g i c r id t) (λ e s p. p) (call_in_slot-Takes r id)))

  run-Takes : Takes (Pending i 0) (Pending i 0) (run h g c q invoke)
  unfolding run
  run-Takes = Keeps-bind (available-Takes (Pending-IsSteady i) h c) (λ u.
      Keeps-bind (ask-Takes (Pending-IsSteady i) h.now) (λ t.
        Keeps-bind
          (either-Takes (Pending-IsSteady i) Takes-fail Takes-give
            (eligible g q t (get_route g q.route_id)))
          (reserve_and_call-Takes t)))

-- Of every id, a call of `run` asks the repository for a release as often as the repository has
-- reserved under it, but for the reservations that were answered after the abort or the deadline;
-- and as often exactly once the observers of these late answers have run. So it is however the call
-- ends, also where the repository fails or refuses the release, for a state in which nothing is
-- held, no late answer waits, and the two numbers agree. The condition on `invoke` is that it leaves
-- the reservations alone.
pub run_gives_back :
    {W O : Type 0} (h : Host W O) (g : Registry) (c : Context) (q : Call)
    (invoke : Route → Exec W O) (s : State W) (i : String)
    → ((id : String) (r : Route) → Takes (IsBusy i id 0) (IsBusy i id 0) (invoke r))
    → s.held ≡ false
    → s.late ≡ []
    → reservations i s ≡ releases i s
    → let t = (run h g c q invoke s).1 in
      let u = (observe_all h g t).1 in
      (reservations i t ≡ releases i t + owed i t.late) × (reservations i u ≡ releases i u)
unfolding owed IsSettled
run_gives_back h g c q invoke s i called free none_late even =
    let start : Pending i 0 s = record { free = free; even = ground (arith, even, none_late) } in
    let end = (run-Takes h g c q invoke i called).taken s start in
    let t = (run h g c q invoke s).1 in
    let u = (observe_all h g t).1 in
    let settled = (observe_all-Takes h g i).taken t end in
    let none_left : u.late ≡ [] = observe_all-IsSettled h g t in
    (omega (arith, end.even), ground (arith, settled.even, none_left))
