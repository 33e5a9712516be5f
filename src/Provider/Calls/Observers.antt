-- ===== src/Provider/Calls/Observers.antt =====
-- Code: the observers of late replies of server/ai/provider-admission.js.
use tech_pulse_ai.Prelude.{
  Bool, List, Option, String, [], arith, false, if◌then◌else◌, refl, some, true, ℕ, ◌∷◌, ◌≡◌,
}
use tech_pulse_ai.Provider.Taxonomy.{DomainOutcome, cancelled}
use tech_pulse_ai.Provider.Execution.{
  request_release, ◌>>=◌, Host, ReleaseOutcome, State, after, ask, call, get_held, give, note, Late,
  late_admission, late_reservation, take_late, released_cancelled, set_held,
}
use tech_pulse_ai.Provider.Execution.Triples.{
  Takes, Keeps-bind, Takes-attempt, Takes-give, Takes-if, Takes-try,
}
use tech_pulse_ai.Provider.Calls.{
  give_back, observe_late, release, cancel_domain, drain, observe, observe_all, report,
}
use tech_pulse_ai.Provider.Registry.{Registry}
use tech_pulse_ai.Provider.Calls.Reservations.{
  Pending, is_released, is_reserved, observe_late-Takes, owed, releases, reservations,
}

module _ {W O : Type 0} (h : Host W O) (g : Registry) (i : String) where
  pub report-Takes :
      (n : ℕ) (d id : String) (o : DomainOutcome)
      → Takes (Pending i n) (Pending i n) (report h g d id o)
  unfolding report ◌>>=◌ after note ask call reservations releases is_reserved is_released
  report-Takes n d id o = record {
    taken = λ s p. record { free = p.free; even = ground (arith, p.even) };
  }

  -- The observers of late replies give back what these stand for.
  pub observe-Takes :
      (l : Late) (ls : List Late)
      → Takes (Pending i (owed i (l ∷ ls))) (Pending i (owed i ls)) (observe h g l)
  unfolding observe owed cancel_domain
  observe-Takes (late_reservation id x) ls = record {
    taken = λ s p.
        (observe_late-Takes h g i id (owed i ls) x).taken s
          (record { free = p.free; even = omega (arith, p.even) });
  }
  observe-Takes (late_admission d id x) ls =
      Takes-if x.allowed (report-Takes (owed i ls) d id cancelled) (Takes-give tt)

  pub drain-Takes : (ls : List Late) → Takes (Pending i (owed i ls)) (Pending i 0) (drain h g ls)
  unfolding drain owed
  drain-Takes [] = Takes-give tt
  drain-Takes (l ∷ ls) =
      Takes-try {Q = λ r. Pending i (owed i ls)} {m = observe h g l}
        (record { met = λ s p. (observe-Takes l ls).taken s p }) (λ r. drain-Takes ls)

  pub observe_all-Takes : Takes (Pending i 0) (Pending i 0) (observe_all h g)
  unfolding observe_all take_late ◌>>=◌ after reservations releases owed
  observe_all-Takes = record {
    taken = λ s p.
        (drain-Takes s.late).taken (record s { late = [] })
          (record { free = p.free; even = omega (arith, p.even) });
  }

-- The observers leave no late reply.
unfoldable pub IsSettled : {W : Type 0} → State W → Type 0
IsSettled s = s.late ≡ []

module _ {W O : Type 0} (h : Host W O) (g : Registry) where
  pub set_held-IsSettled : (b : Bool) → Takes {W = W} IsSettled IsSettled (set_held b)
  unfolding IsSettled set_held
  set_held-IsSettled b = record { taken = λ s p. p }

  pub release-IsSettled :
      (id : String) (o : ReleaseOutcome) (x : Option String)
      → Takes IsSettled IsSettled (release h g id o x)
  unfolding IsSettled release give_back request_release ◌>>=◌ after get_held set_held note ask call
      give
  release-IsSettled id o x = record { taken = λ s p. go s s.held p }
    where
      go :
          (s : State W) (b : Bool)
          → s.late ≡ []
          → ((if b then give_back h g id o x else give tt) s).1.late ≡ []
      go s true p = p
      go s false p = p

  pub observe-IsSettled : (l : Late) → Takes IsSettled IsSettled (observe h g l)
  unfolding observe observe_late cancel_domain report ◌>>=◌ after note ask call IsSettled
  observe-IsSettled (late_reservation id x) =
      Takes-if x.allowed
        (Keeps-bind (set_held-IsSettled true)
          (λ u. release-IsSettled id released_cancelled (some "execution_cancelled")))
        (Takes-give tt)
  observe-IsSettled (late_admission d id x) = Takes-if x.allowed reports (Takes-give tt)
    where
      reports : Takes IsSettled IsSettled (report h g d id cancelled)
      reports = record { taken = λ s p. p }

  pub drain-IsSettled : (ls : List Late) → Takes IsSettled IsSettled (drain h g ls)
  unfolding drain
  drain-IsSettled [] = Takes-give tt
  drain-IsSettled (l ∷ ls) =
      Keeps-bind (Takes-attempt (observe-IsSettled l)) (λ u. drain-IsSettled ls)

  pub observe_all-IsSettled : (s : State W) → IsSettled (observe_all h g s).1
  unfolding IsSettled observe_all take_late ◌>>=◌ after
  observe_all-IsSettled s = (drain-IsSettled s.late).taken (record s { late = [] }) refl
