-- ===== src/Provider/Calls/Reservations.antt =====
-- Code: `run` of server/ai/provider-admission.js: what is reserved of the budget, and the requests to give
-- it back.
use tech_pulse_ai.Prelude.{
  Bool, List, Option, Result, String, [], arith, str_eq, err, false, if◌then◌else◌, is_some, keep,
  length, ok, refl, some, true, ℕ, ◌+◌, ◌||◌, ◌∷◌, ◌≡◌,
}
use tech_pulse_ai.Provider.Taxonomy.{Failure, adapter, cancellation_error}
use tech_pulse_ai.Provider.Execution.{
  ◌>>=◌, ◌>>◌, Context, Event, Exec, Host, ReleaseOutcome, Reply, Route, State, after, ask,
  await_execution, call, either, get_held, give, note, raced, release_asked, request_release,
  request_slot, Late, late_admission, late_reservation, put_late, released_cancelled, reserved,
  set_held, settle,
}
use tech_pulse_ai.Provider.Execution.Steady.{
  IsSteady, available-Takes, call-Takes, check_timer-Takes, Meets-ask,
}
use tech_pulse_ai.Provider.Execution.Triples.{
  Meets, Takes, Meets-fail, Meets-give, Meets-if, Meets-take, Meets-try, Takes-give,
}
use tech_pulse_ai.Provider.Calls.{give_back, observe_late, release}
use tech_pulse_ai.Provider.Registry.{Registry}

-- The reservations of one id `i`, and the requests to give it back.
unfoldable pub is_reserved : String → Event → Bool
is_reserved i (reserved id) = str_eq id i
is_reserved i _ = false

unfoldable pub is_released : String → Event → Bool
is_released i (release_asked id o) = str_eq id i
is_released i _ = false

unfoldable pub reservations : {W : Type 0} → String → State W → ℕ
unfolding is_reserved
reservations i s = length (keep (is_reserved i) s.trace)

unfoldable pub releases : {W : Type 0} → String → State W → ℕ
unfolding is_released
releases i s = length (keep (is_released i) s.trace)

abbrev pub weight : String → String → ℕ
weight i id = if str_eq id i then 1 else 0

-- The reservation that a reply of the repository stands for.
abbrev pub granted_to : String → String → Reply → ℕ
granted_to i id x = if x.allowed then weight i id else 0

-- The late replies that are reservations with the id.
unfoldable pub owed : String → List Late → ℕ
owed i [] = 0
owed i (late_reservation id x ∷ ls) = granted_to i id x + owed i ls
owed i (late_admission d id x ∷ ls) = owed i ls

-- Nothing is held, and `n` reservations are not given back, besides the late ones.
pub record Pending {W : Type 0} (i : String) (n : ℕ) (s : State W) : Type 0 where
  pub free : s.held ≡ false
  pub even : reservations i s ≡ releases i s + owed i s.late + n

-- The reservation `id` is held or not; it, and `n` others, are not given back.
pub record IsBusy {W : Type 0} (i id : String) (n : ℕ) (s : State W) : Type 0 where
  pub even :
      reservations i s ≡ releases i s + owed i s.late + n + (if s.held then weight i id else 0)

module _ {W : Type 0} (i : String) where
  pub Pending-IsBusy : (id : String) (n : ℕ) (s : State W) → Pending i n s → IsBusy i id n s
  Pending-IsBusy id n s x = record { even = ground (arith, x.free, x.even) }

  pub Pending-IsSteady : {n : ℕ} → IsSteady {W = W} (Pending i n)
  unfolding reservations releases
  Pending-IsSteady = record { on_world = λ s w x. record { free = x.free; even = x.even } }

  pub IsBusy-IsSteady : {id : String} {n : ℕ} → IsSteady {W = W} (IsBusy i id n)
  unfolding reservations releases
  IsBusy-IsSteady = record { on_world = λ s w x. record { even = x.even } }

  -- `reserved = true`, and what follows.
  pub hold-Takes :
      {A : Type 0} {Q : State W → Type 0} {f : Unit {0} → Exec W A} (id : String) (n : ℕ)
      → ((u : Unit {0}) → Takes (IsBusy i id n) Q (f u))
      → Takes (Pending i (n + weight i id)) Q (set_held true >>= f)
  unfolding set_held ◌>>=◌ after reservations releases
  hold-Takes id n rest = record {
    taken =
        λ s x. (rest tt).taken (record s { held = true }) (record { even = omega (arith, x.even) });
  }

  pub hold_first-Takes :
      {A : Type 0} {Q : State W → Type 0} {f : Unit {0} → Exec W A} (id : String)
      → ((u : Unit {0}) → Takes (IsBusy i id 0) Q (f u))
      → Takes (Pending i (weight i id)) Q (set_held true >>= f)
  hold_first-Takes id rest = record {
    taken = λ s x.
        (hold-Takes id 0 rest).taken s (record { free = x.free; even = omega (arith, x.even) });
  }

  pub clear-Takes : Takes (Pending i 0) (Pending i 0) (set_held {W = W} false)
  unfolding set_held reservations releases
  clear-Takes = record { taken = λ s x. record { free = refl; even = x.even } }

  pub Meets-reserved :
      {A : Type 0} {R : Result Failure A → State W → Type 0} {f : Unit {0} → Exec W A} (id : String)
      → ((u : Unit {0}) → Meets (Pending i (weight i id)) R (f u))
      → Meets (Pending i 0) R (note (reserved id) >>= f)
  unfolding note ◌>>=◌ after reservations releases is_reserved is_released
  Meets-reserved id rest = record {
    met = λ s x.
        (rest tt).met (record s { trace = reserved id ∷ s.trace })
          (record { free = x.free; even = ground (arith, x.even) });
  }

  -- A late reservation waits for its observer.
  pub put_late-Takes :
      (id : String) (x : Reply)
      → Takes {W = W}
          (Pending i (granted_to i id x))
          (Pending i 0)
          (put_late (late_reservation id x))
  unfolding put_late reservations releases owed
  put_late-Takes id x = record {
    taken = λ s p. record { free = p.free; even = omega (arith, p.even) };
  }

-- What an answer of the repository, or an error, leaves to be given back.
unfoldable pub granted : String → String → Result Failure Reply → ℕ
granted i id (ok x) = granted_to i id x
granted i id (err e) = 0

module _ {W O : Type 0} (h : Host W O) (g : Registry) (i : String) where
  module _ (id : String) (n : ℕ) (o : ReleaseOutcome) (x : Option String) where
    pub give_back-Takes :
        Takes
          (λ (s : State W). IsBusy i id n s × (s.held ≡ true))
          (Pending i n)
          (give_back h g id o x)
    unfolding give_back request_release ◌>>=◌ after set_held note ask call reservations releases
        is_reserved is_released
    give_back-Takes = record {
      taken = λ s b. record { free = refl; even = ground (arith, b.0.even, b.1) };
    }

    pub release-Takes : Takes (IsBusy i id n) (Pending i n) (release h g id o x)
    unfolding release ◌>>=◌ after get_held give
    release-Takes = record { taken = λ s b. go s s.held refl b }
      where
        go :
            (s : State W) (b : Bool)
            → s.held ≡ b
            → IsBusy i id n s
            → Pending i n ((if b then give_back h g id o x else give tt) s).1
        go s true e b = give_back-Takes.taken s (b, e)
        go s false e b = record { free = e; even = ground (arith, b.even, e) }

  pub observe_late-Takes :
      (id : String) (n : ℕ) (x : Reply)
      → Takes (Pending i (n + granted_to i id x)) (Pending i n) (observe_late h g id x)
  unfolding observe_late give
  observe_late-Takes id n x = go x.allowed
    where
      go :
          (b : Bool)
          → Takes {W = W} (Pending i (n + (if b then weight i id else 0))) (Pending i n) (
              if b
              then (set_held true >> release h g id released_cancelled (some "execution_cancelled"))
              else give tt)
      go true =
          hold-Takes i id n
            (λ u. release-Takes id n released_cancelled (some "execution_cancelled"))
      go false = record { taken = λ s p. record { free = p.free; even = omega (arith, p.even) } }

  pub request_slot-Meets :
      (r : Route) (id : String) (t : Option ℕ)
      → Meets (Pending i 0) (λ x. Pending i (granted i id x)) (request_slot h r id t)
  unfolding request_slot granted
  request_slot-Meets r id t =
      Meets-take (call-Takes (Pending-IsSteady i) (h.reserve r id t)) (λ e s y. y)
        (λ x. go x x.allowed refl)
    where
      go :
          (x : Reply) (b : Bool)
          → x.allowed ≡ b
          → Meets {W = W}
              (Pending i 0)
              (λ y. Pending i (granted i id y))
              ((if b then note (reserved id) else give tt) >>= λ u. give x)
      go x true e =
          Meets-reserved i id
            (λ u. Meets-give x (λ s p. record { free = p.free; even = ground (arith, p.even, e) }))
      go x false e =
          Meets-take (Takes-give tt) (λ y s p. p)
            (λ u. Meets-give x (λ s p. record { free = p.free; even = ground (arith, p.even, e) }))

  pub settle-Meets :
      (id : String) (r : Result Failure Reply) (b : Bool)
      → Meets
          (Pending i (granted i id r))
          (λ x. Pending i (granted i id x))
          (settle h (late_reservation id) r b)
  unfolding settle either granted
  settle-Meets id (ok x) false = Meets-give x (λ s p. p)
  settle-Meets id (err e) false = Meets-fail e (λ s p. p)
  settle-Meets id (err e) true =
      Meets-take (Takes-give tt) (λ y s p. p)
        (λ u. Meets-fail (adapter cancellation_error) (λ s p. p))
  settle-Meets id (ok x) true =
      Meets-take (put_late-Takes i id x) (λ y s p. p)
        (λ u. Meets-fail (adapter cancellation_error) (λ s p. p))

  pub await-Meets :
      (c : Context) (r : Route) (id : String) (t : Option ℕ)
      → Meets
          (Pending i 0)
          (λ x. Pending i (granted i id x))
          (await_execution h c (request_slot h r id t) (late_reservation id))
  unfolding await_execution raced granted
  await-Meets c r id t =
      Meets-take (available-Takes (Pending-IsSteady i) h c) (λ e s p. p)
        (λ u.
          Meets-if (c.has_signal || is_some c.deadline)
            (Meets-take (available-Takes (Pending-IsSteady i) h c) (λ e s p. p)
              (λ v.
                Meets-take (check_timer-Takes (Pending-IsSteady i) h c) (λ e s p. p)
                  (λ w.
                    Meets-try (request_slot-Meets r id t)
                      (λ x. Meets-ask h.is_overtaken (Pending-IsSteady i) (settle-Meets id x)))))
            (request_slot-Meets r id t))
