-- ===== src/Provider/Execution/Steady.antt =====
-- Code: the checks and the race of server/ai/provider-admission.js and server/ai/provider-router.js: what
-- they leave of a state.
use tech_pulse_ai.Prelude.{Bool, Result, err, false, if◌then◌else◌, is_some, ok, true, ◌||◌}
use tech_pulse_ai.Provider.Taxonomy.{Failure, adapter, cancellation_error}
use tech_pulse_ai.Provider.Execution.{
  ◌>>=◌, Context, Exec, Host, Late, State, after, ask, assert_execution_available, await_execution,
  call, check_timer, either, execution_unavailable, give, is_late, put_late, raced, settle, stop_if,
}
use tech_pulse_ai.Provider.Execution.Triples.{
  Keeps-bind, Meets, Takes, Takes-attempt, Takes-fail, Takes-give, Takes-if,
}

-- What reading the clock, the abort signal and the other calls of the host leave as it is.
pub record IsSteady {W : Type 0} (P : State W → Type 0) : Type 0 where
  pub on_world : (s : State W) (w : W) → P s → P (record s { world = w })

module _ {W : Type 0} {P : State W → Type 0} (steady : IsSteady P) where
  pub ask-Takes : {A : Type 0} (f : W → A × W) → Takes P P (ask f)
  unfolding ask
  ask-Takes f = record { taken = λ s p. steady.on_world s (f s.world).1 p }

  pub call-Takes : {A : Type 0} (f : W → Result Failure A × W) → Takes P P (call f)
  unfolding call
  call-Takes f = record { taken = λ s p. steady.on_world s (f s.world).1 p }

  pub either-Takes :
      {A B : Type 0} {f : Failure → Exec W B} {g : A → Exec W B}
      → ((e : Failure) → Takes P P (f e))
      → ((a : A) → Takes P P (g a))
      → (r : Result Failure A) → Takes P P (either f g r)
  unfolding either
  either-Takes l r (ok a) = r a
  either-Takes l r (err e) = l e

  module _ {O : Type 0} (h : Host W O) (c : Context) where
    pub unavailable-Takes : Takes P P (execution_unavailable h c)
    unfolding execution_unavailable
    unavailable-Takes = Keeps-bind (ask-Takes h.is_aborted) (λ b.
        Takes-if b (Takes-give true)
          (Keeps-bind (ask-Takes h.now) (λ t. Takes-give (is_late c.deadline t))))

    pub stop_if-Takes : (b : Bool) → Takes P P (stop_if h b)
    unfolding stop_if
    stop_if-Takes b = Takes-if b (Takes-fail _) (Takes-give tt)

    pub available-Takes : Takes P P (assert_execution_available h c)
    unfolding assert_execution_available
    available-Takes = Keeps-bind unavailable-Takes stop_if-Takes

    pub check_timer-Takes : Takes P P (check_timer h c)
    unfolding check_timer
    check_timer-Takes =
        Takes-if (is_some c.deadline)
          (Keeps-bind (ask-Takes h.now) (λ t. stop_if-Takes (is_late c.deadline t))) (Takes-give tt)

    module _ {A : Type 0} {operation : Exec W A} (late : A → Late) (first : Takes P P operation)
        (waits : (a : A) → Takes P P (put_late (late a))) where
      settle-Takes : (r : Result Failure A) (b : Bool) → Takes P P (settle h late r b)
      unfolding settle
      settle-Takes r false = either-Takes Takes-fail Takes-give r
      settle-Takes r true =
          Keeps-bind (either-Takes (λ e. Takes-give tt) waits r)
            (λ u. Takes-fail (adapter cancellation_error))

      pub await-Takes : Takes P P (await_execution h c operation late)
      unfolding await_execution raced
      await-Takes = Keeps-bind available-Takes (λ u.
          Takes-if (c.has_signal || is_some c.deadline)
            (Keeps-bind available-Takes (λ v. Keeps-bind check_timer-Takes (λ w.
              Keeps-bind (Takes-attempt first)
                (λ r. Keeps-bind (ask-Takes h.is_overtaken) (settle-Takes r)))))
            first)

-- A question to the host is always answered.
pub Meets-ask :
    {W A B : Type 0} {P : State W → Type 0} {R : Result Failure B → State W → Type 0}
    (g : W → A × W) {f : A → Exec W B}
    → IsSteady P
    → ((a : A) → Meets P R (f a))
    → Meets P R (ask g >>= f)
unfolding ask ◌>>=◌ after
Meets-ask g steady rest = record {
  met = λ s p.
      (rest (g s.world).0).met (record s { world = (g s.world).1 })
        (steady.on_world s (g s.world).1 p);
}

-- So is the question whether the execution may go on.
pub Takes-unavailable :
    {W O B : Type 0} {P Q : State W → Type 0} (h : Host W O) (c : Context) {f : Bool → Exec W B}
    → IsSteady P
    → ((b : Bool) → Takes P Q (f b))
    → Takes P Q (execution_unavailable h c >>= f)
unfolding execution_unavailable ask give ◌>>=◌ after
Takes-unavailable {W = W} {B = B} {P = P} {Q = Q} h c {f = f} steady rest = record {
  taken = λ s p.
      go (h.is_aborted s.world).0 (record s { world = (h.is_aborted s.world).1 })
        (steady.on_world s (h.is_aborted s.world).1 p);
}
  where
    go :
        (a : Bool) (s : State W)
        → P s
        → Q
            (after
              ((if a then give true else (ask h.now >>= λ t. give (is_late c.deadline t))) s)
              f).1
    go true s p = (rest true).taken s p
    go false s p =
        (rest (is_late c.deadline (h.now s.world).0)).taken (record s { world = (h.now s.world).1 })
          (steady.on_world s (h.now s.world).1 p)
