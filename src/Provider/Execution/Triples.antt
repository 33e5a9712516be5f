-- ===== src/Provider/Execution/Triples.antt =====
-- Code: the sequencing of the calls of server/ai/provider-admission.js and server/ai/provider-router.js.
-- Rules for what a sequence of host calls makes of a state, and for what it can return.
use mathlib.Core.Path.{subst}
use tech_pulse_ai.Prelude.{Bool, Result, ap, arith, err, false, if◌then◌else◌, ok, refl, true, ◌≡◌}
use tech_pulse_ai.Provider.Taxonomy.{Failure}
use tech_pulse_ai.Provider.Execution.{◌>>=◌, Exec, State, after, attempt, either, fail, give}

-- From a state with `P`, `m` ends in one with `Q` of its outcome, whether it returns or throws.
pub record Meets {W A : Type 0} (P : State W → Type 0) (Q : Result Failure A → State W → Type 0)
    (m : Exec W A) : Type 0 where
  pub met : (s : State W) → P s → Q (m s).0 (m s).1

pub record Takes {W A : Type 0} (P Q : State W → Type 0) (m : Exec W A) : Type 0 where
  pub taken : (s : State W) → P s → Q (m s).1

-- `Q` holds of what `m` returns.
pub record Returns {W A : Type 0} (Q : A → Type 0) (m : Exec W A) : Type 0 where
  pub returned : (s : State W) (a : A) → (m s).0 ≡ ok a → Q a

module _ {W A B : Type 0} where
  pub Meets-bind :
      {P : State W → Type 0} {Q : Result Failure A → State W → Type 0}
      {R : Result Failure B → State W → Type 0} {m : Exec W A} {f : A → Exec W B}
      → Meets P Q m
      → ((e : Failure) (s : State W) → Q (err e) s → R (err e) s)
      → ((a : A) → Meets (Q (ok a)) R (f a))
      → Meets P R (m >>= f)
  unfolding ◌>>=◌ after
  Meets-bind {Q = Q} {R = R} {m = m} {f = f} first thrown rest = record {
    met = λ s p. go (m s) (first.met s p);
  }
    where
      go : (r : Result Failure A × State W) → Q r.0 r.1 → R (after r f).0 (after r f).1
      go (ok a, t) q = (rest a).met t q
      go (err e, t) q = thrown e t q

  pub Takes-bind :
      {P Q R : State W → Type 0} {m : Exec W A} {f : A → Exec W B}
      → Takes P Q m
      → ((s : State W) → Q s → R s)
      → ((a : A) → Takes Q R (f a))
      → Takes P R (m >>= f)
  unfolding ◌>>=◌ after
  Takes-bind {Q = Q} {R = R} {m = m} {f = f} first weaken rest = record {
    taken = λ s p. go (m s) (first.taken s p);
  }
    where
      go : (r : Result Failure A × State W) → Q r.1 → R (after r f).1
      go (ok a, t) q = (rest a).taken t q
      go (err e, t) q = weaken t q

  pub Meets-take :
      {P Q : State W → Type 0} {R : Result Failure B → State W → Type 0} {m : Exec W A}
      {f : A → Exec W B}
      → Takes P Q m
      → ((e : Failure) (s : State W) → Q s → R (err e) s)
      → ((a : A) → Meets Q R (f a))
      → Meets P R (m >>= f)
  Meets-take {Q = Q} first thrown rest =
      Meets-bind {Q = λ r. Q} (record { met = λ s p. first.taken s p }) thrown rest

  pub Takes-meet :
      {P R : State W → Type 0} {Q : Result Failure A → State W → Type 0} {m : Exec W A}
      {f : A → Exec W B}
      → Meets P Q m
      → ((e : Failure) (s : State W) → Q (err e) s → R s)
      → ((a : A) → Takes (Q (ok a)) R (f a))
      → Takes P R (m >>= f)
  unfolding ◌>>=◌ after
  Takes-meet {R = R} {Q = Q} {m = m} {f = f} first thrown rest = record {
    taken = λ s p. go (m s) (first.met s p);
  }
    where
      go : (r : Result Failure A × State W) → Q r.0 r.1 → R (after r f).1
      go (ok a, t) q = (rest a).taken t q
      go (err e, t) q = thrown e t q

  -- A body under `try`, with what its outcome says of the state.
  pub Meets-try :
      {P : State W → Type 0} {Q : Result Failure A → State W → Type 0}
      {R : Result Failure B → State W → Type 0} {m : Exec W A} {f : Result Failure A → Exec W B}
      → Meets P Q m
      → ((r : Result Failure A) → Meets (Q r) R (f r))
      → Meets P R (attempt m >>= f)
  unfolding ◌>>=◌ after attempt
  Meets-try {m = m} first rest = record { met = λ s p. (rest (m s).0).met (m s).1 (first.met s p) }

  pub Takes-try :
      {P R : State W → Type 0} {Q : Result Failure A → State W → Type 0} {m : Exec W A}
      {f : Result Failure A → Exec W B}
      → Meets P Q m
      → ((r : Result Failure A) → Takes (Q r) R (f r))
      → Takes P R (attempt m >>= f)
  unfolding ◌>>=◌ after attempt
  Takes-try {m = m} first rest = record {
    taken = λ s p. (rest (m s).0).taken (m s).1 (first.met s p);
  }

  pub Keeps-bind :
      {P : State W → Type 0} {m : Exec W A} {f : A → Exec W B}
      → Takes P P m
      → ((a : A) → Takes P P (f a))
      → Takes P P (m >>= f)
  Keeps-bind first rest = Takes-bind first (λ s p. p) rest

  pub Returns-bind :
      {Q : B → Type 0} (m : Exec W A) {f : A → Exec W B}
      → ((a : A) → Returns Q (f a))
      → Returns Q (m >>= f)
  unfolding ◌>>=◌ after
  Returns-bind {Q = Q} m {f = f} rest = record { returned = λ s b e. go (m s) b e }
    where
      go : (r : Result Failure A × State W) → (b : B) → (after r f).0 ≡ ok b → Q b
      go (ok a, t) b w = (rest a).returned t b w
      go (err x, t) b w = ground arith

-- The same, with what the first step returns.
pub Returns-after :
    {W A B : Type 0} {Q : A → Type 0} {R : B → Type 0} {m : Exec W A} {f : A → Exec W B}
    → Returns Q m
    → ((a : A) → Q a → Returns R (f a))
    → Returns R (m >>= f)
unfolding ◌>>=◌ after
Returns-after {W = W} {A = A} {B = B} {R = R} {m = m} {f = f} first rest = record {
  returned = λ s b e. go s (m s) refl b e;
}
  where
    go :
        (s : State W) (r : Result Failure A × State W)
        → m s ≡ r
        → (b : B) → (after r f).0 ≡ ok b
        → R b
    go s (ok a, t) w b e =
        (rest a (first.returned s a (ap (λ (x : Result Failure A × State W). x.0) w))).returned t b
          e
    go s (err x, t) w b e = ground arith

pub Takes-after :
    {W A B : Type 0} {P Q R : State W → Type 0} {F : A → Type 0} {m : Exec W A} {f : A → Exec W B}
    → Takes P Q m
    → Returns F m
    → ((s : State W) → Q s → R s)
    → ((a : A) → F a → Takes Q R (f a))
    → Takes P R (m >>= f)
unfolding ◌>>=◌ after
Takes-after {W = W} {A = A} {Q = Q} {R = R} {m = m} {f = f} first known weaken rest = record {
  taken = λ s p. go s (m s) refl (first.taken s p);
}
  where
    go : (s : State W) (r : Result Failure A × State W) → m s ≡ r → Q r.1 → R (after r f).1
    go s (ok a, t) w q =
        (rest a (known.returned s a (ap (λ (x : Result Failure A × State W). x.0) w))).taken t q
    go s (err e, t) w q = weaken t q

ok_same : {A : Type 0} (a b : A) (r : Result Failure A) → r ≡ ok a → r ≡ ok b → a ≡ b
ok_same a b r e w = ground arith

module _ {W A : Type 0} where
  pub Takes-give : {P : State W → Type 0} (a : A) → Takes P P (give a)
  unfolding give
  Takes-give a = record { taken = λ s p. p }

  pub Takes-fail : {P : State W → Type 0} (e : Failure) → Takes {W = W} {A = A} P P (fail e)
  unfolding fail
  Takes-fail e = record { taken = λ s p. p }

  pub Takes-attempt : {P Q : State W → Type 0} {m : Exec W A} → Takes P Q m → Takes P Q (attempt m)
  unfolding attempt
  Takes-attempt t = record { taken = t.taken }

  pub Takes-if :
      {P Q : State W → Type 0} {m n : Exec W A} (b : Bool)
      → Takes P Q m
      → Takes P Q n
      → Takes P Q (if b then m else n)
  Takes-if true l r = l
  Takes-if false l r = r

  pub Meets-if :
      {P : State W → Type 0} {Q : Result Failure A → State W → Type 0} {m n : Exec W A} (b : Bool)
      → Meets P Q m
      → Meets P Q n
      → Meets P Q (if b then m else n)
  Meets-if true l r = l
  Meets-if false l r = r

  pub Meets-give :
      {P : State W → Type 0} {Q : Result Failure A → State W → Type 0} (a : A)
      → ((s : State W) → P s → Q (ok a) s)
      → Meets P Q (give a)
  unfolding give
  Meets-give a known = record { met = known }

  pub Meets-fail :
      {P : State W → Type 0} {Q : Result Failure A → State W → Type 0} (e : Failure)
      → ((s : State W) → P s → Q (err e) s)
      → Meets P Q (fail e)
  unfolding fail
  Meets-fail e known = record { met = known }

  pub Takes-test :
      {P Q : State W → Type 0} {m n : Exec W A} (b : Bool)
      → (b ≡ true → Takes P Q m)
      → Takes P Q n
      → Takes P Q (if b then m else n)
  Takes-test true l r = l refl
  Takes-test false l r = r

  pub Returns-if :
      {Q : A → Type 0} {m n : Exec W A} (b : Bool)
      → (b ≡ true → Returns Q m)
      → Returns Q n
      → Returns Q (if b then m else n)
  Returns-if true l r = l refl
  Returns-if false l r = r

  pub Returns-give : {Q : A → Type 0} (a : A) → Q a → Returns {W = W} Q (give a)
  unfolding give
  Returns-give {Q = Q} a q = record { returned = λ s b e. subst Q (ok_same a b (ok a) refl e) q }

  pub Returns-fail : {Q : A → Type 0} (e : Failure) → Returns {W = W} Q (fail e)
  unfolding fail
  Returns-fail x = record { returned = λ s b e. ground arith }

-- What a result that is handled returns.
pub Returns-either :
    {W A : Type 0} {Q : A → Type 0} {f : Failure → Exec W A} (r : Result Failure A)
    → ((e : Failure) → Returns Q (f e))
    → ((a : A) → r ≡ ok a → Q a)
    → Returns Q (either f give r)
unfolding either
Returns-either (ok a) fails known = Returns-give a (known a refl)
Returns-either (err e) fails known = fails e
