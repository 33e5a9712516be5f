-- ===== src/Provider/Router/Quiet.antt =====
-- Code: server/ai/provider-admission.js: its steps between the calls of a provider, which leave the number
-- and the routes of these calls as they are.
use tech_pulse_ai.Prelude.{
  Bool, Option, String, all, arith, false, if◌then◌else◌, js_length, keep, length, none, refl, some,
  suc, true, ℕ, ◌==◌, ◌||◌, ◌≡◌, ◌≤◌,
}
use tech_pulse_ai.Provider.Taxonomy.{
  DomainOutcome, Failure, adapter, cancellation_error, cancelled, foreign, is_local,
}
use tech_pulse_ai.Provider.Execution.{
  ◌>>=◌, Context, Event, Exec, Host, ReleaseOutcome, Reply, Route, State, admitted, after,
  get_attempts, get_held, invoked, Late, late_admission, note, put_late, release_asked,
  request_release, request_slot, reported, reserved, set_held,
}
use tech_pulse_ai.Provider.Execution.Steady.{
  IsSteady, ask-Takes, available-Takes, await-Takes, call-Takes, either-Takes, unavailable-Takes,
}
use tech_pulse_ai.Provider.Execution.Triples.{
  Takes, Keeps-bind, Takes-attempt, Takes-fail, Takes-give, Takes-if,
}
use tech_pulse_ai.Provider.Calls.{
  abandon_domain, admit_domain, admit_in, admit_provider_domain, admit_route, cancel_admission,
  cancel_domain, check_evidence, confirm_domain, give_back, give_up, release, report,
  report_provider_domain, report_to, request_domain,
}
use tech_pulse_ai.Provider.Registry.{
  Call, Registry, domain_answer, evidence_expired, failure_domain, get_route, is_expired, needs_zdr,
  refused, release_code, release_outcome, thrown, without_domain,
}

-- The calls of a provider in a trace, and what their routes satisfy.
unfoldable pub is_invoked : Event → Bool
is_invoked (invoked r) = true
is_invoked _ = false

unfoldable pub satisfies : (Route → Bool) → Event → Bool
satisfies p (invoked r) = p r
satisfies p _ = true

unfoldable pub invocations : {W : Type 0} → State W → ℕ
unfolding is_invoked
invocations s = length (keep is_invoked s.trace)

unfoldable pub all_satisfy : {W : Type 0} → (Route → Bool) → State W → Bool
unfolding satisfies
all_satisfy p s = all (satisfies p) s.trace

-- At most `k` calls, all counted and all on routes that satisfy `p`.
pub record Within {W : Type 0} (p : Route → Bool) (k : ℕ) (s : State W) : Type 0 where
  pub bounded : s.external_attempts ≤ k
  pub counted : invocations s ≡ s.external_attempts
  pub fit : all_satisfy p s ≡ true

-- Events that are not calls of a provider.
pub is_other : Event → Bool
is_other (invoked r) = false
is_other _ = true

module _ {W : Type 0} {p : Route → Bool} {k : ℕ} where
  pub Within-IsSteady : IsSteady {W = W} (Within p k)
  unfolding invocations all_satisfy
  Within-IsSteady = record {
    on_world = λ s w x. record { bounded = x.bounded; counted = x.counted; fit = x.fit };
  }

  pub note-Takes :
      (e : Event) → is_other e ≡ true → Takes (Within p k) (Within p k) (note {W = W} e)
  unfolding note invocations all_satisfy is_other satisfies is_invoked
  note-Takes e o = record {
    taken = λ s x. record {
      bounded = x.bounded;
      counted = ground (arith, x.counted);
      fit = ground (arith, x.fit);
    };
  }

  pub set_held-Takes : (b : Bool) → Takes (Within p k) (Within p k) (set_held {W = W} b)
  unfolding set_held invocations all_satisfy
  set_held-Takes b = record {
    taken = λ s x. record { bounded = x.bounded; counted = x.counted; fit = x.fit };
  }

  pub put_late-Takes : (l : Late) → Takes (Within p k) (Within p k) (put_late {W = W} l)
  unfolding put_late invocations all_satisfy
  put_late-Takes l = record {
    taken = λ s x. record { bounded = x.bounded; counted = x.counted; fit = x.fit };
  }

  pub get_held-Takes : Takes (Within p k) (Within p k) (get_held {W = W})
  unfolding get_held
  get_held-Takes = record { taken = λ s x. x }

  pub get_attempts-Takes : Takes (Within p k) (Within p k) (get_attempts {W = W})
  unfolding get_attempts
  get_attempts-Takes = record { taken = λ s x. x }

  pub weaken : (s : State W) → Within p k s → Within p (suc k) s
  weaken s x = record { bounded = omega (arith, x.bounded); counted = x.counted; fit = x.fit }

pub Within-le :
    {W : Type 0} {p : Route → Bool} (j k : ℕ) (s : State W) → j ≤ k → Within p j s → Within p k s
Within-le j k s l x = record {
  bounded = omega (arith, x.bounded);
  counted = x.counted;
  fit = x.fit;
}

pub Within-exact :
    {W : Type 0} {p : Route → Bool} {j : ℕ} (k : ℕ) (s : State W)
    → s.external_attempts ≡ k
    → Within p j s
    → Within p k s
Within-exact k s e x = record { bounded = omega (arith, e); counted = x.counted; fit = x.fit }

-- Reading the number of calls, with what was read.
pub Takes-count :
    {W A : Type 0} {P Q : State W → Type 0} {f : ℕ → Exec W A}
    → ((k : ℕ) → Takes (λ (s : State W). P s × (s.external_attempts ≡ k)) Q (f k))
    → Takes P Q (get_attempts >>= f)
unfolding get_attempts ◌>>=◌ after
Takes-count rest = record { taken = λ s x. (rest s.external_attempts).taken s (x, refl) }

pub Takes-first :
    {W A : Type 0} {P R Q : State W → Type 0} {m : Exec W A}
    → Takes P Q m
    → Takes (λ (s : State W). P s × R s) Q m
Takes-first t = record { taken = λ s x. t.taken s x.0 }

pub Takes-weak :
    {W A : Type 0} {p : Route → Bool} {k : ℕ} {m : Exec W A}
    → Takes (Within p k) (Within p k) m
    → Takes (Within p k) (Within p (suc k)) m
Takes-weak {m = m} t = record { taken = λ s x. weaken (m s).1 (t.taken s x) }

abbrev pub Keeps : {W A : Type 0} → (Route → Bool) → ℕ → Exec W A → Type 0
Keeps p k m = Takes (Within p k) (Within p k) m

module _ {W O : Type 0} (h : Host W O) (g : Registry) {p : Route → Bool} {k : ℕ} where
  report-Takes : (d id : String) (o : DomainOutcome) → Keeps p k (report h g d id o)
  unfolding report is_other
  report-Takes d id o = Keeps-bind (note-Takes (reported id o) refl) (λ u.
      Keeps-bind (ask-Takes Within-IsSteady h.now)
        (λ t. call-Takes Within-IsSteady (h.report_domain d id o t)))

  report_to-Takes : (d id : Option String) (o : DomainOutcome) → Keeps p k (report_to h g d id o)
  unfolding report_to
  report_to-Takes none id o = Takes-give tt
  report_to-Takes (some d) none o = Takes-fail (foreign none false)
  report_to-Takes (some d) (some i) o =
      Takes-if (js_length i == 0) (Takes-fail (foreign none false)) (report-Takes d i o)

  pub report_provider_domain-Takes :
      (route_id : String) (id : Option String) (o : DomainOutcome)
      → Keeps p k (report_provider_domain h g route_id id o)
  unfolding report_provider_domain
  report_provider_domain-Takes route_id id o =
      report_to-Takes (failure_domain g (get_route g route_id)) id o

  request_domain-Takes : (d id : String) → Keeps p k (request_domain h g d id)
  unfolding request_domain is_other
  request_domain-Takes d id = Keeps-bind (ask-Takes Within-IsSteady h.now) (λ t.
      Keeps-bind (call-Takes Within-IsSteady (h.admit_domain d id t)) (λ r.
        Keeps-bind (Takes-if r.allowed (note-Takes (admitted id) refl) (Takes-give tt))
          (λ u. Takes-give r)))

  cancel_domain-Takes : (d id : String) (r : Reply) → Keeps p k (cancel_domain h g d id r)
  unfolding cancel_domain
  cancel_domain-Takes d id r = Takes-if r.allowed (report-Takes d id cancelled) (Takes-give tt)

  cancel_admission-Takes :
      (d id : String) (r : Option Reply) → Keeps p k (cancel_admission h g d id r)
  unfolding cancel_admission
  cancel_admission-Takes d id none =
      Keeps-bind (Takes-attempt (Takes-give tt)) (λ u. Takes-fail (adapter cancellation_error))
  cancel_admission-Takes d id (some x) =
      Keeps-bind (Takes-attempt (cancel_domain-Takes d id x))
        (λ u. Takes-fail (adapter cancellation_error))

  module _ (c : Context) where
    abandon_domain-Takes :
        (d id : String) (r : Option Reply) (e : Failure) → Keeps p k (abandon_domain h g c d id r e)
    unfolding abandon_domain
    abandon_domain-Takes d id r e =
        Keeps-bind (unavailable-Takes Within-IsSteady h c)
          (λ b. Takes-if b (cancel_admission-Takes d id r) (Takes-fail e))

    confirm_domain-Takes : (d id : String) (r : Reply) → Keeps p k (confirm_domain h g c d id r)
    unfolding confirm_domain
    confirm_domain-Takes d id r =
        Keeps-bind (Takes-attempt (available-Takes Within-IsSteady h c))
          (either-Takes Within-IsSteady (abandon_domain-Takes d id (some r)) (λ u. Takes-give r))

    admit_domain-Takes : (d : String) → Keeps p k (admit_domain h g c d)
    unfolding admit_domain
    admit_domain-Takes d = Keeps-bind (ask-Takes Within-IsSteady h.fresh_id) (λ id.
        Keeps-bind
          (Takes-attempt (
            await-Takes Within-IsSteady h c (late_admission d id) (request_domain-Takes d id)
              (λ r. put_late-Takes (late_admission d id r))))
          (λ x.
            Keeps-bind
              (either-Takes Within-IsSteady (abandon_domain-Takes d id none)
                (confirm_domain-Takes d id) x)
              (λ r. Takes-give (domain_answer id r))))

    admit_in-Takes : (a : String) (d : Option String) → Keeps p k (admit_in h g c a d)
    unfolding admit_in
    admit_in-Takes a none = Takes-give (without_domain g)
    admit_in-Takes a (some d) =
        Takes-if (js_length a == 0) (Takes-give (refused none)) (admit_domain-Takes d)

    admit_route-Takes : (a : String) (r : Option Route) → Keeps p k (admit_route h g c a r)
    unfolding admit_route
    admit_route-Takes a none = Takes-give (refused none)
    admit_route-Takes a (some r) = admit_in-Takes a (failure_domain g (some r))

    pub admit_provider_domain-Takes : (id a : String) → Keeps p k (admit_provider_domain h g c id a)
    unfolding admit_provider_domain
    admit_provider_domain-Takes id a =
        Keeps-bind (available-Takes Within-IsSteady h c) (λ u. admit_route-Takes a (get_route g id))

    pub give_back-Takes :
        (id : String) (o : ReleaseOutcome) (x : Option String) → Keeps p k (give_back h g id o x)
    unfolding give_back request_release is_other
    give_back-Takes id o x = Keeps-bind (set_held-Takes false) (λ u.
        Keeps-bind (ask-Takes Within-IsSteady h.now) (λ t.
          Keeps-bind (note-Takes (release_asked id o) refl)
            (λ v. call-Takes Within-IsSteady (h.release id o x t))))

    pub release-Takes :
        (id : String) (o : ReleaseOutcome) (x : Option String) → Keeps p k (release h g id o x)
    unfolding release
    release-Takes id o x =
        Keeps-bind get_held-Takes (λ b. Takes-if b (give_back-Takes id o x) (Takes-give tt))

    pub request_slot-Takes :
        (r : Route) (id : String) (t : Option ℕ) → Keeps p k (request_slot h r id t)
    unfolding request_slot is_other
    request_slot-Takes r id t = Keeps-bind (call-Takes Within-IsSteady (h.reserve r id t)) (λ x.
        Keeps-bind (Takes-if x.allowed (note-Takes (reserved id) refl) (Takes-give tt))
          (λ u. Takes-give x))

    pub check_evidence-Takes : (q : Call) (r : Route) → Keeps p k (check_evidence h g q r)
    unfolding check_evidence
    check_evidence-Takes q r =
        Takes-if (needs_zdr q.capability)
          (Keeps-bind (ask-Takes Within-IsSteady h.now) (λ t.
            Takes-if (is_expired r.evidence_expires_at t) (Takes-fail evidence_expired)
              (Takes-give tt)))
          (Takes-give tt)

    pub give_up-Takes : (id : String) (e : Failure) → Keeps p k (give_up h g c id e)
    unfolding give_up
    give_up-Takes id e = Keeps-bind (unavailable-Takes Within-IsSteady h c) (λ b.
        Keeps-bind
          (Takes-attempt
            (release-Takes id (release_outcome (b || is_local e) e) (some (release_code b e))))
          (λ u.
            Takes-fail
              (if b then adapter cancellation_error else (if is_local e then e else thrown e))))
