-- ===== src/Provider/FailureDomain/Closed.antt =====
-- Code: server/repositories/mongo/provider-failure-domain-repository.js: which outcomes open a domain.
use tech_pulse_ai.Prelude.{
  Bool, List, Option, String, [], arith, err, false, none, ok, refl, some, true, ℕ, ◌∷◌, ◌≡◌,
}
use tech_pulse_ai.Provider.FailureDomain.{
  Admission, Checked, Domain, Outcome, Report, State, admit, admit_provider_call, apply_admission,
  apply_outcome, base_state, closed, expire_probe, initial_state, provider_retryable_failure,
  record_provider_call_outcome, report, settle, state_of,
}
use tech_pulse_ai.Provider.FailureDomain.Consistent.{
  Call, admits, apply_admission-parts, apply_outcome-parts, reports, run,
}

unfoldable pub is_provider_failure : Outcome → Bool
is_provider_failure provider_retryable_failure = true
is_provider_failure _ = false

-- No call reports a provider-retryable failure.
abbrev pub NoProviderFailure : List Call → Type 0
NoProviderFailure [] = Unit
NoProviderFailure (admits d id time ∷ cs) = NoProviderFailure cs
NoProviderFailure (reports d id o time ∷ cs) =
    (is_provider_failure o ≡ false) × NoProviderFailure cs

-- A domain that nobody has called yet is closed.
abbrev pub IsClosed : Option State → Type 0
IsClosed none = Unit
IsClosed (some s) = s.state ≡ closed

base_state_closed :
    (stored : Option State) (d : Domain) (now : ℕ) (s : State)
    → IsClosed stored
    → base_state stored d now ≡ ok s
    → s.state ≡ closed
unfolding base_state initial_state
base_state_closed none d now s h e = ground arith
base_state_closed (some t) d now s h e = ground arith

admit_closed :
    (s : State) (d : Domain) (id : String) (now : ℕ) (a : Admission)
    → s.state ≡ closed
    → admit (expire_probe s d now) d id now ≡ ok a
    → (state_of a).state ≡ closed
unfolding admit expire_probe state_of
admit_closed s d id now a h e = ground arith

report_closed :
    (s : State) (d : Domain) (id : String) (o : Outcome) (now : ℕ)
    → s.state ≡ closed
    → is_provider_failure o ≡ false
    → (report s d id o now).state.state ≡ closed
unfolding report settle is_provider_failure
report_closed s d id o now h n = ground arith

admit_provider_call-IsClosed :
    (stored : Option State) (d : Domain) (id : String) (time : Option ℕ)
    → IsClosed stored
    → IsClosed (admit_provider_call stored d id time)
unfolding admit_provider_call
admit_provider_call-IsClosed stored d id time h = go (apply_admission stored d id time) refl
  where
    go :
        (r : Checked Admission)
        → apply_admission stored d id time ≡ r
        → IsClosed (elim r [ ok a ↦ some (state_of a) | err e ↦ stored ])
    go (err f) e = h
    go (ok a) e =
        let (now, s, _, base, result) = apply_admission-parts stored d id time a e in
        admit_closed s d id now a (base_state_closed stored d now s h base) result

record_outcome-IsClosed :
    (stored : Option State) (d : Domain) (id : String) (o : Outcome) (time : Option ℕ)
    → is_provider_failure o ≡ false
    → IsClosed stored
    → IsClosed (record_provider_call_outcome stored d id o time)
unfolding record_provider_call_outcome
record_outcome-IsClosed stored d id o time n h = go (apply_outcome stored d id o time) refl
  where
    go :
        (r : Checked Report)
        → apply_outcome stored d id o time ≡ r
        → IsClosed (elim r [ ok a ↦ some a.state | err e ↦ stored ])
    go (err f) e = h
    go (ok a) e =
        let (now, s, _, base, result) = apply_outcome-parts stored d id o time a e in
        ground
          (arith, result, report_closed s d id o now (base_state_closed stored d now s h base) n)

-- Only provider-retryable failures open a domain: from a closed state, or from none, any sequence of
-- admissions and of reports of other outcomes, valid or not, leaves the domain closed.
pub run-IsClosed :
    (stored : Option State) (cs : List Call)
    → NoProviderFailure cs
    → IsClosed stored
    → IsClosed (run stored cs)
unfolding run
run-IsClosed stored [] n h = h
run-IsClosed stored (admits d id time ∷ cs) n h =
    run-IsClosed (admit_provider_call stored d id time) cs n
      (admit_provider_call-IsClosed stored d id time h)
run-IsClosed stored (reports d id o time ∷ cs) (n, ns) h =
    run-IsClosed (record_provider_call_outcome stored d id o time) cs ns
      (record_outcome-IsClosed stored d id o time n h)
