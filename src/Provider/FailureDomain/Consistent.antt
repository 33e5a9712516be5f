-- ===== src/Provider/FailureDomain/Consistent.antt =====
-- Code: server/repositories/mongo/provider-failure-domain-repository.js: the invariant of the state.
use tech_pulse_ai.Prelude.{
  Bool, List, Option, String, [], arith, err, false, is_some, leb, none, not, ok, refl, some, true,
  ℕ, ◌&&◌, ◌+◌, ◌==◌, ◌∷◌, ◌≡◌,
}
use tech_pulse_ai.Provider.FailureDomain.{
  Admission, Checked, Domain, Outcome, Report, State, admit, admit_provider_call, apply_admission,
  apply_outcome, base_state, closed, expire_probe, half_open, initial_state, open_phase,
  record_provider_call_outcome, report, settle, start_probe, state_of, unknown, valid_domain,
}

-- The fields that `validateDomain` fixes.
abbrev pub HasLimits : Domain → Type 0
HasLimits d = (d.failure_threshold ≡ 3) × (d.cooldown_seconds ≡ 60)

unfoldable pub is_consistent : State → Bool
is_consistent s = elim s.state [
  | closed ↦
      leb s.consecutive_retryable_failures 2
      && not (is_some s.cooldown_until)
      && not (is_some s.half_open_probe)
  | open_phase ↦
      s.consecutive_retryable_failures == 3
      && not (is_some s.half_open_probe)
      && elim s.cooldown_until [ none ↦ false | some t ↦ t == s.updated_at + 60000 ]
  | half_open ↦ s.consecutive_retryable_failures == 3 && not (is_some s.cooldown_until)
  | unknown ↦ false
]

abbrev pub IsConsistent : Option State → Type 0
IsConsistent none = Unit
IsConsistent (some s) = is_consistent s ≡ true

abbrev AfterAdmission : Checked Admission → Type 0
AfterAdmission (ok a) = is_consistent (state_of a) ≡ true
AfterAdmission (err e) = Unit

pub valid_domain-HasLimits : (d : Domain) → valid_domain d ≡ true → HasLimits d
unfolding valid_domain
valid_domain-HasLimits d h = ground arith

base_state_consistent :
    (stored : Option State) (d : Domain) (now : ℕ) (s : State)
    → IsConsistent stored
    → base_state stored d now ≡ ok s
    → HasLimits d × (is_consistent s ≡ true)
unfolding base_state initial_state is_consistent
base_state_consistent none d now s h e = ground (arith, valid_domain-HasLimits d)
base_state_consistent (some t) d now s h e = ground (arith, valid_domain-HasLimits d)

expire_probe_consistent :
    (s : State) (d : Domain) (now : ℕ)
    → is_consistent s ≡ true
    → is_consistent (expire_probe s d now) ≡ true
unfolding expire_probe is_consistent
expire_probe_consistent s d now h = ground arith

admit_consistent :
    (s : State) (d : Domain) (id : String) (now : ℕ)
    → is_consistent s ≡ true
    → AfterAdmission (admit s d id now)
unfolding admit state_of is_consistent start_probe
admit_consistent s d id now h = ground arith

report_consistent :
    (s : State) (d : Domain) (id : String) (o : Outcome) (now : ℕ)
    → HasLimits d
    → is_consistent s ≡ true
    → is_consistent (report s d id o now).state ≡ true
unfolding report settle is_consistent
report_consistent s d id o now l h = ground arith

pub apply_admission-parts :
    (stored : Option State) (d : Domain) (id : String) (time : Option ℕ) (a : Admission)
    → apply_admission stored d id time ≡ ok a
    → (now : ℕ) × (current : State) × (time ≡ some now)
      × (base_state stored d now ≡ ok current)
      × (admit (expire_probe current d now) d id now ≡ ok a)
unfolding apply_admission
apply_admission-parts stored d id time a e = ground arith

pub apply_outcome-parts :
    (stored : Option State) (d : Domain) (id : String) (o : Outcome) (time : Option ℕ) (r : Report)
    → apply_outcome stored d id o time ≡ ok r
    → (now : ℕ) × (current : State) × (time ≡ some now)
      × (base_state stored d now ≡ ok current)
      × (report current d id o now ≡ r)
unfolding apply_outcome
apply_outcome-parts stored d id o time r e = ground arith

admit_provider_call-IsConsistent :
    (stored : Option State) (d : Domain) (id : String) (time : Option ℕ)
    → IsConsistent stored
    → IsConsistent (admit_provider_call stored d id time)
unfolding admit_provider_call
admit_provider_call-IsConsistent stored d id time h = go (apply_admission stored d id time) refl
  where
    go :
        (r : Checked Admission)
        → apply_admission stored d id time ≡ r
        → IsConsistent (elim r [ ok a ↦ some (state_of a) | err e ↦ stored ])
    go (err f) e = h
    go (ok a) e =
        let (now, s, _, base, result) = apply_admission-parts stored d id time a e in
        let (_, c) = base_state_consistent stored d now s h base in
        ground (
          arith,
          result,
          admit_consistent (expire_probe s d now) d id now (expire_probe_consistent s d now c),
        )

record_provider_call_outcome-IsConsistent :
    (stored : Option State) (d : Domain) (id : String) (o : Outcome) (time : Option ℕ)
    → IsConsistent stored
    → IsConsistent (record_provider_call_outcome stored d id o time)
unfolding record_provider_call_outcome
record_provider_call_outcome-IsConsistent stored d id o time h =
    go (apply_outcome stored d id o time) refl
  where
    go :
        (r : Checked Report)
        → apply_outcome stored d id o time ≡ r
        → IsConsistent (elim r [ ok a ↦ some a.state | err e ↦ stored ])
    go (err f) e = h
    go (ok a) e =
        let (now, s, _, base, result) = apply_outcome-parts stored d id o time a e in
        let (l, c) = base_state_consistent stored d now s h base in
        ground (arith, result, report_consistent s d id o now l c)

-- The calls that the repository receives, in the order of their transactions.
pub data Call : Type 0 where
  admits : Domain → String → Option ℕ → Call
  reports : Domain → String → Outcome → Option ℕ → Call

unfoldable pub run : Option State → List Call → Option State
run stored [] = stored
run stored (admits d id time ∷ cs) = run (admit_provider_call stored d id time) cs
run stored (reports d id o time ∷ cs) = run (record_provider_call_outcome stored d id o time) cs

-- Whatever calls arrive, valid or not, a domain that starts consistent, as without a stored state, stays
-- consistent: closed with at most two failures counted and neither cooldown nor probe; open with
-- exactly three, no probe and a cooldown of a minute from its last change; or half-open with
-- exactly three and no cooldown.
pub run-IsConsistent :
    (stored : Option State) (cs : List Call) → IsConsistent stored → IsConsistent (run stored cs)
unfolding run
run-IsConsistent stored [] h = h
run-IsConsistent stored (admits d id time ∷ cs) h =
    run-IsConsistent (admit_provider_call stored d id time) cs
      (admit_provider_call-IsConsistent stored d id time h)
run-IsConsistent stored (reports d id o time ∷ cs) h =
    run-IsConsistent (record_provider_call_outcome stored d id o time) cs
      (record_provider_call_outcome-IsConsistent stored d id o time h)
