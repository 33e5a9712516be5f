-- ===== src/Provider/FailureDomain/Probe.antt =====
-- Code: server/repositories/mongo/provider-failure-domain-repository.js: who may call while a
-- provider is failing.
use tech_pulse_ai.Prelude.{
  Bool, List, Option, String, [], refl, ◌∷◌, arith, err, false, none, ok, some, str_eq, true, ℕ,
  ◌+◌, ◌<◌, ◌≡◌, ◌≤◌,
}
use tech_pulse_ai.Provider.FailureDomain.{
  Admission, Checked, Domain, Outcome, Report, State, admit, admit_provider_call, apply_outcome,
  record_provider_call_outcome, state_of, allowed, apply_admission, base_state, closed,
  expire_probe, half_open, is_stale, open_phase, provider_retryable_failure, refused, report,
  settle, valid_domain, valid_reservation_id,
}
use tech_pulse_ai.Provider.FailureDomain.Consistent.{
  Call, admits, reports, apply_admission-parts, apply_outcome-parts, HasLimits, IsConsistent,
  is_consistent, run, run-IsConsistent, valid_domain-HasLimits,
}

abbrev pub is_allowed : Checked Admission → Bool
is_allowed (ok (allowed probe reused s)) = true
is_allowed (ok (refused retry_after s)) = false
is_allowed (err e) = false

expired-is_allowed :
    (s : State) (d : Domain) (id : String) (now : ℕ)
    → HasLimits d
    → is_consistent s ≡ true
    → s.updated_at + 60000 ≤ now
    → is_allowed (admit (expire_probe s d now) d id now) ≡ true
unfolding is_consistent expire_probe admit
expired-is_allowed s d id now l h late = ground arith

-- After any calls from an empty store: a call whose reservation id is valid, for a valid domain with the
-- id and the configuration version that are stored, is let through once a minute has passed since
-- the last change of the state, also where the domain is open, and where its probe was never heard
-- of again.
pub domain_recovers :
    (cs : List Call) (s : State) (d : Domain) (id : String) (now : ℕ)
    → run none cs ≡ some s
    → valid_domain d ≡ true
    → is_stale s d ≡ false
    → valid_reservation_id id ≡ true
    → s.updated_at + 60000 ≤ now
    → is_allowed (apply_admission (some s) d id (some now)) ≡ true
unfolding apply_admission base_state
domain_recovers cs s d id now ran valid current valid_id late =
    let c : IsConsistent (some s) = rw ran at (run-IsConsistent none cs tt) in
    rw (valid, current, valid_id)
      (expired-is_allowed s d id now (valid_domain-HasLimits d valid) c late)

-- A call by another than `p`, before `until` where it is an admission at a valid time.
abbrev pub IsOther : String → ℕ → Call → Type 0
IsOther p until (admits d id (some now)) = (str_eq p id ≡ false) × (now < until)
IsOther p until (admits d id none) = Unit
IsOther p until (reports d id o time) = str_eq p id ≡ false

abbrev pub AllOthers : String → ℕ → List Call → Type 0
AllOthers p until [] = Unit
AllOthers p until (c ∷ cs) = IsOther p until c × AllOthers p until cs

module _ (s : State) (p : String) (half : s.state ≡ half_open)
    (probes : s.half_open_probe ≡ some p) where
  base_state-same :
      (d : Domain) (now : ℕ) (t : State) → base_state (some s) d now ≡ ok t → (t ≡ s) × HasLimits d
  unfolding base_state
  base_state-same d now t e = ground (arith, valid_domain-HasLimits d)

  admit_other :
      (d : Domain) (id : String) (now : ℕ)
      → HasLimits d
      → str_eq p id ≡ false
      → now < s.updated_at + 60000
      → admit (expire_probe s d now) d id now ≡ ok (refused 60 s)
  unfolding admit expire_probe
  admit_other d id now l differs early = ground (arith, half, probes)

  apply_admission_other :
      (d : Domain) (id : String) (now : ℕ) (a : Admission)
      → str_eq p id ≡ false
      → now < s.updated_at + 60000
      → apply_admission (some s) d id (some now) ≡ ok a
      → a ≡ refused 60 s
  apply_admission_other d id now a differs early e =
      let (time, t, at_time, base, result) = apply_admission-parts (some s) d id (some now) a e in
      let (same, l) = base_state-same d time t base in
      ground (arith, at_time, same, result, admit_other d id now l differs early)

  other_refused :
      (d : Domain) (id : String) (now : ℕ)
      → str_eq p id ≡ false
      → now < s.updated_at + 60000
      → is_allowed (apply_admission (some s) d id (some now)) ≡ false
  other_refused d id now differs early = go (apply_admission (some s) d id (some now)) refl
    where
      go :
          (r : Checked Admission)
          → apply_admission (some s) d id (some now) ≡ r
          → is_allowed r ≡ false
      go (err f) e = refl
      go (ok a) e = rw (apply_admission_other d id now a differs early e) refl

  admit_provider_call_other :
      (d : Domain) (id : String) (time : Option ℕ)
      → IsOther p (s.updated_at + 60000) (admits d id time)
      → admit_provider_call (some s) d id time ≡ some s
  unfolding admit_provider_call state_of
  admit_provider_call_other d id none h = go (apply_admission (some s) d id none) refl
    where
      go :
          (r : Checked Admission)
          → apply_admission (some s) d id none ≡ r
          → elim r [ ok a ↦ some (state_of a) | err e ↦ some s ] ≡ some s
      go (err f) e = refl
      go (ok a) e =
          let (_, _, lacks, _, _) = apply_admission-parts (some s) d id none a e in
          ground (arith, lacks)
  admit_provider_call_other d id (some now) (differs, early) =
      go (apply_admission (some s) d id (some now)) refl
    where
      go :
          (r : Checked Admission)
          → apply_admission (some s) d id (some now) ≡ r
          → elim r [ ok a ↦ some (state_of a) | err e ↦ some s ] ≡ some s
      go (err f) e = refl
      go (ok a) e = rw (apply_admission_other d id now a differs early e) refl

  report_other :
      (d : Domain) (id : String) (o : Outcome) (now : ℕ)
      → str_eq p id ≡ false
      → (report s d id o now).state ≡ s
  unfolding report
  report_other d id o now differs = ground (arith, half, probes)

  record_outcome_other :
      (d : Domain) (id : String) (o : Outcome) (time : Option ℕ)
      → str_eq p id ≡ false
      → record_provider_call_outcome (some s) d id o time ≡ some s
  unfolding record_provider_call_outcome
  record_outcome_other d id o time differs = go (apply_outcome (some s) d id o time) refl
    where
      go :
          (r : Checked Report)
          → apply_outcome (some s) d id o time ≡ r
          → elim r [ ok a ↦ some a.state | err e ↦ some s ] ≡ some s
      go (err f) e = refl
      go (ok a) e =
          let (now, t, _, base, result) = apply_outcome-parts (some s) d id o time a e in
          let (same, _) = base_state-same d now t base in
          ground (arith, same, result, report_other d id o now differs)

  run_others : (cs : List Call) → AllOthers p (s.updated_at + 60000) cs → run (some s) cs ≡ some s
  unfolding run
  run_others [] h = refl
  run_others (admits d id time ∷ cs) (h, hs) =
      rw (admit_provider_call_other d id time h) (run_others cs hs)
  run_others (reports d id o time ∷ cs) (h, hs) =
      rw (record_outcome_other d id o time h) (run_others cs hs)

-- A probe shuts out everybody else for a minute: after any sequence of calls by other reservations,
-- with their admissions within a minute of the last change, and whatever outcomes they report for
-- whatever domain, the half-open state is exactly the same, with the same probe, and one more call
-- within that minute is not let through.
pub probe_excludes :
    (s : State) (p : String) (cs : List Call) (d : Domain) (id : String) (now : ℕ)
    → s.state ≡ half_open
    → s.half_open_probe ≡ some p
    → AllOthers p (s.updated_at + 60000) cs
    → str_eq p id ≡ false
    → now < s.updated_at + 60000
    → (run (some s) cs ≡ some s)
      × (is_allowed (apply_admission (run (some s) cs) d id (some now)) ≡ false)
probe_excludes s p cs d id now half probes others differs early =
    let same = run_others s p half probes cs others in
    (same, rw same (other_refused s p half probes d id now differs early))

-- For a domain with a threshold of three and a cooldown of a minute: three provider-retryable failures
-- in a row, reported from a closed state on and by any reservations, leave the state open, with a
-- cooldown until a minute after the third report.
pub third_failure_opens :
    (s : State) (d : Domain) (a b c : String) (t u v : ℕ)
    → HasLimits d
    → s.state ≡ closed
    → let s1 = (report s d a provider_retryable_failure t).state in
      let s2 = (report s1 d b provider_retryable_failure u).state in
      let s3 = (report s2 d c provider_retryable_failure v).state in
      (s3.state ≡ open_phase) × (s3.cooldown_until ≡ some (v + 60000))
unfolding report settle
third_failure_opens s d a b c t u v l shut = ground arith
