-- ===== src/Provider/Admission/Steps.antt =====
-- What a reservation that takes effect has gone through.
use tech_pulse_ai.Prelude.{
  Bool, false, if◌then◌else◌, true, ◌||◌, Bool, Option, Result, arith, err, ok, refl, some, true, ℕ,
  ◌≡◌,
}
use tech_pulse_ai.Provider.Admission.{
  Admission, Domain, Failure, Request, State, apply_provider_reservation, base_state, granted,
  rebased, refused, reserve_from, reserve_provider_call, same_domain, valid_request, window_ms,
}

pub base_state-some :
    (t : State) (d : Domain) (now : ℕ) (s : State)
    → base_state (some t) d now ≡ ok s
    → (width : ℕ) × (same_domain t d ≡ true)
      × (window_ms d.budget_window ≡ ok width)
      × (s ≡ rebased t d width now)
unfolding base_state
base_state-some t d now s e = ground arith

pub record Granted (stored : Option State) (q : Request) (s : State) : Type 0 where
  pub now : ℕ
  pub expiry : ℕ
  pub width : ℕ
  pub base : State
  pub reused : Bool
  pub at_now : q.now ≡ some now
  pub at_expiry : q.expires_at ≡ some expiry
  pub valid : valid_request q now expiry ≡ true
  pub width_of : window_ms q.domain.budget_window ≡ ok width
  pub base_of : base_state stored q.domain now ≡ ok base
  pub result : reserve_from base q width now expiry ≡ granted s reused

pub apply-Granted :
    (stored : Option State) (q : Request) (s : State) (reused : Bool)
    → apply_provider_reservation stored q ≡ ok (granted s reused)
    → Granted stored q s
unfolding apply_provider_reservation
apply-Granted stored q s reused e = ground arith

-- A transaction leaves the stored state as it was, or stores what was granted.
pub reserve_cases {ℓ} :
    (P : Option State → Type ℓ) (stored : Option State) (q : Request)
    → P stored
    → ((s : State) → Granted stored q s → P (some s))
    → P (reserve_provider_call stored q)
unfolding reserve_provider_call
reserve_cases P stored q kept stores = go (apply_provider_reservation stored q) refl
  where
    store : (s : State) (b : Bool) → P (some s) → P (if b then some s else stored)
    store s true h = h
    store s false h = kept

    go :
        (r : Result Failure Admission)
        → apply_provider_reservation stored q ≡ r
        → P (elim r [
          | ok (granted s reused) ↦ if reused || q.attempt_is_object_id then some s else stored
          | _ ↦ stored
        ])
    go (ok (granted s reused)) e =
        store s (reused || q.attempt_is_object_id) (stores s (apply-Granted stored q s reused e))
    go (ok (refused why after s)) e = kept
    go (err f) e = kept

pub apply-of_reserve_from :
    (stored : Option State) (q : Request) (base : State) (now expiry width : ℕ) (a : Admission)
    → q.now ≡ some now
    → q.expires_at ≡ some expiry
    → valid_request q now expiry ≡ true
    → base_state stored q.domain now ≡ ok base
    → window_ms q.domain.budget_window ≡ ok width
    → reserve_from base q width now expiry ≡ a
    → apply_provider_reservation stored q ≡ ok a
unfolding apply_provider_reservation
apply-of_reserve_from stored q base now expiry width a at until valid based width_of e =
    ground arith
