-- ===== src/Provider/Admission/Circuits.antt =====
-- The list of circuits as a map from routes.
use tech_pulse_ai.Prelude.{
  List, String, [], arith, eq_iff, if◌then◌else◌, map, refl, str_eq, ℕ, ◌∷◌, ◌≡◌,
}
use tech_pulse_ai.Provider.Admission.{
  Circuit, Domain, Reservation, State, circuit_for, live_reservations, new_circuit, prune_circuit,
  rebased, store_circuit,
}

pub circuit_for-route : (cs : List Circuit) (r : String) → (circuit_for cs r).route_id ≡ r
unfolding circuit_for
circuit_for-route [] r = refl
circuit_for-route (c ∷ cs) r = ground (arith, eq_iff c.route_id r, circuit_for-route cs r)

pub circuit_for-store :
    (cs : List Circuit) (r j : String) (x : Circuit)
    → x.route_id ≡ r
    → circuit_for (store_circuit cs r x) j ≡ (if str_eq r j then x else circuit_for cs j)
unfolding circuit_for store_circuit
circuit_for-store [] r j x e = ground (arith, eq_iff r j, eq_iff x.route_id j)
circuit_for-store (c ∷ cs) r j x e = ground (
  arith,
  eq_iff c.route_id r,
  eq_iff r j,
  eq_iff c.route_id j,
  eq_iff x.route_id j,
  circuit_for-store cs r j x e,
)

prune_circuit-route :
    (rs : List Reservation) (c : Circuit) → (prune_circuit rs c).route_id ≡ c.route_id
unfolding prune_circuit
prune_circuit-route rs c = ground arith

prune_circuit-new :
    (rs : List Reservation) (r : String) → prune_circuit rs (new_circuit r) ≡ new_circuit r
unfolding prune_circuit new_circuit
prune_circuit-new rs r = refl

pub circuit_for-prune :
    (rs : List Reservation) (cs : List Circuit) (r : String)
    → circuit_for (map (prune_circuit rs) cs) r ≡ prune_circuit rs (circuit_for cs r)
unfolding circuit_for
circuit_for-prune rs [] r = ground (arith, prune_circuit-new rs r)
circuit_for-prune rs (c ∷ cs) r =
    ground (arith, prune_circuit-route rs c, circuit_for-prune rs cs r)

pub rebased-circuit :
    (s : State) (d : Domain) (width now : ℕ) (r : String)
    → circuit_for (rebased s d width now).route_circuits r
      ≡ prune_circuit (live_reservations now s.active_reservations) (circuit_for s.route_circuits r)
unfolding rebased
rebased-circuit s d width now r =
    circuit_for-prune (live_reservations now s.active_reservations) s.route_circuits r

pub rebased-active :
    (s : State) (d : Domain) (width now : ℕ)
    → (rebased s d width now).active_reservations ≡ live_reservations now s.active_reservations
unfolding rebased
rebased-active s d width now = refl
