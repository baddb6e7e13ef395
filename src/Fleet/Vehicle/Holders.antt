-- ===== src/Fleet/Vehicle/Holders.antt =====
-- Who holds which vehicle: the active assignments of vehicle-command.service.ts.
use multi_tenant_shipping_ma.Shared.{
  ◌∙◌, ℕ, ◌≤◌, ◌≡◌, refl, sym, ap, Bool, false, List, none, ◌∷◌, [], arith, Bool-cases, All,
  some_of, ◌≢◌, Option-cases, inl, inr,
}
use multi_tenant_shipping_ma.Shared.Effects.{ok, err, transactional_throws, ◌>>=◌, >>=-step}
use multi_tenant_shipping_ma.Shared.Ensures.{Ensures}
use multi_tenant_shipping_ma.Shared.Table.{find_first, count_if}
use multi_tenant_shipping_ma.Fleet.Manifest.{unique_key_violated, vehicle_not_found}
use multi_tenant_shipping_ma.Fleet.Vehicle.Store.{
  Garage, Vehicle, VehicleAssignment, find_vehicle_or_throw, is_vehicle_of, holds_vehicle,
  is_held_by, find_active_assignment_by_vehicle, find_active_assignment_by_employee,
  create_assignment, violates_unique, new_assignment,
}
use multi_tenant_shipping_ma.Fleet.Vehicle.Commands.{assign_driver, assign_found}

-- No vehicle has two drivers at a time, and no driver has two vehicles.
pub record IsExclusive (s : Garage) : Type 0 where
  pub one_driver : (t v : ℕ) → count_if (holds_vehicle t v) s.assignments ≤ 1
  pub one_vehicle : (t e : ℕ) → count_if (is_held_by t e) s.assignments ≤ 1

pub record IsAssigned (now t v e : ℕ) (s : Garage) (id : ℕ) (s' : Garage) : Type 0 where
  pub vehicle_free : find_first (holds_vehicle t v) s.assignments ≡ none
  pub driver_free : find_first (is_held_by t e) s.assignments ≡ none
  pub inserted : s'.assignments ≡ new_assignment id now t e v ∷ s.assignments

-- Identifiers of vehicles and of employees stand for one tenant each.
pub record IsOwned (t v e : ℕ) (s : Garage) : Type 0 where
  pub vehicle : All (λ a. a.vehicle_id ≡ v → a.tenant_id ≡ t) s.assignments
  pub employee : All (λ a. a.employee_id ≡ e → a.tenant_id ≡ t) s.assignments

nobody_clashes :
    (t v e : ℕ) (xs : List VehicleAssignment)
    → All (λ a. a.vehicle_id ≡ v → a.tenant_id ≡ t) xs
    → All (λ a. a.employee_id ≡ e → a.tenant_id ≡ t) xs
    → find_first (holds_vehicle t v) xs ≡ none
    → find_first (is_held_by t e) xs ≡ none
    → some_of (violates_unique e v) xs ≡ false
unfolding find_first
nobody_clashes t v e [] p q free idle = refl
nobody_clashes t v e (a ∷ xs) p q free idle = elim (Bool-cases (holds_vehicle t v a)) [
  | inl y ↦ absurd (cc (rw y at free))
  | inr y ↦ elim (Bool-cases (is_held_by t e a)) [
    | inl z ↦ absurd (cc (rw z at idle))
    | inr z ↦
        let rest = nobody_clashes t v e xs p.1 q.1 (rw y at free) (rw z at idle) in
        rw (apart a p.0 q.0 y z) rest
  ]
]
  where
    apart :
        (a : VehicleAssignment)
        → (a.vehicle_id ≡ v → a.tenant_id ≡ t)
        → (a.employee_id ≡ e → a.tenant_id ≡ t)
        → holds_vehicle t v a ≡ false
        → is_held_by t e a ≡ false
        → violates_unique e v a ≡ false
    apart a p q y z = ground arith

-- Once the vehicle is found.
assign_found_clean :
    (exists : ℕ → ℕ → Bool) (now t v e : ℕ) (s : Garage)
    → IsOwned t v e s
    → (assign_found exists now t v e s).0 ≢ err unique_key_violated
unfolding assign_found find_active_assignment_by_vehicle find_active_assignment_by_employee
    create_assignment
assign_found_clean exists now t v e s owned h = elim (Bool-cases (exists e t)) [
  | inr x ↦ absurd (cc (rw x at h))
  | inl x ↦ elim (Option-cases (find_first (holds_vehicle t v) s.assignments)) [
    | inr (b, k) ↦ absurd (cc (rw (x, k) at h))
    | inl k ↦ elim (Option-cases (find_first (is_held_by t e) s.assignments)) [
      | inr (c, l) ↦ absurd (cc (rw (x, k, l) at h))
      | inl l ↦
          let free = nobody_clashes t v e s.assignments owned.vehicle owned.employee k l in
          absurd (cc (rw (x, k, l, free) at h))
    ]
  ]
]

-- When the vehicle and the employee that are named belong to the tenant, assigning the driver
-- never fails at a unique index of the table: a vehicle that is held, and a driver who holds one,
-- are refused before the row is written.
pub assign_driver_clean :
    (exists : ℕ → ℕ → Bool) (now t v e : ℕ) (s : Garage)
    → IsOwned t v e s
    → (assign_driver exists now t v e s).0 ≢ err unique_key_violated
unfolding assign_driver find_vehicle_or_throw
assign_driver_clean exists now t v e s owned h =
    let found = find_first (is_vehicle_of t v) s.vehicles in
    let rest = λ (_ : Vehicle). assign_found exists now t v e in
    let thrown = transactional_throws (find_vehicle_or_throw t v >>= rest) s h in
    elim (Option-cases found) [
      | inl n ↦
          let run =
            >>=-step (find_vehicle_or_throw t v) rest s {r = (err vehicle_not_found, s)}
              (rw (n, ◌>>=◌) refl) in
          absurd (cc (ap (λ q. q.0) (sym run) ∙ thrown))
      | inr (a, y) ↦
          let run =
            >>=-step (find_vehicle_or_throw t v) rest s {r = (ok a, s)} (rw (y, ◌>>=◌) refl) in
          assign_found_clean exists now t v e s owned (ap (λ q. q.0) (sym run) ∙ thrown)
    ]
