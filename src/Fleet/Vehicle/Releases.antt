-- ===== src/Fleet/Vehicle/Releases.antt =====
-- `releaseAssignment` of vehicle-command.service.ts.
use multi_tenant_shipping_ma.Shared.{
  ◌∙◌, some, ◌+◌, ◌==◌, ℕ, ◌≤◌, ◌≡◌, refl, sym, subst, ap, Bool, true, false, List, none, ◌∷◌, [],
  arith, Bool-cases, not, ==_refl, inl, inr,
}
use multi_tenant_shipping_ma.Shared.Effects.{ok, Result, ◌>>=◌, >>=-step}
use multi_tenant_shipping_ma.Shared.Table.{
  find_first, find_first_fits, select, count_if-hit, count_if, update_many, has_key,
}
use multi_tenant_shipping_ma.Fleet.Manifest.{FleetError}
use multi_tenant_shipping_ma.Fleet.Vehicle.Store.{
  Garage, VehicleAssignment, holds_vehicle, is_held_by, release_row, release,
  find_assignment_or_throw, assignment_id_of, is_assignment_of, is_currently_assigned,
}
use multi_tenant_shipping_ma.Fleet.Vehicle.Commands.{release_assignment, release_found}
use multi_tenant_shipping_ma.Fleet.Vehicle.Holders.{IsExclusive}

-- The one row that fits a test at most once is released, and no row fits it any longer.
freed :
    (now : ℕ) (p q : VehicleAssignment → Bool) (xs : List VehicleAssignment) {a : VehicleAssignment}
    → find_first q xs ≡ some a
    → p a ≡ true
    → ((b : VehicleAssignment) → p (release now b) ≡ false)
    → count_if p xs ≤ 1
    → find_first p (update_many (has_key assignment_id_of a.id) (release now) xs) ≡ none
unfolding find_first count_if update_many
freed now p q [] found fits gone once = refl
freed now p q (b ∷ xs) {a} found fits gone once = elim (Bool-cases (q b)) [
  | inl y ↦
      let same : b ≡ a = ground arith in
      let here : (b.id == a.id) ≡ true = rw (ap assignment_id_of same) (==_refl a.id) in
      let holds : p b ≡ true = ap p same ∙ fits in
      rw (here, gone b) (unheld a.id xs (no_more (count_if p xs) (rw holds at once)))
  | inr n ↦
      let held = count_if-hit q p xs {r = a} (rw n at found) fits in
      elim (Bool-cases (p b)) [
        | inl y ↦ absurd (cc (rw (no_more (count_if p xs) (rw y at once)) at held))
        | inr z ↦
            let rest =
              freed now p q xs {a = a} (rw n at found) fits gone (omega (arith, rw z at once)) in
            elim (Bool-cases (b.id == a.id)) [
              | inl k ↦ rw (k, gone b) rest
              | inr k ↦ rw (k, z) rest
            ]
      ]
]
  where
    no_more : (n : ℕ) → 1 + n ≤ 1 → n ≡ 0
    no_more n h = omega (arith, h)

    unheld :
        (k : ℕ) (ys : List VehicleAssignment)
        → count_if p ys ≡ 0
        → find_first p (update_many (has_key assignment_id_of k) (release now) ys) ≡ none
    unheld k [] h = refl
    unheld k (y ∷ ys) h = elim (Bool-cases (p y)) [
      | inl held ↦ absurd (omega (arith, rw held at h))
      | inr idle ↦ elim (Bool-cases (y.id == k)) [
        | inl at ↦ rw (at, gone y) (unheld k ys (omega (arith, rw idle at h)))
        | inr away ↦ rw (away, idle) (unheld k ys (omega (arith, rw idle at h)))
      ]
    ]

-- The rows of all other assignments.
abbrev pub others : ℕ → Garage → List VehicleAssignment
others id s = select (λ a. not (a.id == id)) s.assignments

others_kept :
    (now id : ℕ) (xs : List VehicleAssignment)
    → select (λ a. not (a.id == id)) (update_many (has_key assignment_id_of id) (release now) xs)
      ≡ select (λ a. not (a.id == id)) xs
unfolding select update_many
others_kept now id [] = refl
others_kept now id (a ∷ xs) = elim (Bool-cases (a.id == id)) [
  | inl y ↦ rw y (rw y (others_kept now id xs))
  | inr n ↦ rw n (rw n (ap (λ l. a ∷ l) (others_kept now id xs)))
]

-- What is so once the active assignment `a` has been released.
pub record IsReleased (t : ℕ) (a : VehicleAssignment) (s : Garage)
    (r : Result FleetError (Unit {0}) × Garage) : Type 0 where
  pub returns : r.0 ≡ ok tt
  pub vehicle_free : find_first (holds_vehicle t a.vehicle_id) r.1.assignments ≡ none
  pub driver_free : find_first (is_held_by t a.employee_id) r.1.assignments ≡ none
  pub others_kept : others a.id r.1 ≡ others a.id s
  pub vehicles_kept : r.1.vehicles ≡ s.vehicles

-- Where no vehicle has two drivers and no driver two vehicles, releasing an assignment of the
-- tenant that is still current, under its own vehicle, returns; its vehicle and its driver are
-- then free, and the assignments with another identifier and the vehicles are as they were.
pub release_assignment-IsReleased :
    (now t id : ℕ) (s : Garage) (a : VehicleAssignment)
    → IsExclusive s
    → find_first (is_assignment_of t id) s.assignments ≡ some a
    → is_currently_assigned a ≡ true
    → IsReleased t a s (release_assignment now t a.vehicle_id id s)
unfolding release_assignment release_found release_row find_assignment_or_throw
    is_currently_assigned
release_assignment-IsReleased now t id s a exclusive found current =
    let fits = find_first_fits (is_assignment_of t id) s.assignments found in
    let active : a.is_active ≡ true = ground (arith, current) in
    let own : (a.vehicle_id == a.vehicle_id) ≡ true = ==_refl a.vehicle_id in
    let of_tenant : (a.tenant_id == t) ≡ true = ground (arith, fits) in
    let there =
      count_if-hit (is_assignment_of t id) (has_key assignment_id_of a.id) s.assignments found
        (==_refl a.id) in
    let after : Garage = record s {
      assignments = update_many (has_key assignment_id_of a.id) (release now) s.assignments;
    } in
    let run : release_assignment now t a.vehicle_id id s ≡ (ok tt, after) =
      >>=-step (find_assignment_or_throw t id) (release_found now a.vehicle_id) s {r = (ok a, s)}
        (rw (found, ◌>>=◌) refl)
      ∙ rw (own, current, ◌>>=◌, there) refl in
    subst (IsReleased t a s) (sym run) (record {
      returns = refl;
      vehicle_free =
          freed now (holds_vehicle t a.vehicle_id) (is_assignment_of t id) s.assignments found
            (rw (of_tenant, own) active) (λ b. ground arith) (exclusive.one_driver t a.vehicle_id);
      driver_free =
          freed now (is_held_by t a.employee_id) (is_assignment_of t id) s.assignments found
            (rw (of_tenant, ==_refl a.employee_id) active) (λ b. ground arith)
            (exclusive.one_vehicle t a.employee_id);
      others_kept = others_kept now a.id s.assignments;
      vehicles_kept = refl;
    })
