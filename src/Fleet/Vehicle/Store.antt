-- ===== src/Fleet/Vehicle/Store.antt =====
-- backend/src/modules/fleet/vehicle: domain/entities, and the queries and writes of
-- vehicle-query.repository.ts and vehicle-command.repository.ts.
use multi_tenant_shipping_ma.Shared.{
  ℕ, ◌+◌, Bool, true, false, not, ◌&&◌, ◌||◌, some_of, Option, none, some, String, List, ◌∷◌, ◌==◌,
  if◌then◌else◌, is_some, get_or,
}
use multi_tenant_shipping_ma.Shared.Effects.{Action, ok, err, ◌>>=◌, gets, or_throw}
use multi_tenant_shipping_ma.Shared.Table.{find_first, update_many, count_if, has_key}
use multi_tenant_shipping_ma.Fleet.Manifest.{
  FleetError, vehicle_not_found, assignment_not_found, unique_key_violated,
}
use text.Mathlib.Text.{◌==◌ as str_eq}

pub data VehicleStatus : Type 0 where
  active maintenance inactive : VehicleStatus

pub record Vehicle : Type 0 where
  pub id : ℕ
  pub tenant_id : ℕ
  pub plate_number : String
  pub vehicle_type : Option String
  pub capacity_kg : Option ℕ
  pub status : VehicleStatus

abbrev is_active_status : VehicleStatus → Bool
is_active_status active = true
is_active_status _ = false

unfoldable pub is_operable : Vehicle → Bool
is_operable v = is_active_status v.status

pub record VehicleAssignment : Type 0 where
  pub id : ℕ
  pub tenant_id : ℕ
  pub employee_id : ℕ
  pub vehicle_id : ℕ
  pub is_active : Bool
  pub assigned_at : ℕ
  pub removed_at : Option ℕ

unfoldable pub is_currently_assigned : VehicleAssignment → Bool
is_currently_assigned a = a.is_active && not (is_some a.removed_at)

pub record Garage : Type 0 where
  pub vehicles : List Vehicle
  pub assignments : List VehicleAssignment
  pub next_id : ℕ

abbrev pub Registry : Type 0 → Type 0
Registry A = Action Garage FleetError A

abbrev pub is_vehicle_of : ℕ → ℕ → Vehicle → Bool
is_vehicle_of tenant_id id v = v.id == id && v.tenant_id == tenant_id

unfoldable pub find_vehicle_or_throw : ℕ → ℕ → Registry Vehicle
find_vehicle_or_throw tenant_id id = do
  found ← gets (λ s. find_first (is_vehicle_of tenant_id id) s.vehicles)
  or_throw found vehicle_not_found

abbrev has_plate : ℕ → String → Option ℕ → Vehicle → Bool
has_plate tenant_id plate excluded v =
    v.tenant_id == tenant_id
    && str_eq v.plate_number plate
    && (elim excluded [ none ↦ true | some id ↦ not (v.id == id) ])

unfoldable pub exists_by_plate_number : ℕ → String → Option ℕ → Registry Bool
exists_by_plate_number tenant_id plate excluded =
    gets (λ s. is_some (find_first (has_plate tenant_id plate excluded) s.vehicles))

abbrev pub holds_vehicle : ℕ → ℕ → VehicleAssignment → Bool
holds_vehicle tenant_id vehicle_id a =
    a.tenant_id == tenant_id && a.vehicle_id == vehicle_id && a.is_active

unfoldable pub find_active_assignment_by_vehicle : ℕ → ℕ → Registry (Option VehicleAssignment)
find_active_assignment_by_vehicle tenant_id vehicle_id =
    gets (λ s. find_first (holds_vehicle tenant_id vehicle_id) s.assignments)

abbrev pub is_held_by : ℕ → ℕ → VehicleAssignment → Bool
is_held_by tenant_id employee_id a =
    a.tenant_id == tenant_id && a.employee_id == employee_id && a.is_active

unfoldable pub find_active_assignment_by_employee : ℕ → ℕ → Registry (Option VehicleAssignment)
find_active_assignment_by_employee tenant_id employee_id =
    gets (λ s. find_first (is_held_by tenant_id employee_id) s.assignments)

abbrev pub is_assignment_of : ℕ → ℕ → VehicleAssignment → Bool
is_assignment_of tenant_id id a = a.tenant_id == tenant_id && a.id == id

unfoldable pub find_assignment_or_throw : ℕ → ℕ → Registry VehicleAssignment
find_assignment_or_throw tenant_id id = do
  found ← gets (λ s. find_first (is_assignment_of tenant_id id) s.assignments)
  or_throw found assignment_not_found

-- The row of a new vehicle, under the identifier that the database gives it.
unfoldable pub create_vehicle_row : (ℕ → Vehicle) → Registry ℕ
create_vehicle_row row s =
    (ok s.next_id, record s { vehicles = row s.next_id ∷ s.vehicles; next_id = s.next_id + 1 })

-- A field that is left out stays as it was.
abbrev pub set_vehicle :
    Option String → Option String → Option ℕ → Option VehicleStatus → Vehicle → Vehicle
set_vehicle plate kind capacity status v = record v {
  plate_number = get_or plate v.plate_number;
  vehicle_type = if is_some kind then kind else v.vehicle_type;
  capacity_kg = if is_some capacity then capacity else v.capacity_kg;
  status = get_or status v.status;
}

abbrev pub vehicle_id_of : Vehicle → ℕ
vehicle_id_of v = v.id

unfoldable pub update_vehicle_row : ℕ → (Vehicle → Vehicle) → Registry (Unit {0})
update_vehicle_row id change s = (
  if count_if (has_key vehicle_id_of id) s.vehicles == 0 then err vehicle_not_found else ok tt,
  record s { vehicles = update_many (has_key vehicle_id_of id) change s.vehicles },
)

abbrev pub new_assignment : ℕ → ℕ → ℕ → ℕ → ℕ → VehicleAssignment
new_assignment id now tenant_id employee_id vehicle_id = record {
  id = id;
  tenant_id = tenant_id;
  employee_id = employee_id;
  vehicle_id = vehicle_id;
  is_active = true;
  assigned_at = now;
  removed_at = none;
}

-- Rows that the partial unique indexes of the table keep apart, of whatever tenant they are.
abbrev pub violates_unique : ℕ → ℕ → VehicleAssignment → Bool
violates_unique employee_id vehicle_id a =
    a.is_active && (a.employee_id == employee_id || a.vehicle_id == vehicle_id)

unfoldable pub create_assignment : ℕ → ℕ → ℕ → ℕ → Registry ℕ
create_assignment now tenant_id employee_id vehicle_id s =
    if some_of (violates_unique employee_id vehicle_id) s.assignments
    then (err unique_key_violated, s)
    else (
      ok s.next_id,
      record s {
        assignments = new_assignment s.next_id now tenant_id employee_id vehicle_id ∷ s.assignments;
        next_id = s.next_id + 1;
      },
    )

abbrev pub assignment_id_of : VehicleAssignment → ℕ
assignment_id_of a = a.id

abbrev pub release : ℕ → VehicleAssignment → VehicleAssignment
release now a = record a { is_active = false; removed_at = some now }

unfoldable pub release_row : ℕ → ℕ → Registry (Unit {0})
release_row now id s = (
  if count_if (has_key assignment_id_of id) s.assignments == 0
      then err assignment_not_found
      else ok tt,
  record s { assignments = update_many (has_key assignment_id_of id) (release now) s.assignments },
)
