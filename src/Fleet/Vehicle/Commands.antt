-- ===== src/Fleet/Vehicle/Commands.antt =====
-- backend/src/modules/fleet/vehicle/application/services/vehicle-command.service.ts
use multi_tenant_shipping_ma.Shared.{
  ℕ, Bool, not, ◌&&◌, Option, none, some, String, ◌==◌, is_some, get_or,
}
use multi_tenant_shipping_ma.Shared.Effects.{◌>>=◌, ◌>>◌, pure, throw_if, transactional}
use multi_tenant_shipping_ma.Fleet.Manifest.{
  driver_not_found, duplicate_plate, vehicle_already_assigned, driver_already_assigned,
  assignment_not_found,
}
use multi_tenant_shipping_ma.Fleet.Vehicle.Store.{
  VehicleStatus, active, is_currently_assigned, VehicleAssignment, Registry, find_vehicle_or_throw,
  exists_by_plate_number, find_active_assignment_by_vehicle, find_active_assignment_by_employee,
  find_assignment_or_throw, create_vehicle_row, set_vehicle, update_vehicle_row, create_assignment,
  release_row,
}
use text.Mathlib.Text.{◌==◌ as str_eq}

-- `CreateVehicleDto`
pub record CreateVehicle : Type 0 where
  pub plate_number : String
  pub vehicle_type : Option String
  pub capacity_kg : Option ℕ
  pub status : Option VehicleStatus

unfoldable pub create_vehicle : ℕ → CreateVehicle → Registry ℕ
create_vehicle tenant_id dto = do
  taken ← exists_by_plate_number tenant_id dto.plate_number none
  throw_if taken duplicate_plate
  create_vehicle_row (λ id. record {
    id = id;
    tenant_id = tenant_id;
    plate_number = dto.plate_number;
    vehicle_type = dto.vehicle_type;
    capacity_kg = dto.capacity_kg;
    status = get_or dto.status active;
  })

-- Refuses a plate that differs from the vehicle's and that another vehicle has.
abbrev assert_plate_free : ℕ → ℕ → String → Option String → Registry (Unit {0})
assert_plate_free tenant_id id current none = pure tt
assert_plate_free tenant_id id current (some plate) = do
  taken ← exists_by_plate_number tenant_id plate (some id)
  throw_if (not (str_eq plate current) && taken) duplicate_plate

-- `UpdateVehicleDto`
pub record UpdateVehicle : Type 0 where
  pub plate_number : Option String
  pub vehicle_type : Option String
  pub capacity_kg : Option ℕ
  pub status : Option VehicleStatus

unfoldable pub update_vehicle : ℕ → ℕ → UpdateVehicle → Registry (Unit {0})
update_vehicle tenant_id id dto = do
  vehicle ← find_vehicle_or_throw tenant_id id
  assert_plate_free tenant_id id vehicle.plate_number dto.plate_number
  update_vehicle_row id (set_vehicle dto.plate_number dto.vehicle_type dto.capacity_kg dto.status)

-- `releaseAssignment` once the assignment is found.
unfoldable pub release_found : ℕ → ℕ → VehicleAssignment → Registry (Unit {0})
release_found now vehicle_id assignment = do
  throw_if (not (assignment.vehicle_id == vehicle_id)) assignment_not_found
  throw_if (not (is_currently_assigned assignment)) assignment_not_found
  release_row now assignment.id

unfoldable pub release_assignment : ℕ → ℕ → ℕ → ℕ → Registry (Unit {0})
unfolding release_found
release_assignment now tenant_id vehicle_id assignment_id = do
  assignment ← find_assignment_or_throw tenant_id assignment_id
  release_found now vehicle_id assignment

-- The employee module says whether an employee of the tenant exists.
module _ (employee_exists : ℕ → ℕ → Bool) where
  -- `assignDriver` once the vehicle is found.
  unfoldable pub assign_found : ℕ → ℕ → ℕ → ℕ → Registry ℕ
  assign_found now tenant_id vehicle_id employee_id = do
    throw_if (not (employee_exists employee_id tenant_id)) driver_not_found
    vehicle_assignment ← find_active_assignment_by_vehicle tenant_id vehicle_id
    throw_if (is_some vehicle_assignment) vehicle_already_assigned
    driver_assignment ← find_active_assignment_by_employee tenant_id employee_id
    throw_if (is_some driver_assignment) driver_already_assigned
    create_assignment now tenant_id employee_id vehicle_id

  unfoldable pub assign_driver : ℕ → ℕ → ℕ → ℕ → Registry ℕ
  unfolding assign_found
  assign_driver now tenant_id vehicle_id employee_id = transactional do
    _ ← find_vehicle_or_throw tenant_id vehicle_id
    assign_found now tenant_id vehicle_id employee_id
