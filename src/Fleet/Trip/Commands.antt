-- ===== src/Fleet/Trip/Commands.antt =====
-- backend/src/modules/fleet/trip: trip-command.repository.ts, the queries that the commands make,
-- and application/services/trip-command.service.ts, less the messages that it sends to a driver.
use multi_tenant_shipping_ma.Shared.{
  ℕ, ◌+◌, Bool, false, not, ◌&&◌, Option, none, some, String, List, [], ◌∷◌, ◌++◌, ◌==◌,
  if◌then◌else◌, get_or, or_else, some_of,
}
use multi_tenant_shipping_ma.Shared.Effects.{
  Action, ok, err, ◌>>=◌, ◌>>◌, pure, gets, lift, throw_if, or_throw, found_or, transactional,
}
use multi_tenant_shipping_ma.Shared.Table.{find_first, update_many, count_if, has_key}
use multi_tenant_shipping_ma.Fleet.Manifest.{
  Tables, Fleet, FleetError, invalid_org_units, trip_not_found, driver_not_found,
  driver_without_vehicle, vehicle_not_operable, TransportManifest, assert_route_is_valid,
}
use multi_tenant_shipping_ma.Fleet.Manifest.{assign_manifests_to_trip as link_all}
use multi_tenant_shipping_ma.Fleet.Vehicle.{
  Garage, Registry, find_active_assignment_by_employee, find_vehicle_or_throw, is_operable,
}
use multi_tenant_shipping_ma.Fleet.Trip.Aggregate.{
  TripStatus, scheduled, Trip, start, complete, cancel, assert_editable,
}

pub record TripTables : Type 0 where
  pub trips : List Trip
  pub lists : Tables
  pub garage : Garage
  pub next_id : ℕ

abbrev pub Trips : Type 0 → Type 0
Trips A = Action TripTables FleetError A

-- The sibling modules work on their own tables in the same transaction.
abbrev on_lists : {A : Type 0} → Fleet A → Trips A
on_lists m s = let (r, t) = m s.lists in (r, record s { lists = t })

abbrev on_garage : {A : Type 0} → Registry A → Trips A
on_garage m s = let (r, t) = m s.garage in (r, record s { garage = t })

abbrev pub trip_id_of : Trip → ℕ
trip_id_of t = t.id

abbrev pub is_trip_of : ℕ → ℕ → Trip → Bool
is_trip_of tenant_id id t = t.id == id && t.tenant_id == tenant_id

unfoldable pub find_trip_or_throw : ℕ → ℕ → Trips Trip
find_trip_or_throw tenant_id id s =
    (found_or (find_first (is_trip_of tenant_id id) s.trips) trip_not_found, s)

abbrev pub is_carried : ℕ → ℕ → TransportManifest → Bool
is_carried tenant_id trip_id m =
    m.tenant_id == tenant_id && (elim m.trip_id [ none ↦ false | some t ↦ t == trip_id ])

unfoldable pub count_manifests : ℕ → ℕ → Trips ℕ
count_manifests tenant_id trip_id =
    gets (λ s. count_if (is_carried tenant_id trip_id) s.lists.manifests)

unfoldable pub create_trip_row : (ℕ → Trip) → Trips ℕ
create_trip_row row s =
    (ok s.next_id, record s { trips = row s.next_id ∷ s.trips; next_id = s.next_id + 1 })

unfoldable pub update_trip_row : ℕ → (Trip → Trip) → Trips (Unit {0})
update_trip_row id change s = (
  if count_if (has_key trip_id_of id) s.trips == 0 then err trip_not_found else ok tt,
  record s { trips = update_many (has_key trip_id_of id) change s.trips },
)

-- `updateStatus`: a time that is left out stays as it was.
abbrev pub set_trip_status : TripStatus → Option ℕ → Option ℕ → Trip → Trip
set_trip_status status started_at ended_at t = record t {
  status = status;
  started_at = or_else started_at t.started_at;
  ended_at = or_else ended_at t.ended_at;
}

-- `startTrip` once the trip is found.
unfoldable pub start_found : ℕ → ℕ → Trip → Trips (Unit {0})
unfolding count_manifests update_trip_row
start_found now tenant_id trip = do
  manifest_count ← count_manifests tenant_id trip.id
  trip' ← lift (start now manifest_count trip)
  update_trip_row trip.id (set_trip_status trip'.status trip'.started_at none)

unfoldable pub start_trip : ℕ → ℕ → ℕ → Trips (Unit {0})
unfolding start_found
start_trip now tenant_id id =
    transactional do trip ← find_trip_or_throw tenant_id id; start_found now tenant_id trip

unfoldable pub complete_trip : ℕ → ℕ → ℕ → Trips (Unit {0})
unfolding update_trip_row
complete_trip now tenant_id id = transactional do
  trip ← find_trip_or_throw tenant_id id
  trip' ← lift (complete now trip)
  update_trip_row id (set_trip_status trip'.status none trip'.ended_at)

unfoldable pub cancel_trip : ℕ → ℕ → ℕ → Trips (Unit {0})
unfolding update_trip_row
cancel_trip now tenant_id id = transactional do
  trip ← find_trip_or_throw tenant_id id
  trip' ← lift (cancel now trip)
  update_trip_row id (set_trip_status trip'.status none trip'.ended_at)

-- What the foreign key of a manifest asks for.
abbrev pub is_stored : List Trip → ℕ → Bool
is_stored trips id = some_of (λ (t : Trip). t.id == id) trips

unfoldable pub assign_manifests : ℕ → ℕ → List ℕ → Trips (Unit {0})
assign_manifests tenant_id trip_id ids = transactional do
  trip ← find_trip_or_throw tenant_id trip_id
  lift (assert_editable trip)
  stored ← gets (λ s. s.trips)
  on_lists (link_all (is_stored stored) tenant_id trip_id ids)

unfoldable pub assert_vehicle_is_operable : ℕ → ℕ → Trips (Unit {0})
assert_vehicle_is_operable tenant_id vehicle_id = do
  vehicle ← on_garage (find_vehicle_or_throw tenant_id vehicle_id)
  throw_if (not (is_operable vehicle)) vehicle_not_operable

-- `CreateTripDto`
pub record CreateTrip : Type 0 where
  pub driver_id : ℕ
  pub origin_org_unit_id : ℕ
  pub destination_org_unit_id : ℕ
  pub scheduled_at : Option ℕ
  pub notes : Option String
  pub manifest_ids : List ℕ

unfoldable pub new_trip : ℕ → Option ℕ → Option String → CreateTrip → ℕ → ℕ → Trip
new_trip tenant_id creator_id creator_name dto vehicle_id id = record {
  id = id;
  tenant_id = tenant_id;
  driver_id = dto.driver_id;
  vehicle_id = some vehicle_id;
  origin_org_unit_id = dto.origin_org_unit_id;
  destination_org_unit_id = dto.destination_org_unit_id;
  status = scheduled;
  scheduled_at = dto.scheduled_at;
  started_at = none;
  ended_at = none;
  notes = dto.notes;
  created_by_employee_id = creator_id;
  created_by_employee_name = creator_name;
}

-- `UpdateTripDto`
pub record UpdateTrip : Type 0 where
  pub driver_id : Option ℕ
  pub origin_org_unit_id : Option ℕ
  pub destination_org_unit_id : Option ℕ
  pub scheduled_at : Option ℕ
  pub notes : Option String

-- A value that differs from the one in force, or none.
abbrev if_changed : Option ℕ → ℕ → Option ℕ
if_changed none current = none
if_changed (some new) current = if new == current then none else some new

abbrev as_list : Option ℕ → List ℕ
as_list none = []
as_list (some a) = a ∷ []

unfoldable pub set_trip_fields : UpdateTrip → Option ℕ → Trip → Trip
set_trip_fields dto new_vehicle t = record t {
  driver_id = get_or dto.driver_id t.driver_id;
  vehicle_id = or_else new_vehicle t.vehicle_id;
  origin_org_unit_id = get_or dto.origin_org_unit_id t.origin_org_unit_id;
  destination_org_unit_id = get_or dto.destination_org_unit_id t.destination_org_unit_id;
  scheduled_at = or_else dto.scheduled_at t.scheduled_at;
  notes = or_else dto.notes t.notes;
}

-- The employee and organisation modules.
module _ (employee_exists : ℕ → ℕ → Bool) (org_units_exist : ℕ → List ℕ → Bool) where
  unfoldable pub assert_driver_exists : ℕ → ℕ → Trips ℕ
  assert_driver_exists tenant_id driver_id = do
    throw_if (not (employee_exists driver_id tenant_id)) driver_not_found
    held ← on_garage (find_active_assignment_by_employee tenant_id driver_id)
    assignment ← or_throw held driver_without_vehicle
    pure assignment.vehicle_id

  unfoldable pub assert_org_units_exist : ℕ → List ℕ → Trips (Unit {0})
  assert_org_units_exist tenant_id units =
      throw_if (not (org_units_exist tenant_id units)) invalid_org_units

  unfoldable pub persist_new_trip : ℕ → Option ℕ → Option String → CreateTrip → Trips ℕ
  unfolding new_trip assert_org_units_exist
  persist_new_trip tenant_id creator_id creator_name dto = transactional do
    lift (assert_route_is_valid dto.origin_org_unit_id dto.destination_org_unit_id)
    vehicle_id ← assert_driver_exists tenant_id dto.driver_id
    assert_org_units_exist tenant_id (dto.origin_org_unit_id ∷ dto.destination_org_unit_id ∷ [])
    assert_vehicle_is_operable tenant_id vehicle_id
    id ← create_trip_row (new_trip tenant_id creator_id creator_name dto vehicle_id)
    stored ← gets (λ s. s.trips)
    on_lists (link_all (is_stored stored) tenant_id id dto.manifest_ids)
    pure id

  -- The vehicle of the new driver, when the trip changes hands.
  abbrev vehicle_for : ℕ → Option ℕ → Trips (Option ℕ)
  vehicle_for tenant_id none = pure none
  vehicle_for tenant_id (some driver_id) = do
    vehicle_id ← assert_driver_exists tenant_id driver_id
    assert_vehicle_is_operable tenant_id vehicle_id
    pure (some vehicle_id)

  abbrev assert_changed_units_exist : ℕ → List ℕ → Trips (Unit {0})
  assert_changed_units_exist tenant_id [] = pure tt
  assert_changed_units_exist tenant_id (u ∷ us) = assert_org_units_exist tenant_id (u ∷ us)

  unfoldable pub persist_trip_update : ℕ → ℕ → UpdateTrip → Trips (Option ℕ)
  unfolding set_trip_fields
  persist_trip_update tenant_id id dto = transactional do
    trip ← find_trip_or_throw tenant_id id
    lift (assert_editable trip)
    lift (
        assert_route_is_valid (get_or dto.origin_org_unit_id trip.origin_org_unit_id)
          (get_or dto.destination_org_unit_id trip.destination_org_unit_id))
    let reassigned_to = if_changed dto.driver_id trip.driver_id
    new_vehicle ← vehicle_for tenant_id reassigned_to
    assert_changed_units_exist tenant_id (
        as_list (if_changed dto.origin_org_unit_id trip.origin_org_unit_id)
        ++ as_list (if_changed dto.destination_org_unit_id trip.destination_org_unit_id))
    update_trip_row id (set_trip_fields dto new_vehicle)
    pure reassigned_to
