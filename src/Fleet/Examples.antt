-- ===== src/Fleet/Examples.antt =====
-- The theorems on manifests, vehicles and trips at concrete inputs.
use multi_tenant_shipping_ma.Shared.{true, ◌==◌, ◌≢◌, ◌≡◌, refl, none, some, [], ◌∷◌, arith, ltb}
use multi_tenant_shipping_ma.Shared.Effects.{ok, err}
use multi_tenant_shipping_ma.Shared.Ensures.{Ensures}
use multi_tenant_shipping_ma.Shared.Table.{count_if, find_first, has_key}
use multi_tenant_shipping_ma.Fleet.Manifest.{
  in_transit, missing, to_unloaded, new_item, Facades, id_of, update_item_status, FleetError,
  unique_key_violated, Tables, TransportManifest, ready_for_dispatch, new_manifest,
  assign_manifests_to_trip,
}
use multi_tenant_shipping_ma.Fleet.Manifest.Stuck.{StaysStuck, update_item_status_stuck}
use multi_tenant_shipping_ma.Fleet.Manifest.Linked.{
  IsAssignedTo, assign_manifests_to_trip_all_or_nothing,
}
use multi_tenant_shipping_ma.Fleet.Vehicle.{
  Garage, is_assignment_of, is_currently_assigned, active, new_assignment, assign_driver,
  release_assignment,
}
use multi_tenant_shipping_ma.Fleet.Vehicle.Holders.{IsExclusive, IsOwned, assign_driver_clean}
use multi_tenant_shipping_ma.Fleet.Vehicle.Releases.{IsReleased, release_assignment-IsReleased}
use multi_tenant_shipping_ma.Fleet.Trip.{Trip, TripTables, scheduled, start_trip}
use multi_tenant_shipping_ma.Fleet.Trip.Departure.{HasLeft, start_trip-HasLeft}

abbrev ready_list : TransportManifest
ready_list = record (new_manifest 1 0 9 3 5 none none) { status = ready_for_dispatch }

abbrev lists : Tables
lists = record { manifests = ready_list ∷ []; items = []; next_id = 2 }

assign_manifests_to_trip_all_or_nothing_example :
    Ensures
      (λ _ s'. IsAssignedTo (λ k. k == 4) 9 4 (1 ∷ []) lists s')
      (assign_manifests_to_trip (λ k. k == 4) 9 4 (1 ∷ []) lists)
    × ((x : FleetError)
        → (assign_manifests_to_trip (λ k. k == 4) 9 4 (1 ∷ []) lists).0 ≡ err x
        → (assign_manifests_to_trip (λ k. k == 4) 9 4 (1 ∷ []) lists).1 ≡ lists)
assign_manifests_to_trip_all_or_nothing_example =
    assign_manifests_to_trip_all_or_nothing (λ k. k == 4) 9 4 1 [] lists

-- Driver 12 holds vehicle 20.
abbrev garage : Garage
garage = record {
  vehicles =
      record {
        id = 20;
        tenant_id = 9;
        plate_number = "100-200";
        vehicle_type = none;
        capacity_kg = none;
        status = active;
      }
      ∷ record {
        id = 21;
        tenant_id = 9;
        plate_number = "100-201";
        vehicle_type = none;
        capacity_kg = none;
        status = active;
      }
      ∷ [];
  assignments = new_assignment 30 0 9 12 20 ∷ [];
  next_id = 31;
}

garage-IsExclusive : IsExclusive garage
unfolding count_if
garage-IsExclusive = record { one_driver = λ t v. ground arith; one_vehicle = λ t e. ground arith }

garage-IsOwned : IsOwned 9 20 13 garage
garage-IsOwned = record { vehicle = ((λ _. refl), tt); employee = ((λ e. refl), tt) }

assign_driver_clean_example :
    (assign_driver (λ e t. ltb e 100) 40 9 20 13 garage).0 ≢ err unique_key_violated
assign_driver_clean_example =
    assign_driver_clean (λ e t. ltb e 100) 40 9 20 13 garage garage-IsOwned

held_found :
    find_first (is_assignment_of 9 30) garage.assignments ≡ some (new_assignment 30 0 9 12 20)
unfolding find_first
held_found = refl

held_current : is_currently_assigned (new_assignment 30 0 9 12 20) ≡ true
unfolding is_currently_assigned
held_current = refl

release_assignment-IsReleased_example :
    IsReleased 9 (new_assignment 30 0 9 12 20) garage (release_assignment 40 9 20 30 garage)
release_assignment-IsReleased_example =
    release_assignment-IsReleased 40 9 30 garage (new_assignment 30 0 9 12 20) garage-IsExclusive
      held_found held_current

abbrev planned : Trip
planned = record {
  id = 4;
  tenant_id = 9;
  driver_id = 12;
  vehicle_id = some 20;
  origin_org_unit_id = 3;
  destination_org_unit_id = 5;
  status = scheduled;
  scheduled_at = none;
  started_at = none;
  ended_at = none;
  notes = none;
  created_by_employee_id = none;
  created_by_employee_name = none;
}

abbrev board : TripTables
board = record {
  trips = planned ∷ [];
  lists = record lists { manifests = record ready_list { trip_id = some 4 } ∷ [] };
  garage = garage;
  next_id = 5;
}

start_trip-HasLeft_example :
    Ensures (λ _ s'. HasLeft 50 9 4 board s') (start_trip 50 9 4 board)
    × ((x : FleetError) → (start_trip 50 9 4 board).0 ≡ err x → (start_trip 50 9 4 board).1 ≡ board)
start_trip-HasLeft_example = start_trip-HasLeft 50 9 4 board

-- The only item of a manifest in transit was reported missing.
abbrev lost : Tables
lost = record {
  manifests = record ready_list { trip_id = some 4; status = in_transit } ∷ [];
  items = record (new_item 1 none none 6 21) { status = missing; loaded_at = some 5 } ∷ [];
  next_id = 7;
}

-- The other modules, agreeing to everything.
abbrev agreeing : Facades
agreeing = record {
  org_units_exist = λ _ _. true;
  is_assigned_to = λ _ _. true;
  employee_name = λ _. none;
  mark_ready = λ _. ok tt;
  mark_parcel_loaded = λ _ _. ok tt;
  mark_parcel_unloaded = λ _ _ _. ok tt;
}

lost_found :
    find_first (has_key id_of 1) lost.manifests
    ≡ some (record ready_list { trip_id = some 4; status = in_transit })
unfolding find_first
lost_found = refl

update_item_status_stuck_example :
    StaysStuck lost
      (record ready_list { trip_id = some 4; status = in_transit })
      (update_item_status agreeing 60 9 1 6 to_unloaded lost).1
update_item_status_stuck_example =
    update_item_status_stuck agreeing 60 9 1 6 to_unloaded lost
      (record ready_list { trip_id = some 4; status = in_transit }) refl (refl, tt) lost_found
