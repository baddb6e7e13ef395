-- ===== src/Fleet/Trip/Aggregate.antt =====
-- backend/src/modules/fleet/trip/domain/entities/trip.entity.ts
use multi_tenant_shipping_ma.Shared.{
  ℕ, Bool, true, false, not, ◌||◌, Option, some, String, if◌then◌else◌, ltb,
}
use multi_tenant_shipping_ma.Shared.Effects.{Result, ok, err, check}
use multi_tenant_shipping_ma.Fleet.Manifest.{
  FleetError, trip_already_started, trip_without_manifest, trip_not_started, trip_not_cancellable,
  trip_not_editable,
}

pub data TripStatus : Type 0 where
  scheduled in_progress completed cancelled : TripStatus

abbrev pub trip_status_eq : TripStatus → TripStatus → Bool
trip_status_eq scheduled scheduled = true
trip_status_eq in_progress in_progress = true
trip_status_eq completed completed = true
trip_status_eq cancelled cancelled = true
trip_status_eq _ _ = false

pub record Trip : Type 0 where
  pub id : ℕ
  pub tenant_id : ℕ
  pub driver_id : ℕ
  pub vehicle_id : Option ℕ
  pub origin_org_unit_id : ℕ
  pub destination_org_unit_id : ℕ
  pub status : TripStatus
  pub scheduled_at : Option ℕ
  pub started_at : Option ℕ
  pub ended_at : Option ℕ
  pub notes : Option String
  pub created_by_employee_id : Option ℕ
  pub created_by_employee_name : Option String

unfoldable pub start : ℕ → ℕ → Trip → Result FleetError Trip
start now manifest_count t =
    if not (trip_status_eq t.status scheduled)
    then err trip_already_started
    else if ltb manifest_count 1
    then err trip_without_manifest
    else ok (record t { status = in_progress; started_at = some now })

unfoldable pub complete : ℕ → Trip → Result FleetError Trip
complete now t =
    if not (trip_status_eq t.status in_progress)
    then err trip_not_started
    else ok (record t { status = completed; ended_at = some now })

unfoldable pub cancel : ℕ → Trip → Result FleetError Trip
cancel now t =
    if not (trip_status_eq t.status scheduled)
    then err trip_not_cancellable
    else ok (record t { status = cancelled; ended_at = some now })

unfoldable pub assert_editable : Trip → Result FleetError (Unit {0})
assert_editable t = check (not (trip_status_eq t.status scheduled)) trip_not_editable

unfoldable pub accepts_manifest_changes : Trip → Bool
accepts_manifest_changes t = trip_status_eq t.status scheduled

unfoldable pub has_departed : Trip → Bool
has_departed t = trip_status_eq t.status in_progress || trip_status_eq t.status completed
