-- ===== src/CustomerShipment/Shipment/Aggregate.antt =====
-- The methods of `class CustomerShipment`.
use multi_tenant_shipping_ma.Shared.{
  ℕ, Bool, not, ◌&&◌, Option, none, some, String, List, [], ◌∷◌, if◌then◌else◌, every, some_of,
}
use multi_tenant_shipping_ma.Shared.Int.{ℤ}
use multi_tenant_shipping_ma.Shared.Effects.{Result, ok, err}
use multi_tenant_shipping_ma.Shared.Table.{select}
use multi_tenant_shipping_ma.CustomerShipment.Shipment.Lifecycle.{
  ShipmentStatus, status_eq, allowed_transitions, includes_status, ParcelStatus, parcel_status_eq,
}

-- One for each `throw` of the two aggregates, their repositories and services.
pub data ShipmentError : Type 0 where
  illegal_shipment_transition stale_shipment : ShipmentError
  already_in_status illegal_parcel_transition not_arrived not_processing : ShipmentError
  not_collectable stale_parcel parcel_not_found parcels_not_accessible : ShipmentError

pub record CustomerShipment : Type 0 where
  pub id : ℕ
  pub version : ℕ
  pub tenant_id : ℕ
  pub sender_name : String
  pub sender_phone : String
  pub sender_national_id : Option String
  pub shipment_request_id : Option ℕ
  pub origin_org_unit_id : ℕ
  pub destination_org_unit_id : ℕ
  pub service_level : String
  pub receiver_name : String
  pub receiver_phone : String
  pub payment_responsibility : String
  pub total_chargeable_weight_kg : Option ℤ
  pub status : ShipmentStatus
  pub created_at : ℕ
  pub updated_at : ℕ
  pub created_by_employee_id : Option ℕ
  pub created_by_employee_name : Option String

unfoldable pub transition_to :
    CustomerShipment → ShipmentStatus → Result ShipmentError CustomerShipment
unfolding allowed_transitions
transition_to s target =
    if status_eq target s.status
    then ok s
    else if not (includes_status (allowed_transitions s.status) target)
    then err illegal_shipment_transition
    else ok (record s { status = target })

unfoldable pub cancel : CustomerShipment → Result ShipmentError CustomerShipment
unfolding transition_to
cancel s = transition_to s ShipmentStatus.cancelled

abbrev pub is_live : ParcelStatus → Bool
is_live status =
    not (parcel_status_eq status ParcelStatus.cancelled)
    && not (parcel_status_eq status ParcelStatus.returned)

abbrev all_are : ParcelStatus → List ParcelStatus → Bool
all_are status = every (λ s. parcel_status_eq s status)

abbrev some_is : ParcelStatus → List ParcelStatus → Bool
some_is status = some_of (λ s. parcel_status_eq s status)

-- The status that the parcels still travelling stand for.
unfoldable pub derived_target : List ParcelStatus → Option ShipmentStatus
derived_target live =
    if all_are ParcelStatus.collected live
    then some ShipmentStatus.delivered
    else if all_are ParcelStatus.ready_for_collection live
    then some ShipmentStatus.ready_for_collection
    else if some_is ParcelStatus.in_transit live
    then some ShipmentStatus.in_transit
    else if all_are ParcelStatus.ready_for_dispatch live
    then some ShipmentStatus.ready_for_dispatch
    else none

-- Takes the target if it is new and the lifecycle allows it.
unfoldable pub adopt_target :
    CustomerShipment → Option ShipmentStatus → Option ShipmentStatus × CustomerShipment
unfolding allowed_transitions
adopt_target s none = (none, s)
adopt_target s (some target) =
    if status_eq target s.status
    then (none, s)
    else if not (includes_status (allowed_transitions s.status) target)
    then (none, s)
    else (some target, record s { status = target })

abbrev pub recalculate_live :
    CustomerShipment → List ParcelStatus → Option ShipmentStatus × CustomerShipment
recalculate_live s [] = (none, s)
recalculate_live s (p ∷ live) = adopt_target s (derived_target (p ∷ live))

-- Returns the new status when it changed.
unfoldable pub recalculate_status :
    CustomerShipment → List ParcelStatus → Option ShipmentStatus × CustomerShipment
unfolding derived_target adopt_target
recalculate_status s parcel_statuses = recalculate_live s (select is_live parcel_statuses)

unfoldable pub is_cancellable : CustomerShipment → Bool
unfolding allowed_transitions
is_cancellable s = includes_status (allowed_transitions s.status) ShipmentStatus.cancelled
