-- ===== src/CustomerShipment/Parcel/Aggregate.antt =====
-- backend/src/modules/customer-shipment/parcel/domain/entities/parcel.entity.ts
use multi_tenant_shipping_ma.Shared.{
  ℕ, Bool, false, not, ◌&&◌, ◌||◌, Option, String, List, [], ◌∷◌, if◌then◌else◌, option_eq,
}
use multi_tenant_shipping_ma.Shared.Effects.{Result, ok, err, check}
use multi_tenant_shipping_ma.CustomerShipment.Shipment.{
  ParcelStatus, parcel_status_eq, ShipmentError, already_in_status, illegal_parcel_transition,
  not_arrived, not_processing, not_collectable,
}

unfoldable pub allowed_transitions : ParcelStatus → List ParcelStatus
allowed_transitions ParcelStatus.processing =
    ParcelStatus.ready_for_dispatch ∷ ParcelStatus.returned ∷ []
allowed_transitions ParcelStatus.ready_for_dispatch = ParcelStatus.in_transit ∷ []
allowed_transitions ParcelStatus.in_transit = ParcelStatus.arrived_at_unit ∷ []
allowed_transitions ParcelStatus.arrived_at_unit =
    ParcelStatus.processing ∷ ParcelStatus.ready_for_collection ∷ []
allowed_transitions ParcelStatus.ready_for_collection = ParcelStatus.collected ∷ []
allowed_transitions ParcelStatus.collected = []
allowed_transitions ParcelStatus.returned = []
allowed_transitions ParcelStatus.cancelled = []

abbrev pub includes_parcel_status : List ParcelStatus → ParcelStatus → Bool
includes_parcel_status [] target = false
includes_parcel_status (x ∷ xs) target =
    parcel_status_eq x target || includes_parcel_status xs target

pub data ParcelCondition : Type 0 where
  normal damaged opened lost destroyed : ParcelCondition

pub record Parcel : Type 0 where
  pub id : ℕ
  pub version : ℕ
  pub tenant_id : ℕ
  pub customer_shipment_id : ℕ
  pub tracking_number : ℕ
  pub current_status : ParcelStatus
  pub current_condition : ParcelCondition
  pub current_org_unit_id : Option ℕ
  pub destination_org_unit_id : Option ℕ
  pub label_key : Option String

unfoldable pub is_final_destination : Parcel → Bool
is_final_destination p = option_eq p.current_org_unit_id p.destination_org_unit_id

unfoldable pub transition_to : Parcel → ParcelStatus → Result ShipmentError Parcel
unfolding allowed_transitions
transition_to p target =
    if parcel_status_eq target p.current_status
    then err already_in_status
    else if not (includes_parcel_status (allowed_transitions p.current_status) target)
    then err illegal_parcel_transition
    else ok (record p { current_status = target })

unfoldable pub receive : Parcel → Result ShipmentError Parcel
unfolding transition_to is_final_destination
receive p =
    if not (parcel_status_eq p.current_status ParcelStatus.arrived_at_unit)
    then err not_arrived
    else transition_to p (
        if is_final_destination p
        then ParcelStatus.ready_for_collection
        else ParcelStatus.processing)

unfoldable pub mark_ready_for_dispatch : Parcel → Result ShipmentError Parcel
unfolding transition_to
mark_ready_for_dispatch p =
    if not (parcel_status_eq p.current_status ParcelStatus.processing)
    then err not_processing
    else transition_to p ParcelStatus.ready_for_dispatch

unfoldable pub change_condition : ParcelCondition → Parcel → Parcel
change_condition condition p = record p { current_condition = condition }

unfoldable pub move_to : Option ℕ → Parcel → Parcel
move_to org_unit_id p = record p { current_org_unit_id = org_unit_id }

unfoldable pub is_collected : Parcel → Bool
is_collected p = parcel_status_eq p.current_status ParcelStatus.collected

unfoldable pub assert_collectable : Parcel → Result ShipmentError (Unit {0})
assert_collectable p =
    check
      (not (parcel_status_eq p.current_status ParcelStatus.ready_for_collection)
        && not (parcel_status_eq p.current_status ParcelStatus.collected))
      not_collectable
