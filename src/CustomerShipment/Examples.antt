-- ===== src/CustomerShipment/Examples.antt =====
-- The theorems on shipments at concrete inputs.
use multi_tenant_shipping_ma.Shared.{◌≡◌, refl, none, some, [], ◌∷◌}
use multi_tenant_shipping_ma.Shared.Table.{select, count_if}
use multi_tenant_shipping_ma.Shared.Effects.{err}
use multi_tenant_shipping_ma.CustomerShipment.Parcel.{
  Parcel, normal, transition_to, Tables, loaded_on_trip, is_parcel_version, no_options,
  apply_update,
}
use multi_tenant_shipping_ma.CustomerShipment.Parcel.Locking.{
  transition_to-Keeps, apply_update_stale,
}
use multi_tenant_shipping_ma.CustomerShipment.Shipment.{
  ShipmentError, ShipmentStatus, ParcelStatus, CustomerShipment, is_live, recalculate_status,
}
use multi_tenant_shipping_ma.CustomerShipment.Shipment.Derived.{
  to_collection, every_collectable, Recalculation, recalculate_status-Recalculation,
  recalculate_status-collected,
}
use multi_tenant_shipping_ma.CustomerShipment.Shipment.Follows.{recalculate_status_follows}

abbrev under_way : CustomerShipment
under_way = record {
  id = 7;
  version = 3;
  tenant_id = 9;
  sender_name = "Rima";
  sender_phone = "111";
  sender_national_id = none;
  shipment_request_id = none;
  origin_org_unit_id = 3;
  destination_org_unit_id = 5;
  service_level = "STANDARD";
  receiver_name = "Sami";
  receiver_phone = "222";
  payment_responsibility = "SENDER";
  total_chargeable_weight_kg = none;
  status = ShipmentStatus.in_transit;
  created_at = 0;
  updated_at = 0;
  created_by_employee_id = none;
  created_by_employee_name = none;
}

recalculate_status-Recalculation_example :
    Recalculation under_way
      (select is_live (ParcelStatus.ready_for_collection ∷ []))
      (recalculate_status under_way (ParcelStatus.ready_for_collection ∷ []))
recalculate_status-Recalculation_example =
    recalculate_status-Recalculation under_way (ParcelStatus.ready_for_collection ∷ [])

-- Two parcels, of which one was collected before the other one arrived, and a returned one.
recalculate_status-collected_example :
    recalculate_status under_way
      (ParcelStatus.collected ∷ ParcelStatus.collected ∷ ParcelStatus.returned ∷ [])
    ≡ (none, under_way)
unfolding select
recalculate_status-collected_example =
    recalculate_status-collected under_way
      (ParcelStatus.collected ∷ ParcelStatus.collected ∷ ParcelStatus.returned ∷ []) refl refl

-- A parcel that was loaded at version 2, and stored at version 3.
abbrev loaded_parcel : Parcel
loaded_parcel = record {
  id = 21;
  version = 2;
  tenant_id = 9;
  customer_shipment_id = 7;
  tracking_number = 500;
  current_status = ParcelStatus.ready_for_dispatch;
  current_condition = normal;
  current_org_unit_id = some 3;
  destination_org_unit_id = some 5;
  label_key = none;
}

abbrev depot : Tables
depot = record {
  shipments = under_way ∷ [];
  parcels = record loaded_parcel { version = 3 } ∷ [];
  movements = [];
  events = [];
}

overtaken : count_if (is_parcel_version 21 2) depot.parcels ≡ 0
unfolding count_if
overtaken = refl

apply_update_stale_example :
    (x : ShipmentError) × (apply_update depot loaded_parcel loaded_on_trip
        (λ p. transition_to p ParcelStatus.in_transit)
        no_options
        depot
      ≡ (err x, depot))
apply_update_stale_example =
    apply_update_stale depot loaded_parcel loaded_on_trip
      (λ p. transition_to p ParcelStatus.in_transit) no_options depot
      (transition_to-Keeps ParcelStatus.in_transit) overtaken

one_waiting :
    select is_live (ParcelStatus.returned ∷ ParcelStatus.ready_for_collection ∷ [])
    ≡ ParcelStatus.ready_for_collection ∷ []
unfolding select
one_waiting = refl

recalculate_status_follows_example :
    recalculate_status under_way (ParcelStatus.returned ∷ ParcelStatus.ready_for_collection ∷ [])
    ≡ (
      some ShipmentStatus.ready_for_collection,
      record under_way { status = ShipmentStatus.ready_for_collection },
    )
recalculate_status_follows_example =
    recalculate_status_follows under_way
      (ParcelStatus.returned ∷ ParcelStatus.ready_for_collection ∷ []) []
      ParcelStatus.ready_for_collection ShipmentStatus.ready_for_collection one_waiting
      (every_collectable (refl, tt)) to_collection
