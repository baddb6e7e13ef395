-- ===== src/CustomerShipment/Parcel/Store.antt =====
-- The tables of the module, and the methods of parcel.command.repository.ts and
-- shipment.command.repository.ts that change a status.
use multi_tenant_shipping_ma.Shared.{
  ℕ, ◌+◌, Bool, ◌&&◌, Option, String, List, ◌∷◌, map, ◌==◌, if◌then◌else◌, get_or, some_of,
}
use multi_tenant_shipping_ma.Shared.Effects.{Action, ok, err, ◌>>=◌, gets, modify, or_throw}
use multi_tenant_shipping_ma.Shared.Table.{find_first, update_many, count_if, select, has_key}
use multi_tenant_shipping_ma.CustomerShipment.Shipment.{
  ShipmentStatus, ParcelStatus, ShipmentError, stale_shipment, stale_parcel, parcel_not_found,
  CustomerShipment,
}
use multi_tenant_shipping_ma.CustomerShipment.Parcel.Aggregate.{Parcel, ParcelCondition}

pub data ActionType : Type 0 where
  received_at_branch loaded_on_trip trip_departed arrived_at_facility : ActionType
  ready_for_collection collected return_completed cancelled condition_updated : ActionType
  pod_completed created transferred : ActionType

-- A row of the tracking history, less the copied name and position of the unit.
pub record Movement : Type 0 where
  pub tenant_id : ℕ
  pub parcel_id : ℕ
  pub trip_id : Option ℕ
  pub organization_unit_id : Option ℕ
  pub action_type : ActionType
  pub previous_status : ParcelStatus
  pub new_status : ParcelStatus
  pub previous_condition : ParcelCondition
  pub new_condition : ParcelCondition
  pub notes : Option String

-- What the listeners of the module are told.
pub data LifecycleEvent : Type 0 where
  shipment_delivered shipment_returned : ℕ → ℕ → LifecycleEvent

pub record Tables : Type 0 where
  pub shipments : List CustomerShipment
  pub parcels : List Parcel
  pub movements : List Movement
  pub events : List LifecycleEvent

abbrev pub Shipping : Type 0 → Type 0
Shipping A = Action Tables ShipmentError A

abbrev pub shipment_id_of : CustomerShipment → ℕ
shipment_id_of s = s.id

abbrev pub parcel_id_of : Parcel → ℕ
parcel_id_of p = p.id

abbrev pub is_shipment_version : ℕ → ℕ → CustomerShipment → Bool
is_shipment_version id version s = s.id == id && s.version == version

abbrev pub set_shipment_status : ShipmentStatus → CustomerShipment → CustomerShipment
set_shipment_status status s = record s { status = status; version = s.version + 1 }

unfoldable pub update_shipment_status : ℕ → ShipmentStatus → ℕ → Shipping (Unit {0})
update_shipment_status id status version s = (
  if count_if (is_shipment_version id version) s.shipments == 0 then err stale_shipment else ok tt,
  record s {
    shipments =
        update_many (is_shipment_version id version) (set_shipment_status status) s.shipments;
  },
)

abbrev pub is_parcel_version : ℕ → ℕ → Parcel → Bool
is_parcel_version id version p = p.id == id && p.version == version

abbrev pub set_parcel : ParcelStatus → Option ParcelCondition → Option ℕ → Parcel → Parcel
set_parcel status condition org_unit p = record p {
  current_status = status;
  version = p.version + 1;
  current_condition = get_or condition p.current_condition;
  current_org_unit_id = org_unit;
}

unfoldable pub update_parcel_status :
    ℕ → ParcelStatus → ℕ → Option ParcelCondition → Option ℕ → Shipping (Unit {0})
update_parcel_status id status version condition org_unit s = (
  if count_if (is_parcel_version id version) s.parcels == 0 then err stale_parcel else ok tt,
  record s {
    parcels =
        update_many (is_parcel_version id version) (set_parcel status condition org_unit) s.parcels;
  },
)

abbrev pub is_among : List ℕ → Parcel → Bool
is_among ids p = some_of (λ k. k == p.id) ids

abbrev pub set_parcel_status : ParcelStatus → Parcel → Parcel
set_parcel_status status p = record p { current_status = status; version = p.version + 1 }

unfoldable pub update_parcel_statuses : List ℕ → ParcelStatus → Shipping (Unit {0})
update_parcel_statuses ids status =
    modify
      (λ s. record s { parcels = update_many (is_among ids) (set_parcel_status status) s.parcels })

abbrev pub is_of_shipment : ℕ → Parcel → Bool
is_of_shipment shipment_id p = p.customer_shipment_id == shipment_id

-- `findStatusesByShipmentId`
unfoldable pub find_statuses : ℕ → Tables → List ParcelStatus
find_statuses shipment_id s =
    map (λ (p : Parcel). p.current_status) (select (is_of_shipment shipment_id) s.parcels)

unfoldable pub find_shipment : ℕ → Shipping (Option CustomerShipment)
find_shipment id = gets (λ s. find_first (has_key shipment_id_of id) s.shipments)

unfoldable pub find_parcel_or_throw : ℕ → Shipping Parcel
find_parcel_or_throw id = do
  found ← gets (λ s. find_first (has_key parcel_id_of id) s.parcels)
  or_throw found parcel_not_found

abbrev pub has_tracking : ℕ → Parcel → Bool
has_tracking tracking_number p = p.tracking_number == tracking_number

unfoldable pub find_tracked_or_throw : ℕ → Shipping Parcel
find_tracked_or_throw tracking_number = do
  found ← gets (λ s. find_first (has_tracking tracking_number) s.parcels)
  or_throw found parcel_not_found

unfoldable pub append_movement : Movement → Shipping (Unit {0})
append_movement m = modify (λ s. record s { movements = m ∷ s.movements })

unfoldable pub emit : LifecycleEvent → Shipping (Unit {0})
emit e = modify (λ s. record s { events = e ∷ s.events })
