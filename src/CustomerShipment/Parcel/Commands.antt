-- ===== src/CustomerShipment/Parcel/Commands.antt =====
-- backend/src/modules/customer-shipment: shipment-status.recalculator.ts and the methods of
-- parcel.command.service.ts that move parcels.
use multi_tenant_shipping_ma.Shared.{
  ℕ, Bool, not, Option, none, some, String, List, [], ◌∷◌, map, ◌==◌, if◌then◌else◌, get_or,
  or_else, length, includes,
}
use multi_tenant_shipping_ma.Shared.Effects.{
  Result, ok, ◌>>=◌, ◌>>◌, pure, gets, lift, throw_if, transactional,
}
use multi_tenant_shipping_ma.Shared.Table.{select}
use multi_tenant_shipping_ma.CustomerShipment.Shipment.{
  ShipmentStatus, ParcelStatus, ShipmentError, parcels_not_accessible, CustomerShipment,
  recalculate_status,
}
use multi_tenant_shipping_ma.CustomerShipment.Parcel.Aggregate.{
  Parcel, ParcelCondition, transition_to, receive, mark_ready_for_dispatch, change_condition,
  move_to,
}
use multi_tenant_shipping_ma.CustomerShipment.Parcel.Store.{
  ActionType, received_at_branch, loaded_on_trip, collected, return_completed, cancelled,
  transferred, Movement, shipment_delivered, shipment_returned, Shipping, update_shipment_status,
  update_parcel_status, is_among, update_parcel_statuses, find_statuses, find_shipment,
  find_parcel_or_throw, find_tracked_or_throw, append_movement, emit, Tables,
}

unfoldable pub emit_lifecycle_event : ShipmentStatus → ℕ → ℕ → Shipping (Unit {0})
emit_lifecycle_event ShipmentStatus.delivered shipment_id tenant_id =
    emit (shipment_delivered shipment_id tenant_id)
emit_lifecycle_event ShipmentStatus.returned shipment_id tenant_id =
    emit (shipment_returned shipment_id tenant_id)
emit_lifecycle_event _ shipment_id tenant_id = pure tt

-- Stores a status that a shipment has taken, under the version it was loaded with.
abbrev store_new_status : CustomerShipment → Option ShipmentStatus → Shipping (Unit {0})
store_new_status s none = pure tt
store_new_status s (some status) = do
  update_shipment_status s.id status s.version
  emit_lifecycle_event status s.id s.tenant_id

abbrev recalculate_found : Tables → ℕ → Option CustomerShipment → Shipping (Unit {0})
recalculate_found committed shipment_id none = pure tt
recalculate_found committed shipment_id (some s) =
    store_new_status s (recalculate_status s (find_statuses shipment_id committed)).0

-- The shipment is read in the running transaction. The statuses of its parcels are read through
-- another connection, which sees the tables `committed` and not what the transaction has written.
unfoldable pub recalculate_from_parcels : Tables → ℕ → Shipping (Unit {0})
unfolding emit_lifecycle_event
recalculate_from_parcels committed shipment_id = do
  found ← find_shipment shipment_id
  recalculate_found committed shipment_id found

-- The `options` of `_applyAndPersistUpdate`.
pub record UpdateOptions : Type 0 where
  pub condition : Option ParcelCondition
  pub organization_unit_id : Option ℕ
  pub trip_id : Option ℕ
  pub notes : Option String

abbrev pub no_options : UpdateOptions
no_options = record { condition = none; organization_unit_id = none; trip_id = none; notes = none }

abbrev apply_condition : Option ParcelCondition → Parcel → Parcel
apply_condition none p = p
apply_condition (some condition) p = change_condition condition p

abbrev apply_unit : Option ℕ → Parcel → Parcel
apply_unit none p = p
apply_unit (some unit) p = move_to (some unit) p

-- The changed aggregate, before it is stored.
unfoldable pub apply_options : UpdateOptions → Parcel → Parcel
unfolding change_condition move_to
apply_options o p = apply_unit o.organization_unit_id (apply_condition o.condition p)

unfoldable pub movement_of : ActionType → UpdateOptions → Parcel → Parcel → Movement
movement_of action o before after = record {
  tenant_id = after.tenant_id;
  parcel_id = after.id;
  trip_id = o.trip_id;
  organization_unit_id = or_else o.organization_unit_id after.current_org_unit_id;
  action_type = action;
  previous_status = before.current_status;
  new_status = after.current_status;
  previous_condition = before.current_condition;
  new_condition = get_or o.condition after.current_condition;
  notes = o.notes;
}

-- `_applyAndPersistUpdate` once the aggregate has made its main change.
unfoldable pub store_update :
    Tables → Parcel → ActionType → UpdateOptions → Parcel → Shipping (Unit {0})
unfolding apply_options movement_of
store_update committed parcel action o updated = do
  let after = apply_options o updated
  update_parcel_status after.id after.current_status after.version o.condition
      after.current_org_unit_id
  append_movement (movement_of action o parcel after)
  recalculate_from_parcels committed after.customer_shipment_id

-- `_applyAndPersistUpdate` from a loaded parcel.
unfoldable pub apply_update :
    Tables
    → Parcel
    → ActionType
    → (Parcel → Result ShipmentError Parcel)
    → UpdateOptions
    → Shipping (Unit {0})
unfolding store_update
apply_update committed parcel action update o =
    transactional do updated ← lift (update parcel); store_update committed parcel action o updated

unfoldable pub receive_parcel : Tables → ℕ → Shipping (Unit {0})
receive_parcel committed tracking_number = do
  parcel ← find_tracked_or_throw tracking_number
  apply_update committed parcel received_at_branch receive no_options

unfoldable pub dispatch_parcel : Tables → ℕ → Shipping (Unit {0})
dispatch_parcel committed tracking_number = do
  parcel ← find_tracked_or_throw tracking_number
  apply_update committed parcel transferred mark_ready_for_dispatch no_options

unfoldable pub action_for : Option ParcelStatus → ActionType
action_for (some ParcelStatus.collected) = collected
action_for (some ParcelStatus.returned) = return_completed
action_for (some ParcelStatus.cancelled) = cancelled
action_for _ = transferred

abbrev transition_if : Option ParcelStatus → Parcel → Result ShipmentError Parcel
transition_if none p = ok p
transition_if (some status) p = transition_to p status

unfoldable pub update_status :
    Tables → ℕ → Option ParcelStatus → Option ParcelCondition → Option String → Shipping (Unit {0})
unfolding action_for
update_status committed tracking_number status condition notes = do
  parcel ← find_tracked_or_throw tracking_number
  apply_update committed parcel (action_for status) (transition_if status)
      (record no_options { condition = condition; notes = notes })

unfoldable pub pick_up_parcel : Tables → ℕ → ℕ → Shipping (Unit {0})
pick_up_parcel committed parcel_id trip_id = do
  parcel ← find_parcel_or_throw parcel_id
  apply_update committed parcel loaded_on_trip (λ p. transition_to p ParcelStatus.in_transit)
      (record no_options { trip_id = some trip_id; notes = some "Parcel loaded on trip" })

unfoldable pub drop_off_parcel : Tables → ℕ → ℕ → Option ℕ → Shipping (Unit {0})
drop_off_parcel committed parcel_id org_unit_id trip_id = do
  parcel ← find_parcel_or_throw parcel_id
  apply_update committed parcel transferred (λ p. transition_to p ParcelStatus.arrived_at_unit)
      (record no_options {
        organization_unit_id = some org_unit_id;
        trip_id = trip_id;
        notes = some "Parcel dropped off at unit";
      })

-- The domain rule applied to each parcel in turn: the movements, or the first exception.
unfoldable pub ready_all : List Parcel → Shipping (List Movement)
unfolding movement_of
ready_all [] = pure []
ready_all (p ∷ ps) = do
  p' ← lift (mark_ready_for_dispatch p)
  rest ← ready_all ps
  pure (movement_of transferred no_options p p' ∷ rest)

unfoldable pub append_movements : List Movement → Shipping (Unit {0})
append_movements [] = pure tt
append_movements (m ∷ ms) = append_movement m >> append_movements ms

-- The distinct shipments, each once.
unfoldable pub distinct : List ℕ → List ℕ
distinct [] = []
distinct (k ∷ ks) = let rest = distinct ks in if includes rest k then rest else k ∷ rest

unfoldable pub recalculate_all : Tables → List ℕ → Shipping (Unit {0})
recalculate_all committed [] = pure tt
recalculate_all committed (k ∷ ks) =
    recalculate_from_parcels committed k >> recalculate_all committed ks

module _ (in_scope : Parcel → Bool) (committed : Tables) where
  unfoldable pub find_scoped : List ℕ → Shipping (List Parcel)
  find_scoped ids = gets (λ s. select in_scope (select (is_among ids) s.parcels))

  -- `markParcelsReadyForDispatch` once there is a parcel.
  unfoldable pub ready_parcels : List ℕ → Shipping (Unit {0})
  unfolding ready_all append_movements distinct recalculate_all find_scoped
  ready_parcels ids = do
    parcels ← find_scoped ids
    throw_if (not (length parcels == length ids)) parcels_not_accessible
    movements ← ready_all parcels
    update_parcel_statuses ids ParcelStatus.ready_for_dispatch
    append_movements movements
    recalculate_all committed (distinct (map (λ (p : Parcel). p.customer_shipment_id) parcels))

  unfoldable pub mark_parcels_ready_for_dispatch : List ℕ → Shipping (Unit {0})
  unfolding ready_parcels
  mark_parcels_ready_for_dispatch [] = pure tt
  mark_parcels_ready_for_dispatch (p ∷ ps) = transactional (ready_parcels (p ∷ ps))
