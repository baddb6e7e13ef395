-- ===== src/Fleet/Manifest/Aggregate.antt =====
-- backend/src/modules/fleet/transport_manifest/domain: entities/transport-manifest.entity.ts,
-- entities/manifest-item.entity.ts and the enums. A method that assigns a field returns the new
-- record; `new Date()` is the argument `now`.
use multi_tenant_shipping_ma.Shared.{
  ℕ, Bool, true, false, not, ◌&&◌, ◌||◌, Option, some, String, List, [], ◌∷◌, ◌==◌, if◌then◌else◌,
  is_some,
}
use multi_tenant_shipping_ma.Shared.Effects.{Result, ok, err, check}

pub data ManifestStatus : Type 0 where
  open_list ready_for_dispatch assigned loading in_transit completed : ManifestStatus

abbrev pub manifest_status_eq : ManifestStatus → ManifestStatus → Bool
manifest_status_eq open_list open_list = true
manifest_status_eq ready_for_dispatch ready_for_dispatch = true
manifest_status_eq assigned assigned = true
manifest_status_eq loading loading = true
manifest_status_eq in_transit in_transit = true
manifest_status_eq completed completed = true
manifest_status_eq _ _ = false

pub data ManifestItemStatus : Type 0 where
  pending_load loaded unloaded missing : ManifestItemStatus

abbrev pub item_status_eq : ManifestItemStatus → ManifestItemStatus → Bool
item_status_eq pending_load pending_load = true
item_status_eq loaded loaded = true
item_status_eq unloaded unloaded = true
item_status_eq missing missing = true
item_status_eq _ _ = false

-- What a request may move an item to: PENDING_LOAD is not among them.
pub data ItemTarget : Type 0 where
  to_loaded to_unloaded to_missing : ItemTarget

-- One for each `throw` of the aggregates and of the command service.
pub data FleetError : Type 0 where
  invalid_route invalid_org_units not_assigned_to_unit wrong_tenant : FleetError
  manifest_not_found item_not_found illegal_manifest_transition items_frozen : FleetError
  not_reopenable already_on_trip cannot_load cannot_unload illegal_item_transition : FleetError
  duplicate_parcel parcel_in_active_manifest no_items not_available claimed_concurrently :
      FleetError
  -- what a call into the customer-shipment module throws
  parcel_refused : FleetError
  -- what the database throws for a reference to no row, and for a second row under a unique key
  foreign_key_violated unique_key_violated : FleetError
  trip_already_started trip_without_manifest trip_not_started trip_not_cancellable : FleetError
  trip_not_editable trip_not_found driver_not_found driver_without_vehicle : FleetError
  vehicle_not_found vehicle_not_operable duplicate_plate vehicle_already_assigned : FleetError
  driver_already_assigned assignment_not_found : FleetError

pub record TransportManifest : Type 0 where
  pub id : ℕ
  pub tenant_id : ℕ
  pub trip_id : Option ℕ
  pub origin_org_unit_id : ℕ
  pub destination_org_unit_id : ℕ
  pub status : ManifestStatus
  pub created_by_employee_id : Option ℕ
  pub created_by_employee_name : Option String
  pub created_at : ℕ
  pub updated_at : ℕ

pub record ManifestTransition : Type 0 where
  pub from : ManifestStatus
  pub to : ManifestStatus

unfoldable pub allowed_transitions : List ManifestTransition
allowed_transitions =
    record { from = open_list; to = ready_for_dispatch }
    ∷ record { from = ready_for_dispatch; to = assigned }
    ∷ record { from = assigned; to = loading }
    ∷ record { from = loading; to = in_transit }
    ∷ record { from = in_transit; to = completed }
    ∷ record { from = ready_for_dispatch; to = open_list }
    ∷ []

abbrev some_transition : List ManifestTransition → ManifestStatus → ManifestStatus → Bool
some_transition [] from to = false
some_transition (t ∷ ts) from to =
    (manifest_status_eq t.from from && manifest_status_eq t.to to) || some_transition ts from to

-- Both aggregates, and the trip, refuse a route from a unit to itself.
unfoldable pub assert_route_is_valid : ℕ → ℕ → Result FleetError (Unit {0})
assert_route_is_valid origin destination = check (origin == destination) invalid_route

unfoldable pub transition_to :
    TransportManifest → ManifestStatus → Result FleetError TransportManifest
unfolding allowed_transitions
transition_to m target =
    if not (some_transition allowed_transitions m.status target)
    then err illegal_manifest_transition
    else ok (record m { status = target })

unfoldable pub assert_items_modifiable : TransportManifest → Result FleetError (Unit {0})
assert_items_modifiable m = check (not (manifest_status_eq m.status open_list)) items_frozen

unfoldable pub finalize : TransportManifest → Result FleetError TransportManifest
unfolding transition_to
finalize m = transition_to m ready_for_dispatch

unfoldable pub reopen : TransportManifest → Result FleetError TransportManifest
unfolding transition_to
reopen m = if is_some m.trip_id then err not_reopenable else transition_to m open_list

abbrev with_trip : ℕ → Result FleetError TransportManifest → Result FleetError TransportManifest
with_trip trip_id (ok m) = ok (record m { trip_id = some trip_id })
with_trip trip_id (err e) = err e

unfoldable pub assign_to_trip : TransportManifest → ℕ → Result FleetError TransportManifest
unfolding transition_to
assign_to_trip m trip_id =
    if is_some m.trip_id then err already_on_trip else with_trip trip_id (transition_to m assigned)

unfoldable pub start_loading : TransportManifest → Result FleetError TransportManifest
unfolding transition_to
start_loading m = transition_to m loading

unfoldable pub complete_loading : TransportManifest → Result FleetError TransportManifest
unfolding transition_to
complete_loading m = transition_to m in_transit

unfoldable pub mark_completed : TransportManifest → Result FleetError TransportManifest
unfolding transition_to
mark_completed m = transition_to m completed

abbrev is_loading_state : ManifestStatus → Bool
is_loading_state assigned = true
is_loading_state loading = true
is_loading_state _ = false

unfoldable pub assert_item_status_updatable :
    TransportManifest → ItemTarget → Result FleetError (Unit {0})
assert_item_status_updatable m to_loaded = check (not (is_loading_state m.status)) cannot_load
assert_item_status_updatable m to_unloaded =
    check (not (manifest_status_eq m.status in_transit)) cannot_unload
assert_item_status_updatable m to_missing =
    check (not (manifest_status_eq m.status in_transit)) cannot_unload

unfoldable pub accepts_manifest_assignment : TransportManifest → Bool
accepts_manifest_assignment m =
    manifest_status_eq m.status ready_for_dispatch && not (is_some m.trip_id)

pub record ManifestItem : Type 0 where
  pub id : ℕ
  pub manifest_id : ℕ
  pub parcel_id : ℕ
  pub status : ManifestItemStatus
  pub loaded_at : Option ℕ
  pub unloaded_at : Option ℕ
  pub added_by_employee_id : Option ℕ
  pub added_by_employee_name : Option String

unfoldable pub mark_loaded : ℕ → ManifestItem → Result FleetError ManifestItem
mark_loaded now i =
    if not (item_status_eq i.status pending_load)
    then err illegal_item_transition
    else ok (record i { status = loaded; loaded_at = some now })

unfoldable pub mark_unloaded : ℕ → ManifestItem → Result FleetError ManifestItem
mark_unloaded now i =
    if not (item_status_eq i.status loaded)
    then err illegal_item_transition
    else ok (record i { status = unloaded; unloaded_at = some now })

abbrev pub is_occupying : ManifestItemStatus → Bool
is_occupying status = item_status_eq status pending_load || item_status_eq status loaded

unfoldable pub mark_missing : ManifestItem → Result FleetError ManifestItem
mark_missing i =
    if not (item_status_eq i.status pending_load) && not (item_status_eq i.status loaded)
    then err illegal_item_transition
    else ok (record i { status = missing })

unfoldable pub is_occupying_parcel : ManifestItem → Bool
is_occupying_parcel i = is_occupying i.status
