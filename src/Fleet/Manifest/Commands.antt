-- ===== src/Fleet/Manifest/Commands.antt =====
-- backend/src/modules/fleet/transport_manifest/application/services/manifest-command.service.ts
use multi_tenant_shipping_ma.Shared.{
  ℕ, Bool, not, ◌==◌, Option, none, some, String, List, [], ◌∷◌, if◌then◌else◌, length,
}
use multi_tenant_shipping_ma.Shared.Effects.{
  Result, ◌>>=◌, ◌>>◌, pure, lift, throw_if, transactional,
}
use multi_tenant_shipping_ma.Fleet.Manifest.Aggregate.{
  assigned, manifest_status_eq, pending_load, loaded, ItemTarget, to_loaded, to_unloaded,
  to_missing, FleetError, invalid_org_units, not_assigned_to_unit, wrong_tenant, duplicate_parcel,
  parcel_in_active_manifest, no_items, not_available, claimed_concurrently, TransportManifest,
  ManifestItem, assert_route_is_valid, assert_items_modifiable, finalize, reopen, start_loading,
  complete_loading, mark_completed, assert_item_status_updatable, mark_loaded, mark_unloaded,
  mark_missing,
}
use multi_tenant_shipping_ma.Fleet.Manifest.Store.{
  Fleet, new_manifest, create_manifest_row, update_status, mark_trip_manifests_in_transit,
  mark_trip_manifests_completed, link_to_trip, new_item, create_items, update_item_row, delete_item,
  count_items_by_status, find_manifest_or_throw, find_item_or_throw, find_items,
  are_parcels_in_active_manifest, exists_items_for_parcels, find_bookable,
}

-- The other modules that the service asks: the organisation and the employees, and the parcels,
-- whose own tables it does not see. A call about a parcel returns or throws.
pub record Facades : Type 0 where
  pub org_units_exist : ℕ → List ℕ → Bool
  pub is_assigned_to : ℕ → ℕ → Bool
  pub employee_name : ℕ → Option String
  pub mark_ready : List ℕ → Result FleetError (Unit {0})
  pub mark_parcel_loaded : ℕ → Option ℕ → Result FleetError (Unit {0})
  pub mark_parcel_unloaded : ℕ → ℕ → Option ℕ → Result FleetError (Unit {0})

module _ (f : Facades) where
  abbrev name_of : Option ℕ → Option String
  name_of none = none
  name_of (some employee_id) = f.employee_name employee_id

  abbrev assert_assigned : Option ℕ → ℕ → Fleet (Unit {0})
  assert_assigned none unit = pure tt
  assert_assigned (some employee_id) unit =
      throw_if (not (f.is_assigned_to employee_id unit)) not_assigned_to_unit

  unfoldable pub assert_employee_can_edit_manifest : Option ℕ → TransportManifest → Fleet (Unit {0})
  assert_employee_can_edit_manifest employee_id m = assert_assigned employee_id m.origin_org_unit_id

  -- A manifest of the tenant, as every command loads it.
  unfoldable pub load_own : ℕ → ℕ → Fleet TransportManifest
  load_own tenant_id manifest_id = do
    m ← find_manifest_or_throw manifest_id
    throw_if (not (m.tenant_id == tenant_id)) wrong_tenant
    pure m

  unfoldable pub create_manifest : ℕ → ℕ → Option ℕ → ℕ → ℕ → Fleet ℕ
  create_manifest now tenant_id employee_id origin destination = transactional do
    lift (assert_route_is_valid origin destination)
    throw_if (not (f.org_units_exist tenant_id (origin ∷ destination ∷ []))) invalid_org_units
    assert_assigned employee_id origin
    create_manifest_row
        (λ id. new_manifest id now tenant_id origin destination employee_id (name_of employee_id))

  -- `addItems` once there is a parcel. The identifiers that it returns are those of the items
  -- before they are stored, which are all empty, and are not modelled.
  unfoldable pub add_some_items : ℕ → ℕ → Option ℕ → List ℕ → Fleet (Unit {0})
  add_some_items tenant_id manifest_id employee_id parcel_ids = do
    m ← load_own tenant_id manifest_id
    lift (assert_items_modifiable m)
    assert_employee_can_edit_manifest employee_id m
    duplicate ← exists_items_for_parcels manifest_id parcel_ids
    throw_if duplicate duplicate_parcel
    taken ← are_parcels_in_active_manifest tenant_id parcel_ids manifest_id
    throw_if taken parcel_in_active_manifest
    create_items (new_item manifest_id employee_id (name_of employee_id)) parcel_ids
    lift (f.mark_ready parcel_ids)

  unfoldable pub add_items : ℕ → ℕ → Option ℕ → List ℕ → Fleet (Unit {0})
  unfolding add_some_items
  add_items tenant_id manifest_id employee_id [] = pure tt
  add_items tenant_id manifest_id employee_id (p ∷ ps) =
      transactional (add_some_items tenant_id manifest_id employee_id (p ∷ ps))

  -- The first scan of an assigned manifest starts the loading.
  unfoldable pub begin_loading : TransportManifest → Fleet TransportManifest
  begin_loading m =
      if manifest_status_eq m.status assigned
      then (do m' ← lift (start_loading m); update_status m.id m'.status; pure m')
      else pure m

  -- The last scan completes the loading.
  unfoldable pub finish_loading : TransportManifest → Fleet (Unit {0})
  finish_loading m = do
    pending ← count_items_by_status m.id pending_load
    if pending == 0
        then (do m' ← lift (complete_loading m); update_status m.id m'.status)
        else pure tt

  unfoldable pub load_item : ℕ → TransportManifest → ManifestItem → Fleet (Unit {0})
  unfolding begin_loading finish_loading
  load_item now m item = do
    item' ← lift (mark_loaded now item)
    update_item_row item.id item'.status item'.loaded_at none
    lift (f.mark_parcel_loaded item'.parcel_id m.trip_id)
    m' ← begin_loading m
    finish_loading m'

  -- The last unloading completes the manifest.
  unfoldable pub finish_unloading : TransportManifest → Fleet (Unit {0})
  finish_unloading m = do
    still_loaded ← count_items_by_status m.id loaded
    if still_loaded == 0
        then (do m' ← lift (mark_completed m); update_status m.id m'.status)
        else pure tt

  unfoldable pub unload_item : ℕ → TransportManifest → ManifestItem → Fleet (Unit {0})
  unfolding finish_unloading
  unload_item now m item = do
    item' ← lift (mark_unloaded now item)
    update_item_row item.id item'.status item'.loaded_at item'.unloaded_at
    lift (f.mark_parcel_unloaded item'.parcel_id m.destination_org_unit_id m.trip_id)
    finish_unloading m

  unfoldable pub miss_item : ManifestItem → Fleet (Unit {0})
  miss_item item = do
    item' ← lift (mark_missing item)
    update_item_row item.id item'.status item'.loaded_at none

  abbrev apply_target : ℕ → TransportManifest → ItemTarget → ManifestItem → Fleet (Unit {0})
  apply_target now m to_loaded item = load_item now m item
  apply_target now m to_unloaded item = unload_item now m item
  apply_target now m to_missing item = miss_item item

  -- `updateItemStatus` once the manifest is loaded.
  unfoldable pub update_found : ℕ → ℕ → ItemTarget → TransportManifest → Fleet (Unit {0})
  unfolding load_item unload_item miss_item
  update_found now item_id target m = do
    lift (assert_item_status_updatable m target)
    item ← find_item_or_throw m.id item_id
    apply_target now m target item

  unfoldable pub update_item_status : ℕ → ℕ → ℕ → ℕ → ItemTarget → Fleet (Unit {0})
  unfolding update_found
  update_item_status now tenant_id manifest_id item_id target =
      transactional do m ← load_own tenant_id manifest_id; update_found now item_id target m

  unfoldable pub remove_item : ℕ → ℕ → ℕ → Option ℕ → Fleet (Unit {0})
  remove_item tenant_id manifest_id item_id employee_id = transactional do
    m ← load_own tenant_id manifest_id
    lift (assert_items_modifiable m)
    assert_employee_can_edit_manifest employee_id m
    _ ← find_item_or_throw manifest_id item_id
    delete_item item_id

  unfoldable pub finalize_manifest : ℕ → ℕ → Option ℕ → Fleet (Unit {0})
  finalize_manifest tenant_id manifest_id employee_id = transactional do
    m ← load_own tenant_id manifest_id
    assert_employee_can_edit_manifest employee_id m
    items ← find_items manifest_id
    throw_if (length items == 0) no_items
    m' ← lift (finalize m)
    update_status manifest_id m'.status

  unfoldable pub reopen_manifest : ℕ → ℕ → Option ℕ → Fleet (Unit {0})
  reopen_manifest tenant_id manifest_id employee_id = transactional do
    m ← load_own tenant_id manifest_id
    assert_employee_can_edit_manifest employee_id m
    m' ← lift (reopen m)
    update_status manifest_id m'.status

-- `assignManifestsToTrip` once there is a manifest to assign.
unfoldable pub link_manifests : (ℕ → Bool) → ℕ → ℕ → List ℕ → Fleet (Unit {0})
link_manifests trip_exists tenant_id trip_id ids = do
  bookable ← find_bookable ids tenant_id
  throw_if (not (length bookable == length ids)) not_available
  updated ← link_to_trip trip_exists ids trip_id tenant_id
  throw_if (not (updated == length ids)) claimed_concurrently

unfoldable pub assign_manifests_to_trip : (ℕ → Bool) → ℕ → ℕ → List ℕ → Fleet (Unit {0})
unfolding link_manifests
assign_manifests_to_trip trip_exists tenant_id trip_id [] = pure tt
assign_manifests_to_trip trip_exists tenant_id trip_id (m ∷ ms) =
    transactional (link_manifests trip_exists tenant_id trip_id (m ∷ ms))

-- The bulk updates for a trip that departs or arrives.
unfoldable pub mark_trip_departed : ℕ → ℕ → Fleet (Unit {0})
unfolding mark_trip_manifests_in_transit
mark_trip_departed tenant_id trip_id = mark_trip_manifests_in_transit tenant_id trip_id

unfoldable pub mark_trip_arrived : ℕ → ℕ → Fleet (Unit {0})
unfolding mark_trip_manifests_completed
mark_trip_arrived tenant_id trip_id = mark_trip_manifests_completed tenant_id trip_id
