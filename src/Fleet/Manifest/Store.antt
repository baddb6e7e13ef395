-- ===== src/Fleet/Manifest/Store.antt =====
-- backend/src/modules/fleet/transport_manifest/infrastructure/repositories:
-- transport-manifest-command.repository.ts and the queries of
-- transport-manifest-query.repository.ts that decide what a command does.
use multi_tenant_shipping_ma.Shared.{
  ℕ, ◌+◌, Bool, false, not, ◌&&◌, Option, none, some, String, List, [], ◌∷◌, ◌++◌, ◌==◌,
  if◌then◌else◌, is_some, some_of, length,
}
use multi_tenant_shipping_ma.Shared.Effects.{Action, ok, err, gets, modify, found_or}
use multi_tenant_shipping_ma.Shared.Table.{
  find_first, update_many, count_if, select, delete_many, has_key,
}
use multi_tenant_shipping_ma.Fleet.Manifest.Aggregate.{
  ManifestStatus, open_list, ready_for_dispatch, assigned, in_transit, completed,
  manifest_status_eq, ManifestItemStatus, pending_load, item_status_eq, FleetError,
  foreign_key_violated, manifest_not_found, item_not_found, TransportManifest, ManifestItem,
  is_occupying,
}

pub record Tables : Type 0 where
  pub manifests : List TransportManifest
  pub items : List ManifestItem
  pub next_id : ℕ

abbrev pub Fleet : Type 0 → Type 0
Fleet A = Action Tables FleetError A

abbrev pub id_of : TransportManifest → ℕ
id_of m = m.id

abbrev pub item_id_of : ManifestItem → ℕ
item_id_of i = i.id

abbrev pub is_in : List ℕ → ℕ → Bool
is_in ids id = some_of (λ k. k == id) ids

-- `TransportManifest.create`, and the row that the insert makes of it.
abbrev pub new_manifest : ℕ → ℕ → ℕ → ℕ → ℕ → Option ℕ → Option String → TransportManifest
new_manifest id now tenant_id origin destination employee_id employee_name = record {
  id = id;
  tenant_id = tenant_id;
  trip_id = none;
  origin_org_unit_id = origin;
  destination_org_unit_id = destination;
  status = open_list;
  created_by_employee_id = employee_id;
  created_by_employee_name = employee_name;
  created_at = now;
  updated_at = now;
}

unfoldable pub create_manifest_row : (ℕ → TransportManifest) → Fleet ℕ
create_manifest_row row s =
    (ok s.next_id, record s { manifests = row s.next_id ∷ s.manifests; next_id = s.next_id + 1 })

abbrev pub set_status : ManifestStatus → TransportManifest → TransportManifest
set_status status m = record m { status = status }

-- `update` of one row by its key; it throws where the row is gone.
unfoldable pub update_status : ℕ → ManifestStatus → Fleet (Unit {0})
update_status id status s = (
  if count_if (has_key id_of id) s.manifests == 0 then err manifest_not_found else ok tt,
  record s { manifests = update_many (has_key id_of id) (set_status status) s.manifests },
)

abbrev is_of_trip : ℕ → ℕ → ManifestStatus → TransportManifest → Bool
is_of_trip tenant_id trip_id status m =
    m.tenant_id == tenant_id
    && (elim m.trip_id [ none ↦ false | some t ↦ t == trip_id ])
    && manifest_status_eq m.status status

unfoldable pub mark_trip_manifests_in_transit : ℕ → ℕ → Fleet (Unit {0})
mark_trip_manifests_in_transit tenant_id trip_id = modify (λ s. record s {
  manifests =
      update_many (is_of_trip tenant_id trip_id assigned) (set_status in_transit) s.manifests;
})

unfoldable pub mark_trip_manifests_completed : ℕ → ℕ → Fleet (Unit {0})
mark_trip_manifests_completed tenant_id trip_id = modify (λ s. record s {
  manifests =
      update_many (is_of_trip tenant_id trip_id in_transit) (set_status completed) s.manifests;
})

abbrev pub is_ready : ℕ → TransportManifest → Bool
is_ready tenant_id m = m.tenant_id == tenant_id && manifest_status_eq m.status ready_for_dispatch

abbrev pub is_linkable : List ℕ → ℕ → TransportManifest → Bool
is_linkable ids tenant_id m = is_in ids m.id && is_ready tenant_id m && not (is_some m.trip_id)

abbrev pub set_trip : ℕ → TransportManifest → TransportManifest
set_trip trip_id m = record m { trip_id = some trip_id; status = assigned }

-- `updateMany`. A row that is linked to a trip that does not exist violates the foreign key, and
-- the statement then changes nothing.
unfoldable pub link_to_trip : (ℕ → Bool) → List ℕ → ℕ → ℕ → Fleet ℕ
link_to_trip trip_exists ids trip_id tenant_id s =
    if not (trip_exists trip_id) && not (count_if (is_linkable ids tenant_id) s.manifests == 0)
    then (err foreign_key_violated, s)
    else (
      ok (count_if (is_linkable ids tenant_id) s.manifests),
      record s {
        manifests = update_many (is_linkable ids tenant_id) (set_trip trip_id) s.manifests;
      },
    )

-- `ManifestItem.create` for each parcel, and the rows that `createMany` makes of them.
abbrev pub new_item : ℕ → Option ℕ → Option String → ℕ → ℕ → ManifestItem
new_item manifest_id employee_id employee_name id parcel_id = record {
  id = id;
  manifest_id = manifest_id;
  parcel_id = parcel_id;
  status = pending_load;
  loaded_at = none;
  unloaded_at = none;
  added_by_employee_id = employee_id;
  added_by_employee_name = employee_name;
}

abbrev pub numbered : (ℕ → ℕ → ManifestItem) → ℕ → List ℕ → List ManifestItem
numbered row id [] = []
numbered row id (p ∷ ps) = row id p ∷ numbered row (id + 1) ps

unfoldable pub create_items : (ℕ → ℕ → ManifestItem) → List ℕ → Fleet (Unit {0})
create_items row parcel_ids = modify (λ s. record s {
  items = numbered row s.next_id parcel_ids ++ s.items;
  next_id = s.next_id + length parcel_ids;
})

-- A time that is left out stays as it was in the row.
abbrev pub keep_or : Option ℕ → Option ℕ → Option ℕ
keep_or none old = old
keep_or (some t) old = some t

abbrev pub set_item : ManifestItemStatus → Option ℕ → Option ℕ → ManifestItem → ManifestItem
set_item status loaded_at unloaded_at i = record i {
  status = status;
  loaded_at = keep_or loaded_at i.loaded_at;
  unloaded_at = keep_or unloaded_at i.unloaded_at;
}

unfoldable pub update_item_row : ℕ → ManifestItemStatus → Option ℕ → Option ℕ → Fleet (Unit {0})
update_item_row id status loaded_at unloaded_at s = (
  if count_if (has_key item_id_of id) s.items == 0 then err item_not_found else ok tt,
  record s {
    items = update_many (has_key item_id_of id) (set_item status loaded_at unloaded_at) s.items;
  },
)

unfoldable pub delete_item : ℕ → Fleet (Unit {0})
delete_item id s = (
  if count_if (has_key item_id_of id) s.items == 0 then err item_not_found else ok tt,
  record s { items = delete_many (has_key item_id_of id) s.items },
)

abbrev pub has_item_status : ℕ → ManifestItemStatus → ManifestItem → Bool
has_item_status manifest_id status i =
    i.manifest_id == manifest_id && item_status_eq i.status status

unfoldable pub count_items_by_status : ℕ → ManifestItemStatus → Fleet ℕ
count_items_by_status manifest_id status =
    gets (λ s. count_if (has_item_status manifest_id status) s.items)

unfoldable pub find_manifest_or_throw : ℕ → Fleet TransportManifest
find_manifest_or_throw id s =
    (found_or (find_first (has_key id_of id) s.manifests) manifest_not_found, s)

abbrev pub is_item : ℕ → ℕ → ManifestItem → Bool
is_item manifest_id item_id i = i.manifest_id == manifest_id && i.id == item_id

unfoldable pub find_item_or_throw : ℕ → ℕ → Fleet ManifestItem
find_item_or_throw manifest_id item_id s =
    (found_or (find_first (is_item manifest_id item_id) s.items) item_not_found, s)

abbrev pub is_on : ℕ → ManifestItem → Bool
is_on manifest_id i = i.manifest_id == manifest_id

unfoldable pub find_items : ℕ → Fleet (List ManifestItem)
find_items manifest_id = gets (λ s. select (is_on manifest_id) s.items)

-- `ACTIVE_MANIFEST_STATUSES`
unfoldable pub active_manifest_statuses : List ManifestStatus
active_manifest_statuses = open_list ∷ ready_for_dispatch ∷ assigned ∷ in_transit ∷ []

abbrev pub is_active_for : ℕ → ℕ → ManifestItem → TransportManifest → Bool
unfolding active_manifest_statuses
is_active_for tenant_id excluded i m =
    m.id == i.manifest_id
    && m.tenant_id == tenant_id
    && some_of (manifest_status_eq m.status) active_manifest_statuses
    && not (m.id == excluded)

abbrev pub is_taken : ℕ → ℕ → List ℕ → List TransportManifest → ManifestItem → Bool
is_taken tenant_id excluded parcel_ids manifests i =
    is_in parcel_ids i.parcel_id
    && is_occupying i.status
    && some_of (is_active_for tenant_id excluded i) manifests

unfoldable pub are_parcels_in_active_manifest : ℕ → List ℕ → ℕ → Fleet Bool
are_parcels_in_active_manifest tenant_id parcel_ids excluded =
    gets (λ s. some_of (is_taken tenant_id excluded parcel_ids s.manifests) s.items)

unfoldable pub exists_items_for_parcels : ℕ → List ℕ → Fleet Bool
exists_items_for_parcels manifest_id parcel_ids =
    gets (λ s. some_of (λ i. is_on manifest_id i && is_in parcel_ids i.parcel_id) s.items)

unfoldable pub find_bookable : List ℕ → ℕ → Fleet (List TransportManifest)
find_bookable ids tenant_id =
    gets (λ s. select (λ m. is_in ids m.id && is_ready tenant_id m) s.manifests)
