-- ===== src/Fleet/Manifest/Stuck.antt =====
-- A manifest in transit none of whose items is loaded: `updateItemStatus` of
-- manifest-command.service.ts.
use multi_tenant_shipping_ma.Shared.{
  ℕ, ◌≡◌, refl, sym, subst, false, none, some, arith, All, Bool-cases, Option-cases, inl, inr, ◌==◌,
}
use multi_tenant_shipping_ma.Shared.Effects.{◌>>=◌}
use multi_tenant_shipping_ma.Shared.Ensures.{
  Ensures, Ensures-step, transactional-Ensures, transactional_outcome,
}
use multi_tenant_shipping_ma.Shared.Table.{
  find_first, update_many, All-update_many, count_if, has_key, All-find_first, find_first_fits,
}
use multi_tenant_shipping_ma.Fleet.Manifest.Aggregate.{
  TransportManifest, ManifestItem, in_transit, loaded, missing, pending_load, item_status_eq,
  ItemTarget, to_loaded, to_unloaded, to_missing, assert_item_status_updatable, mark_unloaded,
  mark_missing,
}
use multi_tenant_shipping_ma.Fleet.Manifest.Store.{
  Tables, id_of, item_id_of, set_item, is_item, has_item_status, find_manifest_or_throw,
  find_item_or_throw, update_item_row,
}
use multi_tenant_shipping_ma.Fleet.Manifest.Commands.{
  Facades, load_own, update_found, unload_item, miss_item, update_item_status,
}

-- No item of the manifest is loaded, and the manifests are those of `s`.
abbrev pub StaysStuck : Tables → TransportManifest → Tables → Type 0
StaysStuck s m s' =
    (s'.manifests ≡ s.manifests) × All (λ i. has_item_status m.id loaded i ≡ false) s'.items

module _ (f : Facades) (now t id item_id : ℕ) (target : ItemTarget) (s : Tables) where
  load_own-Ensures :
      Ensures
        (λ m s'. (s' ≡ s) × (find_first (has_key id_of id) s.manifests ≡ some m))
        (load_own f t id s)
  unfolding load_own find_manifest_or_throw
  load_own-Ensures = elim (Option-cases (find_first (has_key id_of id) s.manifests)) [
    | inl h ↦ rw (◌>>=◌, h) tt
    | inr (m, h) ↦ elim (Bool-cases (m.tenant_id == t)) [
      | inr n ↦ rw (◌>>=◌, h, n) tt
      | inl y ↦ rw (◌>>=◌, h, y) (refl, refl)
    ]
  ]

  module _ (m : TransportManifest) (under_way : m.status ≡ in_transit)
      (none_loaded : All (λ i. has_item_status m.id loaded i ≡ false) s.items) where
    not_loaded :
        (i : ManifestItem)
        → find_first (is_item m.id item_id) s.items ≡ some i
        → item_status_eq i.status loaded ≡ false
    not_loaded i h =
        let fits = find_first_fits (is_item m.id item_id) s.items h in
        let free =
          All-find_first (λ k. has_item_status m.id loaded k ≡ false) (is_item m.id item_id) s.items
            h none_loaded in
        ground arith

    missing_kept :
        (i : ManifestItem)
        → All
            (λ k. has_item_status m.id loaded k ≡ false)
            (update_many (has_key item_id_of i.id) (set_item missing i.loaded_at none) s.items)
    missing_kept i =
        All-update_many (λ k. has_item_status m.id loaded k ≡ false)
          (λ k. has_item_status m.id loaded k ≡ false) (has_key item_id_of i.id)
          (set_item missing i.loaded_at none) s.items (λ k h fits. ground arith) (λ k h misses. h)
          none_loaded

    update_found_keeps :
        (target' : ItemTarget)
        → Ensures (λ _ s'. StaysStuck s m s') (update_found f now item_id target' m s)
    unfolding update_found assert_item_status_updatable find_item_or_throw unload_item miss_item
        mark_unloaded mark_missing update_item_row find_first
    update_found_keeps to_loaded = rw under_way tt
    update_found_keeps to_unloaded =
        elim (Option-cases (find_first (is_item m.id item_id) s.items)) [
          | inl h ↦ rw (under_way, h) tt
          | inr (i, h) ↦ rw (under_way, h, ◌>>=◌, not_loaded i h) tt
        ]
    update_found_keeps to_missing =
        elim (Option-cases (find_first (is_item m.id item_id) s.items)) [
          | inl h ↦ rw (under_way, h) tt
          | inr (i, h) ↦ elim (Bool-cases (item_status_eq i.status pending_load)) [
            | inr n ↦ rw (under_way, h, ◌>>=◌, n, not_loaded i h) tt
            | inl y ↦ elim (Bool-cases (count_if (has_key item_id_of i.id) s.items == 0)) [
              | inl z ↦ rw (under_way, h, ◌>>=◌, y, z) tt
              | inr z ↦ rw (under_way, h, ◌>>=◌, y, z) (refl, missing_kept i)
            ]
          ]
        ]

    -- When a stored manifest in transit has no loaded item, a change of any item to any status
    -- leaves every manifest as it is and none of its items loaded, whether the call returns or
    -- throws: the manifest is never completed by its items.
    pub update_item_status_stuck :
        find_first (has_key id_of id) s.manifests ≡ some m
        → StaysStuck s m (update_item_status f now t id item_id target s).1
    unfolding update_item_status
    update_item_status_stuck found =
        transactional_outcome (StaysStuck s m) (λ _ s'. StaysStuck s m s') _ s (refl, none_loaded)
          (transactional-Ensures (λ _ s'. StaysStuck s m s') _ s
            (Ensures-step (λ _ s'. StaysStuck s m s')
              (λ n s'. (s' ≡ s) × (find_first (has_key id_of id) s.manifests ≡ some n))
              (load_own f t id) (update_found f now item_id target) s load_own-Ensures
              (λ n s' r.
                let same : m ≡ n = ground (arith, found, r.1) in
                subst
                  (λ q. Ensures (λ _ s'. StaysStuck s m s') (update_found f now item_id target n q))
                  (sym r.0)
                  (subst
                    (λ k.
                      Ensures (λ _ s'. StaysStuck s m s') (update_found f now item_id target k s))
                    same (update_found_keeps target)))))
          (λ _ s' k. k)
