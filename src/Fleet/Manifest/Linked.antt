-- ===== src/Fleet/Manifest/Linked.antt =====
-- Which manifests are linked to a trip: `assignManifestsToTrip` of manifest-command.service.ts.
use multi_tenant_shipping_ma.Shared.{
  ℕ, suc, not, ◌≡◌, arith, refl, Bool, true, false, ◌&&◌, List, ◌∷◌, ◌==◌, Bool-cases, inl, inr,
  length, ==_iff,
}
use multi_tenant_shipping_ma.Shared.Effects.{err, ◌>>=◌, transactional_rolls_back}
use multi_tenant_shipping_ma.Shared.Ensures.{Ensures, transactional-Ensures}
use multi_tenant_shipping_ma.Shared.Table.{select, update_many, count_if}
use multi_tenant_shipping_ma.Fleet.Manifest.Aggregate.{FleetError}
use multi_tenant_shipping_ma.Fleet.Manifest.Store.{
  Tables, is_in, is_ready, find_bookable, link_to_trip, is_linkable, set_trip,
}
use multi_tenant_shipping_ma.Fleet.Manifest.Commands.{link_manifests, assign_manifests_to_trip}

-- What was changed by a call that assigns manifests to a trip.
pub record IsAssignedTo (trip_exists : ℕ → Bool) (tenant_id trip_id : ℕ) (ids : List ℕ)
    (s s' : Tables) : Type 0 where
  pub trip_there : trip_exists trip_id ≡ true
  pub all_linked : count_if (is_linkable ids tenant_id) s.manifests ≡ length ids
  pub rows : s'.manifests ≡ update_many (is_linkable ids tenant_id) (set_trip trip_id) s.manifests
  pub items_kept : s'.items ≡ s.items

link_manifests-IsAssignedTo :
    (there : ℕ → Bool) (t trip m : ℕ) (ms : List ℕ) (s : Tables)
    → Ensures
        (λ _ s'. IsAssignedTo there t trip (m ∷ ms) s s')
        (link_manifests there t trip (m ∷ ms) s)
unfolding link_manifests find_bookable link_to_trip
link_manifests-IsAssignedTo there t trip m ms s =
    let ids = m ∷ ms in
    let free = count_if (is_linkable ids t) s.manifests in
    let listed = select (λ k. is_in ids k.id && is_ready t k) s.manifests in
    elim (Bool-cases (length listed == length ids)) [
      | inr n ↦ rw (◌>>=◌, n) tt
      | inl y ↦ elim (Bool-cases (not (there trip) && not (free == 0))) [
        | inl x ↦ rw (y, ◌>>=◌, x) tt
        | inr x ↦ elim (Bool-cases (free == length ids)) [
          | inr n ↦ rw (y, ◌>>=◌, x, n) tt
          | inl z ↦
              rw (y, ◌>>=◌, x, z)
                (record {
                  trip_there = is_there (there trip) free (length ms) x z;
                  all_linked = (==_iff free (length ids)).0 z;
                  rows = rw x refl;
                  items_kept = rw x refl;
                })
        ]
      ]
    ]
  where
    is_there : (b : Bool) (n k : ℕ) → not b && not (n == 0) ≡ false → (n == suc k) ≡ true → b ≡ true
    is_there b n k x z = ground arith

-- Assigning one or more manifests to a trip either links as many rows as were asked for, each of
-- them ready for dispatch and without a trip, to a trip that exists, and changes no other row and
-- no item, or throws and leaves the tables as they were.
pub assign_manifests_to_trip_all_or_nothing :
    (there : ℕ → Bool) (t trip m : ℕ) (ms : List ℕ) (s : Tables)
    → Ensures
        (λ _ s'. IsAssignedTo there t trip (m ∷ ms) s s')
        (assign_manifests_to_trip there t trip (m ∷ ms) s)
      × ((x : FleetError)
          → (assign_manifests_to_trip there t trip (m ∷ ms) s).0 ≡ err x
          → (assign_manifests_to_trip there t trip (m ∷ ms) s).1 ≡ s)
unfolding assign_manifests_to_trip
assign_manifests_to_trip_all_or_nothing there t trip m ms s = (
  transactional-Ensures (λ _ s'. IsAssignedTo there t trip (m ∷ ms) s s')
      (link_manifests there t trip (m ∷ ms)) s (link_manifests-IsAssignedTo there t trip m ms s),
  λ x h. transactional_rolls_back (link_manifests there t trip (m ∷ ms)) s h,
)
