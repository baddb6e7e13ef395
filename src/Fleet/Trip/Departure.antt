-- ===== src/Fleet/Trip/Departure.antt =====
-- When a trip departs: `startTrip` of trip-command.service.ts.
use multi_tenant_shipping_ma.Shared.{
  ℕ, ◌<◌, ◌≡◌, refl, sym, subst, none, some, arith, Bool-cases, Option-cases, inl, inr, ◌==◌, ltb,
}
use multi_tenant_shipping_ma.Shared.Effects.{err, ◌>>=◌, transactional_rolls_back}
use multi_tenant_shipping_ma.Shared.Ensures.{Ensures, Ensures-step, transactional-Ensures}
use multi_tenant_shipping_ma.Shared.Table.{find_first, update_many, count_if, has_key}
use multi_tenant_shipping_ma.Fleet.Manifest.{FleetError}
use multi_tenant_shipping_ma.Fleet.Trip.Aggregate.{
  Trip, scheduled, in_progress, trip_status_eq, start,
}
use multi_tenant_shipping_ma.Fleet.Trip.Commands.{
  TripTables, is_trip_of, is_carried, trip_id_of, find_trip_or_throw, count_manifests,
  update_trip_row, set_trip_status, start_found, start_trip,
}

-- What is so when a trip has departed at `now`.
pub record HasLeft (now t id : ℕ) (s s' : TripTables) : Type 0 where
  pub trip : Trip
  pub found : find_first (is_trip_of t id) s.trips ≡ some trip
  pub was_scheduled : trip.status ≡ scheduled
  pub not_empty : 0 < count_if (is_carried t trip.id) s.lists.manifests
  pub lists_kept : s'.lists ≡ s.lists
  pub rows :
      s'.trips
      ≡ update_many
          (has_key trip_id_of trip.id)
          (set_trip_status in_progress (some now) none)
          s.trips

module _ (now t id : ℕ) (s : TripTables) where
  start_found-HasLeft :
      (trip : Trip)
      → find_first (is_trip_of t id) s.trips ≡ some trip
      → Ensures (λ _ s'. HasLeft now t id s s') (start_found now t trip s)
  unfolding start_found start count_manifests update_trip_row
  start_found-HasLeft trip h =
      let n = count_if (is_carried t trip.id) s.lists.manifests in
      elim (Bool-cases (trip_status_eq trip.status scheduled)) [
        | inr x ↦ rw (◌>>=◌, x) tt
        | inl x ↦ elim (Bool-cases (ltb n 1)) [
          | inl y ↦ rw (x, ◌>>=◌, y) tt
          | inr y ↦ elim (Bool-cases (count_if (has_key trip_id_of trip.id) s.trips == 0)) [
            | inl z ↦ rw (x, y, ◌>>=◌, z) tt
            | inr z ↦
                rw (x, y, ◌>>=◌, z)
                  (record {
                    trip = trip;
                    found = h;
                    was_scheduled = ground arith;
                    not_empty = ground arith;
                    lists_kept = refl;
                    rows = refl;
                  })
          ]
        ]
      ]

  load-Ensures :
      Ensures
        (λ trip s'. (s' ≡ s) × (find_first (is_trip_of t id) s.trips ≡ some trip))
        (find_trip_or_throw t id s)
  unfolding find_trip_or_throw
  load-Ensures = elim (Option-cases (find_first (is_trip_of t id) s.trips)) [
    | inl h ↦ rw h tt
    | inr (m, h) ↦ rw h (refl, refl)
  ]

  -- A trip that departs was scheduled and carries at least one manifest, its row alone is then in
  -- progress since the time of the call, and no manifest or item changes; a call that throws
  -- leaves the tables as they were.
  pub start_trip-HasLeft :
      Ensures (λ _ s'. HasLeft now t id s s') (start_trip now t id s)
      × ((x : FleetError) → (start_trip now t id s).0 ≡ err x → (start_trip now t id s).1 ≡ s)
  unfolding start_trip
  start_trip-HasLeft = (
    transactional-Ensures (λ _ s'. HasLeft now t id s s') _ s
        (Ensures-step (λ _ s'. HasLeft now t id s s')
          (λ trip s'. (s' ≡ s) × (find_first (is_trip_of t id) s.trips ≡ some trip))
          (find_trip_or_throw t id) (start_found now t) s load-Ensures
          (λ trip s' r.
            subst (λ q. Ensures (λ _ s'. HasLeft now t id s s') (start_found now t trip q))
              (sym r.0) (start_found-HasLeft trip r.1))),
    λ x h. transactional_rolls_back _ s h,
  )
