-- ===== src/CustomerShipment/Shipment/Derived.antt =====
-- What `recalculateStatus` of customer-shipment.entity.ts makes of the parcels of a shipment.
use multi_tenant_shipping_ma.Shared.{
  ◌≡◌, refl, subst, inl, inr, Bool, true, ◌&&◌, Option, none, some, List, [], ◌∷◌, arith, All,
  Bool-cases, every, some_of,
}
use multi_tenant_shipping_ma.Shared.Table.{select}
use multi_tenant_shipping_ma.CustomerShipment.Shipment.Lifecycle.{
  ShipmentStatus, status_eq, allowed_transitions, includes_status, ParcelStatus, parcel_status_eq,
  parcel_status_eq_iff,
}
use multi_tenant_shipping_ma.CustomerShipment.Shipment.Aggregate.{
  CustomerShipment, is_live, derived_target, adopt_target, recalculate_live, recalculate_status,
}

-- One step of the lifecycle of a shipment.
pub data Moves : ShipmentStatus → ShipmentStatus → Type 0 where
  to_processing : Moves ShipmentStatus.pending ShipmentStatus.processing
  to_void : Moves ShipmentStatus.pending ShipmentStatus.cancelled
  to_ready : Moves ShipmentStatus.processing ShipmentStatus.ready_for_dispatch
  to_void_later : Moves ShipmentStatus.processing ShipmentStatus.cancelled
  to_transit : Moves ShipmentStatus.ready_for_dispatch ShipmentStatus.in_transit
  back_to_processing : Moves ShipmentStatus.in_transit ShipmentStatus.processing
  to_collection : Moves ShipmentStatus.in_transit ShipmentStatus.ready_for_collection
  to_returned : Moves ShipmentStatus.in_transit ShipmentStatus.returned
  to_delivered : Moves ShipmentStatus.ready_for_collection ShipmentStatus.delivered

both : (a b : Bool) → a && b ≡ true → (a ≡ true) × (b ≡ true)
both a b h = ground arith

allowed-Moves :
    (a b : ShipmentStatus) → includes_status (allowed_transitions a) b ≡ true → Moves a b
unfolding allowed_transitions
allowed-Moves ShipmentStatus.pending ShipmentStatus.processing h = to_processing
allowed-Moves ShipmentStatus.pending ShipmentStatus.cancelled h = to_void
allowed-Moves ShipmentStatus.processing ShipmentStatus.ready_for_dispatch h = to_ready
allowed-Moves ShipmentStatus.processing ShipmentStatus.cancelled h = to_void_later
allowed-Moves ShipmentStatus.ready_for_dispatch ShipmentStatus.in_transit h = to_transit
allowed-Moves ShipmentStatus.in_transit ShipmentStatus.processing h = back_to_processing
allowed-Moves ShipmentStatus.in_transit ShipmentStatus.ready_for_collection h = to_collection
allowed-Moves ShipmentStatus.in_transit ShipmentStatus.returned h = to_returned
allowed-Moves ShipmentStatus.ready_for_collection ShipmentStatus.delivered h = to_delivered
allowed-Moves a b h = absurd (cc h)

-- What the live parcels of a shipment call for.
pub data CallsFor : List ParcelStatus → ShipmentStatus → Type 0 where
  every_collected :
      {ps : List ParcelStatus}
      → All (λ p. p ≡ ParcelStatus.collected) ps
      → CallsFor ps ShipmentStatus.delivered
  every_collectable :
      {ps : List ParcelStatus}
      → All (λ p. p ≡ ParcelStatus.ready_for_collection) ps
      → CallsFor ps ShipmentStatus.ready_for_collection
  one_in_transit :
      {ps : List ParcelStatus}
      → some_of (λ p. parcel_status_eq p ParcelStatus.in_transit) ps ≡ true
      → CallsFor ps ShipmentStatus.in_transit
  every_ready :
      {ps : List ParcelStatus}
      → All (λ p. p ≡ ParcelStatus.ready_for_dispatch) ps
      → CallsFor ps ShipmentStatus.ready_for_dispatch

pub every-All :
    (status : ParcelStatus) (ps : List ParcelStatus)
    → every (λ s. parcel_status_eq s status) ps ≡ true
    → All (λ p. p ≡ status) ps
every-All status [] h = tt
every-All status (p ∷ ps) h =
    let (here, later) =
      both (parcel_status_eq p status) (every (λ s. parcel_status_eq s status) ps) h in
    ((parcel_status_eq_iff p status).0 here, every-All status ps later)

derived_target-CallsFor :
    (ps : List ParcelStatus) {t : ShipmentStatus} → derived_target ps ≡ some t → CallsFor ps t
unfolding derived_target
derived_target-CallsFor ps {t} h =
    let all_are = λ (status : ParcelStatus). every (λ s. parcel_status_eq s status) ps in
    elim (Bool-cases (all_are ParcelStatus.collected)) [
      | inl a ↦
          let same : ShipmentStatus.delivered ≡ t = ground arith in
          subst (CallsFor ps) same (every_collected (every-All ParcelStatus.collected ps a))
      | inr a ↦ elim (Bool-cases (all_are ParcelStatus.ready_for_collection)) [
        | inl b ↦
            let same : ShipmentStatus.ready_for_collection ≡ t = ground arith in
            subst (CallsFor ps) same
              (every_collectable (every-All ParcelStatus.ready_for_collection ps b))
        | inr b ↦ elim (Bool-cases (some_of (λ p. parcel_status_eq p ParcelStatus.in_transit) ps)) [
          | inl c ↦
              let same : ShipmentStatus.in_transit ≡ t = ground arith in
              subst (CallsFor ps) same (one_in_transit c)
          | inr c ↦ elim (Bool-cases (all_are ParcelStatus.ready_for_dispatch)) [
            | inl d ↦
                let same : ShipmentStatus.ready_for_dispatch ≡ t = ground arith in
                subst (CallsFor ps) same
                  (every_ready (every-All ParcelStatus.ready_for_dispatch ps d))
            | inr d ↦ absurd (ground arith)
          ]
        ]
      ]
    ]

-- What a recalculation does to a shipment: nothing, or one step of the lifecycle that the live
-- parcels call for.
pub data Recalculation (s : CustomerShipment) (live : List ParcelStatus)
    : Option ShipmentStatus × CustomerShipment → Type 0 where
  unchanged : Recalculation s live (none, s)
  advanced :
      (t : ShipmentStatus)
      → Moves s.status t
      → CallsFor live t
      → Recalculation s live (some t, record s { status = t })

adopt_target-Recalculation :
    (s : CustomerShipment) (live : List ParcelStatus) (target : Option ShipmentStatus)
    → derived_target live ≡ target
    → Recalculation s live (adopt_target s target)
unfolding adopt_target
adopt_target-Recalculation s live none h = unchanged
adopt_target-Recalculation s live (some t) h = elim (Bool-cases (status_eq t s.status)) [
  | inl e ↦ rw e unchanged
  | inr e ↦ elim (Bool-cases (includes_status (allowed_transitions s.status) t)) [
    | inr n ↦ rw (e, n) unchanged
    | inl y ↦ rw (e, y) (advanced t (allowed-Moves s.status t y) (derived_target-CallsFor live h))
  ]
]

-- Whatever the statuses of its parcels are, a recalculation leaves a shipment as it is, or moves
-- it by one step of its lifecycle to the status that its live parcels call for.
pub recalculate_status-Recalculation :
    (s : CustomerShipment) (ps : List ParcelStatus)
    → Recalculation s (select is_live ps) (recalculate_status s ps)
unfolding recalculate_status
recalculate_status-Recalculation s ps = go (select is_live ps)
  where
    go : (live : List ParcelStatus) → Recalculation s live (recalculate_live s live)
    go [] = unchanged
    go (p ∷ live) = adopt_target-Recalculation s (p ∷ live) (derived_target (p ∷ live)) refl

-- A shipment still in transit all of whose live parcels are collected stays in transit, since
-- delivery is not a step from there.
pub recalculate_status-collected :
    (s : CustomerShipment) (ps : List ParcelStatus)
    → s.status ≡ ShipmentStatus.in_transit
    → every (λ p. parcel_status_eq p ParcelStatus.collected) (select is_live ps) ≡ true
    → recalculate_status s ps ≡ (none, s)
unfolding recalculate_status derived_target adopt_target allowed_transitions
recalculate_status-collected s ps under_way done = go (select is_live ps) done
  where
    go :
        (live : List ParcelStatus)
        → every (λ p. parcel_status_eq p ParcelStatus.collected) live ≡ true
        → recalculate_live s live ≡ (none, s)
    go [] d = refl
    go (p ∷ live) d = rw (d, under_way) refl
