-- ===== src/CustomerShipment/Shipment/Follows.antt =====
-- `recalculateStatus` of customer-shipment.entity.ts takes the step that the parcels call for.
use multi_tenant_shipping_ma.Shared.{
  false, ◌≡◌, ◌∙◌, ap, refl, inl, inr, true, some, List, [], ◌∷◌, All, Bool-cases, every, some_of,
}
use multi_tenant_shipping_ma.Shared.Table.{select}
use multi_tenant_shipping_ma.CustomerShipment.Shipment.Lifecycle.{
  ShipmentStatus, status_eq, allowed_transitions, includes_status, ParcelStatus, parcel_status_eq,
  parcel_status_eq_iff,
}
use multi_tenant_shipping_ma.CustomerShipment.Shipment.Aggregate.{
  CustomerShipment, is_live, derived_target, adopt_target, recalculate_status,
}
use multi_tenant_shipping_ma.CustomerShipment.Shipment.Derived.{
  Moves, to_processing, to_void, to_ready, to_void_later, to_transit, back_to_processing,
  to_collection, to_returned, to_delivered, CallsFor, every_collected, every_collectable,
  one_in_transit, every_ready, every-All,
}

Moves-new :
    {a b : ShipmentStatus}
    → Moves a b
    → (status_eq b a ≡ false) × (includes_status (allowed_transitions a) b ≡ true)
unfolding allowed_transitions
Moves-new to_processing = (refl, refl)
Moves-new to_void = (refl, refl)
Moves-new to_ready = (refl, refl)
Moves-new to_void_later = (refl, refl)
Moves-new to_transit = (refl, refl)
Moves-new back_to_processing = (refl, refl)
Moves-new to_collection = (refl, refl)
Moves-new to_returned = (refl, refl)
Moves-new to_delivered = (refl, refl)

All-every :
    (status : ParcelStatus) (ps : List ParcelStatus)
    → All (λ p. p ≡ status) ps
    → every (λ s. parcel_status_eq s status) ps ≡ true
All-every status [] h = refl
All-every status (p ∷ ps) h = rw ((parcel_status_eq_iff p status).1 h.0) (All-every status ps h.1)

-- Parcels that all have one status do not all have another, and none of them has another.
every_apart :
    (a b : ParcelStatus) (p : ParcelStatus) (ps : List ParcelStatus)
    → parcel_status_eq a b ≡ false
    → All (λ x. x ≡ a) (p ∷ ps)
    → every (λ s. parcel_status_eq s b) (p ∷ ps) ≡ false
every_apart a b p ps other h = rw (ap (λ x. parcel_status_eq x b) h.0 ∙ other) refl

none_of :
    (a b : ParcelStatus) (ps : List ParcelStatus)
    → parcel_status_eq a b ≡ false
    → All (λ x. x ≡ a) ps
    → some_of (λ s. parcel_status_eq s b) ps ≡ false
none_of a b [] other h = refl
none_of a b (p ∷ ps) other h =
    rw (ap (λ x. parcel_status_eq x b) h.0 ∙ other) (none_of a b ps other h.1)

-- Where one parcel has a status, not all have another.
one_apart :
    (a b : ParcelStatus) (ps : List ParcelStatus)
    → parcel_status_eq a b ≡ false
    → some_of (λ s. parcel_status_eq s b) ps ≡ true
    → every (λ s. parcel_status_eq s a) ps ≡ false
one_apart a b ps other one = elim (Bool-cases (every (λ s. parcel_status_eq s a) ps)) [
  | inr n ↦ n
  | inl y ↦ absurd (cc (none_of a b ps other (every-All a ps y), one))
]

CallsFor-derived_target :
    (p : ParcelStatus) (ps : List ParcelStatus) (t : ShipmentStatus)
    → CallsFor (p ∷ ps) t
    → derived_target (p ∷ ps) ≡ some t
unfolding derived_target
CallsFor-derived_target p ps _ (every_collected h) =
    rw (All-every ParcelStatus.collected (p ∷ ps) h) refl
CallsFor-derived_target p ps _ (every_collectable h) =
    rw
      (
        every_apart ParcelStatus.ready_for_collection ParcelStatus.collected p ps refl h,
        All-every ParcelStatus.ready_for_collection (p ∷ ps) h,
      )
      refl
CallsFor-derived_target p ps _ (one_in_transit h) =
    rw
      (
        one_apart ParcelStatus.collected ParcelStatus.in_transit (p ∷ ps) refl h,
        one_apart ParcelStatus.ready_for_collection ParcelStatus.in_transit (p ∷ ps) refl h,
        h,
      )
      refl
CallsFor-derived_target p ps _ (every_ready h) =
    rw
      (
        every_apart ParcelStatus.ready_for_dispatch ParcelStatus.collected p ps refl h,
        every_apart ParcelStatus.ready_for_dispatch ParcelStatus.ready_for_collection p ps refl h,
        none_of ParcelStatus.ready_for_dispatch ParcelStatus.in_transit (p ∷ ps) refl h,
        All-every ParcelStatus.ready_for_dispatch (p ∷ ps) h,
      )
      refl

-- When a shipment has a live parcel, and its live parcels call for a status that is one step of
-- the lifecycle away, the recalculation returns that status and the shipment takes it.
pub recalculate_status_follows :
    (s : CustomerShipment) (ps live : List ParcelStatus) (p : ParcelStatus) (t : ShipmentStatus)
    → select is_live ps ≡ p ∷ live
    → CallsFor (p ∷ live) t
    → Moves s.status t
    → recalculate_status s ps ≡ (some t, record s { status = t })
unfolding recalculate_status adopt_target
recalculate_status_follows s ps live p t alive called move =
    let (new, allowed) = Moves-new move in
    rw (alive, CallsFor-derived_target p live t called, new, allowed) refl
