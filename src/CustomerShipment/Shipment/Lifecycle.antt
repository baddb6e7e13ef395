-- ===== src/CustomerShipment/Shipment/Lifecycle.antt =====
-- The statuses of a shipment and of a parcel, and ALLOWED_TRANSITIONS of customer-shipment.entity.ts.
use multi_tenant_shipping_ma.Shared.{◌≡◌, ◌↔◌, Bool, true, false, ◌||◌, List, [], ◌∷◌, arith}

pub data ShipmentStatus : Type 0 where
  pending processing ready_for_dispatch in_transit ready_for_collection : ShipmentStatus
  delivered cancelled returned : ShipmentStatus

abbrev pub status_eq : ShipmentStatus → ShipmentStatus → Bool
status_eq pending pending = true
status_eq processing processing = true
status_eq ready_for_dispatch ready_for_dispatch = true
status_eq in_transit in_transit = true
status_eq ready_for_collection ready_for_collection = true
status_eq delivered delivered = true
status_eq cancelled cancelled = true
status_eq returned returned = true
status_eq _ _ = false

unfoldable pub allowed_transitions : ShipmentStatus → List ShipmentStatus
allowed_transitions pending = processing ∷ cancelled ∷ []
allowed_transitions processing = ready_for_dispatch ∷ cancelled ∷ []
allowed_transitions ready_for_dispatch = in_transit ∷ []
allowed_transitions in_transit = processing ∷ ready_for_collection ∷ returned ∷ []
allowed_transitions ready_for_collection = delivered ∷ []
allowed_transitions delivered = []
allowed_transitions cancelled = []
allowed_transitions returned = []

abbrev pub includes_status : List ShipmentStatus → ShipmentStatus → Bool
includes_status [] target = false
includes_status (x ∷ xs) target = status_eq x target || includes_status xs target

pub status_eq_iff : (a b : ShipmentStatus) → (status_eq a b ≡ true) ↔ (a ≡ b)
status_eq_iff a b = ground arith

-- The statuses of a parcel, which a shipment's status is derived from.
pub data ParcelStatus : Type 0 where
  processing ready_for_dispatch in_transit arrived_at_unit ready_for_collection : ParcelStatus
  collected returned cancelled : ParcelStatus

abbrev pub parcel_status_eq : ParcelStatus → ParcelStatus → Bool
parcel_status_eq ParcelStatus.processing ParcelStatus.processing = true
parcel_status_eq ParcelStatus.ready_for_dispatch ParcelStatus.ready_for_dispatch = true
parcel_status_eq ParcelStatus.in_transit ParcelStatus.in_transit = true
parcel_status_eq ParcelStatus.arrived_at_unit ParcelStatus.arrived_at_unit = true
parcel_status_eq ParcelStatus.ready_for_collection ParcelStatus.ready_for_collection = true
parcel_status_eq ParcelStatus.collected ParcelStatus.collected = true
parcel_status_eq ParcelStatus.returned ParcelStatus.returned = true
parcel_status_eq ParcelStatus.cancelled ParcelStatus.cancelled = true
parcel_status_eq _ _ = false

pub parcel_status_eq_iff : (a b : ParcelStatus) → (parcel_status_eq a b ≡ true) ↔ (a ≡ b)
parcel_status_eq_iff a b = ground arith
