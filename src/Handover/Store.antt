-- ===== src/Handover/Store.antt =====
-- proof-of-delivery.command.repository.ts and proof-of-delivery.query.repository.ts, over the tables of
-- the two modules that a delivery writes.
use multi_tenant_shipping_ma.Shared.{
  ℕ, ◌+◌, Bool, Option, String, List, ◌∷◌, ◌==◌, if◌then◌else◌, some_of,
}
use multi_tenant_shipping_ma.Shared.Effects.{Action, Result, ok, err}
use multi_tenant_shipping_ma.Shared.Table.{update_many, count_if}
use multi_tenant_shipping_ma.CustomerShipment.Shipment.{ShipmentError, stale_parcel, ParcelStatus}
use multi_tenant_shipping_ma.CustomerShipment.Parcel.{
  Tables, Shipping, is_parcel_version, set_parcel_status,
}
use multi_tenant_shipping_ma.Billing.Invoice.{BillingError}
use multi_tenant_shipping_ma.Billing.Store.{Tables as Books, Billing}

pub data CollectionMethod : Type 0 where
  customer representative : CollectionMethod

-- `CreateProofOfDeliveryData`, less the position; a verified password carries its time.
pub record ProofData : Type 0 where
  pub tenant_id : ℕ
  pub parcel_id : ℕ
  pub delivered_by_employee_id : ℕ
  pub delivered_by_employee_name : String
  pub collection_method : CollectionMethod
  pub received_by_name : String
  pub received_by_national_id : Option String
  pub otp_verified_at : Option ℕ
  pub signature_key : Option String
  pub id_photo_key : Option String
  pub parcel_photo_key : Option String
  pub additional_photo_key : Option String

pub record Proof : Type 0 where
  pub id : ℕ
  pub row : ProofData

pub record World : Type 0 where
  pub shipping : Tables
  pub billing : Books
  pub proofs : List Proof
  pub next_proof : ℕ

pub data DeliveryError : Type 0 where
  from_shipping : ShipmentError → DeliveryError
  from_billing : BillingError → DeliveryError
  already_proven signature_required id_photo_required parcel_photo_required : DeliveryError
  storage_failed : DeliveryError

abbrev pub Delivering : Type 0 → Type 0
Delivering A = Action World DeliveryError A

abbrev pub failing_with : {E A : Type 0} → (E → DeliveryError) → Result E A → Result DeliveryError A
failing_with f (ok a) = ok a
failing_with f (err e) = err (f e)

-- A call of the customer-shipment module, and one of the billing module.
abbrev pub in_shipping : {A : Type 0} → Shipping A → Delivering A
in_shipping m w =
    (failing_with from_shipping (m w.shipping).0, record w { shipping = (m w.shipping).1 })

abbrev pub in_billing : {A : Type 0} → Billing A → Delivering A
in_billing m w = (failing_with from_billing (m w.billing).0, record w { billing = (m w.billing).1 })

abbrev pub proof_parcel_of : Proof → ℕ
proof_parcel_of p = p.row.parcel_id

unfoldable pub exists_for_parcel : ℕ → List Proof → Bool
exists_for_parcel parcel_id proofs = some_of (λ p. proof_parcel_of p == parcel_id) proofs

-- The parcel is a unique key of the table.
unfoldable pub create_proof : ProofData → Delivering ℕ
unfolding exists_for_parcel
create_proof row w = if exists_for_parcel row.parcel_id w.proofs then (err already_proven, w) else (
  ok w.next_proof,
  record w {
    proofs = record { id = w.next_proof; row = row } ∷ w.proofs;
    next_proof = w.next_proof + 1;
  },
)

-- `updateStatus` of parcel.command.repository.ts without a condition and a unit.
unfoldable pub update_status_only : ℕ → ParcelStatus → ℕ → Shipping (Unit {0})
update_status_only id status version s = (
  if count_if (is_parcel_version id version) s.parcels == 0 then err stale_parcel else ok tt,
  record s {
    parcels = update_many (is_parcel_version id version) (set_parcel_status status) s.parcels;
  },
)
