-- ===== src/Handover/Commands.antt =====
-- `recordDelivery` of proof-of-delivery.command.service.ts. The storage of a file and the settings of
-- a tenant are parameters.
use multi_tenant_shipping_ma.Shared.{
  ℕ, Bool, true, false, ◌&&◌, Option, none, some, String, List, [], ◌∷◌, if◌then◌else◌, get_or,
}
use multi_tenant_shipping_ma.Shared.Effects.{
  Result, ok, err, ◌>>=◌, ◌>>◌, pure, gets, lift, throw_if, transactional,
}
use multi_tenant_shipping_ma.Shared.Int.{ℤ}
use multi_tenant_shipping_ma.CustomerShipment.Shipment.{ParcelStatus}
use multi_tenant_shipping_ma.CustomerShipment.Parcel.{
  Parcel, is_collected, assert_collectable, transition_to, pod_completed, Movement,
  find_tracked_or_throw, append_movement, recalculate_from_parcels, Tables,
}
use multi_tenant_shipping_ma.Billing.Store.{Surroundings, PaymentMethod, cash}
use multi_tenant_shipping_ma.Billing.Service.{
  RecordPayment, record_payment_for_shipment, assert_settled_for_delivery,
}
use multi_tenant_shipping_ma.Handover.Store.{
  CollectionMethod, customer, ProofData, DeliveryError, already_proven, signature_required,
  id_photo_required, parcel_photo_required, storage_failed, Delivering, in_shipping, in_billing,
  exists_for_parcel, create_proof, update_status_only,
}

-- `CollectPaymentDto`
pub record CollectPayment : Type 0 where
  pub amount : ℤ
  pub payment_method : Option PaymentMethod
  pub transaction_reference : Option String

-- `RecordDeliveryDto`, less the position.
pub record RecordDelivery : Type 0 where
  pub received_by_name : String
  pub received_by_national_id : Option String
  pub collection_method : Option CollectionMethod
  pub otp_verified : Bool
  pub payment : Option CollectPayment

-- The uploaded files, each by a number; the first of each list counts, save for the last list.
pub record Files : Type 0 where
  pub signature : List ℕ
  pub id_photo : List ℕ
  pub parcel_photo : List ℕ
  pub additional_photo : List ℕ

pub record DeliverySettings : Type 0 where
  pub require_signature : Bool
  pub require_id_photo : Bool
  pub require_proof_photo : Bool

pub record Desk : Type 0 where
  -- What another connection sees of the tables of the customer-shipment module meanwhile.
  pub committed : Tables
  pub delivery_settings : ℕ → Option DeliverySettings
  -- The key under which a file of a tenant is stored, if that succeeds.
  pub save : ℕ → ℕ → Option String
  pub join : List String → String
  pub employee_name : ℕ → Option String
  -- The text `Received by ...`.
  pub received_by_text : String → String

abbrev is_empty : List ℕ → Bool
is_empty [] = true
is_empty (x ∷ xs) = false

unfoldable pub assert_required : Option DeliverySettings → Files → Result DeliveryError (Unit {0})
assert_required none files = ok tt
assert_required (some s) files =
    if s.require_signature && is_empty files.signature
    then err signature_required
    else if s.require_id_photo && is_empty files.id_photo
    then err id_photo_required
    else if s.require_proof_photo && is_empty files.parcel_photo
    then err parcel_photo_required
    else ok tt

unfoldable pub payment_of : Parcel → ℕ → CollectPayment → RecordPayment
payment_of parcel employee_id p = record {
  amount = p.amount;
  payment_method = get_or p.payment_method cash;
  collected_by_employee_id = some employee_id;
  organization_unit_id = parcel.current_org_unit_id;
  transaction_reference = p.transaction_reference;
}

unfoldable pub movement_of_delivery : Parcel → ParcelStatus → String → Movement
movement_of_delivery parcel status notes = record {
  tenant_id = parcel.tenant_id;
  parcel_id = parcel.id;
  trip_id = none;
  organization_unit_id = none;
  action_type = pod_completed;
  previous_status = parcel.current_status;
  new_status = status;
  previous_condition = parcel.current_condition;
  new_condition = parcel.current_condition;
  notes = some notes;
}

abbrev pub move_parcel : Tables → Parcel → String → Delivering (Unit {0})
move_parcel committed parcel notes = do
  moved ← in_shipping (lift (transition_to parcel ParcelStatus.collected))
  in_shipping (update_status_only moved.id moved.current_status moved.version)
  in_shipping (append_movement (movement_of_delivery parcel moved.current_status notes))
  in_shipping (recalculate_from_parcels committed moved.customer_shipment_id)

unfoldable pub collect_parcel : Tables → Parcel → String → Delivering (Unit {0})
unfolding is_collected transition_to update_status_only movement_of_delivery append_movement
    recalculate_from_parcels
collect_parcel committed parcel notes =
    if is_collected parcel then pure tt else move_parcel committed parcel notes

module _ (desk : Desk) where
  abbrev pub save_first : ℕ → List ℕ → Result DeliveryError (Option String)
  save_first tenant_id [] = ok none
  save_first tenant_id (f ∷ fs) = saved (desk.save tenant_id f)
    where
      saved : Option String → Result DeliveryError (Option String)
      saved none = err storage_failed
      saved (some key) = ok (some key)

  abbrev pub save_each : ℕ → List ℕ → Result DeliveryError (List String)
  save_each tenant_id [] = ok []
  save_each tenant_id (f ∷ fs) = saved (desk.save tenant_id f) (save_each tenant_id fs)
    where
      saved :
          Option String → Result DeliveryError (List String) → Result DeliveryError (List String)
      saved (some key) (ok keys) = ok (key ∷ keys)
      saved _ _ = err storage_failed

  abbrev pub join_keys : List String → Option String
  join_keys [] = none
  join_keys (k ∷ ks) = some (desk.join (k ∷ ks))

  -- The files are stored, and the row of the proof is made with their keys.
  unfoldable pub proof_data : Parcel → RecordDelivery → Files → ℕ → ℕ → Delivering ProofData
  proof_data parcel dto files employee_id now = do
    signature ← lift (save_first parcel.tenant_id files.signature)
    id_photo ← lift (save_first parcel.tenant_id files.id_photo)
    parcel_photo ← lift (save_first parcel.tenant_id files.parcel_photo)
    additional ← lift (save_each parcel.tenant_id files.additional_photo)
    pure (record {
      tenant_id = parcel.tenant_id;
      parcel_id = parcel.id;
      delivered_by_employee_id = employee_id;
      delivered_by_employee_name = get_or (desk.employee_name employee_id) "Unknown";
      collection_method = get_or dto.collection_method customer;
      received_by_name = dto.received_by_name;
      received_by_national_id = dto.received_by_national_id;
      otp_verified_at = if dto.otp_verified then some now else none;
      signature_key = signature;
      id_photo_key = id_photo;
      parcel_photo_key = parcel_photo;
      additional_photo_key = join_keys additional;
    })

  -- From the point where the payment, if there is one, has been recorded.
  unfoldable pub hand_over : Parcel → RecordDelivery → Files → ℕ → ℕ → Delivering ℕ
  unfolding assert_settled_for_delivery assert_required proof_data create_proof collect_parcel
  hand_over parcel dto files employee_id now = do
    in_billing (assert_settled_for_delivery parcel.customer_shipment_id)
    lift (assert_required (desk.delivery_settings parcel.tenant_id) files)
    row ← proof_data parcel dto files employee_id now
    proof ← create_proof row
    collect_parcel desk.committed parcel (desk.received_by_text dto.received_by_name)
    pure proof

  module _ (e : Surroundings) where
    abbrev pub take_payment : Parcel → ℕ → Option CollectPayment → Delivering (Unit {0})
    take_payment parcel employee_id none = pure tt
    take_payment parcel employee_id (some p) =
        in_billing (
          record_payment_for_shipment e parcel.customer_shipment_id
            (payment_of parcel employee_id p))
        >>= λ _. pure tt

    unfoldable pub deliver : Parcel → RecordDelivery → Files → ℕ → ℕ → Delivering ℕ
    unfolding exists_for_parcel assert_collectable record_payment_for_shipment payment_of hand_over
    deliver parcel dto files employee_id now = do
      proven ← gets (λ w. exists_for_parcel parcel.id w.proofs)
      throw_if proven already_proven
      in_shipping (lift (assert_collectable parcel))
      take_payment parcel employee_id dto.payment
      hand_over parcel dto files employee_id now

    unfoldable pub record_delivery : ℕ → RecordDelivery → Files → ℕ → ℕ → Delivering ℕ
    unfolding find_tracked_or_throw deliver transactional
    record_delivery tracking_number dto files employee_id now = transactional do
      parcel ← in_shipping (find_tracked_or_throw tracking_number)
      deliver parcel dto files employee_id now
