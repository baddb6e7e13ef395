-- ===== src/Handover/Examples.antt =====
-- A delivery at a concrete input: the receiver pays the 150.00 that are left of the invoice.
use multi_tenant_shipping_ma.Shared.{
  ◌≡◌, refl, true, false, none, some, [], ◌∷◌, subst, Option, get_or,
}
use multi_tenant_shipping_ma.Shared.Int.{pos, ◌+ℤ◌, ◌-ℤ◌}
use multi_tenant_shipping_ma.Shared.Effects.{ok}
use multi_tenant_shipping_ma.Shared.Table.{find_first, count_if, update_many, select}
use multi_tenant_shipping_ma.Shared.AllOrNothing.{AllOrNothing}
use multi_tenant_shipping_ma.CustomerShipment.Shipment.{
  CustomerShipment, ShipmentStatus, ParcelStatus, recalculate_status,
}
use multi_tenant_shipping_ma.CustomerShipment.Parcel.{
  Parcel, normal, find_shipment, find_statuses, update_shipment_status, emit_lifecycle_event, emit,
}
use multi_tenant_shipping_ma.Billing.Money.{IsCents, round_money, minimum_payment_amount}
use multi_tenant_shipping_ma.Billing.Invoice.{
  assert_accepts_payment, apply_paid_total, is_fully_paid,
}
use multi_tenant_shipping_ma.Billing.Store.{
  find_aggregate_by_shipment_id, sum_completed_payments, sum_completed, create_payment,
  update_status,
}
use multi_tenant_shipping_ma.Billing.Service.{collect_against}
use multi_tenant_shipping_ma.Billing.Service.Examples.{plain, books, books-IsSound}
use multi_tenant_shipping_ma.Handover.Store.{World}
use multi_tenant_shipping_ma.Handover.Commands.{
  CollectPayment, RecordDelivery, Files, Desk, record_delivery,
}
use multi_tenant_shipping_ma.Handover.Settled.{IsPayable, HandedOver, record_delivery-AllOrNothing}

abbrev waiting : Parcel
waiting = record {
  id = 21;
  version = 2;
  tenant_id = 9;
  customer_shipment_id = 7;
  tracking_number = 500;
  current_status = ParcelStatus.ready_for_collection;
  current_condition = normal;
  current_org_unit_id = some 5;
  destination_org_unit_id = some 5;
  label_key = none;
}

abbrev arrived : CustomerShipment
arrived = record {
  id = 7;
  version = 3;
  tenant_id = 9;
  sender_name = "Rima";
  sender_phone = "111";
  sender_national_id = none;
  shipment_request_id = none;
  origin_org_unit_id = 3;
  destination_org_unit_id = 5;
  service_level = "STANDARD";
  receiver_name = "Sami";
  receiver_phone = "222";
  payment_responsibility = "RECEIVER";
  total_chargeable_weight_kg = none;
  status = ShipmentStatus.ready_for_collection;
  created_at = 0;
  updated_at = 0;
  created_by_employee_id = none;
  created_by_employee_name = none;
}

abbrev office : World
office = record {
  shipping = record {
    shipments = arrived ∷ [];
    parcels = waiting ∷ [];
    movements = [];
    events = [];
  };
  billing = books;
  proofs = [];
  next_proof = 1;
}

abbrev desk : Desk
desk = record {
  committed = office.shipping;
  delivery_settings = λ t.
      some (record {
        require_signature = true;
        require_id_photo = false;
        require_proof_photo = false;
      });
  save = λ t f. some "key";
  join = λ keys. "keys";
  employee_name = λ id. none;
  received_by_text = λ name. name;
}

abbrev signed : Files
signed = record { signature = 1 ∷ []; id_photo = []; parcel_photo = []; additional_photo = [] }

abbrev rest : CollectPayment
rest = record { amount = pos 1500000; payment_method = none; transaction_reference = none }

abbrev dto : RecordDelivery
dto = record {
  received_by_name = "Sami";
  received_by_national_id = none;
  collection_method = none;
  otp_verified = false;
  payment = some rest;
}

rest-IsCents : IsCents rest.amount
unfolding round_money
rest-IsCents = refl

dto-IsPayable : IsPayable dto
dto-IsPayable p h =
    subst (λ (o : Option CollectPayment). IsCents (get_or o rest).amount) h rest-IsCents

record_delivery-AllOrNothing_example :
    AllOrNothing
      (HandedOver 500 office)
      office
      (record_delivery desk plain 500 dto signed 4 60 office)
record_delivery-AllOrNothing_example =
    record_delivery-AllOrNothing desk plain 500 dto signed 4 60 office dto-IsPayable books-IsSound

-- This delivery returns.
delivered : (record_delivery desk plain 500 dto signed 4 60 office).0 ≡ ok 1
unfolding record_delivery find_first find_aggregate_by_shipment_id collect_against
    sum_completed_payments assert_accepts_payment round_money ◌-ℤ◌ sum_completed ◌+ℤ◌
    minimum_payment_amount create_payment apply_paid_total update_status count_if update_many
    is_fully_paid find_shipment find_statuses select recalculate_status update_shipment_status
    emit_lifecycle_event emit
delivered = refl
