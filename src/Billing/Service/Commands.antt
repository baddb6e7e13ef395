-- ===== src/Billing/Service/Commands.antt =====
-- The methods of InvoiceCommandService. The aggregate that a method has loaded is a value, so its
-- later changes do not show in the tables until a repository writes them.
use multi_tenant_shipping_ma.Shared.{
  ℕ, ◌+◌, ◌*◌, Option, none, some, String, not, if◌then◌else◌, get_or,
}
use multi_tenant_shipping_ma.Shared.Int.{ℤ, pos, ◌+ℤ◌, ltb_ℤ}
use multi_tenant_shipping_ma.Shared.Effects.{
  Result, ◌>>=◌, ◌>>◌, pure, lift, throw_if, or_throw, transactional,
}
use multi_tenant_shipping_ma.CustomerShipment.Shipment.{ShipmentStatus, status_eq as same_phase}
use multi_tenant_shipping_ma.Billing.Invoice.{
  Invoice, unpaid, cancelled, status_eq, BillingError, already_billed, returned_not_refunded,
  refund_not_pending, invoice_not_found, shipment_without_invoice, not_settled,
  PaymentResponsibility, calculate_total, apply_paid_total, cancel, cancel_after_refund,
  assert_accepts_payment, is_fully_paid,
}
use multi_tenant_shipping_ma.Billing.Money.{Currency}
use multi_tenant_shipping_ma.Billing.Store.{
  Billing, PaymentMethod, cash, completed, refunded, PaymentData, InvoiceData, Surroundings,
  sum_completed_payments, find_aggregate_by_id, find_aggregate_by_shipment_id, exists_for_shipment,
  update_status, mark_overdue_before, next_sequence_number, create_invoice, create_payment,
}

-- `CreateInvoiceForShipmentCommand`
pub record CreateInvoice : Type 0 where
  pub tenant_id : ℕ
  pub customer_shipment_id : ℕ
  pub sender_name : String
  pub sender_phone : String
  pub receiver_name : String
  pub receiver_phone : String
  pub origin_org_unit_id : ℕ
  pub destination_org_unit_id : ℕ
  pub payment_responsibility : PaymentResponsibility
  pub subtotal : ℤ
  pub handling_fees : Option ℤ
  pub tax_amount : Option ℤ
  pub discount_amount : Option ℤ

-- `RecordPaymentCommand`, less the invoice, which the methods take beside it.
pub record RecordPayment : Type 0 where
  pub amount : ℤ
  pub payment_method : PaymentMethod
  pub collected_by_employee_id : Option ℕ
  pub organization_unit_id : Option ℕ
  pub transaction_reference : Option String

-- `DEFAULT_PAYMENT_TERMS_DAYS` days in milliseconds, on a clock that keeps UTC.
abbrev payment_terms : ℕ
payment_terms = 30 * 86400000

unfoldable pub calculate_due_date : ℕ → ℕ
calculate_due_date now = now + payment_terms

unfoldable pub assert_settled_for_delivery : ℕ → Billing (Unit {0})
assert_settled_for_delivery shipment_id = do
  found ← find_aggregate_by_shipment_id shipment_id
  invoice ← or_throw found shipment_without_invoice
  throw_if (not (is_fully_paid invoice)) not_settled

unfoldable pub mark_overdue_invoices : ℕ → Billing ℕ
unfolding mark_overdue_before
mark_overdue_invoices now = mark_overdue_before now

-- The payment that records what a command collects.
unfoldable pub collection_of : Invoice → RecordPayment → PaymentData
collection_of invoice c = record {
  tenant_id = invoice.tenant_id;
  invoice_id = invoice.id;
  amount = c.amount;
  payment_method = c.payment_method;
  collected_by_employee_id = c.collected_by_employee_id;
  organization_unit_id = c.organization_unit_id;
  transaction_reference = c.transaction_reference;
  status = completed;
}

-- The total of a command, with what it leaves out as 0.
unfoldable pub invoice_total : CreateInvoice → Result BillingError ℤ
unfolding calculate_total
invoice_total c =
    calculate_total c.subtotal (get_or c.handling_fees (pos 0)) (get_or c.tax_amount (pos 0))
      (get_or c.discount_amount (pos 0))

-- What `createForShipment` hands to the repository.
unfoldable pub invoice_data : Currency → ℕ → CreateInvoice → String → ℤ → InvoiceData
invoice_data currency now c number total = record {
  tenant_id = c.tenant_id;
  customer_shipment_id = some c.customer_shipment_id;
  sender_name = c.sender_name;
  sender_phone = c.sender_phone;
  receiver_name = c.receiver_name;
  receiver_phone = c.receiver_phone;
  origin_org_unit_id = c.origin_org_unit_id;
  destination_org_unit_id = c.destination_org_unit_id;
  invoice_number = number;
  subtotal = c.subtotal;
  handling_fees = get_or c.handling_fees (pos 0);
  tax_amount = get_or c.tax_amount (pos 0);
  discount_amount = get_or c.discount_amount (pos 0);
  total_amount = total;
  payment_responsibility = c.payment_responsibility;
  currency = currency;
  status = unpaid;
  due_date = some (calculate_due_date now);
}

module _ (e : Surroundings) where
  -- `createForShipment` from the point where the running number is drawn.
  unfoldable pub issue_numbered : ℕ → CreateInvoice → ℕ → Billing (ℕ × String)
  issue_numbered now c sequence = do
    let number = e.number_text c.tenant_id (e.year_of now) sequence
    total ← lift (invoice_total c)
    id ← create_invoice e now (invoice_data (e.currency_of c.tenant_id) now c number total)
    pure (id, number)

  unfoldable pub create_for_shipment : ℕ → CreateInvoice → Billing (ℕ × String)
  unfolding issue_numbered
  create_for_shipment now c = transactional do
    already ← exists_for_shipment c.customer_shipment_id
    throw_if already already_billed
    sequence ← next_sequence_number c.tenant_id (e.year_of now)
    issue_numbered now c sequence

  -- The payment that stands for giving `amount` back.
  unfoldable pub refund_of : Invoice → ℤ → PaymentData
  refund_of invoice amount = record {
    tenant_id = invoice.tenant_id;
    invoice_id = invoice.id;
    amount = amount;
    payment_method = cash;
    collected_by_employee_id = none;
    organization_unit_id = none;
    transaction_reference = some (e.refund_text invoice.invoice_number);
    status = refunded;
  }

  unfoldable pub refund_and_cancel : Invoice → ShipmentStatus → ℤ → Billing Invoice
  unfolding refund_of
  refund_and_cancel invoice phase paid_total = do
    throw_if (not (same_phase phase ShipmentStatus.pending)) refund_not_pending
    _ ← create_payment e (refund_of invoice paid_total)
    lift (cancel_after_refund invoice)

  unfoldable pub cancel_loaded : Invoice → ShipmentStatus → Billing (Unit {0})
  unfolding refund_and_cancel
  cancel_loaded invoice phase = do
    throw_if (same_phase phase ShipmentStatus.returned) returned_not_refunded
    paid_total ← sum_completed_payments invoice.id
    invoice' ←
        if ltb_ℤ (pos 0) paid_total
        then refund_and_cancel invoice phase paid_total
        else lift (cancel invoice paid_total)
    update_status invoice'.id invoice'.status invoice'.version

  abbrev cancel_found : ShipmentStatus → Option Invoice → Billing (Unit {0})
  cancel_found phase none = pure tt
  cancel_found phase (some invoice) =
      if status_eq invoice.status cancelled then pure tt else cancel_loaded invoice phase

  unfoldable pub cancel_for_shipment : ℕ → ShipmentStatus → Billing (Unit {0})
  cancel_for_shipment shipment_id phase =
      transactional do found ← find_aggregate_by_shipment_id shipment_id; cancel_found phase found

  unfoldable pub collect_against : Invoice → RecordPayment → Billing ℕ
  unfolding collection_of
  collect_against invoice c = do
    paid_so_far ← sum_completed_payments invoice.id
    lift (assert_accepts_payment invoice c.amount paid_so_far)
    payment ← create_payment e (collection_of invoice c)
    applied ← lift (apply_paid_total invoice (paid_so_far +ℤ c.amount))
    update_status invoice.id (get_or applied.0 applied.1.status) invoice.version
    pure payment

  unfoldable pub record_payment : ℕ → RecordPayment → Billing ℕ
  record_payment invoice_id c = transactional do
    found ← find_aggregate_by_id invoice_id
    invoice ← or_throw found invoice_not_found
    collect_against invoice c

  unfoldable pub record_payment_for_shipment : ℕ → RecordPayment → Billing ℕ
  record_payment_for_shipment shipment_id c = transactional do
    found ← find_aggregate_by_shipment_id shipment_id
    invoice ← or_throw found shipment_without_invoice
    collect_against invoice c
