-- ===== src/Billing/Store/Repository.antt =====
-- The methods of InvoiceCommandRepository and PaymentCommandRepository.
use multi_tenant_shipping_ma.Shared.{
  ℕ, ◌+◌, Bool, false, ◌&&◌, ◌||◌, Option, none, some, List, [], ◌∷◌, ◌==◌, if◌then◌else◌, ltb,
  is_some, option_eq,
}
use multi_tenant_shipping_ma.Shared.Int.{ℤ, pos, ◌+ℤ◌}
use multi_tenant_shipping_ma.Shared.Effects.{
  Action, ok, err, ◌>>=◌, ◌>>◌, pure, gets, modify, throw_if, or_throw,
}
use multi_tenant_shipping_ma.Shared.Table.{find_first, update_many, count_if, has_key}
use multi_tenant_shipping_ma.Billing.Invoice.{
  Invoice, InvoiceStatus, unpaid, partially_paid, overdue, includes_status, BillingError,
  already_billed, stale_version, number_unavailable, numeric_overflow,
}
use text.Mathlib.Text.{◌==◌ as str_eq}
use multi_tenant_shipping_ma.Billing.Store.Rows.{
  Tables, Payment, PaymentData, InvoiceData, InvoiceCounter, Surroundings, counts_toward_balance,
}

abbrev pub Billing : Type 0 → Type 0
Billing A = Action Tables BillingError A

-- `_sum: { amount }` over the completed payments of an invoice, 0 where there is none.
unfoldable pub sum_completed : ℕ → List Payment → ℤ
unfolding counts_toward_balance
sum_completed invoice_id [] = pos 0
sum_completed invoice_id (p ∷ ps) =
    (if p.invoice_id == invoice_id && counts_toward_balance p then p.amount else pos 0)
    +ℤ sum_completed invoice_id ps

unfoldable pub sum_completed_payments : ℕ → Billing ℤ
sum_completed_payments invoice_id = gets (λ s. sum_completed invoice_id s.payments)

unfoldable pub find_aggregate_by_id : ℕ → Billing (Option Invoice)
find_aggregate_by_id id = gets (λ s. find_first (has_key (λ (i : Invoice). i.id) id) s.invoices)

abbrev pub is_for_shipment : ℕ → Invoice → Bool
is_for_shipment shipment_id i = option_eq i.customer_shipment_id (some shipment_id)

unfoldable pub find_aggregate_by_shipment_id : ℕ → Billing (Option Invoice)
find_aggregate_by_shipment_id shipment_id =
    gets (λ s. find_first (is_for_shipment shipment_id) s.invoices)

unfoldable pub exists_for_shipment : ℕ → Billing Bool
exists_for_shipment shipment_id =
    gets (λ s. is_some (find_first (is_for_shipment shipment_id) s.invoices))

abbrev pub has_version : ℕ → Invoice → Bool
has_version version i = i.version == version

abbrev pub set_status : InvoiceStatus → Invoice → Invoice
set_status status i = record i { status = status; version = i.version + 1 }

-- `updateMany` guarded by the version; no row updated means a concurrent change.
unfoldable pub update_status : ℕ → InvoiceStatus → ℕ → Billing (Unit {0})
update_status invoice_id status current_version s =
    let guarded = λ (i : Invoice). i.id == invoice_id && has_version current_version i in
    let s' = record s { invoices = update_many guarded (set_status status) s.invoices } in
    (if count_if guarded s.invoices == 0 then err stale_version else ok tt, s')

abbrev pub is_past_due : ℕ → Option ℕ → Bool
is_past_due now none = false
is_past_due now (some due) = ltb due now

abbrev pub is_overdue_at : ℕ → Invoice → Bool
is_overdue_at now i =
    is_past_due now i.due_date && includes_status (unpaid ∷ partially_paid ∷ []) i.status

unfoldable pub mark_overdue_before : ℕ → Billing ℕ
mark_overdue_before now s = (
  ok (count_if (is_overdue_at now) s.invoices),
  record s { invoices = update_many (is_overdue_at now) (set_status overdue) s.invoices },
)

abbrev is_counter : ℕ → ℕ → InvoiceCounter → Bool
is_counter tenant_id year c = c.tenant_id == tenant_id && c.year == year

-- The row's number after `INSERT … ON CONFLICT DO UPDATE`, and the table after it.
unfoldable pub upsert_counter : ℕ → ℕ → List InvoiceCounter → ℕ × List InvoiceCounter
upsert_counter tenant_id year [] =
    (1, record { tenant_id = tenant_id; year = year; last_number = 1 } ∷ [])
upsert_counter tenant_id year (c ∷ cs) =
    let rest = upsert_counter tenant_id year cs in
    if is_counter tenant_id year c
    then (c.last_number + 1, record c { last_number = c.last_number + 1 } ∷ cs)
    else (rest.0, c ∷ rest.1)

unfoldable pub next_sequence_number : ℕ → ℕ → Billing ℕ
unfolding upsert_counter
next_sequence_number tenant_id year s =
    let (next, counters) = upsert_counter tenant_id year s.counters in
    (if next == 0 then err number_unavailable else ok next, record s { counters = counters })

-- `uq_invoice_shipment` and `uq_tenant_invoice`; a null shipment clashes with none.
abbrev same_shipment : Option ℕ → Option ℕ → Bool
same_shipment none _ = false
same_shipment (some a) b = option_eq (some a) b

abbrev pub violates_unique : InvoiceData → Invoice → Bool
violates_unique d i =
    same_shipment d.customer_shipment_id i.customer_shipment_id
    || (i.tenant_id == d.tenant_id && str_eq i.invoice_number d.invoice_number)

-- The database gives a new row the next identifier.
abbrev pub insert_invoice : Invoice → Tables → Tables
insert_invoice i s = record s { invoices = i ∷ s.invoices; next_id = s.next_id + 1 }

abbrev pub payment_row : ℕ → ℤ → PaymentData → Payment
payment_row id amount d = record {
  id = id;
  tenant_id = d.tenant_id;
  invoice_id = d.invoice_id;
  collected_by_employee_id = d.collected_by_employee_id;
  organization_unit_id = d.organization_unit_id;
  amount = amount;
  payment_method = d.payment_method;
  transaction_reference = d.transaction_reference;
  status = d.status;
}

abbrev pub insert_payment : ℤ → PaymentData → Tables → Tables
insert_payment amount d s = record s {
  payments = payment_row s.next_id amount d ∷ s.payments;
  next_id = s.next_id + 1;
}

module _ (e : Surroundings) where
  -- `InvoiceCommandRepository.create`: P2002, a unique key taken, becomes the conflict.
  unfoldable pub create_invoice : ℕ → InvoiceData → Billing ℕ
  create_invoice now d = do
    subtotal ← or_throw (e.decimal d.subtotal) numeric_overflow
    handling_fees ← or_throw (e.decimal d.handling_fees) numeric_overflow
    tax_amount ← or_throw (e.decimal d.tax_amount) numeric_overflow
    discount_amount ← or_throw (e.decimal d.discount_amount) numeric_overflow
    total_amount ← or_throw (e.decimal d.total_amount) numeric_overflow
    taken ← gets (λ s. is_some (find_first (violates_unique d) s.invoices))
    throw_if taken already_billed
    id ← gets (λ s. s.next_id)
    modify (
        insert_invoice (record {
          id = id;
          version = 1;
          tenant_id = d.tenant_id;
          customer_shipment_id = d.customer_shipment_id;
          sender_name = d.sender_name;
          sender_phone = d.sender_phone;
          receiver_name = d.receiver_name;
          receiver_phone = d.receiver_phone;
          origin_org_unit_id = d.origin_org_unit_id;
          destination_org_unit_id = d.destination_org_unit_id;
          invoice_number = d.invoice_number;
          subtotal = subtotal;
          handling_fees = handling_fees;
          tax_amount = tax_amount;
          discount_amount = discount_amount;
          total_amount = total_amount;
          payment_responsibility = d.payment_responsibility;
          currency = d.currency;
          status = d.status;
          due_date = d.due_date;
          created_at = now;
          updated_at = now;
        }))
    pure id

  -- `PaymentCommandRepository.create`: inserts a row, and nothing else.
  unfoldable pub create_payment : PaymentData → Billing ℕ
  create_payment d = do
    amount ← or_throw (e.decimal d.amount) numeric_overflow
    id ← gets (λ s. s.next_id)
    modify (insert_payment amount d)
    pure id
