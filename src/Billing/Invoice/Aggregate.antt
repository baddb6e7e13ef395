-- ===== src/Billing/Invoice/Aggregate.antt =====
-- The methods of `class Invoice`.
use multi_tenant_shipping_ma.Shared.{ℕ, Bool, not, ◌||◌, Option, none, some, String, if◌then◌else◌}
use multi_tenant_shipping_ma.Shared.Int.{ℤ, pos, ◌+ℤ◌, ◌-ℤ◌, ltb_ℤ, leb_ℤ, eqb_ℤ, min_ℤ}
use multi_tenant_shipping_ma.Shared.Effects.{Result, ok, err}
use multi_tenant_shipping_ma.Billing.Money.{Currency, round_money, minimum_payment_amount}
use multi_tenant_shipping_ma.Billing.Invoice.Lifecycle.{
  InvoiceStatus, unpaid, partially_paid, paid, overdue, cancelled, status_eq, allowed_transitions,
  includes_status,
}

pub data PaymentResponsibility : Type 0 where
  sender receiver : PaymentResponsibility

-- One for each `throw` of the aggregate, of the repositories and of the command service.
pub data BillingError : Type 0 where
  negative_total illegal_transition exceeds_owed has_payments : BillingError
  fully_paid invoice_cancelled not_positive exceeds_remaining below_minimum : BillingError
  already_billed returned_not_refunded refund_not_pending : BillingError
  invoice_not_found shipment_without_invoice not_settled stale_version : BillingError
  number_unavailable numeric_overflow : BillingError

pub record Invoice : Type 0 where
  pub id : ℕ
  pub version : ℕ
  pub tenant_id : ℕ
  pub customer_shipment_id : Option ℕ
  pub sender_name : String
  pub sender_phone : String
  pub receiver_name : String
  pub receiver_phone : String
  pub origin_org_unit_id : ℕ
  pub destination_org_unit_id : ℕ
  pub invoice_number : String
  pub subtotal : ℤ
  pub handling_fees : ℤ
  pub tax_amount : ℤ
  pub discount_amount : ℤ
  pub total_amount : ℤ
  pub payment_responsibility : PaymentResponsibility
  pub currency : Currency
  pub status : InvoiceStatus
  pub due_date : Option ℕ
  pub created_at : ℕ
  pub updated_at : ℕ

-- `Invoice.calculateTotal`
unfoldable pub calculate_total : ℤ → ℤ → ℤ → ℤ → Result BillingError ℤ
calculate_total subtotal handling_fees tax_amount discount_amount =
    let total = subtotal +ℤ handling_fees +ℤ tax_amount -ℤ discount_amount in
    if ltb_ℤ total (pos 0) then err negative_total else ok (round_money total)

unfoldable pub remaining_balance : Invoice → ℤ → ℤ
remaining_balance i paid_so_far = round_money (i.total_amount -ℤ paid_so_far)

unfoldable pub transition_to : Invoice → InvoiceStatus → Result BillingError Invoice
unfolding allowed_transitions
transition_to i target =
    if status_eq target i.status
    then ok i
    else if not (includes_status (allowed_transitions i.status) target)
    then err illegal_transition
    else ok (record i { status = target })

-- The status that an amount collected stands for.
unfoldable pub paid_target : InvoiceStatus → ℤ → ℤ → InvoiceStatus
paid_target status collected owed =
    if eqb_ℤ collected owed
    then paid
    else if ltb_ℤ (pos 0) collected
    then partially_paid
    else if status_eq status overdue
    then overdue
    else unpaid

-- The status that the call reports, with the status the aggregate has after it.
abbrev report :
    InvoiceStatus
    → Result BillingError Invoice
    → Result BillingError (Option InvoiceStatus × Invoice)
report target (ok i) = ok (some target, i)
report target (err e) = err e

unfoldable pub apply_paid_total : Invoice → ℤ → Result BillingError (Option InvoiceStatus × Invoice)
unfolding transition_to paid_target
apply_paid_total i paid_total =
    let collected = round_money paid_total in
    let owed = round_money i.total_amount in
    let target = paid_target i.status collected owed in
    if ltb_ℤ owed collected
    then err exceeds_owed
    else if status_eq target i.status
    then ok (none, i)
    else report target (transition_to i target)

unfoldable pub cancel : Invoice → ℤ → Result BillingError Invoice
unfolding transition_to
cancel i paid_total =
    if ltb_ℤ (pos 0) (round_money paid_total) then err has_payments else transition_to i cancelled

unfoldable pub cancel_after_refund : Invoice → Result BillingError Invoice
unfolding transition_to
cancel_after_refund i = transition_to i cancelled

unfoldable pub mark_overdue : Invoice → Result BillingError Invoice
unfolding transition_to
mark_overdue i = transition_to i overdue

unfoldable pub assert_accepts_payment : Invoice → ℤ → ℤ → Result BillingError (Unit {0})
unfolding remaining_balance
assert_accepts_payment i amount paid_so_far =
    let payment = round_money amount in
    let remaining = remaining_balance i paid_so_far in
    if status_eq i.status paid
    then err fully_paid
    else if status_eq i.status cancelled
    then err invoice_cancelled
    else if leb_ℤ remaining (pos 0)
    then err fully_paid
    else if leb_ℤ payment (pos 0)
    then err not_positive
    else if ltb_ℤ remaining payment
    then err exceeds_remaining
    else if ltb_ℤ payment (min_ℤ (minimum_payment_amount i.currency) remaining)
    then err below_minimum
    else ok tt

unfoldable pub is_fully_paid : Invoice → Bool
is_fully_paid i = status_eq i.status paid

unfoldable pub is_settled : Invoice → Bool
is_settled i = status_eq i.status paid || status_eq i.status cancelled
