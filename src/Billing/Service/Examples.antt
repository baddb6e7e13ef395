-- ===== src/Billing/Service/Examples.antt =====
-- The theorems of the billing service at concrete inputs.
use multi_tenant_shipping_ma.Shared.{
  ◌≡◌, refl, ◌⊎◌, Option, none, some, [], ◌∷◌, arith, if◌then◌else◌, ◌&&◌,
}
use multi_tenant_shipping_ma.Shared.Int.{ℤ, pos, ◌+ℤ◌, ◌-ℤ◌, ◌≤ℤ◌, leb_ℤ}
use multi_tenant_shipping_ma.Shared.Table.{find_first, has_key}
use multi_tenant_shipping_ma.Shared.Effects.{ok, err, transactional}
use multi_tenant_shipping_ma.Shared.Ensures.{Ensures}
use multi_tenant_shipping_ma.CustomerShipment.Shipment.{ShipmentStatus}
use multi_tenant_shipping_ma.Billing.Money.{usd, IsCents, round_money}
use multi_tenant_shipping_ma.Billing.Invoice.{
  Invoice, partially_paid, paid, sender, is_fully_paid, BillingError,
}
use multi_tenant_shipping_ma.Billing.Invoice.Balance.{IsBalanced, IsAcceptable}
use multi_tenant_shipping_ma.Billing.Store.{
  Tables, Payment, Surroundings, cash, completed, max_decimal, sum_completed, set_status,
  is_for_shipment, find_aggregate_by_shipment_id,
}
use multi_tenant_shipping_ma.Billing.Service.Commands.{
  CreateInvoice, RecordPayment, create_for_shipment, record_payment, collect_against,
  cancel_for_shipment, mark_overdue_invoices, assert_settled_for_delivery,
}
use multi_tenant_shipping_ma.Billing.Service.Soundness.{id_of, IsSound}
use multi_tenant_shipping_ma.Billing.Service.Collect.{
  collected, after_payment, record_payment_exact, record_payment-IsSound,
}
use multi_tenant_shipping_ma.Billing.Service.Settle.{
  pay_remaining_settles, stale_collect_rolls_back,
}
use multi_tenant_shipping_ma.Billing.Service.Cancel.{Cancellation, cancel_for_shipment_outcome}
use multi_tenant_shipping_ma.Billing.Service.Sweep.{sweep_twice}
use multi_tenant_shipping_ma.Billing.Service.Issue.{IsIssued, create_for_shipment-IsIssued}
use multi_tenant_shipping_ma.Billing.Service.History.{
  Step, Reach, no_tables, no_tables-IsSound, Reach-IsSound, assert_settled_collected,
}

-- A column that rounds to two decimals and refuses what is out of range.
abbrev column : ℤ → Option ℤ
column a =
    if leb_ℤ (pos 0) a && leb_ℤ (round_money a) max_decimal then some (round_money a) else none

pub column_keeps : (a b : ℤ) → IsCents a → column a ≡ some b → b ≡ a
column_keeps a b c h = ground arith

pub column_in_range : (a b : ℤ) → column a ≡ some b → b ≤ℤ max_decimal
column_in_range a b h = ground arith

pub column_fits : (a : ℤ) → IsCents a → pos 0 ≤ℤ a → a ≤ℤ max_decimal → column a ≡ some a
column_fits a c p h = ground arith

abbrev pub plain : Surroundings
plain = record {
  decimal = column;
  decimal_keeps = column_keeps;
  decimal_in_range = column_in_range;
  decimal_fits = column_fits;
  currency_of = λ _. usd;
  number_text = λ _ _ _. "SHP-INV-2026-00001";
  year_of = λ _. 2026;
  refund_text = λ t. t;
}

-- An invoice of 250.00 USD.
abbrev bill : Invoice
bill = record {
  id = 1;
  version = 4;
  tenant_id = 9;
  customer_shipment_id = some 7;
  sender_name = "Rima";
  sender_phone = "111";
  receiver_name = "Sami";
  receiver_phone = "222";
  origin_org_unit_id = 3;
  destination_org_unit_id = 5;
  invoice_number = "SHP-INV-2026-00001";
  subtotal = pos 2500000;
  handling_fees = pos 0;
  tax_amount = pos 0;
  discount_amount = pos 0;
  total_amount = pos 2500000;
  payment_responsibility = sender;
  currency = usd;
  status = partially_paid;
  due_date = some 100;
  created_at = 0;
  updated_at = 0;
}

-- 100.00 USD of it are collected.
abbrev first_payment : Payment
first_payment = record {
  id = 2;
  tenant_id = 9;
  invoice_id = 1;
  collected_by_employee_id = none;
  organization_unit_id = none;
  amount = pos 1000000;
  payment_method = cash;
  transaction_reference = none;
  status = completed;
}

abbrev pub books : Tables
books = record { invoices = bill ∷ []; payments = first_payment ∷ []; counters = []; next_id = 3 }

books_held : collected books bill ≡ pos 1000000
unfolding sum_completed ◌+ℤ◌
books_held = refl

bill-IsBalanced : IsBalanced max_decimal bill (pos 1000000)
unfolding round_money
bill-IsBalanced = record {
  whole = refl;
  collected_whole = refl;
  in_range = omega arith;
  nonneg = omega arith;
  not_above = omega arith;
  when_paid = λ h. absurd (cc h);
  when_unpaid = λ h. absurd (cc h);
  when_partially_paid = λ _. (omega arith, omega arith);
  when_overdue = λ h. absurd (cc h);
}

pub books-IsSound : IsSound books
books-IsSound = record {
  unique = (tt, tt);
  fresh = (omega arith, tt);
  known = (omega arith, tt);
  balanced = (rw books_held bill-IsBalanced, tt);
}

abbrev rest : RecordPayment
rest = record {
  amount = pos 1500000;
  payment_method = cash;
  collected_by_employee_id = none;
  organization_unit_id = none;
  transaction_reference = none;
}

rest-IsCents : IsCents rest.amount
unfolding round_money
rest-IsCents = refl

bill_found : find_first (has_key id_of 1) books.invoices ≡ some bill
unfolding find_first
bill_found = refl

record_payment_exact_example :
    (IsAcceptable bill (pos 1500000) (collected books bill)
      × (record_payment plain 1 rest books ≡ (ok 3, after_payment bill rest books)))
    ⊎ ((x : BillingError) × (¬ (IsAcceptable bill (pos 1500000) (collected books bill)))
        × (record_payment plain 1 rest books ≡ (err x, books)))
record_payment_exact_example =
    record_payment_exact plain books rest books-IsSound rest-IsCents bill bill_found

record_payment-IsSound_example : IsSound (record_payment plain 1 rest books).1
record_payment-IsSound_example =
    record_payment-IsSound plain books rest books-IsSound rest-IsCents 1

rest-eq : rest.amount ≡ bill.total_amount -ℤ collected books bill
unfolding sum_completed ◌+ℤ◌ ◌-ℤ◌
rest-eq = refl

pay_remaining_settles_example :
    let (r, s') = record_payment plain 1 rest books in
    (r ≡ ok 3) × (find_first (has_key id_of 1) s'.invoices ≡ some (set_status paid bill))
pay_remaining_settles_example =
    pay_remaining_settles plain books bill rest books-IsSound bill_found (λ h. cc h) (λ h. cc h)
      (rw books_held (omega arith)) rest-eq

-- A method that loaded the invoice at version 3.
abbrev loaded : Invoice
loaded = record bill { version = 3 }

stale_collect_rolls_back_example :
    (x : BillingError) × (transactional (collect_against plain loaded rest) books ≡ (err x, books))
stale_collect_rolls_back_example =
    stale_collect_rolls_back plain books loaded rest bill books-IsSound bill_found (omega arith)

bill_for_shipment : find_first (is_for_shipment 7) books.invoices ≡ some bill
unfolding find_first
bill_for_shipment = refl

cancel_for_shipment_outcome_example :
    Cancellation plain books bill ShipmentStatus.pending
      (cancel_for_shipment plain 7 ShipmentStatus.pending books)
cancel_for_shipment_outcome_example =
    cancel_for_shipment_outcome plain books 7 ShipmentStatus.pending books-IsSound bill
      bill_for_shipment

sweep_twice_example :
    let s' = (mark_overdue_invoices 200 books).1 in mark_overdue_invoices 200 s' ≡ (ok 0, s')
sweep_twice_example = sweep_twice 200 books

abbrev order : CreateInvoice
order = record {
  tenant_id = 9;
  customer_shipment_id = 8;
  sender_name = "Rima";
  sender_phone = "111";
  receiver_name = "Sami";
  receiver_phone = "222";
  origin_org_unit_id = 3;
  destination_org_unit_id = 5;
  payment_responsibility = sender;
  subtotal = pos 300000;
  handling_fees = none;
  tax_amount = some (pos 15050);
  discount_amount = none;
}

create_for_shipment-IsIssued_example :
    Ensures (IsIssued plain 40 order books) (create_for_shipment plain 40 order books)
create_for_shipment-IsIssued_example = create_for_shipment-IsIssued plain 40 order books

Reach-IsSound_example :
    IsSound (mark_overdue_invoices 50 (create_for_shipment plain 40 order no_tables).1).1
Reach-IsSound_example =
    Reach-IsSound plain no_tables
      (mark_overdue_invoices 50 (create_for_shipment plain 40 order no_tables).1).1
      no_tables-IsSound
      (Reach.next (Reach.next Reach.here (Step.issue 40 order no_tables))
        (Step.sweep 50 (create_for_shipment plain 40 order no_tables).1))

-- The same invoice with the rest collected.
abbrev paid_books : Tables
paid_books = record {
  invoices = set_status paid bill ∷ [];
  payments = record first_payment { id = 3; amount = pos 1500000 } ∷ first_payment ∷ [];
  counters = [];
  next_id = 4;
}

paid_books_held : sum_completed 1 paid_books.payments ≡ pos 2500000
unfolding sum_completed ◌+ℤ◌
paid_books_held = refl

paid_bill-IsBalanced : IsBalanced max_decimal (set_status paid bill) (pos 2500000)
unfolding round_money
paid_bill-IsBalanced = record {
  whole = refl;
  collected_whole = refl;
  in_range = omega arith;
  nonneg = omega arith;
  not_above = omega arith;
  when_paid = λ _. refl;
  when_unpaid = λ h. absurd (cc h);
  when_partially_paid = λ h. absurd (cc h);
  when_overdue = λ h. absurd (cc h);
}

paid_books-IsSound : IsSound paid_books
paid_books-IsSound = record {
  unique = (tt, tt);
  fresh = (omega arith, tt);
  known = (omega arith, (omega arith, tt));
  balanced = (rw paid_books_held paid_bill-IsBalanced, tt);
}

paid_books_settled : assert_settled_for_delivery 7 paid_books ≡ (ok tt, paid_books)
unfolding assert_settled_for_delivery find_aggregate_by_shipment_id find_first is_fully_paid
paid_books_settled = refl

assert_settled_collected_example :
    (i : Invoice) × (find_first (is_for_shipment 7) paid_books.invoices ≡ some i)
    × (i.status ≡ paid)
    × (collected paid_books i ≡ i.total_amount)
assert_settled_collected_example =
    assert_settled_collected paid_books 7 paid_books-IsSound paid_books_settled
