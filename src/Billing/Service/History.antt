-- ===== src/Billing/Service/History.antt =====
-- What holds after any history of the service's methods, and the guard before a delivery.
use multi_tenant_shipping_ma.Shared.{ℕ, ◌≡◌, refl, some, none, [], arith, inl, inr, Option-cases}
use multi_tenant_shipping_ma.Shared.Table.{find_first, find_first-by_key, All-find_first}
use multi_tenant_shipping_ma.Shared.Effects.{ok, err, transactional}
use multi_tenant_shipping_ma.CustomerShipment.Shipment.{ShipmentStatus}
use multi_tenant_shipping_ma.Billing.Money.{IsCents}
use multi_tenant_shipping_ma.Billing.Invoice.{
  Invoice, paid, is_fully_paid, shipment_without_invoice,
}
use multi_tenant_shipping_ma.Billing.Store.{
  Tables, Surroundings, is_for_shipment, find_aggregate_by_shipment_id, find_aggregate_by_id,
}
use multi_tenant_shipping_ma.Billing.Service.Commands.{
  CreateInvoice, RecordPayment, create_for_shipment, record_payment, record_payment_for_shipment,
  cancel_for_shipment, mark_overdue_invoices, assert_settled_for_delivery,
}
use multi_tenant_shipping_ma.Billing.Service.Soundness.{id_of, BalancedBy, IsSound}
use multi_tenant_shipping_ma.Billing.Service.Collect.{collected, record_payment-IsSound}
use multi_tenant_shipping_ma.Billing.Service.Cancel.{cancel_for_shipment-IsSound}
use multi_tenant_shipping_ma.Billing.Service.Sweep.{mark_overdue_invoices-IsSound}
use multi_tenant_shipping_ma.Billing.Service.Issue.{create_for_shipment-IsSound}

-- A payment by shipment is the payment against that shipment's invoice.
pub record_payment_for_shipment_found :
    (e : Surroundings) (s : Tables) (shipment_id : ℕ) (c : RecordPayment) (i : Invoice)
    → IsSound s
    → find_first (is_for_shipment shipment_id) s.invoices ≡ some i
    → record_payment_for_shipment e shipment_id c s ≡ record_payment e i.id c s
unfolding record_payment_for_shipment record_payment find_aggregate_by_shipment_id
    find_aggregate_by_id transactional
record_payment_for_shipment_found e s shipment_id c i sound found =
    rw found (
      rw (find_first-by_key id_of (is_for_shipment shipment_id) s.invoices sound.unique found) refl)

record_payment_for_shipment-none :
    (e : Surroundings) (s : Tables) (shipment_id : ℕ) (c : RecordPayment)
    → find_first (is_for_shipment shipment_id) s.invoices ≡ none
    → record_payment_for_shipment e shipment_id c s ≡ (err shipment_without_invoice, s)
unfolding record_payment_for_shipment find_aggregate_by_shipment_id transactional
record_payment_for_shipment-none e s shipment_id c h = rw h refl

pub record_payment_for_shipment-IsSound :
    (e : Surroundings) (s : Tables) (shipment_id : ℕ) (c : RecordPayment)
    → IsSound s
    → IsCents c.amount
    → IsSound (record_payment_for_shipment e shipment_id c s).1
record_payment_for_shipment-IsSound e s shipment_id c sound cents =
    elim (Option-cases (find_first (is_for_shipment shipment_id) s.invoices)) [
      | inl h ↦ rw (record_payment_for_shipment-none e s shipment_id c h) sound
      | inr (i, h) ↦
          rw (record_payment_for_shipment_found e s shipment_id c i sound h)
            (record_payment-IsSound e s c sound cents i.id)
    ]

-- One call of a method of the service, whether it returns or throws. Amounts taken have at most two
-- decimals, as the request bodies demand.
pub data Step (e : Surroundings) : Tables → Tables → Type 0 where
  issue : (now : ℕ) (c : CreateInvoice) (s : Tables) → Step e s (create_for_shipment e now c s).1
  collect :
      (id : ℕ) (c : RecordPayment) (s : Tables)
      → IsCents c.amount
      → Step e s (record_payment e id c s).1
  collect_for_shipment :
      (shipment_id : ℕ) (c : RecordPayment) (s : Tables)
      → IsCents c.amount
      → Step e s (record_payment_for_shipment e shipment_id c s).1
  void :
      (shipment_id : ℕ) (phase : ShipmentStatus) (s : Tables)
      → Step e s (cancel_for_shipment e shipment_id phase s).1
  sweep : (now : ℕ) (s : Tables) → Step e s (mark_overdue_invoices now s).1

pub data Reach (e : Surroundings) (s : Tables) : Tables → Type 0 where
  here : Reach e s s
  next : {t u : Tables} → Reach e s t → Step e t u → Reach e s u

abbrev pub no_tables : Tables
no_tables = record { invoices = []; payments = []; counters = []; next_id = 1 }

pub no_tables-IsSound : IsSound no_tables
no_tables-IsSound = record { unique = tt; fresh = tt; known = tt; balanced = tt }

Step-IsSound : (e : Surroundings) {s t : Tables} → Step e s t → IsSound s → IsSound t
Step-IsSound e (issue now c s) h = create_for_shipment-IsSound e now c s h
Step-IsSound e (collect id c s cents) h = record_payment-IsSound e s c h cents id
Step-IsSound e (collect_for_shipment shipment_id c s cents) h =
    record_payment_for_shipment-IsSound e s shipment_id c h cents
Step-IsSound e (void shipment_id phase s) h = cancel_for_shipment-IsSound e s shipment_id phase h
Step-IsSound e (sweep now s) h = mark_overdue_invoices-IsSound now s h

-- From sound tables, every sequence of calls of the billing service (issuing, collecting whole
-- cents, cancelling and sweeping, each failed call included) ends in sound tables: identifiers are
-- unique and fresh, and every invoice agrees with the completed payments recorded for it.
pub Reach-IsSound : (e : Surroundings) (s t : Tables) → IsSound s → Reach e s t → IsSound t
Reach-IsSound e s t h here = h
Reach-IsSound e s t h (next {t = u} r st) = Step-IsSound e st (Reach-IsSound e s u h r)

-- On sound tables, when the guard before a delivery passes, the shipment has an invoice that is
-- paid and whose whole total has been collected.
pub assert_settled_collected :
    (s : Tables) (shipment_id : ℕ)
    → IsSound s
    → assert_settled_for_delivery shipment_id s ≡ (ok tt, s)
    → (i : Invoice) × (find_first (is_for_shipment shipment_id) s.invoices ≡ some i)
      × (i.status ≡ paid)
      × (collected s i ≡ i.total_amount)
unfolding assert_settled_for_delivery find_aggregate_by_shipment_id is_fully_paid
assert_settled_collected s shipment_id sound passed =
    elim (Option-cases (find_first (is_for_shipment shipment_id) s.invoices)) [
      | inl h ↦ absurd (ground arith)
      | inr (i, h) ↦
          let b =
            All-find_first (BalancedBy s.payments) (is_for_shipment shipment_id) s.invoices h
              sound.balanced in
          let settled : i.status ≡ paid = ground arith in (i, h, settled, b.when_paid settled)
    ]
