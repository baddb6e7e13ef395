-- ===== src/Billing/Invoice/Lifecycle.antt =====
-- The statuses of an invoice and ALLOWED_TRANSITIONS of invoice.entity.ts.
use multi_tenant_shipping_ma.Shared.{◌≡◌, ◌↔◌, Bool, true, false, ◌||◌, List, [], ◌∷◌, arith}

pub data InvoiceStatus : Type 0 where
  unpaid partially_paid paid overdue cancelled : InvoiceStatus

pub InvoiceStatus-discrete : Discrete InvoiceStatus
InvoiceStatus-discrete = hlevel

abbrev pub status_eq : InvoiceStatus → InvoiceStatus → Bool
status_eq unpaid unpaid = true
status_eq partially_paid partially_paid = true
status_eq paid paid = true
status_eq overdue overdue = true
status_eq cancelled cancelled = true
status_eq _ _ = false

unfoldable pub allowed_transitions : InvoiceStatus → List InvoiceStatus
allowed_transitions unpaid = partially_paid ∷ paid ∷ overdue ∷ cancelled ∷ []
allowed_transitions partially_paid = paid ∷ overdue ∷ cancelled ∷ []
allowed_transitions overdue = partially_paid ∷ paid ∷ cancelled ∷ []
allowed_transitions paid = cancelled ∷ []
allowed_transitions cancelled = []

abbrev pub includes_status : List InvoiceStatus → InvoiceStatus → Bool
includes_status [] target = false
includes_status (x ∷ xs) target = status_eq x target || includes_status xs target

pub status_eq_iff : (a b : InvoiceStatus) → (status_eq a b ≡ true) ↔ (a ≡ b)
status_eq_iff a b = ground arith
