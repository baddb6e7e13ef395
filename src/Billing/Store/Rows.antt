-- ===== src/Billing/Store/Rows.antt =====
-- The rows of payments and counters, and what the database and the tenant settings decide.
use multi_tenant_shipping_ma.Shared.{ℕ, ◌≡◌, Bool, true, false, Option, some, List, String}
use multi_tenant_shipping_ma.Shared.Int.{ℤ, pos, ◌≤ℤ◌}
use multi_tenant_shipping_ma.Billing.Money.{Currency, IsCents}
use multi_tenant_shipping_ma.Billing.Invoice.{Invoice, InvoiceStatus, PaymentResponsibility}

pub data PaymentMethod : Type 0 where
  cash online cod bank_transfer : PaymentMethod

pub data PaymentStatus : Type 0 where
  pending completed failed refunded : PaymentStatus

abbrev pub is_completed : PaymentStatus → Bool
is_completed completed = true
is_completed _ = false

-- `CreatePaymentData`
pub record PaymentData : Type 0 where
  pub tenant_id : ℕ
  pub invoice_id : ℕ
  pub amount : ℤ
  pub payment_method : PaymentMethod
  pub collected_by_employee_id : Option ℕ
  pub organization_unit_id : Option ℕ
  pub transaction_reference : Option String
  pub status : PaymentStatus

pub record Payment : Type 0 where
  pub id : ℕ
  pub tenant_id : ℕ
  pub invoice_id : ℕ
  pub collected_by_employee_id : Option ℕ
  pub organization_unit_id : Option ℕ
  pub amount : ℤ
  pub payment_method : PaymentMethod
  pub transaction_reference : Option String
  pub status : PaymentStatus

-- `countsTowardBalance`
unfoldable pub counts_toward_balance : Payment → Bool
counts_toward_balance p = is_completed p.status

-- A row of `invoice_counter`, whose key is the tenant and the year.
pub record InvoiceCounter : Type 0 where
  pub tenant_id : ℕ
  pub year : ℕ
  pub last_number : ℕ

-- `CreateInvoiceData`
pub record InvoiceData : Type 0 where
  pub tenant_id : ℕ
  pub customer_shipment_id : Option ℕ
  pub sender_name : String
  pub sender_phone : String
  pub receiver_name : String
  pub receiver_phone : String
  pub origin_org_unit_id : ℕ
  pub destination_org_unit_id : ℕ
  pub invoice_number : String
  pub subtotal : ℤ
  pub handling_fees : ℤ
  pub tax_amount : ℤ
  pub discount_amount : ℤ
  pub total_amount : ℤ
  pub payment_responsibility : PaymentResponsibility
  pub currency : Currency
  pub status : InvoiceStatus
  pub due_date : Option ℕ

pub record Tables : Type 0 where
  pub invoices : List Invoice
  pub payments : List Payment
  pub counters : List InvoiceCounter
  pub next_id : ℕ

-- The largest value of a `Decimal(10, 2)` column: 99999999.99.
abbrev pub max_decimal : ℤ
max_decimal = pos 999999999900

-- What this code does not decide. `decimal` is what a `Decimal(10, 2)` column keeps of an amount,
-- `none` where the database refuses it as too large: an amount of two decimals is kept as it is, if
-- it is in range. The other fields are the tenant settings that an invoice is made from, the text of
-- an invoice number, and the year of a time.
pub record Surroundings : Type 0 where
  pub decimal : ℤ → Option ℤ
  pub decimal_keeps : (a b : ℤ) → IsCents a → decimal a ≡ some b → b ≡ a
  pub decimal_in_range : (a b : ℤ) → decimal a ≡ some b → b ≤ℤ max_decimal
  pub decimal_fits : (a : ℤ) → IsCents a → pos 0 ≤ℤ a → a ≤ℤ max_decimal → decimal a ≡ some a
  pub currency_of : ℕ → Currency
  pub number_text : ℕ → ℕ → ℕ → String
  pub year_of : ℕ → ℕ
  pub refund_text : String → String
