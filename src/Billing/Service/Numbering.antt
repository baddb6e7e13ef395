-- ===== src/Billing/Service/Numbering.antt =====
-- The running number of an invoice, and the row that the repository inserts.
use multi_tenant_shipping_ma.Shared.{
  ℕ, ◌+◌, ◌≡◌, refl, Option, some, none, List, [], ◌∷◌, arith, if◌then◌else◌, Option-cases,
  Bool-cases, inl, inr, false, ◌&&◌, ◌==◌, is_some,
}
use multi_tenant_shipping_ma.Shared.Effects.{ok}
use multi_tenant_shipping_ma.Shared.Ensures.{Ensures}
use multi_tenant_shipping_ma.Shared.Table.{find_first}
use multi_tenant_shipping_ma.Billing.Invoice.{Invoice}
use multi_tenant_shipping_ma.Billing.Store.{
  Tables, InvoiceCounter, InvoiceData, Surroundings, insert_invoice, violates_unique,
  create_invoice, upsert_counter, next_sequence_number,
}

-- The last number given to a tenant in a year, 0 if none was.
unfoldable pub last_number : ℕ → ℕ → List InvoiceCounter → ℕ
last_number tenant_id year [] = 0
last_number tenant_id year (c ∷ cs) =
    if c.tenant_id == tenant_id && c.year == year
    then c.last_number
    else last_number tenant_id year cs

pub upsert_counter_next :
    (t y : ℕ) (cs : List InvoiceCounter) → (upsert_counter t y cs).0 ≡ last_number t y cs + 1
unfolding upsert_counter last_number
upsert_counter_next t y [] = refl
upsert_counter_next t y (c ∷ cs) = ground (arith, upsert_counter_next t y cs)

pub upsert_counter_own :
    (t y : ℕ) (cs : List InvoiceCounter)
    → last_number t y (upsert_counter t y cs).1 ≡ last_number t y cs + 1
unfolding upsert_counter last_number
upsert_counter_own t y [] = ground arith
upsert_counter_own t y (c ∷ cs) = ground (arith, upsert_counter_own t y cs)

pub upsert_counter_others :
    (t y t' y' : ℕ) (cs : List InvoiceCounter)
    → (t == t' && y == y') ≡ false
    → last_number t' y' (upsert_counter t y cs).1 ≡ last_number t' y' cs
unfolding upsert_counter last_number
upsert_counter_others t y t' y' [] h = ground arith
upsert_counter_others t y t' y' (c ∷ cs) h = ground (arith, upsert_counter_others t y t' y' cs h)

pub next_sequence_number_gives :
    (t y : ℕ) (s : Tables)
    → next_sequence_number t y s ≡ (
      ok (last_number t y s.counters + 1),
      record s { counters = (upsert_counter t y s.counters).1 },
    )
unfolding next_sequence_number
next_sequence_number_gives t y s = ground (arith, upsert_counter_next t y s.counters)

-- The row that `create` inserts, in what a later reader relies on.
pub record IsCreated (e : Surroundings) (d : InvoiceData) (s : Tables) (id : ℕ) (s' : Tables)
    : Type 0 where
  pub row : Invoice
  pub inserted : s' ≡ insert_invoice row s
  pub row_id : row.id ≡ s.next_id
  pub given : id ≡ s.next_id
  pub first_version : row.version ≡ 1
  pub row_status : row.status ≡ d.status
  pub row_shipment : row.customer_shipment_id ≡ d.customer_shipment_id
  pub row_number : row.invoice_number ≡ d.invoice_number
  pub kept_total : e.decimal d.total_amount ≡ some row.total_amount
  pub no_clash : find_first (violates_unique d) s.invoices ≡ none

pub none_of_is_some : {A : Type 0} (o : Option A) → is_some o ≡ false → o ≡ none
none_of_is_some o h = ground arith

pub create_invoice-IsCreated :
    (e : Surroundings) (now : ℕ) (d : InvoiceData) (s : Tables)
    → Ensures (IsCreated e d s) (create_invoice e now d s)
unfolding create_invoice
create_invoice-IsCreated e now d s = elim (Option-cases (e.decimal d.subtotal)) [
  | inl h1 ↦ rw h1 tt
  | inr (subtotal, h1) ↦ rw h1 (elim (Option-cases (e.decimal d.handling_fees)) [
    | inl h2 ↦ rw h2 tt
    | inr (fees, h2) ↦ rw h2 (elim (Option-cases (e.decimal d.tax_amount)) [
      | inl h3 ↦ rw h3 tt
      | inr (tax, h3) ↦ rw h3 (elim (Option-cases (e.decimal d.discount_amount)) [
        | inl h4 ↦ rw h4 tt
        | inr (discount, h4) ↦ rw h4 (elim (Option-cases (e.decimal d.total_amount)) [
          | inl h5 ↦ rw h5 tt
          | inr (total, h5) ↦
              rw h5 (elim (Bool-cases (is_some (find_first (violates_unique d) s.invoices))) [
                | inl h6 ↦ rw h6 tt
                | inr h6 ↦ rw h6 (record {
                  row = _;
                  inserted = refl;
                  row_id = refl;
                  given = refl;
                  first_version = refl;
                  row_status = refl;
                  row_shipment = refl;
                  row_number = refl;
                  kept_total = h5;
                  no_clash = none_of_is_some _ h6;
                })
              ])
        ])
      ])
    ])
  ])
]
