-- ===== src/Billing/Service/Issue.antt =====
-- Raising the invoice of a shipment: `createForShipment`.
use multi_tenant_shipping_ma.Shared.{
  ℕ, ◌+◌, ◌<◌, ◌≡◌, ◌≢◌, refl, sym, ap, subst, ◌∙◌, some, none, ◌∷◌, arith, All-map, get_or,
  Bool-cases, inl, inr, false, ◌&&◌, ◌==◌, is_some, String,
}
use multi_tenant_shipping_ma.Shared.Int.{ℤ, pos, ◌+ℤ◌, ◌-ℤ◌, ◌≤ℤ◌, ltb_ℤ}
use multi_tenant_shipping_ma.Shared.Effects.{Result-cases, ok, pure}
use multi_tenant_shipping_ma.Shared.Ensures.{
  Ensures, Ensures-step, known-step, transactional-Ensures, transactional_outcome,
}
use multi_tenant_shipping_ma.Shared.Table.{find_first}
use multi_tenant_shipping_ma.Billing.Money.{
  IsCents, round_money, round_money-IsCents, round_money_mono, zero-IsCents,
}
use multi_tenant_shipping_ma.Billing.Invoice.{Invoice, unpaid}
use multi_tenant_shipping_ma.Billing.Store.{
  Tables, Payment, Surroundings, max_decimal, sum_completed, create_invoice, upsert_counter,
  next_sequence_number, is_for_shipment, exists_for_shipment,
}
use multi_tenant_shipping_ma.Billing.Service.Commands.{
  CreateInvoice, create_for_shipment, issue_numbered, invoice_total, invoice_data,
}
use multi_tenant_shipping_ma.Billing.Service.Numbering.{
  last_number, upsert_counter_own, upsert_counter_others, next_sequence_number_gives, IsCreated,
  create_invoice-IsCreated, none_of_is_some,
}
use multi_tenant_shipping_ma.Billing.Service.Soundness.{BalancedBy, IsSound, sum_completed-unknown}

-- What a raised invoice is like, and what raising it has changed.
pub record IsIssued (e : Surroundings) (now : ℕ) (c : CreateInvoice) (s : Tables) (r : ℕ × String)
    (s' : Tables) : Type 0 where
  pub row : Invoice
  pub fresh_id : r.0 ≡ s.next_id
  pub numbered :
      r.1
      ≡ e.number_text c.tenant_id
          (e.year_of now)
          (last_number c.tenant_id (e.year_of now) s.counters + 1)
  pub inserted : s'.invoices ≡ row ∷ s.invoices
  pub payments_kept : s'.payments ≡ s.payments
  pub next : s'.next_id ≡ s.next_id + 1
  pub counted :
      last_number c.tenant_id (e.year_of now) s'.counters
      ≡ last_number c.tenant_id (e.year_of now) s.counters + 1
  pub others_kept :
      (t y : ℕ)
      → (c.tenant_id == t && e.year_of now == y) ≡ false
      → last_number t y s'.counters ≡ last_number t y s.counters
  pub row_id : row.id ≡ r.0
  pub row_unpaid : row.status ≡ unpaid
  pub row_shipment : row.customer_shipment_id ≡ some c.customer_shipment_id
  pub row_number : row.invoice_number ≡ r.1
  pub row_total : invoice_total c ≡ ok row.total_amount
  pub row_in_range : row.total_amount ≤ℤ max_decimal
  pub not_billed : find_first (is_for_shipment c.customer_shipment_id) s.invoices ≡ none

not_below : (a : ℤ) → ltb_ℤ a (pos 0) ≡ false → pos 0 ≤ℤ a
not_below a h = ground arith

-- A total is never negative, and has at most two decimals.
invoice_total_whole :
    (c : CreateInvoice) {t : ℤ} → invoice_total c ≡ ok t → IsCents t × (pos 0 ≤ℤ t)
unfolding invoice_total
invoice_total_whole c {t} h =
    let raw =
      c.subtotal
      +ℤ get_or c.handling_fees (pos 0)
      +ℤ get_or c.tax_amount (pos 0)
      -ℤ get_or c.discount_amount (pos 0) in
    elim (Bool-cases (ltb_ℤ raw (pos 0))) [
      | inl n ↦ absurd (ground arith)
      | inr n ↦
          let e : round_money raw ≡ t = ground arith in
          (
            subst IsCents e (round_money-IsCents raw),
            subst (λ x. pos 0 ≤ℤ x) e
                (subst (λ x. x ≤ℤ round_money raw) zero-IsCents
                  (round_money_mono (pos 0) raw (not_below raw n))),
          )
    ]

module _ (e : Surroundings) (now : ℕ) (c : CreateInvoice) (s : Tables)
    (unbilled : find_first (is_for_shipment c.customer_shipment_id) s.invoices ≡ none) where
  numbered-IsIssued :
      let t = c.tenant_id in
      let y = e.year_of now in
      let s1 : Tables = record s { counters = (upsert_counter t y s.counters).1 } in
      Ensures (IsIssued e now c s) (issue_numbered e now c (last_number t y s.counters + 1) s1)
  unfolding issue_numbered invoice_data
  numbered-IsIssued =
      let t = c.tenant_id in
      let y = e.year_of now in
      let number = e.number_text t y (last_number t y s.counters + 1) in
      let s1 : Tables = record s { counters = (upsert_counter t y s.counters).1 } in
      elim (Result-cases (invoice_total c)) [
        | inr (x, h) ↦ rw h tt
        | inl (total, h) ↦ rw h (
            let d = invoice_data (e.currency_of t) now c number total in
            Ensures-step (IsIssued e now c s) (IsCreated e d s1) (create_invoice e now d)
              (λ id. pure (id, number)) s1 (create_invoice-IsCreated e now d s1)
              (λ id s' r. record {
                row = r.row;
                fresh_id = r.given;
                numbered = refl;
                inserted = ap (λ (x : Tables). x.invoices) r.inserted;
                payments_kept = ap (λ (x : Tables). x.payments) r.inserted;
                next = ap (λ (x : Tables). x.next_id) r.inserted;
                counted =
                    ap (λ (x : Tables). last_number t y x.counters) r.inserted
                    ∙ upsert_counter_own t y s.counters;
                row_id = r.row_id ∙ sym r.given;
                row_unpaid = r.row_status;
                row_shipment = r.row_shipment;
                row_number = r.row_number;
                row_total =
                    h
                    ∙ ap ok (
                        sym (
                          e.decimal_keeps total r.row.total_amount (invoice_total_whole c h).0
                            r.kept_total));
                others_kept = λ t' y' ne.
                    ap (λ (x : Tables). last_number t' y' x.counters) r.inserted
                    ∙ upsert_counter_others t y t' y' s.counters ne;
                row_in_range = e.decimal_in_range total r.row.total_amount r.kept_total;
                not_billed = unbilled;
              }))
      ]

module _ (e : Surroundings) (now : ℕ) (c : CreateInvoice) (s : Tables) where
  -- When an invoice is raised for a shipment, the shipment had none, one unpaid row with the
  -- calculated total in range is added under the next identifier, the number stored in it is the
  -- text, also returned, that carries the next number of the tenant and year, and no other counter
  -- and no payment changes.
  pub create_for_shipment-IsIssued : Ensures (IsIssued e now c s) (create_for_shipment e now c s)
  unfolding create_for_shipment exists_for_shipment
  create_for_shipment-IsIssued =
      let t = c.tenant_id in
      let y = e.year_of now in
      transactional-Ensures (IsIssued e now c s) _ s
        (elim (Bool-cases
          (is_some (find_first (is_for_shipment c.customer_shipment_id) s.invoices))) [
            | inl h ↦ rw h tt
            | inr h ↦ rw h (
                known-step (IsIssued e now c s) (next_sequence_number t y) (issue_numbered e now c)
                  s _ (next_sequence_number_gives t y s)
                  (numbered-IsIssued e now c s (none_of_is_some _ h)))
          ])

  -- A new invoice has an unused identifier, so no payment counts for it yet.
  IsIssued-IsSound :
      (r : ℕ × String) (s' : Tables) → IsSound s → IsIssued e now c s r s' → IsSound s'
  IsIssued-IsSound r s' sound q =
      let id_fresh : q.row.id ≡ s.next_id = q.row_id ∙ q.fresh_id in
      let whole = invoice_total_whole c q.row_total in
      let none_yet : sum_completed q.row.id s.payments ≡ pos 0 =
        rw id_fresh (sum_completed-unknown s.next_id s.payments sound.known) in
      let balanced : BalancedBy s.payments q.row = rw none_yet (record {
        whole = whole.0;
        collected_whole = zero-IsCents;
        in_range = q.row_in_range;
        nonneg = omega arith;
        not_above = whole.1;
        when_paid = λ p. absurd (cc (q.row_unpaid, p));
        when_unpaid = λ _. refl;
        when_partially_paid = λ p. absurd (cc (q.row_unpaid, p));
        when_overdue = λ p. absurd (cc (q.row_unpaid, p));
      }) in
      let t : Tables = record {
        invoices = q.row ∷ s.invoices;
        payments = s.payments;
        counters = s'.counters;
        next_id = s.next_id + 1;
      } in
      let same : t ≡ s' = λ i. record {
        invoices = sym q.inserted i;
        payments = sym q.payments_kept i;
        counters = s'.counters;
        next_id = sym q.next i;
      } in
      let sound' : IsSound t = record {
        unique = (
          All-map (λ (i : Invoice). i.id < s.next_id) (λ (i : Invoice). i.id ≢ q.row.id) s.invoices
              (λ i h. omega (arith, id_fresh)) sound.fresh,
          sound.unique,
        );
        fresh = (
          omega (arith, id_fresh),
          All-map (λ (i : Invoice). i.id < s.next_id) (λ (i : Invoice). i.id < s.next_id + 1)
              s.invoices (λ i h. omega arith) sound.fresh,
        );
        known =
            All-map (λ (p : Payment). p.invoice_id < s.next_id)
              (λ (p : Payment). p.invoice_id < s.next_id + 1) s.payments (λ p h. omega arith)
              sound.known;
        balanced = (balanced, sound.balanced);
      } in
      subst IsSound same sound'

  -- Raising an invoice keeps the tables sound.
  pub create_for_shipment-IsSound : IsSound s → IsSound (create_for_shipment e now c s).1
  unfolding create_for_shipment
  create_for_shipment-IsSound sound =
      transactional_outcome IsSound (IsIssued e now c s) _ s sound create_for_shipment-IsIssued
        (λ r s' q. IsIssued-IsSound r s' sound q)
