-- ===== src/Billing/Service/Void.antt =====
-- Cancelling the invoice of a cancelled shipment: `cancelForShipment`.
use multi_tenant_shipping_ma.Shared.{
  ℕ, ◌+◌, ◌≤◌, ◌<◌, ◌≡◌, ◌≢◌, refl, sym, subst, some, List, ◌∷◌, arith, All, All-map, true, false,
}
use multi_tenant_shipping_ma.Shared.Int.{ℤ, pos, ◌<ℤ◌, ltb_ℤ}
use multi_tenant_shipping_ma.Shared.Table.{
  find_first, update_many, has_key, All-find_first, update_many-UniqueKeys, All-update_many,
}
use multi_tenant_shipping_ma.Shared.Effects.{ok, err}
use multi_tenant_shipping_ma.CustomerShipment.Shipment.{ShipmentStatus, status_eq as same_phase}
use multi_tenant_shipping_ma.Billing.Money.{zero-IsCents}
use multi_tenant_shipping_ma.Billing.Invoice.{
  Invoice, cancelled, cancel, cancel_after_refund, returned_not_refunded, refund_not_pending,
}
use multi_tenant_shipping_ma.Billing.Invoice.Balance.{IsBalanced}
use multi_tenant_shipping_ma.Billing.Store.{
  Tables, Payment, Surroundings, max_decimal, sum_completed, sum_completed_payments, set_status,
  insert_payment, payment_row, create_payment,
}
use multi_tenant_shipping_ma.Billing.Service.Commands.{refund_of, cancel_loaded}
use multi_tenant_shipping_ma.Billing.Service.Soundness.{
  id_of, BalancedBy, IsSound, guarded, update_status-current, write-balanced,
  sum_completed-not_completed,
}
use multi_tenant_shipping_ma.Billing.Service.Collect.{collected}

-- An invoice without a payment is voided.
abbrev pub after_void : Invoice → Tables → Tables
after_void i s = record s {
  invoices = update_many (guarded i.id i.version) (set_status cancelled) s.invoices;
}

-- What is left after the invoice has been voided and its money given back.
abbrev pub after_refund : Surroundings → Invoice → Tables → Tables
after_refund e i s = after_void i (insert_payment (collected s i) (refund_of e i (collected s i)) s)

-- Every status but CANCELLED itself may move to CANCELLED.
cancel_after_refund_open :
    (i : Invoice) → cancel_after_refund i ≡ ok (record i { status = cancelled })
unfolding cancel_after_refund
cancel_after_refund_open i = ground arith

cancel_unpaid : (i : Invoice) → cancel i (pos 0) ≡ ok (record i { status = cancelled })
unfolding cancel
cancel_unpaid i = ground (arith, zero-IsCents)

other_phase : (a b : ShipmentStatus) → a ≢ b → same_phase a b ≡ false
other_phase a b h = ground arith

above_zero : (a : ℤ) → pos 0 <ℤ a → ltb_ℤ (pos 0) a ≡ true
above_zero a h = ground arith

module _ (e : Surroundings) (s : Tables) (i : Invoice) (phase : ShipmentStatus) (sound : IsSound s)
    (found : find_first (has_key id_of i.id) s.invoices ≡ some i) where
  pub balanced : IsBalanced max_decimal i (collected s i)
  balanced =
      All-find_first (BalancedBy s.payments) (has_key id_of i.id) s.invoices found sound.balanced

  pub cancel_loaded-returned :
      phase ≡ ShipmentStatus.returned → cancel_loaded e i phase s ≡ (err returned_not_refunded, s)
  unfolding cancel_loaded
  cancel_loaded-returned h = rw h

  pub cancel_loaded-unpaid :
      phase ≢ ShipmentStatus.returned
      → collected s i ≡ pos 0
      → cancel_loaded e i phase s ≡ (ok tt, after_void i s)
  unfolding cancel_loaded sum_completed_payments
  cancel_loaded-unpaid h z =
      rw (other_phase phase ShipmentStatus.returned h)
        (rw z (rw (cancel_unpaid i) (update_status-current s cancelled i sound.unique found)))

  pub cancel_loaded-refused :
      phase ≢ ShipmentStatus.returned
      → phase ≢ ShipmentStatus.pending
      → pos 0 <ℤ collected s i
      → cancel_loaded e i phase s ≡ (err refund_not_pending, s)
  unfolding cancel_loaded sum_completed_payments
  cancel_loaded-refused h k p =
      rw (other_phase phase ShipmentStatus.returned h)
        (rw (above_zero (collected s i) p) (rw (other_phase phase ShipmentStatus.pending k) refl))

  pub cancel_loaded-refunded :
      phase ≡ ShipmentStatus.pending
      → pos 0 <ℤ collected s i
      → cancel_loaded e i phase s ≡ (ok tt, after_refund e i s)
  unfolding cancel_loaded sum_completed_payments create_payment
  cancel_loaded-refunded h p =
      let b = balanced in
      let fits =
        e.decimal_fits (collected s i) b.collected_whole b.nonneg
          (omega (arith, b.not_above, b.in_range)) in
      let s1 = insert_payment (collected s i) (refund_of e i (collected s i)) s in
      rw h (
        rw (above_zero (collected s i) p) (
          rw fits (
            rw (cancel_after_refund_open i)
              (update_status-current s1 cancelled i sound.unique found))))

  -- The tables are sound after either, since a refund adds nothing to what was collected.
  void-IsSound :
      (ps : List Payment) (n : ℕ)
      → s.next_id ≤ n
      → ((id : ℕ) → sum_completed id ps ≡ sum_completed id s.payments)
      → All (λ (p : Payment). p.invoice_id < n) ps
      → IsSound (after_void i (record s { payments = ps; next_id = n }))
  void-IsSound ps n le same known =
      let b = balanced in
      let this : IsBalanced max_decimal (set_status cancelled i) (collected s i) =
        ground (arith, b) in
      record {
        unique =
            update_many-UniqueKeys id_of (guarded i.id i.version) (set_status cancelled) s.invoices
              (λ _. refl) sound.unique;
        fresh =
            All-update_many (λ (j : Invoice). j.id < s.next_id) (λ (j : Invoice). j.id < n)
              (guarded i.id i.version) (set_status cancelled) s.invoices (λ j h _. omega arith)
              (λ j h _. omega arith) sound.fresh;
        known = known;
        balanced =
            write-balanced s.payments ps s.invoices cancelled i sound.unique found (λ id _. same id)
              (subst (IsBalanced max_decimal (set_status cancelled i)) (sym (same i.id)) this)
              sound.balanced;
      }

  pub after_void-IsSound : IsSound (after_void i s)
  after_void-IsSound = void-IsSound s.payments s.next_id (omega arith) (λ _. refl) sound.known

  pub after_refund-IsSound : IsSound (after_refund e i s)
  unfolding refund_of
  after_refund-IsSound =
      void-IsSound
        (payment_row s.next_id (collected s i) (refund_of e i (collected s i)) ∷ s.payments)
        (s.next_id + 1) (omega arith)
        (λ id.
          sum_completed-not_completed id s.next_id (collected s i) (refund_of e i (collected s i))
            s.payments refl)
        (
          omega (
            arith,
            All-find_first (λ (j : Invoice). j.id < s.next_id) (has_key id_of i.id) s.invoices found
                sound.fresh,
          ),
          All-map (λ (p : Payment). p.invoice_id < s.next_id)
              (λ (p : Payment). p.invoice_id < s.next_id + 1) s.payments (λ p h. omega arith)
              sound.known,
        )
