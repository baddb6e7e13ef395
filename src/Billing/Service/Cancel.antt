-- ===== src/Billing/Service/Cancel.antt =====
-- The outcomes of `cancelForShipment`.
use multi_tenant_shipping_ma.Shared.{
  ℕ, ◌≡◌, ◌≢◌, refl, sym, ap, subst, ◌∙◌, some, none, arith, ◌⊎◌, inl, inr, Option-cases, true,
  false,
}
use multi_tenant_shipping_ma.Shared.Int.{ℤ, pos, ◌≤ℤ◌, ◌<ℤ◌}
use multi_tenant_shipping_ma.Shared.Table.{find_first, has_key, find_first-by_key}
use multi_tenant_shipping_ma.Shared.Effects.{
  Result, ok, err, transactional, transactional_fails, transactional_commits,
}
use multi_tenant_shipping_ma.CustomerShipment.Shipment.{ShipmentStatus}
use multi_tenant_shipping_ma.Billing.Invoice.{
  Invoice, InvoiceStatus, cancelled, BillingError, status_eq, returned_not_refunded,
  refund_not_pending,
}
use multi_tenant_shipping_ma.Billing.Store.{
  Tables, Surroundings, find_aggregate_by_shipment_id, is_for_shipment,
}
use multi_tenant_shipping_ma.Billing.Service.Commands.{cancel_loaded, cancel_for_shipment}
use multi_tenant_shipping_ma.Billing.Service.Soundness.{id_of, IsSound}
use multi_tenant_shipping_ma.Billing.Service.Collect.{collected}
use multi_tenant_shipping_ma.Billing.Service.Void.{
  after_void, after_refund, balanced, cancel_loaded-returned, cancel_loaded-unpaid,
  cancel_loaded-refused, cancel_loaded-refunded, after_void-IsSound, after_refund-IsSound,
}

-- What cancelling the invoice `i` of a shipment in a phase does, from the tables `s`.
pub data Cancellation (e : Surroundings) (s : Tables) (i : Invoice) (phase : ShipmentStatus)
    : Result BillingError (Unit {0}) × Tables → Type 0 where
  -- It was cancelled before: nothing happens.
  already_void : i.status ≡ cancelled → Cancellation e s i phase (ok tt, s)
  -- Nothing was collected: the invoice is voided, and no payment is recorded.
  voided :
      i.status ≢ cancelled
      → phase ≢ ShipmentStatus.returned
      → collected s i ≡ pos 0
      → Cancellation e s i phase (ok tt, after_void i s)
  -- The shipment is pending: all that was collected is given back, and the invoice is voided.
  given_back :
      i.status ≢ cancelled
      → phase ≡ ShipmentStatus.pending
      → pos 0 <ℤ collected s i
      → Cancellation e s i phase (ok tt, after_refund e i s)
  -- A returned shipment is not refunded, and its invoice stays.
  kept_returned :
      i.status ≢ cancelled
      → phase ≡ ShipmentStatus.returned
      → Cancellation e s i phase (err returned_not_refunded, s)
  -- Money was collected and the shipment is under way: it stays.
  kept_money :
      i.status ≢ cancelled
      → phase ≢ ShipmentStatus.returned
      → phase ≢ ShipmentStatus.pending
      → pos 0 <ℤ collected s i
      → Cancellation e s i phase (err refund_not_pending, s)

first :
    {r : Result BillingError (Unit {0}) × Tables} {a : Result BillingError (Unit {0})} {t : Tables}
    → r ≡ (a, t)
    → r.0 ≡ a
first h = ap (λ p. p.0) h

decide_phase : (a b : ShipmentStatus) → (a ≡ b) ⊎ (a ≢ b)
decide_phase a b = ground arith

decide_cancelled : (a : InvoiceStatus) → (a ≡ cancelled) ⊎ (a ≢ cancelled)
decide_cancelled a = ground arith

zero_or_above : (a : ℤ) → pos 0 ≤ℤ a → (a ≡ pos 0) ⊎ (pos 0 <ℤ a)
zero_or_above a h = ground arith

module _ (e : Surroundings) (s : Tables) (shipment_id : ℕ) (phase : ShipmentStatus)
    (sound : IsSound s) where
  module _ (i : Invoice)
      (found : find_first (is_for_shipment shipment_id) s.invoices ≡ some i) where
    by_id : find_first (has_key id_of i.id) s.invoices ≡ some i
    by_id = find_first-by_key id_of (is_for_shipment shipment_id) s.invoices sound.unique found

    cancel_for_shipment-open :
        i.status ≢ cancelled
        → cancel_for_shipment e shipment_id phase s ≡ transactional (cancel_loaded e i phase) s
    unfolding cancel_for_shipment find_aggregate_by_shipment_id transactional
    cancel_for_shipment-open h =
        let no_match : status_eq i.status cancelled ≡ false = ground arith in rw (found, no_match)

    cancel_for_shipment-void :
        i.status ≡ cancelled → cancel_for_shipment e shipment_id phase s ≡ (ok tt, s)
    unfolding cancel_for_shipment find_aggregate_by_shipment_id
    cancel_for_shipment-void h =
        let match : status_eq i.status cancelled ≡ true = ground arith in
        transactional_commits _ s (rw (found, match) refl)

    ends :
        {r : Result BillingError (Unit {0}) × Tables}
        → cancel_for_shipment e shipment_id phase s ≡ r
        → Cancellation e s i phase r
        → Cancellation e s i phase (cancel_for_shipment e shipment_id phase s)
    ends h c = subst (Cancellation e s i phase) (sym h) c

    -- On sound tables, cancelling the invoice found for a shipment ends in one of five ways,
    -- decided by the invoice status, the phase of the shipment and the amount collected: nothing
    -- happens, it is voided, it is refunded and voided, or it is refused for a returned shipment
    -- or for collected money, the tables being kept.
    pub cancel_for_shipment_outcome :
        Cancellation e s i phase (cancel_for_shipment e shipment_id phase s)
    cancel_for_shipment_outcome = elim (decide_cancelled i.status) [
      | inl was ↦ ends (cancel_for_shipment-void was) (already_void was)
      | inr live ↦ elim (decide_phase phase ShipmentStatus.returned) [
        | inl back ↦
            ends
              (cancel_for_shipment-open live
                ∙ transactional_fails _ s
                    (first (cancel_loaded-returned e s i phase sound by_id back)))
              (kept_returned live back)
        | inr away ↦
            elim (zero_or_above (collected s i) (balanced e s i phase sound by_id).nonneg) [
              | inl z ↦
                  ends
                    (cancel_for_shipment-open live
                      ∙ transactional_commits _ s
                          (cancel_loaded-unpaid e s i phase sound by_id away z))
                    (voided live away z)
              | inr p ↦ elim (decide_phase phase ShipmentStatus.pending) [
                | inl start ↦
                    ends
                      (cancel_for_shipment-open live
                        ∙ transactional_commits _ s
                            (cancel_loaded-refunded e s i phase sound by_id start p))
                      (given_back live start p)
                | inr under_way ↦
                    ends
                      (cancel_for_shipment-open live
                        ∙ transactional_fails _ s (
                            first (cancel_loaded-refused e s i phase sound by_id away under_way p)))
                      (kept_money live away under_way p)
              ]
            ]
      ]
    ]

    Cancellation-IsSound :
        {r : Result BillingError (Unit {0}) × Tables} → Cancellation e s i phase r → IsSound r.1
    Cancellation-IsSound (already_void _) = sound
    Cancellation-IsSound (voided _ _ _) = after_void-IsSound e s i phase sound by_id
    Cancellation-IsSound (given_back _ _ _) = after_refund-IsSound e s i phase sound by_id
    Cancellation-IsSound (kept_returned _ _) = sound
    Cancellation-IsSound (kept_money _ _ _ _) = sound

  cancel_for_shipment-none :
      find_first (is_for_shipment shipment_id) s.invoices ≡ none
      → cancel_for_shipment e shipment_id phase s ≡ (ok tt, s)
  unfolding cancel_for_shipment find_aggregate_by_shipment_id
  cancel_for_shipment-none h = transactional_commits _ s (rw h refl)

  -- Cancelling the invoice of a shipment keeps the tables sound, whatever the shipment and its status.
  pub cancel_for_shipment-IsSound : IsSound (cancel_for_shipment e shipment_id phase s).1
  cancel_for_shipment-IsSound =
      elim (Option-cases (find_first (is_for_shipment shipment_id) s.invoices)) [
        | inl h ↦ rw (cancel_for_shipment-none h) sound
        | inr (i, h) ↦ Cancellation-IsSound i h (cancel_for_shipment_outcome i h)
      ]
