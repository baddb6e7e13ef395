-- ===== src/Handover/Settled.antt =====
-- What a recorded delivery guarantees: one proof for the parcel, and an invoice that is fully paid.
use multi_tenant_shipping_ma.Shared.{
  ℕ, ◌≡◌, refl, sym, ap, subst, ◌∙◌, false, Option, none, some, ◌∷◌,
}
use multi_tenant_shipping_ma.Shared.Effects.{ok, ◌>>=◌, ◌>>◌, pure, lift}
use multi_tenant_shipping_ma.Shared.Ensures.{
  Ensures, bind-Ensures, throw_if-step, Ensures-step, Ensures-map,
}
use multi_tenant_shipping_ma.Shared.AllOrNothing.{AllOrNothing, transactional-AllOrNothing}
use multi_tenant_shipping_ma.Shared.Table.{find_first, UniqueKeys}
use multi_tenant_shipping_ma.CustomerShipment.Parcel.{
  Parcel, assert_collectable, find_tracked_or_throw, has_tracking,
}
use multi_tenant_shipping_ma.Billing.Money.{IsCents}
use multi_tenant_shipping_ma.Billing.Store.{Surroundings}
use multi_tenant_shipping_ma.Billing.Service.{record_payment_for_shipment}
use multi_tenant_shipping_ma.Billing.Service.Soundness.{IsSound}
use multi_tenant_shipping_ma.Billing.Service.History.{record_payment_for_shipment-IsSound}
use multi_tenant_shipping_ma.Handover.Store.{
  World, Delivering, in_shipping, in_billing, from_shipping, already_proven, proof_parcel_of,
  exists_for_parcel,
}
use multi_tenant_shipping_ma.Handover.Commands.{
  CollectPayment, RecordDelivery, Files, Desk, payment_of, hand_over, take_payment, deliver,
  record_delivery,
}
use multi_tenant_shipping_ma.Handover.Books.{find_tracked_reads, find_tracked_lem, failing_with_ok}
use multi_tenant_shipping_ma.Handover.Proofs.{Delivered, hand_over-Ensures}

-- A payment that comes with the delivery has at most two decimals.
abbrev pub IsPayable : RecordDelivery → Type 0
IsPayable dto = (p : CollectPayment) → dto.payment ≡ some p → IsCents p.amount

abbrev Handed : Parcel → World → ℕ → World → Type 0
Handed parcel w proof w' = (assert_collectable parcel ≡ ok tt) × Delivered parcel w proof w'

abbrev pub HandedOver : ℕ → World → ℕ → World → Type 0
HandedOver tracking_number w proof w' =
    (parcel : Parcel) × (find_first (has_tracking tracking_number) w.shipping.parcels ≡ some parcel)
    × Handed parcel w proof w'

-- The books are sound, and no parcel has two proofs.
abbrev pub IsInOrder : World → Type 0
IsInOrder w = IsSound w.billing × UniqueKeys proof_parcel_of w.proofs

module _ (desk : Desk) where
  module _ (e : Surroundings) where
    take_payment-Ensures :
        (parcel : Parcel) (employee_id : ℕ) (o : Option CollectPayment) (w : World)
        → ((p : CollectPayment) → o ≡ some p → IsCents p.amount)
        → IsSound w.billing
        → Ensures
            (λ _ w'. IsSound w'.billing × (w'.proofs ≡ w.proofs))
            (take_payment desk e parcel employee_id o w)
    unfolding payment_of
    take_payment-Ensures parcel employee_id none w cents sound = (sound, refl)
    take_payment-Ensures parcel employee_id (some p) w cents sound =
        bind-Ensures (λ _ w'. IsSound w'.billing × (w'.proofs ≡ w.proofs))
          (in_billing (
            record_payment_for_shipment e parcel.customer_shipment_id
              (payment_of parcel employee_id p)))
          (λ _. pure tt) w
          (λ _ w1 h.
            let after : _ ≡ w1 = ap (λ r. r.1) h in
            (
              subst (λ t. IsSound t.billing) after
                  (record_payment_for_shipment-IsSound e w.billing parcel.customer_shipment_id
                    (payment_of parcel employee_id p) sound (cents p refl)),
              ap (λ t. t.proofs) (sym after),
            ))

    deliver-Ensures :
        (parcel : Parcel) (dto : RecordDelivery) (files : Files) (employee_id now : ℕ) (w : World)
        → IsPayable dto
        → IsSound w.billing
        → Ensures (Handed parcel w) (deliver desk e parcel dto files employee_id now w)
    unfolding deliver
    deliver-Ensures parcel dto files employee_id now w cents sound =
        throw_if-step Q (exists_for_parcel parcel.id w.proofs) already_proven (λ _. collectable) w
          (λ _.
            bind-Ensures Q (in_shipping (lift (assert_collectable parcel))) (λ _. paying) w
              (λ _ w1 h.
                let fits = failing_with_ok from_shipping _ (ap (λ r. r.0) h) in
                subst (λ t. Ensures Q (paying t)) (ap (λ r. r.1) h)
                  (Ensures-step Q (λ _ w2. IsSound w2.billing × (w2.proofs ≡ w.proofs))
                    (take_payment desk e parcel employee_id dto.payment)
                    (λ _. hand_over desk parcel dto files employee_id now) w
                    (take_payment-Ensures parcel employee_id dto.payment w cents sound)
                    (λ _ w2 (sound2, ps).
                      Ensures-map (Delivered parcel w2) Q
                        (hand_over desk parcel dto files employee_id now w2)
                        (λ proof w3 (kept, settled, first, (row, of, proofs)). (
                          fits,
                          (
                            kept,
                            settled,
                            subst (λ l. exists_for_parcel parcel.id l ≡ false) ps first,
                            (row, of, proofs ∙ ap (λ l. record { id = proof; row = row } ∷ l) ps),
                          ),
                        ))
                        (hand_over-Ensures desk parcel dto files employee_id now w2 sound2)))))
      where
        Q : ℕ → World → Type 0
        Q = Handed parcel w

        paying : Delivering ℕ
        paying =
            take_payment desk e parcel employee_id dto.payment
            >> hand_over desk parcel dto files employee_id now

        collectable : Delivering ℕ
        collectable = in_shipping (lift (assert_collectable parcel)) >> paying

    -- With sound books and, if a payment comes with it, an amount of at most two decimals:
    -- recordDelivery either throws and leaves all tables as they were, or returns; then the
    -- tracking number stood for a collectable parcel without a proof, exactly one proof was added,
    -- for this parcel, the books are sound, and the invoice of the shipment is paid with its whole
    -- total collected.
    pub record_delivery-AllOrNothing :
        (tracking_number : ℕ) (dto : RecordDelivery) (files : Files) (employee_id now : ℕ)
        (w : World)
        → IsPayable dto
        → IsSound w.billing
        → AllOrNothing
            (HandedOver tracking_number w)
            w
            (record_delivery desk e tracking_number dto files employee_id now w)
    unfolding record_delivery
    record_delivery-AllOrNothing tracking_number dto files employee_id now w cents sound =
        transactional-AllOrNothing (HandedOver tracking_number w)
          (in_shipping (find_tracked_or_throw tracking_number) >>= λ parcel.
            deliver desk e parcel dto files employee_id now)
          w
          (bind-Ensures (HandedOver tracking_number w)
            (in_shipping (find_tracked_or_throw tracking_number))
            (λ parcel. deliver desk e parcel dto files employee_id now) w
            (λ parcel w1 h.
              let found =
                find_tracked_lem tracking_number w.shipping
                  (failing_with_ok from_shipping _ (ap (λ r. r.0) h)) in
              let same : w1 ≡ w =
                sym (ap (λ r. r.1) h)
                ∙ ap (λ t. record w { shipping = t })
                    (find_tracked_reads tracking_number w.shipping) in
              subst
                (λ t.
                  Ensures (HandedOver tracking_number w)
                    (deliver desk e parcel dto files employee_id now t))
                (sym same)
                (Ensures-map (Handed parcel w) (HandedOver tracking_number w)
                  (deliver desk e parcel dto files employee_id now w)
                  (λ proof w2 handed. (parcel, found, handed))
                  (deliver-Ensures parcel dto files employee_id now w cents sound))))
