-- ===== src/Handover/Books.antt =====
-- The parts of a delivery that leave the books and the proofs as they are.
use multi_tenant_shipping_ma.Shared.{
  ℕ, ◌≡◌, refl, ap, ◌∙◌, none, some, String, arith, Bool-cases, Option-cases, inl, inr,
}
use multi_tenant_shipping_ma.Shared.Effects.{Result, ok, err, ◌>>=◌, ◌>>◌, lift, Action}
use multi_tenant_shipping_ma.Shared.Ensures.{Ensures, Ensures-step, Ensures-map}
use multi_tenant_shipping_ma.Shared.Table.{find_first}
use multi_tenant_shipping_ma.CustomerShipment.Shipment.{ParcelStatus}
use multi_tenant_shipping_ma.CustomerShipment.Parcel.{
  Parcel, Shipping, is_collected, transition_to, find_tracked_or_throw, has_tracking,
  append_movement, recalculate_from_parcels, Tables,
}
use multi_tenant_shipping_ma.Billing.Invoice.{Invoice, paid}
use multi_tenant_shipping_ma.Billing.Store.{
  is_for_shipment, find_aggregate_by_shipment_id, Tables as Books,
}
use multi_tenant_shipping_ma.Billing.Service.{assert_settled_for_delivery}
use multi_tenant_shipping_ma.Billing.Service.Collect.{collected}
use multi_tenant_shipping_ma.Handover.Store.{
  World, DeliveryError, Delivering, in_shipping, failing_with, update_status_only,
}
use multi_tenant_shipping_ma.Handover.Commands.{movement_of_delivery, collect_parcel}

-- The shipment has an invoice that is paid, with its whole total collected.
abbrev pub IsSettled : ℕ → Books → Type 0
IsSettled shipment_id s =
    (i : Invoice) × (find_first (is_for_shipment shipment_id) s.invoices ≡ some i)
    × (i.status ≡ paid)
    × (collected s i ≡ i.total_amount)

pub assert_settled_reads :
    (shipment_id : ℕ) (s : Books) → (assert_settled_for_delivery shipment_id s).1 ≡ s
unfolding assert_settled_for_delivery find_aggregate_by_shipment_id
assert_settled_reads shipment_id s =
    elim (Option-cases (find_first (is_for_shipment shipment_id) s.invoices)) [
      | inl h ↦ rw h refl
      | inr (i, h) ↦ rw h refl
    ]

pub find_tracked_reads :
    (tracking_number : ℕ) (s : Tables) → (find_tracked_or_throw tracking_number s).1 ≡ s
unfolding find_tracked_or_throw
find_tracked_reads tracking_number s =
    elim (Option-cases (find_first (has_tracking tracking_number) s.parcels)) [
      | inl h ↦ rw h refl
      | inr (p, h) ↦ rw h refl
    ]

pub find_tracked_lem :
    (tracking_number : ℕ) (s : Tables) {p : Parcel}
    → (find_tracked_or_throw tracking_number s).0 ≡ ok p
    → find_first (has_tracking tracking_number) s.parcels ≡ some p
unfolding find_tracked_or_throw
find_tracked_lem tracking_number s {p} e =
    elim (Option-cases (find_first (has_tracking tracking_number) s.parcels)) [
      | inl h ↦ absurd (cc (rw h at e))
      | inr (q, h) ↦ let k = rw h at e in h ∙ ap (λ r. elim r [ ok y ↦ some y | err _ ↦ none ]) k
    ]

pub returned :
    {S E A : Type 0} (m : Action S E A) (s : S) {a : A}
    → (m s).0 ≡ ok a
    → (m s).1 ≡ s
    → m s ≡ (ok a, s)
returned m s {a} h k = ap (λ r. (r, (m s).1)) h ∙ ap (λ t. (ok a, t)) k

module _ {A : Type 0} where
  -- A call of the shipping module leaves the books and the proofs.
  abbrev pub LeavesBooks : World → A → World → Type 0
  LeavesBooks w _ w' = (w'.billing ≡ w.billing) × (w'.proofs ≡ w.proofs)

  pub failing_with_ok :
      {E : Type 0} (f : E → DeliveryError) (r : Result E A) {a : A}
      → failing_with f r ≡ ok a
      → r ≡ ok a
  failing_with_ok f (ok b) h = ground arith
  failing_with_ok f (err e) h = absurd (cc h)

  pub in_shipping-LeavesBooks :
      (m : Shipping A) (w : World) → Ensures (LeavesBooks w) (in_shipping m w)
  in_shipping-LeavesBooks m w = go (failing_with _ (m w.shipping).0)
    where
      go :
          (r : Result DeliveryError A)
          → Ensures (LeavesBooks w) (r, record w { shipping = (m w.shipping).1 })
      go (ok a) = (refl, refl)
      go (err x) = tt

-- Two steps that each leave the books.
pub then_leaves :
    {A B : Type 0} (m : Delivering A) (f : A → Delivering B) (w : World)
    → Ensures (LeavesBooks w) (m w)
    → ((a : A) (w' : World) → Ensures (LeavesBooks w') (f a w'))
    → Ensures (LeavesBooks w) ((m >>= f) w)
then_leaves m f w h k =
    Ensures-step (LeavesBooks w) (LeavesBooks w) m f w h (λ a w' (same_b, same_p).
      Ensures-map (LeavesBooks w') (LeavesBooks w) (f a w')
        (λ _ w'' (b, p). (b ∙ same_b, p ∙ same_p)) (k a w'))

pub collect_parcel-LeavesBooks :
    (committed : Tables) (parcel : Parcel) (notes : String) (w : World)
    → Ensures (LeavesBooks w) (collect_parcel committed parcel notes w)
unfolding collect_parcel
collect_parcel-LeavesBooks committed parcel notes w = elim (Bool-cases (is_collected parcel)) [
  | inl h ↦ rw h (refl, refl)
  | inr h ↦ rw h (
      then_leaves (in_shipping (lift (transition_to parcel ParcelStatus.collected)))
        (λ moved. write_moved moved) w
        (in_shipping-LeavesBooks (lift (transition_to parcel ParcelStatus.collected)) w)
        (λ moved w1.
          then_leaves (in_shipping (update_status_only moved.id moved.current_status moved.version))
            (λ _. track_moved moved) w1
            (in_shipping-LeavesBooks
              (update_status_only moved.id moved.current_status moved.version) w1)
            (λ _ w2.
              then_leaves
                (in_shipping
                  (append_movement (movement_of_delivery parcel moved.current_status notes)))
                (λ _. in_shipping (recalculate_from_parcels committed moved.customer_shipment_id))
                w2
                (in_shipping-LeavesBooks
                  (append_movement (movement_of_delivery parcel moved.current_status notes)) w2)
                (λ _ w3.
                  in_shipping-LeavesBooks
                    (recalculate_from_parcels committed moved.customer_shipment_id) w3))))
]
  where
    track_moved : Parcel → Delivering (Unit {0})
    track_moved moved =
        in_shipping (append_movement (movement_of_delivery parcel moved.current_status notes))
        >> in_shipping (recalculate_from_parcels committed moved.customer_shipment_id)

    write_moved : Parcel → Delivering (Unit {0})
    write_moved moved =
        in_shipping (update_status_only moved.id moved.current_status moved.version)
        >> track_moved moved
