-- ===== src/ShipmentRequests/Quotation/Agreement/Creation.antt =====
-- `create` of shipment-request.command.service.ts keeps the invariant: its quotations have identifiers
-- of their own, belong to the new request, and are not approved.
use multi_tenant_shipping_ma.Shared.{
  ℕ, ◌+◌, ◌≤◌, ◌<◌, ◌≡◌, ◌≢◌, refl, ap, subst, not, ◌&&◌, List, [], ◌∷◌, ◌++◌, length, All, All-map,
  All-append, All-both, arith, Bool-cases, inl, inr,
}
use multi_tenant_shipping_ma.Shared.Effects.{ok, ◌>>=◌, ◌>>◌, pure}
use multi_tenant_shipping_ma.Shared.Ensures.{
  bind_leaves, known-step, transactional-Ensures, transactional_outcome,
}
use multi_tenant_shipping_ma.Shared.Table.{UniqueKeys}
use multi_tenant_shipping_ma.ShipmentRequests.Pricing.Numbers.{Numbers}
use multi_tenant_shipping_ma.ShipmentRequests.Quotation.Lifecycle.{
  approved, ShipmentRequest, Quotation,
}
use multi_tenant_shipping_ma.ShipmentRequests.Quotation.Store.{
  Tables, quotation_id_of, create_request, create_quotations, take_ids,
}
use multi_tenant_shipping_ma.ShipmentRequests.Quotation.Commands.{
  generated, new_request, is_inactive_target, save_generated_quotations, persist_shipment_request,
  create_shipment_request, CreateShipmentRequest, Neighbours,
}
use multi_tenant_shipping_ma.ShipmentRequests.Quotation.Agreement.Invariant.{
  Agrees, IsBelow, IsAgreed,
}
use multi_tenant_shipping_ma.ShipmentRequests.Quotation.Agreement.Drafts.{
  IsFresh, unique_append, generate_quotations-IsFresh,
}

module _ (n : Numbers) where
  open n use {Num}

  abbrev with_new : ShipmentRequest Num → List (Quotation Num) → Tables Num → Tables Num
  with_new r qs s = record s { requests = r ∷ s.requests; quotations = qs ++ s.quotations }

  fresh_links :
      (r : ShipmentRequest Num) (requests : List (ShipmentRequest Num)) (q : Quotation Num)
      (next : ℕ)
      → next ≤ r.id
      → IsBelow next q
      → Agrees requests q
      → Agrees (r ∷ requests) q
  fresh_links r requests q next above below agrees e =
      ((λ same. absurd (omega (arith, same, above, below.1))), agrees e)

  fresh_status :
      (q : Quotation Num) {request_id next end : ℕ}
      → IsFresh n request_id next end q
      → q.status ≢ approved
  fresh_status q (_, _, _, other) = other

  -- The tables with the new rows, when the next identifier is past all of them.
  with_new-IsAgreed :
      (r : ShipmentRequest Num) (qs : List (Quotation Num)) (s : Tables Num) (start end : ℕ)
      → IsAgreed s
      → r.id ≡ s.next_id
      → s.next_id < start
      → start ≤ end
      → All (IsFresh n r.id (start) end) qs
      → UniqueKeys quotation_id_of qs
      → IsAgreed (with_new r qs (record s { next_id = end }))
  with_new-IsAgreed r qs s start end h at first past fresh u = record {
    unique =
        unique_append n r.id (start) end qs s.quotations fresh u
          (All-map (IsBelow s.next_id) (IsBelow (start)) s.quotations
            (λ q b. (omega (arith, b.0, first), omega (arith, b.1, first))) h.quotation_ids)
          h.unique;
    agreed =
        All-append (Agrees (r ∷ s.requests)) qs s.quotations
          (All-map (IsFresh n r.id (start) end) (Agrees (r ∷ s.requests)) qs
            (λ q f e. absurd (fresh_status q f e)) fresh)
          (All-map (λ q. IsBelow s.next_id q × Agrees s.requests q) (Agrees (r ∷ s.requests))
            s.quotations
            (λ q (below, agrees).
              fresh_links r s.requests q s.next_id (omega (arith, at)) below agrees)
            (All-both (IsBelow s.next_id) (Agrees s.requests) s.quotations h.quotation_ids
              h.agreed));
    request_ids = (
      omega (arith, at, first, past),
      All-map (λ x. x.id < s.next_id) (λ x. x.id < end) s.requests
          (λ x b. omega (arith, b, first, past)) h.request_ids,
    );
    quotation_ids =
        All-append (IsBelow end) qs s.quotations
          (All-map (IsFresh n r.id (start) end) (IsBelow end) qs
            (λ q (low, high, of, other). (high, omega (arith, of, at, first, past))) fresh)
          (All-map (IsBelow s.next_id) (IsBelow end) s.quotations
            (λ q b. (omega (arith, b.0, first, past), omega (arith, b.1, first, past)))
            h.quotation_ids);
  }

  raise-IsAgreed :
      (s : Tables Num) (end : ℕ)
      → s.next_id ≤ end
      → IsAgreed s
      → IsAgreed (record s { next_id = end })
  raise-IsAgreed s end past h = record {
    unique = h.unique;
    agreed = h.agreed;
    request_ids =
        All-map (λ x. x.id < s.next_id) (λ x. x.id < end) s.requests (λ x b. omega (arith, b, past))
          h.request_ids;
    quotation_ids =
        All-map (IsBelow s.next_id) (IsBelow end) s.quotations
          (λ q b. (omega (arith, b.0, past), omega (arith, b.1, past))) h.quotation_ids;
  }

  save_generated_quotations_lem :
      (qs : List (Quotation Num)) (s : Tables Num)
      → save_generated_quotations qs s
        ≡ (ok (length qs), record s { quotations = qs ++ s.quotations })
  unfolding save_generated_quotations create_quotations
  save_generated_quotations_lem [] s = refl
  save_generated_quotations_lem (q ∷ qs) s = refl

  persist_shipment_request-IsAgreed :
      (r : ShipmentRequest Num) (qs : List (Quotation Num)) (s : Tables Num)
      → IsAgreed s
      → IsAgreed (with_new r qs s)
      → IsAgreed (persist_shipment_request r qs s).1
  unfolding persist_shipment_request create_request
  persist_shipment_request-IsAgreed r qs s h new =
      transactional_outcome IsAgreed (λ _ s'. IsAgreed s')
        (create_request r >> (save_generated_quotations qs >>= λ _. pure tt)) s h
        (transactional-Ensures (λ _ s'. IsAgreed s')
          (create_request r >> (save_generated_quotations qs >>= λ _. pure tt)) s
          (known-step (λ _ s'. IsAgreed s') (save_generated_quotations qs) (λ _. pure tt)
            (record s { requests = r ∷ s.requests }) _
            (save_generated_quotations_lem qs (record s { requests = r ∷ s.requests })) new))
        (λ _ _ g. g)

  pub create_shipment_request-IsAgreed :
      (w : Neighbours n) (customer_profile_id : ℕ) (dto : CreateShipmentRequest Num)
      (s : Tables Num)
      → IsAgreed s
      → IsAgreed (create_shipment_request n w customer_profile_id dto s).1
  unfolding create_shipment_request take_ids
  create_shipment_request-IsAgreed w customer_profile_id dto s h =
      elim (Bool-cases (is_inactive_target n w dto.target_tenant_id)) [
        | inl t ↦ rw t h
        | inr t ↦
            rw t
              (elim (Bool-cases (
                not (
                  w.location_exists dto.origin_global_location_id
                  && w.location_exists dto.destination_global_location_id))) [
                    | inl u ↦ rw u h
                    | inr u ↦ rw u (
                        bind_leaves IsAgreed (persist_shipment_request r qs)
                          (λ _. pure (s.next_id, qs)) s2 kept
                          (λ _ s' e. subst IsAgreed (ap (λ p. p.1) e) kept))
                  ])
      ]
    where
      r : ShipmentRequest Num
      r = new_request n s.next_id customer_profile_id dto

      qs : List (Quotation Num)
      qs = generated n w dto s.next_id (s.next_id + 1)

      end : ℕ
      end = s.next_id + 1 + length qs

      s2 : Tables Num
      s2 = record s { next_id = end }

      fresh : All (IsFresh n s.next_id (s.next_id + 1) end) qs × UniqueKeys quotation_id_of qs
      fresh =
          generate_quotations-IsFresh n dto.expected s.next_id (s.next_id + 1)
            (w.resolve_routes dto.origin_global_location_id dto.destination_global_location_id
              dto.target_tenant_id)
            w.settings w.prices

      kept : IsAgreed (persist_shipment_request r qs s2).1
      kept = persist_shipment_request-IsAgreed r qs s2 (raise-IsAgreed s end (omega arith) h) (
          with_new-IsAgreed r qs s (s.next_id + 1) end h refl (omega arith) (omega arith) fresh.0
            fresh.1)
