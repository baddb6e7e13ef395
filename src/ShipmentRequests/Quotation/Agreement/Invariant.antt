-- ===== src/ShipmentRequests/Quotation/Agreement/Invariant.antt =====
-- The invariant of the tables of requests and quotations, and the writes that keep it.
use multi_tenant_shipping_ma.Shared.{ℕ, ◌<◌, ◌≡◌, ◌≢◌, Bool, some, List, All, All-map, arith}
use multi_tenant_shipping_ma.Shared.Table.{
  update_many, All-update_many, update_many-UniqueKeys, UniqueKeys, has_key,
}
use multi_tenant_shipping_ma.ShipmentRequests.Quotation.Lifecycle.{
  RequestStatus, pending, approved, ShipmentRequest, Quotation,
}
use multi_tenant_shipping_ma.ShipmentRequests.Quotation.Store.{
  Tables, request_id_of, quotation_id_of, update_request, set_request_status,
}

module _ {A : Type 0} where
  abbrev pub Links : Quotation A → ShipmentRequest A → Type 0
  Links q r =
      r.id ≡ q.shipment_request_id → (r.approved_quotation_id ≡ some q.id) × (r.status ≢ pending)

  -- A quotation that is approved is the one that its request names, and the request has moved on.
  abbrev pub Agrees : List (ShipmentRequest A) → Quotation A → Type 0
  Agrees requests q = q.status ≡ approved → All (Links q) requests

  abbrev pub IsBelow : ℕ → Quotation A → Type 0
  IsBelow next q = (q.id < next) × (q.shipment_request_id < next)

  pub record IsAgreed (s : Tables A) : Type 0 where
    pub unique : UniqueKeys quotation_id_of s.quotations
    pub agreed : All (Agrees s.requests) s.quotations
    pub request_ids : All (λ r. r.id < s.next_id) s.requests
    pub quotation_ids : All (IsBelow s.next_id) s.quotations

  -- A quotation that keeps its identifiers, and is not approved after an update, keeps the invariant.
  pub update_quotations-IsAgreed :
      (test : Quotation A → Bool) (f : Quotation A → Quotation A) (s : Tables A)
      → ((q : Quotation A) → (f q).id ≡ q.id)
      → ((q : Quotation A) → (f q).shipment_request_id ≡ q.shipment_request_id)
      → ((q : Quotation A) → (f q).status ≢ approved)
      → IsAgreed s
      → IsAgreed (record s { quotations = update_many test f s.quotations })
  update_quotations-IsAgreed test f s same_id same_request other h = record {
    unique = update_many-UniqueKeys quotation_id_of test f s.quotations same_id h.unique;
    agreed =
        All-update_many (Agrees s.requests) (Agrees s.requests) test f s.quotations
          (λ q _ _ e. absurd (other q e)) (λ q a _. a) h.agreed;
    request_ids = h.request_ids;
    quotation_ids =
        All-update_many (IsBelow s.next_id) (IsBelow s.next_id) test f s.quotations
          (λ q b _. (omega (arith, b.0, same_id q), omega (arith, b.1, same_request q)))
          (λ q b _. b) h.quotation_ids;
  }

  -- So does a request that keeps its quotation and leaves the pending state.
  pub set_request_status-IsAgreed :
      (id : ℕ) (status : RequestStatus) (s : Tables A)
      → status ≢ pending
      → IsAgreed s
      → IsAgreed (update_request id (set_request_status status) s).1
  unfolding update_request
  set_request_status-IsAgreed id status s moved h = record {
    unique = h.unique;
    agreed =
        All-map (Agrees s.requests)
          (Agrees (update_many (has_key request_id_of id) (set_request_status status) s.requests))
          s.quotations
          (λ q agrees e.
            All-update_many (Links q) (Links q) (has_key request_id_of id)
              (set_request_status status) s.requests (λ r link _ at. ((link at).0, moved))
              (λ r link _. link) (agrees e))
          h.agreed;
    request_ids =
        All-update_many (λ r. r.id < s.next_id) (λ r. r.id < s.next_id) (has_key request_id_of id)
          (set_request_status status) s.requests (λ r b _. b) (λ r b _. b) h.request_ids;
    quotation_ids = h.quotation_ids;
  }
