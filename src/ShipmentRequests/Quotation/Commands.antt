-- ===== src/ShipmentRequests/Quotation/Commands.antt =====
-- backend/src/modules/shipment-request: quotation.command.service.ts and
-- shipment-request.command.service.ts. The notifications that follow a decision of the company are
-- left out: what they throw is swallowed, and they write none of these tables.
use multi_tenant_shipping_ma.Shared.{
  ℕ, ◌+◌, Bool, false, not, ◌&&◌, Option, none, some, String, List, [], ◌∷◌, length,
}
use multi_tenant_shipping_ma.Shared.Effects.{
  Result, ok, ◌>>=◌, ◌>>◌, pure, throw_if, lift, transactional,
}
use multi_tenant_shipping_ma.ShipmentRequests.Pricing.Numbers.{Numbers}
use multi_tenant_shipping_ma.ShipmentRequests.Pricing.Calculation.{Measures}
use multi_tenant_shipping_ma.ShipmentRequests.Pricing.Matrix.{ZonePrice}
use multi_tenant_shipping_ma.ShipmentRequests.Quotation.Lifecycle.{
  pending, RequestError, inactive_company, unknown_locations, ShipmentRequest, accept_quotation,
  accept_by_company, cancel, reject_by_company, convert, Quotation, SubmittedPrice, approve,
  request_manual_price, submit_price,
}
use multi_tenant_shipping_ma.ShipmentRequests.Quotation.Store.{
  manual_price_requested, manual_price_submitted, Requests, Scope, find_quotation, find_request,
  create_request, create_quotations, update_request, set_request_status,
  update_status_and_quotation, update_quotation, set_quotation_status, reject_other_quotations,
  set_submitted, emit, take_ids,
}
use multi_tenant_shipping_ma.ShipmentRequests.Quotation.Generation.{
  TenantCandidates, Settings, generate_quotations,
}

module _ {A : Type 0} where
  unfoldable pub accept_quotation_for_request : Scope → ℕ → ℕ → Requests A (Unit {0})
  unfolding find_request accept_quotation update_status_and_quotation
  accept_quotation_for_request scope request_id quotation_id = do
    r ← find_request scope request_id
    accepted ← lift (accept_quotation quotation_id r)
    update_status_and_quotation r.id accepted.status quotation_id

  abbrev pub approval : Scope → Quotation A → Quotation A → Requests A (Unit {0})
  approval scope q approved = do
    update_quotation q.id (set_quotation_status approved.status)
    reject_other_quotations q.shipment_request_id q.id
    accept_quotation_for_request scope q.shipment_request_id q.id

  unfoldable pub execute_approval : Scope → Quotation A → Requests A (Unit {0})
  unfolding approve update_quotation reject_other_quotations accept_quotation_for_request
      transactional
  execute_approval scope q = transactional (lift (approve q) >>= approval scope q)

  unfoldable pub approve_quotation : Scope → ℕ → Requests A (Unit {0})
  unfolding find_quotation find_request execute_approval
  approve_quotation scope id = do
    q ← find_quotation scope id
    r ← find_request scope q.shipment_request_id
    execute_approval scope q

  unfoldable pub request_manual_pricing : Scope → ℕ → Requests A (Unit {0})
  unfolding find_quotation find_request request_manual_price update_quotation emit
  request_manual_pricing scope id = do
    q ← find_quotation scope id
    r ← find_request scope q.shipment_request_id
    requested ← lift (request_manual_price q)
    update_quotation q.id (set_quotation_status requested.status)
    emit (manual_price_requested q.id q.shipment_request_id)

  -- The commands that load a request, let it change its status, and store the status.
  abbrev pub decide :
      (ShipmentRequest A → Result RequestError (ShipmentRequest A))
      → Scope
      → ℕ
      → Requests A (Unit {0})
  decide change scope id = do
    r ← find_request scope id
    changed ← lift (change r)
    update_request r.id (set_request_status changed.status)

  unfoldable pub accept_request : Scope → ℕ → Requests A (Unit {0})
  unfolding find_request accept_by_company update_request
  accept_request = decide accept_by_company

  unfoldable pub reject_request : Scope → ℕ → Requests A (Unit {0})
  unfolding find_request reject_by_company update_request
  reject_request = decide reject_by_company

  unfoldable pub cancel_request : Scope → ℕ → Requests A (Unit {0})
  unfolding find_request cancel update_request
  cancel_request = decide cancel

  unfoldable pub convert_request : Scope → ℕ → Requests A (Unit {0})
  unfolding find_request convert update_request
  convert_request = decide convert

  unfoldable pub save_generated_quotations : List (Quotation A) → Requests A ℕ
  unfolding create_quotations
  save_generated_quotations [] = pure 0
  save_generated_quotations (q ∷ qs) = create_quotations (q ∷ qs)

  unfoldable pub persist_shipment_request :
      ShipmentRequest A → List (Quotation A) → Requests A (Unit {0})
  unfolding create_request save_generated_quotations transactional
  persist_shipment_request r quotations =
      transactional (create_request r >> (save_generated_quotations quotations >>= λ _. pure tt))

-- `CreateShipmentRequestDto`, less the coordinates of the ends.
pub record CreateShipmentRequest (A : Type 0) : Type 0 where
  pub target_tenant_id : Option ℕ
  pub origin_global_location_id : ℕ
  pub destination_global_location_id : ℕ
  pub sender_name : String
  pub sender_phone : String
  pub receiver_name : String
  pub receiver_phone : String
  pub expected_pieces_count : ℕ
  pub expected : Measures A
  pub notes : Option String

module _ (n : Numbers) where
  open n use {Num}

  unfoldable pub submit_manual_price :
      Scope → ℕ → SubmittedPrice Num → Option ℕ → Requests Num (Unit {0})
  unfolding find_quotation find_request submit_price update_quotation emit
  submit_manual_price scope id price employee_id = do
    q ← find_quotation scope id
    r ← find_request scope q.shipment_request_id
    submitted ← lift (submit_price n price q)
    update_quotation q.id (set_submitted price submitted.status employee_id)
    emit (manual_price_submitted q.id q.shipment_request_id)

  -- The other modules, as far as the creation of a request asks them.
  pub record Neighbours : Type 0 where
    pub is_active_tenant : ℕ → Bool
    pub location_exists : ℕ → Bool
    pub resolve_routes : ℕ → ℕ → Option ℕ → List TenantCandidates
    pub settings : Settings n
    pub prices : List (ZonePrice Num)

  abbrev pub is_inactive_target : Neighbours → Option ℕ → Bool
  is_inactive_target w none = false
  is_inactive_target w (some t) = not (w.is_active_tenant t)

  abbrev pub new_request : ℕ → ℕ → CreateShipmentRequest Num → ShipmentRequest Num
  new_request id customer_profile_id dto = record {
    id = id;
    target_tenant_id = dto.target_tenant_id;
    customer_profile_id = customer_profile_id;
    origin_global_location_id = dto.origin_global_location_id;
    destination_global_location_id = dto.destination_global_location_id;
    sender_name = dto.sender_name;
    sender_phone = dto.sender_phone;
    receiver_name = dto.receiver_name;
    receiver_phone = dto.receiver_phone;
    expected_pieces_count = dto.expected_pieces_count;
    expected = dto.expected;
    notes = dto.notes;
    status = pending;
    approved_quotation_id = none;
  }

  abbrev pub generated : Neighbours → CreateShipmentRequest Num → ℕ → ℕ → List (Quotation Num)
  generated w dto id next =
      generate_quotations n dto.expected id next
        (w.resolve_routes dto.origin_global_location_id dto.destination_global_location_id
          dto.target_tenant_id)
        w.settings w.prices

  -- The identifiers of the quotations follow that of the request.
  abbrev pub generate :
      Neighbours → CreateShipmentRequest Num → ℕ → Requests Num (List (Quotation Num))
  generate w dto id s =
      let quotations = generated w dto id s.next_id in
      (ok quotations, record s { next_id = s.next_id + length quotations })

  unfoldable pub create_shipment_request :
      Neighbours → ℕ → CreateShipmentRequest Num → Requests Num (ℕ × List (Quotation Num))
  unfolding take_ids generate_quotations persist_shipment_request
  create_shipment_request w customer_profile_id dto = do
    throw_if (is_inactive_target w dto.target_tenant_id) inactive_company
    throw_if
        (not (
          w.location_exists dto.origin_global_location_id
          && w.location_exists dto.destination_global_location_id))
        unknown_locations
    id ← take_ids 1
    quotations ← generate w dto id
    persist_shipment_request (new_request id customer_profile_id dto) quotations
    pure (id, quotations)
