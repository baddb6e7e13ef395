-- ===== src/ShipmentRequests/Quotation/Store.antt =====
-- The tables of requests and quotations, their repositories, and the queries of the two query
-- services that find one row within the scope of the caller.
use multi_tenant_shipping_ma.Shared.{
  ℕ, ◌+◌, Bool, true, false, not, ◌&&◌, ◌||◌, Option, none, some, List, [], ◌∷◌, ◌++◌, ◌==◌,
  if◌then◌else◌, is_some, includes, length, option_eq, some_of,
}
use multi_tenant_shipping_ma.Shared.Effects.{
  Action, ok, err, ◌>>=◌, ◌>>◌, pure, gets, modify, throw_if, found_or,
}
use multi_tenant_shipping_ma.Shared.Table.{find_first, update_many, count_if, select, has_key}
use multi_tenant_shipping_ma.ShipmentRequests.Quotation.Lifecycle.{
  RequestStatus, QuotationStatus, quotation_status_eq, turned_down, lapsed, RequestError,
  quotation_not_found, request_not_found, quotation_taken, ShipmentRequest, Quotation,
  SubmittedPrice,
}

-- What the listeners are told: the quotation and its request.
pub data QuotationEvent : Type 0 where
  manual_price_requested manual_price_submitted : ℕ → ℕ → QuotationEvent

pub record Tables (A : Type 0) : Type 0 where
  pub requests : List (ShipmentRequest A)
  pub quotations : List (Quotation A)
  pub events : List QuotationEvent
  -- `generateUuid()`: the next identifier that is not in use.
  pub next_id : ℕ

abbrev pub Requests : Type 0 → Type 0 → Type 0
Requests A B = Action (Tables A) RequestError B

-- `ShipmentRequestScopeInterface`: what the caller may see.
pub record Scope : Type 0 where
  pub customer_profile_id : Option ℕ
  pub target_tenant_id : Option ℕ
  pub quotation_tenant_id : Option ℕ
  pub origin_org_unit_ids : Option (List ℕ)

abbrev pub fits_scope : Option ℕ → ℕ → Bool
fits_scope none id = true
fits_scope (some wanted) id = id == wanted

abbrev pub fits_units : Option (List ℕ) → ℕ → Bool
fits_units none id = true
fits_units (some []) id = true
fits_units (some (u ∷ us)) id = includes (u ∷ us) id

abbrev is_targeted : Option ℕ → Option ℕ → Bool
is_targeted (some a) (some b) = a == b
is_targeted _ _ = false

abbrev pub is_company_scope : Scope → Bool
is_company_scope scope =
    is_some scope.target_tenant_id
    || is_some scope.quotation_tenant_id
    || is_some scope.origin_org_unit_ids

module _ {A : Type 0} where
  abbrev pub request_id_of : ShipmentRequest A → ℕ
  request_id_of r = r.id

  abbrev pub quotation_id_of : Quotation A → ℕ
  quotation_id_of q = q.id

  unfoldable pub is_quotation_visible : Scope → Quotation A → Bool
  is_quotation_visible scope q =
      fits_scope scope.quotation_tenant_id q.tenant_id
      && fits_units scope.origin_org_unit_ids q.origin_org_unit_id

  -- `QuotationQueryService.findById`
  unfoldable pub find_quotation : Scope → ℕ → Requests A (Quotation A)
  find_quotation scope id = do
    q ← λ s.
        (found_or (find_first (has_key quotation_id_of id) s.quotations) quotation_not_found, s)
    throw_if (not (is_quotation_visible scope q)) quotation_not_found
    pure q

  -- `QuotationQueryService.findByShipmentRequestId`
  unfoldable pub find_by_request : Scope → ℕ → List (Quotation A) → List (Quotation A)
  find_by_request scope request_id quotations =
      select (is_quotation_visible scope)
        (select (λ q. q.shipment_request_id == request_id) quotations)

  unfoldable pub is_request_visible : Scope → List (Quotation A) → ShipmentRequest A → Bool
  unfolding find_by_request
  is_request_visible scope quotations r =
      fits_scope scope.customer_profile_id r.customer_profile_id
      && (not (is_company_scope scope)
          || is_targeted r.target_tenant_id scope.target_tenant_id
          || not (length (find_by_request scope r.id quotations) == 0))

  -- `ShipmentRequestQueryService.findById`
  unfoldable pub find_request : Scope → ℕ → Requests A (ShipmentRequest A)
  unfolding is_request_visible
  find_request scope id = do
    r ← λ s. (found_or (find_first (has_key request_id_of id) s.requests) request_not_found, s)
    visible ← gets (λ s. is_request_visible scope s.quotations r)
    throw_if (not visible) request_not_found
    pure r

  unfoldable pub create_request : ShipmentRequest A → Requests A (Unit {0})
  create_request r = modify (λ s. record s { requests = r ∷ s.requests })

  unfoldable pub create_quotations : List (Quotation A) → Requests A ℕ
  create_quotations quotations s =
      (ok (length quotations), record s { quotations = quotations ++ s.quotations })

  unfoldable pub update_request :
      ℕ → (ShipmentRequest A → ShipmentRequest A) → Requests A (Unit {0})
  update_request id change s = (
    if count_if (has_key request_id_of id) s.requests == 0 then err request_not_found else ok tt,
    record s { requests = update_many (has_key request_id_of id) change s.requests },
  )

  abbrev pub set_request_status : RequestStatus → ShipmentRequest A → ShipmentRequest A
  set_request_status status r = record r { status = status }

  abbrev pub set_approved : RequestStatus → ℕ → ShipmentRequest A → ShipmentRequest A
  set_approved status quotation_id r = record r {
    status = status;
    approved_quotation_id = some quotation_id;
  }

  -- The approved quotation is a unique key of the table.
  abbrev pub is_taken : ℕ → ℕ → ShipmentRequest A → Bool
  is_taken id quotation_id r =
      option_eq r.approved_quotation_id (some quotation_id) && not (r.id == id)

  unfoldable pub update_status_and_quotation : ℕ → RequestStatus → ℕ → Requests A (Unit {0})
  unfolding update_request
  update_status_and_quotation id status quotation_id s =
      if some_of (is_taken id quotation_id) s.requests
      then (err quotation_taken, s)
      else update_request id (set_approved status quotation_id) s

  unfoldable pub update_quotation : ℕ → (Quotation A → Quotation A) → Requests A (Unit {0})
  update_quotation id change s = (
    if count_if (has_key quotation_id_of id) s.quotations == 0
        then err quotation_not_found
        else ok tt,
    record s { quotations = update_many (has_key quotation_id_of id) change s.quotations },
  )

  abbrev pub set_quotation_status : QuotationStatus → Quotation A → Quotation A
  set_quotation_status status q = record q { status = status }

  abbrev pub is_rival : ℕ → ℕ → Quotation A → Bool
  is_rival request_id quotation_id q =
      q.shipment_request_id == request_id
      && not (q.id == quotation_id)
      && not (quotation_status_eq q.status turned_down || quotation_status_eq q.status lapsed)

  unfoldable pub reject_other_quotations : ℕ → ℕ → Requests A (Unit {0})
  reject_other_quotations request_id quotation_id = modify (λ s. record s {
    quotations =
        update_many (is_rival request_id quotation_id) (set_quotation_status turned_down)
          s.quotations;
  })

  -- Prices that are left out stay as they were.
  abbrev pub set_submitted :
      SubmittedPrice A → QuotationStatus → Option ℕ → Quotation A → Quotation A
  set_submitted p status employee_id q = record q {
    amount = some p.amount;
    base_price = if is_some p.base_price then p.base_price else q.base_price;
    weight_charge = if is_some p.weight_charge then p.weight_charge else q.weight_charge;
    extra_fees = if is_some p.extra_fees then p.extra_fees else q.extra_fees;
    status = status;
    submitted_by_employee_id = employee_id;
  }

  unfoldable pub take_ids : ℕ → Requests A ℕ
  take_ids count s = (ok s.next_id, record s { next_id = s.next_id + count })

  unfoldable pub emit : QuotationEvent → Requests A (Unit {0})
  emit e = modify (λ s. record s { events = e ∷ s.events })
