-- ===== src/ShipmentRequests/Quotation/Agreement/Commands.antt =====
-- Every command of the two services keeps the invariant of their tables, whether it returns or throws.
use multi_tenant_shipping_ma.Shared.{
  ℕ, ◌≡◌, ◌≢◌, refl, sym, ap, subst, Option, some, List, [], ◌∷◌, arith,
}
use multi_tenant_shipping_ma.Shared.Effects.{Result, ok, err, ◌>>=◌, ◌>>◌, lift}
use multi_tenant_shipping_ma.Shared.Ensures.{bind_leaves}
use multi_tenant_shipping_ma.Shared.Table.{has_key, find_first, All-find_first}
use multi_tenant_shipping_ma.ShipmentRequests.Pricing.Numbers.{Numbers}
use multi_tenant_shipping_ma.ShipmentRequests.Quotation.Lifecycle.{
  pending, RequestError, approved, ShipmentRequest, Quotation, SubmittedPrice, accept_by_company,
  reject_by_company, cancel, convert, request_manual_price, submit_price,
}
use multi_tenant_shipping_ma.ShipmentRequests.Quotation.Store.{
  Tables, Requests, Scope, request_id_of, quotation_id_of, find_quotation, find_request,
  update_request, set_request_status, update_quotation, set_quotation_status, set_submitted, emit,
  QuotationEvent, manual_price_requested, manual_price_submitted,
}
use multi_tenant_shipping_ma.ShipmentRequests.Quotation.Commands.{
  decide, accept_request, reject_request, cancel_request, convert_request, request_manual_pricing,
  submit_manual_price, approve_quotation, create_shipment_request, CreateShipmentRequest,
  Neighbours,
}
use multi_tenant_shipping_ma.ShipmentRequests.Quotation.Agreement.Queries.{
  find_quotation-found, find_quotation_reads, find_request-found, find_request_reads,
}
use multi_tenant_shipping_ma.ShipmentRequests.Quotation.Agreement.Invariant.{
  Links, Agrees, IsAgreed, update_quotations-IsAgreed, set_request_status-IsAgreed,
}
use multi_tenant_shipping_ma.ShipmentRequests.Quotation.Agreement.Creation.{
  create_shipment_request-IsAgreed,
}
use multi_tenant_shipping_ma.ShipmentRequests.Quotation.Agreement.Approval.{
  approve_quotation-IsAgreed,
}

module _ {A : Type 0} where
  -- A method of the request that never returns to the pending state.
  abbrev MovesOn : (ShipmentRequest A → Result RequestError (ShipmentRequest A)) → Type 0
  MovesOn change = (r a : ShipmentRequest A) → change r ≡ ok a → a.status ≢ pending

  lift_leaves :
      {B C : Type 0} (r : Result RequestError B) (f : B → Requests A C) (s : Tables A)
      → IsAgreed s
      → ((b : B) → r ≡ ok b → IsAgreed (f b s).1)
      → IsAgreed ((lift r >>= f) s).1
  lift_leaves (ok b) f s h k = k b refl
  lift_leaves (err e) f s h k = h

  request_leaves :
      {C : Type 0} (scope : Scope) (id : ℕ) (f : ShipmentRequest A → Requests A C) (s : Tables A)
      → IsAgreed s
      → ((r : ShipmentRequest A) → IsAgreed (f r s).1)
      → IsAgreed ((find_request scope id >>= f) s).1
  request_leaves scope id f s h k =
      bind_leaves IsAgreed (find_request scope id) f s
        (subst IsAgreed (sym (find_request_reads scope id s)) h)
        (λ r s1 e. subst (λ t. IsAgreed (f r t).1) (sym (find_request-found scope id s e).0) (k r))

  quotation_leaves :
      {C : Type 0} (scope : Scope) (id : ℕ) (f : Quotation A → Requests A C) (s : Tables A)
      → IsAgreed s
      → ((q : Quotation A) → IsAgreed (f q s).1)
      → IsAgreed ((find_quotation scope id >>= f) s).1
  quotation_leaves scope id f s h k =
      bind_leaves IsAgreed (find_quotation scope id) f s
        (subst IsAgreed (sym (find_quotation_reads scope id s)) h)
        (λ q s1 e.
          subst (λ t. IsAgreed (f q t).1) (sym (find_quotation-found scope id s e).0) (k q))

  decide-IsAgreed :
      (change : ShipmentRequest A → Result RequestError (ShipmentRequest A)) (scope : Scope)
      (id : ℕ) (s : Tables A)
      → MovesOn change
      → IsAgreed s
      → IsAgreed (decide change scope id s).1
  decide-IsAgreed change scope id s moves h =
      request_leaves scope id
        (λ r. lift (change r) >>= λ a. update_request r.id (set_request_status a.status)) s h
        (λ r.
          lift_leaves (change r) (λ a. update_request r.id (set_request_status a.status)) s h
            (λ a e. set_request_status-IsAgreed r.id a.status s (moves r a e) h))

  emit-IsAgreed : (e : QuotationEvent) (s : Tables A) → IsAgreed s → IsAgreed (emit e s).1
  unfolding emit
  emit-IsAgreed e s h = record {
    unique = h.unique;
    agreed = h.agreed;
    request_ids = h.request_ids;
    quotation_ids = h.quotation_ids;
  }

  -- The commands on the price of a quotation: load it and its request, check, write, and tell.
  abbrev write_price :
      (ℕ → ℕ → QuotationEvent)
      → (Quotation A → Quotation A → Quotation A)
      → Quotation A
      → Quotation A
      → Requests A (Unit {0})
  write_price event set q a =
      update_quotation q.id (set a) >> emit (event q.id q.shipment_request_id)

  abbrev price :
      (Quotation A → Result RequestError (Quotation A))
      → (ℕ → ℕ → QuotationEvent)
      → (Quotation A → Quotation A → Quotation A)
      → Scope
      → ℕ
      → Requests A (Unit {0})
  price change event set scope id = find_quotation scope id >>= λ q.
      find_request scope q.shipment_request_id >>= λ r. lift (change q) >>= write_price event set q

  -- The write leaves the identifiers, and a status that is not the approved one.
  record KeepsLinks (f : Quotation A → Quotation A) : Type 0 where
    id : (q : Quotation A) → (f q).id ≡ q.id
    request : (q : Quotation A) → (f q).shipment_request_id ≡ q.shipment_request_id
    status : (q : Quotation A) → (f q).status ≢ approved

  write_price-IsAgreed :
      (event : ℕ → ℕ → QuotationEvent) (set : Quotation A → Quotation A → Quotation A)
      (q a : Quotation A) (s : Tables A)
      → KeepsLinks (set a)
      → IsAgreed s
      → IsAgreed (write_price event set q a s).1
  unfolding update_quotation
  write_price-IsAgreed event set q a s keeps h =
      bind_leaves IsAgreed (update_quotation q.id (set a))
        (λ _. emit (event q.id q.shipment_request_id)) s written
        (λ _ s' e.
          emit-IsAgreed (event q.id q.shipment_request_id) s'
            (subst IsAgreed (ap (λ p. p.1) e) written))
    where
      written : IsAgreed (update_quotation q.id (set a) s).1
      written =
          update_quotations-IsAgreed (has_key quotation_id_of q.id) (set a) s keeps.id keeps.request
            keeps.status h

  price-IsAgreed :
      (change : Quotation A → Result RequestError (Quotation A)) (event : ℕ → ℕ → QuotationEvent)
      (set : Quotation A → Quotation A → Quotation A) (scope : Scope) (id : ℕ) (s : Tables A)
      → ((q a : Quotation A) → change q ≡ ok a → KeepsLinks (set a))
      → IsAgreed s
      → IsAgreed (price change event set scope id s).1
  price-IsAgreed change event set scope id s keeps h =
      quotation_leaves scope id
        (λ q. find_request scope q.shipment_request_id >>= λ r.
          lift (change q) >>= write_price event set q)
        s h
        (λ q.
          request_leaves scope q.shipment_request_id
            (λ r. lift (change q) >>= write_price event set q) s h
            (λ r.
              lift_leaves (change q) (write_price event set q) s h
                (λ a e. write_price-IsAgreed event set q a s (keeps q a e) h)))

  accept_by_company-MovesOn : MovesOn accept_by_company
  unfolding accept_by_company
  accept_by_company-MovesOn r a e p = ground arith

  reject_by_company-MovesOn : MovesOn reject_by_company
  unfolding reject_by_company
  reject_by_company-MovesOn r a e p = ground arith

  cancel-MovesOn : MovesOn cancel
  unfolding cancel
  cancel-MovesOn r a e p = ground arith

  convert-MovesOn : MovesOn convert
  unfolding convert
  convert-MovesOn r a e p = ground arith

  request_manual_price_lem :
      (q a : Quotation A) → request_manual_price q ≡ ok a → a.status ≢ approved
  unfolding request_manual_price
  request_manual_price_lem q a e p = ground arith

  request_manual_pricing-IsAgreed :
      (scope : Scope) (id : ℕ) (s : Tables A)
      → IsAgreed s
      → IsAgreed (request_manual_pricing scope id s).1
  unfolding request_manual_pricing
  request_manual_pricing-IsAgreed scope id s h =
      price-IsAgreed request_manual_price manual_price_requested
        (λ a. set_quotation_status a.status) scope id s
        (λ q a e. record {
          id = λ _. refl;
          request = λ _. refl;
          status = λ _. request_manual_price_lem q a e;
        })
        h

module _ (n : Numbers) where
  open n use {Num}

  submit_price_lem :
      (p : SubmittedPrice Num) (q a : Quotation Num)
      → submit_price n p q ≡ ok a
      → a.status ≢ approved
  unfolding submit_price
  submit_price_lem p q a e s = ground arith

  submit_manual_price-IsAgreed :
      (scope : Scope) (id : ℕ) (p : SubmittedPrice Num) (employee_id : Option ℕ) (s : Tables Num)
      → IsAgreed s
      → IsAgreed (submit_manual_price n scope id p employee_id s).1
  unfolding submit_manual_price
  submit_manual_price-IsAgreed scope id p employee_id s h =
      price-IsAgreed (submit_price n p) manual_price_submitted
        (λ a. set_submitted p a.status employee_id) scope id s
        (λ q a e. record {
          id = λ _. refl;
          request = λ _. refl;
          status = λ _. submit_price_lem p q a e;
        })
        h

  -- The commands of the two services, with what each is called with.
  pub data Command : Type 0 where
    create : Neighbours n → ℕ → CreateShipmentRequest Num → Command
    approve_it request_price accept_it reject_it cancel_it convert_it : Scope → ℕ → Command
    submit : Scope → ℕ → SubmittedPrice Num → Option ℕ → Command

  -- The tables after a command, whether it returned or threw.
  abbrev pub after : Command → Tables Num → Tables Num
  after (create w customer_profile_id dto) s =
      (create_shipment_request n w customer_profile_id dto s).1
  after (approve_it scope id) s = (approve_quotation scope id s).1
  after (request_price scope id) s = (request_manual_pricing scope id s).1
  after (accept_it scope id) s = (accept_request scope id s).1
  after (reject_it scope id) s = (reject_request scope id s).1
  after (cancel_it scope id) s = (cancel_request scope id s).1
  after (convert_it scope id) s = (convert_request scope id s).1
  after (submit scope id price employee_id) s =
      (submit_manual_price n scope id price employee_id s).1

  abbrev pub after_all : List Command → Tables Num → Tables Num
  after_all [] s = s
  after_all (c ∷ cs) s = after_all cs (after c s)

  after-IsAgreed : (c : Command) (s : Tables Num) → IsAgreed s → IsAgreed (after c s)
  unfolding accept_request reject_request cancel_request convert_request
  after-IsAgreed (create w customer_profile_id dto) s h =
      create_shipment_request-IsAgreed n w customer_profile_id dto s h
  after-IsAgreed (approve_it scope id) s h = approve_quotation-IsAgreed scope id s h
  after-IsAgreed (request_price scope id) s h = request_manual_pricing-IsAgreed scope id s h
  after-IsAgreed (accept_it scope id) s h =
      decide-IsAgreed accept_by_company scope id s accept_by_company-MovesOn h
  after-IsAgreed (reject_it scope id) s h =
      decide-IsAgreed reject_by_company scope id s reject_by_company-MovesOn h
  after-IsAgreed (cancel_it scope id) s h = decide-IsAgreed cancel scope id s cancel-MovesOn h
  after-IsAgreed (convert_it scope id) s h = decide-IsAgreed convert scope id s convert-MovesOn h
  after-IsAgreed (submit scope id price employee_id) s h =
      submit_manual_price-IsAgreed scope id price employee_id s h

  -- Invariant
  pub after_all-IsAgreed :
      (cs : List Command) (s : Tables Num) → IsAgreed s → IsAgreed (after_all cs s)
  after_all-IsAgreed [] s h = h
  after_all-IsAgreed (c ∷ cs) s h = after_all-IsAgreed cs (after c s) (after-IsAgreed c s h)

  -- After any commands on requests and quotations, whether they returned or threw, from tables
  -- that agree (an approved quotation is the one its request names, and identifiers are unique and
  -- not yet to be given): two stored quotations of one stored request that are both approved are
  -- the same quotation.
  pub approved_quotations_once :
      (cs : List Command) (s : Tables Num) {r : ShipmentRequest Num} {a b : Quotation Num}
      → IsAgreed s
      → find_first (has_key request_id_of r.id) (after_all cs s).requests ≡ some r
      → find_first (has_key quotation_id_of a.id) (after_all cs s).quotations ≡ some a
      → find_first (has_key quotation_id_of b.id) (after_all cs s).quotations ≡ some b
      → a.shipment_request_id ≡ r.id
      → b.shipment_request_id ≡ r.id
      → a.status ≡ approved
      → b.status ≡ approved
      → a.id ≡ b.id
  approved_quotations_once cs s {r} {a} {b} h found_r found_a found_b ra rb sa sb =
      ground (arith, names a found_a ra sa, names b found_b rb sb)
    where
      names :
          (q : Quotation Num)
          → find_first (has_key quotation_id_of q.id) (after_all cs s).quotations ≡ some q
          → q.shipment_request_id ≡ r.id
          → q.status ≡ approved
          → r.approved_quotation_id ≡ some q.id
      names q found of sq =
          let links =
            All-find_first (Agrees (after_all cs s).requests) _ _ found
              (after_all-IsAgreed cs s h).agreed sq in
          (All-find_first (Links q) _ _ found_r links (sym of)).0
