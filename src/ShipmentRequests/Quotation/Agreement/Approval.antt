-- ===== src/ShipmentRequests/Quotation/Agreement/Approval.antt =====
-- `approveQuotation` of quotation.command.service.ts: what an approval that returns leaves.
use multi_tenant_shipping_ma.Shared.{
  some_of, ℕ, ◌<◌, ◌≡◌, ◌≢◌, refl, sym, subst, ◌∙◌, Bool, some, List, [], ◌∷◌, ◌==◌, All, All-map,
  ==_iff, ==_refl, ==_ne, arith, Bool-cases, inl, inr,
}
use multi_tenant_shipping_ma.Shared.Effects.{ok, ◌>>=◌, ◌>>◌, lift}
use multi_tenant_shipping_ma.Shared.Ensures.{
  Ensures, bind-Ensures, lift-step, test-step, tested-Ensures, Ensures-map,
}
use multi_tenant_shipping_ma.Shared.AllOrNothing.{
  AllOrNothing, read-step, transactional-AllOrNothing, AllOrNothing-leaves,
}
use multi_tenant_shipping_ma.Shared.Table.{
  find_first, count_if, update_many, All-update_many, All-update_keyed, find_first-by_key,
  All-find_first, find_first_fits, update_many-UniqueKeys, has_key,
}
use multi_tenant_shipping_ma.ShipmentRequests.Quotation.Lifecycle.{
  pending, customer_approved, quotation_not_found, request_not_found, approved, turned_down,
  awaiting_customer, ShipmentRequest, Quotation, accept_quotation, approve,
}
use multi_tenant_shipping_ma.ShipmentRequests.Quotation.Store.{
  Tables, Scope, request_id_of, quotation_id_of, find_quotation, find_request, update_request,
  update_status_and_quotation, is_taken, set_approved, is_rival, update_quotation,
  set_quotation_status, reject_other_quotations,
}
use multi_tenant_shipping_ma.ShipmentRequests.Quotation.Commands.{
  accept_quotation_for_request, approval, execute_approval, approve_quotation,
}
use multi_tenant_shipping_ma.ShipmentRequests.Quotation.Agreement.Queries.{
  find_quotation-found, find_quotation_reads, find_request-found, find_request_reads,
}
use multi_tenant_shipping_ma.ShipmentRequests.Quotation.Agreement.Invariant.{
  Links, Agrees, IsBelow, IsAgreed,
}

module _ {A : Type 0} where
  -- Once the request is approved with the quotation, the quotations that are approved and belong to
  -- other requests agree with it as before, and so does the quotation itself.
  elsewhere :
      (q : Quotation A) (id quotation_id : ℕ) (requests : List (ShipmentRequest A))
      → q.shipment_request_id ≢ id
      → All (Links q) requests
      → All (Links q) (
          update_many
            (has_key request_id_of id)
            (set_approved customer_approved quotation_id)
            requests)
  elsewhere q id quotation_id requests apart h =
      All-update_many (Links q) (Links q) (has_key request_id_of id)
        (set_approved customer_approved quotation_id) requests
        (λ r _ t at. absurd (apart (sym at ∙ (==_iff r.id id).0 t))) (λ r link _. link) h

  here :
      (q : Quotation A) (requests : List (ShipmentRequest A))
      → All (Links q) (
          update_many
            (has_key request_id_of q.shipment_request_id)
            (set_approved customer_approved q.id)
            requests)
  unfolding update_many
  here q [] = tt
  here q (r ∷ rs) =
      let rest = here q rs in
      elim (Bool-cases (r.id == q.shipment_request_id)) [
        | inl t ↦ rw t ((λ _. (refl, λ e. absurd (cc e))), rest)
        | inr t ↦ rw t ((λ at. absurd (ground arith)), rest)
      ]

  -- The quotations of a request that is pending are not approved.
  abbrev AgreesElsewhere : List (ShipmentRequest A) → ℕ → Quotation A → Type 0
  AgreesElsewhere requests id q =
      Agrees requests q × (q.status ≡ approved → q.shipment_request_id ≢ id)

  none_approved :
      (s : Tables A) (id : ℕ) {r : ShipmentRequest A}
      → IsAgreed s
      → find_first (has_key request_id_of id) s.requests ≡ some r
      → r.status ≡ pending
      → All (AgreesElsewhere s.requests id) s.quotations
  none_approved s id {r} h found waiting =
      All-map (Agrees s.requests) (AgreesElsewhere s.requests id) s.quotations
        (λ q agrees. (
          agrees,
          λ e same.
              let link =
                All-find_first (Links q) (has_key request_id_of id) s.requests found (agrees e) in
              let key : r.id ≡ id = (==_iff r.id id).0 (find_first_fits _ s.requests found) in
              (link (key ∙ sym same)).1 waiting,
        ))
        h.agreed

  -- The tables after an approval.
  abbrev pub approved_tables : Tables A → ℕ → ℕ → Tables A
  approved_tables s id request_id = record s {
    quotations =
        update_many (is_rival request_id id) (set_quotation_status turned_down)
          (update_many (has_key quotation_id_of id) (set_quotation_status approved) s.quotations);
    requests =
        update_many (has_key request_id_of request_id) (set_approved customer_approved id)
          s.requests;
  }

  approved_tables-IsAgreed :
      (s : Tables A) {q : Quotation A} {r : ShipmentRequest A}
      → IsAgreed s
      → find_first (has_key quotation_id_of q.id) s.quotations ≡ some q
      → find_first (has_key request_id_of q.shipment_request_id) s.requests ≡ some r
      → r.status ≡ pending
      → IsAgreed (approved_tables s q.id q.shipment_request_id)
  approved_tables-IsAgreed s {q} {r} h found_q found_r waiting = record {
    unique =
        update_many-UniqueKeys quotation_id_of rival turned marked (λ _. refl)
          (update_many-UniqueKeys quotation_id_of mine mark s.quotations (λ _. refl) h.unique);
    agreed =
        All-update_many (Agrees requests) (Agrees requests) rival turned marked
          (λ x _ _ e. absurd (cc e)) (λ x a _. a)
          (All-update_keyed quotation_id_of (AgreesElsewhere s.requests request_id)
            (Agrees requests) q.id mine mark s.quotations h.unique found_q
            (λ x apart. ==_ne x.id q.id apart)
            (λ x _ a e. elsewhere x request_id q.id s.requests (a.1 e) (a.0 e))
            (λ _. rw (==_refl q.id) (λ _. here q s.requests))
            (none_approved s request_id h found_r waiting));
    request_ids =
        All-update_many (λ x. x.id < s.next_id) (λ x. x.id < s.next_id)
          (has_key request_id_of request_id) (set_approved customer_approved q.id) s.requests
          (λ x b _. b) (λ x b _. b) h.request_ids;
    quotation_ids =
        All-update_many below below rival turned marked (λ x b _. b) (λ x b _. b)
          (All-update_many below below mine mark s.quotations (λ x b _. b) (λ x b _. b)
            h.quotation_ids);
  }
    where
      below : Quotation A → Type 0
      below = IsBelow s.next_id

      request_id : ℕ
      request_id = q.shipment_request_id

      rival : Quotation A → Bool
      rival = is_rival request_id q.id

      mine : Quotation A → Bool
      mine = has_key quotation_id_of q.id

      turned : Quotation A → Quotation A
      turned = set_quotation_status turned_down

      mark : Quotation A → Quotation A
      mark = set_quotation_status approved

      marked : List (Quotation A)
      marked = update_many mine mark s.quotations

      requests : List (ShipmentRequest A)
      requests =
          update_many (has_key request_id_of request_id) (set_approved customer_approved q.id)
            s.requests

  accept_quotation_lem :
      (id : ℕ) (r : ShipmentRequest A) {a : ShipmentRequest A}
      → accept_quotation id r ≡ ok a
      → (r.status ≡ pending) × (a.status ≡ customer_approved)
  unfolding accept_quotation
  accept_quotation_lem id r {a} h = ground arith

  approve_lem :
      (q : Quotation A) {a : Quotation A}
      → approve q ≡ ok a
      → (q.status ≡ awaiting_customer) × (a.status ≡ approved)
  unfolding approve
  approve_lem q {a} h = ground arith

  abbrev Accepted : ℕ → ℕ → Tables A → Tables A → Type 0
  Accepted request_id id s s' =
      (r : ShipmentRequest A) × (find_first (has_key request_id_of request_id) s.requests ≡ some r)
      × (r.status ≡ pending)
      × (s' ≡ record s {
        requests =
            update_many (has_key request_id_of request_id) (set_approved customer_approved id)
              s.requests;
      })

  accept-Ensures :
      (scope : Scope) (request_id id : ℕ) (s : Tables A)
      → Ensures
          (λ _ s'. Accepted request_id id s s')
          (accept_quotation_for_request scope request_id id s)
  unfolding accept_quotation_for_request update_status_and_quotation update_request
  accept-Ensures scope request_id id s =
      bind-Ensures (Q s) (find_request scope request_id)
        (λ r. lift (accept_quotation id r) >>= λ a. update_status_and_quotation r.id a.status id) s
        (λ r s1 e.
          let (same, found) = find_request-found scope request_id s e in
          lift-step (Q s) (accept_quotation id r)
            (λ a. update_status_and_quotation r.id a.status id) s1
            (λ a ea.
              let (waiting, moved) = accept_quotation_lem id r ea in
              let key : r.id ≡ request_id =
                (==_iff r.id request_id).0 (find_first_fits _ s.requests found) in
              subst (λ t. Ensures (Q s) (update_status_and_quotation r.id a.status id t)) (sym same)
                (elim (Bool-cases (some_of (is_taken r.id id) s.requests)) [
                  | inl y ↦ rw y tt
                  | inr n ↦ rw n (
                      tested-Ensures (Q s) _ request_not_found tt _
                        (r, found, waiting, rw (key, moved) refl))
                ])))
    where
      Q : Tables A → Unit {0} → Tables A → Type 0
      Q t _ t' = Accepted request_id id t t'

  -- An approval that returns found the quotation awaiting the customer and its request pending, and
  -- leaves the tables with both approved.
  abbrev Approved : Quotation A → Tables A → Tables A → Type 0
  Approved q s s' =
      (r : ShipmentRequest A) × (find_first (has_key request_id_of q.shipment_request_id) s.requests
        ≡ some r)
      × (r.status ≡ pending)
      × (s' ≡ approved_tables s q.id q.shipment_request_id)

  approval-Ensures :
      (scope : Scope) (q a : Quotation A) (s : Tables A)
      → a.status ≡ approved
      → Ensures (λ _ s'. Approved q s s') (approval scope q a s)
  unfolding update_quotation reject_other_quotations
  approval-Ensures scope q a s h =
      test-step (λ _ s'. Approved q s s') (update_quotation q.id (set_quotation_status a.status))
        (count_if (has_key quotation_id_of q.id) s.quotations == 0) quotation_not_found tt _
        (λ _.
          reject_other_quotations q.shipment_request_id q.id
          >> accept_quotation_for_request scope q.shipment_request_id q.id)
        s refl
        (λ _.
          Ensures-map (λ (_ : Unit {0}) s'. Accepted q.shipment_request_id q.id marked s')
            (λ _ s'. Approved q s s')
            (accept_quotation_for_request scope q.shipment_request_id q.id marked)
            (λ _ s' (r, found, waiting, same). (r, found, waiting, same ∙ rw h refl))
            (accept-Ensures scope q.shipment_request_id q.id marked))
    where
      marked : Tables A
      marked = record s {
        quotations =
            update_many (is_rival q.shipment_request_id q.id) (set_quotation_status turned_down) (
              update_many (has_key quotation_id_of q.id) (set_quotation_status a.status)
                s.quotations);
      }

  -- What an approval that returns has found, and what it leaves.
  abbrev pub ApprovedOnce : ℕ → Tables A → Tables A → Type 0
  ApprovedOnce id s s' =
      (q : Quotation A) × (find_first (has_key quotation_id_of id) s.quotations ≡ some q)
      × (q.status ≡ awaiting_customer)
      × Approved q s s'

  -- ApproveQuotation either throws and leaves the tables as they were, or returns; then the
  -- quotation awaited the customer and its request was pending, and the quotation and the request
  -- are approved and the other quotations of the request that were not yet rejected or expired are
  -- rejected.
  pub approve_quotation-AllOrNothing :
      (scope : Scope) (id : ℕ) (s : Tables A)
      → AllOrNothing (λ _ s'. ApprovedOnce id s s') s (approve_quotation scope id s)
  unfolding approve_quotation execute_approval
  approve_quotation-AllOrNothing scope id s =
      read-step Q (find_quotation scope id)
        (λ q. find_request scope q.shipment_request_id >>= λ r. execute_approval scope q) s
        (find_quotation_reads scope id s)
        (λ q e.
          read-step Q (find_request scope q.shipment_request_id) (λ r. execute_approval scope q) s
            (find_request_reads scope q.shipment_request_id s)
            (λ r _. transactional-AllOrNothing Q (lift (approve q) >>= approval scope q) s (
              lift-step Q (approve q) (approval scope q) s (λ a ea.
                let found = (find_quotation-found scope id s e).1 in
                let (waiting, now) = approve_lem q ea in
                Ensures-map (λ _ s'. Approved q s s') Q (approval scope q a s)
                  (λ _ s' h. (q, found, waiting, h)) (approval-Ensures scope q a s now)))))
    where
      Q : Unit {0} → Tables A → Type 0
      Q _ s' = ApprovedOnce id s s'

  pub approve_quotation-IsAgreed :
      (scope : Scope) (id : ℕ) (s : Tables A)
      → IsAgreed s
      → IsAgreed (approve_quotation scope id s).1
  approve_quotation-IsAgreed scope id s h =
      AllOrNothing-leaves IsAgreed (λ _ s'. ApprovedOnce id s s') s (approve_quotation scope id s) h
        (λ _ s' (q, found, waiting, (r, found_r, idle, same)).
          subst IsAgreed (sym same) (approved_tables-IsAgreed s h (own_key q found) found_r idle))
        (approve_quotation-AllOrNothing scope id s)
    where
      own_key :
          (q : Quotation A)
          → find_first (has_key quotation_id_of id) s.quotations ≡ some q
          → find_first (has_key quotation_id_of q.id) s.quotations ≡ some q
      own_key q found = find_first-by_key quotation_id_of _ s.quotations h.unique found
