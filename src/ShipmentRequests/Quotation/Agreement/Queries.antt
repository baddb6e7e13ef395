-- ===== src/ShipmentRequests/Quotation/Agreement/Queries.antt =====
-- `findById` of the two query services: what it gives, and that it only reads.
use multi_tenant_shipping_ma.Shared.{
  ℕ, ◌≡◌, refl, sym, ap, Bool, not, Option, none, some, Bool-cases, inl, inr,
}
use multi_tenant_shipping_ma.Shared.Effects.{ok, err, ◌>>=◌, ◌>>◌, pure, gets, throw_if, found_or}
use multi_tenant_shipping_ma.Shared.Table.{find_first, has_key}
use multi_tenant_shipping_ma.ShipmentRequests.Quotation.Lifecycle.{
  quotation_not_found, request_not_found, ShipmentRequest, Quotation,
}
use multi_tenant_shipping_ma.ShipmentRequests.Quotation.Store.{
  Tables, Scope, request_id_of, quotation_id_of, is_quotation_visible, is_request_visible,
  find_quotation, find_request,
}

-- A query that loads a row and throws unless it may be seen.
loaded :
    {S E B : Type 0} (o : Option B) (e : E) (hidden : B → S → Bool) (s : S) {x : B} {s' : S}
    → ((λ t. (found_or o e, t)) >>= (λ b. gets (hidden b) >>= (λ h. throw_if h e >> pure b))) s
      ≡ (ok x, s')
    → (s' ≡ s) × (o ≡ some x)
loaded none e hidden s h = absurd (cc h)
loaded (some b) e hidden s {x} {s'} h = elim (Bool-cases (hidden b s)) [
  | inl t ↦ absurd (cc (rw t at h))
  | inr t ↦
      let k = rw t at h in
      (sym (ap (λ p. p.1) k), ap (λ p. elim p.0 [ ok y ↦ some y | err _ ↦ none ]) k)
]

loaded_reads :
    {S E B : Type 0} (o : Option B) (e : E) (hidden : B → S → Bool) (s : S)
    → (((λ t. (found_or o e, t)) >>= (λ b. gets (hidden b) >>= (λ h. throw_if h e >> pure b))) s).1
      ≡ s
loaded_reads none e hidden s = refl
loaded_reads (some b) e hidden s = elim (Bool-cases (hidden b s)) [
  | inl t ↦ rw t refl
  | inr t ↦ rw t refl
]

module _ {A : Type 0} where
  -- A query that returns leaves the tables as they were, and gives the row with the identifier.
  pub find_quotation-found :
      (scope : Scope) (id : ℕ) (s : Tables A) {q : Quotation A} {s' : Tables A}
      → find_quotation scope id s ≡ (ok q, s')
      → (s' ≡ s) × (find_first (has_key quotation_id_of id) s.quotations ≡ some q)
  unfolding find_quotation
  find_quotation-found scope id s {q} {s'} h =
      loaded (find_first (has_key quotation_id_of id) s.quotations) quotation_not_found
        (λ q t. not (is_quotation_visible scope q)) s h

  pub find_quotation_reads :
      (scope : Scope) (id : ℕ) (s : Tables A) → (find_quotation scope id s).1 ≡ s
  unfolding find_quotation
  find_quotation_reads scope id s =
      loaded_reads (find_first (has_key quotation_id_of id) s.quotations) quotation_not_found
        (λ q t. not (is_quotation_visible scope q)) s

  pub find_request_reads : (scope : Scope) (id : ℕ) (s : Tables A) → (find_request scope id s).1 ≡ s
  unfolding find_request
  find_request_reads scope id s =
      loaded_reads (find_first (has_key request_id_of id) s.requests) request_not_found
        (λ r t. not (is_request_visible scope t.quotations r)) s

  pub find_request-found :
      (scope : Scope) (id : ℕ) (s : Tables A) {r : ShipmentRequest A} {s' : Tables A}
      → find_request scope id s ≡ (ok r, s')
      → (s' ≡ s) × (find_first (has_key request_id_of id) s.requests ≡ some r)
  unfolding find_request
  find_request-found scope id s h =
      loaded (find_first (has_key request_id_of id) s.requests) request_not_found
        (λ r t. not (is_request_visible scope t.quotations r)) s h
