-- ===== src/ShipmentRequests/Quotation/Agreement/Drafts.antt =====
-- What quotation-generation.service.ts makes: identifiers of its own, one request, nothing approved.
use multi_tenant_shipping_ma.Shared.{
  ℕ, suc, ◌+◌, ◌≤◌, ◌<◌, ◌≡◌, ◌≢◌, refl, Option, none, some, List, [], ◌∷◌, ◌++◌, length, All,
  All-map, All-append, flat_map, map, arith, Bool-cases, inl, inr,
}
use multi_tenant_shipping_ma.Shared.Table.{UniqueKeys}
use multi_tenant_shipping_ma.ShipmentRequests.Pricing.Numbers.{Numbers, is_zero}
use multi_tenant_shipping_ma.ShipmentRequests.Pricing.Calculation.{Measures}
use multi_tenant_shipping_ma.ShipmentRequests.Pricing.Matrix.{ZonePrice}
use multi_tenant_shipping_ma.ShipmentRequests.Quotation.Lifecycle.{approved, Quotation}
use multi_tenant_shipping_ma.ShipmentRequests.Quotation.Store.{quotation_id_of}
use multi_tenant_shipping_ma.ShipmentRequests.Quotation.Generation.{
  distinct_keys, route_combinations, Route, Settings, TenantCandidates, draft, route_drafts, number,
  generate_quotations,
}
use multi_tenant_shipping_ma.ShipmentRequests.Quotation.Agreement.Invariant.{IsBelow}
use multi_tenant_shipping_ma.ShipmentRequests.Pricing.Resolution.{price_list, resolve_prices}

module _ {ℓ κ} {A : Type ℓ} {B : Type κ} where
  All-flat_map :
      (P : B → Type 0) (f : A → List B) (xs : List A)
      → ((x : A) → All P (f x))
      → All P (flat_map f xs)
  All-flat_map P f [] h = tt
  All-flat_map P f (x ∷ xs) h = All-append P (f x) (flat_map f xs) (h x) (All-flat_map P f xs h)

  All-mapped : (P : B → Type 0) (f : A → B) (xs : List A) → ((x : A) → P (f x)) → All P (map f xs)
  All-mapped P f [] h = tt
  All-mapped P f (x ∷ xs) h = (h x, All-mapped P f xs h)

module _ (n : Numbers) where
  open n use {Num}

  -- A draft takes the identifier that it is given, belongs to the request, and is not approved.
  abbrev IsDraftOf : ℕ → (ℕ → Quotation Num) → Type 0
  IsDraftOf request_id f =
      (id : ℕ)
      → ((f id).id ≡ id) × ((f id).shipment_request_id ≡ request_id) × ((f id).status ≢ approved)

  draft-IsDraftOf :
      (m : Measures Num) (request_id : ℕ) (divisor : Option Num) (route : Route)
      (price : ZonePrice Num)
      → IsDraftOf request_id (draft n m request_id divisor route price)
  unfolding draft
  draft-IsDraftOf m request_id none route price id = (refl, refl, λ e. absurd (cc e))
  draft-IsDraftOf m request_id (some d) route price id = elim (Bool-cases (is_zero n d)) [
    | inl t ↦ rw t (refl, refl, λ e. absurd (cc e))
    | inr t ↦ rw t (refl, refl, λ e. absurd (cc e))
  ]

  route_drafts-IsDraftOf :
      (m : Measures Num) (request_id : ℕ) (settings : Option (Option Num))
      (prices : List (ZonePrice Num)) (route : Route)
      → All (IsDraftOf request_id) (route_drafts n m request_id settings prices route)
  unfolding route_drafts
  route_drafts-IsDraftOf m request_id none prices route = tt
  route_drafts-IsDraftOf m request_id (some d) prices route =
      All-mapped (IsDraftOf request_id) (λ price. draft n m request_id d route price) prices
        (λ price. draft-IsDraftOf m request_id d route price)

  -- A quotation that was just made, with an identifier from `next` on.
  abbrev pub IsFresh : ℕ → ℕ → ℕ → Quotation Num → Type 0
  IsFresh request_id next end q =
      (next ≤ q.id) × (q.id < end) × (q.shipment_request_id ≡ request_id) × (q.status ≢ approved)

  number-IsFresh :
      (request_id next : ℕ) (fs : List (ℕ → Quotation Num))
      → All (IsDraftOf request_id) fs
      → All (IsFresh request_id next (next + length (number n next fs))) (number n next fs)
  number-IsFresh request_id next [] h = tt
  number-IsFresh request_id next (f ∷ fs) h =
      let (own, belongs, status) = h.0 next in
      (
        (omega (arith, own), omega (arith, own), belongs, status),
        All-map (IsFresh request_id (suc next) (suc next + length (number n (suc next) fs)))
            (IsFresh request_id next (next + suc (length (number n (suc next) fs))))
            (number n (suc next) fs)
            (λ q (low, high, of, other). (omega (arith, low), omega (arith, high), of, other))
            (number-IsFresh request_id (suc next) fs h.1),
      )

  number-UniqueKeys :
      (request_id next : ℕ) (fs : List (ℕ → Quotation Num))
      → All (IsDraftOf request_id) fs
      → UniqueKeys quotation_id_of (number n next fs)
  number-UniqueKeys request_id next [] h = tt
  number-UniqueKeys request_id next (f ∷ fs) h = (
    All-map (IsFresh request_id (suc next) (suc next + length (number n (suc next) fs)))
        (λ q. q.id ≢ (f next).id) (number n (suc next) fs)
        (λ q f e. omega (arith, f.0, e, (h.0 next).0))
        (number-IsFresh request_id (suc next) fs h.1),
    number-UniqueKeys request_id (suc next) fs h.1,
  )

  pub unique_append :
      (request_id next end : ℕ) (qs others : List (Quotation Num))
      → All (IsFresh request_id next end) qs
      → UniqueKeys quotation_id_of qs
      → All (IsBelow next) others
      → UniqueKeys quotation_id_of others
      → UniqueKeys quotation_id_of (qs ++ others)
  unique_append request_id next end [] others fresh u below v = v
  unique_append request_id next end (q ∷ qs) others fresh u below v = (
    All-append (λ x. x.id ≢ q.id) qs others u.0
        (All-map (IsBelow next) (λ x. x.id ≢ q.id) others
          (λ x b e. omega (arith, b.0, e, fresh.0.0)) below),
    unique_append request_id next end qs others fresh.1 u.1 below v,
  )

  abbrev all_drafts :
      Measures Num
      → ℕ
      → List TenantCandidates
      → Settings n
      → List (ZonePrice Num)
      → List (ℕ → Quotation Num)
  all_drafts m request_id candidates settings prices =
      flat_map
        (λ r.
          route_drafts n m request_id (settings r.key.tenant_id)
            (price_list r.key (
              resolve_prices (distinct_keys [] (map (λ x. x.key) (route_combinations candidates)))
                prices))
            r)
        (route_combinations candidates)

  all_drafts-IsDraftOf :
      (m : Measures Num) (request_id : ℕ) (candidates : List TenantCandidates)
      (settings : Settings n) (prices : List (ZonePrice Num))
      → All (IsDraftOf request_id) (all_drafts m request_id candidates settings prices)
  all_drafts-IsDraftOf m request_id candidates settings prices =
      All-flat_map (IsDraftOf request_id) _ (route_combinations candidates)
        (λ r. route_drafts-IsDraftOf m request_id (settings r.key.tenant_id) _ r)

  -- What is generated is numbered from `next` on, for the request, with nothing approved.
  pub generate_quotations-IsFresh :
      (m : Measures Num) (request_id next : ℕ) (candidates : List TenantCandidates)
      (settings : Settings n) (prices : List (ZonePrice Num))
      → let qs = generate_quotations n m request_id next candidates settings prices in
        All (IsFresh request_id next (next + length qs)) qs × UniqueKeys quotation_id_of qs
  unfolding generate_quotations
  generate_quotations-IsFresh m request_id next candidates settings prices =
      let drafts = all_drafts m request_id candidates settings prices in
      let all = all_drafts-IsDraftOf m request_id candidates settings prices in
      (number-IsFresh request_id next drafts all, number-UniqueKeys request_id next drafts all)
