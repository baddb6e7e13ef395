-- ===== src/ShipmentRequests/Quotation/Generation.antt =====
-- backend/src/modules/shipment-request/quotation/application/services/quotation-generation.service.ts
-- The candidates come from the organization module, the settings from the tenant module. Names,
-- notes, currencies and the snapshot of the prices are left out.
use multi_tenant_shipping_ma.Shared.{
  ℕ, suc, ◌≡◌, refl, ap, ◌∙◌, true, ◌&&◌, ◌||◌, Option, none, some, List, [], ◌∷◌, ◌++◌,
  if◌then◌else◌, flat_map, some_of, map, Bool-cases, inl, inr, arith,
}
use multi_tenant_shipping_ma.Shared.Table.{select}
use multi_tenant_shipping_ma.ShipmentRequests.Pricing.Numbers.{Numbers, is_zero}
use multi_tenant_shipping_ma.ShipmentRequests.Pricing.Calculation.{
  Measures, calculate_quotation_amount,
}
use multi_tenant_shipping_ma.ShipmentRequests.Pricing.Matrix.{ZonePrice}
use multi_tenant_shipping_ma.ShipmentRequests.Pricing.Resolution.{
  RouteKey, route_eq, route_of, resolve_prices, price_list, price_list-resolve_prices, some_route,
}
use multi_tenant_shipping_ma.ShipmentRequests.Quotation.Lifecycle.{
  Quotation, automatic, manual, awaiting_customer, waiting_pricing_request,
}

-- A unit of the organization near one end of the way, and its zone.
pub record UnitCandidate : Type 0 where
  pub org_unit_id : ℕ
  pub zone_id : Option ℕ

pub record TenantCandidates : Type 0 where
  pub tenant_id : ℕ
  pub origin_candidates : List UnitCandidate
  pub destination_candidates : List UnitCandidate

pub record Route : Type 0 where
  pub key : RouteKey
  pub origin_org_unit_id : ℕ
  pub destination_org_unit_id : ℕ

-- `if (origin.zoneId && dest.zoneId)`
unfoldable pub route_between : ℕ → UnitCandidate → UnitCandidate → List Route
route_between tenant_id origin destination = zoned origin.zone_id destination.zone_id
  where
    zoned : Option ℕ → Option ℕ → List Route
    zoned (some from) (some to) =
        record {
          key = record { tenant_id = tenant_id; origin_zone_id = from; destination_zone_id = to };
          origin_org_unit_id = origin.org_unit_id;
          destination_org_unit_id = destination.org_unit_id;
        }
        ∷ []
    zoned _ _ = []

unfoldable pub route_combinations : List TenantCandidates → List Route
unfolding route_between
route_combinations candidates =
    flat_map
      (λ t.
        flat_map (λ o. flat_map (λ d. route_between t.tenant_id o d) t.destination_candidates)
          t.origin_candidates)
      candidates

-- `new Set(...)`: a key stays where it comes first.
unfoldable pub distinct_keys : List RouteKey → List RouteKey → List RouteKey
distinct_keys seen [] = []
distinct_keys seen (k ∷ ks) =
    let again = distinct_keys seen ks in
    let rest = distinct_keys (k ∷ seen) ks in if some_of (route_eq k) seen then again else k ∷ rest

module _ (n : Numbers) where
  open n use {Num, zero}

  -- The tenants that are active, each with its volumetric divisor if it has set one.
  abbrev pub Settings : Type 0
  Settings = ℕ → Option (Option Num)

  abbrev empty_quotation : ℕ → Route → ZonePrice Num → ℕ → Quotation Num
  empty_quotation request_id route price id = record {
    id = id;
    tenant_id = route.key.tenant_id;
    shipment_request_id = request_id;
    origin_org_unit_id = route.origin_org_unit_id;
    destination_org_unit_id = route.destination_org_unit_id;
    service_level = price.service_level;
    quotation_type = manual;
    base_price = none;
    weight_charge = none;
    extra_fees = none;
    amount = none;
    status = waiting_pricing_request;
    submitted_by_employee_id = none;
  }

  abbrev priced_quotation : Measures Num → ℕ → Num → Route → ZonePrice Num → ℕ → Quotation Num
  priced_quotation m request_id divisor route price id =
      let r = calculate_quotation_amount n m (record {
        volumetric_divisor = divisor;
        base_price = price.base_price;
        base_weight_kg = price.base_weight_kg;
        price_per_extra_kg = price.price_per_extra_kg;
        extra_fees = zero;
      }) in
      record (empty_quotation request_id route price id) {
        quotation_type = automatic;
        base_price = some price.base_price;
        weight_charge = some r.weight_charge;
        extra_fees = some zero;
        amount = some r.total_amount;
        status = awaiting_customer;
      }

  -- A quotation that still waits for its identifier.
  unfoldable pub draft : Measures Num → ℕ → Option Num → Route → ZonePrice Num → ℕ → Quotation Num
  draft m request_id none route price id = empty_quotation request_id route price id
  draft m request_id (some divisor) route price id =
      if is_zero n divisor
      then empty_quotation request_id route price id
      else priced_quotation m request_id divisor route price id

  unfoldable pub route_drafts :
      Measures Num
      → ℕ
      → Option (Option Num)
      → List (ZonePrice Num)
      → Route
      → List (ℕ → Quotation Num)
  unfolding draft
  route_drafts m request_id none prices route = []
  route_drafts m request_id (some divisor) prices route =
      map (λ price. draft m request_id divisor route price) prices

  -- `generateUuid()` gives each draft an identifier of its own.
  abbrev pub number : ℕ → List (ℕ → Quotation Num) → List (Quotation Num)
  number next [] = []
  number next (f ∷ fs) = f next ∷ number (suc next) fs

  unfoldable pub generate_quotations :
      Measures Num
      → ℕ
      → ℕ
      → List TenantCandidates
      → Settings
      → List (ZonePrice Num)
      → List (Quotation Num)
  unfolding route_drafts distinct_keys route_combinations
  generate_quotations m request_id next candidates settings prices =
      let routes = route_combinations candidates in
      let pricing_map = resolve_prices (distinct_keys [] (map (λ r. r.key) routes)) prices in
      number next (
        flat_map
          (λ r.
            route_drafts m request_id (settings r.key.tenant_id) (price_list r.key pricing_map) r)
          routes)

route_eq_refl : (k : RouteKey) → route_eq k k ≡ true
route_eq_refl k = ground arith

-- Dropping repeated keys drops no key.
distinct_keys-kept :
    (k : RouteKey) (seen ks : List RouteKey)
    → some_of (route_eq k) ks ≡ true
    → (some_of (route_eq k) seen || some_of (route_eq k) (distinct_keys seen ks)) ≡ true
unfolding distinct_keys
distinct_keys-kept k seen [] h = absurd (cc h)
distinct_keys-kept k seen (x ∷ xs) h = elim (Bool-cases (some_of (route_eq x) seen)) [
  | inl known ↦ rw known (elim (Bool-cases (route_eq k x)) [
    | inl same ↦ let also = some_route seen k x same known in rw also refl
    | inr apart ↦ distinct_keys-kept k seen xs (rw apart at h)
  ])
  | inr fresh ↦ rw fresh (elim (Bool-cases (route_eq k x)) [
    | inl same ↦ ground arith
    | inr apart ↦ let later = distinct_keys-kept k (x ∷ seen) xs (rw apart at h) in ground arith
  ])
]

module _ {B : Type 0} where
  -- A loop over some of the routes, where the two bodies agree on each key of `ks`.
  flat_map_agree :
      (f g : Route → List B) (ks : List RouteKey) (rs : List Route)
      → ((k : RouteKey)
          → some_of (route_eq k) (map (λ r. r.key) rs) ≡ true
          → some_of (route_eq k) ks ≡ true)
      → ((r : Route) → some_of (route_eq r.key) ks ≡ true → f r ≡ g r)
      → flat_map f rs ≡ flat_map g rs
  flat_map_agree f g ks [] inside same = refl
  flat_map_agree f g ks (r ∷ rs) inside same =
      let here = same r (inside r.key (rw (route_eq_refl r.key) refl)) in
      let rest = flat_map_agree f g ks rs (λ k h. inside k (ground arith)) same in
      ap (λ xs. xs ++ flat_map f rs) here ∙ ap (λ xs. g r ++ xs) rest

module _ (n : Numbers) where
  open n use {Num}

  -- GenerateQuotations, which removes repeated zone pairs, reads all prices at once and groups
  -- them in a map, gives the quotations that one gets by taking for each route the active prices
  -- of its tenant and zones from the table.
  pub generate_quotations_directly :
      (m : Measures Num) (request_id next : ℕ) (candidates : List TenantCandidates)
      (settings : Settings n) (prices : List (ZonePrice Num))
      → generate_quotations n m request_id next candidates settings prices
        ≡ number n next (
            flat_map
              (λ r.
                route_drafts n m request_id
                  (settings r.key.tenant_id)
                  (select (λ z. z.is_active && route_eq (route_of z) r.key) prices)
                  r)
              (route_combinations candidates))
  unfolding generate_quotations
  generate_quotations_directly m request_id next candidates settings prices =
      let routes = route_combinations candidates in
      let asked = distinct_keys [] (map (λ r. r.key) routes) in
      ap (number n next) (
        flat_map_agree _ _ asked routes (λ k h. distinct_keys-kept k [] (map (λ r. r.key) routes) h)
          (λ r h.
            ap (λ list. route_drafts n m request_id (settings r.key.tenant_id) list r)
              (price_list-resolve_prices asked prices r.key h)))
