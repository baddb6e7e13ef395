-- ===== src/ShipmentRequests/Pricing/Resolution.antt =====
-- backend/src/modules/shipment-request/pricing: `resolvePrices` of zone-pricing-resolution.service.ts
-- and `findPricesForZonePairsV2` of zone-pricing.query.repository.ts. The text `t:o:d` that the map is
-- keyed with is the triple of identifiers, since no identifier contains a colon.
use multi_tenant_shipping_ma.Shared.{
  ℕ, ◌≡◌, refl, sym, ap, ◌∙◌, Bool, true, false, ◌&&◌, List, [], ◌∷◌, ◌++◌, ◌==◌, arith,
  if◌then◌else◌, some_of, Bool-cases, inl, inr,
}
use multi_tenant_shipping_ma.Shared.Table.{select, select-select}
use multi_tenant_shipping_ma.ShipmentRequests.Pricing.Matrix.{ZonePrice}

pub record RouteKey : Type 0 where
  pub tenant_id : ℕ
  pub origin_zone_id : ℕ
  pub destination_zone_id : ℕ

abbrev pub route_eq : RouteKey → RouteKey → Bool
route_eq a b =
    a.tenant_id == b.tenant_id
    && a.origin_zone_id == b.origin_zone_id
    && a.destination_zone_id == b.destination_zone_id

abbrev pub PriceMap : Type 0 → Type 0
PriceMap A = List (RouteKey × List (ZonePrice A))

module _ {A : Type 0} where
  abbrev pub route_of : ZonePrice A → RouteKey
  route_of z = record {
    tenant_id = z.tenant_id;
    origin_zone_id = z.origin_zone_id;
    destination_zone_id = z.destination_zone_id;
  }

  abbrev pub is_priced_for : List RouteKey → ZonePrice A → Bool
  is_priced_for pairs z = z.is_active && some_of (λ k. route_eq (route_of z) k) pairs

  unfoldable pub find_prices_for_zone_pairs :
      List RouteKey → List (ZonePrice A) → List (ZonePrice A)
  find_prices_for_zone_pairs pairs prices = select (is_priced_for pairs) prices

  -- `has`, `set` to an empty list, and `push`
  unfoldable pub push_price : ZonePrice A → PriceMap A → PriceMap A
  push_price z [] = (route_of z, z ∷ []) ∷ []
  push_price z ((k, zs) ∷ rest) =
      let later = push_price z rest in
      if route_eq k (route_of z) then (k, zs ++ (z ∷ [])) ∷ rest else (k, zs) ∷ later

  unfoldable pub group_prices : List (ZonePrice A) → PriceMap A → PriceMap A
  unfolding push_price
  group_prices [] m = m
  group_prices (z ∷ zs) m = group_prices zs (push_price z m)

  unfoldable pub resolve_prices : List RouteKey → List (ZonePrice A) → PriceMap A
  unfolding find_prices_for_zone_pairs group_prices
  resolve_prices pairs prices = group_prices (find_prices_for_zone_pairs pairs prices) []

  -- `pricingMap.get(key) || []`
  unfoldable pub price_list : RouteKey → PriceMap A → List (ZonePrice A)
  price_list key [] = []
  price_list key ((k, zs) ∷ rest) = if route_eq k key then zs else price_list key rest

route_eq_left : (a b c : RouteKey) → route_eq a b ≡ true → route_eq a c ≡ route_eq b c
route_eq_left a b c h = ground arith

route_eq_apart :
    (a b c : RouteKey) → route_eq a b ≡ false → route_eq a c ≡ true → route_eq b c ≡ false
route_eq_apart a b c h k = ground arith

pub some_route :
    (pairs : List RouteKey) (a b : RouteKey)
    → route_eq a b ≡ true
    → some_of (route_eq b) pairs ≡ true
    → some_of (route_eq a) pairs ≡ true
some_route [] a b e h = h
some_route (k ∷ ks) a b e h = ground (arith, route_eq_left a b k e, some_route ks a b e)

module _ {A : Type 0} where
  append_nil : (xs : List (ZonePrice A)) → xs ++ [] ≡ xs
  append_nil [] = refl
  append_nil (x ∷ xs) = ap (λ l. x ∷ l) (append_nil xs)

  append_assoc : (xs ys zs : List (ZonePrice A)) → (xs ++ ys) ++ zs ≡ xs ++ (ys ++ zs)
  append_assoc [] ys zs = refl
  append_assoc (x ∷ xs) ys zs = ap (λ l. x ∷ l) (append_assoc xs ys zs)

  abbrev is_on : RouteKey → ZonePrice A → Bool
  is_on key z = route_eq (route_of z) key

  abbrev alone : RouteKey → ZonePrice A → List (ZonePrice A)
  alone key z = if is_on key z then z ∷ [] else []

  price_list-push_price :
      (key : RouteKey) (z : ZonePrice A) (m : PriceMap A)
      → price_list key (push_price z m) ≡ price_list key m ++ alone key z
  unfolding price_list push_price
  price_list-push_price key z [] = refl
  price_list-push_price key z ((k, zs) ∷ rest) = elim (Bool-cases (route_eq k (route_of z))) [
    | inl same ↦ elim (Bool-cases (route_eq k key)) [
      | inl here ↦
          let also : is_on key z ≡ true = sym (route_eq_left k (route_of z) key same) ∙ here in
          rw (same, here, also) refl
      | inr there ↦
          let also : is_on key z ≡ false = sym (route_eq_left k (route_of z) key same) ∙ there in
          rw (same, there, also) (sym (append_nil (price_list key rest)))
    ]
    | inr apart ↦ elim (Bool-cases (route_eq k key)) [
      | inl here ↦
          let also = route_eq_apart k (route_of z) key apart here in
          rw (apart, here, also) (sym (append_nil zs))
      | inr there ↦ rw (apart, there) (price_list-push_price key z rest)
    ]
  ]

  price_list-group_prices :
      (key : RouteKey) (zs : List (ZonePrice A)) (m : PriceMap A)
      → price_list key (group_prices zs m) ≡ price_list key m ++ select (is_on key) zs
  unfolding group_prices select
  price_list-group_prices key [] m = sym (append_nil (price_list key m))
  price_list-group_prices key (z ∷ zs) m =
      price_list-group_prices key zs (push_price z m)
      ∙ ap (λ l. l ++ select (is_on key) zs) (price_list-push_price key z m)
      ∙ append_assoc (price_list key m) (alone key z) (select (is_on key) zs)
      ∙ ap (λ l. price_list key m ++ l) (alone_select z)
    where
      alone_select :
          (y : ZonePrice A) → alone key y ++ select (is_on key) zs ≡ select (is_on key) (y ∷ zs)
      alone_select y = elim (Bool-cases (is_on key y)) [ inl h ↦ rw h refl | inr h ↦ rw h refl ]

  select_priced :
      (pairs : List RouteKey) (key : RouteKey) (prices : List (ZonePrice A))
      → some_of (route_eq key) pairs ≡ true
      → select (is_on key) (select (is_priced_for pairs) prices)
        ≡ select (λ z. z.is_active && is_on key z) prices
  select_priced pairs key prices h =
      select-select (is_priced_for pairs) (is_on key) (λ z. z.is_active && is_on key z) prices
        (λ z. elim (Bool-cases (is_on key z)) [
          | inl on ↦ let asked = some_route pairs (route_of z) key on h in ground arith
          | inr off ↦ ground arith
        ])

  -- The price list
  pub price_list-resolve_prices :
      (pairs : List RouteKey) (prices : List (ZonePrice A)) (key : RouteKey)
      → some_of (route_eq key) pairs ≡ true
      → price_list key (resolve_prices pairs prices)
        ≡ select (λ z. z.is_active && route_eq (route_of z) key) prices
  unfolding resolve_prices find_prices_for_zone_pairs price_list
  price_list-resolve_prices pairs prices key asked =
      price_list-group_prices key (select (is_priced_for pairs) prices) []
      ∙ select_priced pairs key prices asked
