-- ===== src/ShipmentRequests/Pricing/Matrix.antt =====
-- The rows of the price matrix: zone-pricing.command.repository.ts and zone-pricing.command.service.ts
-- of backend/src/modules/shipment-request/pricing.
use multi_tenant_shipping_ma.Shared.{
  ℕ, ◌+◌, Bool, true, false, not, ◌&&◌, Option, List, [], ◌∷◌, ◌==◌, if◌then◌else◌, get_or, is_some,
}
use multi_tenant_shipping_ma.Shared.Effects.{
  Action, ok, err, ◌>>=◌, ◌>>◌, pure, throw_if, found_or, transactional,
}
use multi_tenant_shipping_ma.Shared.Table.{find_first, update_many, count_if, delete_many, has_key}

pub data ServiceLevel : Type 0 where
  standard express same_day refrigerated : ServiceLevel

abbrev pub service_level_eq : ServiceLevel → ServiceLevel → Bool
service_level_eq standard standard = true
service_level_eq express express = true
service_level_eq same_day same_day = true
service_level_eq refrigerated refrigerated = true
service_level_eq _ _ = false

pub data PricingError : Type 0 where
  unknown_zones pricing_not_found duplicate_route : PricingError

-- A row of `zone_pricing_matrix`, with prices and weights in `A`.
pub record ZonePrice (A : Type 0) : Type 0 where
  pub id : ℕ
  pub tenant_id : ℕ
  pub origin_zone_id : ℕ
  pub destination_zone_id : ℕ
  pub service_level : ServiceLevel
  pub base_price : A
  pub base_weight_kg : A
  pub price_per_extra_kg : A
  pub is_active : Bool

-- `CreateZonePricingDto`
pub record CreateZonePricing (A : Type 0) : Type 0 where
  pub origin_zone_id : ℕ
  pub destination_zone_id : ℕ
  pub service_level : ServiceLevel
  pub base_price : A
  pub base_weight_kg : A
  pub price_per_extra_kg : Option A
  pub is_active : Option Bool
  pub is_bidirectional : Bool

-- `UpdateZonePricingDto`: what is left out stays.
pub record UpdateZonePricing (A : Type 0) : Type 0 where
  pub base_price : Option A
  pub base_weight_kg : Option A
  pub price_per_extra_kg : Option A
  pub is_active : Option Bool

pub record Matrix (A : Type 0) : Type 0 where
  pub prices : List (ZonePrice A)
  pub next_id : ℕ

abbrev pub Pricing : Type 0 → Type 0 → Type 0
Pricing A B = Action (Matrix A) PricingError B

module _ {A : Type 0} where
  abbrev pub price_id_of : ZonePrice A → ℕ
  price_id_of z = z.id

  -- `uq_pricing_route_service`
  abbrev pub same_route : ℕ → CreateZonePricing A → ZonePrice A → Bool
  same_route tenant_id dto z =
      z.tenant_id == tenant_id
      && z.origin_zone_id == dto.origin_zone_id
      && z.destination_zone_id == dto.destination_zone_id
      && service_level_eq z.service_level dto.service_level

  abbrev pub price_row : A → ℕ → ℕ → CreateZonePricing A → ZonePrice A
  price_row zero id tenant_id dto = record {
    id = id;
    tenant_id = tenant_id;
    origin_zone_id = dto.origin_zone_id;
    destination_zone_id = dto.destination_zone_id;
    service_level = dto.service_level;
    base_price = dto.base_price;
    base_weight_kg = dto.base_weight_kg;
    price_per_extra_kg = get_or dto.price_per_extra_kg zero;
    is_active = get_or dto.is_active true;
  }

  unfoldable pub create_price_row : A → ℕ → CreateZonePricing A → Pricing A ℕ
  create_price_row zero tenant_id dto s =
      if is_some (find_first (same_route tenant_id dto) s.prices)
      then (err duplicate_route, s)
      else (
        ok s.next_id,
        record s {
          prices = price_row zero s.next_id tenant_id dto ∷ s.prices;
          next_id = s.next_id + 1;
        },
      )

  abbrev pub set_price : UpdateZonePricing A → ZonePrice A → ZonePrice A
  set_price dto z = record z {
    base_price = get_or dto.base_price z.base_price;
    base_weight_kg = get_or dto.base_weight_kg z.base_weight_kg;
    price_per_extra_kg = get_or dto.price_per_extra_kg z.price_per_extra_kg;
    is_active = get_or dto.is_active z.is_active;
  }

  unfoldable pub update_price_row : ℕ → UpdateZonePricing A → Pricing A ℕ
  update_price_row id dto s = (
    if count_if (has_key price_id_of id) s.prices == 0 then err pricing_not_found else ok id,
    record s { prices = update_many (has_key price_id_of id) (set_price dto) s.prices },
  )

  unfoldable pub delete_price_row : ℕ → Pricing A (Unit {0})
  delete_price_row id s = (
    if count_if (has_key price_id_of id) s.prices == 0 then err pricing_not_found else ok tt,
    record s { prices = delete_many (has_key price_id_of id) s.prices },
  )

  -- `getPricingById` for a tenant.
  unfoldable pub get_pricing_by_id : ℕ → ℕ → Pricing A (ZonePrice A)
  get_pricing_by_id id tenant_id = do
    found ← λ s. (found_or (find_first (has_key price_id_of id) s.prices) pricing_not_found, s)
    throw_if (not (found.tenant_id == tenant_id)) pricing_not_found
    pure found

  abbrev pub reversed : CreateZonePricing A → CreateZonePricing A
  reversed dto = record dto {
    origin_zone_id = dto.destination_zone_id;
    destination_zone_id = dto.origin_zone_id;
  }

  -- Both directions, in order.
  unfoldable pub create_both : A → ℕ → CreateZonePricing A → Pricing A (List ℕ)
  unfolding create_price_row
  create_both zero tenant_id dto = do
    there ← create_price_row zero tenant_id dto
    back ← create_price_row zero tenant_id (reversed dto)
    pure (there ∷ back ∷ [])

  -- `zones_exist` is what the organization module answers.
  unfoldable pub create_pricing :
      (ℕ → List ℕ → Bool) → A → ℕ → CreateZonePricing A → Pricing A (List ℕ)
  unfolding create_both
  create_pricing zones_exist zero tenant_id dto = transactional do
    throw_if (not (zones_exist tenant_id (dto.origin_zone_id ∷ dto.destination_zone_id ∷ [])))
        unknown_zones
    if dto.is_bidirectional
        then create_both zero tenant_id dto
        else (do id ← create_price_row zero tenant_id dto; pure (id ∷ []))

  unfoldable pub update_pricing : ℕ → ℕ → UpdateZonePricing A → Pricing A ℕ
  unfolding get_pricing_by_id update_price_row
  update_pricing tenant_id id dto = do _ ← get_pricing_by_id id tenant_id; update_price_row id dto

  unfoldable pub delete_pricing : ℕ → ℕ → Pricing A (Unit {0})
  unfolding get_pricing_by_id delete_price_row
  delete_pricing tenant_id id =
      transactional do _ ← get_pricing_by_id id tenant_id; delete_price_row id
