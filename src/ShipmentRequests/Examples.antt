-- ===== src/ShipmentRequests/Examples.antt =====
-- The theorems on prices, quotations and requests at concrete inputs, with whole numbers.
use native.Mathlib.Nat.{div-zero, le-div_iff_mul-le, div-mul-le_self, mul-le-mul}
use multi_tenant_shipping_ma.Shared.{
  ℕ, zero, suc, List, ◌-◌, ◌*◌, ◌/◌, ◌+◌, ◌≤◌, ◌≡◌, refl, ◌⊎◌, true, none, some, [], ◌∷◌, arith,
  leb, flat_map, ◌&&◌,
}
use multi_tenant_shipping_ma.Shared.AllOrNothing.{AllOrNothing}
use multi_tenant_shipping_ma.Shared.Table.{find_first, select, has_key, count_if, update_many}
use multi_tenant_shipping_ma.ShipmentRequests.Pricing.Numbers.{Numbers, max}
use multi_tenant_shipping_ma.ShipmentRequests.Pricing.Calculation.{
  Measures, Tariff, calculate_quotation_amount, calculate_chargeable_weight,
  calculate_additional_weight, calculate_weight_charge, calculate_total_amount,
  calculate_volumetric_weight, calculate_quotation_amount_mono, calculate_quotation_amount_base,
}
use multi_tenant_shipping_ma.ShipmentRequests.Pricing.Matrix.{ZonePrice, standard}
use multi_tenant_shipping_ma.ShipmentRequests.Pricing.Resolution.{
  route_eq, route_of, price_list, resolve_prices,
}
use multi_tenant_shipping_ma.ShipmentRequests.Quotation.{
  is_quotation_visible, customer_approved, create_shipment_request, Quotation, ShipmentRequest,
  automatic, awaiting_customer, approved, Tables, Scope, request_id_of, quotation_id_of,
  UnitCandidate, TenantCandidates, Settings, number, route_drafts, route_combinations,
  generate_quotations, generate_quotations_directly, Neighbours, CreateShipmentRequest, new_request,
  approve_quotation, ApprovedOnce, approve_quotation-AllOrNothing, Command, create, approve_it,
  after, after_all, approved_quotations_once, IsAgreed,
}

le_of_leb : (a b : ℕ) → leb a b ≡ true → a ≤ b
le_of_leb a b h = ground arith

leb_of_le : (a b : ℕ) → a ≤ b → leb a b ≡ true
leb_of_le a b h = ground arith

leb_total : (a b : ℕ) → (leb a b ≡ true) ⊎ (leb b a ≡ true)
leb_total a b = ground arith

div_mono : (a b d : ℕ) → a ≤ b → a / d ≤ b / d
div_mono a b zero h = rw (div-zero a, div-zero b) (omega arith)
div_mono a b (suc d) h =
    let below = div-mul-le_self a (suc d) in
    (le-div_iff_mul-le (omega arith)).1 (omega (arith, below, h))

leb_refl : (a : ℕ) → leb a a ≡ true
leb_refl a = ground arith

leb_trans : (a b c : ℕ) → leb a b ≡ true → leb b c ≡ true → leb a c ≡ true
leb_trans a b c h k = ground arith

leb_antisym : (a b : ℕ) → leb a b ≡ true → leb b a ≡ true → a ≡ b
leb_antisym a b h k = ground arith

leb_add : (a b c d : ℕ) → leb a b ≡ true → leb c d ≡ true → leb (a + c) (b + d) ≡ true
leb_add a b c d h k = ground arith

add_none : (a : ℕ) → a + 0 ≡ a
add_none a = omega arith

leb_sub : (a b c : ℕ) → leb a b ≡ true → leb (a - c) (b - c) ≡ true
leb_sub a b c h = ground arith

sub_stops : (a b : ℕ) → leb a b ≡ true → leb (a - b) 0 ≡ true
sub_stops a b h = ground arith

leb_zero : (a : ℕ) → leb 0 a ≡ true
leb_zero a = ground arith

none_mul : (a : ℕ) → 0 * a ≡ 0
none_mul a = omega arith

-- Whole numbers, whose difference stops at zero.
abbrev whole : Numbers
whole = record {
  Num = ℕ;
  zero = 0;
  milli = 0;
  add = ◌+◌;
  sub = ◌-◌;
  mul = ◌*◌;
  div = ◌/◌;
  leb = leb;
  le_refl = leb_refl;
  le_trans = leb_trans;
  le_total = leb_total;
  le_antisym = leb_antisym;
  add_mono = leb_add;
  add_zero = add_none;
  sub_mono = leb_sub;
  sub_le = sub_stops;
  mul_mono =
      λ a b c d _ h _ k. leb_of_le (a * c) (b * d) (mul-le-mul (le_of_leb a b h) (le_of_leb c d k));
  mul_nonneg = λ a b _ _. leb_zero (a * b);
  zero_mul = none_mul;
  div_mono = λ a b d _ h. leb_of_le (a / d) (b / d) (div_mono a b d (le_of_leb a b h));
}

abbrev box : Measures ℕ
box = record { actual_weight_kg = 2; length_cm = 50; width_cm = 40; height_cm = 30 }

abbrev crate : Measures ℕ
crate = record { actual_weight_kg = 9; length_cm = 50; width_cm = 60; height_cm = 40 }

abbrev tariff : Tariff ℕ
tariff = record {
  volumetric_divisor = 5000;
  base_price = 100;
  base_weight_kg = 20;
  price_per_extra_kg = 7;
  extra_fees = 3;
}

calculate_quotation_amount_mono_example :
    leb
      (calculate_quotation_amount whole box tariff).total_amount
      (calculate_quotation_amount whole crate tariff).total_amount
    ≡ true
calculate_quotation_amount_mono_example =
    calculate_quotation_amount_mono whole box crate tariff refl (record {
      weight = refl;
      positive_length = refl;
      positive_width = refl;
      positive_height = refl;
      length = refl;
      width = refl;
      height = refl;
    })

light : leb (calculate_quotation_amount whole box tariff).chargeable_weight_kg 20 ≡ true
unfolding calculate_quotation_amount calculate_chargeable_weight calculate_volumetric_weight max
light = refl

calculate_quotation_amount_base_example :
    (calculate_quotation_amount whole box tariff).total_amount ≡ 103
calculate_quotation_amount_base_example = calculate_quotation_amount_base whole box tariff light

-- Tenant 1 carries from zone 5 to zone 6 at one price, and the way is found twice.
abbrev near : UnitCandidate
near = record { org_unit_id = 11; zone_id = some 5 }

abbrev also_near : UnitCandidate
also_near = record { org_unit_id = 12; zone_id = some 5 }

abbrev far : UnitCandidate
far = record { org_unit_id = 21; zone_id = some 6 }

abbrev carrier : TenantCandidates
carrier = record {
  tenant_id = 1;
  origin_candidates = near ∷ also_near ∷ [];
  destination_candidates = far ∷ [];
}

abbrev price : ZonePrice ℕ
price = record {
  id = 90;
  tenant_id = 1;
  origin_zone_id = 5;
  destination_zone_id = 6;
  service_level = standard;
  base_price = 100;
  base_weight_kg = 20;
  price_per_extra_kg = 7;
  is_active = true;
}

abbrev settings : Settings whole
settings = λ tenant_id. some (some 5000)

generate_quotations_directly_example :
    generate_quotations whole box 7 8 (carrier ∷ []) settings (price ∷ [])
    ≡ number whole 8 (
        flat_map
          (λ r.
            route_drafts whole box 7
              (settings r.key.tenant_id)
              (select (λ z. z.is_active && route_eq (route_of z) r.key) (price ∷ []))
              r)
          (route_combinations (carrier ∷ [])))
generate_quotations_directly_example =
    generate_quotations_directly whole box 7 8 (carrier ∷ []) settings (price ∷ [])

abbrev world : Neighbours whole
world = record {
  is_active_tenant = λ t. true;
  location_exists = λ l. true;
  resolve_routes = λ from to target. carrier ∷ [];
  settings = settings;
  prices = price ∷ [];
}

abbrev asked : CreateShipmentRequest ℕ
asked = record {
  target_tenant_id = none;
  origin_global_location_id = 1;
  destination_global_location_id = 2;
  sender_name = "a";
  sender_phone = "1";
  receiver_name = "b";
  receiver_phone = "2";
  expected_pieces_count = 1;
  expected = box;
  notes = none;
}

abbrev empty : Tables ℕ
empty = record { requests = []; quotations = []; events = []; next_id = 1 }

abbrev customer : Scope
customer = record {
  customer_profile_id = some 4;
  target_tenant_id = none;
  quotation_tenant_id = none;
  origin_org_unit_ids = none;
}

-- Customer 4 has asked for a shipment: request 1 with quotations 2 and 3.
abbrev asked_tables : Tables ℕ
asked_tables = after whole (create world 4 asked) empty

abbrev quotation : ℕ → Quotation ℕ
quotation id = record {
  id = id;
  tenant_id = 1;
  shipment_request_id = 1;
  origin_org_unit_id = 11;
  destination_org_unit_id = 21;
  service_level = standard;
  quotation_type = automatic;
  base_price = some 100;
  weight_charge = some 0;
  extra_fees = some 0;
  amount = some 100;
  status = awaiting_customer;
  submitted_by_employee_id = none;
}

abbrev request : ShipmentRequest ℕ
request = new_request whole 1 4 asked

abbrev waiting : Tables ℕ
waiting = record {
  requests = request ∷ [];
  quotations = quotation 2 ∷ quotation 3 ∷ [];
  events = [];
  next_id = 4;
}

waiting_quotation : find_first (has_key quotation_id_of 2) waiting.quotations ≡ some (quotation 2)
unfolding find_first
waiting_quotation = refl

waiting_request : find_first (has_key request_id_of 1) waiting.requests ≡ some request
unfolding find_first
waiting_request = refl

approve_quotation-AllOrNothing_example :
    AllOrNothing (λ _ s'. ApprovedOnce 2 waiting s') waiting (approve_quotation customer 2 waiting)
approve_quotation-AllOrNothing_example = approve_quotation-AllOrNothing customer 2 waiting

-- Customer 4 asks, approves the first of the two quotations, and then tries the other.
abbrev story : List (Command whole)
story = create world 4 asked ∷ approve_it customer 2 ∷ approve_it customer 3 ∷ []

abbrev chosen : Quotation ℕ
chosen = record (quotation 2) { status = approved }

abbrev settled : ShipmentRequest ℕ
settled = record request { status = customer_approved; approved_quotation_id = some 2 }

empty-IsAgreed : IsAgreed empty
empty-IsAgreed = record { unique = tt; agreed = tt; request_ids = tt; quotation_ids = tt }

chosen_found :
    find_first (has_key quotation_id_of 2) (after_all whole story empty).quotations ≡ some chosen
unfolding find_first create_shipment_request approve_quotation price_list resolve_prices select
    is_quotation_visible count_if update_many calculate_quotation_amount calculate_weight_charge
    calculate_total_amount calculate_additional_weight max calculate_chargeable_weight
    calculate_volumetric_weight
chosen_found = refl

settled_found :
    find_first (has_key request_id_of 1) (after_all whole story empty).requests ≡ some settled
unfolding find_first create_shipment_request approve_quotation price_list resolve_prices select
    is_quotation_visible count_if update_many
settled_found = refl

approved_quotations_once_example : chosen.id ≡ chosen.id
approved_quotations_once_example =
    approved_quotations_once whole story empty {r = settled} {a = chosen} {b = chosen}
      empty-IsAgreed settled_found chosen_found chosen_found refl refl refl refl
