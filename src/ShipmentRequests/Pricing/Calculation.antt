-- ===== src/ShipmentRequests/Pricing/Calculation.antt =====
-- backend/src/modules/shipment-request/pricing/application/services/pricing-calculation.service.ts
use multi_tenant_shipping_ma.Shared.{◌≡◌, ap, ◌∙◌, true, if◌then◌else◌, Bool-cases, inl, inr}
use multi_tenant_shipping_ma.ShipmentRequests.Pricing.Numbers.{Numbers, max}

-- What a quotation is computed from.
pub record Measures (A : Type 0) : Type 0 where
  pub actual_weight_kg : A
  pub length_cm : A
  pub width_cm : A
  pub height_cm : A

pub record Tariff (A : Type 0) : Type 0 where
  pub volumetric_divisor : A
  pub base_price : A
  pub base_weight_kg : A
  pub price_per_extra_kg : A
  pub extra_fees : A

-- The parts of a quotation's amount.
pub record Breakdown (A : Type 0) : Type 0 where
  pub volumetric_weight_kg : A
  pub chargeable_weight_kg : A
  pub additional_weight_kg : A
  pub weight_charge : A
  pub total_amount : A

module _ (n : Numbers) where
  open n use {Num, zero, add, sub, mul, div, leb}

  unfoldable pub calculate_volumetric_weight : Num → Num → Num → Num → Num
  calculate_volumetric_weight length width height divisor =
      if leb divisor zero then zero else div (mul (mul length width) height) divisor

  unfoldable pub calculate_chargeable_weight : Num → Num → Num
  calculate_chargeable_weight actual volumetric = max n actual volumetric

  unfoldable pub calculate_additional_weight : Num → Num → Num
  calculate_additional_weight chargeable base = max n zero (sub chargeable base)

  unfoldable pub calculate_weight_charge : Num → Num → Num
  calculate_weight_charge additional price = mul additional price

  unfoldable pub calculate_total_amount : Num → Num → Num → Num
  calculate_total_amount base_price weight_charge extra_fees =
      add (add base_price weight_charge) extra_fees

  unfoldable pub calculate_quotation_amount : Measures Num → Tariff Num → Breakdown Num
  calculate_quotation_amount m t =
      let volumetric =
        calculate_volumetric_weight m.length_cm m.width_cm m.height_cm t.volumetric_divisor in
      let chargeable = calculate_chargeable_weight m.actual_weight_kg volumetric in
      let additional = calculate_additional_weight chargeable t.base_weight_kg in
      let charge = calculate_weight_charge additional t.price_per_extra_kg in
      record {
        volumetric_weight_kg = volumetric;
        chargeable_weight_kg = chargeable;
        additional_weight_kg = additional;
        weight_charge = charge;
        total_amount = calculate_total_amount t.base_price charge t.extra_fees;
      }

  -- One parcel is no larger than another, in any dimension and in weight.
  pub record IsWithin (m m' : Measures Num) : Type 0 where
    pub weight : leb m.actual_weight_kg m'.actual_weight_kg ≡ true
    pub positive_length : leb zero m.length_cm ≡ true
    pub positive_width : leb zero m.width_cm ≡ true
    pub positive_height : leb zero m.height_cm ≡ true
    pub length : leb m.length_cm m'.length_cm ≡ true
    pub width : leb m.width_cm m'.width_cm ≡ true
    pub height : leb m.height_cm m'.height_cm ≡ true

  max_left : (a b : Num) → leb a (max n a b) ≡ true
  unfolding max
  max_left a b = elim (Bool-cases (leb a b)) [ inl h ↦ rw h h | inr h ↦ rw h (n.le_refl a) ]

  max_right : (a b : Num) → leb b (max n a b) ≡ true
  unfolding max
  max_right a b = elim (Bool-cases (leb a b)) [
    | inl h ↦ rw h (n.le_refl b)
    | inr h ↦ elim (n.le_total a b) [ inl k ↦ absurd (cc (h, k)) | inr k ↦ rw h k ]
  ]

  max_least : (a b c : Num) → leb a c ≡ true → leb b c ≡ true → leb (max n a b) c ≡ true
  unfolding max
  max_least a b c ha hb = elim (Bool-cases (leb a b)) [ inl h ↦ rw h hb | inr h ↦ rw h ha ]

  max_mono :
      (a b a' b' : Num) → leb a a' ≡ true → leb b b' ≡ true → leb (max n a b) (max n a' b') ≡ true
  max_mono a b a' b' ha hb =
      max_least a b (max n a' b') (n.le_trans a a' (max n a' b') ha (max_left a' b'))
        (n.le_trans b b' (max n a' b') hb (max_right a' b'))

  volumetric_mono :
      (m m' : Measures Num) (d : Num)
      → IsWithin m m'
      → leb
          (calculate_volumetric_weight m.length_cm m.width_cm m.height_cm d)
          (calculate_volumetric_weight m'.length_cm m'.width_cm m'.height_cm d)
        ≡ true
  unfolding calculate_volumetric_weight
  volumetric_mono m m' d w = elim (Bool-cases (leb d zero)) [
    | inl h ↦ rw h (n.le_refl zero)
    | inr h ↦
        let nonneg : leb zero d ≡ true = elim (n.le_total zero d) [
          | inl k ↦ k
          | inr k ↦ absurd (cc (h, k))
        ] in
        let area =
          n.mul_mono m.length_cm m'.length_cm m.width_cm m'.width_cm w.positive_length w.length
            w.positive_width w.width in
        let area_nonneg = n.mul_nonneg m.length_cm m.width_cm w.positive_length w.positive_width in
        rw h (
          n.div_mono (mul (mul m.length_cm m.width_cm) m.height_cm)
            (mul (mul m'.length_cm m'.width_cm) m'.height_cm) d nonneg
            (n.mul_mono (mul m.length_cm m.width_cm) (mul m'.length_cm m'.width_cm) m.height_cm
              m'.height_cm area_nonneg area w.positive_height w.height))
  ]

  -- With a price per extra kilogram that is not negative, a parcel that is at least as heavy and
  -- as large in every dimension is quoted at least as much, for numbers whose operations keep the
  -- order.
  pub calculate_quotation_amount_mono :
      (m m' : Measures Num) (t : Tariff Num)
      → leb zero t.price_per_extra_kg ≡ true
      → IsWithin m m'
      → leb
          (calculate_quotation_amount m t).total_amount
          (calculate_quotation_amount m' t).total_amount
        ≡ true
  unfolding calculate_quotation_amount calculate_chargeable_weight calculate_additional_weight
      calculate_weight_charge calculate_total_amount
  calculate_quotation_amount_mono m m' t nonneg w =
      let v = calculate_volumetric_weight m.length_cm m.width_cm m.height_cm t.volumetric_divisor in
      let v' =
        calculate_volumetric_weight m'.length_cm m'.width_cm m'.height_cm t.volumetric_divisor in
      let c = max n m.actual_weight_kg v in
      let c' = max n m'.actual_weight_kg v' in
      let heavier =
        max_mono m.actual_weight_kg v m'.actual_weight_kg v' w.weight
          (volumetric_mono m m' t.volumetric_divisor w) in
      let more =
        max_mono zero (sub c t.base_weight_kg) zero (sub c' t.base_weight_kg) (n.le_refl zero)
          (n.sub_mono c c' t.base_weight_kg heavier) in
      let charge =
        n.mul_mono (max n zero (sub c t.base_weight_kg)) (max n zero (sub c' t.base_weight_kg))
          t.price_per_extra_kg t.price_per_extra_kg (max_left zero (sub c t.base_weight_kg)) more
          nonneg (n.le_refl t.price_per_extra_kg) in
      n.add_mono _ _ t.extra_fees t.extra_fees
        (n.add_mono t.base_price t.base_price _ _ (n.le_refl t.base_price) charge)
        (n.le_refl t.extra_fees)

  -- A parcel whose chargeable weight is within the base weight is quoted the base price and the
  -- extra fees.
  pub calculate_quotation_amount_base :
      (m : Measures Num) (t : Tariff Num)
      → leb (calculate_quotation_amount m t).chargeable_weight_kg t.base_weight_kg ≡ true
      → (calculate_quotation_amount m t).total_amount ≡ add t.base_price t.extra_fees
  unfolding calculate_quotation_amount calculate_additional_weight calculate_weight_charge
      calculate_total_amount max
  calculate_quotation_amount_base m t light =
      let c = (calculate_quotation_amount m t).chargeable_weight_kg in
      let below = n.sub_le c t.base_weight_kg light in
      let none_extra : max n zero (sub c t.base_weight_kg) ≡ zero =
        elim (Bool-cases (leb zero (sub c t.base_weight_kg))) [
          | inl h ↦ rw h (n.le_antisym (sub c t.base_weight_kg) zero below h)
          | inr h ↦ rw h
        ] in
      ap (λ x. add (add t.base_price (mul x t.price_per_extra_kg)) t.extra_fees) none_extra
      ∙ ap (λ x. add (add t.base_price x) t.extra_fees) (n.zero_mul t.price_per_extra_kg)
      ∙ ap (λ x. add x t.extra_fees) (n.add_zero t.base_price)
