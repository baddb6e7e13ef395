-- ===== src/ShipmentRequests/Pricing/Numbers.antt =====
-- The numbers that prices and weights are computed with. JavaScript rounds each operation, and
-- rounding keeps the order of results: the laws hold of its finite numbers.
use multi_tenant_shipping_ma.Shared.{◌≡◌, ◌⊎◌, Bool, true, if◌then◌else◌, ◌&&◌}

pub record Numbers : Type 1 where
  pub Num : Type 0
  pub zero : Num
  -- 0.001
  pub milli : Num
  pub add : Num → Num → Num
  pub sub : Num → Num → Num
  pub mul : Num → Num → Num
  pub div : Num → Num → Num
  pub leb : Num → Num → Bool
  pub le_refl : (a : Num) → leb a a ≡ true
  pub le_trans : (a b c : Num) → leb a b ≡ true → leb b c ≡ true → leb a c ≡ true
  pub le_total : (a b : Num) → (leb a b ≡ true) ⊎ (leb b a ≡ true)
  pub le_antisym : (a b : Num) → leb a b ≡ true → leb b a ≡ true → a ≡ b
  pub add_mono : (a b c d : Num) → leb a b ≡ true → leb c d ≡ true → leb (add a c) (add b d) ≡ true
  pub add_zero : (a : Num) → add a zero ≡ a
  pub sub_mono : (a b c : Num) → leb a b ≡ true → leb (sub a c) (sub b c) ≡ true
  pub sub_le : (a b : Num) → leb a b ≡ true → leb (sub a b) zero ≡ true
  pub mul_mono :
      (a b c d : Num)
      → leb zero a ≡ true
      → leb a b ≡ true
      → leb zero c ≡ true
      → leb c d ≡ true
      → leb (mul a c) (mul b d) ≡ true
  pub mul_nonneg : (a b : Num) → leb zero a ≡ true → leb zero b ≡ true → leb zero (mul a b) ≡ true
  pub zero_mul : (a : Num) → mul zero a ≡ zero
  pub div_mono : (a b d : Num) → leb zero d ≡ true → leb a b ≡ true → leb (div a d) (div b d) ≡ true

module _ (n : Numbers) where
  open n use {Num, zero, leb}

  -- `Math.max`
  unfoldable pub max : Num → Num → Num
  max a b = if leb a b then b else a

  abbrev pub is_zero : Num → Bool
  is_zero a = leb a zero && leb zero a
