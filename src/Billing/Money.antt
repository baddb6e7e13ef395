-- ===== src/Billing/Money.antt =====
-- backend/src/modules/billing/constants/billing.constants.ts: currencies and rounding.
-- An amount is an integer number of ten-thousandths of a currency unit, so a cent is 100 and
-- rounding to two decimals does something.
use multi_tenant_shipping_ma.Shared.{◌+◌, ◌*◌, ◌/◌, ◌%◌, ◌≡◌, refl, ap, ◌⊎◌, inl, inr, arith}
use multi_tenant_shipping_ma.Shared.Int.{
  ℤ, pos, negsuc, pos_part, neg_part, sub_ℕ, ◌+ℤ◌, ◌-ℤ◌, ◌≤ℤ◌, +ℤ_parts, -ℤ_parts,
}

pub data Currency : Type 0 where
  sy usd : Currency

-- `Math.round(value * 100) / 100`: to the nearest cent, a half upwards.
unfoldable pub round_money : ℤ → ℤ
round_money (pos n) = pos ((n + 50) / 100 * 100)
round_money (negsuc n) = sub_ℕ 0 ((n + 50) / 100 * 100)

-- `MIN_PAYMENT_AMOUNT`: 1000 SY and 100 USD.
unfoldable pub minimum_payment_amount : Currency → ℤ
minimum_payment_amount Currency.sy = pos 10000000
minimum_payment_amount Currency.usd = pos 1000000

-- Amounts of at most two decimals, which are what the forms accept and the columns hold.
abbrev pub IsCents : ℤ → Type 0
IsCents a = round_money a ≡ a

one_sided : (a : ℤ) → (pos_part a ≡ 0) ⊎ (neg_part a ≡ 0)
one_sided (pos n) = inr refl
one_sided (negsuc n) = inl refl

-- In terms of the two parts of an amount, which are numbers.
pub IsCents→parts : (a : ℤ) → IsCents a → (pos_part a % 100 ≡ 0) × (neg_part a % 100 ≡ 0)
unfolding round_money
IsCents→parts (pos n) h =
    let e : (n + 50) / 100 * 100 ≡ n = ap pos_part h in (omega arith, omega arith)
IsCents→parts (negsuc n) h = ground arith

pub parts→IsCents : (a : ℤ) → pos_part a % 100 ≡ 0 → neg_part a % 100 ≡ 0 → IsCents a
unfolding round_money
parts→IsCents (pos n) h k = ap pos (omega arith)
parts→IsCents (negsuc n) h k = ground arith

pub round_money-IsCents : (a : ℤ) → IsCents (round_money a)
unfolding round_money
round_money-IsCents (pos n) = ap pos (omega arith)
round_money-IsCents (negsuc n) = parts→IsCents _ (ground arith) (ground arith)

pub zero-IsCents : IsCents (pos 0)
unfolding round_money
zero-IsCents = refl

pub +ℤ-IsCents : (a b : ℤ) → IsCents a → IsCents b → IsCents (a +ℤ b)
+ℤ-IsCents a b ha hb =
    let pa = IsCents→parts a ha in
    let pb = IsCents→parts b hb in
    parts→IsCents (a +ℤ b) (omega (arith, +ℤ_parts a b, one_sided (a +ℤ b)))
      (omega (arith, +ℤ_parts a b, one_sided (a +ℤ b)))

pub -ℤ-IsCents : (a b : ℤ) → IsCents a → IsCents b → IsCents (a -ℤ b)
-ℤ-IsCents a b ha hb =
    let pa = IsCents→parts a ha in
    let pb = IsCents→parts b hb in
    parts→IsCents (a -ℤ b) (omega (arith, -ℤ_parts a b, one_sided (a -ℤ b)))
      (omega (arith, -ℤ_parts a b, one_sided (a -ℤ b)))

-- Rounding moves an amount by half a cent at most, and keeps its place among whole cents.
pub round_money_near : (a : ℤ) → (a ≤ℤ round_money a +ℤ pos 50) × (round_money a ≤ℤ a +ℤ pos 50)
unfolding round_money ◌+ℤ◌
round_money_near (pos n) = (ground arith, ground arith)
round_money_near (negsuc n) = (ground arith, ground arith)

pub round_money_mono : (a b : ℤ) → a ≤ℤ b → round_money a ≤ℤ round_money b
unfolding round_money
round_money_mono (pos m) (pos n) h = ground arith
round_money_mono (pos m) (negsuc n) h = ground arith
round_money_mono (negsuc m) (pos n) h = ground arith
round_money_mono (negsuc m) (negsuc n) h = ground arith
