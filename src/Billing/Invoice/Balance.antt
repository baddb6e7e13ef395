-- ===== src/Billing/Invoice/Balance.antt =====
-- What the status of an invoice says of the money collected, and payments against it.
use multi_tenant_shipping_ma.Shared.{
  ◌≡◌, ◌≢◌, ◌⊎◌, Option, none, some, arith, get_or, if◌then◌else◌,
}
use multi_tenant_shipping_ma.Shared.Int.{ℤ, pos, ◌+ℤ◌, ◌≤ℤ◌, ◌<ℤ◌, +ℤ_parts, -ℤ_parts, eq_of_parts}
use multi_tenant_shipping_ma.Shared.Effects.{ok}
use multi_tenant_shipping_ma.Billing.Money.{IsCents, minimum_payment_amount, -ℤ-IsCents}
use multi_tenant_shipping_ma.Billing.Invoice.Lifecycle.{
  InvoiceStatus, unpaid, partially_paid, paid, overdue, cancelled, status_eq,
}
use multi_tenant_shipping_ma.Billing.Invoice.Aggregate.{
  Invoice, assert_accepts_payment, apply_paid_total, paid_target, remaining_balance,
}

-- An invoice and what has been collected against it. The bound is what the column of the total
-- holds.
pub record IsBalanced (bound : ℤ) (i : Invoice) (collected : ℤ) : Type 0 where
  pub whole : IsCents i.total_amount
  pub collected_whole : IsCents collected
  pub in_range : i.total_amount ≤ℤ bound
  pub nonneg : pos 0 ≤ℤ collected
  pub not_above : collected ≤ℤ i.total_amount
  pub when_paid : i.status ≡ paid → collected ≡ i.total_amount
  pub when_unpaid : i.status ≡ unpaid → collected ≡ pos 0
  pub when_partially_paid :
      i.status ≡ partially_paid → (pos 0 <ℤ collected) × (collected <ℤ i.total_amount)
  pub when_overdue : i.status ≡ overdue → (collected ≡ pos 0) ⊎ (collected <ℤ i.total_amount)

-- What a payment that the aggregate accepts is like.
pub record IsAcceptable (i : Invoice) (amount paid_so_far : ℤ) : Type 0 where
  pub not_paid : i.status ≢ paid
  pub not_cancelled : i.status ≢ cancelled
  pub positive : pos 0 <ℤ amount
  pub within : amount +ℤ paid_so_far ≤ℤ i.total_amount
  pub enough :
      (minimum_payment_amount i.currency ≤ℤ amount) ⊎ (amount +ℤ paid_so_far ≡ i.total_amount)

module _ (i : Invoice) (amount p : ℤ) (w : IsCents i.total_amount) (wa : IsCents amount)
    (wp : IsCents p) where
  pub accepts→IsAcceptable : assert_accepts_payment i amount p ≡ ok tt → IsAcceptable i amount p
  unfolding assert_accepts_payment remaining_balance
  accepts→IsAcceptable h = ground (
    arith,
    w,
    wa,
    wp,
    -ℤ-IsCents i.total_amount p w wp,
    +ℤ_parts amount p,
    -ℤ_parts i.total_amount p,
    eq_of_parts (amount +ℤ p) i.total_amount,
  )

  pub IsAcceptable→accepts : IsAcceptable i amount p → assert_accepts_payment i amount p ≡ ok tt
  unfolding assert_accepts_payment remaining_balance
  IsAcceptable→accepts h = ground (
    arith,
    w,
    wa,
    wp,
    -ℤ-IsCents i.total_amount p w wp,
    +ℤ_parts amount p,
    -ℤ_parts i.total_amount p,
  )

-- The status that a collected sum gives an invoice.
abbrev pub status_after : Invoice → ℤ → InvoiceStatus
status_after i total = paid_target i.status total i.total_amount

-- The status that is written after a payment: the reported one, or the one the aggregate has.
abbrev pub written : Option InvoiceStatus × Invoice → InvoiceStatus
written (reported, i) = get_or reported i.status

module _ (i : Invoice) (total : ℤ) (w : IsCents i.total_amount) (wt : IsCents total) where
  -- While an invoice is neither paid nor cancelled, every sum from above zero to what is owed can be
  -- applied, and the status written is the one that the sum stands for.
  pub apply_paid_total-written :
      i.status ≢ paid
      → i.status ≢ cancelled
      → pos 0 <ℤ total
      → total ≤ℤ i.total_amount
      → (r : Option InvoiceStatus × Invoice) × (apply_paid_total i total ≡ ok r)
        × (written r ≡ status_after i total)
  unfolding apply_paid_total paid_target
  apply_paid_total-written np nc above below =
      let t = status_after i total in
      (
        if status_eq t i.status then (none, i) else (some t, record i { status = t }),
        ground (arith, w, wt),
        ground (arith, w, wt),
      )

  pub status_after-IsBalanced :
      (bound : ℤ) (j : Invoice)
      → i.total_amount ≤ℤ bound
      → pos 0 <ℤ total
      → total ≤ℤ i.total_amount
      → j.total_amount ≡ i.total_amount
      → j.status ≡ status_after i total
      → IsBalanced bound j total
  unfolding paid_target
  status_after-IsBalanced bound j r above below same st =
      ground (arith, w, wt, eq_of_parts total i.total_amount)
