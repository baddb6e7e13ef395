-- ===== src/Billing/Service/Settle.antt =====
-- Settling an invoice, and payments that overlap.
use multi_tenant_shipping_ma.Shared.{
  ◌≡◌, ◌≢◌, refl, sym, subst, ◌∙◌, some, arith, inl, inr, Option-cases, ==_refl,
}
use multi_tenant_shipping_ma.Shared.Int.{◌+ℤ◌, ◌-ℤ◌, ◌<ℤ◌, int_laws, +ℤ_comm, eq_of_parts}
use multi_tenant_shipping_ma.Shared.Table.{
  find_first, has_key, find_first-update_many, All-find_first,
}
use multi_tenant_shipping_ma.Shared.Effects.{
  ok, err, transactional, transactional_fails, Result-cases, >>=-fails, pure,
}
use multi_tenant_shipping_ma.Billing.Money.{IsCents, -ℤ-IsCents}
use multi_tenant_shipping_ma.Billing.Invoice.{
  Invoice, paid, cancelled, BillingError, assert_accepts_payment, apply_paid_total, paid_target,
  stale_version, numeric_overflow,
}
use multi_tenant_shipping_ma.Billing.Invoice.Balance.{IsAcceptable, status_after, written}
use multi_tenant_shipping_ma.Billing.Store.{
  Tables, Surroundings, sum_completed_payments, set_status, update_status, insert_payment,
  create_payment,
}
use multi_tenant_shipping_ma.Billing.Service.Commands.{
  RecordPayment, collection_of, collect_against, record_payment,
}
use multi_tenant_shipping_ma.Billing.Service.Soundness.{
  id_of, BalancedBy, IsSound, guarded, update_status-stale,
}
use multi_tenant_shipping_ma.Billing.Service.Collect.{
  collected, after_payment, record_payment_exact,
}

-- The row of an invoice after a payment.
after_payment-row :
    (s : Tables) (i : Invoice) (c : RecordPayment)
    → find_first (has_key id_of i.id) s.invoices ≡ some i
    → find_first (has_key id_of i.id) (after_payment i c s).invoices
      ≡ some (set_status (status_after i (collected s i +ℤ c.amount)) i)
after_payment-row s i c found =
    let status = status_after i (collected s i +ℤ c.amount) in
    find_first-update_many id_of i.id (guarded i.id i.version) (set_status status) s.invoices
      (λ _. refl)
    ∙ rw (found, ==_refl i.id, ==_refl i.version) refl

module _ (e : Surroundings) (s : Tables) (i : Invoice) (c : RecordPayment) where
  -- On sound tables, for a stored invoice that is neither paid nor cancelled and is not fully
  -- collected, the payment of exactly what is left succeeds and the stored invoice is then paid.
  pub pay_remaining_settles :
      IsSound s
      → find_first (has_key id_of i.id) s.invoices ≡ some i
      → i.status ≢ paid
      → i.status ≢ cancelled
      → collected s i <ℤ i.total_amount
      → c.amount ≡ i.total_amount -ℤ collected s i
      → let (r, s') = record_payment e i.id c s in
        (r ≡ ok s.next_id)
        × (find_first (has_key id_of i.id) s'.invoices ≡ some (set_status paid i))
  unfolding paid_target
  pay_remaining_settles sound found np nc short rest =
      let b =
        All-find_first (BalancedBy s.payments) (has_key id_of i.id) s.invoices found
          sound.balanced in
      let cents : IsCents c.amount =
        subst IsCents (sym rest) (-ℤ-IsCents _ _ b.whole b.collected_whole) in
      let all = eq_of_parts (c.amount +ℤ collected s i) i.total_amount (rw rest (omega int_laws)) in
      let a : IsAcceptable i c.amount (collected s i) = record {
        not_paid = np;
        not_cancelled = nc;
        positive = rw rest (omega int_laws);
        within = rw all (omega arith);
        enough = inr all;
      } in
      let settles : status_after i (collected s i +ℤ c.amount) ≡ paid =
        ground (arith, all, +ℤ_comm c.amount (collected s i)) in
      elim (record_payment_exact e s c sound cents i found) [
        | inl (_, done) ↦ rw done (refl, rw (after_payment-row s i c found, settles))
        | inr (x, refuses, _) ↦ absurd (refuses a)
      ]

  -- On sound tables, collecting against an invoice that was loaded with another version than the
  -- stored one throws, and the tables stay as they were.
  pub stale_collect_rolls_back :
      (j : Invoice)
      → IsSound s
      → find_first (has_key id_of i.id) s.invoices ≡ some j
      → j.version ≢ i.version
      → (x : BillingError) × (transactional (collect_against e i c) s ≡ (err x, s))
  unfolding collect_against sum_completed_payments create_payment
  stale_collect_rolls_back j sound found stale =
      elim (Result-cases (assert_accepts_payment i c.amount (collected s i))) [
        | inr (x, h) ↦ (x, transactional_fails _ s (rw h refl))
        | inl (_, h) ↦ elim (Option-cases (e.decimal c.amount)) [
          | inl d ↦ (numeric_overflow, transactional_fails _ s (rw (h, d) refl))
          | inr (amount, d) ↦ elim (Result-cases (apply_paid_total i (collected s i +ℤ c.amount))) [
            | inr (x, a) ↦ (x, transactional_fails _ s (rw h (rw d (rw a refl))))
            | inl (r, a) ↦
                let s1 = insert_payment amount (collection_of i c) s in
                let refused =
                  update_status-stale s1 (written r) i.id i.version j sound.unique found stale in
                (
                  stale_version,
                  transactional_fails _ s (
                      rw h (
                        rw d (
                          rw a (
                            >>=-fails (update_status i.id (written r) i.version)
                              (λ _. pure s.next_id) s1 refused)))),
                )
          ]
        ]
      ]
