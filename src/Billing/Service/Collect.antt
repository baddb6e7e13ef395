-- ===== src/Billing/Service/Collect.antt =====
-- Payments: `collectAgainst` and `recordPayment`.
use multi_tenant_shipping_ma.Shared.{
  ℕ, ◌+◌, ◌<◌, ◌≡◌, refl, sym, ap, subst, ◌∙◌, some, none, ◌∷◌, arith, All-map, ◌⊎◌, inl, inr,
  Option-cases,
}
use multi_tenant_shipping_ma.Shared.Int.{ℤ, ◌+ℤ◌, int_laws, +ℤ_parts}
use multi_tenant_shipping_ma.Shared.Table.{
  find_first, update_many, has_key, update_many-UniqueKeys, All-update_many, All-find_first,
}
use multi_tenant_shipping_ma.Shared.Effects.{
  Result, ok, err, pure, lift, transactional_fails, transactional_commits, >>=-step, Result-cases,
}
use multi_tenant_shipping_ma.Billing.Money.{IsCents, +ℤ-IsCents}
use multi_tenant_shipping_ma.Billing.Invoice.{
  Invoice, BillingError, assert_accepts_payment, invoice_not_found,
}
use multi_tenant_shipping_ma.Billing.Invoice.Balance.{
  IsBalanced, IsAcceptable, accepts→IsAcceptable, IsAcceptable→accepts, status_after,
  apply_paid_total-written, status_after-IsBalanced,
}
use multi_tenant_shipping_ma.Billing.Store.{
  Tables, Payment, Surroundings, max_decimal, sum_completed, sum_completed_payments, set_status,
  update_status, insert_payment, payment_row, create_payment, find_aggregate_by_id,
}
use multi_tenant_shipping_ma.Billing.Service.Commands.{
  RecordPayment, collection_of, collect_against, record_payment,
}
use multi_tenant_shipping_ma.Billing.Service.Soundness.{
  id_of, BalancedBy, IsSound, guarded, find-id, update_status-current, write-balanced,
  sum_completed-other, sum_completed-own,
}

-- What has been collected against an invoice.
abbrev pub collected : Tables → Invoice → ℤ
collected s i = sum_completed i.id s.payments

-- The tables after a payment: its row is there, and the invoice has the status that the new sum
-- stands for, and the next version.
abbrev pub after_payment : Invoice → RecordPayment → Tables → Tables
after_payment i c s =
    let s' = insert_payment c.amount (collection_of i c) s in
    let status = status_after i (collected s i +ℤ c.amount) in
    record s' { invoices = update_many (guarded i.id i.version) (set_status status) s.invoices }

module _ (e : Surroundings) (s : Tables) (i : Invoice) (c : RecordPayment) where
  -- A payment that the invoice refuses leaves the tables alone.
  pub collect_against-refused :
      (x : BillingError)
      → assert_accepts_payment i c.amount (collected s i) ≡ err x
      → collect_against e i c s ≡ (err x, s)
  unfolding collect_against sum_completed_payments
  collect_against-refused x h = rw (h, lift)

  module _ (sound : IsSound s) (found : find_first (has_key id_of i.id) s.invoices ≡ some i)
      (cents : IsCents c.amount) where
    balanced : IsBalanced max_decimal i (collected s i)
    balanced =
        All-find_first (BalancedBy s.payments) (has_key id_of i.id) s.invoices found sound.balanced

    pub collect_against-accepted :
        IsAcceptable i c.amount (collected s i)
        → collect_against e i c s ≡ (ok s.next_id, after_payment i c s)
    unfolding collect_against sum_completed_payments create_payment
    collect_against-accepted a =
        let b = balanced in
        let accepts =
          IsAcceptable→accepts i c.amount (collected s i) b.whole cents b.collected_whole a in
        let fits =
          e.decimal_fits c.amount cents (omega (arith, a.positive))
            (omega (arith, a.within, b.in_range, b.nonneg, +ℤ_parts c.amount (collected s i))) in
        let (r, applied, w) =
          apply_paid_total-written i (collected s i +ℤ c.amount) b.whole
            (+ℤ-IsCents (collected s i) c.amount b.collected_whole cents) a.not_paid a.not_cancelled
            (omega (int_laws, a.positive, b.nonneg)) (omega (int_laws, a.within)) in
        let s1 = insert_payment c.amount (collection_of i c) s in
        let status = status_after i (collected s i +ℤ c.amount) in
        let last = update_status-current s1 status i sound.unique found in
        rw accepts (
          rw fits (
            rw applied (
              rw w (>>=-step (update_status i.id status i.version) (λ _. pure s.next_id) s1 last))))

    pub after_payment-IsSound :
        IsAcceptable i c.amount (collected s i) → IsSound (after_payment i c s)
    unfolding collection_of
    after_payment-IsSound a =
        let b = balanced in
        let total = collected s i +ℤ c.amount in
        let status = status_after i total in
        let d = collection_of i c in
        let ps = payment_row s.next_id c.amount d ∷ s.payments in
        let sum : sum_completed i.id ps ≡ total =
          sum_completed-own s.next_id c.amount d s.payments refl ∙ omega int_laws in
        let this : IsBalanced max_decimal (set_status status i) total =
          status_after-IsBalanced i total b.whole (+ℤ-IsCents _ _ b.collected_whole cents)
            max_decimal (set_status status i) b.in_range (omega (int_laws, a.positive, b.nonneg))
            (omega (int_laws, a.within)) refl refl in
        record {
          unique =
              update_many-UniqueKeys id_of (guarded i.id i.version) (set_status status) s.invoices
                (λ _. refl) sound.unique;
          fresh =
              All-update_many (λ (j : Invoice). j.id < s.next_id)
                (λ (j : Invoice). j.id < s.next_id + 1) (guarded i.id i.version) (set_status status)
                s.invoices (λ j h _. omega arith) (λ j h _. omega arith) sound.fresh;
          known = (
            omega (
              arith,
              All-find_first (λ (j : Invoice). j.id < s.next_id) (has_key id_of i.id) s.invoices
                  found sound.fresh,
            ),
            All-map (λ (p : Payment). p.invoice_id < s.next_id)
                (λ (p : Payment). p.invoice_id < s.next_id + 1) s.payments (λ p h. omega arith)
                sound.known,
          );
          balanced =
              write-balanced s.payments ps s.invoices status i sound.unique found
                (λ id ne. sum_completed-other id s.next_id c.amount d s.payments ne)
                (subst (IsBalanced max_decimal (set_status status i)) (sym sum) this)
                sound.balanced;
        }

module _ (e : Surroundings) (s : Tables) (c : RecordPayment) (sound : IsSound s)
    (cents : IsCents c.amount) where
  -- On sound tables, a payment of whole cents against a stored invoice is either acceptable, and
  -- then it is recorded with its exact effect on the payment and invoice tables, or it is not
  -- acceptable, and then the call throws and the tables stay as they were.
  pub record_payment_exact :
      (i : Invoice)
      → find_first (has_key id_of i.id) s.invoices ≡ some i
      → (IsAcceptable i c.amount (collected s i)
          × (record_payment e i.id c s ≡ (ok s.next_id, after_payment i c s)))
        ⊎ ((x : BillingError) × (¬ (IsAcceptable i c.amount (collected s i)))
            × (record_payment e i.id c s ≡ (err x, s)))
  unfolding record_payment find_aggregate_by_id
  record_payment_exact i found =
      let b = balanced e s i c sound found cents in
      elim (Result-cases (assert_accepts_payment i c.amount (collected s i))) [
        | inl (_, h) ↦
            let a =
              accepts→IsAcceptable i c.amount (collected s i) b.whole cents b.collected_whole h in
            inl (
              a,
              transactional_commits _ s
                  (rw found (collect_against-accepted e s i c sound found cents a)),
            )
        | inr (x, h) ↦ inr (
          x,
          (λ a.
              cc (
                IsAcceptable→accepts i c.amount (collected s i) b.whole cents b.collected_whole a)),
          transactional_fails _ s (
              rw found (
                ap (λ (p : Result BillingError ℕ × Tables). p.0)
                  (collect_against-refused e s i c x h))),
        )
      ]

  pub record_payment-missing :
      (id : ℕ)
      → find_first (has_key id_of id) s.invoices ≡ none
      → record_payment e id c s ≡ (err invoice_not_found, s)
  unfolding record_payment find_aggregate_by_id
  record_payment-missing id h = transactional_fails _ s (rw h refl)

  -- Whatever the invoice and the amount, recording a payment keeps the tables sound.
  pub record_payment-IsSound : (id : ℕ) → IsSound (record_payment e id c s).1
  record_payment-IsSound id = elim (Option-cases (find_first (has_key id_of id) s.invoices)) [
    | inl h ↦ rw (record_payment-missing id h) sound
    | inr (i, h) ↦
        let same = find-id id s.invoices h in
        let found = subst (λ k. find_first (has_key id_of k) s.invoices ≡ some i) (sym same) h in
        elim (record_payment_exact i found) [
          | inl (a, done) ↦
              rw (← same) (rw done (after_payment-IsSound e s i c sound found cents a))
          | inr (x, _, refused) ↦ rw (← same) (rw refused sound)
        ]
  ]
