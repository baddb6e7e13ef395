-- ===== src/Billing/Service/Sweep.antt =====
-- The scheduled sweep: `markOverdueInvoices`.
use multi_tenant_shipping_ma.Shared.{ℕ, ◌<◌, ◌≡◌, refl, arith, true, false, if◌then◌else◌}
use mathlib.Core.Option
use multi_tenant_shipping_ma.Shared.Table.{
  find_first, has_key, find_first-update_many, update_many-UniqueKeys, All-update_many,
  count_if-updated, update_many_twice,
}
use multi_tenant_shipping_ma.Shared.Effects.{ok}
use multi_tenant_shipping_ma.Billing.Invoice.{Invoice, overdue}
use multi_tenant_shipping_ma.Billing.Store.{Tables, set_status, is_overdue_at}
use multi_tenant_shipping_ma.Billing.Service.Commands.{mark_overdue_invoices}
use multi_tenant_shipping_ma.Billing.Service.Soundness.{id_of, BalancedBy, IsSound}

-- An invoice that is marked is short of its total, so it may be overdue.
swept-IsBalanced :
    (now : ℕ) (s : Tables) (i : Invoice)
    → BalancedBy s.payments i
    → is_overdue_at now i ≡ true
    → BalancedBy s.payments (set_status overdue i)
swept-IsBalanced now s i b h = ground (arith, b)

swept_settled :
    (now : ℕ) (i : Invoice)
    → is_overdue_at now i ≡ true
    → is_overdue_at now (set_status overdue i) ≡ false
swept_settled now i h = ground arith

module _ (now : ℕ) (s : Tables) where
  -- The sweep keeps the tables sound.
  pub mark_overdue_invoices-IsSound : IsSound s → IsSound (mark_overdue_invoices now s).1
  unfolding mark_overdue_invoices
  mark_overdue_invoices-IsSound sound = record {
    unique =
        update_many-UniqueKeys id_of (is_overdue_at now) (set_status overdue) s.invoices (λ _. refl)
          sound.unique;
    fresh =
        All-update_many (λ (i : Invoice). i.id < s.next_id) (λ (i : Invoice). i.id < s.next_id)
          (is_overdue_at now) (set_status overdue) s.invoices (λ i h _. h) (λ i h _. h) sound.fresh;
    known = sound.known;
    balanced =
        All-update_many (BalancedBy s.payments) (BalancedBy s.payments) (is_overdue_at now)
          (set_status overdue) s.invoices (swept-IsBalanced now s) (λ i b _. b) sound.balanced;
  }

  -- Every invoice is looked up afterwards as it was, but for those past due that are still owed.
  pub sweep_rows :
      (id : ℕ)
      → find_first (has_key id_of id) (mark_overdue_invoices now s).1.invoices
        ≡ Option.map
            (λ i. if is_overdue_at now i then set_status overdue i else i)
            (find_first (has_key id_of id) s.invoices)
  unfolding mark_overdue_invoices
  sweep_rows id =
      find_first-update_many id_of id (is_overdue_at now) (set_status overdue) s.invoices
        (λ _. refl)

  -- A second sweep for overdue invoices at the same time finds none and changes nothing.
  pub sweep_twice :
      let s' = (mark_overdue_invoices now s).1 in mark_overdue_invoices now s' ≡ (ok 0, s')
  unfolding mark_overdue_invoices
  sweep_twice = rw (
    count_if-updated (is_overdue_at now) (set_status overdue) s.invoices (swept_settled now),
    update_many_twice (is_overdue_at now) (set_status overdue) s.invoices (swept_settled now),
  )
