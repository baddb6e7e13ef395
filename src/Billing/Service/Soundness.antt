-- ===== src/Billing/Service/Soundness.antt =====
-- The invariant of the billing tables: every invoice agrees with the payments recorded for it.
use multi_tenant_shipping_ma.Shared.{
  ℕ, ◌<◌, ◌≡◌, ◌≢◌, refl, sym, subst, Bool, true, false, ◌&&◌, some, List, [], ◌∷◌, arith, All,
  ◌==◌, ==_refl, ==_ne,
}
use multi_tenant_shipping_ma.Shared.Int.{ℤ, pos, ◌+ℤ◌, +ℤ_zero_left}
use multi_tenant_shipping_ma.Shared.Table.{
  find_first, update_many, has_key, UniqueKeys, All-update_keyed, count_if-keyed, find_first_fits,
}
use multi_tenant_shipping_ma.Shared.Effects.{ok, err}
use multi_tenant_shipping_ma.Billing.Invoice.{Invoice, InvoiceStatus, stale_version}
use multi_tenant_shipping_ma.Billing.Invoice.Balance.{IsBalanced}
use multi_tenant_shipping_ma.Billing.Store.{
  Tables, Payment, PaymentData, max_decimal, is_completed, sum_completed, has_version, set_status,
  update_status, payment_row,
}

abbrev pub id_of : Invoice → ℕ
id_of i = i.id

abbrev pub BalancedBy : List Payment → Invoice → Type 0
BalancedBy ps i = IsBalanced max_decimal i (sum_completed i.id ps)

pub record IsSound (s : Tables) : Type 0 where
  pub unique : UniqueKeys id_of s.invoices
  pub fresh : All (λ (i : Invoice). i.id < s.next_id) s.invoices
  pub known : All (λ (p : Payment). p.invoice_id < s.next_id) s.payments
  pub balanced : All (BalancedBy s.payments) s.invoices

abbrev pub guarded : ℕ → ℕ → Invoice → Bool
guarded id version i = i.id == id && has_version version i

-- A row that a look-up by identifier finds has that identifier.
pub find-id :
    (id : ℕ) (rows : List Invoice) {i : Invoice}
    → find_first (has_key id_of id) rows ≡ some i
    → i.id ≡ id
find-id id rows {i} h =
    let e : has_key id_of id i ≡ true = find_first_fits (has_key id_of id) rows h in ground arith

-- With the version it was loaded with, the status of an invoice is written.
pub update_status-current :
    (s : Tables) (status : InvoiceStatus) (i : Invoice)
    → UniqueKeys id_of s.invoices
    → find_first (has_key id_of i.id) s.invoices ≡ some i
    → update_status i.id status i.version s ≡ (
      ok tt,
      record s { invoices = update_many (guarded i.id i.version) (set_status status) s.invoices },
    )
unfolding update_status
update_status-current s status i u h =
    rw (count_if-keyed id_of i.id (has_version i.version) s.invoices u h, ==_refl i.version)

-- With another version the write is refused.
pub update_status-stale :
    (s : Tables) (status : InvoiceStatus) (id version : ℕ) (j : Invoice)
    → UniqueKeys id_of s.invoices
    → find_first (has_key id_of id) s.invoices ≡ some j
    → j.version ≢ version
    → (update_status id status version s).0 ≡ err stale_version
unfolding update_status
update_status-stale s status id version j u h ne =
    rw (count_if-keyed id_of id (has_version version) s.invoices u h, ==_ne j.version version ne)

-- Writing the status of one invoice, after the payments changed for that invoice alone.
pub write-balanced :
    (ps qs : List Payment) (rows : List Invoice) (status : InvoiceStatus) (i : Invoice)
    → UniqueKeys id_of rows
    → find_first (has_key id_of i.id) rows ≡ some i
    → ((id : ℕ) → id ≢ i.id → sum_completed id qs ≡ sum_completed id ps)
    → BalancedBy qs (set_status status i)
    → All (BalancedBy ps) rows
    → All (BalancedBy qs) (update_many (guarded i.id i.version) (set_status status) rows)
write-balanced ps qs rows status i u h others this b =
    All-update_keyed id_of (BalancedBy ps) (BalancedBy qs) i.id (guarded i.id i.version)
      (set_status status) rows u h (λ x ne. rw (==_ne x.id i.id ne))
      (λ x ne bx. subst (IsBalanced max_decimal x) (sym (others x.id ne)) bx)
      (λ _. rw (==_refl i.id, ==_refl i.version) this) b

-- A payment recorded for another invoice, or one that is not completed, adds nothing.
pub sum_completed-other :
    (id k : ℕ) (amount : ℤ) (d : PaymentData) (ps : List Payment)
    → id ≢ d.invoice_id
    → sum_completed id (payment_row k amount d ∷ ps) ≡ sum_completed id ps
unfolding sum_completed
sum_completed-other id k amount d ps ne =
    rw (==_ne d.invoice_id id (λ e. ne (sym e))) (+ℤ_zero_left _)

pub sum_completed-own :
    (k : ℕ) (amount : ℤ) (d : PaymentData) (ps : List Payment)
    → is_completed d.status ≡ true
    → sum_completed d.invoice_id (payment_row k amount d ∷ ps)
      ≡ amount +ℤ sum_completed d.invoice_id ps
unfolding sum_completed
sum_completed-own k amount d ps c = rw (==_refl d.invoice_id, c)

pub sum_completed-not_completed :
    (id k : ℕ) (amount : ℤ) (d : PaymentData) (ps : List Payment)
    → is_completed d.status ≡ false
    → sum_completed id (payment_row k amount d ∷ ps) ≡ sum_completed id ps
unfolding sum_completed
sum_completed-not_completed id k amount d ps c = ground (arith, +ℤ_zero_left (sum_completed id ps))

-- An invoice that no payment names has collected nothing.
pub sum_completed-unknown :
    (id : ℕ) (ps : List Payment)
    → All (λ (p : Payment). p.invoice_id < id) ps
    → sum_completed id ps ≡ pos 0
unfolding sum_completed
sum_completed-unknown id [] h = refl
sum_completed-unknown id (p ∷ ps) h =
    ground (arith, +ℤ_zero_left (pos 0), sum_completed-unknown id ps h.1)
