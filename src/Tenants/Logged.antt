-- ===== src/Tenants/Logged.antt =====
-- The commands on a subscription that run without a transaction: what each leaves behind.
use multi_tenant_shipping_ma.Shared.{ℕ, ◌≡◌, Bool, not, Option, some, String, ◌∷◌}
use multi_tenant_shipping_ma.Shared.Effects.{Result, ok, err, ◌>>◌, throw_if}
use multi_tenant_shipping_ma.Shared.Table.{find_first, update_many, has_key}
use multi_tenant_shipping_ma.Tenants.Store.{
  SubscriptionStatus, active, suspended, resume, SubscriptionHistory, TenantSubscription, Tables,
  subscription_id_of, subscription_status_eq, set_subscription, no_suspended_subscription,
  history_refused, TenantError, Tenancy,
}
use multi_tenant_shipping_ma.Tenants.Commands.{change_status}

-- The tables with the status of one subscription written, and nothing else.
abbrev pub with_status :
    SubscriptionStatus → ℕ → Option String → TenantSubscription → Tables → Tables
with_status status now reason sub s = record s {
  subscriptions =
      update_many (has_key subscription_id_of sub.id) (set_subscription status now reason)
        s.subscriptions;
}

-- How a command ends that writes a status to the subscription that a test finds first.
pub data Outcome (p : TenantSubscription → Bool) (status : SubscriptionStatus) (now : ℕ)
    (reason : Option String) (s : Tables) : Result TenantError (Unit {0}) × Tables → Type 0 where
  nothing_written : (e : TenantError) → Outcome p status now reason s (err e, s)
  both_written :
      (sub : TenantSubscription) (h : SubscriptionHistory)
      → find_first p s.subscriptions ≡ some sub
      → (h.subscription_id ≡ sub.id) × (h.performed_at ≡ now) × (h.notes ≡ reason)
      → Outcome p status now reason s
          (ok tt, record (with_status status now reason sub s) { history = h ∷ s.history })
  status_alone :
      (sub : TenantSubscription)
      → find_first p s.subscriptions ≡ some sub
      → Outcome p status now reason s (err history_refused, with_status status now reason sub s)

module _ (accepts : SubscriptionHistory → Bool) (now : ℕ) (reason : Option String)
    (performed_by : ℕ) (s : Tables) where
  -- The latest subscription, when it is suspended.
  abbrev wake : TenantSubscription → Tenancy (Unit {0})
  wake sub =
      throw_if (not (subscription_status_eq sub.status suspended)) no_suspended_subscription
      >> change_status accepts active resume now reason performed_by sub
