-- ===== src/Tenants/Commands.antt =====
-- The methods of tenant.command.service.ts that change a tenant's state and its subscription. Plans
-- come from the subscription-plan module; a month later is a function of the calendar.
use multi_tenant_shipping_ma.Shared.{ℕ, Bool, true, false, not, Option, none, some, String}
use multi_tenant_shipping_ma.Shared.Effects.{◌>>=◌, ◌>>◌, throw_if, found_or, transactional}
use multi_tenant_shipping_ma.Tenants.Store.{
  SubscriptionStatus, active, cancelled, suspended, subscription_status_eq, Tenant, Limits,
  TenantSubscription, HistoryAction, assign, suspend, resume, cancel, SubscriptionHistory,
  tenant_not_found, plan_not_found, no_active_subscription, no_suspended_subscription, Tenancy,
  find_tenant, update_tenant_details, update_tenant_status, create_subscription,
  deactivate_active_subscription, create_subscription_history, update_subscription_status,
  find_active_subscription, find_latest_subscription, generate_id,
}

abbrev pub load_tenant : ℕ → Tenancy Tenant
load_tenant id s = (found_or (find_tenant id s) tenant_not_found, s)

abbrev pub load_active : ℕ → Tenancy TenantSubscription
load_active tenant_id s =
    (found_or (find_active_subscription tenant_id s) no_active_subscription, s)

abbrev pub load_latest : ℕ → Tenancy TenantSubscription
load_latest tenant_id s =
    (found_or (find_latest_subscription tenant_id s) no_suspended_subscription, s)

unfoldable pub update_tenant :
    ℕ → Option String → Option String → Option String → Tenancy (Unit {0})
unfolding find_tenant update_tenant_details
update_tenant id name tax_number email =
    load_tenant id >>= λ t. update_tenant_details id name tax_number email

unfoldable pub suspend_tenant : ℕ → ℕ → Option String → Tenancy (Unit {0})
unfolding find_tenant update_tenant_status
suspend_tenant id now reason = load_tenant id >>= λ t. update_tenant_status id false now reason

unfoldable pub activate_tenant : ℕ → ℕ → Tenancy (Unit {0})
unfolding find_tenant update_tenant_status
activate_tenant id now = load_tenant id >>= λ t. update_tenant_status id true now none

abbrev pub record_of :
    TenantSubscription → HistoryAction → ℕ → Option String → ℕ → SubscriptionHistory
record_of sub action now notes performed_by = record {
  tenant_id = sub.tenant_id;
  subscription_id = sub.id;
  plan_id = sub.plan_id;
  action = action;
  performed_at = now;
  previous_plan_id = some sub.plan_id;
  notes = notes;
  performed_by = performed_by;
}

module _ (plan_of : ℕ → Option Limits) (month_after : ℕ → ℕ) where
  abbrev pub new_subscription : ℕ → ℕ → ℕ → ℕ → Limits → TenantSubscription
  new_subscription id tenant_id plan_id now plan = record {
    id = id;
    tenant_id = tenant_id;
    plan_id = plan_id;
    status = active;
    started_at = now;
    expires_at = month_after now;
    snapshot = plan;
    cancelled_at = none;
    cancellation_reason = none;
  }

-- Which rows of history the database accepts.
module _ (accepts : SubscriptionHistory → Bool) where
  -- Writes the status of a loaded subscription, and the history of it.
  abbrev pub change_status :
      SubscriptionStatus
      → HistoryAction
      → ℕ
      → Option String
      → ℕ
      → TenantSubscription
      → Tenancy (Unit {0})
  change_status status action now reason performed_by sub =
      update_subscription_status sub.id status now reason
      >> create_subscription_history accepts (record_of sub action now reason performed_by)

  unfoldable pub suspend_subscription : ℕ → ℕ → Option String → ℕ → Tenancy (Unit {0})
  unfolding find_tenant find_active_subscription update_subscription_status
      create_subscription_history
  suspend_subscription tenant_id now reason performed_by = do
    t ← load_tenant tenant_id
    sub ← load_active tenant_id
    change_status suspended suspend now reason performed_by sub

  unfoldable pub resume_subscription : ℕ → ℕ → Option String → ℕ → Tenancy (Unit {0})
  unfolding find_tenant find_latest_subscription update_subscription_status
      create_subscription_history
  resume_subscription tenant_id now reason performed_by = do
    t ← load_tenant tenant_id
    sub ← load_latest tenant_id
    throw_if (not (subscription_status_eq sub.status suspended)) no_suspended_subscription
    change_status active resume now reason performed_by sub

  unfoldable pub cancel_subscription : ℕ → ℕ → Option String → ℕ → Tenancy (Unit {0})
  unfolding find_tenant find_active_subscription update_subscription_status
      create_subscription_history
  cancel_subscription tenant_id now reason performed_by = do
    t ← load_tenant tenant_id
    sub ← load_active tenant_id
    change_status cancelled cancel now reason performed_by sub

  module _ (plan_of : ℕ → Option Limits) (month_after : ℕ → ℕ) where
    abbrev pub assign_plan : ℕ → ℕ → ℕ → ℕ → Limits → Tenancy (Unit {0})
    assign_plan tenant_id plan_id now performed_by plan = do
      deactivate_active_subscription tenant_id now
      id ← generate_id
      let sub = new_subscription plan_of month_after id tenant_id plan_id now plan
      create_subscription sub
      create_subscription_history accepts
          (record (record_of sub assign now (some "Initial subscription assignment") performed_by) {
            previous_plan_id = none;
          })

    unfoldable pub assign_subscription : ℕ → ℕ → ℕ → ℕ → Tenancy (Unit {0})
    unfolding find_tenant deactivate_active_subscription generate_id create_subscription
        create_subscription_history transactional
    assign_subscription tenant_id plan_id now performed_by = transactional do
      t ← load_tenant tenant_id
      plan ← λ s. (found_or (plan_of plan_id) plan_not_found, s)
      assign_plan tenant_id plan_id now performed_by plan
