-- ===== src/Tenants/Examples.antt =====
-- The theorems on subscriptions at concrete tables.
use multi_tenant_shipping_ma.Shared.{
  ℕ, Bool, not, ◌==◌, ◌≡◌, refl, true, Option, none, some, [], ◌∷◌, List,
}
use multi_tenant_shipping_ma.Shared.Table.{find_first, update_many, count_if}
use multi_tenant_shipping_ma.Tenants.Store.{
  Tenant, Limits, TenantSubscription, Tables, SubscriptionHistory, find_active_subscription,
  find_latest_subscription,
}
use multi_tenant_shipping_ma.Tenants.Commands.{
  new_subscription, assign_subscription, suspend_subscription, resume_subscription,
}
use multi_tenant_shipping_ma.Tenants.Rows.{IsSingle}
use multi_tenant_shipping_ma.Tenants.Single.{
  Command, assigning, suspending, resuming, after_all, active_subscription_latest,
}

abbrev limits : Limits
limits = record {
  max_branches = 2;
  max_warehouses = 1;
  max_employees = 10;
  max_vehicles = 3;
  max_zones = 4;
  max_monthly_shipments = none;
  max_monthly_parcels = none;
}

abbrev plan_of : ℕ → Option Limits
plan_of id = some limits

-- A table that refuses the rows of one time.
abbrev accepts : SubscriptionHistory → Bool
accepts h = not (h.performed_at == 300)

abbrev month_after : ℕ → ℕ
month_after now = now

abbrev carrier : Tenant
carrier = record {
  id = 9;
  name = "Carrier";
  tax_number = none;
  email = none;
  is_active = true;
  created_at = 10;
  suspended_at = none;
  suspended_reason = none;
}

abbrev fresh : Tables
fresh = record { tenants = carrier ∷ []; subscriptions = []; history = []; next_id = 20 }

fresh-IsSingle : IsSingle fresh
fresh-IsSingle = record { unique = tt; fresh = tt; single = tt }

-- A second plan replaces the first, and is suspended and resumed.
abbrev history : List Command
history =
    assigning 9 1 100 5 ∷ assigning 9 2 200 5 ∷ suspending 9 300 none 5 ∷ resuming 9 400 none 5 ∷ []

abbrev second : TenantSubscription
second = new_subscription plan_of month_after 21 9 2 200 limits

second_active :
    find_active_subscription 9 (after_all accepts plan_of month_after history fresh) ≡ some second
unfolding find_active_subscription assign_subscription suspend_subscription resume_subscription
    find_first update_many count_if
second_active = refl

active_subscription_latest_example :
    find_latest_subscription 9 (after_all accepts plan_of month_after history fresh) ≡ some second
active_subscription_latest_example =
    active_subscription_latest accepts plan_of month_after history fresh 9 fresh-IsSingle
      second_active

abbrev subscribed : Tables
subscribed = after_all accepts plan_of month_after (assigning 9 1 100 5 ∷ []) fresh
