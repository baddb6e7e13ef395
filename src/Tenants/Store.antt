-- ===== src/Tenants/Store.antt =====
-- tenant.entity.ts, tenant-subscription.entity.ts, tenant-subscription-history.entity.ts, and the
-- methods of tenant.command.repository.ts on tenants and subscriptions. Subscriptions stand newest
-- first, which is the order of their `created_at`, descending.
use multi_tenant_shipping_ma.Shared.{
  ℕ, ◌+◌, Bool, true, false, ◌&&◌, Option, none, some, String, List, ◌∷◌, ◌==◌, if◌then◌else◌,
}
use multi_tenant_shipping_ma.Shared.Effects.{Action, ok, err, modify}
use multi_tenant_shipping_ma.Shared.Table.{find_first, update_many, count_if, has_key}

pub data SubscriptionStatus : Type 0 where
  active expired cancelled suspended trial : SubscriptionStatus

abbrev pub subscription_status_eq : SubscriptionStatus → SubscriptionStatus → Bool
subscription_status_eq active active = true
subscription_status_eq expired expired = true
subscription_status_eq cancelled cancelled = true
subscription_status_eq suspended suspended = true
subscription_status_eq trial trial = true
subscription_status_eq _ _ = false

pub record Tenant : Type 0 where
  pub id : ℕ
  pub name : String
  pub tax_number : Option String
  pub email : Option String
  pub is_active : Bool
  pub created_at : ℕ
  pub suspended_at : Option ℕ
  pub suspended_reason : Option String

-- What a plan allows, copied into the subscription when it is assigned.
pub record Limits : Type 0 where
  pub max_branches : ℕ
  pub max_warehouses : ℕ
  pub max_employees : ℕ
  pub max_vehicles : ℕ
  pub max_zones : ℕ
  pub max_monthly_shipments : Option ℕ
  pub max_monthly_parcels : Option ℕ

pub record TenantSubscription : Type 0 where
  pub id : ℕ
  pub tenant_id : ℕ
  pub plan_id : ℕ
  pub status : SubscriptionStatus
  pub started_at : ℕ
  pub expires_at : ℕ
  pub snapshot : Limits
  pub cancelled_at : Option ℕ
  pub cancellation_reason : Option String

pub data HistoryAction : Type 0 where
  assign suspend resume cancel : HistoryAction

pub record SubscriptionHistory : Type 0 where
  pub tenant_id : ℕ
  pub subscription_id : ℕ
  pub plan_id : ℕ
  pub action : HistoryAction
  pub performed_at : ℕ
  pub previous_plan_id : Option ℕ
  pub notes : Option String
  pub performed_by : ℕ

pub record Tables : Type 0 where
  pub tenants : List Tenant
  pub subscriptions : List TenantSubscription
  pub history : List SubscriptionHistory
  -- `generateUuid()`: the next identifier that is not in use.
  pub next_id : ℕ

pub data TenantError : Type 0 where
  tenant_not_found plan_not_found no_active_subscription no_suspended_subscription : TenantError
  row_not_found : TenantError
  -- what the insert of a history row throws
  history_refused : TenantError

abbrev pub Tenancy : Type 0 → Type 0
Tenancy A = Action Tables TenantError A

abbrev pub tenant_id_of : Tenant → ℕ
tenant_id_of t = t.id

abbrev pub subscription_id_of : TenantSubscription → ℕ
subscription_id_of s = s.id

unfoldable pub find_tenant : ℕ → Tables → Option Tenant
find_tenant id s = find_first (has_key tenant_id_of id) s.tenants

abbrev update_tenant_row : ℕ → (Tenant → Tenant) → Tenancy (Unit {0})
update_tenant_row id change s = (
  if count_if (has_key tenant_id_of id) s.tenants == 0 then err row_not_found else ok tt,
  record s { tenants = update_many (has_key tenant_id_of id) change s.tenants },
)

-- What is left out stays as it was.
abbrev or_kept {ℓ} : {A : Type ℓ} → Option A → A → A
or_kept none old = old
or_kept (some new) old = new

unfoldable pub update_tenant_details :
    ℕ → Option String → Option String → Option String → Tenancy (Unit {0})
update_tenant_details id name tax_number email = update_tenant_row id (λ t. record t {
  name = or_kept name t.name;
  tax_number = keep tax_number t.tax_number;
  email = keep email t.email;
})
  where
    keep : Option String → Option String → Option String
    keep none old = old
    keep (some new) old = some new

-- A reason that is left out or empty is stored as null.
unfoldable pub update_tenant_status : ℕ → Bool → ℕ → Option String → Tenancy (Unit {0})
update_tenant_status id is_active now reason = update_tenant_row id (λ t. record t {
  is_active = is_active;
  suspended_at = if is_active then none else some now;
  suspended_reason = if is_active then none else reason;
})

unfoldable pub create_subscription : TenantSubscription → Tenancy (Unit {0})
create_subscription row = modify (λ s. record s { subscriptions = row ∷ s.subscriptions })

abbrev pub is_active_of : ℕ → TenantSubscription → Bool
is_active_of tenant_id s = s.tenant_id == tenant_id && subscription_status_eq s.status active

abbrev pub replaced : ℕ → TenantSubscription → TenantSubscription
replaced now s = record s {
  status = cancelled;
  cancelled_at = some now;
  cancellation_reason = some "System replaced with new subscription";
}

unfoldable pub deactivate_active_subscription : ℕ → ℕ → Tenancy (Unit {0})
deactivate_active_subscription tenant_id now = modify (λ s. record s {
  subscriptions = update_many (is_active_of tenant_id) (replaced now) s.subscriptions;
})

-- The database accepts a row or not: for one, a text with a NUL character is refused.
unfoldable pub create_subscription_history :
    (SubscriptionHistory → Bool) → SubscriptionHistory → Tenancy (Unit {0})
create_subscription_history accepts h s =
    if accepts h then (ok tt, record s { history = h ∷ s.history }) else (err history_refused, s)

abbrev pub set_subscription :
    SubscriptionStatus → ℕ → Option String → TenantSubscription → TenantSubscription
set_subscription cancelled now reason s = record s {
  status = cancelled;
  cancelled_at = some now;
  cancellation_reason = reason;
}
set_subscription status now reason s = record s { status = status }

unfoldable pub update_subscription_status :
    ℕ → SubscriptionStatus → ℕ → Option String → Tenancy (Unit {0})
update_subscription_status id status now reason s = (
  if count_if (has_key subscription_id_of id) s.subscriptions == 0
      then err row_not_found
      else ok tt,
  record s {
    subscriptions =
        update_many (has_key subscription_id_of id) (set_subscription status now reason)
          s.subscriptions;
  },
)

unfoldable pub find_active_subscription : ℕ → Tables → Option TenantSubscription
find_active_subscription tenant_id s = find_first (is_active_of tenant_id) s.subscriptions

abbrev pub is_subscription_of : ℕ → TenantSubscription → Bool
is_subscription_of tenant_id s = s.tenant_id == tenant_id

unfoldable pub find_latest_subscription : ℕ → Tables → Option TenantSubscription
find_latest_subscription tenant_id s = find_first (is_subscription_of tenant_id) s.subscriptions

unfoldable pub generate_id : Tenancy ℕ
generate_id s = (ok s.next_id, record s { next_id = s.next_id + 1 })
