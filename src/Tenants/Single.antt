-- ===== src/Tenants/Single.antt =====
-- Of the subscriptions of a tenant, only the latest can be active, whatever the commands.
use multi_tenant_shipping_ma.Shared.{
  ℕ, Bool, ◌+◌, ◌<◌, ◌≡◌, ◌≢◌, refl, true, not, Option, none, some, String, List, [], ◌∷◌, ◌==◌,
  arith, Bool-cases, inl, inr,
}
use multi_tenant_shipping_ma.Shared.Effects.{◌>>=◌, ◌>>◌, throw_if, found_or}
use multi_tenant_shipping_ma.Shared.Ensures.{transactional_leaves}
use multi_tenant_shipping_ma.Shared.Table.{
  find_first, All-update_many, update_many-UniqueKeys, All-find_first, find_first_fits,
}
use multi_tenant_shipping_ma.Tenants.Store.{
  Tenant, active, cancelled, suspended, subscription_status_eq, Limits, TenantSubscription,
  SubscriptionHistory, Tables, TenantError, Tenancy, suspend, resume, cancel, find_tenant,
  tenant_not_found, plan_not_found, no_active_subscription, no_suspended_subscription,
  subscription_id_of, is_active_of, is_subscription_of, replaced, create_subscription,
  deactivate_active_subscription, find_active_subscription, find_latest_subscription, generate_id,
}
use multi_tenant_shipping_ma.Tenants.Commands.{
  load_tenant, load_active, load_latest, change_status, suspend_subscription, resume_subscription,
  cancel_subscription, new_subscription, assign_plan, assign_subscription,
}
use multi_tenant_shipping_ma.Tenants.Rows.{
  IsBehind, OnlyLatest, IsSingle, create_subscription_history-IsSingle, update_many-OnlyLatest,
  wake_latest, change_status-IsSingle, close_subscription, closed-IsBehind,
}

-- A row that is loaded, or an error, before the rest of a command.
found_leaves :
    {A B : Type 0} (o : Option A) (e : TenantError) (f : A → Tenancy B) (s : Tables)
    → IsSingle s
    → ((a : A) → o ≡ some a → IsSingle (f a s).1)
    → IsSingle (((λ t. (found_or o e, t)) >>= f) s).1
found_leaves none e f s h k = h
found_leaves (some a) e f s h k = k a refl

suspend_subscription-IsSingle :
    (accepts : SubscriptionHistory → Bool) (tenant_id now : ℕ) (reason : Option String)
    (performed_by : ℕ) (s : Tables)
    → IsSingle s
    → IsSingle (suspend_subscription accepts tenant_id now reason performed_by s).1
unfolding suspend_subscription
suspend_subscription-IsSingle accepts tenant_id now reason performed_by s h =
    found_leaves (find_tenant tenant_id s) tenant_not_found
      (λ t. load_active tenant_id >>= λ sub.
        change_status accepts suspended suspend now reason performed_by sub)
      s h
      (λ t _.
        found_leaves (find_active_subscription tenant_id s) no_active_subscription
          (λ sub. change_status accepts suspended suspend now reason performed_by sub) s h
          (λ sub _.
            change_status-IsSingle accepts suspended suspend now reason performed_by sub s
              (close_subscription suspended now reason sub.id s (λ e. absurd (cc e)) h) h))

cancel_subscription-IsSingle :
    (accepts : SubscriptionHistory → Bool) (tenant_id now : ℕ) (reason : Option String)
    (performed_by : ℕ) (s : Tables)
    → IsSingle s
    → IsSingle (cancel_subscription accepts tenant_id now reason performed_by s).1
unfolding cancel_subscription
cancel_subscription-IsSingle accepts tenant_id now reason performed_by s h =
    found_leaves (find_tenant tenant_id s) tenant_not_found
      (λ t. load_active tenant_id >>= λ sub.
        change_status accepts cancelled cancel now reason performed_by sub)
      s h
      (λ t _.
        found_leaves (find_active_subscription tenant_id s) no_active_subscription
          (λ sub. change_status accepts cancelled cancel now reason performed_by sub) s h
          (λ sub _.
            change_status-IsSingle accepts cancelled cancel now reason performed_by sub s
              (close_subscription cancelled now reason sub.id s (λ e. absurd (cc e)) h) h))

resume_subscription-IsSingle :
    (accepts : SubscriptionHistory → Bool) (tenant_id now : ℕ) (reason : Option String)
    (performed_by : ℕ) (s : Tables)
    → IsSingle s
    → IsSingle (resume_subscription accepts tenant_id now reason performed_by s).1
unfolding resume_subscription find_latest_subscription
resume_subscription-IsSingle accepts tenant_id now reason performed_by s h =
    found_leaves (find_tenant tenant_id s) tenant_not_found (λ t. load_latest tenant_id >>= resumed)
      s h
      (λ t _.
        found_leaves (find_latest_subscription tenant_id s) no_suspended_subscription resumed s h
          (λ sub found. elim (Bool-cases (not (subscription_status_eq sub.status suspended))) [
            | inl refused ↦ rw refused h
            | inr fits ↦ rw fits (
                change_status-IsSingle accepts active resume now reason performed_by sub s
                  (wake_latest tenant_id now reason s.subscriptions {sub = sub} h.unique found
                    h.single)
                  h)
          ]))
  where
    resumed : TenantSubscription → Tenancy (Unit {0})
    resumed sub =
        throw_if (not (subscription_status_eq sub.status suspended)) no_suspended_subscription
        >> change_status accepts active resume now reason performed_by sub

-- The active row that a search finds is the latest row of its tenant.
active_latest :
    (tenant_id : ℕ) (xs : List TenantSubscription) {a : TenantSubscription}
    → OnlyLatest xs
    → find_first (is_active_of tenant_id) xs ≡ some a
    → find_first (is_subscription_of tenant_id) xs ≡ some a
unfolding find_first
active_latest tenant_id [] h e = absurd (cc e)
active_latest tenant_id (x ∷ xs) {a} h e = elim (Bool-cases (x.tenant_id == tenant_id)) [
  | inr other ↦ rw other (active_latest tenant_id xs h.1 (rw other at e))
  | inl mine ↦ elim (Bool-cases (subscription_status_eq x.status active)) [
    | inl now ↦ rw mine (rw (mine, now) at e)
    | inr idle ↦
        let later : find_first (is_active_of tenant_id) xs ≡ some a = rw (mine, idle) at e in
        let fits : is_active_of tenant_id a ≡ true =
          find_first_fits (is_active_of tenant_id) xs later in
        let behind = All-find_first (IsBehind x) (is_active_of tenant_id) xs later h.0 in
        absurd (behind (ground arith) (is_active a fits))
  ]
]
  where
    is_active : (a : TenantSubscription) → is_active_of tenant_id a ≡ true → a.status ≡ active
    is_active a fits = ground arith

-- The commands on subscriptions, with what each is called with.
pub data Command : Type 0 where
  assigning : ℕ → ℕ → ℕ → ℕ → Command
  suspending resuming cancelling : ℕ → ℕ → Option String → ℕ → Command

module _ (accepts : SubscriptionHistory → Bool) (plan_of : ℕ → Option Limits)
    (month_after : ℕ → ℕ) where
  assign_plan-IsSingle :
      (tenant_id plan_id now performed_by : ℕ) (plan : Limits) (s : Tables)
      → IsSingle s
      → IsSingle
          (assign_plan accepts plan_of month_after tenant_id plan_id now performed_by plan s).1
  unfolding deactivate_active_subscription generate_id create_subscription
  assign_plan-IsSingle tenant_id plan_id now performed_by plan s h =
      create_subscription_history-IsSingle accepts _ _ (record {
        unique = (
          All-update_many (λ y. y.id < s.next_id) (λ y. y.id ≢ s.next_id) (is_active_of tenant_id)
              (replaced now) s.subscriptions (λ y b _ e. omega (arith, b, e))
              (λ y b _ e. omega (arith, b, e)) h.fresh,
          update_many-UniqueKeys subscription_id_of (is_active_of tenant_id) (replaced now)
              s.subscriptions (λ _. refl) h.unique,
        );
        fresh = (
          omega arith,
          All-update_many (λ y. y.id < s.next_id) (λ y. y.id < s.next_id + 1)
              (is_active_of tenant_id) (replaced now) s.subscriptions (λ y b _. omega (arith, b))
              (λ y b _. omega (arith, b)) h.fresh,
        );
        single = (
          closed-IsBehind tenant_id now
              (new_subscription plan_of month_after s.next_id tenant_id plan_id now plan)
              s.subscriptions refl,
          update_many-OnlyLatest (is_active_of tenant_id) (replaced now) s.subscriptions (λ _. refl)
              (λ _ e. absurd (cc e)) h.single,
        );
      })

  assign_subscription-IsSingle :
      (tenant_id plan_id now performed_by : ℕ) (s : Tables)
      → IsSingle s
      → IsSingle
          (assign_subscription accepts plan_of month_after tenant_id plan_id now performed_by s).1
  unfolding assign_subscription
  assign_subscription-IsSingle tenant_id plan_id now performed_by s h =
      transactional_leaves IsSingle (load_tenant tenant_id >>= planned) s h (
        found_leaves (find_tenant tenant_id s) tenant_not_found planned s h (λ t _.
          found_leaves (plan_of plan_id) plan_not_found
            (assign_plan accepts plan_of month_after tenant_id plan_id now performed_by) s h
            (λ plan _. assign_plan-IsSingle tenant_id plan_id now performed_by plan s h)))
    where
      planned : Tenant → Tenancy (Unit {0})
      planned t =
          (λ s'. (found_or (plan_of plan_id) plan_not_found, s'))
          >>= assign_plan accepts plan_of month_after tenant_id plan_id now performed_by

  -- The tables after a command, whether it returned or threw.
  abbrev pub after : Command → Tables → Tables
  after (assigning tenant_id plan_id now by) s =
      (assign_subscription accepts plan_of month_after tenant_id plan_id now by s).1
  after (suspending tenant_id now reason by) s =
      (suspend_subscription accepts tenant_id now reason by s).1
  after (resuming tenant_id now reason by) s =
      (resume_subscription accepts tenant_id now reason by s).1
  after (cancelling tenant_id now reason by) s =
      (cancel_subscription accepts tenant_id now reason by s).1

  abbrev pub after_all : List Command → Tables → Tables
  after_all [] s = s
  after_all (c ∷ cs) s = after_all cs (after c s)

  after-IsSingle : (c : Command) (s : Tables) → IsSingle s → IsSingle (after c s)
  after-IsSingle (assigning tenant_id plan_id now by) s h =
      assign_subscription-IsSingle tenant_id plan_id now by s h
  after-IsSingle (suspending tenant_id now reason by) s h =
      suspend_subscription-IsSingle accepts tenant_id now reason by s h
  after-IsSingle (resuming tenant_id now reason by) s h =
      resume_subscription-IsSingle accepts tenant_id now reason by s h
  after-IsSingle (cancelling tenant_id now reason by) s h =
      cancel_subscription-IsSingle accepts tenant_id now reason by s h

  -- Subscriptions
  pub after_all-IsSingle : (cs : List Command) (s : Tables) → IsSingle s → IsSingle (after_all cs s)
  after_all-IsSingle [] s h = h
  after_all-IsSingle (c ∷ cs) s h = after_all-IsSingle cs (after c s) (after-IsSingle c s h)

  -- After any commands on subscriptions, whether they returned or threw, from tables with unique
  -- identifiers in which only the latest subscription of a tenant can be active: the active
  -- subscription that is found for a tenant is its latest one.
  pub active_subscription_latest :
      (cs : List Command) (s : Tables) (tenant_id : ℕ) {a : TenantSubscription}
      → IsSingle s
      → find_active_subscription tenant_id (after_all cs s) ≡ some a
      → find_latest_subscription tenant_id (after_all cs s) ≡ some a
  unfolding find_active_subscription find_latest_subscription
  active_subscription_latest cs s tenant_id h found =
      active_latest tenant_id (after_all cs s).subscriptions (after_all-IsSingle cs s h).single
        found
