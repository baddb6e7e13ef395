-- ===== src/Tenants/Rows.antt =====
-- The rows of the subscriptions of a tenant: the invariant that only the latest can be active, and the
-- writes that keep it.
use multi_tenant_shipping_ma.Shared.{
  ℕ, ◌<◌, ◌≡◌, ◌≢◌, refl, sym, ap, subst, ◌∙◌, Bool, false, Option, some, String, List, [], ◌∷◌,
  ◌==◌, ==_ne, ==_iff, ==_refl, All, All-map, arith, Bool-cases, inl, inr,
}
use multi_tenant_shipping_ma.Shared.Ensures.{bind_leaves}
use multi_tenant_shipping_ma.Shared.Table.{
  find_first, update_many, All-update_many, All-update_keyed, find_first-by_key,
  update_many-UniqueKeys, UniqueKeys, has_key, All-find_first, find_first_fits,
}
use multi_tenant_shipping_ma.Tenants.Store.{
  SubscriptionStatus, active, cancelled, suspended, TenantSubscription, HistoryAction,
  SubscriptionHistory, Tables, subscription_id_of, is_active_of, is_subscription_of, replaced,
  set_subscription, create_subscription_history, update_subscription_status,
}
use multi_tenant_shipping_ma.Tenants.Commands.{change_status, record_of}

-- A row of the same tenant as `x` is not active.
abbrev pub IsBehind : TenantSubscription → TenantSubscription → Type 0
IsBehind x y = y.tenant_id ≡ x.tenant_id → y.status ≢ active

abbrev pub OnlyLatest : List TenantSubscription → Type 0
OnlyLatest [] = Unit
OnlyLatest (x ∷ xs) = All (IsBehind x) xs × OnlyLatest xs

pub record IsSingle (s : Tables) : Type 0 where
  pub unique : UniqueKeys subscription_id_of s.subscriptions
  pub fresh : All (λ x. x.id < s.next_id) s.subscriptions
  pub single : OnlyLatest s.subscriptions

-- An update that makes nothing active.
pub update_many-OnlyLatest :
    (test : TenantSubscription → Bool) (f : TenantSubscription → TenantSubscription)
    (xs : List TenantSubscription)
    → ((x : TenantSubscription) → (f x).tenant_id ≡ x.tenant_id)
    → ((x : TenantSubscription) → (f x).status ≢ active)
    → OnlyLatest xs
    → OnlyLatest (update_many test f xs)
unfolding update_many
update_many-OnlyLatest test f [] same other h = tt
update_many-OnlyLatest test f (x ∷ xs) same other h =
    let rest = update_many-OnlyLatest test f xs same other h.1 in
    let behind =
      All-update_many (IsBehind x) (IsBehind x) test f xs (λ y _ _ _. other y) (λ y b _. b) h.0 in
    elim (Bool-cases (test x)) [
      | inr miss ↦ rw miss (behind, rest)
      | inl hit ↦ rw hit (
        All-map (IsBehind x) (IsBehind (f x)) (update_many test f xs) (λ y b at. b (at ∙ same x))
            behind,
        rest,
      )
    ]

update_many-apart :
    (k : ℕ) (f : TenantSubscription → TenantSubscription) (xs : List TenantSubscription)
    → All (λ y. y.id ≢ k) xs
    → update_many (has_key subscription_id_of k) f xs ≡ xs
unfolding update_many
update_many-apart k f [] h = refl
update_many-apart k f (y ∷ ys) h =
    rw (==_ne y.id k h.0) (ap (λ l. y ∷ l) (update_many-apart k f ys h.1))

-- Making the latest row of a tenant active.
pub wake_latest :
    (tenant_id now : ℕ) (reason : Option String) (xs : List TenantSubscription)
    {sub : TenantSubscription}
    → UniqueKeys subscription_id_of xs
    → find_first (is_subscription_of tenant_id) xs ≡ some sub
    → OnlyLatest xs
    → OnlyLatest
        (update_many (has_key subscription_id_of sub.id) (set_subscription active now reason) xs)
unfolding find_first update_many
wake_latest tenant_id now reason [] u e h = tt
wake_latest tenant_id now reason (x ∷ xs) {sub} u e h =
    elim (Bool-cases (x.tenant_id == tenant_id)) [
      | inl mine ↦
          let same : x ≡ sub = ground arith in
          subst
            (λ (y : TenantSubscription).
              OnlyLatest (update_many (has_key subscription_id_of y.id) wake (x ∷ xs)))
            same (rw (==_refl x.id, update_many-apart x.id wake xs u.0) (h.0, h.1))
      | inr other ↦
          let later = rw other at e in
          let apart : x.id ≢ sub.id = λ i.
            All-find_first (λ (y : TenantSubscription). y.id ≢ x.id) (is_subscription_of tenant_id)
              xs later u.0 (sym i) in
          let own : sub.tenant_id ≡ tenant_id =
            (==_iff sub.tenant_id tenant_id).0 (find_first_fits _ xs later) in
          let elsewhere : sub.tenant_id ≢ x.tenant_id = λ at. ground (arith, own, at, other) in
          rw (==_ne x.id sub.id apart) (
            All-update_keyed subscription_id_of (IsBehind x) (IsBehind x) sub.id
                (has_key subscription_id_of sub.id) wake xs u.1
                (find_first-by_key subscription_id_of (is_subscription_of tenant_id) xs u.1 later)
                (λ y ne. ==_ne y.id sub.id ne) (λ y _ b. b)
                (λ _. rw (==_refl sub.id) (λ at. absurd (elsewhere at))) h.0,
            wake_latest tenant_id now reason xs {sub = sub} u.1 later h.1,
          )
    ]
  where
    wake : TenantSubscription → TenantSubscription
    wake = set_subscription active now reason

-- An update of the table by status alone, which the invariant's parts on identifiers do not see.
set_same :
    (status : SubscriptionStatus) (now : ℕ) (reason : Option String) (x : TenantSubscription)
    → ((set_subscription status now reason x).id ≡ x.id)
      × ((set_subscription status now reason x).tenant_id ≡ x.tenant_id)
      × ((set_subscription status now reason x).status ≡ status)
set_same active now reason x = (refl, refl, refl)
set_same SubscriptionStatus.expired now reason x = (refl, refl, refl)
set_same cancelled now reason x = (refl, refl, refl)
set_same suspended now reason x = (refl, refl, refl)
set_same SubscriptionStatus.trial now reason x = (refl, refl, refl)

updated-IsSingle :
    (test : TenantSubscription → Bool) (f : TenantSubscription → TenantSubscription) (s : Tables)
    → ((x : TenantSubscription) → (f x).id ≡ x.id)
    → OnlyLatest (update_many test f s.subscriptions)
    → IsSingle s
    → IsSingle (record s { subscriptions = update_many test f s.subscriptions })
updated-IsSingle test f s same only h = record {
  unique = update_many-UniqueKeys subscription_id_of test f s.subscriptions same h.unique;
  fresh =
      All-update_many (λ x. x.id < s.next_id) (λ x. x.id < s.next_id) test f s.subscriptions
        (λ x b _. omega (arith, b, same x)) (λ x b _. b) h.fresh;
  single = only;
}

pub create_subscription_history-IsSingle :
    (accepts : SubscriptionHistory → Bool) (h : SubscriptionHistory) (s : Tables)
    → IsSingle s
    → IsSingle (create_subscription_history accepts h s).1
unfolding create_subscription_history
create_subscription_history-IsSingle accepts h s k = elim (Bool-cases (accepts h)) [
  | inl y ↦ rw y (record { unique = k.unique; fresh = k.fresh; single = k.single })
  | inr n ↦ rw n k
]

pub change_status-IsSingle :
    (accepts : SubscriptionHistory → Bool) (status : SubscriptionStatus) (action : HistoryAction)
    (now : ℕ) (reason : Option String) (performed_by : ℕ) (sub : TenantSubscription) (s : Tables)
    → OnlyLatest (
        update_many
          (has_key subscription_id_of sub.id)
          (set_subscription status now reason)
          s.subscriptions)
    → IsSingle s
    → IsSingle (change_status accepts status action now reason performed_by sub s).1
unfolding update_subscription_status
change_status-IsSingle accepts status action now reason performed_by sub s only h =
    let logged = record_of sub action now reason performed_by in
    bind_leaves IsSingle (update_subscription_status sub.id status now reason)
      (λ _. create_subscription_history accepts logged) s written
      (λ _ s' e.
        create_subscription_history-IsSingle accepts logged s'
          (subst IsSingle (ap (λ p. p.1) e) written))
  where
    written : IsSingle (update_subscription_status sub.id status now reason s).1
    written =
        updated-IsSingle (has_key subscription_id_of sub.id) (set_subscription status now reason) s
          (λ x. (set_same status now reason x).0) only h

-- The status that is written is not the active one.
pub close_subscription :
    (status : SubscriptionStatus) (now : ℕ) (reason : Option String) (id : ℕ) (s : Tables)
    → status ≢ active
    → IsSingle s
    → OnlyLatest (
        update_many
          (has_key subscription_id_of id)
          (set_subscription status now reason)
          s.subscriptions)
close_subscription status now reason id s other h =
    update_many-OnlyLatest (has_key subscription_id_of id) (set_subscription status now reason)
      s.subscriptions (λ x. (set_same status now reason x).1)
      (λ x e. other (sym (set_same status now reason x).2 ∙ e)) h.single

-- The rows that are active for a tenant are closed, whatever their number.
pub closed-IsBehind :
    (tenant_id now : ℕ) (x : TenantSubscription) (xs : List TenantSubscription)
    → x.tenant_id ≡ tenant_id
    → All (IsBehind x) (update_many (is_active_of tenant_id) (replaced now) xs)
unfolding update_many
closed-IsBehind tenant_id now x [] at = tt
closed-IsBehind tenant_id now x (y ∷ ys) at =
    let rest = closed-IsBehind tenant_id now x ys at in
    elim (Bool-cases (is_active_of tenant_id y)) [
      | inl hit ↦ rw hit ((λ _ e. absurd (cc e)), rest)
      | inr miss ↦ rw miss ((λ same e. not_missed y same e miss), rest)
    ]
  where
    not_missed :
        (y : TenantSubscription)
        → y.tenant_id ≡ x.tenant_id
        → y.status ≡ active
        → is_active_of tenant_id y ≢ false
    not_missed y same e miss = ground (arith, same ∙ at)
