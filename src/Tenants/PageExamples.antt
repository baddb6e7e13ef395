-- ===== src/Tenants/PageExamples.antt =====
-- A list of tenants read page after page.
use multi_tenant_shipping_ma.Shared.{
  ℕ, ◌*◌, ◌≤◌, Bool, true, false, none, some, String, [], ◌∷◌, List, arith, All, All-map, leb,
  if◌then◌else◌, Bool-cases, inl, inr, refl,
}
use multi_tenant_shipping_ma.Shared.Table.{count_if, select, UniqueKeys}
use multi_tenant_shipping_ma.Tenants.Store.{Tenant, Tables}
use multi_tenant_shipping_ma.Tenants.Listing.{
  TenantStatus, TenantQueryCriteria, new_pagination, find_many, matches,
}
use multi_tenant_shipping_ma.Tenants.Pages.{
  for_page, created_at_of, read_pages, read_pages_complete,
}
use multi_tenant_shipping_ma.Tenants.Order.{IsDescending, IsOrderBy}
use mathlib.Core.List.{Permᴰ}
use mathlib.Core.List.Permᴰ

abbrev tenant_of : ℕ → Bool → Tenant
tenant_of id is_active = record {
  id = id;
  name = "Carrier";
  tax_number = none;
  email = none;
  is_active = is_active;
  created_at = id;
  suspended_at = none;
  suspended_reason = none;
}

abbrev carriers : Tables
carriers = record {
  tenants = tenant_of 2 true ∷ tenant_of 3 false ∷ tenant_of 4 true ∷ tenant_of 1 true ∷ [];
  subscriptions = [];
  history = [];
  next_id = 5;
}

abbrev ilike : String → String → Bool
ilike text pattern = true

abbrev active_ones : TenantQueryCriteria
active_ones = record {
  pagination = new_pagination 1 2;
  search = none;
  status = some TenantStatus.active;
  tenant_id = none;
}

-- Insertion by the time of creation, newest first.
insert : Tenant → List Tenant → List Tenant
insert t [] = t ∷ []
insert t (x ∷ xs) =
    let rest = insert t xs in if leb x.created_at t.created_at then t ∷ x ∷ xs else x ∷ rest

sort : List Tenant → List Tenant
sort [] = []
sort (x ∷ xs) = insert x (sort xs)

insert-perm : (t : Tenant) (xs : List Tenant) → Permᴰ (insert t xs) (t ∷ xs)
unfolding insert
insert-perm t [] = Permᴰ.refl (t ∷ [])
insert-perm t (x ∷ xs) = elim (Bool-cases (leb x.created_at t.created_at)) [
  | inl y ↦ rw y (Permᴰ.refl (t ∷ x ∷ xs))
  | inr n ↦ rw n (Permᴰ.trans (Permᴰ.cons refl (insert-perm t xs)) (Permᴰ.swap refl refl))
]

sort-perm : (xs : List Tenant) → Permᴰ (sort xs) xs
unfolding sort
sort-perm [] = Permᴰ.nil
sort-perm (x ∷ xs) = Permᴰ.trans (insert-perm x (sort xs)) (Permᴰ.cons refl (sort-perm xs))

insert-below :
    (k : ℕ) (t : Tenant) (xs : List Tenant)
    → t.created_at ≤ k
    → All (λ y. y.created_at ≤ k) xs
    → All (λ y. y.created_at ≤ k) (insert t xs)
unfolding insert
insert-below k t [] b h = (b, tt)
insert-below k t (x ∷ xs) b h = elim (Bool-cases (leb x.created_at t.created_at)) [
  | inl y ↦ rw y (b, h)
  | inr n ↦ rw n (h.0, insert-below k t xs b h.1)
]

insert-IsDescending :
    (t : Tenant) (xs : List Tenant)
    → IsDescending created_at_of xs
    → IsDescending created_at_of (insert t xs)
unfolding insert
insert-IsDescending t [] d = (tt, tt)
insert-IsDescending t (x ∷ xs) d = elim (Bool-cases (leb x.created_at t.created_at)) [
  | inl y ↦
      let at : x.created_at ≤ t.created_at = ground arith in
      rw y (
        (
          at,
          All-map (λ z. z.created_at ≤ x.created_at) (λ z. z.created_at ≤ t.created_at) xs
              (λ z b. omega (arith, b, at)) d.0,
        ),
        d,
      )
  | inr n ↦ rw n (insert-below x.created_at t xs (ground arith) d.0, insert-IsDescending t xs d.1)
]

sort-IsDescending : (xs : List Tenant) → IsDescending created_at_of (sort xs)
unfolding sort
sort-IsDescending [] = tt
sort-IsDescending (x ∷ xs) = insert-IsDescending x (sort xs) (sort-IsDescending xs)

sort-IsOrderBy : IsOrderBy created_at_of sort
sort-IsOrderBy = record { keeps = sort-perm; sorts = sort-IsDescending }

carriers_apart : UniqueKeys created_at_of (select (matches ilike active_ones) carriers.tenants)
unfolding select
carriers_apart = (
  ((λ e. omega (arith, e)), ((λ e. omega (arith, e)), tt)),
  (((λ e. omega (arith, e)), tt), (tt, tt)),
)

two_pages_enough : (find_many ilike sort (for_page active_ones 1 2) carriers).1 ≤ 2 * 2
unfolding find_many count_if
two_pages_enough = omega arith

read_pages_complete_example :
    Permᴰ
      (read_pages ilike (λ _. sort) active_ones 2 carriers 2)
      (select (matches ilike active_ones) carriers.tenants)
    × IsDescending created_at_of (read_pages ilike (λ _. sort) active_ones 2 carriers 2)
read_pages_complete_example =
    read_pages_complete ilike (λ _. sort) active_ones 2 carriers (λ _. sort-IsOrderBy)
      carriers_apart 2 two_pages_enough
