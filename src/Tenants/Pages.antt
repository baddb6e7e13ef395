-- ===== src/Tenants/Pages.antt =====
-- A client that reads the list of tenants page after page.
use multi_tenant_shipping_ma.Shared.{
  ℕ, zero, suc, ◌+◌, ◌-◌, ◌*◌, ◌≤◌, ◌≡◌, sym, ap, ◌∙◌, Bool, String, List, [], ◌++◌, arith, length,
  subst,
}
use multi_tenant_shipping_ma.Shared.Table.{select, UniqueKeys}
use multi_tenant_shipping_ma.Tenants.Order.{IsDescending, IsOrderBy, IsOrderBy-unique, perm-length}
use mathlib.Core.List.{Permᴰ}
use multi_tenant_shipping_ma.Tenants.Store.{Tenant, Tables}
use multi_tenant_shipping_ma.Tenants.Listing.{
  TenantQueryCriteria, new_pagination, matches, find_many, limited, offset, limited_add,
  limited_all, length-select,
}

-- The criteria for one page.
abbrev pub for_page : TenantQueryCriteria → ℕ → ℕ → TenantQueryCriteria
for_page c page limit = record {
  pagination = new_pagination page limit;
  search = c.search;
  status = c.status;
  tenant_id = c.tenant_id;
}

abbrev pub created_at_of : Tenant → ℕ
created_at_of t = t.created_at

-- The tenants that match, in the order that the database gives them.
abbrev pub ordered :
    (String → String → Bool)
    → (List Tenant → List Tenant)
    → TenantQueryCriteria
    → Tables
    → List Tenant
ordered ilike order c s = order (select (matches ilike c) s.tenants)

module _ (ilike : String → String → Bool) (orders : ℕ → List Tenant → List Tenant)
    (c : TenantQueryCriteria) (limit : ℕ) (s : Tables) where
  -- The first pages, one after the other. Each is a query of its own, for which the database may
  -- order the rows anew.
  unfoldable pub read_pages : ℕ → List Tenant
  read_pages zero = []
  read_pages (suc n) =
      read_pages n ++ (find_many ilike (orders (suc n)) (for_page c (suc n) limit) s).0

  module _ (sorts : (page : ℕ) → IsOrderBy created_at_of (orders page))
      (apart : UniqueKeys created_at_of (select (matches ilike c) s.tenants)) where
    read_pages-limited : (n : ℕ) → read_pages n ≡ limited (n * limit) (ordered ilike (orders 1) c s)
    unfolding read_pages find_many limited
    read_pages-limited zero =
        let nothing : 0 ≡ 0 * limit = omega arith in
        ap (λ m. limited m (ordered ilike (orders 1) c s)) nothing
    read_pages-limited (suc n) =
        let rows = ordered ilike (orders 1) c s in
        let skipped : suc n - 1 ≡ n = omega arith in
        let next : n * limit + limit ≡ suc n * limit = ground arith in
        let again : ordered ilike (orders (suc n)) c s ≡ rows =
          IsOrderBy-unique created_at_of (orders (suc n)) (orders 1)
            (select (matches ilike c) s.tenants) (sorts (suc n)) (sorts 1) apart in
        ap (λ xs. read_pages n ++ limited limit (offset ((suc n - 1) * limit) xs)) again
        ∙ ap (λ m. read_pages n ++ limited limit (offset (m * limit) rows)) skipped
        ∙ ap (λ xs. xs ++ limited limit (offset (n * limit) rows)) (read_pages-limited n)
        ∙ sym (limited_add (n * limit) limit rows)
        ∙ ap (λ m. limited m rows) next

    -- When no two tenants that match the criteria were created at the same time, and each query is
    -- answered with the matching rows ordered by that time, newest first, then reading pages of a
    -- fixed size from the first on, until as many rows could be read as the total that a page
    -- reports, gives a rearrangement of the matching tenants, each once, newest first.
    pub read_pages_complete :
        (n : ℕ)
        → (find_many ilike (orders 1) (for_page c 1 limit) s).1 ≤ n * limit
        → Permᴰ (read_pages n) (select (matches ilike c) s.tenants)
          × IsDescending created_at_of (read_pages n)
    unfolding find_many
    read_pages_complete n enough =
        let rows = select (matches ilike c) s.tenants in
        let all = ordered ilike (orders 1) c s in
        let as_many : length all ≡ length rows = perm-length ((sorts 1).keeps rows) in
        let whole : read_pages n ≡ all =
          read_pages-limited n
          ∙ limited_all (n * limit) all
              (omega (arith, enough, as_many, length-select (matches ilike c) s.tenants)) in
        (
          subst (λ l. Permᴰ l rows) (sym whole) ((sorts 1).keeps rows),
          subst (IsDescending created_at_of) (sym whole) ((sorts 1).sorts rows),
        )
