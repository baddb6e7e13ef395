-- ===== src/Tenants/Listing.antt =====
-- findMany of tenant.query.repository.ts with the Pagination that the query asks for
-- (backend/src/common/pagination/offset). `ilike` is the comparison of the database.
use multi_tenant_shipping_ma.Shared.{
  ℕ, zero, suc, ◌+◌, ◌-◌, ◌*◌, ◌≤◌, ◌≡◌, refl, ap, ◌∙◌, Bool, true, false, not, ◌&&◌, Option, none,
  some, String, List, [], ◌∷◌, ◌++◌, length, ◌==◌, arith,
}
use native.Mathlib.Numerals.{unary_clauses}
use multi_tenant_shipping_ma.Shared.Table.{count_if, select}
use multi_tenant_shipping_ma.Tenants.Store.{Tenant, Tables}

pub record Pagination : Type 0 where
  pub page : ℕ
  pub limit : ℕ
  pub skip : ℕ
  pub take : ℕ

-- Pages are counted from 1, which the query is validated for.
abbrev pub new_pagination : ℕ → ℕ → Pagination
new_pagination page limit = record {
  page = page;
  limit = limit;
  skip = (page - 1) * limit;
  take = limit;
}

pub data TenantSearchField : Type 0 where
  name tax_number : TenantSearchField

pub data TenantStatus : Type 0 where
  active suspended archived : TenantStatus

pub record TenantQueryCriteria : Type 0 where
  pub pagination : Pagination
  pub search : Option (String × TenantSearchField)
  pub status : Option TenantStatus
  pub tenant_id : Option ℕ

module _ {A : Type 0} where
  -- OFFSET of a query.
  unfoldable pub offset : ℕ → List A → List A
  offset zero xs = xs
  offset (suc n) [] = []
  offset (suc n) (x ∷ xs) = offset n xs

  -- LIMIT of a query.
  unfoldable pub limited : ℕ → List A → List A
  limited zero xs = []
  limited (suc n) [] = []
  limited (suc n) (x ∷ xs) = x ∷ limited n xs

  pub limited_add :
      (m n : ℕ) (xs : List A) → limited (m + n) xs ≡ limited m xs ++ limited n (offset m xs)
  unfolding limited offset
  limited_add zero n xs =
      let none_more : 0 + n ≡ n = omega arith in ap (λ m. limited m xs) none_more
  limited_add (suc m) zero [] = simp unary_clauses refl
  limited_add (suc m) (suc n) [] = simp unary_clauses refl
  limited_add (suc m) n (x ∷ xs) =
      let one_more : suc m + n ≡ suc (m + n) = omega arith in
      ap (λ k. limited k (x ∷ xs)) one_more ∙ ap (λ ys. x ∷ ys) (limited_add m n xs)

  pub limited_all : (n : ℕ) (xs : List A) → length xs ≤ n → limited n xs ≡ xs
  unfolding limited
  limited_all zero [] h = refl
  limited_all zero (x ∷ xs) h = absurd (omega (arith, h))
  limited_all (suc n) [] h = refl
  limited_all (suc n) (x ∷ xs) h = ap (λ ys. x ∷ ys) (limited_all n xs (omega (arith, h)))

  pub length-select : (test : A → Bool) (xs : List A) → length (select test xs) ≡ count_if test xs
  unfolding select count_if
  length-select test [] = refl
  length-select test (x ∷ xs) = ground (arith, length-select test xs)

-- A column that may be null is not `ilike` anything.
abbrev pub search_matches :
    (String → String → Bool) → Option (String × TenantSearchField) → Tenant → Bool
search_matches ilike none t = true
search_matches ilike (some (keyword, name)) t = ilike (t.name) keyword
search_matches ilike (some (keyword, tax_number)) t = elim (t.tax_number) [
  | none ↦ false
  | some n ↦ ilike n keyword
]

abbrev pub status_matches : Option TenantStatus → Tenant → Bool
status_matches none t = true
status_matches (some active) t = t.is_active
status_matches (some suspended) t = not (t.is_active)
status_matches (some archived) t = not (t.is_active)

abbrev pub id_matches : Option ℕ → Tenant → Bool
id_matches none t = true
id_matches (some id) t = t.id == id

abbrev pub matches : (String → String → Bool) → TenantQueryCriteria → Tenant → Bool
matches ilike c t =
    search_matches ilike (c.search) t && status_matches (c.status) t && id_matches (c.tenant_id) t

-- One page of the tenants that match, and the number of all that match. `order` is what the
-- database does for ORDER BY `created_at` DESC, which leaves rows of the same time in any order.
unfoldable pub find_many :
    (String → String → Bool)
    → (List Tenant → List Tenant)
    → TenantQueryCriteria
    → Tables
    → List Tenant × ℕ
find_many ilike order c s = (
  limited c.pagination.take (offset c.pagination.skip (order (select (matches ilike c) s.tenants))),
  count_if (matches ilike c) s.tenants,
)
