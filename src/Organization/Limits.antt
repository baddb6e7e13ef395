-- ===== src/Organization/Limits.antt =====
-- `create` of organization-unit.command.service.ts keeps the numbers of branches and warehouses of a
-- tenant within what its subscription allows.
use multi_tenant_shipping_ma.Shared.{
  ℕ, ◌≤◌, ◌<◌, ◌≡◌, refl, sym, ap, subst, ◌∙◌, false, not, Option, none, some, List, ◌∷◌, ◌==◌, leb,
  Bool-cases, inl, inr, arith,
}
use multi_tenant_shipping_ma.Shared.Effects.{ok, ◌>>=◌, ◌>>◌, pure, throw_if, found_or}
use multi_tenant_shipping_ma.Shared.Ensures.{bind_leaves, read_leaves, transactional_leaves}
use multi_tenant_shipping_ma.Shared.Table.{find_first, count_if, has_key}
use multi_tenant_shipping_ma.Organization.Store.{
  OrgType, region, hub, warehouse, branch, locker, OrganizationUnit, Coverage,
  CreateOrganizationUnit, Tables, Organizing, unit_id_of, is_of_type, count_by_type, find_unit,
  create_mappings, repeats, insert_unit, create_unit_row, emit, unit_not_found,
}
use multi_tenant_shipping_ma.Organization.Commands.{
  Surroundings, check_limit, check_locations, check_parent, check_zone, insert_checked, create,
}

module _ (e : Surroundings) where
  -- No tenant has more branches or warehouses than it may have.
  pub record IsWithin (units : List OrganizationUnit) : Type 0 where
    pub branches :
        (t most : ℕ) → e.max_branches t ≡ some most → count_if (is_of_type t branch) units ≤ most
    pub warehouses :
        (t most : ℕ)
        → e.max_warehouses t ≡ some most
        → count_if (is_of_type t warehouse) units ≤ most

  -- There is room for one more unit of a kind.
  abbrev HasRoom : ℕ → OrgType → List OrganizationUnit → Type 0
  HasRoom t branch units =
      (most : ℕ) → e.max_branches t ≡ some most → count_if (is_of_type t branch) units < most
  HasRoom t warehouse units =
      (most : ℕ) → e.max_warehouses t ≡ some most → count_if (is_of_type t warehouse) units < most
  HasRoom t _ units = Unit

  uncounted :
      (t : ℕ) (kind : OrgType) (u : OrganizationUnit) (units : List OrganizationUnit) (most : ℕ)
      → is_of_type t kind u ≡ false
      → count_if (is_of_type t kind) units ≤ most
      → count_if (is_of_type t kind) (u ∷ units) ≤ most
  unfolding count_if
  uncounted t kind u units most h below = rw h (omega (arith, below))

  counted :
      (t : ℕ) (kind : OrgType) (u : OrganizationUnit) (units : List OrganizationUnit) (most : ℕ)
      → count_if (is_of_type t kind) units < most
      → count_if (is_of_type t kind) (u ∷ units) ≤ most
  unfolding count_if
  counted t kind u units most below = elim (Bool-cases (is_of_type t kind u)) [
    | inl h ↦ rw h (omega (arith, below))
    | inr h ↦ rw h (omega (arith, below))
  ]

  room_for :
      (t : ℕ) (kind : OrgType) (u : OrganizationUnit) (units : List OrganizationUnit)
      → u.tenant_id ≡ t
      → u.org_type ≡ kind
      → HasRoom u.tenant_id u.org_type units
      → HasRoom t kind units
  room_for t kind u units at is room =
      subst (λ i. HasRoom i kind units) at (subst (λ k. HasRoom u.tenant_id k units) is room)

  -- One more unit where there is room.
  one_more :
      (u : OrganizationUnit) (units : List OrganizationUnit)
      → HasRoom u.tenant_id u.org_type units
      → IsWithin units
      → IsWithin (u ∷ units)
  one_more u units room h = record {
    branches = λ t most limit. elim (Bool-cases (is_of_type t branch u)) [
      | inr miss ↦ uncounted t branch u units most miss (h.branches t most limit)
      | inl hit ↦
          counted t branch u units most
            (room_for t branch u units (ground arith) (ground arith) room most limit)
    ];
    warehouses = λ t most limit. elim (Bool-cases (is_of_type t warehouse u)) [
      | inr miss ↦ uncounted t warehouse u units most miss (h.warehouses t most limit)
      | inl hit ↦
          counted t warehouse u units most
            (room_for t warehouse u units (ground arith) (ground arith) room most limit)
    ];
  }

  abbrev Fits : Tables → Type 0
  Fits s = IsWithin s.units

  find_unit_reads : (id t : ℕ) (s : Tables) → (find_unit id t s).1 ≡ s
  unfolding find_unit
  find_unit_reads id t s =
      bind_leaves (λ s'. s' ≡ s)
        (λ r. (found_or (find_first (has_key unit_id_of id) r.units) unit_not_found, r)) shown s
        refl
        (λ u s' h.
          let same : s' ≡ s = sym (ap (λ r. r.1) h) in
          bind_leaves (λ r. r ≡ s) (throw_if (not (u.tenant_id == t)) unit_not_found) (λ _. pure u)
            s' same (λ _ s'' h'. sym (ap (λ r. r.1) h') ∙ same))
    where
      shown : OrganizationUnit → Organizing OrganizationUnit
      shown u = throw_if (not (u.tenant_id == t)) unit_not_found >> pure u

  check_parent_reads : (t : ℕ) (o : Option ℕ) (s : Tables) → (check_parent e t o s).1 ≡ s
  check_parent_reads t none s = refl
  check_parent_reads t (some id) s =
      bind_leaves (λ s'. s' ≡ s) (find_unit id t) (λ u. pure tt) s (find_unit_reads id t s)
        (λ u s' h. sym (ap (λ r. r.1) h) ∙ find_unit_reads id t s)

  check_zone_reads : (t : ℕ) (o : Option ℕ) (s : Tables) → (check_zone e t o s).1 ≡ s
  check_zone_reads t none s = refl
  check_zone_reads t (some z) s = refl

  create_mappings_units :
      (t id : ℕ) (cs : List Coverage) (s : Tables) → (create_mappings t id cs s).1.units ≡ s.units
  unfolding create_mappings
  create_mappings_units t id cs s = elim (Bool-cases (repeats id cs s.mappings)) [
    | inl h ↦ rw h refl
    | inr h ↦ rw h refl
  ]

  create_unit_row-Fits :
      (t : ℕ) (dto : CreateOrganizationUnit) (s : Tables)
      → HasRoom t dto.org_type s.units
      → Fits s
      → Fits (create_unit_row t dto s).1
  unfolding create_unit_row insert_unit
  create_unit_row-Fits t dto s room h =
      bind_leaves Fits (create_mappings t s.next_id dto.coverage_locations) (λ _. pure s.next_id)
        (insert_unit t dto s).1 kept (λ _ s' e'. subst Fits (ap (λ r. r.1) e') kept)
    where
      kept : Fits (create_mappings t s.next_id dto.coverage_locations (insert_unit t dto s).1).1
      kept =
          subst IsWithin
            (sym (create_mappings_units t s.next_id dto.coverage_locations (insert_unit t dto s).1))
            (one_more _ s.units room h)

  insert_checked-Fits :
      (t : ℕ) (dto : CreateOrganizationUnit) (s : Tables)
      → HasRoom t dto.org_type s.units
      → Fits s
      → Fits (insert_checked e t dto s).1
  unfolding emit
  insert_checked-Fits t dto s room h =
      read_leaves Fits (check_locations e dto.coverage_locations) (λ _. parented) s refl h
        (λ _ _.
          read_leaves Fits (check_parent e t dto.parent_id) (λ _. zoned) s
            (check_parent_reads t dto.parent_id s) h
            (λ _ _.
              read_leaves Fits (check_zone e t dto.zone_id) (λ _. create_unit_row t dto >>= told) s
                (check_zone_reads t dto.zone_id s) h
                (λ _ _.
                  bind_leaves Fits (create_unit_row t dto) told s kept
                    (λ id s' h'. subst Fits (ap (λ r. r.1) h') kept))))
    where
      told : ℕ → Organizing ℕ
      told id =
          emit (record { tenant_id = t; old_zone_id = none; new_zone_id = dto.zone_id }) >> pure id

      zoned : Organizing ℕ
      zoned = check_zone e t dto.zone_id >> (create_unit_row t dto >>= told)

      parented : Organizing ℕ
      parented = check_parent e t dto.parent_id >> zoned

      kept : Fits (create_unit_row t dto s).1
      kept = create_unit_row-Fits t dto s room h

  check_limit-HasRoom :
      (t : ℕ) (kind : OrgType) (s : Tables) {a : Unit {0}}
      → check_limit e t kind s ≡ (ok a, s)
      → HasRoom t kind s.units
  unfolding check_limit count_by_type
  check_limit-HasRoom t branch s h = λ most limit.
      elim (Bool-cases (leb most (count_if (is_of_type t branch) s.units))) [
        | inl y ↦ absurd (cc (rw (limit, y) at h))
        | inr n ↦ ground (arith, n)
      ]
  check_limit-HasRoom t warehouse s h = λ most limit.
      elim (Bool-cases (leb most (count_if (is_of_type t warehouse) s.units))) [
        | inl y ↦ absurd (cc (rw (limit, y) at h))
        | inr n ↦ ground (arith, n)
      ]
  check_limit-HasRoom t region s h = tt
  check_limit-HasRoom t hub s h = tt
  check_limit-HasRoom t locker s h = tt

  check_limit_reads : (t : ℕ) (kind : OrgType) (s : Tables) → (check_limit e t kind s).1 ≡ s
  unfolding check_limit
  check_limit_reads t branch s = refl
  check_limit_reads t warehouse s = refl
  check_limit_reads t region s = refl
  check_limit_reads t hub s = refl
  check_limit_reads t locker s = refl

  -- If no tenant has more branches or warehouses than it may have, that stays so when a unit is
  -- created, whether create returns or throws; a tenant without a limit may have any number.
  pub create-IsWithin :
      (t : ℕ) (dto : CreateOrganizationUnit) (s : Tables)
      → IsWithin s.units
      → IsWithin (create e t dto s).1.units
  unfolding create
  create-IsWithin t dto s h =
      transactional_leaves Fits (check_limit e t dto.org_type >> insert_checked e t dto) s h (
        read_leaves Fits (check_limit e t dto.org_type) (λ _. insert_checked e t dto) s
          (check_limit_reads t dto.org_type s) h
          (λ _ passed. insert_checked-Fits t dto s (check_limit-HasRoom t dto.org_type s passed) h))
