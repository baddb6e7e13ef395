-- ===== src/Organization/Commands.antt =====
-- organization-unit.command.service.ts. The limits of a tenant, the zones and the locations come from
-- other modules; a limit of -1 is none.
use multi_tenant_shipping_ma.Shared.{
  ℕ, Bool, false, not, Option, none, some, List, [], ◌∷◌, ◌==◌, leb, every,
}
use multi_tenant_shipping_ma.Shared.Effects.{◌>>=◌, ◌>>◌, pure, gets, throw_if, transactional}
use multi_tenant_shipping_ma.Organization.Store.{
  OrgType, region, hub, warehouse, branch, locker, OrganizationUnit, Coverage,
  CreateOrganizationUnit, UpdateOrganizationUnit, too_many_branches, too_many_warehouses,
  unknown_locations, own_parent, zone_not_found, Organizing, count_by_type, find_unit,
  create_unit_row, update_unit_row, add_location_rows, emit,
}

pub record Surroundings : Type 0 where
  pub max_branches : ℕ → Option ℕ
  pub max_warehouses : ℕ → Option ℕ
  pub location_exists : ℕ → Bool
  -- Whether the tenant has the zone.
  pub has_zone : ℕ → ℕ → Bool

abbrev pub is_full : Option ℕ → ℕ → Bool
is_full none count = false
is_full (some most) count = leb most count

module _ (e : Surroundings) where
  unfoldable pub check_limit : ℕ → OrgType → Organizing (Unit {0})
  unfolding count_by_type
  check_limit tenant_id branch = gets (count_by_type tenant_id branch) >>= λ count.
      throw_if (is_full (e.max_branches tenant_id) count) too_many_branches
  check_limit tenant_id warehouse = gets (count_by_type tenant_id warehouse) >>= λ count.
      throw_if (is_full (e.max_warehouses tenant_id) count) too_many_warehouses
  check_limit tenant_id region = pure tt
  check_limit tenant_id hub = pure tt
  check_limit tenant_id locker = pure tt

  abbrev pub check_locations : List Coverage → Organizing (Unit {0})
  check_locations cs =
      throw_if (not (every (λ (c : Coverage). e.location_exists c.global_location_id) cs))
        unknown_locations

  abbrev pub check_parent : ℕ → Option ℕ → Organizing (Unit {0})
  check_parent tenant_id none = pure tt
  check_parent tenant_id (some id) = find_unit id tenant_id >>= λ u. pure tt

  abbrev pub check_zone : ℕ → Option ℕ → Organizing (Unit {0})
  check_zone tenant_id none = pure tt
  check_zone tenant_id (some zone_id) = throw_if (not (e.has_zone tenant_id zone_id)) zone_not_found

  abbrev pub insert_checked : ℕ → CreateOrganizationUnit → Organizing ℕ
  insert_checked tenant_id dto = do
    check_locations dto.coverage_locations
    check_parent tenant_id dto.parent_id
    check_zone tenant_id dto.zone_id
    id ← create_unit_row tenant_id dto
    emit (record { tenant_id = tenant_id; old_zone_id = none; new_zone_id = dto.zone_id })
    pure id

  unfoldable pub create : ℕ → CreateOrganizationUnit → Organizing ℕ
  unfolding check_limit find_unit create_unit_row emit transactional
  create tenant_id dto =
      transactional (check_limit tenant_id dto.org_type >> insert_checked tenant_id dto)

  abbrev given : Option (List Coverage) → List Coverage
  given none = []
  given (some cs) = cs

  abbrev is_self : ℕ → Option ℕ → Bool
  is_self id none = false
  is_self id (some parent_id) = parent_id == id

  unfoldable pub update : ℕ → ℕ → UpdateOrganizationUnit → Organizing ℕ
  unfolding find_unit update_unit_row emit transactional
  update tenant_id id dto = transactional do
    existing ← find_unit id tenant_id
    check_locations (given dto.coverage_locations)
    throw_if (is_self id dto.parent_id) own_parent
    check_parent tenant_id dto.parent_id
    check_zone tenant_id dto.zone_id
    update_unit_row tenant_id id dto
    emit (record {
      tenant_id = tenant_id;
      old_zone_id = existing.zone_id;
      new_zone_id = dto.zone_id;
    })
    pure id

  abbrev add_given : ℕ → OrganizationUnit → List Coverage → Organizing (Unit {0})
  add_given tenant_id existing [] = pure tt
  add_given tenant_id existing (c ∷ cs) = do
    check_locations (c ∷ cs)
    add_location_rows tenant_id existing.id (c ∷ cs)
    emit (record {
      tenant_id = tenant_id;
      old_zone_id = existing.zone_id;
      new_zone_id = existing.zone_id;
    })

  unfoldable pub add_locations : ℕ → ℕ → List Coverage → Organizing (Unit {0})
  unfolding find_unit add_location_rows emit
  add_locations tenant_id id cs = find_unit id tenant_id >>= λ u. add_given tenant_id u cs
