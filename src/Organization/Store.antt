-- ===== src/Organization/Store.antt =====
-- organization-unit.command.repository.ts, and the lookups of organization-unit.query.service.ts. The
-- point on the map and the address are left out.
use multi_tenant_shipping_ma.Shared.{
  ℕ, ◌+◌, Bool, true, false, not, ◌&&◌, ◌||◌, Option, none, some, String, List, [], ◌∷◌, ◌++◌, map,
  ◌==◌, if◌then◌else◌, get_or, some_of,
}
use multi_tenant_shipping_ma.Shared.Effects.{
  Action, ok, err, ◌>>=◌, ◌>>◌, pure, modify, throw_if, found_or,
}
use multi_tenant_shipping_ma.Shared.Table.{find_first, update_many, delete_many, count_if, has_key}

pub data OrgType : Type 0 where
  region hub warehouse branch locker : OrgType

abbrev pub org_type_eq : OrgType → OrgType → Bool
org_type_eq region region = true
org_type_eq hub hub = true
org_type_eq warehouse warehouse = true
org_type_eq branch branch = true
org_type_eq locker locker = true
org_type_eq _ _ = false

pub data CoverageType : Type 0 where
  delivery_area pickup_area both : CoverageType

pub record OrganizationUnit : Type 0 where
  pub id : ℕ
  pub tenant_id : ℕ
  pub name : String
  pub org_type : OrgType
  pub parent_id : Option ℕ
  pub zone_id : Option ℕ
  pub is_active : Bool

-- A row of `org_unit_location_mapping`, whose key is the unit and the location.
pub record LocationMapping : Type 0 where
  pub tenant_id : ℕ
  pub organization_unit_id : ℕ
  pub global_location_id : ℕ
  pub coverage_type : CoverageType

-- `OrgUnitLocationMappingDto`
pub record Coverage : Type 0 where
  pub global_location_id : ℕ
  pub coverage_type : Option CoverageType

-- `CreateOrganizationUnitDto`
pub record CreateOrganizationUnit : Type 0 where
  pub name : String
  pub org_type : OrgType
  pub parent_id : Option ℕ
  pub zone_id : Option ℕ
  pub is_active : Option Bool
  pub coverage_locations : List Coverage

-- `UpdateOrganizationUnitDto`: what is left out stays.
pub record UpdateOrganizationUnit : Type 0 where
  pub name : Option String
  pub org_type : Option OrgType
  pub parent_id : Option ℕ
  pub zone_id : Option ℕ
  pub is_active : Option Bool
  pub coverage_locations : Option (List Coverage)

-- `OrganizationUnitChangedEvent`: the tenant, the zone before and the zone after.
pub record UnitChanged : Type 0 where
  pub tenant_id : ℕ
  pub old_zone_id : Option ℕ
  pub new_zone_id : Option ℕ

pub record Tables : Type 0 where
  pub units : List OrganizationUnit
  pub mappings : List LocationMapping
  pub events : List UnitChanged
  pub next_id : ℕ

pub data OrganizationError : Type 0 where
  too_many_branches too_many_warehouses unknown_locations own_parent : OrganizationError
  unit_not_found zone_not_found duplicate_mapping : OrganizationError

abbrev pub Organizing : Type 0 → Type 0
Organizing A = Action Tables OrganizationError A

abbrev pub unit_id_of : OrganizationUnit → ℕ
unit_id_of u = u.id

abbrev pub is_of_type : ℕ → OrgType → OrganizationUnit → Bool
is_of_type tenant_id kind u = u.tenant_id == tenant_id && org_type_eq u.org_type kind

unfoldable pub count_by_type : ℕ → OrgType → Tables → ℕ
count_by_type tenant_id kind s = count_if (is_of_type tenant_id kind) s.units

-- `findById` of the query service, which hides the units of other tenants.
unfoldable pub find_unit : ℕ → ℕ → Organizing OrganizationUnit
find_unit id tenant_id = do
  u ← λ s. (found_or (find_first (has_key unit_id_of id) s.units) unit_not_found, s)
  throw_if (not (u.tenant_id == tenant_id)) unit_not_found
  pure u

abbrev pub is_mapped : ℕ → ℕ → LocationMapping → Bool
is_mapped unit_id location_id m =
    m.organization_unit_id == unit_id && m.global_location_id == location_id

abbrev pub mapping_row : ℕ → ℕ → Coverage → LocationMapping
mapping_row tenant_id unit_id c = record {
  tenant_id = tenant_id;
  organization_unit_id = unit_id;
  global_location_id = c.global_location_id;
  coverage_type = get_or c.coverage_type delivery_area;
}

-- Whether inserting the rows one after another would repeat a key.
abbrev pub repeats : ℕ → List Coverage → List LocationMapping → Bool
repeats unit_id [] ms = false
repeats unit_id (c ∷ cs) ms =
    some_of (is_mapped unit_id c.global_location_id) ms
    || some_of (λ (d : Coverage). d.global_location_id == c.global_location_id) cs
    || repeats unit_id cs ms

unfoldable pub create_mappings : ℕ → ℕ → List Coverage → Organizing (Unit {0})
create_mappings tenant_id unit_id cs s =
    if repeats unit_id cs s.mappings
    then (err duplicate_mapping, s)
    else (ok tt, record s { mappings = map (mapping_row tenant_id unit_id) cs ++ s.mappings })

unfoldable pub insert_unit : ℕ → CreateOrganizationUnit → Organizing ℕ
insert_unit tenant_id dto s = (
  ok s.next_id,
  record s {
    units =
        record {
          id = s.next_id;
          tenant_id = tenant_id;
          name = dto.name;
          org_type = dto.org_type;
          parent_id = dto.parent_id;
          zone_id = dto.zone_id;
          is_active = get_or dto.is_active true;
        }
        ∷ s.units;
    next_id = s.next_id + 1;
  },
)

unfoldable pub create_unit_row : ℕ → CreateOrganizationUnit → Organizing ℕ
unfolding insert_unit create_mappings
create_unit_row tenant_id dto = do
  id ← insert_unit tenant_id dto
  create_mappings tenant_id id dto.coverage_locations
  pure id

abbrev or_old : Option ℕ → Option ℕ → Option ℕ
or_old none old = old
or_old (some new) old = some new

abbrev pub changed_unit : UpdateOrganizationUnit → OrganizationUnit → OrganizationUnit
changed_unit dto u = record u {
  name = get_or dto.name u.name;
  org_type = get_or dto.org_type u.org_type;
  parent_id = or_old dto.parent_id u.parent_id;
  zone_id = or_old dto.zone_id u.zone_id;
  is_active = get_or dto.is_active u.is_active;
}

abbrev replace_mappings : ℕ → ℕ → Option (List Coverage) → Organizing (Unit {0})
replace_mappings tenant_id id none = pure tt
replace_mappings tenant_id id (some cs) =
    modify (λ (s : Tables). record s {
      mappings = delete_many (λ m. m.organization_unit_id == id) s.mappings;
    })
    >> create_mappings tenant_id id cs

unfoldable pub update_unit_row : ℕ → ℕ → UpdateOrganizationUnit → Organizing (Unit {0})
unfolding create_mappings
update_unit_row tenant_id id dto =
    (λ s. (
      if count_if (has_key unit_id_of id) s.units == 0 then err unit_not_found else ok tt,
      record s { units = update_many (has_key unit_id_of id) (changed_unit dto) s.units },
    ))
    >> replace_mappings tenant_id id dto.coverage_locations

-- With `skipDuplicates`
abbrev add_new : ℕ → ℕ → List Coverage → List LocationMapping → List LocationMapping
add_new tenant_id unit_id [] ms = ms
add_new tenant_id unit_id (c ∷ cs) ms = add_new tenant_id unit_id cs (
    if some_of (is_mapped unit_id c.global_location_id) ms
    then ms
    else mapping_row tenant_id unit_id c ∷ ms)

unfoldable pub add_location_rows : ℕ → ℕ → List Coverage → Organizing (Unit {0})
add_location_rows tenant_id unit_id cs =
    modify (λ s. record s { mappings = add_new tenant_id unit_id cs s.mappings })

unfoldable pub emit : UnitChanged → Organizing (Unit {0})
emit e = modify (λ s. record s { events = e ∷ s.events })
