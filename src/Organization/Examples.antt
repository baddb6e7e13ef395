-- ===== src/Organization/Examples.antt =====
-- The theorem on limits at a concrete unit.
use multi_tenant_shipping_ma.Shared.{◌≡◌, refl, true, none, some, [], arith}
use multi_tenant_shipping_ma.Shared.Effects.{ok, err}
use multi_tenant_shipping_ma.Shared.Table.{count_if}
use multi_tenant_shipping_ma.Organization.Store.{
  branch, CreateOrganizationUnit, Tables, too_many_branches,
}
use multi_tenant_shipping_ma.Organization.Commands.{Surroundings, create}
use multi_tenant_shipping_ma.Organization.Limits.{IsWithin, create-IsWithin}

abbrev one_branch : Surroundings
one_branch = record {
  max_branches = λ t. some 1;
  max_warehouses = λ t. none;
  location_exists = λ l. true;
  has_zone = λ t z. true;
}

abbrev nothing : Tables
nothing = record { units = []; mappings = []; events = []; next_id = 1 }

abbrev office : CreateOrganizationUnit
office = record {
  name = "Office";
  org_type = branch;
  parent_id = none;
  zone_id = none;
  is_active = none;
  coverage_locations = [];
}

nothing-IsWithin : IsWithin one_branch []
unfolding count_if
nothing-IsWithin = record {
  branches = λ t most limit. omega arith;
  warehouses = λ t most limit. omega arith;
}

create-IsWithin_example : IsWithin one_branch (create one_branch 9 office nothing).1.units
create-IsWithin_example = create-IsWithin one_branch 9 office nothing nothing-IsWithin

-- The first branch is created, the second is refused.
first_created : (create one_branch 9 office nothing).0 ≡ ok 1
unfolding create count_if
first_created = refl

second_refused :
    (create one_branch 9 office (create one_branch 9 office nothing).1).0 ≡ err too_many_branches
unfolding create count_if
second_refused = refl
