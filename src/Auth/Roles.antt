-- ===== src/Auth/Roles.antt =====
-- src/modules/auth/roles.ts: the aliases of the first role names, and the outlet scope of a role.
use ckitchen_backend.Prelude.{ℕ, Bool, Option, none, some, List, [], ◌∷◌, any, ◌==◌, if◌then◌else◌}

-- The values of the database's role enum, old names and new; `unknown` is any other string, less the
-- names that every object of JavaScript inherits, for which `normalizeRole` returns no role.
pub data RoleName : Type 0 where
  owner outlet_manager brand_manager kitchen_crew warehouse_main warehouse_outlet purchasing hr
        accounting :
      RoleName
  super_admin kitchen_staff warehouse supplier_coordinator accountant rider unknown : RoleName

-- `V2_ROLES`
pub data Role : Type 0 where
  owner outlet_manager brand_manager kitchen_crew warehouse_main warehouse_outlet purchasing hr
        accounting :
      Role

pub data OutletScope : Type 0 where
  all_outlets assigned : OutletScope

-- The place in `V2_ROLES`, by which roles are compared.
abbrev pub rank : Role → ℕ
rank Role.owner = 0
rank Role.outlet_manager = 1
rank Role.brand_manager = 2
rank Role.kitchen_crew = 3
rank Role.warehouse_main = 4
rank Role.warehouse_outlet = 5
rank Role.purchasing = 6
rank Role.hr = 7
rank Role.accounting = 8

abbrev pub role_includes : List Role → Role → Bool
role_includes roles r = any (λ q. rank q == rank r) roles

unfoldable pub normalize_role : Option RoleName → Option Role
normalize_role none = none
normalize_role (some RoleName.rider) = none
normalize_role (some RoleName.super_admin) = some Role.owner
normalize_role (some RoleName.kitchen_staff) = some Role.kitchen_crew
normalize_role (some RoleName.warehouse) = some Role.warehouse_outlet
normalize_role (some RoleName.supplier_coordinator) = some Role.purchasing
normalize_role (some RoleName.accountant) = some Role.accounting
normalize_role (some RoleName.owner) = some Role.owner
normalize_role (some RoleName.outlet_manager) = some Role.outlet_manager
normalize_role (some RoleName.brand_manager) = some Role.brand_manager
normalize_role (some RoleName.kitchen_crew) = some Role.kitchen_crew
normalize_role (some RoleName.warehouse_main) = some Role.warehouse_main
normalize_role (some RoleName.warehouse_outlet) = some Role.warehouse_outlet
normalize_role (some RoleName.purchasing) = some Role.purchasing
normalize_role (some RoleName.hr) = some Role.hr
normalize_role (some RoleName.accounting) = some Role.accounting
normalize_role (some RoleName.unknown) = none

-- `HQ_ALL_SCOPE_ROLES`
abbrev pub hq_all_scope_roles : List Role
hq_all_scope_roles = Role.owner ∷ Role.hr ∷ Role.accounting ∷ Role.warehouse_main ∷ []

-- `outletScopeForRole` on a role that is normalised already, as its callers here pass it.
unfoldable pub outlet_scope_for_role : Option Role → OutletScope
outlet_scope_for_role none = assigned
outlet_scope_for_role (some r) =
    if role_includes hq_all_scope_roles r then all_outlets else assigned
