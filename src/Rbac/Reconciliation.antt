-- ===== src/Rbac/Reconciliation.antt =====
-- `ReconciliationService` of api/services/rbac/reconciliation_service.py: the permissions that the
-- database wants for a folder against those that SharePoint has. Microsoft Graph is the parameter
-- `GraphClient`. A dict is the list of its items in the order of insertion. `_get_folders_to_check` is a
-- stub that gives the root alone. The audit rows are left out.
pub mod Scan
pub mod Actual
pub mod Levels
pub mod Wanted
pub mod Drifts
mod Tests
use pool_shrpnt.Prelude.{
  ℕ, suc, ◌+◌, Bool, true, false, ◌&&◌, ◌++◌, List, [], ◌∷◌, Option, none, some, map, length, ltb,
  leb, ◌==◌, if◌then◌else◌,
}
use pool_shrpnt.Prelude.Text.{Text, codes, text_eq}
use pool_shrpnt.Prelude.Table.{select, first, exists}
use pool_shrpnt.Prelude.Outcome.{Result, ok, err, ◌>>=◌}
use pool_shrpnt.Rbac.Model.{
  PermissionAssignment, PermissionLevel, read, write, delete, manage, level_eq,
}
use pool_shrpnt.Rbac.Roles.{
  Role, RoleName, neu_admin, role_name_of, role_name_value, GroupRoleMapping,
}
use pool_shrpnt.Rbac.PermissionEngine.{rank}
use pool_shrpnt.Rbac.Reconciliation.Actual.{
  GrantedTo, Permission, GraphClient, to_lower, lower, permission_mapping, mapped_permissions,
  max_level, map_sharepoint_roles, ActualLevels, set_level, add_granted, add_permission,
  add_permissions, get_actual_permissions, group, user, nobody,
}

pub record Group : Type 0 where
  pub id : ℕ
  pub azure_ad_group_id : Text

abbrev pub Desired : Type 0
Desired = List (ℕ × PermissionLevel)

pub set_desired : ℕ → PermissionLevel → Desired → Desired
set_desired role_id level [] = (role_id, level) ∷ []
set_desired role_id level ((id, l) ∷ rest) =
    if id == role_id then (id, level) ∷ rest else (id, l) ∷ set_desired role_id level rest

pub add_desired : List PermissionAssignment → Desired → Desired
unfolding set_desired
add_desired [] desired = desired
add_desired (a ∷ rest) desired = add_desired rest (set_desired a.role_id a.permission_level desired)

pub get_desired_permissions : Text → List PermissionAssignment → Desired
unfolding add_desired
get_desired_permissions folder_path assignments =
    add_desired
      (select (λ (a : PermissionAssignment). text_eq a.folder_path folder_path) assignments) []

abbrev pub RoleGroups : Type 0
RoleGroups = List (ℕ × List Text)

pub add_role_group : ℕ → Text → RoleGroups → RoleGroups
add_role_group role_id group_id [] = (role_id, group_id ∷ []) ∷ []
add_role_group role_id group_id ((id, groups) ∷ rest) =
    if id == role_id
    then (id, groups ++ group_id ∷ []) ∷ rest
    else (id, groups) ∷ add_role_group role_id group_id rest

-- The mappings joined with their groups.
pub add_mappings : List Group → List GroupRoleMapping → RoleGroups → RoleGroups
unfolding add_role_group
add_mappings groups [] mapping = mapping
add_mappings groups (grm ∷ rest) mapping =
    elim (first (λ (g : Group). g.id == grm.group_id) groups) [
      | none ↦ add_mappings groups rest mapping
      | some g ↦ add_mappings groups rest (add_role_group grm.role_id g.azure_ad_group_id mapping)
    ]

pub record RoleDb : Type 0 where
  pub roles : List Role
  pub groups : List Group
  pub mappings : List GroupRoleMapping
  pub assignments : List PermissionAssignment

pub get_role_to_group_mapping : RoleDb → RoleGroups
unfolding add_mappings
get_role_to_group_mapping db = add_mappings db.groups db.mappings []

pub data ActionRequired : Type 0 where
  grant update revoke : ActionRequired

pub record PermissionDrift : Type 0 where
  pub folder_path : Text
  pub role_name : RoleName
  pub desired_permission : Option PermissionLevel
  pub actual_permission : Option PermissionLevel
  pub action_required : ActionRequired
  pub detected_at : ℕ

-- `role_to_group_mapping.get(role_id, [])`
pub groups_of : ℕ → RoleGroups → List Text
groups_of role_id [] = []
groups_of role_id ((id, groups) ∷ rest) = if id == role_id then groups else groups_of role_id rest

pub level_in : Text → ActualLevels → Option PermissionLevel
level_in key [] = none
level_in key ((k, l) ∷ rest) = if text_eq k key then some l else level_in key rest

-- The level of the first group that has one.
pub actual_of : List Text → ActualLevels → Option PermissionLevel
unfolding level_in
actual_of [] actual = none
actual_of (g ∷ groups) actual =
    let rest = actual_of groups actual in
    elim (level_in g actual) [ none ↦ rest | some level ↦ some level ]

abbrev pub agrees : Option PermissionLevel → PermissionLevel → Bool
agrees none desired = false
agrees (some actual) desired = level_eq actual desired

abbrev pub action_for : Option PermissionLevel → ActionRequired
action_for none = grant
action_for (some _) = update

-- The loop over the desired permissions.
pub role_drifts :
    Text → ℕ → List Role → RoleGroups → ActualLevels → Desired → Result (List PermissionDrift)
unfolding groups_of actual_of
role_drifts folder_path now roles mapping actual [] = ok []
role_drifts folder_path now roles mapping actual ((role_id, level) ∷ desired) =
    let rest = role_drifts folder_path now roles mapping actual desired in
    let actual_permission = actual_of (groups_of role_id mapping) actual in
    elim (first (λ (r : Role). r.id == role_id) roles) [
      | none ↦ rest
      | some role ↦
          if agrees actual_permission level
          then rest
          else (role_name_of role.name >>= λ name. rest >>= λ drifts. ok (
              record {
                folder_path = folder_path;
                role_name = name;
                desired_permission = some level;
                actual_permission = actual_permission;
                action_required = action_for actual_permission;
                detected_at = now;
              }
              ∷ drifts))
    ]

-- Is the principal a group of a role that the folder wants?
pub is_wanted : Text → RoleGroups → Desired → Bool
is_wanted principal_id mapping desired =
    exists
      (λ (r : ℕ × List Text).
        exists (λ g. text_eq g principal_id) r.1
        && exists (λ (d : ℕ × PermissionLevel). d.0 == r.0) desired)
      mapping

-- The loop over the actual permissions.
pub principal_drifts : Text → ℕ → RoleGroups → Desired → ActualLevels → List PermissionDrift
unfolding is_wanted
principal_drifts folder_path now mapping desired [] = []
principal_drifts folder_path now mapping desired ((principal_id, level) ∷ actual) =
    let rest = principal_drifts folder_path now mapping desired actual in
    if is_wanted principal_id mapping desired
    then rest
    else record {
      folder_path = folder_path;
      role_name = neu_admin;
      desired_permission = none;
      actual_permission = some level;
      action_required = revoke;
      detected_at = now;
    }
      ∷ rest

pub compare_permissions :
    Option GraphClient → Text → Text → ℕ → RoleDb → Result (List PermissionDrift)
unfolding get_desired_permissions get_actual_permissions get_role_to_group_mapping role_drifts
    principal_drifts
compare_permissions client site_id folder_path now db =
    let desired = get_desired_permissions folder_path db.assignments in
    let actual = get_actual_permissions client site_id folder_path in
    let mapping = get_role_to_group_mapping db in
    role_drifts folder_path now db.roles mapping actual desired >>= λ drifts.
    ok (drifts ++ principal_drifts folder_path now mapping desired actual)
