-- ===== src/Rbac/PermissionEngine.antt =====
-- `PermissionEngine` of api/services/rbac/permission_engine.py: what each role may do in a folder. A
-- Python set of levels is the list of its members in the order in which they were added.
mod RoleNames
mod Highest
pub mod Segregation
pub mod Conflicts
mod Tests
use pool_shrpnt.Prelude.{
  ℕ, zero, suc, Bool, true, false, not, ◌&&◌, ◌||◌, ◌++◌, List, [], ◌∷◌, Option, none, some, map,
  ltb, ◌==◌, if◌then◌else◌,
}
use pool_shrpnt.Prelude.Text.{Text, codes, text_eq, starts_with}
use pool_shrpnt.Prelude.Int.{leb_ℤ}
use pool_shrpnt.Prelude.Table.{select, first, exists}
use pool_shrpnt.Prelude.Outcome.{Result, ok, err, value_error, ◌>>=◌}
use pool_shrpnt.Rbac.Model.{
  PermissionLevel, read, write, delete, manage, level_eq, Source, base_rule, segregation_rule,
  exception,
}
use pool_shrpnt.Rbac.Roles.{
  FolderType, standard, financial, neu_only, final, partner_specific, folder_type_value, RoleName,
  role_name_value, role_name_of, penzugyes, partner_admin, permission_level_of, Role, Membership,
  GroupRoleMapping, PermissionRule, PermissionException, MatrixDb,
}
use pool_shrpnt.Rbac.FolderTypes.{classify_folder_type, is_partner_path}

-- `sorted(roles, key=lambda r: r.priority, reverse=True)`, stable.
pub place_role : Role → List Role → List Role
place_role r [] = r ∷ []
place_role r (x ∷ xs) = if leb_ℤ x.priority r.priority then r ∷ x ∷ xs else x ∷ place_role r xs

pub by_priority : List Role → List Role
unfolding place_role
by_priority [] = []
by_priority (r ∷ rs) = place_role r (by_priority rs)

-- The roles of the mappings of a group, those seen before left out.
pub add_mapped : List Role → List GroupRoleMapping → List Role → List Role
add_mapped table [] roles = roles
add_mapped table (mapping ∷ mappings) roles =
    elim (first (λ (r : Role). r.id == mapping.role_id) table) [
      | none ↦ add_mapped table mappings roles
      | some role ↦
          add_mapped table mappings
            (if exists (λ (r : Role). r.id == role.id) roles then roles else roles ++ role ∷ [])
    ]

pub add_memberships : MatrixDb → List Membership → List Role → List Role
unfolding add_mapped
add_memberships db [] roles = roles
add_memberships db (membership ∷ memberships) roles =
    add_memberships db memberships
      (add_mapped db.roles (select (λ m. m.group_id == membership.group_id) db.mappings) roles)

pub get_user_roles : Text → MatrixDb → List Role
unfolding add_memberships by_priority
get_user_roles user_id db =
    by_priority (add_memberships db (select (λ m. text_eq m.user_id user_id) db.memberships) [])

abbrev pub add_level : PermissionLevel → List PermissionLevel → List PermissionLevel
add_level l ls = if exists (level_eq l) ls then ls else ls ++ l ∷ []

pub collect_levels : List PermissionRule → List PermissionLevel → Result (List PermissionLevel)
unfolding permission_level_of
collect_levels [] permissions = ok permissions
collect_levels (rule ∷ rules) permissions = do
  level ← permission_level_of rule.permission_level
  collect_levels rules (add_level level permissions)

pub get_base_permissions : Role → FolderType → MatrixDb → Result (List PermissionLevel)
unfolding collect_levels
get_base_permissions role folder_type db =
    collect_levels
      (select (λ r. r.role_id == role.id && text_eq r.folder_type (folder_type_value folder_type))
        db.rules)
      []

-- `none` where no rule overrides the base permissions.
pub apply_segregation_rules : Role → Text → FolderType → Option (List PermissionLevel)
apply_segregation_rules role folder_path standard = none
apply_segregation_rules role folder_path financial =
    if text_eq role.name (role_name_value penzugyes) then none else some []
apply_segregation_rules role folder_path neu_only =
    if starts_with role.name (codes "NEU_") then none else some []
apply_segregation_rules role folder_path final = some (read ∷ [])
apply_segregation_rules role folder_path partner_specific =
    if is_partner_path folder_path
    then (if text_eq role.name (role_name_value partner_admin)
        then none
        else if starts_with role.name (codes "NEU_")
        then none
        else some [])
    else none

-- An exception without an end, or whose end is to come.
abbrev pub is_valid_exception : ℕ → Text → ℕ → PermissionException → Bool
is_valid_exception role_id folder_path now e =
    e.role_id == role_id
    && text_eq e.folder_path folder_path
    && elim e.expires_at [ none ↦ true | some t ↦ ltb now t ]

-- `exception.reason or "Exception applied"`
abbrev pub reason_of : Option Text → Text
reason_of none = codes "Exception applied"
reason_of (some []) = codes "Exception applied"
reason_of (some (c ∷ s)) = c ∷ s

pub check_exceptions : Role → Text → ℕ → MatrixDb → Result (Option (PermissionLevel × Text))
unfolding permission_level_of
check_exceptions role folder_path now db =
    elim (first (is_valid_exception role.id folder_path now) db.exceptions) [
      | none ↦ ok none
      | some e ↦ permission_level_of e.permission_override >>= λ level.
          ok (some (level, reason_of e.reason))
    ]

pub record EffectivePermission : Type 0 where
  pub folder_path : Text
  pub role_id : ℕ
  pub role_name : RoleName
  pub permission_level : PermissionLevel
  pub source : Source
  pub inheritance_broken : Bool
  pub exception_applied : Bool
  pub exception_reason : Option Text

abbrev pub permission :
    Text → Role → Source → Bool → RoleName → PermissionLevel → EffectivePermission
permission folder_path role source inheritance_broken name level = record {
  folder_path = folder_path;
  role_id = role.id;
  role_name = name;
  permission_level = level;
  source = source;
  inheritance_broken = inheritance_broken;
  exception_applied = false;
  exception_reason = none;
}

abbrev pub exempt : Text → Role → RoleName → PermissionLevel → Text → EffectivePermission
exempt folder_path role name level reason = record {
  folder_path = folder_path;
  role_id = role.id;
  role_name = name;
  permission_level = level;
  source = exception;
  inheritance_broken = false;
  exception_applied = true;
  exception_reason = some reason;
}

-- The permissions of a role with the given levels. `RoleName(role.name)` raises for an unknown name.
pub grant : Text → Role → Source → Bool → List PermissionLevel → Result (List EffectivePermission)
grant folder_path role source inheritance_broken [] = ok []
grant folder_path role source inheritance_broken (level ∷ levels) = do
  name ← role_name_of role.name
  rest ← grant folder_path role source inheritance_broken levels
  ok (permission folder_path role source inheritance_broken name level ∷ rest)

-- The permission that an exception gives.
pub except : Text → Role → PermissionLevel → Text → Result (List EffectivePermission)
except folder_path role level reason = do
  name ← role_name_of role.name
  ok (exempt folder_path role name level reason ∷ [])

-- The rules that hold where no exception does.
pub by_rules : Text → FolderType → Role → MatrixDb → Result (List EffectivePermission)
by_rules folder_path folder_type role db =
    elim (apply_segregation_rules role folder_path folder_type) [
      | some levels ↦ grant folder_path role segregation_rule true levels
      | none ↦ get_base_permissions role folder_type db >>= grant folder_path role base_rule false
    ]

-- One round of the loop over the roles.
pub for_role : Text → FolderType → ℕ → MatrixDb → Role → Result (List EffectivePermission)
for_role folder_path folder_type now db role = check_exceptions role folder_path now db >>= λ found.
    elim found [
      | some (level, reason) ↦ except folder_path role level reason
      | none ↦ by_rules folder_path folder_type role db
    ]

pub for_roles : Text → FolderType → ℕ → MatrixDb → List Role → Result (List EffectivePermission)
for_roles folder_path folder_type now db [] = ok []
for_roles folder_path folder_type now db (role ∷ roles) = do
  own ← for_role folder_path folder_type now db role
  rest ← for_roles folder_path folder_type now db roles
  ok (own ++ rest)

-- The roles of the user, if one is given, or those with the given identifiers; a ValueError if
-- neither is given.
pub roles_asked : List ℕ → Option Text → MatrixDb → Result (List Role)
unfolding get_user_roles by_priority
roles_asked role_ids (some (c ∷ user_id)) db = ok (get_user_roles (c ∷ user_id) db)
roles_asked [] _ db = err value_error
roles_asked (id ∷ ids) _ db =
    ok (by_priority (select (λ (r : Role). exists (λ i. i == r.id) (id ∷ ids)) db.roles))

pub calculate_effective_permissions :
    Text → List ℕ → Option Text → ℕ → MatrixDb → Result (List EffectivePermission)
calculate_effective_permissions folder_path role_ids user_id now db =
    roles_asked role_ids user_id db
    >>= for_roles folder_path (classify_folder_type folder_path) now db

-- The numbers of `permission_hierarchy`.
abbrev pub rank : PermissionLevel → ℕ
rank manage = 4
rank delete = 3
rank write = 2
rank read = 1

-- The loop over the permissions of a role.
pub raise_level : PermissionLevel → ℕ → List EffectivePermission → PermissionLevel
raise_level level score [] = level
raise_level level score (p ∷ ps) =
    if ltb score (rank p.permission_level)
    then raise_level p.permission_level (rank p.permission_level) ps
    else raise_level level score ps

abbrev pub Groups : Type 0
Groups = List (ℕ × List EffectivePermission)

-- `if perm.role_id not in role_permissions: …` and the append.
pub add_to_group : EffectivePermission → Groups → Groups
add_to_group p [] = (p.role_id, p ∷ []) ∷ []
add_to_group p ((role_id, ps) ∷ groups) =
    if role_id == p.role_id
    then (role_id, ps ++ p ∷ []) ∷ groups
    else (role_id, ps) ∷ add_to_group p groups

pub group_by_role : Groups → List EffectivePermission → Groups
unfolding add_to_group
group_by_role groups [] = groups
group_by_role groups (p ∷ ps) = group_by_role (add_to_group p groups) ps

abbrev pub resolve_group : ℕ × List EffectivePermission → ℕ × PermissionLevel
resolve_group (role_id, ps) = (role_id, raise_level read 0 ps)

pub resolve_permission_conflicts : List EffectivePermission → List (ℕ × PermissionLevel)
unfolding group_by_role raise_level
resolve_permission_conflicts permissions = map resolve_group (group_by_role [] permissions)
