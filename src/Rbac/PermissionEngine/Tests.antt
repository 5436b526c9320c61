-- ===== src/Rbac/PermissionEngine/Tests.antt =====
-- Runs of the permission engine on a small matrix, and instances of its theorems.
use pool_shrpnt.Prelude.{◌≡◌, refl, false, List, [], ◌∷◌, some, All}
use pool_shrpnt.Prelude.Text.{Text, codes, text_eq, starts_with, contains}
use pool_shrpnt.Prelude.Int.{pos}
use pool_shrpnt.Prelude.Outcome.{ok}
use pool_shrpnt.Rbac.Model.{read, write, manage, base_rule}
use pool_shrpnt.Rbac.Roles.{
  financial, partner_specific, penzugyes, role_name_of, permission_level_of, Role, MatrixDb,
}
use pool_shrpnt.Rbac.FolderTypes.{
  classify_folder_type, is_partner_path, first_line, has_partner, starts_with_partner, is_digit,
}
use pool_shrpnt.Rbac.PermissionEngine.{
  place_role, by_priority, add_mapped, add_memberships, get_user_roles, collect_levels,
  get_base_permissions, apply_segregation_rules, check_exceptions, EffectivePermission, permission,
  exempt, grant, by_rules, for_role, for_roles, roles_asked, calculate_effective_permissions,
  resolve_permission_conflicts, group_by_role, add_to_group, raise_level,
}
use pool_shrpnt.Rbac.PermissionEngine.Segregation.{
  IsGuarded, calculate_effective_permissions-IsGuarded,
}
use pool_shrpnt.Rbac.PermissionEngine.Conflicts.{
  IsHighest, resolved_level, resolve_permission_conflicts-IsHighest,
}

abbrev finance_path : Text
finance_path = codes "/em/Pénzügyi/2025"

finance_folder : classify_folder_type finance_path ≡ financial
unfolding classify_folder_type first_line contains starts_with
finance_folder = refl

partner_folder : classify_folder_type (codes "/em/CEG_07/docs") ≡ partner_specific
unfolding classify_folder_type first_line contains starts_with is_partner_path has_partner
    starts_with_partner is_digit
partner_folder = refl

-- One expert and one member of the finance staff, who may both write to financial folders by rule.
abbrev matrix : MatrixDb
matrix = record {
  roles =
      record { id = 1; name = codes "Expert"; priority = pos 5 }
      ∷ record { id = 2; name = codes "Pénzügyes"; priority = pos 9 }
      ∷ [];
  memberships =
      record { user_id = codes "u"; group_id = 10 }
      ∷ record { user_id = codes "u"; group_id = 11 }
      ∷ [];
  mappings =
      record { group_id = 10; role_id = 1 }
      ∷ record { group_id = 11; role_id = 2 }
      ∷ record { group_id = 11; role_id = 1 }
      ∷ [];
  rules =
      record { role_id = 1; folder_type = codes "financial"; permission_level = codes "write" }
      ∷ record { role_id = 2; folder_type = codes "financial"; permission_level = codes "write" }
      ∷ [];
  exceptions = [];
}

abbrev finance_role : Role
finance_role = record { id = 2; name = codes "Pénzügyes"; priority = pos 9 }

finance_only :
    calculate_effective_permissions finance_path [] (some (codes "u")) 100 matrix
    ≡ ok (permission finance_path finance_role base_rule false penzugyes write ∷ [])
unfolding calculate_effective_permissions roles_asked get_user_roles add_memberships add_mapped
    by_priority place_role for_roles for_role check_exceptions by_rules apply_segregation_rules
    get_base_permissions collect_levels grant permission_level_of role_name_of text_eq
    classify_folder_type first_line contains starts_with
finance_only = refl

calculate_effective_permissions-IsGuarded_example :
    All
      (IsGuarded (classify_folder_type finance_path))
      (permission finance_path finance_role base_rule false penzugyes write ∷ [])
calculate_effective_permissions-IsGuarded_example =
    calculate_effective_permissions-IsGuarded finance_path [] (some (codes "u")) 100 matrix
      finance_only

abbrev conflicting : List EffectivePermission
conflicting =
    permission finance_path finance_role base_rule false penzugyes read
    ∷ exempt finance_path finance_role penzugyes manage (codes "audit")
    ∷ permission finance_path finance_role base_rule false penzugyes write
    ∷ []

conflicting_resolved : resolve_permission_conflicts conflicting ≡ (2, manage) ∷ []
unfolding resolve_permission_conflicts group_by_role add_to_group raise_level
conflicting_resolved = refl

resolve_permission_conflicts-IsHighest_example :
    IsHighest 2 conflicting (resolved_level 2 (resolve_permission_conflicts conflicting))
resolve_permission_conflicts-IsHighest_example =
    resolve_permission_conflicts-IsHighest 2 conflicting
