-- ===== src/Rbac/Reconciliation/Tests.antt =====
-- Comparisons for a small database, and instances of the theorems.
use pool_shrpnt.Prelude.{◌≡◌, refl, ◌↔◌, true, false, List, [], ◌∷◌, none, some, All, ◌==◌}
use pool_shrpnt.Prelude.Text.{Text, codes, text_eq}
use pool_shrpnt.Prelude.Table.{exists}
use pool_shrpnt.Prelude.Int.{pos}
use pool_shrpnt.Prelude.Outcome.{ok}
use pool_shrpnt.Rbac.Model.{PermissionLevel, write, manage, manual_source}
use pool_shrpnt.Rbac.Roles.{Role}
use pool_shrpnt.Rbac.Reconciliation.{
  RoleDb, set_desired, add_desired, get_desired_permissions, add_role_group, add_mappings,
  get_role_to_group_mapping, groups_of, level_in, actual_of, role_drifts, is_wanted,
  principal_drifts, compare_permissions,
}
use pool_shrpnt.Rbac.Reconciliation.Actual.{
  group, GraphClient, Permission, permission_mapping, mapped_permissions, max_level,
  map_sharepoint_roles, set_level, add_permissions, get_actual_permissions,
}
use pool_shrpnt.Rbac.Reconciliation.Levels.{stands_for, IsAtMost, map_sharepoint_roles_highest}
use pool_shrpnt.Rbac.Reconciliation.Wanted.{HasLevel, IsGroupOfDesired}
use pool_shrpnt.Rbac.Reconciliation.Drifts.{compare_permissions_none}

abbrev names : List Text
names = codes "Read" ∷ codes "FullControl" ∷ codes "guest" ∷ []

names_level : map_sharepoint_roles names ≡ some manage
unfolding map_sharepoint_roles mapped_permissions permission_mapping max_level text_eq
names_level = refl

map_sharepoint_roles_highest_example :
    ((top : PermissionLevel)
      → map_sharepoint_roles names ≡ some top
      → (exists (stands_for top) names ≡ true) × All (IsAtMost top) names)
    × (map_sharepoint_roles names ≡ none
        → (level : PermissionLevel) → exists (stands_for level) names ≡ false)
map_sharepoint_roles_highest_example = map_sharepoint_roles_highest names

abbrev folder : Text
folder = codes "/em"

-- Role 3 wants to write, and stands for two groups.
abbrev db : RoleDb
db = record {
  roles = record { id = 3; name = codes "Expert"; priority = pos 1 } ∷ [];
  groups =
      record { id = 1; azure_ad_group_id = codes "g1" }
      ∷ record { id = 2; azure_ad_group_id = codes "g2" }
      ∷ [];
  mappings = record { group_id = 1; role_id = 3 } ∷ record { group_id = 2; role_id = 3 } ∷ [];
  assignments =
      record {
        id = 1;
        folder_path = folder;
        resource_id = none;
        is_sharepoint_folder = true;
        role_id = 3;
        permission_level = write;
        permission_type = none;
        inheritance_broken = false;
        source = manual_source;
        sharepoint_sync_status = none;
        is_locked = false;
        lock_applied_at = none;
      }
      ∷ [];
}

abbrev answers : List Permission → GraphClient
answers ps = record { get_drive_item = λ _ _. ok (some []); get_permissions = λ _ _. ok (some ps) }

-- The first group writes as it should; the second one has full control.
abbrev second_manages : GraphClient
second_manages = answers (
    record { granted_to = group (some (codes "g1")); roles = codes "write" ∷ [] }
    ∷ record { granted_to = group (some (codes "g2")); roles = codes "FullControl" ∷ [] }
    ∷ [])

-- Only the first group with a level counts, so what the second one has too much goes unnoticed.
second_group_unnoticed : compare_permissions (some second_manages) (codes "s") folder 5 db ≡ ok []
unfolding compare_permissions get_desired_permissions add_desired set_desired get_actual_permissions
    add_permissions map_sharepoint_roles mapped_permissions permission_mapping max_level set_level
    get_role_to_group_mapping add_mappings add_role_group role_drifts groups_of level_in actual_of
    principal_drifts is_wanted text_eq
second_group_unnoticed = refl

compare_permissions_none_example :
    (compare_permissions (some second_manages) (codes "s") folder 5 db ≡ ok []) ↔ (
      All
        (λ d.
          exists (λ (r : Role). r.id == d.0) db.roles ≡ true
          → HasLevel
              (get_role_to_group_mapping db)
              (get_actual_permissions (some second_manages) (codes "s") folder)
              d.0
              d.1)
        (get_desired_permissions folder db.assignments)
      × All
          (λ a.
            IsGroupOfDesired
              (get_role_to_group_mapping db)
              (get_desired_permissions folder db.assignments)
              a.0)
          (get_actual_permissions (some second_manages) (codes "s") folder))
compare_permissions_none_example =
    compare_permissions_none (some second_manages) (codes "s") folder 5 db
