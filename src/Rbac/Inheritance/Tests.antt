-- ===== src/Rbac/Inheritance/Tests.antt =====
-- Runs of the inheritance service on a small table, and instances of its theorems.
use pool_shrpnt.Prelude.{ℕ, ◌≡◌, refl, ◌↔◌, true, false, List, [], ◌∷◌, ◌++◌, none, some, All, ◌==◌}
use pool_shrpnt.Prelude.Text.{Text, codes, text_eq, contains, starts_with}
use pool_shrpnt.Prelude.Table.{exists}
use pool_shrpnt.Prelude.Int.{pos}
use pool_shrpnt.Prelude.Outcome.{ok}
use pool_shrpnt.Rbac.Model.{PermissionAssignment, PermissionLevel, read, write, manual_source}
use pool_shrpnt.Rbac.Roles.{Role, expert, role_name_of}
use pool_shrpnt.Rbac.Paths.{
  before_last_slash, get_parent_path, split, last_is_partner, contains_any,
  should_break_inheritance,
}
use pool_shrpnt.Rbac.Paths.Parents.{get_parent_path-append}
use pool_shrpnt.Rbac.PermissionEngine.{EffectivePermission}
use pool_shrpnt.Rbac.Inheritance.{
  Assignments, RoleLevels, at_path, add_role_level, add_assignments, add_levels, merge_levels,
  inherited_within, get_inherited_permissions, ChainEntry, get_inheritance_chain, break_inheritance,
  restore_inheritance, existing_levels, inherited_permission, inherit_levels, inherit_roles,
  apply_inheritance,
}
use pool_shrpnt.Rbac.Inheritance.Sources.{
  grants_at, Inherits, from_parent, gives, get_inherited_permissions-Inherits,
}
use pool_shrpnt.Rbac.Inheritance.Breaking.{
  IsChain, get_inheritance_chain-IsChain, break_inheritance-stops,
  restore_inheritance-break_inheritance,
}
use pool_shrpnt.Rbac.Inheritance.Additions.{permits, apply_inheritance-Inherits}

parent_of_join : get_parent_path (codes "a/b" ++ 47 ∷ codes "c") ≡ some (codes "a/b")
parent_of_join = get_parent_path-append 97 (codes "/b") (codes "c") (refl, tt)

partner_breaks : should_break_inheritance (codes "/em/CEG_07") ≡ true
unfolding should_break_inheritance contains_any last_is_partner split contains starts_with
partner_breaks = refl

below_partner_inherits : should_break_inheritance (codes "/em/CEG_07/x") ≡ false
unfolding should_break_inheritance contains_any last_is_partner split contains starts_with
below_partner_inherits = refl

abbrev assignment : Text → ℕ → PermissionLevel → PermissionAssignment
assignment folder_path role_id level = record {
  id = 1;
  folder_path = folder_path;
  resource_id = none;
  is_sharepoint_folder = true;
  role_id = role_id;
  permission_level = level;
  permission_type = none;
  inheritance_broken = false;
  source = manual_source;
  sharepoint_sync_status = none;
  is_locked = false;
  lock_applied_at = none;
}

-- Role 3 reads /a, and role 4 writes /a/b.
abbrev table : Assignments
table = assignment (codes "/a") 3 read ∷ assignment (codes "/a/b") 4 write ∷ []

abbrev leaf : Text
leaf = codes "/a/b/c"

inherits_both : get_inherited_permissions leaf table ≡ some ((4, write ∷ []) ∷ (3, read ∷ []) ∷ [])
unfolding get_inherited_permissions inherited_within get_parent_path before_last_slash
    add_assignments add_role_level add_levels merge_levels text_eq
inherits_both = refl

get_inherited_permissions-Inherits_example :
    (d : RoleLevels) × (get_inherited_permissions leaf table ≡ some d)
    × ((role_id : ℕ) (level : PermissionLevel)
        → (gives role_id level d ≡ true) ↔ Inherits table role_id level leaf)
get_inherited_permissions-Inherits_example = get_inherited_permissions-Inherits leaf table

get_inheritance_chain-IsChain_example :
    (l : List ChainEntry) × (get_inheritance_chain leaf table ≡ some l) × IsChain table leaf l
get_inheritance_chain-IsChain_example = get_inheritance_chain-IsChain 47 (codes "a/b/c") table

leaf_parent : get_parent_path leaf ≡ some (codes "/a/b")
unfolding get_parent_path before_last_slash
leaf_parent = refl

has_rows : exists (at_path (codes "/a/b")) table ≡ true
unfolding text_eq
has_rows = refl

abbrev broken_table : Assignments
broken_table = (break_inheritance (codes "/a/b") table).1

still_granted : grants_at (codes "/a/b") 4 write broken_table ≡ true
unfolding break_inheritance text_eq
still_granted = refl

break_inheritance-stops_example : grants_at (codes "/a/b") 4 write table ≡ true
break_inheritance-stops_example =
    break_inheritance-stops (codes "/a/b") leaf 4 write table has_rows leaf_parent
      (from_parent leaf_parent still_granted)

restore_inheritance-break_inheritance_example :
    (restore_inheritance (codes "/a/b") (break_inheritance (codes "/a/b") table).1).1 ≡ table
restore_inheritance-break_inheritance_example =
    restore_inheritance-break_inheritance (codes "/a/b") table
      ((λ _. (refl, refl)), ((λ _. (refl, refl)), tt))

abbrev experts : List Role
experts = record { id = 3; name = codes "Expert"; priority = pos 1 } ∷ []

abbrev expert_reads : EffectivePermission
expert_reads =
    inherited_permission leaf (record { id = 3; name = codes "Expert"; priority = pos 1 }) expert
      read

leaf_plain : should_break_inheritance leaf ≡ false
unfolding should_break_inheritance contains_any last_is_partner split contains starts_with
leaf_plain = refl

leaf_permissions : apply_inheritance leaf experts table [] ≡ some (ok (expert_reads ∷ []))
unfolding apply_inheritance should_break_inheritance contains_any last_is_partner split contains
    starts_with existing_levels inherit_roles inherit_levels role_name_of get_inherited_permissions
    inherited_within get_parent_path before_last_slash add_assignments add_role_level add_levels
    merge_levels text_eq
leaf_permissions = refl

apply_inheritance-Inherits_example :
    (more : List EffectivePermission) × (expert_reads ∷ [] ≡ [] ++ more)
    × All (λ p. Inherits table p.role_id p.permission_level leaf) more
    × ((role_id : ℕ) (level : PermissionLevel)
        → exists (λ (r : Role). r.id == role_id) experts ≡ true
        → Inherits table role_id level leaf
        → permits role_id level (expert_reads ∷ []) ≡ true)
apply_inheritance-Inherits_example =
    apply_inheritance-Inherits leaf experts table [] leaf_plain leaf_permissions
