-- ===== src/Rbac/Inheritance.antt =====
-- `InheritanceService` of api/services/rbac/inheritance_service.py over the table
-- `permission_assignment`. A dict from roles to sets of levels is the list of its items in the order
-- of insertion. `cascade_permissions` walks the folders below a folder; `_get_child_folders` is a stub
-- that gives none, so the loop has no round and the calls of it are left out.
pub mod Sources
pub mod Breaking
pub mod Additions
mod Tests
use pool_shrpnt.Prelude.{
  ℕ, zero, suc, Bool, true, false, not, ◌&&◌, ◌||◌, ◌++◌, List, [], ◌∷◌, Option, none, some, map,
  length, ◌==◌, if◌then◌else◌,
}
use pool_shrpnt.Prelude.Text.{Text, text_eq}
use pool_shrpnt.Prelude.Table.{select, first, update, exists}
use pool_shrpnt.Prelude.Outcome.{Result, ok, err, ◌>>=◌}
use pool_shrpnt.Rbac.Model.{
  PermissionAssignment, PermissionLevel, level_eq, Source, inherited, cascaded,
}
use pool_shrpnt.Rbac.Roles.{Role, RoleName, role_name_of}
use pool_shrpnt.Rbac.Paths.{get_parent_path, should_break_inheritance}
use pool_shrpnt.Rbac.PermissionEngine.{EffectivePermission, add_level}

abbrev pub Assignments : Type 0
Assignments = List PermissionAssignment

abbrev pub at_path : Text → PermissionAssignment → Bool
at_path folder_path a = text_eq a.folder_path folder_path

-- A role and the levels that it has.
abbrev pub RoleLevels : Type 0
RoleLevels = List (ℕ × List PermissionLevel)

-- `if role_id not in d: d[role_id] = set()` and `d[role_id].add(level)`.
pub add_role_level : ℕ → PermissionLevel → RoleLevels → RoleLevels
add_role_level role_id level [] = (role_id, level ∷ []) ∷ []
add_role_level role_id level ((id, levels) ∷ rest) =
    if id == role_id
    then (id, add_level level levels) ∷ rest
    else (id, levels) ∷ add_role_level role_id level rest

-- The loop over the assignments of the parent.
pub add_assignments : Assignments → RoleLevels → RoleLevels
unfolding add_role_level
add_assignments [] d = d
add_assignments (a ∷ rest) d = add_assignments rest (add_role_level a.role_id a.permission_level d)

-- `d[role_id].update(levels)`
pub add_levels : ℕ → List PermissionLevel → RoleLevels → RoleLevels
unfolding add_role_level
add_levels role_id [] d = d
add_levels role_id (l ∷ ls) d = add_levels role_id ls (add_role_level role_id l d)

-- The loop over the items of the grandparent.
pub merge_levels : RoleLevels → RoleLevels → RoleLevels
unfolding add_levels
merge_levels [] d = d
merge_levels ((role_id, levels) ∷ rest) d = merge_levels rest (add_levels role_id levels d)

abbrev pub is_broken : Text → Assignments → Bool
is_broken folder_path db = exists (λ a. at_path folder_path a && a.inheritance_broken) db

-- The recursion, with the number of calls that may still be made; `none` if they are used up.
pub inherited_within : ℕ → Text → Assignments → Option RoleLevels
unfolding add_assignments merge_levels
inherited_within zero folder_path db = none
inherited_within (suc calls) folder_path db = elim (get_parent_path folder_path) [
  | none ↦ some []
  | some parent_path ↦
      let explicit = add_assignments (select (at_path parent_path) db) [] in
      if is_broken parent_path db
      then some explicit
      else elim (inherited_within calls parent_path db) [
        | none ↦ none
        | some above ↦ some (merge_levels above explicit)
      ]
]

-- Each call is for a shorter path, so there are no more of them than the path has characters, and one.
pub get_inherited_permissions : Text → Assignments → Option RoleLevels
unfolding inherited_within
get_inherited_permissions folder_path = inherited_within (suc (length folder_path)) folder_path

pub record ChainEntry : Type 0 where
  pub folder_path : Text
  pub inheritance_broken : Bool
  pub permission_count : ℕ

abbrev pub chain_entry : Text → Assignments → ChainEntry
chain_entry folder_path db = record {
  folder_path = folder_path;
  inheritance_broken = is_broken folder_path db;
  permission_count = length (select (at_path folder_path) db);
}

-- The loop of `get_inheritance_chain` from a path on, with the number of rounds that it may make.
pub chain_within : ℕ → Text → Assignments → Option (List ChainEntry)
chain_within zero folder_path db = none
chain_within (suc rounds) folder_path db =
    if is_broken folder_path db
    then some (chain_entry folder_path db ∷ [])
    else elim (get_parent_path folder_path) [
      | none ↦ some (chain_entry folder_path db ∷ [])
      | some parent_path ↦ elim (chain_within rounds parent_path db) [
        | none ↦ none
        | some rest ↦ some (chain_entry folder_path db ∷ rest)
      ]
    ]

-- `while current_path:` makes no round for an empty path.
pub get_inheritance_chain : Text → Assignments → Option (List ChainEntry)
unfolding chain_within
get_inheritance_chain [] db = some []
get_inheritance_chain (c ∷ s) db = chain_within (suc (length (c ∷ s))) (c ∷ s) db

pub break_inheritance : Text → Assignments → Bool × Assignments
break_inheritance folder_path db =
    if exists (at_path folder_path) db
    then (true, update (at_path folder_path) (λ a. record a { inheritance_broken = true }) db)
    else (false, db)

abbrev pub is_derived : Source → Bool
is_derived cascaded = true
is_derived inherited = true
is_derived _ = false

-- Derived assignments are deleted, the others no longer break the inheritance.
pub restore_inheritance : Text → Assignments → Bool × Assignments
restore_inheritance folder_path db =
    if exists (at_path folder_path) db
    then (
      true,
      update (at_path folder_path) (λ a. record a { inheritance_broken = false })
          (select (λ a. not (at_path folder_path a && is_derived a.source)) db),
    )
    else (false, db)

-- The levels that the calculation has given to each role.
pub existing_levels : List EffectivePermission → RoleLevels → RoleLevels
unfolding add_role_level
existing_levels [] d = d
existing_levels (p ∷ ps) d = existing_levels ps (add_role_level p.role_id p.permission_level d)

abbrev pub levels_of : ℕ → RoleLevels → List PermissionLevel
levels_of role_id [] = []
levels_of role_id ((id, levels) ∷ rest) = if id == role_id then levels else levels_of role_id rest

abbrev pub has_level : ℕ → PermissionLevel → RoleLevels → Bool
has_level role_id level d = exists (level_eq level) (levels_of role_id d)

abbrev pub inherited_permission : Text → Role → RoleName → PermissionLevel → EffectivePermission
inherited_permission folder_path role name level = record {
  folder_path = folder_path;
  role_id = role.id;
  role_name = name;
  permission_level = level;
  source = inherited;
  inheritance_broken = false;
  exception_applied = false;
  exception_reason = none;
}

-- The loop over the levels of a role. A role that is not in the table is passed over; for a role with
-- an unknown name the construction of the EffectivePermission raises.
pub inherit_levels :
    Text → List Role → RoleLevels → ℕ → List PermissionLevel → Result (List EffectivePermission)
inherit_levels folder_path roles existing role_id [] = ok []
inherit_levels folder_path roles existing role_id (level ∷ levels) =
    inherit_levels folder_path roles existing role_id levels >>= λ rest.
    if has_level role_id level existing
    then ok rest
    else elim (first (λ (r : Role). r.id == role_id) roles) [
      | none ↦ ok rest
      | some role ↦ role_name_of role.name >>= λ name.
          ok (inherited_permission folder_path role name level ∷ rest)
    ]

-- The loop over the items inherited.
pub inherit_roles : Text → List Role → RoleLevels → RoleLevels → Result (List EffectivePermission)
inherit_roles folder_path roles existing [] = ok []
inherit_roles folder_path roles existing ((role_id, levels) ∷ rest) = do
  own ← inherit_levels folder_path roles existing role_id levels
  others ← inherit_roles folder_path roles existing rest
  ok (own ++ others)

pub apply_inheritance :
    Text
    → List Role
    → Assignments
    → List EffectivePermission
    → Option (Result (List EffectivePermission))
unfolding inherit_roles inherit_levels existing_levels
apply_inheritance folder_path roles db calculated =
    if should_break_inheritance folder_path
    then some
        (ok (map (λ (p : EffectivePermission). record p { inheritance_broken = true }) calculated))
    else elim (get_inherited_permissions folder_path db) [
      | none ↦ none
      | some above ↦ some (
          inherit_roles folder_path roles (existing_levels calculated []) above >>= λ more.
          ok (calculated ++ more))
    ]
