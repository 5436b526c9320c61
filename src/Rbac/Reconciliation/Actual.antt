-- ===== src/Rbac/Reconciliation/Actual.antt =====
-- The permissions that SharePoint has: the answers of Microsoft Graph and `get_actual_permissions` of
-- api/services/rbac/reconciliation_service.py.
use pool_shrpnt.Prelude.{
  ℕ, ◌+◌, ◌&&◌, List, [], ◌∷◌, Option, none, some, map, ltb, leb, if◌then◌else◌,
}
use pool_shrpnt.Prelude.Text.{Text, codes, text_eq}
use pool_shrpnt.Prelude.Outcome.{Result, ok, err}
use pool_shrpnt.Rbac.Model.{PermissionLevel, read, write, delete, manage}
use pool_shrpnt.Rbac.PermissionEngine.{rank}

-- Whom an entry of the response is for, with the `id` that it gives.
pub data GrantedTo : Type 0 where
  group user : Option Text → GrantedTo
  nobody : GrantedTo

pub record Permission : Type 0 where
  pub granted_to : GrantedTo
  pub roles : List Text

-- The two calls of Graph. `none` stands for an answer that is empty or without the key that is read.
pub record GraphClient : Type 0 where
  pub get_drive_item : Text → Text → Result (Option Text)
  pub get_permissions : Text → Text → Result (Option (List Permission))

-- `role.lower()`. No character outside ASCII is lowered to a letter of the names in the mapping.
abbrev pub to_lower : ℕ → ℕ
to_lower c = if leb 65 c && leb c 90 then c + 32 else c

abbrev pub lower : Text → Text
lower s = map to_lower s

-- `_permission_mapping`
unfoldable pub permission_mapping : Text → Option PermissionLevel
permission_mapping s =
    if text_eq s (codes "read")
    then some read
    else if text_eq s (codes "write")
    then some write
    else if text_eq s (codes "edit")
    then some write
    else if text_eq s (codes "delete")
    then some delete
    else if text_eq s (codes "fullcontrol")
    then some manage
    else if text_eq s (codes "manage")
    then some manage
    else none

unfoldable pub mapped_permissions : List Text → List PermissionLevel
unfolding permission_mapping
mapped_permissions [] = []
mapped_permissions (role ∷ roles) =
    let rest = mapped_permissions roles in
    elim (permission_mapping (lower role)) [ none ↦ rest | some level ↦ level ∷ rest ]

-- `max` keeps the first of the greatest.
unfoldable pub max_level : PermissionLevel → List PermissionLevel → PermissionLevel
max_level level [] = level
max_level level (l ∷ ls) = if ltb (rank level) (rank l) then max_level l ls else max_level level ls

unfoldable pub map_sharepoint_roles : List Text → Option PermissionLevel
unfolding mapped_permissions max_level
map_sharepoint_roles roles = elim (mapped_permissions roles) [
  | [] ↦ none
  | level ∷ levels ↦ some (max_level level levels)
]

abbrev pub ActualLevels : Type 0
ActualLevels = List (Text × PermissionLevel)

-- `d[key] = level`
unfoldable pub set_level : Text → PermissionLevel → ActualLevels → ActualLevels
set_level key level [] = (key, level) ∷ []
set_level key level ((k, l) ∷ rest) =
    if text_eq k key then (k, level) ∷ rest else (k, l) ∷ set_level key level rest

-- An identifier that is missing or empty is passed over, and so is an entry without known roles.
abbrev pub add_granted : Option Text → List Text → ActualLevels → ActualLevels
add_granted none roles actual = actual
add_granted (some []) roles actual = actual
add_granted (some (c ∷ s)) roles actual = elim (map_sharepoint_roles roles) [
  | none ↦ actual
  | some level ↦ set_level (c ∷ s) level actual
]

abbrev pub add_permission : GrantedTo → List Text → ActualLevels → ActualLevels
add_permission (group id) roles actual = add_granted id roles actual
add_permission (user id) roles actual = add_granted id roles actual
add_permission nobody roles actual = actual

unfoldable pub add_permissions : List Permission → ActualLevels → ActualLevels
unfolding map_sharepoint_roles set_level
add_permissions [] actual = actual
add_permissions (p ∷ ps) actual = add_permissions ps (add_permission p.granted_to p.roles actual)

-- An exception of Graph is logged, and what there is so far is returned.
unfoldable pub get_actual_permissions : Option GraphClient → Text → Text → ActualLevels
unfolding add_permissions
get_actual_permissions none site_id folder_path = []
get_actual_permissions (some client) site_id folder_path =
    elim (client.get_drive_item site_id folder_path) [
      | err e ↦ []
      | ok none ↦ []
      | ok (some item_id) ↦ elim (client.get_permissions site_id item_id) [
        | err e ↦ []
        | ok none ↦ []
        | ok (some permissions) ↦ add_permissions permissions []
      ]
    ]
