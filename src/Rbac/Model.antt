-- ===== src/Rbac/Model.antt =====
-- The rows of `permission_assignment` (api/models/rbac.py) and the permission levels of
-- api/schemas/rbac.py.
use pool_shrpnt.Prelude.{◌≡◌, arith, ℕ, Bool, true, false, Option}
use pool_shrpnt.Prelude.Text.{Text}

pub data PermissionLevel : Type 0 where
  read write delete manage : PermissionLevel

abbrev pub level_eq : PermissionLevel → PermissionLevel → Bool
level_eq read read = true
level_eq write write = true
level_eq delete delete = true
level_eq manage manage = true
level_eq _ _ = false

pub level_eq_refl : (l : PermissionLevel) → level_eq l l ≡ true
level_eq_refl l = ground arith

pub level_eq_sound : (l m : PermissionLevel) → level_eq l m ≡ true → l ≡ m
level_eq_sound l m h = ground arith

pub data Source : Type 0 where
  manual_source base_rule segregation_rule exception inherited cascaded : Source

pub data SyncStatus : Type 0 where
  pending syncing synced failed needs_update : SyncStatus

pub record PermissionAssignment : Type 0 where
  pub id : ℕ
  pub folder_path : Text
  pub resource_id : Option ℕ
  pub is_sharepoint_folder : Bool
  pub role_id : ℕ
  pub permission_level : PermissionLevel
  pub permission_type : Option PermissionLevel
  pub inheritance_broken : Bool
  pub source : Source
  pub sharepoint_sync_status : Option SyncStatus
  pub is_locked : Bool
  pub lock_applied_at : Option ℕ
