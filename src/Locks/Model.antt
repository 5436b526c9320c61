-- ===== src/Locks/Model.antt =====
-- The rows of the tables `lock_rule`, `lock_state`, `lock_transition_log` and `order_em`, as
-- api/models/lock.py and api/models/contract.py declare them. Identifiers are numbers that are
-- only compared; a text is the list of its code points; a time is in microseconds.
use pool_shrpnt.Prelude.{ℕ, Bool, true, false, Option, none, some, ◌==◌}
use pool_shrpnt.Prelude.Text.{Text}
use pool_shrpnt.Prelude.Int.{ℤ}

pub data LockWindowType : Type 0 where
  pre_release active limited locked : LockWindowType

pub data LockType : Type 0 where
  manual automatic : LockType

pub data PermissionLevel : Type 0 where
  full write read : PermissionLevel

abbrev pub is_manual : LockType → Bool
is_manual manual = true
is_manual automatic = false

abbrev pub is_automatic : LockType → Bool
is_automatic manual = false
is_automatic automatic = true

abbrev pub window_eq : LockWindowType → LockWindowType → Bool
window_eq LockWindowType.pre_release LockWindowType.pre_release = true
window_eq LockWindowType.active LockWindowType.active = true
window_eq LockWindowType.limited LockWindowType.limited = true
window_eq LockWindowType.locked LockWindowType.locked = true
window_eq _ _ = false

abbrev pub permission_eq : PermissionLevel → PermissionLevel → Bool
permission_eq full full = true
permission_eq write write = true
permission_eq read read = true
permission_eq _ _ = false

pub record LockRule : Type 0 where
  pub id : ℕ
  pub order_em_id : ℕ
  pub rule_name : Text
  pub t_value : ℕ
  pub window_type : LockWindowType
  pub start_offset : ℤ
  pub end_offset : ℤ
  pub permission_level : PermissionLevel
  pub is_active : Bool
  pub created_by : Text
  pub created_at : ℕ
  pub updated_at : Option ℕ

pub record LockState : Type 0 where
  pub id : ℕ
  pub order_em_id : Option ℕ
  pub folder_id : ℕ
  pub folder_path : Text
  pub current_state : Option LockWindowType
  pub permission_level : Option PermissionLevel
  pub locked_at : Option ℕ
  pub locked_by : Option ℕ
  pub locked_by_rule_id : Option ℕ
  pub lock_type : LockType
  pub lock_reason : Option Text
  pub expires_at : Option ℕ
  pub is_active : Bool
  pub is_manual_override : Bool
  pub override_reason : Option Text
  pub removed_at : Option ℕ
  pub removed_by : Option ℕ
  pub removal_reason : Option Text
  pub last_extended_at : Option ℕ
  pub last_extended_by : Option ℕ
  pub created_at : ℕ
  pub updated_at : Option ℕ
  pub cr_id : Option ℕ
  pub cr_expires_at : Option ℕ
  pub cr_reason : Option Text

-- A `LockState()` with no more than its non-null columns, as SQLAlchemy fills it in.
abbrev pub blank_state : ℕ → ℕ → Text → ℕ → LockState
blank_state id folder_id folder_path now = record {
  id = id;
  order_em_id = none;
  folder_id = folder_id;
  folder_path = folder_path;
  current_state = none;
  permission_level = none;
  locked_at = none;
  locked_by = none;
  locked_by_rule_id = none;
  lock_type = automatic;
  lock_reason = none;
  expires_at = none;
  is_active = true;
  is_manual_override = false;
  override_reason = none;
  removed_at = none;
  removed_by = none;
  removal_reason = none;
  last_extended_at = none;
  last_extended_by = none;
  created_at = now;
  updated_at = none;
  cr_id = none;
  cr_expires_at = none;
  cr_reason = none;
}

-- The states that transition logs name: a window type, or a word of a manual operation.
pub data StateName : Type 0 where
  window : LockWindowType → StateName
  unlocked_word locked_word expired_word : StateName

-- A row of `lock_transition_log`, with the reason left out.
pub record LockTransitionLog : Type 0 where
  pub lock_rule_id : Option ℕ
  pub order_em_id : Option ℕ
  pub folder_path : Text
  pub previous_state : Option StateName
  pub new_state : StateName
  pub previous_permission : Option PermissionLevel
  pub new_permission : PermissionLevel
  pub transitioned_at : ℕ
  pub evaluation_run_id : Option ℕ
  pub success : Bool

-- `lock.order_em_id == em_id`, where the column may be NULL.
abbrev pub is_value : Option ℕ → ℕ → Bool
is_value none n = false
is_value (some m) n = m == n
