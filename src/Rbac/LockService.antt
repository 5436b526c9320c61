-- ===== src/Rbac/LockService.antt =====
-- `LockService` and `LockOverrideEngine` of api/services/rbac/lock_service.py: manual locks on
-- folders. A method that raises before its commit leaves the database as it was. New
-- identifiers and the time of a call are arguments.
pub mod Access
pub mod Single
pub mod Reach
pub mod Effects
mod Tests
use pool_shrpnt.Prelude.{
  is_some, ℕ, zero, suc, Bool, true, false, not, ◌&&◌, List, [], ◌∷◌, ◌++◌, Option, none, some, ltb,
  leb, ◌==◌, if◌then◌else◌,
}
use pool_shrpnt.Prelude.Text.{Text, codes}
use pool_shrpnt.Prelude.Int.{ℤ, pos, negsuc}
use pool_shrpnt.Prelude.Table.{select, update, insert, exists}
use pool_shrpnt.Prelude.Clock.{shift_hours}
use pool_shrpnt.Prelude.Outcome.{
  Result, ok, err, lock_error, overflow_error, multiple_results, import_error, validation_error,
}
use pool_shrpnt.Prelude.Raise.{Action, pure, gets, lift, modify, raise_if, ◌>>=◌, ◌>>◌}
use pool_shrpnt.Locks.Model.{
  LockState, LockType, manual, is_manual, is_automatic, blank_state, is_value,
}
use pool_shrpnt.Rbac.Model.{PermissionAssignment, PermissionLevel, needs_update}

pub data AuditAction : Type 0 where
  manual_lock_created lock_removed lock_extended : AuditAction

pub record AuditEntry : Type 0 where
  pub action : AuditAction
  pub folder_path : Text
  pub user_id : ℕ

-- The tables that the service reads and writes.
pub record FolderDb : Type 0 where
  pub locks : List LockState
  pub assignments : List PermissionAssignment
  pub audit : List AuditEntry

-- `scalar_one_or_none()`
pub one_or_none : {A : Type 0} → List A → Result (Option A)
one_or_none [] = ok none
one_or_none (x ∷ []) = ok (some x)
one_or_none (x ∷ y ∷ xs) = err multiple_results

-- `LockState.folder_id == folder_id, LockState.is_active`
abbrev pub is_active_at : ℕ → LockState → Bool
is_active_at folder_id s = s.folder_id == folder_id && s.is_active

abbrev pub is_active_lock : ℕ → LockState → Bool
is_active_lock lock_id s = s.id == lock_id && s.is_active

pub get_active_lock : ℕ → List LockState → Result (Option LockState)
unfolding one_or_none
get_active_lock folder_id locks = one_or_none (select (is_active_at folder_id) locks)

abbrev pub overridden : ℕ → Text → ℕ → LockState → LockState
overridden override_by reason now s = record s {
  is_active = false;
  removed_at = some now;
  removed_by = some override_by;
  removal_reason = some (codes "Overridden by manual lock: " ++ reason);
}

-- A manual lock in force is refused; an automatic one is overridden.
pub override_existing : Option LockState → ℕ → Text → ℕ → List LockState → Result (List LockState)
override_existing none override_by reason now locks = ok locks
override_existing (some existing) override_by reason now locks =
    if is_manual existing.lock_type
    then err lock_error
    else ok (update (λ s. s.id == existing.id) (overridden override_by reason now) locks)

-- `if expires_in_hours:` takes 0 for no expiry.
pub expiry_after : Option ℤ → ℕ → Result (Option ℕ)
unfolding shift_hours
expiry_after none now = ok none
expiry_after (some (pos zero)) now = ok none
expiry_after (some hours) now = elim (shift_hours now hours) [
  | none ↦ err overflow_error
  | some at ↦ ok (some at)
]

abbrev pub of_folder : ℕ → PermissionAssignment → Bool
of_folder folder_id a = is_value a.resource_id folder_id && a.is_sharepoint_folder

abbrev pub closed_to_writes : ℕ → PermissionAssignment → PermissionAssignment
closed_to_writes now a = record a {
  sharepoint_sync_status = some needs_update;
  is_locked = true;
  lock_applied_at = some now;
}

abbrev pub reopened : PermissionAssignment → PermissionAssignment
reopened a = record a {
  sharepoint_sync_status = some needs_update;
  is_locked = false;
  lock_applied_at = none;
}

abbrev pub apply_lock_permissions : ℕ → ℕ → List PermissionAssignment → List PermissionAssignment
apply_lock_permissions folder_id now = update (of_folder folder_id) (closed_to_writes now)

abbrev pub restore_calculated_permissions :
    ℕ → List PermissionAssignment → List PermissionAssignment
restore_calculated_permissions folder_id = update (of_folder folder_id) reopened

-- What a caller asks of `create_manual_lock`.
pub record LockRequest : Type 0 where
  pub folder_path : Text
  pub folder_id : ℕ
  pub locked_by : ℕ
  pub reason : Text
  pub expires_in_hours : Option ℤ

abbrev pub new_lock : ℕ → LockRequest → Option ℕ → ℕ → LockState
new_lock id q expires_at now = record (blank_state id q.folder_id q.folder_path now) {
  locked_by = some q.locked_by;
  locked_at = some now;
  lock_reason = some q.reason;
  expires_at = expires_at;
  lock_type = manual;
}

pub create_manual_lock : ℕ → LockRequest → ℕ → Action FolderDb LockState
unfolding get_active_lock override_existing expiry_after
create_manual_lock id q now = do
  db ← gets (λ d. d)
  existing_lock ← lift (get_active_lock q.folder_id db.locks)
  locks ← lift (override_existing existing_lock q.locked_by q.reason now db.locks)
  expires_at ← lift (expiry_after q.expires_in_hours now)
  modify (λ d. record d {
    locks = insert (new_lock id q expires_at now) locks;
    assignments = apply_lock_permissions q.folder_id now d.assignments;
    audit =
        insert
          (record {
            action = manual_lock_created;
            folder_path = q.folder_path;
            user_id = q.locked_by;
          })
          d.audit;
  })
  pure (new_lock id q expires_at now)

-- Its first statements import `User` from `api/models/user.py`, which declares no such class, so the
-- lookup of the user and the query for the roles are never reached.
pub check_override_permission : ℕ → Result (Unit {0})
check_override_permission user_id = err import_error

-- The lock that an operation names, or a LockError.
pub find_lock : ℕ → List LockState → Result LockState
unfolding one_or_none
find_lock lock_id locks = elim (one_or_none (select (is_active_lock lock_id) locks)) [
  | ok none ↦ err lock_error
  | ok (some lock) ↦ ok lock
  | err e ↦ err e
]

abbrev pub removed : ℕ → Option Text → ℕ → LockState → LockState
removed removed_by reason now s = record s {
  is_active = false;
  removed_at = some now;
  removed_by = some removed_by;
  removal_reason = reason;
}

-- The permission of a user who does not own a manual lock is checked.
pub may_remove : ℕ → LockState → Result (Unit {0})
unfolding check_override_permission
may_remove removed_by lock =
    if is_manual lock.lock_type && not (is_value lock.locked_by removed_by)
    then check_override_permission removed_by
    else ok tt

pub remove_lock : ℕ → ℕ → Option Text → ℕ → Action FolderDb LockState
unfolding find_lock may_remove
remove_lock lock_id removed_by reason now = do
  db ← gets (λ d. d)
  lock ← lift (find_lock lock_id db.locks)
  lift (may_remove removed_by lock)
  modify (λ d. record d {
    locks = update (λ s. s.id == lock.id) (removed removed_by reason now) d.locks;
    assignments = restore_calculated_permissions lock.folder_id d.assignments;
    audit =
        insert
          (record { action = lock_removed; folder_path = lock.folder_path; user_id = removed_by })
          d.audit;
  })
  pure (removed removed_by reason now lock)

-- `settings.lock_max_extension_hours`
abbrev pub lock_max_extension_hours : ℕ
lock_max_extension_hours = 168

pub too_long : ℤ → Bool
too_long (pos hours) = ltb lock_max_extension_hours hours
too_long (negsuc hours) = false

pub new_expiration : LockState → ℤ → ℕ → Result ℕ
unfolding shift_hours
new_expiration lock hours now =
    elim (shift_hours (elim lock.expires_at [ none ↦ now | some at ↦ at ]) hours) [
      | none ↦ err overflow_error
      | some at ↦ ok at
    ]

abbrev pub extended : ℕ → ℕ → ℕ → LockState → LockState
extended extended_by expires_at now s = record s {
  expires_at = some expires_at;
  last_extended_at = some now;
  last_extended_by = some extended_by;
}

-- The fields that `LockResponse` requires: a row that lacks one raises pydantic's ValidationError.
pub is_answerable : LockState → Bool
is_answerable s = is_some s.locked_by && is_some s.locked_at && is_some s.lock_reason

-- The answer is built after the commit, so what it raises leaves the extension in the table.
pub extend_lock : ℕ → ℕ → ℤ → ℕ → Action FolderDb LockState
unfolding find_lock check_override_permission too_long new_expiration is_answerable
extend_lock lock_id extended_by additional_hours now = do
  db ← gets (λ d. d)
  lock ← lift (find_lock lock_id db.locks)
  lift
      (if is_value lock.locked_by extended_by then ok tt else check_override_permission extended_by)
  raise_if (too_long additional_hours) lock_error
  expires_at ← lift (new_expiration lock additional_hours now)
  modify (λ d. record d {
    locks = update (λ s. s.id == lock.id) (extended extended_by expires_at now) d.locks;
    audit =
        insert
          (record { action = lock_extended; folder_path = lock.folder_path; user_id = extended_by })
          d.audit;
  })
  raise_if (not (is_answerable lock)) validation_error
  pure (extended extended_by expires_at now lock)
