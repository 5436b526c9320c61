-- ===== src/Rbac/LockService/Access.antt =====
-- Reading the locks in force: `get_active_locks`, `check_lock_override` and
-- `LockOverrideEngine.apply_lock_overrides`. Reading a lock whose time is over expires it.
use pool_shrpnt.Prelude.{
  ℕ, Bool, true, false, ◌&&◌, List, [], ◌∷◌, Option, none, some, ltb, leb, ◌==◌, if◌then◌else◌,
}
use pool_shrpnt.Prelude.Text.{codes}
use pool_shrpnt.Prelude.Table.{select, update}
use pool_shrpnt.Prelude.Outcome.{ok, err, type_error, validation_error}
use pool_shrpnt.Prelude.Raise.{Action, pure, gets, lift, ◌>>=◌}
use pool_shrpnt.Locks.Model.{LockState, LockType, is_manual, is_automatic, is_value}
use pool_shrpnt.Rbac.Model.{PermissionAssignment, PermissionLevel}
use pool_shrpnt.Rbac.LockService.{
  FolderDb, is_answerable, get_active_lock, restore_calculated_permissions,
}

-- `lock.expires_at and lock.expires_at < now`
abbrev pub is_over : ℕ → LockState → Bool
is_over now s = elim s.expires_at [ none ↦ false | some at ↦ ltb at now ]

abbrev pub expired : ℕ → LockState → LockState
expired now s = record s {
  is_active = false;
  removed_at = some now;
  removal_reason = some (codes "Expired");
}

unfoldable pub expire_lock : LockState → ℕ → FolderDb → FolderDb
expire_lock lock now db = record db {
  locks = update (λ s. s.id == lock.id) (expired now) db.locks;
  assignments = restore_calculated_permissions lock.folder_id db.assignments;
}

-- The filters of `get_active_locks`.
abbrev pub passes : Option ℕ → Option LockType → LockState → Bool
passes folder_id lock_type s =
    s.is_active && elim folder_id [ none ↦ true | some id ↦ s.folder_id == id ] && elim lock_type [
      | none ↦ true
      | some t ↦ if is_manual t then is_manual s.lock_type else is_automatic s.lock_type
    ]

-- `ORDER BY locked_at DESC`, which puts NULL first.
abbrev pub not_later : Option ℕ → Option ℕ → Bool
not_later a none = true
not_later none (some m) = false
not_later (some n) (some m) = leb n m

unfoldable pub place_newest : LockState → List LockState → List LockState
place_newest s [] = s ∷ []
place_newest s (x ∷ xs) =
    if not_later x.locked_at s.locked_at then s ∷ x ∷ xs else x ∷ place_newest s xs

unfoldable pub newest_first : List LockState → List LockState
unfolding place_newest
newest_first [] = []
newest_first (s ∷ ss) = place_newest s (newest_first ss)

-- The loop: a lock whose time is over is expired and committed, the others are answered. A lock that
-- lacks a field of the answer raises, and the locks behind it are not reached.
unfoldable pub live_locks : ℕ → List LockState → Action FolderDb (List LockState)
live_locks now [] db = (ok [], db)
live_locks now (lock ∷ locks) db =
    let (rest, db') =
      live_locks now locks (if is_over now lock then expire_lock lock now db else db) in
    if is_over now lock
    then (rest, db')
    else if is_answerable lock
    then (elim rest [ ok found ↦ ok (lock ∷ found) | err e ↦ err e ], db')
    else (err validation_error, db)

unfoldable pub get_active_locks : Option ℕ → Option LockType → ℕ → Action FolderDb (List LockState)
get_active_locks folder_id lock_type now db =
    live_locks now (newest_first (select (passes folder_id lock_type) db.locks)) db

-- The answer of `check_lock_override`; `locked` holds `can_access`.
pub data LockStatus : Type 0 where
  free : LockStatus
  locked : Bool → LockStatus

unfoldable pub status_of : Option LockState → ℕ → ℕ → Action FolderDb LockStatus
status_of none user_id now db = (ok free, db)
status_of (some lock) user_id now db =
    if is_over now lock
    then (ok free, expire_lock lock now db)
    else (ok (locked (is_value lock.locked_by user_id)), db)

unfoldable pub check_lock_override : ℕ → ℕ → ℕ → Action FolderDb LockStatus
check_lock_override folder_id user_id now = do
  db ← gets (λ d. d)
  lock ← lift (get_active_lock folder_id db.locks)
  status_of lock user_id now

abbrev pub read_only : PermissionAssignment → PermissionAssignment
read_only p = record p { permission_type = some PermissionLevel.read; is_locked = true }

-- `UUID(permission.resource_id)` raises for a permission with no resource.
unfoldable pub apply_lock_overrides :
    ℕ → ℕ → List PermissionAssignment → Action FolderDb (List PermissionAssignment)
apply_lock_overrides user_id now [] = pure []
apply_lock_overrides user_id now (p ∷ ps) = do
  folder_id ← lift (elim p.resource_id [ none ↦ err type_error | some id ↦ ok id ])
  status ← check_lock_override folder_id user_id now
  rest ← apply_lock_overrides user_id now ps
  pure (elim status [
    | free ↦ p ∷ rest
    | locked can_access ↦ if can_access then read_only p ∷ rest else rest
  ])
