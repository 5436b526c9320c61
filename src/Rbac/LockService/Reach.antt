-- ===== src/Rbac/LockService/Reach.antt =====
-- Histories of calls of `LockService`.
use pool_shrpnt.Prelude.{ℕ, ◌≡◌, List, [], ◌∷◌, Option}
use pool_shrpnt.Prelude.Text.{Text}
use pool_shrpnt.Prelude.Int.{ℤ}
use pool_shrpnt.Prelude.Table.{first}
use pool_shrpnt.Prelude.Outcome.{ok}
use pool_shrpnt.Locks.Model.{LockType}
use pool_shrpnt.Rbac.LockService.{
  FolderDb, is_active_at, get_active_lock, LockRequest, create_manual_lock, remove_lock,
  extend_lock,
}
use pool_shrpnt.Rbac.LockService.Access.{check_lock_override, get_active_locks}
use pool_shrpnt.Rbac.LockService.Single.{
  IsSingle, get_active_lock-IsSingle, create_manual_lock-IsSingle, remove_lock-IsSingle,
  extend_lock-IsSingle, get_active_locks-IsSingle, check_lock_override-IsSingle,
}

-- A call of a method, with the identifier and the time that it draws.
pub data Call : Type 0 where
  create : ℕ → LockRequest → ℕ → Call
  remove : ℕ → ℕ → Option Text → ℕ → Call
  extend : ℕ → ℕ → ℤ → ℕ → Call
  list_active : Option ℕ → Option LockType → ℕ → Call
  check : ℕ → ℕ → ℕ → Call

-- The database after a call, also one that raises.
pub step : Call → FolderDb → FolderDb
step (create id q now) db = (create_manual_lock id q now db).1
step (remove lock_id removed_by reason now) db = (remove_lock lock_id removed_by reason now db).1
step (extend lock_id extended_by hours now) db = (extend_lock lock_id extended_by hours now db).1
step (list_active folder_id lock_type now) db = (get_active_locks folder_id lock_type now db).1
step (check folder_id user_id now) db = (check_lock_override folder_id user_id now db).1

pub run : List Call → FolderDb → FolderDb
unfolding step
run [] db = db
run (c ∷ cs) db = run cs (step c db)

step-IsSingle : (c : Call) (db : FolderDb) → IsSingle db.locks → IsSingle (step c db).locks
unfolding step
step-IsSingle (create id q now) db h = create_manual_lock-IsSingle id q now db h
step-IsSingle (remove lock_id removed_by reason now) db h =
    remove_lock-IsSingle lock_id removed_by reason now db h
step-IsSingle (extend lock_id extended_by hours now) db h =
    extend_lock-IsSingle lock_id extended_by hours now db h
step-IsSingle (list_active folder_id lock_type now) db h =
    get_active_locks-IsSingle folder_id lock_type now db h
step-IsSingle (check folder_id user_id now) db h =
    check_lock_override-IsSingle folder_id user_id now db h

run-IsSingle : (cs : List Call) (db : FolderDb) → IsSingle db.locks → IsSingle (run cs db).locks
unfolding run
run-IsSingle [] db h = h
run-IsSingle (c ∷ cs) db h = run-IsSingle cs (step c db) (step-IsSingle c db h)

-- After any history of calls from a database in which no folder has two active locks, no folder has
-- two, and the search for the active lock of a folder raises nothing.
pub run-get_active_lock :
    (cs : List Call) (db : FolderDb) (folder_id : ℕ)
    → IsSingle db.locks
    → IsSingle (run cs db).locks
      × (get_active_lock folder_id (run cs db).locks
          ≡ ok (first (is_active_at folder_id) (run cs db).locks))
run-get_active_lock cs db folder_id h =
    let single = run-IsSingle cs db h in
    (single, get_active_lock-IsSingle folder_id (run cs db).locks single)
