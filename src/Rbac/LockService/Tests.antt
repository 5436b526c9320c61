-- ===== src/Rbac/LockService/Tests.antt =====
-- Runs of the lock service on a small database, and instances of its theorems.
use pool_shrpnt.Prelude.{
  ◌*◌, ◌≡◌, refl, true, false, not, List, [], ◌∷◌, none, some, All, arith, ◌+◌,
}
use pool_shrpnt.Prelude.Text.{codes}
use pool_shrpnt.Prelude.Int.{pos}
use pool_shrpnt.Prelude.Table.{first}
use pool_shrpnt.Prelude.Clock.{hour, shift_hours}
use pool_shrpnt.Prelude.Outcome.{Failure, ok, err, lock_error, import_error}
use pool_shrpnt.Locks.Model.{LockState, manual, blank_state}
use pool_shrpnt.Rbac.Model.{PermissionAssignment, PermissionLevel, manual_source}
use pool_shrpnt.Rbac.LockService.{
  FolderDb, one_or_none, is_active_at, get_active_lock, override_existing, expiry_after, of_folder,
  LockRequest, new_lock, create_manual_lock, find_lock, removed, may_remove, remove_lock,
  extend_lock,
}
use pool_shrpnt.Rbac.LockService.Single.{IsSingle}
use pool_shrpnt.Rbac.LockService.Reach.{
  Call, create, remove, check, list_active, run, run-get_active_lock,
}
use pool_shrpnt.Rbac.LockService.Effects.{
  IsClosed, create_manual_lock-takes, create_manual_lock-refused, remove_lock-refused,
  remove_lock-frees, extend_lock-too_long,
}

abbrev automatic_lock : LockState
automatic_lock = blank_state 1 50 (codes "/a") 0

abbrev assignment : PermissionAssignment
assignment = record {
  id = 1;
  folder_path = codes "/a";
  resource_id = some 50;
  is_sharepoint_folder = true;
  role_id = 3;
  permission_level = PermissionLevel.write;
  permission_type = none;
  inheritance_broken = false;
  source = manual_source;
  sharepoint_sync_status = none;
  is_locked = false;
  lock_applied_at = none;
}

abbrev one_lock : FolderDb
one_lock = record { locks = automatic_lock ∷ []; assignments = assignment ∷ []; audit = [] }

one_lock-IsSingle : IsSingle one_lock.locks
one_lock-IsSingle folder_id = ground arith

abbrev request : LockRequest
request = record {
  folder_path = codes "/a";
  folder_id = 50;
  locked_by = 7;
  reason = codes "Audit";
  expires_in_hours = some (pos 2);
}

abbrev lock_made : LockState
lock_made = new_lock 2 request (some (100 + 2 * hour)) 100

-- The database after user 7 has locked the folder.
abbrev locked_db : FolderDb
locked_db = (create_manual_lock 2 request 100 one_lock).1

request_succeeds : create_manual_lock 2 request 100 one_lock ≡ (ok lock_made, locked_db)
unfolding create_manual_lock get_active_lock one_or_none override_existing expiry_after shift_hours
request_succeeds = refl

create_manual_lock-takes_example :
    (get_active_lock 50 locked_db.locks ≡ ok (some lock_made))
    × (lock_made.lock_type ≡ manual)
    × (lock_made.locked_by ≡ some 7)
    × IsClosed 50 locked_db.assignments
create_manual_lock-takes_example =
    create_manual_lock-takes 2 request 100 one_lock one_lock-IsSingle request_succeeds

-- One manual lock of user 7.
abbrev manual_db : FolderDb
manual_db = record one_lock { locks = lock_made ∷ [] }

manual_db-IsSingle : IsSingle manual_db.locks
manual_db-IsSingle folder_id = ground arith

second_lock_refused : create_manual_lock 3 request 200 manual_db ≡ (err lock_error, manual_db)
second_lock_refused =
    create_manual_lock-refused 3 request 200 manual_db manual_db-IsSingle refl refl

lock_found : find_lock 2 manual_db.locks ≡ ok lock_made
unfolding find_lock one_or_none
lock_found = refl

removal_refused : remove_lock 2 9 none 200 manual_db ≡ (err import_error, manual_db)
removal_refused = remove_lock-refused 2 9 none 200 manual_db lock_found refl (λ e. cc)

-- The database after its owner has removed that lock.
abbrev freed_db : FolderDb
freed_db = (remove_lock 2 7 none 200 manual_db).1

removal_succeeds :
    remove_lock 2 7 none 200 manual_db ≡ (ok (removed 7 none 200 lock_made), freed_db)
unfolding remove_lock find_lock one_or_none may_remove
removal_succeeds = refl

remove_lock-frees_example :
    (get_active_lock 50 freed_db.locks ≡ ok none)
    × All (λ a. of_folder 50 a ≡ true → not a.is_locked ≡ true) freed_db.assignments
remove_lock-frees_example =
    remove_lock-frees 2 7 none 200 manual_db manual_db-IsSingle removal_succeeds

long_extension_refused :
    (f : Failure) × (extend_lock 2 7 (pos 169) 200 manual_db ≡ (err f, manual_db))
long_extension_refused = extend_lock-too_long 2 7 169 200 manual_db (omega arith)

abbrev history : List Call
history =
    create 2 request 100
    ∷ create 3 request 200
    ∷ remove 2 7 none 300
    ∷ check 50 9 400
    ∷ list_active none none 500
    ∷ []

run-get_active_lock_example :
    IsSingle (run history one_lock).locks
    × (get_active_lock 50 (run history one_lock).locks
        ≡ ok (first (is_active_at 50) (run history one_lock).locks))
run-get_active_lock_example = run-get_active_lock history one_lock 50 one_lock-IsSingle
