-- ===== src/Rbac/LockService/Effects.antt =====
-- What the methods of `LockService` do to a folder, and when they refuse.
use pool_shrpnt.Prelude.{
  ℕ, ◌<◌, ◌≡◌, ◌≢◌, refl, sym, ◌∙◌, ap, Bool, true, not, inl, inr, List, Option, none, some, arith,
  ◌==◌, if◌then◌else◌, All,
}
use pool_shrpnt.Prelude.Text.{Text}
use pool_shrpnt.Prelude.Int.{pos}
use pool_shrpnt.Prelude.Table.{
  first, update, insert, first-insert, count-first, first-some, count-update_found, update-All,
}
use pool_shrpnt.Prelude.Outcome.{
  Failure, ok, err, lock_error, import_error, Result-cases, check-cases,
}
use pool_shrpnt.Locks.Model.{LockState, manual, is_value}
use pool_shrpnt.Rbac.Model.{PermissionAssignment}
use pool_shrpnt.Rbac.LockService.{
  FolderDb, is_active_at, is_active_lock, get_active_lock, of_folder, closed_to_writes,
  apply_lock_permissions, override_existing, LockRequest, create_manual_lock, new_lock,
  expiry_after, find_lock, may_remove, check_override_permission, remove_lock, removed, reopened,
  restore_calculated_permissions, extend_lock,
}
use pool_shrpnt.Rbac.LockService.Single.{
  remove_lock-IsSingle, one_or_none-first, IsSingle, get_active_lock-IsSingle,
  create_manual_lock-IsSingle, override-room,
}

-- Every permission on the folder is marked as locked.
abbrev pub IsClosed : ℕ → List PermissionAssignment → Type 0
IsClosed folder_id = All (λ a. of_folder folder_id a ≡ true → a.is_locked ≡ true)

-- What a successful call of `create_manual_lock` has computed.
record Created (id : ℕ) (q : LockRequest) (now : ℕ) (db : FolderDb) (lock : LockState)
    (db' : FolderDb) : Type 0 where
  locks : List LockState
  expires_at : Option ℕ
  overrode :
      override_existing
        (first (is_active_at q.folder_id) db.locks)
        q.locked_by
        q.reason
        now
        db.locks
      ≡ ok locks
  lock_is : lock ≡ new_lock id q expires_at now
  locks_are : db'.locks ≡ insert (new_lock id q expires_at now) locks
  closed : db'.assignments ≡ apply_lock_permissions q.folder_id now db.assignments

create-Created :
    (id : ℕ) (q : LockRequest) (now : ℕ) (db : FolderDb) {lock : LockState} {db' : FolderDb}
    → IsSingle db.locks
    → create_manual_lock id q now db ≡ (ok lock, db')
    → Created id q now db lock db'
unfolding create_manual_lock
create-Created id q now db {lock} {db'} h e =
    let e₁ = rw (get_active_lock-IsSingle q.folder_id db.locks h) at e in
    elim (Result-cases (
      override_existing (first (is_active_at q.folder_id) db.locks) q.locked_by q.reason now
        db.locks)) [
          | inr (f, refused) ↦ absurd (cc (rw refused at e₁))
          | inl (locks, overrode) ↦
              let e₂ = rw overrode at e₁ in
              elim (Result-cases (expiry_after q.expires_in_hours now)) [
                | inr (f, raised) ↦ absurd (cc (rw raised at e₂))
                | inl (expires_at, fits) ↦
                    let e₃ = rw fits at e₂ in
                    record {
                      locks = locks;
                      expires_at = expires_at;
                      overrode = overrode;
                      lock_is = ground (arith, e₃);
                      locks_are = ground (arith, e₃);
                      closed = ground (arith, e₃);
                    }
              ]
        ]

-- If no folder has two active locks, a manual lock that is created is the active lock of its folder
-- right after the call, and the permissions on the folder are closed then.
pub create_manual_lock-takes :
    (id : ℕ) (q : LockRequest) (now : ℕ) (db : FolderDb) {lock : LockState} {db' : FolderDb}
    → IsSingle db.locks
    → create_manual_lock id q now db ≡ (ok lock, db')
    → (get_active_lock q.folder_id db'.locks ≡ ok (some lock))
      × (lock.lock_type ≡ manual)
      × (lock.locked_by ≡ some q.locked_by)
      × IsClosed q.folder_id db'.assignments
create_manual_lock-takes id q now db {lock} {db'} h e =
    let c = create-Created id q now db h e in
    let (room, _) = override-room q.folder_id q.locked_by q.reason now db.locks h c.overrode in
    let single : IsSingle db'.locks = rw e at (create_manual_lock-IsSingle id q now db h) in
    (
      get_active_lock-IsSingle q.folder_id db'.locks single
          ∙ ap (λ l. ok (first (is_active_at q.folder_id) l)) c.locks_are
          ∙ ap ok (
              first-insert (is_active_at q.folder_id) (new_lock id q c.expires_at now) c.locks
                (count-first (is_active_at q.folder_id) c.locks room)
              ∙ ground arith
              ∙ ap some (sym c.lock_is)),
      ground (arith, c.lock_is),
      ground (arith, c.lock_is),
      rw c.closed (
          update-All (of_folder q.folder_id) (λ a. a.is_locked) (closed_to_writes now)
            db.assignments (λ a. refl) (λ a. refl)),
    )

-- A folder with a manual lock is refused, and nothing is written.
pub create_manual_lock-refused :
    (id : ℕ) (q : LockRequest) (now : ℕ) (db : FolderDb) {existing : LockState}
    → IsSingle db.locks
    → first (is_active_at q.folder_id) db.locks ≡ some existing
    → existing.lock_type ≡ manual
    → create_manual_lock id q now db ≡ (err lock_error, db)
unfolding create_manual_lock
create_manual_lock-refused id q now db {existing} h found is_manual_lock =
    rw (get_active_lock-IsSingle q.folder_id db.locks h) (rw found (ground arith))

-- A user who does not own the manual lock cannot remove it: the call raises the ImportError of the
-- permission check, whatever roles the user has, and nothing is written.
pub remove_lock-refused :
    (lock_id user : ℕ) (reason : Option Text) (now : ℕ) (db : FolderDb) {lock : LockState}
    → find_lock lock_id db.locks ≡ ok lock
    → lock.lock_type ≡ manual
    → lock.locked_by ≢ some user
    → remove_lock lock_id user reason now db ≡ (err import_error, db)
unfolding remove_lock
remove_lock-refused lock_id user reason now db {lock} found is_manual_lock stranger =
    rw found (ground arith)

-- The row that an operation names is the first of its identifier that is active.
find_lock-first :
    (lock_id : ℕ) (locks : List LockState) {lock : LockState}
    → find_lock lock_id locks ≡ ok lock
    → first (is_active_lock lock_id) locks ≡ some lock
unfolding find_lock
find_lock-first lock_id locks {lock} h =
    one_or_none-first (is_active_lock lock_id) locks (ground arith)

-- What a successful call of `remove_lock` has found and written.
record Removed (lock_id : ℕ) (now : ℕ) (by : ℕ) (reason : Option Text) (db : FolderDb)
    (gone : LockState) (db' : FolderDb) : Type 0 where
  lock : LockState
  found : find_lock lock_id db.locks ≡ ok lock
  gone_is : gone ≡ removed by reason now lock
  locks_are : db'.locks ≡ update (λ s. s.id == lock.id) (removed by reason now) db.locks
  opened : db'.assignments ≡ restore_calculated_permissions lock.folder_id db.assignments

remove-Removed :
    (lock_id by : ℕ) (reason : Option Text) (now : ℕ) (db : FolderDb) {gone : LockState}
    {db' : FolderDb}
    → remove_lock lock_id by reason now db ≡ (ok gone, db')
    → Removed lock_id now by reason db gone db'
unfolding remove_lock
remove-Removed lock_id by reason now db {gone} {db'} e =
    elim (Result-cases (find_lock lock_id db.locks)) [
      | inr (f, missing) ↦ absurd (cc (rw missing at e))
      | inl (lock, found) ↦
          let e₁ = rw found at e in
          elim (check-cases (may_remove by lock)) [
            | inr (f, refused) ↦ absurd (cc (rw refused at e₁))
            | inl allowed ↦
                let e₂ = rw allowed at e₁ in
                record {
                  lock = lock;
                  found = found;
                  gone_is = ground (arith, e₂);
                  locks_are = ground (arith, e₂);
                  opened = ground (arith, e₂);
                }
          ]
    ]

-- If no folder has two active locks, a folder whose lock was removed by a call has no active lock right
-- after it, and its permissions are reopened then.
pub remove_lock-frees :
    (lock_id by : ℕ) (reason : Option Text) (now : ℕ) (db : FolderDb) {gone : LockState}
    {db' : FolderDb}
    → IsSingle db.locks
    → remove_lock lock_id by reason now db ≡ (ok gone, db')
    → (get_active_lock gone.folder_id db'.locks ≡ ok none)
      × All (λ a. of_folder gone.folder_id a ≡ true → not a.is_locked ≡ true) db'.assignments
remove_lock-frees lock_id by reason now db {gone} {db'} h e =
    let c = remove-Removed lock_id by reason now db e in
    let folder : gone.folder_id ≡ c.lock.folder_id = ground (arith, c.gone_is) in
    let found = find_lock-first lock_id db.locks c.found in
    let active = first-some (is_active_lock lock_id) db.locks found in
    let single : IsSingle db'.locks = rw e at (remove_lock-IsSingle lock_id by reason now db h) in
    let q : LockState → Bool = λ s. s.id == c.lock.id in
    let fewer =
      count-update_found (is_active_at c.lock.folder_id) q (is_active_lock lock_id)
        (removed by reason now) db.locks {r = c.lock} (λ s. ground arith) found
        (ground (arith, active)) (ground arith) in
    rw folder (
      get_active_lock-IsSingle c.lock.folder_id db'.locks single
          ∙ ap ok (
              count-first (is_active_at c.lock.folder_id) db'.locks
                (rw c.locks_are (omega (arith, h c.lock.folder_id, fewer)))),
      rw c.opened (
          update-All (of_folder c.lock.folder_id) (λ a. not a.is_locked) reopened db.assignments
            (λ a. refl) (λ a. refl)),
    )

-- No lock is extended by more than a week at a time: a longer extension is refused and nothing is
-- written.
pub extend_lock-too_long :
    (lock_id by hours now : ℕ) (db : FolderDb)
    → 168 < hours
    → (f : Failure) × (extend_lock lock_id by (pos hours) now db ≡ (err f, db))
unfolding extend_lock
extend_lock-too_long lock_id by hours now db long =
    elim (Result-cases (find_lock lock_id db.locks)) [
      | inr (f, missing) ↦ (f, rw missing)
      | inl (lock, found) ↦
          rw found
            (elim (check-cases
              (if is_value lock.locked_by by then ok tt else check_override_permission by)) [
                | inr (f, refused) ↦ (f, rw refused)
                | inl allowed ↦ (lock_error, rw allowed (ground arith))
              ])
    ]
