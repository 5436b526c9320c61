-- ===== src/Rbac/LockService/Single.antt =====
-- At most one active lock on a folder: the invariant on which `scalar_one_or_none` rests.
use pool_shrpnt.Prelude.{
  ℕ, ◌≤◌, ◌≡◌, refl, sym, Bool, false, inl, inr, List, [], ◌∷◌, Option, none, some, arith, ◌==◌,
  if◌then◌else◌, Bool-cases, Option-cases,
}
use mathlib.Core.Path.{subst}
use pool_shrpnt.Prelude.Text.{Text}
use pool_shrpnt.Prelude.Int.{ℤ}
use pool_shrpnt.Prelude.Table.{
  select, first, update, insert, count, count-insert, select-count_zero, first-none,
  count-update_off, count-update_keep, count-update-first,
}
use pool_shrpnt.Prelude.Outcome.{ok, Result-cases, check-cases}
use pool_shrpnt.Locks.Model.{LockState, LockType, is_value}
use pool_shrpnt.Rbac.LockService.{
  FolderDb, is_active_at, one_or_none, get_active_lock, override_existing, overridden, LockRequest,
  create_manual_lock, new_lock, expiry_after, find_lock, may_remove, remove_lock, removed,
  extend_lock, extended, check_override_permission, too_long, new_expiration, is_answerable,
}
use pool_shrpnt.Rbac.LockService.Access.{
  check_lock_override, get_active_locks, live_locks, expire_lock, expired, is_over, status_of,
}

-- No folder has two active locks.
abbrev pub IsSingle : List LockState → Type 0
IsSingle locks = (folder_id : ℕ) → count (is_active_at folder_id) locks ≤ 1

-- `scalar_one_or_none` against the number of rows and the first of them.
one_or_none-count :
    (p : LockState → Bool) (rows : List LockState)
    → count p rows ≤ 1
    → one_or_none (select p rows) ≡ ok (first p rows)
unfolding one_or_none
one_or_none-count p [] h = refl
one_or_none-count p (x ∷ rows) h = elim (Bool-cases (p x)) [
  | inl hit ↦ rw hit (rw (select-count_zero p rows (ground arith)))
  | inr miss ↦ rw miss (one_or_none-count p rows (ground arith))
]

only-head :
    (x : LockState) (xs : List LockState) {o : Option LockState}
    → one_or_none (x ∷ xs) ≡ ok o
    → some x ≡ o
unfolding one_or_none
only-head x [] h = cc
only-head x (y ∷ xs) h = cc

-- What `scalar_one_or_none` returns is the first row.
pub one_or_none-first :
    (p : LockState → Bool) (rows : List LockState) {o : Option LockState}
    → one_or_none (select p rows) ≡ ok o
    → first p rows ≡ o
unfolding one_or_none
one_or_none-first p [] h = cc
one_or_none-first p (x ∷ rows) h = elim (Bool-cases (p x)) [
  | inl hit ↦ rw hit (only-head x (select p rows) (rw hit at h))
  | inr miss ↦ rw miss (one_or_none-first p rows (rw miss at h))
]

-- Under the invariant the search for the lock of a folder raises nothing and finds it.
pub get_active_lock-IsSingle :
    (folder_id : ℕ) (locks : List LockState)
    → IsSingle locks
    → get_active_lock folder_id locks ≡ ok (first (is_active_at folder_id) locks)
unfolding get_active_lock
get_active_lock-IsSingle folder_id locks h =
    one_or_none-count (is_active_at folder_id) locks (h folder_id)

-- Deactivating some rows keeps the invariant.
deactivate-IsSingle :
    (q : LockState → Bool) (f : LockState → LockState) (locks : List LockState)
    → ((s : LockState) → (f s).is_active ≡ false)
    → IsSingle locks
    → IsSingle (update q f locks)
deactivate-IsSingle q f locks off h folder_id = omega (
  arith,
  h folder_id,
  count-update_off (is_active_at folder_id) q f locks (λ s. ground (arith, off s)),
)

-- Writes that leave folder and activity alone keep the invariant.
keep-IsSingle :
    (q : LockState → Bool) (f : LockState → LockState) (locks : List LockState)
    → ((n : ℕ) (s : LockState) → is_active_at n (f s) ≡ is_active_at n s)
    → IsSingle locks
    → IsSingle (update q f locks)
keep-IsSingle q f locks same h folder_id =
    omega
      (arith, h folder_id, count-update_keep (is_active_at folder_id) q f locks (same folder_id))

module _ (by : ℕ) (reason : Text) (now : ℕ) (locks : List LockState) {locks' : List LockState} where
  override_none : override_existing none by reason now locks ≡ ok locks' → locks ≡ locks'
  unfolding override_existing
  override_none e = cc

  override_some :
      (existing : LockState)
      → override_existing (some existing) by reason now locks ≡ ok locks'
      → update (λ s. s.id == existing.id) (overridden by reason now) locks ≡ locks'
  unfolding override_existing
  override_some existing e = ground arith

-- After the override no lock is active on the folder.
pub override-room :
    (folder_id by : ℕ) (reason : Text) (now : ℕ) (locks : List LockState) {locks' : List LockState}
    → IsSingle locks
    → override_existing (first (is_active_at folder_id) locks) by reason now locks ≡ ok locks'
    → (count (is_active_at folder_id) locks' ≡ 0) × IsSingle locks'
override-room folder_id by reason now locks {locks'} h e =
    elim (Option-cases (first (is_active_at folder_id) locks)) [
      | inl free ↦
          let same : locks ≡ locks' = override_none by reason now locks (rw free at e) in
          subst (λ l. (count (is_active_at folder_id) l ≡ 0) × IsSingle l) same
            (first-none (is_active_at folder_id) locks free, h)
      | inr (existing, found) ↦
          let q : LockState → Bool = λ s. s.id == existing.id in
          let same : update q (overridden by reason now) locks ≡ locks' =
            override_some by reason now locks existing (rw found at e) in
          subst (λ l. (count (is_active_at folder_id) l ≡ 0) × IsSingle l) same
            (
              omega (
                arith,
                h folder_id,
                count-update-first (is_active_at folder_id) q (overridden by reason now) locks
                    {r = existing} (λ s. ground arith) found (ground arith),
              ),
              deactivate-IsSingle q (overridden by reason now) locks (λ s. refl) h,
            )
    ]

-- Adding the lock of a folder that has none keeps the invariant.
add-IsSingle :
    (lock : LockState) (locks : List LockState)
    → count (is_active_at lock.folder_id) locks ≡ 0
    → IsSingle locks
    → IsSingle (insert lock locks)
add-IsSingle lock locks room h folder_id = elim (Bool-cases (folder_id == lock.folder_id)) [
  | inl same ↦
      let e : folder_id ≡ lock.folder_id = ground arith in
      subst (λ n. count (is_active_at n) (insert lock locks) ≤ 1) (sym e)
        (ground (arith, room, count-insert (is_active_at lock.folder_id) lock locks))
  | inr other ↦ ground (arith, h folder_id, count-insert (is_active_at folder_id) lock locks)
]

-- Creating a manual lock keeps the invariant, also when it is refused.
pub create_manual_lock-IsSingle :
    (id : ℕ) (q : LockRequest) (now : ℕ) (db : FolderDb)
    → IsSingle db.locks
    → IsSingle (create_manual_lock id q now db).1.locks
unfolding create_manual_lock
create_manual_lock-IsSingle id q now db h =
    rw (get_active_lock-IsSingle q.folder_id db.locks h)
      (elim (Result-cases (
        override_existing (first (is_active_at q.folder_id) db.locks) q.locked_by q.reason now
          db.locks)) [
            | inr (f, refused) ↦ rw refused h
            | inl (locks, overrode) ↦
                rw overrode (elim (Result-cases (expiry_after q.expires_in_hours now)) [
                  | inr (f, raised) ↦ rw raised h
                  | inl (expires_at, fits) ↦
                      let (room, single) =
                        override-room q.folder_id q.locked_by q.reason now db.locks h overrode in
                      rw fits (add-IsSingle (new_lock id q expires_at now) locks room single)
                ])
          ])

-- Removing a lock keeps the invariant, also when it is refused.
pub remove_lock-IsSingle :
    (lock_id removed_by : ℕ) (reason : Option Text) (now : ℕ) (db : FolderDb)
    → IsSingle db.locks
    → IsSingle (remove_lock lock_id removed_by reason now db).1.locks
unfolding remove_lock
remove_lock-IsSingle lock_id removed_by reason now db h =
    elim (Result-cases (find_lock lock_id db.locks)) [
      | inr (f, missing) ↦ rw missing h
      | inl (lock, found) ↦ rw found (elim (check-cases (may_remove removed_by lock)) [
        | inr (f, refused) ↦ rw refused h
        | inl allowed ↦ rw allowed (
            deactivate-IsSingle (λ s. s.id == lock.id) (removed removed_by reason now) db.locks
              (λ s. refl) h)
      ])
    ]

-- Extending a lock keeps the invariant, also when it is refused.
pub extend_lock-IsSingle :
    (lock_id extended_by : ℕ) (hours : ℤ) (now : ℕ) (db : FolderDb)
    → IsSingle db.locks
    → IsSingle (extend_lock lock_id extended_by hours now db).1.locks
unfolding extend_lock
extend_lock-IsSingle lock_id extended_by hours now db h =
    elim (Result-cases (find_lock lock_id db.locks)) [
      | inr (f, missing) ↦ rw missing h
      | inl (lock, found) ↦
          rw found
            (elim (check-cases (
              if is_value lock.locked_by extended_by
              then ok tt
              else check_override_permission extended_by)) [
                | inr (f, refused) ↦ rw refused h
                | inl allowed ↦ rw allowed (elim (Bool-cases (too_long hours)) [
                  | inl long ↦ rw long h
                  | inr short ↦ rw short (elim (Result-cases (new_expiration lock hours now)) [
                    | inr (f, raised) ↦ rw raised h
                    | inl (at, fits) ↦
                        let kept =
                          keep-IsSingle (λ s. s.id == lock.id) (extended extended_by at now)
                            db.locks (λ n s. refl) h in
                        rw fits (elim (Bool-cases (is_answerable lock)) [
                          | inl full ↦ rw full kept
                          | inr lacks ↦ rw lacks kept
                        ])
                  ])
                ])
              ])
    ]

-- Expiring a lock keeps the invariant.
expire_lock-IsSingle :
    (lock : LockState) (now : ℕ) (db : FolderDb)
    → IsSingle db.locks
    → IsSingle (expire_lock lock now db).locks
unfolding expire_lock
expire_lock-IsSingle lock now db h =
    deactivate-IsSingle (λ s. s.id == lock.id) (expired now) db.locks (λ s. refl) h

live_locks-IsSingle :
    (now : ℕ) (locks : List LockState) (db : FolderDb)
    → IsSingle db.locks
    → IsSingle (live_locks now locks db).1.locks
unfolding live_locks
live_locks-IsSingle now [] db h = h
live_locks-IsSingle now (lock ∷ locks) db h = elim (Bool-cases (is_over now lock)) [
  | inl over ↦
      rw over (
        live_locks-IsSingle now locks (expire_lock lock now db)
          (expire_lock-IsSingle lock now db h))
  | inr live ↦ rw live (elim (Bool-cases (is_answerable lock)) [
    | inl full ↦ rw full (live_locks-IsSingle now locks db h)
    | inr lacks ↦ rw lacks h
  ])
]

-- Listing the active locks keeps the invariant.
pub get_active_locks-IsSingle :
    (folder_id : Option ℕ) (lock_type : Option LockType) (now : ℕ) (db : FolderDb)
    → IsSingle db.locks
    → IsSingle (get_active_locks folder_id lock_type now db).1.locks
unfolding get_active_locks
get_active_locks-IsSingle folder_id lock_type now db h = live_locks-IsSingle now _ db h

status_of-IsSingle :
    (o : Option LockState) (user_id now : ℕ) (db : FolderDb)
    → IsSingle db.locks
    → IsSingle (status_of o user_id now db).1.locks
unfolding status_of
status_of-IsSingle none user_id now db h = h
status_of-IsSingle (some lock) user_id now db h = elim (Bool-cases (is_over now lock)) [
  | inl over ↦ rw over (expire_lock-IsSingle lock now db h)
  | inr live ↦ rw live h
]

-- Asking whether a folder is locked keeps the invariant.
pub check_lock_override-IsSingle :
    (folder_id user_id now : ℕ) (db : FolderDb)
    → IsSingle db.locks
    → IsSingle (check_lock_override folder_id user_id now db).1.locks
unfolding check_lock_override
check_lock_override-IsSingle folder_id user_id now db h =
    rw (get_active_lock-IsSingle folder_id db.locks h)
      (status_of-IsSingle (first (is_active_at folder_id) db.locks) user_id now db h)
