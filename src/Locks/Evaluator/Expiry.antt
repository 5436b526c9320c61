-- ===== src/Locks/Evaluator/Expiry.antt =====
-- The expiry of manual locks by `LockEvaluator.check_and_expire_manual_locks`.
use pool_shrpnt.Prelude.{
  ℕ, ◌*◌, ◌-◌, ◌≤◌, ◌≡◌, refl, true, ◌&&◌, not, inl, inr, List, Option, none, some, arith, ◌==◌,
  if◌then◌else◌, Option-cases, length, map, is_some,
}
use pool_shrpnt.Prelude.Text.{Text}
use pool_shrpnt.Prelude.Clock.{hour}
use pool_shrpnt.Prelude.Table.{
  select, first, update, exists, count, first-update, first-update-none, count-update_gone,
  length-map-select, exists-select,
}
use pool_shrpnt.Prelude.Outcome.{ok, err, integrity_error}
use pool_shrpnt.Locks.Model.{LockState}
use pool_shrpnt.Locks.Evaluator.{LockDb}
use pool_shrpnt.Locks.Evaluator.Apply.{is_expired_lock, expired, check_and_expire_manual_locks}

-- What becomes of a row.
abbrev pub aged : ℕ → ℕ → LockState → LockState
aged expiry_time now s = if is_expired_lock expiry_time s then expired now s else s

-- What a successful call writes and returns.
inverted :
    (hours now : ℕ) (db : LockDb) {l : List (Option ℕ × Text)} {db' : LockDb}
    → check_and_expire_manual_locks hours now db ≡ (ok l, db')
    → let old = is_expired_lock (now - hours * hour) in
      (db'.states ≡ update old (expired now) db.states)
      × (l ≡ map (λ (s : LockState). (s.order_em_id, s.folder_path)) (select old db.states))
      × (db'.rules ≡ db.rules)
unfolding check_and_expire_manual_locks
inverted hours now db h = ground arith

first-aged :
    (expiry_time now : ℕ) (states : List LockState) (id : ℕ)
    → first (λ s. s.id == id) (update (is_expired_lock expiry_time) (expired now) states)
      ≡ elim (first (λ s. s.id == id) states) [
        | none ↦ none
        | some s ↦ some (aged expiry_time now s)
      ]
first-aged expiry_time now states id =
    elim (Option-cases (first (λ (s : LockState). s.id == id) states)) [
      | inl missing ↦ rw missing (
          first-update-none (λ s. s.id == id) (is_expired_lock expiry_time) (expired now) states
            (λ x. refl) missing)
      | inr (s, found) ↦ rw found (
          first-update (λ s. s.id == id) (is_expired_lock expiry_time) (expired now) states
            (λ x. refl) found)
    ]

-- When the expiry of manual locks succeeds, no active manual lock is left that was locked before
-- the expiry time, the locks returned are as many as there were of those, and every row is as it was
-- or deactivated by the expiry.
pub check_and_expire_manual_locks_complete :
    (hours now : ℕ) (db : LockDb) {l : List (Option ℕ × Text)} {db' : LockDb}
    → check_and_expire_manual_locks hours now db ≡ (ok l, db')
    → let old = is_expired_lock (now - hours * hour) in
      (count old db'.states ≡ 0)
      × (length l ≡ count old db.states)
      × ((id : ℕ)
          → first (λ s. s.id == id) db'.states ≡ elim (first (λ s. s.id == id) db.states) [
            | none ↦ none
            | some s ↦ some (aged (now - hours * hour) now s)
          ])
      × (db'.rules ≡ db.rules)
check_and_expire_manual_locks_complete hours now db h =
    let (written, returned, kept) = inverted hours now db h in
    let old = is_expired_lock (now - hours * hour) in
    (
      rw written (count-update_gone old (expired now) db.states (λ x. refl)),
      rw returned (length-map-select old _ db.states),
      (λ id. rw written (first-aged (now - hours * hour) now db.states id)),
      kept,
    )

-- One manual lock without an order that is due makes every run of the expiry raise and write
-- nothing, so no other lock expires either.
pub check_and_expire_manual_locks-no_order :
    (hours now : ℕ) (db : LockDb)
    → hours * hour ≤ now
    → exists (λ s. is_expired_lock (now - hours * hour) s && not (is_some s.order_em_id)) db.states
      ≡ true
    → check_and_expire_manual_locks hours now db ≡ (err integrity_error, db)
unfolding check_and_expire_manual_locks
check_and_expire_manual_locks-no_order hours now db long_ago due = ground (
  arith,
  due,
  exists-select (λ (s : LockState). not (is_some s.order_em_id))
      (is_expired_lock (now - hours * hour)) db.states,
)
