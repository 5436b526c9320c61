-- ===== src/Locks/ChangeRequests/Closing.antt =====
-- Closing change requests by hand, and what becomes of the folders.
use pool_shrpnt.Prelude.{
  ℕ, ◌≡◌, refl, sym, ◌∙◌, Bool, true, false, ◌&&◌, inl, inr, List, [], ◌∷◌, some, arith, ◌==◌,
  Bool-cases, All, map, none, if◌then◌else◌,
}
use mathlib.Core.Bool.{false≢true}
use pool_shrpnt.Prelude.Table.{
  exists, first, update, All-update, first-update, exists-first, select-cons, select-nil,
  exists-update_keep,
}
use pool_shrpnt.Prelude.Outcome.{ok}
use pool_shrpnt.Locks.Model.{LockState, read, automatic, is_value}
use pool_shrpnt.Locks.ChangeRequests.{
  ChangeRequest, CrDb, CrEvent, cr_closed, is_open, scope_eq, linked, relocked, revert_cr_lock,
  set_closed, is_other_active, end_request, close_cr,
}
use pool_shrpnt.Locks.ChangeRequests.Unlock.{IsUnlockedBy, is_covered}

-- Ending a request that another active one accompanies writes no lock state; ending the only one
-- locks the folders that name it.
module _ (event : CrEvent) (ended : ChangeRequest → ChangeRequest) (now : ℕ) (cr : ChangeRequest)
    (db : CrDb) where
  pub end_request-others :
      exists (is_other_active cr) (update (λ r. r.id == cr.id) ended db.requests) ≡ true
      → (end_request event ended now cr db).states ≡ db.states
  unfolding end_request
  end_request-others h =
      let (x, xs, e) =
        select-cons (is_other_active cr) (update (λ r. r.id == cr.id) ended db.requests) h in
      rw (e, end_request)

  pub end_request-sole :
      exists (is_other_active cr) (update (λ r. r.id == cr.id) ended db.requests) ≡ false
      → (end_request event ended now cr db).states ≡ revert_cr_lock cr now db.states
  unfolding end_request
  end_request-sole h = rw (
    select-nil (is_other_active cr) (update (λ r. r.id == cr.id) ended db.requests) h,
    end_request,
  )

  pub end_request-requests :
      (end_request event ended now cr db).requests ≡ update (λ r. r.id == cr.id) ended db.requests
  unfolding end_request
  end_request-requests = refl

-- A call of `close_cr` that finds an active request ends it.
pub close_cr_lem :
    (cr_id closed_by now : ℕ) (db : CrDb) {cr : ChangeRequest}
    → first (λ r. r.id == cr_id) db.requests ≡ some cr
    → is_open cr.status ≡ true
    → close_cr cr_id closed_by now db ≡ (
      ok (set_closed closed_by now cr),
      end_request cr_closed (set_closed closed_by now) now cr db,
    )
unfolding close_cr
close_cr_lem cr_id closed_by now db found open_cr = rw found (rw open_cr)

-- The row of the request itself is not among the others.
others-unchanged :
    (cr : ChangeRequest) (ended : ChangeRequest → ChangeRequest) (rs : List ChangeRequest)
    → ((r : ChangeRequest) → (ended r).id ≡ r.id)
    → exists (is_other_active cr) (update (λ r. r.id == cr.id) ended rs)
      ≡ exists (is_other_active cr) rs
others-unchanged cr ended rs same =
    exists-update_keep (is_other_active cr) (λ r. r.id == cr.id) ended rs (λ r e. ground arith)
      (λ r e. ground (arith, same r))

-- A lock state after the only active request of its order and scope was closed: if it is active and
-- names the request, it grants reading only, as an automatic lock that names no request.
abbrev pub locked_again : ℕ → ℕ → LockState → LockState
locked_again cr_id now s =
    if s.is_active && is_value s.cr_id cr_id
    then record s {
      permission_level = some read;
      lock_type = automatic;
      is_manual_override = false;
      override_reason = none;
      updated_at = some now;
      cr_id = none;
      cr_expires_at = none;
      cr_reason = none;
    }
    else s

revert_cr_lock-locked_again :
    (cr : ChangeRequest) (now : ℕ) (states : List LockState)
    → revert_cr_lock cr now states ≡ map (locked_again cr.id now) states
unfolding revert_cr_lock
revert_cr_lock-locked_again cr now [] = refl
revert_cr_lock-locked_again cr now (s ∷ states) =
    elim (Bool-cases (s.is_active && is_value s.cr_id cr.id)) [
      | inl hit ↦ rw hit (rw (revert_cr_lock-locked_again cr now states) (ground arith))
      | inr miss ↦ ground (arith, revert_cr_lock-locked_again cr now states)
    ]

-- Closing an active request marks it closed. If no other active request has its order and scope, each
-- active state that names it grants reading only, as an automatic lock that names no request, and the
-- other states stay as they were; if another has, all states stay as they were.
pub close_cr-relocks :
    (closed_by now : ℕ) (db : CrDb) (cr : ChangeRequest)
    → first (λ r. r.id == cr.id) db.requests ≡ some cr
    → is_open cr.status ≡ true
    → let (result, db') = close_cr cr.id closed_by now db in
      (result ≡ ok (set_closed closed_by now cr))
      × (first (λ r. r.id == cr.id) db'.requests ≡ some (set_closed closed_by now cr))
      × (db'.states ≡ (
          if exists (is_other_active cr) db.requests
          then db.states
          else map (locked_again cr.id now) db.states))
close_cr-relocks closed_by now db cr found open_cr =
    let ended : ChangeRequest → ChangeRequest = set_closed closed_by now in
    let done = close_cr_lem cr.id closed_by now db found open_cr in
    let same = others-unchanged cr ended db.requests (λ r. refl) in
    let states : (end_request cr_closed ended now cr db).states ≡ (
        if exists (is_other_active cr) db.requests
        then db.states
        else map (locked_again cr.id now) db.states) =
      elim (Bool-cases (exists (is_other_active cr) db.requests)) [
        | inl covered ↦ rw covered (end_request-others cr_closed ended now cr db (same ∙ covered))
        | inr sole ↦ rw sole (
            end_request-sole cr_closed ended now cr db (same ∙ sole)
            ∙ revert_cr_lock-locked_again cr now db.states)
      ] in
    rw done (
      refl,
      rw (end_request-requests cr_closed ended now cr db) (
          first-update (λ r. r.id == cr.id) (λ r. r.id == cr.id) ended db.requests {r = cr}
            (λ r. refl) found
          ∙ ground arith),
      states,
    )

-- An active request of the order and the scope of `cr`.
abbrev pub is_active_like : ChangeRequest → ChangeRequest → Bool
is_active_like cr r = r.em_id == cr.em_id && scope_eq r.scope cr.scope && is_open r.status

-- Closing the only active request leaves none.
sole-none_left :
    (by now : ℕ) (cr : ChangeRequest) (rs : List ChangeRequest)
    → exists (is_other_active cr) rs ≡ false
    → exists (is_active_like cr) (update (λ r. r.id == cr.id) (set_closed by now) rs) ≡ false
sole-none_left by now cr [] h = refl
sole-none_left by now cr (r ∷ rs) h = elim (Bool-cases (is_other_active cr r)) [
  | inl hit ↦ absurd (false≢true (sym (rw hit at h)))
  | inr miss ↦
      let tail = sole-none_left by now cr rs (rw miss at h) in
      elim (Bool-cases (r.id == cr.id)) [
        | inl same ↦ ground (arith, tail)
        | inr differs ↦ ground (arith, tail)
      ]
]

-- Locking the folders of one request does not touch the states that name another.
revert_cr_lock-other :
    (older newer : ChangeRequest) (now : ℕ) (states : List LockState)
    → (older.id == newer.id) ≡ false
    → All (λ s. is_covered newer.em_id newer.scope s ≡ true → IsUnlockedBy newer s) states
    → All
        (λ s. is_covered newer.em_id newer.scope s ≡ true → IsUnlockedBy newer s)
        (revert_cr_lock older now states)
unfolding revert_cr_lock
revert_cr_lock-other older newer now states differ h =
    All-update (λ s. is_covered newer.em_id newer.scope s ≡ true → IsUnlockedBy newer s)
      (linked older.id) (relocked now) states
      (λ s hit open_s covered.
        let (_, named, _) = open_s covered in
        let same : linked older.id s ≡ true → (older.id == newer.id) ≡ true =
          rw named (λ k. ground arith) in
        absurd (false≢true (sym differ ∙ same hit)))
      h

-- Two active requests cover the same folders, and the later one has unlocked them. Closing the later
-- one first and then the other ends both, and no request for that order and scope is active any more,
-- but every covered state still grants write access in the name of the later one: the second closing
-- looks for states that name the request it closes.
pub close_cr-leaks :
    (by now by' now' : ℕ) (db : CrDb) (older newer : ChangeRequest)
    → first (λ r. r.id == newer.id) db.requests ≡ some newer
    → first (λ r. r.id == older.id) db.requests ≡ some older
    → is_open newer.status ≡ true
    → is_open older.status ≡ true
    → is_other_active newer older ≡ true
    → exists
        (is_other_active older)
        (update (λ r. r.id == newer.id) (set_closed by now) db.requests)
      ≡ false
    → All (λ s. is_covered newer.em_id newer.scope s ≡ true → IsUnlockedBy newer s) db.states
    → let (first_result, db') = close_cr newer.id by now db in
      let (second_result, db'') = close_cr older.id by' now' db' in
      (first_result ≡ ok (set_closed by now newer))
      × (second_result ≡ ok (set_closed by' now' older))
      × (exists (is_active_like older) db''.requests ≡ false)
      × All (λ s. is_covered newer.em_id newer.scope s ≡ true → IsUnlockedBy newer s) db''.states
close_cr-leaks by now by' now' db older newer found_newer found_older open_newer open_older other
      alone unlocked_states =
    let closed_newer : ChangeRequest → ChangeRequest = set_closed by now in
    let db' : CrDb = end_request cr_closed closed_newer now newer db in
    let first_done = close_cr_lem newer.id by now db found_newer open_newer in
    let requests = end_request-requests cr_closed closed_newer now newer db in
    let kept : db'.states ≡ db.states = end_request-others cr_closed closed_newer now newer db (
      others-unchanged newer closed_newer db.requests (λ r. refl)
      ∙ exists-first (λ r. r.id == older.id) (is_other_active newer) db.requests found_older
          other) in
    let differ : (older.id == newer.id) ≡ false = ground arith in
    let found : first (λ r. r.id == older.id) db'.requests ≡ some older = rw requests (
      first-update (λ r. r.id == older.id) (λ r. r.id == newer.id) closed_newer db.requests
        {r = older} (λ r. refl) found_older
      ∙ rw differ refl) in
    let alone' : exists (is_other_active older) db'.requests ≡ false = rw requests alone in
    let second_done = close_cr_lem older.id by' now' db' found open_older in
    let closed_older : ChangeRequest → ChangeRequest = set_closed by' now' in
    let reverted =
      end_request-sole cr_closed closed_older now' older db'
        (others-unchanged older closed_older db'.requests (λ r. refl) ∙ alone') in
    rw first_done (
      rw second_done (
        refl,
        refl,
        rw (end_request-requests cr_closed closed_older now' older db')
            (sole-none_left by' now' older db'.requests alone'),
        rw reverted
            (revert_cr_lock-other older newer now' db'.states differ (rw kept unlocked_states)),
      ))
