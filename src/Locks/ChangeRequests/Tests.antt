-- ===== src/Locks/ChangeRequests/Tests.antt =====
-- Runs of the change request service on a small database, and instances of its theorems.
use pool_shrpnt.Prelude.{
  if◌then◌else◌, map, ℕ, ◌+◌, ◌*◌, ◌≡◌, refl, true, false, not, List, [], ◌∷◌, some, All, ◌==◌, map,
}
use pool_shrpnt.Prelude.Text.{Text, codes, contains, starts_with}
use pool_shrpnt.Prelude.Int.{pos}
use pool_shrpnt.Prelude.Table.{first, exists, select}
use pool_shrpnt.Prelude.Clock.{hour, shift_hours}
use pool_shrpnt.Prelude.Outcome.{ok, err, bad_request}
use pool_shrpnt.Locks.Model.{LockState, read, blank_state}
use pool_shrpnt.Locks.ChangeRequests.{
  experts, ChangeRequest, CrDb, CrRequest, cr_of, get_folder_patterns, apply_patterns,
  apply_cr_unlock, create_cr, unlocked, set_closed, set_expired, close_cr, end_request,
  is_other_active, revert_cr_lock, is_due, expire_crs,
}
use pool_shrpnt.Locks.ChangeRequests.Validation.{Outcome, create_cr-Outcome}
use pool_shrpnt.Locks.ChangeRequests.Unlock.{IsUnlockedBy, is_covered, create_cr-unlocks}
use pool_shrpnt.Locks.ChangeRequests.Closing.{
  is_active_like, locked_again, close_cr-relocks, close_cr-leaks,
}
use pool_shrpnt.Locks.ChangeRequests.Expiry.{expire_crs-none_due}

abbrev state_at : ℕ → Text → LockState
state_at id folder_path = record (blank_state id 50 folder_path 0) {
  order_em_id = some 7;
  permission_level = some read;
}

abbrev experts_state : LockState
experts_state = state_at 5 (codes "/em/experts/cv")

abbrev other_state : LockState
other_state = state_at 6 (codes "/em/finance")

abbrev two_states : List LockState
two_states = experts_state ∷ other_state ∷ []

abbrev empty_db : CrDb
empty_db = record { orders = 7 ∷ []; requests = []; states = two_states; audit = [] }

abbrev extra_day : CrRequest
extra_day = record {
  em_id = 7;
  scope = experts;
  reason = codes "The experts need one more day.";
  created_by = 1;
  duration_hours = pos 24;
}

abbrev cr_at : ℕ → ChangeRequest
cr_at id = cr_of id 1000 (1000 + 24 * hour) extra_day

-- The database after the first request.
abbrev opened_db : CrDb
opened_db = (create_cr 1 extra_day 1000 empty_db).1

extra_day_opens : create_cr 1 extra_day 1000 empty_db ≡ (ok (cr_at 1), opened_db)
unfolding create_cr shift_hours
extra_day_opens = refl

too_short_refused :
    create_cr 1 (record extra_day { duration_hours = pos 0 }) 1000 empty_db
    ≡ (err bad_request, empty_db)
unfolding create_cr
too_short_refused = refl

create_cr-Outcome_example : Outcome 1 extra_day 1000 empty_db (create_cr 1 extra_day 1000 empty_db)
create_cr-Outcome_example = create_cr-Outcome 1 extra_day 1000 empty_db

create_cr-unlocks_example :
    All (λ s. is_covered 7 experts s ≡ true → IsUnlockedBy (cr_at 1) s) opened_db.states
    × (select (λ s. not (is_covered 7 experts s)) opened_db.states
        ≡ select (λ s. not (is_covered 7 experts s)) two_states)
create_cr-unlocks_example = create_cr-unlocks 1 extra_day 1000 empty_db extra_day_opens

-- One active request, which has unlocked its folder.
abbrev open_db : CrDb
open_db = record empty_db {
  requests = cr_at 1 ∷ [];
  states = unlocked (cr_at 1) 1000 experts_state ∷ other_state ∷ [];
}

unlock_experts : apply_cr_unlock (cr_at 1) 1000 two_states ≡ open_db.states
unfolding apply_cr_unlock apply_patterns get_folder_patterns contains starts_with
unlock_experts = refl

close_cr-relocks_example :
    let (result, db') = close_cr 1 2 3000 open_db in
    (result ≡ ok (set_closed 2 3000 (cr_at 1)))
    × (first (λ r. r.id == 1) db'.requests ≡ some (set_closed 2 3000 (cr_at 1)))
    × (db'.states ≡ (
        if exists (is_other_active (cr_at 1)) open_db.requests
        then open_db.states
        else map (locked_again 1 3000) open_db.states))
close_cr-relocks_example = close_cr-relocks 2 3000 open_db (cr_at 1) refl refl

-- The states of the closed request grant reading again.
closing_locks :
    map (λ s. s.permission_level) (close_cr 1 2 3000 open_db).1.states
    ≡ map (λ (s : LockState). some read) open_db.states
unfolding close_cr end_request revert_cr_lock
closing_locks = refl

-- Two active requests for the same folders.
abbrev both_db : CrDb
both_db = record empty_db {
  requests = cr_at 1 ∷ cr_at 2 ∷ [];
  states = unlocked (cr_at 2) 1000 experts_state ∷ [];
}

close_cr-leaks_example :
    let (first_result, db') = close_cr 2 2 3000 both_db in
    let (second_result, db'') = close_cr 1 2 4000 db' in
    (first_result ≡ ok (set_closed 2 3000 (cr_at 2)))
    × (second_result ≡ ok (set_closed 2 4000 (cr_at 1)))
    × (exists (is_active_like (cr_at 1)) db''.requests ≡ false)
    × All (λ s. is_covered 7 experts s ≡ true → IsUnlockedBy (cr_at 2) s) db''.states
close_cr-leaks_example =
    close_cr-leaks 2 3000 2 4000 both_db (cr_at 1) (cr_at 2) refl refl refl refl refl refl
      ((λ _. (refl, refl, refl)), tt)

expire_crs-none_due_example :
    let (reported, db') = expire_crs (1000 + 24 * hour) open_db in
    (exists (is_due (1000 + 24 * hour)) db'.requests ≡ false)
    × (reported
        ≡ map
            (set_expired (1000 + 24 * hour))
            (select (is_due (1000 + 24 * hour)) open_db.requests))
expire_crs-none_due_example = expire_crs-none_due (1000 + 24 * hour) open_db
