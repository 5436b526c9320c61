-- ===== src/Locks/Evaluator/Tests.antt =====
-- Runs of the lock evaluator on small tables, and instances of its theorems.
use pool_shrpnt.Prelude.{
  List, ℕ, ◌+◌, ◌*◌, ◌-◌, ◌≡◌, refl, true, false, [], ◌∷◌, none, some, All, arith, ◌==◌,
}
use mathlib.Core.Path.{sym, ◌∙◌}
use pool_shrpnt.Prelude.Text.{Text, codes, text_eq}
use pool_shrpnt.Prelude.Int.{ℤ, pos}
use pool_shrpnt.Prelude.Table.{first, count}
use pool_shrpnt.Prelude.Clock.{day, hour, shift_days, end_of_day}
use pool_shrpnt.Prelude.Outcome.{ok, err, integrity_error}
use pool_shrpnt.Locks.Model.{
  LockRule, LockState, LockWindowType, full, read, manual, blank_state, PermissionLevel,
}
use pool_shrpnt.Locks.Windows.{in_window, calculate_absolute_dates}
use pool_shrpnt.Locks.Rules.{Rules, overlaps, rule_of, standard_window}
use pool_shrpnt.Locks.Rules.Disjoint.{clash, IsDisjoint}
use pool_shrpnt.Locks.Evaluator.{
  LockDb, evaluate_current_time_against_rules, place, order_by_start, at_folder, transition_to,
  compare_current, folder_transition,
}
use pool_shrpnt.Locks.Evaluator.Apply.{
  apply_transition, is_expired_lock, check_and_expire_manual_locks, expire_locks,
}
use pool_shrpnt.Locks.Evaluator.InForce.{order_rules, in_force_unique}
use pool_shrpnt.Locks.Evaluator.Converge.{apply_transition-settles}
use pool_shrpnt.Locks.Evaluator.Stuck.{Round, rounds, apply_transition-stuck}
use pool_shrpnt.Locks.Evaluator.Expiry.{
  aged, check_and_expire_manual_locks_complete, check_and_expire_manual_locks-no_order,
}

abbrev t_zero : ℕ
t_zero = 738_000 * day

abbrev rule_from : ℕ → ℤ → ℤ → PermissionLevel → LockRule
rule_from id start_offset end_offset level = rule_of id 0 (
    standard_window 7 t_zero (codes "pm") (codes "window") LockWindowType.active start_offset
      end_offset level)

abbrev upload_rule : LockRule
upload_rule = rule_from 1 (pos 0) (pos 7) full

abbrev closing_rule : LockRule
closing_rule = rule_from 2 (pos 8) (pos 30) read

-- The later rule comes first in the table.
abbrev two_rules : Rules
two_rules = closing_rule ∷ upload_rule ∷ []

two_rules-IsDisjoint : IsDisjoint two_rules
unfolding clash overlaps
two_rules-IsDisjoint = ((((λ e. omega (arith, e)), refl), tt), (tt, tt))

upload_in_force :
    evaluate_current_time_against_rules (order_rules 7 two_rules) (t_zero + 3 * day)
    ≡ ok (some upload_rule)
unfolding evaluate_current_time_against_rules order_by_start place in_window
    calculate_absolute_dates shift_days end_of_day
upload_in_force = refl

in_force_unique_example :
    (upload_rule.is_active ≡ true)
    × (in_window upload_rule (t_zero + 3 * day) ≡ ok true)
    × All
        (λ x.
          x.order_em_id ≡ 7
          → x.is_active ≡ true
          → in_window x (t_zero + 3 * day) ≡ ok true
          → x.id ≡ upload_rule.id)
        two_rules
in_force_unique_example =
    in_force_unique 7 t_zero (t_zero + 3 * day) two_rules two_rules-IsDisjoint
      ((λ _. refl), ((λ _. refl), tt)) upload_in_force

abbrev documents : Text
documents = codes "/documents"

abbrev automatic_state : LockState
automatic_state = record (blank_state 5 50 documents 0) {
  order_em_id = some 7;
  current_state = some LockWindowType.active;
  permission_level = some full;
}

abbrev automatic_db : LockDb
automatic_db = record { rules = two_rules; states = automatic_state ∷ []; logs = [] }

closing_due :
    folder_transition 7 closing_rule automatic_db.states documents
    ≡ ok (some (transition_to 7 documents (some LockWindowType.active) (some full) closing_rule))
unfolding folder_transition compare_current text_eq
closing_due = refl

found_automatic : first (at_folder 7 documents) automatic_db.states ≡ some automatic_state
unfolding text_eq
found_automatic = refl

apply_transition-settles_example :
    folder_transition 7 closing_rule
      (apply_transition
        (transition_to 7 documents (some LockWindowType.active) (some full) closing_rule)
        6
        60
        1
        9
        automatic_db).1.states
      documents
    ≡ ok none
apply_transition-settles_example =
    apply_transition-settles 7 documents closing_rule 6 60 1 9 automatic_db
      (λ s e. let same : automatic_state ≡ s = cc (sym found_automatic ∙ e) in ground (arith, same))
      closing_due

-- A manual lock that has been removed.
abbrev removed_state : LockState
removed_state = record automatic_state { lock_type = manual; is_active = false }

abbrev removed_db : LockDb
removed_db = record automatic_db { states = removed_state ∷ [] }

found_removed : first (at_folder 7 documents) removed_db.states ≡ some removed_state
unfolding text_eq
found_removed = refl

-- Two evaluations, under one rule and then under another.
abbrev two_rounds : List Round
two_rounds =
    record { rule = upload_rule; id = 4; folder_id = 60; run_id = 1; now = 7 }
    ∷ record { rule = closing_rule; id = 5; folder_id = 60; run_id = 2; now = 8 }
    ∷ []

apply_transition-stuck_example :
    let db' = rounds 7 documents two_rounds removed_db in
    let t = transition_to 7 documents none none closing_rule in
    (folder_transition 7 closing_rule db'.states documents ≡ ok (some t))
    × (s' : LockState) × (first (at_folder 7 documents) (apply_transition t 6 60 1 9 db').1.states
        ≡ some s')
    × (s'.lock_type ≡ manual)
    × (s'.is_active ≡ false)
    × (s'.current_state ≡ some closing_rule.window_type)
    × (s'.permission_level ≡ some closing_rule.permission_level)
apply_transition-stuck_example =
    apply_transition-stuck 7 documents two_rounds closing_rule 6 60 1 9 removed_db
      (record {
        found = found_removed;
        is_manual_row = refl;
        no_manual = ground arith;
        no_auto = ground arith;
      })
      refl

-- A manual lock of the first hour.
abbrev old_lock : LockState
old_lock = record automatic_state { lock_type = manual; locked_at = some hour }

abbrev old_db : LockDb
old_db = record automatic_db { states = old_lock ∷ automatic_state ∷ [] }

abbrev expired_db : LockDb
expired_db = (check_and_expire_manual_locks 48 (100 * hour) old_db).1

old_lock_expires :
    check_and_expire_manual_locks 48 (100 * hour) old_db
    ≡ (ok ((some 7, documents) ∷ []), expired_db)
unfolding check_and_expire_manual_locks expire_locks
old_lock_expires = refl

check_and_expire_manual_locks_complete_example :
    let old = is_expired_lock (100 * hour - 48 * hour) in
    (count old expired_db.states ≡ 0)
    × (1 ≡ count old old_db.states)
    × ((id : ℕ)
        → first (λ s. s.id == id) expired_db.states ≡ elim (first (λ s. s.id == id) old_db.states) [
          | none ↦ none
          | some s ↦ some (aged (100 * hour - 48 * hour) (100 * hour) s)
        ])
    × (expired_db.rules ≡ old_db.rules)
check_and_expire_manual_locks_complete_example =
    check_and_expire_manual_locks_complete 48 (100 * hour) old_db old_lock_expires

-- The same, with a lock of a folder that belongs to no order behind it.
abbrev mixed_db : LockDb
mixed_db = record old_db { states = old_lock ∷ record old_lock { id = 6; order_em_id = none } ∷ [] }

one_without_order_fails :
    check_and_expire_manual_locks 48 (100 * hour) mixed_db ≡ (err integrity_error, mixed_db)
one_without_order_fails =
    check_and_expire_manual_locks-no_order 48 (100 * hour) mixed_db (omega arith) refl
