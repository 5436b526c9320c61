-- ===== src/Locks/Rules/Tests.antt =====
-- Runs of the lock rule service on small tables, and instances of its theorems.
use pool_shrpnt.Prelude.{
  ℕ, ◌+◌, ◌*◌, ◌≡◌, refl, ◌≢◌, true, false, not, ◌==◌, List, [], ◌∷◌, ◌++◌, Option, none, some,
  arith, length, ltb,
}
use mathlib.Core.List.{Memᴰ}
use pool_shrpnt.Prelude.Text.{codes}
use pool_shrpnt.Prelude.Int.{ℤ, pos, negsuc}
use pool_shrpnt.Prelude.Clock.{day, shift_days, end_of_day}
use pool_shrpnt.Prelude.Outcome.{ok, err, conflict, bad_request, pending_rollback}
use pool_shrpnt.Locks.Model.{LockRule, LockWindowType, full}
use pool_shrpnt.Locks.Windows.{in_window, calculate_absolute_dates}
use pool_shrpnt.Locks.Rules.{
  Rules, overlaps, check_windows, validate_non_overlapping_windows, NewRule, rule_of,
  create_lock_rule, RuleChanges, changed, update_lock_rule, delete_lock_rule, standard_window,
  create_standard_lock_windows, create_from_configs, undo_created, is_refused_commit,
}
use pool_shrpnt.Locks.Rules.Disjoint.{clash, IsDisjoint, IsFresh, create_lock_rule-IsDisjoint}
use pool_shrpnt.Locks.Rules.Changes.{
  reactivate, update_lock_rule-IsDisjoint, update_lock_rule-reactivate, delete_lock_rule-IsDisjoint,
}
use pool_shrpnt.Locks.Rules.Exclusive.{in_window_exclusive}

-- The first day of the order of the examples.
abbrev t_zero : ℕ
t_zero = 738_000 * day

abbrev new_window : ℤ → ℤ → NewRule
new_window start_offset end_offset =
    standard_window 7 t_zero (codes "pm") (codes "window") LockWindowType.active start_offset
      end_offset full

abbrev upload_rule : LockRule
upload_rule = rule_of 1 0 (new_window (pos 0) (pos 7))

abbrev closing_rule : LockRule
closing_rule = rule_of 2 0 (new_window (pos 8) (pos 30))

abbrev two_rules : Rules
two_rules = upload_rule ∷ closing_rule ∷ []

two_rules-IsDisjoint : IsDisjoint two_rules
unfolding clash overlaps
two_rules-IsDisjoint = ((((λ e. omega (arith, e)), refl), tt), (tt, tt))

is_fresh : (id : ℕ) → ltb 2 id ≡ true → IsFresh id two_rules
is_fresh id h = ((λ e. ground (arith, e)), ((λ e. ground (arith, e)), tt))

create_overlapping :
    create_lock_rule (λ _. true) 3 0 (new_window (pos 5) (pos 9)) two_rules
    ≡ (err conflict, two_rules)
unfolding create_lock_rule validate_non_overlapping_windows check_windows overlaps
create_overlapping = refl

create_beside : create_lock_rule (λ _. true) 3 0 (new_window (negsuc 2) (negsuc 0)) two_rules ≡ (
  ok (rule_of 3 0 (new_window (negsuc 2) (negsuc 0))),
  two_rules ++ rule_of 3 0 (new_window (negsuc 2) (negsuc 0)) ∷ [],
)
unfolding create_lock_rule validate_non_overlapping_windows check_windows overlaps
create_beside = refl

standard_windows_fit :
    length (create_standard_lock_windows (λ _. true) 1 2 3 0 7 t_zero [] []).1 ≡ 3
unfolding create_standard_lock_windows create_lock_rule validate_non_overlapping_windows
    check_windows overlaps
standard_windows_fit = refl

create_lock_rule-IsDisjoint_example :
    IsDisjoint (create_lock_rule (λ _. true) 3 0 (new_window (negsuc 2) (negsuc 0)) two_rules).1
create_lock_rule-IsDisjoint_example =
    create_lock_rule-IsDisjoint (λ _. true) 3 0 (new_window (negsuc 2) (negsuc 0)) two_rules
      (is_fresh 3 refl) two_rules-IsDisjoint

-- A change of the last day.
abbrev longer : RuleChanges
longer = record reactivate { end_offset = some (pos 40); is_active = none }

update_lock_rule-IsDisjoint_example : IsDisjoint (update_lock_rule 2 longer 9 two_rules).1
update_lock_rule-IsDisjoint_example =
    update_lock_rule-IsDisjoint 2 longer 9 two_rules (λ _. refl) two_rules-IsDisjoint

deletion_apart : IsDisjoint (delete_lock_rule 1 two_rules).1
deletion_apart = delete_lock_rule-IsDisjoint 1 two_rules two_rules-IsDisjoint

upload_ends : in_window upload_rule (t_zero + 3 * day) ≡ ok true
unfolding in_window calculate_absolute_dates shift_days end_of_day
upload_ends = refl

rules_apart : overlaps (pos 0) (pos 7) closing_rule ≡ false
unfolding overlaps
rules_apart = refl

in_window_exclusive_example : in_window closing_rule (t_zero + 3 * day) ≢ ok true
in_window_exclusive_example =
    in_window_exclusive upload_rule closing_rule (t_zero + 3 * day) refl rules_apart upload_ends

-- A template whose third entry overlaps the first.
abbrev configs : List (ℕ × Option NewRule)
configs =
    (4, some (new_window (negsuc 2) (negsuc 0)))
    ∷ (5, some (new_window (pos 31) (pos 32)))
    ∷ (6, some (new_window (negsuc 0) (pos 3)))
    ∷ []

configs_fail : create_from_configs (λ _. true) 0 configs [] two_rules ≡ (err bad_request, two_rules)
unfolding create_from_configs undo_created create_lock_rule validate_non_overlapping_windows
    check_windows overlaps
configs_fail = refl

-- A table that refuses the second entry keeps the first.
configs_stop :
    create_from_configs (λ r. not (r.id == 5)) 0 configs [] two_rules
    ≡ (err pending_rollback, two_rules ++ rule_of 4 0 (new_window (negsuc 2) (negsuc 0)) ∷ [])
unfolding create_from_configs undo_created create_lock_rule validate_non_overlapping_windows
    check_windows overlaps is_refused_commit
configs_stop = refl

-- A rule that is switched off, with a window that overlaps the first.
abbrev sleeping_rule : LockRule
sleeping_rule = record (rule_of 9 0 (new_window (pos 5) (pos 6))) { is_active = false }

sleeping_overlaps : overlaps (pos 5) (pos 6) upload_rule ≡ true
unfolding overlaps
sleeping_overlaps = refl

update_lock_rule-reactivate_example :
    let (result, db) =
      update_lock_rule 9 reactivate 4 (closing_rule ∷ sleeping_rule ∷ upload_rule ∷ []) in
    (result ≡ ok (changed reactivate 4 sleeping_rule))
    × Memᴰ (changed reactivate 4 sleeping_rule) db
    × Memᴰ upload_rule db
    × (clash upload_rule (changed reactivate 4 sleeping_rule) ≡ true)
update_lock_rule-reactivate_example =
    update_lock_rule-reactivate 4 upload_rule sleeping_rule
      (closing_rule ∷ sleeping_rule ∷ upload_rule ∷ []) refl
      (Memᴰ.tail (Memᴰ.tail (Memᴰ.head refl))) (λ e. omega (arith, e)) refl refl sleeping_overlaps
