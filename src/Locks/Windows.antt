-- ===== src/Locks/Windows.antt =====
-- The absolute dates of a rule's window: `calculate_absolute_dates` of
-- api/services/locks/lock_rule_service.py, and the test of `LockEvaluator`, which repeats it.
use pool_shrpnt.Prelude.{ℕ, Bool, ◌&&◌}
use pool_shrpnt.Prelude.{leb}
use pool_shrpnt.Prelude.Int.{ℤ}
use pool_shrpnt.Prelude.Clock.{shift_days, end_of_day}
use pool_shrpnt.Prelude.Outcome.{overflow_error, Result, ok, or_raise, ◌>>=◌}
use pool_shrpnt.Locks.Model.{LockRule}

-- The window runs to the end of its last day.
unfoldable pub calculate_absolute_dates : ℕ → ℤ → ℤ → Result (ℕ × ℕ)
calculate_absolute_dates t_value start_offset end_offset = do
  start_date ← or_raise (shift_days t_value start_offset) overflow_error
  end_date ← or_raise (shift_days t_value end_offset) overflow_error
  ok (start_date, end_of_day end_date)

-- `start_date <= current_time <= end_date`, for the dates of a rule.
unfoldable pub in_window : LockRule → ℕ → Result Bool
unfolding calculate_absolute_dates
in_window rule current_time = do
  dates ← calculate_absolute_dates rule.t_value rule.start_offset rule.end_offset
  ok (leb dates.0 current_time && leb current_time dates.1)
