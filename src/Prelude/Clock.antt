-- ===== src/Prelude/Clock.antt =====
-- Time as the number of microseconds since 1 January of the year 1, UTC, and the arithmetic of
-- `datetime` and `timedelta` on it.
use Prim.Native.Nat.{ℕ, suc, ◌+◌, ◌-◌, ◌*◌, ◌/◌}
use mathlib.Core.Option.{Option, none, some}
use pool_shrpnt.Prelude.Tests.{ltb, if◌then◌else◌}
use pool_shrpnt.Prelude.Int.{ℤ, pos, negsuc}

abbrev pub hour : ℕ
hour = 3_600_000_000

abbrev pub day : ℕ
day = 86_400_000_000

-- 1 January of the year 10000, behind `datetime.max`.
abbrev pub end_of_time : ℕ
end_of_time = 3_652_059 * day

-- `t + timedelta(days=d)`; `none` stands for the OverflowError outside the years 1 to 9999.
unfoldable pub shift_days : ℕ → ℤ → Option ℕ
shift_days t (pos n) = if ltb (t + n * day) end_of_time then some (t + n * day) else none
shift_days t (negsuc n) = if ltb t (suc n * day) then none else some (t - suc n * day)

-- `t.replace(hour=23, minute=59, second=59, microsecond=999999)`
unfoldable pub end_of_day : ℕ → ℕ
end_of_day t = t / day * day + (day - 1)

-- `t + timedelta(hours=h)`, from the year 1 on.
unfoldable pub shift_hours : ℕ → ℤ → Option ℕ
shift_hours t (pos n) = if ltb (t + n * hour) end_of_time then some (t + n * hour) else none
shift_hours t (negsuc n) = if ltb t (suc n * hour) then none else some (t - suc n * hour)
