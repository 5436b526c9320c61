-- ===== src/Core/CircuitBreaker.antt =====
-- `CircuitBreaker` of api/core/retry.py. A call is split at its `await`: what runs before the awaited
-- function and what runs when that has returned or raised, so that the steps of several calls may
-- interleave. Times of `time.time()` are natural numbers in one unit.
pub mod History
pub mod Trips
mod Tests
use pool_shrpnt.Prelude.{
  ℕ, suc, ◌+◌, Bool, true, false, List, [], ◌∷◌, Option, none, some, leb, if◌then◌else◌,
}

-- "closed", "open" and "half-open".
pub data BreakerState : Type 0 where
  closed opened half_open : BreakerState

pub record CircuitBreaker : Type 0 where
  pub failure_threshold : ℕ
  pub recovery_timeout : ℕ
  pub failure_count : ℕ
  pub last_failure_time : Option ℕ
  pub state : BreakerState

-- `__init__`
abbrev pub fresh : ℕ → ℕ → CircuitBreaker
fresh failure_threshold recovery_timeout = record {
  failure_threshold = failure_threshold;
  recovery_timeout = recovery_timeout;
  failure_count = 0;
  last_failure_time = none;
  state = closed;
}

-- `(time.time() - self.last_failure_time) >= self.recovery_timeout`
pub should_attempt_reset : ℕ → CircuitBreaker → Bool
should_attempt_reset now b = elim b.last_failure_time [
  | none ↦ true
  | some t ↦ leb (t + b.recovery_timeout) now
]

pub on_success : CircuitBreaker → CircuitBreaker
on_success b = record b { failure_count = 0; state = closed }

pub on_failure : ℕ → CircuitBreaker → CircuitBreaker
on_failure now b = record b {
  failure_count = suc b.failure_count;
  last_failure_time = some now;
  state = if leb b.failure_threshold (suc b.failure_count) then opened else b.state;
}

-- `call` up to the awaited function: may it run, and the breaker then.
pub begin : ℕ → CircuitBreaker → Bool × CircuitBreaker
unfolding should_attempt_reset
begin now b = elim b.state [
  | closed ↦ (true, b)
  | half_open ↦ (true, b)
  | opened ↦
      if should_attempt_reset now b then (true, record b { state = half_open }) else (false, b)
]

-- How the awaited function ends: it returns, it raises the expected exception at a time, or another.
pub data Ending : Type 0 where
  returned : Ending
  raised_expected : ℕ → Ending
  raised_other : Ending

-- `call` from the end of the awaited function on.
pub finish : Ending → CircuitBreaker → CircuitBreaker
unfolding on_success on_failure
finish returned b = on_success b
finish (raised_expected now) b = on_failure now b
finish raised_other b = b
