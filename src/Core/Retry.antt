-- ===== src/Core/Retry.antt =====
-- `retry_async` of api/core/retry.py. The awaited function is the sequence of the answers that it
-- gives to its calls; the random delays between the attempts are left out.
pub mod Attempts
mod Tests
use pool_shrpnt.Prelude.{ℕ, zero, suc, List, [], ◌∷◌, Option, none, some}

-- What one call of the function gives: a result, an exception of `config.retry_on`, or another one.
pub data Answer (A E : Type 0) : Type 0 where
  returned : A → Answer A E
  retryable : E → Answer A E
  fatal : E → Answer A E

-- How `retry_async` ends. It returns None if it makes no attempt.
pub data Ending (A E : Type 0) : Type 0 where
  returns : A → Ending A E
  raises : E → Ending A E
  returns_none : Ending A E

-- After the loop: `if last_exception: raise last_exception`.
pub give_up : {A E : Type 0} → Option E → Ending A E
give_up none = returns_none
give_up (some e) = raises e

-- The loop with the attempts that are left, from the given attempt on. It counts the calls made.
pub attempt_from : {A E : Type 0} → ℕ → ℕ → (ℕ → Answer A E) → Option E → Ending A E × ℕ
unfolding give_up
attempt_from zero attempt func last_exception = (give_up last_exception, attempt)
attempt_from (suc left) attempt func last_exception = elim (func attempt) [
  | returned a ↦ (returns a, suc attempt)
  | fatal e ↦ (raises e, suc attempt)
  | retryable e ↦ attempt_from left (suc attempt) func (some e)
]

pub retry_async : {A E : Type 0} → ℕ → (ℕ → Answer A E) → Ending A E × ℕ
unfolding attempt_from
retry_async max_attempts func = attempt_from max_attempts 0 func none
