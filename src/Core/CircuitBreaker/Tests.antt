-- ===== src/Core/CircuitBreaker/Tests.antt =====
-- Runs of a breaker with the threshold 2 and the recovery time 60, and instances of its theorems.
use pool_shrpnt.Prelude.{
  ℕ, ◌+◌, ◌≤◌, ◌<◌, ◌≡◌, refl, true, false, List, [], ◌∷◌, none, some, arith, ltb,
}
use pool_shrpnt.Core.CircuitBreaker.{
  fresh, should_attempt_reset, on_success, on_failure, begin, raised_expected, returned,
  raised_other, finish,
}
use pool_shrpnt.Core.CircuitBreaker.History.{
  Step, begins, ends, run, failures_from, last_failure_from, is_closed, run-is_closed,
  begin-refused,
}
use pool_shrpnt.Core.CircuitBreaker.Trips.{begin-trips}

-- Two calls in flight at the same time fail.
abbrev two_failures : List Step
two_failures =
    begins 0
    ∷ begins 1
    ∷ ends (raised_expected 5)
    ∷ ends raised_other
    ∷ begins 6
    ∷ ends (raised_expected 7)
    ∷ []

run-is_closed_example :
    let b = run two_failures (fresh 2 60) in (b.failure_count ≡ 2) × (is_closed b.state ≡ ltb 2 2)
run-is_closed_example = run-is_closed 2 60 two_failures (omega arith)

refuses_at_60 : (begin 60 (run two_failures (fresh 2 60))).0 ≡ false
unfolding run begin should_attempt_reset finish on_success on_failure
refuses_at_60 = refl

retries_at_67 : (begin 67 (run two_failures (fresh 2 60))).0 ≡ true
unfolding run begin should_attempt_reset finish on_success on_failure
retries_at_67 = refl

begin-refused_example :
    (2 ≤ failures_from 0 two_failures)
    × (t : ℕ) × (last_failure_from none two_failures ≡ some t)
    × (60 < t + 60)
begin-refused_example = begin-refused 2 60 60 two_failures (omega arith) refuses_at_60

begin-trips_example :
    let b =
      finish (raised_expected 5) (run (begins 0 ∷ ends (raised_expected 3) ∷ []) (fresh 2 60)) in
    let later = begins 6 ∷ ends (raised_expected 8) ∷ ends raised_other ∷ [] in
    begin 50 (run later b) ≡ (false, run later b)
begin-trips_example =
    begin-trips 2 60 5 50 (begins 0 ∷ ends (raised_expected 3) ∷ [])
      (begins 6 ∷ ends (raised_expected 8) ∷ ends raised_other ∷ []) (omega arith) (omega arith)
      refl (omega arith)

-- A call in flight that returns closes the breaker before the recovery time has passed.
return_closes :
    (begin 50 (
      run
        (begins 0
          ∷ begins 1
          ∷ begins 2
          ∷ ends (raised_expected 3)
          ∷ ends (raised_expected 5)
          ∷ ends returned
          ∷ [])
        (fresh 2 60))).0
    ≡ true
unfolding run begin should_attempt_reset finish on_success on_failure
return_closes = refl
