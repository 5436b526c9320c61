-- ===== src/Core/CircuitBreaker/Trips.antt =====
-- What a failure that reaches the threshold does to the calls after it.
use pool_shrpnt.Prelude.{
  ℕ, suc, ◌+◌, ◌≤◌, ◌<◌, ◌≡◌, refl, sym, ap, Bool, true, false, inl, inr, List, [], ◌∷◌, none, some,
  arith, leb, ltb, ◌&&◌, ◌⊎◌,
}
use mathlib.Core.Bool.{true≢false}
use pool_shrpnt.Core.CircuitBreaker.{
  opened, CircuitBreaker, fresh, should_attempt_reset, on_failure, begin, returned, raised_expected,
  raised_other, finish,
}
use pool_shrpnt.Core.CircuitBreaker.History.{
  Step, begins, ends, run, failures_from, fresh-Reflects, run-Reflects,
}

open-refuses :
    (now : ℕ) (b : CircuitBreaker)
    → b.state ≡ opened
    → should_attempt_reset now b ≡ false
    → begin now b ≡ (false, b)
unfolding begin
open-refuses now b is_open waits =
    rw (is_open, begin) (rw waits (ap (λ s. (false, record b { state = s })) is_open))

-- No call of these steps returns, none begins once the recovery time that started at `failed_at` is
-- over, and no failure is earlier than `failed_at`.
abbrev pub is_quiet : ℕ → ℕ → List Step → Bool
is_quiet failed_at timeout [] = true
is_quiet failed_at timeout (begins now ∷ steps) =
    ltb now (failed_at + timeout) && is_quiet failed_at timeout steps
is_quiet failed_at timeout (ends returned ∷ steps) = false
is_quiet failed_at timeout (ends (raised_expected now) ∷ steps) =
    leb failed_at now && is_quiet failed_at timeout steps
is_quiet failed_at timeout (ends raised_other ∷ steps) = is_quiet failed_at timeout steps

-- An open breaker whose last failure was at `failed_at` or later.
record Tripped (failed_at timeout : ℕ) (b : CircuitBreaker) : Type 0 where
  last : ℕ
  is_open : b.state ≡ opened
  time_is : b.last_failure_time ≡ some last
  not_earlier : failed_at ≤ last
  timeout_is : b.recovery_timeout ≡ timeout

module _ (failed_at timeout : ℕ) where
  Tripped-refuses :
      (now : ℕ) (b : CircuitBreaker)
      → Tripped failed_at timeout b
      → now < failed_at + timeout
      → begin now b ≡ (false, b)
  unfolding should_attempt_reset
  Tripped-refuses now b h early =
      open-refuses now b h.is_open
        (rw (h.time_is, h.timeout_is) (ground (arith, early, h.not_earlier)))

  on_failure-Tripped :
      (now : ℕ) (b : CircuitBreaker)
      → failed_at ≤ now
      → b.recovery_timeout ≡ timeout
      → (leb b.failure_threshold (suc b.failure_count) ≡ true) ⊎ (b.state ≡ opened)
      → Tripped failed_at timeout (on_failure now b)
  unfolding on_failure
  on_failure-Tripped now b later timeout_is cause = record {
    last = now;
    is_open = elim cause [ inl reached ↦ rw reached refl | inr is_open ↦ ground (arith, is_open) ];
    time_is = refl;
    not_earlier = later;
    timeout_is = timeout_is;
  }

  run-Tripped :
      (steps : List Step) (b : CircuitBreaker)
      → Tripped failed_at timeout b
      → is_quiet failed_at timeout steps ≡ true
      → Tripped failed_at timeout (run steps b)
  unfolding run finish
  run-Tripped [] b h quiet = h
  run-Tripped (begins now ∷ steps) b h quiet =
      rw (Tripped-refuses now b h (ground (arith, quiet)))
        (run-Tripped steps b h (ground (arith, quiet)))
  run-Tripped (ends returned ∷ steps) b h quiet = absurd (true≢false (sym quiet))
  run-Tripped (ends (raised_expected now) ∷ steps) b h quiet =
      run-Tripped steps (on_failure now b)
        (on_failure-Tripped now b (ground (arith, quiet)) h.timeout_is (inr h.is_open))
        (ground (arith, quiet))
  run-Tripped (ends raised_other ∷ steps) b h quiet = run-Tripped steps b h quiet

-- After a failure that reaches the threshold, and as long as no call in flight returns, every call
-- that begins before the recovery time has passed is refused, whatever other calls begin before that
-- time and fail since.
pub begin-trips :
    (threshold timeout failed_at now : ℕ) (steps later : List Step)
    → 0 < threshold
    → threshold ≤ suc (failures_from 0 steps)
    → is_quiet failed_at timeout later ≡ true
    → now < failed_at + timeout
    → let b = finish (raised_expected failed_at) (run steps (fresh threshold timeout)) in
      begin now (run later b) ≡ (false, run later b)
unfolding finish
begin-trips threshold timeout failed_at now steps later positive reached quiet early =
    let r =
      run-Reflects threshold timeout positive steps 0 none (fresh threshold timeout)
        (fresh-Reflects threshold timeout positive) in
    let b = run steps (fresh threshold timeout) in
    let trips : leb b.failure_threshold (suc b.failure_count) ≡ true =
      rw (r.threshold_is, r.count_is) (ground arith) in
    let tripped =
      on_failure-Tripped failed_at timeout failed_at b (omega arith) r.timeout_is (inl trips) in
    let still = run-Tripped failed_at timeout later (on_failure failed_at b) tripped quiet in
    Tripped-refuses failed_at timeout now (run later (on_failure failed_at b)) still early
