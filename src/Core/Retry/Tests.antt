-- ===== src/Core/Retry/Tests.antt =====
-- Runs of `retry_async` with three attempts, and instances of its theorems.
use pool_shrpnt.Prelude.{ℕ, ◌≡◌, refl, arith, ltb, if◌then◌else◌}
use pool_shrpnt.Core.Retry.{Answer, returned, retryable, returns, raises, attempt_from, retry_async}
use pool_shrpnt.Core.Retry.Attempts.{retry_async-decided, retry_async-exhausted}

-- A function that fails twice and then returns 7.
abbrev flaky : ℕ → Answer ℕ ℕ
flaky i = if ltb i 2 then retryable i else returned 7

flaky_returns : retry_async 3 flaky ≡ (returns 7, 3)
unfolding retry_async attempt_from
flaky_returns = refl

retry_async-decided_example : retry_async 3 flaky ≡ (returns 7, 3)
retry_async-decided_example =
    retry_async-decided flaky 3 2 (omega arith) (λ i h. ground (arith, h)) refl

-- A function that always fails.
abbrev broken : ℕ → Answer ℕ ℕ
broken i = retryable i

retry_async-exhausted_example : retry_async 3 broken ≡ (raises 2, 3)
retry_async-exhausted_example = retry_async-exhausted broken 2 (λ i h. refl) refl
