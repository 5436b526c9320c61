-- ===== src/Core/CircuitBreaker/History.antt =====
-- The breaker against the history of the calls, in any interleaving of their steps.
use pool_shrpnt.Prelude.{
  ℕ, suc, ◌+◌, ◌≤◌, ◌<◌, ◌≡◌, refl, sym, ◌∙◌, Bool, true, false, inl, inr, List, [], ◌∷◌, Option,
  none, some, arith, leb, ltb, if◌then◌else◌, Bool-cases, Option-cases, ◌⊎◌,
}
use mathlib.Core.Bool.{true≢false}
use pool_shrpnt.Core.CircuitBreaker.{
  BreakerState, closed, opened, half_open, CircuitBreaker, fresh, should_attempt_reset, on_success,
  on_failure, begin, Ending, returned, raised_expected, raised_other, finish,
}

-- The steps of calls: one begins at a time, or one that has begun ends.
pub data Step : Type 0 where
  begins : ℕ → Step
  ends : Ending → Step

unfoldable pub run : List Step → CircuitBreaker → CircuitBreaker
run [] b = b
run (begins now ∷ steps) b = run steps (begin now b).1
run (ends e ∷ steps) b = run steps (finish e b)

-- The failures since the last success, and the time of the last failure.
abbrev pub failures_from : ℕ → List Step → ℕ
failures_from n [] = n
failures_from n (begins now ∷ steps) = failures_from n steps
failures_from n (ends returned ∷ steps) = failures_from 0 steps
failures_from n (ends (raised_expected now) ∷ steps) = failures_from (suc n) steps
failures_from n (ends raised_other ∷ steps) = failures_from n steps

abbrev pub last_failure_from : Option ℕ → List Step → Option ℕ
last_failure_from t [] = t
last_failure_from t (begins now ∷ steps) = last_failure_from t steps
last_failure_from t (ends returned ∷ steps) = last_failure_from t steps
last_failure_from t (ends (raised_expected now) ∷ steps) = last_failure_from (some now) steps
last_failure_from t (ends raised_other ∷ steps) = last_failure_from t steps

abbrev pub is_closed : BreakerState → Bool
is_closed closed = true
is_closed opened = false
is_closed half_open = false

-- The breaker after `n` failures since the last success, the last failure at `t`: it is closed exactly
-- below the threshold.
pub record Reflects (threshold timeout n : ℕ) (t : Option ℕ) (b : CircuitBreaker) : Type 0 where
  pub threshold_is : b.failure_threshold ≡ threshold
  pub timeout_is : b.recovery_timeout ≡ timeout
  pub count_is : b.failure_count ≡ n
  pub time_is : b.last_failure_time ≡ t
  pub closed_is : is_closed b.state ≡ ltb n threshold

state-cases : (s : BreakerState) → (s ≡ closed) ⊎ (s ≡ opened) ⊎ (s ≡ half_open)
state-cases closed = inl refl
state-cases opened = inr (inl refl)
state-cases half_open = inr (inr refl)

-- The state after a failure.
closed_after :
    (s : BreakerState) (threshold n : ℕ)
    → is_closed s ≡ ltb n threshold
    → is_closed (if leb threshold (suc n) then opened else s) ≡ ltb (suc n) threshold
closed_after s threshold n h = elim (Bool-cases (leb threshold (suc n))) [
  | inl reached ↦ rw reached (ground (arith, reached))
  | inr below ↦ rw below (ground (arith, below, h))
]

module _ (threshold timeout : ℕ) (positive : 0 < threshold) where
  begin-Reflects :
      (now n : ℕ) (t : Option ℕ) (b : CircuitBreaker)
      → Reflects threshold timeout n t b
      → Reflects threshold timeout n t (begin now b).1
  unfolding begin
  begin-Reflects now n t b h = elim (state-cases b.state) [
    | inl is_closed_now ↦ rw (is_closed_now, begin) h
    | inr (inr is_half_open) ↦ rw (is_half_open, begin) h
    | inr (inl is_open) ↦
        rw (is_open, begin)
          (elim (Bool-cases (should_attempt_reset now b)) [
            | inl retries ↦ rw retries (record {
              threshold_is = h.threshold_is;
              timeout_is = h.timeout_is;
              count_is = h.count_is;
              time_is = h.time_is;
              closed_is = rw is_open at h.closed_is;
            })
            | inr refuses ↦ rw refuses h
          ])
  ]

  finish-Reflects :
      (e : Ending) (n : ℕ) (t : Option ℕ) (b : CircuitBreaker)
      → Reflects threshold timeout n t b
      → Reflects threshold timeout
          (failures_from n (ends e ∷ []))
          (last_failure_from t (ends e ∷ []))
          (finish e b)
  unfolding finish on_success on_failure
  finish-Reflects returned n t b h = record {
    threshold_is = h.threshold_is;
    timeout_is = h.timeout_is;
    count_is = refl;
    time_is = h.time_is;
    closed_is = ground (arith, positive);
  }
  finish-Reflects (raised_expected now) n t b h = record {
    threshold_is = h.threshold_is;
    timeout_is = h.timeout_is;
    count_is = ground (arith, h.count_is);
    time_is = refl;
    closed_is = rw (h.threshold_is, h.count_is) (closed_after b.state threshold n h.closed_is);
  }
  finish-Reflects raised_other n t b h = h

  pub run-Reflects :
      (steps : List Step) (n : ℕ) (t : Option ℕ) (b : CircuitBreaker)
      → Reflects threshold timeout n t b
      → Reflects threshold timeout (failures_from n steps) (last_failure_from t steps) (run steps b)
  unfolding run
  run-Reflects [] n t b h = h
  run-Reflects (begins now ∷ steps) n t b h =
      run-Reflects steps n t (begin now b).1 (begin-Reflects now n t b h)
  run-Reflects (ends returned ∷ steps) n t b h =
      run-Reflects steps 0 t (finish returned b) (finish-Reflects returned n t b h)
  run-Reflects (ends (raised_expected now) ∷ steps) n t b h =
      run-Reflects steps (suc n) (some now) (finish (raised_expected now) b)
        (finish-Reflects (raised_expected now) n t b h)
  run-Reflects (ends raised_other ∷ steps) n t b h =
      run-Reflects steps n t (finish raised_other b) (finish-Reflects raised_other n t b h)

pub fresh-Reflects :
    (threshold timeout : ℕ)
    → 0 < threshold
    → Reflects threshold timeout 0 none (fresh threshold timeout)
fresh-Reflects threshold timeout positive = record {
  threshold_is = refl;
  timeout_is = refl;
  count_is = refl;
  time_is = refl;
  closed_is = ground (arith, positive);
}

refused-cases :
    (now : ℕ) (b : CircuitBreaker)
    → (begin now b).0 ≡ false
    → (is_closed b.state ≡ false)
      × (t : ℕ) × (b.last_failure_time ≡ some t)
      × (now < t + b.recovery_timeout)
unfolding begin should_attempt_reset
refused-cases now b h = elim (state-cases b.state) [
  | inl is_closed_now ↦ absurd (true≢false (rw (is_closed_now, begin) at h))
  | inr (inr is_half_open) ↦ absurd (true≢false (rw (is_half_open, begin) at h))
  | inr (inl is_open) ↦ elim (Option-cases b.last_failure_time) [
    | inl never ↦ absurd (true≢false (rw (is_open, begin, should_attempt_reset, never) at h))
    | inr (t, failed_at) ↦ (
      rw is_open refl,
      t,
      failed_at,
      ground (arith, rw (is_open, begin, should_attempt_reset, failed_at) at h),
    )
  ]
]

-- After any interleaving of the steps of calls, from a new breaker with a positive threshold, the
-- counter of the breaker is the number of failures since the last success, and the breaker is closed
-- exactly as long as they are fewer than the threshold.
pub run-is_closed :
    (threshold timeout : ℕ) (steps : List Step)
    → 0 < threshold
    → let b = run steps (fresh threshold timeout) in
      (b.failure_count ≡ failures_from 0 steps)
      × (is_closed b.state ≡ ltb (failures_from 0 steps) threshold)
run-is_closed threshold timeout steps positive =
    let r =
      run-Reflects threshold timeout positive steps 0 none (fresh threshold timeout)
        (fresh-Reflects threshold timeout positive) in
    (r.count_is, r.closed_is)

-- A call is refused only if there have been as many failures since the last success as the threshold
-- says, and less than the recovery time has passed since the last failure.
pub begin-refused :
    (threshold timeout now : ℕ) (steps : List Step)
    → 0 < threshold
    → (begin now (run steps (fresh threshold timeout))).0 ≡ false
    → (threshold ≤ failures_from 0 steps)
      × (t : ℕ) × (last_failure_from none steps ≡ some t)
      × (now < t + timeout)
begin-refused threshold timeout now steps positive h =
    let b = run steps (fresh threshold timeout) in
    let r =
      run-Reflects threshold timeout positive steps 0 none (fresh threshold timeout)
        (fresh-Reflects threshold timeout positive) in
    let (off, t, failed_at, early) = refused-cases now b h in
    (ground (arith, off, r.closed_is), t, sym r.time_is ∙ failed_at, rw r.timeout_is at early)
