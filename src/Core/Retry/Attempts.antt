-- ===== src/Core/Retry/Attempts.antt =====
-- How many attempts are made, and which answer decides.
use pool_shrpnt.Prelude.{
  ℕ, zero, suc, ◌+◌, ◌≤◌, ◌<◌, ◌≡◌, refl, sym, ◌∙◌, ap, inl, inr, ◌⊎◌, Option, none, some, arith,
  ◌==◌, Bool-cases, ==_iff,
}
use mathlib.Core.Path.{subst}
use pool_shrpnt.Core.Retry.{
  Answer, returned, retryable, fatal, Ending, returns, raises, give_up, attempt_from, retry_async,
}

-- What an answer that is not retried makes of the call.
abbrev pub decision : {A E : Type 0} → Answer A E → Option (Ending A E)
decision (returned a) = some (returns a)
decision (fatal e) = some (raises e)
decision (retryable e) = none

retried : {A E : Type 0} (x : Answer A E) → decision x ≡ none → (e : E) × (x ≡ retryable e)
retried (returned a) h = absurd cc
retried (fatal e) h = absurd cc
retried (retryable e) h = (e, refl)

decided :
    {A E : Type 0} (x : Answer A E) {ending : Ending A E}
    → decision x ≡ some ending
    → ((a : A) × (x ≡ returned a) × (ending ≡ returns a))
      ⊎ ((e : E) × (x ≡ fatal e) × (ending ≡ raises e))
decided (returned a) h = inl (a, refl, cc)
decided (fatal e) h = inr (e, refl, cc)
decided (retryable e) h = absurd cc

module _ {A E : Type 0} (func : ℕ → Answer A E) where
  -- An attempt that decides ends the loop, and any other goes on.
  stops :
      (left attempt : ℕ) (last : Option E) {ending : Ending A E}
      → decision (func attempt) ≡ some ending
      → attempt_from (suc left) attempt func last ≡ (ending, suc attempt)
  unfolding attempt_from
  stops left attempt last h = elim (decided (func attempt) h) [
    | inl (a, given, is) ↦ rw (given, attempt_from) (rw is refl)
    | inr (e, given, is) ↦ rw (given, attempt_from) (rw is refl)
  ]

  goes_on :
      (left attempt : ℕ) (last : Option E) {e : E}
      → func attempt ≡ retryable e
      → attempt_from (suc left) attempt func last ≡ attempt_from left (suc attempt) func (some e)
  unfolding attempt_from
  goes_on left attempt last h = rw (h, attempt_from) refl

  attempt_from-decided :
      (left attempt n : ℕ) (last : Option E) {ending : Ending A E}
      → attempt ≤ n
      → n < attempt + left
      → ((i : ℕ) → attempt ≤ i → i < n → decision (func i) ≡ none)
      → decision (func n) ≡ some ending
      → attempt_from left attempt func last ≡ (ending, suc n)
  attempt_from-decided zero attempt n last from below again h = absurd (omega (arith, from, below))
  attempt_from-decided (suc left) attempt n last {ending} from below again h =
      elim (Bool-cases (attempt == n)) [
        | inl now ↦
            let same : attempt ≡ n = (==_iff attempt n).0 now in
            subst (λ k. attempt_from (suc left) attempt func last ≡ (ending, suc k)) same
              (stops left attempt last (subst (λ k. decision (func k) ≡ some ending) (sym same) h))
        | inr later ↦
            let before : attempt < n = ground (arith, from) in
            let (e, given) = retried (func attempt) (again attempt (omega arith) before) in
            goes_on left attempt last given
            ∙ attempt_from-decided left (suc attempt) n (some e) before (omega (arith, below))
                (λ i lo hi. again i (omega (arith, lo)) hi) h
      ]

  attempt_from-exhausted :
      (left attempt n : ℕ) (last : Option E) {e : E}
      → n ≡ attempt + left
      → ((i : ℕ) → attempt ≤ i → i ≤ n → decision (func i) ≡ none)
      → func n ≡ retryable e
      → attempt_from (suc left) attempt func last ≡ (raises e, suc n)
  unfolding attempt_from give_up
  attempt_from-exhausted zero attempt n last {e} at_end again h =
      let same : n ≡ attempt = omega (arith, at_end) in
      goes_on zero attempt last (subst (λ k. func k ≡ retryable e) same h)
      ∙ ap (λ k. (raises e, suc k)) (sym same)
  attempt_from-exhausted (suc left) attempt n last {e} at_end again h =
      let (e', given) =
        retried (func attempt) (again attempt (omega arith) (omega (arith, at_end))) in
      goes_on (suc left) attempt last given
      ∙ attempt_from-exhausted left (suc attempt) n (some e') (omega (arith, at_end))
          (λ i lo hi. again i (omega (arith, lo)) hi) h

-- The first answer that is not retried decides: if it comes within the attempts allowed, its result is
-- returned or its exception raised, and no call is made after it.
pub retry_async-decided :
    {A E : Type 0} (func : ℕ → Answer A E) (max_attempts n : ℕ) {ending : Ending A E}
    → n < max_attempts
    → ((i : ℕ) → i < n → decision (func i) ≡ none)
    → decision (func n) ≡ some ending
    → retry_async max_attempts func ≡ (ending, suc n)
unfolding retry_async
retry_async-decided func max_attempts n fits again h =
    attempt_from-decided func max_attempts 0 n none (omega arith) (omega (arith, fits))
      (λ i _ hi. again i hi) h

-- If every attempt allowed gives an exception that is retried, the exception of the last one is raised,
-- after exactly that many calls.
pub retry_async-exhausted :
    {A E : Type 0} (func : ℕ → Answer A E) (n : ℕ) {e : E}
    → ((i : ℕ) → i ≤ n → decision (func i) ≡ none)
    → func n ≡ retryable e
    → retry_async (suc n) func ≡ (raises e, suc n)
unfolding retry_async
retry_async-exhausted func n again h =
    attempt_from-exhausted func n 0 n none (omega arith) (λ i _ hi. again i hi) h
