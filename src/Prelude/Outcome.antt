-- ===== src/Prelude/Outcome.antt =====
-- Computations that may raise and touch no state.
use mathlib.Core.Path.{◌≡◌, refl}
use mathlib.Core.Logic.{◌⊎◌, inl, inr}
use mathlib.Core.Option.{Option, none, some}

-- The exceptions of `api/core/errors.py`, and those of Python and SQLAlchemy that the code meets.
pub data Failure : Type 0 where
  bad_request not_found conflict forbidden lock_error : Failure
  type_error value_error overflow_error multiple_results integrity_error database_error : Failure
  import_error validation_error pending_rollback : Failure

pub data Result (A : Type 0) : Type 0 where
  ok : A → Result A
  err : Failure → Result A

infixl 5 ◌>>=◌
abbrev pub ◌>>=◌ : {A B : Type 0} → Result A → (A → Result B) → Result B
ok a >>= f = f a
err e >>= f = err e

abbrev pub or_raise : {A : Type 0} → Option A → Failure → Result A
or_raise none e = err e
or_raise (some a) _ = ok a

pub Result-cases :
    {A : Type 0} (r : Result A) → ((a : A) × (r ≡ ok a)) ⊎ ((e : Failure) × (r ≡ err e))
Result-cases (ok a) = inl (a, refl)
Result-cases (err e) = inr (e, refl)

-- The same for a check, which returns nothing.
pub check-cases : (r : Result (Unit {0})) → (r ≡ ok tt) ⊎ ((e : Failure) × (r ≡ err e))
check-cases (ok _) = inl refl
check-cases (err e) = inr (e, refl)
