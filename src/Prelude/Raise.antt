-- ===== src/Prelude/Raise.antt =====
-- Methods that read and write a database and may raise. The state comes back after a raise too:
-- what the method wrote before stays written unless the code rolls it back.
use mathlib.Core.Bool.{Bool}
use mathlib.Core.Option.{Option, none, some}
use pool_shrpnt.Prelude.Tests.{if◌then◌else◌}
use pool_shrpnt.Prelude.Outcome.{Failure, Result, ok, err}

abbrev pub Action : Type 0 → Type 0 → Type 0
Action S A = S → Result A × S

module _ {S A : Type 0} where
  abbrev pub pure : A → Action S A
  pure a s = (ok a, s)

  abbrev pub raise : Failure → Action S A
  raise e s = (err e, s)

  abbrev pub gets : (S → A) → Action S A
  gets f s = (ok (f s), s)

  abbrev pub or_raise : Option A → Failure → Action S A
  or_raise o e s = (elim o [ none ↦ err e | some a ↦ ok a ], s)

  abbrev pub lift : Result A → Action S A
  lift r s = (r, s)

module _ {S : Type 0} where
  abbrev pub raise_if : Bool → Failure → Action S (Unit {0})
  raise_if test e s = (if test then err e else ok tt, s)

  abbrev pub modify : (S → S) → Action S (Unit {0})
  modify f s = (ok tt, f s)

infixl 5 ◌>>=◌ ◌>>◌
abbrev pub ◌>>=◌ : {S A B : Type 0} → Action S A → (A → Action S B) → Action S B
◌>>=◌ m f s = let (r, s') = m s in elim r [ ok a ↦ f a s' | err e ↦ (err e, s') ]

abbrev pub ◌>>◌ : {S A B : Type 0} → Action S A → Action S B → Action S B
m >> k = m >>= λ _. k
