-- ===== src/Locks/Rules/Templates.antt =====
-- Creating the rules of a template: all of them, or none, or those before a row that the table
-- refuses.
use pool_shrpnt.Prelude.{ℕ, ◌≡◌, ◌⊎◌, Bool, false, List, ◌++◌, ◌==◌, All, length, ◌<◌}
use pool_shrpnt.Prelude.Table.{exists}
use pool_shrpnt.Prelude.Outcome.{Result, ok, err, bad_request, pending_rollback}
use pool_shrpnt.Locks.Model.{LockRule}
use pool_shrpnt.Locks.Rules.{Rules}

-- No identifier of `created` is one of a row of `db`.
abbrev IsNew : List LockRule → Rules → Type 0
IsNew created = All (λ r. exists (λ (c : LockRule). c.id == r.id) created ≡ false)

-- A template that stopped at a row that the table refuses: some of its rules are left, fewer than
-- it has entries.
pub record StoppedAt (accepts : LockRule → Bool) (n : ℕ) (db db' : Rules) : Type 0 where
  pub made : List LockRule
  pub refused : LockRule
  pub made_are : db' ≡ db ++ made
  pub fewer : length made < n
  pub is_refused : accepts refused ≡ false

-- What the loop returns, and the table that it leaves.
abbrev pub AllOrNothing : (LockRule → Bool) → ℕ → Rules → Result (List LockRule) × Rules → Type 0
AllOrNothing accepts n db (ok rules, db') = (db' ≡ db ++ rules) × (length rules ≡ n)
AllOrNothing accepts n db (err f, db') =
    ((f ≡ bad_request) × (db' ≡ db)) ⊎ ((f ≡ pending_rollback) × StoppedAt accepts n db db')
