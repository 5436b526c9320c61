-- ===== src/Locks/Rules.antt =====
-- `LockRuleService` of api/services/locks/lock_rule_service.py over the table `lock_rule`. The new
-- identifier (`uuid4()`) and the current time are arguments, and so is what the constraints of the
-- table say of a row that is added (`accepts`: the order exists, no text is too long), since they are
-- the database's to decide. `NotFoundError` takes two arguments and is called with one, so Python
-- raises a TypeError where a rule is missing.
pub mod Disjoint
pub mod Changes
pub mod Exclusive
pub mod Templates
mod Tests
use pool_shrpnt.Prelude.{
  ℕ, Bool, true, false, not, ◌&&◌, ◌++◌, List, [], ◌∷◌, Option, none, some, ◌==◌, if◌then◌else◌,
  is_some, or_default,
}
use pool_shrpnt.Prelude.Text.{Text, codes}
use pool_shrpnt.Prelude.Int.{ℤ, pos, negsuc, leb_ℤ}
use pool_shrpnt.Prelude.Table.{select, first, update, insert, exists}
use pool_shrpnt.Prelude.Outcome.{
  Failure, Result, ok, err, bad_request, conflict, type_error, value_error, integrity_error,
  pending_rollback,
}
use pool_shrpnt.Prelude.Raise.{Action, pure, gets, or_raise, raise_if, lift, modify, ◌>>=◌, ◌>>◌}
use pool_shrpnt.Locks.Model.{LockWindowType, PermissionLevel, full, read, LockRule}

abbrev pub Rules : Type 0
Rules = List LockRule

-- "Windows overlap if: start1 <= end2 AND end1 >= start2".
unfoldable pub overlaps : ℤ → ℤ → LockRule → Bool
overlaps start_offset end_offset rule =
    leb_ℤ start_offset rule.end_offset && leb_ℤ rule.start_offset end_offset

-- The loop over the existing rules.
pub check_windows : ℤ → ℤ → List LockRule → Result (Unit {0})
unfolding overlaps
check_windows start_offset end_offset [] = ok tt
check_windows start_offset end_offset (rule ∷ rules) =
    if overlaps start_offset end_offset rule
    then err conflict
    else check_windows start_offset end_offset rules

abbrev pub not_excluded : Option ℕ → ℕ → Bool
not_excluded none id = true
not_excluded (some excluded) id = not (id == excluded)

pub validate_non_overlapping_windows : ℕ → ℤ → ℤ → Option ℕ → Rules → Result (Unit {0})
unfolding check_windows
validate_non_overlapping_windows order_em_id start_offset end_offset exclude_rule_id rules =
    check_windows start_offset end_offset (
      select (λ r. r.order_em_id == order_em_id && r.is_active && not_excluded exclude_rule_id r.id)
        rules)

-- What a caller asks of `create_lock_rule`.
pub record NewRule : Type 0 where
  pub order_em_id : ℕ
  pub rule_name : Text
  pub t_value : ℕ
  pub window_type : LockWindowType
  pub start_offset : ℤ
  pub end_offset : ℤ
  pub permission_level : PermissionLevel
  pub created_by : Text

abbrev pub rule_of : ℕ → ℕ → NewRule → LockRule
rule_of id now n = record {
  id = id;
  order_em_id = n.order_em_id;
  rule_name = n.rule_name;
  t_value = n.t_value;
  window_type = n.window_type;
  start_offset = n.start_offset;
  end_offset = n.end_offset;
  permission_level = n.permission_level;
  is_active = true;
  created_by = n.created_by;
  created_at = now;
  updated_at = none;
}

-- A commit that the constraints refuse writes nothing and leaves the session to be rolled back.
pub create_lock_rule : (LockRule → Bool) → ℕ → ℕ → NewRule → Action Rules LockRule
unfolding validate_non_overlapping_windows
create_lock_rule accepts id now n = do
  rules ← gets (λ db. db)
  lift (validate_non_overlapping_windows n.order_em_id n.start_offset n.end_offset none rules)
  raise_if (not (accepts (rule_of id now n))) integrity_error
  modify (insert (rule_of id now n))
  pure (rule_of id now n)

-- The optional arguments of `update_lock_rule`.
pub record RuleChanges : Type 0 where
  pub rule_name : Option Text
  pub t_value : Option ℕ
  pub window_type : Option LockWindowType
  pub start_offset : Option ℤ
  pub end_offset : Option ℤ
  pub permission_level : Option PermissionLevel
  pub is_active : Option Bool

abbrev pub changed : RuleChanges → ℕ → LockRule → LockRule
changed c now r = record r {
  rule_name = or_default c.rule_name r.rule_name;
  t_value = or_default c.t_value r.t_value;
  window_type = or_default c.window_type r.window_type;
  start_offset = or_default c.start_offset r.start_offset;
  end_offset = or_default c.end_offset r.end_offset;
  permission_level = or_default c.permission_level r.permission_level;
  is_active = or_default c.is_active r.is_active;
  updated_at = some now;
}

-- The windows are validated only if an offset is given.
pub validate_changes : ℕ → RuleChanges → LockRule → Rules → Result (Unit {0})
unfolding validate_non_overlapping_windows
validate_changes rule_id c r rules =
    if is_some c.start_offset
    then validate_non_overlapping_windows r.order_em_id (or_default c.start_offset r.start_offset)
        (or_default c.end_offset r.end_offset) (some rule_id) rules
    else if is_some c.end_offset
    then validate_non_overlapping_windows r.order_em_id (or_default c.start_offset r.start_offset)
        (or_default c.end_offset r.end_offset) (some rule_id) rules
    else ok tt

pub update_lock_rule : ℕ → RuleChanges → ℕ → Action Rules LockRule
unfolding validate_changes
update_lock_rule rule_id c now = do
  rules ← gets (λ db. db)
  lock_rule ← or_raise (first (λ r. r.id == rule_id) rules) type_error
  lift (validate_changes rule_id c lock_rule rules)
  modify (update (λ r. r.id == rule_id) (λ _. changed c now lock_rule))
  pure (changed c now lock_rule)

pub delete_lock_rule : ℕ → Action Rules (Unit {0})
delete_lock_rule rule_id = do
  rules ← gets (λ db. db)
  or_raise (first (λ r. r.id == rule_id) rules) type_error
  modify (select (λ r. not (r.id == rule_id)))

abbrev pub standard_window :
    ℕ → ℕ → Text → Text → LockWindowType → ℤ → ℤ → PermissionLevel → NewRule
standard_window order_em_id t_value created_by name window_type start_offset end_offset level =
    record {
      order_em_id = order_em_id;
      rule_name = name;
      t_value = t_value;
      window_type = window_type;
      start_offset = start_offset;
      end_offset = end_offset;
      permission_level = level;
      created_by = created_by;
    }

-- T-3 to T-1 read, T+0 to T+7 full, T+8 to T+365 read. Each call commits.
pub create_standard_lock_windows :
    (LockRule → Bool) → ℕ → ℕ → ℕ → ℕ → ℕ → ℕ → Text → Action Rules (List LockRule)
unfolding create_lock_rule
create_standard_lock_windows accepts id₁ id₂ id₃ now order_em_id t_value created_by = do
  pre ← create_lock_rule accepts id₁ now (
      standard_window order_em_id t_value created_by (codes "Pre-release notification")
        LockWindowType.pre_release (negsuc 2) (negsuc 0) read)
  active ← create_lock_rule accepts id₂ now (
      standard_window order_em_id t_value created_by (codes "Active upload window")
        LockWindowType.active (pos 0) (pos 7) full)
  locked ← create_lock_rule accepts id₃ now (
      standard_window order_em_id t_value created_by (codes "Automatic read-only lock")
        LockWindowType.locked (pos 8) (pos 365) read)
  pure (pre ∷ active ∷ locked ∷ [])

-- The failures that leave a session unusable until it is rolled back.
pub is_refused_commit : Failure → Bool
is_refused_commit integrity_error = true
is_refused_commit _ = false

-- "Rollback all created rules if any fail". The session is not rolled back, so after a commit that
-- was refused the deletions and the commit raise a PendingRollbackError, and nothing is deleted.
pub undo_created : Failure → List LockRule → Action Rules (List LockRule)
unfolding is_refused_commit
undo_created e created db =
    if is_refused_commit e
    then (err pending_rollback, db)
    else (err bad_request, select (λ r. not (exists (λ (c : LockRule). c.id == r.id) created)) db)

-- The loop of `create_rules_from_template`, over the entries of the template, each with the
-- identifier that `uuid4()` draws for it. `none` is an entry with a missing key, or with a value that
-- is none of `LockWindowType` or `PermissionLevel`.
pub create_from_configs :
    (LockRule → Bool) → ℕ → List (ℕ × Option NewRule) → List LockRule → Action Rules (List LockRule)
create_from_configs accepts now [] created db = pure created db
create_from_configs accepts now ((id, none) ∷ configs) created db =
    undo_created value_error created db
create_from_configs accepts now ((id, some n) ∷ configs) created db =
    let (r, db') = create_lock_rule accepts id now n db in
    elim r [
      | ok rule ↦ create_from_configs accepts now configs (created ++ rule ∷ []) db'
      | err e ↦ undo_created e created db'
    ]
