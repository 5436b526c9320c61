-- ===== src/Locks/Evaluator/Apply.antt =====
-- `apply_transition`, `generate_transition_tasks`, `evaluate_all_active_orders` and
-- `check_and_expire_manual_locks` of `LockEvaluator`. The branch of `apply_transition` for a
-- failing database is left out.
use pool_shrpnt.Prelude.{
  ℕ, ◌*◌, ◌-◌, Bool, true, false, ◌&&◌, ◌++◌, List, [], ◌∷◌, Option, none, some, map, ltb, ◌==◌,
  if◌then◌else◌, is_some, not,
}
use pool_shrpnt.Prelude.Text.{Text, codes}
use pool_shrpnt.Prelude.Table.{select, first, update, insert, exists}
use pool_shrpnt.Prelude.Clock.{hour}
use pool_shrpnt.Prelude.Outcome.{Result, ok, err, overflow_error, integrity_error, ◌>>=◌}
use pool_shrpnt.Prelude.Raise.{Action}
use pool_shrpnt.Locks.Model.{
  full, is_manual, LockState, blank_state, LockTransitionLog, window, expired_word, locked_word,
}
use pool_shrpnt.Locks.Evaluator.{LockDb, LockTransition, at_folder, determine_required_transitions}

-- The writes of `apply_transition` to the row that it found, of any type and also an inactive one.
abbrev pub moved : LockTransition → ℕ → LockState → LockState
moved t now s = record s {
  current_state = some t.new_state;
  permission_level = some t.new_permission;
  locked_at = some now;
  locked_by_rule_id = some t.lock_rule_id;
  updated_at = some now;
}

abbrev pub created : LockTransition → ℕ → ℕ → ℕ → LockState
created t id folder_id now = record (blank_state id folder_id t.folder_path now) {
  order_em_id = some t.order_em_id;
  current_state = some t.new_state;
  permission_level = some t.new_permission;
  locked_at = some now;
  locked_by_rule_id = some t.lock_rule_id;
}

abbrev pub log_of : LockTransition → ℕ → ℕ → LockTransitionLog
log_of t run_id now = record {
  lock_rule_id = some t.lock_rule_id;
  order_em_id = some t.order_em_id;
  folder_path = t.folder_path;
  previous_state = elim t.current_state [ none ↦ none | some w ↦ some (window w) ];
  new_state = window t.new_state;
  previous_permission = t.current_permission;
  new_permission = t.new_permission;
  transitioned_at = now;
  evaluation_run_id = some run_id;
  success = true;
}

-- The row of the folder that is found first is written, or a new one is added.
unfoldable pub apply_to_states : LockTransition → ℕ → ℕ → ℕ → List LockState → List LockState
apply_to_states t id folder_id now states =
    elim (first (at_folder t.order_em_id t.folder_path) states) [
      | none ↦ insert (created t id folder_id now) states
      | some lock_state ↦ update (λ s. s.id == lock_state.id) (moved t now) states
    ]

unfoldable pub apply_transition : LockTransition → ℕ → ℕ → ℕ → ℕ → Action LockDb LockTransitionLog
unfolding apply_to_states
apply_transition t id folder_id run_id now db = (
  ok (log_of t run_id now),
  record db {
    states = apply_to_states t id folder_id now db.states;
    logs = insert (log_of t run_id now) db.logs;
  },
)

-- `if em_id not in tasks: tasks[em_id] = []` and `tasks[em_id].append(transition)`.
pub append_task : LockTransition → List (ℕ × List LockTransition) → List (ℕ × List LockTransition)
append_task t [] = (t.order_em_id, t ∷ []) ∷ []
append_task t ((em_id, ts) ∷ tasks) =
    if em_id == t.order_em_id
    then (em_id, ts ++ t ∷ []) ∷ tasks
    else (em_id, ts) ∷ append_task t tasks

pub tasks_from :
    List (ℕ × List LockTransition) → List LockTransition → List (ℕ × List LockTransition)
unfolding append_task
tasks_from tasks [] = tasks
tasks_from tasks (t ∷ ts) = tasks_from (append_task t tasks) ts

pub generate_transition_tasks : List LockTransition → List (ℕ × List LockTransition)
unfolding tasks_from
generate_transition_tasks = tasks_from []

-- The loop over the orders. The folder of an order (`/teams/order_…/documents`) is an argument.
pub evaluate_orders : (ℕ → Text) → List ℕ → ℕ → LockDb → Result (List LockTransition)
unfolding determine_required_transitions
evaluate_orders documents [] evaluation_time db = ok []
evaluate_orders documents (order_em_id ∷ orders) evaluation_time db =
    determine_required_transitions order_em_id (documents order_em_id ∷ []) evaluation_time db
    >>= λ transitions.
        evaluate_orders documents orders evaluation_time db >>= λ rest. ok (transitions ++ rest)

-- `SELECT DISTINCT order_em_id` of the active rules.
pub distinct_orders : List ℕ → List ℕ
distinct_orders [] = []
distinct_orders (n ∷ ns) = n ∷ select (λ m. not (m == n)) (distinct_orders ns)

pub evaluate_all_active_orders : (ℕ → Text) → ℕ → LockDb → Result (List LockTransition)
unfolding evaluate_orders distinct_orders
evaluate_all_active_orders documents evaluation_time db =
    evaluate_orders documents
      (distinct_orders (map (λ r. r.order_em_id) (select (λ r. r.is_active) db.rules)))
      evaluation_time db

-- `lock.locked_at < expiry_time`, false for NULL.
abbrev pub locked_before : ℕ → LockState → Bool
locked_before time s = elim s.locked_at [ none ↦ false | some at ↦ ltb at time ]

-- An active manual lock that was locked before the expiry time.
abbrev pub is_expired_lock : ℕ → LockState → Bool
is_expired_lock expiry_time s = s.is_active && is_manual s.lock_type && locked_before expiry_time s

abbrev pub expired : ℕ → LockState → LockState
expired now s = record s {
  is_active = false;
  removed_at = some now;
  removal_reason = some (codes "Manual lock expired");
  updated_at = some now;
}

abbrev pub expiry_log : ℕ → LockState → LockTransitionLog
expiry_log now s = record {
  lock_rule_id = none;
  order_em_id = s.order_em_id;
  folder_path = s.folder_path;
  previous_state = some locked_word;
  new_state = expired_word;
  previous_permission = s.permission_level;
  new_permission = full;
  transitioned_at = now;
  evaluation_run_id = none;
  success = true;
}

-- The column `order_em_id` of the log is not nullable, so the commit fails and the session is
-- rolled back if one of the expired locks has no order.
unfoldable pub expire_locks : ℕ → ℕ → Action LockDb (List (Option ℕ × Text))
expire_locks expiry_time now db =
    let expired_locks = select (is_expired_lock expiry_time) db.states in
    if exists (λ (s : LockState). not (is_some s.order_em_id)) expired_locks
    then (err integrity_error, db)
    else (
      ok (map (λ (s : LockState). (s.order_em_id, s.folder_path)) expired_locks),
      record db {
        states = update (is_expired_lock expiry_time) (expired now) db.states;
        logs = db.logs ++ map (expiry_log now) expired_locks;
      },
    )

unfoldable pub check_and_expire_manual_locks : ℕ → ℕ → Action LockDb (List (Option ℕ × Text))
unfolding expire_locks
check_and_expire_manual_locks max_duration_hours now =
    if ltb now (max_duration_hours * hour)
    then (λ db. (err overflow_error, db))
    else expire_locks (now - max_duration_hours * hour) now
