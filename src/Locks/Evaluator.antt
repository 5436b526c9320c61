-- ===== src/Locks/Evaluator.antt =====
-- `LockEvaluator` of api/services/locks/lock_evaluator.py: which rule is in force, which folders
-- need a transition, applying one, and expiring manual locks.
pub mod Apply
mod Ordering
pub mod InForce
pub mod Converge
pub mod Stuck
pub mod Expiry
mod Tests
use pool_shrpnt.Prelude.{
  ℕ, ◌*◌, ◌-◌, Bool, true, false, not, ◌&&◌, ◌||◌, ◌++◌, List, [], ◌∷◌, Option, none, some, map,
  ltb, ◌==◌, if◌then◌else◌,
}
use pool_shrpnt.Prelude.Text.{Text, text_eq, codes}
use pool_shrpnt.Prelude.Int.{leb_ℤ}
use pool_shrpnt.Prelude.Table.{select, first, update, insert}
use pool_shrpnt.Prelude.Clock.{hour}
use pool_shrpnt.Prelude.Outcome.{Result, ok, err, value_error, ◌>>=◌}
use pool_shrpnt.Locks.Model.{
  LockWindowType, LockType, manual, automatic, PermissionLevel, full, is_manual, is_automatic,
  window_eq, permission_eq, LockRule, LockState, blank_state, LockTransitionLog, StateName,
  expired_word, locked_word, is_value,
}
use pool_shrpnt.Locks.Windows.{in_window}

-- A transition that a folder needs. The text of its reason is left out.
pub record LockTransition : Type 0 where
  pub order_em_id : ℕ
  pub folder_path : Text
  pub current_state : Option LockWindowType
  pub new_state : LockWindowType
  pub current_permission : Option PermissionLevel
  pub new_permission : PermissionLevel
  pub lock_rule_id : ℕ

-- The tables that the evaluator reads and writes.
pub record LockDb : Type 0 where
  pub rules : List LockRule
  pub states : List LockState
  pub logs : List LockTransitionLog

-- The first active rule whose window holds the time.
pub evaluate_current_time_against_rules : List LockRule → ℕ → Result (Option LockRule)
evaluate_current_time_against_rules [] current_time = ok none
evaluate_current_time_against_rules (rule ∷ rules) current_time =
    let rest = evaluate_current_time_against_rules rules current_time in
    if rule.is_active
    then (do within ← in_window rule current_time; if within then ok (some rule) else rest)
    else rest

-- `ORDER BY start_offset`, stable: insertion of each row in front of the first that is greater.
pub place : LockRule → List LockRule → List LockRule
place r [] = r ∷ []
place r (x ∷ xs) = if leb_ℤ r.start_offset x.start_offset then r ∷ x ∷ xs else x ∷ place r xs

pub order_by_start : List LockRule → List LockRule
unfolding place
order_by_start [] = []
order_by_start (r ∷ rs) = place r (order_by_start rs)

abbrev pub at_folder : ℕ → Text → LockState → Bool
at_folder order_em_id folder_path s =
    is_value s.order_em_id order_em_id && text_eq s.folder_path folder_path

-- An active manual lock of the folder.
abbrev pub is_manual_lock : ℕ → Text → LockState → Bool
is_manual_lock order_em_id folder_path s =
    at_folder order_em_id folder_path s && s.is_active && is_manual s.lock_type

abbrev pub is_automatic_state : ℕ → Text → LockState → Bool
is_automatic_state order_em_id folder_path s =
    at_folder order_em_id folder_path s && is_automatic s.lock_type

abbrev pub transition_to :
    ℕ → Text → Option LockWindowType → Option PermissionLevel → LockRule → LockTransition
transition_to order_em_id folder_path state permission rule = record {
  order_em_id = order_em_id;
  folder_path = folder_path;
  current_state = state;
  new_state = rule.window_type;
  current_permission = permission;
  new_permission = rule.permission_level;
  lock_rule_id = rule.id;
}

-- `LockWindowType(None)` and `PermissionLevel(None)` raise a ValueError.
pub compare_current : ℕ → Text → LockRule → LockState → Result (Option LockTransition)
compare_current order_em_id folder_path rule current = elim current.current_state [
  | none ↦ err value_error
  | some state ↦ elim current.permission_level [
    | none ↦ err value_error
    | some permission ↦
        if window_eq state rule.window_type && permission_eq permission rule.permission_level
        then ok none
        else ok (some (transition_to order_em_id folder_path (some state) (some permission) rule))
  ]
]

-- One round of the loop over the folders.
pub folder_transition : ℕ → LockRule → List LockState → Text → Result (Option LockTransition)
unfolding compare_current
folder_transition order_em_id rule states folder_path =
    elim (first (is_manual_lock order_em_id folder_path) states) [
      | some _ ↦ ok none
      | none ↦ elim (first (is_automatic_state order_em_id folder_path) states) [
        | none ↦ ok (some (transition_to order_em_id folder_path none none rule))
        | some current ↦ compare_current order_em_id folder_path rule current
      ]
    ]

pub folder_transitions : ℕ → LockRule → List LockState → List Text → Result (List LockTransition)
unfolding folder_transition
folder_transitions order_em_id rule states [] = ok []
folder_transitions order_em_id rule states (folder_path ∷ folder_paths) =
    folder_transition order_em_id rule states folder_path >>= λ found.
    folder_transitions order_em_id rule states folder_paths >>= λ rest.
    ok (elim found [ none ↦ rest | some t ↦ t ∷ rest ])

pub determine_required_transitions : ℕ → List Text → ℕ → LockDb → Result (List LockTransition)
unfolding folder_transitions evaluate_current_time_against_rules order_by_start
determine_required_transitions order_em_id folder_paths evaluation_time db =
    evaluate_current_time_against_rules
      (order_by_start (select (λ r. r.order_em_id == order_em_id && r.is_active) db.rules))
      evaluation_time
    >>= λ rule_evaluation. elim rule_evaluation [
      | none ↦ ok []
      | some active_rule ↦ folder_transitions order_em_id active_rule db.states folder_paths
    ]
