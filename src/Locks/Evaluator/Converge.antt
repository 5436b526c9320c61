-- ===== src/Locks/Evaluator/Converge.antt =====
-- Applying the transition of a folder, and asking again.
use pool_shrpnt.Prelude.{
  ℕ, ◌≡◌, refl, sym, ◌∙◌, Bool, true, inl, inr, List, Option, none, some, arith, ◌==◌, Option-cases,
}
use mathlib.Core.Path.{subst}
use pool_shrpnt.Prelude.Text.{Text, text_eq_refl}
use pool_shrpnt.Prelude.Table.{
  first, update, insert, first-some, first-insert, first-weaken, first-refine, first-update,
  first-update-none,
}
use pool_shrpnt.Prelude.Outcome.{ok}
use pool_shrpnt.Locks.Model.{
  LockWindowType, PermissionLevel, automatic, window_eq, permission_eq, LockRule, LockState,
}
use pool_shrpnt.Locks.Evaluator.{
  LockDb, LockTransition, at_folder, is_manual_lock, is_automatic_state, folder_transition,
  transition_to,
}
use pool_shrpnt.Locks.Evaluator.Apply.{moved, created, apply_to_states, apply_transition}

window_eq_refl : (w : LockWindowType) → window_eq w w ≡ true
window_eq_refl LockWindowType.pre_release = refl
window_eq_refl LockWindowType.active = refl
window_eq_refl LockWindowType.limited = refl
window_eq_refl LockWindowType.locked = refl

permission_eq_refl : (l : PermissionLevel) → permission_eq l l ≡ true
permission_eq_refl PermissionLevel.full = refl
permission_eq_refl PermissionLevel.write = refl
permission_eq_refl PermissionLevel.read = refl

module _ (order_em_id : ℕ) (folder_path : Text) (rule : LockRule) where
  -- A transition that is asked for names the folder and what the rule wants.
  folder_transition-to :
      (states : List LockState) {t : LockTransition}
      → folder_transition order_em_id rule states folder_path ≡ ok (some t)
      → t ≡ transition_to order_em_id folder_path t.current_state t.current_permission rule
  unfolding folder_transition
  folder_transition-to states h = ground arith

  -- A folder whose first automatic row holds what the rule asks for, and that has no manual lock,
  -- needs no transition.
  settled :
      (states : List LockState) {s : LockState}
      → first (is_manual_lock order_em_id folder_path) states ≡ none
      → first (is_automatic_state order_em_id folder_path) states ≡ some s
      → s.current_state ≡ some rule.window_type
      → s.permission_level ≡ some rule.permission_level
      → folder_transition order_em_id rule states folder_path ≡ ok none
  unfolding folder_transition
  settled states {s} no_manual auto hs hl =
      ground (arith, window_eq_refl rule.window_type, permission_eq_refl rule.permission_level)

  module _ (a : Option LockWindowType) (b : Option PermissionLevel) (id folder_id now : ℕ) where
    abbrev wanted : LockTransition
    wanted = transition_to order_em_id folder_path a b rule

    abbrev after : List LockState → List LockState
    after = apply_to_states wanted id folder_id now

    -- A folder that has no row gets one.
    apply-new :
        (states : List LockState)
        → first (at_folder order_em_id folder_path) states ≡ none
        → folder_transition order_em_id rule (after states) folder_path ≡ ok none
    unfolding apply_to_states
    apply-new states free =
        let none_of =
          λ (p : LockState → Bool)
              (imp : (x : LockState) → p x ≡ true → at_folder order_em_id folder_path x ≡ true).
            first-weaken p (at_folder order_em_id folder_path) states imp free in
        let c : LockState = created wanted id folder_id now in
        rw (free, apply_to_states)
          (settled (insert c states) {s = c}
            (first-insert (is_manual_lock order_em_id folder_path) c states
                (none_of _ (λ x. ground arith))
              ∙ ground (arith, text_eq_refl folder_path))
            (first-insert (is_automatic_state order_em_id folder_path) c states
                (none_of _ (λ x. ground arith))
              ∙ ground (arith, text_eq_refl folder_path))
            refl refl)

    -- A folder whose first row is automatic gets it written.
    apply-found :
        (states : List LockState) {s : LockState}
        → first (at_folder order_em_id folder_path) states ≡ some s
        → s.lock_type ≡ automatic
        → first (is_manual_lock order_em_id folder_path) states ≡ none
        → folder_transition order_em_id rule (after states) folder_path ≡ ok none
    unfolding apply_to_states
    apply-found states {s} found auto no_manual =
        let q : LockState → Bool = λ x. x.id == s.id in
        let first_auto =
          first-refine (is_automatic_state order_em_id folder_path)
            (at_folder order_em_id folder_path) states {r = s} (λ x. ground arith) found
            (ground (arith, first-some (at_folder order_em_id folder_path) states found)) in
        rw (found, apply_to_states)
          (settled (update q (moved wanted now) states) {s = moved wanted now s}
            (first-update-none (is_manual_lock order_em_id folder_path) q (moved wanted now) states
              (λ x. refl) no_manual)
            (first-update (is_automatic_state order_em_id folder_path) q (moved wanted now) states
                (λ x. refl) first_auto
              ∙ ground arith)
            refl refl)

-- A transition is asked for only where the folder has no active manual lock.
folder_transition-no_manual :
    (order_em_id : ℕ) (folder_path : Text) (rule : LockRule) (states : List LockState)
    {t : LockTransition}
    → folder_transition order_em_id rule states folder_path ≡ ok (some t)
    → first (is_manual_lock order_em_id folder_path) states ≡ none
unfolding folder_transition
folder_transition-no_manual order_em_id folder_path rule states h = ground arith

-- Without a manual lock and without an automatic row a folder needs its first transition.
pub first_time :
    (order_em_id : ℕ) (folder_path : Text) (rule : LockRule) (states : List LockState)
    → first (is_manual_lock order_em_id folder_path) states ≡ none
    → first (is_automatic_state order_em_id folder_path) states ≡ none
    → folder_transition order_em_id rule states folder_path
      ≡ ok (some (transition_to order_em_id folder_path none none rule))
unfolding folder_transition
first_time order_em_id folder_path rule states no_manual no_auto = ground arith

-- Applying the transition that a folder needs settles the folder: the next evaluation under the
-- same rule asks for nothing more, if the first row of the folder, where it has one, is automatic.
pub apply_transition-settles :
    (order_em_id : ℕ) (folder_path : Text) (rule : LockRule) (id folder_id run_id now : ℕ)
    (db : LockDb) {t : LockTransition}
    → ((s : LockState)
        → first (at_folder order_em_id folder_path) db.states ≡ some s
        → s.lock_type ≡ automatic)
    → folder_transition order_em_id rule db.states folder_path ≡ ok (some t)
    → folder_transition order_em_id rule
        (apply_transition t id folder_id run_id now db).1.states
        folder_path
      ≡ ok none
unfolding apply_transition
apply_transition-settles order_em_id folder_path rule id folder_id run_id now db {t} auto h =
    let no_manual = folder_transition-no_manual order_em_id folder_path rule db.states h in
    subst
      (λ (u : LockTransition).
        folder_transition order_em_id rule (apply_to_states u id folder_id now db.states)
          folder_path
        ≡ ok none)
      (sym (folder_transition-to order_em_id folder_path rule db.states h))
      (elim (Option-cases (first (at_folder order_em_id folder_path) db.states)) [
        | inl free ↦
            apply-new order_em_id folder_path rule t.current_state t.current_permission id folder_id
              now db.states free
        | inr (s, found) ↦
            apply-found order_em_id folder_path rule t.current_state t.current_permission id
              folder_id now db.states found (auto s found) no_manual
      ])
