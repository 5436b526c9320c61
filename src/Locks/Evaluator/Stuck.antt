-- ===== src/Locks/Evaluator/Stuck.antt =====
-- A folder whose transition is asked for at every evaluation.
use pool_shrpnt.Prelude.{ℕ, ◌≡◌, refl, ◌∙◌, Bool, List, [], ◌∷◌, false, none, some, arith, ◌==◌}
use pool_shrpnt.Prelude.Text.{Text}
use pool_shrpnt.Prelude.Table.{first, first-update, first-update-none}
use pool_shrpnt.Prelude.Outcome.{ok, err}
use pool_shrpnt.Locks.Model.{manual, LockRule, LockState}
use pool_shrpnt.Locks.Evaluator.{
  LockDb, at_folder, is_manual_lock, is_automatic_state, folder_transition, transition_to,
}
use pool_shrpnt.Locks.Evaluator.Apply.{moved, apply_to_states, apply_transition}
use pool_shrpnt.Locks.Evaluator.Converge.{first_time}

-- The rows of a folder when every evaluation asks for its first transition again: the one found first
-- is a manual lock, none is an active manual lock, and none is automatic.
pub record IsStuck (order_em_id : ℕ) (folder_path : Text) (s : LockState) (states : List LockState)
    : Type 0 where
  pub found : first (at_folder order_em_id folder_path) states ≡ some s
  pub is_manual_row : s.lock_type ≡ manual
  pub no_manual : first (is_manual_lock order_em_id folder_path) states ≡ none
  pub no_auto : first (is_automatic_state order_em_id folder_path) states ≡ none

-- A later evaluation of the folder: the rule in force, and what the application of the transition draws.
pub record Round : Type 0 where
  pub rule : LockRule
  pub id : ℕ
  pub folder_id : ℕ
  pub run_id : ℕ
  pub now : ℕ

-- The folder is evaluated, and the transition that it needs is applied.
pub evaluate_and_apply : ℕ → Text → Round → LockDb → LockDb
evaluate_and_apply order_em_id folder_path r db =
    elim (folder_transition order_em_id r.rule db.states folder_path) [
      | ok none ↦ db
      | ok (some t) ↦ (apply_transition t r.id r.folder_id r.run_id r.now db).1
      | err e ↦ db
    ]

pub rounds : ℕ → Text → List Round → LockDb → LockDb
rounds order_em_id folder_path [] db = db
rounds order_em_id folder_path (r ∷ rs) db =
    rounds order_em_id folder_path rs (evaluate_and_apply order_em_id folder_path r db)

module _ (order_em_id : ℕ) (folder_path : Text) where
  -- The transition of a stuck folder is written to the manual lock, and leaves the folder stuck.
  apply-IsStuck :
      (rule : LockRule) (id folder_id now : ℕ) (states : List LockState) {s : LockState}
      → IsStuck order_em_id folder_path s states
      → let t = transition_to order_em_id folder_path none none rule in
        IsStuck order_em_id folder_path (moved t now s) (apply_to_states t id folder_id now states)
  unfolding apply_to_states
  apply-IsStuck rule id folder_id now states {s} h =
      let t = transition_to order_em_id folder_path none none rule in
      let q : LockState → Bool = λ x. x.id == s.id in
      rw (h.found, apply_to_states)
        (record {
          found =
              first-update (at_folder order_em_id folder_path) q (moved t now) states {r = s}
                (λ x. refl) h.found
              ∙ ground arith;
          is_manual_row = h.is_manual_row;
          no_manual =
              first-update-none (is_manual_lock order_em_id folder_path) q (moved t now) states
                (λ x. refl) h.no_manual;
          no_auto =
              first-update-none (is_automatic_state order_em_id folder_path) q (moved t now) states
                (λ x. refl) h.no_auto;
        })

  evaluate-IsStuck :
      (r : Round) (db : LockDb) {s : LockState}
      → IsStuck order_em_id folder_path s db.states
      → IsStuck order_em_id folder_path
          (moved (transition_to order_em_id folder_path none none r.rule) r.now s)
          (evaluate_and_apply order_em_id folder_path r db).states
  unfolding evaluate_and_apply apply_transition
  evaluate-IsStuck r db h =
      rw
        (
          first_time order_em_id folder_path r.rule db.states h.no_manual h.no_auto,
          evaluate_and_apply,
        )
        (apply-IsStuck r.rule r.id r.folder_id r.now db.states h)

  rounds-IsStuck :
      (rs : List Round) (db : LockDb) {s : LockState}
      → IsStuck order_em_id folder_path s db.states
      → (s' : LockState) × IsStuck order_em_id folder_path s'
          (rounds order_em_id folder_path rs db).states
        × (s'.is_active ≡ s.is_active)
  unfolding rounds
  rounds-IsStuck [] db {s} h = (s, h, refl)
  rounds-IsStuck (r ∷ rs) db h =
      rounds-IsStuck rs (evaluate_and_apply order_em_id folder_path r db) (evaluate-IsStuck r db h)

-- Where the first row of a folder is a removed manual lock and the folder has no automatic row and no
-- active manual lock, then however often the folder is evaluated and its transition applied, under
-- whatever rules, the next evaluation asks for its first transition again, and applying that writes
-- the state and the permission of the rule to a row that is a manual lock and stays removed.
pub apply_transition-stuck :
    (order_em_id : ℕ) (folder_path : Text) (rs : List Round) (rule : LockRule)
    (id folder_id run_id now : ℕ) (db : LockDb) {s : LockState}
    → IsStuck order_em_id folder_path s db.states
    → s.is_active ≡ false
    → let db' = rounds order_em_id folder_path rs db in
      let t = transition_to order_em_id folder_path none none rule in
      (folder_transition order_em_id rule db'.states folder_path ≡ ok (some t))
      × (s' : LockState) × (first
            (at_folder order_em_id folder_path)
            (apply_transition t id folder_id run_id now db').1.states
          ≡ some s')
      × (s'.lock_type ≡ manual)
      × (s'.is_active ≡ false)
      × (s'.current_state ≡ some rule.window_type)
      × (s'.permission_level ≡ some rule.permission_level)
unfolding apply_transition
apply_transition-stuck order_em_id folder_path rs rule id folder_id run_id now db h gone =
    let t = transition_to order_em_id folder_path none none rule in
    let (s', stuck, same) = rounds-IsStuck order_em_id folder_path rs db h in
    let db' = rounds order_em_id folder_path rs db in
    let next = apply-IsStuck order_em_id folder_path rule id folder_id now db'.states stuck in
    (
      first_time order_em_id folder_path rule db'.states stuck.no_manual stuck.no_auto,
      moved t now s',
      next.found,
      next.is_manual_row,
      same ∙ gone,
      refl,
      refl,
    )
