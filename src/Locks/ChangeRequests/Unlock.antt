-- ===== src/Locks/ChangeRequests/Unlock.antt =====
-- Which folders an opened change request unlocks.
use pool_shrpnt.Prelude.{
  ℕ, ◌≡◌, refl, Bool, true, inl, inr, List, [], ◌∷◌, some, arith, Bool-cases, All, All-map,
  All-both, All-intro, not, sym, ◌∙◌, ap,
}
use mathlib.Core.Bool.{false≢true}
use mathlib.Core.Path.{subst}
use pool_shrpnt.Prelude.Text.{Text}
use pool_shrpnt.Prelude.Table.{
  exists, select, update, All-update, All-update_set, select-update_other,
}
use pool_shrpnt.Prelude.Outcome.{ok}
use pool_shrpnt.Locks.Model.{LockState, write}
use pool_shrpnt.Locks.ChangeRequests.{
  ChangeRequest, CrRequest, CrDb, Scope, get_folder_patterns, is_affected, unlocked, apply_patterns,
  apply_cr_unlock, create_cr,
}
use pool_shrpnt.Locks.ChangeRequests.Validation.{create_cr-Outcome}

-- The state grants write access in the name of the request.
abbrev pub IsUnlockedBy : ChangeRequest → LockState → Type 0
IsUnlockedBy cr s =
    (s.permission_level ≡ some write)
    × (s.cr_id ≡ some cr.id)
    × (s.cr_expires_at ≡ some cr.expires_at)

-- An active state of the order in a folder of the scope.
abbrev pub is_covered : ℕ → Scope → LockState → Bool
is_covered em_id scope s = exists (λ p. is_affected em_id p s) (get_folder_patterns scope)

module _ (cr : ChangeRequest) (now : ℕ) where
  All-apply_patterns :
      (P : LockState → Type 0) (ps : List Text) (states : List LockState)
      → ((s : LockState) → P s → P (unlocked cr now s))
      → All P states
      → All P (apply_patterns cr now ps states)
  unfolding apply_patterns
  All-apply_patterns P [] states keep h = h
  All-apply_patterns P (p ∷ ps) states keep h =
      All-apply_patterns P ps (update (is_affected cr.em_id p) (unlocked cr now) states) keep
        (All-update P (is_affected cr.em_id p) (unlocked cr now) states (λ s _. keep s) h)

  apply_patterns-unlocks :
      (ps : List Text) (states : List LockState)
      → All
          (λ s. exists (λ p. is_affected cr.em_id p s) ps ≡ true → IsUnlockedBy cr s)
          (apply_patterns cr now ps states)
  unfolding apply_patterns
  apply_patterns-unlocks [] states = All-intro _ states (λ s e. absurd (false≢true e))
  apply_patterns-unlocks (p ∷ ps) states =
      let q = is_affected cr.em_id p in
      let states' = update q (unlocked cr now) states in
      let here : All (λ s. q s ≡ true → IsUnlockedBy cr s) (apply_patterns cr now ps states') =
        All-apply_patterns (λ s. q s ≡ true → IsUnlockedBy cr s) ps states'
          (λ s _ _. (refl, refl, refl))
          (All-update_set (IsUnlockedBy cr) q (unlocked cr now) states (λ s. refl)
            (λ s. (refl, refl, refl))) in
      All-map _ _ (apply_patterns cr now ps states')
        (λ s h e. elim (Bool-cases (q s)) [ inl hit ↦ h.0 hit | inr miss ↦ h.1 (ground arith) ])
        (All-both _ _ (apply_patterns cr now ps states') here (apply_patterns-unlocks ps states'))

  -- States outside the patterns are left alone.
  apply_patterns-others :
      (c : LockState → Bool) (ps : List Text) (states : List LockState)
      → ((s : LockState) → c (unlocked cr now s) ≡ c s)
      → ((s : LockState) → exists (λ p. is_affected cr.em_id p s) ps ≡ true → c s ≡ true)
      → select (λ s. not (c s)) (apply_patterns cr now ps states) ≡ select (λ s. not (c s)) states
  unfolding apply_patterns
  apply_patterns-others c [] states same inside = refl
  apply_patterns-others c (p ∷ ps) states same inside =
      let q = is_affected cr.em_id p in
      apply_patterns-others c ps (update q (unlocked cr now) states) same
        (λ s e. inside s (ground arith))
      ∙ select-update_other (λ s. not (c s)) q (unlocked cr now) states
          (λ s e. ground (arith, inside s)) (λ s e. ground (arith, inside s, same s))

-- What the states are after the unlock of a request, for an order and a scope.
abbrev Opens : ChangeRequest → List LockState → ℕ → Scope → List LockState → Type 0
Opens cr before em_id scope after =
    All (λ s. is_covered em_id scope s ≡ true → IsUnlockedBy cr s) after
    × (select (λ s. not (is_covered em_id scope s)) after
        ≡ select (λ s. not (is_covered em_id scope s)) before)

apply_cr_unlock-Opens :
    (cr : ChangeRequest) (now : ℕ) (states : List LockState)
    → Opens cr states cr.em_id cr.scope (apply_cr_unlock cr now states)
unfolding apply_cr_unlock
apply_cr_unlock-Opens cr now states = (
  apply_patterns-unlocks cr now (get_folder_patterns cr.scope) states,
  apply_patterns-others cr now (is_covered cr.em_id cr.scope) (get_folder_patterns cr.scope) states
      (λ s. refl) (λ s e. e),
)

-- When a change request is opened, every active lock state of its order in a folder of its scope
-- grants write access until the request ends, and all other states stay as they were.
pub create_cr-unlocks :
    (id : ℕ) (q : CrRequest) (now : ℕ) (db : CrDb) {cr : ChangeRequest} {db' : CrDb}
    → create_cr id q now db ≡ (ok cr, db')
    → All (λ s. is_covered q.em_id q.scope s ≡ true → IsUnlockedBy cr s) db'.states
      × (select (λ s. not (is_covered q.em_id q.scope s)) db'.states
          ≡ select (λ s. not (is_covered q.em_id q.scope s)) db.states)
create_cr-unlocks id q now db {cr} {db'} e =
    let (_, made, _, _, _, states) = rw e at (create_cr-Outcome id q now db) in
    subst (λ n. Opens cr db.states n q.scope db'.states) (ap (λ (r : ChangeRequest). r.em_id) made)
      (subst (λ c. Opens cr db.states cr.em_id c db'.states)
        (ap (λ (r : ChangeRequest). r.scope) made)
        (subst (Opens cr db.states cr.em_id cr.scope) (sym states)
          (apply_cr_unlock-Opens cr now db.states)))
