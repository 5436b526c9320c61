-- ===== src/Core/Idempotency/Once.antt =====
-- How often the function of a key is started, when the steps of concurrent calls interleave.
use pool_shrpnt.Prelude.{
  ℕ, ◌+◌, ◌≤◌, ◌≡◌, refl, ◌∙◌, ap, Bool, true, false, inl, inr, ◌⊎◌, List, [], ◌∷◌, none, some,
  arith, Bool-cases, Option-cases, if◌then◌else◌,
}
use mathlib.Core.Path.{subst}
use pool_shrpnt.Prelude.Text.{Text, text_eq, text_eq_sound}
use pool_shrpnt.Prelude.Table.{first, exists, insert, exists-insert, exists-update_same}
use pool_shrpnt.Core.Idempotency.{
  has_key, check_idempotency_sync, mark_operation_complete, create_idempotent_record, write_result,
  update_idempotent_record, encoded, begin_call, finish_call, fail_call, create_or_raise,
}
use pool_shrpnt.Core.Idempotency.Model.{
  OperationStatus, pending, completed, failed, IdempotentOperation, Operations, KeyComponents,
  Codec, FuncOutcome, func_returned, func_raised, Decision, starts, ends, CallEnd, call_returns,
  call_raises,
}

abbrev pub new_record : ℕ → Text → KeyComponents → ℕ → IdempotentOperation
new_record id key c now = record {
  id = id;
  idempotency_key = key;
  em_id = c.em_id;
  operation = c.operation;
  scope = c.scope;
  timestamp_window = c.timestamp_window;
  result = none;
  status = pending;
  created_at = now;
  completed_at = none;
}

pub Decision-cases :
    {V : Type 0} (d : Decision V)
    → ((t : Operations) × (d ≡ starts t)) ⊎ ((e : CallEnd V) × (d ≡ ends e))
Decision-cases (starts t) = inl (t, refl)
Decision-cases (ends e) = inr (e, refl)

pub Status-cases : (s : OperationStatus) → (s ≡ completed) ⊎ (s ≡ pending) ⊎ (s ≡ failed)
Status-cases completed = inl refl
Status-cases pending = inr (inl refl)
Status-cases failed = inr (inr refl)

module _ {V : Type 0} (codec : Codec V) where
  create_or_raise-starts :
      (id : ℕ) (key : Text) (c : KeyComponents) (now : ℕ) (table : Operations) {table' : Operations}
      → create_or_raise codec id key c now table ≡ starts table'
      → (exists (has_key key) table ≡ false) × (table' ≡ insert (new_record id key c now) table)
  unfolding create_idempotent_record
  create_or_raise-starts id key c now table {table'} h =
      elim (Bool-cases (exists (has_key key) table)) [
        | inl taken ↦ absurd (cc (rw (taken, create_or_raise, create_idempotent_record) at h))
        | inr free ↦ (free, cc (rw (free, create_or_raise, create_idempotent_record) at h))
      ]

  -- A call runs the function only if there is no row with its key, and adds one.
  pub begin_call-starts :
      (id : ℕ) (key : Text) (c : KeyComponents) (now : ℕ) (table : Operations) {table' : Operations}
      → begin_call codec id key c now table ≡ starts table'
      → (exists (has_key key) table ≡ false) × (table' ≡ insert (new_record id key c now) table)
  unfolding begin_call check_idempotency_sync
  begin_call-starts id key c now table {table'} h =
      elim (Option-cases (first (has_key key) table)) [
        | inl unknown ↦
            create_or_raise-starts id key c now table
              (rw (unknown, begin_call, check_idempotency_sync) at h)
        | inr (r, found) ↦ elim (Status-cases r.status) [
          | inl done ↦
              absurd (cc (rw (done) at (rw (found, begin_call, check_idempotency_sync) at h)))
          | inr (inl running) ↦
              absurd (cc (rw (running) at (rw (found, begin_call, check_idempotency_sync) at h)))
          | inr (inr broken) ↦
              create_or_raise-starts id key c now table
                (rw (broken) at (rw (found, begin_call, check_idempotency_sync) at h))
        ]
      ]

  -- What comes after the function, and a marked completion, removes no row.
  exists-finished :
      (k key text : Text) (status : OperationStatus) (now : ℕ) (table : Operations)
      → exists (has_key k) (write_result key text status now table) ≡ exists (has_key k) table
  exists-finished k key text status now table =
      exists-update_same (has_key k) (has_key key) _ table (λ x. refl)

  exists-fail_call :
      (k key text : Text) (now : ℕ) (table : Operations)
      → exists (has_key k) (fail_call codec key text now table) ≡ exists (has_key k) table
  exists-fail_call k key text now table = elim (Bool-cases (exists (has_key key) table)) [
    | inl known ↦ rw known (exists-finished k key text failed now table)
    | inr unknown ↦ rw unknown refl
  ]

  update-encoded :
      (key : Text) (v : V) (now : ℕ) (table : Operations) {text : Text}
      → exists (has_key key) table ≡ true
      → encoded codec v ≡ some text
      → update_idempotent_record codec key v completed now table
        ≡ some (write_result key text completed now table)
  unfolding update_idempotent_record
  update-encoded key v now table known good = rw known (rw good refl)

  update_unencoded :
      (key : Text) (v : V) (now : ℕ) (table : Operations)
      → exists (has_key key) table ≡ true
      → encoded codec v ≡ none
      → update_idempotent_record codec key v completed now table ≡ none
  unfolding update_idempotent_record
  update_unencoded key v now table known bad = rw known (rw bad refl)

  update_unknown :
      (key : Text) (v : V) (now : ℕ) (table : Operations)
      → exists (has_key key) table ≡ false
      → update_idempotent_record codec key v completed now table ≡ some table
  unfolding update_idempotent_record
  update_unknown key v now table unknown = rw unknown refl

  -- The result of the function is written to the rows with the key, if it can be encoded.
  pub finish_call-encoded :
      (key : Text) (v : V) (now : ℕ) (table : Operations) {text : Text}
      → exists (has_key key) table ≡ true
      → encoded codec v ≡ some text
      → finish_call codec key (func_returned v) now table
        ≡ (call_returns v, write_result key text completed now table)
  unfolding finish_call
  finish_call-encoded key v now table known good =
      rw (update-encoded key v now table known good, finish_call) refl

  pub finish_call_unencoded :
      (key : Text) (v : V) (now : ℕ) (table : Operations)
      → exists (has_key key) table ≡ true
      → encoded codec v ≡ none
      → finish_call codec key (func_returned v) now table ≡ (
        call_raises (codec.type_error_text v),
        fail_call codec key (codec.type_error_text v) now table,
      )
  unfolding finish_call
  finish_call_unencoded key v now table known bad =
      rw (update_unencoded key v now table known bad, finish_call) refl

  finish_call_unknown :
      (key : Text) (v : V) (now : ℕ) (table : Operations)
      → exists (has_key key) table ≡ false
      → finish_call codec key (func_returned v) now table ≡ (call_returns v, table)
  unfolding finish_call
  finish_call_unknown key v now table unknown =
      rw (update_unknown key v now table unknown, finish_call) refl

  exists-finish_call :
      (k key : Text) (outcome : FuncOutcome V) (now : ℕ) (table : Operations)
      → exists (has_key k) (finish_call codec key outcome now table).1 ≡ exists (has_key k) table
  unfolding finish_call
  exists-finish_call k key (func_raised text) now table = exists-fail_call k key text now table
  exists-finish_call k key (func_returned v) now table =
      elim (Bool-cases (exists (has_key key) table)) [
        | inr unknown ↦ rw (finish_call_unknown key v now table unknown) refl
        | inl known ↦ elim (Option-cases (encoded codec v)) [
          | inl bad ↦
              rw (finish_call_unencoded key v now table known bad)
                (exists-fail_call k key (codec.type_error_text v) now table)
          | inr (text, good) ↦
              rw (finish_call-encoded key v now table known good)
                (exists-finished k key text completed now table)
        ]
      ]

  mark_operation_complete_keeps :
      (id : ℕ) (k key operation_type : Text) (now : ℕ) (table : Operations)
      → exists (has_key k) table ≡ true
      → exists (has_key k) (mark_operation_complete id key operation_type now table) ≡ true
  unfolding mark_operation_complete
  mark_operation_complete_keeps id k key operation_type now table h =
      elim (Bool-cases (exists (has_key key) table)) [
        | inl known ↦
            rw known (exists-update_same (has_key k) (has_key key) _ table (λ x. refl) ∙ h)
        | inr unknown ↦ rw unknown (exists-insert (has_key k) _ table ∙ rw h refl)
      ]

  -- A step of one of the concurrent calls: the part before the function, the part after it, or a
  -- completion that is marked directly.
  pub data Step : Type 0 where
    begins : ℕ → Text → KeyComponents → ℕ → Step
    finishes : Text → FuncOutcome V → ℕ → Step
    marks : ℕ → Text → Text → ℕ → Step

  abbrev pub table_after : Decision V → Operations → Operations
  table_after (starts table') table = table'
  table_after (ends e) table = table

  unfoldable pub step : Step → Operations → Operations
  step (begins id key c now) table = table_after (begin_call codec id key c now table) table
  step (finishes key outcome now) table = (finish_call codec key outcome now table).1
  step (marks id key operation_type now) table =
      mark_operation_complete id key operation_type now table

  abbrev pub is_start : Decision V → Bool
  is_start (starts _) = true
  is_start (ends _) = false

  -- 1 if the step starts the function of the key, and 0 otherwise.
  unfoldable pub started : Text → Step → Operations → ℕ
  started k (begins id key c now) table =
      if text_eq key k then (if is_start (begin_call codec id key c now table) then 1 else 0) else 0
  started k _ table = 0

  -- How often the steps start the function of the key.
  unfoldable pub starts_of : Text → List Step → Operations → ℕ
  unfolding started step
  starts_of k [] table = 0
  starts_of k (s ∷ steps) table = started k s table + starts_of k steps (step s table)

  abbrev left : Text → Operations → ℕ
  left k table = if exists (has_key k) table then 0 else 1

  left_keep :
      (k : Text) (t u : Operations)
      → (exists (has_key k) t ≡ true → exists (has_key k) u ≡ true)
      → 0 + left k u ≤ left k t
  left_keep k t u keep = ground (arith, keep)

  -- A call that starts the function takes the key, and a key that is taken stays so.
  begin_call-left :
      (k : Text) (id : ℕ) (key : Text) (c : KeyComponents) (now : ℕ) (table : Operations)
      → started k (begins id key c now) table + left k (step (begins id key c now) table)
        ≤ left k table
  unfolding started step
  begin_call-left k id key c now table =
      elim (Decision-cases (begin_call codec id key c now table)) [
        | inr (e, ended) ↦ rw ended (ground arith)
        | inl (table', begun) ↦
            let (free, grown) = begin_call-starts id key c now table begun in
            let after : exists (has_key k) table'
                ≡ (if exists (has_key k) table then true else text_eq key k) =
              ap (exists (has_key k)) grown
              ∙ exists-insert (has_key k) (new_record id key c now) table in
            rw begun (elim (Bool-cases (text_eq key k)) [
              | inl same ↦
                  let free' : exists (has_key k) table ≡ false =
                    subst (λ x. exists (has_key x) table ≡ false) (text_eq_sound key k same) free in
                  ground (arith, after, free', same)
              | inr other ↦ ground (arith, after, other)
            ])
      ]

  step-left :
      (k : Text) (s : Step) (table : Operations)
      → started k s table + left k (step s table) ≤ left k table
  unfolding started step
  step-left k (begins id key c now) table = begin_call-left k id key c now table
  step-left k (finishes key outcome now) table =
      left_keep k table _ (λ h. exists-finish_call k key outcome now table ∙ h)
  step-left k (marks id key operation_type now) table =
      left_keep k table _ (mark_operation_complete_keeps id k key operation_type now table)

  starts_of-left :
      (k : Text) (steps : List Step) (table : Operations) → starts_of k steps table ≤ left k table
  unfolding starts_of
  starts_of-left k [] table = omega arith
  starts_of-left k (s ∷ steps) table =
      omega (arith, step-left k s table, starts_of-left k steps (step s table))

  -- Whatever the order in which the steps of concurrent calls come, the function of a key is started at
  -- most once, and never if the key is in the table.
  pub starts_of_once :
      (k : Text) (steps : List Step) (table : Operations)
      → (starts_of k steps table ≤ 1)
        × (exists (has_key k) table ≡ true → starts_of k steps table ≡ 0)
  starts_of_once k steps table =
      let bound = starts_of-left k steps table in
      (ground (arith, bound), λ h. ground (arith, bound, h))
