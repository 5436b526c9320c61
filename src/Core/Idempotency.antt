-- ===== src/Core/Idempotency.antt =====
-- api/core/idempotency.py over the table `idempotent_operation` of api/models/idempotency.py. SHA-256,
-- the time zone of the server and the length of the window are the parameter `KeyContext`, and the
-- `json` module is the parameter `Codec`. One call draws one time before the function runs and one
-- after it.
pub mod Model
pub mod Keys
pub mod Once
pub mod Replay
mod Tests
use pool_shrpnt.Prelude.{
  ℕ, ◌-◌, ◌*◌, ◌%◌, Bool, true, false, List, [], ◌∷◌, Option, none, some, if◌then◌else◌,
}
use pool_shrpnt.Prelude.Text.{Text, text_eq}
use pool_shrpnt.Prelude.Table.{first, update, exists, insert}
use pool_shrpnt.Core.Idempotency.Model.{
  OperationStatus, IdempotentOperation, Operations, KeyComponents, KeyContext, window_start,
  key_components, generate_idempotency_key, Codec, FuncOutcome, CallEnd, Decision, pending,
  completed, failed, func_returned, func_raised, call_returns, call_raises, already_in_progress,
  integrity_error, json_error, starts, ends,
}

abbrev pub has_key : Text → IdempotentOperation → Bool
has_key key r = text_eq r.idempotency_key key

pub check_idempotency_sync : Text → Operations → Option IdempotentOperation
check_idempotency_sync key table = first (has_key key) table

abbrev pub is_completed : OperationStatus → Bool
is_completed completed = true
is_completed _ = false

-- `check_idempotency` of an asynchronous session.
pub check_idempotency : Text → Operations → Bool
check_idempotency key table = elim (first (has_key key) table) [
  | none ↦ false
  | some r ↦ is_completed r.status
]

abbrev pub empty_text : Text
empty_text = []

-- The key is unique, so the writes to the first row with the key are those to all of them.
pub mark_operation_complete : ℕ → Text → Text → ℕ → Operations → Operations
mark_operation_complete id key operation_type now table =
    if exists (has_key key) table
    then update (has_key key) (λ r. record r { status = completed; completed_at = some now }) table
    else insert
        (record {
          id = id;
          idempotency_key = key;
          em_id = empty_text;
          operation = operation_type;
          scope = empty_text;
          timestamp_window = now;
          result = none;
          status = completed;
          created_at = now;
          completed_at = some now;
        })
        table

-- `none` stands for the IntegrityError of the unique key.
pub create_idempotent_record : ℕ → Text → KeyComponents → ℕ → Operations → Option Operations
create_idempotent_record id key c now table =
    if exists (has_key key) table
    then none
    else some (
        insert
          (record {
            id = id;
            idempotency_key = key;
            em_id = c.em_id;
            operation = c.operation;
            scope = c.scope;
            timestamp_window = c.timestamp_window;
            result = none;
            status = pending;
            created_at = now;
            completed_at = none;
          })
          table)

abbrev pub finished : Option Text → OperationStatus → ℕ → IdempotentOperation → IdempotentOperation
finished result status now r = record r {
  result = result;
  status = status;
  completed_at = some now;
}

abbrev pub write_result : Text → Text → OperationStatus → ℕ → Operations → Operations
write_result key text status now table =
    update (has_key key) (finished (some text) status now) table

module _ {V : Type 0} (codec : Codec V) where
  -- `json.dumps(result) if not isinstance(result, str) else result`
  pub encoded : V → Option Text
  encoded v = elim (codec.as_str v) [ some text ↦ some text | none ↦ codec.dumps v ]

  -- `none` stands for the TypeError of `json.dumps`, which is not called without a row.
  pub update_idempotent_record : Text → V → OperationStatus → ℕ → Operations → Option Operations
  update_idempotent_record key v status now table =
      if exists (has_key key) table
      then elim (encoded v) [
        | none ↦ none
        | some text ↦ some (write_result key text status now table)
      ]
      else some table

  -- `json.loads(existing.result) if existing.result else None`
  abbrev pub replay : Option Text → CallEnd V
  replay none = call_returns codec.none_value
  replay (some []) = call_returns codec.none_value
  replay (some (c ∷ s)) = elim (codec.loads (c ∷ s)) [ none ↦ json_error | some v ↦ call_returns v ]

  abbrev pub create_or_raise : ℕ → Text → KeyComponents → ℕ → Operations → Decision V
  create_or_raise id key c now table = elim (create_idempotent_record id key c now table) [
    | none ↦ ends integrity_error
    | some table' ↦ starts table'
  ]

  -- The wrapper before the call of the function.
  pub begin_call : ℕ → Text → KeyComponents → ℕ → Operations → Decision V
  unfolding check_idempotency_sync create_idempotent_record
  begin_call id key c now table = elim (check_idempotency_sync key table) [
    | none ↦ create_or_raise id key c now table
    | some existing ↦ elim existing.status [
      | completed ↦ ends (replay existing.result)
      | pending ↦ ends already_in_progress
      | failed ↦ create_or_raise id key c now table
    ]
  ]

  -- The `except` branch writes the text of the exception, which is a `str`.
  abbrev pub fail_call : Text → Text → ℕ → Operations → Operations
  fail_call key text now table =
      if exists (has_key key) table then write_result key text failed now table else table

  -- The wrapper after the call of the function.
  pub finish_call : Text → FuncOutcome V → ℕ → Operations → CallEnd V × Operations
  unfolding update_idempotent_record
  finish_call key (func_raised text) now table = (call_raises text, fail_call key text now table)
  finish_call key (func_returned v) now table =
      elim (update_idempotent_record key v completed now table) [
        | some table' ↦ (call_returns v, table')
        | none ↦ (
          call_raises (codec.type_error_text v),
          fail_call key (codec.type_error_text v) now table,
        )
      ]

  -- The `try` of the wrapper from the time `now`, where the function works on a state of its own and
  -- has ended at the time `later`.
  pub keyed_call :
      {W : Type 0}
      → (W → FuncOutcome V × W)
      → Text
      → KeyComponents
      → ℕ
      → ℕ
      → ℕ
      → Operations
      → W
      → CallEnd V × Operations × W
  unfolding begin_call finish_call
  keyed_call func key c id now later table world = elim (begin_call id key c now table) [
    | ends e ↦ (e, table, world)
    | starts table' ↦
        let (outcome, world') = func world in
        let (e, table'') = finish_call key outcome later table' in (e, table'', world')
  ]

  pub wrapper :
      {W : Type 0}
      → KeyContext
      → (W → FuncOutcome V × W)
      → Text
      → Text
      → Text
      → ℕ
      → ℕ
      → ℕ
      → Operations
      → W
      → CallEnd V × Operations × W
  unfolding keyed_call
  wrapper keys func em_id operation scope id now later table world =
      keyed_call func (generate_idempotency_key keys em_id operation scope now)
        (key_components keys em_id operation scope now) id now later table world
