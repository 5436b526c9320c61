-- ===== src/Core/Idempotency/Model.antt =====
-- The rows of api/models/idempotency.py, the keys of api/core/idempotency.py, the `json` module and what
-- the decorated function does.
use pool_shrpnt.Prelude.{ℕ, ◌-◌, ◌*◌, ◌%◌, List, Option}
use pool_shrpnt.Prelude.Text.{Text}

pub data OperationStatus : Type 0 where
  pending completed failed : OperationStatus

pub record IdempotentOperation : Type 0 where
  pub id : ℕ
  pub idempotency_key : Text
  pub em_id : Text
  pub operation : Text
  pub scope : Text
  pub timestamp_window : ℕ
  pub result : Option Text
  pub status : OperationStatus
  pub created_at : ℕ
  pub completed_at : Option ℕ

abbrev pub Operations : Type 0
Operations = List IdempotentOperation

-- The four key components.
pub record KeyComponents : Type 0 where
  pub em_id : Text
  pub operation : Text
  pub scope : Text
  pub timestamp_window : ℕ

-- What the keys take from outside: SHA-256 of the sorted JSON of the components, what `timestamp()`
-- gives for a time of `utcnow()`, in microseconds, and `settings.idempotency_window_seconds`. The time
-- is naive, and `timestamp()` reads it as one of the server's own time zone.
pub record KeyContext : Type 0 where
  pub digest : KeyComponents → Text
  pub timestamp : ℕ → ℕ
  pub window_seconds : ℕ

abbrev pub window_length : KeyContext → ℕ
window_length keys = keys.window_seconds * 1_000_000

unfoldable pub window_start : KeyContext → ℕ → ℕ
window_start keys t = t - keys.timestamp t % window_length keys

abbrev pub key_components : KeyContext → Text → Text → Text → ℕ → KeyComponents
key_components keys em_id operation scope t = record {
  em_id = em_id;
  operation = operation;
  scope = scope;
  timestamp_window = window_start keys t;
}

unfoldable pub generate_idempotency_key : KeyContext → Text → Text → Text → ℕ → Text
generate_idempotency_key keys em_id operation scope t =
    keys.digest (key_components keys em_id operation scope t)

-- The values of the function and what `json` makes of them.
pub record Codec (V : Type 0) : Type 0 where
  -- `json.dumps`; `none` stands for a TypeError, whose text `type_error_text` gives.
  pub dumps : V → Option Text
  pub type_error_text : V → Text
  -- `json.loads`; `none` stands for a JSONDecodeError.
  pub loads : Text → Option V
  -- The text of a value that is a `str`.
  pub as_str : V → Option Text
  -- `None`.
  pub none_value : V

-- What the decorated function does: it returns, or raises an exception with the text given.
pub data FuncOutcome (V : Type 0) : Type 0 where
  func_returned : V → FuncOutcome V
  func_raised : Text → FuncOutcome V

-- How a call of the wrapper ends.
pub data CallEnd (V : Type 0) : Type 0 where
  call_returns : V → CallEnd V
  call_raises : Text → CallEnd V
  already_in_progress integrity_error json_error : CallEnd V

-- What the part before the function decides: to run it, or to end the call.
pub data Decision (V : Type 0) : Type 0 where
  starts : Operations → Decision V
  ends : CallEnd V → Decision V
