-- ===== src/Core/Idempotency/Tests.antt =====
-- Runs of the wrapper over a small table, and instances of its theorems.
use pool_shrpnt.Prelude.{
  ℕ, ◌/◌, ◌+◌, ◌-◌, ◌*◌, ◌≤◌, ◌≡◌, ◌↔◌, refl, true, arith, List, [], ◌∷◌, Option, none, some,
}
use mathlib.Core.Path.{subst}
use pool_shrpnt.Prelude.Text.{Text, codes, text_eq}
use pool_shrpnt.Prelude.Table.{exists}
use pool_shrpnt.Core.Idempotency.{
  has_key, check_idempotency_sync, create_idempotent_record, update_idempotent_record, encoded,
  begin_call, finish_call, keyed_call, wrapper, replay,
}
use pool_shrpnt.Core.Idempotency.Model.{
  KeyComponents, KeyContext, window_length, key_components, window_start, generate_idempotency_key,
  Operations, Codec, FuncOutcome, func_returned, func_raised, call_returns, json_error, CallEnd,
}
use pool_shrpnt.Core.Idempotency.Keys.{key_components_iff}
use pool_shrpnt.Core.Idempotency.Once.{
  Step, begins, finishes, started, step, starts_of, starts_of_once,
}
use pool_shrpnt.Core.Idempotency.Replay.{wrapper_replays}

-- A server in UTC and windows of a day.
abbrev keys : KeyContext
keys = record { digest = λ c. c.timestamp_window ∷ []; timestamp = λ t. t; window_seconds = 86_400 }

-- A server two hours ahead of UTC: its days end at 22 o'clock UTC.
abbrev east_keys : KeyContext
east_keys = record keys { timestamp = λ t. t - 2 * 3_600_000_000 }

-- Two times of one day, and one of the next.
abbrev morning : ℕ
morning = 8 * 3_600_000_000

abbrev evening : ℕ
evening = 20 * 3_600_000_000

same_day : window_start keys evening ≡ window_start keys morning
unfolding window_start
same_day = refl

key_components_iff_example :
    (key_components east_keys (codes "EM1") (codes "lock") (codes "all") morning
      ≡ key_components east_keys (codes "EM1") (codes "lock") (codes "all") evening)
    ↔ ((codes "EM1" ≡ codes "EM1")
        × (codes "lock" ≡ codes "lock")
        × (codes "all" ≡ codes "all")
        × (6 * 3_600_000_000 / window_length east_keys
            ≡ 18 * 3_600_000_000 / window_length east_keys))
key_components_iff_example =
    key_components_iff east_keys (2 * 3_600_000_000) morning evening refl refl (omega arith)
      (codes "EM1") (codes "EM1") (codes "lock") (codes "lock") (codes "all") (codes "all")

-- Numbers, written as their code points, and texts.
data Value : Type 0 where
  number : ℕ → Value
  word : Text → Value

abbrev restore : Text → Option Value
restore (n ∷ []) = some (number n)
restore _ = none

abbrev codec : Codec Value
codec = record {
  dumps = λ v. elim v [ number n ↦ some (n ∷ []) | word s ↦ some (34 ∷ s) ];
  type_error_text = λ v. [];
  loads = restore;
  as_str = λ v. elim v [ number n ↦ none | word s ↦ some s ];
  none_value = number 0;
}

-- The function counts its calls.
abbrev counts : ℕ → FuncOutcome Value × ℕ
counts n = (func_returned (number 65), n + 1)

abbrev breaks : ℕ → FuncOutcome Value × ℕ
breaks n = (func_raised (codes "no site"), n + 1)

abbrev says : ℕ → FuncOutcome Value × ℕ
says n = (func_returned (word (codes "done")), n + 1)

abbrev call : (ℕ → FuncOutcome Value × ℕ) → ℕ → ℕ → Operations → ℕ → CallEnd Value × Operations × ℕ
call func id now table world =
    wrapper codec keys func (codes "EM1") (codes "lock") (codes "all") id now now table world

abbrev first_call : CallEnd Value × Operations × ℕ
first_call = call counts 1 morning [] 0

restores_65 :
    (text : Text)
    → encoded codec (number 65) ≡ some text
    → replay codec (some text) ≡ call_returns (number 65)
unfolding encoded
restores_65 text h =
    let same : 65 ∷ [] ≡ text = cc (h) in
    subst (λ s. replay codec (some s) ≡ call_returns (number 65)) same refl

first_returns : first_call ≡ (call_returns (number 65), first_call.1, 1)
unfolding wrapper keyed_call begin_call check_idempotency_sync create_idempotent_record finish_call
    update_idempotent_record encoded text_eq generate_idempotency_key window_start
first_returns = refl

wrapper_replays_example :
    call counts 2 evening first_call.1 7 ≡ (call_returns (number 65), first_call.1, 7)
wrapper_replays_example =
    wrapper_replays codec keys counts (codes "EM1") (codes "lock") (codes "all") 1 2 morning evening
      morning evening [] 0 same_day restores_65 first_returns

abbrev failed_call : CallEnd Value × Operations × ℕ
failed_call = call breaks 1 morning [] 0

-- A text is stored as it is, and is no JSON when it is read again.
text_not_replayed : (call says 2 evening (call says 1 morning [] 0).1 7).0 ≡ json_error
unfolding wrapper keyed_call begin_call check_idempotency_sync create_idempotent_record finish_call
    update_idempotent_record encoded text_eq generate_idempotency_key window_start
text_not_replayed = refl

abbrev em1 : KeyComponents
em1 = record {
  em_id = codes "EM1";
  operation = codes "lock";
  scope = codes "all";
  timestamp_window = 0;
}

-- Two calls begin before the first one ends.
abbrev race : List (Step codec)
race =
    begins 1 (codes "k") em1 morning
    ∷ begins 2 (codes "k") em1 morning
    ∷ finishes (codes "k") (func_raised []) evening
    ∷ begins 3 (codes "k") em1 evening
    ∷ []

race_starts : starts_of codec (codes "k") race [] ≡ 1
unfolding starts_of started step begin_call check_idempotency_sync create_idempotent_record
    finish_call text_eq
race_starts = refl

starts_of_once_example :
    (starts_of codec (codes "k") race [] ≤ 1)
    × (exists (has_key (codes "k")) [] ≡ true → starts_of codec (codes "k") race [] ≡ 0)
starts_of_once_example = starts_of_once codec (codes "k") race []
