-- ===== src/Core/Idempotency/Replay.antt =====
-- What a repeated call in the window of the first one does.
use pool_shrpnt.Prelude.{
  ℕ, ◌≡◌, refl, sym, ◌∙◌, ap, false, inl, inr, some, Bool-cases, Option-cases,
}
use mathlib.Core.Path.{subst}
use mathlib.Core.Bool.{false≢true}
use pool_shrpnt.Prelude.Text.{Text, text_eq_refl}
use pool_shrpnt.Prelude.Table.{
  first, exists, insert, first-some, first-insert, first-update, first-exists, exists-first-some,
  exists-first-none,
}
use pool_shrpnt.Core.Idempotency.{
  has_key, check_idempotency_sync, create_idempotent_record, finished, write_result, encoded,
  replay, create_or_raise, fail_call, begin_call, finish_call, keyed_call, wrapper,
}
use pool_shrpnt.Core.Idempotency.Model.{
  OperationStatus, pending, completed, failed, IdempotentOperation, Operations, KeyComponents,
  KeyContext, window_start, key_components, generate_idempotency_key, Codec, FuncOutcome,
  func_returned, func_raised, CallEnd, call_returns, call_raises, already_in_progress,
  integrity_error, starts, ends,
}
use pool_shrpnt.Core.Idempotency.Once.{
  new_record, Status-cases, finish_call-encoded, finish_call_unencoded,
}

-- The row of a key after a result was written to it.
write_result_found :
    (key text : Text) (status : OperationStatus) (now : ℕ) (table : Operations)
    {r : IdempotentOperation}
    → first (has_key key) table ≡ some r
    → first (has_key key) (write_result key text status now table)
      ≡ some (finished (some text) status now r)
write_result_found key text status now table {r} h =
    first-update (has_key key) (has_key key) (finished (some text) status now) table (λ x. refl) h
    ∙ rw (first-some (has_key key) table h) refl

new_record_found :
    (id : ℕ) (key : Text) (c : KeyComponents) (now : ℕ) (table : Operations)
    → exists (has_key key) table ≡ false
    → first (has_key key) (insert (new_record id key c now) table) ≡ some (new_record id key c now)
new_record_found id key c now table free =
    first-insert (has_key key) (new_record id key c now) table
      (first-exists (has_key key) table free)
    ∙ rw (text_eq_refl key) refl

module _ {V : Type 0} (codec : Codec V) where
  -- How a call ends that meets a row with its key.
  abbrev refusal : IdempotentOperation → CallEnd V
  refusal r = elim r.status [
    | completed ↦ replay codec r.result
    | pending ↦ already_in_progress
    | failed ↦ integrity_error
  ]

  module _ (id : ℕ) (key : Text) (c : KeyComponents) (now : ℕ) (table : Operations) where
    begin_call_taken :
        {r : IdempotentOperation}
        → first (has_key key) table ≡ some r
        → begin_call codec id key c now table ≡ ends (refusal r)
    unfolding begin_call check_idempotency_sync create_idempotent_record
    begin_call_taken {r} found = elim (Status-cases r.status) [
      | inl done ↦ rw (found, begin_call, check_idempotency_sync) (rw done refl)
      | inr (inl running) ↦ rw (found, begin_call, check_idempotency_sync) (rw running refl)
      | inr (inr broken) ↦
          rw (found, begin_call, check_idempotency_sync)
            (rw broken (
              rw
                (
                  exists-first-some (has_key key) table found,
                  create_or_raise,
                  create_idempotent_record,
                )
                refl))
    ]

    begin_call_free :
        exists (has_key key) table ≡ false
        → begin_call codec id key c now table ≡ starts (insert (new_record id key c now) table)
    unfolding begin_call check_idempotency_sync create_idempotent_record
    begin_call_free free =
        rw (first-exists (has_key key) table free, begin_call, check_idempotency_sync)
          (rw (free, create_or_raise, create_idempotent_record) refl)

    begin_call-ends :
        {e : CallEnd V}
        → begin_call codec id key c now table ≡ ends e
        → (r : IdempotentOperation) × (first (has_key key) table ≡ some r) × (refusal r ≡ e)
    begin_call-ends {e} h = elim (Option-cases (first (has_key key) table)) [
      | inl unknown ↦
          absurd (cc (h, begin_call_free (exists-first-none (has_key key) table unknown)))
      | inr (r, found) ↦ let taken = begin_call_taken found in (r, found, cc)
    ]

  module _ {W : Type 0} (func : W → FuncOutcome V × W) where
    keyed_call_taken :
        (key : Text) (c : KeyComponents) (id now later : ℕ) (table : Operations) (world : W)
        {r : IdempotentOperation}
        → first (has_key key) table ≡ some r
        → keyed_call codec func key c id now later table world ≡ (refusal r, table, world)
    unfolding keyed_call
    keyed_call_taken key c id now later table world found =
        rw (begin_call_taken id key c now table found, keyed_call) refl

    -- After a call whose function has returned, the row of the key holds what it returned; after a call
    -- whose function raised, it holds a failure. A call that ended before that found such a row.
    data After (key : Text) (table : Operations) : CallEnd V → Type 0 where
      refused :
          {r : IdempotentOperation}
          → first (has_key key) table ≡ some r
          → After key table (refusal r)
      stored :
          {v : V} {text : Text} {r : IdempotentOperation}
          → encoded codec v ≡ some text
          → first (has_key key) table ≡ some r
          → r.status ≡ completed
          → r.result ≡ some text
          → After key table (call_returns v)
      spoilt :
          {text : Text} {r : IdempotentOperation}
          → first (has_key key) table ≡ some r
          → r.status ≡ failed
          → After key table (call_raises text)

    fail_call-spoilt :
        (key text : Text) (now : ℕ) (table : Operations) {r : IdempotentOperation}
        → first (has_key key) table ≡ some r
        → After key (fail_call codec key text now table) (call_raises text)
    fail_call-spoilt key text now table found =
        rw (exists-first-some (has_key key) table found)
          (spoilt (write_result_found key text failed now table found) refl)

    finish_call-After :
        (key : Text) (outcome : FuncOutcome V) (now : ℕ) (table : Operations)
        {r : IdempotentOperation}
        → first (has_key key) table ≡ some r
        → let (e, table') = finish_call codec key outcome now table in After key table' e
    unfolding finish_call
    finish_call-After key (func_raised text) now table found =
        fail_call-spoilt key text now table found
    finish_call-After key (func_returned v) now table found =
        let known = exists-first-some (has_key key) table found in
        elim (Option-cases (encoded codec v)) [
          | inl bad ↦
              rw (finish_call_unencoded codec key v now table known bad)
                (fail_call-spoilt key (codec.type_error_text v) now table found)
          | inr (text, good) ↦
              rw (finish_call-encoded codec key v now table known good)
                (stored good (write_result_found key text completed now table found) refl refl)
        ]

    keyed_call-After :
        (key : Text) (c : KeyComponents) (id now later : ℕ) (table : Operations) (world : W)
        → let (e, table', world') = keyed_call codec func key c id now later table world in
          After key table' e
    unfolding keyed_call
    keyed_call-After key c id now later table world =
        elim (Bool-cases (exists (has_key key) table)) [
          | inr free ↦
              rw (begin_call_free id key c now table free, keyed_call)
                (finish_call-After key (func world).0 later _
                  (new_record_found id key c now table free))
          | inl taken ↦ elim (Option-cases (first (has_key key) table)) [
            | inl unknown ↦
                absurd (false≢true (sym (exists-first-none (has_key key) table unknown) ∙ taken))
            | inr (r, found) ↦
                rw (begin_call_taken id key c now table found, keyed_call) (refused found)
          ]
        ]

    -- The row behind a call that returned a value which JSON can restore gives the value again.
    After-replays :
        {key : Text} {table : Operations} {e : CallEnd V} {v : V}
        → After key table e
        → e ≡ call_returns v
        → ((text : Text) → encoded codec v ≡ some text → replay codec (some text) ≡ call_returns v)
        → (r : IdempotentOperation) × (first (has_key key) table ≡ some r)
          × (refusal r ≡ call_returns v)
    After-replays (refused {r = r} found) is restores = (r, found, is)
    After-replays {v = v} (stored {v = u} {text = text} {r = r} good found done result) is
          restores =
        let same : u ≡ v = cc (is) in
        (
          r,
          found,
          rw (done, refusal)
              (rw result (restores text (subst (λ x. encoded codec x ≡ some text) same good))),
        )
    After-replays (spoilt found broken) is restores = absurd cc

    module _ (keys : KeyContext) (em_id operation scope : Text) (now now' : ℕ)
        (same_window : window_start keys now' ≡ window_start keys now) where
      wrapper_taken :
          (id later : ℕ) (table : Operations) (world : W) {r : IdempotentOperation}
          → first (has_key (generate_idempotency_key keys em_id operation scope now)) table ≡ some r
          → wrapper codec keys func em_id operation scope id now' later table world
            ≡ (refusal r, table, world)
      unfolding wrapper generate_idempotency_key
      wrapper_taken id later table world {r} found =
          let same : key_components keys em_id operation scope now
              ≡ key_components keys em_id operation scope now' =
            cc (same_window) in
          keyed_call_taken (keys.digest (key_components keys em_id operation scope now'))
            (key_components keys em_id operation scope now') id now' later table world
            (subst (λ c. first (has_key (keys.digest c)) table ≡ some r) same found)

  module _ {W : Type 0} (keys : KeyContext) (func : W → FuncOutcome V × W)
      (em_id operation scope : Text) (id id' now now' later later' : ℕ) (table : Operations)
      (world : W) {table' : Operations} {world' world'' : W}
      (same_window : window_start keys now' ≡ window_start keys now) where
    -- If a call returns a value that JSON can restore, then any later call in the same window returns
    -- the same value, runs no function and writes nothing.
    pub wrapper_replays :
        {v : V}
        → ((text : Text) → encoded codec v ≡ some text → replay codec (some text) ≡ call_returns v)
        → wrapper codec keys func em_id operation scope id now later table world
          ≡ (call_returns v, table', world')
        → wrapper codec keys func em_id operation scope id' now' later' table' world''
          ≡ (call_returns v, table', world'')
    unfolding wrapper generate_idempotency_key
    wrapper_replays restores h =
        let c = key_components keys em_id operation scope now in
        let after = keyed_call-After func (keys.digest c) c id now later table world in
        let (r, found, is) = After-replays func after (ap (λ p. p.0) h) restores in
        let found' =
          subst (λ t. first (has_key (keys.digest c)) t ≡ some r) (ap (λ p. p.1) h) found in
        wrapper_taken func keys em_id operation scope now now' same_window id' later' table' world''
          found'
        ∙ ap (λ e. (e, table', world'')) is
