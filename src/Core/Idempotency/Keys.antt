-- ===== src/Core/Idempotency/Keys.antt =====
-- Which calls share the components of their keys.
use native.Mathlib.Nat.{div-add-mod', mul-div_cancel}
use pool_shrpnt.Prelude.{ℕ, ◌+◌, ◌*◌, ◌/◌, ◌<◌, ◌≡◌, sym, ◌∙◌, ◌↔◌, arith, ap}
use pool_shrpnt.Prelude.Text.{Text}
use pool_shrpnt.Core.Idempotency.Model.{KeyContext, window_length, window_start, key_components}

-- Where the server's clock stands at a fixed distance from UTC, the window of a time starts a whole
-- number of windows behind the epoch of that clock. `distance` is that of the epoch from the year 1,
-- from which times count, and of the zone from UTC together.
window_start_whole :
    (keys : KeyContext) (distance t : ℕ)
    → keys.timestamp t + distance ≡ t
    → window_start keys t ≡ distance + keys.timestamp t / window_length keys * window_length keys
unfolding window_start
window_start_whole keys distance t h =
    omega (arith, h, div-add-mod' (keys.timestamp t) (window_length keys))

whole_windows : (length : ℕ) {n m : ℕ} → 0 < length → n * length ≡ m * length → n ≡ m
whole_windows length {n} {m} lasting h =
    sym (mul-div_cancel n lasting) ∙ ap (λ k. k / length) h ∙ mul-div_cancel m lasting

module _ (keys : KeyContext) (distance t u : ℕ) (at_t : keys.timestamp t + distance ≡ t)
    (at_u : keys.timestamp u + distance ≡ u) (lasting : 0 < keys.window_seconds) where
  window_start_iff :
      (window_start keys t ≡ window_start keys u)
      ↔ (keys.timestamp t / window_length keys ≡ keys.timestamp u / window_length keys)
  window_start_iff =
      let start_t = window_start_whole keys distance t at_t in
      let start_u = window_start_whole keys distance u at_u in
      (
        (λ h.
            whole_windows (window_length keys) (omega (arith, lasting))
              (omega (arith, h, start_t, start_u))),
        λ h. start_t ∙ ap (λ n. distance + n * window_length keys) h ∙ sym start_u,
      )

  -- While the distance of the server's clock from UTC does not change, two calls hash the same
  -- components exactly if they are for the same order, operation and scope, and their times, read by the
  -- server's clock, fall in the same window of the configured length, which is not 0.
  pub key_components_iff :
      (em_id em_id' operation operation' scope scope' : Text)
      → (key_components keys em_id operation scope t
          ≡ key_components keys em_id' operation' scope' u)
        ↔ ((em_id ≡ em_id')
            × (operation ≡ operation')
            × (scope ≡ scope')
            × (keys.timestamp t / window_length keys ≡ keys.timestamp u / window_length keys))
  key_components_iff em_id em_id' operation operation' scope scope' = (
    (λ e. (
      ap (λ c. c.em_id) e,
      ap (λ c. c.operation) e,
      ap (λ c. c.scope) e,
      window_start_iff.0 (ap (λ c. c.timestamp_window) e),
    )),
    λ h. let (a, b, c, d) = h in let w = window_start_iff.1 d in cc,
  )
