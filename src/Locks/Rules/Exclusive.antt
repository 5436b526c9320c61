-- ===== src/Locks/Rules/Exclusive.antt =====
-- Windows that do not overlap by their offsets do not overlap in time either.
use pool_shrpnt.Prelude.{
  ℕ, inl, inr, Bool-cases, ◌+◌, ◌*◌, ◌<◌, ◌≤◌, ◌≡◌, ◌≢◌, refl, sym, Option, none, true, false,
  arith, some,
}
use pool_shrpnt.Prelude.Int.{ℤ, pos, negsuc, pos_part, neg_part, leb_ℤ}
use pool_shrpnt.Prelude.Clock.{day, shift_days, end_of_day}
use pool_shrpnt.Prelude.Outcome.{ok}
use pool_shrpnt.Locks.Model.{LockRule}
use pool_shrpnt.Locks.Windows.{in_window}
use pool_shrpnt.Locks.Rules.{overlaps}
use pool_shrpnt.Locks.Rules.Disjoint.{clash}

-- A shift is exact.
shift_days_exact :
    (t : ℕ) (d : ℤ) {u : ℕ} → shift_days t d ≡ some u → u + neg_part d * day ≡ t + pos_part d * day
unfolding shift_days
shift_days_exact t (pos n) h = ground arith
shift_days_exact t (negsuc n) h = ground arith

end_of_day_bounds : (t : ℕ) → (t ≤ end_of_day t) × (end_of_day t < t + day)
unfolding end_of_day
end_of_day_bounds t = (omega arith, omega arith)

-- A window that ends on an earlier day than the other begins is over when the other begins.
ends_before :
    (t : ℕ) (e s : ℤ) {u v : ℕ}
    → pos_part e + neg_part s < pos_part s + neg_part e
    → shift_days t e ≡ some u
    → shift_days t s ≡ some v
    → end_of_day u < v
ends_before t e s {u} {v} lt hu hv =
    omega (arith, shift_days_exact t e hu, shift_days_exact t s hv, end_of_day_bounds u)

-- What it takes for a time to lie in a rule's window.
record Within (r : LockRule) (now : ℕ) : Type 0 where
  starts : ℕ
  ends : ℕ
  start_date : shift_days r.t_value r.start_offset ≡ some starts
  end_date : shift_days r.t_value r.end_offset ≡ some ends
  begun : starts ≤ now
  running : now ≤ end_of_day ends

in_window-Within : (r : LockRule) (now : ℕ) → in_window r now ≡ ok true → Within r now
unfolding in_window
in_window-Within r now h =
    go (shift_days r.t_value r.start_offset) (shift_days r.t_value r.end_offset) refl refl
  where
    go :
        (a b : Option ℕ)
        → shift_days r.t_value r.start_offset ≡ a
        → shift_days r.t_value r.end_offset ≡ b
        → Within r now
    go none b ha hb = absurd (ground arith)
    go (some s) none ha hb = absurd (ground arith)
    go (some s) (some e) ha hb = record {
      starts = s;
      ends = e;
      start_date = ha;
      end_date = hb;
      begun = ground arith;
      running = ground arith;
    }

-- Of two rules with one T value whose windows do not overlap, at most one is in force at any time.
pub in_window_exclusive :
    (a b : LockRule) (now : ℕ)
    → a.t_value ≡ b.t_value
    → overlaps a.start_offset a.end_offset b ≡ false
    → in_window a now ≡ ok true
    → in_window b now ≢ ok true
unfolding overlaps
in_window_exclusive a b now same apart ha hb =
    let wa = in_window-Within a now ha in
    let wb = in_window-Within b now hb in
    elim (Bool-cases (leb_ℤ a.start_offset b.end_offset)) [
      | inl begins ↦
          let over =
            ends_before a.t_value a.end_offset b.start_offset {v = wb.starts} (ground arith)
              wa.end_date (rw same wb.start_date) in
          omega (arith, over, wa.running, wb.begun)
      | inr late ↦
          let over =
            ends_before b.t_value b.end_offset a.start_offset {v = wa.starts} (ground arith)
              wb.end_date (rw (← same) wa.start_date) in
          omega (arith, over, wb.running, wa.begun)
    ]

overlaps_of_clash :
    (a b : LockRule)
    → a.is_active ≡ true
    → b.is_active ≡ true
    → a.order_em_id ≡ b.order_em_id
    → clash a b ≡ false
    → overlaps b.start_offset b.end_offset a ≡ false
unfolding clash
overlaps_of_clash a b on_a on_b order apart = ground arith

-- The same for two active rules of one order that do not clash.
pub in_window_exclusive_clash :
    (a b : LockRule) (now : ℕ)
    → a.t_value ≡ b.t_value
    → a.is_active ≡ true
    → b.is_active ≡ true
    → a.order_em_id ≡ b.order_em_id
    → clash a b ≡ false
    → in_window a now ≡ ok true
    → in_window b now ≢ ok true
in_window_exclusive_clash a b now same on_a on_b order apart hb ha =
    in_window_exclusive b a now (sym same) (overlaps_of_clash a b on_a on_b order apart) ha hb
