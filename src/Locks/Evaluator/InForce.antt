-- ===== src/Locks/Evaluator/InForce.antt =====
-- Which rule `LockEvaluator` finds in force, against the invariant of `LockRuleService`.
use pool_shrpnt.Prelude.{
  ℕ, ◌≡◌, refl, sym, ap, ◌∙◌, ◌⊎◌, Bool, true, false, ◌&&◌, inl, inr, [], ◌∷◌, none, some, arith,
  ◌==◌, Bool-cases, All, All-map,
}
use mathlib.Core.List.{Memᴰ}
use mathlib.Core.Path.{subst}
use pool_shrpnt.Prelude.Table.{select}
use pool_shrpnt.Prelude.Outcome.{Failure, Result, ok, err}
use pool_shrpnt.Locks.Model.{LockRule}
use pool_shrpnt.Locks.Windows.{in_window}
use pool_shrpnt.Locks.Rules.{Rules}
use pool_shrpnt.Locks.Rules.Disjoint.{Apart, IsDisjoint}
use pool_shrpnt.Locks.Rules.Changes.{select-IsDisjoint}
use pool_shrpnt.Locks.Rules.Exclusive.{in_window_exclusive_clash}
use pool_shrpnt.Locks.Evaluator.{evaluate_current_time_against_rules, order_by_start}
use pool_shrpnt.Locks.Evaluator.Ordering.{
  All-order_by_start, All-of_order_by_start, IsDisjoint-order_by_start, All-of_select,
}

-- A row of one order with one T value, switched on.
abbrev Of : ℕ → ℕ → LockRule → Type 0
Of order_em_id t x = (x.order_em_id ≡ order_em_id) × (x.t_value ≡ t) × (x.is_active ≡ true)

evaluate_nil : (now : ℕ) → evaluate_current_time_against_rules [] now ≡ ok none
unfolding evaluate_current_time_against_rules
evaluate_nil now = refl

-- What the loop does at its first rule.
module _ (x : LockRule) (rs : Rules) (now : ℕ) where
  evaluate_off :
      x.is_active ≡ false
      → evaluate_current_time_against_rules (x ∷ rs) now
        ≡ evaluate_current_time_against_rules rs now
  unfolding evaluate_current_time_against_rules
  evaluate_off off = rw off

  evaluate_hit :
      x.is_active ≡ true
      → in_window x now ≡ ok true
      → evaluate_current_time_against_rules (x ∷ rs) now ≡ ok (some x)
  unfolding evaluate_current_time_against_rules
  evaluate_hit on e = rw e (rw on)

  evaluate_miss :
      x.is_active ≡ true
      → in_window x now ≡ ok false
      → evaluate_current_time_against_rules (x ∷ rs) now
        ≡ evaluate_current_time_against_rules rs now
  unfolding evaluate_current_time_against_rules
  evaluate_miss on e = rw e (rw on)

  evaluate_fails :
      {f : Failure}
      → x.is_active ≡ true
      → in_window x now ≡ err f
      → evaluate_current_time_against_rules (x ∷ rs) now ≡ err f
  unfolding evaluate_current_time_against_rules
  evaluate_fails on e = rw e (rw on)

-- How the loop can go at its first rule, if that is switched on.
on-cases : (w : Result Bool) → (w ≡ ok true) ⊎ (w ≡ ok false) ⊎ ((f : Failure) × (w ≡ err f))
on-cases (ok true) = inl refl
on-cases (ok false) = inr (inl refl)
on-cases (err f) = inr (inr (f, refl))

-- While a rule is in force, none that stands apart from it is.
others-out :
    (order_em_id t now : ℕ) (x r : LockRule) (rs : Rules)
    → in_window x now ≡ ok true
    → Of order_em_id t x
    → All (Apart x) rs
    → All (Of order_em_id t) rs
    → All (λ y. in_window y now ≡ ok true → y.id ≡ r.id) rs
others-out order_em_id t now x r [] hit ox apart o = tt
others-out order_em_id t now x r (y ∷ rs) hit ox apart o = (
  (λ e. absurd (
      in_window_exclusive_clash x y now (ox.1 ∙ sym o.0.1) ox.2 o.0.2 (ox.0 ∙ sym o.0.0) apart.0.1
        hit e)),
  others-out order_em_id t now x r rs hit ox apart.1 o.1,
)

-- No rule but the one that the loop finds is in force.
evaluate_unique :
    (order_em_id t now : ℕ) (rs : Rules) {r : LockRule}
    → IsDisjoint rs
    → All (Of order_em_id t) rs
    → evaluate_current_time_against_rules rs now ≡ ok (some r)
    → All (λ x. in_window x now ≡ ok true → x.id ≡ r.id) rs
evaluate_unique order_em_id t now [] d o h = tt
evaluate_unique order_em_id t now (x ∷ rs) {r} d o h = elim (on-cases (in_window x now)) [
  | inl hit ↦
      let p : x ≡ r = cc (evaluate_hit x rs now o.0.2 hit) in
      ((λ _. ap (λ (s : LockRule). s.id) p), others-out order_em_id t now x r rs hit o.0 d.0 o.1)
  | inr (inl miss) ↦ (
    (λ e. cc),
    evaluate_unique order_em_id t now rs d.1 o.1 (sym (evaluate_miss x rs now o.0.2 miss) ∙ h),
  )
  | inr (inr (f, fails)) ↦ cc (evaluate_fails x rs now o.0.2 fails)
]

-- The rule that the loop finds is one of the list, switched on and in force.
evaluate_sound :
    (now : ℕ) (rs : Rules) {r : LockRule}
    → evaluate_current_time_against_rules rs now ≡ ok (some r)
    → Memᴰ r rs × (r.is_active ≡ true) × (in_window r now ≡ ok true)
evaluate_sound now [] h = cc (evaluate_nil now)
evaluate_sound now (x ∷ rs) {r} h = elim (Bool-cases x.is_active) [
  | inr off ↦
      let (member, on, within) = evaluate_sound now rs (sym (evaluate_off x rs now off) ∙ h) in
      (Memᴰ.tail member, on, within)
  | inl on_x ↦ elim (on-cases (in_window x now)) [
    | inl hit ↦
        let p : x ≡ r = cc (evaluate_hit x rs now on_x hit) in
        (
          Memᴰ.head (sym p),
          subst (λ (s : LockRule). s.is_active ≡ true) p on_x,
          subst (λ s. in_window s now ≡ ok true) p hit,
        )
    | inr (inl miss) ↦
        let (member, on, within) =
          evaluate_sound now rs (sym (evaluate_miss x rs now on_x miss) ∙ h) in
        (Memᴰ.tail member, on, within)
    | inr (inr (f, fails)) ↦ cc (evaluate_fails x rs now on_x fails)
  ]
]

-- The rules of the order that the query brings in, by their first day.
abbrev pub order_rules : ℕ → Rules → Rules
order_rules order_em_id rules =
    order_by_start (select (λ r. r.order_em_id == order_em_id && r.is_active) rules)

selected-Of :
    (order_em_id t : ℕ) (rs : Rules)
    → All (λ x. x.order_em_id ≡ order_em_id → x.t_value ≡ t) rs
    → All (Of order_em_id t) (select (λ r. r.order_em_id == order_em_id && r.is_active) rs)
selected-Of order_em_id t [] h = tt
selected-Of order_em_id t (x ∷ rs) h =
    elim (Bool-cases (x.order_em_id == order_em_id && x.is_active)) [
      | inl kept ↦
          let own : x.order_em_id ≡ order_em_id = ground arith in
          rw kept ((own, h.0 own, ground arith), selected-Of order_em_id t rs h.1)
      | inr gone ↦ rw gone (selected-Of order_em_id t rs h.1)
    ]

-- The rule that the evaluation finds for an order is in force, and it is the only active rule of
-- the order that is, whatever the order of the table: if the rules are disjoint and those of the
-- order share one T value.
pub in_force_unique :
    (order_em_id t now : ℕ) (rules : Rules) {r : LockRule}
    → IsDisjoint rules
    → All (λ x. x.order_em_id ≡ order_em_id → x.t_value ≡ t) rules
    → evaluate_current_time_against_rules (order_rules order_em_id rules) now ≡ ok (some r)
    → (r.is_active ≡ true)
      × (in_window r now ≡ ok true)
      × All
          (λ x.
            x.order_em_id ≡ order_em_id
            → x.is_active ≡ true
            → in_window x now ≡ ok true
            → x.id ≡ r.id)
          rules
in_force_unique order_em_id t now rules {r} d same h =
    let (_, on, within) = evaluate_sound now (order_rules order_em_id rules) h in
    let q : LockRule → Bool = λ x. x.order_em_id == order_em_id && x.is_active in
    let only =
      evaluate_unique order_em_id t now (order_rules order_em_id rules)
        (IsDisjoint-order_by_start (select q rules) (select-IsDisjoint q rules d))
        (All-order_by_start (Of order_em_id t) (select q rules)
          (selected-Of order_em_id t rules same))
        h in
    let P : LockRule → Type 0 = λ x. in_window x now ≡ ok true → x.id ≡ r.id in
    (
      on,
      within,
      All-map (λ x. q x ≡ true → P x) (λ x. x.order_em_id ≡ order_em_id → x.is_active ≡ true → P x)
          rules (λ x k own on_x. k (ground arith))
          (All-of_select P q rules (All-of_order_by_start P (select q rules) only)),
    )
