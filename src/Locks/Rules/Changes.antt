-- ===== src/Locks/Rules/Changes.antt =====
-- `update_lock_rule` and `delete_lock_rule` against the invariant of `LockRuleService`.
use pool_shrpnt.Prelude.{
  ℕ, ◌≡◌, refl, ◌≢◌, Bool, true, false, not, ◌||◌, inl, inr, [], ◌∷◌, none, some, arith, ◌==◌,
  ==_iff, Bool-cases, Option-cases, All, All-map, ◌∙◌, sym, ap, is_some,
}
use pool_shrpnt.Prelude.Table.{first, select, update, first-some, All-first, All-select}
use mathlib.Core.Path.{subst}
use mathlib.Core.List.{Memᴰ}
use pool_shrpnt.Prelude.Outcome.{ok, check-cases}
use pool_shrpnt.Locks.Model.{LockRule}
use pool_shrpnt.Locks.Rules.{
  Rules, overlaps, validate_non_overlapping_windows, RuleChanges, changed, validate_changes,
  update_lock_rule, delete_lock_rule,
}
use pool_shrpnt.Locks.Rules.Disjoint.{
  clash, clash_comm, Apart, IsDisjoint, check-clash, IsDisjoint-replace,
}

-- The row that a query by identifier finds clashes with no other row.
found-apart :
    (rule_id : ℕ) (r : LockRule) (rs : Rules)
    → IsDisjoint rs
    → first (λ x. x.id == rule_id) rs ≡ some r
    → All (λ x. not (x.id == rule_id) ≡ true → clash x r ≡ false) rs
found-apart rule_id r [] h e = tt
found-apart rule_id r (x ∷ rs) h e = elim (Bool-cases (x.id == rule_id)) [
  | inl same ↦
      let p : x ≡ r = cc (rw same at e) in
      (
        (λ n. ground arith),
        All-map (Apart x) (λ y. not (y.id == rule_id) ≡ true → clash y r ≡ false) rs
            (λ y k _. rw (← p) (clash_comm y x ∙ k.1)) h.0,
      )
  | inr other ↦
      let e' : first (λ y. y.id == rule_id) rs ≡ some r = rw other at e in
      ((λ _. (All-first (Apart x) _ rs h.0 e').1), found-apart rule_id r rs h.1 e')
]

abbrev gives_offset : RuleChanges → Bool
gives_offset c = is_some c.start_offset || is_some c.end_offset

-- With an offset given the changed row is checked against the others.
validated :
    (rule_id now : ℕ) (c : RuleChanges) (r : LockRule) (rs : Rules)
    → gives_offset c ≡ true
    → validate_changes rule_id c r rs
      ≡ validate_non_overlapping_windows r.order_em_id
          (changed c now r).start_offset
          (changed c now r).end_offset
          (some rule_id)
          rs
unfolding validate_changes
validated rule_id now c r rs g = ground arith

-- With none given the window stays, so the changed row clashes with no row that it did not clash
-- with before, unless it is switched on.
unmoved :
    (now : ℕ) (c : RuleChanges) (r x : LockRule)
    → gives_offset c ≡ false
    → c.is_active ≢ some true
    → clash x r ≡ false
    → clash x (changed c now r) ≡ false
unfolding clash
unmoved now c r x g off h = ground arith

-- The changed row clashes with no other, if the changes pass and do not switch the rule on unseen.
changed-free :
    (rule_id now : ℕ) (c : RuleChanges) (r : LockRule) (rs : Rules)
    → (c.is_active ≡ some true → gives_offset c ≡ true)
    → IsDisjoint rs
    → first (λ x. x.id == rule_id) rs ≡ some r
    → validate_changes rule_id c r rs ≡ ok tt
    → All (λ x. not (x.id == rule_id) ≡ true → clash x (changed c now r) ≡ false) rs
changed-free rule_id now c r rs seen h found passed = elim (Bool-cases (gives_offset c)) [
  | inl given ↦
      check-clash (changed c now r) (some rule_id) rs
        (rw (validated rule_id now c r rs given) at passed)
  | inr same_window ↦
      All-map (λ x. not (x.id == rule_id) ≡ true → clash x r ≡ false)
        (λ x. not (x.id == rule_id) ≡ true → clash x (changed c now r) ≡ false) rs
        (λ x k n. unmoved now c r x same_window (λ on. ground (arith, seen on)) (k n))
        (found-apart rule_id r rs h found)
]

put-IsDisjoint :
    (rule_id : ℕ) (new : LockRule) (rs : Rules)
    → new.id ≡ rule_id
    → All (λ x. not (x.id == rule_id) ≡ true → clash x new ≡ false) rs
    → IsDisjoint rs
    → IsDisjoint (update (λ r. r.id == rule_id) (λ _. new) rs)
put-IsDisjoint rule_id new rs p free h =
    subst
      (λ k.
        All (λ x. not (x.id == k) ≡ true → clash x new ≡ false) rs
        → IsDisjoint (update (λ r. r.id == k) (λ _. new) rs))
      p (λ f. IsDisjoint-replace new rs f h) free

-- Changing a rule keeps the active rules of each order apart, also when the call raises, if a
-- change that switches the rule on also gives one of its offsets.
pub update_lock_rule-IsDisjoint :
    (rule_id : ℕ) (c : RuleChanges) (now : ℕ) (db : Rules)
    → (c.is_active ≡ some true → gives_offset c ≡ true)
    → IsDisjoint db
    → IsDisjoint (update_lock_rule rule_id c now db).1
unfolding update_lock_rule
update_lock_rule-IsDisjoint rule_id c now db seen h =
    elim (Option-cases (first (λ x. x.id == rule_id) db)) [
      | inl missing ↦ rw missing h
      | inr (r, found) ↦ rw found (elim (check-cases (validate_changes rule_id c r db)) [
        | inl passed ↦
            let p : r.id ≡ rule_id =
              (==_iff r.id rule_id).0 (first-some (λ x. x.id == rule_id) db found) in
            rw passed (
              put-IsDisjoint rule_id (changed c now r) db p
                (changed-free rule_id now c r db seen h found passed) h)
        | inr (_, raised) ↦ rw raised h
      ])
    ]

pub select-IsDisjoint :
    (q : LockRule → Bool) (rs : Rules) → IsDisjoint rs → IsDisjoint (select q rs)
select-IsDisjoint q [] h = tt
select-IsDisjoint q (x ∷ rs) h = elim (Bool-cases (q x)) [
  | inl kept ↦ rw kept (All-select (Apart x) q rs h.0, select-IsDisjoint q rs h.1)
  | inr gone ↦ rw gone (select-IsDisjoint q rs h.1)
]

-- Deleting a rule keeps the active rules of each order apart, also when the call raises.
pub delete_lock_rule-IsDisjoint :
    (rule_id : ℕ) (db : Rules) → IsDisjoint db → IsDisjoint (delete_lock_rule rule_id db).1
unfolding delete_lock_rule
delete_lock_rule-IsDisjoint rule_id db h = elim (Option-cases (first (λ x. x.id == rule_id) db)) [
  | inl missing ↦ rw missing h
  | inr (r, found) ↦ rw found (select-IsDisjoint (λ x. not (x.id == rule_id)) db h)
]

-- The change that only switches a rule on.
abbrev pub reactivate : RuleChanges
reactivate = record {
  rule_name = none;
  t_value = none;
  window_type = none;
  start_offset = none;
  end_offset = none;
  permission_level = none;
  is_active = some true;
}

-- A row that a test finds is in the table, written.
update-found :
    (q : LockRule → Bool) (f : LockRule → LockRule) (rs : Rules) {r : LockRule}
    → first q rs ≡ some r
    → Memᴰ (f r) (update q f rs)
update-found q f [] h = absurd cc
update-found q f (x ∷ rs) {r} h = elim (Bool-cases (q x)) [
  | inl hit ↦ let same : x ≡ r = cc (rw hit at h) in rw hit (Memᴰ.head (ap f (sym same)))
  | inr miss ↦ rw miss (Memᴰ.tail (update-found q f rs (rw miss at h)))
]

-- A row that the test does not hold for stays in the table.
update-kept :
    (q : LockRule → Bool) (f : LockRule → LockRule) (rs : Rules) {x : LockRule}
    → Memᴰ x rs
    → q x ≡ false
    → Memᴰ x (update q f rs)
update-kept q f [] member h = elim member [ ]
update-kept q f (y ∷ rs) (Memᴰ.head same) h =
    let miss : q y ≡ false = subst (λ z. q z ≡ false) same h in rw miss (Memᴰ.head same)
update-kept q f (y ∷ rs) (Memᴰ.tail member) h = elim (Bool-cases (q y)) [
  | inl hit ↦ rw hit (Memᴰ.tail (update-kept q f rs member h))
  | inr miss ↦ rw miss (Memᴰ.tail (update-kept q f rs member h))
]

-- Switching on a rule whose window overlaps that of an active rule of the same order succeeds, and
-- leaves both rules in the table, both active and clashing.
pub update_lock_rule-reactivate :
    (now : ℕ) (x r : LockRule) (db : Rules)
    → first (λ y. y.id == r.id) db ≡ some r
    → Memᴰ x db
    → x.id ≢ r.id
    → x.is_active ≡ true
    → x.order_em_id ≡ r.order_em_id
    → overlaps r.start_offset r.end_offset x ≡ true
    → let (result, db') = update_lock_rule r.id reactivate now db in
      (result ≡ ok (changed reactivate now r))
      × Memᴰ (changed reactivate now r) db'
      × Memᴰ x db'
      × (clash x (changed reactivate now r) ≡ true)
unfolding update_lock_rule validate_changes clash
update_lock_rule-reactivate now x r db found member ne on same_order overlap = rw found (
  refl,
  update-found (λ y. y.id == r.id) (λ _. changed reactivate now r) db found,
  update-kept (λ y. y.id == r.id) (λ _. changed reactivate now r) db member (ground arith),
  ground (arith, on, same_order, overlap),
)
