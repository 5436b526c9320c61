-- ===== src/Locks/Evaluator/Ordering.antt =====
-- The order in which the rules of a query come back keeps what holds of all of them.
use pool_shrpnt.Prelude.{◌≡◌, sym, ◌∙◌, Bool, true, inl, inr, [], ◌∷◌, Bool-cases, All}
use pool_shrpnt.Prelude.Int.{leb_ℤ}
use pool_shrpnt.Prelude.Table.{select}
use pool_shrpnt.Locks.Model.{LockRule}
use pool_shrpnt.Locks.Rules.{Rules}
use pool_shrpnt.Locks.Rules.Disjoint.{clash_comm, Apart, IsDisjoint}
use pool_shrpnt.Locks.Evaluator.{place, order_by_start}

pub All-place :
    (P : LockRule → Type 0) (r : LockRule) (rs : Rules) → P r → All P rs → All P (place r rs)
unfolding place
All-place P r [] h k = (h, tt)
All-place P r (x ∷ rs) h k = elim (Bool-cases (leb_ℤ r.start_offset x.start_offset)) [
  | inl here ↦ rw here (h, k)
  | inr there ↦ rw there (k.0, All-place P r rs h k.1)
]

pub All-unplace :
    (P : LockRule → Type 0) (r : LockRule) (rs : Rules) → All P (place r rs) → P r × All P rs
unfolding place
All-unplace P r [] h = h
All-unplace P r (x ∷ rs) h = elim (Bool-cases (leb_ℤ r.start_offset x.start_offset)) [
  | inl here ↦ rw here at h
  | inr there ↦
      let k : P x × All P (place r rs) = rw there at h in
      let (p, q) = All-unplace P r rs k.1 in (p, (k.0, q))
]

pub Apart-comm : (x y : LockRule) → Apart x y → Apart y x
Apart-comm x y h = ((λ e. h.0 (sym e)), clash_comm y x ∙ h.1)

pub IsDisjoint-place :
    (r : LockRule) (rs : Rules) → All (Apart r) rs → IsDisjoint rs → IsDisjoint (place r rs)
unfolding place
IsDisjoint-place r [] h d = (tt, tt)
IsDisjoint-place r (x ∷ rs) h d = elim (Bool-cases (leb_ℤ r.start_offset x.start_offset)) [
  | inl here ↦ rw here (h, d)
  | inr there ↦
      rw there (All-place (Apart x) r rs (Apart-comm r x h.0) d.0, IsDisjoint-place r rs h.1 d.1)
]

pub All-order_by_start : (P : LockRule → Type 0) (rs : Rules) → All P rs → All P (order_by_start rs)
unfolding order_by_start
All-order_by_start P [] h = tt
All-order_by_start P (r ∷ rs) h =
    All-place P r (order_by_start rs) h.0 (All-order_by_start P rs h.1)

pub All-of_order_by_start :
    (P : LockRule → Type 0) (rs : Rules) → All P (order_by_start rs) → All P rs
unfolding order_by_start
All-of_order_by_start P [] h = tt
All-of_order_by_start P (r ∷ rs) h =
    let (p, q) = All-unplace P r (order_by_start rs) h in (p, All-of_order_by_start P rs q)

pub IsDisjoint-order_by_start : (rs : Rules) → IsDisjoint rs → IsDisjoint (order_by_start rs)
unfolding order_by_start
IsDisjoint-order_by_start [] h = tt
IsDisjoint-order_by_start (r ∷ rs) h =
    IsDisjoint-place r (order_by_start rs) (All-order_by_start (Apart r) rs h.0)
      (IsDisjoint-order_by_start rs h.1)

pub All-of_select :
    (P : LockRule → Type 0) (q : LockRule → Bool) (rs : Rules)
    → All P (select q rs)
    → All (λ x. q x ≡ true → P x) rs
All-of_select P q [] h = tt
All-of_select P q (x ∷ rs) h = elim (Bool-cases (q x)) [
  | inl kept ↦
      let k : P x × All P (select q rs) = rw kept at h in ((λ _. k.0), All-of_select P q rs k.1)
  | inr gone ↦ ((λ e. cc), All-of_select P q rs (rw gone at h))
]

pub All-selected : (q : LockRule → Bool) (rs : Rules) → All (λ x. q x ≡ true) (select q rs)
All-selected q [] = tt
All-selected q (x ∷ rs) = elim (Bool-cases (q x)) [
  | inl kept ↦ rw kept (kept, All-selected q rs)
  | inr gone ↦ rw gone (All-selected q rs)
]
