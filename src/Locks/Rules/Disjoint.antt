-- ===== src/Locks/Rules/Disjoint.antt =====
-- Active rules of one order never overlap: the invariant of `LockRuleService`.
use pool_shrpnt.Prelude.{
  ℕ, ◌≡◌, refl, ◌≢◌, sym, ◌∙◌, Bool, true, false, not, ◌&&◌, inl, inr, [], ◌∷◌, Option, none, arith,
  ◌==◌, Bool-cases, All,
}
use pool_shrpnt.Prelude.Table.{update, insert, All-insert, All-update}
use pool_shrpnt.Prelude.Outcome.{ok, check-cases}
use pool_shrpnt.Prelude.Int.{ℤ}
use pool_shrpnt.Locks.Model.{LockRule}
use pool_shrpnt.Locks.Rules.{
  Rules, overlaps, validate_non_overlapping_windows, not_excluded, NewRule, rule_of,
  create_lock_rule,
}

-- Two active rules of one order whose windows overlap.
unfoldable pub clash : LockRule → LockRule → Bool
unfolding overlaps
clash x y =
    x.is_active
    && y.is_active
    && x.order_em_id == y.order_em_id
    && overlaps y.start_offset y.end_offset x

-- Two rows with different identifiers that do not clash.
abbrev pub Apart : LockRule → LockRule → Type 0
Apart x y = (x.id ≢ y.id) × (clash x y ≡ false)

abbrev pub IsDisjoint : Rules → Type 0
IsDisjoint [] = Unit
IsDisjoint (r ∷ rs) = All (Apart r) rs × IsDisjoint rs

pub clash_comm : (x y : LockRule) → clash x y ≡ clash y x
unfolding clash
clash_comm x y = ground arith

IsDisjoint-insert :
    (r : LockRule) (rs : Rules) → IsDisjoint rs → All (λ x. Apart x r) rs → IsDisjoint (insert r rs)
IsDisjoint-insert r [] h k = (tt, tt)
IsDisjoint-insert r (x ∷ rs) h k =
    (All-insert (Apart x) r rs h.0 k.0, IsDisjoint-insert r rs h.1 k.1)

-- What a successful check says of the first row, the excluded one aside, and of the others.
module _ (start_offset end_offset : ℤ) (order_em_id : ℕ) (excluded : Option ℕ) (x : LockRule)
    (rs : Rules) where
  check-tail :
      validate_non_overlapping_windows order_em_id start_offset end_offset excluded (x ∷ rs) ≡ ok tt
      → validate_non_overlapping_windows order_em_id start_offset end_offset excluded rs ≡ ok tt
  unfolding validate_non_overlapping_windows
  check-tail h = ground arith

  check-head :
      (r : LockRule)
      → r.start_offset ≡ start_offset
      → r.end_offset ≡ end_offset
      → r.order_em_id ≡ order_em_id
      → validate_non_overlapping_windows order_em_id start_offset end_offset excluded (x ∷ rs)
        ≡ ok tt
      → not_excluded excluded x.id ≡ true
      → clash x r ≡ false
  unfolding validate_non_overlapping_windows clash
  check-head r hs he ho h k = ground arith

pub check-clash :
    (r : LockRule) (excluded : Option ℕ) (rs : Rules)
    → validate_non_overlapping_windows r.order_em_id r.start_offset r.end_offset excluded rs ≡ ok tt
    → All (λ x. not_excluded excluded x.id ≡ true → clash x r ≡ false) rs
check-clash r excluded [] h = tt
check-clash r excluded (x ∷ rs) h = (
  check-head r.start_offset r.end_offset r.order_em_id excluded x rs r refl refl refl h,
  check-clash r excluded rs (check-tail r.start_offset r.end_offset r.order_em_id excluded x rs h),
)

-- No row has the identifier that `uuid4()` has drawn.
abbrev pub IsFresh : ℕ → Rules → Type 0
IsFresh id = All (λ x. x.id ≢ id)

Apart-new :
    (r : LockRule) (rs : Rules)
    → IsFresh r.id rs
    → All (λ x. not_excluded none x.id ≡ true → clash x r ≡ false) rs
    → All (λ x. Apart x r) rs
Apart-new r [] h k = tt
Apart-new r (x ∷ rs) h k = ((h.0, k.0 refl), Apart-new r rs h.1 k.1)

-- Creating a rule under a fresh identifier keeps the active rules of each order apart, also when
-- the call raises.
pub create_lock_rule-IsDisjoint :
    (accepts : LockRule → Bool) (id now : ℕ) (n : NewRule) (db : Rules)
    → IsFresh id db
    → IsDisjoint db
    → IsDisjoint (create_lock_rule accepts id now n db).1
unfolding create_lock_rule
create_lock_rule-IsDisjoint accepts id now n db fresh h =
    elim (check-cases
      (validate_non_overlapping_windows n.order_em_id n.start_offset n.end_offset none db)) [
        | inl passed ↦ rw passed (elim (Bool-cases (accepts r)) [
          | inl fits ↦
              rw fits
                (IsDisjoint-insert r db h (Apart-new r db fresh (check-clash r none db passed)))
          | inr refused ↦ rw refused h
        ])
        | inr (_, raised) ↦ rw raised h
      ]
  where
    r : LockRule
    r = rule_of id now n

-- A row with another identifier is not written.
update-other :
    (rule_id : ℕ) (new : LockRule) (rs : Rules)
    → IsFresh rule_id rs
    → update (λ r. r.id == rule_id) (λ _. new) rs ≡ rs
update-other rule_id new [] h = refl
update-other rule_id new (x ∷ rs) h = ground (arith, update-other rule_id new rs h.1)

-- The rows behind the one that is replaced have other identifiers, and stand apart from the new row.
behind-replaced :
    (x new : LockRule) (rs : Rules)
    → (x.id == new.id) ≡ true
    → All (λ y. not (y.id == new.id) ≡ true → clash y new ≡ false) rs
    → All (Apart x) rs
    → IsFresh new.id rs × All (Apart new) rs
behind-replaced x new [] same free h = (tt, tt)
behind-replaced x new (y ∷ rs) same free h =
    let (fresh, apart) = behind-replaced x new rs same free.1 h.1 in
    let differs : y.id ≢ new.id = grind (arith, h.0.0) in
    ((differs, fresh), (((λ e. differs (sym e)), clash_comm new y ∙ free.0 (ground arith)), apart))

-- A row put in the place of the one with its identifier keeps the rules apart, if it clashes with
-- no other row.
pub IsDisjoint-replace :
    (new : LockRule) (rs : Rules)
    → All (λ x. not (x.id == new.id) ≡ true → clash x new ≡ false) rs
    → IsDisjoint rs
    → IsDisjoint (update (λ r. r.id == new.id) (λ _. new) rs)
IsDisjoint-replace new [] free h = tt
IsDisjoint-replace new (x ∷ rs) free h = elim (Bool-cases (x.id == new.id)) [
  | inl same ↦
      let (fresh, apart) = behind-replaced x new rs same free.1 h.0 in
      rw (same, update-other new.id new rs fresh) (apart, h.1)
  | inr other ↦ rw other (
    All-update (Apart x) (λ r. r.id == new.id) (λ _. new) rs
        (λ y _ _. (ground arith, free.0 (ground arith))) h.0,
    IsDisjoint-replace new rs free.1 h.1,
  )
]
