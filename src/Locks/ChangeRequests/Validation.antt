-- ===== src/Locks/ChangeRequests/Validation.antt =====
-- What `create_cr` accepts.
use pool_shrpnt.Prelude.{
  ℕ, ◌+◌, ◌*◌, ◌≤◌, ◌≡◌, refl, sym, ap, ◌∙◌, true, false, inl, inr, some, ltb, arith, ◌==◌, length,
  Bool-cases, Option-cases,
}
use pool_shrpnt.Prelude.Clock.{hour, shift_hours}
use pool_shrpnt.Prelude.Int.{ℤ, pos, negsuc}
use pool_shrpnt.Prelude.Table.{exists, insert}
use pool_shrpnt.Prelude.Outcome.{Result, ok, err}
use pool_shrpnt.Locks.ChangeRequests.{
  CrDb, CrRequest, ChangeRequest, is_known, out_of_range, cr_of, create_cr, apply_cr_unlock,
}

-- What must hold for a request to be opened, with its duration in hours.
pub record IsAcceptable (id : ℕ) (q : CrRequest) (db : CrDb) : Type 0 where
  pub hours : ℕ
  pub known_scope : is_known q.scope ≡ true
  pub long_reason : 20 ≤ length q.reason
  pub duration : q.duration_hours ≡ pos hours
  pub at_least : 1 ≤ hours
  pub at_most : hours ≤ 72
  pub known_order : exists (λ o. o == q.em_id) db.orders ≡ true
  pub free_key : exists (λ r. r.id == id) db.requests ≡ false

hours_in_range : (d : ℤ) → out_of_range d ≡ false → (h : ℕ) × (d ≡ pos h) × (1 ≤ h) × (h ≤ 72)
hours_in_range (pos n) e = (n, refl, ground arith, ground arith)
hours_in_range (negsuc n) e = absurd (ground arith)

-- How a call of `create_cr` ends.
abbrev pub Outcome : ℕ → CrRequest → ℕ → CrDb → Result ChangeRequest × CrDb → Type 0
Outcome id q now db (ok cr, db') =
    IsAcceptable id q db
    × (cr ≡ cr_of id now cr.expires_at q)
    × (cr.expires_at ≤ now + 72 * hour)
    × (now + hour ≤ cr.expires_at)
    × (db'.requests ≡ insert cr db.requests)
    × (db'.states ≡ apply_cr_unlock cr now db.states)
Outcome id q now db (err f, db') = db' ≡ db

shift_within :
    (now h : ℕ) {t : ℕ}
    → 1 ≤ h
    → h ≤ 72
    → shift_hours now (pos h) ≡ some t
    → (t ≤ now + 72 * hour) × (now + hour ≤ t)
unfolding shift_hours
shift_within now h lo hi e = (ground arith, ground arith)

-- A change request is opened only for a known scope and order, a reason of at least 20 characters and
-- a duration of 1 to 72 hours, and is then active, ends after one to 72 hours, and has its folders
-- unlocked; a call that raises writes nothing.
pub create_cr-Outcome :
    (id : ℕ) (q : CrRequest) (now : ℕ) (db : CrDb) → Outcome id q now db (create_cr id q now db)
unfolding create_cr
create_cr-Outcome id q now db = elim (Bool-cases (is_known q.scope)) [
  | inr unknown ↦ rw unknown refl
  | inl known ↦ rw known (elim (Bool-cases (ltb (length q.reason) 20)) [
    | inl short ↦ rw short refl
    | inr long ↦ rw long (elim (Bool-cases (out_of_range q.duration_hours)) [
      | inl out ↦ rw out refl
      | inr within ↦ rw within (elim (Bool-cases (exists (λ (o : ℕ). o == q.em_id) db.orders)) [
        | inr no_order ↦ rw no_order refl
        | inl order ↦ rw order (elim (Option-cases (shift_hours now q.duration_hours)) [
          | inl never ↦ rw never refl
          | inr (t, ends) ↦
              rw ends (elim (Bool-cases (exists (λ (r : ChangeRequest). r.id == id) db.requests)) [
                | inl taken ↦ rw taken refl
                | inr free ↦
                    let (h, dur, lo, hi) = hours_in_range q.duration_hours within in
                    let (latest, earliest) =
                      shift_within now h lo hi (sym (ap (shift_hours now) dur) ∙ ends) in
                    rw free (
                      record {
                        hours = h;
                        known_scope = known;
                        long_reason = ground arith;
                        duration = dur;
                        at_least = lo;
                        at_most = hi;
                        known_order = order;
                        free_key = free;
                      },
                      refl,
                      latest,
                      earliest,
                      refl,
                      refl,
                    )
              ])
        ])
      ])
    ])
  ])
]
