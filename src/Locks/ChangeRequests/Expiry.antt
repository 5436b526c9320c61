-- ===== src/Locks/ChangeRequests/Expiry.antt =====
-- Expiring change requests.
use pool_shrpnt.Prelude.{
  ℕ, ◌≡◌, refl, sym, ◌∙◌, true, false, inl, inr, List, [], ◌∷◌, map, arith, ◌==◌, Bool-cases, All,
  All-map,
}
use mathlib.Core.Bool.{false≢true}
use mathlib.Core.Path.{subst}
use pool_shrpnt.Prelude.Table.{exists, select, update}
use pool_shrpnt.Locks.ChangeRequests.{
  ChangeRequest, CrDb, cr_expires, is_due, set_expired, end_request, expire_each, expire_crs,
}

-- Every request that is due is among the requests still to be ended.
abbrev Pending : ℕ → List ChangeRequest → List ChangeRequest → Type 0
Pending now crs rs = All (λ r. is_due now r ≡ true → exists (λ c. r.id == c.id) crs ≡ true) rs

Pending-weaken :
    (now : ℕ) (c : ChangeRequest) (crs rs : List ChangeRequest)
    → Pending now crs rs
    → Pending now (c ∷ crs) rs
Pending-weaken now c crs rs h = All-map _ _ rs (λ r k due. ground (arith, k due)) h

Pending-select : (now : ℕ) (rs : List ChangeRequest) → Pending now (select (is_due now) rs) rs
Pending-select now [] = tt
Pending-select now (r ∷ rs) = elim (Bool-cases (is_due now r)) [
  | inl due ↦
      let e : select (is_due now) (r ∷ rs) ≡ r ∷ select (is_due now) rs = rw due refl in
      subst (λ crs. Pending now crs (r ∷ rs)) (sym e)
        (
          (λ _. ground arith),
          Pending-weaken now r (select (is_due now) rs) rs (Pending-select now rs),
        )
  | inr not_due ↦
      let e : select (is_due now) (r ∷ rs) ≡ select (is_due now) rs = rw not_due refl in
      subst (λ crs. Pending now crs (r ∷ rs)) (sym e)
        ((λ due. absurd (false≢true (sym not_due ∙ due))), Pending-select now rs)
]

Pending-step :
    (now : ℕ) (cr : ChangeRequest) (crs rs : List ChangeRequest)
    → Pending now (cr ∷ crs) rs
    → Pending now crs (update (λ r. r.id == cr.id) (set_expired now) rs)
Pending-step now cr crs [] h = tt
Pending-step now cr crs (r ∷ rs) h = elim (Bool-cases (r.id == cr.id)) [
  | inl hit ↦ rw hit ((λ e. absurd (false≢true e)), Pending-step now cr crs rs h.1)
  | inr miss ↦ rw miss ((λ due. (rw miss at (h.0 due))), Pending-step now cr crs rs h.1)
]

Pending-none :
    (now : ℕ) (rs : List ChangeRequest) → Pending now [] rs → exists (is_due now) rs ≡ false
Pending-none now [] h = refl
Pending-none now (r ∷ rs) h = elim (Bool-cases (is_due now r)) [
  | inl due ↦ absurd (false≢true (h.0 due))
  | inr not_due ↦ rw not_due (Pending-none now rs h.1)
]

expire_each-none_due :
    (now : ℕ) (crs : List ChangeRequest) (db : CrDb)
    → Pending now crs db.requests
    → exists (is_due now) (expire_each now crs db).requests ≡ false
unfolding expire_each end_request
expire_each-none_due now [] db h = Pending-none now db.requests h
expire_each-none_due now (cr ∷ crs) db h =
    expire_each-none_due now crs (end_request cr_expires (set_expired now) now cr db)
      (Pending-step now cr crs db.requests h)

-- After a run of `expire_crs` no request is active past its end, and the run reports exactly the
-- requests that were due, marked as expired.
pub expire_crs-none_due :
    (now : ℕ) (db : CrDb)
    → let (reported, db') = expire_crs now db in
      (exists (is_due now) db'.requests ≡ false)
      × (reported ≡ map (set_expired now) (select (is_due now) db.requests))
unfolding expire_crs
expire_crs-none_due now db = (
  expire_each-none_due now (select (is_due now) db.requests) db (Pending-select now db.requests),
  refl,
)
