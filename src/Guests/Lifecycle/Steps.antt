-- ===== src/Guests/Lifecycle/Steps.antt =====
-- Every operation of the lifecycle service is such a move.
use pool_shrpnt.Prelude.{
  ℕ, ◌≡◌, refl, ap, true, false, inl, inr, some, arith, Bool-cases, Option-cases, or_default,
}
use pool_shrpnt.Prelude.Text.{codes}
use pool_shrpnt.Prelude.Int.{ℤ}
use pool_shrpnt.Prelude.Table.{first, update, insert}
use pool_shrpnt.Prelude.Outcome.{Result-cases}
use pool_shrpnt.Prelude.Clock.{shift_days}
use pool_shrpnt.Guests.Model.{GuestStatus, GuestUser, GuestDb}
use pool_shrpnt.Guests.Lifecycle.{
  PolicyValues, no_values, get_or_create_policy, has_guest_id, is_closed, ExtensionRequest,
  extend_guest_access, can_extend_guest, apply_grace_period, of_partner, extend_found, at_limit,
  or_days, extension_of, extended, may_have_grace, with_grace,
}
use pool_shrpnt.Guests.Lifecycle.Expiry.{
  RemoveUser, expire_guest, is_over, remove_from_all_groups, with_expired,
}
use pool_shrpnt.Guests.Lifecycle.Moves.{Moves, stays, changes, extends}

pub get_or_create_policy-same :
    (id partner_id : ℕ) (v : PolicyValues) (db : GuestDb)
    → ((get_or_create_policy id partner_id v db).1.guests ≡ db.guests)
      × ((get_or_create_policy id partner_id v db).1.extensions ≡ db.extensions)
unfolding get_or_create_policy
get_or_create_policy-same id partner_id v db =
    elim (Option-cases (first (of_partner partner_id) db.policies)) [
      | inl new ↦ rw (new, get_or_create_policy) (refl, refl)
      | inr (policy, known) ↦ rw (known, get_or_create_policy) (refl, refl)
    ]

pub get_or_create_policy-Moves :
    (id partner_id : ℕ) (v : PolicyValues) (db : GuestDb)
    → Moves db (get_or_create_policy id partner_id v db).1
get_or_create_policy-Moves id partner_id v db =
    let (guests, extensions) = get_or_create_policy-same id partner_id v db in
    stays guests extensions

extend_found-Moves :
    (id policy_id : ℕ) (q : ExtensionRequest) (now : ℕ) (guest : GuestUser) (db : GuestDb)
    → first (has_guest_id q.guest_id) db.guests ≡ some guest
    → is_closed guest.status ≡ false
    → Moves db (extend_found id policy_id q now guest db).1
unfolding extend_found
extend_found-Moves id policy_id q now guest db found open_status =
    let (policy, db') = get_or_create_policy policy_id guest.partner_company_id no_values db in
    let (guests, extensions) =
      get_or_create_policy-same policy_id guest.partner_company_id no_values db in
    elim (Bool-cases (at_limit guest policy)) [
      | inl full ↦ rw full (stays guests extensions)
      | inr room ↦
          elim (Option-cases (
            shift_days (or_default guest.expires_at now)
              (or_days q.extension_days policy.extension_period_days))) [
                | inl far ↦ rw room (rw far (stays guests extensions))
                | inr (new_expiry, fits) ↦ rw room (
                    rw fits (
                      extends q.guest_id
                        (extension_of id q (or_default guest.expires_at now) new_expiry now)
                        (extended new_expiry now) found open_status (λ _. refl) (λ _. refl) refl
                        (ap (λ gs. update (has_guest_id q.guest_id) (extended new_expiry now) gs)
                          guests)
                        (ap
                          (λ es.
                            insert
                              (extension_of id q (or_default guest.expires_at now) new_expiry now)
                              es)
                          extensions)))
              ]
    ]

pub extend_guest_access-Moves :
    (id policy_id : ℕ) (q : ExtensionRequest) (now : ℕ) (db : GuestDb)
    → Moves db (extend_guest_access id policy_id q now db).1
unfolding extend_guest_access
extend_guest_access-Moves id policy_id q now db =
    elim (Option-cases (first (has_guest_id q.guest_id) db.guests)) [
      | inl unknown ↦ rw (unknown, extend_guest_access) (stays refl refl)
      | inr (guest, found) ↦ elim (Bool-cases (is_closed guest.status)) [
        | inl closed_status ↦ rw (found, extend_guest_access) (rw closed_status (stays refl refl))
        | inr open_status ↦
            rw (found, extend_guest_access)
              (rw open_status (extend_found-Moves id policy_id q now guest db found open_status))
      ]
    ]

is_over-closed : (s : GuestStatus) → is_over s ≡ false → is_closed s ≡ false
is_over-closed s h = ground arith

pub expire_guest-Moves :
    (remove : RemoveUser) (guest_id now : ℕ) (db : GuestDb)
    → Moves db (expire_guest remove guest_id now db).1
unfolding expire_guest
expire_guest-Moves remove guest_id now db =
    elim (Option-cases (first (has_guest_id guest_id) db.guests)) [
      | inl unknown ↦ rw (unknown, expire_guest) (stays refl refl)
      | inr (guest, found) ↦ elim (Bool-cases (is_over guest.status)) [
        | inl over ↦ rw (found, expire_guest) (rw over (stays refl refl))
        | inr running ↦
            elim (Result-cases
              (remove_from_all_groups remove guest (codes "system") now db.assignments)) [
                | inr (e, failed) ↦
                    rw (found, expire_guest) (rw running (rw failed (stays refl refl)))
                | inl (assignments, removed) ↦
                    rw (found, expire_guest)
                      (rw running (
                        rw removed (
                          changes guest_id with_expired found (is_over-closed guest.status running)
                            (λ _. refl) (λ _. refl) refl refl)))
              ]
      ]
    ]

may_have_grace-open : (s : GuestStatus) → may_have_grace s ≡ true → is_closed s ≡ false
may_have_grace-open s h = ground arith

pub apply_grace_period-Moves :
    (guest_id : ℕ) (grace_days : ℤ) (now : ℕ) (db : GuestDb)
    → Moves db (apply_grace_period guest_id grace_days now db).1
unfolding apply_grace_period
apply_grace_period-Moves guest_id grace_days now db =
    elim (Option-cases (first (has_guest_id guest_id) db.guests)) [
      | inl unknown ↦ rw (unknown, apply_grace_period) (stays refl refl)
      | inr (guest, found) ↦ elim (Bool-cases (may_have_grace guest.status)) [
        | inr refused ↦ rw (found, apply_grace_period) (rw refused (stays refl refl))
        | inl allowed ↦
            elim (Option-cases (shift_days (or_default guest.expires_at now) grace_days)) [
              | inl far ↦ rw (found, apply_grace_period) (rw allowed (rw far (stays refl refl)))
              | inr (new_expiry, fits) ↦
                  rw (found, apply_grace_period)
                    (rw allowed (
                      rw fits (
                        changes guest_id (with_grace new_expiry) found
                          (may_have_grace-open guest.status allowed) (λ _. refl) (λ _. refl) refl
                          refl)))
            ]
      ]
    ]

pub can_extend_guest-Moves :
    (guest_id policy_id : ℕ) (db : GuestDb) → Moves db (can_extend_guest guest_id policy_id db).1
unfolding can_extend_guest
can_extend_guest-Moves guest_id policy_id db =
    elim (Option-cases (first (has_guest_id guest_id) db.guests)) [
      | inl unknown ↦ rw (unknown, can_extend_guest) (stays refl refl)
      | inr (guest, found) ↦ elim (Bool-cases (is_closed guest.status)) [
        | inl closed_status ↦ rw (found, can_extend_guest) (rw closed_status (stays refl refl))
        | inr open_status ↦
            rw (found, can_extend_guest)
              (rw open_status
                (get_or_create_policy-Moves policy_id guest.partner_company_id no_values db))
      ]
    ]
