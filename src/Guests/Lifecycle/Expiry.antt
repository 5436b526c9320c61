-- ===== src/Guests/Lifecycle/Expiry.antt =====
-- The expiry of guests: finding them, taking them out of their groups, and the automatic run.
use pool_shrpnt.Prelude.{
  ℕ, zero, suc, Bool, true, false, not, ◌&&◌, ◌||◌, List, [], ◌∷◌, Option, none, some, map, leb,
  ltb, ◌==◌, is_some, or_default, if◌then◌else◌,
}
use pool_shrpnt.Prelude.Text.{Text, codes}
use pool_shrpnt.Prelude.Int.{ℤ}
use pool_shrpnt.Prelude.Table.{select, first, update}
use pool_shrpnt.Prelude.Clock.{shift_days}
use pool_shrpnt.Prelude.Outcome.{Result, ok, err, value_error, overflow_error}
use pool_shrpnt.Guests.Model.{
  GuestStatus, invited, accepted, expired, revoked, purged, GuestUser, GuestGroupAssignment,
  GuestDb,
}
use pool_shrpnt.Guests.Lifecycle.{get_or_create_policy, no_values, has_guest_id}

abbrev pub may_expire : GuestStatus → Bool
may_expire accepted = true
may_expire invited = true
may_expire _ = false

abbrev pub is_expiring : ℕ → ℕ → GuestUser → Bool
is_expiring now cutoff_date g = elim g.expires_at [
  | none ↦ false
  | some t ↦ leb t cutoff_date && ltb now t && may_expire g.status
]

abbrev pub is_accepted : GuestStatus → Bool
is_accepted accepted = true
is_accepted _ = false

abbrev pub is_expired_status : GuestStatus → Bool
is_expired_status expired = true
is_expired_status _ = false

abbrev pub is_past_expiry : ℕ → Bool → GuestUser → Bool
is_past_expiry now include_already_expired g = elim g.expires_at [
  | none ↦ false
  | some t ↦
      leb t now && (is_accepted g.status || (include_already_expired && is_expired_status g.status))
]

-- `if partner_company_id:`: 0 is no filter.
abbrev pub passes_partner : Option ℕ → GuestUser → Bool
passes_partner none g = true
passes_partner (some zero) g = true
passes_partner (some (suc n)) g = g.partner_company_id == suc n

abbrev pub expiry_or_zero : GuestUser → ℕ
expiry_or_zero g = or_default g.expires_at 0

-- `ORDER BY expires_at`; the rows found have one.
unfoldable pub place_guest : GuestUser → List GuestUser → List GuestUser
place_guest g [] = g ∷ []
place_guest g (x ∷ xs) =
    if leb (expiry_or_zero g) (expiry_or_zero x) then g ∷ x ∷ xs else x ∷ place_guest g xs

unfoldable pub order_by_expiry : List GuestUser → List GuestUser
unfolding place_guest
order_by_expiry [] = []
order_by_expiry (g ∷ gs) = place_guest g (order_by_expiry gs)

pub find_expiring_guests : ℤ → Option ℕ → ℕ → GuestDb → Result (List GuestUser)
unfolding order_by_expiry
find_expiring_guests days_until_expiry partner_id now db = elim (shift_days now days_until_expiry) [
  | none ↦ err overflow_error
  | some cutoff_date ↦ ok (
      order_by_expiry
        (select (λ g. is_expiring now cutoff_date g && passes_partner partner_id g) db.guests))
]

unfoldable pub find_expired_guests : Option ℕ → Bool → ℕ → GuestDb → List GuestUser
unfolding order_by_expiry
find_expired_guests partner_id include_already_expired now db = order_by_expiry (
    select (λ g. is_past_expiry now include_already_expired g && passes_partner partner_id g)
      db.guests)

-- `_remove_from_all_groups`: the groups of the guest in which it still is.
abbrev pub is_member : ℕ → GuestGroupAssignment → Bool
is_member guest_id a = a.guest_user_id == guest_id && not (is_some a.removed_at)

abbrev pub left_group : Text → ℕ → GuestGroupAssignment → GuestGroupAssignment
left_group removed_by now a = record a { removed_at = some now; removed_by = some removed_by }

-- Taking a user out of groups, by the identifiers of both.
abbrev pub RemoveUser : Type 0
RemoveUser = Text → List ℕ → Result (Unit {0})

abbrev pub remove_from_azure : RemoveUser → Option Text → List ℕ → Result (Unit {0})
remove_from_azure remove none groups = ok tt
remove_from_azure remove (some []) groups = ok tt
remove_from_azure remove (some (c ∷ s)) groups = remove (c ∷ s) groups

abbrev pub group_ids : List GuestGroupAssignment → List ℕ
group_ids assignments = map (λ (a : GuestGroupAssignment). a.group_id) assignments

unfoldable pub remove_from_all_groups :
    RemoveUser
    → GuestUser
    → Text
    → ℕ
    → List GuestGroupAssignment
    → Result (List GuestGroupAssignment)
remove_from_all_groups remove guest removed_by now assignments =
    elim (select (is_member guest.id) assignments) [
      | [] ↦ ok assignments
      | a ∷ rest ↦ elim (remove_from_azure remove guest.azure_ad_id (group_ids (a ∷ rest))) [
        | err e ↦ err e
        | ok _ ↦ ok (update (is_member guest.id) (left_group removed_by now) assignments)
      ]
    ]

abbrev pub is_over : GuestStatus → Bool
is_over expired = true
is_over revoked = true
is_over purged = true
is_over _ = false

abbrev pub with_expired : GuestUser → GuestUser
with_expired g = record g { status = expired }

unfoldable pub expire_guest : RemoveUser → ℕ → ℕ → GuestDb → Result GuestUser × GuestDb
unfolding remove_from_all_groups
expire_guest remove guest_id now db = elim (first (has_guest_id guest_id) db.guests) [
  | none ↦ (err value_error, db)
  | some guest ↦
      if is_over guest.status
      then (ok guest, db)
      else elim (remove_from_all_groups remove guest (codes "system") now db.assignments) [
        | err e ↦ (err e, db)
        | ok assignments ↦ (
          ok (with_expired guest),
          record db {
            assignments = assignments;
            guests = update (has_guest_id guest_id) with_expired db.guests;
          },
        )
      ]
]

-- What a run reports: the guests expired, and those whose expiry raised.
pub record ExpiryReport : Type 0 where
  pub expired_guests : List ℕ
  pub errors : List ℕ

-- One round of the loop. A policy that is created draws an identifier.
abbrev pub expire_round :
    RemoveUser → Bool → ℕ → ℕ → GuestUser → GuestDb → Option (Result (Unit {0})) × GuestDb
expire_round remove dry_run policy_id now guest db =
    let (policy, db') = get_or_create_policy policy_id guest.partner_company_id no_values db in
    if not policy.auto_expire_enabled
    then (none, db')
    else if dry_run
    then (some (ok tt), db')
    else let (r, db'') = expire_guest remove guest.id now db' in
      elim r [ ok _ ↦ (some (ok tt), db'') | err e ↦ (some (err e), db'') ]

abbrev pub reported : Option (Result (Unit {0})) → ℕ → ExpiryReport → ExpiryReport
reported none guest_id report = report
reported (some (ok _)) guest_id report = record report {
  expired_guests = guest_id ∷ report.expired_guests;
}
reported (some (err _)) guest_id report = record report { errors = guest_id ∷ report.errors }

unfoldable pub expire_guests :
    RemoveUser → Bool → (ℕ → ℕ) → ℕ → List GuestUser → GuestDb → ExpiryReport × GuestDb
unfolding get_or_create_policy expire_guest
expire_guests remove dry_run uuid now [] db = (record { expired_guests = []; errors = [] }, db)
expire_guests remove dry_run uuid now (guest ∷ guests) db =
    let (outcome, db') = expire_round remove dry_run (uuid guest.id) now guest db in
    let (report, db'') = expire_guests remove dry_run uuid now guests db' in
    (reported outcome guest.id report, db'')

unfoldable pub process_automatic_expiry :
    RemoveUser → Bool → (ℕ → ℕ) → ℕ → GuestDb → ExpiryReport × GuestDb
unfolding find_expired_guests expire_guests
process_automatic_expiry remove dry_run uuid now db =
    expire_guests remove dry_run uuid now (find_expired_guests none false now db) db
