-- ===== src/Guests/Lifecycle.antt =====
-- `GuestLifecycleService` of api/services/guests/lifecycle_service.py, with the removal of a guest from its
-- groups of api/services/guests/guest_service.py. The calls of Microsoft Graph that take a user out of its
-- groups are the parameter `remove`, which raises or not. The service runs without the optional audit
-- session; notifications are left out.
pub mod Expiry
pub mod Moves
pub mod Steps
pub mod Reach
pub mod Track
pub mod Found
pub mod Complete
mod Tests
use pool_shrpnt.Prelude.{
  ℕ, zero, suc, ◌+◌, Bool, true, false, not, ◌&&◌, ◌||◌, List, [], ◌∷◌, Option, none, some, map,
  leb, ltb, ◌==◌, is_some, or_default, if◌then◌else◌,
}
use pool_shrpnt.Prelude.Text.{Text, codes}
use pool_shrpnt.Prelude.Int.{ℤ, pos, negsuc, leb_ℤ}
use pool_shrpnt.Prelude.Table.{select, first, update, insert}
use pool_shrpnt.Prelude.Clock.{shift_days}
use pool_shrpnt.Prelude.Outcome.{Failure, Result, ok, err, value_error, overflow_error}
use pool_shrpnt.Guests.Model.{
  GuestStatus, pending, invited, accepted, expired, revoked, purged, GuestUser,
  GuestGroupAssignment, GuestExtension, GuestLifecyclePolicy, GuestDb,
}

-- `days or default`: 0 counts as not given.
abbrev pub or_days : Option ℤ → ℤ → ℤ
or_days none default_days = default_days
or_days (some (pos zero)) default_days = default_days
or_days (some (pos (suc n))) default_days = pos (suc n)
or_days (some (negsuc n)) default_days = negsuc n

abbrev pub of_partner : ℕ → GuestLifecyclePolicy → Bool
of_partner partner_id p = p.partner_company_id == partner_id

-- The values that a caller may give for a policy.
pub record PolicyValues : Type 0 where
  pub default_expiry_days : Option ℤ
  pub max_extensions : Option ℤ
  pub extension_period_days : Option ℤ

abbrev pub no_values : PolicyValues
no_values = record {
  default_expiry_days = none;
  max_extensions = none;
  extension_period_days = none;
}

abbrev pub updated_policy : PolicyValues → GuestLifecyclePolicy → GuestLifecyclePolicy
updated_policy v p = record p {
  default_expiry_days = or_default v.default_expiry_days p.default_expiry_days;
  max_extensions = or_default v.max_extensions p.max_extensions;
  extension_period_days = or_default v.extension_period_days p.extension_period_days;
}

abbrev pub new_policy : ℕ → ℕ → PolicyValues → GuestLifecyclePolicy
new_policy id partner_id v = record {
  id = id;
  partner_company_id = partner_id;
  default_expiry_days = or_days v.default_expiry_days (pos 90);
  max_extensions = or_days v.max_extensions (pos 3);
  extension_period_days = or_days v.extension_period_days (pos 90);
  auto_expire_enabled = true;
}

-- The policy of a partner is unique, so the writes to it are those to all rows of the partner.
pub get_or_create_policy : ℕ → ℕ → PolicyValues → GuestDb → GuestLifecyclePolicy × GuestDb
get_or_create_policy id partner_id v db = elim (first (of_partner partner_id) db.policies) [
  | some policy ↦ (
    updated_policy v policy,
    record db { policies = update (of_partner partner_id) (updated_policy v) db.policies },
  )
  | none ↦ (
    new_policy id partner_id v,
    record db { policies = insert (new_policy id partner_id v) db.policies },
  )
]

abbrev pub or_overflow : Option ℕ → Result ℕ
or_overflow none = err overflow_error
or_overflow (some t) = ok t

pub calculate_expiry_date : ℕ → ℕ → Option ℕ → ℕ → GuestDb → Result ℕ × GuestDb
unfolding get_or_create_policy
calculate_expiry_date id partner_id from_date now db =
    let (policy, db') = get_or_create_policy id partner_id no_values db in
    (or_overflow (shift_days (or_default from_date now) policy.default_expiry_days), db')

abbrev pub has_guest_id : ℕ → GuestUser → Bool
has_guest_id guest_id g = g.id == guest_id

abbrev pub is_closed : GuestStatus → Bool
is_closed revoked = true
is_closed purged = true
is_closed _ = false

abbrev pub reopened : GuestStatus → GuestStatus
reopened expired = accepted
reopened status = status

abbrev pub extended : ℕ → ℕ → GuestUser → GuestUser
extended new_expiry now g = record g {
  expires_at = some new_expiry;
  extended_count = g.extended_count + 1;
  last_extended_at = some now;
  status = reopened g.status;
}

pub record ExtensionRequest : Type 0 where
  pub guest_id : ℕ
  pub extended_by : Text
  pub justification : Text
  pub extension_days : Option ℤ

abbrev pub extension_of : ℕ → ExtensionRequest → ℕ → ℕ → ℕ → GuestExtension
extension_of id q previous new_expiry now = record {
  id = id;
  guest_user_id = q.guest_id;
  extended_by = q.extended_by;
  extended_at = now;
  previous_expiry_date = previous;
  new_expiry_date = new_expiry;
  justification = q.justification;
}

abbrev pub at_limit : GuestUser → GuestLifecyclePolicy → Bool
at_limit guest policy = leb_ℤ policy.max_extensions (pos guest.extended_count)

-- The extension of a guest that was found and may be extended. The policy that was created stays, also when
-- the extension is refused.
pub extend_found :
    ℕ → ℕ → ExtensionRequest → ℕ → GuestUser → GuestDb → Result GuestExtension × GuestDb
unfolding get_or_create_policy
extend_found id policy_id q now guest db =
    let (policy, db') = get_or_create_policy policy_id guest.partner_company_id no_values db in
    if at_limit guest policy
    then (err value_error, db')
    else elim (shift_days (or_default guest.expires_at now)
        (or_days q.extension_days policy.extension_period_days)) [
          | none ↦ (err overflow_error, db')
          | some new_expiry ↦
              let extension = extension_of id q (or_default guest.expires_at now) new_expiry now in
              (
                ok extension,
                record db' {
                  extensions = insert extension db'.extensions;
                  guests = update (has_guest_id q.guest_id) (extended new_expiry now) db'.guests;
                },
              )
        ]

pub extend_guest_access : ℕ → ℕ → ExtensionRequest → ℕ → GuestDb → Result GuestExtension × GuestDb
unfolding extend_found
extend_guest_access id policy_id q now db = elim (first (has_guest_id q.guest_id) db.guests) [
  | none ↦ (err value_error, db)
  | some guest ↦
      if is_closed guest.status
      then (err value_error, db)
      else extend_found id policy_id q now guest db
]

-- `can_extend_guest`; a policy may be created.
pub can_extend_guest : ℕ → ℕ → GuestDb → Bool × GuestDb
unfolding get_or_create_policy
can_extend_guest guest_id policy_id db = elim (first (has_guest_id guest_id) db.guests) [
  | none ↦ (false, db)
  | some guest ↦
      if is_closed guest.status
      then (false, db)
      else let (policy, db') =
          get_or_create_policy policy_id guest.partner_company_id no_values db in
        (not (at_limit guest policy), db')
]

abbrev pub may_have_grace : GuestStatus → Bool
may_have_grace accepted = true
may_have_grace expired = true
may_have_grace _ = false

abbrev pub with_grace : ℕ → GuestUser → GuestUser
with_grace new_expiry g = record g { expires_at = some new_expiry; status = reopened g.status }

pub apply_grace_period : ℕ → ℤ → ℕ → GuestDb → Result GuestUser × GuestDb
apply_grace_period guest_id grace_days now db = elim (first (has_guest_id guest_id) db.guests) [
  | none ↦ (err value_error, db)
  | some guest ↦
      if may_have_grace guest.status
      then elim (shift_days (or_default guest.expires_at now) grace_days) [
        | none ↦ (err overflow_error, db)
        | some new_expiry ↦ (
          ok (with_grace new_expiry guest),
          record db { guests = update (has_guest_id guest_id) (with_grace new_expiry) db.guests },
        )
      ]
      else (err value_error, db)
]

-- `ORDER BY extended_at DESC`, with equal times in the order of the table.
pub place_extension : GuestExtension → List GuestExtension → List GuestExtension
place_extension e [] = e ∷ []
place_extension e (x ∷ xs) =
    if leb x.extended_at e.extended_at then e ∷ x ∷ xs else x ∷ place_extension e xs

pub order_by_extended : List GuestExtension → List GuestExtension
unfolding place_extension
order_by_extended [] = []
order_by_extended (e ∷ es) = place_extension e (order_by_extended es)

abbrev pub of_guest : ℕ → GuestExtension → Bool
of_guest guest_id e = e.guest_user_id == guest_id

pub get_extension_history : ℕ → GuestDb → List GuestExtension
unfolding order_by_extended
get_extension_history guest_id db = order_by_extended (select (of_guest guest_id) db.extensions)
