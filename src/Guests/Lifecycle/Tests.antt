-- ===== src/Guests/Lifecycle/Tests.antt =====
-- Runs of the lifecycle service on a small database, and an instance of its theorem.
use pool_shrpnt.Prelude.{map, All, ℕ, ◌*◌, ◌≡◌, refl, true, false, List, [], ◌∷◌, none, some}
use pool_shrpnt.Prelude.Text.{codes}
use pool_shrpnt.Prelude.Int.{pos}
use pool_shrpnt.Prelude.Table.{first}
use pool_shrpnt.Prelude.Clock.{day, shift_days}
use pool_shrpnt.Prelude.Outcome.{ok, err, conflict}
use pool_shrpnt.Guests.Model.{GuestStatus, accepted, expired, revoked, GuestUser, GuestDb}
use pool_shrpnt.Guests.Lifecycle.{
  has_guest_id, is_closed, ExtensionRequest, get_or_create_policy, extend_found,
  extend_guest_access,
}
use pool_shrpnt.Guests.Lifecycle.Expiry.{
  is_past_expiry, RemoveUser, place_guest, order_by_expiry, find_expired_guests,
  remove_from_all_groups, expire_guest, expire_guests, process_automatic_expiry,
}
use pool_shrpnt.Guests.Lifecycle.Complete.{process_automatic_expiry_complete}
use pool_shrpnt.Guests.Lifecycle.Moves.{IsCounted}
use pool_shrpnt.Guests.Lifecycle.Reach.{Call, extends_guest, expires_all, run, run-IsCounted}

abbrev guest : ℕ → GuestStatus → ℕ → GuestUser
guest id status expires_at = record {
  id = id;
  email = codes "g@p.hu";
  azure_ad_id = some (codes "aad");
  partner_company_id = 2;
  status = status;
  expires_at = some expires_at;
  extended_count = 0;
  last_extended_at = none;
}

abbrev db : GuestDb
db = record {
  guests = guest 1 accepted (10 * day) ∷ guest 2 revoked (10 * day) ∷ [];
  assignments =
      record { guest_user_id = 1; group_id = 5; removed_at = none; removed_by = none } ∷ [];
  extensions = [];
  policies = [];
}

-- Microsoft Graph takes every user out of every group, or none.
abbrev removes : RemoveUser
removes _ _ = ok tt

abbrev refuses : RemoveUser
refuses _ _ = err conflict

expires_one :
    (process_automatic_expiry removes false (λ i. i) (20 * day) db).0.expired_guests ≡ 1 ∷ []
unfolding process_automatic_expiry find_expired_guests order_by_expiry place_guest expire_guests
    get_or_create_policy expire_guest remove_from_all_groups
expires_one = refl

reports_all :
    (process_automatic_expiry removes false (λ i. i) (20 * day) db).0.expired_guests
    ≡ map (λ (g : GuestUser). g.id) (find_expired_guests none false (20 * day) db)
unfolding process_automatic_expiry find_expired_guests order_by_expiry place_guest expire_guests
    get_or_create_policy expire_guest remove_from_all_groups
reports_all = refl

reports_error : (process_automatic_expiry refuses false (λ i. i) (20 * day) db).0.errors ≡ 1 ∷ []
unfolding process_automatic_expiry find_expired_guests order_by_expiry place_guest expire_guests
    get_or_create_policy expire_guest remove_from_all_groups
reports_error = refl

abbrev request : ExtensionRequest
request = record {
  guest_id = 1;
  extended_by = codes "ann";
  justification = codes "project goes on";
  extension_days = some (pos 5);
}

abbrev long_expired : GuestDb
long_expired = record db { guests = guest 1 expired (10 * day) ∷ [] }

abbrev after_run : GuestDb
after_run = (process_automatic_expiry removes false (λ i. i) (20 * day) db).1

process_automatic_expiry_complete_example :
    All (λ x. is_past_expiry (20 * day) false x ≡ false) after_run.guests
process_automatic_expiry_complete_example =
    process_automatic_expiry_complete removes (λ i. i) (20 * day) db (refl, (refl, tt)) reports_all

-- The days are added to the old expiry, so a guest that expired long ago is accepted again with an expiry
-- that has passed.
still_past :
    (extend_guest_access 7 8 request (20 * day) long_expired).1.guests
    ≡ record (guest 1 accepted (15 * day)) {
      extended_count = 1;
      last_extended_at = some (20 * day);
    }
      ∷ []
unfolding extend_guest_access extend_found get_or_create_policy shift_days
still_past = refl

abbrev calls : List Call
calls = extends_guest 7 8 request (5 * day) ∷ expires_all false (λ i. i) (20 * day) ∷ []

run-IsCounted_example :
    IsCounted (run removes calls db).guests (run removes calls db).extensions
    × ((guest_id : ℕ) (r : GuestUser)
        → first (has_guest_id guest_id) db.guests ≡ some r
        → is_closed r.status ≡ true
        → first (has_guest_id guest_id) (run removes calls db).guests ≡ some r)
run-IsCounted_example = run-IsCounted removes calls db (refl, (refl, tt))
