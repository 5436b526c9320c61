-- ===== src/Guests/Lifecycle/Reach.antt =====
-- Histories of calls of `GuestLifecycleService`.
use pool_shrpnt.Prelude.{
  ℕ, ◌≡◌, Bool, true, false, not, inl, inr, List, [], ◌∷◌, Option, none, some, Bool-cases,
}
use pool_shrpnt.Prelude.Int.{ℤ}
use pool_shrpnt.Prelude.Table.{first}
use pool_shrpnt.Prelude.Outcome.{Result-cases}
use pool_shrpnt.Guests.Model.{GuestUser, GuestDb}
use pool_shrpnt.Guests.Lifecycle.{
  PolicyValues, no_values, get_or_create_policy, calculate_expiry_date, has_guest_id, is_closed,
  ExtensionRequest, extend_guest_access, can_extend_guest, apply_grace_period,
}
use pool_shrpnt.Guests.Lifecycle.Expiry.{
  RemoveUser, expire_guest, process_automatic_expiry, expire_round, expire_guests,
  find_expired_guests,
}
use pool_shrpnt.Guests.Lifecycle.Moves.{Moves, IsCounted, Moves-IsCounted, Moves-keeps}
use pool_shrpnt.Guests.Lifecycle.Steps.{
  get_or_create_policy-Moves, extend_guest_access-Moves, expire_guest-Moves,
  apply_grace_period-Moves, can_extend_guest-Moves,
}

-- A call, with the identifiers and the time that it draws.
pub data Call : Type 0 where
  sets_policy : ℕ → ℕ → PolicyValues → Call
  calculates : ℕ → ℕ → Option ℕ → ℕ → Call
  extends_guest : ℕ → ℕ → ExtensionRequest → ℕ → Call
  expires_guest : ℕ → ℕ → Call
  expires_all : Bool → (ℕ → ℕ) → ℕ → Call
  asks : ℕ → ℕ → Call
  graces : ℕ → ℤ → ℕ → Call

module _ (remove : RemoveUser) where
  -- The database after a call, also one that raises.
  pub step : Call → GuestDb → GuestDb
  step (sets_policy id partner_id v) db = (get_or_create_policy id partner_id v db).1
  step (calculates id partner_id from_date now) db =
      (calculate_expiry_date id partner_id from_date now db).1
  step (extends_guest id policy_id q now) db = (extend_guest_access id policy_id q now db).1
  step (expires_guest guest_id now) db = (expire_guest remove guest_id now db).1
  step (expires_all dry_run uuid now) db = (process_automatic_expiry remove dry_run uuid now db).1
  step (asks guest_id policy_id) db = (can_extend_guest guest_id policy_id db).1
  step (graces guest_id grace_days now) db = (apply_grace_period guest_id grace_days now db).1

  pub run : List Call → GuestDb → GuestDb
  unfolding step
  run [] db = db
  run (c ∷ cs) db = run cs (step c db)

  -- What every move leaves true, every history does.
  module _ (P : GuestDb → Type 0) (keeps : (db db' : GuestDb) → Moves db db' → P db → P db') where
    expire_round_keeps :
        (dry_run : Bool) (policy_id now : ℕ) (guest : GuestUser) (db : GuestDb)
        → P db
        → P (expire_round remove dry_run policy_id now guest db).1
    expire_round_keeps dry_run policy_id now guest db h =
        let (policy, db') = get_or_create_policy policy_id guest.partner_company_id no_values db in
        let h' : P db' =
          keeps db db' (get_or_create_policy-Moves policy_id guest.partner_company_id no_values db)
            h in
        elim (Bool-cases (not policy.auto_expire_enabled)) [
          | inl disabled ↦ rw disabled h'
          | inr enabled ↦ elim (Bool-cases dry_run) [
            | inl dry ↦ rw enabled (rw dry h')
            | inr wet ↦
                let h'' : P (expire_guest remove guest.id now db').1 =
                  keeps db' _ (expire_guest-Moves remove guest.id now db') h' in
                elim (Result-cases (expire_guest remove guest.id now db').0) [
                  | inl (g, gone) ↦ rw enabled (rw wet (rw gone h''))
                  | inr (e, failed) ↦ rw enabled (rw wet (rw failed h''))
                ]
          ]
        ]

    expire_guests_keeps :
        (dry_run : Bool) (uuid : ℕ → ℕ) (now : ℕ) (guests : List GuestUser) (db : GuestDb)
        → P db
        → P (expire_guests remove dry_run uuid now guests db).1
    unfolding expire_guests
    expire_guests_keeps dry_run uuid now [] db h = h
    expire_guests_keeps dry_run uuid now (guest ∷ guests) db h =
        expire_guests_keeps dry_run uuid now guests _
          (expire_round_keeps dry_run (uuid guest.id) now guest db h)

    step_keeps : (c : Call) (db : GuestDb) → P db → P (step c db)
    unfolding step calculate_expiry_date process_automatic_expiry
    step_keeps (sets_policy id partner_id v) db h =
        keeps db _ (get_or_create_policy-Moves id partner_id v db) h
    step_keeps (calculates id partner_id from_date now) db h =
        keeps db _ (get_or_create_policy-Moves id partner_id no_values db) h
    step_keeps (extends_guest id policy_id q now) db h =
        keeps db _ (extend_guest_access-Moves id policy_id q now db) h
    step_keeps (expires_guest guest_id now) db h =
        keeps db _ (expire_guest-Moves remove guest_id now db) h
    step_keeps (expires_all dry_run uuid now) db h =
        expire_guests_keeps dry_run uuid now (find_expired_guests none false now db) db h
    step_keeps (asks guest_id policy_id) db h =
        keeps db _ (can_extend_guest-Moves guest_id policy_id db) h
    step_keeps (graces guest_id grace_days now) db h =
        keeps db _ (apply_grace_period-Moves guest_id grace_days now db) h

    run_keeps : (cs : List Call) (db : GuestDb) → P db → P (run cs db)
    unfolding run
    run_keeps [] db h = h
    run_keeps (c ∷ cs) db h = run_keeps cs (step c db) (step_keeps c db h)

  -- Whatever calls of the lifecycle service are made and whichever calls of Microsoft Graph fail, each guest
  -- has as many extension records as its counter says, if that was so before, and the row of a guest that
  -- was revoked or purged stays as it is.
  pub run-IsCounted :
      (cs : List Call) (db : GuestDb)
      → IsCounted db.guests db.extensions
      → IsCounted (run cs db).guests (run cs db).extensions
        × ((guest_id : ℕ) (r : GuestUser)
            → first (has_guest_id guest_id) db.guests ≡ some r
            → is_closed r.status ≡ true
            → first (has_guest_id guest_id) (run cs db).guests ≡ some r)
  run-IsCounted cs db h = (
    run_keeps (λ d. IsCounted d.guests d.extensions) (λ _ _ m. Moves-IsCounted m) cs db h,
    λ guest_id r kept closed_status.
        run_keeps (λ d. first (has_guest_id guest_id) d.guests ≡ some r)
          (λ _ _ m k. Moves-keeps guest_id m k closed_status) cs db kept,
  )
