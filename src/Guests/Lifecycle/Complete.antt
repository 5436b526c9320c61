-- ===== src/Guests/Lifecycle/Complete.antt =====
-- The automatic expiry leaves no guest behind.
use pool_shrpnt.Prelude.{
  ℕ, suc, ◌≤◌, ◌≡◌, refl, sym, ap, false, not, inl, inr, List, [], ◌∷◌, Option, none, some, arith,
  All, All-map, map, length, Bool-cases,
}
use mathlib.Core.Path.{subst}
use mathlib.Core.Bool.{false≢true}
use pool_shrpnt.Prelude.Outcome.{Result, ok, err, Result-cases}
use pool_shrpnt.Guests.Model.{GuestUser, GuestDb}
use pool_shrpnt.Guests.Lifecycle.{get_or_create_policy, no_values}
use pool_shrpnt.Guests.Lifecycle.Expiry.{
  RemoveUser, is_past_expiry, find_expired_guests, expire_guest, ExpiryReport, expire_round,
  reported, expire_guests, process_automatic_expiry,
}
use pool_shrpnt.Guests.Lifecycle.Steps.{get_or_create_policy-same}
use pool_shrpnt.Guests.Lifecycle.Track.{IsKeyed, IsAwaited, IsOnTrack, expire_guest-IsOnTrack}
use pool_shrpnt.Guests.Lifecycle.Found.{All-IsAwaited}

module _ (remove : RemoveUser) (uuid : ℕ → ℕ) (now : ℕ) where
  abbrev with_policy : GuestUser → GuestDb → GuestDb
  with_policy guest db =
      (get_or_create_policy (uuid guest.id) guest.partner_company_id no_values db).1

  abbrev round : GuestUser → GuestDb → Option (Result (Unit {0})) × GuestDb
  round guest db = expire_round remove false (uuid guest.id) now guest db

  -- A round that reports an expiry has expired the guest.
  round_expires :
      (guest : GuestUser) (db : GuestDb)
      → (round guest db).0 ≡ some (ok tt)
      → (g : GuestUser) × ((expire_guest remove guest.id now (with_policy guest db)).0 ≡ ok g)
        × ((round guest db).1 ≡ (expire_guest remove guest.id now (with_policy guest db)).1)
  round_expires guest db h =
      let policy = (get_or_create_policy (uuid guest.id) guest.partner_company_id no_values db).0 in
      elim (Bool-cases (not policy.auto_expire_enabled)) [
        | inl disabled ↦ absurd (cc (rw disabled at h))
        | inr enabled ↦
            elim (Result-cases (expire_guest remove guest.id now (with_policy guest db)).0) [
              | inl (g, gone) ↦ (g, gone, rw enabled (rw gone refl))
              | inr (e, failed) ↦ absurd (cc (rw failed at (rw enabled at h)))
            ]
      ]

  length-expired :
      (rest : List GuestUser) (db : GuestDb)
      → length (expire_guests remove false uuid now rest db).0.expired_guests ≤ length rest
  unfolding expire_guests
  length-expired [] db = omega arith
  length-expired (guest ∷ rest) db =
      let bound = length-expired rest (round guest db).1 in
      reported_bound (round guest db).0 guest.id
        (expire_guests remove false uuid now rest (round guest db).1).0 bound
    where
      reported_bound :
          (outcome : Option (Result (Unit {0}))) (id : ℕ) (report : ExpiryReport) {n : ℕ}
          → length report.expired_guests ≤ n
          → length (reported outcome id report).expired_guests ≤ suc n
      reported_bound none id report h = omega (arith, h)
      reported_bound (some (ok u)) id report h = omega (arith, h)
      reported_bound (some (err e)) id report h = omega (arith, h)

  abbrev ids : List GuestUser → List ℕ
  ids guests = map (λ (g : GuestUser). g.id) guests

  length-ids : (guests : List GuestUser) → length (ids guests) ≡ length guests
  length-ids [] = refl
  length-ids (g ∷ guests) = ap (λ n. suc n) (length-ids guests)

  -- A report of all guests reports an expiry in the first round, and all others in the rest.
  reported_all :
      (outcome : Option (Result (Unit {0}))) (guest : GuestUser) (rest : List GuestUser)
      (report : ExpiryReport)
      → length report.expired_guests ≤ length rest
      → (reported outcome guest.id report).expired_guests ≡ ids (guest ∷ rest)
      → (outcome ≡ some (ok tt)) × (report.expired_guests ≡ ids rest)
  reported_all none guest rest report bound h =
      absurd (omega (arith, bound, ap length h, length-ids rest))
  reported_all (some (err e)) guest rest report bound h =
      absurd (omega (arith, bound, ap length h, length-ids rest))
  reported_all (some (ok u)) guest rest report bound h = (refl, cc (h))

  expire_guests-IsOnTrack :
      (rest : List GuestUser) (db : GuestDb)
      → (expire_guests remove false uuid now rest db).0.expired_guests ≡ ids rest
      → IsOnTrack now rest db.guests
      → IsOnTrack now [] (expire_guests remove false uuid now rest db).1.guests
  unfolding expire_guests
  expire_guests-IsOnTrack [] db all h = h
  expire_guests-IsOnTrack (guest ∷ rest) db all h =
      let (ended, others) =
        reported_all (round guest db).0 guest rest
          (expire_guests remove false uuid now rest (round guest db).1).0
          (length-expired rest (round guest db).1) all in
      let (g, gone, same) = round_expires guest db ended in
      let (guests, _) =
        get_or_create_policy-same (uuid guest.id) guest.partner_company_id no_values db in
      let h' : IsOnTrack now (guest ∷ rest) (with_policy guest db).guests =
        subst (IsOnTrack now (guest ∷ rest)) (sym guests) h in
      expire_guests-IsOnTrack rest (round guest db).1 others (
        subst (λ (d : GuestDb). IsOnTrack now rest d.guests) (sym same)
          (expire_guest-IsOnTrack remove now guest rest (with_policy guest db) gone h'))

none_awaited :
    (now : ℕ) (guests : List GuestUser)
    → All (IsAwaited now []) guests
    → All (λ x. is_past_expiry now false x ≡ false) guests
none_awaited now guests h =
    All-map (IsAwaited now []) (λ x. is_past_expiry now false x ≡ false) guests
      (λ x k. elim (Bool-cases (is_past_expiry now false x)) [
        | inl past ↦ absurd (false≢true (k past))
        | inr not_past ↦ not_past
      ])
      h

-- If each row of the guests is the one that its identifier finds, and a run that is not dry reports every
-- guest that it found as expired, then no accepted guest is past its expiry after the run.
pub process_automatic_expiry_complete :
    (remove : RemoveUser) (uuid : ℕ → ℕ) (now : ℕ) (db : GuestDb)
    → IsKeyed db.guests
    → (process_automatic_expiry remove false uuid now db).0.expired_guests
      ≡ map (λ (g : GuestUser). g.id) (find_expired_guests none false now db)
    → All
        (λ x. is_past_expiry now false x ≡ false)
        (process_automatic_expiry remove false uuid now db).1.guests
unfolding process_automatic_expiry
process_automatic_expiry_complete remove uuid now db keyed all =
    none_awaited now _
      (expire_guests-IsOnTrack remove uuid now (find_expired_guests none false now db) db all
        (keyed, All-IsAwaited now db)).1
