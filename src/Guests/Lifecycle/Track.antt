-- ===== src/Guests/Lifecycle/Track.antt =====
-- The guests that are still to be expired while the automatic run goes on.
use pool_shrpnt.Prelude.{
  ℕ, ◌≡◌, refl, sym, ◌∙◌, ap, Bool, true, false, ◌&&◌, ◌||◌, inl, inr, List, [], ◌∷◌, some, arith,
  All, All-map, Bool-cases, Option-cases, ◌==◌, ==_iff, if◌then◌else◌, leb,
}
use mathlib.Core.Path.{subst}
use mathlib.Core.Bool.{false≢true}
use pool_shrpnt.Prelude.Table.{first, update, exists, first-update}
use pool_shrpnt.Prelude.Outcome.{ok, Result-cases}
use pool_shrpnt.Prelude.Text.{codes}
use pool_shrpnt.Guests.Model.{GuestStatus, GuestUser, GuestDb}
use pool_shrpnt.Guests.Lifecycle.{has_guest_id}
use pool_shrpnt.Guests.Lifecycle.Expiry.{
  RemoveUser, is_past_expiry, is_accepted, is_expired_status, is_over, with_expired,
  remove_from_all_groups, expire_guest,
}

-- Each row is the one that its identifier finds.
abbrev pub IsKeyed : List GuestUser → Type 0
IsKeyed guests = All (λ (x : GuestUser). first (has_guest_id x.id) guests ≡ some x) guests

abbrev pub is_listed_id : List GuestUser → ℕ → Bool
is_listed_id rest guest_id = exists (λ (g : GuestUser). g.id == guest_id) rest

-- Every guest past its expiry is still to come.
abbrev pub IsAwaited : ℕ → List GuestUser → GuestUser → Type 0
IsAwaited now rest x = is_past_expiry now false x ≡ true → is_listed_id rest x.id ≡ true

All-both :
    {A : Type 0} (P Q : A → Type 0) (xs : List A) → All P xs → All Q xs → All (λ x. P x × Q x) xs
All-both P Q [] h k = tt
All-both P Q (x ∷ xs) h k = ((h.0, k.0), All-both P Q xs h.1 k.1)

All-updated :
    {A : Type 0} (P Q : A → Type 0) (q : A → Bool) (f : A → A) (xs : List A)
    → ((x : A) → P x → Q (if q x then f x else x))
    → All P xs
    → All Q (update q f xs)
All-updated P Q q f [] keep h = tt
All-updated P Q q f (x ∷ xs) keep h = (keep x h.0, All-updated P Q q f xs keep h.1)

update-IsKeyed :
    (guest_id : ℕ) (guests : List GuestUser)
    → IsKeyed guests
    → IsKeyed (update (has_guest_id guest_id) with_expired guests)
update-IsKeyed guest_id guests keyed =
    All-updated (λ (x : GuestUser). first (has_guest_id x.id) guests ≡ some x)
      (λ (x : GuestUser).
        first (has_guest_id x.id) (update (has_guest_id guest_id) with_expired guests) ≡ some x)
      (has_guest_id guest_id) with_expired guests
      (λ x h.
        let after =
          first-update (has_guest_id x.id) (has_guest_id guest_id) with_expired guests (λ _. refl)
            h in
        elim (Bool-cases (has_guest_id guest_id x)) [
          | inl hit ↦ rw hit (after ∙ rw hit refl)
          | inr miss ↦ rw miss (after ∙ rw miss refl)
        ])
      keyed

-- A guest past its expiry is accepted.
past_running :
    (now : ℕ) (x : GuestUser) → is_past_expiry now false x ≡ true → is_over x.status ≡ false
past_running now x h = elim (Option-cases x.expires_at) [
  | inl never ↦ absurd (cc (rw (never, is_past_expiry) at h))
  | inr (t, set) ↦ running x.status (leb t now) (rw (set, is_past_expiry) at h)
]
  where
    running :
        (s : GuestStatus) (b : Bool)
        → (b && (is_accepted s || (false && is_expired_status s))) ≡ true
        → is_over s ≡ false
    running s b h = ground arith

expired_not_past : (now : ℕ) (x : GuestUser) → is_past_expiry now false (with_expired x) ≡ false
expired_not_past now x = elim (Option-cases x.expires_at) [
  | inl never ↦ rw never refl
  | inr (t, set) ↦ rw set (ground arith)
]

-- A guest that is not the first one is in the rest.
later_listed :
    (guest : GuestUser) (rest : List GuestUser) (i : ℕ)
    → (guest.id == i) ≡ false
    → is_listed_id (guest ∷ rest) i ≡ true
    → is_listed_id rest i ≡ true
later_listed guest rest i other h = rw other at h

abbrev pub IsOnTrack : ℕ → List GuestUser → List GuestUser → Type 0
IsOnTrack now rest guests = IsKeyed guests × All (IsAwaited now rest) guests

-- A guest that was expired or revoked before is not awaited.
over-IsOnTrack :
    (now : ℕ) (guest : GuestUser) (rest guests : List GuestUser) {g : GuestUser}
    → first (has_guest_id guest.id) guests ≡ some g
    → is_over g.status ≡ true
    → IsOnTrack now (guest ∷ rest) guests
    → IsOnTrack now rest guests
over-IsOnTrack now guest rest guests {g} found over h = (
  h.0,
  All-map (λ x. (first (has_guest_id x.id) guests ≡ some x) × IsAwaited now (guest ∷ rest) x)
      (IsAwaited now rest) guests
      (λ x k past. elim (Bool-cases (guest.id == x.id)) [
        | inr other ↦ later_listed guest rest x.id other (k.1 past)
        | inl same ↦
            let equal : guest.id ≡ x.id = (==_iff guest.id x.id).0 same in
            let found' : first (has_guest_id x.id) guests ≡ some g =
              subst (λ i. first (has_guest_id i) guests ≡ some g) equal found in
            let own : x ≡ g = cc (found', k.0) in
            absurd (
              false≢true (
                sym (past_running now x past)
                ∙ ap (λ (y : GuestUser). is_over y.status) own
                ∙ over))
      ])
      (All-both (λ x. first (has_guest_id x.id) guests ≡ some x) (IsAwaited now (guest ∷ rest))
        guests h.0 h.1),
)

-- A guest that is expired now is not awaited any more.
expired-IsOnTrack :
    (now : ℕ) (guest : GuestUser) (rest guests : List GuestUser)
    → IsOnTrack now (guest ∷ rest) guests
    → IsOnTrack now rest (update (has_guest_id guest.id) with_expired guests)
expired-IsOnTrack now guest rest guests h = (
  update-IsKeyed guest.id guests h.0,
  All-updated (IsAwaited now (guest ∷ rest)) (IsAwaited now rest) (has_guest_id guest.id)
      with_expired guests
      (λ x k. elim (Bool-cases (has_guest_id guest.id x)) [
        | inl hit ↦ rw hit (λ past. absurd (false≢true (sym (expired_not_past now x) ∙ past)))
        | inr miss ↦
            rw miss (λ past. later_listed guest rest x.id (flipped guest.id x.id miss) (k past))
      ])
      h.1,
)
  where
    flipped : (m n : ℕ) → (n == m) ≡ false → (m == n) ≡ false
    flipped m n h = ground (arith, h)

pub expire_guest-IsOnTrack :
    (remove : RemoveUser) (now : ℕ) (guest : GuestUser) (rest : List GuestUser) (db : GuestDb)
    {g : GuestUser}
    → (expire_guest remove guest.id now db).0 ≡ ok g
    → IsOnTrack now (guest ∷ rest) db.guests
    → IsOnTrack now rest (expire_guest remove guest.id now db).1.guests
unfolding expire_guest
expire_guest-IsOnTrack remove now guest rest db {g} done h =
    elim (Option-cases (first (has_guest_id guest.id) db.guests)) [
      | inl unknown ↦ absurd (cc (rw (unknown, expire_guest) at done))
      | inr (x, found) ↦ elim (Bool-cases (is_over x.status)) [
        | inl over ↦
            rw (found, expire_guest)
              (rw over (over-IsOnTrack now guest rest db.guests found over h))
        | inr running ↦
            elim (Result-cases
              (remove_from_all_groups remove x (codes "system") now db.assignments)) [
                | inr (e, failed) ↦
                    absurd (cc (rw failed at (rw running at (rw (found, expire_guest) at done))))
                | inl (assignments, removed) ↦
                    rw (found, expire_guest)
                      (rw running (rw removed (expired-IsOnTrack now guest rest db.guests h)))
              ]
      ]
    ]
