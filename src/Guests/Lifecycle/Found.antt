-- ===== src/Guests/Lifecycle/Found.antt =====
-- The search for expired guests finds every guest past its expiry.
use pool_shrpnt.Prelude.{
  ℕ, ◌≡◌, refl, sym, ◌∙◌, Bool, true, false, ◌&&◌, inl, inr, List, [], ◌∷◌, none, arith, All,
  All-map, Bool-cases, ◌==◌, leb,
}
use mathlib.Core.Path.{subst}
use mathlib.Core.Bool.{false≢true}
use pool_shrpnt.Prelude.Table.{select, exists}
use pool_shrpnt.Guests.Model.{GuestUser, GuestDb}
use pool_shrpnt.Guests.Lifecycle.Expiry.{
  is_past_expiry, passes_partner, expiry_or_zero, place_guest, order_by_expiry, find_expired_guests,
}
use pool_shrpnt.Guests.Lifecycle.Track.{IsAwaited, is_listed_id}

-- The guests past their expiry are found, in another order.
exists-place_guest :
    (p : GuestUser → Bool) (g : GuestUser) (gs : List GuestUser)
    → exists p (place_guest g gs) ≡ exists p (g ∷ gs)
unfolding place_guest
exists-place_guest p g [] = refl
exists-place_guest p g (x ∷ xs) = elim (Bool-cases (leb (expiry_or_zero g) (expiry_or_zero x))) [
  | inl before ↦ rw before refl
  | inr behind ↦ rw behind (ground (arith, exists-place_guest p g xs))
]

exists-order_by_expiry :
    (p : GuestUser → Bool) (gs : List GuestUser) → exists p (order_by_expiry gs) ≡ exists p gs
unfolding order_by_expiry
exists-order_by_expiry p [] = refl
exists-order_by_expiry p (g ∷ gs) =
    exists-place_guest p g (order_by_expiry gs) ∙ rw (exists-order_by_expiry p gs) refl

abbrev AreListed : (GuestUser → Bool) → List GuestUser → List GuestUser → Type 0
AreListed q found gs = All (λ (x : GuestUser). q x ≡ true → is_listed_id found x.id ≡ true) gs

selected_listed : (q : GuestUser → Bool) (gs : List GuestUser) → AreListed q (select q gs) gs
selected_listed q [] = tt
selected_listed q (g ∷ gs) =
    let rest = selected_listed q gs in
    elim (Bool-cases (q g)) [
      | inl hit ↦
          let taken : g ∷ select q gs ≡ select q (g ∷ gs) = rw hit refl in
          subst (λ found. AreListed q found (g ∷ gs)) taken
            (
              (λ _. ground arith),
              All-map (λ (x : GuestUser). q x ≡ true → is_listed_id (select q gs) x.id ≡ true)
                  (λ (x : GuestUser). q x ≡ true → is_listed_id (g ∷ select q gs) x.id ≡ true) gs
                  (λ x h k. let listed = h k in ground (arith, listed)) rest,
            )
      | inr miss ↦
          let left_out : select q gs ≡ select q (g ∷ gs) = rw miss refl in
          subst (λ found. AreListed q found (g ∷ gs)) left_out
            ((λ k. absurd (false≢true (sym miss ∙ k))), rest)
    ]

pub All-IsAwaited :
    (now : ℕ) (db : GuestDb) → All (IsAwaited now (find_expired_guests none false now db)) db.guests
unfolding find_expired_guests
All-IsAwaited now db =
    let q = λ (g : GuestUser). is_past_expiry now false g && passes_partner none g in
    All-map (λ (x : GuestUser). q x ≡ true → is_listed_id (select q db.guests) x.id ≡ true)
      (IsAwaited now (order_by_expiry (select q db.guests))) db.guests
      (λ x h past.
        exists-order_by_expiry (λ g. g.id == x.id) (select q db.guests) ∙ h (rw past refl))
      (selected_listed q db.guests)
