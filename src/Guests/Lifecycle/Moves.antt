-- ===== src/Guests/Lifecycle/Moves.antt =====
-- What a call of the lifecycle service does to the guests, and what that leaves true.
use pool_shrpnt.Prelude.{
  ℕ, ◌+◌, ◌≡◌, refl, sym, ◌∙◌, ap, true, false, inl, inr, List, [], ◌∷◌, some, arith, All,
  Bool-cases, ◌==◌, ==_iff,
}
use mathlib.Core.Path.{subst}
use mathlib.Core.Bool.{false≢true}
use pool_shrpnt.Prelude.Table.{first, update, insert, count, count-insert, first-some, first-update}
use pool_shrpnt.Guests.Model.{GuestUser, GuestExtension, GuestDb}
use pool_shrpnt.Guests.Lifecycle.{has_guest_id, is_closed, of_guest}

-- Each guest has as many extension records as its counter says.
abbrev pub IsCounted : List GuestUser → List GuestExtension → Type 0
IsCounted guests extensions =
    All (λ (g : GuestUser). count (of_guest g.id) extensions ≡ g.extended_count) guests

-- What a call does to the guests and their extensions: nothing, or a change of one guest that is neither
-- revoked nor purged, with or without an extension record.
pub data Moves (db db' : GuestDb) : Type 0 where
  stays : db'.guests ≡ db.guests → db'.extensions ≡ db.extensions → Moves db db'
  changes :
      (guest_id : ℕ) {g : GuestUser} (f : GuestUser → GuestUser)
      → first (has_guest_id guest_id) db.guests ≡ some g
      → is_closed g.status ≡ false
      → ((x : GuestUser) → (f x).id ≡ x.id)
      → ((x : GuestUser) → (f x).extended_count ≡ x.extended_count)
      → db'.guests ≡ update (has_guest_id guest_id) f db.guests
      → db'.extensions ≡ db.extensions
      → Moves db db'
  extends :
      (guest_id : ℕ) (e : GuestExtension) {g : GuestUser} (f : GuestUser → GuestUser)
      → first (has_guest_id guest_id) db.guests ≡ some g
      → is_closed g.status ≡ false
      → ((x : GuestUser) → (f x).id ≡ x.id)
      → ((x : GuestUser) → (f x).extended_count ≡ x.extended_count + 1)
      → e.guest_user_id ≡ guest_id
      → db'.guests ≡ update (has_guest_id guest_id) f db.guests
      → db'.extensions ≡ insert e db.extensions
      → Moves db db'

update-IsCounted :
    (guest_id : ℕ) (f : GuestUser → GuestUser) (guests : List GuestUser)
    (extensions : List GuestExtension)
    → ((x : GuestUser) → (f x).id ≡ x.id)
    → ((x : GuestUser) → (f x).extended_count ≡ x.extended_count)
    → IsCounted guests extensions
    → IsCounted (update (has_guest_id guest_id) f guests) extensions
update-IsCounted guest_id f [] extensions same keeps h = tt
update-IsCounted guest_id f (g ∷ guests) extensions same keeps h =
    let rest = update-IsCounted guest_id f guests extensions same keeps h.1 in
    elim (Bool-cases (has_guest_id guest_id g)) [
      | inl hit ↦
          rw hit (ap (λ i. count (of_guest i) extensions) (same g) ∙ h.0 ∙ sym (keeps g), rest)
      | inr miss ↦ rw miss (h.0, rest)
    ]

insert-IsCounted :
    (guest_id : ℕ) (e : GuestExtension) (f : GuestUser → GuestUser) (guests : List GuestUser)
    (extensions : List GuestExtension)
    → e.guest_user_id ≡ guest_id
    → ((x : GuestUser) → (f x).id ≡ x.id)
    → ((x : GuestUser) → (f x).extended_count ≡ x.extended_count + 1)
    → IsCounted guests extensions
    → IsCounted (update (has_guest_id guest_id) f guests) (insert e extensions)
insert-IsCounted guest_id e f [] extensions own same grows h = tt
insert-IsCounted guest_id e f (g ∷ guests) extensions own same grows h =
    let rest = insert-IsCounted guest_id e f guests extensions own same grows h.1 in
    let grown = count-insert (of_guest g.id) e extensions in
    elim (Bool-cases (has_guest_id guest_id g)) [
      | inl hit ↦ rw hit (
        ap (λ i. count (of_guest i) (insert e extensions)) (same g)
            ∙ ground (arith, grown, own, hit, h.0, grows g),
        rest,
      )
      | inr miss ↦ rw miss (ground (arith, grown, own, miss, h.0), rest)
    ]

pub Moves-IsCounted :
    {db db' : GuestDb}
    → Moves db db'
    → IsCounted db.guests db.extensions
    → IsCounted db'.guests db'.extensions
Moves-IsCounted {db} {db'} (stays guests extensions) h = rw guests (rw extensions h)
Moves-IsCounted {db} {db'} (changes i f found open_status same keeps guests extensions) h =
    rw guests (rw extensions (update-IsCounted i f db.guests db.extensions same keeps h))
Moves-IsCounted {db} {db'} (extends i e f found open_status same grows own guests extensions) h =
    rw guests (rw extensions (insert-IsCounted i e f db.guests db.extensions own same grows h))

-- A change of one guest leaves the row of another alone.
update_other :
    (guest_id i : ℕ) (f : GuestUser → GuestUser) (guests : List GuestUser) {g r : GuestUser}
    → ((x : GuestUser) → (f x).id ≡ x.id)
    → first (has_guest_id guest_id) guests ≡ some g
    → is_closed g.status ≡ false
    → first (has_guest_id i) guests ≡ some r
    → is_closed r.status ≡ true
    → first (has_guest_id i) (update (has_guest_id guest_id) f guests) ≡ some r
update_other guest_id i f guests {g} {r} same found open_status kept closed_status =
    let after =
      first-update (has_guest_id i) (has_guest_id guest_id) f guests
        (λ x. ap (λ n. n == i) (same x)) kept in
    elim (Bool-cases (has_guest_id guest_id r)) [
      | inr other ↦ after ∙ rw other refl
      | inl hit ↦
          let own : r.id ≡ guest_id = (==_iff r.id guest_id).0 hit in
          let named : r.id ≡ i = (==_iff r.id i).0 (first-some (has_guest_id i) guests kept) in
          let one : guest_id ≡ i = sym own ∙ named in
          let found' : first (has_guest_id i) guests ≡ some g =
            subst (λ k. first (has_guest_id k) guests ≡ some g) one found in
          let equal : g ≡ r = cc (found', kept) in
          absurd (
            false≢true
              (sym open_status ∙ ap (λ (x : GuestUser). is_closed x.status) equal ∙ closed_status))
    ]

pub Moves-keeps :
    {db db' : GuestDb} (i : ℕ) {r : GuestUser}
    → Moves db db'
    → first (has_guest_id i) db.guests ≡ some r
    → is_closed r.status ≡ true
    → first (has_guest_id i) db'.guests ≡ some r
Moves-keeps {db} {db'} i (stays guests extensions) kept closed_status = rw guests kept
Moves-keeps {db} {db'} i (changes j f found open_status same keeps guests extensions) kept
      closed_status =
    rw guests (update_other j i f db.guests same found open_status kept closed_status)
Moves-keeps {db} {db'} i (extends j e f found open_status same grows own guests extensions) kept
      closed_status =
    rw guests (update_other j i f db.guests same found open_status kept closed_status)
