-- ===== src/Orders/Sorting.antt =====
-- A way of arranging orders that keeps the promise of `ORDER BY created_at DESC`: equal times in the
-- order of the table.
use pool_shrpnt.Prelude.{
  ◌≤◌, ◌≡◌, refl, inl, inr, List, [], ◌∷◌, arith, leb, Bool, Bool-cases, All, All-map,
  if◌then◌else◌,
}
use mathlib.Core.List.{Memᴰ}
use pool_shrpnt.Prelude.Table.{count}
use pool_shrpnt.Orders.Model.{OrderEm}
use pool_shrpnt.Orders.Ordering.{IsDescending, IsOrdered}

unfoldable pub place_order : OrderEm → List OrderEm → List OrderEm
place_order r [] = r ∷ []
place_order r (x ∷ xs) = if leb x.created_at r.created_at then r ∷ x ∷ xs else x ∷ place_order r xs

unfoldable pub order_by_created : List OrderEm → List OrderEm
unfolding place_order
order_by_created [] = []
order_by_created (r ∷ rs) = place_order r (order_by_created rs)

All-place_order :
    (P : OrderEm → Type 0) (r : OrderEm) (rs : List OrderEm)
    → P r
    → All P rs
    → All P (place_order r rs)
unfolding place_order
All-place_order P r [] h hs = (h, tt)
All-place_order P r (x ∷ rs) h hs = elim (Bool-cases (leb x.created_at r.created_at)) [
  | inl before ↦ rw before (h, hs)
  | inr behind ↦ rw behind (hs.0, All-place_order P r rs h hs.1)
]

place_order-IsDescending :
    (r : OrderEm) (rs : List OrderEm) → IsDescending rs → IsDescending (place_order r rs)
unfolding place_order
place_order-IsDescending r [] h = (tt, tt)
place_order-IsDescending r (x ∷ rs) h = elim (Bool-cases (leb x.created_at r.created_at)) [
  | inl before ↦
      let first_of : x.created_at ≤ r.created_at = ground (arith, before) in
      let others =
        All-map (λ y. y.created_at ≤ x.created_at) (λ y. y.created_at ≤ r.created_at) rs
          (λ y le. omega (arith, le, first_of)) h.0 in
      rw before ((first_of, others), h)
  | inr behind ↦
      let first_of : r.created_at ≤ x.created_at = ground (arith, behind) in
      rw behind (
        All-place_order (λ y. y.created_at ≤ x.created_at) r rs first_of h.0,
        place_order-IsDescending r rs h.1,
      )
]

order_by_created-IsDescending : (rs : List OrderEm) → IsDescending (order_by_created rs)
unfolding order_by_created
order_by_created-IsDescending [] = tt
order_by_created-IsDescending (r ∷ rs) =
    place_order-IsDescending r (order_by_created rs) (order_by_created-IsDescending rs)

count-place_order :
    (p : OrderEm → Bool) (r : OrderEm) (rs : List OrderEm)
    → count p (place_order r rs) ≡ count p (r ∷ rs)
unfolding place_order
count-place_order p r [] = refl
count-place_order p r (x ∷ rs) = elim (Bool-cases (leb x.created_at r.created_at)) [
  | inl before ↦ rw before refl
  | inr behind ↦ rw behind (omega (arith, count-place_order p r rs))
]

count-order_by_created :
    (p : OrderEm → Bool) (rs : List OrderEm) → count p (order_by_created rs) ≡ count p rs
unfolding order_by_created
count-order_by_created p [] = refl
count-order_by_created p (r ∷ rs) =
    omega (arith, count-place_order p r (order_by_created rs), count-order_by_created p rs)

-- Membership behind a change of the first rows.
swap_first :
    (r y : OrderEm) (rs : List OrderEm) {x : OrderEm} → Memᴰ x (r ∷ rs) → Memᴰ x (r ∷ y ∷ rs)
swap_first r y rs (Memᴰ.head same) = Memᴰ.head same
swap_first r y rs (Memᴰ.tail member) = Memᴰ.tail (Memᴰ.tail member)

behind_first :
    (r y : OrderEm) {placed rs : List OrderEm} {x : OrderEm}
    → (Memᴰ x placed → Memᴰ x (r ∷ rs))
    → Memᴰ x (y ∷ placed)
    → Memᴰ x (r ∷ y ∷ rs)
behind_first r y on (Memᴰ.head same) = Memᴰ.tail (Memᴰ.head same)
behind_first r y {rs = rs} on (Memᴰ.tail member) = swap_first r y rs (on member)

keep_first :
    (r : OrderEm) {xs ys : List OrderEm} {x : OrderEm}
    → (Memᴰ x xs → Memᴰ x ys)
    → Memᴰ x (r ∷ xs)
    → Memᴰ x (r ∷ ys)
keep_first r on (Memᴰ.head same) = Memᴰ.head same
keep_first r on (Memᴰ.tail member) = Memᴰ.tail (on member)

place_order-member :
    (r : OrderEm) (rs : List OrderEm) {x : OrderEm} → Memᴰ x (place_order r rs) → Memᴰ x (r ∷ rs)
unfolding place_order
place_order-member r [] member = member
place_order-member r (y ∷ rs) {x} member = elim (Bool-cases (leb y.created_at r.created_at)) [
  | inl before ↦ rw before at member
  | inr behind ↦ behind_first r y (place_order-member r rs) (rw behind at member)
]

order_by_created-member :
    (rs : List OrderEm) (x : OrderEm) → Memᴰ x (order_by_created rs) → Memᴰ x rs
unfolding order_by_created
order_by_created-member [] x member = member
order_by_created-member (r ∷ rs) x member =
    keep_first r (order_by_created-member rs x) (place_order-member r (order_by_created rs) member)

pub order_by_created-IsOrdered : (found : List OrderEm) → IsOrdered found (order_by_created found)
order_by_created-IsOrdered found = record {
  descending = order_by_created-IsDescending found;
  same = λ p. count-order_by_created p found;
  member = order_by_created-member found;
}
