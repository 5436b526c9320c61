-- ===== src/Orders/Ordering.antt =====
-- What `ORDER BY created_at DESC` promises of the rows of a query, and when it leaves no choice.
use pool_shrpnt.Prelude.{
  ℕ, ◌≤◌, ◌<◌, ◌≡◌, refl, sym, ◌∙◌, ap, inl, inr, List, [], ◌∷◌, arith, ◌==◌, ltb, length, Bool,
  true, Bool-cases, All,
}
use mathlib.Core.Path.{subst}
use mathlib.Core.List.{Memᴰ}
use pool_shrpnt.Prelude.Table.{count}
use pool_shrpnt.Orders.Model.{OrderEm}

-- From the last created to the first.
abbrev pub IsDescending : List OrderEm → Type 0
IsDescending [] = Unit
IsDescending (x ∷ xs) = All (λ (y : OrderEm). y.created_at ≤ x.created_at) xs × IsDescending xs

-- The rows of a query, arranged from the last created to the first.
pub record IsOrdered (found rows : List OrderEm) : Type 0 where
  pub descending : IsDescending rows
  pub same : (p : OrderEm → Bool) → count p rows ≡ count p found
  pub member : (r : OrderEm) → Memᴰ r rows → Memᴰ r found

abbrev pub is_at : ℕ → OrderEm → Bool
is_at t r = r.created_at == t

-- No two orders have the same time of creation.
abbrev pub IsDistinct : List OrderEm → Type 0
IsDistinct rows = (t : ℕ) → count (is_at t) rows ≤ 1

Memᴰ-count :
    (p : OrderEm → Bool) {r : OrderEm} (rows : List OrderEm)
    → Memᴰ r rows
    → p r ≡ true
    → 0 < count p rows
Memᴰ-count p [] member h = elim member [ ]
Memᴰ-count p (x ∷ rows) (Memᴰ.head same) h =
    let hit : p x ≡ true = subst (λ z. p z ≡ true) same h in rw hit (omega arith)
Memᴰ-count p (x ∷ rows) (Memᴰ.tail member) h = ground (arith, Memᴰ-count p rows member h)

-- Of rows with different times, two with the same time are one.
IsDistinct-same :
    (rows : List OrderEm) {r s : OrderEm}
    → ((t : ℕ) → count (is_at t) rows ≤ 1)
    → Memᴰ r rows
    → Memᴰ s rows
    → r.created_at ≡ s.created_at
    → r ≡ s
IsDistinct-same [] h in_r in_s same = elim in_r [ ]
IsDistinct-same (x ∷ rows) h (Memᴰ.head r_is) (Memᴰ.head s_is) same = r_is ∙ sym s_is
IsDistinct-same (x ∷ rows) {r} {s} h (Memᴰ.head r_is) (Memᴰ.tail in_s) same =
    let at : x.created_at ≡ s.created_at = ap (λ y. y.created_at) (sym r_is) ∙ same in
    absurd
      (ground (arith, at, h s.created_at, Memᴰ-count (is_at s.created_at) rows in_s (ground arith)))
IsDistinct-same (x ∷ rows) {r} {s} h (Memᴰ.tail in_r) (Memᴰ.head s_is) same =
    let at : x.created_at ≡ r.created_at = ap (λ y. y.created_at) (sym s_is) ∙ sym same in
    absurd
      (ground (arith, at, h r.created_at, Memᴰ-count (is_at r.created_at) rows in_r (ground arith)))
IsDistinct-same (x ∷ rows) h (Memᴰ.tail in_r) (Memᴰ.tail in_s) same =
    IsDistinct-same rows (λ t. ground (arith, h t)) in_r in_s same

none_later :
    (t m : ℕ) (rows : List OrderEm)
    → m < t
    → All (λ (y : OrderEm). y.created_at ≤ m) rows
    → count (is_at t) rows ≡ 0
none_later t m [] later h = refl
none_later t m (x ∷ rows) later h = ground (arith, h.0, none_later t m rows later h.1)

-- A time that occurs in arranged rows is not after the first.
first_is_last_created :
    (t : ℕ) (x : OrderEm) (rows : List OrderEm)
    → IsDescending (x ∷ rows)
    → 0 < count (is_at t) (x ∷ rows)
    → t ≤ x.created_at
first_is_last_created t x rows h some_at = elim (Bool-cases (ltb x.created_at t)) [
  | inr before ↦ ground (arith, before)
  | inl later ↦
      let none_at = none_later t x.created_at rows (ground (arith, later)) h.0 in
      absurd (ground (arith, none_at, later, some_at))
]

-- Rows that are arranged twice come out the same, if the time tells them apart.
arranged_once :
    (xs ys : List OrderEm)
    → IsDescending xs
    → IsDescending ys
    → ((p : OrderEm → Bool) → count p xs ≡ count p ys)
    → ((r s : OrderEm) → Memᴰ r xs → Memᴰ s ys → r.created_at ≡ s.created_at → r ≡ s)
    → xs ≡ ys
arranged_once [] [] dx dy same one = refl
arranged_once [] (y ∷ ys) dx dy same one = absurd (omega (arith, same (λ r. true)))
arranged_once (x ∷ xs) [] dx dy same one = absurd (omega (arith, same (λ r. true)))
arranged_once (x ∷ xs) (y ∷ ys) dx dy same one =
    let in_ys =
      first_is_last_created x.created_at y ys dy (ground (arith, same (is_at x.created_at))) in
    let in_xs =
      first_is_last_created y.created_at x xs dx (ground (arith, same (is_at y.created_at))) in
    let first_same : x ≡ y =
      one x y (Memᴰ.head refl) (Memᴰ.head refl) (omega (arith, in_ys, in_xs)) in
    let rest : xs ≡ ys =
      arranged_once xs ys dx.1 dy.1
        (λ p.
          let h : count p (x ∷ xs) ≡ count p (x ∷ ys) =
            subst (λ z. count p (x ∷ xs) ≡ count p (z ∷ ys)) (sym first_same) (same p) in
          ground (arith, h))
        (λ r s in_r in_s. one r s (Memᴰ.tail in_r) (Memᴰ.tail in_s)) in
    ap (λ z. z ∷ xs) first_same ∙ ap (λ l. y ∷ l) rest

-- Where no two orders found have the same time of creation, every query arranges them alike.
pub IsOrdered-unique :
    {found xs ys : List OrderEm}
    → IsDistinct found
    → IsOrdered found xs
    → IsOrdered found ys
    → xs ≡ ys
IsOrdered-unique {found} {xs} {ys} distinct h k =
    arranged_once xs ys h.descending k.descending (λ p. h.same p ∙ sym (k.same p))
      (λ r s in_r in_s. IsDistinct-same found distinct (h.member r in_r) (k.member s in_s))

length-count : (rows : List OrderEm) → length rows ≡ count (λ r. true) rows
length-count [] = refl
length-count (x ∷ rows) = omega (arith, length-count rows)

pub length-IsOrdered :
    {found rows : List OrderEm} → IsOrdered found rows → length rows ≡ length found
length-IsOrdered {found} {rows} h =
    length-count rows ∙ h.same (λ r. true) ∙ sym (length-count found)
