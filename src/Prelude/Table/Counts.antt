-- ===== src/Prelude/Table/Counts.antt =====
-- How many rows satisfy a test, before and after inserts and updates.
use Prim.Native.Nat.{◌+◌, ◌≤◌, ◌<◌}
use mathlib.Core.Path.{◌≡◌, refl, subst}
use mathlib.Core.Logic.{inl, inr}
use mathlib.Core.Bool.{Bool, true, false}
use mathlib.Core.Option.{none, some}
use mathlib.Core.List.{List, [], ◌∷◌, map}
use native.Mathlib.Omega.{arith}
use pool_shrpnt.Prelude.Tests.{if◌then◌else◌, Bool-cases}
use pool_shrpnt.Prelude.Lists.{length}
use pool_shrpnt.Prelude.Table.Rows.{select, first, update, exists, count, insert}

module _ {ℓ} {A : Type ℓ} where
  pub count-insert :
      (p : A → Bool) (r : A) (rs : List A)
      → count p (insert r rs) ≡ count p rs + (if p r then 1 else 0)
  count-insert p r [] = ground arith
  count-insert p r (x ∷ rs) = omega (arith, count-insert p r rs)

  pub exists-count : (p : A → Bool) (rs : List A) → exists p rs ≡ false → count p rs ≡ 0
  exists-count p [] h = refl
  exists-count p (x ∷ rs) h = ground (arith, exists-count p rs)

  pub first-none : (p : A → Bool) (rs : List A) → first p rs ≡ none → count p rs ≡ 0
  first-none p [] h = refl
  first-none p (x ∷ rs) h = ground (arith, first-none p rs)

  -- An update that ends `p` leaves no row that satisfies both tests, and adds none.
  pub count-update_off :
      (p q : A → Bool) (f : A → A) (rs : List A)
      → ((x : A) → p (f x) ≡ false)
      → count p (update q f rs) ≤ count p rs
  count-update_off p q f [] off = omega arith
  count-update_off p q f (x ∷ rs) off = ground (arith, off x, count-update_off p q f rs off)

  pub count-update_keep :
      (p q : A → Bool) (f : A → A) (rs : List A)
      → ((x : A) → p (f x) ≡ p x)
      → count p (update q f rs) ≡ count p rs
  count-update_keep p q f [] keep = refl
  count-update_keep p q f (x ∷ rs) keep = ground (arith, keep x, count-update_keep p q f rs keep)

  -- An update that ends `p` at the row that `first p` found takes at least one away.
  pub count-update-first :
      (p q : A → Bool) (f : A → A) (rs : List A) {r : A}
      → ((x : A) → p (f x) ≡ false)
      → first p rs ≡ some r
      → q r ≡ true
      → count p (update q f rs) < count p rs
  count-update-first p q f [] off h e = cc
  count-update-first p q f (x ∷ rs) {r} off h e = elim (Bool-cases (p x)) [
    | inl px ↦ ground (arith, off x, count-update_off p q f rs off)
    | inr px ↦ ground (arith, off x, count-update-first p q f rs {r = r} off (rw px at h) e)
  ]

  -- An update of the very rows that satisfy `p` that ends `p` leaves none of them.
  pub count-update_gone :
      (p : A → Bool) (f : A → A) (rs : List A)
      → ((x : A) → p (f x) ≡ false)
      → count p (update p f rs) ≡ 0
  count-update_gone p f [] off = refl
  count-update_gone p f (x ∷ rs) off = ground (arith, off x, count-update_gone p f rs off)

  pub length-map-select {κ} :
      {B : Type κ} (p : A → Bool) (g : A → B) (rs : List A)
      → length (map g (select p rs)) ≡ count p rs
  length-map-select p g [] = refl
  length-map-select p g (x ∷ rs) = ground (arith, length-map-select p g rs)

  pub select-count_zero : (p : A → Bool) (rs : List A) → count p rs ≡ 0 → select p rs ≡ []
  select-count_zero p [] h = refl
  select-count_zero p (x ∷ rs) h = ground (arith, select-count_zero p rs)

  pub count-first : (p : A → Bool) (rs : List A) → count p rs ≡ 0 → first p rs ≡ none
  count-first p [] h = refl
  count-first p (x ∷ rs) h = ground (arith, count-first p rs)

  -- The same as `count-update-first`, for a row that another search has found.
  pub count-update_found :
      (p q s : A → Bool) (f : A → A) (rs : List A) {r : A}
      → ((x : A) → p (f x) ≡ false)
      → first s rs ≡ some r
      → p r ≡ true
      → q r ≡ true
      → count p (update q f rs) < count p rs
  count-update_found p q s f [] off h ep eq = cc
  count-update_found p q s f (x ∷ rs) {r} off h ep eq = elim (Bool-cases (s x)) [
    | inl hit ↦
        let k : r ≡ x = cc (rw hit at h) in
        let px : p x ≡ true = subst (λ y. p y ≡ true) k ep in
        let qx : q x ≡ true = subst (λ y. q y ≡ true) k eq in
        ground (arith, px, qx, off x, count-update_off p q f rs off)
    | inr miss ↦
        ground (arith, off x, count-update_found p q s f rs {r = r} off (rw miss at h) ep eq)
  ]
