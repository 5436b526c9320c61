-- ===== src/Prelude/Table/Searches.antt =====
-- What the queries find, before and after inserts and updates.
use mathlib.Core.Path.{◌≡◌, refl, sym, ap, subst}
use mathlib.Core.Logic.{inl, inr}
use mathlib.Core.Bool.{Bool, true, false, ◌&&◌, false≢true}
use mathlib.Core.Option.{none, some}
use mathlib.Core.List.{List, [], ◌∷◌}
use native.Mathlib.Omega.{arith}
use pool_shrpnt.Prelude.Tests.{if◌then◌else◌, Bool-cases}
use pool_shrpnt.Prelude.Table.Rows.{select, first, update, exists, insert}

module _ {ℓ} {A : Type ℓ} where
  pub exists-insert :
      (p : A → Bool) (r : A) (rs : List A)
      → exists p (insert r rs) ≡ (if exists p rs then true else p r)
  exists-insert p r [] = ground arith
  exists-insert p r (x ∷ rs) = ground (arith, exists-insert p r rs)

  -- What `first` finds satisfies the test.
  pub first-some : (p : A → Bool) (rs : List A) {r : A} → first p rs ≡ some r → p r ≡ true
  first-some p [] h = cc
  first-some p (x ∷ rs) {r} h = elim (Bool-cases (p x)) [
    | inl e ↦ ground arith
    | inr e ↦ first-some p rs (rw e at h)
  ]

  pub first-insert :
      (p : A → Bool) (r : A) (rs : List A)
      → first p rs ≡ none
      → first p (insert r rs) ≡ (if p r then some r else none)
  first-insert p r [] h = ground arith
  first-insert p r (x ∷ rs) h = ground (arith, first-insert p r rs)

  -- A stronger test finds nothing where a weaker one finds nothing, and the same row if that
  -- passes it.
  pub first-weaken :
      (p q : A → Bool) (rs : List A)
      → ((x : A) → p x ≡ true → q x ≡ true)
      → first q rs ≡ none
      → first p rs ≡ none
  first-weaken p q [] imp h = refl
  first-weaken p q (x ∷ rs) imp h = ground (arith, imp x, first-weaken p q rs imp)

  pub first-refine :
      (p q : A → Bool) (rs : List A) {r : A}
      → ((x : A) → p x ≡ true → q x ≡ true)
      → first q rs ≡ some r
      → p r ≡ true
      → first p rs ≡ some r
  first-refine p q [] imp h e = cc
  first-refine p q (x ∷ rs) {r} imp h e = elim (Bool-cases (q x)) [
    | inl yes_x ↦
        let k : x ≡ r = cc (rw yes_x at h) in rw (subst (λ y. p y ≡ true) (sym k) e) (ap some k)
    | inr no_x ↦ ground (arith, imp x, first-refine p q rs {r = r} imp (rw no_x at h) e)
  ]

  -- Writes that do not change the test do not change which row is first.
  pub first-update-none :
      (p q : A → Bool) (f : A → A) (rs : List A)
      → ((x : A) → p (f x) ≡ p x)
      → first p rs ≡ none
      → first p (update q f rs) ≡ none
  first-update-none p q f [] keep h = refl
  first-update-none p q f (x ∷ rs) keep h = ground (arith, keep x, first-update-none p q f rs keep)

  pub first-update :
      (p q : A → Bool) (f : A → A) (rs : List A) {r : A}
      → ((x : A) → p (f x) ≡ p x)
      → first p rs ≡ some r
      → first p (update q f rs) ≡ some (if q r then f r else r)
  first-update p q f [] keep h = cc
  first-update p q f (x ∷ rs) {r} keep h = elim (Bool-cases (p x)) [
    | inl yes_x ↦
        let k : x ≡ r = cc (rw yes_x at h) in
        subst (λ y. first p (update q f (x ∷ rs)) ≡ some (if q y then f y else y)) k
          (ground (arith, keep x))
    | inr no_x ↦ ground (arith, keep x, first-update p q f rs {r = r} keep (rw no_x at h))
  ]

  -- A search of the selected rows is a search for both tests.
  pub exists-select :
      (p q : A → Bool) (rs : List A) → exists p (select q rs) ≡ exists (λ x. q x && p x) rs
  exists-select p q [] = refl
  exists-select p q (x ∷ rs) = ground (arith, exists-select p q rs)

  -- Rows that fail a test which an update leaves alone are not written by it.
  pub select-update_other :
      (p q : A → Bool) (f : A → A) (rs : List A)
      → ((x : A) → q x ≡ true → p x ≡ false)
      → ((x : A) → q x ≡ true → p (f x) ≡ false)
      → select p (update q f rs) ≡ select p rs
  select-update_other p q f [] old new = refl
  select-update_other p q f (x ∷ rs) old new =
      ground (arith, old x, new x, select-update_other p q f rs old new)

  pub exists-first :
      (p q : A → Bool) (rs : List A) {r : A} → first p rs ≡ some r → q r ≡ true → exists q rs ≡ true
  exists-first p q [] h e = cc
  exists-first p q (x ∷ rs) {r} h e = elim (Bool-cases (p x)) [
    | inl hit ↦
        let k : r ≡ x = cc (rw hit at h) in
        let qx : q x ≡ true = subst (λ y. q y ≡ true) k e in ground (arith, qx)
    | inr miss ↦ ground (arith, exists-first p q rs {r = r} (rw miss at h) e)
  ]

  pub select-cons :
      (q : A → Bool) (rs : List A)
      → exists q rs ≡ true
      → (x : A) × (xs : List A) × (select q rs ≡ x ∷ xs)
  select-cons q [] h = absurd (false≢true h)
  select-cons q (x ∷ rs) h = elim (Bool-cases (q x)) [
    | inl hit ↦ (x, select q rs, rw hit)
    | inr miss ↦ rw miss (select-cons q rs (rw miss at h))
  ]

  pub select-nil : (q : A → Bool) (rs : List A) → exists q rs ≡ false → select q rs ≡ []
  select-nil q [] h = refl
  select-nil q (x ∷ rs) h = ground (arith, select-nil q rs)

  pub exists-update_keep :
      (p q : A → Bool) (f : A → A) (rs : List A)
      → ((x : A) → q x ≡ true → p x ≡ false)
      → ((x : A) → q x ≡ true → p (f x) ≡ false)
      → exists p (update q f rs) ≡ exists p rs
  exists-update_keep p q f [] old new = refl
  exists-update_keep p q f (x ∷ rs) old new =
      ground (arith, old x, new x, exists-update_keep p q f rs old new)

  -- Writes that do not change a test do not change whether a row passes it.
  pub exists-update_same :
      (p q : A → Bool) (f : A → A) (rs : List A)
      → ((x : A) → p (f x) ≡ p x)
      → exists p (update q f rs) ≡ exists p rs
  exists-update_same p q f [] keep = refl
  exists-update_same p q f (x ∷ rs) keep = ground (arith, keep x, exists-update_same p q f rs keep)

  pub first-exists : (p : A → Bool) (rs : List A) → exists p rs ≡ false → first p rs ≡ none
  first-exists p [] h = refl
  first-exists p (x ∷ rs) h = ground (arith, first-exists p rs)

  pub exists-first-some :
      (p : A → Bool) (rs : List A) {r : A} → first p rs ≡ some r → exists p rs ≡ true
  exists-first-some p [] h = cc
  exists-first-some p (x ∷ rs) {r} h = ground (arith, exists-first-some p rs {r = r})

  pub exists-first-none : (p : A → Bool) (rs : List A) → first p rs ≡ none → exists p rs ≡ false
  exists-first-none p [] h = refl
  exists-first-none p (x ∷ rs) h = ground (arith, exists-first-none p rs)
