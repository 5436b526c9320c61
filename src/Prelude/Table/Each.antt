-- ===== src/Prelude/Table/Each.antt =====
-- Predicates on every row.
use mathlib.Core.Path.{◌≡◌, sym, ◌∙◌, subst}
use mathlib.Core.Logic.{inl, inr}
use mathlib.Core.Bool.{Bool, true, false≢true}
use mathlib.Core.Option.{some}
use mathlib.Core.List.{List, [], ◌∷◌}
use pool_shrpnt.Prelude.Tests.{Bool-cases}
use pool_shrpnt.Prelude.Lists.{All}
use pool_shrpnt.Prelude.Table.Rows.{select, first, update, insert}

module _ {ℓ} {A : Type ℓ} where
  pub All-insert {κ} : (P : A → Type κ) (r : A) (rs : List A) → All P rs → P r → All P (insert r rs)
  All-insert P r [] h k = (k, tt)
  All-insert P r (x ∷ rs) h k = (h.0, All-insert P r rs h.1 k)

  pub All-update {κ} :
      (P : A → Type κ) (q : A → Bool) (f : A → A) (rs : List A)
      → ((x : A) → q x ≡ true → P x → P (f x))
      → All P rs
      → All P (update q f rs)
  All-update P q f [] keep h = tt
  All-update P q f (x ∷ rs) keep h = elim (Bool-cases (q x)) [
    | inl e ↦ rw e (keep x e h.0, All-update P q f rs keep h.1)
    | inr e ↦ rw e (h.0, All-update P q f rs keep h.1)
  ]

  pub All-select {κ} :
      (P : A → Type κ) (q : A → Bool) (rs : List A) → All P rs → All P (select q rs)
  All-select P q [] h = tt
  All-select P q (x ∷ rs) h = elim (Bool-cases (q x)) [
    | inl e ↦ rw e (h.0, All-select P q rs h.1)
    | inr e ↦ rw e (All-select P q rs h.1)
  ]

  -- What `first` finds is one of the rows.
  pub All-first {κ} :
      (P : A → Type κ) (q : A → Bool) (rs : List A) {r : A} → All P rs → first q rs ≡ some r → P r
  All-first P q [] h e = cc
  All-first P q (x ∷ rs) {r} h e = elim (Bool-cases (q x)) [
    | inl yes_x ↦ subst P (cc (rw yes_x at e)) h.0
    | inr no_x ↦ All-first P q rs h.1 (rw no_x at e)
  ]

  -- What an update establishes on the rows that it writes.
  pub update-All :
      (q : A → Bool) (p : A → Bool) (f : A → A) (rs : List A)
      → ((x : A) → q (f x) ≡ q x)
      → ((x : A) → p (f x) ≡ true)
      → All (λ x. q x ≡ true → p x ≡ true) (update q f rs)
  update-All q p f [] keep sets = tt
  update-All q p f (x ∷ rs) keep sets = elim (Bool-cases (q x)) [
    | inl hit ↦ rw hit ((λ _. sets x), update-All q p f rs keep sets)
    | inr miss ↦ rw miss ((λ e. cc), update-All q p f rs keep sets)
  ]

  pub All-update_set {κ} :
      (P : A → Type κ) (q : A → Bool) (f : A → A) (rs : List A)
      → ((x : A) → q (f x) ≡ q x)
      → ((x : A) → P (f x))
      → All (λ x. q x ≡ true → P x) (update q f rs)
  All-update_set P q f [] keep sets = tt
  All-update_set P q f (x ∷ rs) keep sets = elim (Bool-cases (q x)) [
    | inl hit ↦ rw hit ((λ _. sets x), All-update_set P q f rs keep sets)
    | inr miss ↦
        rw miss ((λ e. absurd (false≢true (sym miss ∙ e))), All-update_set P q f rs keep sets)
  ]
