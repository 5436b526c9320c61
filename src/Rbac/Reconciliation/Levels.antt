-- ===== src/Rbac/Reconciliation/Levels.antt =====
-- The level that the names of SharePoint roles stand for.
use pool_shrpnt.Prelude.{
  ◌≤◌, ◌≡◌, refl, sym, ◌∙◌, ap, Bool, true, false, inl, inr, List, [], ◌∷◌, none, some, arith, ltb,
  All, Bool-cases, Option-cases,
}
use mathlib.Core.Path.{subst}
use pool_shrpnt.Prelude.Text.{Text}
use pool_shrpnt.Prelude.Table.{exists}
use pool_shrpnt.Rbac.Model.{PermissionLevel, level_eq, level_eq_refl}
use pool_shrpnt.Rbac.PermissionEngine.{rank}
use pool_shrpnt.Rbac.Reconciliation.Actual.{
  lower, permission_mapping, mapped_permissions, max_level, map_sharepoint_roles,
}

module _ {A : Type 0} (p : A → Bool) where
  exists_later : (x : A) (xs : List A) → exists p xs ≡ true → exists p (x ∷ xs) ≡ true
  exists_later x xs h = ground (arith, h)

  exists_beside : (x y : A) (xs : List A) → exists p (x ∷ xs) ≡ true → exists p (x ∷ y ∷ xs) ≡ true
  exists_beside x y xs h = ground (arith, h)

-- The greatest of a level and the levels behind it: none of them is above it, and it is one of them.
abbrev IsTop : PermissionLevel → List PermissionLevel → PermissionLevel → Type 0
IsTop level ls top =
    (rank level ≤ rank top)
    × (All (λ l. rank l ≤ rank top) ls)
    × (exists (λ l. level_eq l top) (level ∷ ls) ≡ true)

module _ (level l : PermissionLevel) (ls : List PermissionLevel) where
  max_level-more : ltb (rank level) (rank l) ≡ true → max_level l ls ≡ max_level level (l ∷ ls)
  unfolding max_level
  max_level-more h = rw h refl

  max_level-less : ltb (rank level) (rank l) ≡ false → max_level level ls ≡ max_level level (l ∷ ls)
  unfolding max_level
  max_level-less h = rw h refl

max_level-IsTop :
    (level : PermissionLevel) (ls : List PermissionLevel) → IsTop level ls (max_level level ls)
unfolding max_level
max_level-IsTop level [] = (omega arith, tt, rw (level_eq_refl level) refl)
max_level-IsTop level (l ∷ ls) = elim (Bool-cases (ltb (rank level) (rank l))) [
  | inl more ↦
      let less : rank level ≤ rank l = ground (arith, more) in
      let (own, others, one) = max_level-IsTop l ls in
      subst (IsTop level (l ∷ ls)) (max_level-more level l ls more) (
        omega (arith, less, own),
        (own, others),
        exists_later (λ x. level_eq x (max_level l ls)) level (l ∷ ls) one,
      )
  | inr other ↦
      let less : rank l ≤ rank level = ground (arith, other) in
      let (own, others, one) = max_level-IsTop level ls in
      subst (IsTop level (l ∷ ls)) (max_level-less level l ls other) (
        own,
        (omega (arith, less, own), others),
        exists_beside (λ x. level_eq x (max_level level ls)) level l ls one,
      )
]

-- The role has a level in the mapping, and it is this one.
abbrev pub stands_for : PermissionLevel → Text → Bool
stands_for level role = elim (permission_mapping (lower role)) [
  | none ↦ false
  | some l ↦ level_eq l level
]

mapped_permissions_exists :
    (level : PermissionLevel) (roles : List Text)
    → exists (λ l. level_eq l level) (mapped_permissions roles) ≡ exists (stands_for level) roles
unfolding mapped_permissions
mapped_permissions_exists level [] = refl
mapped_permissions_exists level (role ∷ roles) =
    elim (Option-cases (permission_mapping (lower role))) [
      | inl unknown ↦
          rw (unknown, mapped_permissions, stands_for) (mapped_permissions_exists level roles)
      | inr (l, known) ↦
          rw (known, mapped_permissions, stands_for)
            (rw (mapped_permissions_exists level roles) refl)
    ]

abbrev pub IsAtMost : PermissionLevel → Text → Type 0
IsAtMost top role =
    (l : PermissionLevel) → permission_mapping (lower role) ≡ some l → rank l ≤ rank top

mapped_permissions_upper :
    (top : PermissionLevel) (roles : List Text)
    → All (λ l. rank l ≤ rank top) (mapped_permissions roles)
    → All (IsAtMost top) roles
unfolding mapped_permissions
mapped_permissions_upper top [] h = tt
mapped_permissions_upper top (role ∷ roles) h =
    elim (Option-cases (permission_mapping (lower role))) [
      | inl unknown ↦ (
        (λ l is. absurd (cc (unknown, is))),
        mapped_permissions_upper top roles (rw (unknown, mapped_permissions) at h),
      )
      | inr (l, known) ↦
          let (own, others) = rw (known, mapped_permissions) at h in
          (
            (λ m is. let same : l ≡ m = cc (known, is) in subst (λ x. rank x ≤ rank top) same own),
            mapped_permissions_upper top roles others,
          )
    ]

module _ (roles : List Text) where
  mapped_nothing : mapped_permissions roles ≡ [] → map_sharepoint_roles roles ≡ none
  unfolding map_sharepoint_roles
  mapped_nothing h = rw (h, map_sharepoint_roles) refl

  mapped_something :
      {l : PermissionLevel} {ls : List PermissionLevel}
      → mapped_permissions roles ≡ l ∷ ls
      → map_sharepoint_roles roles ≡ some (max_level l ls)
  unfolding map_sharepoint_roles
  mapped_something h = rw (h, map_sharepoint_roles) refl

-- The level of a list of role names is that of one of them, and none of them has a higher one; if there is
-- no level, then no name has one.
pub map_sharepoint_roles_highest :
    (roles : List Text)
    → ((top : PermissionLevel)
        → map_sharepoint_roles roles ≡ some top
        → (exists (stands_for top) roles ≡ true) × All (IsAtMost top) roles)
      × (map_sharepoint_roles roles ≡ none
          → (level : PermissionLevel) → exists (stands_for level) roles ≡ false)
map_sharepoint_roles_highest roles = go (mapped_permissions roles) refl
  where
    go :
        (ls : List PermissionLevel)
        → mapped_permissions roles ≡ ls
        → ((top : PermissionLevel)
            → map_sharepoint_roles roles ≡ some top
            → (exists (stands_for top) roles ≡ true) × All (IsAtMost top) roles)
          × (map_sharepoint_roles roles ≡ none
              → (level : PermissionLevel) → exists (stands_for level) roles ≡ false)
    go [] h = (
      (λ top is. absurd (cc (mapped_nothing roles h, is))),
      λ _ level.
          sym (mapped_permissions_exists level roles) ∙ ap (exists (λ l. level_eq l level)) h,
    )
    go (l ∷ ls) h =
        let (own, others, one) = max_level-IsTop l ls in
        (
          (λ top is.
              let same : max_level l ls ≡ top = cc (mapped_something roles h, is) in
              subst (λ t. (exists (stands_for t) roles ≡ true) × All (IsAtMost t) roles) same
                (
                  sym (mapped_permissions_exists (max_level l ls) roles)
                      ∙ ap (exists (λ x. level_eq x (max_level l ls))) h
                      ∙ one,
                  mapped_permissions_upper (max_level l ls) roles
                      (subst (All (λ x. rank x ≤ rank (max_level l ls))) (sym h) (own, others)),
                )),
          λ is. absurd (cc (mapped_something roles h, is)),
        )
