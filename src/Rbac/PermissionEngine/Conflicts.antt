-- ===== src/Rbac/PermissionEngine/Conflicts.antt =====
-- Conflicting permissions of a role: `resolve_permission_conflicts` keeps the highest.
use pool_shrpnt.Prelude.{
  ℕ, ◌≤◌, ◌≡◌, refl, sym, ◌∙◌, ap, Bool, true, false, ◌&&◌, ◌||◌, ◌++◌, inl, inr, List, [], ◌∷◌,
  Option, none, some, arith, ◌==◌, if◌then◌else◌, Bool-cases, All, map,
}
use mathlib.Core.Path.{subst}
use mathlib.Core.List.{append_assoc, append-nil}
use mathlib.Core.Bool.{false≢true}
use pool_shrpnt.Prelude.Table.{select, exists, exists-select}
use pool_shrpnt.Rbac.Model.{PermissionLevel, read, level_eq}
use pool_shrpnt.Rbac.PermissionEngine.{
  EffectivePermission, rank, raise_level, Groups, add_to_group, group_by_role, resolve_group,
  resolve_permission_conflicts,
}
use pool_shrpnt.Rbac.PermissionEngine.Highest.{
  raise_level-IsUpper, raise_level-is_attained, raise_level-first,
}

abbrev pub of_role : ℕ → EffectivePermission → Bool
of_role role_id p = p.role_id == role_id

-- `resolved.get(role_id)`
abbrev pub resolved_level : ℕ → List (ℕ × PermissionLevel) → Option PermissionLevel
resolved_level role_id [] = none
resolved_level role_id ((id, level) ∷ rest) =
    if id == role_id then some level else resolved_level role_id rest

-- What the result says of a role: nothing if it has no permission, and otherwise a level that one of
-- its permissions has and that none of them exceeds.
abbrev pub IsHighest : ℕ → List EffectivePermission → Option PermissionLevel → Type 0
IsHighest role_id ps none = exists (of_role role_id) ps ≡ false
IsHighest role_id ps (some level) =
    (exists (λ p. of_role role_id p && level_eq p.permission_level level) ps ≡ true)
    × All (λ p. of_role role_id p ≡ true → rank p.permission_level ≤ rank level) ps

abbrev find_group : ℕ → Groups → Option (List EffectivePermission)
find_group role_id [] = none
find_group role_id ((id, ps) ∷ groups) =
    if id == role_id then some ps else find_group role_id groups

-- The permissions that a group gathers.
abbrev members : Option (List EffectivePermission) → List EffectivePermission
members none = []
members (some ps) = ps

abbrev level_of : Option (List EffectivePermission) → Option PermissionLevel
level_of none = none
level_of (some ps) = some (raise_level read 0 ps)

resolved-group :
    (role_id : ℕ) (groups : Groups)
    → resolved_level role_id (map resolve_group groups) ≡ level_of (find_group role_id groups)
resolved-group role_id [] = refl
resolved-group role_id ((id, ps) ∷ groups) = elim (Bool-cases (id == role_id)) [
  | inl hit ↦ rw hit refl
  | inr miss ↦ rw miss (resolved-group role_id groups)
]

find-add :
    (role_id : ℕ) (p : EffectivePermission) (groups : Groups)
    → find_group role_id (add_to_group p groups) ≡ (
        if of_role role_id p
        then some (members (find_group role_id groups) ++ p ∷ [])
        else find_group role_id groups)
unfolding add_to_group
find-add role_id p [] = ground arith
find-add role_id p ((id, ps) ∷ groups) = ground (arith, find-add role_id p groups)

-- What a search finds that adds the selected permissions to a group.
abbrev grown :
    Option (List EffectivePermission) → List EffectivePermission → Option (List EffectivePermission)
grown o [] = o
grown o (p ∷ ps) = grown (some (members o ++ p ∷ [])) ps

find-group_by_role :
    (role_id : ℕ) (ps : List EffectivePermission) (groups : Groups)
    → find_group role_id (group_by_role groups ps)
      ≡ grown (find_group role_id groups) (select (of_role role_id) ps)
unfolding group_by_role
find-group_by_role role_id [] groups = refl
find-group_by_role role_id (p ∷ ps) groups =
    find-group_by_role role_id ps (add_to_group p groups) ∙ elim (Bool-cases (of_role role_id p)) [
      | inl own ↦ rw own (
          ap (λ o. grown o (select (of_role role_id) ps)) (find-add role_id p groups ∙ rw own refl))
      | inr other ↦ rw other (
          ap (λ o. grown o (select (of_role role_id) ps))
            (find-add role_id p groups ∙ rw other refl))
    ]

grown-some : (l ps : List EffectivePermission) → grown (some l) ps ≡ some (l ++ ps)
grown-some l [] = ap some (sym (append-nil l))
grown-some l (p ∷ ps) = grown-some (l ++ p ∷ []) ps ∙ ap some (append_assoc l (p ∷ []) ps)

All-of_selected :
    (P : EffectivePermission → Type 0) (q : EffectivePermission → Bool)
    (ps : List EffectivePermission)
    → All P (select q ps)
    → All (λ p. q p ≡ true → P p) ps
All-of_selected P q [] h = tt
All-of_selected P q (p ∷ ps) h = elim (Bool-cases (q p)) [
  | inl hit ↦ let h' = rw hit at h in ((λ _. h'.0), All-of_selected P q ps h'.1)
  | inr miss ↦ ((λ e. absurd (false≢true (sym miss ∙ e))), All-of_selected P q ps (rw miss at h))
]

select-none :
    (role_id : ℕ) (ps : List EffectivePermission)
    → select (of_role role_id) ps ≡ []
    → exists (of_role role_id) ps ≡ false
select-none role_id [] e = refl
select-none role_id (p ∷ ps) e = ground (arith, select-none role_id ps)

or_if : (a b : Bool) → (a || b) ≡ true → (if a then true else b) ≡ true
or_if a b h = ground arith

-- The level that the group of a role gets, from the permissions of the role.
group-IsHighest :
    (role_id : ℕ) (ps own : List EffectivePermission)
    → select (of_role role_id) ps ≡ own
    → IsHighest role_id ps (level_of (grown none own))
group-IsHighest role_id ps [] e = select-none role_id ps e
group-IsHighest role_id ps (p ∷ own) e =
    let top = raise_level p.permission_level (rank p.permission_level) own in
    let found : top ≡ raise_level read 0 (p ∷ own) = raise_level-first p own in
    let (first_below, others_below) = raise_level-IsUpper p.permission_level own in
    let has : EffectivePermission → Bool = λ x. level_eq x.permission_level top in
    let below : EffectivePermission → Type 0 = λ x. rank x.permission_level ≤ rank top in
    subst (IsHighest role_id ps) (ap some found ∙ sym (ap level_of (grown-some (p ∷ []) own))) (
      sym (exists-select has (of_role role_id) ps)
          ∙ ap (exists has) e
          ∙ or_if (has p) (exists has own) (raise_level-is_attained p.permission_level own),
      All-of_selected below (of_role role_id) ps
          (subst (All below) (sym e) (first_below, others_below)),
    )

-- Each role gets the highest of its levels: a role without a permission gets none, and any other gets
-- a level that one of its permissions has and none of them exceeds.
pub resolve_permission_conflicts-IsHighest :
    (role_id : ℕ) (ps : List EffectivePermission)
    → IsHighest role_id ps (resolved_level role_id (resolve_permission_conflicts ps))
unfolding resolve_permission_conflicts
resolve_permission_conflicts-IsHighest role_id ps =
    subst (IsHighest role_id ps)
      (sym (
        resolved-group role_id (group_by_role [] ps)
        ∙ ap level_of (find-group_by_role role_id ps [])))
      (group-IsHighest role_id ps (select (of_role role_id) ps) refl)
