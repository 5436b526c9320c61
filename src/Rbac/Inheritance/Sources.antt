-- ===== src/Rbac/Inheritance/Sources.antt =====
-- Where inherited permissions come from.
use pool_shrpnt.Prelude.{
  ℕ, zero, suc, ◌<◌, ◌≡◌, refl, sym, ◌∙◌, ◌↔◌, ◌⊎◌, Bool, true, false, ◌&&◌, ◌||◌, inl, inr, List,
  [], ◌∷◌, none, some, arith, ◌==◌, Bool-cases, Option-cases, length,
}
use mathlib.Core.Bool.{false≢true}
use mathlib.Core.Path.{subst}
use pool_shrpnt.Prelude.Text.{Text}
use pool_shrpnt.Prelude.Table.{select, exists, exists-insert, exists-select}
use pool_shrpnt.Rbac.Model.{PermissionAssignment, PermissionLevel, level_eq, level_eq_sound}
use pool_shrpnt.Rbac.PermissionEngine.{add_level}
use pool_shrpnt.Rbac.Paths.{get_parent_path}
use pool_shrpnt.Rbac.Paths.Parents.{get_parent_path-shorter}
use pool_shrpnt.Rbac.Inheritance.{
  Assignments, RoleLevels, at_path, add_role_level, add_assignments, add_levels, merge_levels,
  is_broken, inherited_within, get_inherited_permissions,
}

-- An assignment of the folder gives the role the level.
abbrev pub grants_at : Text → ℕ → PermissionLevel → Assignments → Bool
grants_at folder_path role_id level db =
    exists
      (λ a. at_path folder_path a && (a.role_id == role_id && level_eq level a.permission_level)) db

-- A folder inherits what its parent grants, and what its parent inherits if no assignment of the
-- parent breaks the inheritance.
pub data Inherits (db : Assignments) (role_id : ℕ) (level : PermissionLevel) : Text → Type 0 where
  from_parent :
      {folder_path parent_path : Text}
      → get_parent_path folder_path ≡ some parent_path
      → grants_at parent_path role_id level db ≡ true
      → Inherits db role_id level folder_path
  from_above :
      {folder_path parent_path : Text}
      → get_parent_path folder_path ≡ some parent_path
      → is_broken parent_path db ≡ false
      → Inherits db role_id level parent_path
      → Inherits db role_id level folder_path

-- Does an item of the dict give the role the level?
abbrev pub gives : ℕ → PermissionLevel → RoleLevels → Bool
gives role_id level d = exists (λ item. item.0 == role_id && exists (level_eq level) item.1) d

pub exists-add_level :
    (l m : PermissionLevel) (ls : List PermissionLevel)
    → exists (level_eq l) (add_level m ls) ≡ (level_eq l m || exists (level_eq l) ls)
exists-add_level l m ls = elim (Bool-cases (exists (level_eq m) ls)) [
  | inr fresh ↦ rw fresh (ground (arith, exists-insert (level_eq l) m ls))
  | inl known ↦ rw known (elim (Bool-cases (level_eq l m)) [
    | inr differ ↦ rw differ refl
    | inl same ↦ rw same (rw (level_eq_sound l m same) known)
  ])
]

module _ (role_id : ℕ) (level : PermissionLevel) where
  abbrev is_it : ℕ → PermissionLevel → Bool
  is_it r l = r == role_id && level_eq level l

  gives-add_role_level :
      (r : ℕ) (l : PermissionLevel) (d : RoleLevels)
      → gives role_id level (add_role_level r l d) ≡ (is_it r l || gives role_id level d)
  unfolding add_role_level
  gives-add_role_level r l [] = ground arith
  gives-add_role_level r l ((id, levels) ∷ rest) =
      ground (arith, exists-add_level level l levels, gives-add_role_level r l rest)

  gives-add_assignments :
      (rows : Assignments) (d : RoleLevels)
      → gives role_id level (add_assignments rows d) ≡ (
          exists (λ (a : PermissionAssignment). is_it a.role_id a.permission_level) rows
          || gives role_id level d)
  unfolding add_assignments
  gives-add_assignments [] d = refl
  gives-add_assignments (a ∷ rest) d =
      gives-add_assignments rest (add_role_level a.role_id a.permission_level d)
      ∙ ground (arith, gives-add_role_level a.role_id a.permission_level d)

  gives-add_levels :
      (r : ℕ) (ls : List PermissionLevel) (d : RoleLevels)
      → gives role_id level (add_levels r ls d)
        ≡ ((r == role_id && exists (level_eq level) ls) || gives role_id level d)
  unfolding add_levels
  gives-add_levels r [] d = ground arith
  gives-add_levels r (l ∷ ls) d =
      gives-add_levels r ls (add_role_level r l d) ∙ ground (arith, gives-add_role_level r l d)

  gives-merge_levels :
      (above d : RoleLevels)
      → gives role_id level (merge_levels above d)
        ≡ (gives role_id level above || gives role_id level d)
  unfolding merge_levels
  gives-merge_levels [] d = refl
  gives-merge_levels ((r, ls) ∷ rest) d =
      gives-merge_levels rest (add_levels r ls d) ∙ ground (arith, gives-add_levels r ls d)

  explicit-grants_at :
      (folder_path : Text) (db : Assignments)
      → gives role_id level (add_assignments (select (at_path folder_path) db) [])
        ≡ grants_at folder_path role_id level db
  explicit-grants_at folder_path db =
      gives-add_assignments (select (at_path folder_path) db) []
      ∙ ground (
        arith,
        exists-select (λ (a : PermissionAssignment). is_it a.role_id a.permission_level)
            (at_path folder_path) db,
      )

-- What a derivation says of the parent.
pub parent-source :
    {db : Assignments} {role_id : ℕ} {level : PermissionLevel} {folder_path parent_path : Text}
    → get_parent_path folder_path ≡ some parent_path
    → Inherits db role_id level folder_path
    → (grants_at parent_path role_id level db ≡ true)
      ⊎ ((is_broken parent_path db ≡ false) × Inherits db role_id level parent_path)
parent-source {db} {role_id} {level} parent (from_parent {parent_path = q} e granted) =
    inl (subst (λ p. grants_at p role_id level db ≡ true) (cc (sym e ∙ parent)) granted)
parent-source {db} {role_id} {level} parent (from_above {parent_path = q} e open_above above) =
    inr (
      subst (λ p. (is_broken p db ≡ false) × Inherits db role_id level p) (cc (sym e ∙ parent))
        (open_above, above))

no-source :
    {db : Assignments} {role_id : ℕ} {level : PermissionLevel} {folder_path : Text}
    → get_parent_path folder_path ≡ none
    → Inherits db role_id level folder_path
    → ⊥
no-source root (from_parent e granted) = cc
no-source root (from_above e open_above above) = cc

-- What is known of the answer for a path.
abbrev IsAnswer : Text → Assignments → RoleLevels → Type 0
IsAnswer folder_path db d =
    (role_id : ℕ) (level : PermissionLevel)
    → (gives role_id level d ≡ true) ↔ Inherits db role_id level folder_path

or-true : (a b : Bool) → (a || b) ≡ true → (a ≡ true) ⊎ (b ≡ true)
or-true a b h = ground arith

root-IsAnswer :
    (folder_path : Text) (db : Assignments)
    → get_parent_path folder_path ≡ none
    → IsAnswer folder_path db []
root-IsAnswer folder_path db root role_id level =
    ((λ e. absurd (false≢true e)), (λ i. absurd (no-source root i)))

module _ (folder_path parent_path : Text) (db : Assignments)
    (parent : get_parent_path folder_path ≡ some parent_path) where
  abbrev explicit : RoleLevels
  explicit = add_assignments (select (at_path parent_path) db) []

  broken-IsAnswer : is_broken parent_path db ≡ true → IsAnswer folder_path db explicit
  broken-IsAnswer broken role_id level =
      let granted = explicit-grants_at role_id level parent_path db in
      (
        (λ e. from_parent parent (sym granted ∙ e)),
        (λ i. elim (parent-source parent i) [
          | inl given ↦ granted ∙ given
          | inr (open_above, _) ↦ absurd (false≢true (sym open_above ∙ broken))
        ]),
      )

  above-IsAnswer :
      (above : RoleLevels)
      → is_broken parent_path db ≡ false
      → IsAnswer parent_path db above
      → IsAnswer folder_path db (merge_levels above explicit)
  above-IsAnswer above whole h role_id level =
      let granted = explicit-grants_at role_id level parent_path db in
      let merged = gives-merge_levels role_id level above explicit in
      let own : Bool = gives role_id level explicit in
      (
        (λ e. elim (or-true (gives role_id level above) own (sym merged ∙ e)) [
          | inl up ↦ from_above parent whole ((h role_id level).0 up)
          | inr here ↦ from_parent parent (sym granted ∙ here)
        ]),
        (λ i. elim (parent-source parent i) [
          | inl given ↦ ground (arith, merged, granted, given)
          | inr (_, up) ↦ ground (arith, merged, (h role_id level).1 up)
        ]),
      )

inherited_within-IsAnswer :
    (calls : ℕ) (folder_path : Text) (db : Assignments)
    → length folder_path < calls
    → (d : RoleLevels) × (inherited_within calls folder_path db ≡ some d)
      × IsAnswer folder_path db d
unfolding inherited_within
inherited_within-IsAnswer zero folder_path db h = absurd (omega (arith, h))
inherited_within-IsAnswer (suc calls) folder_path db h =
    elim (Option-cases (get_parent_path folder_path)) [
      | inl root ↦ ([], rw (root, inherited_within) refl, root-IsAnswer folder_path db root)
      | inr (q, parent) ↦ elim (Bool-cases (is_broken q db)) [
        | inl broken ↦ (
          explicit folder_path q db parent,
          rw (parent, inherited_within) (rw broken refl),
          broken-IsAnswer folder_path q db parent broken,
        )
        | inr whole ↦
            let (above, found, answer) =
              inherited_within-IsAnswer calls q db
                (omega (arith, h, get_parent_path-shorter folder_path parent)) in
            (
              merge_levels above (explicit folder_path q db parent),
              rw (parent, inherited_within) (rw whole (rw found refl)),
              above-IsAnswer folder_path q db parent above whole answer,
            )
      ]
    ]

-- `get_inherited_permissions` ends for every path, and gives a role a level exactly if the folder
-- inherits it: from an assignment of the parent, or from above a parent that does not break the
-- inheritance.
pub get_inherited_permissions-Inherits :
    (folder_path : Text) (db : Assignments)
    → (d : RoleLevels) × (get_inherited_permissions folder_path db ≡ some d)
      × ((role_id : ℕ) (level : PermissionLevel)
          → (gives role_id level d ≡ true) ↔ Inherits db role_id level folder_path)
unfolding get_inherited_permissions
get_inherited_permissions-Inherits folder_path db =
    inherited_within-IsAnswer (suc (length folder_path)) folder_path db (omega arith)
