-- ===== src/Rbac/Inheritance/Breaking.antt =====
-- Breaking and restoring the inheritance of a folder, and the chain of folders above it.
use pool_shrpnt.Prelude.{
  ℕ, zero, suc, ◌<◌, ◌≡◌, refl, sym, ◌∙◌, ap, true, false, not, ◌&&◌, inl, inr, List, [], ◌∷◌, none,
  some, arith, Bool-cases, Option-cases, All, length,
}
use mathlib.Core.Bool.{false≢true}
use pool_shrpnt.Prelude.Text.{Text}
use pool_shrpnt.Prelude.Table.{select, exists, update}
use pool_shrpnt.Rbac.Model.{PermissionAssignment, PermissionLevel}
use pool_shrpnt.Rbac.Paths.{get_parent_path}
use pool_shrpnt.Rbac.Paths.Parents.{get_parent_path-shorter}
use pool_shrpnt.Rbac.Inheritance.{
  Assignments, at_path, is_broken, ChainEntry, chain_entry, chain_within, get_inheritance_chain,
  break_inheritance, is_derived, restore_inheritance,
}
use pool_shrpnt.Rbac.Inheritance.Sources.{grants_at, Inherits, parent-source}

-- The folders from a path up: the walk ends at the first folder that breaks the inheritance, or at one
-- without a parent.
pub data IsChain (db : Assignments) : Text → List ChainEntry → Type 0 where
  stops : {p : Text} → is_broken p db ≡ true → IsChain db p (chain_entry p db ∷ [])
  tops :
      {p : Text}
      → is_broken p db ≡ false
      → get_parent_path p ≡ none
      → IsChain db p (chain_entry p db ∷ [])
  climbs :
      {p q : Text} {rest : List ChainEntry}
      → is_broken p db ≡ false
      → get_parent_path p ≡ some q
      → IsChain db q rest
      → IsChain db p (chain_entry p db ∷ rest)

chain_within-IsChain :
    (rounds : ℕ) (p : Text) (db : Assignments)
    → length p < rounds
    → (l : List ChainEntry) × (chain_within rounds p db ≡ some l) × IsChain db p l
unfolding chain_within
chain_within-IsChain zero p db h = absurd (omega (arith, h))
chain_within-IsChain (suc rounds) p db h = elim (Bool-cases (is_broken p db)) [
  | inl broken ↦ (chain_entry p db ∷ [], ground (arith, broken), stops broken)
  | inr whole ↦ elim (Option-cases (get_parent_path p)) [
    | inl root ↦ (chain_entry p db ∷ [], ground (arith, whole, root), tops whole root)
    | inr (q, parent) ↦
        let (rest, found, chain) =
          chain_within-IsChain rounds q db (omega (arith, h, get_parent_path-shorter p parent)) in
        (chain_entry p db ∷ rest, ground (arith, whole, parent, found), climbs whole parent chain)
  ]
]

-- The walk for a path that is not empty ends, at the first folder that breaks the inheritance or at
-- one without a parent.
pub get_inheritance_chain-IsChain :
    (c : ℕ) (s : Text) (db : Assignments)
    → (l : List ChainEntry) × (get_inheritance_chain (c ∷ s) db ≡ some l) × IsChain db (c ∷ s) l
unfolding get_inheritance_chain
get_inheritance_chain-IsChain c s db =
    chain_within-IsChain (suc (length (c ∷ s))) (c ∷ s) db (omega arith)

abbrev closed : PermissionAssignment → PermissionAssignment
closed a = record a { inheritance_broken = true }

grants_at-closed :
    (folder_path p : Text) (role_id : ℕ) (level : PermissionLevel) (db : Assignments)
    → grants_at p role_id level (update (at_path folder_path) closed db)
      ≡ grants_at p role_id level db
grants_at-closed folder_path p role_id level [] = refl
grants_at-closed folder_path p role_id level (a ∷ db) =
    ground (arith, grants_at-closed folder_path p role_id level db)

is_broken-closed :
    (folder_path : Text) (db : Assignments)
    → exists (at_path folder_path) db ≡ true
    → is_broken folder_path (update (at_path folder_path) closed db) ≡ true
is_broken-closed folder_path [] h = absurd (false≢true h)
is_broken-closed folder_path (a ∷ db) h = elim (Bool-cases (at_path folder_path a)) [
  | inl here ↦ rw here (rw here refl)
  | inr other ↦ rw other (rw other (is_broken-closed folder_path db (rw other at h)))
]

-- When the inheritance of a folder that has assignments is broken, its subfolders inherit nothing from
-- above it any more: only what the assignments of the folder itself grant.
pub break_inheritance-stops :
    (folder_path child : Text) (role_id : ℕ) (level : PermissionLevel) (db : Assignments)
    → exists (at_path folder_path) db ≡ true
    → get_parent_path child ≡ some folder_path
    → Inherits (break_inheritance folder_path db).1 role_id level child
    → grants_at folder_path role_id level db ≡ true
unfolding break_inheritance
break_inheritance-stops folder_path child role_id level db some_rows parent i =
    let db' : Assignments = update (at_path folder_path) closed db in
    let i' : Inherits db' role_id level child = rw some_rows at i in
    elim (parent-source parent i') [
      | inl given ↦ sym (grants_at-closed folder_path folder_path role_id level db) ∙ given
      | inr (whole, _) ↦ absurd (false≢true (sym whole ∙ is_broken-closed folder_path db some_rows))
    ]

-- An assignment that was set for the folder itself and does not break the inheritance.
abbrev pub IsOwn : PermissionAssignment → Type 0
IsOwn a = (a.inheritance_broken ≡ false) × (is_derived a.source ≡ false)

exists-closed :
    (folder_path : Text) (db : Assignments)
    → exists (at_path folder_path) (update (at_path folder_path) closed db)
      ≡ exists (at_path folder_path) db
exists-closed folder_path [] = refl
exists-closed folder_path (a ∷ db) = ground (arith, exists-closed folder_path db)

reopen-own :
    (a : PermissionAssignment)
    → a.inheritance_broken ≡ false
    → record a { inheritance_broken = false } ≡ a
reopen-own a h = ap (λ b. record a { inheritance_broken = b }) (sym h)

reopen-closed :
    (folder_path : Text) (db : Assignments)
    → All (λ a. at_path folder_path a ≡ true → IsOwn a) db
    → update
        (at_path folder_path)
        (λ a. record a { inheritance_broken = false })
        (select
          (λ a. not (at_path folder_path a && is_derived a.source))
          (update (at_path folder_path) closed db))
      ≡ db
reopen-closed folder_path [] h = refl
reopen-closed folder_path (a ∷ db) h = elim (Bool-cases (at_path folder_path a)) [
  | inl here ↦
      let (whole, own) = h.0 here in
      rw here (
        rw (here, own)
          (rw here (rw (reopen-closed folder_path db h.1) (ap (λ b. b ∷ db) (reopen-own a whole)))))
  | inr other ↦
      rw other (rw other (rw other (ap (λ rest. a ∷ rest) (reopen-closed folder_path db h.1))))
]

-- Restoring the inheritance that was just broken gives back the table, if the assignments of the folder
-- were set for the folder itself and none of them broke the inheritance before.
pub restore_inheritance-break_inheritance :
    (folder_path : Text) (db : Assignments)
    → All (λ a. at_path folder_path a ≡ true → IsOwn a) db
    → (restore_inheritance folder_path (break_inheritance folder_path db).1).1 ≡ db
unfolding restore_inheritance break_inheritance
restore_inheritance-break_inheritance folder_path db h =
    elim (Bool-cases (exists (at_path folder_path) db)) [
      | inl some_rows ↦
          rw some_rows
            (rw (exists-closed folder_path db) (rw some_rows (reopen-closed folder_path db h)))
      | inr no_rows ↦ rw no_rows (rw no_rows refl)
    ]
