-- ===== src/Rbac/Reconciliation/Drifts.antt =====
-- When a comparison finds no drift.
use pool_shrpnt.Prelude.{
  ℕ, ◌≡◌, ◌≢◌, refl, sym, ◌∙◌, ap, ◌↔◌, Bool, true, inl, inr, List, [], ◌∷◌, ◌++◌, Option, none,
  some, All, Bool-cases, Option-cases, ◌==◌,
}
use mathlib.Core.Bool.{false≢true}
use pool_shrpnt.Prelude.Text.{Text}
use pool_shrpnt.Prelude.Table.{first, exists, exists-first-none, exists-first-some}
use pool_shrpnt.Prelude.Outcome.{Result, ok, err, ◌>>=◌}
use pool_shrpnt.Rbac.Model.{PermissionLevel, level_eq_refl, level_eq_sound}
use pool_shrpnt.Rbac.Roles.{Role, role_name_of}
use pool_shrpnt.Rbac.Reconciliation.{
  Desired, RoleGroups, RoleDb, get_desired_permissions, get_role_to_group_mapping, groups_of,
  actual_of, agrees, role_drifts, is_wanted, principal_drifts, compare_permissions,
}
use pool_shrpnt.Rbac.Reconciliation.Actual.{GraphClient, ActualLevels, get_actual_permissions}
use pool_shrpnt.Rbac.Reconciliation.Wanted.{
  HasLevel, IsGroupOfDesired, actual_of_iff, is_wanted_iff,
}

agrees_iff : (o : Option PermissionLevel) (l : PermissionLevel) → (agrees o l ≡ true) ↔ (o ≡ some l)
agrees_iff none l = ((λ h. cc), (λ h. cc))
agrees_iff (some m) l = (
  (λ h. ap some (level_eq_sound m l h)),
  λ h. let same : m ≡ l = cc (h) in rw same (level_eq_refl l),
)

-- A bind gives an empty list after a drift never.
never_empty :
    {A B : Type 0} (r : Result A) (rest : Result (List B)) (f : A → B)
    → (r >>= λ a. rest >>= λ ds. ok (f a ∷ ds)) ≢ ok []
never_empty (err e) rest f h = cc
never_empty (ok a) (err e) f h = cc
never_empty (ok a) (ok ds) f h = cc

module _ (folder_path : Text) (now : ℕ) (roles : List Role) (mapping : RoleGroups)
    (actual : ActualLevels) (desired : Desired) where
  abbrev has_role : ℕ → Bool
  has_role role_id = exists (λ (r : Role). r.id == role_id) roles

  -- A desired level of a known role is the actual one.
  abbrev IsMet : ℕ × PermissionLevel → Type 0
  IsMet d = has_role d.0 ≡ true → HasLevel mapping actual d.0 d.1

  role_drifts_none :
      (ds : Desired) → (role_drifts folder_path now roles mapping actual ds ≡ ok []) ↔ All IsMet ds
  unfolding role_drifts
  role_drifts_none [] = ((λ h. tt), λ h. refl)
  role_drifts_none ((role_id, level) ∷ ds) =
      let (onto, back) = role_drifts_none ds in
      let (has, is) = actual_of_iff role_id mapping actual level in
      elim (Option-cases (first (λ (r : Role). r.id == role_id) roles)) [
        | inl unknown ↦
            let absent = exists-first-none (λ (r : Role). r.id == role_id) roles unknown in
            rw (unknown, role_drifts)
              ((λ h. ((λ k. absurd (false≢true (sym absent ∙ k))), onto h)), λ h. back h.1)
        | inr (role, found) ↦
            let present = exists-first-some (λ (r : Role). r.id == role_id) roles found in
            let agreed = agrees_iff (actual_of (groups_of role_id mapping) actual) level in
            elim (Bool-cases (agrees (actual_of (groups_of role_id mapping) actual) level)) [
              | inl same ↦
                  rw (found, role_drifts)
                    (rw same ((λ h. ((λ k. has (agreed.0 same)), onto h)), λ h. back h.1))
              | inr differs ↦
                  rw (found, role_drifts)
                    (rw differs (
                      (λ h. absurd (never_empty (role_name_of role.name) _ _ h)),
                      λ h. absurd (false≢true (sym differs ∙ agreed.1 (is (h.0 present)))),
                    ))
            ]
      ]

  abbrev IsWanted : Text × PermissionLevel → Type 0
  IsWanted a = IsGroupOfDesired mapping desired a.0

  principal_drifts_none :
      (l : ActualLevels)
      → (principal_drifts folder_path now mapping desired l ≡ []) ↔ All IsWanted l
  unfolding principal_drifts
  principal_drifts_none [] = ((λ h. tt), λ h. refl)
  principal_drifts_none ((principal_id, level) ∷ l) =
      let (onto, back) = principal_drifts_none l in
      let (belongs, is) = is_wanted_iff principal_id mapping desired in
      elim (Bool-cases (is_wanted principal_id mapping desired)) [
        | inl wanted ↦ rw wanted ((λ h. (belongs wanted, onto h)), λ h. back h.1)
        | inr unwanted ↦
            rw unwanted ((λ h. absurd cc), λ h. absurd (false≢true (sym unwanted ∙ is h.0)))
      ]

append_none :
    {B : Type 0} (r : Result (List B)) (es : List B)
    → ((r >>= λ ds. ok (ds ++ es)) ≡ ok []) ↔ ((r ≡ ok []) × (es ≡ []))
append_none (err e) es = ((λ h. absurd cc), λ h. absurd (cc (h.0)))
append_none (ok []) es = ((λ h. (refl, cc (h))), λ h. rw h.1 refl)
append_none (ok (d ∷ ds)) es = ((λ h. absurd cc), λ h. absurd (cc (h.0)))

-- A comparison finds no drift exactly if every level that is desired for a known role is the level of
-- the first of its groups that has one in SharePoint, and every principal with a level there is a
-- group of a role with a desired level.
pub compare_permissions_none :
    (client : Option GraphClient) (site_id folder_path : Text) (now : ℕ) (db : RoleDb)
    → let desired = get_desired_permissions folder_path db.assignments in
      let actual = get_actual_permissions client site_id folder_path in
      let mapping = get_role_to_group_mapping db in
      (compare_permissions client site_id folder_path now db ≡ ok []) ↔ (
        All
          (λ d.
            exists (λ (r : Role). r.id == d.0) db.roles ≡ true → HasLevel mapping actual d.0 d.1)
          desired
        × All (λ a. IsGroupOfDesired mapping desired a.0) actual)
unfolding compare_permissions
compare_permissions_none client site_id folder_path now db =
    let desired = get_desired_permissions folder_path db.assignments in
    let actual = get_actual_permissions client site_id folder_path in
    let mapping = get_role_to_group_mapping db in
    let (both, join) =
      append_none (role_drifts folder_path now db.roles mapping actual desired)
        (principal_drifts folder_path now mapping desired actual) in
    let (met, unmet) = role_drifts_none folder_path now db.roles mapping actual desired desired in
    let (wanted, unwanted) =
      principal_drifts_none folder_path now db.roles mapping actual desired actual in
    ((λ h. let (r, p) = both h in (met r, wanted p)), λ h. join (unmet h.0, unwanted h.1))
