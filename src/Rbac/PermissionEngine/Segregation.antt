-- ===== src/Rbac/PermissionEngine/Segregation.antt =====
-- The segregation of folders: which roles the matrix can never let into a folder.
use pool_shrpnt.Prelude.{
  ℕ, ◌≡◌, refl, sym, Bool, true, false, ◌||◌, ◌++◌, inl, inr, List, [], ◌∷◌, Option, none, some,
  arith, if◌then◌else◌, Bool-cases, All, All-append, All-intro, All-map,
}
use mathlib.Core.Bool.{false≢true}
use mathlib.Core.Path.{subst}
use pool_shrpnt.Prelude.Text.{Text, codes, text_eq, starts_with}
use pool_shrpnt.Prelude.Outcome.{ok, Result-cases, ◌>>=◌}
use pool_shrpnt.Rbac.Model.{PermissionLevel, read, Source, segregation_rule, base_rule}
use pool_shrpnt.Rbac.Roles.{
  FolderType, standard, financial, neu_only, final, partner_specific, penzugyes, partner_admin,
  role_name_value, role_name_of, role_name_of_lem, Role, MatrixDb,
}
use pool_shrpnt.Rbac.FolderTypes.{classify_folder_type, is_partner_path}
use pool_shrpnt.Rbac.PermissionEngine.{
  apply_segregation_rules, check_exceptions, get_base_permissions, EffectivePermission, permission,
  exempt, grant, except, by_rules, for_role, for_roles, roles_asked,
  calculate_effective_permissions,
}
use pool_shrpnt.Rbac.PermissionEngine.RoleNames.{
  is_neu, is_partner_admin, value-neu, value-penzugyes, value-partner_admin,
}

-- What the folder type asks of a permission that no exception gives: finance staff only, NEU roles
-- only, reading only, and NEU roles or the administrators of partners only.
abbrev pub IsSegregated : FolderType → EffectivePermission → Type 0
IsSegregated standard p = Unit {0}
IsSegregated financial p = p.role_name ≡ penzugyes
IsSegregated neu_only p = is_neu p.role_name ≡ true
IsSegregated final p = p.permission_level ≡ read
IsSegregated partner_specific p = (is_neu p.role_name || is_partner_admin p.role_name) ≡ true

abbrev pub IsGuarded : FolderType → EffectivePermission → Type 0
IsGuarded folder_type p = p.exception_applied ≡ false → IsSegregated folder_type p

-- A permission of a role carries the name of the role and one of the levels granted.
abbrev Named : Role → EffectivePermission → Type 0
Named role p = role.name ≡ role_name_value p.role_name

abbrev Granted : (PermissionLevel → Type 0) → Role → EffectivePermission → Type 0
Granted Q role p = Named role p × Q p.permission_level

module _ (folder_path : Text) (role : Role) (source : Source) (broken : Bool) where
  none-granted :
      (P : EffectivePermission → Type 0) {ps : List EffectivePermission}
      → grant folder_path role source broken [] ≡ ok ps
      → All P ps
  unfolding grant
  none-granted P {ps} h = let e : [] ≡ ps = cc h in subst (All P) e tt

  grant-All :
      (Q : PermissionLevel → Type 0) (levels : List PermissionLevel) {ps : List EffectivePermission}
      → grant folder_path role source broken levels ≡ ok ps
      → All Q levels
      → All (Granted Q role) ps
  unfolding grant
  grant-All Q [] h k = none-granted (Granted Q role) h
  grant-All Q (level ∷ levels) {ps} h k = elim (Result-cases (role_name_of role.name)) [
    | inr (f, unknown) ↦ cc (rw unknown at h)
    | inl (n, named) ↦ elim (Result-cases (grant folder_path role source broken levels)) [
      | inr (f, failed) ↦ cc (rw failed at (rw named at h))
      | inl (rest, granted) ↦
          let e : permission folder_path role source broken n level ∷ rest ≡ ps =
            cc (rw granted at (rw named at h)) in
          subst (All (Granted Q role)) e
            ((role_name_of_lem role.name named, k.0), grant-All Q levels granted k.1)
    ]
  ]

base-Named :
    (folder_path : Text) (folder_type : FolderType) (role : Role) (db : MatrixDb)
    {ps : List EffectivePermission}
    → (get_base_permissions role folder_type db >>= grant folder_path role base_rule false) ≡ ok ps
    → All (Named role) ps
base-Named folder_path folder_type role db {ps} h =
    elim (Result-cases (get_base_permissions role folder_type db)) [
      | inr (f, failed) ↦ cc (rw failed at h)
      | inl (levels, found) ↦
          All-map (Granted (λ l. Unit {0}) role) (Named role) ps (λ p k. k.0)
            (grant-All folder_path role base_rule false (λ l. Unit {0}) levels (rw found at h)
              (All-intro (λ l. Unit {0}) levels (λ l. tt)))
    ]

-- What the rules grant keeps to the folder type.
by_rules-IsSegregated :
    (folder_path : Text) (folder_type : FolderType) (role : Role) (db : MatrixDb)
    {ps : List EffectivePermission}
    → (folder_type ≡ partner_specific → is_partner_path folder_path ≡ true)
    → by_rules folder_path folder_type role db ≡ ok ps
    → All (IsSegregated folder_type) ps
unfolding by_rules apply_segregation_rules
by_rules-IsSegregated folder_path standard role db {ps} in_path h =
    All-intro (IsSegregated standard) ps (λ p. tt)
by_rules-IsSegregated folder_path financial role db {ps} in_path h =
    elim (Bool-cases (text_eq role.name (role_name_value penzugyes))) [
      | inl own ↦
          All-map (Named role) (IsSegregated financial) ps
            (λ p named.
              value-penzugyes p.role_name
                (subst (λ s. text_eq s (role_name_value penzugyes) ≡ true) named own))
            (base-Named folder_path financial role db
              (rw (own, by_rules, apply_segregation_rules) at h))
      | inr other ↦
          none-granted folder_path role segregation_rule true (IsSegregated financial)
            (rw (other, by_rules, apply_segregation_rules) at h)
    ]
by_rules-IsSegregated folder_path neu_only role db {ps} in_path h =
    elim (Bool-cases (starts_with role.name (codes "NEU_"))) [
      | inl own ↦
          All-map (Named role) (IsSegregated neu_only) ps
            (λ p named.
              value-neu p.role_name (subst (λ s. starts_with s (codes "NEU_") ≡ true) named own))
            (base-Named folder_path neu_only role db
              (rw (own, by_rules, apply_segregation_rules) at h))
      | inr other ↦
          none-granted folder_path role segregation_rule true (IsSegregated neu_only)
            (rw (other, by_rules, apply_segregation_rules) at h)
    ]
by_rules-IsSegregated folder_path final role db {ps} in_path h =
    All-map (Granted (λ l. l ≡ read) role) (IsSegregated final) ps (λ p k. k.1)
      (grant-All folder_path role segregation_rule true (λ l. l ≡ read) (read ∷ []) h (refl, tt))
by_rules-IsSegregated folder_path partner_specific role db {ps} in_path h =
    let h' = rw (in_path refl, by_rules, apply_segregation_rules) at h in
    elim (Bool-cases (text_eq role.name (role_name_value partner_admin))) [
      | inl own ↦
          All-map (Named role) (IsSegregated partner_specific) ps
            (λ p named. ground (
              arith,
              value-partner_admin p.role_name
                  (subst (λ s. text_eq s (role_name_value partner_admin) ≡ true) named own),
            ))
            (base-Named folder_path partner_specific role db (rw own at h'))
      | inr no_admin ↦ elim (Bool-cases (starts_with role.name (codes "NEU_"))) [
        | inl own ↦
            All-map (Named role) (IsSegregated partner_specific) ps
              (λ p named. ground (
                arith,
                value-neu p.role_name (subst (λ s. starts_with s (codes "NEU_") ≡ true) named own),
              ))
              (base-Named folder_path partner_specific role db (rw own at (rw no_admin at h')))
        | inr other ↦
            none-granted folder_path role segregation_rule true (IsSegregated partner_specific)
              (rw other at (rw no_admin at h'))
      ]
    ]

-- The order of the tests of a path.
last-test :
    (a b c d : Bool)
    → (if a
        then financial
        else if b
        then neu_only
        else if c
        then final
        else if d
        then partner_specific
        else standard)
      ≡ partner_specific
    → d ≡ true
last-test a b c true h = refl
last-test true b c false h = cc
last-test false true c false h = cc
last-test false false true false h = cc
last-test false false false false h = cc

-- A path is classified as a partner's only if it is one.
classify-partner :
    (folder_path : Text)
    → classify_folder_type folder_path ≡ partner_specific
    → is_partner_path folder_path ≡ true
unfolding classify_folder_type
classify-partner folder_path h = last-test _ _ _ (is_partner_path folder_path) h

for_role-IsGuarded :
    (folder_path : Text) (now : ℕ) (db : MatrixDb) (role : Role) {ps : List EffectivePermission}
    → for_role folder_path (classify_folder_type folder_path) now db role ≡ ok ps
    → All (IsGuarded (classify_folder_type folder_path)) ps
unfolding for_role except
for_role-IsGuarded folder_path now db role {ps} h =
    let t = classify_folder_type folder_path in
    elim (Result-cases (check_exceptions role folder_path now db)) [
      | inr (f, failed) ↦ cc (rw failed at h)
      | inl (none, no_exception) ↦
          All-map (IsSegregated t) (IsGuarded t) ps (λ p k _. k)
            (by_rules-IsSegregated folder_path t role db (classify-partner folder_path)
              (rw no_exception at h))
      | inl (some (level, reason), found) ↦ elim (Result-cases (role_name_of role.name)) [
        | inr (f, unknown) ↦ cc (rw unknown at (rw found at h))
        | inl (n, named) ↦
            let e : exempt folder_path role n level reason ∷ [] ≡ ps =
              cc (rw named at (rw found at h)) in
            subst (All (IsGuarded t)) e ((λ k. absurd (false≢true (sym k))), tt)
      ]
    ]

for_roles-IsGuarded :
    (folder_path : Text) (now : ℕ) (db : MatrixDb) (roles : List Role)
    {ps : List EffectivePermission}
    → for_roles folder_path (classify_folder_type folder_path) now db roles ≡ ok ps
    → All (IsGuarded (classify_folder_type folder_path)) ps
unfolding for_roles
for_roles-IsGuarded folder_path now db [] {ps} h =
    let e : [] ≡ ps = cc h in subst (All (IsGuarded (classify_folder_type folder_path))) e tt
for_roles-IsGuarded folder_path now db (role ∷ roles) {ps} h =
    let t = classify_folder_type folder_path in
    elim (Result-cases (for_role folder_path t now db role)) [
      | inr (f, failed) ↦ cc (rw failed at h)
      | inl (own, first) ↦ elim (Result-cases (for_roles folder_path t now db roles)) [
        | inr (f, failed) ↦ cc (rw failed at (rw first at h))
        | inl (rest, others) ↦
            let e : own ++ rest ≡ ps = cc (rw others at (rw first at h)) in
            subst (All (IsGuarded t)) e (
              All-append (IsGuarded t) own rest (for_role-IsGuarded folder_path now db role first)
                (for_roles-IsGuarded folder_path now db roles others))
      ]
    ]

-- Of all permissions that are calculated for a folder, those that no exception gives keep to the
-- type of the folder: finance staff only, NEU roles only, reading only, or NEU roles and partner
-- administrators only.
pub calculate_effective_permissions-IsGuarded :
    (folder_path : Text) (role_ids : List ℕ) (user_id : Option Text) (now : ℕ) (db : MatrixDb)
    {ps : List EffectivePermission}
    → calculate_effective_permissions folder_path role_ids user_id now db ≡ ok ps
    → All (IsGuarded (classify_folder_type folder_path)) ps
unfolding calculate_effective_permissions
calculate_effective_permissions-IsGuarded folder_path role_ids user_id now db {ps} h =
    elim (Result-cases (roles_asked role_ids user_id db)) [
      | inr (f, failed) ↦ cc (rw failed at h)
      | inl (roles, found) ↦ for_roles-IsGuarded folder_path now db roles (rw found at h)
    ]
