-- ===== src/Rbac/Inheritance/Additions.antt =====
-- What `apply_inheritance` adds to the calculated permissions.
use pool_shrpnt.Prelude.{
  ℕ, ◌≡◌, refl, sym, ◌∙◌, ap, Bool, true, false, ◌&&◌, ◌||◌, ◌++◌, inl, inr, List, [], ◌∷◌, none,
  some, arith, ◌==◌, if◌then◌else◌, Bool-cases, Option-cases, All, All-map, All-append, ==_iff,
}
use mathlib.Core.Bool.{false≢true}
use mathlib.Core.Path.{subst}
use pool_shrpnt.Prelude.Text.{Text}
use pool_shrpnt.Prelude.Table.{exists, first, first-some}
use pool_shrpnt.Prelude.Outcome.{ok, Result-cases}
use pool_shrpnt.Rbac.Model.{PermissionLevel, level_eq, level_eq_refl, level_eq_sound}
use pool_shrpnt.Rbac.Roles.{Role, RoleName, role_name_of}
use pool_shrpnt.Rbac.Paths.{should_break_inheritance}
use pool_shrpnt.Rbac.PermissionEngine.{EffectivePermission}
use pool_shrpnt.Rbac.Inheritance.{
  Assignments, RoleLevels, add_role_level, existing_levels, has_level, inherited_permission,
  inherit_levels, inherit_roles, apply_inheritance,
}
use pool_shrpnt.Rbac.Inheritance.Sources.{
  gives, Inherits, exists-add_level, get_inherited_permissions-Inherits,
}

-- One of the permissions gives the role the level.
abbrev pub permits : ℕ → PermissionLevel → List EffectivePermission → Bool
permits role_id level ps =
    exists (λ p. p.role_id == role_id && level_eq level p.permission_level) ps

abbrev knows : ℕ → List Role → Bool
knows role_id roles = exists (λ (r : Role). r.id == role_id) roles

exists-append :
    {A : Type 0} (q : A → Bool) (xs ys : List A)
    → exists q (xs ++ ys) ≡ (exists q xs || exists q ys)
exists-append q [] ys = refl
exists-append q (x ∷ xs) ys = ground (arith, exists-append q xs ys)

has_level-add_role_level :
    (r : ℕ) (l : PermissionLevel) (role_id : ℕ) (level : PermissionLevel) (d : RoleLevels)
    → has_level r l (add_role_level role_id level d)
      ≡ ((role_id == r && level_eq l level) || has_level r l d)
unfolding add_role_level
has_level-add_role_level r l role_id level [] = ground arith
has_level-add_role_level r l role_id level ((id, levels) ∷ rest) =
    elim (Bool-cases (id == role_id)) [
      | inl same ↦ rw same (elim (Bool-cases (id == r)) [
        | inl hit ↦
            let e : (role_id == r) ≡ true = ground (arith, same, hit) in
            rw (hit, e) (exists-add_level l level levels)
        | inr miss ↦
            let e : (role_id == r) ≡ false = ground (arith, same, miss) in rw (miss, e) refl
      ])
      | inr differ ↦ rw differ (elim (Bool-cases (id == r)) [
        | inl hit ↦ let e : (role_id == r) ≡ false = ground (arith, differ, hit) in rw (hit, e) refl
        | inr miss ↦ rw miss (has_level-add_role_level r l role_id level rest)
      ])
    ]

has_level-existing :
    (r : ℕ) (l : PermissionLevel) (ps : List EffectivePermission) (d : RoleLevels)
    → has_level r l (existing_levels ps d) ≡ (permits r l ps || has_level r l d)
unfolding existing_levels
has_level-existing r l [] d = refl
has_level-existing r l (p ∷ ps) d =
    has_level-existing r l ps (add_role_level p.role_id p.permission_level d)
    ∙ ground (arith, has_level-add_role_level r l p.role_id p.permission_level d)

exists-unknown :
    (role_id : ℕ) (roles : List Role)
    → first (λ (r : Role). r.id == role_id) roles ≡ none
    → knows role_id roles ≡ false
exists-unknown role_id [] h = refl
exists-unknown role_id (r ∷ roles) h = ground (arith, exists-unknown role_id roles)

or_skip : (a b c : Bool) → (a || c) ≡ true → (a || (if b then true else c)) ≡ true
or_skip a b c h = ground arith

or_left : (a b c : Bool) → (a || b) ≡ true → (a || (b || c)) ≡ true
or_left a b c h = ground arith

or_right : (a b c : Bool) → (a || c) ≡ true → (a || (b || c)) ≡ true
or_right a b c h = ground arith

plain_or : (a b : Bool) → ((a || false) || b) ≡ true → (a || b) ≡ true
plain_or a b h = ground arith

both : (a b : Bool) → (a && b) ≡ true → (a ≡ true) × (b ≡ true)
both a b h = ground arith

module _ (folder_path : Text) (roles : List Role) (existing : RoleLevels) where
  -- What the loop over the levels of a role adds.
  abbrev AddsLevels : ℕ → List PermissionLevel → List EffectivePermission → Type 0
  AddsLevels role_id levels ps =
      All (λ p. (p.role_id ≡ role_id) × (exists (level_eq p.permission_level) levels ≡ true)) ps
      × ((level : PermissionLevel)
          → knows role_id roles ≡ true
          → exists (level_eq level) levels ≡ true
          → (has_level role_id level existing || permits role_id level ps) ≡ true)

  -- One level more, for which nothing had to be added.
  still :
      (role_id : ℕ) (level : PermissionLevel) (levels : List PermissionLevel)
      (rest : List EffectivePermission)
      → All (λ p. (p.role_id ≡ role_id) × (exists (level_eq p.permission_level) levels ≡ true)) rest
      → ((l : PermissionLevel)
          → knows role_id roles ≡ true
          → exists (level_eq l) levels ≡ true
          → (has_level role_id l existing || permits role_id l rest) ≡ true)
      → (knows role_id roles ≡ true
          → (has_level role_id level existing || permits role_id level rest) ≡ true)
      → AddsLevels role_id (level ∷ levels) rest
  still role_id level levels rest sound complete here = (
    All-map _
        (λ p.
          (p.role_id ≡ role_id) × (exists (level_eq p.permission_level) (level ∷ levels) ≡ true))
        rest (λ p k. (k.0, ground (arith, k.1))) sound,
    (λ l known asked. elim (Bool-cases (level_eq l level)) [
      | inl same ↦
          subst (λ m. (has_level role_id m existing || permits role_id m rest) ≡ true)
            (sym (level_eq_sound l level same)) (here known)
      | inr other ↦ complete l known (rw other at asked)
    ]),
  )

  -- One level more, with a permission for it.
  added :
      (role_id : ℕ) (level : PermissionLevel) (levels : List PermissionLevel)
      (rest : List EffectivePermission) (role : Role) (name : RoleName)
      → All (λ p. (p.role_id ≡ role_id) × (exists (level_eq p.permission_level) levels ≡ true)) rest
      → ((l : PermissionLevel)
          → knows role_id roles ≡ true
          → exists (level_eq l) levels ≡ true
          → (has_level role_id l existing || permits role_id l rest) ≡ true)
      → role.id ≡ role_id
      → AddsLevels role_id
          (level ∷ levels)
          (inherited_permission folder_path role name level ∷ rest)
  added role_id level levels rest role name sound complete own = (
    (
      (own, rw (level_eq_refl level) refl),
      All-map _
          (λ p.
            (p.role_id ≡ role_id) × (exists (level_eq p.permission_level) (level ∷ levels) ≡ true))
          rest (λ p k. (k.0, ground (arith, k.1))) sound,
    ),
    (λ l known asked. elim (Bool-cases (level_eq l level)) [
      | inl same ↦ rw same (ground (arith, (==_iff role.id role_id).1 own))
      | inr other ↦
          or_skip (has_level role_id l existing) _ (permits role_id l rest)
            (complete l known (rw other at asked))
    ]),
  )

  inherit_levels-AddsLevels :
      (role_id : ℕ) (levels : List PermissionLevel) {ps : List EffectivePermission}
      → inherit_levels folder_path roles existing role_id levels ≡ ok ps
      → AddsLevels role_id levels ps
  unfolding inherit_levels
  inherit_levels-AddsLevels role_id [] {ps} h =
      let e : [] ≡ ps = cc h in
      subst (AddsLevels role_id []) e (tt, (λ l known no. absurd (false≢true no)))
  inherit_levels-AddsLevels role_id (level ∷ levels) {ps} h =
      elim (Result-cases (inherit_levels folder_path roles existing role_id levels)) [
        | inr (f, failed) ↦ cc (rw failed at h)
        | inl (rest, done) ↦
            let (sound, complete) = inherit_levels-AddsLevels role_id levels done in
            let h' = rw done at h in
            elim (Bool-cases (has_level role_id level existing)) [
              | inl present ↦
                  let e : rest ≡ ps = cc (rw present at h') in
                  subst (AddsLevels role_id (level ∷ levels)) e (
                    still role_id level levels rest sound complete
                      (λ known. ground (arith, present)))
              | inr absent ↦ elim (Option-cases (first (λ (r : Role). r.id == role_id) roles)) [
                | inl unknown ↦
                    let e : rest ≡ ps = cc (rw unknown at (rw absent at h')) in
                    subst (AddsLevels role_id (level ∷ levels)) e (
                      still role_id level levels rest sound complete (λ known.
                        absurd (false≢true (sym (exists-unknown role_id roles unknown) ∙ known))))
                | inr (role, found) ↦ elim (Result-cases (role_name_of role.name)) [
                  | inr (f, bad) ↦ cc (rw bad at (rw found at (rw absent at h')))
                  | inl (name, named) ↦
                      let new = inherited_permission folder_path role name level in
                      let e : new ∷ rest ≡ ps = cc (rw named at (rw found at (rw absent at h'))) in
                      subst (AddsLevels role_id (level ∷ levels)) e (
                        added role_id level levels rest role name sound complete
                          ((==_iff role.id role_id).0 (first-some _ roles found)))
                ]
              ]
            ]
      ]

  -- What the loop over the items inherited adds.
  abbrev AddsRoles : RoleLevels → List EffectivePermission → Type 0
  AddsRoles above ps =
      All (λ p. gives p.role_id p.permission_level above ≡ true) ps
      × ((role_id : ℕ) (level : PermissionLevel)
          → knows role_id roles ≡ true
          → gives role_id level above ≡ true
          → (has_level role_id level existing || permits role_id level ps) ≡ true)

  inherit_roles-AddsRoles :
      (above : RoleLevels) {ps : List EffectivePermission}
      → inherit_roles folder_path roles existing above ≡ ok ps
      → AddsRoles above ps
  unfolding inherit_roles
  inherit_roles-AddsRoles [] {ps} h =
      let e : [] ≡ ps = cc h in
      subst (AddsRoles []) e (tt, (λ r l known no. absurd (false≢true no)))
  inherit_roles-AddsRoles ((id, levels) ∷ above) {ps} h =
      elim (Result-cases (inherit_levels folder_path roles existing id levels)) [
        | inr (f, failed) ↦ cc (rw failed at h)
        | inl (own, first_done) ↦
            elim (Result-cases (inherit_roles folder_path roles existing above)) [
              | inr (f, failed) ↦ cc (rw failed at (rw first_done at h))
              | inl (others, done) ↦
                  let e : own ++ others ≡ ps = cc (rw done at (rw first_done at h)) in
                  let (own_sound, own_complete) = inherit_levels-AddsLevels id levels first_done in
                  let (sound, complete) = inherit_roles-AddsRoles above done in
                  subst (AddsRoles ((id, levels) ∷ above)) e (
                    All-append _ own others
                        (All-map _
                          (λ p. gives p.role_id p.permission_level ((id, levels) ∷ above) ≡ true)
                          own (λ p k. ground (arith, k.0, k.1)) own_sound)
                        (All-map _
                          (λ p. gives p.role_id p.permission_level ((id, levels) ∷ above) ≡ true)
                          others (λ p k. ground (arith, k)) sound),
                    (λ r l known given.
                        let q : EffectivePermission → Bool =
                          λ p. p.role_id == r && level_eq l p.permission_level in
                        let has : Bool = has_level r l existing in
                        ap (λ b. has || b) (exists-append q own others)
                        ∙ elim (Bool-cases (id == r && exists (level_eq l) levels)) [
                          | inl here ↦
                              let (is_r, asked) =
                                both (id == r) (exists (level_eq l) levels) here in
                              let same : id ≡ r = (==_iff id r).0 is_r in
                              or_left has (permits r l own) (permits r l others) (
                                subst (λ k. (has_level k l existing || permits k l own) ≡ true) same
                                  (own_complete l
                                    (subst (λ k. knows k roles ≡ true) (sym same) known) asked))
                          | inr elsewhere ↦
                              or_right has (permits r l own) (permits r l others)
                                (complete r l known (rw elsewhere at given))
                        ]),
                  )
            ]
      ]

-- In a folder that does not break the inheritance, the calculated permissions stay as they are, each
-- permission that is added gives its role a level that the folder inherits, and every level that the
-- folder inherits for a role of the table is given to it.
pub apply_inheritance-Inherits :
    (folder_path : Text) (roles : List Role) (db : Assignments)
    (calculated : List EffectivePermission) {ps : List EffectivePermission}
    → should_break_inheritance folder_path ≡ false
    → apply_inheritance folder_path roles db calculated ≡ some (ok ps)
    → (more : List EffectivePermission) × (ps ≡ calculated ++ more)
      × All (λ p. Inherits db p.role_id p.permission_level folder_path) more
      × ((role_id : ℕ) (level : PermissionLevel)
          → exists (λ (r : Role). r.id == role_id) roles ≡ true
          → Inherits db role_id level folder_path
          → permits role_id level ps ≡ true)
unfolding apply_inheritance
apply_inheritance-Inherits folder_path roles db calculated {ps} plain h =
    let (above, found, answer) = get_inherited_permissions-Inherits folder_path db in
    let h' = rw found at (rw plain at h) in
    elim (Result-cases (inherit_roles folder_path roles (existing_levels calculated []) above)) [
      | inr (f, failed) ↦ cc (rw failed at h')
      | inl (more, done) ↦
          let e : ps ≡ calculated ++ more = cc (rw done at h') in
          let (sound, complete) =
            inherit_roles-AddsRoles folder_path roles (existing_levels calculated []) above done in
          (
            more,
            e,
            All-map _ (λ p. Inherits db p.role_id p.permission_level folder_path) more
                (λ p k. (answer p.role_id p.permission_level).0 k) sound,
            (λ r l known i.
                ap (permits r l) e
                ∙ exists-append (λ p. p.role_id == r && level_eq l p.permission_level) calculated
                    more
                ∙ plain_or (permits r l calculated) (permits r l more) (
                    sym (ap (λ b. b || permits r l more) (has_level-existing r l calculated []))
                    ∙ complete r l known ((answer r l).1 i))),
          )
    ]
