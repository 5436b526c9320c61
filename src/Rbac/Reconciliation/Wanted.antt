-- ===== src/Rbac/Reconciliation/Wanted.antt =====
-- What the level of a role in SharePoint is, and which principals a folder wants.
use pool_shrpnt.Prelude.{
  ℕ, ◌≡◌, refl, ap, ◌↔◌, Bool, true, inl, inr, List, [], ◌∷◌, none, some, Bool-cases, Option-cases,
  ◌==◌, ==_iff, arith,
}
use mathlib.Core.Bool.{false≢true}
use mathlib.Core.Path.{subst}
use mathlib.Core.List.{Memᴰ}
use pool_shrpnt.Prelude.Text.{Text, text_eq, text_eq_refl, text_eq_sound}
use pool_shrpnt.Prelude.Table.{first, exists}
use pool_shrpnt.Rbac.Model.{PermissionLevel}
use pool_shrpnt.Rbac.Reconciliation.{Desired, RoleGroups, groups_of, level_in, actual_of, is_wanted}
use pool_shrpnt.Rbac.Reconciliation.Actual.{ActualLevels}

-- The level of the first of some groups that has one.
pub data FirstLevel (actual : ActualLevels) : List Text → PermissionLevel → Type 0 where
  here :
      {g : Text} {groups : List Text} {e : Text × PermissionLevel}
      → first (λ x. text_eq x.0 g) actual ≡ some e
      → FirstLevel actual (g ∷ groups) e.1
  there :
      {g : Text} {groups : List Text} {level : PermissionLevel}
      → first (λ x. text_eq x.0 g) actual ≡ none
      → FirstLevel actual groups level
      → FirstLevel actual (g ∷ groups) level

-- The level that a role has in SharePoint: that of the first of its groups that has one.
pub record HasLevel (mapping : RoleGroups) (actual : ActualLevels) (role_id : ℕ)
    (level : PermissionLevel) : Type 0 where
  pub entry : ℕ × List Text
  pub found : first (λ (x : ℕ × List Text). x.0 == role_id) mapping ≡ some entry
  pub level_is : FirstLevel actual entry.1 level

-- A role with a desired level has the principal among its groups.
pub record IsGroupOfDesired (mapping : RoleGroups) (desired : Desired) (principal_id : Text)
    : Type 0 where
  pub role_id : ℕ
  pub groups : List Text
  pub level : PermissionLevel
  pub of_role : Memᴰ (role_id, groups) mapping
  pub is_group : Memᴰ principal_id groups
  pub is_desired : Memᴰ (role_id, level) desired

level_in-first :
    (g : Text) (actual : ActualLevels) {e : Text × PermissionLevel}
    → first (λ x. text_eq x.0 g) actual ≡ some e
    → level_in g actual ≡ some e.1
unfolding level_in
level_in-first g [] h = cc
level_in-first g ((k, l) ∷ actual) {e} h = elim (Bool-cases (text_eq k g)) [
  | inl hit ↦ rw hit (let same : (k, l) ≡ e = cc (rw hit at h) in ap (λ x. some x.1) same)
  | inr miss ↦ rw miss (level_in-first g actual (rw miss at h))
]

level_in-none :
    (g : Text) (actual : ActualLevels)
    → first (λ x. text_eq x.0 g) actual ≡ none
    → level_in g actual ≡ none
unfolding level_in
level_in-none g [] h = refl
level_in-none g ((k, l) ∷ actual) h = elim (Bool-cases (text_eq k g)) [
  | inl hit ↦ absurd (cc (rw hit at h))
  | inr miss ↦ rw miss (level_in-none g actual (rw miss at h))
]

actual_of-FirstLevel :
    (actual : ActualLevels) (groups : List Text) {level : PermissionLevel}
    → actual_of groups actual ≡ some level
    → FirstLevel actual groups level
unfolding actual_of
actual_of-FirstLevel actual [] h = absurd cc
actual_of-FirstLevel actual (g ∷ groups) {level} h =
    elim (Option-cases (first (λ x. text_eq x.0 g) actual)) [
      | inl unknown ↦
          there unknown (
            actual_of-FirstLevel actual groups
              (rw (level_in-none g actual unknown, actual_of) at h))
      | inr (e, known) ↦
          let same : e.1 ≡ level = cc (rw (level_in-first g actual known, actual_of) at h) in
          subst (FirstLevel actual (g ∷ groups)) same (here known)
    ]

FirstLevel-actual_of :
    {actual : ActualLevels} {groups : List Text} {level : PermissionLevel}
    → FirstLevel actual groups level
    → actual_of groups actual ≡ some level
unfolding actual_of
FirstLevel-actual_of {actual} (here {g = g} known) =
    rw (level_in-first g actual known, actual_of) refl
FirstLevel-actual_of {actual} (there {g = g} unknown rest) =
    rw (level_in-none g actual unknown, actual_of) (FirstLevel-actual_of rest)

groups_of-first :
    (role_id : ℕ) (mapping : RoleGroups) {e : ℕ × List Text}
    → first (λ (x : ℕ × List Text). x.0 == role_id) mapping ≡ some e
    → groups_of role_id mapping ≡ e.1
unfolding groups_of
groups_of-first role_id [] h = cc
groups_of-first role_id ((id, groups) ∷ mapping) {e} h = elim (Bool-cases (id == role_id)) [
  | inl hit ↦ rw hit (let same : (id, groups) ≡ e = cc (rw hit at h) in ap (λ x. x.1) same)
  | inr miss ↦ rw miss (groups_of-first role_id mapping (rw miss at h))
]

groups_of-none :
    (role_id : ℕ) (mapping : RoleGroups)
    → first (λ (x : ℕ × List Text). x.0 == role_id) mapping ≡ none
    → groups_of role_id mapping ≡ []
unfolding groups_of
groups_of-none role_id [] h = refl
groups_of-none role_id ((id, groups) ∷ mapping) h = elim (Bool-cases (id == role_id)) [
  | inl hit ↦ absurd (cc (rw hit at h))
  | inr miss ↦ rw miss (groups_of-none role_id mapping (rw miss at h))
]

pub actual_of_iff :
    (role_id : ℕ) (mapping : RoleGroups) (actual : ActualLevels) (level : PermissionLevel)
    → (actual_of (groups_of role_id mapping) actual ≡ some level)
      ↔ HasLevel mapping actual role_id level
unfolding actual_of
actual_of_iff role_id mapping actual level = (
  (λ h. elim (Option-cases (first (λ (x : ℕ × List Text). x.0 == role_id) mapping)) [
    | inl unknown ↦ absurd (cc (rw (groups_of-none role_id mapping unknown) at h))
    | inr (e, known) ↦ record {
      entry = e;
      found = known;
      level_is = actual_of-FirstLevel actual e.1 (rw (groups_of-first role_id mapping known) at h);
    }
  ]),
  λ h. rw (groups_of-first role_id mapping h.found) (FirstLevel-actual_of h.level_is),
)

-- A row that a test finds, and back.
exists-Memᴰ :
    {A : Type 0} (p : A → Bool) (rows : List A)
    → exists p rows ≡ true
    → (x : A) × Memᴰ x rows × (p x ≡ true)
exists-Memᴰ p [] h = absurd (false≢true h)
exists-Memᴰ p (y ∷ rows) h = elim (Bool-cases (p y)) [
  | inl hit ↦ (y, Memᴰ.head refl, hit)
  | inr miss ↦ let (x, member, is) = exists-Memᴰ p rows (rw miss at h) in (x, Memᴰ.tail member, is)
]

Memᴰ-exists :
    {A : Type 0} (p : A → Bool) {x : A} (rows : List A)
    → Memᴰ x rows
    → p x ≡ true
    → exists p rows ≡ true
Memᴰ-exists p {x} [] h is = elim h [ ]
Memᴰ-exists p {x} (y ∷ rows) (Memᴰ.head same) h =
    let hit : p y ≡ true = subst (λ z. p z ≡ true) same h in rw hit refl
Memᴰ-exists p (y ∷ rows) (Memᴰ.tail member) h = rw (Memᴰ-exists p rows member h) (ground arith)

pub is_wanted_iff :
    (principal_id : Text) (mapping : RoleGroups) (desired : Desired)
    → (is_wanted principal_id mapping desired ≡ true)
      ↔ IsGroupOfDesired mapping desired principal_id
unfolding is_wanted
is_wanted_iff principal_id mapping desired = (
  (λ h.
      let (r, of_role, both) = exists-Memᴰ _ mapping h in
      let (g, is_group, same_text) =
        exists-Memᴰ (λ g. text_eq g principal_id) r.1 (ground (arith, both)) in
      let (d, is_desired, same_id) =
        exists-Memᴰ (λ (d : ℕ × PermissionLevel). d.0 == r.0) desired (ground (arith, both)) in
      record {
        role_id = r.0;
        groups = r.1;
        level = d.1;
        of_role = of_role;
        is_group = subst (λ t. Memᴰ t r.1) (text_eq_sound g principal_id same_text) is_group;
        is_desired =
            subst (λ (n : ℕ). Memᴰ (n, d.1) desired) ((==_iff d.0 r.0).0 same_id) is_desired;
      }),
  λ h. Memᴰ-exists _ mapping h.of_role (
      let in_groups =
        Memᴰ-exists (λ g. text_eq g principal_id) h.groups h.is_group (text_eq_refl principal_id) in
      let in_desired =
        Memᴰ-exists (λ (d : ℕ × PermissionLevel). d.0 == h.role_id) desired h.is_desired
          ((==_iff h.role_id h.role_id).1 refl) in
      rw in_groups in_desired),
)
