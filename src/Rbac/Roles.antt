-- ===== src/Rbac/Roles.antt =====
-- The role matrix: the tables `role`, `membership`, `group_role_mapping`, `permission_rule` and
-- `permission_exception` of api/models/rbac.py, and the enumerations of api/schemas/rbac.py that
-- their text columns are read as.
use pool_shrpnt.Prelude.{ℕ, List, Option, ◌≡◌, if◌then◌else◌, Bool-cases, inl, inr}
use mathlib.Core.Path.{subst}
use pool_shrpnt.Prelude.Text.{Text, codes, text_eq, text_eq_sound}
use pool_shrpnt.Prelude.Int.{ℤ}
use pool_shrpnt.Prelude.Outcome.{Result, ok, err, value_error}
use pool_shrpnt.Rbac.Model.{PermissionLevel, read, write, delete, manage}

pub data FolderType : Type 0 where
  standard financial neu_only final partner_specific : FolderType

-- The value of a folder type, which the column `folder_type` holds.
abbrev pub folder_type_value : FolderType → Text
folder_type_value standard = codes "standard"
folder_type_value financial = codes "financial"
folder_type_value neu_only = codes "neu_only"
folder_type_value final = codes "final"
folder_type_value partner_specific = codes "partner_specific"

pub data RoleName : Type 0 where
  neu_admin neu_pm partner_admin expert neu_qa penzugyes : RoleName

abbrev pub role_name_value : RoleName → Text
role_name_value neu_admin = codes "NEU_Admin"
role_name_value neu_pm = codes "NEU_PM"
role_name_value partner_admin = codes "Partner_Admin"
role_name_value expert = codes "Expert"
role_name_value neu_qa = codes "NEU_QA"
role_name_value penzugyes = codes "Pénzügyes"

-- `RoleName(text)`, a ValueError for any other text.
unfoldable pub role_name_of : Text → Result RoleName
role_name_of s =
    if text_eq s (role_name_value neu_admin)
    then ok neu_admin
    else if text_eq s (role_name_value neu_pm)
    then ok neu_pm
    else if text_eq s (role_name_value partner_admin)
    then ok partner_admin
    else if text_eq s (role_name_value expert)
    then ok expert
    else if text_eq s (role_name_value neu_qa)
    then ok neu_qa
    else if text_eq s (role_name_value penzugyes)
    then ok penzugyes
    else err value_error

-- One test of the chain.
test_sound :
    (s : Text) (m n : RoleName) (rest : Result RoleName)
    → (rest ≡ ok n → s ≡ role_name_value n)
    → (if text_eq s (role_name_value m) then ok m else rest) ≡ ok n
    → s ≡ role_name_value n
test_sound s m n rest later h = elim (Bool-cases (text_eq s (role_name_value m))) [
  | inl hit ↦
      let k : m ≡ n = cc (rw hit at h) in
      subst (λ r. s ≡ role_name_value r) k (text_eq_sound s (role_name_value m) hit)
  | inr miss ↦ later (rw miss at h)
]

-- A role is read from its own value only.
pub role_name_of_lem : (s : Text) {n : RoleName} → role_name_of s ≡ ok n → s ≡ role_name_value n
unfolding role_name_of
role_name_of_lem s {n} = test_sound s neu_admin n _ (
    test_sound s neu_pm n _ (
      test_sound s partner_admin n _
        (test_sound s expert n _ (test_sound s neu_qa n _ (test_sound s penzugyes n _ (λ h. cc))))))

-- `PermissionLevel(text)`, a ValueError for any other text.
unfoldable pub permission_level_of : Text → Result PermissionLevel
permission_level_of s =
    if text_eq s (codes "read")
    then ok read
    else if text_eq s (codes "write")
    then ok write
    else if text_eq s (codes "delete")
    then ok delete
    else if text_eq s (codes "manage")
    then ok manage
    else err value_error

pub record Role : Type 0 where
  pub id : ℕ
  pub name : Text
  pub priority : ℤ

pub record Membership : Type 0 where
  pub user_id : Text
  pub group_id : ℕ

pub record GroupRoleMapping : Type 0 where
  pub group_id : ℕ
  pub role_id : ℕ

pub record PermissionRule : Type 0 where
  pub role_id : ℕ
  pub folder_type : Text
  pub permission_level : Text

pub record PermissionException : Type 0 where
  pub folder_path : Text
  pub role_id : ℕ
  pub permission_override : Text
  pub reason : Option Text
  pub expires_at : Option ℕ

pub record MatrixDb : Type 0 where
  pub roles : List Role
  pub memberships : List Membership
  pub mappings : List GroupRoleMapping
  pub rules : List PermissionRule
  pub exceptions : List PermissionException
