-- ===== src/Rbac/PermissionEngine/RoleNames.antt =====
-- What the text of a role's name says of the role.
use pool_shrpnt.Prelude.{◌≡◌, refl, Bool, true, false}
use mathlib.Core.Bool.{false≢true}
use pool_shrpnt.Prelude.Text.{codes, text_eq, starts_with}
use pool_shrpnt.Rbac.Roles.{
  RoleName, neu_admin, neu_pm, neu_qa, expert, penzugyes, partner_admin, role_name_value,
}

-- The roles of the NEU.
abbrev pub is_neu : RoleName → Bool
is_neu neu_admin = true
is_neu neu_pm = true
is_neu partner_admin = false
is_neu expert = false
is_neu neu_qa = true
is_neu penzugyes = false

abbrev pub is_partner_admin : RoleName → Bool
is_partner_admin partner_admin = true
is_partner_admin _ = false

pub value-neu :
    (n : RoleName) → starts_with (role_name_value n) (codes "NEU_") ≡ true → is_neu n ≡ true
unfolding starts_with
value-neu neu_admin h = refl
value-neu neu_pm h = refl
value-neu partner_admin h = absurd (false≢true h)
value-neu expert h = absurd (false≢true h)
value-neu neu_qa h = refl
value-neu penzugyes h = absurd (false≢true h)

pub value-penzugyes :
    (n : RoleName) → text_eq (role_name_value n) (role_name_value penzugyes) ≡ true → n ≡ penzugyes
unfolding text_eq
value-penzugyes neu_admin h = absurd (false≢true h)
value-penzugyes neu_pm h = absurd (false≢true h)
value-penzugyes partner_admin h = absurd (false≢true h)
value-penzugyes expert h = absurd (false≢true h)
value-penzugyes neu_qa h = absurd (false≢true h)
value-penzugyes penzugyes h = refl

pub value-partner_admin :
    (n : RoleName)
    → text_eq (role_name_value n) (role_name_value partner_admin) ≡ true
    → is_partner_admin n ≡ true
unfolding text_eq
value-partner_admin neu_admin h = absurd (false≢true h)
value-partner_admin neu_pm h = absurd (false≢true h)
value-partner_admin partner_admin h = refl
value-partner_admin expert h = absurd (false≢true h)
value-partner_admin neu_qa h = absurd (false≢true h)
value-partner_admin penzugyes h = absurd (false≢true h)
