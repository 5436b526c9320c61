-- ===== src/Guests/Model.antt =====
-- The rows of api/models/guest.py that the lifecycle service reads and writes.
use pool_shrpnt.Prelude.{ℕ, Bool, List, Option}
use pool_shrpnt.Prelude.Text.{Text}
use pool_shrpnt.Prelude.Int.{ℤ}

pub data GuestStatus : Type 0 where
  pending invited accepted expired revoked purged : GuestStatus

pub record GuestUser : Type 0 where
  pub id : ℕ
  pub email : Text
  pub azure_ad_id : Option Text
  pub partner_company_id : ℕ
  pub status : GuestStatus
  pub expires_at : Option ℕ
  pub extended_count : ℕ
  pub last_extended_at : Option ℕ

pub record GuestGroupAssignment : Type 0 where
  pub guest_user_id : ℕ
  pub group_id : ℕ
  pub removed_at : Option ℕ
  pub removed_by : Option Text

pub record GuestExtension : Type 0 where
  pub id : ℕ
  pub guest_user_id : ℕ
  pub extended_by : Text
  pub extended_at : ℕ
  pub previous_expiry_date : ℕ
  pub new_expiry_date : ℕ
  pub justification : Text

pub record GuestLifecyclePolicy : Type 0 where
  pub id : ℕ
  pub partner_company_id : ℕ
  pub default_expiry_days : ℤ
  pub max_extensions : ℤ
  pub extension_period_days : ℤ
  pub auto_expire_enabled : Bool

pub record GuestDb : Type 0 where
  pub guests : List GuestUser
  pub assignments : List GuestGroupAssignment
  pub extensions : List GuestExtension
  pub policies : List GuestLifecyclePolicy
