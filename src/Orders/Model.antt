-- ===== src/Orders/Model.antt =====
-- The rows of api/models/contract.py, the fields of new and changed orders of api/schemas/order.py, and the
-- database of the order service.
use pool_shrpnt.Prelude.{ℕ, Bool, List, Option}
use pool_shrpnt.Prelude.Text.{Text}

pub record Contract : Type 0 where
  pub id : ℕ
  pub status : Text

pub record PartnerCompany : Type 0 where
  pub id : ℕ
  pub is_active : Bool

pub data ProvisioningStatus : Type 0 where
  pending in_progress completed failed : ProvisioningStatus

pub data LockStatus : Type 0 where
  unlocked locked : LockStatus

pub record OrderEm : Type 0 where
  pub id : ℕ
  pub em_number : Text
  pub title : Text
  pub description : Option Text
  pub contract_id : ℕ
  pub partner_company_id : ℕ
  pub year : ℕ
  pub part : Text
  pub team_name : Option Text
  pub site_url : Option Text
  pub provisioning_status : ProvisioningStatus
  pub provisioned_at : Option ℕ
  pub lock_status : LockStatus
  pub created_at : ℕ
  pub updated_at : ℕ
  pub created_by : Option Text
  pub updated_by : Option Text

-- `OrderEmCreate`
pub record NewOrder : Type 0 where
  pub em_number : Text
  pub title : Text
  pub description : Option Text
  pub contract_id : ℕ
  pub partner_company_id : ℕ
  pub year : ℕ
  pub part : Text

-- `OrderEmUpdate`: the fields that were set, possibly to None.
pub record OrderUpdate : Type 0 where
  pub title : Option (Option Text)
  pub description : Option (Option Text)
  pub lock_status : Option (Option LockStatus)

pub record OrderDb : Type 0 where
  pub contracts : List Contract
  pub partners : List PartnerCompany
  pub orders : List OrderEm
