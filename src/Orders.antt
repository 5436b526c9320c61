-- ===== src/Orders.antt =====
-- `OrderService` of api/services/orders.py over the tables `order_em`, `contract` and `partner_company` of
-- api/models/contract.py. Columns that the service neither reads nor writes are left out. The fields of a
-- new order have passed the schema of api/schemas/order.py.
pub mod Model
pub mod Reach
pub mod Ordering
mod Sorting
pub mod Pages
mod Tests
use pool_shrpnt.Prelude.{
  ℕ, zero, suc, ◌-◌, ◌*◌, Bool, true, false, ◌&&◌, ◌||◌, List, [], ◌∷◌, Option, none, some, length,
  take, drop, leb, ◌==◌, is_some, or_default, if◌then◌else◌,
}
use pool_shrpnt.Prelude.Text.{Text, text_eq, codes}
use pool_shrpnt.Prelude.Table.{select, first, update, insert}
use pool_shrpnt.Prelude.Outcome.{Result, ok, err, value_error, integrity_error, database_error}
use pool_shrpnt.Orders.Model.{
  Contract, PartnerCompany, ProvisioningStatus, LockStatus, OrderEm, NewOrder, OrderUpdate, OrderDb,
  pending, in_progress, completed, failed, unlocked, locked,
}

abbrev pub has_id : ℕ → OrderEm → Bool
has_id order_id o = o.id == order_id

abbrev pub has_number : Text → OrderEm → Bool
has_number em_number o = text_eq o.em_number em_number

abbrev pub is_active_status : Text → Bool
is_active_status status = text_eq status (codes "active")

abbrev pub contract_is_active : ℕ → List Contract → Bool
contract_is_active contract_id contracts =
    elim (first (λ (c : Contract). c.id == contract_id) contracts) [
      | none ↦ false
      | some contract ↦ is_active_status contract.status
    ]

abbrev pub partner_is_active : ℕ → List PartnerCompany → Bool
partner_is_active partner_id partners =
    elim (first (λ (p : PartnerCompany). p.id == partner_id) partners) [
      | none ↦ false
      | some partner ↦ partner.is_active
    ]

pub get_order : ℕ → OrderDb → Option OrderEm
get_order order_id db = first (has_id order_id) db.orders

pub get_order_by_em_number : Text → OrderDb → Option OrderEm
get_order_by_em_number em_number db = first (has_number em_number) db.orders

abbrev pub order_of : ℕ → NewOrder → Text → ℕ → OrderEm
order_of id n created_by now = record {
  id = id;
  em_number = n.em_number;
  title = n.title;
  description = n.description;
  contract_id = n.contract_id;
  partner_company_id = n.partner_company_id;
  year = n.year;
  part = n.part;
  team_name = none;
  site_url = none;
  provisioning_status = pending;
  provisioned_at = none;
  lock_status = unlocked;
  created_at = now;
  updated_at = now;
  created_by = some created_by;
  updated_by = some created_by;
}

-- A contract that is missing or not active, a partner that is missing or not active, and a number that is
-- taken all raise a ValueError.
pub create_order : ℕ → NewOrder → Text → ℕ → OrderDb → Result OrderEm × OrderDb
unfolding get_order_by_em_number
create_order id n created_by now db =
    if contract_is_active n.contract_id db.contracts
    then if partner_is_active n.partner_company_id db.partners
      then elim (get_order_by_em_number n.em_number db) [
        | some _ ↦ (err value_error, db)
        | none ↦ (
          ok (order_of id n created_by now),
          record db { orders = insert (order_of id n created_by now) db.orders },
        )
      ]
      else (err value_error, db)
    else (err value_error, db)

abbrev pub status_eq : ProvisioningStatus → ProvisioningStatus → Bool
status_eq pending pending = true
status_eq in_progress in_progress = true
status_eq completed completed = true
status_eq failed failed = true
status_eq _ _ = false

-- `if contract_id: query = query.where(...)`: 0 is no filter.
abbrev pub passes : Option ℕ → ℕ → Bool
passes none n = true
passes (some zero) n = true
passes (some (suc m)) n = n == suc m

abbrev pub passes_status : Option ProvisioningStatus → ProvisioningStatus → Bool
passes_status none s = true
passes_status (some status) s = status_eq s status

pub record OrderFilter : Type 0 where
  pub contract_id : Option ℕ
  pub partner_company_id : Option ℕ
  pub provisioning_status : Option ProvisioningStatus

abbrev pub is_listed : OrderFilter → OrderEm → Bool
is_listed f o =
    passes f.contract_id o.contract_id
    && passes f.partner_company_id o.partner_company_id
    && passes_status f.provisioning_status o.provisioning_status

-- The orders of a page, and how many there are on all pages. `arrange` gives the orders found as the
-- database arranges them for this query: `ORDER BY created_at DESC` leaves open how orders with the
-- same time follow each other. PostgreSQL refuses the negative offset of page 0.
pub list_orders :
    (List OrderEm → List OrderEm) → ℕ → ℕ → OrderFilter → OrderDb → Result (List OrderEm × ℕ)
list_orders arrange zero page_size f db = err database_error
list_orders arrange (suc page) page_size f db =
    let found = select (is_listed f) db.orders in
    ok (take page_size (drop (page * page_size) (arrange found)), length found)

abbrev pub set_field {ℓ} : {A : Type ℓ} → Option A → A → A
set_field none old = old
set_field (some new) old = new

-- A column that is not nullable set to None raises an IntegrityError at the commit.
abbrev pub is_null : {A : Type 0} → Option (Option A) → Bool
is_null none = false
is_null (some none) = true
is_null (some (some _)) = false

abbrev pub set_required : {A : Type 0} → Option (Option A) → A → A
set_required none old = old
set_required (some none) old = old
set_required (some (some new)) old = new

abbrev pub updated_order : OrderUpdate → Text → ℕ → OrderEm → OrderEm
updated_order u updated_by now o = record o {
  title = set_required u.title o.title;
  description = set_field u.description o.description;
  lock_status = set_required u.lock_status o.lock_status;
  updated_by = some updated_by;
  updated_at = now;
}

pub update_order : ℕ → OrderUpdate → Text → ℕ → OrderDb → Result (Option OrderEm) × OrderDb
unfolding get_order
update_order order_id u updated_by now db = elim (get_order order_id db) [
  | none ↦ (ok none, db)
  | some o ↦ if is_null u.title || is_null u.lock_status then (err integrity_error, db) else (
    ok (some (updated_order u updated_by now o)),
    record db { orders = update (has_id order_id) (updated_order u updated_by now) db.orders },
  )
]

-- The answers of `can_provision_order`.
pub data Provisionable : Type 0 where
  order_not_found contract_not_active can_be_provisioned : Provisionable
  already : ProvisioningStatus → Provisionable

abbrev pub may_start : ProvisioningStatus → Bool
may_start pending = true
may_start failed = true
may_start _ = false

pub can_provision_order : ℕ → OrderDb → Provisionable
unfolding get_order
can_provision_order order_id db = elim (get_order order_id db) [
  | none ↦ order_not_found
  | some o ↦
      if may_start o.provisioning_status
      then if contract_is_active o.contract_id db.contracts
        then can_be_provisioned
        else contract_not_active
      else already o.provisioning_status
]

-- The part that the three operations on the status share.
abbrev pub change_order : ℕ → (OrderEm → OrderEm) → OrderDb → Result OrderEm × OrderDb
change_order order_id change db = elim (get_order order_id db) [
  | none ↦ (err value_error, db)
  | some o ↦ (ok (change o), record db { orders = update (has_id order_id) change db.orders })
]

abbrev pub started : ℕ → OrderEm → OrderEm
started now o = record o { provisioning_status = in_progress; updated_at = now }

pub start_provisioning : ℕ → ℕ → OrderDb → Result OrderEm × OrderDb
unfolding get_order
start_provisioning order_id now = change_order order_id (started now)

abbrev pub provisioned : Text → Text → ℕ → OrderEm → OrderEm
provisioned team_name site_url now o = record o {
  provisioning_status = completed;
  provisioned_at = some now;
  team_name = some team_name;
  site_url = some site_url;
  updated_at = now;
}

pub complete_provisioning : ℕ → Text → Text → ℕ → OrderDb → Result OrderEm × OrderDb
unfolding get_order
complete_provisioning order_id team_name site_url now =
    change_order order_id (provisioned team_name site_url now)

abbrev pub with_failure : ℕ → OrderEm → OrderEm
with_failure now o = record o { provisioning_status = failed; updated_at = now }

pub fail_provisioning : ℕ → ℕ → OrderDb → Result OrderEm × OrderDb
unfolding get_order
fail_provisioning order_id now = change_order order_id (with_failure now)
