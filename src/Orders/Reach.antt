-- ===== src/Orders/Reach.antt =====
-- Histories of calls of `OrderService`.
use pool_shrpnt.Prelude.{
  ℕ, ◌≤◌, ◌≡◌, refl, ap, true, ◌||◌, inl, inr, List, [], ◌∷◌, none, arith, All, Bool-cases,
  Option-cases, is_some,
}
use mathlib.Core.Path.{subst}
use pool_shrpnt.Prelude.Text.{Text, text_eq, text_eq_sound}
use pool_shrpnt.Prelude.Table.{
  first, update, insert, count, count-insert, count-update_keep, first-none, All-insert, All-update,
}
use pool_shrpnt.Orders.{
  has_id, has_number, contract_is_active, partner_is_active, get_order, get_order_by_em_number,
  order_of, create_order, is_null, updated_order, update_order, change_order, start_provisioning,
  provisioned, complete_provisioning, fail_provisioning,
}
use pool_shrpnt.Orders.Model.{OrderEm, NewOrder, OrderUpdate, OrderDb, completed}

-- A call that may write, with the identifier and the time that it draws.
pub data Call : Type 0 where
  creates : ℕ → NewOrder → Text → ℕ → Call
  updates : ℕ → OrderUpdate → Text → ℕ → Call
  starts : ℕ → ℕ → Call
  completes : ℕ → Text → Text → ℕ → Call
  fails : ℕ → ℕ → Call

-- The database after a call, also one that raises.
pub step : Call → OrderDb → OrderDb
step (creates id n created_by now) db = (create_order id n created_by now db).1
step (updates order_id u updated_by now) db = (update_order order_id u updated_by now db).1
step (starts order_id now) db = (start_provisioning order_id now db).1
step (completes order_id team_name site_url now) db =
    (complete_provisioning order_id team_name site_url now db).1
step (fails order_id now) db = (fail_provisioning order_id now db).1

pub run : List Call → OrderDb → OrderDb
unfolding step
run [] db = db
run (c ∷ cs) db = run cs (step c db)

-- A completed order has its team, its site and the time of the provisioning.
abbrev pub IsSited : OrderEm → Type 0
IsSited o =
    o.provisioning_status ≡ completed
    → (is_some o.team_name ≡ true) × (is_some o.site_url ≡ true) × (is_some o.provisioned_at ≡ true)

-- No number is given to two orders.
abbrev pub IsNumbered : List OrderEm → Type 0
IsNumbered orders = (em_number : Text) → count (has_number em_number) orders ≤ 1

abbrev pub IsWell : OrderDb → Type 0
IsWell db = IsNumbered db.orders × All IsSited db.orders

-- A change of one order that leaves its number alone.
update-IsWell :
    (order_id : ℕ) (change : OrderEm → OrderEm) (orders : List OrderEm)
    → ((o : OrderEm) → (change o).em_number ≡ o.em_number)
    → ((o : OrderEm) → IsSited o → IsSited (change o))
    → IsNumbered orders
    → All IsSited orders
    → IsNumbered (update (has_id order_id) change orders)
      × All IsSited (update (has_id order_id) change orders)
update-IsWell order_id change orders same keeps numbered sited = (
  (λ em_number.
      let equal =
        count-update_keep (has_number em_number) (has_id order_id) change orders
          (λ o. ap (λ m. text_eq m em_number) (same o)) in
      omega (arith, equal, numbered em_number)),
  All-update IsSited (has_id order_id) change orders (λ o _. keeps o) sited,
)

insert-IsNumbered :
    (o : OrderEm) (orders : List OrderEm)
    → first (has_number o.em_number) orders ≡ none
    → IsNumbered orders
    → IsNumbered (insert o orders)
insert-IsNumbered o orders free numbered em_number =
    let grown = count-insert (has_number em_number) o orders in
    elim (Bool-cases (text_eq o.em_number em_number)) [
      | inl same ↦
          let absent : count (has_number em_number) orders ≡ 0 =
            subst (λ m. count (has_number m) orders ≡ 0) (text_eq_sound o.em_number em_number same)
              (first-none (has_number o.em_number) orders free) in
          ground (arith, grown, absent, same)
      | inr other ↦ ground (arith, grown, other, numbered em_number)
    ]

change_order-IsWell :
    (order_id : ℕ) (change : OrderEm → OrderEm) (db : OrderDb)
    → ((o : OrderEm) → (change o).em_number ≡ o.em_number)
    → ((o : OrderEm) → IsSited o → IsSited (change o))
    → IsWell db
    → IsWell (change_order order_id change db).1
unfolding get_order
change_order-IsWell order_id change db same keeps well =
    elim (Option-cases (get_order order_id db)) [
      | inl unknown ↦ rw (unknown, change_order) well
      | inr (o, found) ↦
          rw (found, change_order)
            (update-IsWell order_id change db.orders same keeps well.0 well.1)
    ]

create_order-IsWell :
    (id : ℕ) (n : NewOrder) (created_by : Text) (now : ℕ) (db : OrderDb)
    → IsWell db
    → IsWell (create_order id n created_by now db).1
unfolding create_order get_order_by_em_number
create_order-IsWell id n created_by now db well =
    elim (Bool-cases (contract_is_active n.contract_id db.contracts)) [
      | inr no_contract ↦ rw no_contract well
      | inl contract ↦ elim (Bool-cases (partner_is_active n.partner_company_id db.partners)) [
        | inr no_partner ↦ rw contract (rw no_partner well)
        | inl partner ↦ elim (Option-cases (first (has_number n.em_number) db.orders)) [
          | inr (o, taken) ↦ rw contract (rw partner (rw taken well))
          | inl free ↦ rw contract (
              rw partner (
                rw free (
                  insert-IsNumbered (order_of id n created_by now) db.orders free well.0,
                  All-insert IsSited (order_of id n created_by now) db.orders well.1
                      (λ h. absurd cc),
                )))
        ]
      ]
    ]

update_order-IsWell :
    (order_id : ℕ) (u : OrderUpdate) (updated_by : Text) (now : ℕ) (db : OrderDb)
    → IsWell db
    → IsWell (update_order order_id u updated_by now db).1
unfolding update_order get_order
update_order-IsWell order_id u updated_by now db well =
    elim (Option-cases (get_order order_id db)) [
      | inl unknown ↦ rw (unknown, update_order) well
      | inr (o, found) ↦ elim (Bool-cases (is_null u.title || is_null u.lock_status)) [
        | inl null ↦ rw (found, update_order) (rw null well)
        | inr given ↦
            rw (found, update_order)
              (rw given (
                update-IsWell order_id (updated_order u updated_by now) db.orders (λ _. refl)
                  (λ _ h. h) well.0 well.1))
      ]
    ]

step-IsWell : (c : Call) (db : OrderDb) → IsWell db → IsWell (step c db)
unfolding step start_provisioning complete_provisioning fail_provisioning
step-IsWell (creates id n created_by now) db h = create_order-IsWell id n created_by now db h
step-IsWell (updates order_id u updated_by now) db h =
    update_order-IsWell order_id u updated_by now db h
step-IsWell (starts order_id now) db h =
    change_order-IsWell order_id _ db (λ _. refl) (λ _ _ k. absurd cc) h
step-IsWell (completes order_id team_name site_url now) db h =
    change_order-IsWell order_id (provisioned team_name site_url now) db (λ _. refl)
      (λ _ _ _. (refl, refl, refl)) h
step-IsWell (fails order_id now) db h =
    change_order-IsWell order_id _ db (λ _. refl) (λ _ _ k. absurd cc) h

-- After any history of calls from a database in which no number is given to two orders and each completed
-- order has its team, its site and the time of its provisioning, the same holds.
pub run-IsWell : (cs : List Call) (db : OrderDb) → IsWell db → IsWell (run cs db)
unfolding run
run-IsWell [] db h = h
run-IsWell (c ∷ cs) db h = run-IsWell cs (step c db) (step-IsWell c db h)
