-- ===== src/Orders/Tests.antt =====
-- Runs of the order service on a small database, and instances of its theorems.
use pool_shrpnt.Prelude.{
  ℕ, map, ◌==◌, if◌then◌else◌, ◌≤◌, ◌≡◌, refl, true, List, [], ◌∷◌, none, arith, length,
}
use pool_shrpnt.Prelude.Text.{Text, codes, text_eq}
use pool_shrpnt.Prelude.Table.{select}
use pool_shrpnt.Prelude.Outcome.{ok, err, value_error}
use pool_shrpnt.Orders.{
  OrderFilter, is_listed, order_of, get_order, get_order_by_em_number, create_order,
  start_provisioning, complete_provisioning, list_orders, can_provision_order, already,
}
use pool_shrpnt.Orders.Model.{OrderEm, NewOrder, OrderDb, in_progress}
use pool_shrpnt.Orders.Ordering.{IsOrdered, IsDistinct}
use pool_shrpnt.Orders.Sorting.{place_order, order_by_created, order_by_created-IsOrdered}
use pool_shrpnt.Orders.Pages.{pages_together, list_orders_complete}
use pool_shrpnt.Orders.Reach.{Call, creates, starts, completes, run, IsWell, run-IsWell}

abbrev request : Text → NewOrder
request em_number = record {
  em_number = em_number;
  title = codes "order";
  description = none;
  contract_id = 1;
  partner_company_id = 2;
  year = 2025;
  part = codes "A";
}

abbrev empty_db : OrderDb
empty_db = record {
  contracts = record { id = 1; status = codes "active" } ∷ [];
  partners = record { id = 2; is_active = true } ∷ [];
  orders = [];
}

abbrev one_order : OrderDb
one_order = record empty_db { orders = order_of 7 (request (codes "EM1")) (codes "ann") 100 ∷ [] }

creates_first : (create_order 7 (request (codes "EM1")) (codes "ann") 100 empty_db).1 ≡ one_order
unfolding create_order get_order_by_em_number text_eq
creates_first = refl

number_taken :
    (create_order 8 (request (codes "EM1")) (codes "ann") 200 one_order).0 ≡ err value_error
unfolding create_order get_order_by_em_number text_eq
number_taken = refl

-- The start is not guarded by `can_provision_order`: a completed order goes back to "in_progress".
restarts :
    can_provision_order 7
      (start_provisioning 7 400 (complete_provisioning 7 (codes "t") (codes "s") 300 one_order).1).1
    ≡ already in_progress
unfolding can_provision_order start_provisioning complete_provisioning get_order
restarts = refl

abbrev two_orders : OrderDb
two_orders = record empty_db {
  orders =
      order_of 7 (request (codes "EM1")) (codes "ann") 100
      ∷ order_of 8 (request (codes "EM2")) (codes "ann") 200
      ∷ [];
}

abbrev no_filter : OrderFilter
no_filter = record { contract_id = none; partner_company_id = none; provisioning_status = none }

newest_first :
    list_orders order_by_created 1 1 no_filter two_orders
    ≡ ok (order_of 8 (request (codes "EM2")) (codes "ann") 200 ∷ [], 2)
unfolding list_orders order_by_created place_order
newest_first = refl

-- The two orders were created at different times.
two_orders-IsDistinct : IsDistinct (select (is_listed no_filter) two_orders.orders)
two_orders-IsDistinct t = ground arith

list_orders_complete_example :
    ((rows : List OrderEm) × (list_orders order_by_created 1 1 no_filter two_orders ≡ ok (rows, 2))
      × (length rows ≤ 1))
    × IsOrdered
        (select (is_listed no_filter) two_orders.orders)
        (pages_together (λ _. order_by_created) 2 1 no_filter two_orders)
list_orders_complete_example =
    list_orders_complete (λ _. order_by_created) 1 no_filter two_orders
      (λ n. order_by_created-IsOrdered (select (is_listed no_filter) two_orders.orders))
      two_orders-IsDistinct 2 0 (omega arith)

-- Two orders of the same time, which two queries arrange differently: the pages repeat one of them and
-- miss the other.
abbrev tied_orders : OrderDb
tied_orders = record two_orders {
  orders = map (λ (o : OrderEm). record o { created_at = 5 }) two_orders.orders;
}

abbrev swapped : List OrderEm → List OrderEm
swapped [] = []
swapped (x ∷ []) = x ∷ []
swapped (x ∷ y ∷ rows) = y ∷ x ∷ rows

abbrev arranges : ℕ → List OrderEm → List OrderEm
arranges n rows = if n == 1 then rows else swapped rows

ties_repeat :
    map (λ (o : OrderEm). o.id) (pages_together arranges 2 1 no_filter tied_orders) ≡ 7 ∷ 7 ∷ []
unfolding pages_together list_orders
ties_repeat = refl

abbrev calls : List Call
calls =
    creates 7 (request (codes "EM1")) (codes "ann") 100
    ∷ creates 8 (request (codes "EM1")) (codes "bob") 200
    ∷ starts 7 300
    ∷ completes 7 (codes "team") (codes "site") 400
    ∷ []

run-IsWell_example : IsWell (run calls empty_db)
run-IsWell_example = run-IsWell calls empty_db ((λ em_number. omega arith), tt)
