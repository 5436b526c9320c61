-- ===== src/Orders/Pages.antt =====
-- The pages of `list_orders` together.
use pool_shrpnt.Prelude.{
  ℕ, zero, suc, ◌+◌, ◌*◌, ◌≤◌, ◌≡◌, refl, sym, ◌∙◌, ap, List, [], ◌++◌, arith, take, drop, length,
  take-add, take-length, length-take,
}
use mathlib.Core.Path.{subst}
use pool_shrpnt.Prelude.Table.{select}
use pool_shrpnt.Prelude.Outcome.{Result, ok, err}
use pool_shrpnt.Orders.{OrderFilter, is_listed, list_orders}
use pool_shrpnt.Orders.Model.{OrderEm, OrderDb}
use pool_shrpnt.Orders.Ordering.{IsOrdered, IsDistinct, IsOrdered-unique, length-IsOrdered}

abbrev rows_of : Result (List OrderEm × ℕ) → List OrderEm
rows_of (ok page) = page.0
rows_of (err e) = []

-- The rows of the pages from 1 to `pages`, one after the other, each as its own query arranges them.
unfoldable pub pages_together :
    (ℕ → List OrderEm → List OrderEm) → ℕ → ℕ → OrderFilter → OrderDb → List OrderEm
pages_together arrange zero page_size f db = []
pages_together arrange (suc pages) page_size f db =
    pages_together arrange pages page_size f db
    ++ rows_of (list_orders (arrange (suc pages)) (suc pages) page_size f db)

module _ (arrange : ℕ → List OrderEm → List OrderEm) (page_size : ℕ) (f : OrderFilter)
    (db : OrderDb)
    (ordered : (n : ℕ)
      → IsOrdered (select (is_listed f) db.orders) (arrange n (select (is_listed f) db.orders)))
    (distinct : IsDistinct (select (is_listed f) db.orders)) where
  abbrev found : List OrderEm
  found = select (is_listed f) db.orders

  pages_together-take :
      (pages : ℕ)
      → pages_together arrange pages page_size f db ≡ take (pages * page_size) (arrange 0 found)
  unfolding pages_together list_orders
  pages_together-take zero = let none_yet : 0 * page_size ≡ 0 = omega arith in rw none_yet refl
  pages_together-take (suc pages) =
      let rows = arrange 0 found in
      let again : arrange (suc pages) found ≡ rows =
        IsOrdered-unique distinct (ordered (suc pages)) (ordered 0) in
      let one_more : pages * page_size + page_size ≡ suc pages * page_size = omega arith in
      ap (λ l. l ++ take page_size (drop (pages * page_size) (arrange (suc pages) found)))
        (pages_together-take pages)
      ∙ ap (λ l. take (pages * page_size) rows ++ take page_size (drop (pages * page_size) l)) again
      ∙ sym (take-add (pages * page_size) page_size rows)
      ∙ ap (λ n. take n rows) one_more

  -- Where no two of the orders that pass the filter have the same time of creation and every query
  -- returns them from the last created to the first, a page holds at most as many orders as asked for
  -- and reports the number of all that pass the filter, and as many pages as it takes hold, one after
  -- the other, each of those orders as often as the table does, from the last created to the first.
  pub list_orders_complete :
      (pages page : ℕ)
      → length (select (is_listed f) db.orders) ≤ pages * page_size
      → ((rows : List OrderEm) × (list_orders (arrange (suc page)) (suc page) page_size f db
            ≡ ok (rows, length (select (is_listed f) db.orders)))
          × (length rows ≤ page_size))
        × IsOrdered (select (is_listed f) db.orders) (pages_together arrange pages page_size f db)
  unfolding list_orders
  list_orders_complete pages page enough =
      let rows = arrange 0 found in
      let all : pages_together arrange pages page_size f db ≡ rows =
        pages_together-take pages
        ∙ take-length (pages * page_size) rows
            (omega (arith, enough, length-IsOrdered (ordered 0))) in
      (
        (
          take page_size (drop (page * page_size) (arrange (suc page) found)),
          refl,
          length-take page_size (drop (page * page_size) (arrange (suc page) found)),
        ),
        subst (IsOrdered found) (sym all) (ordered 0),
      )
