-- ===== src/Repository/Listing.antt =====
-- In-memory repository: the page of a merchant's orders, newest first.
pub mod Chosen
pub mod Pages
use Prim.Native.String.{◌++◌ as str_append}
use serverless_order_integra.Base.{
  ℕ, zero, suc, String, str_eq, str_lt, Bool, true, false, not, ◌&&◌, List, [], ◌∷◌, Option, none,
  some, Map, Key, Result, ltb, if◌then◌else◌,
}
use serverless_order_integra.Base.Exec.{lift, gets, ◌>>=◌, ◌>>◌}
use serverless_order_integra.Domain.Status.{OrderStatus, status_eq}
use serverless_order_integra.Domain.Order.{Order}
use serverless_order_integra.Repository.Contract.{assert_order_page_limit}
use serverless_order_integra.Repository.State.{Repository}
use serverless_order_integra.Repository.Orders.{Repo}

pub record OrderListPosition : Type 0 where
  pub created_at : String
  pub order_id : String

pub record ListOrdersInput : Type 0 where
  pub merchant_id : String
  pub status : Option OrderStatus
  pub limit : ℕ
  pub position : Option OrderListPosition

pub record ListOrdersResult : Type 0 where
  pub orders : List Order
  pub next_position : Option OrderListPosition

abbrev pub position_of : Order → OrderListPosition
position_of order = record { created_at = order.created_at; order_id = order.order_id }

-- `ORDER#${createdAt}#${orderId}`
unfoldable pub order_list_sort_key : OrderListPosition → String
order_list_sort_key p = str_append "ORDER#" (str_append p.created_at (str_append "#" p.order_id))

abbrev pub key_lt : Order → OrderListPosition → Bool
key_lt order p = str_lt (order_list_sort_key (position_of order)) (order_list_sort_key p)

abbrev pub status_wanted : Option OrderStatus → Order → Bool
status_wanted none order = true
status_wanted (some s) order = status_eq order.status s

abbrev pub after_position : Option OrderListPosition → Order → Bool
after_position none order = true
after_position (some p) order = key_lt order p

-- The test of `filter`.
unfoldable pub is_candidate : ListOrdersInput → Order → Bool
is_candidate input order =
    str_eq order.merchant_id input.merchant_id
    && status_wanted input.status order
    && after_position input.position order

-- `[...orders.values()].filter(...)`
abbrev pub candidates : ListOrdersInput → Map Key Order → List Order
candidates input [] = []
candidates input ((k, order) ∷ m) =
    let rest = candidates input m in if is_candidate input order then order ∷ rest else rest

-- `sort` is stable, so its result is that of sorting by insertion, with the larger key first.
abbrev pub insert : Order → List Order → List Order
insert order [] = order ∷ []
insert order (x ∷ xs) =
    let rest = insert order xs in if key_lt order (position_of x) then x ∷ rest else order ∷ x ∷ xs

abbrev pub sort : List Order → List Order
sort [] = []
sort (x ∷ xs) = insert x (sort xs)

abbrev pub count : List Order → ℕ
count [] = 0
count (_ ∷ xs) = suc (count xs)

-- `slice(0, limit)`
abbrev pub slice : ℕ → List Order → List Order
slice zero xs = []
slice (suc n) [] = []
slice (suc n) (x ∷ xs) = x ∷ slice n xs

-- `orders[orders.length - 1]`
abbrev pub last_order : List Order → Option Order
last_order [] = none
last_order (x ∷ []) = some x
last_order (x ∷ y ∷ xs) = last_order (y ∷ xs)

abbrev pub next_position_for : Bool → Option Order → Option OrderListPosition
next_position_for true (some order) = some (position_of order)
next_position_for _ _ = none

abbrev pub page_of : ℕ → List Order → ListOrdersResult
page_of limit found = record {
  orders = slice limit found;
  next_position = next_position_for (ltb limit (count found)) (last_order (slice limit found));
}

unfoldable pub list : ListOrdersInput → Repo ListOrdersResult
list input = do
  lift (assert_order_page_limit input.limit)
  gets (λ r. page_of input.limit (sort (candidates input r.orders)))
