-- ===== src/App/Validation/CreateOrder/Acceptable.antt =====
-- The requests that src/application/create-order-validation.ts means to accept, said without its code.
use serverless_order_integra.Base.{ℕ, suc, ◌≤◌, String, ◌≡◌, true, false, List, [], ◌∷◌}
use serverless_order_integra.Domain.Order.{OrderLine, DeliveryLocation}
use serverless_order_integra.Json.{max_safe_integer}
use serverless_order_integra.App.CreateOrder.{CreateOrderRequest, calculate_order_total}
use serverless_order_integra.App.Validation.Reads.{HasLength}
use serverless_order_integra.App.Validation.CreateOrder.{capitals_pattern, locations_are_equal}

pub record IsAcceptableLocation (l : DeliveryLocation) : Type 0 where
  pub address_line : HasLength 1 200 l.address_line
  pub city : HasLength 1 100 l.city
  pub postal_code : HasLength 1 20 l.postal_code
  pub country_code : capitals_pattern 2 l.country_code ≡ true

-- A line of the currency.
pub record IsAcceptableLine (currency : String) (l : OrderLine) : Type 0 where
  pub item_reference : HasLength 1 100 l.item_reference
  pub description : HasLength 1 200 l.description
  pub quantity : (1 ≤ l.quantity) × (l.quantity ≤ 100)
  pub amount : l.unit_price.amount_minor ≤ max_safe_integer
  pub currency_form : capitals_pattern 3 l.unit_price.currency ≡ true
  pub same_currency : l.unit_price.currency ≡ currency

pub data AllAcceptable (currency : String) : List OrderLine → Type 0 where
  no_line : AllAcceptable currency []
  and_line :
      {l : OrderLine} {ls : List OrderLine}
      → IsAcceptableLine currency l
      → AllAcceptable currency ls
      → AllAcceptable currency (l ∷ ls)

abbrev pub line_count : List OrderLine → ℕ
line_count [] = 0
line_count (l ∷ ls) = suc (line_count ls)

pub record IsAcceptable (r : CreateOrderRequest) : Type 0 where
  pub merchant_order_id : HasLength 1 100 r.merchant_order_id
  pub count : (1 ≤ line_count r.items) × (line_count r.items ≤ 50)
  pub lines : AllAcceptable (calculate_order_total r).currency r.items
  pub total : (calculate_order_total r).amount_minor ≤ max_safe_integer
  pub pickup : IsAcceptableLocation r.pickup
  pub dropoff : IsAcceptableLocation r.dropoff
  pub apart : locations_are_equal r.pickup r.dropoff ≡ false
