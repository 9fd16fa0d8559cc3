-- ===== src/App/CreateOrder.antt =====
-- src/application/create-order.ts, from the validated request on, with calculateOrderTotal of
-- src/application/create-order-validation.ts.
pub mod Stored
pub mod Fingerprint
pub mod Body
use Prim.Native.Char.{code}
use Prim.Native.String.{◌++◌ as str_append}
use serverless_order_integra.Base.{
  ℕ, ◌+◌, ◌*◌, ◌==◌, String, List, [], ◌∷◌, none, some, if◌then◌else◌,
}
use serverless_order_integra.Base.Exec.{lift, ◌>>=◌}
use serverless_order_integra.Domain.Status.{awaiting_payment}
use serverless_order_integra.Domain.Order.{
  Money, OrderLine, DeliveryLocation, mock_delivery, OrderPayment, Order,
  create_initial_order_payment,
}
use serverless_order_integra.Repository.Contract.{CreateOrderInput, CreateOrderResult}
use serverless_order_integra.Repository.Orders.{create}
use serverless_order_integra.App.World.{App, call}

-- `CreateOrderRequest` (src/application/create-order-validation.ts)
pub record CreateOrderRequest : Type 0 where
  pub merchant_order_id : String
  pub items : List OrderLine
  pub pickup : DeliveryLocation
  pub dropoff : DeliveryLocation

-- `CreateOrderCommand`, with the validated body.
pub record CreateOrderCommand : Type 0 where
  pub merchant_id : String
  pub idempotency_key : String
  pub correlation_id : String
  pub causation_id : String
  pub request : CreateOrderRequest

abbrev pub total_of : ℕ → List OrderLine → ℕ
total_of total [] = total
total_of total (line ∷ lines) =
    total_of (total + line.quantity * line.unit_price.amount_minor) lines

-- `items[0]?.unitPrice.currency ?? ''`
abbrev pub currency_of : List OrderLine → String
currency_of [] = ""
currency_of (line ∷ lines) = line.unit_price.currency

unfoldable pub calculate_order_total : CreateOrderRequest → Money
calculate_order_total request = record {
  amount_minor = total_of 0 request.items;
  currency = currency_of request.items;
}

-- `replaceAll('-', '')`; 45 is the code of the hyphen.
unfoldable pub without_hyphens : String → String
without_hyphens String.[] = String.[]
without_hyphens (String.◌∷◌ c s) =
    let rest = without_hyphens s in if code c == 45 then rest else String.◌∷◌ c rest

unfoldable pub identifier : String → String → String
identifier prefix generated = str_append prefix (without_hyphens generated)

abbrev pub creation_key : String → String → String
creation_key merchant_id order_id =
    str_append "stripe-payment-intent:" (str_append merchant_id (str_append ":" order_id))

-- The order that is stored, around its payment.
abbrev order_for : CreateOrderCommand → String → String → String → OrderPayment → Order
order_for command order_id submission_key now payment = record {
  order_id = order_id;
  merchant_id = command.merchant_id;
  merchant_order_id = command.request.merchant_order_id;
  status = awaiting_payment;
  items = command.request.items;
  total = calculate_order_total command.request;
  pickup = command.request.pickup;
  dropoff = command.request.dropoff;
  provider = record {
    delivery_provider_code = mock_delivery;
    delivery_provider_submission_key = submission_key;
    delivery_provider_order_id = none;
    accepted_at = none;
  };
  payment = some payment;
  failure = none;
  created_at = now;
  updated_at = now;
  version = 1;
}

-- `fingerprint` hashes the request; the two ids are the readings of the generator, in their order.
module _ (fingerprint : CreateOrderRequest → String) (first_id second_id now : String) where
  abbrev pub creation : CreateOrderCommand → OrderPayment → CreateOrderInput
  creation command payment = record {
    order =
        order_for command (identifier "ord_" first_id) (identifier "submission_" second_id) now
          payment;
    idempotency_key = command.idempotency_key;
    request_fingerprint = fingerprint command.request;
    mutation = record {
      correlation_id = command.correlation_id;
      causation_id = command.causation_id;
    };
  }

  unfoldable pub create_order : CreateOrderCommand → App CreateOrderResult
  create_order command = do
    payment ← lift (
        create_initial_order_payment (calculate_order_total command.request)
          (creation_key command.merchant_id (identifier "ord_" first_id)) now)
    call (create (creation command payment))
