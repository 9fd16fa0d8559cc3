-- ===== src/App/CreateOrder/Body.antt =====
-- `createOrder` (src/application/create-order.ts) from the parsed body on.
use serverless_order_integra.Base.{
  ◌≤◌, String, ◌≡◌, refl, List, Result, ok, err, arith, key_equality,
}
use serverless_order_integra.Base.Exec.{pure, continue, ◌>>=◌}
use serverless_order_integra.Domain.Errors.{AppError}
use serverless_order_integra.Domain.Order.{Order}
use serverless_order_integra.Repository.Contract.{CreateOrderResult, created}
use serverless_order_integra.Json.{Value, max_safe_integer}
use serverless_order_integra.App.World.{World, App}
use serverless_order_integra.App.Validation.{ValidationIssue, ValidationResult, valid, invalid}
use serverless_order_integra.App.Validation.CreateOrder.{validate_create_order_request}
use serverless_order_integra.App.Validation.CreateOrder.Acceptable.{IsAcceptable}
use serverless_order_integra.App.Validation.CreateOrder.Bounds.{validated_request-IsAcceptable}
use serverless_order_integra.App.CreateOrder.{
  CreateOrderRequest, CreateOrderCommand, create_order, calculate_order_total,
}
use serverless_order_integra.App.CreateOrder.Fingerprint.{fingerprint_create_order_request}
use serverless_order_integra.App.CreateOrder.Stored.{IsFirst, total_of-sum_of, create_order-IsFirst}

-- `CreateOrderCommand` without its body.
pub record CreateOrderCaller : Type 0 where
  pub merchant_id : String
  pub idempotency_key : String
  pub correlation_id : String
  pub causation_id : String

pub data CreateOrderApplicationResult : Type 0 where
  invalid_request : List ValidationIssue → CreateOrderApplicationResult
  stored : CreateOrderResult → CreateOrderApplicationResult

abbrev pub command_of : CreateOrderCaller → CreateOrderRequest → CreateOrderCommand
command_of caller request = record {
  merchant_id = caller.merchant_id;
  idempotency_key = caller.idempotency_key;
  correlation_id = caller.correlation_id;
  causation_id = caller.causation_id;
  request = request;
}

stored_result :
    (m : Result AppError CreateOrderResult × World) {q : Order} {w : World}
    → continue m.0 (λ result. pure (stored result)) m.1 ≡ (ok (stored (created q)), w)
    → m ≡ (ok (created q), w)
stored_result (ok result, w) h = cc
stored_result (err e, w) h = cc

-- `digest` is the SHA-256 of a text in hexadecimal; the two ids are the readings of the generator.
module _ (digest : String → String) (first_id second_id now : String)
    (caller : CreateOrderCaller) where
  abbrev create_validated : ValidationResult CreateOrderRequest → App CreateOrderApplicationResult
  create_validated (invalid issues) = pure (invalid_request issues)
  create_validated (valid request) = do
    result ←
        create_order (fingerprint_create_order_request digest) first_id second_id now
          (command_of caller request)
    pure (stored result)

  unfoldable pub create_order_from_body : Value → App CreateOrderApplicationResult
  create_order_from_body body = create_validated (validate_create_order_request body)

  created_for :
      (v : ValidationResult CreateOrderRequest) (w w' : World) {q : Order}
      → create_validated v w ≡ (ok (stored (created q)), w')
      → (r : CreateOrderRequest) × (v ≡ valid r)
        × (create_order
              (fingerprint_create_order_request digest)
              first_id
              second_id
              now
              (command_of caller r)
              w
            ≡ (ok (created q), w'))
  created_for (invalid issues) w w' h = cc
  created_for (valid r) w w' h = (
    r,
    refl,
    stored_result
        (create_order (fingerprint_create_order_request digest) first_id second_id now
          (command_of caller r) w)
        h,
  )

  -- An order that the service reports as created for a body is the new order of the request that
  -- the body holds: the request is acceptable, and the order's total is the sum of its lines and a
  -- safe integer.
  pub created_order_is_bounded :
      (body : Value) (w w' : World) {q : Order}
      → create_order_from_body body w ≡ (ok (stored (created q)), w')
      → (r : CreateOrderRequest) × (validate_create_order_request body ≡ valid r)
        × IsAcceptable r
        × IsFirst (command_of caller r) now q
        × (q.total.amount_minor ≤ max_safe_integer)
  unfolding create_order_from_body calculate_order_total
  created_order_is_bounded body w w' h =
      let (r, e, g) = created_for (validate_create_order_request body) w w' h in
      let a = validated_request-IsAcceptable body r e in
      let (f, _) =
        create_order-IsFirst (fingerprint_create_order_request digest) first_id second_id now
          (command_of caller r) w w' g in
      let total = a.total in (r, e, a, f, omega (arith, f.total, total, total_of-sum_of 0 r.items))
