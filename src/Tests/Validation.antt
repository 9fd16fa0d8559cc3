-- ===== src/Tests/Validation.antt =====
-- The results on the validation of request bodies, at concrete bodies.
use serverless_order_integra.Base.{
  ◌≤◌, ◌≡◌, ◌↔◌, refl, [], none, some, ok, get, set, key_equality, str_length,
}
use serverless_order_integra.Domain.Status.{not_started}
use serverless_order_integra.Domain.Order.{Order, DeliveryLocation, create_initial_order_payment}
use serverless_order_integra.Json.{max_safe_integer}
use serverless_order_integra.Repository.Contract.{created}
use serverless_order_integra.Repository.State.{empty_repository}
use serverless_order_integra.Repository.Orders.{create}
use serverless_order_integra.App.World.{World}
use serverless_order_integra.App.CreateOrder.{
  CreateOrderRequest, create_order, calculate_order_total, identifier, without_hyphens,
}
use serverless_order_integra.App.CreateOrder.Fingerprint.{
  canonical_request, fingerprint_create_order_request,
}
use serverless_order_integra.App.CreateOrder.Stored.{IsFirst}
use serverless_order_integra.App.CreateOrder.Body.{
  CreateOrderCaller, stored, command_of, create_order_from_body, created_order_is_bounded,
}
use serverless_order_integra.App.Validation.{
  valid, joined, unknown_fields, text_issues, integer_issues, result_of,
}
use serverless_order_integra.App.Validation.CreateOrder.{
  capitals_pattern, read_money_fields, read_line_fields, read_each_line, read_order_lines,
  read_location_fields, total_issues, validate_currencies_and_total, read_request, validate_fields,
  validate_create_order_request,
}
use serverless_order_integra.App.Validation.CreateOrder.Acceptable.{IsAcceptable}
use serverless_order_integra.App.Validation.CreateOrder.Bounds.{validated_request-IsAcceptable}
use serverless_order_integra.App.Validation.CreateOrder.Accepts.{canonical_request_is_valid_iff}
use serverless_order_integra.Tests.Samples.{nine, price, place, new_order}

abbrev elsewhere : DeliveryLocation
elsewhere = record place { address_line = "Strada Scurta 2" }

abbrev bread_request : CreateOrderRequest
bread_request = record {
  merchant_order_id = "shop-17";
  items = new_order.items;
  pickup = place;
  dropoff = elsewhere;
}

bread_is_valid :
    validate_create_order_request (canonical_request bread_request) ≡ valid bread_request
unfolding validate_fields read_request read_order_lines read_each_line read_line_fields
    read_money_fields read_location_fields total_issues validate_currencies_and_total joined
    unknown_fields text_issues integer_issues result_of capitals_pattern canonical_request
    str_length
bread_is_valid = refl

validated_request-IsAcceptable_example : IsAcceptable bread_request
validated_request-IsAcceptable_example =
    validated_request-IsAcceptable (canonical_request bread_request) bread_request bread_is_valid

canonical_request_is_valid_iff_example :
    (validate_create_order_request (canonical_request bread_request) ≡ valid bread_request)
    ↔ IsAcceptable bread_request
canonical_request_is_valid_iff_example = canonical_request_is_valid_iff bread_request

abbrev caller : CreateOrderCaller
caller = record {
  merchant_id = "merchant-1";
  idempotency_key = "key-1";
  correlation_id = "correlation-1";
  causation_id = "request-1";
}

abbrev empty_world : World
empty_world = record { repository = empty_repository; others = []; outside = [] }

abbrev bread_order : Order
bread_order = record new_order {
  order_id = "ord_ab12";
  dropoff = elsewhere;
  provider = record (new_order.provider) { delivery_provider_submission_key = "submission_cd34" };
  payment = some (record {
    status = not_started;
    amount = price;
    stripe_creation_key = "stripe-payment-intent:merchant-1:ord_ab12";
    stripe_payment_intent_id = none;
    last_failure = none;
    created_at = nine;
    updated_at = nine;
  });
}

abbrev bread_world : World
bread_world =
    (create_order_from_body (λ text. "print-1") "ab-12" "cd-34" nine caller
      (canonical_request bread_request) empty_world).1

creating_bread :
    create_order_from_body
      (λ text. "print-1")
      "ab-12"
      "cd-34"
      nine
      caller
      (canonical_request bread_request)
      empty_world
    ≡ (ok (stored (created bread_order)), bread_world)
unfolding create_order_from_body create_order create_initial_order_payment calculate_order_total
    identifier without_hyphens create get set fingerprint_create_order_request validate_fields
    read_request read_order_lines read_each_line read_line_fields read_money_fields
    read_location_fields total_issues validate_currencies_and_total joined unknown_fields
    text_issues integer_issues result_of capitals_pattern canonical_request str_length
creating_bread = refl

created_order_is_bounded_example :
    (r : CreateOrderRequest) × (validate_create_order_request (canonical_request bread_request)
      ≡ valid r)
    × IsAcceptable r
    × IsFirst (command_of caller r) nine bread_order
    × (bread_order.total.amount_minor ≤ max_safe_integer)
created_order_is_bounded_example =
    created_order_is_bounded (λ text. "print-1") "ab-12" "cd-34" nine caller
      (canonical_request bread_request) empty_world bread_world creating_bread
