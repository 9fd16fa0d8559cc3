-- ===== src/Tests/Creation.antt =====
-- The results on the creation of an order, at one request.
use serverless_order_integra.Base.{
  ◌≡◌, refl, [], none, some, ok, get, set, key_equality, str_length,
}
use serverless_order_integra.Domain.Status.{not_started}
use serverless_order_integra.Domain.Order.{Order, create_initial_order_payment}
use serverless_order_integra.Repository.Contract.{CreateOrderInput, created}
use serverless_order_integra.Repository.State.{empty_repository, key_of}
use serverless_order_integra.Repository.Orders.{create}
use serverless_order_integra.App.World.{World, call}
use serverless_order_integra.App.CreateOrder.{
  CreateOrderCommand, create_order, calculate_order_total, identifier, without_hyphens,
}
use serverless_order_integra.App.CreateOrder.Stored.{
  IsFirst, create_order-IsFirst, create_order-create,
}
use serverless_order_integra.Tests.Samples.{nine, price, place, new_order}

abbrev bread_command : CreateOrderCommand
bread_command = record {
  merchant_id = "merchant-1";
  idempotency_key = "key-1";
  correlation_id = "correlation-1";
  causation_id = "request-1";
  request = record {
    merchant_order_id = "shop-17";
    items = new_order.items;
    pickup = place;
    dropoff = place;
  };
}

abbrev empty_world : World
empty_world = record { repository = empty_repository; others = []; outside = [] }

abbrev bread_order : Order
bread_order = record new_order {
  order_id = "ord_ab12";
  provider = record (new_order.provider) { delivery_provider_submission_key = "submission_cd34" };
  payment = some (record {
    status = not_started;
    amount = price;
    stripe_creation_key = "stripe-payment-intent:merchant-1:ord_ab12";
    stripe_payment_intent_id = none;
    last_failure = none;
    created_at = nine;
    updated_at = nine;
  });
}

abbrev bread_world : World
bread_world = (create_order (λ r. "print-1") "ab-12" "cd-34" nine bread_command empty_world).1

creating_bread :
    create_order (λ r. "print-1") "ab-12" "cd-34" nine bread_command empty_world
    ≡ (ok (created bread_order), bread_world)
unfolding create_order create_initial_order_payment calculate_order_total identifier without_hyphens
    create get set str_length
creating_bread = refl

create_order-IsFirst_example :
    IsFirst bread_command nine bread_order
    × (get (key_of bread_order) bread_world.repository.orders ≡ some bread_order)
create_order-IsFirst_example =
    create_order-IsFirst (λ r. "print-1") "ab-12" "cd-34" nine bread_command empty_world bread_world
      creating_bread

create_order-create_example :
    (input : CreateOrderInput) × IsFirst bread_command nine input.order
    × (input.idempotency_key ≡ "key-1")
    × (input.request_fingerprint ≡ "print-1")
    × (create_order (λ r. "print-1") "ab-12" "cd-34" nine bread_command empty_world
        ≡ call (create input) empty_world)
create_order-create_example =
    create_order-create (λ r. "print-1") "ab-12" "cd-34" nine bread_command empty_world
