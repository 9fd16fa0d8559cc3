-- ===== src/Tests/Samples.antt =====
-- Orders, changes and requests that the tests run on.
use serverless_order_integra.Base.{String, [], ◌∷◌, none, some}
use serverless_order_integra.Domain.Status.{
  OrderStatus, awaiting_payment, pending_submission, submitted, picked_up, delivered, not_started,
  succeeded,
}
use serverless_order_integra.Domain.Order.{
  Money, DeliveryLocation, mock_delivery, OrderPayment, Order,
}
use serverless_order_integra.Domain.Transition.{OrderStatusChange}
use serverless_order_integra.Domain.PaymentChange.{PaymentStatusChange}
use serverless_order_integra.Repository.State.{empty_repository, key_of}
use serverless_order_integra.Repository.Orders.{put_order}
use serverless_order_integra.App.World.{World}
use serverless_order_integra.Repository.Contract.{CreateOrderInput, OrderStatusChangedMutation}

abbrev pub nine : String
nine = "2026-01-01T09:00:00.000Z"

abbrev pub ten : String
ten = "2026-01-01T10:00:00.000Z"

abbrev pub eleven : String
eleven = "2026-01-01T11:00:00.000Z"

abbrev pub price : Money
price = record { amount_minor = 1500; currency = "RON" }

abbrev pub place : DeliveryLocation
place = record {
  address_line = "Strada Lunga 1";
  city = "Brasov";
  postal_code = "500001";
  country_code = "RO";
}

abbrev pub unstarted : OrderPayment
unstarted = record {
  status = not_started;
  amount = price;
  stripe_creation_key = "creation-1";
  stripe_payment_intent_id = none;
  last_failure = none;
  created_at = nine;
  updated_at = nine;
}

abbrev pub paid_to : PaymentStatusChange
paid_to = record {
  target_status = succeeded;
  stripe_payment_intent_id = "pi_1";
  last_failure = none;
}

abbrev pub paid : OrderPayment
paid = record {
  status = succeeded;
  amount = price;
  stripe_creation_key = "creation-1";
  stripe_payment_intent_id = some "pi_1";
  last_failure = none;
  created_at = nine;
  updated_at = ten;
}

-- A failure that is noted on the payment after it has succeeded.
abbrev pub late_failure : PaymentStatusChange
late_failure = record paid_to {
  last_failure = some (record { reason_code = "late"; occurred_at = ten });
}

abbrev pub noted : OrderPayment
noted = record paid {
  last_failure = some (record { reason_code = "late"; occurred_at = ten });
  updated_at = eleven;
}

abbrev pub new_order : Order
new_order = record {
  order_id = "order-1";
  merchant_id = "merchant-1";
  merchant_order_id = "shop-17";
  status = awaiting_payment;
  items =
      record { item_reference = "bread"; description = "A loaf"; quantity = 1; unit_price = price }
      ∷ [];
  total = price;
  pickup = place;
  dropoff = place;
  provider = record {
    delivery_provider_code = mock_delivery;
    delivery_provider_submission_key = "submission-1";
    delivery_provider_order_id = none;
    accepted_at = none;
  };
  payment = some unstarted;
  failure = none;
  created_at = nine;
  updated_at = nine;
  version = 1;
}

abbrev pub change_to : OrderStatus → OrderStatusChange
change_to status = record {
  target_status = status;
  delivery_provider_order_id = none;
  accepted_at = none;
  failure = none;
}

abbrev pub pending_order : Order
pending_order = record new_order {
  payment = some paid;
  status = pending_submission;
  updated_at = ten;
  version = 2;
}

abbrev pub acceptance : OrderStatusChange
acceptance = record {
  target_status = submitted;
  delivery_provider_order_id = some "delivery-1";
  accepted_at = some eleven;
  failure = none;
}

abbrev pub submitted_sample : Order
submitted_sample = record pending_order {
  status = submitted;
  provider = record (new_order.provider) {
    delivery_provider_order_id = some "delivery-1";
    accepted_at = some eleven;
  };
  updated_at = eleven;
  version = 3;
}

abbrev pub picked_up_sample : Order
picked_up_sample = record submitted_sample { status = picked_up; version = 4 }

abbrev pub delivered_sample : Order
delivered_sample = record submitted_sample { status = delivered; version = 5 }

abbrev pub first_input : CreateOrderInput
first_input = record {
  order = new_order;
  idempotency_key = "key-1";
  request_fingerprint = "print-1";
  mutation = record { correlation_id = "correlation-1"; causation_id = "request-1" };
}

abbrev pub traced_from : OrderStatus → OrderStatusChangedMutation
traced_from status = record {
  correlation_id = "correlation-1";
  causation_id = "request-2";
  previous_status = status;
  reason = none;
}

-- A world in which one order is stored and nothing else runs.
abbrev pub world_with : Order → World
world_with o = record {
  repository = put_order (key_of o) o empty_repository;
  others = [];
  outside = [];
}
