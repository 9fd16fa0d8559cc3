-- ===== src/Tests/Services.antt =====
-- The results on the services for merchants and payments, at one invocation each.
use serverless_order_integra.Base.{
  ◌≡◌, refl, ◌⊎◌, ◌∷◌, [], none, some, ok, get, set, key_equality, string_equality, str_lt,
  str_length,
}
use serverless_order_integra.Domain.Status.{
  awaiting_payment, cancelled, status_eq, is_terminal_payment_status, payment_status_eq,
  PaymentStatus,
}
use serverless_order_integra.Domain.Order.{Order, OrderPayment}
use serverless_order_integra.Domain.Transition.{
  allowed_transition, validate_payment_gate, validate_failure, provider_for_change,
  apply_order_status_change,
}
use serverless_order_integra.Domain.Transition.Permits.{Permits}
use serverless_order_integra.Domain.PaymentChange.{same_failure, apply_payment_status_change}
use serverless_order_integra.Domain.Lifecycle.{Step}
use serverless_order_integra.Repository.Contract.{StripeWebhookOrderMutation, status_changed}
use serverless_order_integra.Repository.State.{tuple_key}
use serverless_order_integra.App.World.{
  create_payment_intent, CreateStripePaymentIntentInput, World, seen,
}
use serverless_order_integra.App.ChangeStatus.{ChangeOrderStatusCommand, change_order_status}
use serverless_order_integra.App.PreparePayment.{
  StripePaymentClient, StripePaymentIntentSnapshot, automatic, payment_status,
  PrepareStripePaymentIntentCommand, prepare_stripe_payment_intent,
}
use serverless_order_integra.App.PreparePayment.Creates.{
  Creatable, IsCreationOf, prepare_stripe_payment_intent-outside,
}
use serverless_order_integra.App.StripeProposal.{
  ProcessStripeWebhookCommand, apply_change, propose_change, same_money, status_changed_order,
  payment_changed_order,
}
use serverless_order_integra.App.StripeProposal.Sound.{Matches, propose_change-Matches}
use serverless_order_integra.Tests.Samples.{
  ten, eleven, price, new_order, pending_order, world_with,
}

-- A pending order is cancelled by its merchant.
abbrev cancellation : ChangeOrderStatusCommand
cancellation = record {
  merchant_id = "merchant-1";
  order_id = "order-1";
  expected_version = 2;
  correlation_id = "correlation-1";
  causation_id = "request-3";
  request = record {
    target_status = cancelled;
    reason = "sold out";
    delivery_provider_order_id = none;
    failure = none;
  };
}

abbrev cancelled_sample : Order
cancelled_sample = record pending_order { status = cancelled; updated_at = eleven; version = 3 }

abbrev world_cancelled : World
world_cancelled = (change_order_status eleven cancellation (world_with pending_order)).1

new_order_stored :
    get (tuple_key "merchant-1" "order-1") (seen (world_with new_order)).orders ≡ some new_order
unfolding get set
new_order_stored = refl

abbrev preparation : PrepareStripePaymentIntentCommand
preparation = record {
  merchant_id = "merchant-1";
  order_id = "order-1";
  correlation_id = "correlation-1";
  causation_id = "request-4";
}

abbrev settled_snapshot : StripePaymentIntentSnapshot
settled_snapshot = record {
  stripe_payment_intent_id = "pi_1";
  status = payment_status PaymentStatus.succeeded;
  amount = price;
  capture_method = automatic;
  merchant_id = "merchant-1";
  order_id = "order-1";
  client_secret = some "secret";
  last_failure_reason_code = none;
}

-- A Stripe that knows one intent.
abbrev one_intent : StripePaymentClient
one_intent = record {
  create_intent = λ input. ok settled_snapshot;
  retrieve_intent = λ id. ok settled_snapshot;
}

prepare_stripe_payment_intent-outside_example :
    ((prepare_stripe_payment_intent one_intent ten preparation (world_with new_order)).1.outside
      ≡ [])
    ⊎ ((o : Order) × (p : OrderPayment) × (get
            (tuple_key "merchant-1" "order-1")
            (seen (world_with new_order)).orders
          ≡ some o)
        × Creatable o p
        × (i : CreateStripePaymentIntentInput) × IsCreationOf o p i
        × ((prepare_stripe_payment_intent one_intent ten preparation
              (world_with new_order)).1.outside
            ≡ create_payment_intent i ∷ []))
prepare_stripe_payment_intent-outside_example =
    prepare_stripe_payment_intent-outside one_intent ten preparation (world_with new_order)

abbrev succeeded_event : ProcessStripeWebhookCommand
succeeded_event = record {
  event_id = "evt_1";
  event_type = "payment_intent.succeeded";
  stripe_payment_intent_id = "pi_1";
  event_fingerprint = "print-1";
  correlation_id = "correlation-1";
}

abbrev release_mutation : StripeWebhookOrderMutation
release_mutation = status_changed (record {
  correlation_id = "correlation-1";
  causation_id = "evt_1";
  previous_status = awaiting_payment;
  reason = none;
})

proposing :
    propose_change succeeded_event new_order settled_snapshot ten
    ≡ ok (apply_change pending_order release_mutation)
unfolding propose_change same_money status_changed_order payment_changed_order
    apply_payment_status_change is_terminal_payment_status payment_status_eq same_failure str_length
    apply_order_status_change status_eq allowed_transition validate_failure validate_payment_gate
    provider_for_change str_lt
proposing = refl

propose_change-Matches_example : Matches new_order settled_snapshot × Step new_order pending_order
propose_change-Matches_example =
    propose_change-Matches succeeded_event new_order settled_snapshot ten proposing
