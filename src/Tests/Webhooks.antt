-- ===== src/Tests/Webhooks.antt =====
-- The results on the provider webhook, at one event.
use serverless_order_integra.Base.{
  ◌≡◌, refl, ◌∷◌, [], none, some, ok, get, key_equality, string_equality, str_lt,
}
use serverless_order_integra.Domain.Status.{is_terminal_order_status}
use serverless_order_integra.Domain.Order.{mock_delivery}
use serverless_order_integra.Domain.Transition.Permits.{Permits}
use serverless_order_integra.Repository.State.{Repository, empty_repository, tuple_key, key_of}
use serverless_order_integra.Repository.Orders.{get_by_delivery_provider_order_id}
use serverless_order_integra.Repository.Saving.{provider_event_key}
use serverless_order_integra.App.ProviderWebhook.{
  ProviderWebhookEvent, delivery_picked_up, ProcessProviderWebhookCommand, duplicate, target_status,
  changed_order_for, process_provider_webhook,
}
use serverless_order_integra.App.ProviderWebhook.Lateness.{
  terminal_order_makes_stale, process_provider_webhook_again,
}
use serverless_order_integra.App.ProviderWebhook.Decided.{IsWithProvider}
use serverless_order_integra.Tests.Samples.{eleven, paid, delivered_sample}

abbrev pickup_event : ProviderWebhookEvent
pickup_event = record {
  event_id = "event-3";
  event_type = delivery_picked_up;
  occurred_at = eleven;
  delivery_provider_order_id = "delivery-1";
  failure = none;
}

pickup_is_stale : changed_order_for pickup_event delivered_sample ≡ ok none
unfolding is_terminal_order_status
pickup_is_stale = terminal_order_makes_stale pickup_event delivered_sample refl

-- A repository in which the delivered order is known to the provider and the event is recorded.
abbrev after_pickup : Repository
after_pickup = record empty_repository {
  orders = (key_of delivered_sample, delivered_sample) ∷ [];
  provider_orders =
      (
        tuple_key "mock-delivery" "delivery-1",
        record { merchant_id = "merchant-1"; order_id = "order-1" },
      )
      ∷ [];
  processed_provider_events =
      (provider_event_key "event-3", record { fingerprint = "print-3" }) ∷ [];
}

abbrev pickup_command : ProcessProviderWebhookCommand
pickup_command = record { event = pickup_event; correlation_id = "correlation-1" }

event_recorded :
    get (provider_event_key "event-3") after_pickup.processed_provider_events
    ≡ some (record { fingerprint = "print-3" })
unfolding get
event_recorded = refl

finding :
    get_by_delivery_provider_order_id mock_delivery "delivery-1" after_pickup
    ≡ (ok (some delivered_sample), after_pickup)
unfolding get_by_delivery_provider_order_id get
finding = refl

delivered_sample-IsWithProvider : IsWithProvider delivered_sample
unfolding str_lt
delivered_sample-IsWithProvider = record {
  sound = record {
    paid = λ h. (paid, refl, refl);
    accepted = λ h. (("delivery-1", refl), (eleven, refl));
    unaccepted = λ h. cc;
    explained = refl;
  };
  known = ("delivery-1", refl);
  in_time = refl;
}

process_provider_webhook_again_example :
    process_provider_webhook
      (λ e. "print-3")
      (λ n. eleven)
      pickup_command
      (record { repository = after_pickup; others = []; outside = [] })
    ≡ (
      ok (duplicate delivered_sample),
      record { repository = after_pickup; others = []; outside = [] },
    )
unfolding target_status
process_provider_webhook_again_example =
    process_provider_webhook_again (λ e. "print-3") (λ n. eleven) pickup_command delivered_sample
      after_pickup [] event_recorded finding delivered_sample-IsWithProvider refl
