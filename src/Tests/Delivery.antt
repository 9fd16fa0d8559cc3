-- ===== src/Tests/Delivery.antt =====
-- The results on the submission to the provider, at one event.
use serverless_order_integra.Base.{
  true, String, ◌≡◌, refl, ◌⊎◌, ◌∷◌, [], some, Result, ok, err, get, set, key_equality,
  string_equality,
}
use serverless_order_integra.Domain.Order.{Order}
use serverless_order_integra.Domain.Errors.{AppError, vendor_submission}
use serverless_order_integra.Repository.State.{tuple_key}
use serverless_order_integra.App.World.{submit_delivery, seen}
use serverless_order_integra.App.Delivery.{
  DeliveryRequestedEvent, DeliveryProviderAcceptance, process_delivery_event,
}
use serverless_order_integra.App.Delivery.Completes.{
  order_is_sent, retryable_failure_writes_nothing,
}
use serverless_order_integra.App.Delivery.Submits.{Sendable, process_delivery_event-outside}
use serverless_order_integra.Tests.Samples.{eleven, pending_order, world_with, paid}

abbrev delivery_event : DeliveryRequestedEvent
delivery_event = record {
  event_id = "event-2";
  aggregate_id = "order-1";
  aggregate_version = 2;
  correlation_id = "correlation-1";
  merchant_id = "merchant-1";
  delivery_provider_submission_key = "submission-1";
}

-- A provider that accepts every order.
abbrev accepting_vendor : Order → String → Result AppError DeliveryProviderAcceptance
accepting_vendor o id =
    ok (record { delivery_provider_order_id = "delivery-1"; accepted_at = eleven })

process_delivery_event-outside_example :
    ((process_delivery_event accepting_vendor eleven delivery_event
        (world_with pending_order)).1.outside
      ≡ [])
    ⊎ ((o : Order) × (get
            (tuple_key "merchant-1" "order-1")
            (seen (world_with pending_order)).orders
          ≡ some o)
        × Sendable delivery_event o
        × ((process_delivery_event accepting_vendor eleven delivery_event
              (world_with pending_order)).1.outside
            ≡ submit_delivery o "correlation-1" ∷ []))
process_delivery_event-outside_example =
    process_delivery_event-outside accepting_vendor eleven delivery_event (world_with pending_order)

pending_stored :
    get (tuple_key "merchant-1" "order-1") (seen (world_with pending_order)).orders
    ≡ some pending_order
unfolding get set
pending_stored = refl

pending_order-Sendable : Sendable delivery_event pending_order
pending_order-Sendable = record {
  status = refl;
  paid = (paid, refl, refl);
  version = refl;
  merchant = refl;
  key = refl;
}

order_is_sent_example :
    (process_delivery_event accepting_vendor eleven delivery_event
      (world_with pending_order)).1.outside
    ≡ submit_delivery pending_order "correlation-1" ∷ []
order_is_sent_example =
    order_is_sent accepting_vendor eleven delivery_event pending_order pending_order-Sendable
      (world_with pending_order) pending_stored

-- A provider that is out of order for a while.
abbrev failing_vendor : Order → String → Result AppError DeliveryProviderAcceptance
failing_vendor o id = err (vendor_submission "UNAVAILABLE" "try again" true)

retryable_failure_writes_nothing_example :
    process_delivery_event failing_vendor eleven delivery_event (world_with pending_order) ≡ (
      err (vendor_submission "UNAVAILABLE" "try again" true),
      record (world_with pending_order) {
        outside = submit_delivery pending_order "correlation-1" ∷ [];
      },
    )
retryable_failure_writes_nothing_example =
    retryable_failure_writes_nothing failing_vendor eleven delivery_event pending_order
      pending_order-Sendable (world_with pending_order) "UNAVAILABLE" "try again" pending_stored
      refl
