-- ===== src/Tests/Worker.antt =====
-- The results on the delivery worker and its messages, at concrete messages.
use serverless_order_integra.Base.{
  String, ◌≡◌, refl, true, some, List, [], ◌∷◌, ok, Option, Result, str_length,
}
use serverless_order_integra.Domain.Errors.{AppError}
use serverless_order_integra.Domain.Order.{Order}
use serverless_order_integra.Json.{Value}
use serverless_order_integra.Json.Text.{stringify}
use serverless_order_integra.Events.{DomainEvent, order_ready_for_submission, ready_payload}
use serverless_order_integra.Events.Encoded.{event_value}
use serverless_order_integra.Events.Patterns.{
  safe_id_pattern, event_id_pattern, order_id_pattern, merchant_id_pattern,
}
use serverless_order_integra.Events.DeliveryRequested.{parse_delivery_requested_event}
use serverless_order_integra.Events.DeliveryRequested.Accepts.{
  IsWellFormed, IsDeliverable, Requests, requested, sent_request_is_accepted,
}
use serverless_order_integra.App.World.{World}
use serverless_order_integra.App.Delivery.{DeliveryProviderAcceptance}
use serverless_order_integra.Lambda.DeliveryWorker.{SqsRecord, delivery_worker_handler}
use serverless_order_integra.Lambda.DeliveryWorker.Reports.{
  Processed, AllNamed, none_left, named, worker_reports_failed_messages,
}
use serverless_order_integra.Tests.Samples.{ten, pending_order, world_with}

abbrev event : DomainEvent
event = record {
  event_id = "evt_0123456789abcdefghij";
  event_type = order_ready_for_submission;
  aggregate_id = "ord_12345678";
  aggregate_version = 2;
  occurred_at = ten;
  correlation_id = "correlation-1";
  causation_id = "request-2";
  payload = ready_payload "mrc_1" "submission-1";
}

event-IsWellFormed : IsWellFormed (λ s. true) event
unfolding str_length safe_id_pattern event_id_pattern order_id_pattern
event-IsWellFormed = record {
  event_id = refl;
  event_id_form = refl;
  aggregate = refl;
  aggregate_form = refl;
  version = refl;
  date = refl;
  correlation = refl;
  causation = refl;
}

deliverable : IsDeliverable "mrc_1" "submission-1"
unfolding str_length safe_id_pattern merchant_id_pattern
deliverable = record { merchant_id = refl; merchant_form = refl; submission_key = refl }

-- A parser that knows the one message.
abbrev parse : String → Option Value
parse text = some (event_value event)

sent_request_is_accepted_example :
    parse_delivery_requested_event (λ s. true) parse (stringify (event_value event))
    ≡ ok (requested event "mrc_1" "submission-1")
sent_request_is_accepted_example =
    sent_request_is_accepted (λ s. true) parse event "mrc_1" "submission-1" refl event-IsWellFormed
      deliverable (Requests.ready refl refl)

abbrev vendor : Order → String → Result AppError DeliveryProviderAcceptance
vendor order correlation_id =
    ok (record { delivery_provider_order_id = "delivery-1"; accepted_at = ten })

abbrev message : SqsRecord
message = record { message_id = "message-1"; body = "{}" }

message_ids : AllNamed (message ∷ [])
unfolding str_length
message_ids = named refl none_left

worker_reports_failed_messages_example :
    (failures : List String) × (w' : World) × (delivery_worker_handler
        (λ s. true)
        parse
        vendor
        ten
        (message ∷ [])
        (world_with pending_order)
      ≡ (ok failures, w'))
    × Processed (λ s. true) parse vendor ten (world_with pending_order) (message ∷ []) w' failures
worker_reports_failed_messages_example =
    worker_reports_failed_messages (λ s. true) parse vendor ten (message ∷ [])
      (world_with pending_order) message_ids
