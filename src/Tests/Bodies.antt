-- ===== src/Tests/Bodies.antt =====
-- The results on the bodies of status changes and provider events, at concrete bodies.
use serverless_order_integra.Base.{String, ◌≡◌, refl, none, some, ok, Option, str_length}
use serverless_order_integra.Domain.Status.{picked_up}
use serverless_order_integra.Domain.Transition.{validate_failure}
use serverless_order_integra.Json.{Value, Fields, str, obj, field, end_of_object}
use serverless_order_integra.App.ChangeStatus.{ChangeOrderStatusRequest}
use serverless_order_integra.App.ProviderWebhook.{
  ProviderWebhookEvent, delivery_picked_up, to_status_change,
}
use serverless_order_integra.App.Validation.{valid, joined, unknown_fields, text_issues, result_of}
use serverless_order_integra.App.Validation.Failure.{read_timestamp}
use serverless_order_integra.App.Validation.ChangeStatus.{
  operator_target, check_failure_given, read_change, validate_change_fields,
  validate_change_order_status_request,
}
use serverless_order_integra.App.Validation.ChangeStatus.Operator.{
  IsOperatorChange, validated_change-IsOperatorChange,
}
use serverless_order_integra.App.Validation.ProviderWebhook.{
  identifier_pattern, supported_event_type, check_details_given, read_event, validate_event_fields,
  validate_provider_webhook_event,
}
use serverless_order_integra.App.Validation.ProviderWebhook.Explained.{
  IsExplained, validated_event-IsExplained,
}
use serverless_order_integra.Tests.Samples.{ten}

-- Every date-time is taken as normal.
abbrev to_iso : String → Option String
to_iso text = some text

abbrev pickup_body : Value
pickup_body =
    obj (
      field "targetStatus" (str "PICKED_UP")
        (field "reason" (str "Seen at the door") end_of_object))

abbrev pickup_request : ChangeOrderStatusRequest
pickup_request = record {
  target_status = picked_up;
  reason = "Seen at the door";
  delivery_provider_order_id = none;
  failure = none;
}

pickup_is_valid : validate_change_order_status_request to_iso pickup_body ≡ valid pickup_request
unfolding validate_change_fields read_change operator_target check_failure_given joined
    unknown_fields text_issues result_of str_length
pickup_is_valid = refl

validated_change-IsOperatorChange_example : IsOperatorChange pickup_request
validated_change-IsOperatorChange_example =
    validated_change-IsOperatorChange to_iso pickup_body pickup_request pickup_is_valid

abbrev event_body : Value
event_body = obj (
    field "eventId" (str "event-001") (
      field "eventType" (str "DELIVERY_PICKED_UP") (
        field "occurredAt" (str ten)
          (field "deliveryProviderOrderId" (str "delivery-1") end_of_object))))

abbrev pickup_event : ProviderWebhookEvent
pickup_event = record {
  event_id = "event-001";
  event_type = delivery_picked_up;
  occurred_at = ten;
  delivery_provider_order_id = "delivery-1";
  failure = none;
}

event_is_valid : validate_provider_webhook_event to_iso event_body ≡ valid pickup_event
unfolding validate_event_fields read_event supported_event_type check_details_given read_timestamp
    joined unknown_fields text_issues result_of identifier_pattern str_length
event_is_valid = refl

validated_event-IsExplained_example :
    (fields : Fields) × (event_body ≡ obj fields)
    × IsExplained to_iso fields pickup_event
    × (validate_failure (to_status_change pickup_event) ≡ ok tt)
validated_event-IsExplained_example =
    validated_event-IsExplained to_iso event_body pickup_event event_is_valid
