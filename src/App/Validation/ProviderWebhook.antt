-- ===== src/App/Validation/ProviderWebhook.antt =====
-- `validateProviderWebhookEvent` (src/application/provider-webhook-validation.ts).
pub mod Explained
use Prim.Native.Char.{code}
use serverless_order_integra.Base.{
  String, ◌==◌, Bool, true, false, not, ◌&&◌, ◌||◌, Option, none, some, List, [], ◌∷◌, is_some,
  if◌then◌else◌,
}
use serverless_order_integra.Domain.Order.{FailureStage, delivery, FailureDetails}
use serverless_order_integra.Json.{Value, Fields, lookup, as_record, is_text}
use serverless_order_integra.Events.Patterns.{some_of, is_safe_character}
use serverless_order_integra.App.ProviderWebhook.{
  ProviderWebhookEventType, delivery_picked_up, delivery_delivered, delivery_failed,
  delivery_cancelled, ProviderWebhookEvent,
}
use serverless_order_integra.App.Validation.{
  ValidationResult, invalid, Checked, pure, ◌>>=◌, ◌>>◌, issue, note_if, add_unknown_field_issues,
  any_text, read_string, result_of,
}
use serverless_order_integra.App.Validation.Failure.{
  read_timestamp, read_failure_fields, read_optional,
}

abbrev event_names : List String
event_names = "eventId" ∷ "eventType" ∷ "occurredAt" ∷ "deliveryProviderOrderId" ∷ "failure" ∷ []

-- `/^[A-Za-z0-9._:-]+$/`
unfoldable pub identifier_pattern : String → Bool
identifier_pattern = some_of is_safe_character

-- `EVENT_TYPES.find(...)`
unfoldable pub supported_event_type : Option Value → Option ProviderWebhookEventType
supported_event_type value =
    if is_text value "DELIVERY_PICKED_UP"
    then some delivery_picked_up
    else if is_text value "DELIVERY_DELIVERED"
    then some delivery_delivered
    else if is_text value "DELIVERY_FAILED"
    then some delivery_failed
    else if is_text value "DELIVERY_CANCELLED"
    then some delivery_cancelled
    else none

unfoldable pub delivery_stage : Option Value → Option FailureStage
delivery_stage value = if is_text value "DELIVERY" then some delivery else none

unfoldable pub check_details_given : Option ProviderWebhookEventType → Bool → Checked (Unit {0})
check_details_given (some delivery_failed) given =
    note_if (not given) "#/failure" "is required for DELIVERY_FAILED"
check_details_given (some event_type) given =
    note_if given "#/failure" "is only allowed for DELIVERY_FAILED"
check_details_given none given = pure tt

abbrev pub event_of :
    Option String
    → Option ProviderWebhookEventType
    → Option String
    → Option String
    → Option FailureDetails
    → Option ProviderWebhookEvent
event_of (some id) (some event_type) (some at) (some order_id) failure = some (record {
  event_id = id;
  event_type = event_type;
  occurred_at = at;
  delivery_provider_order_id = order_id;
  failure = failure;
})
event_of _ _ _ _ failure = none

-- `to_iso` normalizes a date-time.
module _ (to_iso : String → Option String) where
  unfoldable pub read_event : Fields → Checked (Option ProviderWebhookEvent)
  read_event value = do
    add_unknown_field_issues value event_names "#"
    id ← read_string (lookup "eventId" value) "#/eventId" 8 128 identifier_pattern
    note_if (not (is_some (supported_event_type (lookup "eventType" value)))) "#/eventType"
        "must be a supported delivery event type"
    at ← read_timestamp to_iso (lookup "occurredAt" value) "#/occurredAt"
    order_id ←
        read_string (lookup "deliveryProviderOrderId" value) "#/deliveryProviderOrderId" 1 128
          any_text
    failure ←
        read_optional (lookup "failure" value)
          λ v. read_failure_fields to_iso delivery_stage "must be DELIVERY" (as_record v)
    check_details_given (supported_event_type (lookup "eventType" value))
        (is_some (lookup "failure" value))
    pure (event_of id (supported_event_type (lookup "eventType" value)) at order_id failure)

  unfoldable pub validate_event_fields : Option Fields → ValidationResult ProviderWebhookEvent
  validate_event_fields none = invalid (issue "#" "must be an object")
  validate_event_fields (some fields) = result_of (read_event fields).0 (read_event fields).1

  abbrev pub validate_provider_webhook_event : Value → ValidationResult ProviderWebhookEvent
  validate_provider_webhook_event value = validate_event_fields (as_record (some value))
