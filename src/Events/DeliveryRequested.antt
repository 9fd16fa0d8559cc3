-- ===== src/Events/DeliveryRequested.antt =====
-- src/events/delivery-requested-event.ts: the messages that the delivery worker acts on.
pub mod Accepts
use serverless_order_integra.Base.{
  ℕ, String, str_eq, str_length, Bool, true, false, ◌&&◌, ◌||◌, Option, none, some, List, [], ◌∷◌,
  Result, ok, err, ◌>>=◌, ◌>>◌, guard, require, is_some, leb, if◌then◌else◌, or_default,
}
use serverless_order_integra.Domain.Errors.{AppError, plain_error}
use serverless_order_integra.Json.{
  Value, Fields, end_of_object, field, lookup, as_record, as_text, is_text, is_number, as_positive,
}
use serverless_order_integra.Events.Patterns.{
  safe_id_pattern, event_id_pattern, order_id_pattern, merchant_id_pattern,
}
use serverless_order_integra.App.Delivery.{DeliveryRequestedEvent}

abbrev envelope_names : List String
envelope_names =
    "eventId" ∷ "eventType" ∷ "schemaVersion" ∷ "aggregateType" ∷ "aggregateId" ∷ "aggregateVersion"
    ∷ "occurredAt" ∷ "correlationId" ∷ "causationId" ∷ "payload" ∷ []

abbrev ready_payload_names : List String
ready_payload_names =
    "merchantId" ∷ "previousStatus" ∷ "status" ∷ "deliveryProviderCode"
    ∷ "deliveryProviderSubmissionKey" ∷ []

abbrev retry_payload_names : List String
retry_payload_names =
    "merchantId" ∷ "previousStatus" ∷ "status" ∷ "deliveryProviderCode"
    ∷ "deliveryProviderSubmissionKey" ∷ "reason" ∷ []

abbrev is_one_of : String → List String → Bool
is_one_of name [] = false
is_one_of name (n ∷ ns) = str_eq n name || is_one_of name ns

unfoldable pub has_only_fields : Fields → List String → Bool
has_only_fields end_of_object names = true
has_only_fields (field name value rest) names = is_one_of name names && has_only_fields rest names

abbrev pub is_safe_text : String → ℕ → ℕ → Bool
is_safe_text s minimum maximum =
    leb minimum (str_length s) && leb (str_length s) maximum && safe_id_pattern s

-- A test on a value that must be a string first.
abbrev pub text_passes : Option Value → (String → Bool) → Bool
text_passes value test = elim (as_text value) [ none ↦ false | some s ↦ test s ]

unfoldable pub is_safe_id : Option Value → (minimum_length maximum_length : ℕ) → Bool
is_safe_id value minimum maximum = text_passes value λ s. is_safe_text s minimum maximum

-- `is_date` is `Number.isFinite(Date.parse(text))`.
unfoldable pub has_valid_envelope : (is_date : String → Bool) → Fields → Bool
has_valid_envelope is_date value =
    has_only_fields value envelope_names
    && is_safe_id (lookup "eventId" value) 20 132
    && text_passes (lookup "eventId" value) event_id_pattern
    && is_number (lookup "schemaVersion" value) 2
    && is_text (lookup "aggregateType" value) "ORDER"
    && is_safe_id (lookup "aggregateId" value) 12 64
    && text_passes (lookup "aggregateId" value) order_id_pattern
    && is_some (as_positive (lookup "aggregateVersion" value))
    && text_passes (lookup "occurredAt" value) is_date
    && is_safe_id (lookup "correlationId" value) 8 128
    && is_safe_id (lookup "causationId" value) 8 128

unfoldable pub has_common_payload : Fields → Bool
has_common_payload payload =
    is_safe_id (lookup "merchantId" payload) 3 64
    && text_passes (lookup "merchantId" payload) merchant_id_pattern
    && is_text (lookup "status" payload) "PENDING_SUBMISSION"
    && is_text (lookup "deliveryProviderCode" payload) "mock-delivery"
    && is_safe_id (lookup "deliveryProviderSubmissionKey" payload) 8 128

abbrev is_ready : Fields → Fields → Bool
is_ready value payload =
    is_text (lookup "eventType" value) "order.ready_for_submission"
    && has_only_fields payload ready_payload_names
    && is_text (lookup "previousStatus" payload) "AWAITING_PAYMENT"

abbrev is_retry : Fields → Fields → Bool
is_retry value payload =
    is_text (lookup "eventType" value) "order.submission_retry_requested"
    && has_only_fields payload retry_payload_names
    && is_text (lookup "previousStatus" payload) "SUBMISSION_FAILED"
    && text_passes (lookup "reason" payload) λ s. leb 3 (str_length s) && leb (str_length s) 500

-- The properties of the returned value that are read; they are strings and a number here.
abbrev cast_text : Option Value → String
cast_text value = or_default (as_text value) ""

abbrev cast_number : Option Value → ℕ
cast_number value = or_default (as_positive value) 0

abbrev cast_event : Fields → Fields → DeliveryRequestedEvent
cast_event value payload = record {
  event_id = cast_text (lookup "eventId" value);
  aggregate_id = cast_text (lookup "aggregateId" value);
  aggregate_version = cast_number (lookup "aggregateVersion" value);
  correlation_id = cast_text (lookup "correlationId" value);
  merchant_id = cast_text (lookup "merchantId" payload);
  delivery_provider_submission_key = cast_text (lookup "deliveryProviderSubmissionKey" payload);
}

-- The parsed message.
unfoldable pub read_delivery_requested :
    (is_date : String → Bool) → Value → Result AppError DeliveryRequestedEvent
read_delivery_requested is_date message = do
  value ←
      require (as_record (some message))
        (plain_error "SQS message does not contain a valid domain-event envelope.")
  guard (has_valid_envelope is_date value)
      (plain_error "SQS message does not contain a valid domain-event envelope.")
  payload ←
      require (as_record (lookup "payload" value))
        (plain_error "SQS message does not contain a valid domain-event envelope.")
  guard (has_common_payload payload)
      (plain_error "SQS message does not contain a valid delivery payload.")
  guard (is_ready value payload || is_retry value payload)
      (plain_error "SQS message event type is not actionable by the delivery worker.")
  ok (cast_event value payload)

-- `parse` is `JSON.parse`, `none` where it throws.
unfoldable pub parse_delivery_requested_event :
    (is_date : String → Bool)
    → (parse : String → Option Value) → String
    → Result AppError DeliveryRequestedEvent
parse_delivery_requested_event is_date parse body = do
  message ← require (parse body) (plain_error "SQS message body must contain valid JSON.")
  read_delivery_requested is_date message
