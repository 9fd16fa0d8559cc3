-- ===== src/Events/Stream.antt =====
-- The readers of src/events/order-stream-event.ts: what a DynamoDB stream record must hold. An
-- error is the `Error` that the code throws, with its message.
use Prim.Native.String.{◌++◌ as str_append}
use serverless_order_integra.Base.{
  pos, ℕ, ◌==◌, String, str_eq, str_length, Bool, false, not, ◌||◌, Option, none, some, Result, ok,
  err, ◌>>=◌, ◌>>◌, guard, require, if◌then◌else◌,
}
use serverless_order_integra.Domain.Status.{
  not_started, requires_payment_method, requires_confirmation, requires_action, processing,
  succeeded, payment_cancelled, payment_status_text,
}
use serverless_order_integra.Domain.Errors.{AppError, plain_error}
use serverless_order_integra.Json.{
  int, Value, num, str, arr, end_of_array, item, Fields, lookup, as_record, as_text, is_text,
  is_number, as_positive,
}
use serverless_order_integra.Json.Text.{stringify}
use serverless_order_integra.Events.{DomainEventType, event_type_text, DomainEvent, Payload}

-- `DynamoDBRecord`: `new_image` and `sequence_number` are its `dynamodb?.NewImage` and
-- `dynamodb?.SequenceNumber`; an image is what the library's `unmarshall`
-- reads, or throws on.
pub record DynamoDbRecord (Image : Type 0) : Type 0 where
  pub event_name : Option String
  pub event_source_arn : Option String
  pub event_id : Option String
  pub new_image : Option Image
  pub sequence_number : Option String

-- What the code reads of the order in the item: the properties that `readOrder` has checked, and
-- those that stay unchecked, as they are (`none` for `undefined`).
pub record StreamOrder : Type 0 where
  pub order_id : String
  pub merchant_id : String
  pub status : String
  pub version : ℕ
  pub updated_at : String
  pub delivery_provider_submission_key : String
  pub delivery_provider_order_id : Option Value
  pub accepted_at : Option Value
  pub payment : Option Value
  pub failure : Option Value

-- `OrderMutation`; the previous status is any text, which the code casts.
pub data StreamMutation : Type 0 where
  created : (correlation_id : String) (causation_id : String) → StreamMutation
  status_changed :
      (correlation_id : String) (causation_id : String) (previous_status : String)
      (reason : Option String)
      → StreamMutation
  payment_changed :
      (correlation_id : String) (causation_id : String) (previous_payment_status : String)
      → StreamMutation

abbrev pub correlation_of : StreamMutation → String
correlation_of (created a b) = a
correlation_of (status_changed a b p r) = a
correlation_of (payment_changed a b p) = a

abbrev pub causation_of : StreamMutation → String
causation_of (created a b) = b
causation_of (status_changed a b p r) = b
causation_of (payment_changed a b p) = b

pub record StreamOrderItem : Type 0 where
  pub order : StreamOrder
  pub mutation : StreamMutation

abbrev must_be_text : String → AppError
must_be_text field =
    plain_error (str_append "Stream order " (str_append field " must be a non-empty string."))

abbrev pub non_empty : Option String → String → Result AppError String
non_empty none field = err (must_be_text field)
non_empty (some s) field = if str_length s == 0 then err (must_be_text field) else ok s

abbrev pub required_string : Option Value → String → Result AppError String
required_string value field = non_empty (as_text value) field

unfoldable pub read_order : Option Value → Result AppError StreamOrder
read_order payload = do
  value ← require (as_record payload) (plain_error "Stream order payload must be an object.")
  provider ←
      require (as_record (lookup "provider" value))
        (plain_error "Stream order provider is invalid.")
  guard (is_text (lookup "deliveryProviderCode" provider) "mock-delivery")
      (plain_error "Stream order provider is invalid.")
  version ←
      require (as_positive (lookup "version" value))
        (plain_error "Stream order version must be a positive integer.")
  order_id ← required_string (lookup "orderId" value) "orderId"
  merchant_id ← required_string (lookup "merchantId" value) "merchantId"
  updated_at ← required_string (lookup "updatedAt" value) "updatedAt"
  submission_key ←
      required_string (lookup "deliveryProviderSubmissionKey" provider)
        "deliveryProviderSubmissionKey"
  status ← required_string (lookup "status" value) "status"
  ok (record {
    order_id = order_id;
    merchant_id = merchant_id;
    status = status;
    version = version;
    updated_at = updated_at;
    delivery_provider_submission_key = submission_key;
    delivery_provider_order_id = lookup "deliveryProviderOrderId" provider;
    accepted_at = lookup "acceptedAt" provider;
    payment = lookup "payment" value;
    failure = lookup "failure" value;
  })

-- `reason` of a status change: absent, or a string.
abbrev pub read_reason : Option Value → Result AppError (Option String)
read_reason none = ok none
read_reason (some (str reason)) = ok (some reason)
read_reason _ = err (plain_error "Stream order mutation.reason must be a string.")

abbrev is_payment_status : String → Bool
is_payment_status s =
    str_eq (payment_status_text not_started) s
    || str_eq (payment_status_text requires_payment_method) s
    || str_eq (payment_status_text requires_confirmation) s
    || str_eq (payment_status_text requires_action) s
    || str_eq (payment_status_text processing) s
    || str_eq (payment_status_text succeeded) s
    || str_eq (payment_status_text payment_cancelled) s

abbrev read_status_mutation : Fields → String → String → Result AppError StreamMutation
read_status_mutation value correlation_id causation_id = do
  previous ← required_string (lookup "previousStatus" value) "mutation.previousStatus"
  reason ← read_reason (lookup "reason" value)
  ok (status_changed correlation_id causation_id previous reason)

abbrev read_payment_mutation : Fields → String → String → Result AppError StreamMutation
read_payment_mutation value correlation_id causation_id = do
  previous ← required_string (lookup "previousPaymentStatus" value) "mutation.previousPaymentStatus"
  guard (is_payment_status previous)
      (plain_error "Stream order mutation.previousPaymentStatus is unsupported.")
  ok (payment_changed correlation_id causation_id previous)

unfoldable pub read_mutation : Option Value → Result AppError StreamMutation
read_mutation payload = do
  value ← require (as_record payload) (plain_error "Stream order mutation must be an object.")
  correlation_id ← required_string (lookup "correlationId" value) "mutation.correlationId"
  causation_id ← required_string (lookup "causationId" value) "mutation.causationId"
  if is_text (lookup "kind" value) "ORDER_CREATED"
      then ok (created correlation_id causation_id)
      else if is_text (lookup "kind" value) "ORDER_STATUS_CHANGED"
      then read_status_mutation value correlation_id causation_id
      else if is_text (lookup "kind" value) "ORDER_PAYMENT_CHANGED"
      then read_payment_mutation value correlation_id causation_id
      else err (plain_error "Stream order mutation kind is unsupported.")

-- `name === text` on an optional string
abbrev pub is_named : Option String → String → Bool
is_named none text = false
is_named (some s) text = str_eq s text

-- The item once the image is unmarshalled; `none` for an item that is no order.
unfoldable pub read_item : Fields → Result AppError (Option StreamOrderItem)
read_item fields = if not (is_text (lookup "entityType" fields) "ORDER") then ok none else (do
  guard (is_number (lookup "schemaVersion" fields) 2)
      (plain_error "Stream order item schema version is unsupported.")
  order ← read_order (lookup "order" fields)
  mutation ← read_mutation (lookup "mutation" fields)
  ok (some (record { order = order; mutation = mutation })))

module _ {Image : Type 0} (unmarshall : Image → Result AppError Fields) where
  unfoldable pub read_stream_item : DynamoDbRecord Image → Result AppError (Option StreamOrderItem)
  read_stream_item rec = if is_named rec.event_name "REMOVE" then ok none else (do
    guard (is_named rec.event_name "INSERT" || is_named rec.event_name "MODIFY")
        (plain_error "DynamoDB stream event name is unsupported.")
    image ← require rec.new_image (plain_error "DynamoDB stream record is missing NewImage.")
    fields ← unmarshall image
    read_item fields)

-- `digest` is the SHA-256 of a text, written in base64url.
abbrev pub event_id_text : (String → String) → String → String → DomainEventType → String
event_id_text digest stream_arn record_id event_type = str_append "evt_" (
    digest (
      stringify (
        arr (
          item (str stream_arn) (
            item (str record_id)
              (item (str (event_type_text event_type)) (item (num (int (pos 1))) end_of_array)))))))

module _ {Image : Type 0} (digest : String → String) where
  unfoldable pub event_id : DynamoDbRecord Image → DomainEventType → Result AppError String
  event_id rec event_type = do
    stream_arn ← non_empty rec.event_source_arn "eventSourceARN"
    record_id ← non_empty rec.event_id "eventID"
    ok (event_id_text digest stream_arn record_id event_type)

  -- `{ ...baseEnvelope(record, item, eventType), eventType, payload }`: the payload is computed
  -- after the envelope.
  unfoldable pub enveloped :
      DynamoDbRecord Image
      → StreamOrderItem
      → DomainEventType
      → Result AppError Payload
      → Result AppError (Option DomainEvent)
  enveloped rec source event_type payload = do
    id ← event_id rec event_type
    body ← payload
    ok (
        some (record {
          event_id = id;
          event_type = event_type;
          aggregate_id = source.order.order_id;
          aggregate_version = source.order.version;
          occurred_at = source.order.updated_at;
          correlation_id = correlation_of source.mutation;
          causation_id = causation_of source.mutation;
          payload = body;
        }))
