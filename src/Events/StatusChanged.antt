-- ===== src/Events/StatusChanged.antt =====
-- `statusChangedEvent` and `domainEventFromOrderStreamRecord` (src/events/order-stream-event.ts).
use Prim.Native.String.{◌++◌ as str_append}
use serverless_order_integra.Base.{
  String, str_eq, Bool, not, ◌&&◌, ◌||◌, Option, none, some, Result, ok, err, ◌>>=◌, ◌>>◌, guard,
  require, is_some, if◌then◌else◌,
}
use serverless_order_integra.Domain.Status.{
  OrderStatus, awaiting_payment, pending_submission, submission_failed, submitted, picked_up,
  delivered, delivery_failed, cancelled, status_text, read_status,
}
use serverless_order_integra.Domain.Errors.{AppError, plain_error, type_error}
use serverless_order_integra.Json.{Value, null, Fields, is_text, chain}
use serverless_order_integra.Events.{
  order_created, order_ready_for_submission, order_submitted, order_submission_failed,
  order_submission_retry_requested, order_cancelled, order_picked_up, order_delivered,
  order_delivery_failed, Payload, created_payload, ready_payload, submitted_payload,
  submission_failed_payload, retry_payload, cancelled_payload, picked_up_payload, delivered_payload,
  delivery_failed_payload, DomainEvent,
}
use serverless_order_integra.Events.Stream.{
  DynamoDbRecord, StreamOrder, StreamOrderItem, created, status_changed, payment_changed,
  required_string, is_named, read_stream_item, enveloped,
}

unfoldable pub delivery_provider_order_id : StreamOrder → Result AppError String
delivery_provider_order_id order =
    required_string order.delivery_provider_order_id "provider.deliveryProviderOrderId"

unfoldable pub accepted_at : StreamOrder → Result AppError String
accepted_at order = required_string order.accepted_at "provider.acceptedAt"

abbrev missing_failure : String → AppError
missing_failure stage =
    plain_error (str_append "Stream order requires " (str_append stage " failure details."))

-- `order.failure.stage` of a `null` is a `TypeError`.
unfoldable pub failure : StreamOrder → (expected_stage : String) → Result AppError Value
failure order expected_stage = elim (order.failure) [
  | none ↦ err (missing_failure expected_stage)
  | some null ↦ err (type_error "Cannot read properties of null (reading 'stage')")
  | some details ↦ (do
    guard (is_text (chain (some details) "stage") expected_stage) (missing_failure expected_stage)
    ok details)
]

-- `previousStatus === 'STATUS'`
abbrev pub was : String → OrderStatus → Bool
was previous status = str_eq previous (status_text status)

abbrev pub delivered_body : StreamOrder → String → Option String → Result AppError Payload
delivered_body order previous reason = do
  id ← delivery_provider_order_id order
  ok (delivered_payload order.merchant_id previous id reason)

abbrev pub delivery_failed_body : StreamOrder → String → Option String → Result AppError Payload
delivery_failed_body order previous reason = do
  id ← delivery_provider_order_id order
  details ← failure order "DELIVERY"
  ok (delivery_failed_payload order.merchant_id previous id details reason)

module _ {Image : Type 0} (digest : String → String) (rec : DynamoDbRecord Image) where
  abbrev pub ready_event : StreamOrderItem → Result AppError (Option DomainEvent)
  ready_event source = do
    guard (is_text (chain source.order.payment "status") "SUCCEEDED")
        (plain_error "A ready-for-submission order requires successful payment.")
    enveloped digest rec source order_ready_for_submission
        (ok (ready_payload source.order.merchant_id source.order.delivery_provider_submission_key))

  abbrev pub retry_event :
      StreamOrderItem → String → Option String → Result AppError (Option DomainEvent)
  retry_event source previous reason = do
    guard (was previous submission_failed) (plain_error "Submission retry metadata is invalid.")
    given ← require reason (plain_error "Submission retry metadata is invalid.")
    enveloped digest rec source order_submission_retry_requested (
        ok (
          retry_payload source.order.merchant_id source.order.delivery_provider_submission_key
            given))

  -- One clause for each `case` of the `switch` on the status of the order; a status that is none
  -- of the eight falls through it, and nothing is returned.
  unfoldable pub event_of_status :
      StreamOrderItem
      → String
      → Option String
      → Option OrderStatus
      → Result AppError (Option DomainEvent)
  event_of_status source previous reason none = ok none
  event_of_status source previous reason (some awaiting_payment) =
      err (plain_error "An order cannot transition back to awaiting payment.")
  event_of_status source previous reason (some pending_submission) =
      if was previous awaiting_payment
      then ready_event source
      else retry_event source previous reason
  event_of_status source previous reason (some submitted) = do
    guard (was previous pending_submission)
        (plain_error "Submitted order previous status is invalid.")
    enveloped digest rec source order_submitted (do
      id ← delivery_provider_order_id source.order
      at ← accepted_at source.order
      ok (submitted_payload source.order.merchant_id id at reason))
  event_of_status source previous reason (some submission_failed) = do
    guard (was previous pending_submission)
        (plain_error "Submission-failed order previous status is invalid.")
    enveloped digest rec source order_submission_failed (do
      details ← failure source.order "SUBMISSION"
      ok (submission_failed_payload source.order.merchant_id details))
  event_of_status source previous reason (some cancelled) = do
    guard
        (was previous pending_submission
          || was previous submission_failed
          || was previous submitted)
        (plain_error "Cancelled order previous status is invalid.")
    enveloped digest rec source order_cancelled
        (ok (cancelled_payload source.order.merchant_id previous reason))
  event_of_status source previous reason (some picked_up) = do
    guard (was previous submitted) (plain_error "Picked-up order previous status is invalid.")
    enveloped digest rec source order_picked_up (do
      id ← delivery_provider_order_id source.order
      ok (picked_up_payload source.order.merchant_id id reason))
  event_of_status source previous reason (some delivered) = do
    guard (was previous submitted || was previous picked_up)
        (plain_error "Delivered order previous status is invalid.")
    enveloped digest rec source order_delivered (delivered_body source.order previous reason)
  event_of_status source previous reason (some delivery_failed) = do
    guard (was previous submitted || was previous picked_up)
        (plain_error "Delivery-failed order previous status is invalid.")
    enveloped digest rec source order_delivery_failed
        (delivery_failed_body source.order previous reason)

  unfoldable pub status_changed_event :
      StreamOrderItem → String → Option String → Result AppError (Option DomainEvent)
  status_changed_event source previous reason =
      event_of_status source previous reason (read_status source.order.status)

  abbrev created_event : StreamOrderItem → Result AppError (Option DomainEvent)
  created_event source = do
    guard
        (is_named rec.event_name "INSERT"
          && (was source.order.status awaiting_payment
              || was source.order.status pending_submission))
        (plain_error "Created-order stream metadata is inconsistent.")
    guard
        (not (was source.order.status awaiting_payment)
          || is_text (chain source.order.payment "status") "NOT_STARTED")
        (plain_error "An awaiting-payment order requires an initial payment value.")
    enveloped digest rec source order_created (
        ok (
          created_payload source.order.merchant_id source.order.status
            source.order.delivery_provider_submission_key))

  -- The event of an item that has been read.
  unfoldable pub event_of_item : Option StreamOrderItem → Result AppError (Option DomainEvent)
  event_of_item none = ok none
  event_of_item (some source) = elim (source.mutation) [
    | created a b ↦ created_event source
    | payment_changed a b p ↦ (do
      guard (is_named rec.event_name "MODIFY" && is_some source.order.payment)
          (plain_error "Payment-change stream metadata is inconsistent.")
      ok none)
    | status_changed a b previous reason ↦ (do
      guard (is_named rec.event_name "MODIFY")
          (plain_error "Status-change stream metadata is inconsistent.")
      status_changed_event source previous reason)
  ]

module _ {Image : Type 0} (unmarshall : Image → Result AppError Fields)
    (digest : String → String) where
  unfoldable pub domain_event_from_order_stream_record :
      DynamoDbRecord Image → Result AppError (Option DomainEvent)
  domain_event_from_order_stream_record rec = do
    source ← read_stream_item unmarshall rec
    event_of_item digest rec source
