-- ===== src/Events/Encoded.antt =====
-- The value of an event (src/events/domain-event.ts) whose `JSON.stringify` is the message that
-- src/lambda/stream-publisher.ts sends.
use serverless_order_integra.Base.{pos, String, Option}
use serverless_order_integra.Json.{
  int, Value, num, str, obj, Fields, end_of_object, field, opt_field,
}
use serverless_order_integra.Events.{
  event_type_text, Payload, created_payload, ready_payload, submitted_payload,
  submission_failed_payload, retry_payload, cancelled_payload, picked_up_payload, delivered_payload,
  delivery_failed_payload, DomainEvent,
}
use serverless_order_integra.Events.Stored.{opt_text}

abbrev mock_fields : Fields → Fields
mock_fields rest = field "deliveryProviderCode" (str "mock-delivery") rest

abbrev reason_fields : Option String → Fields
reason_fields reason = opt_field "reason" (opt_text reason) end_of_object

-- The payload with the properties of literal types written out.
unfoldable pub payload_fields : Payload → Fields
payload_fields (created_payload merchant status key) = field "merchantId" (str merchant) (
    field "status" (str status)
      (mock_fields (field "deliveryProviderSubmissionKey" (str key) end_of_object)))
payload_fields (ready_payload merchant key) = field "merchantId" (str merchant) (
    field "previousStatus" (str "AWAITING_PAYMENT") (
      field "status" (str "PENDING_SUBMISSION")
        (mock_fields (field "deliveryProviderSubmissionKey" (str key) end_of_object))))
payload_fields (submitted_payload merchant id at reason) = field "merchantId" (str merchant) (
    field "status" (str "SUBMITTED") (
      mock_fields (
        field "deliveryProviderOrderId" (str id)
          (field "acceptedAt" (str at) (reason_fields reason)))))
payload_fields (submission_failed_payload merchant failure) =
    field "merchantId" (str merchant)
      (field "status" (str "SUBMISSION_FAILED") (field "failure" failure end_of_object))
payload_fields (retry_payload merchant key reason) = field "merchantId" (str merchant) (
    field "previousStatus" (str "SUBMISSION_FAILED") (
      field "status" (str "PENDING_SUBMISSION") (
        mock_fields (
          field "deliveryProviderSubmissionKey" (str key)
            (field "reason" (str reason) end_of_object)))))
payload_fields (cancelled_payload merchant previous reason) = field "merchantId" (str merchant) (
    field "previousStatus" (str previous) (field "status" (str "CANCELLED") (reason_fields reason)))
payload_fields (picked_up_payload merchant id reason) = field "merchantId" (str merchant) (
    field "previousStatus" (str "SUBMITTED") (
      field "status" (str "PICKED_UP")
        (mock_fields (field "deliveryProviderOrderId" (str id) (reason_fields reason)))))
payload_fields (delivered_payload merchant previous id reason) = field "merchantId" (str merchant) (
    field "previousStatus" (str previous) (
      field "status" (str "DELIVERED")
        (mock_fields (field "deliveryProviderOrderId" (str id) (reason_fields reason)))))
payload_fields (delivery_failed_payload merchant previous id failure reason) =
    field "merchantId" (str merchant) (
      field "previousStatus" (str previous) (
        field "status" (str "DELIVERY_FAILED") (
          mock_fields (
            field "deliveryProviderOrderId" (str id)
              (field "failure" failure (reason_fields reason))))))

unfoldable pub event_value : DomainEvent → Value
event_value e = obj (
    field "eventId" (str e.event_id) (
      field "eventType" (str (event_type_text e.event_type)) (
        field "schemaVersion" (num (int (pos 2))) (
          field "aggregateType" (str "ORDER") (
            field "aggregateId" (str e.aggregate_id) (
              field "aggregateVersion" (num (int (pos e.aggregate_version))) (
                field "occurredAt" (str e.occurred_at) (
                  field "correlationId" (str e.correlation_id) (
                    field "causationId" (str e.causation_id)
                      (field "payload" (obj (payload_fields e.payload)) end_of_object))))))))))
