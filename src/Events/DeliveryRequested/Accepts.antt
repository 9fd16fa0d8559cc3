-- ===== src/Events/DeliveryRequested/Accepts.antt =====
-- The delivery worker accepts what the stream publisher sends for a paid or a retried order.
use serverless_order_integra.Base.{String, str_length, ◌≡◌, Bool, true, ◌&&◌, leb, Option, some, ok}
use serverless_order_integra.Json.{Value, max_safe_integer}
use serverless_order_integra.Json.Text.{stringify}
use serverless_order_integra.Events.{
  order_ready_for_submission, order_submission_retry_requested, ready_payload, retry_payload,
  DomainEvent,
}
use serverless_order_integra.Events.Encoded.{payload_fields, event_value}
use serverless_order_integra.Events.Patterns.{
  event_id_pattern, order_id_pattern, merchant_id_pattern,
}
use serverless_order_integra.Events.DeliveryRequested.{
  has_only_fields, is_safe_text, is_safe_id, has_valid_envelope, has_common_payload,
  read_delivery_requested, parse_delivery_requested_event,
}
use serverless_order_integra.App.Delivery.{DeliveryRequestedEvent}

-- The identifiers have the documented forms.
pub record IsWellFormed (is_date : String → Bool) (e : DomainEvent) : Type 0 where
  pub event_id : is_safe_text e.event_id 20 132 ≡ true
  pub event_id_form : event_id_pattern e.event_id ≡ true
  pub aggregate : is_safe_text e.aggregate_id 12 64 ≡ true
  pub aggregate_form : order_id_pattern e.aggregate_id ≡ true
  pub version : (leb 1 e.aggregate_version && leb e.aggregate_version max_safe_integer) ≡ true
  pub date : is_date e.occurred_at ≡ true
  pub correlation : is_safe_text e.correlation_id 8 128 ≡ true
  pub causation : is_safe_text e.causation_id 8 128 ≡ true

pub record IsDeliverable (merchant key : String) : Type 0 where
  pub merchant_id : is_safe_text merchant 3 64 ≡ true
  pub merchant_form : merchant_id_pattern merchant ≡ true
  pub submission_key : is_safe_text key 8 128 ≡ true

abbrev pub requested : DomainEvent → String → String → DeliveryRequestedEvent
requested e merchant key = record {
  event_id = e.event_id;
  aggregate_id = e.aggregate_id;
  aggregate_version = e.aggregate_version;
  correlation_id = e.correlation_id;
  merchant_id = merchant;
  delivery_provider_submission_key = key;
}

module _ (is_date : String → Bool) (e : DomainEvent) (w : IsWellFormed is_date e) where
  ready_is_read :
      (merchant key : String)
      → IsDeliverable merchant key
      → e.event_type ≡ order_ready_for_submission
      → e.payload ≡ ready_payload merchant key
      → read_delivery_requested is_date (event_value e) ≡ ok (requested e merchant key)
  unfolding read_delivery_requested has_valid_envelope has_common_payload has_only_fields is_safe_id
      event_value payload_fields
  ready_is_read merchant key d t p = rw (
    w.event_id, w.event_id_form, w.aggregate, w.aggregate_form, w.version, w.date, w.correlation,
    w.causation, p, t, d.merchant_id, d.merchant_form, d.submission_key,
  )

  retry_is_read :
      (merchant key reason : String)
      → IsDeliverable merchant key
      → (leb 3 (str_length reason) && leb (str_length reason) 500) ≡ true
      → e.event_type ≡ order_submission_retry_requested
      → e.payload ≡ retry_payload merchant key reason
      → read_delivery_requested is_date (event_value e) ≡ ok (requested e merchant key)
  unfolding read_delivery_requested has_valid_envelope has_common_payload has_only_fields is_safe_id
      event_value payload_fields
  retry_is_read merchant key reason d l t p = rw (
    w.event_id, w.event_id_form, w.aggregate, w.aggregate_form, w.version, w.date, w.correlation,
    w.causation, p, t, d.merchant_id, d.merchant_form, d.submission_key, l,
  )

-- An event that asks for a delivery: of a paid order, or again with a reason of 3 to 500 units.
pub data Requests (e : DomainEvent) (merchant key : String) : Type 0 where
  ready :
      e.event_type ≡ order_ready_for_submission
      → e.payload ≡ ready_payload merchant key
      → Requests e merchant key
  retry :
      (reason : String)
      → (leb 3 (str_length reason) && leb (str_length reason) 500) ≡ true
      → e.event_type ≡ order_submission_retry_requested
      → e.payload ≡ retry_payload merchant key reason
      → Requests e merchant key

-- The message that the publisher sends for a paid order, or for a retry with a reason of 3 to 500
-- units, is accepted by the delivery worker and gives the identifiers of the event, when these have
-- their documented forms; `JSON.parse` reads the message back as what
-- `JSON.stringify` has written.
pub sent_request_is_accepted :
    (is_date : String → Bool) (parse : String → Option Value)
    → (e : DomainEvent) (merchant key : String)
    → parse (stringify (event_value e)) ≡ some (event_value e)
    → IsWellFormed is_date e
    → IsDeliverable merchant key
    → Requests e merchant key
    → parse_delivery_requested_event is_date parse (stringify (event_value e))
      ≡ ok (requested e merchant key)
unfolding parse_delivery_requested_event
sent_request_is_accepted is_date parse e merchant key back w d (Requests.ready t p) =
    rw (back) (ready_is_read is_date e w merchant key d t p)
sent_request_is_accepted is_date parse e merchant key back w d (Requests.retry r l t p) =
    rw (back) (retry_is_read is_date e w merchant key r d l t p)
