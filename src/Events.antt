-- ===== src/Events.antt =====
-- src/events/domain-event.ts: the events that the stream of stored orders gives.
pub mod Stream
pub mod StatusChanged
pub mod Stored
pub mod Announces
pub mod Encoded
pub mod Patterns
pub mod DeliveryRequested
pub mod Publishes
use serverless_order_integra.Base.{ℕ, String, Option}
use serverless_order_integra.Json.{Value}

pub data DomainEventType : Type 0 where
  order_created order_ready_for_submission order_submitted order_submission_failed : DomainEventType
  order_submission_retry_requested order_cancelled order_picked_up : DomainEventType
  order_delivered order_delivery_failed : DomainEventType

abbrev pub event_type_text : DomainEventType → String
event_type_text order_created = "order.created"
event_type_text order_ready_for_submission = "order.ready_for_submission"
event_type_text order_submitted = "order.submitted"
event_type_text order_submission_failed = "order.submission_failed"
event_type_text order_submission_retry_requested = "order.submission_retry_requested"
event_type_text order_cancelled = "order.cancelled"
event_type_text order_picked_up = "order.picked_up"
event_type_text order_delivered = "order.delivered"
event_type_text order_delivery_failed = "order.delivery_failed"

-- The payloads, one constructor for each interface. A property of a literal type (the status of
-- most, `deliveryProviderCode`) has one value and is left to the constructor.
pub data Payload : Type 0 where
  created_payload :
      (merchant_id : String) (status : String) (delivery_provider_submission_key : String) → Payload
  ready_payload : (merchant_id : String) (delivery_provider_submission_key : String) → Payload
  submitted_payload :
      (merchant_id : String) (delivery_provider_order_id : String) (accepted_at : String)
      (reason : Option String)
      → Payload
  submission_failed_payload : (merchant_id : String) (failure : Value) → Payload
  retry_payload :
      (merchant_id : String) (delivery_provider_submission_key : String) (reason : String) → Payload
  cancelled_payload :
      (merchant_id : String) (previous_status : String) (reason : Option String) → Payload
  picked_up_payload :
      (merchant_id : String) (delivery_provider_order_id : String) (reason : Option String)
      → Payload
  delivered_payload :
      (merchant_id : String) (previous_status : String) (delivery_provider_order_id : String)
      (reason : Option String)
      → Payload
  delivery_failed_payload :
      (merchant_id : String) (previous_status : String) (delivery_provider_order_id : String)
      (failure : Value) (reason : Option String)
      → Payload

-- `DomainEvent`; `schemaVersion: 2` and `aggregateType: 'ORDER'` are the same in all.
pub record DomainEvent : Type 0 where
  pub event_id : String
  pub event_type : DomainEventType
  pub aggregate_id : String
  pub aggregate_version : ℕ
  pub occurred_at : String
  pub correlation_id : String
  pub causation_id : String
  pub payload : Payload
