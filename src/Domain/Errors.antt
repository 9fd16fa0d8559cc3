-- ===== src/Domain/Errors.antt =====
-- The error classes that src/domain and src/application throw, as one type. An error class keeps
-- the fields that callers read; `range_error`, `type_error` and `plain_error` are JavaScript's own
-- classes, which the code tells apart by their messages alone.
use serverless_order_integra.Base.{ℕ, String, Bool}
use serverless_order_integra.Domain.Status.{OrderStatus, PaymentStatus}

-- `InvalidOrderStatusDetailsError.field`
pub data DetailsField : Type 0 where
  delivery_provider_order_id_field failure_field : DetailsField
  failure_stage_field payment_status_field : DetailsField

pub data AppError : Type 0 where
  invalid_order_status_transition : OrderStatus → OrderStatus → AppError
  invalid_order_status_details : DetailsField → AppError
  invalid_payment_status_transition : PaymentStatus → PaymentStatus → AppError
  invalid_payment_status_details : String → AppError
  idempotency_conflict merchant_order_id_conflict : AppError
  order_already_exists order_not_found : AppError
  order_version_conflict : (actual_version : ℕ) → AppError
  stripe_payment_intent_binding_conflict : AppError
  delivery_provider_order_id_conflict provider_event_id_conflict : AppError
  stripe_event_id_conflict : AppError
  stripe_webhook_reconciliation : (reason_code : String) → AppError
  payment_preparation_not_allowed : AppError
  stripe_payment_intent_contract : (field : String) → AppError
  delivery_reconciliation_required : AppError
  vendor_submission : (code : String) (message : String) (retryable : Bool) → AppError
  range_error type_error plain_error : (message : String) → AppError
