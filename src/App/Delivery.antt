-- ===== src/App/Delivery.antt =====
-- src/application/process-delivery-event.ts: submitting a paid order to the delivery provider.
pub mod Completes
pub mod Submits
use serverless_order_integra.Base.{
  ℕ, String, str_eq, Bool, true, false, not, ◌&&◌, ◌||◌, Option, none, some, Result, ok, err,
  Applied, same, fresh, applied_to, require, guard, is_some, opt_str_eq, ltb,
}
use serverless_order_integra.Base.Results
use serverless_order_integra.Base.Exec.{pure, raise, lift, check, attempt, ◌>>=◌, ◌>>◌}
use serverless_order_integra.Domain.Status.{
  OrderStatus, pending_submission, submission_failed, submitted, status_eq, PaymentStatus,
  succeeded, payment_status_eq,
}
use serverless_order_integra.Domain.Order.{
  FailureStage, submission, FailureDetails, OrderPayment, Order,
}
use serverless_order_integra.Domain.Errors.{
  AppError, order_not_found, order_version_conflict, delivery_reconciliation_required,
  vendor_submission, plain_error,
}
use serverless_order_integra.Domain.Transition.{
  OrderStatusChange, apply_order_status_change, payment_has_status, stage_eq,
}
use serverless_order_integra.Repository.Contract.{OrderStatusChangedMutation}
use serverless_order_integra.Repository.Orders.{get_order}
use serverless_order_integra.Repository.Saving.{save_status_change}
use serverless_order_integra.App.World.{OutsideCall, submit_delivery, App, call, ask}

-- `DeliveryRequestedEvent` (src/events/delivery-requested-event.ts): the fields that are read.
pub record DeliveryRequestedEvent : Type 0 where
  pub event_id : String
  pub aggregate_id : String
  pub aggregate_version : ℕ
  pub correlation_id : String
  pub merchant_id : String
  pub delivery_provider_submission_key : String

-- `DeliveryProviderAcceptance`
pub record DeliveryProviderAcceptance : Type 0 where
  pub delivery_provider_order_id : String
  pub accepted_at : String

pub data ProcessDeliveryEventOutcome : Type 0 where
  submitted_order submission_failed_order duplicate_or_stale : Order → ProcessDeliveryEventOutcome

unfoldable pub validate_event_against_order :
    DeliveryRequestedEvent → Order → Result AppError (Unit {0})
validate_event_against_order event order =
    Results.◌>>◌
      (guard (str_eq order.merchant_id event.merchant_id)
        (plain_error "Delivery event merchant does not match the stored order."))
      (Results.◌>>◌
        (guard
          (str_eq order.provider.delivery_provider_submission_key
            event.delivery_provider_submission_key)
          (plain_error
            "The delivery-provider submission key in the event does not match the stored order."))
        (guard (not (ltb order.version event.aggregate_version))
          (plain_error "Delivery event refers to an order version that is not available.")))

abbrev pub progressed_after : DeliveryRequestedEvent → Order → Bool
progressed_after event order = ltb event.aggregate_version order.version

unfoldable pub safely_completed_before : DeliveryRequestedEvent → Order → Bool
safely_completed_before event order =
    progressed_after event order
    && (is_some order.provider.delivery_provider_order_id
        || status_eq order.status submission_failed)

abbrev failure_reason : Option FailureDetails → Option String
failure_reason none = none
failure_reason (some f) = some f.reason_code

-- `failure?.stage === 'SUBMISSION'`
abbrev is_submission_failure : Option FailureDetails → Bool
is_submission_failure none = false
is_submission_failure (some f) = stage_eq f.stage submission

abbrev recorded_for : OrderStatus → Order → Order → Bool
recorded_for submitted intended current =
    opt_str_eq current.provider.delivery_provider_order_id
      intended.provider.delivery_provider_order_id
    && opt_str_eq current.provider.accepted_at intended.provider.accepted_at
recorded_for submission_failed intended current =
    status_eq current.status submission_failed
    && is_submission_failure current.failure
    && opt_str_eq (failure_reason current.failure) (failure_reason intended.failure)
recorded_for _ intended current = false

unfoldable pub intended_outcome_was_recorded : Order → Order → Bool
intended_outcome_was_recorded intended current = recorded_for intended.status intended current

abbrev resolve_with :
    DeliveryRequestedEvent → Order → Option Order → App ProcessDeliveryEventOutcome
resolve_with event intended none = raise (order_version_conflict event.aggregate_version)
resolve_with event intended (some current) = do
  check (progressed_after event current) (order_version_conflict current.version)
  check (intended_outcome_was_recorded intended current) delivery_reconciliation_required
  pure (duplicate_or_stale current)

unfoldable pub resolve_version_conflict :
    DeliveryRequestedEvent → Order → App ProcessDeliveryEventOutcome
resolve_version_conflict event intended = do
  current ← call (get_order event.merchant_id event.aggregate_id)
  resolve_with event intended current

abbrev acceptance_change : DeliveryProviderAcceptance → OrderStatusChange
acceptance_change acceptance = record {
  target_status = submitted;
  delivery_provider_order_id = some acceptance.delivery_provider_order_id;
  accepted_at = some acceptance.accepted_at;
  failure = none;
}

abbrev submission_failure : String → String → String → FailureDetails
submission_failure code message occurred_at = record {
  stage = submission;
  reason_code = code;
  summary = message;
  occurred_at = occurred_at;
}

abbrev rejection_change : FailureDetails → OrderStatusChange
rejection_change failure = record {
  target_status = submission_failed;
  delivery_provider_order_id = none;
  accepted_at = none;
  failure = some failure;
}

-- The order to save and the outcome to report, from the provider's answer. The order is pending,
-- so a change to SUBMITTED or SUBMISSION_FAILED is never the order itself.
abbrev pub answered :
    (now : String)
    → Order
    → Result AppError DeliveryProviderAcceptance
    → Result AppError (Order × (Order → ProcessDeliveryEventOutcome))
answered now order (ok acceptance) =
    Results.◌>>=◌ (apply_order_status_change order (acceptance_change acceptance) now)
      λ r. ok (applied_to order r, submitted_order)
answered now order (err (vendor_submission code message false)) =
    Results.◌>>=◌
      (apply_order_status_change order (rejection_change (submission_failure code message now)) now)
      λ r. ok (applied_to order r, submission_failed_order)
answered now order (err e) = err e

abbrev pub after_save :
    DeliveryRequestedEvent
    → Order
    → (Order → ProcessDeliveryEventOutcome)
    → Result AppError (Unit {0})
    → App ProcessDeliveryEventOutcome
after_save event changed outcome (ok _) = pure (outcome changed)
after_save event changed outcome (err (order_version_conflict v)) =
    resolve_version_conflict event changed
after_save event changed outcome (err e) = raise e

abbrev delivery_mutation : DeliveryRequestedEvent → Order → OrderStatusChangedMutation
delivery_mutation event order = record {
  correlation_id = event.correlation_id;
  causation_id = event.event_id;
  previous_status = order.status;
  reason = none;
}

-- The rest of the service once the answer is read.
abbrev pub save_answer :
    DeliveryRequestedEvent
    → Order
    → Result AppError (Order × (Order → ProcessDeliveryEventOutcome))
    → App ProcessDeliveryEventOutcome
save_answer event order (err e) = raise e
save_answer event order (ok (changed, outcome)) =
    attempt (call (save_status_change changed order.version (delivery_mutation event order)))
      (after_save event changed outcome)

-- `vendor` answers a submission: the client of src/integrations/delivery-vendor-client.ts.
module _ (vendor : Order → String → Result AppError DeliveryProviderAcceptance) (now : String) where
  -- The rest of the service for an order that the event is current for.
  unfoldable pub submit_order : DeliveryRequestedEvent → Order → App ProcessDeliveryEventOutcome
  submit_order event order = do
    check (status_eq order.status pending_submission)
        (plain_error "Delivery event is inconsistent with the current order state.")
    check (payment_has_status order.payment succeeded)
        (plain_error "Delivery event is inconsistent with the current order payment state.")
    attempt (ask (submit_delivery order event.correlation_id) (vendor order event.correlation_id))
        λ answer. save_answer event order (answered now order answer)

  -- A provider outcome that is already recorded, or has to be looked into.
  abbrev pub already_progressed : DeliveryRequestedEvent → Order → App ProcessDeliveryEventOutcome
  already_progressed event order = do
    check (safely_completed_before event order) delivery_reconciliation_required
    pure (duplicate_or_stale order)

  abbrev submit_or_skip : Bool → DeliveryRequestedEvent → Order → App ProcessDeliveryEventOutcome
  submit_or_skip true event order = already_progressed event order
  submit_or_skip false event order = submit_order event order

  unfoldable pub process_delivery_event : DeliveryRequestedEvent → App ProcessDeliveryEventOutcome
  process_delivery_event event = do
    found ← call (get_order event.merchant_id event.aggregate_id)
    order ← lift (require found order_not_found)
    lift (validate_event_against_order event order)
    submit_or_skip (progressed_after event order) event order
