-- ===== src/App/ProviderWebhook.antt =====
-- src/application/process-provider-webhook.ts, for a validated event.
pub mod Decided
pub mod Lateness
use serverless_order_integra.Base.{
  ℕ, zero, suc, String, Bool, true, false, Option, none, some, Result, ok, err, Applied, same,
  fresh, require, str_lt, if◌then◌else◌,
}
use serverless_order_integra.Base.Exec.{pure, raise, lift, attempt, ◌>>=◌}
use serverless_order_integra.Domain.Status.{OrderStatus, picked_up, delivered, cancelled}
use serverless_order_integra.Domain.Order.{FailureDetails, Order, mock_delivery}
use serverless_order_integra.Domain.Errors.{
  AppError, invalid_order_status_transition, order_not_found, order_version_conflict, plain_error,
}
use serverless_order_integra.Domain.Transition.{OrderStatusChange, apply_order_status_change}
use serverless_order_integra.Repository.Contract.{
  OrderStatusChangedMutation, RecordProviderWebhookInput, RecordResult, recorded,
}
use serverless_order_integra.Repository.Orders.{get_by_delivery_provider_order_id}
use serverless_order_integra.Repository.Saving.{record_provider_webhook}
use serverless_order_integra.App.World.{App, call}

pub data ProviderWebhookEventType : Type 0 where
  delivery_picked_up delivery_delivered delivery_failed delivery_cancelled :
      ProviderWebhookEventType

pub record ProviderWebhookEvent : Type 0 where
  pub event_id : String
  pub event_type : ProviderWebhookEventType
  pub occurred_at : String
  pub delivery_provider_order_id : String
  pub failure : Option FailureDetails

pub record ProcessProviderWebhookCommand : Type 0 where
  pub event : ProviderWebhookEvent
  pub correlation_id : String

pub data ProcessProviderWebhookResult : Type 0 where
  applied duplicate stale : Order → ProcessProviderWebhookResult

abbrev pub max_concurrent_write_attempts : ℕ
max_concurrent_write_attempts = 3

unfoldable pub target_status : ProviderWebhookEventType → OrderStatus
target_status delivery_picked_up = picked_up
target_status delivery_delivered = delivered
target_status delivery_failed = OrderStatus.delivery_failed
target_status delivery_cancelled = cancelled

unfoldable pub to_status_change : ProviderWebhookEvent → OrderStatusChange
unfolding target_status
to_status_change event = record {
  target_status = target_status event.event_type;
  delivery_provider_order_id = none;
  accepted_at = none;
  failure = event.failure;
}

-- `changed === order ? undefined : changed`, and an invalid transition is no change.
abbrev changed_or_none : Result AppError (Applied Order) → Result AppError (Option Order)
changed_or_none (ok same) = ok none
changed_or_none (ok (fresh order)) = ok (some order)
changed_or_none (err (invalid_order_status_transition a b)) = ok none
changed_or_none (err e) = err e

unfoldable pub changed_order_for : ProviderWebhookEvent → Order → Result AppError (Option Order)
changed_order_for event order =
    if str_lt event.occurred_at order.updated_at
    then ok none
    else changed_or_none
        (apply_order_status_change order (to_status_change event) event.occurred_at)

unfoldable pub result : RecordResult → Order → Option Order → ProcessProviderWebhookResult
result RecordResult.duplicate current changed = duplicate current
result recorded current none = stale current
result recorded current (some order) = applied order

abbrev webhook_mutation :
    ProcessProviderWebhookCommand → Order → Option Order → Option OrderStatusChangedMutation
webhook_mutation command current none = none
webhook_mutation command current (some order) = some (record {
  correlation_id = command.correlation_id;
  causation_id = command.event.event_id;
  previous_status = current.status;
  reason = none;
})

-- The fingerprint is a hash of the event's JSON text, by functions of the platform.
module _ (fingerprint : ProviderWebhookEvent → String) (clock : ℕ → String) where
  abbrev pub webhook_input :
      ProcessProviderWebhookCommand → ℕ → Order → Option Order → RecordProviderWebhookInput
  webhook_input command left current changed = record {
    event_id = command.event.event_id;
    event_fingerprint = fingerprint command.event;
    delivery_provider_order_id = command.event.delivery_provider_order_id;
    processed_at = clock left;
    current_order = current;
    changed_order = changed;
    mutation = webhook_mutation command current changed;
  }

  -- The `catch` around the write: a version conflict is tried again while attempts are left.
  abbrev after_write :
      Option (App ProcessProviderWebhookResult)
      → Order
      → Option Order
      → Result AppError RecordResult
      → App ProcessProviderWebhookResult
  after_write again current changed (ok r) = pure (result r current changed)
  after_write (some again) current changed (err (order_version_conflict v)) = again
  after_write again current changed (err e) = raise e

  -- One round of the loop; `again` is the next one, if any is left.
  abbrev webhook_round :
      Option (App ProcessProviderWebhookResult)
      → ℕ
      → ProcessProviderWebhookCommand
      → App ProcessProviderWebhookResult
  webhook_round again left command = do
    found ←
        call
          (get_by_delivery_provider_order_id mock_delivery command.event.delivery_provider_order_id)
    current ← lift (require found order_not_found)
    changed ← lift (changed_order_for command.event current)
    attempt (call (record_provider_webhook (webhook_input command left current changed)))
        (after_write again current changed)

  -- The loop, with the number of attempts that are left.
  unfoldable pub webhook_attempts :
      ℕ → ProcessProviderWebhookCommand → App ProcessProviderWebhookResult
  webhook_attempts zero command =
      raise (plain_error "Provider webhook processing exhausted its concurrency attempts.")
  webhook_attempts (suc zero) command = webhook_round none 1 command
  webhook_attempts (suc (suc left)) command =
      webhook_round (some (webhook_attempts (suc left) command)) (suc (suc left)) command

  unfoldable pub process_provider_webhook :
      ProcessProviderWebhookCommand → App ProcessProviderWebhookResult
  unfolding webhook_attempts
  process_provider_webhook command = webhook_attempts max_concurrent_write_attempts command
