-- ===== src/App/ChangeStatus.antt =====
-- src/application/change-order-status.ts, from the validated request on.
pub mod Versions
use serverless_order_integra.Base.{
  ℕ, String, ◌==◌, Option, none, some, Applied, same, fresh, require,
}
use serverless_order_integra.Base.Exec.{pure, lift, check, ◌>>=◌, ◌>>◌}
use serverless_order_integra.Domain.Status.{OrderStatus}
use serverless_order_integra.Domain.Order.{FailureDetails, Order}
use serverless_order_integra.Domain.Errors.{order_not_found, order_version_conflict}
use serverless_order_integra.Domain.Transition.{OrderStatusChange, apply_order_status_change}
use serverless_order_integra.Repository.Contract.{OrderStatusChangedMutation}
use serverless_order_integra.Repository.Orders.{get_order}
use serverless_order_integra.Repository.Saving.{save_status_change}
use serverless_order_integra.App.World.{App, call}

-- `ChangeOrderStatusRequest` (src/application/change-order-status-validation.ts). The type of the
-- code limits `targetStatus` to six statuses; the functions below do not depend on that.
pub record ChangeOrderStatusRequest : Type 0 where
  pub target_status : OrderStatus
  pub reason : String
  pub delivery_provider_order_id : Option String
  pub failure : Option FailureDetails

-- `ChangeOrderStatusCommand`, with the validated body.
pub record ChangeOrderStatusCommand : Type 0 where
  pub merchant_id : String
  pub order_id : String
  pub expected_version : ℕ
  pub correlation_id : String
  pub causation_id : String
  pub request : ChangeOrderStatusRequest

pub data ChangeOrderStatusResult : Type 0 where
  changed unchanged : Order → ChangeOrderStatusResult

unfoldable pub to_domain_change : ChangeOrderStatusRequest → OrderStatusChange
to_domain_change request = record {
  target_status = request.target_status;
  delivery_provider_order_id = request.delivery_provider_order_id;
  accepted_at = none;
  failure = request.failure;
}

abbrev pub status_mutation : ChangeOrderStatusCommand → Order → OrderStatusChangedMutation
status_mutation command current = record {
  correlation_id = command.correlation_id;
  causation_id = command.causation_id;
  previous_status = current.status;
  reason = some command.request.reason;
}

-- The rest of the service once the change is computed.
abbrev store_change : ChangeOrderStatusCommand → Order → Applied Order → App ChangeOrderStatusResult
store_change command current same = pure (unchanged current)
store_change command current (fresh order) = do
  call (save_status_change order command.expected_version (status_mutation command current))
  pure (changed order)

-- `now` is the reading of the clock.
unfoldable pub change_order_status :
    (now : String) → ChangeOrderStatusCommand → App ChangeOrderStatusResult
change_order_status now command = do
  found ← call (get_order command.merchant_id command.order_id)
  current ← lift (require found order_not_found)
  check (current.version == command.expected_version) (order_version_conflict current.version)
  result ← lift (apply_order_status_change current (to_domain_change command.request) now)
  store_change command current result
