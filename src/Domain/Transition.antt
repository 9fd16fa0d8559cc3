-- ===== src/Domain/Transition.antt =====
-- src/domain/order-status-transition.ts: the status rules of an order.
pub mod Permits
pub mod Decides
use serverless_order_integra.Base.{
  ◌+◌, String, str_eq, Bool, true, false, not, ◌&&◌, ◌||◌, Option, none, some, Result, ok, err,
  ◌>>=◌, ◌>>◌, guard, require, or_else, or_default, is_some, Applied, same, fresh, str_lt,
  if◌then◌else◌,
}
use serverless_order_integra.Domain.Status.{
  OrderStatus, awaiting_payment, pending_submission, submission_failed, submitted, picked_up,
  delivered, delivery_failed, cancelled, status_eq, PaymentStatus, succeeded, payment_cancelled,
  payment_status_eq,
}
use serverless_order_integra.Domain.Errors.{
  AppError, invalid_order_status_transition, invalid_order_status_details,
  delivery_provider_order_id_field, failure_field, failure_stage_field, payment_status_field,
  range_error,
}
use serverless_order_integra.Domain.Order.{
  DeliveryProviderAssignment, FailureStage, submission, delivery, FailureDetails, OrderPayment,
  Order,
}

-- `ALLOWED_TRANSITIONS[current].has(target)`
unfoldable pub allowed_transition : OrderStatus → OrderStatus → Bool
allowed_transition awaiting_payment pending_submission = true
allowed_transition awaiting_payment cancelled = true
allowed_transition pending_submission submitted = true
allowed_transition pending_submission submission_failed = true
allowed_transition pending_submission cancelled = true
allowed_transition submission_failed pending_submission = true
allowed_transition submission_failed cancelled = true
allowed_transition submitted picked_up = true
allowed_transition submitted delivered = true
allowed_transition submitted delivery_failed = true
allowed_transition submitted cancelled = true
allowed_transition picked_up delivered = true
allowed_transition picked_up delivery_failed = true
allowed_transition _ _ = false

pub record OrderStatusChange : Type 0 where
  pub target_status : OrderStatus
  pub delivery_provider_order_id : Option String
  pub accepted_at : Option String
  pub failure : Option FailureDetails

-- `change.targetStatus === 'PENDING_SUBMISSION' ? 'SUCCEEDED' : 'CANCELLED'`
abbrev required_payment_status : OrderStatus → PaymentStatus
required_payment_status pending_submission = succeeded
required_payment_status _ = payment_cancelled

-- `payment?.status === wanted`
abbrev pub payment_has_status : Option OrderPayment → PaymentStatus → Bool
payment_has_status none wanted = false
payment_has_status (some p) wanted = payment_status_eq p.status wanted

unfoldable pub validate_payment_gate : Order → OrderStatusChange → Result AppError (Unit {0})
unfolding payment_status_eq
validate_payment_gate order change =
    if not (status_eq order.status awaiting_payment)
    then ok tt
    else guard (payment_has_status order.payment (required_payment_status change.target_status))
        (invalid_order_status_details payment_status_field)

abbrev pub stage_eq : FailureStage → FailureStage → Bool
stage_eq submission submission = true
stage_eq delivery delivery = true
stage_eq _ _ = false

abbrev require_failure : FailureStage → Option FailureDetails → Result AppError (Unit {0})
require_failure stage none = err (invalid_order_status_details failure_field)
require_failure stage (some f) =
    guard (stage_eq f.stage stage) (invalid_order_status_details failure_stage_field)

abbrev pub failure_for : OrderStatus → Option FailureDetails → Result AppError (Unit {0})
failure_for submission_failed failure = require_failure submission failure
failure_for delivery_failed failure = require_failure delivery failure
failure_for _ failure = guard (not (is_some failure)) (invalid_order_status_details failure_field)

unfoldable pub validate_failure : OrderStatusChange → Result AppError (Unit {0})
validate_failure change = failure_for change.target_status change.failure

-- The first two tests of `providerForChange`: a recorded id cannot change, and one can first be
-- recorded only when confirming submission.
abbrev check_provider_order_id :
    Option String → Option String → OrderStatus → Result AppError (Unit {0})
check_provider_order_id none existing target = ok tt
check_provider_order_id (some given) (some existing) target =
    guard (str_eq given existing) (invalid_order_status_details delivery_provider_order_id_field)
check_provider_order_id (some given) none target =
    guard (status_eq target submitted)
      (invalid_order_status_details delivery_provider_order_id_field)

abbrev needs_acceptance : OrderStatus → Bool
needs_acceptance picked_up = true
needs_acceptance delivered = true
needs_acceptance delivery_failed = true
needs_acceptance _ = false

-- The assignment when submission is confirmed.
abbrev accept_provider :
    DeliveryProviderAssignment
    → OrderStatusChange
    → String
    → Result AppError DeliveryProviderAssignment
accept_provider provider change changed_at = do
  id ←
      require (or_else provider.delivery_provider_order_id change.delivery_provider_order_id)
        (invalid_order_status_details delivery_provider_order_id_field)
  ok (record provider {
    delivery_provider_order_id = some id;
    accepted_at = some (or_default (or_else provider.accepted_at change.accepted_at) changed_at);
  })

unfoldable pub provider_for_change :
    Order → OrderStatusChange → String → Result AppError DeliveryProviderAssignment
unfolding status_eq
provider_for_change order change changed_at = do
  check_provider_order_id change.delivery_provider_order_id
      order.provider.delivery_provider_order_id change.target_status
  if status_eq change.target_status submitted
      then accept_provider order.provider change changed_at
      else (do
        guard
            (not (needs_acceptance change.target_status)
              || (is_some order.provider.delivery_provider_order_id
                  && is_some order.provider.accepted_at))
            (invalid_order_status_details delivery_provider_order_id_field)
        ok order.provider)

-- The order that a change gives.
abbrev pub changed_order : Order → OrderStatusChange → String → DeliveryProviderAssignment → Order
changed_order order change changed_at provider = record order {
  status = change.target_status;
  provider = provider;
  failure = change.failure;
  updated_at = changed_at;
  version = order.version + 1;
}

-- `same` where the code returns its argument itself.
unfoldable pub apply_order_status_change :
    Order → OrderStatusChange → String → Result AppError (Applied Order)
apply_order_status_change order change changed_at =
    if status_eq change.target_status order.status then ok same else (do
      guard (allowed_transition order.status change.target_status)
          (invalid_order_status_transition order.status change.target_status)
      guard (not (str_lt changed_at order.created_at))
          (range_error "A status change cannot occur before the order was created.")
      validate_failure change
      validate_payment_gate order change
      provider ← provider_for_change order change changed_at
      ok (fresh (changed_order order change changed_at provider)))
