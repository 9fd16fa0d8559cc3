-- ===== src/Domain/PaymentChange.antt =====
-- src/domain/payment-status-transition.ts: how the payment inside an order changes.
pub mod Laws
use serverless_order_integra.Base.{
  String, ◌==◌, str_eq, Bool, true, false, not, ◌&&◌, Option, none, some, Result, ok, ◌>>◌, guard,
  or_else, or_default, Applied, same, fresh, str_lt, str_length, opt_str_eq, if◌then◌else◌,
}
use serverless_order_integra.Domain.Status.{
  PaymentStatus, is_terminal_payment_status, payment_status_eq,
}
use serverless_order_integra.Domain.Errors.{
  AppError, invalid_payment_status_transition, invalid_payment_status_details, range_error,
}
use serverless_order_integra.Domain.Order.{PaymentFailure, OrderPayment}

-- The type of the code leaves 'NOT_STARTED' out of `targetStatus`; here it is ruled out where the
-- change is made.
pub record PaymentStatusChange : Type 0 where
  pub target_status : PaymentStatus
  pub stripe_payment_intent_id : String
  pub last_failure : Option PaymentFailure

-- Whether an id that is already bound stays the one given.
abbrev id_matches : Option String → String → Bool
id_matches none given = true
id_matches (some bound) given = str_eq bound given

unfoldable pub validate_details : OrderPayment → PaymentStatusChange → Result AppError (Unit {0})
validate_details payment change = do
  guard (not (str_length change.stripe_payment_intent_id == 0))
      (invalid_payment_status_details "The Stripe PaymentIntent ID must not be empty.")
  guard (id_matches payment.stripe_payment_intent_id change.stripe_payment_intent_id)
      (invalid_payment_status_details "The Stripe PaymentIntent ID cannot be changed.")

-- Two failures that are one object have equal fields too.
unfoldable pub same_failure : Option PaymentFailure → Option PaymentFailure → Bool
same_failure none none = true
same_failure (some a) (some b) =
    str_eq a.reason_code b.reason_code && str_eq a.occurred_at b.occurred_at
same_failure none (some b) = false
same_failure (some a) none = false

unfoldable pub apply_payment_status_change :
    OrderPayment → PaymentStatusChange → String → Result AppError (Applied OrderPayment)
unfolding validate_details
apply_payment_status_change payment change changed_at = do
  validate_details payment change
  guard
      (not (
        is_terminal_payment_status payment.status
        && not (payment_status_eq payment.status change.target_status)))
      (invalid_payment_status_transition payment.status change.target_status)
  guard (not (str_lt changed_at payment.created_at))
      (range_error "A payment change cannot occur before the payment was created.")
  let id = or_default payment.stripe_payment_intent_id change.stripe_payment_intent_id
  let last_failure = or_else change.last_failure payment.last_failure
  if payment_status_eq payment.status change.target_status
        && opt_str_eq payment.stripe_payment_intent_id (some id)
        && same_failure payment.last_failure last_failure
      then ok same
      else (do
        guard (not (str_lt changed_at payment.updated_at))
            (range_error "A payment change cannot occur before the previous payment update.")
        ok (
            fresh (record payment {
              status = change.target_status;
              stripe_payment_intent_id = some id;
              last_failure = last_failure;
              updated_at = changed_at;
            })))
