-- ===== src/App/StripeProposal.antt =====
-- src/application/process-stripe-webhook.ts: the change that a Stripe event asks for.
pub mod Sound
use serverless_order_integra.Base.{
  ℕ, zero, suc, ◌+◌, ◌==◌, String, str_eq, Bool, true, false, not, ◌&&◌, ◌||◌, Option, none, some,
  Result, ok, err, Applied, same, fresh, applied_to, require, guard, opt_str_eq, if◌then◌else◌,
  ◌>>=◌, ◌>>◌,
}
use serverless_order_integra.Base.Exec
use serverless_order_integra.Base.Exec.{pure, raise, lift, attempt}
use serverless_order_integra.Domain.Status.{
  awaiting_payment, pending_submission, cancelled, status_eq, PaymentStatus, not_started, succeeded,
  payment_cancelled, payment_status_eq, is_terminal_payment_status,
}
use serverless_order_integra.Domain.Order.{Order, OrderPayment}
use serverless_order_integra.Domain.Errors.{
  AppError, order_version_conflict, stripe_webhook_reconciliation, plain_error,
}
use serverless_order_integra.Domain.Transition.{OrderStatusChange, apply_order_status_change}
use serverless_order_integra.Domain.PaymentChange.{apply_payment_status_change}
use serverless_order_integra.Repository.Contract.{
  OrderPaymentChangedMutation, OrderStatusChangedMutation, StripeWebhookOrderMutation,
  payment_changed, status_changed, intent_id_of, StripeWebhookEventRecord, RecordResult, recorded,
  duplicate, StripeWebhookOrderExpectation, current_order, missing_order,
}
use serverless_order_integra.Repository.Orders.{get_order, get_by_stripe_payment_intent_id}
use serverless_order_integra.Repository.Stripe.{
  apply_stripe_webhook_change, record_ignored_stripe_webhook,
  record_stripe_webhook_reconciliation_required,
}
use serverless_order_integra.App.World.{App, call}
use serverless_order_integra.App.PreparePayment.{
  StripeCaptureMethod, is_automatic, StripePaymentIntentStatus, payment_status, requires_capture,
  StripePaymentIntentSnapshot, StripePaymentClient, snapshot_change, with_payment,
}

pub record ProcessStripeWebhookCommand : Type 0 where
  pub event_id : String
  pub event_type : String
  pub stripe_payment_intent_id : String
  pub event_fingerprint : String
  pub correlation_id : String

pub data ProposedChange : Type 0 where
  apply_change : Order → StripeWebhookOrderMutation → ProposedChange
  ignore : ProposedChange
  reconcile : (reason_code : String) → ProposedChange

-- `isAutomaticSnapshot`: the payment status of an automatic snapshot.
abbrev automatic_status : StripePaymentIntentSnapshot → Option PaymentStatus
automatic_status snapshot =
    if is_automatic snapshot.capture_method then plain_status snapshot.status else none
  where
    plain_status : StripePaymentIntentStatus → Option PaymentStatus
    plain_status requires_capture = none
    plain_status (payment_status s) = some s

abbrev payment_has_amount : Option OrderPayment → StripePaymentIntentSnapshot → Bool
payment_has_amount none snapshot = false
payment_has_amount (some p) snapshot =
    (p.amount.amount_minor == snapshot.amount.amount_minor)
    && str_eq p.amount.currency snapshot.amount.currency

unfoldable pub same_money : Order → StripePaymentIntentSnapshot → Bool
same_money order snapshot = payment_has_amount order.payment snapshot

-- `NOT_STARTED` is refused; any other status is itself.
abbrev started : PaymentStatus → Result AppError (Unit {0})
started not_started = err (stripe_webhook_reconciliation "INVALID_STRIPE_STATUS")
started _ = ok tt

-- The order after the payment change, and whether it is a new order.
abbrev payment_applied : Order → Applied OrderPayment → String → Applied Order
payment_applied current same at = same
payment_applied current (fresh payment) at = fresh (with_payment current payment at)

unfoldable pub payment_changed_order :
    Order → StripePaymentIntentSnapshot → PaymentStatus → String → Result AppError (Applied Order)
payment_changed_order current snapshot status at = do
  payment ← require current.payment (stripe_webhook_reconciliation "PAYMENT_VALUE_MISSING")
  started status
  r ← apply_payment_status_change payment (snapshot_change snapshot status at) at
  ok (payment_applied current r at)

-- `snapshot.status === 'SUCCEEDED' ? 'PENDING_SUBMISSION' : 'CANCELLED'`
abbrev pub settled_change : PaymentStatus → OrderStatusChange
settled_change status = record {
  target_status = if payment_status_eq status succeeded then pending_submission else cancelled;
  delivery_provider_order_id = none;
  accepted_at = none;
  failure = none;
}

-- The order is AWAITING_PAYMENT, so a change to another status is never the order itself; if it
-- were, it would be the new object `base`.
abbrev on_base : Order → Applied Order → Applied Order
on_base base r = fresh (applied_to base r)

unfoldable pub status_changed_order :
    Order → StripePaymentIntentSnapshot → PaymentStatus → String → Result AppError (Applied Order)
status_changed_order current snapshot status at = do
  paid ← payment_changed_order current snapshot status at
  payment ←
      require ((applied_to current paid).payment)
        (stripe_webhook_reconciliation "PAYMENT_VALUE_MISSING")
  let base = record current { payment = some payment }
  r ← apply_order_status_change base (settled_change status) at
  ok (on_base base r)

-- `changedOrder.status === current.status ? payment mutation : status mutation`, with the trace
-- that `tracedMutation` fills in.
abbrev proposed_mutation :
    ProcessStripeWebhookCommand → Order → OrderPayment → Order → StripeWebhookOrderMutation
proposed_mutation command current payment changed =
    if status_eq changed.status current.status
    then payment_changed (record {
      correlation_id = command.correlation_id;
      causation_id = command.event_id;
      previous_payment_status = payment.status;
    })
    else status_changed (record {
      correlation_id = command.correlation_id;
      causation_id = command.event_id;
      previous_status = current.status;
      reason = none;
    })

-- The `try` of `proposeChange`.
abbrev proposal :
    ProcessStripeWebhookCommand
    → Order
    → OrderPayment
    → Result AppError (Applied Order)
    → Result AppError ProposedChange
proposal command current payment (ok same) = ok ignore
proposal command current payment (ok (fresh changed)) =
    ok (apply_change changed (proposed_mutation command current payment changed))
proposal command current payment (err (stripe_webhook_reconciliation reason)) =
    ok (reconcile reason)
proposal command current payment (err e) = err e

-- The change for an unpaid order.
abbrev pub settle :
    Order → StripePaymentIntentSnapshot → PaymentStatus → String → Result AppError (Applied Order)
settle current snapshot status at =
    if is_terminal_payment_status status
    then status_changed_order current snapshot status at
    else payment_changed_order current snapshot status at

-- A paid or abandoned order takes no further change from Stripe.
abbrev progressed : OrderPayment → StripePaymentIntentSnapshot → PaymentStatus → ProposedChange
progressed payment snapshot status =
    if payment_status_eq payment.status status
      && opt_str_eq payment.stripe_payment_intent_id (some snapshot.stripe_payment_intent_id)
    then ignore
    else reconcile "ORDER_ALREADY_PROGRESSED"

abbrev bound_elsewhere : Option String → String → Bool
bound_elsewhere none id = false
bound_elsewhere (some stored) id = not (str_eq stored id)

-- `proposeChange` once the snapshot is known to be automatic, of the order's own payment.
abbrev propose_for :
    ProcessStripeWebhookCommand
    → Order
    → OrderPayment
    → StripePaymentIntentSnapshot
    → PaymentStatus
    → String
    → Result AppError ProposedChange
propose_for command current payment snapshot status at =
    if status_eq current.status awaiting_payment
    then proposal command current payment (settle current snapshot status at)
    else ok (progressed payment snapshot status)

-- An order with no payment fails the test of the amount, so the tests after it may read it.
abbrev propose_paid :
    ProcessStripeWebhookCommand
    → Order
    → Option OrderPayment
    → StripePaymentIntentSnapshot
    → Option PaymentStatus
    → String
    → Result AppError ProposedChange
propose_paid command current none snapshot status at = ok (reconcile "AMOUNT_OR_CURRENCY_MISMATCH")
propose_paid command current (some payment) snapshot none at =
    if bound_elsewhere payment.stripe_payment_intent_id snapshot.stripe_payment_intent_id
    then ok (reconcile "PAYMENT_INTENT_MAPPING_CONFLICT")
    else ok (reconcile "CAPTURE_METHOD_MISMATCH")
propose_paid command current (some payment) snapshot (some status) at =
    if bound_elsewhere payment.stripe_payment_intent_id snapshot.stripe_payment_intent_id
    then ok (reconcile "PAYMENT_INTENT_MAPPING_CONFLICT")
    else propose_for command current payment snapshot status at

unfoldable pub propose_change :
    ProcessStripeWebhookCommand
    → Order
    → StripePaymentIntentSnapshot
    → String
    → Result AppError ProposedChange
propose_change command current snapshot at =
    if not
      (str_eq current.merchant_id snapshot.merchant_id && str_eq current.order_id snapshot.order_id)
    then ok (reconcile "OWNERSHIP_MISMATCH")
    else if not (same_money current snapshot)
    then ok (reconcile "AMOUNT_OR_CURRENCY_MISMATCH")
    else propose_paid command current current.payment snapshot (automatic_status snapshot) at
