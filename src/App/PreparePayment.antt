-- ===== src/App/PreparePayment.antt =====
-- src/application/prepare-stripe-payment-intent.ts, with the types of
-- src/application/stripe-payment-client.ts.
pub mod Creates
use serverless_order_integra.Base.{
  ◌+◌, ◌==◌, String, str_eq, Bool, true, false, not, ◌&&◌, ◌||◌, Option, none, some, Result, ok,
  err, Applied, applied_to, require, guard, opt_str_eq, str_length, is_some, ◌>>=◌, ◌>>◌,
}
use serverless_order_integra.Base.Exec
use serverless_order_integra.Base.Exec.{pure, raise, lift, check}
use serverless_order_integra.Domain.Status.{
  awaiting_payment, status_eq, PaymentStatus, not_started, payment_status_eq,
}
use serverless_order_integra.Domain.Order.{Money, PaymentFailure, OrderPayment, Order}
use serverless_order_integra.Domain.Errors.{
  AppError, order_not_found, payment_preparation_not_allowed,
  stripe_payment_intent_binding_conflict, stripe_payment_intent_contract,
}
use serverless_order_integra.Domain.PaymentChange.{PaymentStatusChange, apply_payment_status_change}
use serverless_order_integra.Repository.Contract.{
  OrderPaymentChangedMutation, BindStripePaymentIntentInput, BindStripePaymentIntentResult, bound,
  intent_id_of,
}
use serverless_order_integra.Repository.Orders.{get_order, bind_stripe_payment_intent}
use serverless_order_integra.App.World.{
  CreateStripePaymentIntentInput, create_payment_intent, App, call, ask,
}

pub data StripeCaptureMethod : Type 0 where
  automatic automatic_async manual unrecognized : StripeCaptureMethod

-- `PaymentStatus | 'REQUIRES_CAPTURE'`
pub data StripePaymentIntentStatus : Type 0 where
  payment_status : PaymentStatus → StripePaymentIntentStatus
  requires_capture : StripePaymentIntentStatus

pub record StripePaymentIntentSnapshot : Type 0 where
  pub stripe_payment_intent_id : String
  pub status : StripePaymentIntentStatus
  pub amount : Money
  pub capture_method : StripeCaptureMethod
  pub merchant_id : String
  pub order_id : String
  pub client_secret : Option String
  pub last_failure_reason_code : Option String

-- `StripePaymentClient`: what Stripe answers.
pub record StripePaymentClient : Type 0 where
  pub create_intent : CreateStripePaymentIntentInput → Result AppError StripePaymentIntentSnapshot
  pub retrieve_intent : String → Result AppError StripePaymentIntentSnapshot

pub record PrepareStripePaymentIntentCommand : Type 0 where
  pub merchant_id : String
  pub order_id : String
  pub correlation_id : String
  pub causation_id : String

pub data PreparationOutcome : Type 0 where
  created replayed : PreparationOutcome

pub record PrepareStripePaymentIntentResult : Type 0 where
  pub outcome : PreparationOutcome
  pub order : Order
  pub stripe_payment_intent : StripePaymentIntentSnapshot

abbrev expected_id : Option String → String → Bool
expected_id none id = true
expected_id (some expected) id = str_eq id expected

abbrev pub is_automatic : StripeCaptureMethod → Bool
is_automatic automatic = true
is_automatic _ = false

-- Not 'NOT_STARTED' and not 'REQUIRES_CAPTURE': the status of a prepared intent.
abbrev pub prepared_status : StripePaymentIntentStatus → Option PaymentStatus
prepared_status requires_capture = none
prepared_status (payment_status not_started) = none
prepared_status (payment_status s) = some s

abbrev has_secret : Option String → Bool
has_secret none = false
has_secret (some s) = not (str_length s == 0)

-- Returns the status that the snapshot is then known to have.
unfoldable pub assert_stripe_snapshot :
    Order → StripePaymentIntentSnapshot → Option String → Result AppError PaymentStatus
assert_stripe_snapshot order snapshot expected = do
  payment ← require order.payment payment_preparation_not_allowed
  guard (expected_id expected snapshot.stripe_payment_intent_id)
      (stripe_payment_intent_contract "stripePaymentIntentId")
  guard (str_eq snapshot.merchant_id order.merchant_id)
      (stripe_payment_intent_contract "merchantId")
  guard (str_eq snapshot.order_id order.order_id) (stripe_payment_intent_contract "orderId")
  guard
      ((snapshot.amount.amount_minor == payment.amount.amount_minor)
        && str_eq snapshot.amount.currency payment.amount.currency)
      (stripe_payment_intent_contract "amount")
  guard (is_automatic snapshot.capture_method) (stripe_payment_intent_contract "captureMethod")
  status ← require (prepared_status snapshot.status) (stripe_payment_intent_contract "status")
  guard (has_secret snapshot.client_secret) (stripe_payment_intent_contract "clientSecret")
  ok status

abbrev pub failure_from : Option String → String → Option PaymentFailure
failure_from none at = none
failure_from (some code) at = some (record { reason_code = code; occurred_at = at })

-- The change that a snapshot tells of.
abbrev pub snapshot_change :
    StripePaymentIntentSnapshot → PaymentStatus → String → PaymentStatusChange
snapshot_change snapshot status at = record {
  target_status = status;
  stripe_payment_intent_id = snapshot.stripe_payment_intent_id;
  last_failure = failure_from snapshot.last_failure_reason_code at;
}

-- `{ ...order, payment, updatedAt: at, version: order.version + 1 }`
abbrev pub with_payment : Order → OrderPayment → String → Order
with_payment order payment at = record order {
  payment = some payment;
  updated_at = at;
  version = order.version + 1;
}

abbrev payment_mutation :
    PrepareStripePaymentIntentCommand → PaymentStatus → OrderPaymentChangedMutation
payment_mutation command previous = record {
  correlation_id = command.correlation_id;
  causation_id = command.causation_id;
  previous_payment_status = previous;
}

infixl 5 ◌>>>◌
-- Steps of the service; `◌>>=◌` is that of the pure checks.
abbrev ◌>>>◌ : {A B : Type 0} → App A → (A → App B) → App B
m >>> f = Exec.◌>>=◌ m f

module _ (stripe : StripePaymentClient) (now : String) where
  unfoldable pub retrieve_bound_payment_intent : Order → String → App StripePaymentIntentSnapshot
  retrieve_bound_payment_intent order id =
      check (opt_str_eq (intent_id_of order.payment) (some id))
        stripe_payment_intent_binding_conflict
      >>> λ _. lift (stripe.retrieve_intent id) >>> λ snapshot.
          lift (assert_stripe_snapshot order snapshot (some id)) >>> λ _. pure snapshot

  abbrev pub replay : Order → String → App PrepareStripePaymentIntentResult
  replay order id = retrieve_bound_payment_intent order id >>> λ snapshot.
      pure (record { outcome = replayed; order = order; stripe_payment_intent = snapshot })

  abbrev pub after_binding :
      StripePaymentIntentSnapshot
      → BindStripePaymentIntentResult
      → App PrepareStripePaymentIntentResult
  after_binding snapshot (BindStripePaymentIntentResult.replayed order) =
      lift (require (intent_id_of order.payment) stripe_payment_intent_binding_conflict)
      >>> replay order
  after_binding snapshot (bound order) =
      pure (record { outcome = created; order = order; stripe_payment_intent = snapshot })

  abbrev pub creation_input : Order → OrderPayment → CreateStripePaymentIntentInput
  creation_input order payment = record {
    merchant_id = order.merchant_id;
    order_id = order.order_id;
    amount = payment.amount;
    stripe_creation_key = payment.stripe_creation_key;
  }

  -- What follows the answer of Stripe.
  abbrev pub bind_created :
      PrepareStripePaymentIntentCommand
      → Order
      → OrderPayment
      → StripePaymentIntentSnapshot
      → App PrepareStripePaymentIntentResult
  bind_created command order payment snapshot =
      lift (assert_stripe_snapshot order snapshot none) >>> λ status.
      lift (apply_payment_status_change payment (snapshot_change snapshot status now) now) >>> λ r.
      call (
        bind_stripe_payment_intent (record {
          current_order = order;
          changed_order = with_payment order (applied_to payment r) now;
          mutation = payment_mutation command payment.status;
        }))
      >>> after_binding snapshot

  -- The service for an unpaid order whose payment has no intent yet.
  unfoldable pub create_and_bind :
      PrepareStripePaymentIntentCommand
      → Order
      → OrderPayment
      → App PrepareStripePaymentIntentResult
  create_and_bind command order payment =
      check
        (status_eq order.status awaiting_payment && payment_status_eq payment.status not_started)
        payment_preparation_not_allowed
      >>> λ _.
          ask (create_payment_intent (creation_input order payment))
            (stripe.create_intent (creation_input order payment))
          >>> bind_created command order payment

  abbrev prepare_with :
      PrepareStripePaymentIntentCommand
      → Order
      → OrderPayment
      → Option String
      → App PrepareStripePaymentIntentResult
  prepare_with command order payment (some id) = replay order id
  prepare_with command order payment none = create_and_bind command order payment

  unfoldable pub prepare_stripe_payment_intent :
      PrepareStripePaymentIntentCommand → App PrepareStripePaymentIntentResult
  prepare_stripe_payment_intent command =
      call (get_order command.merchant_id command.order_id) >>> λ found.
      lift (require found order_not_found) >>> λ order.
      lift (require order.payment payment_preparation_not_allowed) >>> λ payment.
      prepare_with command order payment payment.stripe_payment_intent_id
