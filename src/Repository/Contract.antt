-- ===== src/Repository/Contract.antt =====
-- src/application/{order,payment,provider-webhook,stripe-webhook}-repository.ts and
-- src/events/order-mutation.ts: inputs, results, and the checks that every implementation shares.
use serverless_order_integra.Base.{
  ℕ, ◌+◌, ◌==◌, String, str_eq, Bool, true, not, ◌&&◌, Option, none, some, Result, ok, ◌>>=◌, ◌>>◌,
  guard, require, leb, str_length,
}
use serverless_order_integra.Domain.Status.{
  OrderStatus, PaymentStatus, status_eq, payment_status_eq,
}
use serverless_order_integra.Domain.Order.{Order, OrderPayment}
use serverless_order_integra.Domain.Errors.{
  AppError, range_error, type_error, order_not_found, order_version_conflict,
  stripe_payment_intent_binding_conflict,
}

pub record OrderCreatedMutation : Type 0 where
  pub correlation_id : String
  pub causation_id : String

pub record OrderStatusChangedMutation : Type 0 where
  pub correlation_id : String
  pub causation_id : String
  pub previous_status : OrderStatus
  pub reason : Option String

pub record OrderPaymentChangedMutation : Type 0 where
  pub correlation_id : String
  pub causation_id : String
  pub previous_payment_status : PaymentStatus

pub record CreateOrderInput : Type 0 where
  pub order : Order
  pub idempotency_key : String
  pub request_fingerprint : String
  pub mutation : OrderCreatedMutation

pub data CreateOrderResult : Type 0 where
  created replayed : Order → CreateOrderResult

unfoldable pub assert_next_order_version : Order → ℕ → Result AppError (Unit {0})
assert_next_order_version order expected_version =
    guard (order.version == expected_version + 1)
      (range_error "A status change must increment the order version exactly once.")

-- The limit is a natural number here, so of the code's tests those of `Number.isInteger` and of a
-- negative limit always pass.
unfoldable pub assert_order_page_limit : ℕ → Result AppError (Unit {0})
assert_order_page_limit limit =
    guard (leb 1 limit && leb limit 100)
      (range_error "An order page limit must be an integer from 1 through 100.")

pub record BindStripePaymentIntentInput : Type 0 where
  pub current_order : Order
  pub changed_order : Order
  pub mutation : OrderPaymentChangedMutation

pub data BindStripePaymentIntentResult : Type 0 where
  bound replayed : Order → BindStripePaymentIntentResult

abbrev binding_keeps_details : OrderPayment → OrderPayment → Bool
binding_keeps_details p q =
    (p.amount.amount_minor == q.amount.amount_minor)
    && str_eq p.amount.currency q.amount.currency
    && str_eq p.stripe_creation_key q.stripe_creation_key
    && str_eq p.created_at q.created_at

abbrev missing_payment : AppError
missing_payment = type_error "A payment binding requires an embedded payment value."

abbrev missing_intent_id : AppError
missing_intent_id = type_error "A payment binding requires a Stripe PaymentIntent ID."

-- `old === undefined || old === id`
abbrev pub unbound_or : Option String → String → Bool
unbound_or none id = true
unbound_or (some old) id = str_eq old id

unfoldable pub stripe_payment_intent_id_from_binding :
    BindStripePaymentIntentInput → Result AppError String
unfolding assert_next_order_version
stripe_payment_intent_id_from_binding input = do
  let current = input.current_order
  let changed = input.changed_order
  assert_next_order_version changed current.version
  guard (str_eq current.order_id changed.order_id && str_eq current.merchant_id changed.merchant_id)
      (type_error "A payment binding cannot change order identity.")
  guard (status_eq current.status changed.status)
      (type_error "Binding a PaymentIntent cannot change the order status.")
  p ← require current.payment missing_payment
  q ← require changed.payment missing_payment
  guard (payment_status_eq input.mutation.previous_payment_status p.status)
      (type_error "Payment mutation metadata does not match the current payment status.")
  guard (binding_keeps_details p q)
      (type_error "A payment binding cannot change immutable payment details.")
  guard (str_eq q.updated_at changed.updated_at)
      (type_error "Payment and order update timestamps must match.")
  id ← require q.stripe_payment_intent_id missing_intent_id
  guard (not (str_length id == 0)) missing_intent_id
  guard (unbound_or p.stripe_payment_intent_id id) stripe_payment_intent_binding_conflict
  ok id

unfoldable pub order_from_payment_binding : BindStripePaymentIntentInput → Result AppError Order
order_from_payment_binding input = do
  payment ← require input.changed_order.payment missing_payment
  ok (record (input.current_order) {
    payment = some payment;
    updated_at = input.changed_order.updated_at;
    version = input.changed_order.version;
  })

-- `order.payment?.stripePaymentIntentId`
abbrev pub intent_id_of : Option OrderPayment → Option String
intent_id_of none = none
intent_id_of (some p) = p.stripe_payment_intent_id

unfoldable pub resolve_payment_binding_order :
    Option Order → BindStripePaymentIntentInput → String → Result AppError Order
resolve_payment_binding_order stored_order input stripe_payment_intent_id = do
  stored ← require stored_order order_not_found
  guard (unbound_or (intent_id_of stored.payment) stripe_payment_intent_id)
      stripe_payment_intent_binding_conflict
  guard (stored.version == input.current_order.version) (order_version_conflict stored.version)
  ok stored

pub record RecordProviderWebhookInput : Type 0 where
  pub event_id : String
  pub event_fingerprint : String
  pub delivery_provider_order_id : String
  pub processed_at : String
  pub current_order : Order
  pub changed_order : Option Order
  pub mutation : Option OrderStatusChangedMutation

-- `RecordProviderWebhookResult` and `RecordStripeWebhookResult`
pub data RecordResult : Type 0 where
  recorded duplicate : RecordResult

pub data StripeWebhookOutcome : Type 0 where
  applied ignored reconciliation_required : StripeWebhookOutcome

pub data StripeWebhookOrderMutation : Type 0 where
  payment_changed : OrderPaymentChangedMutation → StripeWebhookOrderMutation
  status_changed : OrderStatusChangedMutation → StripeWebhookOrderMutation

pub record StripeWebhookEventRecord : Type 0 where
  pub event_id : String
  pub event_type : String
  pub event_fingerprint : String
  pub stripe_payment_intent_id : String
  pub processed_at : String

pub record ApplyStripeWebhookChangeInput : Type 0 where
  pub event : StripeWebhookEventRecord
  pub current_order : Order
  pub changed_order : Order
  pub mutation : StripeWebhookOrderMutation
  pub ensure_payment_intent_mapping : Bool

pub record RecordIgnoredStripeWebhookInput : Type 0 where
  pub event : StripeWebhookEventRecord
  pub current_order : Order
  pub ensure_payment_intent_mapping : Bool

pub data StripeWebhookOrderExpectation : Type 0 where
  current_order : Order → StripeWebhookOrderExpectation
  missing_order : (merchant_id order_id : String) → StripeWebhookOrderExpectation

pub record RecordStripeWebhookReconciliationRequiredInput : Type 0 where
  pub event : StripeWebhookEventRecord
  pub reason_code : String
  pub expectation : StripeWebhookOrderExpectation
