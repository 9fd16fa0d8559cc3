-- ===== src/Repository/State.antt =====
-- The fields of `InMemoryOrderRepository`. The stored values are immutable, so `structuredClone`
-- is the identity. Each method runs to its end once it has started (its one `await` comes first).
use serverless_order_integra.Base.{String, Option, [], ◌∷◌, Map, Key}
use serverless_order_integra.Domain.Order.{Order}
use serverless_order_integra.Repository.Contract.{StripeWebhookOutcome}

pub record IdempotencyEntry : Type 0 where
  pub request_fingerprint : String
  pub order_id : String

pub record OrderRef : Type 0 where
  pub merchant_id : String
  pub order_id : String

pub record ProcessedProviderEvent : Type 0 where
  pub fingerprint : String

pub record ProcessedStripeEvent : Type 0 where
  pub fingerprint : String
  pub event_type : String
  pub stripe_payment_intent_id : String
  pub outcome : StripeWebhookOutcome
  pub reason_code : Option String

pub record Repository : Type 0 where
  pub orders : Map Key Order
  pub idempotency_entries : Map Key IdempotencyEntry
  pub merchant_order_ids : Map Key String
  pub provider_orders : Map Key OrderRef
  pub processed_provider_events : Map Key ProcessedProviderEvent
  pub processed_stripe_events : Map Key ProcessedStripeEvent
  pub stripe_payment_intents : Map String OrderRef

abbrev pub empty_repository : Repository
empty_repository = record {
  orders = [];
  idempotency_entries = [];
  merchant_order_ids = [];
  provider_orders = [];
  processed_provider_events = [];
  processed_stripe_events = [];
  stripe_payment_intents = [];
}

-- `tupleKey(a, b)`
abbrev pub tuple_key : String → String → Key
tuple_key a b = a ∷ b ∷ []

abbrev pub key_of : Order → Key
key_of order = tuple_key order.merchant_id order.order_id

abbrev pub ref_of : Order → OrderRef
ref_of order = record { merchant_id = order.merchant_id; order_id = order.order_id }
