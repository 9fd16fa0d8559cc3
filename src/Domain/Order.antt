-- ===== src/Domain/Order.antt =====
-- src/domain/order.ts and src/domain/payment.ts: the data of an order. Identifiers and timestamps
-- are the strings that the code keeps; amounts, quantities and versions are natural numbers.
use serverless_order_integra.Base.{
  ℕ, String, ◌==◌, Option, none, List, Result, ok, err, str_length, if◌then◌else◌,
}
use serverless_order_integra.Domain.Status.{OrderStatus, PaymentStatus, not_started}
use serverless_order_integra.Domain.Errors.{AppError, range_error}

pub record Money : Type 0 where
  pub amount_minor : ℕ
  pub currency : String

pub record OrderLine : Type 0 where
  pub item_reference : String
  pub description : String
  pub quantity : ℕ
  pub unit_price : Money

pub record DeliveryLocation : Type 0 where
  pub address_line : String
  pub city : String
  pub postal_code : String
  pub country_code : String

-- The literal type 'mock-delivery'.
pub data DeliveryProviderCode : Type 0 where
  mock_delivery : DeliveryProviderCode

abbrev pub provider_code_text : DeliveryProviderCode → String
provider_code_text mock_delivery = "mock-delivery"

pub record DeliveryProviderAssignment : Type 0 where
  pub delivery_provider_code : DeliveryProviderCode
  pub delivery_provider_submission_key : String
  pub delivery_provider_order_id : Option String
  pub accepted_at : Option String

pub data FailureStage : Type 0 where
  submission delivery : FailureStage

pub record FailureDetails : Type 0 where
  pub stage : FailureStage
  pub reason_code : String
  pub summary : String
  pub occurred_at : String

pub record PaymentFailure : Type 0 where
  pub reason_code : String
  pub occurred_at : String

pub record OrderPayment : Type 0 where
  pub status : PaymentStatus
  pub amount : Money
  pub stripe_creation_key : String
  pub stripe_payment_intent_id : Option String
  pub last_failure : Option PaymentFailure
  pub created_at : String
  pub updated_at : String

pub record Order : Type 0 where
  pub order_id : String
  pub merchant_id : String
  pub merchant_order_id : String
  pub status : OrderStatus
  pub items : List OrderLine
  pub total : Money
  pub pickup : DeliveryLocation
  pub dropoff : DeliveryLocation
  pub provider : DeliveryProviderAssignment
  pub payment : Option OrderPayment
  pub failure : Option FailureDetails
  pub created_at : String
  pub updated_at : String
  pub version : ℕ

unfoldable pub create_initial_order_payment : Money → String → String → Result AppError OrderPayment
create_initial_order_payment amount stripe_creation_key created_at =
    if str_length stripe_creation_key == 0
    then err (range_error "The Stripe creation key must not be empty.")
    else ok (record {
      status = not_started;
      amount = amount;
      stripe_creation_key = stripe_creation_key;
      stripe_payment_intent_id = none;
      last_failure = none;
      created_at = created_at;
      updated_at = created_at;
    })
