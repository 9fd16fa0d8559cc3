-- ===== src/App/World.antt =====
-- What a service invocation runs in: the repository, what other invocations will do to it, and the
-- calls made to outside services, newest first. An invocation gives way at each `await`: before
-- each of its repository calls the next of `others` runs, any function on the repository.
pub mod Quiet
use serverless_order_integra.Base.{String, List, [], ◌∷◌, Result, Option}
use serverless_order_integra.Base.Exec.{Exec}
use serverless_order_integra.Domain.Status.{PaymentStatus}
use serverless_order_integra.Domain.Order.{Money, Order}
use serverless_order_integra.Domain.Errors.{AppError}
use serverless_order_integra.Repository.State.{Repository}
use serverless_order_integra.Repository.Orders.{Repo}

-- `CreateStripePaymentIntentInput` (src/application/stripe-payment-client.ts)
pub record CreateStripePaymentIntentInput : Type 0 where
  pub merchant_id : String
  pub order_id : String
  pub amount : Money
  pub stripe_creation_key : String

-- The calls with an effect outside: `submitDelivery` and `createPaymentIntent`.
pub data OutsideCall : Type 0 where
  submit_delivery : (order : Order) (correlation_id : String) → OutsideCall
  create_payment_intent : CreateStripePaymentIntentInput → OutsideCall

pub record World : Type 0 where
  pub repository : Repository
  pub others : List (Repository → Repository)
  pub outside : List OutsideCall

abbrev pub App : Type 0 → Type 0
App A = Exec World AppError A

abbrev run_next : List (Repository → Repository) → Repository → Repository
run_next [] r = r
run_next (f ∷ fs) r = f r

abbrev pub drop_next : List (Repository → Repository) → List (Repository → Repository)
drop_next [] = []
drop_next (f ∷ fs) = fs

-- The repository as the next call of this invocation finds it.
abbrev pub seen : World → Repository
seen w = run_next w.others w.repository

-- `await repository.method(...)`
abbrev pub call : {A : Type 0} → Repo A → App A
call m w = ((m (seen w)).0, record w { repository = (m (seen w)).1; others = drop_next w.others })

-- A call outside: it is logged, and its result is whatever the service answers.
abbrev pub ask : {A : Type 0} → OutsideCall → Result AppError A → App A
ask c answer w = (answer, record w { outside = c ∷ w.outside })
