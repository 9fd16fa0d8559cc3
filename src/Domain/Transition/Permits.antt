-- ===== src/Domain/Transition/Permits.antt =====
-- When `applyOrderStatusChange` (src/domain/order-status-transition.ts) accepts a change, said
-- without its code: the edges of the life cycle, and the details that each edge asks for.
use serverless_order_integra.Base.{suc, String, ◌≡◌, refl, ◌⊎◌, true, Option, none, some, NotAfter}
use serverless_order_integra.Domain.Status.{
  OrderStatus, awaiting_payment, pending_submission, submission_failed, submitted, picked_up,
  delivered, delivery_failed, cancelled, succeeded, payment_cancelled, PaymentStatus,
}
use serverless_order_integra.Domain.Order.{
  submission, delivery, FailureDetails, OrderPayment, Order,
}
use serverless_order_integra.Domain.Transition.{allowed_transition, OrderStatusChange}

-- The life cycle of an order.
pub data Edge : OrderStatus → OrderStatus → Type 0 where
  pay : Edge awaiting_payment pending_submission
  abandon : Edge awaiting_payment cancelled
  submit : Edge pending_submission submitted
  fail_submission : Edge pending_submission submission_failed
  withdraw : Edge pending_submission cancelled
  retry : Edge submission_failed pending_submission
  give_up : Edge submission_failed cancelled
  pick_up : Edge submitted picked_up
  deliver_directly : Edge submitted delivered
  fail_directly : Edge submitted delivery_failed
  recall : Edge submitted cancelled
  deliver : Edge picked_up delivered
  fail_delivery : Edge picked_up delivery_failed

pub Edge-of_allowed : (a b : OrderStatus) → allowed_transition a b ≡ true → Edge a b
unfolding allowed_transition
Edge-of_allowed awaiting_payment pending_submission h = Edge.pay
Edge-of_allowed awaiting_payment cancelled h = Edge.abandon
Edge-of_allowed pending_submission submitted h = Edge.submit
Edge-of_allowed pending_submission submission_failed h = Edge.fail_submission
Edge-of_allowed pending_submission cancelled h = Edge.withdraw
Edge-of_allowed submission_failed pending_submission h = Edge.retry
Edge-of_allowed submission_failed cancelled h = Edge.give_up
Edge-of_allowed submitted picked_up h = Edge.pick_up
Edge-of_allowed submitted delivered h = Edge.deliver_directly
Edge-of_allowed submitted delivery_failed h = Edge.fail_directly
Edge-of_allowed submitted cancelled h = Edge.recall
Edge-of_allowed picked_up delivered h = Edge.deliver
Edge-of_allowed picked_up delivery_failed h = Edge.fail_delivery
Edge-of_allowed _ _ h = cc

pub allowed_of_Edge : {a b : OrderStatus} → Edge a b → allowed_transition a b ≡ true
unfolding allowed_transition
allowed_of_Edge Edge.pay = refl
allowed_of_Edge _ = refl

-- A failed status has details of its stage, and no other status has any.
abbrev pub ExplainedAs : OrderStatus → Option FailureDetails → Type 0
ExplainedAs submission_failed failure =
    (f : FailureDetails) × (failure ≡ some f) × (f.stage ≡ submission)
ExplainedAs delivery_failed failure =
    (f : FailureDetails) × (failure ≡ some f) × (f.stage ≡ delivery)
ExplainedAs _ failure = failure ≡ none

abbrev pub PaidAs : Option OrderPayment → PaymentStatus → Type 0
PaidAs payment wanted = (p : OrderPayment) × (payment ≡ some p) × (p.status ≡ wanted)

-- An order leaves AWAITING_PAYMENT to be submitted only when it is paid, and to be cancelled only
-- when its payment is cancelled.
abbrev pub PaidFor : OrderStatus → OrderStatus → Option OrderPayment → Type 0
PaidFor awaiting_payment pending_submission payment = PaidAs payment succeeded
PaidFor awaiting_payment _ payment = PaidAs payment payment_cancelled
PaidFor _ _ payment = Unit

-- The id that a change brings is the recorded one, or the first one at submission.
abbrev pub SameProviderId : OrderStatus → Option String → Option String → Type 0
SameProviderId target given none = (given ≡ none) ⊎ (target ≡ submitted)
SameProviderId target given (some old) = (given ≡ none) ⊎ (given ≡ some old)

abbrev pub Known : Option String → Type 0
Known o = (s : String) × (o ≡ some s)

-- What a status needs to know of the provider.
abbrev pub ProviderKnown : OrderStatus → Order → OrderStatusChange → Type 0
ProviderKnown submitted order change =
    Known order.provider.delivery_provider_order_id ⊎ Known change.delivery_provider_order_id
ProviderKnown picked_up order change =
    Known order.provider.delivery_provider_order_id × Known order.provider.accepted_at
ProviderKnown delivered order change =
    Known order.provider.delivery_provider_order_id × Known order.provider.accepted_at
ProviderKnown delivery_failed order change =
    Known order.provider.delivery_provider_order_id × Known order.provider.accepted_at
ProviderKnown _ order change = Unit

pub record Permits (order : Order) (change : OrderStatusChange) (at : String) : Type 0 where
  pub edge : Edge order.status change.target_status
  pub in_time : NotAfter order.created_at at
  pub explained : ExplainedAs change.target_status change.failure
  pub paid : PaidFor order.status change.target_status order.payment
  pub same_id :
      SameProviderId change.target_status change.delivery_provider_order_id
        order.provider.delivery_provider_order_id
  pub known : ProviderKnown change.target_status order change

-- What an applied change records, and what it leaves alone.
pub record Follows (o : Order) (c : OrderStatusChange) (at : String) (q : Order) : Type 0 where
  pub status : q.status ≡ c.target_status
  pub failure : q.failure ≡ c.failure
  pub version : q.version ≡ suc o.version
  pub updated : q.updated_at ≡ at
  pub created : q.created_at ≡ o.created_at
  pub order_id : q.order_id ≡ o.order_id
  pub merchant_id : q.merchant_id ≡ o.merchant_id
  pub merchant_order_id : q.merchant_order_id ≡ o.merchant_order_id
  pub items : q.items ≡ o.items
  pub total : q.total ≡ o.total
  pub pickup : q.pickup ≡ o.pickup
  pub dropoff : q.dropoff ≡ o.dropoff
  pub payment : q.payment ≡ o.payment
  pub submission_key :
      q.provider.delivery_provider_submission_key ≡ o.provider.delivery_provider_submission_key
