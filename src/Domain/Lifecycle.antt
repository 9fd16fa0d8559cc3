-- ===== src/Domain/Lifecycle.antt =====
-- The life of one order: the steps by which the services change it, whatever their order.
pub mod Paths
use serverless_order_integra.Base.{
  suc, ◌+◌, ◌≤◌, String, ◌≡◌, refl, true, Bool, false, Option, none, some, ok, fresh, arith,
  Applied, applied_to, is_some,
}
use serverless_order_integra.Domain.Status.{
  OrderStatus, awaiting_payment, pending_submission, submission_failed, submitted, picked_up,
  delivered, delivery_failed, cancelled, succeeded, status_eq,
}
use serverless_order_integra.Domain.Order.{OrderPayment, Order, DeliveryProviderAssignment}
use serverless_order_integra.Domain.Transition.{
  OrderStatusChange, provider_for_change, apply_order_status_change,
}
use serverless_order_integra.Domain.Transition.Permits.{
  Edge, ExplainedAs, PaidAs, Known, Permits, PaidFor, Follows,
}
use serverless_order_integra.Domain.Transition.Decides.{apply-Passed, apply-Permits, apply-Follows}
use serverless_order_integra.Domain.PaymentChange.{PaymentStatusChange, apply_payment_status_change}

-- One step: a status change (`changeOrderStatus`, `processProviderWebhook`,
-- `processDeliveryEvent`), a payment change of an unpaid order (`prepareStripePaymentIntent`,
-- `paymentChangedOrder`), or both at once (`statusChangedOrder`).
pub data Step (o q : Order) : Type 0 where
  change :
      (c : OrderStatusChange) (at : String)
      → apply_order_status_change o c at ≡ ok (fresh q)
      → Step o q
  settle :
      (p p' : OrderPayment) (c : PaymentStatusChange) (at : String)
      → o.status ≡ awaiting_payment
      → o.payment ≡ some p
      → apply_payment_status_change p c at ≡ ok (fresh p')
      → q ≡ record o { payment = some p'; updated_at = at; version = o.version + 1 }
      → Step o q
  settle_and_change :
      (p : OrderPayment) (r : Applied OrderPayment) (d : PaymentStatusChange)
      (c : OrderStatusChange) (at : String)
      → o.payment ≡ some p
      → o.status ≡ awaiting_payment
      → apply_payment_status_change p d at ≡ ok r
      → apply_order_status_change (record o { payment = some (applied_to p r) }) c at ≡ ok (fresh q)
      → Step o q

pub data Reach (o : Order) : Order → Type 0 where
  here : Reach o o
  next : {p q : Order} → Reach o p → Step p q → Reach o q

-- The statuses from which goods may move or have moved.
abbrev pub is_submittable : OrderStatus → Bool
is_submittable awaiting_payment = false
is_submittable cancelled = false
is_submittable _ = true

-- The statuses after the provider has accepted the order.
abbrev pub is_accepted : OrderStatus → Bool
is_accepted submitted = true
is_accepted picked_up = true
is_accepted delivered = true
is_accepted delivery_failed = true
is_accepted _ = false

abbrev pub is_before_acceptance : OrderStatus → Bool
is_before_acceptance awaiting_payment = true
is_before_acceptance pending_submission = true
is_before_acceptance submission_failed = true
is_before_acceptance _ = false

pub record IsSound (o : Order) : Type 0 where
  pub paid : is_submittable o.status ≡ true → PaidAs o.payment succeeded
  pub accepted :
      is_accepted o.status ≡ true
      → Known o.provider.delivery_provider_order_id × Known o.provider.accepted_at
  pub unaccepted :
      is_before_acceptance o.status ≡ true
      → (o.provider.delivery_provider_order_id ≡ none) × (o.provider.accepted_at ≡ none)
  pub explained : ExplainedAs o.status o.failure

-- The assignment after a change: new when submission is confirmed, else the old one.
abbrev Assigned : OrderStatus → DeliveryProviderAssignment → DeliveryProviderAssignment → Type 0
Assigned submitted old new =
    (is_some new.delivery_provider_order_id ≡ true) × (is_some new.accepted_at ≡ true)
Assigned _ old new = new ≡ old

provider-Assigned :
    (o : Order) (c : OrderStatusChange) (at : String) (t : OrderStatus)
    {p : DeliveryProviderAssignment}
    → c.target_status ≡ t
    → provider_for_change o c at ≡ ok p
    → Assigned t o.provider p
unfolding provider_for_change
provider-Assigned o c at submitted et h = ground arith
provider-Assigned o c at _ et h = ground arith

-- An edge of the life cycle keeps the invariant.
Edge-IsSound :
    {a b : OrderStatus} (o q : Order)
    → Edge a b
    → o.status ≡ a
    → q.status ≡ b
    → q.payment ≡ o.payment
    → PaidFor a b o.payment
    → Assigned b o.provider q.provider
    → ExplainedAs b q.failure
    → IsSound o
    → IsSound q
Edge-IsSound o q Edge.pay ea eb ep pd am ex s = ground arith
Edge-IsSound o q _ ea eb ep pd am ex s = ground arith

apply-IsSound :
    (o : Order) (c : OrderStatusChange) (at : String) {q : Order}
    → apply_order_status_change o c at ≡ ok (fresh q)
    → IsSound o
    → IsSound q
apply-IsSound o c at {q} h s =
    let f = apply-Follows o c at h in
    let r = apply-Permits o c at h in
    let x = apply-Passed o c at h in
    Edge-IsSound o q r.edge refl f.status f.payment r.paid
      (provider-Assigned o c at _ refl x.provider_ok) (rw f.failure r.explained) s

-- Every step keeps an order sound.
pub Step-IsSound : {o q : Order} → Step o q → IsSound o → IsSound q
Step-IsSound {o} (Step.change c at h) s = apply-IsSound o c at h s
Step-IsSound {o} {q} (Step.settle p p' c at e f h g) s = ground arith
Step-IsSound {o} (Step.settle_and_change p r d c at f e g h) s =
    apply-IsSound (record o { payment = some (applied_to p r) }) c at h
      (record {
        paid = ground arith;
        accepted = s.accepted;
        unaccepted = s.unaccepted;
        explained = s.explained;
      })
