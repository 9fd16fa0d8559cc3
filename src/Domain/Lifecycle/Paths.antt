-- ===== src/Domain/Lifecycle/Paths.antt =====
-- What holds of an order along every path of its life.
use serverless_order_integra.Base.{
  ◌≤◌, String, ◌≡◌, refl, true, false, some, none, ok, fresh, arith,
}
use serverless_order_integra.Domain.Status.{awaiting_payment, is_terminal_order_status}
use serverless_order_integra.Domain.Order.{Order}
use serverless_order_integra.Domain.Transition.{
  OrderStatusChange, provider_for_change, apply_order_status_change,
}
use serverless_order_integra.Domain.Transition.Permits.{Edge, Follows}
use serverless_order_integra.Domain.Transition.Decides.{apply-Passed, apply-Permits, apply-Follows}
use serverless_order_integra.Domain.Lifecycle.{
  Step, Reach, here, next, IsSound, Step-IsSound, is_accepted, is_before_acceptance,
}

-- An order as `createOrder` stores it, as far as its life depends on it.
pub record IsNew (o : Order) : Type 0 where
  pub status : o.status ≡ awaiting_payment
  pub no_failure : o.failure ≡ none
  pub no_id : o.provider.delivery_provider_order_id ≡ none
  pub no_acceptance : o.provider.accepted_at ≡ none

IsNew-IsSound : {o : Order} → IsNew o → IsSound o
IsNew-IsSound n = ground arith

Reach-IsSound : {o q : Order} → Reach o q → IsSound o → IsSound q
Reach-IsSound here s = s
Reach-IsSound (next r st) s = Step-IsSound st (Reach-IsSound r s)

-- Every order that is reached from a new one, by any steps, is sound: in a status other than
-- AWAITING_PAYMENT and CANCELLED its payment has succeeded; submitted, picked up, delivered or failed
-- in delivery it has its provider's id and acceptance time, and before acceptance it has neither; and
-- it has failure details exactly in a failed status, of that status' stage.
pub new_order_stays-IsSound : (o q : Order) → IsNew o → Reach o q → IsSound q
new_order_stays-IsSound o q n r = Reach-IsSound r (IsNew-IsSound n)

-- What no step changes, and the version.
pub record Keeps (o q : Order) : Type 0 where
  pub order_id : q.order_id ≡ o.order_id
  pub merchant_id : q.merchant_id ≡ o.merchant_id
  pub merchant_order_id : q.merchant_order_id ≡ o.merchant_order_id
  pub items : q.items ≡ o.items
  pub total : q.total ≡ o.total
  pub created : q.created_at ≡ o.created_at
  pub submission_key :
      q.provider.delivery_provider_submission_key ≡ o.provider.delivery_provider_submission_key
  pub version : o.version ≤ q.version

Follows-Keeps : {o q : Order} {c : OrderStatusChange} {at : String} → Follows o c at q → Keeps o q
Follows-Keeps f = ground arith

Step-Keeps : {o q : Order} → Step o q → Keeps o q
Step-Keeps (Step.change c at h) = Follows-Keeps (apply-Follows _ c at h)
Step-Keeps (Step.settle p p' c at e f h g) = ground arith
Step-Keeps (Step.settle_and_change p r d c at f e g h) =
    let k = Follows-Keeps (apply-Follows _ c at h) in ground arith

Keeps-trans : {o p q : Order} → Keeps o p → Keeps p q → Keeps o q
Keeps-trans a b = ground arith

-- Along any steps an order keeps its id, its merchant and the merchant's order id, its lines and
-- total, its creation time and its submission key, and its version never falls.
pub Reach-Keeps : {o q : Order} → Reach o q → Keeps o q
Reach-Keeps here = ground arith
Reach-Keeps (next r st) = Keeps-trans (Reach-Keeps r) (Step-Keeps st)

provider_keeps_id :
    (o : Order) (c : OrderStatusChange) (at : String) {q : Order} {id : String}
    → apply_order_status_change o c at ≡ ok (fresh q)
    → o.provider.delivery_provider_order_id ≡ some id
    → q.provider.delivery_provider_order_id ≡ some id
unfolding provider_for_change
provider_keeps_id o c at h e =
    let x = apply-Passed o c at h in let y = x.provider_ok in ground arith

Step-id :
    {o q : Order} {id : String}
    → Step o q
    → o.provider.delivery_provider_order_id ≡ some id
    → q.provider.delivery_provider_order_id ≡ some id
Step-id (Step.change c at h) e = provider_keeps_id _ c at h e
Step-id (Step.settle p p' c at e f h g) k = ground arith
Step-id (Step.settle_and_change p r d c at f e g h) k = provider_keeps_id _ c at h k

-- The delivery-provider order id, once recorded, is the same after any steps.
pub provider_order_id_kept :
    {o q : Order} {id : String}
    → Reach o q
    → o.provider.delivery_provider_order_id ≡ some id
    → q.provider.delivery_provider_order_id ≡ some id
provider_order_id_kept here e = e
provider_order_id_kept (next r st) e = Step-id st (provider_order_id_kept r e)

-- A sound order that is submitted, picked up, delivered or failed in delivery is, after any steps,
-- not in a status from before the provider's acceptance, so it is never submitted again.
pub no_second_submission :
    {o q : Order}
    → IsSound o
    → Reach o q
    → is_accepted o.status ≡ true
    → is_before_acceptance q.status ≡ false
no_second_submission s r a =
    let t = Reach-IsSound r s in
    let (k, l) = s.accepted a in
    let e = provider_order_id_kept r k.1 in ground (arith, t.unaccepted)

Edge-not_terminal : {a b : _} → Edge a b → is_terminal_order_status a ≡ false
unfolding is_terminal_order_status
Edge-not_terminal Edge.pay = refl
Edge-not_terminal _ = refl

terminal_no_step : {o q : Order} → Step o q → is_terminal_order_status o.status ≡ false
unfolding is_terminal_order_status
terminal_no_step (Step.change c at h) = Edge-not_terminal (apply-Permits _ c at h).edge
terminal_no_step (Step.settle p p' c at e f h g) = ground arith
terminal_no_step (Step.settle_and_change p r d c at f e g h) = ground arith

-- From an order in a terminal status no step leads on: whatever is reached from it is that order.
pub terminal_order_final :
    {o q : Order} → Reach o q → is_terminal_order_status o.status ≡ true → q ≡ o
terminal_order_final here t = refl
terminal_order_final (next r st) t =
    let e = terminal_order_final r t in let n = terminal_no_step st in ground arith
