-- ===== src/App/StripeProposal/Sound.antt =====
-- When a Stripe event may change an order, and that the change is a step of the order's life.
use serverless_order_integra.Base.{
  String, ◌≡◌, refl, inl, inr, true, Option, none, some, ok, arith, eq_iff, Bool-cases,
  Option-cases, Result-cases, fresh, same, Applied, applied_to,
}
use serverless_order_integra.Domain.Status.{
  awaiting_payment, status_eq_iff, PaymentStatus, is_terminal_payment_status,
}
use serverless_order_integra.Domain.Order.{Order, OrderPayment}
use serverless_order_integra.Domain.Transition.{apply_order_status_change}
use serverless_order_integra.Domain.Transition.Decides.{apply_same_iff}
use serverless_order_integra.Domain.PaymentChange.{apply_payment_status_change}
use serverless_order_integra.Domain.Lifecycle.{Step}
use serverless_order_integra.Repository.Contract.{StripeWebhookOrderMutation}
use serverless_order_integra.App.PreparePayment.{
  StripePaymentIntentSnapshot, payment_status, requires_capture, StripePaymentIntentStatus,
  is_automatic, with_payment, snapshot_change,
}
use serverless_order_integra.App.StripeProposal.{
  ProcessStripeWebhookCommand, apply_change, same_money, payment_changed_order,
  status_changed_order, propose_change, settled_change, settle,
}

-- What a snapshot that changes an order has in common with it.
pub record Matches (o : Order) (s : StripePaymentIntentSnapshot) : Type 0 where
  pub merchant : o.merchant_id ≡ s.merchant_id
  pub order : o.order_id ≡ s.order_id
  pub amount :
      (p : OrderPayment) × (o.payment ≡ some p)
      × (p.amount.amount_minor ≡ s.amount.amount_minor)
      × (p.amount.currency ≡ s.amount.currency)
  pub automatic : is_automatic s.capture_method ≡ true
  pub unpaid : o.status ≡ awaiting_payment

module _ (o : Order) (s : StripePaymentIntentSnapshot) (status : PaymentStatus) (at : String) where
  payment_changed_order-shape :
      {q : Order}
      → payment_changed_order o s status at ≡ ok (fresh q)
      → (p : OrderPayment) × (p' : OrderPayment) × (o.payment ≡ some p)
        × (apply_payment_status_change p (snapshot_change s status at) at ≡ ok (fresh p'))
        × (q ≡ with_payment o p' at)
  unfolding payment_changed_order
  payment_changed_order-shape h = ground arith

  payment_changed_order-Step :
      {q : Order}
      → o.status ≡ awaiting_payment
      → payment_changed_order o s status at ≡ ok (fresh q)
      → Step o q
  payment_changed_order-Step e h =
      let (p, p', f, g, k) = payment_changed_order-shape h in
      Step.settle p p' (snapshot_change s status at) at e f g k

  -- The order that the status change is applied to.
  abbrev paid_base : OrderPayment → Applied OrderPayment → Order
  paid_base p r = record o { payment = some (applied_to p r) }

  settled_of :
      {q : Order} (p : OrderPayment) (r : Applied OrderPayment)
      → o.status ≡ awaiting_payment
      → o.payment ≡ some p
      → apply_payment_status_change p (snapshot_change s status at) at ≡ ok r
      → status_changed_order o s status at ≡ ok (fresh q)
      → apply_order_status_change (paid_base p r) (settled_change status) at ≡ ok (fresh q)
  unfolding payment_changed_order status_changed_order
  settled_of p same e f g h =
      ground (arith, e, apply_same_iff (paid_base p same) (settled_change status) at)
  settled_of p (fresh p') e f g h =
      ground (arith, e, apply_same_iff (paid_base p (fresh p')) (settled_change status) at)

  status_changed_order-shape :
      {q : Order}
      → o.status ≡ awaiting_payment
      → status_changed_order o s status at ≡ ok (fresh q)
      → (p : OrderPayment) × (o.payment ≡ some p)
        × (r : Applied OrderPayment) × (apply_payment_status_change p
              (snapshot_change s status at)
              at
            ≡ ok r)
        × (apply_order_status_change
              (record o { payment = some (applied_to p r) })
              (settled_change status)
              at
            ≡ ok (fresh q))
  unfolding payment_changed_order status_changed_order
  status_changed_order-shape {q} e h = elim (Option-cases o.payment) [
    | inl n ↦ ground (arith, n)
    | inr (p, f) ↦
        elim (Result-cases (apply_payment_status_change p (snapshot_change s status at) at)) [
          | inr (x, g) ↦ ground (arith, f, g)
          | inl (r, g) ↦ (p, f, r, g, settled_of p r e f g h)
        ]
  ]

  status_changed_order-Step :
      {q : Order}
      → o.status ≡ awaiting_payment
      → status_changed_order o s status at ≡ ok (fresh q)
      → Step o q
  status_changed_order-Step e h =
      let (p, f, r, g, k) = status_changed_order-shape e h in
      Step.settle_and_change p r (snapshot_change s status at) (settled_change status) at f e g k

settle-Step :
    (o : Order) (s : StripePaymentIntentSnapshot) (status : PaymentStatus) (at : String) {q : Order}
    → o.status ≡ awaiting_payment
    → settle o s status at ≡ ok (fresh q)
    → Step o q
settle-Step o s status at e h = elim (Bool-cases (is_terminal_payment_status status)) [
  | inl y ↦ status_changed_order-Step o s status at e (ground (arith, y))
  | inr n ↦ payment_changed_order-Step o s status at e (ground (arith, n))
]

module _ (c : ProcessStripeWebhookCommand) (o : Order) (s : StripePaymentIntentSnapshot)
    (at : String) where
  propose_change-settle :
      {q : Order} {m : StripeWebhookOrderMutation} (p : Option OrderPayment)
      (x : StripePaymentIntentStatus)
      → o.payment ≡ p
      → s.status ≡ x
      → propose_change c o s at ≡ ok (apply_change q m)
      → Matches o s × (status : PaymentStatus) × (settle o s status at ≡ ok (fresh q))
  unfolding propose_change same_money
  propose_change-settle none x f g h = ground (arith, f)
  propose_change-settle (some p) requires_capture f g h = ground (arith, f, g)
  propose_change-settle (some p) (payment_status status) f g h = (
    record {
      merchant = ground (arith, f, g, eq_iff o.merchant_id s.merchant_id);
      order = ground (arith, f, g, eq_iff o.order_id s.order_id);
      amount = (
        p,
        f,
        ground (arith, f, g),
        ground (arith, f, g, eq_iff p.amount.currency s.amount.currency),
      );
      automatic = ground (arith, f, g);
      unpaid = ground (arith, f, g, status_eq_iff o.status awaiting_payment);
    },
    status,
    ground (arith, f, g),
  )

  -- A Stripe event changes an order only when the intent that Stripe holds names the order and its
  -- merchant, has the amount and currency of its payment and captures automatically, and the order
  -- still awaits payment; and the changed order is one step of the order's life cycle away.
  pub propose_change-Matches :
      {q : Order} {m : StripeWebhookOrderMutation}
      → propose_change c o s at ≡ ok (apply_change q m)
      → Matches o s × Step o q
  propose_change-Matches h =
      let (m, status, k) = propose_change-settle o.payment s.status refl refl h in
      (m, settle-Step o s status at m.unpaid k)
